-- ===== src/Api/Coordinator/Success.antt =====
-- A transaction that went through keeps the promise of its status, whatever becomes of the shadow state.
use aria_underlay.Base.{
  Text, text, List, ◌∷◌, ◌++◌, Option, none, some, ◌≡◌, refl, sym, subst, ◌⊎◌, inl, inr, Bool-cases,
  Option-cases,
}
use aria_underlay.Base.Errors.{UnderlayError, ok, err, Result-cases}
use aria_underlay.Planner.DevicePlan.{DeviceDesiredState}
use aria_underlay.State.Shadow.{DeviceShadowState}
use aria_underlay.Engine.Diff.{ChangeSet}
use aria_underlay.Engine.Diff.Apply.{apply_to_shadow}
use aria_underlay.Tx.Phase.{TxPhase, validate_transition, is_allowed, is_listed, TxPhase-discrete}
use aria_underlay.Tx.Strategy.{TransactionStrategy, is_degraded}
use aria_underlay.Api.Response.{DeviceVerifyReport}
use aria_underlay.Api.Apply.{degraded_strategy_warnings}
use aria_underlay.Api.Apply.Failure.{journal_error_fields}
use aria_underlay.Api.Coordinator.Env.{Env, Run, Event, stored, transition, put, store_shadow}
use aria_underlay.Api.Coordinator.Endpoint.{find_change_set}
use aria_underlay.Api.Coordinator.Finish.{
  commit_record, ended, doubtful, shadow_failed, change_set_missing, success_result, update_shadow,
  finish_successful_apply,
}
use aria_underlay.Api.Coordinator.Rules.{Sat-ok}
use aria_underlay.Api.Coordinator.Steps.{Calls, At, last_phase, calls}
use aria_underlay.Api.Coordinator.Confirm.{Carried}
use aria_underlay.Api.Coordinator.Promise.{
  Completed, Ends, Moved, transition-Moved, put-At, noted-At, committing-Moved,
}

module _ (env : Env) (desired : DeviceDesiredState) (changes : ChangeSet) where
  store_shadow-cases :
      (state : DeviceShadowState) (s : Run)
      → (store_shadow env state s ≡ (record s { events = stored state ∷ s.events }, ok tt))
        ⊎ ((e : UnderlayError) × (store_shadow env state s ≡ (s, err e)))
  unfolding store_shadow
  store_shadow-cases state s = elim (Option-cases (env.shadow_put_error s state)) [
    | inl e ↦ inl (rw (store_shadow, e))
    | inr (f, e) ↦ inr (f, rw (store_shadow, e))
  ]

  module _ (journaled : (s : Run) → env.journal_error s ≡ none) where
    module _ (tx_id : Text) (strategy : TransactionStrategy)
        (report : Option DeviceVerifyReport) where
      shadow_failed-Ends :
          (what why note : Text) (warnings : List Text) (error : UnderlayError) (cs : Calls)
          (s : Run)
          → At TxPhase.committed cs s
          → Ends env desired changes
              (shadow_failed env desired tx_id strategy report what why note warnings error s)
      unfolding shadow_failed doubtful ended validate_transition is_allowed is_listed
          TxPhase-discrete
      shadow_failed-Ends what why note warnings error cs s a =
          let (_, t, e, m) =
            Sat-ok (λ _. Moved env desired changes TxPhase.in_doubt cs)
              (transition env TxPhase.in_doubt s)
              (transition-Moved env desired changes journaled TxPhase.committed TxPhase.in_doubt cs
                s refl a) in
          let (_, u, e', b) =
            Sat-ok (λ _. At TxPhase.in_doubt cs) _
              (noted-At env desired changes journaled TxPhase.in_doubt cs
                (journal_error_fields error).0
                (why ++ (text ": " ++ (journal_error_fields error).1)) t m) in
          rw (e, e') (inr b.last)

      change_set_missing-Ends :
          (warnings : List Text) (cs : Calls) (s : Run)
          → At TxPhase.committed cs s
          → Ends env desired changes
              (change_set_missing env desired tx_id strategy report warnings s)
      unfolding change_set_missing doubtful ended validate_transition is_allowed is_listed
          TxPhase-discrete
      change_set_missing-Ends warnings cs s a =
          let (_, t, e, m) =
            Sat-ok (λ _. Moved env desired changes TxPhase.in_doubt cs)
              (transition env TxPhase.in_doubt s)
              (transition-Moved env desired changes journaled TxPhase.committed TxPhase.in_doubt cs
                s refl a) in
          let (_, u, e', b) =
            Sat-ok (λ _. At TxPhase.in_doubt cs) _
              (noted-At env desired changes journaled TxPhase.in_doubt cs
                (text "MISSING_CHANGE_SET")
                (text "missing change set after successful apply for device " ++ desired.device_id)
                t m) in
          rw (e, e') (inr b.last)

      module _ (cs : Calls)
          (through : Carried env.confirmed_commit_timeout_secs desired changes strategy cs) where
        success-Ends :
            (existing : Option DeviceShadowState) (before : List Event) (warnings : List Text)
            (t : Run)
            → env.shadow_get desired.device_id ≡ ok existing
            → last_phase t.events ≡ some TxPhase.committed
            → calls t.events ≡ cs
            → t.events ≡ stored (apply_to_shadow changes existing desired 0) ∷ before
            → Ends env desired changes
                (t, success_result env desired tx_id strategy report warnings)
        unfolding success_result
        success-Ends existing before warnings t r l c f = elim (Bool-cases (is_degraded strategy)) [
          | inl h ↦ rw h (all_done existing before t r l c f)
          | inr h ↦ rw h (all_done existing before t r l c f)
        ]
          where
            all_done :
                (existing : Option DeviceShadowState) (before : List Event) (t : Run)
                → env.shadow_get desired.device_id ≡ ok existing
                → last_phase t.events ≡ some TxPhase.committed
                → calls t.events ≡ cs
                → t.events ≡ stored (apply_to_shadow changes existing desired 0) ∷ before
                → Completed env desired changes (some strategy) t.events
            all_done existing before t r l c f = record {
              used = strategy;
              reported = refl;
              committed = l;
              carried =
                  subst (Carried env.confirmed_commit_timeout_secs desired changes strategy) (sym c)
                    through;
              existing = existing;
              read = r;
              before = before;
              followed = f;
            }

        update_shadow-Ends :
            (warnings : List Text) (s : Run)
            → At TxPhase.committed cs s
            → Ends env desired changes
                (update_shadow env desired tx_id strategy report changes warnings s)
        unfolding update_shadow
        update_shadow-Ends warnings s a = elim (Result-cases (env.shadow_get desired.device_id)) [
          | inl (f, e) ↦ rw e (shadow_failed-Ends _ _ _ warnings f cs s a)
          | inr (existing, e) ↦
              rw e (elim (store_shadow-cases (apply_to_shadow changes existing desired 0) s) [
                | inl h ↦ rw h (
                    success-Ends existing s.events warnings
                      (record s {
                        events = stored (apply_to_shadow changes existing desired 0) ∷ s.events;
                      })
                      e a.last a.history refl)
                | inr (f, h) ↦ rw h (shadow_failed-Ends _ _ _ warnings f cs s a)
              ])
        ]

        pub finish_successful_apply-Ends :
            (change_sets : List ChangeSet) (s : Run)
            → find_change_set desired.device_id change_sets ≡ some changes
            → At TxPhase.final_confirming cs s
            → Ends env desired changes
                (finish_successful_apply env desired tx_id strategy report change_sets s)
        unfolding finish_successful_apply
        finish_successful_apply-Ends change_sets s f a =
            let (_, t, e, m) =
              Sat-ok (λ _. Moved env desired changes TxPhase.committed cs)
                (commit_record env strategy s)
                (committing-Moved env desired changes journaled strategy cs s a) in
            let (_, u, e', b) =
              Sat-ok (λ _. At TxPhase.committed cs) (put env t)
                (put-At env desired changes journaled TxPhase.committed cs t m) in
            rw (e, e', f) (update_shadow-Ends (degraded_strategy_warnings strategy) u b)

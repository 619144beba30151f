-- ===== src/Api/Coordinator/Honest.antt =====
-- The reported status tells the truth about the journal and the device, where the journal stores what it
-- is given.
use aria_underlay.Base.{
  Text, List, [], ◌∷◌, Option, none, some, Bool, true, false, all, ◌≡◌, refl, ◌∙◌, ap, sym, subst,
  inl, inr, if◌then◌else◌, Bool-cases, text_ord,
}
use aria_underlay.Base.BTree.{same}
use aria_underlay.Base.Errors.{UnderlayError, UnderlayResult, ok, err}
use aria_underlay.Planner.DevicePlan.{DeviceDesiredState}
use aria_underlay.Engine.Diff.{ChangeSet, is_empty}
use aria_underlay.Tx.Phase.{TxPhase, validate_transition, is_allowed, is_listed, TxPhase-discrete}
use aria_underlay.Tx.Strategy.{TransactionStrategy}
use aria_underlay.Tx.Journal.{TxContext, started, with_desired_states, with_change_sets}
use aria_underlay.Api.Response.{DeviceApplyResult, DeviceVerifyReport}
use aria_underlay.Api.Apply.{failed_apply_phase, apply_status_for_failed_phase}
use aria_underlay.Api.Apply.Failure.{journal_error_fields, device_error_result, is_doubtful}
use aria_underlay.Api.Coordinator.Env.{Env, Run, Event, caught, transition, put}
use aria_underlay.Api.Coordinator.Endpoint.{find_change_set, apply_changed_endpoint_states}
use aria_underlay.Api.Coordinator.Finish.{
  ended, finish_successful_apply, failed_result, finish_failed_apply,
}
use aria_underlay.Api.Coordinator.Single.{
  DriftPolicy, prepare_plan, begun, transact, carry_plan, apply_single_endpoint_state,
}
use aria_underlay.Api.Coordinator.Rules.{Sat, Sat-ok}
use aria_underlay.Api.Coordinator.Steps.{Calls, At, Failed, undone, doubted, untouched, Undone}
use aria_underlay.Api.Coordinator.Confirm.{Carried}
use aria_underlay.Api.Coordinator.Changed.{Succeeded, apply_changed-Sat}
use aria_underlay.Api.Coordinator.Promise.{Honest, Ends, Moved, transition-Moved, put-At, noted-At}
use aria_underlay.Api.Coordinator.Success.{finish_successful_apply-Ends}
use aria_underlay.Api.Coordinator.Planned.{planned, prepare_plan-planned}

module _ (env : Env) (journaled : (s : Run) → env.journal_error s ≡ none)
    (desired : DeviceDesiredState) where
  -- An error before anything is written.
  refused-Honest :
      (changed : Bool) (tx_id : Option Text) (strategy : Option TransactionStrategy)
      (e : UnderlayError)
      → Honest env desired
          (planned env desired)
          (device_error_result desired.device_id changed tx_id strategy e).status
          (device_error_result desired.device_id changed tx_id strategy e).strategy
          []
  unfolding device_error_result
  refused-Honest changed tx_id strategy e =
      elim (Bool-cases (is_doubtful (journal_error_fields e).0)) [
        | inl h ↦ rw h (inl refl)
        | inr h ↦ rw h (refl, inl refl)
      ]

  module _ (context : TxContext) where
    failed-Ends :
        (p q : TxPhase) (cs : Calls) (e : UnderlayError) (s : Run)
        → At p cs s
        → failed_apply_phase p ≡ q
        → validate_transition p q ≡ ok tt
        → ((strategy : Option TransactionStrategy) (t : Run)
            → At q cs t
            → Honest env desired
                (planned env desired)
                (apply_status_for_failed_phase q)
                strategy
                t.events)
        → Ends env desired (planned env desired) (finish_failed_apply env desired context.tx_id e s)
    unfolding finish_failed_apply failed_result ended
    failed-Ends p q cs e s a f v k =
        let (_, t, e1, m) =
          Sat-ok (λ _. Moved env desired (planned env desired) q cs) (transition env q s)
            (transition-Moved env desired (planned env desired) journaled p q cs s v a) in
        let (_, u, e2, b) =
          Sat-ok (λ _. At q cs) _
            (noted-At env desired (planned env desired) journaled q cs (journal_error_fields e).0
              (journal_error_fields e).1 t m) in
        rw (ap failed_apply_phase a.is_in ∙ f, e1, e2) (k u.journal_record.strategy u b)

    finish_failed_apply-Ends :
        (e : UnderlayError) (s : Run)
        → Failed s
        → Ends env desired (planned env desired) (finish_failed_apply env desired context.tx_id e s)
    unfolding validate_transition is_allowed is_listed TxPhase-discrete failed_apply_phase
        apply_status_for_failed_phase
    finish_failed_apply-Ends e s (undone cs a u) =
        failed-Ends TxPhase.rolled_back TxPhase.rolled_back cs e s a refl refl
          (λ strategy t b. (subst Undone (sym b.history) u, b.last))
    finish_failed_apply-Ends e s (doubted cs a) =
        failed-Ends TxPhase.in_doubt TxPhase.in_doubt cs e s a refl refl
          (λ strategy t b. inr b.last)
    finish_failed_apply-Ends e s (untouched a) =
        failed-Ends TxPhase.preparing TxPhase.failed [] e s a refl refl
          (λ strategy t b. (b.history, inr b.last))

    -- The one change set of the plan is the one that the loop finds.
    found_planned :
        (changes : ChangeSet)
        → find_change_set desired.device_id (planned env desired ∷ []) ≡ some changes
        → planned env desired ≡ changes
    unfolding find_change_set
    found_planned changes h =
        elim (Bool-cases (same (planned env desired).device_id desired.device_id)) [
          | inl e ↦ let found = rw e at h in cc
          | inr e ↦ let missed = rw e at h in cc
        ]

    settled-Ends :
        (allow : Bool)
        (out : Run × UnderlayResult (TransactionStrategy × Option DeviceVerifyReport))
        → Sat (Succeeded env journaled desired allow (planned env desired ∷ [])) Failed out
        → Ends env desired (planned env desired) (
            caught
              (finish_failed_apply env desired context.tx_id)
              (λ done.
                finish_successful_apply env desired context.tx_id done.0 done.1
                  (planned env desired ∷ []))
              out)
    settled-Ends allow (s, err e) h = finish_failed_apply-Ends e s h
    settled-Ends allow (s, ok done) (changes, f, (cs, a, through)) =
        let same_set = found_planned changes f in
        finish_successful_apply-Ends env desired (planned env desired) journaled context.tx_id
          done.0 done.1 cs
          (subst (λ x. Carried env.confirmed_commit_timeout_secs desired x done.0 cs) (sym same_set)
            through)
          (planned env desired ∷ []) s (f ∙ ap some (sym same_set)) a

    transact-Ends :
        (allow : Bool)
        → Ends env desired (planned env desired) (
            transact env allow desired
              (planned env desired ∷ [])
              context
              (begun env desired (planned env desired ∷ []) context))
    unfolding transact started with_desired_states with_change_sets validate_transition is_allowed
        is_listed TxPhase-discrete
    transact-Ends allow =
        let s = begun env desired (planned env desired ∷ []) context in
        let (_, t, e1, a) =
          Sat-ok (λ _. At TxPhase.started []) (put env s)
            (put-At env desired (planned env desired) journaled TxPhase.started [] s
              (record { is_in = refl; history = refl })) in
        let (_, u, e2, b) =
          Sat-ok (λ _. Moved env desired (planned env desired) TxPhase.preparing [])
            (transition env TxPhase.preparing t)
            (transition-Moved env desired (planned env desired) journaled TxPhase.started
              TxPhase.preparing [] t refl a) in
        let (_, v, e3, c) =
          Sat-ok (λ _. At TxPhase.preparing []) (put env u)
            (put-At env desired (planned env desired) journaled TxPhase.preparing [] u b) in
        rw (e1, e2, e3)
          (settled-Ends allow
            (apply_changed_endpoint_states env allow (planned env desired ∷ []) (desired ∷ []) v)
            (apply_changed-Sat env journaled desired allow (planned env desired ∷ []) v c))

    -- What is promised of a whole run.
    abbrev Told : List Event × DeviceApplyResult → Type 0
    Told out = Honest env desired (planned env desired) out.1.status out.1.strategy out.0

    either :
        (b : Bool) (x y : List Event × DeviceApplyResult)
        → Told x
        → Told y
        → Told (if b then x else y)
    either true x y h k = h
    either false x y h k = k

    carry_plan-Told :
        (allow : Bool) (policy : DriftPolicy) (plan : UnderlayResult (List ChangeSet))
        → prepare_plan env desired policy ≡ plan
        → Told (carry_plan env desired allow context plan)
    unfolding carry_plan
    carry_plan-Told allow policy (err e) h = refused-Honest false none none e
    carry_plan-Told allow policy (ok change_sets) h =
        rw (prepare_plan-planned env desired policy change_sets h)
          (either (all is_empty (planned env desired ∷ [])) _ _ refl (transact-Ends allow))

  -- If the journal stores whatever it is given, then the status that is reported for a device is true,
  -- whatever the adapter answers. A success means that the adapter has prepared the device, committed what
  -- it prepared, verified it against what was asked for and the change set that was computed from the
  -- state the adapter had reported, and confirmed it where the strategy asks for it, each with the answer
  -- that the code asks for and with no other call; that the journal ends with `Committed`; and that the
  -- new shadow state was stored last. A rollback means that the last call of the adapter was a rollback
  -- that it answered as done, and that the journal ends with `RolledBack`. A failure means that the
  -- adapter was asked to change nothing, and that the journal holds nothing or ends with `Failed`. A
  -- result in doubt means that nothing was done, or that the journal ends with `InDoubt`. A no-op means
  -- that nothing was done. No device is reported as partly successful.
  pub apply_single_endpoint_state-Honest :
      (allow : Bool) (policy : DriftPolicy) (context : TxContext)
      → Honest env desired
          (planned env desired)
          (apply_single_endpoint_state env desired allow policy context).1.status
          (apply_single_endpoint_state env desired allow policy context).1.strategy
          (apply_single_endpoint_state env desired allow policy context).0
  unfolding apply_single_endpoint_state
  apply_single_endpoint_state-Honest allow policy context =
      carry_plan-Told context allow policy (prepare_plan env desired policy) refl

-- ===== src/Api/Coordinator/Logged/Whole.antt =====
-- A whole run on one device keeps the log.
use aria_underlay.Base.{
  Text, text, List, [], ◌∷◌, ◌++◌, Option, none, some, Bool, true, false, all, ◌≡◌, refl, inl, inr,
  if◌then◌else◌, Option-cases,
}
use aria_underlay.Base.Errors.{UnderlayError, UnderlayResult, ok, err, Result-cases}
use aria_underlay.Planner.DevicePlan.{DeviceDesiredState}
use aria_underlay.State.Shadow.{DeviceShadowState}
use aria_underlay.Engine.Diff.{ChangeSet, is_empty}
use aria_underlay.Engine.Diff.Apply.{apply_to_shadow}
use aria_underlay.Tx.Phase.{TxPhase}
use aria_underlay.Tx.Strategy.{TransactionStrategy}
use aria_underlay.Tx.Journal.{
  TxContext, started, with_desired_states, with_change_sets, with_strategy, with_error,
}
use aria_underlay.Api.Response.{DeviceApplyResult, DeviceVerifyReport}
use aria_underlay.Api.Apply.{failed_apply_phase}
use aria_underlay.Api.Apply.Failure.{journal_error_fields}
use aria_underlay.Api.Coordinator.Env.{
  Env, Run, Event, pure, caught, ◌>>=◌, transition, put, set_strategy, note_error, store_shadow,
}
use aria_underlay.Api.Coordinator.Admit.{choose}
use aria_underlay.Api.Coordinator.Endpoint.{
  find_change_set, carry_out, apply_endpoint, Progress, visit, selected, apply_endpoints,
  apply_changed_endpoint_states,
}
use aria_underlay.Api.Coordinator.Finish.{
  note_and_put, commit_record, shadow_failed, change_set_missing, update_shadow,
  finish_successful_apply, finish_failed_apply,
}
use aria_underlay.Api.Coordinator.Single.{
  DriftPolicy, prepare_plan, begun, transact, carry_plan, apply_single_endpoint_state,
}
use aria_underlay.Api.Coordinator.Rules.{Sat, Sat-caught, Sat-lift, Sat-if, Sat-cases}
use aria_underlay.Api.Coordinator.Logged.{Logged, Sound, In, transition-Sound, put-Sound}
use aria_underlay.Api.Coordinator.Logged.Steps.{carry_out-Sound}

module _ (env : Env) (desired : DeviceDesiredState) (context : TxContext) where
  abbrev Held : Run → Type 0
  Held = Sound context.tx_id (desired.device_id ∷ [])

  abbrev Kept : {A : Type 0} → A → Run → Type 0
  Kept a t = Held t

  abbrev Preparing : {A : Type 0} → A → Run → Type 0
  Preparing a t = Held t × (t.journal_record.phase ≡ TxPhase.preparing)

  endpoint-Held :
      (allow : Bool) (changes : ChangeSet) (s : Run)
      → Preparing tt s
      → Sat Kept Held (apply_endpoint env allow desired changes s)
  unfolding apply_endpoint
  endpoint-Held allow changes s h =
      Sat-lift Kept Held (choose env allow desired.device_id)
        (λ strategy. carry_out env desired changes strategy >>= λ report. pure (strategy, report)) s
        h.0
        (λ strategy.
          Sat-caught Kept Kept Held (λ report. pure (strategy, report))
            (carry_out env desired changes strategy s)
            (carry_out-Sound context.tx_id (desired.device_id ∷ []) env desired changes strategy s
              h)
            (λ report t k. k))

  visit-Held :
      (allow : Bool) (found : Option ChangeSet) (s : Run)
      → Preparing tt s
      → Sat Kept Held (visit env allow desired (none, none) pure found s)
  unfolding visit
  visit-Held allow none s h = h.0
  visit-Held allow (some changes) s h =
      Sat-if Kept Held (is_empty changes) _ _ s (λ _. h.0)
        (λ _.
          Sat-caught Kept Kept Held (λ done. pure (some done.0, some done.1))
            (apply_endpoint env allow desired changes s) (endpoint-Held allow changes s h)
            (λ done t k. k))

  selected-Held : (found : Progress env) (t : Run) → Held t → Sat Kept Held (selected env found t)
  selected-Held (none, report) t h = h
  selected-Held (some strategy, report) t h = h

  apply_changed-Held :
      (allow : Bool) (change_sets : List ChangeSet) (s : Run)
      → Preparing tt s
      → Sat Kept Held (apply_changed_endpoint_states env allow change_sets (desired ∷ []) s)
  unfolding apply_changed_endpoint_states apply_endpoints
  apply_changed-Held allow change_sets s h =
      Sat-caught Kept Kept Held (selected env)
        (apply_endpoints env allow change_sets (none, none) (desired ∷ []) s)
        (visit-Held allow (find_change_set desired.device_id change_sets) s h) selected-Held

  moved-Held : (phase : TxPhase) (s : Run) → Held s → Sat Kept Held (transition env phase s)
  moved-Held phase s h =
      weaker _ (transition-Sound context.tx_id (desired.device_id ∷ []) env phase s h)
    where
      weaker :
          (out : Run × UnderlayResult (Unit {0}))
          → Sat (In context.tx_id (desired.device_id ∷ []) env phase) Held out
          → Sat Kept Held out
      weaker (s, ok a) h = h.0
      weaker (s, err e) h = h

  stored-Held : (s : Run) → Held s → Sat Kept Held (put env s)
  stored-Held s h = put-Sound context.tx_id (desired.device_id ∷ []) env s h

  put-Preparing : (s : Run) → Preparing tt s → Sat Preparing Held (put env s)
  unfolding put
  put-Preparing s h = elim (Option-cases (env.journal_error s)) [
    | inl e ↦ rw (put, e) (record { owned = h.0.owned; logged = (h.0.owned, h.0.logged) }, h.1)
    | inr (f, e) ↦ rw (put, e) h.0
  ]

  noted-Held :
      (code message : Text) (s : Run) → Held s → Sat Kept Held (note_and_put env code message s)
  unfolding note_and_put note_error with_error
  noted-Held code message s h =
      stored-Held (note_error env code message s).0 (record { owned = h.owned; logged = h.logged })

  commit_record-Held :
      (strategy : TransactionStrategy) (s : Run)
      → Held s
      → Sat Kept Held (commit_record env strategy s)
  unfolding commit_record set_strategy with_strategy
  commit_record-Held strategy s h =
      moved-Held TxPhase.committed (set_strategy env strategy s).0
        (record { owned = h.owned; logged = h.logged })

  store_shadow-Held :
      (state : DeviceShadowState) (s : Run) → Held s → Sat Kept Held (store_shadow env state s)
  unfolding store_shadow
  store_shadow-Held state s h = elim (Option-cases (env.shadow_put_error s state)) [
    | inl e ↦ rw (store_shadow, e) (record { owned = h.owned; logged = h.logged })
    | inr (f, e) ↦ rw (store_shadow, e) h
  ]

  finish_failed_apply-Held :
      (e : UnderlayError) (s : Run)
      → Held s
      → Held (finish_failed_apply env desired context.tx_id e s).0
  unfolding finish_failed_apply
  finish_failed_apply-Held e s h =
      elim (Sat-cases Kept Held _ (moved-Held (failed_apply_phase s.journal_record.phase) s h)) [
        | inr (_, t, q, k) ↦ rw q k
        | inl (_, t, q, k) ↦
            elim (Sat-cases Kept Held _
              (noted-Held (journal_error_fields e).0 (journal_error_fields e).1 t k)) [
                | inl (_, u, r, m) ↦ rw (q, r) m
                | inr (_, u, r, m) ↦ rw (q, r) m
              ]
      ]

  module _ (strategy : TransactionStrategy) (report : Option DeviceVerifyReport) where
    shadow_failed-Held :
        (what why note : Text) (warnings : List Text) (e : UnderlayError) (s : Run)
        → Held s
        → Held
            (shadow_failed env desired context.tx_id strategy report what why note warnings e s).0
    unfolding shadow_failed
    shadow_failed-Held what why note warnings e s h =
        elim (Sat-cases Kept Held _ (moved-Held TxPhase.in_doubt s h)) [
          | inr (_, t, q, k) ↦ rw q k
          | inl (_, t, q, k) ↦
              elim (Sat-cases Kept Held _ (
                noted-Held (journal_error_fields e).0
                  (why ++ (text ": " ++ (journal_error_fields e).1)) t k)) [
                    | inl (_, u, r, m) ↦ rw (q, r) m
                    | inr (_, u, r, m) ↦ rw (q, r) m
                  ]
        ]

    change_set_missing-Held :
        (warnings : List Text) (s : Run)
        → Held s
        → Held (change_set_missing env desired context.tx_id strategy report warnings s).0
    unfolding change_set_missing
    change_set_missing-Held warnings s h =
        elim (Sat-cases Kept Held _ (moved-Held TxPhase.in_doubt s h)) [
          | inr (_, t, q, k) ↦ rw q k
          | inl (_, t, q, k) ↦
              elim (Sat-cases Kept Held _ (
                noted-Held (text "MISSING_CHANGE_SET")
                  (text "missing change set after successful apply for device "
                    ++ desired.device_id)
                  t k)) [ inl (_, u, r, m) ↦ rw (q, r) m | inr (_, u, r, m) ↦ rw (q, r) m ]
        ]

    update_shadow-Held :
        (changes : ChangeSet) (warnings : List Text) (s : Run)
        → Held s
        → Held (update_shadow env desired context.tx_id strategy report changes warnings s).0
    unfolding update_shadow
    update_shadow-Held changes warnings s h =
        elim (Result-cases (env.shadow_get desired.device_id)) [
          | inl (f, e) ↦ rw e (shadow_failed-Held _ _ _ warnings f s h)
          | inr (existing, e) ↦
              elim (Sat-cases Kept Held _
                (store_shadow-Held (apply_to_shadow changes existing desired 0) s h)) [
                  | inl (_, t, q, k) ↦ rw (e, q) k
                  | inr (f, t, q, k) ↦ rw (e, q) (shadow_failed-Held _ _ _ warnings f t k)
                ]
        ]

    finish_successful_apply-Held :
        (change_sets : List ChangeSet) (s : Run)
        → Held s
        → Held (finish_successful_apply env desired context.tx_id strategy report change_sets s).0
    unfolding finish_successful_apply
    finish_successful_apply-Held change_sets s h =
        elim (Sat-cases Kept Held _ (commit_record-Held strategy s h)) [
          | inr (_, t, q, k) ↦ rw q k
          | inl (_, t, q, k) ↦ elim (Sat-cases Kept Held _ (stored-Held t k)) [
            | inr (_, u, r, m) ↦ rw (q, r) m
            | inl (_, u, r, m) ↦
                elim (Option-cases (find_change_set desired.device_id change_sets)) [
                  | inl f ↦ rw (q, r, f) (change_set_missing-Held _ u m)
                  | inr (changes, f) ↦ rw (q, r, f) (update_shadow-Held changes _ u m)
                ]
          ]
        ]

  settled-Held :
      (change_sets : List ChangeSet)
      (out : Run × UnderlayResult (TransactionStrategy × Option DeviceVerifyReport))
      → Sat Kept Held out
      → Held
          (caught
            (finish_failed_apply env desired context.tx_id)
            (λ done. finish_successful_apply env desired context.tx_id done.0 done.1 change_sets)
            out).0
  settled-Held change_sets (s, err e) h = finish_failed_apply-Held e s h
  settled-Held change_sets (s, ok done) h =
      finish_successful_apply-Held done.0 done.1 change_sets s h

  transact-Held :
      (allow : Bool) (change_sets : List ChangeSet)
      → Held
          (transact env allow desired change_sets context (begun env desired change_sets context)).0
  unfolding transact started with_desired_states with_change_sets
  transact-Held allow change_sets =
      let s = begun env desired change_sets context in
      let h : Held s = record { owned = (refl, refl); logged = tt } in
      elim (Sat-cases Kept Held _ (stored-Held s h)) [
        | inr (_, t, q, k) ↦ rw q k
        | inl (_, t, q, k) ↦
            elim (Sat-cases Preparing Held _
              (transition-Sound context.tx_id (desired.device_id ∷ []) env TxPhase.preparing t k)) [
                | inr (_, u, r, m) ↦ rw (q, r) m
                | inl (_, u, r, m) ↦
                    elim (Sat-cases Preparing Held (put env u) (put-Preparing u m)) [
                      | inr (_, v, x, n) ↦ rw (q, r, x) n
                      | inl (_, v, x, n) ↦
                          rw (q, r, x)
                            (settled-Held change_sets
                              (apply_changed_endpoint_states env allow change_sets (desired ∷ []) v)
                              (apply_changed-Held allow change_sets v n))
                    ]
              ]
      ]

  either :
      (b : Bool) (x y : List Event × DeviceApplyResult)
      → Logged context.tx_id (desired.device_id ∷ []) x.0
      → Logged context.tx_id (desired.device_id ∷ []) y.0
      → Logged context.tx_id (desired.device_id ∷ []) (if b then x else y).0
  either true x y h k = h
  either false x y h k = k

  carry_plan-Logged :
      (allow : Bool) (plan : UnderlayResult (List ChangeSet))
      → Logged context.tx_id (desired.device_id ∷ []) (carry_plan env desired allow context plan).0
  unfolding carry_plan
  carry_plan-Logged allow (err e) = tt
  carry_plan-Logged allow (ok change_sets) =
      either (all is_empty change_sets) _ _ tt (transact-Held allow change_sets).logged

  -- Whatever the journal refuses, and whatever the adapter answers, each call of the adapter for a
  -- transaction (prepare, commit, verify, final confirmation or rollback) comes directly after the journal
  -- has stored a record in the phase of that call, and every record that is stored is that of the
  -- transaction and names the device.
  pub apply_single_endpoint_state-Logged :
      (allow : Bool) (policy : DriftPolicy)
      → Logged context.tx_id
          (desired.device_id ∷ [])
          (apply_single_endpoint_state env desired allow policy context).0
  unfolding apply_single_endpoint_state
  apply_single_endpoint_state-Logged allow policy =
      carry_plan-Logged allow (prepare_plan env desired policy)

-- ===== src/Api/Coordinator/Logged/Steps.antt =====
-- The steps of the transaction on one device keep the log.
use aria_underlay.Base.{Text, List, Option}
use aria_underlay.Base.Errors.{UnderlayResult, ok, err}
use aria_underlay.Model.{DeviceId}
use aria_underlay.Planner.DevicePlan.{DeviceDesiredState}
use aria_underlay.Engine.Diff.{ChangeSet}
use aria_underlay.Tx.Phase.{TxPhase}
use aria_underlay.Tx.Strategy.{TransactionStrategy}
use aria_underlay.Tx.Journal.{with_strategy}
use aria_underlay.Api.Response.{DeviceVerifyReport}
use aria_underlay.Api.Apply.{commit_status_matches_strategy}
use aria_underlay.Api.Coordinator.Env.{
  Env, Run, prepare, commit, verify, final_confirm, AdapterOutcome, Exec, pure, ◌>>=◌, ◌>>◌, put,
  set_strategy, call,
}
use aria_underlay.Api.Coordinator.Endpoint.{
  is_prepared, is_committed, is_verified, is_confirmed_commit, check_prepared, prepare_endpoint,
  check_committed, commit_endpoint, check_verified, verify_endpoint, check_confirmed,
  final_confirm_endpoint, finalize_non_confirmed_commit, confirm_endpoint, carry_out,
}
use aria_underlay.Api.Coordinator.Rules.{Sat, Sat-caught, Sat-if}
use aria_underlay.Api.Coordinator.Logged.{
  Sound, Ready, Keeps, In, put-Ready, announce-Sat, announce_last-Sat, call-Sound, Ready-Sound,
  rollback_preserving_primary-Sound,
}

module _ (tx_id : Text) (ids : List DeviceId) (env : Env) where
  abbrev Held : Run → Type 0
  Held = Sound tx_id ids

  abbrev Kept : {A : Type 0} → A → Run → Type 0
  Kept = Keeps tx_id ids

  check_prepared-Sound :
      (answer : UnderlayResult AdapterOutcome) (s : Run)
      → Held s
      → Sat Kept Held (check_prepared env answer s)
  unfolding check_prepared
  check_prepared-Sound (err e) s h =
      rollback_preserving_primary-Sound tx_id ids env (Option Text) e s h
  check_prepared-Sound (ok o) s h =
      Sat-if Kept Held (is_prepared o.status) _ _ s
        (λ _.
          announce-Sat tx_id ids env TxPhase.prepared (pure o.prepared_candidate_checksum) s h
            (λ t r. r.sound))
        (λ _. rollback_preserving_primary-Sound tx_id ids env (Option Text) _ s h)

  check_committed-Sound :
      (strategy : TransactionStrategy) (answer : UnderlayResult AdapterOutcome) (s : Run)
      → Held s
      → Sat Kept Held (check_committed env strategy answer s)
  unfolding check_committed
  check_committed-Sound strategy (err e) s h =
      rollback_preserving_primary-Sound tx_id ids env Unit e s h
  check_committed-Sound strategy (ok o) s h =
      Sat-if Kept Held (commit_status_matches_strategy o.status strategy) _ _ s (λ _. h)
        (λ _. rollback_preserving_primary-Sound tx_id ids env Unit _ s h)

  commit_endpoint-Sound :
      (strategy : TransactionStrategy) (checksum : Option Text) (s : Run)
      → Held s
      → Sat Kept Held (commit_endpoint env strategy checksum s)
  unfolding commit_endpoint
  commit_endpoint-Sound strategy checksum s h =
      announce-Sat tx_id ids env TxPhase.committing
        (call env (commit strategy env.confirmed_commit_timeout_secs checksum)
          >>= check_committed env strategy)
        s h
        (λ t r.
          call-Sound tx_id ids env (commit strategy env.confirmed_commit_timeout_secs checksum)
            (check_committed env strategy) t r (check_committed-Sound strategy))

  check_verified-Sound :
      (desired : DeviceDesiredState) (changes : ChangeSet) (answer : UnderlayResult AdapterOutcome)
      (s : Run)
      → Held s
      → Sat Kept Held (check_verified env desired changes answer s)
  unfolding check_verified
  check_verified-Sound desired changes (err e) s h =
      rollback_preserving_primary-Sound tx_id ids env DeviceVerifyReport e s h
  check_verified-Sound desired changes (ok o) s h =
      Sat-if Kept Held (is_verified o.status) _ _ s (λ _. h)
        (λ _. rollback_preserving_primary-Sound tx_id ids env DeviceVerifyReport _ s h)

  verify_endpoint-Sound :
      (desired : DeviceDesiredState) (changes : ChangeSet) (s : Run)
      → Held s
      → Sat Kept Held (verify_endpoint env desired changes s)
  unfolding verify_endpoint
  verify_endpoint-Sound desired changes s h =
      announce-Sat tx_id ids env TxPhase.verifying
        (call env (verify desired changes) >>= check_verified env desired changes) s h
        (λ t r.
          call-Sound tx_id ids env (verify desired changes) (check_verified env desired changes) t r
            (check_verified-Sound desired changes))

  check_confirmed-Sound :
      (answer : UnderlayResult AdapterOutcome) (s : Run)
      → Held s
      → Sat Kept Held (check_confirmed env answer s)
  unfolding check_confirmed
  check_confirmed-Sound (err e) s h = rollback_preserving_primary-Sound tx_id ids env Unit e s h
  check_confirmed-Sound (ok o) s h =
      Sat-if Kept Held (is_committed o.status) _ _ s (λ _. h)
        (λ _. rollback_preserving_primary-Sound tx_id ids env Unit _ s h)

  confirm_endpoint-Sound :
      (strategy : TransactionStrategy) (s : Run)
      → Held s
      → Sat Kept Held (confirm_endpoint env strategy s)
  unfolding confirm_endpoint final_confirm_endpoint finalize_non_confirmed_commit
  confirm_endpoint-Sound strategy s h =
      Sat-if Kept Held (is_confirmed_commit strategy) _ _ s
        (λ _.
          announce-Sat tx_id ids env TxPhase.final_confirming
            (call env final_confirm >>= check_confirmed env) s h
            (λ t r.
              call-Sound tx_id ids env final_confirm (check_confirmed env) t r
                check_confirmed-Sound))
        (λ _.
          Ready-Sound tx_id ids env TxPhase.final_confirming _
            (announce_last-Sat tx_id ids env TxPhase.final_confirming s h))

  -- What follows the preparation.
  abbrev afterwards :
      DeviceDesiredState → ChangeSet → TransactionStrategy → Option Text → Exec DeviceVerifyReport
  afterwards desired changes strategy checksum = do
    commit_endpoint env strategy checksum
    report ← verify_endpoint env desired changes
    confirm_endpoint env strategy
    pure report

  afterwards-Sound :
      (desired : DeviceDesiredState) (changes : ChangeSet) (strategy : TransactionStrategy)
      (checksum : Option Text) (s : Run)
      → Held s
      → Sat Kept Held (afterwards desired changes strategy checksum s)
  afterwards-Sound desired changes strategy checksum s h =
      Sat-caught Kept Kept Held
        (λ _. verify_endpoint env desired changes >>= λ report.
          confirm_endpoint env strategy >> pure report)
        (commit_endpoint env strategy checksum s) (commit_endpoint-Sound strategy checksum s h)
        (λ _ t k.
          Sat-caught Kept Kept Held (λ report. confirm_endpoint env strategy >> pure report)
            (verify_endpoint env desired changes t) (verify_endpoint-Sound desired changes t k)
            (λ report u m.
              Sat-caught Kept Kept Held (λ _. pure report) (confirm_endpoint env strategy u)
                (confirm_endpoint-Sound strategy u m) (λ _ v n. n)))

  pub carry_out-Sound :
      (desired : DeviceDesiredState) (changes : ChangeSet) (strategy : TransactionStrategy)
      (s : Run)
      → In tx_id ids env TxPhase.preparing tt s
      → Sat Kept Held (carry_out env desired changes strategy s)
  unfolding carry_out set_strategy with_strategy prepare_endpoint
  carry_out-Sound desired changes strategy s h =
      Sat-caught (λ _. Ready tx_id ids TxPhase.preparing) Kept Held
        (λ _. prepare_endpoint env desired >>= afterwards desired changes strategy)
        (put env (set_strategy env strategy s).0)
        (put-Ready tx_id ids env TxPhase.preparing (set_strategy env strategy s).0
          (record { owned = h.0.owned; logged = h.0.logged }, h.1))
        (λ _ t r.
          Sat-caught Kept Kept Held (afterwards desired changes strategy)
            (prepare_endpoint env desired t)
            (call-Sound tx_id ids env (prepare desired) (check_prepared env) t r
              check_prepared-Sound)
            (λ checksum u k. afterwards-Sound desired changes strategy checksum u k))

-- ===== src/Api/Coordinator/Carry.antt =====
-- The transaction on one device up to its verification: each step is answered as the code asks, or it
-- fails as `Failed` says.
use aria_underlay.Base.{Text, [], ◌∷◌, Option, none, true, ◌≡◌, refl}
use aria_underlay.Base.Errors.{UnderlayResult, ok, err}
use aria_underlay.Planner.DevicePlan.{DeviceDesiredState}
use aria_underlay.Engine.Diff.{ChangeSet}
use aria_underlay.Tx.Phase.{TxPhase, validate_transition, is_allowed, is_listed, TxPhase-discrete}
use aria_underlay.Tx.Strategy.{TransactionStrategy}
use aria_underlay.Api.Apply.{commit_status_matches_strategy}
use aria_underlay.Api.Coordinator.Env.{
  Env, Run, Operation, prepare, commit, verify, AdapterOutcome, ◌>>=◌, pure, call,
}
use aria_underlay.Api.Coordinator.Endpoint.{
  is_prepared, is_verified, check_prepared, prepare_endpoint, check_committed, commit_endpoint,
  check_verified, verify_endpoint,
}
use aria_underlay.Api.Coordinator.Rules.{Sat, Sat-if}
use aria_underlay.Api.Coordinator.Steps.{
  Calls, At, Failed, move-Sat, call-Sat, rollback_preserving_primary-Sat,
}

module _ (env : Env) (journaled : (s : Run) → env.journal_error s ≡ none)
    (desired : DeviceDesiredState) where
  abbrev pub Prepared : Option Text → Run → Type 0
  Prepared checksum t =
      (o : AdapterOutcome) × At TxPhase.prepared ((prepare desired, ok o) ∷ []) t
      × (is_prepared o.status ≡ true)
      × (o.prepared_candidate_checksum ≡ checksum)

  check_prepared-Sat :
      (answer : UnderlayResult AdapterOutcome) (s : Run)
      → At TxPhase.preparing ((prepare desired, answer) ∷ []) s
      → Sat Prepared Failed (check_prepared env answer s)
  unfolding check_prepared validate_transition is_allowed is_listed TxPhase-discrete
  check_prepared-Sat (err e) s a =
      rollback_preserving_primary-Sat env journaled Prepared e TxPhase.preparing _ s refl a
  check_prepared-Sat (ok o) s a =
      Sat-if Prepared Failed (is_prepared o.status) _ _ s
        (λ u.
          move-Sat env journaled Prepared Failed TxPhase.preparing TxPhase.prepared _
            (pure o.prepared_candidate_checksum) s refl a (λ t b. (o, b, u, refl)))
        (λ _. rollback_preserving_primary-Sat env journaled Prepared _ TxPhase.preparing _ s refl a)

  pub prepare_endpoint-Sat :
      (s : Run) → At TxPhase.preparing [] s → Sat Prepared Failed (prepare_endpoint env desired s)
  unfolding prepare_endpoint
  prepare_endpoint-Sat s a =
      call-Sat env journaled Prepared Failed TxPhase.preparing [] (prepare desired)
        (check_prepared env) s a check_prepared-Sat

  module _ (strategy : TransactionStrategy) (made : AdapterOutcome) where
    abbrev pub commit_call : Operation
    commit_call = commit strategy env.confirmed_commit_timeout_secs made.prepared_candidate_checksum

    abbrev pub Committed : Unit {0} → Run → Type 0
    Committed _ t =
        (o : AdapterOutcome) × At TxPhase.committing
          ((commit_call, ok o) ∷ (prepare desired, ok made) ∷ []) t
        × (commit_status_matches_strategy o.status strategy ≡ true)

    check_committed-Sat :
        (answer : UnderlayResult AdapterOutcome) (s : Run)
        → At TxPhase.committing ((commit_call, answer) ∷ (prepare desired, ok made) ∷ []) s
        → Sat Committed Failed (check_committed env strategy answer s)
    unfolding check_committed validate_transition is_allowed is_listed TxPhase-discrete
    check_committed-Sat (err e) s a =
        rollback_preserving_primary-Sat env journaled Committed e TxPhase.committing _ s refl a
    check_committed-Sat (ok o) s a =
        Sat-if Committed Failed (commit_status_matches_strategy o.status strategy) _ _ s
          (λ u. (o, a, u))
          (λ _.
            rollback_preserving_primary-Sat env journaled Committed _ TxPhase.committing _ s refl a)

    pub commit_endpoint-Sat :
        (s : Run)
        → At TxPhase.prepared ((prepare desired, ok made) ∷ []) s
        → Sat Committed Failed (commit_endpoint env strategy made.prepared_candidate_checksum s)
    unfolding commit_endpoint validate_transition is_allowed is_listed TxPhase-discrete
    commit_endpoint-Sat s a =
        move-Sat env journaled Committed Failed TxPhase.prepared TxPhase.committing _
          (call env commit_call >>= check_committed env strategy) s refl a
          (λ t b.
            call-Sat env journaled Committed Failed TxPhase.committing _ commit_call
              (check_committed env strategy) t b check_committed-Sat)

    module _ (changes : ChangeSet) (stored_by : AdapterOutcome) where
      abbrev pub before_verify : Calls
      before_verify = (commit_call, ok stored_by) ∷ (prepare desired, ok made) ∷ []

      abbrev pub Verified : {A : Type 0} → A → Run → Type 0
      Verified report t =
          (o : AdapterOutcome) × At TxPhase.verifying
            ((verify desired changes, ok o) ∷ before_verify) t
          × (is_verified o.status ≡ true)

      check_verified-Sat :
          (answer : UnderlayResult AdapterOutcome) (s : Run)
          → At TxPhase.verifying ((verify desired changes, answer) ∷ before_verify) s
          → Sat Verified Failed (check_verified env desired changes answer s)
      unfolding check_verified validate_transition is_allowed is_listed TxPhase-discrete
      check_verified-Sat (err e) s a =
          rollback_preserving_primary-Sat env journaled Verified e TxPhase.verifying _ s refl a
      check_verified-Sat (ok o) s a =
          Sat-if Verified Failed (is_verified o.status) _ _ s (λ u. (o, a, u))
            (λ _.
              rollback_preserving_primary-Sat env journaled Verified _ TxPhase.verifying _ s refl a)

      pub verify_endpoint-Sat :
          (s : Run)
          → At TxPhase.committing before_verify s
          → Sat Verified Failed (verify_endpoint env desired changes s)
      unfolding verify_endpoint validate_transition is_allowed is_listed TxPhase-discrete
      verify_endpoint-Sat s a =
          move-Sat env journaled Verified Failed TxPhase.committing TxPhase.verifying _
            (call env (verify desired changes) >>= check_verified env desired changes) s refl a
            (λ t b.
              call-Sat env journaled Verified Failed TxPhase.verifying _ _
                (check_verified env desired changes) t b check_verified-Sat)

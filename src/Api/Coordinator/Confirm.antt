-- ===== src/Api/Coordinator/Confirm.antt =====
-- The transaction on one device from its final confirmation on, and as a whole.
use aria_underlay.Base.{ℕ, [], ◌∷◌, ◌++◌, none, some, true, false, ◌≡◌, refl, ap, subst}
use aria_underlay.Base.Errors.{UnderlayResult, ok, err}
use aria_underlay.Planner.DevicePlan.{DeviceDesiredState}
use aria_underlay.Engine.Diff.{ChangeSet}
use aria_underlay.Tx.Phase.{TxPhase, validate_transition, is_allowed, is_listed, TxPhase-discrete}
use aria_underlay.Tx.Strategy.{TransactionStrategy}
use aria_underlay.Tx.Journal.{with_strategy}
use aria_underlay.Api.Apply.{commit_status_matches_strategy}
use aria_underlay.Api.Coordinator.Env.{
  Env, Run, prepare, commit, verify, final_confirm, AdapterOutcome, ◌>>=◌, ◌>>◌, pure, put,
  set_strategy, call,
}
use aria_underlay.Api.Coordinator.Endpoint.{
  is_prepared, is_committed, is_verified, is_confirmed_commit, prepare_endpoint, commit_endpoint,
  verify_endpoint, check_confirmed, final_confirm_endpoint, finalize_non_confirmed_commit,
  confirm_endpoint, carry_out,
}
use aria_underlay.Api.Coordinator.Rules.{Sat, Sat-caught, Sat-if, Sat-weaken}
use aria_underlay.Api.Coordinator.Steps.{
  Calls, At, Failed, move-Sat, move_last-Sat, call-Sat, put_stored, rollback_preserving_primary-Sat,
}
use aria_underlay.Api.Coordinator.Carry.{
  Prepared, Committed, before_verify, Verified, prepare_endpoint-Sat, commit_endpoint-Sat,
  verify_endpoint-Sat,
}

-- What the final confirmation has called: the adapter, for a confirmed commit, and nothing else.
abbrev pub Confirmed : TransactionStrategy → Calls → Type 0
Confirmed strategy cs = elim (is_confirmed_commit strategy) [
  | true ↦ (o : AdapterOutcome) × (cs ≡ (final_confirm, ok o) ∷ []) × (is_committed o.status ≡ true)
  | false ↦ cs ≡ []
]

-- A transaction that is carried through: its calls, and the answers, which are all as they should be. The
-- commit is for the candidate that was prepared, and the verification for what was asked for.
pub record Carried (timeout : ℕ) (desired : DeviceDesiredState) (changes : ChangeSet)
    (strategy : TransactionStrategy) (cs : Calls) : Type 0 where
  pub to_prepare : AdapterOutcome
  pub to_commit : AdapterOutcome
  pub to_verify : AdapterOutcome
  pub to_confirm : Calls
  pub in_order :
      cs
      ≡ to_confirm
        ++ (verify desired changes, ok to_verify)
          ∷ (commit strategy timeout to_prepare.prepared_candidate_checksum, ok to_commit)
          ∷ (prepare desired, ok to_prepare)
          ∷ []
  pub prepared : is_prepared to_prepare.status ≡ true
  pub committed : commit_status_matches_strategy to_commit.status strategy ≡ true
  pub verified : is_verified to_verify.status ≡ true
  pub confirmed : Confirmed strategy to_confirm

module _ (env : Env) (journaled : (s : Run) → env.journal_error s ≡ none)
    (desired : DeviceDesiredState) where
  -- What the final confirmation adds to the calls before it.
  module _ (cs : Calls) where
    abbrev Final : Unit {0} → Run → Type 0
    Final _ t =
        (o : AdapterOutcome) × At TxPhase.final_confirming ((final_confirm, ok o) ∷ cs) t
        × (is_committed o.status ≡ true)

    check_confirmed-Sat :
        (answer : UnderlayResult AdapterOutcome) (s : Run)
        → At TxPhase.final_confirming ((final_confirm, answer) ∷ cs) s
        → Sat Final Failed (check_confirmed env answer s)
    unfolding check_confirmed validate_transition is_allowed is_listed TxPhase-discrete
    check_confirmed-Sat (err e) s a =
        rollback_preserving_primary-Sat env journaled Final e TxPhase.final_confirming _ s refl a
    check_confirmed-Sat (ok o) s a =
        Sat-if Final Failed (is_committed o.status) _ _ s (λ u. (o, a, u))
          (λ _.
            rollback_preserving_primary-Sat env journaled Final _ TxPhase.final_confirming _ s refl
              a)

    final_confirm_endpoint-Sat :
        (s : Run) → At TxPhase.verifying cs s → Sat Final Failed (final_confirm_endpoint env s)
    unfolding final_confirm_endpoint validate_transition is_allowed is_listed TxPhase-discrete
    final_confirm_endpoint-Sat s a =
        move-Sat env journaled Final Failed TxPhase.verifying TxPhase.final_confirming _
          (call env final_confirm >>= check_confirmed env) s refl a
          (λ t b.
            call-Sat env journaled Final Failed TxPhase.final_confirming _ final_confirm
              (check_confirmed env) t b check_confirmed-Sat)

    finalize-Sat :
        (s : Run)
        → At TxPhase.verifying cs s
        → Sat (λ _. At TxPhase.final_confirming cs) Failed (finalize_non_confirmed_commit env s)
    unfolding finalize_non_confirmed_commit validate_transition is_allowed is_listed
        TxPhase-discrete
    finalize-Sat s a =
        move_last-Sat env journaled Failed TxPhase.verifying TxPhase.final_confirming cs s refl a

    abbrev Confirms : TransactionStrategy → Unit {0} → Run → Type 0
    Confirms strategy _ t =
        (ds : Calls) × At TxPhase.final_confirming (ds ++ cs) t × Confirmed strategy ds

    finalized-Sat :
        (strategy : TransactionStrategy) (s : Run)
        → Confirmed strategy []
        → At TxPhase.verifying cs s
        → Sat (Confirms strategy) Failed (finalize_non_confirmed_commit env s)
    finalized-Sat strategy s n a =
        Sat-weaken (λ _. At TxPhase.final_confirming cs) (Confirms strategy) Failed
          (λ _ t h. ([], h, n)) (finalize_non_confirmed_commit env s) (finalize-Sat s a)

    confirm_endpoint-Sat :
        (strategy : TransactionStrategy) (s : Run)
        → At TxPhase.verifying cs s
        → Sat (Confirms strategy) Failed (confirm_endpoint env strategy s)
    unfolding confirm_endpoint
    confirm_endpoint-Sat TransactionStrategy.confirmed_commit s a =
        Sat-weaken Final (Confirms TransactionStrategy.confirmed_commit) Failed
          (λ _ t h. ((final_confirm, ok h.0) ∷ [], h.1, (h.0, refl, h.2)))
          (final_confirm_endpoint env s) (final_confirm_endpoint-Sat s a)
    confirm_endpoint-Sat TransactionStrategy.candidate_commit s a =
        finalized-Sat TransactionStrategy.candidate_commit s refl a
    confirm_endpoint-Sat TransactionStrategy.running_rollback_on_error s a =
        finalized-Sat TransactionStrategy.running_rollback_on_error s refl a
    confirm_endpoint-Sat TransactionStrategy.best_effort_cli s a =
        finalized-Sat TransactionStrategy.best_effort_cli s refl a
    confirm_endpoint-Sat TransactionStrategy.unsupported s a =
        finalized-Sat TransactionStrategy.unsupported s refl a

  -- The whole transaction.
  abbrev pub Through : ChangeSet → TransactionStrategy → Run → Type 0
  Through changes strategy t =
      (cs : Calls) × At TxPhase.final_confirming cs t
      × Carried env.confirmed_commit_timeout_secs desired changes strategy cs

  module _ (changes : ChangeSet) (strategy : TransactionStrategy) where
    abbrev Done : {A : Type 0} → A → Run → Type 0
    Done a t = Through changes strategy t

    confirm-Sat :
        {A : Type 0} (report : A) (o1 o2 o3 : AdapterOutcome) (s : Run)
        → is_prepared o1.status ≡ true
        → commit_status_matches_strategy o2.status strategy ≡ true
        → is_verified o3.status ≡ true
        → At TxPhase.verifying
            ((verify desired changes, ok o3)
              ∷ before_verify env journaled desired strategy o1 changes o2)
            s
        → Sat Done Failed ((confirm_endpoint env strategy >> pure report) s)
    confirm-Sat report o1 o2 o3 s p c v a =
        Sat-caught (Confirms _ strategy) Done Failed (λ _. pure report)
          (confirm_endpoint env strategy s) (confirm_endpoint-Sat _ strategy s a)
          (λ _ t h. (
            _,
            h.1,
            record {
              to_prepare = o1;
              to_commit = o2;
              to_verify = o3;
              to_confirm = h.0;
              in_order = refl;
              prepared = p;
              committed = c;
              verified = v;
              confirmed = h.2;
            },
          ))

    tail-Sat :
        (o1 : AdapterOutcome) (s : Run)
        → is_prepared o1.status ≡ true
        → At TxPhase.prepared ((prepare desired, ok o1) ∷ []) s
        → Sat Done Failed (
            (do
              commit_endpoint env strategy o1.prepared_candidate_checksum
              report ← verify_endpoint env desired changes
              confirm_endpoint env strategy
              pure report)
              s)
    tail-Sat o1 s p a =
        Sat-caught (Committed env journaled desired strategy o1) Done Failed _
          (commit_endpoint env strategy _ s)
          (commit_endpoint-Sat env journaled desired strategy o1 s a)
          (λ _ t b.
            Sat-caught (Verified env journaled desired strategy o1 changes b.0) Done Failed _
              (verify_endpoint env desired changes t)
              (verify_endpoint-Sat env journaled desired strategy o1 changes b.0 t b.1)
              (λ report u d. confirm-Sat report o1 b.0 d.0 u p b.2 d.2 d.1))

    abbrev unstored : Run → Run
    unstored s = (set_strategy env strategy s).0

    unstored_put_lem :
        (s : Run)
        → At TxPhase.preparing [] s
        → Sat (λ _. At TxPhase.preparing []) Failed (put env (unstored s))
    unfolding set_strategy with_strategy
    unstored_put_lem s a =
        rw (put_stored env journaled (unstored s))
          (record { is_in = a.is_in; last = ap some a.is_in; history = a.history })

    -- The transaction goes through, or it fails as `Failed` says.
    pub carry_out-Sat :
        (s : Run)
        → At TxPhase.preparing [] s
        → Sat Done Failed (carry_out env desired changes strategy s)
    unfolding carry_out set_strategy
    carry_out-Sat s a =
        Sat-caught (λ _. At TxPhase.preparing []) Done Failed _ (put env (unstored s))
          (unstored_put_lem s a)
          (λ _ t b.
            Sat-caught (Prepared env journaled desired) Done Failed _
              (prepare_endpoint env desired t) (prepare_endpoint-Sat env journaled desired t b)
              (λ checksum u c.
                subst
                  (λ x. Sat Done Failed (
                    (do
                      commit_endpoint env strategy x
                      report ← verify_endpoint env desired changes
                      confirm_endpoint env strategy
                      pure report)
                      u))
                  c.3 (tail-Sat c.0 u c.2 c.1)))

-- ===== src/Tx/Phase/Tests.antt =====
-- Runs of one transaction: committed after a crash, refused after it was rolled back, in doubt.
use aria_underlay.Base.{[], ◌∷◌, List, true, false, ◌≡◌, ◌≢◌, refl, ◌⊎◌, ◌≤◌, ◌<◌, ◌↔◌, any}
use aria_underlay.Base.Errors.{ok}
use aria_underlay.Tx.Phase.{
  TxPhase, TxPhase-discrete, requires_recovery, validate_transition, is_allowed, is_listed,
}
use aria_underlay.Tx.Phase.Graph.{◌⟶◌, rank, validate_transition_iff, validate_transition-rank}
use aria_underlay.Tx.Phase.Paths.{
  follow, count_changes, is_decision, count_changes_bound, committed_decided, settled_final,
  recovery_settles,
}

abbrev crashed : List TxPhase
crashed =
    TxPhase.preparing ∷ TxPhase.prepared ∷ TxPhase.committing ∷ TxPhase.recovering
    ∷ TxPhase.recovering ∷ TxPhase.committed ∷ []

crashed_ok : follow TxPhase.started crashed ≡ ok TxPhase.committed
unfolding follow validate_transition is_allowed is_listed TxPhase-discrete
crashed_ok = refl

doubted_ok : follow TxPhase.committed (TxPhase.in_doubt ∷ []) ≡ ok TxPhase.in_doubt
unfolding follow validate_transition is_allowed is_listed TxPhase-discrete
doubted_ok = refl

commit_accepted : validate_transition TxPhase.prepared TxPhase.committing ≡ ok tt
unfolding validate_transition is_allowed is_listed TxPhase-discrete
commit_accepted = refl

committed_settled : requires_recovery TxPhase.committed ≡ false
unfolding requires_recovery
committed_settled = refl

verifying_unsettled : requires_recovery TxPhase.verifying ≡ true
unfolding requires_recovery
verifying_unsettled = refl

verifying_certain : TxPhase.verifying ≢ TxPhase.in_doubt
verifying_certain e = cc

validate_transition_iff_example :
    (validate_transition TxPhase.rolled_back TxPhase.recovering ≡ ok tt)
    ↔ ((TxPhase.rolled_back ≡ TxPhase.recovering) ⊎ (TxPhase.rolled_back ⟶ TxPhase.recovering))
validate_transition_iff_example = validate_transition_iff TxPhase.rolled_back TxPhase.recovering

validate_transition-rank_example :
    (TxPhase.prepared ≡ TxPhase.committing) ⊎ (rank TxPhase.prepared < rank TxPhase.committing)
validate_transition-rank_example =
    validate_transition-rank TxPhase.prepared TxPhase.committing commit_accepted

count_changes_bound_example : count_changes TxPhase.started crashed ≤ 10
count_changes_bound_example = count_changes_bound crashed crashed_ok

committed_decided_example : any is_decision crashed ≡ true
committed_decided_example = committed_decided crashed crashed_ok

settled_final_example :
    (TxPhase.in_doubt ≡ TxPhase.committed)
    ⊎ ((TxPhase.committed ≡ TxPhase.committed)
        × ((TxPhase.in_doubt ≡ TxPhase.in_doubt) ⊎ (TxPhase.in_doubt ≡ TxPhase.force_resolved)))
settled_final_example =
    settled_final TxPhase.committed (TxPhase.in_doubt ∷ []) committed_settled doubted_ok

recovery_settles_example :
    (follow TxPhase.verifying (TxPhase.recovering ∷ TxPhase.committed ∷ []) ≡ ok TxPhase.committed)
    × (follow TxPhase.verifying (TxPhase.recovering ∷ TxPhase.rolled_back ∷ [])
        ≡ ok TxPhase.rolled_back)
    × (follow TxPhase.verifying
          (TxPhase.recovering ∷ TxPhase.in_doubt ∷ TxPhase.force_resolved ∷ [])
        ≡ ok TxPhase.force_resolved)
recovery_settles_example = recovery_settles TxPhase.verifying verifying_unsettled verifying_certain

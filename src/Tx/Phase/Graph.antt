-- ===== src/Tx/Phase/Graph.antt =====
-- The moves between phases as a relation, and how they rank the phases.
use aria_underlay.Base.{ℕ, true, ◌≡◌, refl, ◌≢◌, ◌⊎◌, inl, inr, ◌↔◌, ◌<◌, arith, subst}
use aria_underlay.Base.Errors.{ok}
use aria_underlay.Tx.Phase.{
  TxPhase, TxPhase-discrete, is_listed, is_allowed, validate_transition, requires_recovery,
}

pub data IsInFlight : TxPhase → Type 0 where
  while_preparing : IsInFlight TxPhase.preparing
  while_prepared : IsInFlight TxPhase.prepared
  while_committing : IsInFlight TxPhase.committing
  while_verifying : IsInFlight TxPhase.verifying
  while_confirming : IsInFlight TxPhase.final_confirming

infix 40 ◌⟶◌
pub data ◌⟶◌ : TxPhase → TxPhase → Type 0 where
  prepare : TxPhase.started ⟶ TxPhase.preparing
  is_prepared : TxPhase.preparing ⟶ TxPhase.prepared
  commit : TxPhase.prepared ⟶ TxPhase.committing
  verify : TxPhase.committing ⟶ TxPhase.verifying
  confirm : TxPhase.verifying ⟶ TxPhase.final_confirming
  finish : TxPhase.final_confirming ⟶ TxPhase.committed
  give_up : {p : TxPhase} → IsInFlight p → p ⟶ TxPhase.failed
  roll_back : {p : TxPhase} → IsInFlight p → p ⟶ TxPhase.rolling_back
  recover :
      {p : TxPhase} → requires_recovery p ≡ true → p ≢ TxPhase.in_doubt → p ⟶ TxPhase.recovering
  recover_committed : TxPhase.recovering ⟶ TxPhase.committed
  recover_undone : TxPhase.recovering ⟶ TxPhase.rolled_back
  recover_unknown : TxPhase.recovering ⟶ TxPhase.in_doubt
  undone : TxPhase.rolling_back ⟶ TxPhase.rolled_back
  undo_unknown : TxPhase.rolling_back ⟶ TxPhase.in_doubt
  commit_unknown : TxPhase.committed ⟶ TxPhase.in_doubt
  resolve : TxPhase.in_doubt ⟶ TxPhase.force_resolved

-- The longest way from the start to a phase.
abbrev pub rank : TxPhase → ℕ
rank TxPhase.started = 0
rank TxPhase.preparing = 1
rank TxPhase.prepared = 2
rank TxPhase.committing = 3
rank TxPhase.verifying = 4
rank TxPhase.final_confirming = 5
rank TxPhase.rolling_back = 6
rank TxPhase.recovering = 7
rank TxPhase.committed = 8
rank TxPhase.in_doubt = 9
rank TxPhase.failed = 10
rank TxPhase.rolled_back = 10
rank TxPhase.force_resolved = 10

ruleset edges = (
  while_preparing, while_prepared, while_committing, while_verifying, while_confirming, prepare,
  is_prepared, commit, verify, confirm, finish, give_up, roll_back, recover, recover_committed,
  recover_undone, recover_unknown, undone, undo_unknown, commit_unknown, resolve,
)

is_listed-step : (from to : TxPhase) → is_listed from to ≡ true → from ⟶ to
unfolding is_listed requires_recovery
is_listed-step from to h = grind (arith, edges)

step-is_listed : {from to : TxPhase} → from ⟶ to → is_listed from to ≡ true
unfolding is_listed requires_recovery
step-is_listed (give_up h) = grind arith
step-is_listed (roll_back h) = grind arith
step-is_listed (recover h n) = ground arith
step-is_listed (prepare) = refl
step-is_listed _ = refl

is_listed-rank :
    (from to : TxPhase) → is_listed from to ≡ true → (from ≡ to) ⊎ (rank from < rank to)
unfolding is_listed
is_listed-rank from to h = ground arith

is_allowed-cases :
    (from to : TxPhase) → is_allowed from to ≡ true → (from ≡ to) ⊎ (is_listed from to ≡ true)
unfolding is_allowed
is_allowed-cases from to h = elim (TxPhase-discrete from to) [ yes e ↦ inl e | no n ↦ ground arith ]

is_listed-is_allowed : (from to : TxPhase) → is_listed from to ≡ true → is_allowed from to ≡ true
unfolding is_allowed
is_listed-is_allowed from to h = ground arith

is_allowed_refl : (p : TxPhase) → is_allowed p p ≡ true
unfolding is_allowed
is_allowed_refl p = ground arith

pub validate_transition-is_allowed :
    (from to : TxPhase) → (validate_transition from to ≡ ok tt) ↔ (is_allowed from to ≡ true)
unfolding validate_transition
validate_transition-is_allowed from to = ground arith

accepted-step :
    (from to : TxPhase) → validate_transition from to ≡ ok tt → (from ≡ to) ⊎ (from ⟶ to)
accepted-step from to h =
    elim (is_allowed-cases from to ((validate_transition-is_allowed from to).0 h)) [
      | inl e ↦ inl e
      | inr l ↦ inr (is_listed-step from to l)
    ]

step-accepted :
    (from to : TxPhase) → (from ≡ to) ⊎ (from ⟶ to) → validate_transition from to ≡ ok tt
step-accepted from to (inl e) =
    (validate_transition-is_allowed from to).1
      (subst (λ q. is_allowed from q ≡ true) e (is_allowed_refl from))
step-accepted from to (inr s) =
    (validate_transition-is_allowed from to).1 (is_listed-is_allowed from to (step-is_listed s))

-- A move is accepted exactly when it stays in its phase or is a step of the diagram, in which any
-- phase that requires recovery, except an in-doubt one, may enter recovery.
pub validate_transition_iff :
    (from to : TxPhase) → (validate_transition from to ≡ ok tt) ↔ ((from ≡ to) ⊎ (from ⟶ to))
validate_transition_iff from to = (accepted-step from to, step-accepted from to)

-- An accepted move that leaves its phase goes up in rank.
pub validate_transition-rank :
    (from to : TxPhase) → validate_transition from to ≡ ok tt → (from ≡ to) ⊎ (rank from < rank to)
validate_transition-rank from to h =
    elim (is_allowed-cases from to ((validate_transition-is_allowed from to).0 h)) [
      | inl e ↦ inl e
      | inr l ↦ is_listed-rank from to l
    ]

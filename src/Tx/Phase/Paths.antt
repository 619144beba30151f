-- ===== src/Tx/Phase/Paths.antt =====
-- Whole runs of a transaction through the phases.
use aria_underlay.Base.{
  ℕ, Bool, true, false, List, [], ◌∷◌, ◌≡◌, refl, ◌⊎◌, inl, inr, ◌≤◌, ◌+◌, sym, subst, ◌≢◌,
  Bool-cases, arith, any,
}
use aria_underlay.Base.Errors.{UnderlayResult, ok, ◌>>◌, >>-eq-ok}
use aria_underlay.Tx.Phase.{
  TxPhase, TxPhase-discrete, validate_transition, requires_recovery, is_listed, is_allowed,
}
use aria_underlay.Tx.Phase.Graph.{rank, validate_transition-rank}

-- The moves to the phases of a list, one after the other, up to the first that is refused.
unfoldable pub follow : TxPhase → List TxPhase → UnderlayResult TxPhase
follow p [] = ok p
follow p (q ∷ qs) = validate_transition p q >> follow q qs

-- The moves of a run that leave their phase.
unfoldable pub count_changes : TxPhase → List TxPhase → ℕ
count_changes p [] = 0
count_changes p (q ∷ qs) = elim (TxPhase-discrete p q) [ yes _ ↦ 0 | no _ ↦ 1 ] + count_changes q qs

-- The phases in which the device's answer decides on the commit.
abbrev pub is_decision : TxPhase → Bool
is_decision TxPhase.final_confirming = true
is_decision TxPhase.recovering = true
is_decision _ = false

-- The decision has not been asked for.
abbrev is_undecided : TxPhase → Bool
is_undecided TxPhase.final_confirming = false
is_undecided TxPhase.recovering = false
is_undecided TxPhase.committed = false
is_undecided _ = true

pub follow_cons :
    (p q : TxPhase) (qs : List TxPhase) {r : TxPhase}
    → follow p (q ∷ qs) ≡ ok r
    → (validate_transition p q ≡ ok tt) × (follow q qs ≡ ok r)
unfolding follow
follow_cons p q qs h = >>-eq-ok (validate_transition p q) (follow q qs) h

changes_of_rank :
    (p q : TxPhase)
    → validate_transition p q ≡ ok tt
    → elim (TxPhase-discrete p q) [ yes _ ↦ 0 | no _ ↦ 1 ] + rank p ≤ rank q
changes_of_rank p q h = elim (validate_transition-rank p q h) [
  | inl e ↦ ground arith
  | inr l ↦ ground arith
]

count_changes-rank :
    (p : TxPhase) (qs : List TxPhase) {r : TxPhase}
    → follow p qs ≡ ok r
    → count_changes p qs + rank p ≤ rank r
unfolding follow count_changes
count_changes-rank p [] h = grind arith
count_changes-rank p (q ∷ qs) h = omega (
  arith,
  count_changes-rank q qs (follow_cons p q qs h).1,
  changes_of_rank p q (follow_cons p q qs h).0,
)

rank_bound : (p : TxPhase) → rank p ≤ 10
rank_bound p = ground arith

-- A run from the start to any phase leaves a phase at most ten times.
pub count_changes_bound :
    (qs : List TxPhase) {r : TxPhase}
    → follow TxPhase.started qs ≡ ok r
    → count_changes TxPhase.started qs ≤ 10
count_changes_bound qs {r} h = omega (arith, count_changes-rank TxPhase.started qs h, rank_bound r)

undecided_step :
    (p q : TxPhase)
    → validate_transition p q ≡ ok tt
    → is_undecided p ≡ true
    → is_decision q ≡ false
    → is_undecided q ≡ true
unfolding validate_transition is_allowed is_listed
undecided_step p q h u n = ground arith

undecided-follow :
    (p : TxPhase) (qs : List TxPhase)
    → is_undecided p ≡ true
    → follow p qs ≡ ok TxPhase.committed
    → any is_decision qs ≡ true
unfolding follow
undecided-follow p [] u h = ground arith
undecided-follow p (q ∷ qs) u h =
    let (a, b) = follow_cons p q qs h in
    elim (Bool-cases (is_decision q)) [
      | inl d ↦ rw d
      | inr n ↦ rw n (undecided-follow q qs (undecided_step p q a u n) b)
    ]

-- A run from the start that ends in `Committed` has passed through `FinalConfirming` or `Recovering`.
pub committed_decided :
    (qs : List TxPhase)
    → follow TxPhase.started qs ≡ ok TxPhase.committed
    → any is_decision qs ≡ true
committed_decided qs h = undecided-follow TxPhase.started qs refl h

committed_step :
    (q : TxPhase)
    → validate_transition TxPhase.committed q ≡ ok tt
    → (q ≡ TxPhase.committed) ⊎ (q ≡ TxPhase.in_doubt)
unfolding validate_transition is_allowed is_listed
committed_step q h = ground arith

force_resolved_settled : requires_recovery TxPhase.force_resolved ≡ false
unfolding requires_recovery
force_resolved_settled = refl

settled_step :
    (p q : TxPhase)
    → validate_transition p q ≡ ok tt
    → requires_recovery p ≡ false
    → p ≢ TxPhase.committed
    → p ≡ q
unfolding validate_transition is_allowed is_listed requires_recovery
settled_step p q h u n = ground arith

settled_follow :
    (p : TxPhase) (qs : List TxPhase) {r : TxPhase}
    → requires_recovery p ≡ false
    → p ≢ TxPhase.committed
    → follow p qs ≡ ok r
    → p ≡ r
unfolding follow
settled_follow p [] u n h = cc
settled_follow p (q ∷ qs) {r} u n h =
    let (a, b) = follow_cons p q qs h in
    let e = settled_step p q a u n in
    settled_follow p qs u n (subst (λ x. follow x qs ≡ ok r) (sym e) b)

in_doubt_step :
    (q : TxPhase)
    → validate_transition TxPhase.in_doubt q ≡ ok tt
    → (q ≡ TxPhase.in_doubt) ⊎ (q ≡ TxPhase.force_resolved)
unfolding validate_transition is_allowed is_listed
in_doubt_step q h = ground arith

in_doubt_follow :
    (qs : List TxPhase) {r : TxPhase}
    → follow TxPhase.in_doubt qs ≡ ok r
    → (r ≡ TxPhase.in_doubt) ⊎ (r ≡ TxPhase.force_resolved)
unfolding follow
in_doubt_follow [] h = inl cc
in_doubt_follow (q ∷ qs) {r} h =
    let (a, b) = follow_cons TxPhase.in_doubt q qs h in
    elim (in_doubt_step q a) [
      | inl e ↦ in_doubt_follow qs (subst (λ x. follow x qs ≡ ok r) e b)
      | inr e ↦ inr (
          sym (
            settled_follow TxPhase.force_resolved qs (force_resolved_settled) (λ x. cc)
              (subst (λ x. follow x qs ≡ ok r) e b)))
    ]

-- A run from an in-doubt transaction ends in doubt or in an operator's resolution, and a run from a
-- committed one ends committed or in one of these two: neither is rolled back or applied again.
pub committed_follow :
    (qs : List TxPhase) {r : TxPhase}
    → follow TxPhase.committed qs ≡ ok r
    → (r ≡ TxPhase.committed) ⊎ (r ≡ TxPhase.in_doubt) ⊎ (r ≡ TxPhase.force_resolved)
unfolding follow
committed_follow [] h = inl cc
committed_follow (q ∷ qs) {r} h =
    let (a, b) = follow_cons TxPhase.committed q qs h in
    elim (committed_step q a) [
      | inl e ↦ committed_follow qs (subst (λ x. follow x qs ≡ ok r) e b)
      | inr e ↦ inr (in_doubt_follow qs (subst (λ x. follow x qs ≡ ok r) e b))
    ]

-- A transaction that no recovery is owed to stays in its phase, whatever moves are tried, or was
-- committed and ends committed, in doubt or resolved by an operator.
pub settled_final :
    (p : TxPhase) (qs : List TxPhase) {r : TxPhase}
    → requires_recovery p ≡ false
    → follow p qs ≡ ok r
    → (r ≡ p) ⊎ ((p ≡ TxPhase.committed) × ((r ≡ TxPhase.in_doubt) ⊎ (r ≡ TxPhase.force_resolved)))
settled_final p qs {r} u h = elim (TxPhase-discrete p TxPhase.committed) [
  | yes e ↦ grind (arith, committed_follow qs (subst (λ x. follow x qs ≡ ok r) e h))
  | no n ↦ inl (sym (settled_follow p qs u n h))
]

-- An unfinished transaction that is not in doubt can be recovered to committed, to rolled back, or to
-- in doubt, from where an operator can resolve it.
pub recovery_settles :
    (p : TxPhase)
    → requires_recovery p ≡ true
    → p ≢ TxPhase.in_doubt
    → (follow p (TxPhase.recovering ∷ TxPhase.committed ∷ []) ≡ ok TxPhase.committed)
      × (follow p (TxPhase.recovering ∷ TxPhase.rolled_back ∷ []) ≡ ok TxPhase.rolled_back)
      × (follow p (TxPhase.recovering ∷ TxPhase.in_doubt ∷ TxPhase.force_resolved ∷ [])
          ≡ ok TxPhase.force_resolved)
unfolding follow validate_transition is_allowed is_listed requires_recovery
recovery_settles p u n = ground arith

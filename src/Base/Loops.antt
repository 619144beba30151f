-- ===== src/Base/Loops.antt =====
-- Loops over a list whose body may fail, and sets of seen keys.
use aria_underlay.Base.{
  List, [], ◌∷◌, Option, none, some, Ord, ◌≡◌, ◌∙◌, ap, map, All, Bool, false, arith,
}
use aria_underlay.Base.BTree.{BTreeSet, contains, insert_key, extend, as_entries}
use aria_underlay.Base.Errors.{
  UnderlayError, UnderlayResult, ok, fail_if, ◌>>=◌, ◌>>◌, >>=-eq-ok, >>-eq-ok,
}

-- `for x in xs { .. }` with a state and `return Err(..)` or `?` in its body.
module _ {ℓ κ} {A : Type ℓ} {S : Type κ} where
  unfoldable pub try_fold : (S → A → UnderlayResult S) → S → List A → UnderlayResult S
  try_fold step s [] = ok s
  try_fold step s (x ∷ xs) = step s x >>= λ t. try_fold step t xs

  -- The state is dropped at the end.
  unfoldable pub try_seen : (S → A → UnderlayResult S) → S → List A → UnderlayResult (Unit {0})
  unfolding try_fold
  try_seen step s xs = try_fold step s xs >>= λ seen. ok tt

-- The same with no state.
module _ {ℓ} {A : Type ℓ} where
  unfoldable pub try_each : (A → UnderlayResult (Unit {0})) → List A → UnderlayResult (Unit {0})
  try_each check [] = ok tt
  try_each check (x ∷ xs) = check x >> try_each check xs

  -- `if let Some(x) = o { check(x)?; }`.
  unfoldable pub try_some : (A → UnderlayResult (Unit {0})) → Option A → UnderlayResult (Unit {0})
  try_some check none = ok tt
  try_some check (some x) = check x

-- `if !seen.insert(key) { return Err(..) }`.
module _ {ℓ} {K : Type ℓ} ⦃o : Ord K⦄ where
  abbrev pub insert_new : K → BTreeSet K → UnderlayError → UnderlayResult (BTreeSet K)
  insert_new k seen e = fail_if (contains k seen) e >> ok (insert_key k seen)

module _ {ℓ κ} {A : Type ℓ} {S : Type κ} (step : S → A → UnderlayResult S) where
  pub try_fold_cons :
      (s : S) (x : A) (xs : List A) {t : S}
      → try_fold step s (x ∷ xs) ≡ ok t
      → (u : S) × (step s x ≡ ok u) × (try_fold step u xs ≡ ok t)
  unfolding try_fold
  try_fold_cons s x xs h = >>=-eq-ok (step s x) (λ u. try_fold step u xs) h

  -- What one turn of a loop that succeeds has checked holds of every element.
  pub try_fold-All {ι} :
      (P : A → Type ι)
      → ((s : S) (x : A) (t : S) → step s x ≡ ok t → P x)
      → (s : S) (xs : List A) {t : S} → try_fold step s xs ≡ ok t
      → All P xs
  try_fold-All P f s [] h = tt
  try_fold-All P f s (x ∷ xs) h =
      let (u, a, b) = try_fold_cons s x xs h in (f s x u a, try_fold-All P f u xs b)

  pub try_seen-All {ι} :
      (P : A → Type ι)
      → ((s : S) (x : A) (t : S) → step s x ≡ ok t → P x)
      → (s : S) (xs : List A) → try_seen step s xs ≡ ok tt
      → All P xs
  unfolding try_seen
  try_seen-All P f s xs h =
      let (u, a, b) = >>=-eq-ok (try_fold step s xs) (λ seen. ok tt) h in try_fold-All P f s xs a

module _ {ℓ κ} {A : Type ℓ} {K : Type κ} ⦃o : Ord K⦄
    (step : BTreeSet K → A → UnderlayResult (BTreeSet K)) (key : A → K) where
  -- A loop whose turns add a key each has added the keys of the list.
  pub try_fold-extend :
      ((s : BTreeSet K) (x : A) (t : BTreeSet K) → step s x ≡ ok t → t ≡ insert_key (key x) s)
      → (s : BTreeSet K) (xs : List A) {t : BTreeSet K} → try_fold step s xs ≡ ok t
      → t ≡ extend (as_entries (map key xs)) s
  unfolding try_fold extend
  try_fold-extend f s [] h = grind (arith, h)
  try_fold-extend f s (x ∷ xs) {t} h =
      let (u, a, b) = try_fold_cons step s x xs h in
      try_fold-extend f u xs b ∙ ap (extend (as_entries (map key xs))) (f s x u a)

pub try_each-All {ℓ ι} :
    {A : Type ℓ} (check : A → UnderlayResult (Unit {0})) (P : A → Type ι)
    → ((x : A) → check x ≡ ok tt → P x)
    → (xs : List A) → try_each check xs ≡ ok tt
    → All P xs
unfolding try_each
try_each-All check P f [] h = tt
try_each-All check P f (x ∷ xs) h =
    let (a, b) = >>-eq-ok (check x) (try_each check xs) h in (f x a, try_each-All check P f xs b)

pub fail_if-ok : (b : Bool) (e : UnderlayError) → fail_if b e ≡ ok tt → b ≡ false
fail_if-ok b e h = ground arith

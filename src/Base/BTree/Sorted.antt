-- ===== src/Base/BTree/Sorted.antt =====
-- The entries of a map ascend strictly by key, whatever operations built it.
use aria_underlay.Base.Tests.{if◌then◌else◌, Bool-cases}
use aria_underlay.Base.Order.{Ord, less, equal, greater}
use aria_underlay.Base.BTree.Defs.{BTreeMap, same, get, insert, remove, retain}
use mathlib.Core.Bool.{Bool}
use mathlib.Core.List.{[], ◌∷◌}
use mathlib.Core.Option.{Option, none, some}
use mathlib.Core.Path.{◌≡◌, refl, sym, subst₂}
use mathlib.Core.Logic.{inl, inr}
use aria_underlay.Base.BTree.Laws.{same_iff, same_refl}
use native.Mathlib.Omega.{arith}

-- What `retain` leaves of a binding.
abbrev pub kept {κ} : {V : Type κ} → (V → Bool) → Option V → Option V
kept p none = none
kept p (some w) = if p w then some w else none

module _ {ℓ κ} {K : Type ℓ} {V : Type κ} where
  -- A statement about every entry.
  abbrev pub Entries {ι} : (K → V → Type ι) → BTreeMap K V → Type ι
  Entries P [] = Unit
  Entries P ((k, v) ∷ m) = P k v × Entries P m

module _ {ℓ κ} {K : Type ℓ} {V : Type κ} ⦃o : Ord K⦄ where
  -- Every key of the map is above `k`.
  abbrev pub Ahead : K → BTreeMap K V → Type 0
  Ahead k [] = Unit
  Ahead k ((j, w) ∷ m) = (o.cmp k j ≡ less) × Ahead k m

  abbrev pub IsSorted : BTreeMap K V → Type 0
  IsSorted [] = Unit
  IsSorted ((k, v) ∷ m) = Ahead k m × IsSorted m

  pub Ahead-trans : (i k : K) (m : BTreeMap K V) → o.cmp i k ≡ less → Ahead k m → Ahead i m
  Ahead-trans i k [] h a = tt
  Ahead-trans i k ((j, w) ∷ m) h a = (o.cmp_less_trans i k j h a.0, Ahead-trans i k m h a.1)

  pub get-Ahead : (k : K) (m : BTreeMap K V) → Ahead k m → get k m ≡ none
  unfolding get
  get-Ahead k [] a = refl
  get-Ahead k ((j, w) ∷ m) a = ground (arith, get-Ahead k m a.1)

  Ahead-insert :
      (i k : K) (v : V) (m : BTreeMap K V) → o.cmp i k ≡ less → Ahead i m → Ahead i (insert k v m)
  unfolding insert
  Ahead-insert i k v [] h a = (h, tt)
  Ahead-insert i k v ((j, w) ∷ m) h a = ground (arith, Ahead-insert i k v m h a.1)

  pub insert-IsSorted : (k : K) (v : V) (m : BTreeMap K V) → IsSorted m → IsSorted (insert k v m)
  unfolding insert
  insert-IsSorted k v [] s = (tt, tt)
  insert-IsSorted k v ((j, w) ∷ m) s = ground (
    arith,
    o.cmp_equal k j,
    o.cmp_flip k j,
    Ahead-trans k j m,
    Ahead-insert j k v m,
    insert-IsSorted k v m s.1,
  )

  Ahead-remove : (i k : K) (m : BTreeMap K V) → Ahead i m → Ahead i (remove k m)
  unfolding remove
  Ahead-remove i k [] a = tt
  Ahead-remove i k ((j, w) ∷ m) a = ground (arith, Ahead-remove i k m a.1)

  pub remove-IsSorted : (k : K) (m : BTreeMap K V) → IsSorted m → IsSorted (remove k m)
  unfolding remove
  remove-IsSorted k [] s = tt
  remove-IsSorted k ((j, w) ∷ m) s = ground (arith, Ahead-remove j k m s.0, remove-IsSorted k m s.1)

  Ahead-retain : (i : K) (p : K → V → Bool) (m : BTreeMap K V) → Ahead i m → Ahead i (retain p m)
  unfolding retain
  Ahead-retain i p [] a = tt
  Ahead-retain i p ((j, w) ∷ m) a = ground (arith, Ahead-retain i p m a.1)

  pub retain-IsSorted : (p : K → V → Bool) (m : BTreeMap K V) → IsSorted m → IsSorted (retain p m)
  unfolding retain
  retain-IsSorted p [] s = tt
  retain-IsSorted p ((j, w) ∷ m) s = ground (arith, Ahead-retain j p m s.0, retain-IsSorted p m s.1)

  pub get-retain :
      (j : K) (p : K → V → Bool) (m : BTreeMap K V)
      → IsSorted m
      → get j (retain p m) ≡ kept (p j) (get j m)
  unfolding get retain
  get-retain j p [] s = refl
  get-retain j p ((i, w) ∷ m) s =
      ground (arith, o.cmp_equal j i, get-Ahead j m, get-retain j p m s.1)

  pub Entries-insert {ι} :
      (P : K → V → Type ι) (k : K) (v : V) (m : BTreeMap K V)
      → P k v
      → Entries P m
      → Entries P (insert k v m)
  unfolding insert
  Entries-insert P k v [] h e = (h, tt)
  Entries-insert P k v ((j, w) ∷ m) h e =
      elim (o.cmp k j)
        as (λ c. Entries P (elim c [
          | less ↦ (k, v) ∷ (j, w) ∷ m
          | equal ↦ (k, v) ∷ m
          | greater ↦ (j, w) ∷ insert k v m
        ])) [
          | less ↦ (h, (e.0, e.1))
          | equal ↦ (h, e.1)
          | greater ↦ (e.0, Entries-insert P k v m h e.1)
        ]

  pub Entries-get {ι} :
      (P : K → V → Type ι) (k : K) (v : V) (m : BTreeMap K V)
      → Entries P m
      → get k m ≡ some v
      → P k v
  unfolding get
  Entries-get P k v [] e g = cc
  Entries-get P k v ((j, w) ∷ m) e g = elim (Bool-cases (same k j)) [
    | inl h ↦ let there : w ≡ v = ground arith in subst₂ P (sym ((same_iff k j).0 h)) there e.0
    | inr h ↦ Entries-get P k v m e.1 (rw h at g)
  ]

module _ {ℓ κ ι} {K : Type ℓ} {V : Type κ} ⦃o : Ord K⦄ (P : K → V → Type ι) where
  pub Entries-remove : (k : K) (m : BTreeMap K V) → Entries P m → Entries P (remove k m)
  unfolding remove
  Entries-remove k [] e = tt
  Entries-remove k ((j, w) ∷ m) e = elim (Bool-cases (same k j)) [
    | inl h ↦ rw h (Entries-remove k m e.1)
    | inr h ↦ rw h (e.0, Entries-remove k m e.1)
  ]

  pub Entries-retain : (p : K → V → Bool) (m : BTreeMap K V) → Entries P m → Entries P (retain p m)
  unfolding retain
  Entries-retain p [] e = tt
  Entries-retain p ((j, w) ∷ m) e = elim (Bool-cases (p j w)) [
    | inl h ↦ rw h (e.0, Entries-retain p m e.1)
    | inr h ↦ rw h (Entries-retain p m e.1)
  ]

module _ {ℓ κ} {K : Type ℓ} {V : Type κ} ⦃o : Ord K⦄ where
  Found-weaken :
      (k : K) (v : V) (r m : BTreeMap K V)
      → Ahead k r
      → Entries (λ j w. get j m ≡ some w) r
      → Entries (λ j w. get j ((k, v) ∷ m) ≡ some w) r
  unfolding get
  Found-weaken k v [] m a h = tt
  Found-weaken k v ((j, w) ∷ r) m a h =
      (ground (arith, o.cmp_flip k j), Found-weaken k v r m a.1 h.1)

  -- In a sorted map every entry is what `get` finds.
  pub Entries-found : (m : BTreeMap K V) → IsSorted m → Entries (λ k v. get k m ≡ some v) m
  unfolding get
  Entries-found [] s = tt
  Entries-found ((k, v) ∷ m) s =
      (ground (arith, same_refl k), Found-weaken k v m m s.0 (Entries-found m s.1))

module _ {ℓ κ ι} {K : Type ℓ} {V : Type κ} {P : K → V → Type ι} where
  pub Entries-all : ((k : K) (v : V) → P k v) → (m : BTreeMap K V) → Entries P m
  Entries-all h [] = tt
  Entries-all h ((k, v) ∷ m) = (h k v, Entries-all h m)

  pub Entries-map {ν} :
      {Q : K → V → Type ν}
      → ((k : K) (v : V) → P k v → Q k v)
      → (m : BTreeMap K V) → Entries P m
      → Entries Q m
  Entries-map f [] e = tt
  Entries-map f ((k, v) ∷ m) e = (f k v e.0, Entries-map f m e.1)

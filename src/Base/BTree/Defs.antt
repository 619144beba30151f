-- ===== src/Base/BTree/Defs.antt =====
-- The operations of `BTreeMap` and `BTreeSet` that the program calls.
use aria_underlay.Base.Tests.{if◌then◌else◌}
use aria_underlay.Base.Order.{Ord, Cmp, less, equal, greater}
use mathlib.Core.Bool.{Bool, true, false, ◌||◌}
use mathlib.Core.List.{List, [], ◌∷◌}
use mathlib.Core.Option.{Option, none, some}

abbrev pub BTreeMap {ℓ κ} : Type ℓ → Type κ → Type (ℓ ⊔ κ)
BTreeMap K V = List (K × V)

abbrev pub BTreeSet {ℓ} : Type ℓ → Type ℓ
BTreeSet K = BTreeMap K (Unit {0})

abbrev pub is_equal : Cmp → Bool
is_equal equal = true
is_equal less = false
is_equal greater = false

-- `==` of two keys.
abbrev pub same {ℓ} : {K : Type ℓ} ⦃o : Ord K⦄ → K → K → Bool
same ⦃o⦄ a b = is_equal (o.cmp a b)

module _ {ℓ κ} {K : Type ℓ} {V : Type κ} where
  abbrev pub values : BTreeMap K V → List V
  values [] = []
  values ((k, v) ∷ m) = v ∷ values m

module _ {ℓ κ} {K : Type ℓ} {V : Type κ} ⦃o : Ord K⦄ where
  unfoldable pub get : K → BTreeMap K V → Option V
  get k [] = none
  get k ((j, v) ∷ m) = if same k j then some v else get k m

  unfoldable pub contains_key : K → BTreeMap K V → Bool
  contains_key k [] = false
  contains_key k ((j, v) ∷ m) = same k j || contains_key k m

  unfoldable pub insert : K → V → BTreeMap K V → BTreeMap K V
  insert k v [] = (k, v) ∷ []
  insert k v ((j, w) ∷ m) =
      let rest = insert k v m in
      elim (o.cmp k j) [ less ↦ (k, v) ∷ (j, w) ∷ m | equal ↦ (k, v) ∷ m | greater ↦ (j, w) ∷ rest ]

  unfoldable pub remove : K → BTreeMap K V → BTreeMap K V
  remove k [] = []
  remove k ((j, w) ∷ m) = let rest = remove k m in if same k j then rest else (j, w) ∷ rest

  -- The map of a sequence of pairs: of two with one key, the later stays.
  unfoldable pub extend : List (K × V) → BTreeMap K V → BTreeMap K V
  unfolding insert
  extend [] m = m
  extend ((k, v) ∷ r) m = extend r (insert k v m)

  -- `collect::<BTreeMap<_, _>>()`.
  unfoldable pub collect : List (K × V) → BTreeMap K V
  unfolding extend
  collect r = extend r []

module _ {ℓ κ} {K : Type ℓ} {V : Type κ} where
  -- `BTreeMap::retain`.
  unfoldable pub retain : (K → V → Bool) → BTreeMap K V → BTreeMap K V
  retain p [] = []
  retain p ((j, w) ∷ m) = let rest = retain p m in if p j w then (j, w) ∷ rest else rest

-- A set is a map to the unit type, as in the standard library.
module _ {ℓ} {K : Type ℓ} where
  abbrev pub keys : BTreeSet K → List K
  keys [] = []
  keys ((k, u) ∷ s) = k ∷ keys s

  abbrev pub as_entries : List K → List (K × Unit {0})
  as_entries [] = []
  as_entries (k ∷ r) = (k, tt) ∷ as_entries r

module _ {ℓ} {K : Type ℓ} ⦃o : Ord K⦄ where
  abbrev pub contains : K → BTreeSet K → Bool
  contains k s = contains_key k s

  abbrev pub insert_key : K → BTreeSet K → BTreeSet K
  insert_key k s = insert k tt s

  -- `collect::<BTreeSet<_>>()`.
  abbrev pub collect_set : List K → BTreeSet K
  collect_set r = collect (as_entries r)

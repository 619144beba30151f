-- ===== src/Base/BTree/Laws.antt =====
-- What `get` and `contains` see after each operation. These laws need no order of the entries.
use aria_underlay.Base.Tests.{if◌then◌else◌}
use aria_underlay.Base.Lists.{is_some}
use aria_underlay.Base.Order.{Ord}
use aria_underlay.Base.BTree.Defs.{BTreeMap, same, get, contains_key, insert, remove}
use mathlib.Core.Bool.{true}
use mathlib.Core.List.{[], ◌∷◌}
use mathlib.Core.Logic.{◌↔◌}
use mathlib.Core.Option.{none, some}
use mathlib.Core.Path.{◌≡◌, refl}
use native.Mathlib.Omega.{arith}

module _ {ℓ} {K : Type ℓ} ⦃o : Ord K⦄ where
  pub same_iff : (a b : K) → (same a b ≡ true) ↔ (a ≡ b)
  same_iff a b = ground (arith, o.cmp_equal a b)

  pub same_refl : (a : K) → same a a ≡ true
  same_refl a = (same_iff a a).1 refl

module _ {ℓ κ} {K : Type ℓ} {V : Type κ} ⦃o : Ord K⦄ where
  pub get-insert :
      (j k : K) (v : V) (m : BTreeMap K V)
      → get j (insert k v m) ≡ (if same j k then some v else get j m)
  unfolding get insert
  get-insert j k v [] = refl
  get-insert j k v ((i, w) ∷ m) =
      ground (arith, o.cmp_equal k i, o.cmp_equal j k, o.cmp_equal j i, get-insert j k v m)

  pub get-remove :
      (j k : K) (m : BTreeMap K V) → get j (remove k m) ≡ (if same j k then none else get j m)
  unfolding get remove
  get-remove j k [] = ground arith
  get-remove j k ((i, w) ∷ m) =
      ground (arith, o.cmp_equal k i, o.cmp_equal j k, o.cmp_equal j i, get-remove j k m)

  pub contains_key-get : (k : K) (m : BTreeMap K V) → contains_key k m ≡ is_some (get k m)
  unfolding contains_key get
  contains_key-get k [] = refl
  contains_key-get k ((j, v) ∷ m) = ground (arith, contains_key-get k m)

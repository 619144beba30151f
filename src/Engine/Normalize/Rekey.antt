-- ===== src/Engine/Normalize/Rekey.antt =====
-- engine/normalize.rs: `into_values().map(|v| { let v = v.normalize(); (key(v), v) }).collect()`, the
-- loop that every map of a state goes through.
use aria_underlay.Base.{List, [], ◌∷◌, ◌≡◌, refl, Ord, arith}
use aria_underlay.Base.BTree.{
  BTreeMap, values, collect, IsSorted, Entries, collect-IsSorted, Entries-collect,
  collect-eq_of_IsSorted,
}

module _ {ℓ κ} {K : Type ℓ} {V : Type κ} ⦃o : Ord K⦄ (normalize : V → V) (key : V → K) where
  unfoldable pub keyed : List V → List (K × V)
  keyed [] = []
  keyed (v ∷ r) = (key (normalize v), normalize v) ∷ keyed r

  unfoldable pub rekey : BTreeMap K V → BTreeMap K V
  unfolding keyed
  rekey m = collect (keyed (values m))

  pub rekey-IsSorted : (m : BTreeMap K V) → IsSorted (rekey m)
  unfolding rekey
  rekey-IsSorted m = collect-IsSorted (keyed (values m))

  -- Each entry is normal and stands under its own key.
  abbrev pub IsKeyed : BTreeMap K V → Type (ℓ ⊔ κ)
  IsKeyed m = Entries (λ k v. (k ≡ key v) × (normalize v ≡ v)) m

  module _ (idem : (v : V) → normalize (normalize v) ≡ normalize v) where
    keyed-IsKeyed : (r : List V) → IsKeyed (keyed r)
    unfolding keyed
    keyed-IsKeyed [] = tt
    keyed-IsKeyed (v ∷ r) = ((refl, idem v), keyed-IsKeyed r)

    pub rekey-IsKeyed : (m : BTreeMap K V) → IsKeyed (rekey m)
    unfolding rekey
    rekey-IsKeyed m = Entries-collect _ (keyed (values m)) (keyed-IsKeyed (values m))

  keyed_of_IsKeyed : (m : BTreeMap K V) → IsKeyed m → keyed (values m) ≡ m
  unfolding keyed
  keyed_of_IsKeyed [] h = refl
  keyed_of_IsKeyed ((k, v) ∷ m) h = ground (arith, h.0, keyed_of_IsKeyed m h.1)

  -- A map in normal form is left as it is.
  pub rekey_fixed : (m : BTreeMap K V) → IsSorted m → IsKeyed m → rekey m ≡ m
  unfolding rekey
  rekey_fixed m s h = rw (keyed_of_IsKeyed m h) (collect-eq_of_IsSorted m s)

  pub rekey_idem :
      ((v : V) → normalize (normalize v) ≡ normalize v)
      → (m : BTreeMap K V) → rekey (rekey m) ≡ rekey m
  rekey_idem idem m = rekey_fixed (rekey m) (rekey-IsSorted m) (rekey-IsKeyed idem m)

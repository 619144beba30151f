-- ===== src/Base/BTree/Ext.antt =====
-- Two sorted maps that hold the same are equal.
use mathlib.Core.Bool.{false}
use mathlib.Core.List.{[], ◌∷◌}
use mathlib.Core.Option.{none, some}
use mathlib.Core.Path.{◌≡◌, refl, sym, ap, ◌∙◌, subst}
use mathlib.Core.Logic.{◌⊎◌, inl, inr}
use aria_underlay.Base.Tests.{Bool-cases}
use aria_underlay.Base.Order.{Ord, Cmp, flip, less, equal, greater}
use aria_underlay.Base.BTree.Defs.{BTreeMap, same, get}
use aria_underlay.Base.BTree.Laws.{same_iff, same_refl}
use aria_underlay.Base.BTree.Sorted.{Ahead, IsSorted, get-Ahead, Ahead-trans}

Cmp-cases : (c : Cmp) → (c ≡ less) ⊎ ((c ≡ equal) ⊎ (c ≡ greater))
Cmp-cases less = inl refl
Cmp-cases equal = inr (inl refl)
Cmp-cases greater = inr (inr refl)

module _ {ℓ κ} {K : Type ℓ} {V : Type κ} ⦃o : Ord K⦄ where
  abbrev Alike : BTreeMap K V → BTreeMap K V → Type (ℓ ⊔ κ)
  Alike m n = (i : K) → get i m ≡ get i n

  head_found : (k : K) (v : V) (m : BTreeMap K V) → get k ((k, v) ∷ m) ≡ some v
  unfolding get
  head_found k v m = rw (same_refl k) refl

  tail_found :
      (i k : K) (v : V) (m : BTreeMap K V) → same i k ≡ false → get i ((k, v) ∷ m) ≡ get i m
  unfolding get
  tail_found i k v m e = rw e refl

  none_of_less :
      (k j : K) (w : V) (n : BTreeMap K V)
      → o.cmp k j ≡ less
      → Ahead j n
      → get k ((j, w) ∷ n) ≡ none
  none_of_less k j w n h a = get-Ahead k ((j, w) ∷ n) (h, Ahead-trans k j n h a)

  tails :
      (k : K) (v w : V) (m n : BTreeMap K V)
      → Ahead k m
      → Ahead k n
      → Alike ((k, v) ∷ m) ((k, w) ∷ n)
      → Alike m n
  tails k v w m n a b h i = elim (Bool-cases (same i k)) [
    | inl e ↦
        subst (λ x. get x m ≡ get x n) (sym ((same_iff i k).0 e))
          (get-Ahead k m a ∙ sym (get-Ahead k n b))
    | inr e ↦ sym (tail_found i k v m e) ∙ (h i ∙ tail_found i k w n e)
  ]

  -- The smaller of two keys is missing in the map that starts with the larger.
  unequal_heads :
      (k j : K) (v w : V) (m n : BTreeMap K V)
      → o.cmp k j ≡ less
      → Ahead j n
      → Alike ((k, v) ∷ m) ((j, w) ∷ n)
      → none ≡ some v
  unequal_heads k j v w m n c a h = sym (none_of_less k j w n c a) ∙ (sym (h k) ∙ head_found k v m)

  Alike-subst :
      (k j : K) (v w : V) (m n : BTreeMap K V)
      → k ≡ j
      → Alike ((k, v) ∷ m) ((j, w) ∷ n)
      → Alike ((k, v) ∷ m) ((k, w) ∷ n)
  Alike-subst k j v w m n e = subst (λ x. Alike ((k, v) ∷ m) ((x, w) ∷ n)) (sym e)

  equal_heads :
      (k : K) (v w : V) (m n : BTreeMap K V) → Alike ((k, v) ∷ m) ((k, w) ∷ n) → some v ≡ some w
  equal_heads k v w m n h = sym (head_found k v m) ∙ (h k ∙ head_found k w n)

  shared_heads :
      (k j : K) (v w : V) (m n : BTreeMap K V)
      → k ≡ j
      → IsSorted ((k, v) ∷ m)
      → IsSorted ((j, w) ∷ n)
      → Alike ((k, v) ∷ m) ((j, w) ∷ n)
      → (Alike m n → m ≡ n)
      → (k, v) ∷ m ≡ (j, w) ∷ n
  shared_heads k j v w m n e s t h next =
      let h' = Alike-subst k j v w m n e h in
      let b = subst (λ x. Ahead x n) (sym e) t.0 in
      let rest = next (tails k v w m n s.0 b h') in
      let heads : v ≡ w = (let q = equal_heads k v w m n h' in cc) in rw (e, heads, rest) refl

  pub get_ext :
      (m n : BTreeMap K V) → IsSorted m → IsSorted n → ((i : K) → get i m ≡ get i n) → m ≡ n
  unfolding get
  get_ext [] [] s t h = refl
  get_ext [] ((j, w) ∷ n) s t h = let e = h j ∙ head_found j w n in cc
  get_ext ((k, v) ∷ m) [] s t h = let e = sym (head_found k v m) ∙ h k in cc
  get_ext ((k, v) ∷ m) ((j, w) ∷ n) s t h = elim (Cmp-cases (o.cmp k j)) [
    | inl c ↦ let e = unequal_heads k j v w m n c t.0 h in cc
    | inr (inl c) ↦ shared_heads k j v w m n ((o.cmp_equal k j).0 c) s t h (get_ext m n s.1 t.1)
    | inr (inr c) ↦
        let e = unequal_heads j k w v n m (o.cmp_flip k j ∙ ap flip c) s.0 (λ i. sym (h i)) in cc
  ]

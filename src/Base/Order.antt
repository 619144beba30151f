-- ===== src/Base/Order.antt =====
-- `Ord`: the total orders by which the keys of `BTreeMap` and `BTreeSet` are compared.
use Prim.Native.Nat.{ℕ, compare, Ordering}
use mathlib.Core.Path.{◌≡◌, refl}
use mathlib.Core.Logic.{◌↔◌}
use mathlib.Core.List.{List, [], ◌∷◌}
use native.Mathlib.Omega.{arith}

pub data Cmp : Type 0 where
  less equal greater : Cmp

abbrev pub flip : Cmp → Cmp
flip less = greater
flip equal = equal
flip greater = less

pub record Ord {ℓ} (K : Type ℓ) : Type ℓ where
  pub cmp : K → K → Cmp
  pub cmp_equal : (a b : K) → (cmp a b ≡ equal) ↔ (a ≡ b)
  pub cmp_flip : (a b : K) → cmp b a ≡ flip (cmp a b)
  pub cmp_less_trans : (a b c : K) → cmp a b ≡ less → cmp b c ≡ less → cmp a c ≡ less

abbrev pub cmp_ℕ : ℕ → ℕ → Cmp
cmp_ℕ a b = elim (compare a b) [ Ordering.lt ↦ less | Ordering.eq ↦ equal | Ordering.gt ↦ greater ]

pub cmp_ℕ_equal : (a b : ℕ) → (cmp_ℕ a b ≡ equal) ↔ (a ≡ b)
cmp_ℕ_equal a b = ground arith

pub cmp_ℕ-flip : (a b : ℕ) → cmp_ℕ b a ≡ flip (cmp_ℕ a b)
cmp_ℕ-flip a b = ground arith

pub cmp_ℕ_less_trans : (a b c : ℕ) → cmp_ℕ a b ≡ less → cmp_ℕ b c ≡ less → cmp_ℕ a c ≡ less
cmp_ℕ_less_trans a b c p q = ground arith

instance abbrev pub ℕ_ord : Ord ℕ
ℕ_ord = record {
  cmp = cmp_ℕ;
  cmp_equal = cmp_ℕ_equal;
  cmp_flip = cmp_ℕ-flip;
  cmp_less_trans = cmp_ℕ_less_trans;
}

-- The order of `String`. (That of the UTF-8 bytes is that of the scalar values.)
abbrev pub cmp_list : List ℕ → List ℕ → Cmp
cmp_list [] [] = equal
cmp_list [] (d ∷ t) = less
cmp_list (c ∷ s) [] = greater
cmp_list (c ∷ s) (d ∷ t) =
    let rest = cmp_list s t in
    elim (compare c d) [ Ordering.lt ↦ less | Ordering.eq ↦ rest | Ordering.gt ↦ greater ]

pub cmp_list_equal : (s t : List ℕ) → (cmp_list s t ≡ equal) ↔ (s ≡ t)
cmp_list_equal [] [] = ground arith
cmp_list_equal [] (d ∷ t) = ground arith
cmp_list_equal (c ∷ s) [] = ground arith
cmp_list_equal (c ∷ s) (d ∷ t) = ground (arith, cmp_list_equal s t)

pub cmp_list-flip : (s t : List ℕ) → cmp_list t s ≡ flip (cmp_list s t)
cmp_list-flip [] [] = refl
cmp_list-flip [] (d ∷ t) = refl
cmp_list-flip (c ∷ s) [] = refl
cmp_list-flip (c ∷ s) (d ∷ t) = ground (arith, cmp_list-flip s t)

pub cmp_list_less_trans :
    (a b c : List ℕ) → cmp_list a b ≡ less → cmp_list b c ≡ less → cmp_list a c ≡ less
cmp_list_less_trans [] [] c p q = cc
cmp_list_less_trans [] (y ∷ b) [] p q = cc
cmp_list_less_trans [] (y ∷ b) (z ∷ c) p q = refl
cmp_list_less_trans (x ∷ a) [] c p q = cc
cmp_list_less_trans (x ∷ a) (y ∷ b) [] p q = cc
cmp_list_less_trans (x ∷ a) (y ∷ b) (z ∷ c) p q = ground (arith, cmp_list_less_trans a b c)

instance abbrev pub text_ord : Ord (List ℕ)
text_ord = record {
  cmp = cmp_list;
  cmp_equal = cmp_list_equal;
  cmp_flip = cmp_list-flip;
  cmp_less_trans = cmp_list_less_trans;
}

-- The lexicographic order of pairs.
module _ {ℓ κ} {A : Type ℓ} {B : Type κ} ⦃a : Ord A⦄ ⦃b : Ord B⦄ where
  abbrev pub cmp_pair : A × B → A × B → Cmp
  cmp_pair x y = elim (a.cmp x.0 y.0) [ less ↦ less | equal ↦ b.cmp x.1 y.1 | greater ↦ greater ]

  pub cmp_pair_equal : (x y : A × B) → (cmp_pair x y ≡ equal) ↔ (x ≡ y)
  cmp_pair_equal x y = ground (arith, a.cmp_equal x.0 y.0, b.cmp_equal x.1 y.1)

  pub cmp_pair-flip : (x y : A × B) → cmp_pair y x ≡ flip (cmp_pair x y)
  cmp_pair-flip x y = ground (arith, a.cmp_flip x.0 y.0, b.cmp_flip x.1 y.1)

  pub cmp_pair_less_trans :
      (x y z : A × B) → cmp_pair x y ≡ less → cmp_pair y z ≡ less → cmp_pair x z ≡ less
  cmp_pair_less_trans x y z p q = ground (
    arith,
    a.cmp_equal x.0 y.0,
    a.cmp_equal y.0 z.0,
    a.cmp_equal x.0 z.0,
    a.cmp_less_trans x.0 y.0 z.0,
    b.cmp_less_trans x.1 y.1 z.1,
  )

  instance abbrev pub pair_ord : Ord (A × B)
  pair_ord = record {
    cmp = cmp_pair;
    cmp_equal = cmp_pair_equal;
    cmp_flip = cmp_pair-flip;
    cmp_less_trans = cmp_pair_less_trans;
  }

-- ===== src/Engine/Normalize/Sort.antt =====
-- `sort_by_key` (stable), `sort_unstable` on numbers, and `dedup` of the standard library's `Vec`.
use aria_underlay.Base.{
  ℕ, ◌≤◌, ◌<◌, List, [], ◌∷◌, ◌≡◌, refl, ap, ◌∙◌, leb, ◌==◌, if◌then◌else◌, arith, All, Bool-cases,
  inl, inr,
}

module _ {ℓ} {A : Type ℓ} (key : A → ℕ) where
  insert_by : A → List A → List A
  insert_by a [] = a ∷ []
  insert_by a (b ∷ r) =
      let rest = insert_by a r in if leb (key a) (key b) then a ∷ b ∷ r else b ∷ rest

  unfoldable pub sort_by_key : List A → List A
  unfolding insert_by
  sort_by_key [] = []
  sort_by_key (a ∷ r) = insert_by a (sort_by_key r)

  -- No element is below one that stands before it.
  abbrev pub IsAscending : List A → Type 0
  IsAscending [] = Unit
  IsAscending (a ∷ []) = Unit
  IsAscending (a ∷ b ∷ r) = (key a ≤ key b) × IsAscending (b ∷ r)

  insert_by-IsAscending : (a : A) (r : List A) → IsAscending r → IsAscending (insert_by a r)
  unfolding insert_by
  insert_by-IsAscending a [] h = tt
  insert_by-IsAscending a (b ∷ []) h = ground arith
  insert_by-IsAscending a (b ∷ c ∷ r) h = ground (arith, insert_by-IsAscending a (c ∷ r) h.1)

  pub sort_by_key-IsAscending : (r : List A) → IsAscending (sort_by_key r)
  unfolding sort_by_key
  sort_by_key-IsAscending [] = tt
  sort_by_key-IsAscending (a ∷ r) =
      insert_by-IsAscending a (sort_by_key r) (sort_by_key-IsAscending r)

  tail-IsAscending : (a : A) (r : List A) → IsAscending (a ∷ r) → IsAscending r
  tail-IsAscending a [] h = tt
  tail-IsAscending a (b ∷ r) h = h.1

  insert_by_front : (a : A) (r : List A) → IsAscending (a ∷ r) → insert_by a r ≡ a ∷ r
  unfolding insert_by
  insert_by_front a [] h = refl
  insert_by_front a (b ∷ r) h = ground arith

  pub sort_by_key_fixed : (r : List A) → IsAscending r → sort_by_key r ≡ r
  unfolding sort_by_key
  sort_by_key_fixed [] h = refl
  sort_by_key_fixed (a ∷ r) h =
      ap (insert_by a) (sort_by_key_fixed r (tail-IsAscending a r h)) ∙ insert_by_front a r h

  insert_by-All {κ} : (P : A → Type κ) (a : A) (r : List A) → P a → All P r → All P (insert_by a r)
  unfolding insert_by
  insert_by-All P a [] h hs = (h, tt)
  insert_by-All P a (b ∷ r) h hs = elim (Bool-cases (leb (key a) (key b))) [
    | inl e ↦ rw e (h, hs)
    | inr e ↦ rw e (hs.0, insert_by-All P a r h hs.1)
  ]

  pub sort_by_key-All {κ} : (P : A → Type κ) (r : List A) → All P r → All P (sort_by_key r)
  unfolding sort_by_key
  sort_by_key-All P [] hs = tt
  sort_by_key-All P (a ∷ r) hs = insert_by-All P a (sort_by_key r) hs.0 (sort_by_key-All P r hs.1)

dedup_after : ℕ → List ℕ → List ℕ
dedup_after a [] = []
dedup_after a (b ∷ r) =
    let dropped = dedup_after a r in
    let held = b ∷ dedup_after b r in if a == b then dropped else held

unfoldable pub dedup : List ℕ → List ℕ
unfolding dedup_after
dedup [] = []
dedup (a ∷ r) = a ∷ dedup_after a r

abbrev pub number : ℕ → ℕ
number n = n

-- Every number is below the next.
abbrev pub IsStrict : List ℕ → Type 0
IsStrict [] = Unit
IsStrict (a ∷ []) = Unit
IsStrict (a ∷ b ∷ r) = (a < b) × IsStrict (b ∷ r)

dedup_after-IsStrict :
    (a : ℕ) (r : List ℕ) → IsAscending number (a ∷ r) → IsStrict (a ∷ dedup_after a r)
unfolding dedup_after
dedup_after-IsStrict a [] h = tt
dedup_after-IsStrict a (b ∷ []) h = ground arith
dedup_after-IsStrict a (b ∷ c ∷ r) h =
    ground (arith, dedup_after-IsStrict a (c ∷ r), dedup_after-IsStrict b (c ∷ r) h.1)

pub dedup-IsStrict : (r : List ℕ) → IsAscending number r → IsStrict (dedup r)
unfolding dedup
dedup-IsStrict [] h = tt
dedup-IsStrict (a ∷ r) h = dedup_after-IsStrict a r h

pub IsAscending-of_IsStrict : (r : List ℕ) → IsStrict r → IsAscending number r
IsAscending-of_IsStrict [] h = tt
IsAscending-of_IsStrict (a ∷ []) h = tt
IsAscending-of_IsStrict (a ∷ b ∷ r) h = (omega arith, IsAscending-of_IsStrict (b ∷ r) h.1)

dedup_after_fixed : (a : ℕ) (r : List ℕ) → IsStrict (a ∷ r) → dedup_after a r ≡ r
unfolding dedup_after
dedup_after_fixed a [] h = refl
dedup_after_fixed a (b ∷ r) h = ground (arith, dedup_after_fixed b r h.1)

pub dedup_fixed : (r : List ℕ) → IsStrict r → dedup r ≡ r
unfolding dedup
dedup_fixed [] h = refl
dedup_fixed (a ∷ r) h = ap (◌∷◌ a) (dedup_after_fixed a r h)

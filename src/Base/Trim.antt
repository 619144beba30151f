-- ===== src/Base/Trim.antt =====
-- `str::trim` and `str::strip_prefix`: what is trimmed stays as it is.
use aria_underlay.Base.{
  ℕ, Text, [], ◌∷◌, ◌++◌, ◌≡◌, refl, false, Bool-cases, inl, inr, some, is_whitespace, trim_start,
  trim_end, trim, strip_prefix, All, if◌then◌else◌, arith, ◌==◌, List-cases,
}

-- The first character, if any, is no white space.
abbrev pub HeadSolid : Text → Type 0
HeadSolid [] = Unit
HeadSolid (c ∷ s) = is_whitespace c ≡ false

trim_start-HeadSolid : (s : Text) → HeadSolid (trim_start s)
unfolding trim_start
trim_start-HeadSolid [] = tt
trim_start-HeadSolid (c ∷ s) = elim (Bool-cases (is_whitespace c)) [
  | inl e ↦ rw e (trim_start-HeadSolid s)
  | inr e ↦ rw e e
]

trim_start_fixed : (s : Text) → HeadSolid s → trim_start s ≡ s
unfolding trim_start
trim_start_fixed [] h = refl
trim_start_fixed (c ∷ s) h = rw h

trim_end-HeadSolid : (s : Text) → HeadSolid s → HeadSolid (trim_end s)
unfolding trim_end
trim_end-HeadSolid [] h = tt
trim_end-HeadSolid (c ∷ s) h = go (trim_end s)
  where
    go :
        (t : Text)
        → HeadSolid (elim t [ [] ↦ if is_whitespace c then [] else c ∷ [] | d ∷ r ↦ c ∷ d ∷ r ])
    go [] = rw h h
    go (d ∷ r) = h

trim_end_step :
    (c : ℕ) (s : Text) {d : ℕ} {t : Text} → trim_end s ≡ d ∷ t → trim_end (c ∷ s) ≡ c ∷ d ∷ t
unfolding trim_end
trim_end_step c s e = rw (e, trim_end)

trim_end_blank :
    (c : ℕ) (s : Text)
    → trim_end s ≡ []
    → trim_end (c ∷ s) ≡ (if is_whitespace c then [] else c ∷ [])
unfolding trim_end
trim_end_blank c s e = rw (e, trim_end)

trim_end_cons :
    (c : ℕ) (s : Text) → trim_end s ≡ s → is_whitespace c ≡ false → trim_end (c ∷ s) ≡ c ∷ s
unfolding trim_end
trim_end_cons c [] e h = rw h
trim_end_cons c (d ∷ s) e h = trim_end_step c (d ∷ s) e

pub trim_end_tail : (c : ℕ) (s : Text) → trim_end (c ∷ s) ≡ c ∷ s → trim_end s ≡ s
trim_end_tail c s e = elim (List-cases (trim_end s)) [
  | inl n ↦ ground (arith, trim_end_blank c s n)
  | inr (d, t, q) ↦ ground (arith, trim_end_step c s q)
]

-- What is in front of a trimmed rest may be exchanged for other solid characters.
pub trim_end-append_tail : (p s : Text) → trim_end (p ++ s) ≡ p ++ s → trim_end s ≡ s
trim_end-append_tail [] s e = e
trim_end-append_tail (c ∷ p) s e = trim_end-append_tail p s (trim_end_tail c (p ++ s) e)

pub trim_end-append :
    (p s : Text)
    → All (λ c. is_whitespace c ≡ false) p
    → trim_end s ≡ s
    → trim_end (p ++ s) ≡ p ++ s
trim_end-append [] s h e = e
trim_end-append (c ∷ p) s h e = trim_end_cons c (p ++ s) (trim_end-append p s h.1 e) h.0

trim_end_idem : (s : Text) → trim_end (trim_end s) ≡ trim_end s
unfolding trim_end
trim_end_idem [] = refl
trim_end_idem (c ∷ s) = elim (List-cases (trim_end s)) [
  | inl n ↦ rw (trim_end_blank c s n) (blank c)
  | inr (d, t, q) ↦ rw (trim_end_step c s q) (trim_end_step c (d ∷ t) (rw q at (trim_end_idem s)))
]
  where
    blank :
        (c : ℕ)
        → trim_end (if is_whitespace c then [] else c ∷ [])
          ≡ (if is_whitespace c then [] else c ∷ [])
    blank c = elim (Bool-cases (is_whitespace c)) [ inl e ↦ rw e | inr e ↦ rw e (rw e) ]

pub trim_fixed : (s : Text) → HeadSolid s → trim_end s ≡ s → trim s ≡ s
unfolding trim
trim_fixed s h e = rw (trim_start_fixed s h) e

pub trim-HeadSolid : (s : Text) → HeadSolid (trim s)
unfolding trim
trim-HeadSolid s = trim_end-HeadSolid (trim_start s) (trim_start-HeadSolid s)

pub trim_end-trim : (s : Text) → trim_end (trim s) ≡ trim s
unfolding trim
trim_end-trim s = trim_end_idem (trim_start s)

-- Trimming twice is trimming once.
pub trim_idem : (s : Text) → trim (trim s) ≡ trim s
trim_idem s = trim_fixed (trim s) (trim-HeadSolid s) (trim_end-trim s)

-- A prefix that is stripped was there.
pub strip_prefix-append : (p s : Text) {r : Text} → strip_prefix p s ≡ some r → s ≡ p ++ r
unfolding strip_prefix
strip_prefix-append [] s e = ground arith
strip_prefix-append (c ∷ p) [] e = cc
strip_prefix-append (c ∷ p) (d ∷ s) {r} e = elim (Bool-cases (c == d)) [
  | inl h ↦ ground (arith, strip_prefix-append p s {r = r} (rw h at e))
  | inr h ↦ ground arith
]

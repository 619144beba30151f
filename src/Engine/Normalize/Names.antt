-- ===== src/Engine/Normalize/Names.antt =====
-- engine/normalize.rs: `canonical_interface_name`.
use aria_underlay.Base.{
  Text, text, List, [], ◌∷◌, ◌++◌, none, some, ◌≡◌, refl, trim, strip_prefix, trim_end,
  is_whitespace, Option-cases, inl, inr, subst,
}
use aria_underlay.Base.Trim.{
  trim_idem, trim_end-trim, trim_fixed, trim_end-append_tail, trim_end-append, strip_prefix-append,
}

abbrev pub short_names : List (Text × Text)
short_names =
    (text "GigabitEthernet", text "GE")
    ∷ (text "Ten-GigabitEthernet", text "XGE")
    ∷ (text "FortyGigE", text "FGE")
    ∷ []

shorten : Text → List (Text × Text) → Text
shorten trimmed [] = trimmed
shorten trimmed ((long_name, short_name) ∷ rest) =
    let next = shorten trimmed rest in
    elim (strip_prefix long_name trimmed) [ none ↦ next | some tail ↦ short_name ++ tail ]

unfoldable pub canonical_interface_name : Text → Text
unfolding shorten
canonical_interface_name name = shorten (trim name) short_names

-- A name that starts with none of the long forms is only trimmed.
shorten-none :
    (t : Text)
    → strip_prefix (text "GigabitEthernet") t ≡ none
    → strip_prefix (text "Ten-GigabitEthernet") t ≡ none
    → strip_prefix (text "FortyGigE") t ≡ none
    → shorten t short_names ≡ t
unfolding shorten
shorten-none t a b c = rw (a, shorten) (rw (b, shorten) (rw (c, shorten)))

-- The rest behind a long form ends as the trimmed name does.
tail_trimmed : (p s : Text) {r : Text} → strip_prefix p (trim s) ≡ some r → trim_end r ≡ r
tail_trimmed p s {r} e =
    trim_end-append_tail p r
      (subst (λ t. trim_end t ≡ t) (strip_prefix-append p (trim s) e) (trim_end-trim s))

ge_fixed : (r : Text) → trim_end r ≡ r → canonical_interface_name (text "GE" ++ r) ≡ text "GE" ++ r
unfolding canonical_interface_name strip_prefix is_whitespace
ge_fixed r e =
    rw (trim_fixed (text "GE" ++ r) refl (trim_end-append (text "GE") r (refl, (refl, tt)) e))

xge_fixed :
    (r : Text) → trim_end r ≡ r → canonical_interface_name (text "XGE" ++ r) ≡ text "XGE" ++ r
unfolding canonical_interface_name strip_prefix is_whitespace
xge_fixed r e = rw (
    trim_fixed (text "XGE" ++ r) refl (trim_end-append (text "XGE") r (refl, (refl, (refl, tt))) e))

fge_fixed :
    (r : Text) → trim_end r ≡ r → canonical_interface_name (text "FGE" ++ r) ≡ text "FGE" ++ r
unfolding canonical_interface_name strip_prefix is_whitespace
fge_fixed r e = rw (
    trim_fixed (text "FGE" ++ r) refl (trim_end-append (text "FGE") r (refl, (refl, (refl, tt))) e))

-- The four results: one long form is shortened, or none.
module _ (s : Text) where
  ge_case :
      {r : Text}
      → strip_prefix (text "GigabitEthernet") (trim s) ≡ some r
      → canonical_interface_name s ≡ text "GE" ++ r
  unfolding canonical_interface_name
  ge_case a = rw (a, shorten)

  xge_case :
      {r : Text}
      → strip_prefix (text "GigabitEthernet") (trim s) ≡ none
      → strip_prefix (text "Ten-GigabitEthernet") (trim s) ≡ some r
      → canonical_interface_name s ≡ text "XGE" ++ r
  unfolding canonical_interface_name
  xge_case a b = rw (a, shorten) (rw (b, shorten))

  fge_case :
      {r : Text}
      → strip_prefix (text "GigabitEthernet") (trim s) ≡ none
      → strip_prefix (text "Ten-GigabitEthernet") (trim s) ≡ none
      → strip_prefix (text "FortyGigE") (trim s) ≡ some r
      → canonical_interface_name s ≡ text "FGE" ++ r
  unfolding canonical_interface_name
  fge_case a b c = rw (a, shorten) (rw (b, shorten) (rw (c, shorten)))

  plain_case :
      strip_prefix (text "GigabitEthernet") (trim s) ≡ none
      → strip_prefix (text "Ten-GigabitEthernet") (trim s) ≡ none
      → strip_prefix (text "FortyGigE") (trim s) ≡ none
      → canonical_interface_name s ≡ trim s
  unfolding canonical_interface_name
  plain_case a b c = shorten-none (trim s) a b c

plain_fixed :
    (s : Text)
    → strip_prefix (text "GigabitEthernet") (trim s) ≡ none
    → strip_prefix (text "Ten-GigabitEthernet") (trim s) ≡ none
    → strip_prefix (text "FortyGigE") (trim s) ≡ none
    → canonical_interface_name (trim s) ≡ trim s
unfolding canonical_interface_name
plain_fixed s a b c = rw (trim_idem s) (shorten-none (trim s) a b c)

-- The canonical name is the canonical name of itself.
pub canonical_interface_name_idem :
    (s : Text) → canonical_interface_name (canonical_interface_name s) ≡ canonical_interface_name s
canonical_interface_name_idem s =
    elim (Option-cases (strip_prefix (text "GigabitEthernet") (trim s))) [
      | inr (r, a) ↦ rw (ge_case s a) (ge_fixed r (tail_trimmed (text "GigabitEthernet") s a))
      | inl a ↦ elim (Option-cases (strip_prefix (text "Ten-GigabitEthernet") (trim s))) [
        | inr (r, b) ↦
            rw (xge_case s a b) (xge_fixed r (tail_trimmed (text "Ten-GigabitEthernet") s b))
        | inl b ↦ elim (Option-cases (strip_prefix (text "FortyGigE") (trim s))) [
          | inr (r, c) ↦ rw (fge_case s a b c) (fge_fixed r (tail_trimmed (text "FortyGigE") s c))
          | inl c ↦ rw (plain_case s a b c) (plain_fixed s a b c)
        ]
      ]
    ]

full_name : canonical_interface_name (text " Ten-GigabitEthernet1/0/1 ") ≡ text "XGE1/0/1"
unfolding canonical_interface_name trim strip_prefix
full_name = refl

-- ===== src/Intent/Ipv4.antt =====
-- `str::parse::<Ipv4Addr>()` of the standard library, as the test whether a text is an address: four
-- decimal numbers up to 255, of at most three digits and without a leading zero, with dots between.
use aria_underlay.Base.{
  ℕ, ◌+◌, ◌-◌, ◌*◌, Text, List, [], ◌∷◌, Bool, false, not, ◌&&◌, leb, ◌==◌, all, length,
  if◌then◌else◌,
}

abbrev pub is_digit : ℕ → Bool
is_digit c = leb b'0' c && leb c b'9'

-- The value of decimal digits, the most significant first.
unfoldable pub decimal : ℕ → Text → ℕ
decimal n [] = n
decimal n (c ∷ s) = decimal (10 * n + (c - b'0')) s

has_leading_zero : Text → Bool
has_leading_zero (c ∷ d ∷ s) = c == b'0'
has_leading_zero _ = false

unfoldable pub is_octet : Text → Bool
unfolding decimal has_leading_zero
is_octet s =
    not (length s == 0)
    && leb (length s) 3
    && all is_digit s
    && not (has_leading_zero s)
    && leb (decimal 0 s) 255

-- The text up to the first dot, and the parts behind.
unfoldable pub split_dots : Text → List Text
split_dots [] = [] ∷ []
split_dots (c ∷ s) =
    let parts = split_dots s in
    if c == b'.' then [] ∷ parts else elim parts [ [] ↦ (c ∷ []) ∷ [] | p ∷ ps ↦ (c ∷ p) ∷ ps ]

unfoldable pub is_ipv4 : Text → Bool
unfolding is_octet split_dots
is_ipv4 s = length (split_dots s) == 4 && all is_octet (split_dots s)

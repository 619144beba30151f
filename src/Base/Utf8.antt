-- ===== src/Base/Utf8.antt =====
-- UTF-8, in which `str` keeps its text: `str::as_bytes` and `str::len`.
use aria_underlay.Base.{
  ℕ, zero, suc, ◌+◌, ◌-◌, ◌*◌, ◌/◌, ◌%◌, ◌<◌, Text, List, [], ◌∷◌, ◌++◌, ltb, length, All,
  All-append, if◌then◌else◌, ◌≡◌, refl, ap, ◌∙◌, true, inl, inr, Bool-cases, arith,
}

unfoldable pub encode_char : ℕ → List ℕ
encode_char c =
    if ltb c 0x80
    then c ∷ []
    else if ltb c 0x800
    then (0xc0 + c / 64) ∷ (0x80 + c % 64) ∷ []
    else if ltb c 0x10000
    then (0xe0 + c / 4096) ∷ (0x80 + c / 64 % 64) ∷ (0x80 + c % 64) ∷ []
    else (0xf0 + c / 262144) ∷ (0x80 + c / 4096 % 64) ∷ (0x80 + c / 64 % 64) ∷ (0x80 + c % 64) ∷ []

unfoldable pub as_bytes : Text → List ℕ
as_bytes [] = []
as_bytes (c ∷ s) = encode_char c ++ as_bytes s

abbrev pub byte_length : Text → ℕ
byte_length s = length (as_bytes s)

-- A decoder. `value` is what the bytes of the current character have given so far, and `more` the number
-- of bytes that it still has.
unfoldable pub decode_from : (value more : ℕ) → List ℕ → Text
decode_from value more [] = []
decode_from value zero (b ∷ r) =
    if ltb b 0x80
    then b ∷ decode_from 0 0 r
    else if ltb b 0xe0
    then decode_from (b - 0xc0) 1 r
    else if ltb b 0xf0
    then decode_from (b - 0xe0) 2 r
    else decode_from (b - 0xf0) 3 r
decode_from value (suc zero) (b ∷ r) = (value * 64 + (b - 0x80)) ∷ decode_from 0 0 r
decode_from value (suc (suc more)) (b ∷ r) = decode_from (value * 64 + (b - 0x80)) (suc more) r

abbrev pub from_bytes : List ℕ → Text
from_bytes bytes = decode_from 0 0 bytes

lead_two : (b : ℕ) (r : List ℕ) → b < 0x20 → decode_from 0 0 ((0xc0 + b) ∷ r) ≡ decode_from b 1 r
unfolding decode_from
lead_two b r h = ground arith

lead_three : (b : ℕ) (r : List ℕ) → b < 0x10 → decode_from 0 0 ((0xe0 + b) ∷ r) ≡ decode_from b 2 r
unfolding decode_from
lead_three b r h = ground arith

lead_four : (b : ℕ) (r : List ℕ) → b < 0x10 → decode_from 0 0 ((0xf0 + b) ∷ r) ≡ decode_from b 3 r
unfolding decode_from
lead_four b r h = ground arith

last_byte :
    (v b : ℕ) (r : List ℕ) → decode_from v 1 ((0x80 + b) ∷ r) ≡ (v * 64 + b) ∷ decode_from 0 0 r
unfolding decode_from
last_byte v b r = ground arith

next_byte :
    (v b n : ℕ) (r : List ℕ)
    → decode_from v (suc (suc n)) ((0x80 + b) ∷ r) ≡ decode_from (v * 64 + b) (suc n) r
unfolding decode_from
next_byte v b n r = ap (λ x. decode_from (v * 64 + x) (suc n) r) (omega arith)

one_byte :
    (c : ℕ) (r : List ℕ) → ltb c 0x80 ≡ true → decode_from 0 0 (c ∷ r) ≡ c ∷ decode_from 0 0 r
unfolding decode_from
one_byte c r e = rw e refl

two_bytes :
    (c : ℕ) (r : List ℕ)
    → c < 0x800
    → decode_from 0 0 ((0xc0 + c / 64) ∷ (0x80 + c % 64) ∷ r) ≡ c ∷ decode_from 0 0 r
two_bytes c r h =
    lead_two (c / 64) _ (omega arith)
    ∙ last_byte (c / 64) (c % 64) r
    ∙ ap (λ x. x ∷ decode_from 0 0 r) (omega arith)

three_bytes :
    (c : ℕ) (r : List ℕ)
    → c < 0x10000
    → decode_from 0 0 ((0xe0 + c / 4096) ∷ (0x80 + c / 64 % 64) ∷ (0x80 + c % 64) ∷ r)
      ≡ c ∷ decode_from 0 0 r
three_bytes c r h =
    lead_three (c / 4096) _ (omega arith)
    ∙ next_byte (c / 4096) (c / 64 % 64) 0 _
    ∙ last_byte (c / 4096 * 64 + c / 64 % 64) (c % 64) r
    ∙ ap (λ x. x ∷ decode_from 0 0 r) (omega arith)

four_bytes :
    (c : ℕ) (r : List ℕ)
    → c < 0x110000
    → decode_from 0 0
        ((0xf0 + c / 262144) ∷ (0x80 + c / 4096 % 64) ∷ (0x80 + c / 64 % 64) ∷ (0x80 + c % 64) ∷ r)
      ≡ c ∷ decode_from 0 0 r
four_bytes c r h =
    lead_four (c / 262144) _ (omega arith)
    ∙ next_byte (c / 262144) (c / 4096 % 64) 1 _
    ∙ next_byte (c / 262144 * 64 + c / 4096 % 64) (c / 64 % 64) 0 _
    ∙ last_byte ((c / 262144 * 64 + c / 4096 % 64) * 64 + c / 64 % 64) (c % 64) r
    ∙ ap (λ x. x ∷ decode_from 0 0 r) (omega arith)

decode-encode_char :
    (c : ℕ) (r : List ℕ)
    → c < 0x110000
    → decode_from 0 0 (encode_char c ++ r) ≡ c ∷ decode_from 0 0 r
unfolding encode_char
decode-encode_char c r h = elim (Bool-cases (ltb c 0x80)) [
  | inl e ↦ rw e (one_byte c r e)
  | inr n ↦ elim (Bool-cases (ltb c 0x800)) [
    | inl e ↦ rw (n, e) (two_bytes c r (ground arith))
    | inr m ↦ elim (Bool-cases (ltb c 0x10000)) [
      | inl e ↦ rw (n, m, e) (three_bytes c r (ground arith))
      | inr o ↦ rw (n, m, o) (four_bytes c r h)
    ]
  ]
]

-- The scalar values of a text are below 0x110000.
abbrev pub IsText : Text → Type 0
IsText s = All (λ c. c < 0x110000) s

pub from_bytes-as_bytes : (s : Text) → IsText s → from_bytes (as_bytes s) ≡ s
unfolding as_bytes decode_from
from_bytes-as_bytes [] h = refl
from_bytes-as_bytes (c ∷ s) h =
    decode-encode_char c (as_bytes s) h.0 ∙ ap (λ r. c ∷ r) (from_bytes-as_bytes s h.1)

encode_char-bytes : (c : ℕ) → c < 0x110000 → All (λ b. b < 256) (encode_char c)
unfolding encode_char
encode_char-bytes c h = ground arith

pub as_bytes-bytes : (s : Text) → IsText s → All (λ b. b < 256) (as_bytes s)
unfolding as_bytes
as_bytes-bytes [] h = tt
as_bytes-bytes (c ∷ s) h =
    All-append _ (encode_char c) _ (encode_char-bytes c h.0) (as_bytes-bytes s h.1)

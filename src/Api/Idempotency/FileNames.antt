-- ===== src/Api/Idempotency/FileNames.antt =====
-- The files of the idempotency store: one for each key, under a name that any file system takes.
use aria_underlay.Base.{
  ℕ, ◌+◌, ◌-◌, ◌*◌, ◌/◌, ◌%◌, ◌<◌, ◌≤◌, Text, text, List, [], ◌∷◌, ◌++◌, ltb, leb, length, All,
  All-append, if◌then◌else◌, ◌≡◌, refl, sym, ap, subst, ◌∙◌, true, false, ◌||◌, ◌&&◌, ◌==◌, arith,
  trim, is_empty,
}
use aria_underlay.Base.Errors.{ok, >>-eq-ok, fail_if}
use aria_underlay.Base.Loops.{fail_if-ok}
use aria_underlay.Base.Utf8.{
  IsText, encode_char, as_bytes, byte_length, from_bytes, from_bytes-as_bytes, as_bytes-bytes,
}
use aria_underlay.Api.Idempotency.{
  hex_digit, hex_bytes, hex_encode, path_for, normalize_idempotency_key,
}

-- The value of a hexadecimal digit, and the text that a name stands for.
unfoldable pub digit_value : ℕ → ℕ
digit_value c = if ltb c b'a' then c - b'0' else c - 87

unfoldable pub unhex : Text → List ℕ
unhex [] = []
unhex (a ∷ []) = []
unhex (a ∷ b ∷ r) = (digit_value a * 16 + digit_value b) ∷ unhex r

unfoldable pub hex_decode : Text → Text
hex_decode name = from_bytes (unhex name)

digit_value-hex_digit : (n : ℕ) → n < 16 → digit_value (hex_digit n) ≡ n
unfolding digit_value
digit_value-hex_digit n h = ground arith

unhex-hex_bytes : (r : List ℕ) → All (λ b. b < 256) r → unhex (hex_bytes r) ≡ r
unfolding unhex hex_bytes
unhex-hex_bytes [] h = refl
unhex-hex_bytes (b ∷ r) h =
    rw
      (
        digit_value-hex_digit (b / 16) (let k = h.0 in omega arith),
        digit_value-hex_digit (b % 16) (omega arith),
        unhex-hex_bytes r h.1,
      )
      (ap (λ x. x ∷ r) (omega arith))

-- A key can be read back from the name of its file, so that no two keys share a file. (The characters of
-- a key are scalar values, as in any `String`.)
pub hex_decode-hex_encode : (key : Text) → IsText key → hex_decode (hex_encode key) ≡ key
unfolding hex_decode hex_encode
hex_decode-hex_encode key h =
    ap from_bytes (unhex-hex_bytes (as_bytes key) (as_bytes-bytes key h))
    ∙ from_bytes-as_bytes key h

length-hex_bytes : (r : List ℕ) → length (hex_bytes r) ≡ 2 * length r
unfolding hex_bytes
length-hex_bytes [] = refl
length-hex_bytes (b ∷ r) = let ih = length-hex_bytes r in omega arith

length-append : (a b : Text) → length (a ++ b) ≡ length a + length b
length-append [] b = omega arith
length-append (x ∷ a) b = let ih = length-append a b in omega arith

-- A lower-case hexadecimal digit, or a character of the extension.
abbrev pub IsPlain : ℕ → Type 0
IsPlain c = ((leb b'0' c && leb c b'9') || (leb b'a' c && leb c b'z') || c == b'.') ≡ true

hex_digit-IsPlain : (n : ℕ) → n < 16 → IsPlain (hex_digit n)
hex_digit-IsPlain n h = ground arith

hex_bytes-IsPlain : (r : List ℕ) → All (λ b. b < 256) r → All IsPlain (hex_bytes r)
unfolding hex_bytes
hex_bytes-IsPlain [] h = tt
hex_bytes-IsPlain (b ∷ r) h = (
  hex_digit-IsPlain (b / 16) (let k = h.0 in omega arith),
  (hex_digit-IsPlain (b % 16) (omega arith), hex_bytes-IsPlain r h.1),
)

normalized :
    (key k : Text)
    → normalize_idempotency_key key ≡ ok k
    → (is_empty k ≡ false) × (byte_length k ≤ 125)
unfolding normalize_idempotency_key
normalized key k h =
    let (filled, r) = >>-eq-ok {B = Text} (fail_if (is_empty (trim key)) _) _ h in
    let (short, e) = >>-eq-ok {B = Text} (fail_if (ltb 125 (byte_length (trim key))) _) _ r in
    let same_key : trim key ≡ k = cc in
    let bound = fail_if-ok _ _ short in
    let least : byte_length (trim key) ≤ 125 = ground arith in
    (
      ap is_empty (sym same_key) ∙ fail_if-ok _ _ filled,
      subst (λ x. byte_length x ≤ 125) same_key least,
    )

encode_char-length : (c : ℕ) → 1 ≤ length (encode_char c)
unfolding encode_char
encode_char-length c = ground arith

byte_length-positive : (s : Text) → is_empty s ≡ false → 1 ≤ byte_length s
unfolding as_bytes
byte_length-positive [] h = cc
byte_length-positive (c ∷ s) h =
    let l = length-append (encode_char c) (as_bytes s) in
    let p = encode_char-length c in omega arith

extension-IsPlain : All IsPlain (text ".json")
extension-IsPlain = (refl, (refl, (refl, (refl, (refl, tt)))))

-- The name of the file of an accepted key has from 7 to 255 bytes, the most that file systems take, and
-- holds nothing but digits, small letters and a dot, so that no key leads out of the directory.
pub path_for-bounded :
    (key k : Text)
    → IsText k
    → normalize_idempotency_key key ≡ ok k
    → (7 ≤ length (path_for k)) × (length (path_for k) ≤ 255) × All IsPlain (path_for k)
unfolding path_for hex_encode
path_for-bounded key k t h =
    let (filled, short) = normalized key k h in
    let some_byte = byte_length-positive k filled in
    let l = length-append (hex_bytes (as_bytes k)) (text ".json") in
    let m = length-hex_bytes (as_bytes k) in
    (
      omega arith,
      omega arith,
      All-append IsPlain (hex_bytes (as_bytes k)) _
          (hex_bytes-IsPlain (as_bytes k) (as_bytes-bytes k t)) extension-IsPlain,
    )

-- ===== src/Tx/Journal/FileNames.antt =====
-- The identifiers under which a record may be filed.
use aria_underlay.Base.{
  ℕ, Text, [], ◌∷◌, true, false, ◌≡◌, refl, all, is_empty, contains_char, is_ascii_alphanumeric,
  arith, Bool-cases, inl, inr, ◌==◌, ==_iff, ap,
}
use aria_underlay.Base.Errors.{ok}
use aria_underlay.Tx.Journal.{is_tx_id_char, validate_journal_tx_id}

no_char :
    (c : ℕ) (s : Text)
    → is_tx_id_char c ≡ false
    → all is_tx_id_char s ≡ true
    → contains_char c s ≡ false
unfolding contains_char
no_char c [] h a = refl
no_char c (d ∷ s) h a = elim (Bool-cases (d == c)) [
  | inl e ↦ let same : d ≡ c = (==_iff d c).0 e in ground (arith, ap is_tx_id_char same)
  | inr e ↦ ground (arith, no_char c s h)
]

-- A transaction whose identifier the file store accepts is filed in the directory of the store: the
-- identifier is not empty and has neither a path separator nor a dot.
pub validate_journal_tx_id_safe :
    (tx_id : Text)
    → validate_journal_tx_id tx_id ≡ ok tt
    → (is_empty tx_id ≡ false)
      × (contains_char b'/' tx_id ≡ false)
      × (contains_char b'\\' tx_id ≡ false)
      × (contains_char b'.' tx_id ≡ false)
unfolding validate_journal_tx_id is_tx_id_char is_ascii_alphanumeric
validate_journal_tx_id_safe tx_id h =
    let passed : all is_tx_id_char tx_id ≡ true = ground arith in
    (
      ground arith,
      no_char b'/' tx_id slash passed,
      no_char b'\\' tx_id backslash passed,
      no_char b'.' tx_id dot passed,
    )
  where
    slash : is_tx_id_char b'/' ≡ false
    slash = refl

    backslash : is_tx_id_char b'\\' ≡ false
    backslash = refl

    dot : is_tx_id_char b'.' ≡ false
    dot = refl

-- ===== src/Tx/Journal/Tests.antt =====
-- The journal record of a transaction that is refused a move, fails on the device and is recovered.
use aria_underlay.Base.{
  ℕ, [], ◌∷◌, List, ◌≡◌, refl, ◌↔◌, Memᴰ, none, some, true, false, text, is_empty, contains_char,
  is_ascii_alphanumeric,
}
use aria_underlay.Base.Errors.{ok}
use aria_underlay.Model.{DeviceId}
use aria_underlay.Tx.Phase.{
  TxPhase, TxPhase-discrete, validate_transition, is_allowed, is_listed, requires_recovery,
}
use aria_underlay.Tx.Journal.{
  TxContext, TxJournalRecord, started, with_phase, transition_phase, with_error, list_recoverable,
  validate_journal_tx_id,
}
use aria_underlay.Tx.Journal.FileNames.{validate_journal_tx_id_safe}
use aria_underlay.Tx.Journal.Store.{put_all, last_written, list_recoverable_iff}
use aria_underlay.Tx.Journal.Life.{
  Change, to_phase, note_error, change, changes, IsAccountable, changes-IsAccountable,
}

abbrev context : TxContext
context = record { tx_id = text "tx-1"; request_id = text "req-1"; trace_id = text "trace-1" }

abbrev leaves : List DeviceId
leaves = text "leaf-a" ∷ text "leaf-b" ∷ []

abbrev story : List (Change × ℕ)
story =
    (to_phase TxPhase.preparing, 11)
    ∷ (to_phase TxPhase.committed, 12)
    ∷ (note_error (text "ADAPTER_TRANSPORT") (text "connection lost"), 13)
    ∷ (to_phase TxPhase.recovering, 14)
    ∷ (to_phase TxPhase.rolled_back, 15)
    ∷ []

-- The move to `Committed` is refused and leaves no trace.
rolled_back_at_last : (changes story (started context leaves 10)).phase ≡ TxPhase.rolled_back
unfolding changes change started transition_phase with_error validate_transition is_allowed
    is_listed TxPhase-discrete
rolled_back_at_last = refl

changes-IsAccountable_example :
    IsAccountable context leaves 10 (changes story (started context leaves 10))
changes-IsAccountable_example = changes-IsAccountable context leaves 10 story

abbrev begun : TxJournalRecord
begun = started context leaves 10

list_recoverable_iff_example :
    Memᴰ begun (list_recoverable (put_all (begun ∷ with_phase TxPhase.failed 12 begun ∷ []) [])) ↔ (
      (requires_recovery begun.phase ≡ true)
      × (last_written none begun.tx_id (begun ∷ with_phase TxPhase.failed 12 begun ∷ [])
          ≡ some begun))
list_recoverable_iff_example =
    list_recoverable_iff (begun ∷ with_phase TxPhase.failed 12 begun ∷ []) begun

tx_1_accepted : validate_journal_tx_id (text "tx-1") ≡ ok tt
unfolding validate_journal_tx_id is_ascii_alphanumeric
tx_1_accepted = refl

validate_journal_tx_id_safe_example :
    (is_empty (text "tx-1") ≡ false)
    × (contains_char b'/' (text "tx-1") ≡ false)
    × (contains_char b'\\' (text "tx-1") ≡ false)
    × (contains_char b'.' (text "tx-1") ≡ false)
validate_journal_tx_id_safe_example = validate_journal_tx_id_safe (text "tx-1") tx_1_accepted

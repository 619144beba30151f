-- ===== src/Tx/Recovery/Tests.antt =====
-- A journal with one unfinished transaction and one that is over.
use aria_underlay.Base.{[], ◌∷◌, Memᴰ, true, ◌≡◌, ◌↔◌, text}
use aria_underlay.Model.{DeviceId}
use aria_underlay.Tx.Phase.{TxPhase, requires_recovery}
use aria_underlay.Tx.Journal.{TxContext, TxJournalRecord, started, with_phase}
use aria_underlay.Tx.Recovery.{in_doubt_records_for_devices}
use aria_underlay.Tx.Recovery.Decision.{in_doubt_records_for_devices_iff}

abbrev context : TxContext
context = record { tx_id = text "tx-1"; request_id = text "req-1"; trace_id = text "trace-1" }

abbrev stuck : TxJournalRecord
stuck = with_phase TxPhase.verifying 11 (started context (text "leaf-a" ∷ []) 10)

abbrev over : TxJournalRecord
over = with_phase TxPhase.failed 11 (started context (text "leaf-a" ∷ []) 10)

in_doubt_records_for_devices_iff_example :
    Memᴰ stuck (in_doubt_records_for_devices (over ∷ stuck ∷ []) (text "leaf-a" ∷ [])) ↔ (
      Memᴰ stuck (over ∷ stuck ∷ [])
      × (requires_recovery stuck.phase ≡ true)
      × ((d : DeviceId) × Memᴰ d stuck.devices × Memᴰ d (text "leaf-a" ∷ [])))
in_doubt_records_for_devices_iff_example =
    in_doubt_records_for_devices_iff (over ∷ stuck ∷ []) (text "leaf-a" ∷ []) stuck

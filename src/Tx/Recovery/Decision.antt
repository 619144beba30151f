-- ===== src/Tx/Recovery/Decision.antt =====
-- The decision of recovery against the phases and the moves between them.
use aria_underlay.Base.{true, false, List, Memᴰ, ◌≡◌, ◌⊎◌, ◌↔◌, arith, text_ord}
use aria_underlay.Base.Errors.{ok}
use aria_underlay.Base.Mem.{mem_of_filter, mem_filter, mem_of_any, any_mem, contains_iff}
use aria_underlay.Model.{DeviceId}
use aria_underlay.Tx.Phase.{TxPhase, requires_recovery, validate_transition, is_allowed, is_listed}
use aria_underlay.Tx.Journal.{TxJournalRecord}
use aria_underlay.Tx.Recovery.{
  RecoveryAction, recovery_action_for_phase, classify_recovery, in_doubt_records_for_devices,
}

-- Nothing is done about a transaction exactly when its phase requires no recovery.
pub classify_recovery-noop :
    (r : TxJournalRecord)
    → ((classify_recovery r).action ≡ RecoveryAction.noop) ↔ (requires_recovery r.phase ≡ false)
unfolding classify_recovery recovery_action_for_phase requires_recovery
classify_recovery-noop r = ground arith

-- Recovery acts by itself, by discarding what was prepared or through the adapter, exactly on the
-- transactions that may move to `Recovering`.
pub classify_recovery-recovering :
    (r : TxJournalRecord)
    → (((classify_recovery r).action ≡ RecoveryAction.discard_prepared_changes)
        ⊎ ((classify_recovery r).action ≡ RecoveryAction.adapter_recover))
      ↔ (validate_transition r.phase TxPhase.recovering ≡ ok tt)
unfolding classify_recovery recovery_action_for_phase validate_transition is_allowed is_listed
classify_recovery-recovering r = ground arith

-- The transactions in doubt for some devices are those of the journal that require recovery and have
-- one of these devices.
pub in_doubt_records_for_devices_iff :
    (records : List TxJournalRecord) (device_ids : List DeviceId) (r : TxJournalRecord)
    → Memᴰ r (in_doubt_records_for_devices records device_ids) ↔ (
        Memᴰ r records
        × (requires_recovery r.phase ≡ true)
        × ((d : DeviceId) × Memᴰ d r.devices × Memᴰ d device_ids))
unfolding in_doubt_records_for_devices
in_doubt_records_for_devices_iff records device_ids r = (
  λ h.
      let (m, e) = mem_of_filter _ r _ h in
      let (n, f) = mem_of_filter _ r records m in
      let (d, q, c) = mem_of_any _ r.devices e in (n, f, (d, q, (contains_iff d device_ids).0 c)),
  λ h.
      mem_filter _ r _ (mem_filter _ r records h.0 h.1)
        (any_mem _ h.2.0 r.devices h.2.1 ((contains_iff h.2.0 device_ids).1 h.2.2)),
)

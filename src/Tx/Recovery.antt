-- ===== src/Tx/Recovery.antt =====
-- tx/recovery.rs: what is to be done about a transaction that was found in the journal.
use aria_underlay.Base.{Text, List, Bool, any, filter, text_ord}
use aria_underlay.Base.BTree.{collect_set, contains}
use aria_underlay.Model.{DeviceId}
use aria_underlay.Tx.Phase.{TxPhase, requires_recovery}
use aria_underlay.Tx.Journal.{TxJournalRecord}
pub mod Decision
mod Tests

pub data RecoveryAction : Type 0 where
  noop discard_prepared_changes adapter_recover manual_intervention : RecoveryAction

pub record RecoveryDecision : Type 0 where
  pub tx_id : Text
  pub phase : TxPhase
  pub action : RecoveryAction

unfoldable pub recovery_action_for_phase : TxPhase → RecoveryAction
recovery_action_for_phase TxPhase.started = discard_prepared_changes
recovery_action_for_phase TxPhase.preparing = discard_prepared_changes
recovery_action_for_phase TxPhase.prepared = discard_prepared_changes
recovery_action_for_phase TxPhase.committing = adapter_recover
recovery_action_for_phase TxPhase.verifying = adapter_recover
recovery_action_for_phase TxPhase.final_confirming = adapter_recover
recovery_action_for_phase TxPhase.rolling_back = adapter_recover
recovery_action_for_phase TxPhase.recovering = adapter_recover
recovery_action_for_phase TxPhase.in_doubt = manual_intervention
recovery_action_for_phase TxPhase.committed = noop
recovery_action_for_phase TxPhase.rolled_back = noop
recovery_action_for_phase TxPhase.failed = noop
recovery_action_for_phase TxPhase.force_resolved = noop

unfoldable pub classify_recovery : TxJournalRecord → RecoveryDecision
classify_recovery r = record {
  tx_id = r.tx_id;
  phase = r.phase;
  action = recovery_action_for_phase r.phase;
}

unfoldable pub in_doubt_records_for_devices :
    List TxJournalRecord → List DeviceId → List TxJournalRecord
in_doubt_records_for_devices records device_ids =
    let requested = collect_set device_ids in
    filter (λ r. any (λ device_id. contains device_id requested) r.devices)
      (filter (λ r. requires_recovery r.phase) records)

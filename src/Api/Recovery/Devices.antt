-- ===== src/Api/Recovery/Devices.antt =====
-- `recover_record`: what the devices of a transaction say of it, and what is made of their answers.
use aria_underlay.Base.{
  ℕ, zero, suc, ◌+◌, Text, text, List, [], ◌∷◌, ◌++◌, Option, none, some, Bool, true, false, ◌&&◌,
  map, is_nil, ite, if◌then◌else◌, text_ord,
}
use aria_underlay.Base.BTree.{same}
use aria_underlay.Base.Errors.{
  UnderlayError, UnderlayResult, ok, err, adapter_transport, adapter_operation, str, ◌>>=◌, ◌>>◌,
}
use aria_underlay.Base.Print.{join}
use aria_underlay.Model.{DeviceId}
use aria_underlay.Planner.DevicePlan.{DeviceDesiredState}
use aria_underlay.Engine.Diff.{ChangeSet}
use aria_underlay.Tx.Phase.{TxPhase, TxPhase-discrete}
use aria_underlay.Tx.Strategy.{TransactionStrategy}
use aria_underlay.Tx.Journal.{TxJournalRecord}
use aria_underlay.Tx.Recovery.{RecoveryAction, discard_prepared_changes, adapter_recover}
use aria_underlay.Api.Apply.{AdapterOperationStatus}
use aria_underlay.Api.Apply.Failure.{journal_error_fields}
use aria_underlay.Api.Coordinator.Env.{AdapterOutcome}
use aria_underlay.Api.Coordinator.Endpoint.{
  status_name, is_committed, is_verified, is_confirmed_commit, find_change_set,
}

-- What a device answers in one recovery: the inventory and the pool of clients, the two calls that are
-- made at most once, and each attempt at `recover`.
pub record Side : Type 0 where
  pub managed : UnderlayResult (Unit {0})
  pub client : UnderlayResult (Unit {0})
  pub final_confirm : UnderlayResult AdapterOutcome
  pub verify : DeviceDesiredState → ChangeSet → UnderlayResult AdapterOutcome
  pub connect : ℕ → UnderlayResult (Unit {0})
  pub recover : ℕ → UnderlayResult AdapterOutcome

unfoldable pub recover_phase_from_adapter_status : RecoveryAction → AdapterOperationStatus → TxPhase
recover_phase_from_adapter_status action AdapterOperationStatus.rolled_back = TxPhase.rolled_back
recover_phase_from_adapter_status adapter_recover AdapterOperationStatus.committed =
    TxPhase.committed
recover_phase_from_adapter_status discard_prepared_changes AdapterOperationStatus.no_change =
    TxPhase.rolled_back
recover_phase_from_adapter_status _ _ = TxPhase.in_doubt

unfoldable pub find_desired_state : DeviceId → List DeviceDesiredState → Option DeviceDesiredState
find_desired_state id [] = none
find_desired_state id (d ∷ ds) = if same d.device_id id then some d else find_desired_state id ds

abbrev pub desired_state_for_record : TxJournalRecord → DeviceId → Option DeviceDesiredState
desired_state_for_record r id = find_desired_state id r.desired_states

abbrev pub change_set_for_record : TxJournalRecord → DeviceId → Option ChangeSet
change_set_for_record r id = find_change_set id r.change_sets

unfoldable pub error_summary : Text → UnderlayError → Text
error_summary operation error =
    let (code, message) = journal_error_fields error in
    operation ++ (text " failed with " ++ (code ++ (text ": " ++ message)))

-- `recover_with_transport_retry`: `left` attempts may follow the current one.
abbrev retry_on :
    UnderlayResult AdapterOutcome → UnderlayResult AdapterOutcome → UnderlayResult AdapterOutcome
retry_on (ok outcome) next = ok outcome
retry_on (err (adapter_transport message)) next = next
retry_on (err e) next = err e

unfoldable pub attempts : Side → (left attempt : ℕ) → UnderlayResult AdapterOutcome
attempts side zero attempt = side.connect attempt >> side.recover attempt
attempts side (suc left) attempt =
    side.connect attempt >> retry_on (side.recover attempt) (attempts side left (attempt + 1))

abbrev pub recover_with_transport_retry : Side → UnderlayResult AdapterOutcome
recover_with_transport_retry side = attempts side 2 0

-- The phase of one device, by the call `recover`.
unfoldable pub recover_device : RecoveryAction → Side → UnderlayResult TxPhase
recover_device action side = do
  side.managed
  outcome ← recover_with_transport_retry side
  ok (recover_phase_from_adapter_status action outcome.status)

abbrev status_text : Text → AdapterOutcome → Text
status_text prefix outcome = prefix ++ status_name outcome.status

unfoldable pub final_confirm_recovery_in_doubt_error :
    TxJournalRecord
    → DeviceId
    → (final_confirm_summary verify_summary recover_summary : Text) → UnderlayError
final_confirm_recovery_in_doubt_error r id final_confirm_summary verify_summary recover_summary =
    adapter_operation (text "FINAL_CONFIRM_RECOVERY_IN_DOUBT")
      (record {
        template = "could not prove final-confirming transaction {} for device {}: {}; {}; {}";
        values =
            str r.tx_id
            ∷ str id
            ∷ str final_confirm_summary
            ∷ str verify_summary
            ∷ str recover_summary
            ∷ [];
      })
      true []

module _ (r : TxJournalRecord) (id : DeviceId) (side : Side) where
  abbrev pub prove_phase :
      (confirmed verified : Text) → AdapterOutcome → TxPhase → UnderlayResult TxPhase
  prove_phase confirmed verified outcome TxPhase.committed = ok TxPhase.committed
  prove_phase confirmed verified outcome TxPhase.rolled_back = ok TxPhase.rolled_back
  prove_phase confirmed verified outcome _ = err (
      final_confirm_recovery_in_doubt_error r id confirmed verified
        (status_text (text "adapter recover returned status ") outcome))

  -- The last resort for a device that could not be confirmed.
  unfoldable pub prove_by_recover :
      (confirmed verified : Text) → UnderlayResult AdapterOutcome → UnderlayResult TxPhase
  prove_by_recover confirmed verified (err e) = err (
      final_confirm_recovery_in_doubt_error r id confirmed verified
        (error_summary (text "adapter recover") e))
  prove_by_recover confirmed verified (ok outcome) =
      prove_phase confirmed verified outcome
        (recover_phase_from_adapter_status adapter_recover outcome.status)

  abbrev recover_again : (confirmed verified : Text) → UnderlayResult TxPhase
  recover_again confirmed verified =
      prove_by_recover confirmed verified (recover_with_transport_retry side)

  unfoldable pub prove_by_verify : Text → UnderlayResult AdapterOutcome → UnderlayResult TxPhase
  prove_by_verify confirmed (err e) = recover_again confirmed (error_summary (text "verify") e)
  prove_by_verify confirmed (ok outcome) =
      if is_verified outcome.status
      then ok TxPhase.committed
      else recover_again confirmed (status_text (text "verify returned status ") outcome)

  unfoldable pub verify_again :
      Text → Option DeviceDesiredState → Option ChangeSet → UnderlayResult TxPhase
  verify_again confirmed (some desired) (some changes) =
      prove_by_verify confirmed (side.verify desired changes)
  verify_again confirmed _ _ = recover_again confirmed (
      text "journal record "
      ++ (r.tx_id ++ (text " has no desired state or change set for device " ++ id)))

  unfoldable pub prove_by_confirm : UnderlayResult AdapterOutcome → UnderlayResult TxPhase
  prove_by_confirm (err e) =
      verify_again (error_summary (text "final confirm") e) (desired_state_for_record r id)
        (change_set_for_record r id)
  prove_by_confirm (ok outcome) =
      if is_committed outcome.status
      then ok TxPhase.committed
      else verify_again (status_text (text "final confirm returned status ") outcome)
          (desired_state_for_record r id) (change_set_for_record r id)

  -- The phase of one device whose final confirmation was under way.
  unfoldable pub confirm_device : UnderlayResult TxPhase
  confirm_device = do side.managed; side.client; prove_by_confirm side.final_confirm

unfoldable pub merge_recovery_phase : Option TxPhase → TxPhase → TxPhase
merge_recovery_phase none phase = phase
merge_recovery_phase (some left) right = ite (TxPhase-discrete left right) left TxPhase.in_doubt

pub record RecoveryFailure : Type 0 where
  pub device_id : DeviceId
  pub error : UnderlayError

-- What the loop over the devices has found so far.
pub record Merged : Type 0 where
  pub merged_phase : Option TxPhase
  pub failures : List RecoveryFailure

abbrev pub nothing_yet : Merged
nothing_yet = record { merged_phase = none; failures = [] }

-- One turn: the phase that a device has come to, or `record_recovery_failure`.
unfoldable pub note_device : DeviceId → UnderlayResult TxPhase → Merged → Merged
note_device id (ok phase) m = record m {
  merged_phase = some (merge_recovery_phase m.merged_phase phase);
}
note_device id (err e) m = record {
  merged_phase = some (merge_recovery_phase m.merged_phase TxPhase.in_doubt);
  failures = m.failures ++ record { device_id = id; error = e } ∷ [];
}

unfoldable pub merge_devices :
    (DeviceId → Side → UnderlayResult TxPhase) → Merged → List (DeviceId × Side) → Merged
merge_devices ask m [] = m
merge_devices ask m ((id, side) ∷ rest) = merge_devices ask (note_device id (ask id side) m) rest

unfoldable pub recovery_failure_summary : RecoveryFailure → Text
recovery_failure_summary failure =
    let (code, message) = journal_error_fields failure.error in
    text "device " ++ (failure.device_id ++ (text ": " ++ (code ++ (text ": " ++ message))))

-- The error of the only device, or that of them all.
abbrev only_failure : List DeviceId → List RecoveryFailure → UnderlayError → UnderlayError
only_failure (id ∷ []) (failure ∷ []) all_failures = failure.error
only_failure _ _ all_failures = all_failures

unfoldable pub recovery_attempts_in_doubt_error :
    TxJournalRecord → (code prefix : Text) → List RecoveryFailure → UnderlayError
recovery_attempts_in_doubt_error r code prefix failures =
    let all_failures =
      adapter_operation code
        (record {
          template = "{} transaction {} for one or more devices: {}";
          values =
              str prefix
              ∷ str r.tx_id
              ∷ str (join (text "; ") (map recovery_failure_summary failures))
              ∷ [];
        })
        true [] in
    only_failure r.devices failures all_failures

-- `merged_phase.unwrap_or(TxPhase::InDoubt)`.
abbrev pub phase_or_in_doubt : Option TxPhase → TxPhase
phase_or_in_doubt none = TxPhase.in_doubt
phase_or_in_doubt (some phase) = phase

unfoldable pub conclude : TxJournalRecord → (code prefix : Text) → Merged → UnderlayResult TxPhase
conclude r code prefix m =
    if is_nil m.failures
    then ok (phase_or_in_doubt m.merged_phase)
    else err (recovery_attempts_in_doubt_error r code prefix m.failures)

unfoldable pub recover_final_confirming_record :
    TxJournalRecord → List (DeviceId × Side) → UnderlayResult TxPhase
recover_final_confirming_record r [] = ok TxPhase.in_doubt
recover_final_confirming_record r (d ∷ ds) =
    conclude r (text "FINAL_CONFIRM_RECOVERY_IN_DOUBT") (text "could not prove final-confirming")
      (merge_devices (confirm_device r) nothing_yet (d ∷ ds))

abbrev pub is_discard : RecoveryAction → Bool
is_discard discard_prepared_changes = true
is_discard _ = false

unfoldable pub recover_devices :
    TxJournalRecord → RecoveryAction → List (DeviceId × Side) → UnderlayResult TxPhase
recover_devices r action [] =
    ok (if is_discard action then TxPhase.rolled_back else TxPhase.in_doubt)
recover_devices r action (d ∷ ds) =
    conclude r (text "RECOVERY_ATTEMPT_IN_DOUBT") (text "could not recover")
      (merge_devices (λ id. recover_device action) nothing_yet (d ∷ ds))

abbrev pub is_final_confirming : TxPhase → Bool
is_final_confirming TxPhase.final_confirming = true
is_final_confirming _ = false

abbrev pub used_confirmed_commit : Option TransactionStrategy → Bool
used_confirmed_commit none = false
used_confirmed_commit (some strategy) = is_confirmed_commit strategy

unfoldable pub recover_record :
    TxJournalRecord → List (DeviceId × Side) → RecoveryAction → UnderlayResult TxPhase
recover_record r faced action =
    if is_final_confirming r.phase && used_confirmed_commit r.strategy
    then recover_final_confirming_record r faced
    else recover_devices r action faced

-- ===== src/Api/Recovery.antt =====
-- api/recovery_coordinator.rs and api/recovery_ops.rs: how a transaction that was left unfinished is
-- brought to an end. The steps are those of Api/Coordinator/Env, on a run that starts with the record as
-- the journal has it.
pub mod Devices
pub mod Settled
mod Tests
use aria_underlay.Base.{
  Text, text, List, [], ◌∷◌, Option, none, some, Bool, true, false, not, ◌&&◌, if◌then◌else◌,
  text_ord,
}
use aria_underlay.Base.Errors.{UnderlayError, UnderlayResult, ok, err, invalid_device_state, str}
use aria_underlay.Model.{DeviceId}
use aria_underlay.State.Shadow.{DeviceShadowState, from_desired}
use aria_underlay.Planner.DevicePlan.{DeviceDesiredState}
use aria_underlay.Engine.Diff.{ChangeSet}
use aria_underlay.Engine.Diff.Apply.{apply_to_shadow}
use aria_underlay.Tx.Phase.{TxPhase}
use aria_underlay.Tx.Journal.{TxJournalRecord}
use aria_underlay.Tx.Recovery.{
  RecoveryAction, noop, discard_prepared_changes, adapter_recover, manual_intervention,
}
use aria_underlay.Api.Apply.Failure.{journal_error_fields}
use aria_underlay.Api.Coordinator.Env.{
  Env, Run, Exec, pure, raise, lift, try, ◌>>=◌, ◌>>◌, transition, put, note_error, store_shadow,
}
use aria_underlay.Api.Coordinator.Single.{is_phase_in_doubt}
use Devices.{Side, recover_record, desired_state_for_record, change_set_for_record}

module _ (env : Env) where
  -- The shadow that follows a change that was found to be committed.
  abbrev pub recovered_shadow :
      Option DeviceShadowState → DeviceDesiredState → Option ChangeSet → DeviceShadowState
  recovered_shadow existing desired (some changes) = apply_to_shadow changes existing desired 0
  recovered_shadow existing desired none = from_desired desired 0

  abbrev pub desired_or_error :
      TxJournalRecord → DeviceId → Option DeviceDesiredState → UnderlayResult DeviceDesiredState
  desired_or_error r id (some desired) = ok desired
  desired_or_error r id none = err (
      invalid_device_state (record {
        template = "journal record {} has no desired state for recovered device {}";
        values = str r.tx_id ∷ str id ∷ [];
      }))

  -- A record names a device once, so what is read is what was there before the recovery.
  unfoldable pub persist_recovered_shadow : TxJournalRecord → List DeviceId → Exec (Unit {0})
  persist_recovered_shadow r [] = pure tt
  persist_recovered_shadow r (id ∷ ids) = do
    desired ← lift (desired_or_error r id (desired_state_for_record r id))
    existing ← lift (env.shadow_get id)
    store_shadow env (recovered_shadow existing desired (change_set_for_record r id))
    persist_recovered_shadow r ids

  abbrev pub is_terminal : TxPhase → Bool
  is_terminal TxPhase.committed = true
  is_terminal TxPhase.rolled_back = true
  is_terminal _ = false

  abbrev pub is_phase_committed : TxPhase → Bool
  is_phase_committed TxPhase.committed = true
  is_phase_committed _ = false

  -- The transaction could not be brought to an end. The answer is whether it was.
  unfoldable pub leave_undecided : UnderlayError → Exec Bool
  leave_undecided error =
      let (code, message) = journal_error_fields error in
      (do transition env TxPhase.in_doubt; note_error env code message; put env; pure false)

  unfoldable pub finish_recovery : TxPhase → Exec Bool
  finish_recovery phase = do transition env phase; put env; pure (is_terminal phase)

  unfoldable pub settle : TxJournalRecord → UnderlayResult TxPhase → Exec Bool
  settle r (err e) = leave_undecided e
  settle r (ok phase) =
      if is_phase_committed phase
      then try (persist_recovered_shadow r r.devices) leave_undecided (λ _. finish_recovery phase)
      else finish_recovery phase

  -- The body of the loop of `recover_records`, for a record that passes its gate. `r` is the record as
  -- it was found, `faced` its devices with what they will answer.
  unfoldable pub recover_one :
      TxJournalRecord → (faced : List (DeviceId × Side)) → RecoveryAction → Exec Bool
  recover_one r faced noop = pure false
  recover_one r faced manual_intervention =
      if is_phase_in_doubt r.phase
      then pure false
      else (do transition env TxPhase.in_doubt; put env; pure false)
  recover_one r faced discard_prepared_changes = do
    transition env TxPhase.recovering
    put env
    settle r (recover_record r faced discard_prepared_changes)
  recover_one r faced adapter_recover = do
    transition env TxPhase.recovering
    put env
    settle r (recover_record r faced adapter_recover)

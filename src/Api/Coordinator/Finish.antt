-- ===== src/Api/Coordinator/Finish.antt =====
-- How a run on one device ends: the last changes of its record, and the result that is reported.
use aria_underlay.Base.{
  Text, text, List, [], ◌∷◌, ◌++◌, Option, none, some, Bool, true, false, ◌||◌, if◌then◌else◌,
  text_ord,
}
use aria_underlay.Base.BTree.{same}
use aria_underlay.Base.Errors.{UnderlayError}
use aria_underlay.Model.{DeviceId}
use aria_underlay.Planner.DevicePlan.{DeviceDesiredState}
use aria_underlay.Engine.Diff.{ChangeSet}
use aria_underlay.Engine.Diff.Apply.{apply_to_shadow}
use aria_underlay.Tx.Phase.{TxPhase}
use aria_underlay.Tx.Strategy.{TransactionStrategy, is_degraded}
use aria_underlay.Tx.Journal.{TxJournalRecord}
use aria_underlay.Api.Response.{
  ApplyStatus, DeviceApplyResult, DeviceVerifyReport, DeviceVerifyStatus, VerifyScopeSummary,
  default_scope, failed_report, skipped_report, in_doubt_report, from_change_set,
}
use aria_underlay.Api.Apply.{
  failed_apply_phase, apply_status_for_failed_phase, degraded_strategy_warnings, is_in_doubt,
}
use aria_underlay.Api.Apply.Failure.{journal_error_fields}
use aria_underlay.Api.Coordinator.Env.{
  Env, Exec, Proc, give, lift, try, ◌>>◌, transition, put, set_strategy, note_error, store_shadow,
}
use aria_underlay.Api.Coordinator.Endpoint.{find_change_set}

unfoldable pub mark_verify_report_in_doubt :
    DeviceId → Option DeviceVerifyReport → (code message : Text) → DeviceVerifyReport
mark_verify_report_in_doubt id (some report) code message = record report {
  status = DeviceVerifyStatus.in_doubt;
  error_code = some code;
  error_message = some message;
}
mark_verify_report_in_doubt id none code message = in_doubt_report id code message

unfoldable pub verify_scope_from_journal : DeviceId → TxJournalRecord → VerifyScopeSummary
verify_scope_from_journal id r = elim (find_change_set id r.change_sets) [
  | some changes ↦ from_change_set changes
  | none ↦ default_scope
]

unfoldable pub is_verify_error_code : Text → Bool
is_verify_error_code code =
    same code (text "VERIFY_FAILED") || same code (text "UNEXPECTED_VERIFY_STATUS")

abbrev doubt_if : Bool → DeviceVerifyReport → DeviceVerifyReport
doubt_if true report = record report { status = DeviceVerifyStatus.in_doubt }
doubt_if false report = report

unfoldable pub failed_apply_verify_report :
    DeviceId → TxJournalRecord → ApplyStatus → (code message : Text) → DeviceVerifyReport
failed_apply_verify_report id r status code message =
    if is_verify_error_code code
    then doubt_if (is_in_doubt status)
        (failed_report id (verify_scope_from_journal id r) code message [])
    else if is_in_doubt status
    then in_doubt_report id code message
    else skipped_report id

-- A result that names the transaction and an error.
unfoldable pub ended :
    DeviceId
    → ApplyStatus
    → (tx_id : Text) → Option TransactionStrategy
    → (code message : Text) → List Text
    → DeviceVerifyReport
    → DeviceApplyResult
ended id status tx_id strategy code message warnings report = record {
  device_id = id;
  changed = true;
  status = status;
  tx_id = some tx_id;
  strategy = strategy;
  error_code = some code;
  error_message = some message;
  warnings = warnings;
  verify_report = some report;
}

-- `with_error`, and the write of the record.
unfoldable pub note_and_put : Env → (code message : Text) → Exec (Unit {0})
note_and_put env code message = note_error env code message >> put env

unfoldable pub commit_record : Env → TransactionStrategy → Exec (Unit {0})
commit_record env strategy = set_strategy env strategy >> transition env TxPhase.committed

module _ (env : Env) (desired : DeviceDesiredState) (tx_id : Text) where
  module _ (strategy : TransactionStrategy) (report : Option DeviceVerifyReport) where
    -- The device is changed, but what follows has gone wrong. `what` and `why` go into the report.
    unfoldable pub doubtful : (code message what why : Text) → List Text → DeviceApplyResult
    doubtful code message what why warnings =
        ended desired.device_id ApplyStatus.in_doubt tx_id (some strategy) code message warnings
          (mark_verify_report_in_doubt desired.device_id report what why)

    -- The shadow could not be read or written.
    unfoldable pub shadow_failed :
        (what why note : Text) → List Text → UnderlayError → Proc DeviceApplyResult
    shadow_failed what why note warnings error =
        let (code, message) = journal_error_fields error in
        let error_message = why ++ (text ": " ++ message) in
        try (transition env TxPhase.in_doubt)
          (λ failure. give (
            doubtful code
              (error_message
                ++ (text "; phase transition also failed: " ++ (journal_error_fields failure).1))
              what error_message warnings))
          (λ _.
            try (note_and_put env code error_message)
              (λ failure. give (
                doubtful code
                  (error_message
                    ++ (text "; journal write also failed: " ++ (journal_error_fields failure).1))
                  what error_message warnings))
              (λ _. give (
                doubtful code error_message what why
                  (warnings ++ (note ++ (text ": " ++ message)) ∷ []))))

    unfoldable pub change_set_missing : List Text → Proc DeviceApplyResult
    change_set_missing warnings =
        let code = text "MISSING_CHANGE_SET" in
        let error_message =
          text "missing change set after successful apply for device " ++ desired.device_id in
        try (transition env TxPhase.in_doubt)
          (λ failure. give (
            doubtful code
              (error_message
                ++ (text "; phase transition also failed: " ++ (journal_error_fields failure).1))
              code error_message warnings))
          (λ _.
            try (note_and_put env code error_message)
              (λ _. give (
                doubtful code error_message code (text "missing change set after successful apply")
                  warnings))
              (λ _. give (
                doubtful code error_message code (text "missing change set after successful apply")
                  warnings)))

    unfoldable pub success_result : List Text → DeviceApplyResult
    success_result warnings = record {
      device_id = desired.device_id;
      changed = true;
      status =
          if is_degraded strategy then ApplyStatus.success_with_warning else ApplyStatus.success;
      tx_id = some tx_id;
      strategy = some strategy;
      error_code = none;
      error_message = none;
      warnings = warnings;
      verify_report = report;
    }

    -- The shadow state follows the device.
    unfoldable pub update_shadow : ChangeSet → List Text → Proc DeviceApplyResult
    update_shadow changes warnings =
        try (lift (env.shadow_get desired.device_id))
          (shadow_failed (text "SHADOW_READ_FAILED")
            (text "shadow state unavailable after successful apply")
            (text "shadow state read failed") warnings)
          (λ existing.
            try (store_shadow env (apply_to_shadow changes existing desired 0))
              (shadow_failed (text "SHADOW_WRITE_FAILED")
                (text "shadow state stale after successful apply")
                (text "shadow state update failed") warnings)
              (λ _. give (success_result warnings)))

    unfoldable pub finish_successful_apply : List ChangeSet → Proc DeviceApplyResult
    finish_successful_apply change_sets =
        let warnings = degraded_strategy_warnings strategy in
        try (commit_record env strategy)
          (λ error. give (
            doubtful (journal_error_fields error).0 (journal_error_fields error).1
              (text "INVALID_PHASE_TRANSITION")
              (text "failed to transition verified transaction to committed") warnings))
          (λ _.
            try (put env)
              (λ error.
                let error_message =
                  text "adapter committed, but terminal journal write failed: "
                  ++ (journal_error_fields error).1 in
                give (
                  doubtful (journal_error_fields error).0 error_message
                    (text "JOURNAL_WRITE_FAILED") error_message warnings))
              (λ _. elim (find_change_set desired.device_id change_sets) [
                | none ↦ change_set_missing warnings
                | some changes ↦ update_shadow changes warnings
              ]))

  unfoldable pub failed_result :
      ApplyStatus → TxJournalRecord → (code message : Text) → DeviceVerifyReport → DeviceApplyResult
  failed_result status r code message report =
      ended desired.device_id status tx_id r.strategy code message [] report

  unfoldable pub finish_failed_apply : UnderlayError → Proc DeviceApplyResult
  finish_failed_apply error s =
      let (code, message) = journal_error_fields error in
      let phase = failed_apply_phase s.journal_record.phase in
      let status = apply_status_for_failed_phase phase in
      let report =
        failed_apply_verify_report desired.device_id s.journal_record status code message in
      try (transition env phase)
        (λ failure t. (
          t,
          failed_result ApplyStatus.in_doubt t.journal_record code
              (message
                ++ (text "; phase transition also failed: " ++ (journal_error_fields failure).1))
              (mark_verify_report_in_doubt desired.device_id (some report) code message),
        ))
        (λ _.
          try (note_and_put env code message)
            (λ failure t. (
              t,
              failed_result status t.journal_record code
                  (message
                    ++ (text "; journal write also failed: " ++ (journal_error_fields failure).1))
                  report,
            ))
            (λ _ t. (t, failed_result status t.journal_record code message report)))
        s

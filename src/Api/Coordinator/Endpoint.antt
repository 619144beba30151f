-- ===== src/Api/Coordinator/Endpoint.antt =====
-- The steps of the transaction on one device, from `prepare_endpoint` to `final_confirm_endpoint`, with
-- the rollback that follows a step that fails.
use aria_underlay.Base.{
  Text, text, List, [], ◌∷◌, ◌++◌, Option, none, some, Bool, true, false, if◌then◌else◌, or_else,
  text_ord,
}
use aria_underlay.Base.BTree.{same}
use aria_underlay.Base.Errors.{
  UnderlayError, UnderlayResult, ok, err, AdapterErrorDetail, Message, str, invalid_device_state,
  adapter_operation, unsupported_transaction_strategy,
}
use aria_underlay.Base.Print.{render}
use aria_underlay.Model.{DeviceId}
use aria_underlay.Planner.DevicePlan.{DeviceDesiredState}
use aria_underlay.Engine.Diff.{ChangeSet, is_empty}
use aria_underlay.Tx.Phase.{TxPhase}
use aria_underlay.Tx.Strategy.{TransactionStrategy}
use aria_underlay.Api.Response.{DeviceVerifyReport, passed_report, from_change_set}
use aria_underlay.Api.Apply.{AdapterOperationStatus, commit_status_matches_strategy}
use aria_underlay.Api.Apply.Failure.{journal_error_fields}
use aria_underlay.Api.Coordinator.Admit.{choose}
use aria_underlay.Api.Coordinator.Env.{
  Env, Run, AdapterOutcome, prepare, commit, verify, final_confirm, rollback, Exec, pure, raise,
  lift, caught, ◌>>=◌, ◌>>◌, transition, put, set_strategy, note_error, call,
}

-- `{:?}` of a status.
unfoldable pub status_name : AdapterOperationStatus → Text
status_name AdapterOperationStatus.unspecified = text "Unspecified"
status_name AdapterOperationStatus.no_change = text "NoChange"
status_name AdapterOperationStatus.prepared = text "Prepared"
status_name AdapterOperationStatus.committed = text "Committed"
status_name AdapterOperationStatus.rolled_back = text "RolledBack"
status_name AdapterOperationStatus.failed = text "Failed"
status_name AdapterOperationStatus.in_doubt = text "InDoubt"
status_name AdapterOperationStatus.confirmed_commit_pending = text "ConfirmedCommitPending"

-- The tests on the status of an answer.
abbrev pub is_prepared : AdapterOperationStatus → Bool
is_prepared AdapterOperationStatus.prepared = true
is_prepared _ = false

abbrev pub is_committed : AdapterOperationStatus → Bool
is_committed AdapterOperationStatus.committed = true
is_committed _ = false

abbrev pub is_verified : AdapterOperationStatus → Bool
is_verified AdapterOperationStatus.no_change = true
is_verified AdapterOperationStatus.committed = true
is_verified _ = false

abbrev pub is_undone : AdapterOperationStatus → Bool
is_undone AdapterOperationStatus.rolled_back = true
is_undone AdapterOperationStatus.no_change = true
is_undone _ = false

abbrev pub is_confirmed_commit : TransactionStrategy → Bool
is_confirmed_commit TransactionStrategy.confirmed_commit = true
is_confirmed_commit _ = false

-- The error for an answer with an unexpected status.
unfoldable pub unexpected : (code : Text) (template : Message) (retryable : Bool) → UnderlayError
unexpected code message retryable = adapter_operation code message retryable []

-- The message of an error, with that of the rollback that failed after it.
unfoldable pub joined_message : Text → UnderlayError → Message
joined_message message rollback_err = record {
  template = "{}; rollback after endpoint failure also failed: {}: {}";
  values =
      str message
      ∷ str (journal_error_fields rollback_err).0
      ∷ str (journal_error_fields rollback_err).1
      ∷ [];
}

unfoldable pub secondary_detail : UnderlayError → AdapterErrorDetail
secondary_detail rollback_err = record {
  code = (journal_error_fields rollback_err).0;
  message =
      text "rollback after endpoint failure also failed: " ++ (journal_error_fields rollback_err).1;
}

unfoldable pub with_rollback_failure_context : UnderlayError → UnderlayError → UnderlayError
with_rollback_failure_context (adapter_operation code message retryable errors) rollback_err =
    adapter_operation code (joined_message (render message) rollback_err) retryable
      (errors ++ secondary_detail rollback_err ∷ [])
with_rollback_failure_context other rollback_err =
    let (code, message) = journal_error_fields other in
    adapter_operation code (joined_message message rollback_err) false
      (secondary_detail rollback_err ∷ [])

-- `change_sets.iter().find(|change_set| change_set.device_id == device_id)`.
unfoldable pub find_change_set : DeviceId → List ChangeSet → Option ChangeSet
find_change_set id [] = none
find_change_set id (c ∷ cs) = if same c.device_id id then some c else find_change_set id cs

module _ (env : Env) where
  -- The clone that becomes the journal record only once it is stored.
  abbrev pub keep_on_failure :
      Run → Run × UnderlayResult (Unit {0}) → Run × UnderlayResult (Unit {0})
  keep_on_failure s (t, ok u) = (t, ok u)
  keep_on_failure s (t, err e) = (record t { journal_record = s.journal_record }, err e)

  unfoldable pub begin_rollback : Exec (Unit {0})
  begin_rollback s = keep_on_failure s ((transition env TxPhase.rolling_back >> put env) s)

  unfoldable pub leave_in_doubt : (code message : Text) → UnderlayError → Exec (Unit {0})
  leave_in_doubt code message error = do
    transition env TxPhase.in_doubt
    note_error env code message
    put env
    raise error

  -- The message of a status that a rollback should not have.
  abbrev rollback_status : AdapterOutcome → Message
  rollback_status outcome = record {
    template = "adapter returned rollback status {:?}";
    values = str (status_name outcome.status) ∷ [];
  }

  unfoldable pub end_rollback : UnderlayResult AdapterOutcome → Exec (Unit {0})
  end_rollback (ok outcome) =
      if is_undone outcome.status
      then transition env TxPhase.rolled_back >> put env
      else leave_in_doubt (text "UNEXPECTED_ROLLBACK_STATUS") (render (rollback_status outcome))
          (unexpected (text "UNEXPECTED_ROLLBACK_STATUS") (rollback_status outcome) true)
  end_rollback (err e) =
      let (code, message) = journal_error_fields e in leave_in_doubt code message e

  unfoldable pub call_rollback : Exec (Unit {0})
  call_rollback s = (call env (rollback s.journal_record.strategy) >>= end_rollback) s

  unfoldable pub rollback_after_endpoint_failure : Exec (Unit {0})
  rollback_after_endpoint_failure = do begin_rollback; call_rollback

  -- `rollback_after_endpoint_failure_preserving_primary`, which always fails.
  unfoldable pub rollback_preserving_primary : {A : Type 0} → UnderlayError → Exec A
  rollback_preserving_primary primary s =
      caught (λ e t. (t, err (with_rollback_failure_context primary e))) (λ _ t. (t, err primary))
        (rollback_after_endpoint_failure s)

  unfoldable pub check_prepared : UnderlayResult AdapterOutcome → Exec (Option Text)
  check_prepared (err e) = rollback_preserving_primary e
  check_prepared (ok outcome) =
      if is_prepared outcome.status
      then (do transition env TxPhase.prepared; put env; pure outcome.prepared_candidate_checksum)
      else rollback_preserving_primary (
          unexpected (text "UNEXPECTED_PREPARE_STATUS")
            (record {
              template = "adapter returned prepare status {:?}";
              values = str (status_name outcome.status) ∷ [];
            })
            false)

  unfoldable pub prepare_endpoint : DeviceDesiredState → Exec (Option Text)
  prepare_endpoint desired = do answer ← call env (prepare desired); check_prepared answer

  unfoldable pub check_committed :
      TransactionStrategy → UnderlayResult AdapterOutcome → Exec (Unit {0})
  check_committed strategy (err e) = rollback_preserving_primary e
  check_committed strategy (ok outcome) =
      if commit_status_matches_strategy outcome.status strategy
      then pure tt
      else rollback_preserving_primary (
          unexpected (text "UNEXPECTED_COMMIT_STATUS")
            (record {
              template = "adapter returned commit status {:?}";
              values = str (status_name outcome.status) ∷ [];
            })
            false)

  unfoldable pub commit_endpoint : TransactionStrategy → Option Text → Exec (Unit {0})
  commit_endpoint strategy checksum = do
    transition env TxPhase.committing
    put env
    answer ← call env (commit strategy env.confirmed_commit_timeout_secs checksum)
    check_committed strategy answer

  unfoldable pub check_verified :
      DeviceDesiredState → ChangeSet → UnderlayResult AdapterOutcome → Exec DeviceVerifyReport
  check_verified desired changes (err e) = rollback_preserving_primary e
  check_verified desired changes (ok outcome) =
      if is_verified outcome.status
      then pure (passed_report desired.device_id (from_change_set changes) outcome.warnings)
      else rollback_preserving_primary (
          unexpected (text "UNEXPECTED_VERIFY_STATUS")
            (record {
              template = "adapter returned verify status {:?}";
              values = str (status_name outcome.status) ∷ [];
            })
            false)

  unfoldable pub verify_endpoint : DeviceDesiredState → ChangeSet → Exec DeviceVerifyReport
  verify_endpoint desired changes = do
    transition env TxPhase.verifying
    put env
    answer ← call env (verify desired changes)
    check_verified desired changes answer

  unfoldable pub check_confirmed : UnderlayResult AdapterOutcome → Exec (Unit {0})
  check_confirmed (err e) = rollback_preserving_primary e
  check_confirmed (ok outcome) =
      if is_committed outcome.status
      then pure tt
      else rollback_preserving_primary (
          unexpected (text "UNEXPECTED_FINAL_CONFIRM_STATUS")
            (record {
              template = "adapter returned final confirm status {:?}";
              values = str (status_name outcome.status) ∷ [];
            })
            false)

  unfoldable pub final_confirm_endpoint : Exec (Unit {0})
  final_confirm_endpoint = do
    transition env TxPhase.final_confirming
    put env
    answer ← call env final_confirm
    check_confirmed answer

  unfoldable pub finalize_non_confirmed_commit : Exec (Unit {0})
  finalize_non_confirmed_commit = do transition env TxPhase.final_confirming; put env

  unfoldable pub confirm_endpoint : TransactionStrategy → Exec (Unit {0})
  confirm_endpoint strategy =
      if is_confirmed_commit strategy then final_confirm_endpoint else finalize_non_confirmed_commit

  unfoldable pub carry_out :
      DeviceDesiredState → ChangeSet → TransactionStrategy → Exec DeviceVerifyReport
  carry_out desired changes strategy = do
    set_strategy env strategy
    put env
    checksum ← prepare_endpoint desired
    commit_endpoint strategy checksum
    report ← verify_endpoint desired changes
    confirm_endpoint strategy
    pure report

  -- The body of the loop of `apply_changed_endpoint_states`, and the loop.
  unfoldable pub apply_endpoint :
      Bool → DeviceDesiredState → ChangeSet → Exec (TransactionStrategy × DeviceVerifyReport)
  apply_endpoint allow_degraded desired changes = do
    strategy ← lift (choose env allow_degraded desired.device_id)
    report ← carry_out desired changes strategy
    pure (strategy, report)

  -- What the loop has found so far, and one turn of it.
  abbrev pub Progress : Type 0
  Progress = Option TransactionStrategy × Option DeviceVerifyReport

  unfoldable pub visit :
      Bool
      → DeviceDesiredState
      → Progress
      → (Progress → Exec Progress)
      → Option ChangeSet
      → Exec Progress
  visit allow desired found next none = raise (
      invalid_device_state (record {
        template = "missing change set for endpoint {}";
        values = str desired.device_id ∷ [];
      }))
  visit allow desired found next (some changes) =
      if is_empty changes
      then next found
      else apply_endpoint allow desired changes >>= λ done.
          next (or_else found.0 (some done.0), some done.1)

  unfoldable pub apply_endpoints :
      Bool → List ChangeSet → Progress → List DeviceDesiredState → Exec Progress
  apply_endpoints allow change_sets found [] = pure found
  apply_endpoints allow change_sets found (d ∷ ds) =
      visit allow d found (λ found'. apply_endpoints allow change_sets found' ds)
        (find_change_set d.device_id change_sets)

  abbrev pub selected : Progress → Exec (TransactionStrategy × Option DeviceVerifyReport)
  selected (some strategy, report) = pure (strategy, report)
  selected (none, report) = raise unsupported_transaction_strategy

  unfoldable pub apply_changed_endpoint_states :
      Bool
      → List ChangeSet
      → List DeviceDesiredState
      → Exec (TransactionStrategy × Option DeviceVerifyReport)
  apply_changed_endpoint_states allow change_sets desired_states =
      apply_endpoints allow change_sets (none, none) desired_states >>= selected

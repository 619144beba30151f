-- ===== src/Api/Apply.antt =====
-- api/apply.rs: the status of a request from those of its devices, and how an error on a device is
-- reported. `DryRunPlan` is taken as its change sets.
use aria_underlay.Base.{
  is_nil, ℕ, ◌-◌, suc, Text, text, List, [], ◌∷◌, ◌++◌, Option, none, some, map, Bool, true, false,
  not, ◌||◌, ◌&&◌, ◌==◌, length, all, any, if◌then◌else◌, text_ord,
}
use aria_underlay.Base.BTree.{same}
use aria_underlay.Base.Errors.{
  UnderlayError, AdapterErrorDetail, Message, Arg, str, num, device_already_exists,
  device_not_found, invalid_device_state, adapter_transport, adapter_operation, invalid_intent,
  authorization_denied, authentication_failed, product_audit_write_failed, invalid_phase_transition,
  unsupported_transaction_strategy, internal,
}
use aria_underlay.Model.{DeviceId}
use aria_underlay.Engine.Diff.{ChangeSet, is_empty}
use aria_underlay.Tx.Phase.{TxPhase}
use aria_underlay.Tx.Strategy.{TransactionStrategy, is_degraded, strategy_name}
use aria_underlay.Api.Response.{
  ApplyStatus, DeviceApplyResult, DeviceVerifyReport, skipped_report, in_doubt_report,
}
pub mod Aggregate
pub mod Failure

-- adapter_client/mapper.rs: `AdapterOperationStatus`.
pub data AdapterOperationStatus : Type 0 where
  unspecified no_change prepared committed rolled_back failed in_doubt : AdapterOperationStatus
  confirmed_commit_pending : AdapterOperationStatus

abbrev plan_result : ChangeSet → DeviceApplyResult
plan_result c = record {
  device_id = c.device_id;
  changed = not (is_empty c);
  status = if is_empty c then ApplyStatus.no_op_success else ApplyStatus.success;
  tx_id = none;
  strategy = none;
  error_code = none;
  error_message = none;
  warnings = [];
  verify_report = none;
}

unfoldable pub device_results_from_plan : List ChangeSet → List DeviceApplyResult
device_results_from_plan change_sets = map plan_result change_sets

-- The tests on one status.
abbrev pub is_noop : ApplyStatus → Bool
is_noop ApplyStatus.no_op_success = true
is_noop _ = false

abbrev pub is_in_doubt : ApplyStatus → Bool
is_in_doubt ApplyStatus.in_doubt = true
is_in_doubt _ = false

abbrev pub is_successful : ApplyStatus → Bool
is_successful ApplyStatus.success = true
is_successful ApplyStatus.success_with_warning = true
is_successful ApplyStatus.no_op_success = true
is_successful _ = false

abbrev pub is_warned : ApplyStatus → Bool
is_warned ApplyStatus.success_with_warning = true
is_warned _ = false

abbrev pub is_rolled_back : ApplyStatus → Bool
is_rolled_back ApplyStatus.rolled_back = true
is_rolled_back _ = false

-- The last tests, on results that are neither all successful, nor in doubt, nor all rolled back.
unfoldable pub mixed_status : List DeviceApplyResult → ApplyStatus
mixed_status [] = ApplyStatus.failed
mixed_status (r ∷ []) = r.status
mixed_status (r ∷ q ∷ rs) =
    if any (λ x. is_successful x.status) (r ∷ q ∷ rs)
    then ApplyStatus.partial_success
    else ApplyStatus.failed

unfoldable pub aggregate_apply_status : List DeviceApplyResult → ApplyStatus
aggregate_apply_status rs =
    if is_nil rs
    then ApplyStatus.failed
    else if all (λ r. is_noop r.status) rs
    then ApplyStatus.no_op_success
    else if any (λ r. is_in_doubt r.status) rs
    then ApplyStatus.in_doubt
    else if all (λ r. is_successful r.status) rs
    then (if any (λ r. is_warned r.status) rs
        then ApplyStatus.success_with_warning
        else ApplyStatus.success)
    else if all (λ r. is_rolled_back r.status) rs
    then ApplyStatus.rolled_back
    else mixed_status rs

unfoldable pub commit_status_matches_strategy : AdapterOperationStatus → TransactionStrategy → Bool
commit_status_matches_strategy AdapterOperationStatus.confirmed_commit_pending
      TransactionStrategy.confirmed_commit =
    true
commit_status_matches_strategy _ TransactionStrategy.confirmed_commit = false
commit_status_matches_strategy AdapterOperationStatus.committed _ = true
commit_status_matches_strategy _ _ = false

unfoldable pub failed_apply_phase : TxPhase → TxPhase
failed_apply_phase TxPhase.rolled_back = TxPhase.rolled_back
failed_apply_phase TxPhase.in_doubt = TxPhase.in_doubt
failed_apply_phase _ = TxPhase.failed

unfoldable pub apply_status_for_failed_phase : TxPhase → ApplyStatus
apply_status_for_failed_phase TxPhase.rolled_back = ApplyStatus.rolled_back
apply_status_for_failed_phase TxPhase.in_doubt = ApplyStatus.in_doubt
apply_status_for_failed_phase _ = ApplyStatus.failed

unfoldable pub degraded_strategy_warnings : TransactionStrategy → List Text
degraded_strategy_warnings strategy =
    if is_degraded strategy
    then (text "degraded transaction strategy "
        ++ (strategy_name strategy ++ text "; atomicity is weaker than confirmed commit"))
      ∷ []
    else []

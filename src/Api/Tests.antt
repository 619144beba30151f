-- ===== src/Api/Tests.antt =====
-- A request on two devices: one succeeds, on the other the adapter does not know the outcome.
use aria_underlay.Base.{
  [], ◌∷◌, none, some, text, true, false, ◌≡◌, ◌↔◌, all, any, not, ◌&&◌, is_nil,
}
use aria_underlay.Base.Errors.{UnderlayError}
use aria_underlay.Tx.Strategy.{TransactionStrategy}
use aria_underlay.Api.Response.{ApplyStatus, DeviceApplyResult, DeviceVerifyStatus}
use aria_underlay.Api.Response.Report.{
  listed, warned, asks_attention, from_device_results, from_device_results_complete,
}
use aria_underlay.Api.Apply.{is_in_doubt, is_successful, aggregate_apply_status}
use aria_underlay.Api.Apply.Aggregate.{
  aggregate_apply_status-in_doubt, aggregate_apply_status-successful,
}
use aria_underlay.Api.Apply.Failure.{
  device_error_result, IsUnresolved, device_error_result-in_doubt,
}

abbrev unknown_outcome : UnderlayError
unknown_outcome =
    UnderlayError.adapter_operation (text "TX_IN_DOUBT")
      (record { template = "no answer"; values = [] }) false []

abbrev fine : DeviceApplyResult
fine = record {
  device_id = text "leaf-a";
  changed = true;
  status = ApplyStatus.success;
  tx_id = some (text "tx-1");
  strategy = some TransactionStrategy.confirmed_commit;
  error_code = none;
  error_message = none;
  warnings = [];
  verify_report = none;
}

abbrev lost : DeviceApplyResult
lost = device_error_result (text "leaf-b") true (some (text "tx-1")) none unknown_outcome

aggregate_apply_status-in_doubt_example :
    (aggregate_apply_status (fine ∷ lost ∷ []) ≡ ApplyStatus.in_doubt)
    ↔ (any (λ r. is_in_doubt r.status) (fine ∷ lost ∷ []) ≡ true)
aggregate_apply_status-in_doubt_example = aggregate_apply_status-in_doubt (fine ∷ lost ∷ [])

aggregate_apply_status-successful_example :
    is_successful (aggregate_apply_status (fine ∷ lost ∷ []))
    ≡ not (is_nil (fine ∷ lost ∷ [])) && all (λ x. is_successful x.status) (fine ∷ lost ∷ [])
aggregate_apply_status-successful_example = aggregate_apply_status-successful (fine ∷ lost ∷ [])

from_device_results_complete_example :
    ((from_device_results (fine ∷ lost ∷ [])).passed
      ≡ listed DeviceVerifyStatus.passed (fine ∷ lost ∷ []))
    × ((from_device_results (fine ∷ lost ∷ [])).failed
        ≡ listed DeviceVerifyStatus.failed (fine ∷ lost ∷ []))
    × ((from_device_results (fine ∷ lost ∷ [])).skipped
        ≡ listed DeviceVerifyStatus.skipped (fine ∷ lost ∷ []))
    × ((from_device_results (fine ∷ lost ∷ [])).in_doubt
        ≡ listed DeviceVerifyStatus.in_doubt (fine ∷ lost ∷ []))
    × ((from_device_results (fine ∷ lost ∷ [])).warning_count ≡ warned (fine ∷ lost ∷ []))
    × ((from_device_results (fine ∷ lost ∷ [])).attention_required
        ≡ any (λ r. asks_attention r.verify_report) (fine ∷ lost ∷ []))
from_device_results_complete_example = from_device_results_complete (fine ∷ lost ∷ [])

device_error_result-in_doubt_example :
    ((device_error_result (text "leaf-b") true (some (text "tx-1")) none unknown_outcome).status
      ≡ ApplyStatus.in_doubt)
    ↔ IsUnresolved unknown_outcome
device_error_result-in_doubt_example =
    device_error_result-in_doubt (text "leaf-b") true (some (text "tx-1")) none unknown_outcome

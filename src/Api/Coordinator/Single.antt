-- ===== src/Api/Coordinator/Single.antt =====
-- `apply_single_endpoint_state` and what it checks first, and the loop of a request over its devices.
use aria_underlay.Base.{
  Text, text, List, [], ◌∷◌, none, some, Bool, true, false, map, all, if◌then◌else◌, text_ord,
}
use aria_underlay.Base.BTree.{get, collect}
use aria_underlay.Base.Errors.{
  UnderlayResult, ok, err, ◌>>=◌, ◌>>◌, str, invalid_device_state, adapter_operation,
}
use aria_underlay.Model.{DeviceId}
use aria_underlay.Planner.DevicePlan.{DeviceDesiredState}
use aria_underlay.State.Shadow.{DeviceShadowState}
use aria_underlay.Engine.Diff.{ChangeSet, is_empty, compute_diff}
use aria_underlay.Tx.Phase.{TxPhase}
use aria_underlay.Tx.Journal.{
  TxContext, TxJournalRecord, started, with_desired_states, with_change_sets,
}
use aria_underlay.Tx.Recovery.{in_doubt_records_for_devices}
use aria_underlay.Api.Response.{ApplyStatus, DeviceApplyResult, skipped_report}
use aria_underlay.Api.Apply.Failure.{device_error_result}
use aria_underlay.Base.Print.{join}
use aria_underlay.Api.Coordinator.Env.{
  Env, Run, Event, DeviceLifecycleState, Proc, give, try, transition, put,
}
use aria_underlay.Api.Coordinator.Endpoint.{apply_changed_endpoint_states}
use aria_underlay.Api.Coordinator.Finish.{finish_successful_apply, finish_failed_apply}

-- state/drift.rs.
pub data DriftPolicy : Type 0 where
  report_only block_new_transaction auto_reconcile : DriftPolicy

-- api/drift_ops.rs.
unfoldable pub drift_policy_error : DriftPolicy → Text → UnderlayResult (Unit {0})
drift_policy_error DriftPolicy.block_new_transaction devices = err (
    adapter_operation (text "DRIFT_BLOCKED")
      (record {
        template = "device has unresolved out-of-band drift: {}";
        values = str devices ∷ [];
      })
      false [])
drift_policy_error DriftPolicy.auto_reconcile devices = err (
    adapter_operation (text "DRIFT_AUTORECONCILE_UNIMPLEMENTED")
      (record {
        template = "auto reconcile is not implemented for drifted device(s): {}";
        values = str devices ∷ [];
      })
      false [])
drift_policy_error DriftPolicy.report_only devices = ok tt

abbrev pub is_drifted : DeviceLifecycleState → Bool
is_drifted DeviceLifecycleState.drifted = true
is_drifted _ = false

abbrev pub is_phase_in_doubt : TxPhase → Bool
is_phase_in_doubt TxPhase.in_doubt = true
is_phase_in_doubt _ = false

unfoldable pub no_in_doubt : List TxJournalRecord → UnderlayResult (Unit {0})
no_in_doubt [] = ok tt
no_in_doubt (r ∷ rs) = err (
    adapter_operation
      (if all (λ x. is_phase_in_doubt x.phase) (r ∷ rs)
        then text "TX_IN_DOUBT"
        else text "TX_REQUIRES_RECOVERY")
      (record {
        template = "endpoint has unresolved recoverable transaction(s): {}";
        values = str (join (text ",") (map (λ x. x.tx_id) (r ∷ rs))) ∷ [];
      })
      false [])

-- `build_dry_run_plan`, of which the coordinator uses the change sets.
unfoldable pub dry_run_change_sets :
    List DeviceDesiredState → List DeviceShadowState → UnderlayResult (List ChangeSet)
dry_run_change_sets [] current = ok []
dry_run_change_sets (d ∷ ds) current = do
  found ← elim (get d.device_id (collect (map (λ s. (s.device_id, s)) current))) [
    | some state ↦ ok (compute_diff d state)
    | none ↦ err (
        invalid_device_state (record {
          template = "missing current state for device {}";
          values = str d.device_id ∷ [];
        }))
  ]
  rest ← dry_run_change_sets ds current
  ok (found ∷ rest)

module _ (env : Env) where
  unfoldable pub ensure_no_in_doubt_for_devices : List DeviceId → UnderlayResult (Unit {0})
  ensure_no_in_doubt_for_devices ids = do
    records ← env.recoverable
    no_in_doubt (in_doubt_records_for_devices records ids)

  unfoldable pub drifted_devices : List DeviceId → UnderlayResult (List DeviceId)
  drifted_devices [] = ok []
  drifted_devices (id ∷ ids) = do
    managed ← env.inventory id
    rest ← drifted_devices ids
    ok (if is_drifted managed.lifecycle_state then id ∷ rest else rest)

  abbrev refuse_drifted : DriftPolicy → List DeviceId → UnderlayResult (Unit {0})
  refuse_drifted policy [] = ok tt
  refuse_drifted policy (id ∷ ids) = drift_policy_error policy (join (text ",") (id ∷ ids))

  abbrev drift_allows : DriftPolicy → List DeviceId → UnderlayResult (Unit {0})
  drift_allows policy ids = do drifted ← drifted_devices ids; refuse_drifted policy drifted

  unfoldable pub ensure_drift_policy_allows_apply :
      List DeviceId → DriftPolicy → UnderlayResult (Unit {0})
  ensure_drift_policy_allows_apply ids DriftPolicy.report_only = ok tt
  ensure_drift_policy_allows_apply ids DriftPolicy.block_new_transaction =
      drift_allows DriftPolicy.block_new_transaction ids
  ensure_drift_policy_allows_apply ids DriftPolicy.auto_reconcile =
      drift_allows DriftPolicy.auto_reconcile ids

  unfoldable pub fetch_current_states :
      List DeviceDesiredState → UnderlayResult (List DeviceShadowState)
  fetch_current_states [] = ok []
  fetch_current_states (d ∷ ds) = do
    managed ← env.inventory d.device_id
    env.client d.device_id
    current ← env.current_state d
    env.put_observed current
    rest ← fetch_current_states ds
    ok (current ∷ rest)

  unfoldable pub dry_run_desired_states : List DeviceDesiredState → UnderlayResult (List ChangeSet)
  dry_run_desired_states desired_states = do
    current ← fetch_current_states desired_states
    dry_run_change_sets desired_states current

  -- What comes before a transaction: each failure is reported in the same way.
  unfoldable pub prepare_plan : DeviceDesiredState → DriftPolicy → UnderlayResult (List ChangeSet)
  prepare_plan desired policy = do
    env.lock desired.device_id
    ensure_no_in_doubt_for_devices (desired.device_id ∷ [])
    ensure_drift_policy_allows_apply (desired.device_id ∷ []) policy
    dry_run_desired_states (desired ∷ [])

  abbrev pub no_op_result : DeviceId → DeviceApplyResult
  no_op_result id = record {
    device_id = id;
    changed = false;
    status = ApplyStatus.no_op_success;
    tx_id = none;
    strategy = none;
    error_code = none;
    error_message = none;
    warnings = [];
    verify_report = some (skipped_report id);
  }

  -- The run of a transaction at its start.
  abbrev pub begun : DeviceDesiredState → List ChangeSet → TxContext → Run
  begun desired change_sets context = record {
    journal_record = with_change_sets change_sets (env.clock 2) (
        with_desired_states (desired ∷ []) (env.clock 1)
          (started context (desired.device_id ∷ []) (env.clock 0)));
    events = [];
    readings = 3;
  }

  unfoldable pub transact :
      Bool → DeviceDesiredState → List ChangeSet → TxContext → Proc DeviceApplyResult
  transact allow desired change_sets context =
      try (put env) (λ e. give (device_error_result desired.device_id true none none e))
        (λ _.
          try (transition env TxPhase.preparing)
            (λ e. give (device_error_result desired.device_id true (some context.tx_id) none e))
            (λ _.
              try (put env)
                (λ e. give (device_error_result desired.device_id true (some context.tx_id) none e))
                (λ _.
                  try (apply_changed_endpoint_states env allow change_sets (desired ∷ []))
                    (finish_failed_apply env desired context.tx_id)
                    (λ done.
                      finish_successful_apply env desired context.tx_id done.0 done.1
                        change_sets))))

  abbrev pub outcome : Run × DeviceApplyResult → List Event × DeviceApplyResult
  outcome (s, result) = (s.events, result)

  unfoldable pub carry_plan :
      DeviceDesiredState
      → Bool
      → TxContext
      → UnderlayResult (List ChangeSet)
      → List Event × DeviceApplyResult
  carry_plan desired allow context (err e) =
      ([], device_error_result desired.device_id false none none e)
  carry_plan desired allow context (ok change_sets) =
      if all is_empty change_sets
      then ([], no_op_result desired.device_id)
      else outcome (transact allow desired change_sets context (begun desired change_sets context))

  -- What has happened, the newest first, and the result.
  unfoldable pub apply_single_endpoint_state :
      DeviceDesiredState → Bool → DriftPolicy → TxContext → List Event × DeviceApplyResult
  apply_single_endpoint_state desired allow policy context =
      carry_plan desired allow context (prepare_plan desired policy)

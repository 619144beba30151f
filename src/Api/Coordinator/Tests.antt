-- ===== src/Api/Coordinator/Tests.antt =====
-- A device that gets one VLAN, with an adapter that does as it is told, and with a journal that fails once
-- the device has been changed.
use aria_underlay.Api.Coordinator.Request.{apply_desired_states, apply_each}
use aria_underlay.Api.Coordinator.Env.{transition, put, set_strategy, call, store_shadow}
use aria_underlay.Api.Coordinator.Admit.{admit, choose}
use aria_underlay.Api.Coordinator.Endpoint.{
  find_change_set, check_prepared, prepare_endpoint, check_committed, commit_endpoint,
  check_verified, verify_endpoint, finalize_non_confirmed_commit, confirm_endpoint, carry_out,
  apply_endpoint, visit, apply_endpoints, apply_changed_endpoint_states,
}
use aria_underlay.Api.Coordinator.Finish.{
  commit_record, success_result, update_shadow, finish_successful_apply,
}
use aria_underlay.Api.Coordinator.Single.{
  no_in_doubt, dry_run_change_sets, ensure_no_in_doubt_for_devices,
  ensure_drift_policy_allows_apply, fetch_current_states, dry_run_desired_states, prepare_plan,
  transact, carry_plan,
}
use aria_underlay.Engine.Normalize.{normalize_desired_state, normalize_shadow_state}
use aria_underlay.Engine.Diff.{upsert_ops, diff_ops, compute_diff}
use aria_underlay.Engine.Normalize.Rekey.{rekey}
use aria_underlay.Base.BTree.{get, collect}
use aria_underlay.Tx.Recovery.{in_doubt_records_for_devices}
use aria_underlay.Tx.Journal.{
  transition_phase, with_strategy, with_desired_states, with_change_sets,
}
use aria_underlay.Tx.Phase.{TxPhase-discrete, is_listed, is_allowed, validate_transition}
use aria_underlay.Tx.Strategy.{is_supported, is_degraded}
use aria_underlay.Api.Apply.{aggregate_apply_status, commit_status_matches_strategy}
use aria_underlay.Base.{◌≡◌}
use aria_underlay.Tx.Journal.{started}
use aria_underlay.Api.Coordinator.Request.{World}
use aria_underlay.Api.Coordinator.Request.Settled.{AllSettled, apply_desired_states-AllSettled}
use aria_underlay.Api.Apply.{is_successful}
use aria_underlay.Base.{◌+◌, [], ◌∷◌, Option, none, some, true, text, refl}
use aria_underlay.Base.Errors.{UnderlayError, UnderlayResult, ok, internal}
use aria_underlay.Planner.DevicePlan.{DeviceDesiredState}
use aria_underlay.State.Shadow.{DeviceShadowState}
use aria_underlay.Tx.Phase.{TxPhase}
use aria_underlay.Tx.Strategy.{TransactionStrategy}
use aria_underlay.Tx.Journal.{TxContext}
use aria_underlay.Api.Apply.{AdapterOperationStatus}
use aria_underlay.Api.Coordinator.Env.{
  Env, Run, AdapterOutcome, Operation, prepare, commit, verify, final_confirm, rollback,
  DeviceLifecycleState,
}
use aria_underlay.Api.Coordinator.Single.{DriftPolicy, apply_single_endpoint_state}
use aria_underlay.Api.Coordinator.Promise.{Honest}
use aria_underlay.Api.Coordinator.Planned.{planned}
use aria_underlay.Api.Coordinator.Honest.{apply_single_endpoint_state-Honest}
use aria_underlay.Api.Coordinator.Logged.{Logged}
use aria_underlay.Api.Coordinator.Logged.Whole.{apply_single_endpoint_state-Logged}

abbrev wanted : DeviceDesiredState
wanted = record {
  device_id = text "leaf-a";
  vlans = (10, record { vlan_id = 10; name = none; description = none }) ∷ [];
  interfaces = [];
  acls = [];
  acl_bindings = [];
  route_policy_refs = [];
  bgp_processes = [];
  bgp_neighbors = [];
  delete_vlan_ids = [];
  delete_interface_names = [];
  delete_acl_ids = [];
  delete_acl_bindings = [];
  delete_bgp_process_vrfs = [];
  delete_bgp_neighbors = [];
}

abbrev bare : DeviceShadowState
bare = record {
  device_id = text "leaf-a";
  revision = 1;
  vlans = [];
  interfaces = [];
  acls = [];
  acl_bindings = [];
  bgp_processes = [];
  bgp_neighbors = [];
  warnings = [];
}

abbrev answered : AdapterOperationStatus → UnderlayResult AdapterOutcome
answered status = ok (record {
  status = status;
  changed = true;
  warnings = [];
  prepared_candidate_checksum = some (text "c1");
  normalized_state = none;
})

abbrev obey : Run → Operation → UnderlayResult AdapterOutcome
obey s (prepare desired) = answered AdapterOperationStatus.prepared
obey s (commit strategy timeout checksum) = answered AdapterOperationStatus.committed
obey s (verify desired changes) = answered AdapterOperationStatus.no_change
obey s final_confirm = answered AdapterOperationStatus.committed
obey s (rollback strategy) = answered AdapterOperationStatus.rolled_back

abbrev calm : Env
calm = record {
  lock = λ id. ok tt;
  recoverable = ok [];
  inventory = λ id. ok (record {
    lifecycle_state = DeviceLifecycleState.ready;
    recommended_strategy = some TransactionStrategy.candidate_commit;
  });
  client = λ id. ok tt;
  capabilities = λ id. ok TransactionStrategy.candidate_commit;
  current_state = λ desired. ok bare;
  put_observed = λ state. ok tt;
  journal_error = λ s. none;
  adapter = obey;
  shadow_get = λ id. ok none;
  shadow_put_error = λ s state. none;
  clock = λ n. n + 100;
  confirmed_commit_timeout_secs = 120;
}

-- The journal refuses records that say `Verifying`.
abbrev refuses_verifying : TxPhase → Option UnderlayError
refuses_verifying TxPhase.verifying =
    some (internal (record { template = "disk full"; values = [] }))
refuses_verifying phase = none

abbrev flaky : Env
flaky = record calm { journal_error = λ s. refuses_verifying s.journal_record.phase }

abbrev transaction : TxContext
transaction = record { tx_id = text "tx-7"; request_id = text "r"; trace_id = text "t" }

apply_single_endpoint_state-Honest_example :
    Honest calm wanted
      (planned calm wanted)
      (apply_single_endpoint_state calm wanted true DriftPolicy.report_only transaction).1.status
      (apply_single_endpoint_state calm wanted true DriftPolicy.report_only transaction).1.strategy
      (apply_single_endpoint_state calm wanted true DriftPolicy.report_only transaction).0
apply_single_endpoint_state-Honest_example =
    apply_single_endpoint_state-Honest calm (λ s. refl) wanted true DriftPolicy.report_only
      transaction

apply_single_endpoint_state-Logged_example :
    Logged
      (text "tx-7")
      (text "leaf-a" ∷ [])
      (apply_single_endpoint_state flaky wanted true DriftPolicy.report_only transaction).0
apply_single_endpoint_state-Logged_example =
    apply_single_endpoint_state-Logged flaky wanted transaction true DriftPolicy.report_only

-- Two devices, of which each is met in the same surroundings.
abbrev calm_world : World
calm_world = record { env = λ done. calm; tx_id = λ done. text "tx" }

calm_succeeds :
    is_successful
      (apply_desired_states calm_world
        (text "r")
        (text "t")
        true
        DriftPolicy.report_only
        (wanted ∷ [])).1.status
    ≡ true
unfolding apply_desired_states apply_each transition put set_strategy call store_shadow admit choose
    find_change_set check_prepared prepare_endpoint check_committed commit_endpoint check_verified
    verify_endpoint finalize_non_confirmed_commit confirm_endpoint carry_out apply_endpoint visit
    apply_endpoints apply_changed_endpoint_states commit_record success_result update_shadow
    finish_successful_apply no_in_doubt dry_run_change_sets ensure_no_in_doubt_for_devices
    ensure_drift_policy_allows_apply fetch_current_states dry_run_desired_states prepare_plan
    transact carry_plan apply_single_endpoint_state normalize_desired_state normalize_shadow_state
    upsert_ops diff_ops compute_diff rekey get collect in_doubt_records_for_devices transition_phase
    with_strategy with_desired_states with_change_sets TxPhase-discrete is_listed is_allowed
    validate_transition is_supported is_degraded aggregate_apply_status
    commit_status_matches_strategy started
calm_succeeds = refl

apply_desired_states-AllSettled_example :
    AllSettled calm_world []
      (wanted ∷ [])
      (apply_desired_states calm_world
        (text "r")
        (text "t")
        true
        DriftPolicy.report_only
        (wanted ∷ [])).0
apply_desired_states-AllSettled_example =
    apply_desired_states-AllSettled calm_world (λ done s. refl) (text "r") (text "t") true
      DriftPolicy.report_only wanted [] calm_succeeds

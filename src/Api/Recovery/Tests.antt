-- ===== src/Api/Recovery/Tests.antt =====
-- A transaction that was left while it verified, on one device that says that the commit took place.
use aria_underlay.Base.{◌+◌, [], ◌∷◌, none, true, text, refl}
use aria_underlay.Base.Errors.{UnderlayResult, ok}
use aria_underlay.Tx.Phase.{TxPhase, validate_transition, is_allowed, is_listed, TxPhase-discrete}
use aria_underlay.Tx.Strategy.{TransactionStrategy}
use aria_underlay.Tx.Journal.{TxJournalRecord, started, with_phase}
use aria_underlay.Tx.Recovery.{classify_recovery}
use aria_underlay.Api.Apply.{AdapterOperationStatus}
use aria_underlay.Api.Coordinator.Env.{Env, Run, AdapterOutcome, DeviceLifecycleState}
use aria_underlay.Api.Recovery.{recover_one}
use aria_underlay.Api.Recovery.Devices.{Side}
use aria_underlay.Api.Recovery.Settled.{IsSettled, recover_one-IsSettled}

abbrev left_over : TxJournalRecord
left_over = with_phase TxPhase.verifying 11 (
    started (record { tx_id = text "tx-1"; request_id = text "req-1"; trace_id = text "trace-1" })
      (text "leaf-a" ∷ []) 10)

abbrev says : AdapterOperationStatus → UnderlayResult AdapterOutcome
says status = ok (record {
  status = status;
  changed = true;
  warnings = [];
  prepared_candidate_checksum = none;
  normalized_state = none;
})

abbrev side : Side
side = record {
  managed = ok tt;
  client = ok tt;
  final_confirm = says AdapterOperationStatus.committed;
  verify = λ desired changes. says AdapterOperationStatus.no_change;
  connect = λ attempt. ok tt;
  recover = λ attempt. says AdapterOperationStatus.committed;
}

abbrev quiet : Env
quiet = record {
  lock = λ id. ok tt;
  recoverable = ok [];
  inventory = λ id.
      ok (record { lifecycle_state = DeviceLifecycleState.ready; recommended_strategy = none });
  client = λ id. ok tt;
  capabilities = λ id. ok TransactionStrategy.candidate_commit;
  current_state = λ desired. ok (record {
    device_id = text "leaf-a";
    revision = 1;
    vlans = [];
    interfaces = [];
    acls = [];
    acl_bindings = [];
    bgp_processes = [];
    bgp_neighbors = [];
    warnings = [];
  });
  put_observed = λ state. ok tt;
  journal_error = λ s. none;
  adapter = λ s operation. says AdapterOperationStatus.committed;
  shadow_get = λ id. ok none;
  shadow_put_error = λ s state. none;
  clock = λ n. n + 100;
  confirmed_commit_timeout_secs = 120;
}

abbrev found : Run
found = record { readings = 0; events = []; journal_record = left_over }

recover_one-IsSettled_example : IsSettled ((text "leaf-a", side) ∷ []) (
    recover_one quiet left_over
      ((text "leaf-a", side) ∷ [])
      (classify_recovery left_over).action
      found)
unfolding started with_phase validate_transition is_allowed is_listed TxPhase-discrete
recover_one-IsSettled_example =
    recover_one-IsSettled quiet (λ s. refl) left_over ((text "leaf-a", side) ∷ []) found refl refl

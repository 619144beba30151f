-- ===== src/Lib.antt =====
-- Verification library of the underlay controller, which brings the switches of a data centre to the
-- VLANs, interfaces, access lists and BGP sessions that a caller asks for.
--
-- A request carries an intent. The intent is validated (src/intent) and planned into the desired state
-- of each management endpoint (src/planner). The engine (src/engine) compares the normal forms of the
-- desired and the known state of a device and gets a change set; the shadow store (src/state) keeps the
-- state after it. Each change of a device runs as a transaction (src/tx) with a strategy that the device
-- and the caller allow, whose phases are written to a journal from which recovery starts after a crash;
-- the interface (src/api) reports the results.
--
-- Which file models which part:
--   Base/*: the standard library as far as the program uses it. Text is a list of scalar values;
--     `BTreeMap` is the list of its entries in the order of the keys and `BTreeSet` a map to the unit
--     type (Base/BTree/*); Base/Errors has src/error.rs, Base/Loops the loops that may fail, Base/Print
--     `format!`, Base/Trim and Base/Mem their lemmas.
--   Model/*: src/model. The fields of the configuration objects and their keys.
--   Intent: the records of src/intent. Intent/Checks, Objects, Acls, Bindings, Bgp and Validation: the
--     functions of src/intent/validation.rs under their own names, each loop with its body as a function
--     (`validate_interface` for the body of the loop of `validate_interfaces`). Intent/Ipv4: the parser
--     of addresses. Intent/Vlans and the children of Validation: what validation guarantees.
--   Planner/DevicePlan and Planner/DomainPlan: src/planner. `add_objects` is the sequence of the eight
--     loops of `plan_underlay_domain`; its children have the theorems.
--   Engine/Normalize: src/engine/normalize.rs. Its children hold the sort and `dedup` of vectors, the
--     names of interfaces, the loop `rekey` over a map, and the theorems on normal forms.
--   Engine/Diff: `compute_diff` of src/engine/diff.rs, one definition for each of its loops, and
--     Engine/Diff/Apply: `apply_to_shadow`. Actions and Runs say what an operation and a run of
--     operations do to each map, Reconcile what a map holds after all of them, Normal and Coherent what
--     holds of the whole state, and Converge joins the two functions.
--   Engine/ChangePlan: src/engine/change_plan.rs, with Nodes for its texts and Guard for risk and write
--     decision; Engine/Profile: the profiles of src/device/model_profile.rs. Staged and Guarded have the
--     theorems.
--   State/Shadow: `DeviceShadowState` of src/state/shadow.rs.
--   Tx/Phase: `TxPhase` and src/tx/phase_transition.rs; Phase/Graph has the step relation and
--     Phase/Paths whole runs. Tx/Strategy: src/tx/strategy.rs. Tx/Journal: the record of
--     src/tx/journal.rs with its in-memory store; Journal/Life follows a record through any sequence of
--     changes. Tx/Recovery: src/tx/recovery.rs. Tx/Locks: src/tx/endpoint_lock.rs and
--     src/tx/domain_lock.rs, with the transactions at the locks as a step relation in Locks/Progress.
--   Api/Response and Api/Apply: src/api/response.rs and src/api/apply.rs.
--   Api/Coordinator/*: src/api/apply_coordinator.rs, the run of a transaction on one device. Env holds
--     the state of a run, its events (writes of the journal, calls of the adapter, changes of the
--     shadow) and the parameters that answer them; Admit, Endpoint, Finish and Single the functions under
--     their own names, an `await` with its `match` as a step and a `check_` function for the answer.
--     Rules, Steps, Carry, Confirm, Changed, Success and Logged/Steps follow a claim through the steps;
--     Promise says what a reported status stands for, Honest and Logged/Whole what a whole run
--     guarantees.
--     Request and its child Settled: the loop over the devices of a request, and what its status says
--     of all of them.
--   Api/Request, Api/Service: src/api/request.rs and the requests of src/api/service.rs that change
--     devices. Surroundings holds what a request meets, and may be different for each.
--   Api/Idempotency: src/api/idempotency.rs. FileNames has the names of its files, Once what a key
--     guarantees for as long as its record is kept. Base/Utf8: the bytes of a text.
--   Alerts: the life cycle of an alert, of src/telemetry/alerts.rs; Alerts/Manager is
--     src/api/alert_lifecycle.rs, which authorizes and audits each change, Alerts/Delivery
--     `run_once` of src/worker/operation_alerts.rs.
--   Authz: src/authz.rs, who may take which administrative action.
--   Api/Recovery: src/api/recovery_coordinator.rs and src/api/recovery_ops.rs, the recovery of one record.
--     Devices has what each device is asked, `attempts` with at most three calls; Settled how it ends.
--   State/Drift: `detect_drift` of src/state/drift.rs with the summaries; Drift/Clean says when it finds
--     nothing.
-- The paths of the repository start at src; a module Tests holds runs on concrete data.
--
-- Machine integers are natural numbers: the modelled code compares, sorts and prints `u16`, `u32` and
-- `u64` values and does no arithmetic on them that could wrap. No function runs on fuel but the printing
-- of decimals, whose twenty digits are enough for a `u64`. The clock is an argument of the functions
-- that stamp a record. Messages keep their format string and values, so that errors can be told apart.
--
-- Not modelled: the adapter and its protocol (src/adapter_client, adapter-python), files, the loop over
-- the records that are recovered, the timers of workers, the rest of telemetry, onboarding of devices and the
-- HTTP interface: they
-- are input and output around the parts above, or depend on generated code.
pub mod Base
pub mod Model
pub mod Intent
pub mod Planner
pub mod State
pub mod Tx
pub mod Engine
pub mod Api
pub mod Authz
pub mod Alerts

-- ===== src/Api/Coordinator/Request.antt =====
-- `apply_desired_states`: the loop of a request over its devices, and its response. The events that it
-- emits for telemetry are left out.
pub mod Settled
use aria_underlay.Base.{Text, List, [], ◌∷◌, ◌++◌, Option, none, some, Bool, false, map}
use aria_underlay.Planner.DevicePlan.{DeviceDesiredState}
use aria_underlay.Tx.Strategy.{TransactionStrategy}
use aria_underlay.Api.Response.{ApplyIntentResponse, DeviceApplyResult}
use aria_underlay.Api.Response.Report.{from_device_results}
use aria_underlay.Api.Apply.{aggregate_apply_status}
use aria_underlay.Api.Coordinator.Env.{Env, Event}
use aria_underlay.Api.Coordinator.Single.{DriftPolicy, apply_single_endpoint_state}

-- What a request meets: the surroundings of each device, after those before it, and the id of its
-- transaction.
pub record World : Type 0 where
  pub env : List DeviceApplyResult → Env
  pub tx_id : List DeviceApplyResult → Text

-- What has happened on a device, and its result.
abbrev pub Turn : Type 0
Turn = List Event × DeviceApplyResult

abbrev pub results : List Turn → List DeviceApplyResult
results turns = map (λ t. t.1) turns

module _ (world : World) (request_id trace_id : Text) (allow : Bool) (policy : DriftPolicy) where
  abbrev pub turn : List DeviceApplyResult → DeviceDesiredState → Turn
  turn done desired =
      apply_single_endpoint_state (world.env done) desired allow policy
        (record { tx_id = world.tx_id done; request_id = request_id; trace_id = trace_id })

  unfoldable pub apply_each : List DeviceApplyResult → List DeviceDesiredState → List Turn
  apply_each done [] = []
  apply_each done (desired ∷ rest) =
      turn done desired ∷ apply_each (done ++ (turn done desired).1 ∷ []) rest

  -- The value of the only device, where there is one only.
  abbrev pub of_only {ℓ} :
      {A : Type ℓ} → (DeviceApplyResult → Option A) → List DeviceApplyResult → Option A
  of_only field [] = none
  of_only field (r ∷ []) = field r
  of_only field (r ∷ q ∷ rest) = none

  abbrev pub all_warnings : List DeviceApplyResult → List Text
  all_warnings [] = []
  all_warnings (r ∷ rest) = r.warnings ++ all_warnings rest

  abbrev pub response : List DeviceApplyResult → ApplyIntentResponse
  response device_results = record {
    request_id = request_id;
    trace_id = trace_id;
    idempotency_key = none;
    reused = false;
    tx_id = of_only (λ r. r.tx_id) device_results;
    status = aggregate_apply_status device_results;
    strategy = of_only (λ r. r.strategy) device_results;
    device_results = device_results;
    warnings = all_warnings device_results;
    verify_report = some (from_device_results device_results);
  }

  unfoldable pub apply_desired_states : List DeviceDesiredState → List Turn × ApplyIntentResponse
  apply_desired_states desired_states =
      let turns = apply_each [] desired_states in (turns, response (results turns))

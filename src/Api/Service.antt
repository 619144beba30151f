-- ===== src/Api/Service.antt =====
-- api/service.rs: how a request is taken in, planned, answered from what is kept under its key, and
-- otherwise applied.
use aria_underlay.Base.{
  ℕ, Text, text, List, [], ◌∷◌, ◌++◌, Option, none, some, Bool, true, false, not, any, ◌==◌, trim,
  is_empty, is_nil, if◌then◌else◌, text_ord,
}
use aria_underlay.Base.BTree.{get, same}
use aria_underlay.Base.Errors.{
  UnderlayError, UnderlayResult, ok, err, fail_if, invalid, str, ◌>>=◌, ◌>>◌,
}
use aria_underlay.Base.Print.{display_error}
use aria_underlay.Intent.{UnderlayDomainIntent, ManagementEndpointIntent}
use aria_underlay.Intent.Validation.{validate_switch_pair_intent}
use aria_underlay.Planner.DevicePlan.{DeviceDesiredState, plan_switch_pair}
use aria_underlay.Planner.DomainPlan.{plan_underlay_domain}
use aria_underlay.Tx.Locks.{sort, dedup, normalize_scope_keys}
use aria_underlay.Api.Response.{ApplyIntentResponse}
use aria_underlay.Api.Request.{
  ApplyLockScope, domain, region, switch_pair, ApplyOptions, ApplyIntentRequest,
  ApplyDomainIntentRequest,
}
use aria_underlay.Api.Idempotency.{
  ApplyIdempotencyRecord, ApplyIdempotencyRegistry, slot, keep, normalize_idempotency_key,
  idempotency_payload_mismatch_error,
}
use aria_underlay.Api.Coordinator.Request.{World, Turn, apply_desired_states}

unfoldable pub normalized_lock_component : (field value : Text) → UnderlayResult Text
normalized_lock_component field value = do
  fail_if (is_empty (trim value)) (invalid "{} must not be empty" (str field ∷ []))
  fail_if (any (λ c. c == b':') (trim value)) (invalid "{} must not contain ':'" (str field ∷ []))
  ok (trim value)

unfoldable pub switch_pair_keys :
    (domain_id : Text) → List ManagementEndpointIntent → UnderlayResult (List Text)
switch_pair_keys domain_id [] = ok []
switch_pair_keys domain_id (e ∷ es) = do
  endpoint_id ← normalized_lock_component (text "management endpoint_id") e.endpoint_id
  rest ← switch_pair_keys domain_id es
  ok ((text "switch_pair:" ++ (domain_id ++ (text ":" ++ endpoint_id))) ∷ rest)

abbrev region_key : Option Text → UnderlayResult Text
region_key none = err (invalid "ApplyOptions.region_id is required when lock_scope is Region" [])
region_key (some region_id) = do
  component ← normalized_lock_component (text "region_id") region_id
  ok (text "region:" ++ component)

unfoldable pub scope_keys :
    ApplyLockScope → (domain_id : Text) → ApplyDomainIntentRequest → UnderlayResult (List Text)
scope_keys domain domain_id request = ok ((text "domain:" ++ domain_id) ∷ [])
scope_keys region domain_id request = do
  key ← region_key request.options.region_id
  ok ((text "domain:" ++ domain_id) ∷ key ∷ [])
scope_keys switch_pair domain_id request = do
  keys ← switch_pair_keys domain_id request.intent.endpoints
  fail_if (is_nil keys)
      (invalid "switch_pair lock scope requires at least one management endpoint" [])
  ok (dedup (sort (keys ++ (text "domain:" ++ domain_id) ∷ [])))

unfoldable pub apply_scope_lock_keys : ApplyDomainIntentRequest → UnderlayResult (List Text)
apply_scope_lock_keys request = do
  domain_id ← normalized_lock_component (text "domain_id") request.intent.domain_id
  scope_keys request.options.lock_scope domain_id request

-- What a request meets: the locks of its scope, the serialization of its payload, the stores, the clock,
-- and the devices.
pub record Surroundings : Type 0 where
  pub lock : List Text → UnderlayResult (Unit {0})
  pub serialize : UnderlayDomainIntent → ApplyOptions → UnderlayResult Text
  pub read_error : Option UnderlayError
  pub write_error : Option UnderlayError
  pub record_error : Option UnderlayError
  pub now : ℕ
  pub world : World

-- The registry after a request, the answer, and what has happened on the devices.
pub record Served : Type 0 where
  pub registry : ApplyIdempotencyRegistry
  pub answer : UnderlayResult ApplyIntentResponse
  pub turns : List Turn

abbrev pub trace_of : ApplyDomainIntentRequest → Text
trace_of request = elim request.trace_id [ some trace_id ↦ trace_id | none ↦ request.request_id ]

unfoldable pub annotate_apply_idempotency_response :
    ApplyIntentResponse
    → (request_id trace_id idempotency_key : Text) (reused : Bool) → ApplyIntentResponse
annotate_apply_idempotency_response response request_id trace_id idempotency_key reused =
    record response {
      request_id = request_id;
      trace_id = trace_id;
      idempotency_key = some idempotency_key;
      reused = reused;
    }

abbrev pub warn : Text → ApplyIntentResponse → ApplyIntentResponse
warn warning response = record response { warnings = response.warnings ++ warning ∷ [] }

module _ (surroundings : Surroundings) where
  -- The record of the request is written; where that fails, the response says so.
  unfoldable pub persist_domain_apply_record : ApplyIntentResponse → ApplyIntentResponse
  persist_domain_apply_record response = elim surroundings.record_error [
    | none ↦ response
    | some e ↦ warn (text "domain apply record persistence failed: " ++ display_error e) response
  ]

  -- The key of a request with the fingerprint of its payload.
  unfoldable pub keyed_payload : ApplyDomainIntentRequest → UnderlayResult (Option (Text × Text))
  keyed_payload request = elim request.idempotency_key [
    | none ↦ ok none
    | some key ↦ normalize_idempotency_key key >>= λ k.
        surroundings.serialize request.intent request.options >>= λ fingerprint.
        ok (some (k, fingerprint))
  ]

  abbrev pub Admitted : Type 0
  Admitted = Option (Text × Text) × List DeviceDesiredState

  unfoldable pub admit_request : ApplyDomainIntentRequest → UnderlayResult Admitted
  admit_request request = do
    lock_keys ← apply_scope_lock_keys request
    keys ← normalize_scope_keys lock_keys
    surroundings.lock keys
    payload ← keyed_payload request
    desired_states ← plan_underlay_domain request.intent
    ok (payload, desired_states)

  abbrev pub applied :
      ApplyDomainIntentRequest → List DeviceDesiredState → List Turn × ApplyIntentResponse
  applied request desired_states =
      apply_desired_states surroundings.world request.request_id (trace_of request)
        request.options.allow_degraded_atomicity request.options.drift_policy desired_states

  abbrev pub stored_record : (fingerprint : Text) → ApplyIntentResponse → ApplyIdempotencyRecord
  stored_record fingerprint response = record {
    stored_at_unix_secs = surroundings.now;
    fingerprint = fingerprint;
    response = response;
  }

  -- A request that is the first under its key.
  unfoldable pub apply_first :
      ApplyDomainIntentRequest
      → (key fingerprint : Text) → List DeviceDesiredState
      → ApplyIdempotencyRegistry
      → Served
  apply_first request key fingerprint desired_states registry =
      let run = applied request desired_states in
      let response = persist_domain_apply_record (
        annotate_apply_idempotency_response run.1 request.request_id (trace_of request) key
          false) in
      elim surroundings.write_error [
        | none ↦ record {
          registry = keep key (stored_record fingerprint response) registry;
          answer = ok response;
          turns = run.0;
        }
        | some e ↦ record {
          registry = registry;
          answer =
              ok
                (warn (text "idempotency record persistence failed: " ++ display_error e) response);
          turns = run.0;
        }
      ]

  -- A request that is not.
  unfoldable pub reuse :
      ApplyDomainIntentRequest
      → (key fingerprint : Text) → ApplyIdempotencyRecord
      → UnderlayResult ApplyIntentResponse
  reuse request key fingerprint found =
      if not (same found.fingerprint fingerprint)
      then err (idempotency_payload_mismatch_error key)
      else ok (
          annotate_apply_idempotency_response found.response request.request_id (trace_of request)
            key true)

  -- What the store answers.
  unfoldable pub read_store :
      Text → ApplyIdempotencyRegistry → UnderlayResult (Option ApplyIdempotencyRecord)
  read_store key registry = elim surroundings.read_error [
    | some e ↦ err e
    | none ↦ ok (get key registry.store)
  ]

  unfoldable pub serve_keyed :
      ApplyDomainIntentRequest
      → (key fingerprint : Text) → List DeviceDesiredState
      → ApplyIdempotencyRegistry × UnderlayResult (Option ApplyIdempotencyRecord)
      → Served
  serve_keyed request key fingerprint desired_states (registry, err e) = record {
    registry = registry;
    answer = err e;
    turns = [];
  }
  serve_keyed request key fingerprint desired_states (registry, ok (some found)) = record {
    registry = registry;
    answer = reuse request key fingerprint found;
    turns = [];
  }
  serve_keyed request key fingerprint desired_states (registry, ok none) =
      apply_first request key fingerprint desired_states registry

  unfoldable pub serve :
      ApplyDomainIntentRequest → ApplyIdempotencyRegistry → UnderlayResult Admitted → Served
  serve request registry (err e) = record { registry = registry; answer = err e; turns = [] }
  serve request registry (ok (some (key, fingerprint), desired_states)) =
      serve_keyed request key fingerprint desired_states
        (slot key (read_store key registry) registry)
  serve request registry (ok (none, desired_states)) =
      let run = applied request desired_states in
      record { registry = registry; answer = ok (persist_domain_apply_record run.1); turns = run.0 }

  unfoldable pub apply_domain_intent : ApplyDomainIntentRequest → ApplyIdempotencyRegistry → Served
  apply_domain_intent request registry = serve request registry (admit_request request)

  -- `apply_intent`, for a pair of switches.
  unfoldable pub apply_intent :
      ApplyIntentRequest → UnderlayResult (List Turn × ApplyIntentResponse)
  apply_intent request = do
    validate_switch_pair_intent request.intent
    ok (
        apply_desired_states surroundings.world request.request_id
          (elim request.trace_id [ some trace_id ↦ trace_id | none ↦ request.request_id ])
          request.options.allow_degraded_atomicity request.options.drift_policy
          (plan_switch_pair request.intent))

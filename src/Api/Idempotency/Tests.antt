-- ===== src/Api/Idempotency/Tests.antt =====
-- A request for a stack that comes twice, with a restart in between.
use aria_underlay.Base.{
  text, List, [], ◌∷◌, none, some, true, false, ◌≡◌, ◌≢◌, refl, ◌≤◌, length, All, arith, trim,
  trim_start, trim_end, is_whitespace, text_ord,
}
use aria_underlay.Base.BTree.{get, insert, same_iff}
use aria_underlay.Base.Errors.{UnderlayError, ok, err, internal}
use aria_underlay.Base.Loops.{try_fold}
use aria_underlay.Base.Utf8.{IsText, as_bytes, encode_char}
use aria_underlay.Planner.DevicePlan.{DeviceDesiredState}
use aria_underlay.Planner.DomainPlan.{plan_underlay_domain}
use aria_underlay.Planner.DomainPlan.Total.{plan_underlay_domain_total}
use aria_underlay.Planner.DomainPlan.Tests.{stack, stack_valid}
use aria_underlay.Tx.Locks.{normalize_scope_key, normalize_scope_keys}
use aria_underlay.Tx.Strategy.{TransactionStrategy}
use aria_underlay.Api.Response.{ApplyIntentResponse}
use aria_underlay.Api.Request.{ApplyDomainIntentRequest, ApplyLockScope}
use aria_underlay.Api.Coordinator.Env.{Env}
use aria_underlay.Api.Coordinator.Single.{DriftPolicy}
use aria_underlay.Api.Idempotency.{
  StoreKind, restarted, slot, normalize_idempotency_key, hex_bytes, hex_encode, path_for,
}
use aria_underlay.Api.Idempotency.FileNames.{
  hex_decode, hex_decode-hex_encode, IsPlain, path_for-bounded,
}
use aria_underlay.Api.Idempotency.Once.{
  restart, collected, after, started_with, apply_domain_intent-once,
}
use aria_underlay.Api.Service.{
  Surroundings, apply_scope_lock_keys, scope_keys, normalized_lock_component, keyed_payload,
  admit_request, read_store, applied, persist_domain_apply_record,
  annotate_apply_idempotency_response, apply_first, serve_keyed, serve, apply_domain_intent,
}

abbrev out_of_reach : UnderlayError
out_of_reach = internal (record { template = "unreachable"; values = [] })

-- No device can be reached.
abbrev cut_off : Env
cut_off = record {
  lock = λ id. ok tt;
  recoverable = ok [];
  inventory = λ id. err out_of_reach;
  client = λ id. err out_of_reach;
  capabilities = λ id. ok TransactionStrategy.candidate_commit;
  current_state = λ desired. err out_of_reach;
  put_observed = λ state. ok tt;
  journal_error = λ s. none;
  adapter = λ s operation. err out_of_reach;
  shadow_get = λ id. ok none;
  shadow_put_error = λ s state. none;
  clock = λ n. n;
  confirmed_commit_timeout_secs = 120;
}

abbrev quiet_day : Surroundings
quiet_day = record {
  lock = λ keys. ok tt;
  serialize = λ intent options. ok (text "payload");
  read_error = none;
  write_error = none;
  record_error = none;
  now = 100;
  world = record { env = λ done. cut_off; tx_id = λ done. text "tx" };
}

abbrev asked : ApplyDomainIntentRequest
asked = record {
  request_id = text "r1";
  trace_id = none;
  idempotency_key = some (text " k1 ");
  intent = stack;
  options = record {
    dry_run = false;
    allow_degraded_atomicity = false;
    drift_policy = DriftPolicy.report_only;
    lock_scope = ApplyLockScope.domain;
    region_id = none;
  };
}

asked_payload : keyed_payload quiet_day asked ≡ ok (some (text "k1", text "payload"))
unfolding keyed_payload normalize_idempotency_key trim trim_start trim_end is_whitespace as_bytes
    encode_char
asked_payload = refl

abbrev stack_plan : (plan : List DeviceDesiredState) × (plan_underlay_domain stack ≡ ok plan)
stack_plan = plan_underlay_domain_total stack stack_valid

asked_admitted : admit_request quiet_day asked ≡ ok (some (text "k1", text "payload"), stack_plan.0)
unfolding admit_request apply_scope_lock_keys scope_keys normalized_lock_component
    normalize_scope_keys normalize_scope_key trim trim_start trim_end is_whitespace try_fold insert
asked_admitted = rw (asked_payload, stack_plan.1) refl

abbrev first_response : ApplyIntentResponse
first_response = persist_domain_apply_record quiet_day (
    annotate_apply_idempotency_response (applied quiet_day asked stack_plan.0).1 (text "r1")
      (text "r1") (text "k1") false)

first_answered :
    (apply_domain_intent quiet_day asked (after StoreKind.json_file (started_with []) [])).answer
    ≡ ok first_response
unfolding apply_domain_intent serve serve_keyed slot read_store apply_first after get restarted
first_answered = rw asked_admitted refl

apart : text "k1" ≢ text "k2"
apart e = let h = (same_iff (text "k1") (text "k2")).1 e in cc

apply_domain_intent-once_example :
    ((apply_domain_intent quiet_day asked (
        after StoreKind.json_file
          (apply_domain_intent quiet_day asked
            (after StoreKind.json_file (started_with []) [])).registry
          (restart ∷ collected (text "k2") ∷ []))).turns
      ≡ [])
    × ((repeated : ApplyIntentResponse)
        → (apply_domain_intent quiet_day asked (
            after StoreKind.json_file
              (apply_domain_intent quiet_day asked
                (after StoreKind.json_file (started_with []) [])).registry
              (restart ∷ collected (text "k2") ∷ []))).answer
          ≡ ok repeated
        → (text "payload" ≡ text "payload")
          × (repeated.device_results ≡ first_response.device_results)
          × (repeated.status ≡ first_response.status)
          × (repeated.reused ≡ true))
apply_domain_intent-once_example =
    apply_domain_intent-once StoreKind.json_file [] [] (restart ∷ collected (text "k2") ∷ [])
      quiet_day quiet_day asked asked (text "k1") (text "payload") (text "payload") first_response
      tt (refl, (apart, tt)) asked_payload asked_payload refl first_answered

-- The name of a file, with a character of two bytes.
file_name : path_for (text "kä") ≡ text "6bc3a4.json"
unfolding path_for hex_encode hex_bytes as_bytes encode_char
file_name = refl

plain_text : IsText (text "k1")
plain_text = (omega arith, (omega arith, tt))

normalized_key : normalize_idempotency_key (text " k1 ") ≡ ok (text "k1")
unfolding normalize_idempotency_key trim trim_start trim_end is_whitespace as_bytes encode_char
normalized_key = refl

hex_decode-hex_encode_example : hex_decode (hex_encode (text "k1")) ≡ text "k1"
hex_decode-hex_encode_example = hex_decode-hex_encode (text "k1") plain_text

path_for-bounded_example :
    (7 ≤ length (path_for (text "k1")))
    × (length (path_for (text "k1")) ≤ 255)
    × All IsPlain (path_for (text "k1"))
path_for-bounded_example = path_for-bounded (text " k1 ") (text "k1") plain_text normalized_key

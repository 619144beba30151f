-- ===== src/Alerts/Delivery.antt =====
-- `OperationAlertDeliveryWorker::run_once` of worker/operation_alerts.rs, with the alerts, the sink and the
-- checkpoint of telemetry/alerts.rs in memory. What the summaries are, and whether the sink and the
-- checkpoint answer with an error, are parameters.
use aria_underlay.Base.{
  ℕ, ◌+◌, Text, text, List, [], ◌∷◌, ◌++◌, Option, none, some, Bool, ◌||◌, length, if◌then◌else◌,
  text_ord,
}
use aria_underlay.Base.BTree.{BTreeMap, BTreeSet, contains, extend, as_entries, same}
use aria_underlay.Base.Errors.{UnderlayError, UnderlayResult, ok, err}
use aria_underlay.Base.Print.{join}
use aria_underlay.Model.{DeviceId}

pub record OperationSummary : Type 0 where
  pub request_id : Text
  pub trace_id : Text
  pub action : Text
  pub result : Text
  pub tx_id : Option Text
  pub device_id : Option DeviceId
  pub attention_required : Bool
  pub fields : BTreeMap Text Text

pub data OperationAlertSeverity : Type 0 where
  warning critical : OperationAlertSeverity

pub record OperationAlert : Type 0 where
  pub dedupe_key : Text
  pub severity : OperationAlertSeverity
  pub request_id : Text
  pub trace_id : Text
  pub action : Text
  pub result : Text
  pub tx_id : Option Text
  pub device_id : Option DeviceId
  pub fields : BTreeMap Text Text

-- `unwrap_or("-")`.
abbrev pub or_dash : Option Text → Text
or_dash none = text "-"
or_dash (some t) = t

unfoldable pub dedupe_key : OperationSummary → Text
dedupe_key s =
    join (text "|")
      (s.action ∷ s.result ∷ s.request_id ∷ s.trace_id ∷ or_dash s.tx_id ∷ or_dash s.device_id ∷ [])

unfoldable pub severity_for_summary : OperationSummary → OperationAlertSeverity
severity_for_summary s =
    if (same s.action (text "transaction.in_doubt") || same s.action (text "audit.write_failed"))
      || (same s.result (text "in_doubt") || same s.result (text "failed"))
    then critical
    else warning

abbrev pub from_summary : OperationSummary → OperationAlert
from_summary s = record {
  dedupe_key = dedupe_key s;
  severity = severity_for_summary s;
  request_id = s.request_id;
  trace_id = s.trace_id;
  action = s.action;
  result = s.result;
  tx_id = s.tx_id;
  device_id = s.device_id;
  fields = s.fields;
}

unfoldable pub list_attention_required : List OperationSummary → List OperationSummary
list_attention_required [] = []
list_attention_required (s ∷ r) =
    let rest = list_attention_required r in if s.attention_required then s ∷ rest else rest

-- The sink and the checkpoint.
pub record Outbox : Type 0 where
  pub delivered_keys : BTreeSet Text
  pub delivered : List OperationAlert

pub record OperationAlertDeliveryReport : Type 0 where
  pub scanned_attention_required : ℕ
  pub already_delivered : ℕ
  pub newly_delivered : ℕ

-- The loop of `run_once`: the alerts that are new, and how many are not.
unfoldable pub new_alerts : BTreeSet Text → List OperationSummary → List OperationAlert
new_alerts keys [] = []
new_alerts keys (s ∷ r) =
    let rest = new_alerts keys r in
    if contains (dedupe_key s) keys then rest else from_summary s ∷ rest

unfoldable pub count_delivered : BTreeSet Text → List OperationSummary → ℕ
count_delivered keys [] = 0
count_delivered keys (s ∷ r) =
    let rest = count_delivered keys r in if contains (dedupe_key s) keys then rest + 1 else rest

abbrev pub keys_of : List OperationAlert → List Text
keys_of [] = []
keys_of (a ∷ r) = a.dedupe_key ∷ keys_of r

abbrev pub report_of : BTreeSet Text → List OperationSummary → OperationAlertDeliveryReport
report_of keys summaries = record {
  scanned_attention_required = length summaries;
  already_delivered = count_delivered keys summaries;
  newly_delivered = length (new_alerts keys summaries);
}

module _ (deliver_error : List OperationAlert → Option UnderlayError)
    (record_error : List Text → Option UnderlayError) where
  -- `record_delivered`, after the alerts have been delivered.
  abbrev pub record_delivered :
      Option UnderlayError
      → List OperationAlert
      → OperationAlertDeliveryReport
      → Outbox
      → Outbox × UnderlayResult OperationAlertDeliveryReport
  record_delivered (some e) alerts report o = (o, err e)
  record_delivered none alerts report o = (
    record o { delivered_keys = extend (as_entries (keys_of alerts)) o.delivered_keys },
    ok report,
  )

  abbrev pub deliver :
      Option UnderlayError
      → List OperationAlert
      → OperationAlertDeliveryReport
      → Outbox
      → Outbox × UnderlayResult OperationAlertDeliveryReport
  deliver (some e) alerts report o = (o, err e)
  deliver none alerts report o =
      record_delivered (record_error (keys_of alerts)) alerts report
        (record o { delivered = o.delivered ++ alerts })

  abbrev pub send :
      List OperationAlert
      → OperationAlertDeliveryReport
      → Outbox
      → Outbox × UnderlayResult OperationAlertDeliveryReport
  send [] report o = (o, ok report)
  send (a ∷ r) report o = deliver (deliver_error (a ∷ r)) (a ∷ r) report o

  abbrev pub scan :
      List OperationSummary → Outbox → Outbox × UnderlayResult OperationAlertDeliveryReport
  scan summaries o =
      send (new_alerts o.delivered_keys summaries) (report_of o.delivered_keys summaries) o

  -- `keys_error` is the answer of the checkpoint when it is asked for the keys.
  unfoldable pub run_once :
      UnderlayResult (List OperationSummary)
      → (keys_error : Option UnderlayError) → Outbox
      → Outbox × UnderlayResult OperationAlertDeliveryReport
  run_once (err e) keys_error o = (o, err e)
  run_once (ok summaries) (some e) o = (o, err e)
  run_once (ok summaries) none o = scan (list_attention_required summaries) o

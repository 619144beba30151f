-- ===== src/Alerts.antt =====
-- The life cycle of an alert: the records of telemetry/alerts.rs with their store in memory, the audit record
-- of telemetry/audit.rs, and `AlertLifecycleManager` of api/alert_lifecycle.rs, where the clock, the policy
-- and the errors of the audit store are parameters.
pub mod Manager
pub mod Life
pub mod Delivery
pub mod Delivered
mod Tests
use aria_underlay.Base.{
  ℕ, Text, text, String, List, [], ◌∷◌, ◌++◌, Option, none, some, Bool, true, false, not, trim,
  is_empty, text_ord,
}
use aria_underlay.Base.BTree.{BTreeMap, get, insert}
use aria_underlay.Base.Errors.{
  UnderlayError, UnderlayResult, ok, err, invalid, fail_if, str, ◌>>=◌, ◌>>◌,
}
use aria_underlay.Authz.{AdminAction, AuthorizationRequest, AuthorizationDecision}

pub data OperationAlertLifecycleStatus : Type 0 where
  opened acknowledged resolved suppressed expired : OperationAlertLifecycleStatus

abbrev pub status_label : OperationAlertLifecycleStatus → Text
status_label opened = text "Open"
status_label acknowledged = text "Acknowledged"
status_label resolved = text "Resolved"
status_label suppressed = text "Suppressed"
status_label expired = text "Expired"

pub record OperationAlertLifecycleEvent : Type 0 where
  pub status : OperationAlertLifecycleStatus
  pub operator_id : Text
  pub reason : Option Text
  pub request_id : Text
  pub trace_id : Text
  pub updated_at_unix_secs : ℕ

pub record OperationAlertLifecycleRecord : Type 0 where
  pub dedupe_key : Text
  pub status : OperationAlertLifecycleStatus
  pub operator_id : Option Text
  pub reason : Option Text
  pub request_id : Text
  pub trace_id : Text
  pub updated_at_unix_secs : ℕ
  pub history : List OperationAlertLifecycleEvent

pub record OperationAlertLifecycleTransition : Type 0 where
  pub dedupe_key : Text
  pub status : OperationAlertLifecycleStatus
  pub operator_id : Text
  pub reason : Option Text
  pub request_id : Text
  pub trace_id : Text

unfoldable pub is_allowed_lifecycle_transition :
    OperationAlertLifecycleStatus → OperationAlertLifecycleStatus → Bool
is_allowed_lifecycle_transition opened opened = false
is_allowed_lifecycle_transition opened _ = true
is_allowed_lifecycle_transition acknowledged resolved = true
is_allowed_lifecycle_transition acknowledged suppressed = true
is_allowed_lifecycle_transition acknowledged expired = true
is_allowed_lifecycle_transition _ _ = false

abbrev pub from_status : Option OperationAlertLifecycleRecord → OperationAlertLifecycleStatus
from_status none = opened
from_status (some r) = r.status

abbrev pub event_of : OperationAlertLifecycleTransition → (now : ℕ) → OperationAlertLifecycleEvent
event_of q now = record {
  status = q.status;
  operator_id = q.operator_id;
  reason = q.reason;
  request_id = q.request_id;
  trace_id = q.trace_id;
  updated_at_unix_secs = now;
}

-- The record that is changed: a new one when there is none.
abbrev pub current_or_new :
    Option OperationAlertLifecycleRecord
    → OperationAlertLifecycleTransition
    → (now : ℕ) → OperationAlertLifecycleRecord
current_or_new (some r) q now = r
current_or_new none q now = record {
  dedupe_key = q.dedupe_key;
  status = opened;
  operator_id = none;
  reason = none;
  request_id = q.request_id;
  trace_id = q.trace_id;
  updated_at_unix_secs = now;
  history = [];
}

abbrev pub after :
    OperationAlertLifecycleRecord
    → OperationAlertLifecycleTransition
    → (now : ℕ) → OperationAlertLifecycleRecord
after r q now = record r {
  status = q.status;
  operator_id = some q.operator_id;
  reason = q.reason;
  request_id = q.request_id;
  trace_id = q.trace_id;
  updated_at_unix_secs = now;
  history = r.history ++ event_of q now ∷ [];
}

unfoldable pub transition_lifecycle_record :
    Option OperationAlertLifecycleRecord
    → OperationAlertLifecycleTransition
    → (now : ℕ) → UnderlayResult OperationAlertLifecycleRecord
transition_lifecycle_record current q now = do
  fail_if (not (is_allowed_lifecycle_transition (from_status current) q.status)) (
      invalid "cannot transition alert {} from {:?} to {:?}" (
        str q.dedupe_key
        ∷ str (status_label (from_status current))
        ∷ str (status_label q.status)
        ∷ []))
  ok (after (current_or_new current q now) q now)

abbrev pub Lifecycles : Type 0
Lifecycles = BTreeMap Text OperationAlertLifecycleRecord

abbrev pub keep_record :
    Lifecycles
    → UnderlayResult OperationAlertLifecycleRecord
    → Lifecycles × UnderlayResult OperationAlertLifecycleRecord
keep_record m (err e) = (m, err e)
keep_record m (ok r) = (insert r.dedupe_key r m, ok r)

-- `InMemoryOperationAlertLifecycleStore::transition`.
unfoldable pub transition_alert :
    OperationAlertLifecycleTransition
    → (now : ℕ) → Lifecycles
    → Lifecycles × UnderlayResult OperationAlertLifecycleRecord
transition_alert q now m = keep_record m (transition_lifecycle_record (get q.dedupe_key m) q now)

pub record AlertLifecycleTransitionRequest : Type 0 where
  pub request_id : Text
  pub trace_id : Option Text
  pub dedupe_key : Text
  pub operator : Text
  pub reason : Text
  pub target_status : OperationAlertLifecycleStatus

unfoldable pub ensure_non_empty : Text → Text → UnderlayResult (Unit {0})
ensure_non_empty field value =
    fail_if (is_empty (trim value))
      (invalid "alert lifecycle {} must not be empty" (str field ∷ []))

unfoldable pub validate_transition_request :
    AlertLifecycleTransitionRequest → UnderlayResult (Unit {0})
validate_transition_request q = do
  ensure_non_empty (text "request_id") q.request_id
  ensure_non_empty (text "dedupe_key") q.dedupe_key
  ensure_non_empty (text "operator") q.operator
  ensure_non_empty (text "reason") q.reason

unfoldable pub action_for_status : OperationAlertLifecycleStatus → UnderlayResult AdminAction
action_for_status opened = err (invalid "alert lifecycle cannot manually transition to Open" [])
action_for_status acknowledged = ok AdminAction.acknowledge_alert
action_for_status resolved = ok AdminAction.resolve_alert
action_for_status suppressed = ok AdminAction.suppress_alert
action_for_status expired = ok AdminAction.expire_alert

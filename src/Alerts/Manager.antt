-- ===== src/Alerts/Manager.antt =====
-- `AlertLifecycleManager::transition`: a request is checked, authorized, audited and carried out.
use aria_underlay.Base.{
  ℕ, Text, text, List, [], ◌∷◌, ◌++◌, Option, none, some, Bool, false, text_ord,
}
use aria_underlay.Base.BTree.{BTreeMap, collect}
use aria_underlay.Base.Errors.{UnderlayError, UnderlayResult, ok, err, ◌>>=◌, ◌>>◌}
use aria_underlay.Model.{DeviceId}
use aria_underlay.Authz.{AuthorizationRequest, AuthorizationDecision, AdminAction}
use aria_underlay.Alerts.{
  OperationAlertLifecycleStatus, OperationAlertLifecycleRecord, OperationAlertLifecycleTransition,
  AlertLifecycleTransitionRequest, Lifecycles, status_label, transition_alert,
  validate_transition_request, action_for_status,
}

pub record ProductAuditRecord : Type 0 where
  pub request_id : Text
  pub trace_id : Text
  pub action : Text
  pub result : Text
  pub tx_id : Option Text
  pub device_id : Option DeviceId
  pub operator_id : Option Text
  pub reason : Option Text
  pub attention_required : Bool
  pub error_code : Option Text
  pub error_message : Option Text
  pub fields : BTreeMap Text Text
  pub appended_at_unix_secs : ℕ

abbrev pub alert_lifecycle_action : OperationAlertLifecycleStatus → Text
alert_lifecycle_action OperationAlertLifecycleStatus.opened = text "alert.opened"
alert_lifecycle_action OperationAlertLifecycleStatus.acknowledged = text "alert.acknowledged"
alert_lifecycle_action OperationAlertLifecycleStatus.resolved = text "alert.resolved"
alert_lifecycle_action OperationAlertLifecycleStatus.suppressed = text "alert.suppressed"
alert_lifecycle_action OperationAlertLifecycleStatus.expired = text "alert.expired"

-- `request.trace_id.unwrap_or(request.request_id)`.
abbrev pub trace_or : Text → Option Text → Text
trace_or request_id none = request_id
trace_or request_id (some trace_id) = trace_id

abbrev pub trace_of : AlertLifecycleTransitionRequest → Text
trace_of q = trace_or q.request_id q.trace_id

-- `ProductAuditRecord::alert_lifecycle_transition`.
abbrev pub alert_lifecycle_transition :
    AlertLifecycleTransitionRequest → (now : ℕ) → ProductAuditRecord
alert_lifecycle_transition q now = record {
  request_id = q.request_id;
  trace_id = trace_of q;
  action = alert_lifecycle_action q.target_status;
  result = text "authorized";
  tx_id = none;
  device_id = none;
  operator_id = some q.operator;
  reason = some q.reason;
  attention_required = false;
  error_code = none;
  error_message = none;
  fields =
      collect
        ((text "dedupe_key", q.dedupe_key) ∷ (text "status", status_label q.target_status) ∷ []);
  appended_at_unix_secs = now;
}

abbrev pub authorization_of : AlertLifecycleTransitionRequest → AdminAction → AuthorizationRequest
authorization_of q action = record {
  request_id = q.request_id;
  trace_id = trace_of q;
  operator_id = q.operator;
  action = action;
}

abbrev pub transition_of : AlertLifecycleTransitionRequest → OperationAlertLifecycleTransition
transition_of q = record {
  dedupe_key = q.dedupe_key;
  status = q.target_status;
  operator_id = q.operator;
  reason = some q.reason;
  request_id = q.request_id;
  trace_id = trace_of q;
}

-- What the manager has to do with: the audit trail, the newest record last, and the alerts.
pub record Stores : Type 0 where
  pub audits : List ProductAuditRecord
  pub lifecycles : Lifecycles

module _ (authorize : AuthorizationRequest → UnderlayResult AuthorizationDecision)
    (audit_error : ProductAuditRecord → Option UnderlayError) (now : ℕ) where
  unfoldable pub permission : AlertLifecycleTransitionRequest → UnderlayResult AuthorizationDecision
  permission q = do
    validate_transition_request q
    action ← action_for_status q.target_status
    authorize (authorization_of q action)

  abbrev pub with_lifecycles :
      Stores
      → Lifecycles × UnderlayResult OperationAlertLifecycleRecord
      → Stores × UnderlayResult OperationAlertLifecycleRecord
  with_lifecycles s (m, answer) = (record s { lifecycles = m }, answer)

  -- The audit store takes the record, or answers with an error.
  abbrev pub append_audit :
      AlertLifecycleTransitionRequest
      → Stores
      → Option UnderlayError
      → Stores × UnderlayResult OperationAlertLifecycleRecord
  append_audit q s (some e) = (s, err e)
  append_audit q s none =
      with_lifecycles (record s { audits = s.audits ++ alert_lifecycle_transition q now ∷ [] })
        (transition_alert (transition_of q) now s.lifecycles)

  abbrev pub if_permitted :
      AlertLifecycleTransitionRequest
      → Stores
      → UnderlayResult AuthorizationDecision
      → Stores × UnderlayResult OperationAlertLifecycleRecord
  if_permitted q s (err e) = (s, err e)
  if_permitted q s (ok decision) = append_audit q s (audit_error (alert_lifecycle_transition q now))

  unfoldable pub manage_alert :
      AlertLifecycleTransitionRequest
      → Stores
      → Stores × UnderlayResult OperationAlertLifecycleRecord
  manage_alert q s = if_permitted q s (permission q)

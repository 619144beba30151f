-- ===== src/Alerts/Tests.antt =====
-- An operator acknowledges an alert that nobody has touched, and an alert is delivered.
use aria_underlay.Base.{[], ◌∷◌, ◌++◌, none, some, true, ◌≡◌, refl, ◌⊎◌, text}
use aria_underlay.Base.BTree.{get, contains_key}
use aria_underlay.Authz.{StaticAuthorizationPolicy, authorize, with_operator}
use aria_underlay.Alerts.{OperationAlertLifecycleStatus, AlertLifecycleTransitionRequest}
use aria_underlay.Alerts.Delivery.{
  OperationSummary, Outbox, OperationAlertDeliveryReport, run_once, new_alerts, count_delivered,
  list_attention_required,
}
use aria_underlay.Alerts.Delivered.{
  AllKnown, outstanding, attended, quiet_answer, run_once-delivered,
}
use aria_underlay.Base.Errors.{UnderlayError, UnderlayResult, ok}
use aria_underlay.Alerts.Manager.{Stores, manage_alert}
use aria_underlay.Alerts.Life.{AllLived, IsAudited, manage_alert-AllLived}

abbrev policy : StaticAuthorizationPolicy
policy = with_operator (text "anna") []

abbrev acknowledge : AlertLifecycleTransitionRequest
acknowledge = record {
  request_id = text "r-9";
  trace_id = none;
  dedupe_key = text "transaction.in_doubt|in_doubt|r-1|t-1|tx-1|leaf-a";
  operator = text "anna";
  reason = text "looking into it";
  target_status = OperationAlertLifecycleStatus.acknowledged;
}

abbrev fresh : Stores
fresh = record { audits = []; lifecycles = [] }

fresh_lived : AllLived fresh.lifecycles
unfolding get
fresh_lived k r e = cc

manage_alert-AllLived_example :
    AllLived (manage_alert (authorize policy) (λ a. none) 50 acknowledge fresh).0.lifecycles
    × (((manage_alert (authorize policy) (λ a. none) 50 acknowledge fresh).0 ≡ fresh)
        ⊎ IsAudited
            (authorize policy)
            (λ a. none)
            50
            acknowledge
            fresh
            (manage_alert (authorize policy) (λ a. none) 50 acknowledge fresh).0)
manage_alert-AllLived_example =
    manage_alert-AllLived (authorize policy) (λ a. none) 50 acknowledge fresh fresh_lived

abbrev doubtful : OperationSummary
doubtful = record {
  request_id = text "r-1";
  trace_id = text "t-1";
  action = text "transaction.in_doubt";
  result = text "in_doubt";
  tx_id = some (text "tx-1");
  device_id = some (text "leaf-a");
  attention_required = true;
  fields = [];
}

abbrev empty_outbox : Outbox
empty_outbox = record { delivered_keys = []; delivered = [] }

-- The sink and the checkpoint answer once each, without an error.
abbrev first_run : Outbox × UnderlayResult OperationAlertDeliveryReport
first_run = run_once (λ a. none) (λ k. none) (ok (doubtful ∷ [])) none empty_outbox

abbrev first_report : OperationAlertDeliveryReport
first_report = record { scanned_attention_required = 1; already_delivered = 0; newly_delivered = 1 }

first_succeeds : first_run ≡ (first_run.0, ok first_report)
unfolding run_once new_alerts count_delivered list_attention_required contains_key
first_succeeds = refl

-- Afterwards the sink and the checkpoint refuse whatever they are given.
abbrev full : UnderlayError
full = UnderlayError.internal (record { template = "disk full"; values = [] })

run_once-delivered_example :
    (first_run.0.delivered ≡ [] ++ outstanding [] (attended (doubtful ∷ [])))
    × AllKnown first_run.0.delivered_keys (attended (doubtful ∷ []))
    × (run_once (λ a. some full) (λ k. some full) (ok (doubtful ∷ [])) none first_run.0
        ≡ (first_run.0, quiet_answer (attended (doubtful ∷ [])) none))
run_once-delivered_example =
    run_once-delivered (λ a. none) (λ a. some full) (λ k. none) (λ k. some full) none none
      (doubtful ∷ []) empty_outbox first_run.0 first_report first_succeeds

-- ===== src/Authz/Tests.antt =====
-- An operator who may acknowledge alerts, beside one who may do anything.
use aria_underlay.Base.{[], ◌∷◌, Memᴰ, ◌≡◌, ◌↔◌, text}
use aria_underlay.Authz.{
  AdminAction, AuthorizationRequest, StaticAuthorizationPolicy, permit, authorize, with_operator,
  with_allowed_actions,
}
use aria_underlay.Authz.Grants.{with_allowed_actions_decides}

abbrev policy : StaticAuthorizationPolicy
policy = with_operator (text "root") []

abbrev request : AuthorizationRequest
request = record {
  request_id = text "r";
  trace_id = text "t";
  operator_id = text "anna";
  action = AdminAction.resolve_alert;
}

with_allowed_actions_decides_example :
    (request.operator_id ≡ text "anna"
      → (authorize
            (with_allowed_actions (text "anna") (AdminAction.acknowledge_alert ∷ []) policy)
            request
          ≡ permit request)
        ↔ Memᴰ request.action (AdminAction.acknowledge_alert ∷ []))
    × (¬ (request.operator_id ≡ text "anna")
        → authorize
            (with_allowed_actions (text "anna") (AdminAction.acknowledge_alert ∷ []) policy)
            request
          ≡ authorize policy request)
with_allowed_actions_decides_example =
    with_allowed_actions_decides policy (text "anna") (AdminAction.acknowledge_alert ∷ []) request

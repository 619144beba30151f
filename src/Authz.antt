-- ===== src/Authz.antt =====
-- authz.rs: which operator may take which administrative action. The text of an action as `{:?}` prints it
-- is `action_name`.
pub mod Grants
mod Tests
use aria_underlay.Base.{
  ℕ, zero, suc, Text, text, List, [], ◌∷◌, Option, none, some, Bool, true, false, not,
  if◌then◌else◌, ◌≡◌, refl, ap, sym, ◌∙◌, text_ord, ℕ_ord, Ord, Cmp,
}
use aria_underlay.Base.BTree.{BTreeMap, BTreeSet, get, insert, contains, collect_set}
use aria_underlay.Base.Errors.{UnderlayResult, ok, err, authorization_denied, str}

pub data AdminAction : Type 0 where
  list_operation_summaries : AdminAction
  list_alerts : AdminAction
  list_in_doubt_transactions : AdminAction
  acknowledge_alert : AdminAction
  resolve_alert : AdminAction
  suppress_alert : AdminAction
  expire_alert : AdminAction
  force_resolve_transaction : AdminAction
  force_unlock_session : AdminAction
  change_retention_policy : AdminAction
  change_daemon_schedule : AdminAction
  get_product_status_bundle : AdminAction
  get_worker_reload_status : AdminAction
  export_audit_history : AdminAction

abbrev pub action_name : AdminAction → Text
action_name list_operation_summaries = text "ListOperationSummaries"
action_name list_alerts = text "ListAlerts"
action_name list_in_doubt_transactions = text "ListInDoubtTransactions"
action_name acknowledge_alert = text "AcknowledgeAlert"
action_name resolve_alert = text "ResolveAlert"
action_name suppress_alert = text "SuppressAlert"
action_name expire_alert = text "ExpireAlert"
action_name force_resolve_transaction = text "ForceResolveTransaction"
action_name force_unlock_session = text "ForceUnlockSession"
action_name change_retention_policy = text "ChangeRetentionPolicy"
action_name change_daemon_schedule = text "ChangeDaemonSchedule"
action_name get_product_status_bundle = text "GetProductStatusBundle"
action_name get_worker_reload_status = text "GetWorkerReloadStatus"
action_name export_audit_history = text "ExportAuditHistory"

-- The place of an action in the order of its declaration, by which the derived `Ord` compares.
unfoldable pub rank : AdminAction → ℕ
rank list_operation_summaries = 0
rank list_alerts = 1
rank list_in_doubt_transactions = 2
rank acknowledge_alert = 3
rank resolve_alert = 4
rank suppress_alert = 5
rank expire_alert = 6
rank force_resolve_transaction = 7
rank force_unlock_session = 8
rank change_retention_policy = 9
rank change_daemon_schedule = 10
rank get_product_status_bundle = 11
rank get_worker_reload_status = 12
rank export_audit_history = 13

abbrev pub every_action : List AdminAction
every_action =
    list_operation_summaries ∷ list_alerts ∷ list_in_doubt_transactions ∷ acknowledge_alert
    ∷ resolve_alert ∷ suppress_alert ∷ expire_alert ∷ force_resolve_transaction
    ∷ force_unlock_session ∷ change_retention_policy ∷ change_daemon_schedule
    ∷ get_product_status_bundle ∷ get_worker_reload_status ∷ export_audit_history ∷ []

abbrev nth : List AdminAction → ℕ → AdminAction
nth [] n = export_audit_history
nth (a ∷ l) zero = a
nth (a ∷ l) (suc n) = nth l n

abbrev at_rank : ℕ → AdminAction
at_rank n = nth every_action n

at_rank-rank : (a : AdminAction) → at_rank (rank a) ≡ a
unfolding rank
at_rank-rank list_operation_summaries = refl
at_rank-rank list_alerts = refl
at_rank-rank list_in_doubt_transactions = refl
at_rank-rank acknowledge_alert = refl
at_rank-rank resolve_alert = refl
at_rank-rank suppress_alert = refl
at_rank-rank expire_alert = refl
at_rank-rank force_resolve_transaction = refl
at_rank-rank force_unlock_session = refl
at_rank-rank change_retention_policy = refl
at_rank-rank change_daemon_schedule = refl
at_rank-rank get_product_status_bundle = refl
at_rank-rank get_worker_reload_status = refl
at_rank-rank export_audit_history = refl

pub rank_injective : (a b : AdminAction) → rank a ≡ rank b → a ≡ b
rank_injective a b e = sym (at_rank-rank a) ∙ (ap at_rank e ∙ at_rank-rank b)

abbrev cmp_action : AdminAction → AdminAction → Cmp
cmp_action a b = ℕ_ord.cmp (rank a) (rank b)

instance abbrev pub action_ord : Ord AdminAction
action_ord = record {
  cmp = cmp_action;
  cmp_equal = λ a b. (
    (λ e. rank_injective a b ((ℕ_ord.cmp_equal (rank a) (rank b)).0 e)),
    λ e. (ℕ_ord.cmp_equal (rank a) (rank b)).1 (ap rank e),
  );
  cmp_flip = λ a b. ℕ_ord.cmp_flip (rank a) (rank b);
  cmp_less_trans = λ a b c. ℕ_ord.cmp_less_trans (rank a) (rank b) (rank c);
}

abbrev pub all_actions : BTreeSet AdminAction
all_actions = collect_set every_action

pub record AuthorizationRequest : Type 0 where
  pub request_id : Text
  pub trace_id : Text
  pub operator_id : Text
  pub action : AdminAction

pub record AuthorizationDecision : Type 0 where
  pub operator_id : Text
  pub action : AdminAction

abbrev pub permit : AuthorizationRequest → UnderlayResult AuthorizationDecision
permit q = ok (record { operator_id = q.operator_id; action = q.action })

-- The operators of a `StaticAuthorizationPolicy`.
abbrev pub StaticAuthorizationPolicy : Type 0
StaticAuthorizationPolicy = BTreeMap Text (BTreeSet AdminAction)

unfoldable pub with_operator : Text → StaticAuthorizationPolicy → StaticAuthorizationPolicy
with_operator operator p = insert operator all_actions p

unfoldable pub with_allowed_actions :
    Text → List AdminAction → StaticAuthorizationPolicy → StaticAuthorizationPolicy
with_allowed_actions operator actions p = insert operator (collect_set actions) p

abbrev pub check_action :
    AuthorizationRequest → Option (BTreeSet AdminAction) → UnderlayResult AuthorizationDecision
check_action q none = err (
    authorization_denied (record {
      template = "operator {} is not registered for local admin operations";
      values = str q.operator_id ∷ [];
    }))
check_action q (some allowed_actions) =
    if not (contains q.action allowed_actions)
    then err (
        authorization_denied (record {
          template = "operator {} is not authorized for {:?}";
          values = str q.operator_id ∷ str (action_name q.action) ∷ [];
        }))
    else permit q

unfoldable pub authorize :
    StaticAuthorizationPolicy → AuthorizationRequest → UnderlayResult AuthorizationDecision
authorize p q = check_action q (get q.operator_id p)

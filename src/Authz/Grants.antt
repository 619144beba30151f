-- ===== src/Authz/Grants.antt =====
-- What a policy grants after a registration.
use aria_underlay.Base.{
  List, Text, true, Memᴰ, ◌≡◌, refl, ◌↔◌, some, Bool-cases, inl, inr, text_ord,
}
use aria_underlay.Base.BTree.{same, same_iff, get-insert, contains, collect_set, BTreeSet}
use aria_underlay.Base.Mem.{contains_iff}
use aria_underlay.Authz.{
  AdminAction, AuthorizationRequest, StaticAuthorizationPolicy, permit, check_action, authorize,
  with_allowed_actions, action_ord,
}

contains-granted :
    (q : AuthorizationRequest) (actions : BTreeSet AdminAction)
    → (check_action q (some actions) ≡ permit q) ↔ (contains q.action actions ≡ true)
contains-granted q actions = elim (Bool-cases (contains q.action actions)) [
  | inl e ↦ (λ _. e, λ _. rw e refl)
  | inr e ↦ (λ h. cc (rw e at h), λ h. cc)
]

-- What an operator may do is what the last registration has said of it: the request of the operator that
-- is registered is granted exactly when its action is listed, whatever the policy was, and the requests of
-- every other operator are answered as before.
pub with_allowed_actions_decides :
    (p : StaticAuthorizationPolicy) (operator : Text) (actions : List AdminAction)
    (q : AuthorizationRequest)
    → (q.operator_id ≡ operator
        → (authorize (with_allowed_actions operator actions p) q ≡ permit q)
          ↔ Memᴰ q.action actions)
      × (¬ (q.operator_id ≡ operator)
          → authorize (with_allowed_actions operator actions p) q ≡ authorize p q)
unfolding authorize with_allowed_actions
with_allowed_actions_decides p operator actions q = (
  λ e.
      rw
        (
          get-insert q.operator_id operator (collect_set actions) p,
          (same_iff q.operator_id operator).1 e,
        )
        (
          (λ g. (contains_iff q.action actions).0 ((contains-granted q (collect_set actions)).0 g)),
          λ m. (contains-granted q (collect_set actions)).1 ((contains_iff q.action actions).1 m),
        ),
  λ n. elim (Bool-cases (same q.operator_id operator)) [
    | inl e ↦ absurd (n ((same_iff q.operator_id operator).0 e))
    | inr e ↦ rw (get-insert q.operator_id operator (collect_set actions) p, e) refl
  ],
)

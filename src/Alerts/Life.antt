-- ===== src/Alerts/Life.antt =====
-- What the manager keeps true of the alerts and of the audit trail.
use aria_underlay.Base.{
  ℕ, Text, List, [], ◌∷◌, ◌++◌, Option, none, some, true, ◌≡◌, refl, sym, ap, ◌∙◌, ◌⊎◌, inl, inr,
  Bool-cases, Option-cases, text_ord, subst,
}
use aria_underlay.Base.BTree.{get, insert, get-insert, same, same_iff}
use aria_underlay.Base.Errors.{UnderlayError, UnderlayResult, ok, err, ◌>>=◌, >>=-eq-ok, >>-eq-ok}
use aria_underlay.Authz.{AuthorizationRequest, AuthorizationDecision, AdminAction}
use aria_underlay.Alerts.{
  OperationAlertLifecycleStatus, OperationAlertLifecycleEvent, OperationAlertLifecycleRecord,
  opened, OperationAlertLifecycleTransition, AlertLifecycleTransitionRequest, Lifecycles,
  transition_alert, is_allowed_lifecycle_transition, transition_lifecycle_record, action_for_status,
  after, current_or_new, from_status, event_of, keep_record, validate_transition_request,
}
use aria_underlay.Alerts.Manager.{
  ProductAuditRecord, Stores, alert_lifecycle_transition, authorization_of, manage_alert,
  permission, if_permitted, transition_of,
}

-- A life: from `Open`, by allowed changes only, each with its event.
pub data Life : OperationAlertLifecycleStatus → List OperationAlertLifecycleEvent → Type 0 where
  untouched : Life opened []
  changed :
      {s : OperationAlertLifecycleStatus} {h : List OperationAlertLifecycleEvent}
      (e : OperationAlertLifecycleEvent)
      → Life s h
      → is_allowed_lifecycle_transition s e.status ≡ true
      → Life e.status (h ++ e ∷ [])

abbrev pub IsLived : Text → OperationAlertLifecycleRecord → Type 0
IsLived k r = (r.dedupe_key ≡ k) × Life r.status r.history

abbrev pub AllLived : Lifecycles → Type 0
AllLived m = (k : Text) (r : OperationAlertLifecycleRecord) → get k m ≡ some r → IsLived k r

ok_injective : (a b : OperationAlertLifecycleRecord) → ok a ≡ ok b → a ≡ b
ok_injective a b h = cc

some_injective : (a b : OperationAlertLifecycleRecord) → some a ≡ some b → a ≡ b
some_injective a b h = cc

current-IsLived :
    (m : Lifecycles) (q : OperationAlertLifecycleTransition) (now : ℕ)
    → AllLived m
    → (found : Option OperationAlertLifecycleRecord) → get q.dedupe_key m ≡ found
    → IsLived q.dedupe_key (current_or_new found q now)
      × ((current_or_new found q now).status ≡ from_status found)
current-IsLived m q now h none e = ((refl, untouched), refl)
current-IsLived m q now h (some r) e = (h q.dedupe_key r e, refl)

insert-AllLived :
    (m : Lifecycles) (r : OperationAlertLifecycleRecord)
    → AllLived m
    → Life r.status r.history
    → AllLived (insert r.dedupe_key r m)
insert-AllLived m r h l k t e = elim (Bool-cases (same k r.dedupe_key)) [
  | inl b ↦
      subst (IsLived k) (some_injective r t (rw (get-insert k r.dedupe_key r m, b) at e))
        (sym ((same_iff k r.dedupe_key).0 b), l)
  | inr b ↦ h k t (rw (get-insert k r.dedupe_key r m, b) at e)
]

record-Life :
    (q : OperationAlertLifecycleTransition) (now : ℕ) (m : Lifecycles)
    → AllLived m
    → (r : OperationAlertLifecycleRecord)
    → transition_lifecycle_record (get q.dedupe_key m) q now ≡ ok r
    → Life r.status r.history
unfolding transition_lifecycle_record
record-Life q now m h r e =
    let found = get q.dedupe_key m in
    let lived = current-IsLived m q now h found refl in
    elim (Bool-cases (is_allowed_lifecycle_transition (from_status found) q.status)) [
      | inl b ↦
          subst (λ x. Life x.status x.history)
            (ok_injective (after (current_or_new found q now) q now) r (rw b at e))
            (changed (event_of q now) lived.0.1
              (ap (λ x. is_allowed_lifecycle_transition x q.status) lived.1 ∙ b))
      | inr b ↦ cc (rw b at e)
    ]

kept-AllLived :
    (m : Lifecycles)
    → AllLived m
    → (out : UnderlayResult OperationAlertLifecycleRecord)
    → ((r : OperationAlertLifecycleRecord) → out ≡ ok r → Life r.status r.history)
    → AllLived (keep_record m out).0
kept-AllLived m h (err e) f = h
kept-AllLived m h (ok r) f = insert-AllLived m r h (f r refl)

transition_alert-AllLived :
    (q : OperationAlertLifecycleTransition) (now : ℕ) (m : Lifecycles)
    → AllLived m
    → AllLived (transition_alert q now m).0
unfolding transition_alert
transition_alert-AllLived q now m h =
    kept-AllLived m h (transition_lifecycle_record (get q.dedupe_key m) q now)
      (record-Life q now m h)

module _ (authorize : AuthorizationRequest → UnderlayResult AuthorizationDecision)
    (audit_error : ProductAuditRecord → Option UnderlayError) (now : ℕ)
    (q : AlertLifecycleTransitionRequest) (s : Stores) where
  -- What lets the stores change: the operator may take the action of the status that is asked for, and the
  -- audit trail has the request.
  abbrev pub IsAudited : Stores → Type 0
  IsAudited t =
      (action : AdminAction) × (d : AuthorizationDecision) × (action_for_status q.target_status
        ≡ ok action)
      × (authorize (authorization_of q action) ≡ ok d)
      × (t.audits ≡ s.audits ++ alert_lifecycle_transition q now ∷ [])

  IsPermitted : AuthorizationDecision → Type 0
  IsPermitted d =
      (action : AdminAction) × (action_for_status q.target_status ≡ ok action)
      × (authorize (authorization_of q action) ≡ ok d)

  permission-IsPermitted :
      (d : AuthorizationDecision) → permission authorize audit_error now q ≡ ok d → IsPermitted d
  unfolding permission IsPermitted
  permission-IsPermitted d e =
      >>=-eq-ok (action_for_status q.target_status)
        (λ action. authorize (authorization_of q action))
        (>>-eq-ok (validate_transition_request q)
          (action_for_status q.target_status >>= (λ action. authorize (authorization_of q action)))
          e).1

  if_permitted-cases :
      AllLived s.lifecycles
      → (p : UnderlayResult AuthorizationDecision)
      → ((d : AuthorizationDecision) → p ≡ ok d → IsPermitted d)
      → AllLived (if_permitted authorize audit_error now q s p).0.lifecycles
        × (((if_permitted authorize audit_error now q s p).0 ≡ s)
            ⊎ IsAudited (if_permitted authorize audit_error now q s p).0)
  unfolding IsPermitted
  if_permitted-cases h (err e) f = (h, inl refl)
  if_permitted-cases h (ok d) f =
      let (action, a, b) = f d refl in
      elim (Option-cases (audit_error (alert_lifecycle_transition q now))) [
        | inl e ↦ rw e (
          transition_alert-AllLived (transition_of q) now s.lifecycles h,
          inr (action, d, a, b, refl),
        )
        | inr (x, e) ↦ rw e (h, inl refl)
      ]

  -- The manager keeps every alert on a life that starts at `Open` and takes allowed changes only, each with its
  -- event in the history, whatever the policy and the audit store answer. The stores are left as they were
  -- unless the operator may take the action of the status that is asked for and the audit trail has the
  -- request as its newest record.
  pub manage_alert-AllLived :
      AllLived s.lifecycles
      → AllLived (manage_alert authorize audit_error now q s).0.lifecycles
        × (((manage_alert authorize audit_error now q s).0 ≡ s)
            ⊎ IsAudited (manage_alert authorize audit_error now q s).0)
  unfolding manage_alert
  manage_alert-AllLived h =
      if_permitted-cases h (permission authorize audit_error now q) permission-IsPermitted

-- ===== src/Planner/DomainPlan/Total.antt =====
-- After its validation the plan of a domain cannot fail.
use aria_underlay.Base.{
  String, List, [], ◌∷◌, some, map, true, ◌≡◌, refl, ◌∙◌, All, Option-cases, inl, inr, arith,
  text_ord,
}
use aria_underlay.Base.BTree.{
  BTreeMap, get, contains_key, contains, insert, contains_key-get, Entries, Entries-collect,
  Entries-get, values,
}
use aria_underlay.Base.Errors.{UnderlayResult, ok}
use aria_underlay.Base.Loops.{try_fold}
use aria_underlay.Base.Mem.{contains_key-insert, contains_key-collect-map}
use aria_underlay.Model.{DeviceId}
use aria_underlay.Intent.{UnderlayDomainIntent, SwitchMemberIntent}
use aria_underlay.Intent.Validation.{validate_underlay_domain_intent}
use aria_underlay.Intent.Validation.Members.{
  IsLinked, OnMembers, member_ids, endpoint_ids, validate_underlay_domain_intent-IsLinked,
}
use aria_underlay.Planner.DevicePlan.{DeviceDesiredState}
use aria_underlay.Planner.DomainPlan.{
  States, member_to_endpoint, endpoint_states, endpoint_state, edit_state, add_all, add_objects,
  plan_interfaces, plan_interface_deletes, plan_bindings, plan_binding_deletes, plan_processes,
  plan_neighbors, plan_process_deletes, plan_neighbor_deletes, plan_underlay_domain,
}

-- Every member leads to an endpoint that has a state.
abbrev IsReady : BTreeMap DeviceId DeviceId → States → Type 0
IsReady members states =
    (d : DeviceId)
    → contains_key d members ≡ true
    → (e : DeviceId) × (get d members ≡ some e) × (contains_key e states ≡ true)

module _ (members : BTreeMap DeviceId DeviceId) (template : String) where
  edit_state-IsReady :
      (d : DeviceId) (edit : DeviceDesiredState → DeviceDesiredState) (states : States)
      → IsReady members states
      → contains_key d members ≡ true
      → (t : States) × (edit_state members template d edit states ≡ ok t) × IsReady members t
  unfolding edit_state
  edit_state-IsReady d edit states r h =
      let (e, g, c) = r d h in
      elim (Option-cases (get e states)) [
        | inl n ↦ ground (arith, contains_key-get e states)
        | inr (s, q) ↦ (
          insert e (edit s) states,
          rw (edit_state, g, q),
          λ k m.
              let (f, a, b) = r k m in
              (f, a, ground (arith, contains_key-insert f e (edit s) states)),
        )
      ]

  add_all-IsReady {ℓ} :
      {A : Type ℓ} (device : A → DeviceId) (edit : A → DeviceDesiredState → DeviceDesiredState)
      (l : List A) (states : States)
      → IsReady members states
      → All (λ x. contains_key (device x) members ≡ true) l
      → (t : States) × (add_all members template device edit l states ≡ ok t) × IsReady members t
  unfolding add_all try_fold
  add_all-IsReady device edit [] states r h = (states, refl, r)
  add_all-IsReady device edit (x ∷ l) states r h =
      let (s, a, q) = edit_state-IsReady (device x) (edit x) states r h.0 in
      let (t, b, p) = add_all-IsReady device edit l s q h.1 in (t, rw a b, p)

-- The maps that the loops start from are linked as the intent is.
start-IsReady :
    (i : UnderlayDomainIntent) → IsLinked i → IsReady (member_to_endpoint i) (endpoint_states i)
unfolding member_to_endpoint endpoint_states
start-IsReady i l d h = elim (Option-cases (get d (member_to_endpoint i))) [
  | inl n ↦ ground (arith, contains_key-get d (member_to_endpoint i))
  | inr (e, g) ↦ (
    e,
    g,
    contains_key-collect-map (λ x. x.endpoint_id) (endpoint_state i) e i.endpoints
        ∙ Entries-get (λ k v. contains v (endpoint_ids i) ≡ true) d e (member_to_endpoint i)
            (Entries-collect _ _ (Entries_members i.members l.members)) g,
  )
]
  where
    Entries_members :
        (ms : List SwitchMemberIntent)
        → All (λ m. contains m.management_endpoint_id (endpoint_ids i) ≡ true) ms
        → Entries
            (λ k v. contains v (endpoint_ids i) ≡ true)
            (map (λ m. (m.member_id, m.management_endpoint_id)) ms)
    Entries_members [] h = tt
    Entries_members (m ∷ ms) h = (h.0, Entries_members ms h.1)

known :
    (i : UnderlayDomainIntent) (d : DeviceId)
    → contains d (member_ids i) ≡ true
    → contains_key d (member_to_endpoint i) ≡ true
unfolding member_to_endpoint
known i d h =
    contains_key-collect-map (λ m. m.member_id) (λ m. m.management_endpoint_id) d i.members ∙ h

All-known {ℓ} :
    {A : Type ℓ} (i : UnderlayDomainIntent) (device : A → DeviceId) (l : List A)
    → All (λ x. contains (device x) (member_ids i) ≡ true) l
    → All (λ x. contains_key (device x) (member_to_endpoint i) ≡ true) l
All-known i device [] h = tt
All-known i device (x ∷ l) h = (known i (device x) h.0, All-known i device l h.1)

-- A loop that succeeds on ready states and leaves them ready.
abbrev Succeeds : UnderlayDomainIntent → (States → UnderlayResult States) → Type 0
Succeeds i loop =
    (states : States)
    → IsReady (member_to_endpoint i) states
    → (t : States) × (loop states ≡ ok t) × IsReady (member_to_endpoint i) t

module _ (i : UnderlayDomainIntent) (o : OnMembers (member_ids i) i) where
  plan_interfaces_total : Succeeds i (plan_interfaces i)
  plan_interfaces_total states r =
      add_all-IsReady (member_to_endpoint i) _ _ _ i.interfaces states r
        (All-known i (λ x. x.device_id) i.interfaces o.interfaces)

  plan_interface_deletes_total : Succeeds i (plan_interface_deletes i)
  plan_interface_deletes_total states r =
      add_all-IsReady (member_to_endpoint i) _ _ _ i.delete_interfaces states r
        (All-known i (λ x. x.device_id) i.delete_interfaces o.delete_interfaces)

  plan_bindings_total : Succeeds i (plan_bindings i)
  plan_bindings_total states r =
      add_all-IsReady (member_to_endpoint i) _ _ _ i.acl_bindings states r
        (All-known i (λ x. x.device_id) i.acl_bindings o.acl_bindings)

  plan_binding_deletes_total : Succeeds i (plan_binding_deletes i)
  plan_binding_deletes_total states r =
      add_all-IsReady (member_to_endpoint i) _ _ _ i.delete_acl_bindings states r
        (All-known i (λ x. x.device_id) i.delete_acl_bindings o.delete_acl_bindings)

  plan_processes_total : Succeeds i (plan_processes i)
  plan_processes_total states r =
      add_all-IsReady (member_to_endpoint i) _ _ _ i.bgp_processes states r
        (All-known i (λ x. x.device_id) i.bgp_processes o.bgp_processes)

  plan_neighbors_total : Succeeds i (plan_neighbors i)
  plan_neighbors_total states r =
      add_all-IsReady (member_to_endpoint i) _ _ _ i.bgp_neighbors states r
        (All-known i (λ x. x.device_id) i.bgp_neighbors o.bgp_neighbors)

  plan_process_deletes_total : Succeeds i (plan_process_deletes i)
  plan_process_deletes_total states r =
      add_all-IsReady (member_to_endpoint i) _ _ _ i.delete_bgp_processes states r
        (All-known i (λ x. x.device_id) i.delete_bgp_processes o.delete_bgp_processes)

  plan_neighbor_deletes_total : Succeeds i (plan_neighbor_deletes i)
  plan_neighbor_deletes_total states r =
      add_all-IsReady (member_to_endpoint i) _ _ _ i.delete_bgp_neighbors states r
        (All-known i (λ x. x.device_id) i.delete_bgp_neighbors o.delete_bgp_neighbors)

  add_objects_total :
      (states : States)
      → IsReady (member_to_endpoint i) states
      → (t : States) × (add_objects i states ≡ ok t)
  unfolding add_objects
  add_objects_total states r =
      let (a, ha, ra) = plan_interfaces_total states r in
      let (b, hb, rb) = plan_interface_deletes_total a ra in
      let (c, hc, rc) = plan_bindings_total b rb in
      let (d, hd, rd) = plan_binding_deletes_total c rc in
      let (e, he, re) = plan_processes_total d rd in
      let (f, hf, rf) = plan_neighbors_total e re in
      let (g, hg, rg) = plan_process_deletes_total f rf in
      let (h, hh, rh) = plan_neighbor_deletes_total g rg in (h, rw (ha, hb, hc, hd, he, hf, hg) hh)

-- The plan of a domain intent that passes its validation succeeds: no object is without a member, and
-- no member without the state of its endpoint.
pub plan_underlay_domain_total :
    (i : UnderlayDomainIntent)
    → validate_underlay_domain_intent i ≡ ok tt
    → (plan : List DeviceDesiredState) × (plan_underlay_domain i ≡ ok plan)
unfolding plan_underlay_domain
plan_underlay_domain_total i h =
    let l = validate_underlay_domain_intent-IsLinked i h in
    let (states, e) = add_objects_total i l.objects (endpoint_states i) (start-IsReady i l) in
    (values states, rw (h, e))

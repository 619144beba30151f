-- ===== src/Planner/DomainPlan/Apart.antt =====
-- What a planned state asks for and deletes is apart: its VLANs, its access lists, and the access lists
-- that it binds.
use aria_underlay.Base.{
  ℕ, Text, String, List, [], ◌∷◌, map, true, false, Memᴰ, ◌≡◌, refl, subst, All, arith, text_ord,
  ℕ_ord,
}
use aria_underlay.Base.BTree.{
  BTreeSet, contains, collect_set, Entries, Entries-collect, Entries-insert, values,
}
use aria_underlay.Base.Errors.{ok, >>-eq-ok, >>=-eq-ok}
use aria_underlay.Base.Loops.{try_seen-All, try_each-All}
use aria_underlay.Base.Mem.{contains_iff, apart_sym}
use aria_underlay.Model.{DeviceId}
use aria_underlay.Intent.{UnderlayDomainIntent, AclBindingIntent, ManagementEndpointIntent}
use aria_underlay.Intent.Checks.{refuse_declared}
use aria_underlay.Intent.Bindings.{BindingKey, validate_acl_binding, validate_acl_bindings}
use aria_underlay.Intent.Validation.{
  validate_underlay_domain_intent, declared_vlans, declared_acls, domain, acl_config,
}
use aria_underlay.Intent.Validation.Passed.{
  validate_objects-Passed, validate_underlay_domain_intent-Passed,
}
use aria_underlay.Planner.DomainPlan.Loops.{add_all-Entries}
use aria_underlay.Planner.DevicePlan.{DeviceDesiredState, vlan_config}
use aria_underlay.Planner.DomainPlan.{
  States, endpoint_states, endpoint_state, add_all, add_objects, plan_underlay_domain,
  add_interface, add_interface_delete, add_binding, add_binding_delete, add_process, add_neighbor,
  add_process_delete, add_neighbor_delete, member_to_endpoint, plan_interfaces,
  plan_interface_deletes, plan_bindings, plan_binding_deletes, plan_processes, plan_neighbors,
  plan_process_deletes,
}

-- The VLANs and access lists of a state are none of those that it deletes, nor is a list that it binds.
abbrev pub IsApart : DeviceDesiredState → Type 0
IsApart s =
    Entries (λ k v. contains k s.delete_vlan_ids ≡ false) s.vlans
    × Entries (λ k a. contains k s.delete_acl_ids ≡ false) s.acls
    × Entries (λ k b. contains b.acl_id s.delete_acl_ids ≡ false) s.acl_bindings

-- One turn of the loop over bindings has found the access list among the declared ones.
binding_declared :
    (ids : BTreeSet DeviceId) (acls : BTreeSet ℕ) (context : Text) (seen : BTreeSet BindingKey)
    (b : AclBindingIntent) (t : BTreeSet BindingKey)
    → validate_acl_binding ids acls context seen b ≡ ok t
    → contains b.acl_id acls ≡ true
unfolding validate_acl_binding
binding_declared ids acls context seen b t h = ground arith

bindings_declared :
    (ids : BTreeSet DeviceId) (acls : BTreeSet ℕ) (l : List AclBindingIntent)
    → validate_acl_bindings l ids acls domain ≡ ok tt
    → All (λ b. contains b.acl_id acls ≡ true) l
unfolding validate_acl_bindings
bindings_declared ids acls l h = try_seen-All _ _ (binding_declared ids acls domain) [] l h

refused_declared :
    (declared : BTreeSet ℕ) (template : String) (id : ℕ)
    → refuse_declared declared template id ≡ ok tt
    → contains id declared ≡ false
unfolding refuse_declared
refused_declared declared template id h = ground arith

module _ (i : UnderlayDomainIntent) where
  -- The part of validation that the plan relies on here.
  record Checked : Type 0 where
    vlans : All (λ id. contains id (declared_vlans i) ≡ false) i.delete_vlan_ids
    acls : All (λ id. contains id (declared_acls i) ≡ false) i.delete_acl_ids
    bindings : All (λ b. contains b.acl_id (declared_acls i) ≡ true) i.acl_bindings

  validated-Checked : validate_underlay_domain_intent i ≡ ok tt → Checked
  validated-Checked h =
      let (endpoints, e, members, m, o) = validate_underlay_domain_intent-Passed i h in
      let p = validate_objects-Passed i members o in
      record {
        vlans =
            try_each-All _ _ (refused_declared (declared_vlans i) _) i.delete_vlan_ids
              p.vlans_apart;
        acls =
            try_each-All _ _ (refused_declared (declared_acls i) _) i.delete_acl_ids p.acls_apart;
        bindings = bindings_declared members (declared_acls i) i.acl_bindings p.acl_bindings;
      }

  -- A state as it is between the loops.
  abbrev IsPlanned : DeviceDesiredState → Type 0
  IsPlanned s = IsApart s × (s.delete_acl_ids ≡ collect_set i.delete_acl_ids)

  module _ (c : Checked) where
    declared_kept :
        (b : AclBindingIntent)
        → contains b.acl_id (declared_acls i) ≡ true
        → contains b.acl_id (collect_set i.delete_acl_ids) ≡ false
    declared_kept b h =
        apart_sym (map (λ a. a.acl_id) i.acls) i.delete_acl_ids c.acls b.acl_id
          ((contains_iff b.acl_id _).0 h)

    binding-IsPlanned :
        (b : AclBindingIntent) (s : DeviceDesiredState)
        → contains b.acl_id (declared_acls i) ≡ true
        → IsPlanned s
        → IsPlanned (add_binding b s)
    binding-IsPlanned b s h p = (
      (
        p.0.0,
        p.0.1,
        Entries-insert (λ k x. contains x.acl_id s.delete_acl_ids ≡ false) _ _ s.acl_bindings
            (rw p.1 (declared_kept b h)) p.0.2,
      ),
      p.1,
    )

    Entries-keyed {ℓ κ} :
        {A : Type ℓ} {V : Type κ} (key : A → ℕ) (value : A → V) (P : ℕ → Type 0) (l : List A)
        → ((k : ℕ) → Memᴰ k (map key l) → P k)
        → Entries (λ k v. P k) (map (λ a. (key a, value a)) l)
    Entries-keyed key value P [] f = tt
    Entries-keyed key value P (a ∷ l) f =
        (f (key a) (Memᴰ.head refl), Entries-keyed key value P l (λ k m. f k (Memᴰ.tail m)))

    endpoint_state-IsPlanned : (e : ManagementEndpointIntent) → IsPlanned (endpoint_state i e)
    unfolding endpoint_state
    endpoint_state-IsPlanned e = (
      (
        Entries-collect _ _ (
            Entries-keyed (λ v. v.vlan_id) vlan_config _ i.vlans
              (apart_sym (map (λ v. v.vlan_id) i.vlans) i.delete_vlan_ids c.vlans)),
        Entries-collect _ _ (
            Entries-keyed (λ a. a.acl_id) acl_config _ i.acls
              (apart_sym (map (λ a. a.acl_id) i.acls) i.delete_acl_ids c.acls)),
        tt,
      ),
      refl,
    )

    endpoint_states-IsPlanned : Entries (λ e s. IsPlanned s) (endpoint_states i)
    unfolding endpoint_states
    endpoint_states-IsPlanned = Entries-collect _ _ (each i.endpoints)
      where
        each :
            (l : List ManagementEndpointIntent)
            → Entries (λ e s. IsPlanned s) (map (λ e. (e.endpoint_id, endpoint_state i e)) l)
        each [] = tt
        each (e ∷ l) = (endpoint_state-IsPlanned e, each l)

    -- A loop that leaves the three maps alone.
    untouched {ℓ} :
        {A : Type ℓ} (template : String) (device : A → DeviceId)
        (edit : A → DeviceDesiredState → DeviceDesiredState)
        → ((x : A) (s : DeviceDesiredState) → IsPlanned s → IsPlanned (edit x s))
        → (l : List A) (states : States) {t : States}
        → add_all (member_to_endpoint i) template device edit l states ≡ ok t
        → Entries (λ e s. IsPlanned s) states
        → Entries (λ e s. IsPlanned s) t
    untouched {A = A} template device edit f l states h q =
        add_all-Entries (member_to_endpoint i) template IsPlanned (λ x. Unit {0}) device edit
          (λ x s u p. f x s p) l states h (every l) q
      where
        every : (l : List A) → All (λ x. Unit {0}) l
        every [] = tt
        every (x ∷ l) = (tt, every l)

    add_objects-IsPlanned :
        (states : States) {t : States}
        → add_objects i states ≡ ok t
        → Entries (λ e s. IsPlanned s) states
        → Entries (λ e s. IsPlanned s) t
    unfolding add_objects
    add_objects-IsPlanned states h q =
        let (a, ha, h1) = >>=-eq-ok (plan_interfaces i states) _ h in
        let (b, hb, h2) = >>=-eq-ok (plan_interface_deletes i a) _ h1 in
        let (d, hd, h3) = >>=-eq-ok (plan_bindings i b) _ h2 in
        let (e, he, h4) = >>=-eq-ok (plan_binding_deletes i d) _ h3 in
        let (f, hf, h5) = >>=-eq-ok (plan_processes i e) _ h4 in
        let (g, hg, h6) = >>=-eq-ok (plan_neighbors i f) _ h5 in
        let (k, hk, h7) = >>=-eq-ok (plan_process_deletes i g) _ h6 in
        let qa =
          untouched _ (λ x. x.device_id) add_interface (λ x s p. p) i.interfaces states ha q in
        let qb =
          untouched _ (λ x. x.device_id) add_interface_delete (λ x s p. p) i.delete_interfaces a hb
            qa in
        let qd =
          add_all-Entries (member_to_endpoint i) _ IsPlanned _ (λ x. x.device_id) add_binding
            binding-IsPlanned i.acl_bindings b hd c.bindings qb in
        let qe =
          untouched _ (λ x. x.device_id) add_binding_delete (λ x s p. p) i.delete_acl_bindings d he
            qd in
        let qf = untouched _ (λ x. x.device_id) add_process (λ x s p. p) i.bgp_processes e hf qe in
        let qg = untouched _ (λ x. x.device_id) add_neighbor (λ x s p. p) i.bgp_neighbors f hg qf in
        let qk =
          untouched _ (λ x. x.device_id) add_process_delete (λ x s p. p) i.delete_bgp_processes g hk
            qg in
        untouched _ (λ x. x.device_id) add_neighbor_delete (λ x s p. p) i.delete_bgp_neighbors k h7
          qk

All-values :
    (P : DeviceDesiredState → Type 0) (Q : DeviceDesiredState → Type 0)
    → ((s : DeviceDesiredState) → P s → Q s)
    → (states : States) → Entries (λ e s. P s) states
    → All Q (values states)
All-values P Q f [] h = tt
All-values P Q f ((e, s) ∷ m) h = (f s h.0, All-values P Q f m h.1)

-- In the plan of a domain every state asks for no VLAN and no access list that it also deletes, and
-- binds no access list that it deletes.
pub plan_underlay_domain-IsApart :
    (i : UnderlayDomainIntent) (plan : List DeviceDesiredState)
    → plan_underlay_domain i ≡ ok plan
    → All IsApart plan
unfolding plan_underlay_domain
plan_underlay_domain-IsApart i plan h =
    let (v, h1) = >>-eq-ok (validate_underlay_domain_intent i) _ h in
    let (states, a, b) = >>=-eq-ok (add_objects i (endpoint_states i)) _ h1 in
    let c = validated-Checked i v in
    let there : values states ≡ plan = grind (arith, b) in
    subst (All IsApart) there (
      All-values (IsPlanned i) IsApart (λ s p. p.0) states
        (add_objects-IsPlanned i c (endpoint_states i) a (endpoint_states-IsPlanned i c)))

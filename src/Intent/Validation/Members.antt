-- ===== src/Intent/Validation/Members.antt =====
-- The members and endpoints that a validated intent refers to.
use aria_underlay.Base.{
  ℕ, Text, List, [], ◌∷◌, map, true, ◌≡◌, subst, All, text_ord, pair_ord, ℕ_ord,
}
use aria_underlay.Base.BTree.{BTreeSet, contains, collect, collect_set}
use aria_underlay.Base.Errors.{ok, >>=-eq-ok}
use aria_underlay.Base.Loops.{try_fold, try_fold-All, try_seen-All, try_fold-extend}
use aria_underlay.Model.{DeviceId}
use aria_underlay.Intent.{
  UnderlayDomainIntent, AclBindingIntent, BgpProcessIntent, BgpProcessDeleteIntent,
  BgpNeighborIntent, BgpNeighborDeleteIntent, InterfaceIntent, InterfaceDeleteIntent,
}
use aria_underlay.Intent.Objects.{InterfaceKey, validate_interfaces, validate_interface_deletes}
use aria_underlay.Intent.Bindings.{validate_acl_bindings, validate_acl_binding_deletes}
use aria_underlay.Intent.Bgp.{
  deleted_key, validate_bgp_process, validate_bgp_processes, validate_bgp_neighbor,
  validate_bgp_neighbors,
}
use aria_underlay.Intent.Validation.Turns.{
  interface_member, interface_delete_member, binding_member, binding_delete_member, process_member,
  process_delete_member, neighbor_member, neighbor_delete_member, member_endpoint, member_key,
  endpoint_key,
}
use aria_underlay.Intent.Validation.Passed.{
  validate_objects-Passed, validate_underlay_domain_intent-Passed,
}
use aria_underlay.Intent.Validation.{
  validate_endpoint, validate_member, validate_objects, validate_underlay_domain_intent,
}

-- Every object of an intent is on a known member.
pub record OnMembers (ids : BTreeSet DeviceId) (i : UnderlayDomainIntent) : Type 0 where
  pub interfaces : All (λ f. contains f.device_id ids ≡ true) i.interfaces
  pub delete_interfaces : All (λ f. contains f.device_id ids ≡ true) i.delete_interfaces
  pub acl_bindings : All (λ f. contains f.device_id ids ≡ true) i.acl_bindings
  pub delete_acl_bindings : All (λ f. contains f.device_id ids ≡ true) i.delete_acl_bindings
  pub bgp_processes : All (λ f. contains f.device_id ids ≡ true) i.bgp_processes
  pub bgp_neighbors : All (λ f. contains f.device_id ids ≡ true) i.bgp_neighbors
  pub delete_bgp_processes : All (λ f. contains f.device_id ids ≡ true) i.delete_bgp_processes
  pub delete_bgp_neighbors : All (λ f. contains f.device_id ids ≡ true) i.delete_bgp_neighbors

abbrev pub member_ids : UnderlayDomainIntent → BTreeSet DeviceId
member_ids i = collect_set (map (λ m. m.member_id) i.members)

abbrev pub endpoint_ids : UnderlayDomainIntent → BTreeSet Text
endpoint_ids i = collect_set (map (λ e. e.endpoint_id) i.endpoints)

-- Every object is on a member, and every member on an endpoint.
pub record IsLinked (i : UnderlayDomainIntent) : Type 0 where
  pub members : All (λ m. contains m.management_endpoint_id (endpoint_ids i) ≡ true) i.members
  pub objects : OnMembers (member_ids i) i

All-map {ℓ κ ι} :
    {A : Type ℓ} {B : Type κ} (P : B → Type ι) (f : A → B) (l : List A)
    → All P (map f l)
    → All (λ a. P (f a)) l
All-map P f [] h = tt
All-map P f (a ∷ l) h = (h.0, All-map P f l h.1)

module _ (ids : BTreeSet DeviceId) where
  interfaces_known :
      (vlans : BTreeSet ℕ) (context label : Text) (l : List InterfaceIntent)
      → validate_interfaces (map (λ f. ((f.device_id, f.name), f.mode)) l) ids vlans context label
        ≡ ok tt
      → All (λ f. contains f.device_id ids ≡ true) l
  unfolding validate_interfaces
  interfaces_known vlans context label l h =
      All-map (λ x. contains x.0.0 ids ≡ true) _ l
        (try_seen-All _ _ (interface_member ids context vlans label) [] _ h)

  interface_deletes_known :
      (upserts : List InterfaceKey) (context : Text) (l : List InterfaceDeleteIntent)
      → validate_interface_deletes (map (λ f. (f.device_id, f.name)) l) upserts ids context ≡ ok tt
      → All (λ f. contains f.device_id ids ≡ true) l
  unfolding validate_interface_deletes
  interface_deletes_known upserts context l h =
      All-map (λ x. contains x.0 ids ≡ true) _ l
        (try_seen-All _ _ (interface_delete_member ids context (collect_set upserts)) [] _ h)

  bindings_known :
      (acls : BTreeSet ℕ) (context : Text) (l : List AclBindingIntent)
      → validate_acl_bindings l ids acls context ≡ ok tt
      → All (λ f. contains f.device_id ids ≡ true) l
  unfolding validate_acl_bindings
  bindings_known acls context l h = try_seen-All _ _ (binding_member ids context acls) [] l h

  binding_deletes_known :
      (upserts : List AclBindingIntent) (context : Text) (l : List AclBindingIntent)
      → validate_acl_binding_deletes l upserts ids context ≡ ok tt
      → All (λ f. contains f.device_id ids ≡ true) l
  unfolding validate_acl_binding_deletes
  binding_deletes_known upserts context l h =
      try_seen-All _ _ (binding_delete_member ids context _) [] l h

  processes_known :
      (l : List BgpProcessIntent) (deletes : List BgpProcessDeleteIntent) (context : Text)
      → validate_bgp_processes l deletes ids context ≡ ok tt
      → All (λ f. contains f.device_id ids ≡ true) l
        × All (λ f. contains f.device_id ids ≡ true) deletes
  unfolding validate_bgp_processes
  processes_known l deletes context h =
      let (u, a, b) = >>=-eq-ok (try_fold (validate_bgp_process ids context) [] l) _ h in
      (
        try_fold-All _ _ (process_member ids context) [] l a,
        try_seen-All _ _ (process_delete_member ids context u) [] deletes b,
      )

  neighbors_known :
      (l : List BgpNeighborIntent) (deletes : List BgpNeighborDeleteIntent)
      (gone : List BgpProcessDeleteIntent) (context : Text)
      → validate_bgp_neighbors l deletes gone ids context ≡ ok tt
      → All (λ f. contains f.device_id ids ≡ true) l
        × All (λ f. contains f.device_id ids ≡ true) deletes
  unfolding validate_bgp_neighbors
  neighbors_known l deletes gone context h =
      let (u, a, b) =
        >>=-eq-ok
          (try_fold (validate_bgp_neighbor (collect_set (map deleted_key gone)) ids context) [] l) _
          h in
      (
        try_fold-All _ _ (neighbor_member ids context _) [] l a,
        try_seen-All _ _ (neighbor_delete_member ids context u) [] deletes b,
      )

validate_objects-OnMembers :
    (i : UnderlayDomainIntent) (ids : BTreeSet DeviceId)
    → validate_objects i ids ≡ ok tt
    → OnMembers ids i
validate_objects-OnMembers i ids h =
    let p = validate_objects-Passed i ids h in
    record {
      interfaces = interfaces_known ids _ _ _ i.interfaces p.interfaces;
      delete_interfaces = interface_deletes_known ids _ _ i.delete_interfaces p.delete_interfaces;
      acl_bindings = bindings_known ids _ _ i.acl_bindings p.acl_bindings;
      delete_acl_bindings =
          binding_deletes_known ids i.acl_bindings _ i.delete_acl_bindings p.delete_acl_bindings;
      bgp_processes = (processes_known ids _ _ _ p.bgp_processes).0;
      bgp_neighbors = (neighbors_known ids _ _ i.delete_bgp_processes _ p.bgp_neighbors).0;
      delete_bgp_processes = (processes_known ids _ _ _ p.bgp_processes).1;
      delete_bgp_neighbors = (neighbors_known ids _ _ i.delete_bgp_processes _ p.bgp_neighbors).1;
    }

-- A validated intent is linked: each of its objects is on a declared member, and each member is on a
-- declared management endpoint.
pub validate_underlay_domain_intent-IsLinked :
    (i : UnderlayDomainIntent) → validate_underlay_domain_intent i ≡ ok tt → IsLinked i
unfolding collect
validate_underlay_domain_intent-IsLinked i h =
    let (endpoints, e, members, m, o) = validate_underlay_domain_intent-Passed i h in
    let es = try_fold-extend validate_endpoint (λ x. x.endpoint_id) endpoint_key [] i.endpoints e in
    let ms =
      try_fold-extend (validate_member endpoints) (λ x. x.member_id) (member_key endpoints) []
        i.members m in
    record {
      members =
          subst (λ ids. All (λ x. contains x.management_endpoint_id ids ≡ true) i.members) es
            (try_fold-All _ _ (member_endpoint endpoints) [] i.members m);
      objects = subst (λ ids. OnMembers ids i) ms (validate_objects-OnMembers i members o);
    }

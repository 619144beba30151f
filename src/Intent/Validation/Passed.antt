-- ===== src/Intent/Validation/Passed.antt =====
-- The checks that a validated intent has passed, one by one.
use aria_underlay.Base.{Text, text, [], map, ◌≡◌, arith, text_ord, ℕ_ord, inl, inr}
use aria_underlay.Base.BTree.{BTreeSet}
use aria_underlay.Base.Errors.{ok, Result-cases}
use aria_underlay.Base.Loops.{try_fold, try_each}
use aria_underlay.Model.{DeviceId}
use aria_underlay.Intent.{UnderlayDomainIntent}
use aria_underlay.Intent.Checks.{validate_vlans, validate_acl_ids, refuse_declared}
use aria_underlay.Intent.Objects.{validate_interfaces, validate_interface_deletes}
use aria_underlay.Intent.Acls.{validate_acls}
use aria_underlay.Intent.Bindings.{validate_acl_bindings, validate_acl_binding_deletes}
use aria_underlay.Intent.Bgp.{validate_bgp_processes, validate_bgp_neighbors}
use aria_underlay.Intent.Validation.{
  acl_config, declared_vlans, declared_acls, domain, validate_objects, validate_endpoint,
  validate_member, validate_underlay_domain_intent,
}

pub record Passed (i : UnderlayDomainIntent) (ids : BTreeSet DeviceId) : Type 0 where
  pub vlans : validate_vlans (map (λ v. v.vlan_id) i.vlans) domain ≡ ok tt
  pub delete_vlans : validate_vlans i.delete_vlan_ids (text "underlay domain delete") ≡ ok tt
  pub vlans_apart :
      try_each
        (refuse_declared
          (declared_vlans i)
          "underlay domain cannot upsert and delete VLAN {} in the same request")
        i.delete_vlan_ids
      ≡ ok tt
  pub interfaces :
      validate_interfaces
        (map (λ f. ((f.device_id, f.name), f.mode)) i.interfaces)
        ids
        (declared_vlans i)
        domain
        (text "switch member")
      ≡ ok tt
  pub delete_interfaces :
      validate_interface_deletes
        (map (λ f. (f.device_id, f.name)) i.delete_interfaces)
        (map (λ f. (f.device_id, f.name)) i.interfaces)
        ids
        domain
      ≡ ok tt
  pub acls : validate_acls (map acl_config i.acls) domain ≡ ok tt
  pub delete_acls : validate_acl_ids i.delete_acl_ids (text "underlay domain delete") ≡ ok tt
  pub acls_apart :
      try_each
        (refuse_declared
          (declared_acls i)
          "underlay domain cannot upsert and delete ACL {} in the same request")
        i.delete_acl_ids
      ≡ ok tt
  pub acl_bindings : validate_acl_bindings i.acl_bindings ids (declared_acls i) domain ≡ ok tt
  pub delete_acl_bindings :
      validate_acl_binding_deletes i.delete_acl_bindings i.acl_bindings ids domain ≡ ok tt
  pub bgp_processes :
      validate_bgp_processes i.bgp_processes i.delete_bgp_processes ids domain ≡ ok tt
  pub bgp_neighbors :
      validate_bgp_neighbors i.bgp_neighbors i.delete_bgp_neighbors i.delete_bgp_processes ids
        domain
      ≡ ok tt

pub validate_objects-Passed :
    (i : UnderlayDomainIntent) (ids : BTreeSet DeviceId)
    → validate_objects i ids ≡ ok tt
    → Passed i ids
unfolding validate_objects
validate_objects-Passed i ids h = record {
  vlans = ground arith;
  delete_vlans = ground arith;
  vlans_apart = ground arith;
  interfaces = ground arith;
  delete_interfaces = ground arith;
  acls = ground arith;
  delete_acls = ground arith;
  acls_apart = ground arith;
  acl_bindings = ground arith;
  delete_acl_bindings = ground arith;
  bgp_processes = ground arith;
  bgp_neighbors = ground arith;
}

-- The two sets that the loops over endpoints and members build, and the checks against them.
pub validate_underlay_domain_intent-Passed :
    (i : UnderlayDomainIntent)
    → validate_underlay_domain_intent i ≡ ok tt
    → (endpoints : BTreeSet Text) × (try_fold validate_endpoint [] i.endpoints ≡ ok endpoints)
      × (members : BTreeSet DeviceId) × (try_fold (validate_member endpoints) [] i.members
          ≡ ok members)
      × (validate_objects i members ≡ ok tt)
unfolding validate_underlay_domain_intent
validate_underlay_domain_intent-Passed i h =
    elim (Result-cases (try_fold validate_endpoint [] i.endpoints)) [
      | inl (e, a) ↦ ground arith
      | inr (endpoints, a) ↦
          elim (Result-cases (try_fold (validate_member endpoints) [] i.members)) [
            | inl (e, b) ↦ ground arith
            | inr (members, b) ↦ (endpoints, a, members, b, ground arith)
          ]
    ]

-- ===== src/Intent/Validation.antt =====
-- intent/validation.rs: the validation of whole intents.
use aria_underlay.Base.{
  is_nil, ℕ, Text, List, [], ◌∷◌, Bool, true, false, not, map, ◌==◌, text, trim, is_empty, text_ord,
  ℕ_ord, pair_ord,
}
use aria_underlay.Base.BTree.{BTreeSet, contains, collect_set}
use aria_underlay.Base.Errors.{UnderlayResult, ok, str, fail_if, invalid, ◌>>◌, ◌>>=◌}
use aria_underlay.Base.Loops.{try_fold, try_each, insert_new}
use aria_underlay.Model.{DeviceId, AclConfig}
use aria_underlay.Intent.{
  UnderlayDomainIntent, ManagementEndpointIntent, SwitchMemberIntent, AclIntent, SwitchPairIntent,
  SwitchIntent,
}
use aria_underlay.Intent.Checks.{
  validate_non_empty, validate_topology_shape, validate_identifier, validate_device_id,
  validate_vlans, validate_acl_ids, refuse_declared,
}
use aria_underlay.Intent.Objects.{validate_interfaces, validate_interface_deletes}
use aria_underlay.Intent.Acls.{validate_acls}
use aria_underlay.Intent.Bindings.{validate_acl_bindings, validate_acl_binding_deletes}
use aria_underlay.Intent.Bgp.{validate_bgp_processes, validate_bgp_neighbors}
pub mod Passed
pub mod Turns
pub mod Members

-- The body of the loop over the management endpoints.
unfoldable pub validate_endpoint :
    BTreeSet Text → ManagementEndpointIntent → UnderlayResult (BTreeSet Text)
validate_endpoint endpoint_ids e = do
  validate_identifier (text "management endpoint endpoint_id") e.endpoint_id
  validate_non_empty (text "management endpoint host") e.host
  validate_non_empty (text "management endpoint secret_ref") e.secret_ref
  fail_if (e.port == 0)
      (invalid "management endpoint {} has invalid port 0" (str e.endpoint_id ∷ []))
  insert_new e.endpoint_id endpoint_ids
      (invalid "duplicate management endpoint {}" (str e.endpoint_id ∷ []))

-- The body of the loop over the members.
unfoldable pub validate_member :
    BTreeSet Text → BTreeSet DeviceId → SwitchMemberIntent → UnderlayResult (BTreeSet DeviceId)
validate_member endpoint_ids member_ids m = do
  validate_identifier (text "switch member member_id") m.member_id
  validate_identifier (text "switch member management_endpoint_id") m.management_endpoint_id
  now_seen ←
      insert_new m.member_id member_ids
        (invalid "duplicate switch member {}" (str m.member_id ∷ []))
  fail_if (not (contains m.management_endpoint_id endpoint_ids)) (
      invalid "switch member {} references unknown management endpoint {}"
        (str m.member_id ∷ str m.management_endpoint_id ∷ []))
  ok now_seen

abbrev pub acl_config : AclIntent → AclConfig
acl_config a = record {
  acl_id = a.acl_id;
  kind = a.kind;
  name = a.name;
  description = a.description;
  rules = a.rules;
}

abbrev pub declared_vlans : UnderlayDomainIntent → BTreeSet ℕ
declared_vlans i = collect_set (map (λ v. v.vlan_id) i.vlans)

abbrev pub declared_acls : UnderlayDomainIntent → BTreeSet ℕ
declared_acls i = collect_set (map (λ a. a.acl_id) i.acls)

abbrev pub domain : Text
domain = text "underlay domain"

-- What follows the two loops over endpoints and members.
unfoldable pub validate_objects :
    UnderlayDomainIntent → BTreeSet DeviceId → UnderlayResult (Unit {0})
validate_objects i member_ids = do
  validate_vlans (map (λ v. v.vlan_id) i.vlans) domain
  validate_vlans i.delete_vlan_ids (text "underlay domain delete")
  try_each
      (refuse_declared (declared_vlans i)
        "underlay domain cannot upsert and delete VLAN {} in the same request")
      i.delete_vlan_ids
  validate_interfaces (map (λ f. ((f.device_id, f.name), f.mode)) i.interfaces) member_ids
      (declared_vlans i) domain (text "switch member")
  validate_interface_deletes (map (λ f. (f.device_id, f.name)) i.delete_interfaces)
      (map (λ f. (f.device_id, f.name)) i.interfaces) member_ids domain
  validate_acls (map acl_config i.acls) domain
  validate_acl_ids i.delete_acl_ids (text "underlay domain delete")
  try_each
      (refuse_declared (declared_acls i)
        "underlay domain cannot upsert and delete ACL {} in the same request")
      i.delete_acl_ids
  validate_acl_bindings i.acl_bindings member_ids (declared_acls i) domain
  validate_acl_binding_deletes i.delete_acl_bindings i.acl_bindings member_ids domain
  validate_bgp_processes i.bgp_processes i.delete_bgp_processes member_ids domain
  validate_bgp_neighbors i.bgp_neighbors i.delete_bgp_neighbors i.delete_bgp_processes member_ids
      domain

unfoldable pub validate_underlay_domain_intent : UnderlayDomainIntent → UnderlayResult (Unit {0})
validate_underlay_domain_intent i = do
  validate_non_empty (text "underlay domain_id") i.domain_id
  fail_if (is_nil i.endpoints) (invalid "underlay domain has no management endpoints" [])
  fail_if (is_nil i.members) (invalid "underlay domain has no switch members" [])
  validate_topology_shape i
  endpoint_ids ← try_fold validate_endpoint [] i.endpoints
  member_ids ← try_fold (validate_member endpoint_ids) [] i.members
  validate_objects i member_ids

-- The body of the loop over the switches of a pair.
unfoldable pub validate_switch :
    BTreeSet DeviceId → SwitchIntent → UnderlayResult (BTreeSet DeviceId)
validate_switch switch_ids s = do
  validate_device_id (text "switch device_id") s.device_id
  insert_new s.device_id switch_ids (invalid "duplicate switch device_id {}" (str s.device_id ∷ []))

unfoldable pub validate_switch_pair_intent : SwitchPairIntent → UnderlayResult (Unit {0})
validate_switch_pair_intent i = do
  fail_if (is_empty (trim i.pair_id)) (invalid "switch pair intent has empty pair_id" [])
  fail_if (is_nil i.switches) (invalid "intent has no switches" [])
  switch_ids ← try_fold validate_switch [] i.switches
  validate_vlans (map (λ v. v.vlan_id) i.vlans) (text "switch pair")
  validate_interfaces (map (λ f. ((f.device_id, f.name), f.mode)) i.interfaces) switch_ids
      (collect_set (map (λ v. v.vlan_id) i.vlans)) (text "switch pair") (text "switch")

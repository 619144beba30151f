-- ===== src/Engine/Normalize.antt =====
-- engine/normalize.rs: the canonical form of every configuration object and of whole states.
pub mod Sort
pub mod Names
pub mod Rekey
pub mod Idempotent
pub mod Desired
pub mod Shadow
use aria_underlay.Base.{
  ℕ, Text, List, [], ◌∷◌, Option, none, some, map, not, is_empty, trim, ℕ_ord, text_ord,
}
use aria_underlay.Base.BTree.{BTreeMap, keys, collect_set}
use aria_underlay.Model.{
  VlanConfig, InterfaceConfig, PortMode, access, trunk, AclRule, AclConfig, AclBinding, BgpProcess,
  BgpNeighbor, binding_key, neighbor_key,
}
use aria_underlay.Planner.DevicePlan.{DeviceDesiredState}
use aria_underlay.State.Shadow.{DeviceShadowState}
use Sort.{sort_by_key, dedup}
use Names.{canonical_interface_name}
use Rekey.{rekey}

-- `if x.as_deref() == Some("") { x = None }`.
unfoldable pub non_empty : Option Text → Option Text
non_empty none = none
non_empty (some []) = none
non_empty (some (c ∷ s)) = some (c ∷ s)

unfoldable pub normalize_vlan : VlanConfig → VlanConfig
normalize_vlan v = record v { name = non_empty v.name; description = non_empty v.description }

unfoldable pub normalize_mode : PortMode → PortMode
normalize_mode (access vlan_id) = access vlan_id
normalize_mode (trunk native_vlan allowed_vlans) =
    trunk native_vlan (dedup (sort_by_key (λ v. v) allowed_vlans))

unfoldable pub normalize_interface : InterfaceConfig → InterfaceConfig
unfolding normalize_mode
normalize_interface i = record i {
  name = canonical_interface_name i.name;
  description = non_empty i.description;
  mode = normalize_mode i.mode;
}

unfoldable pub normalize_rule : AclRule → AclRule
normalize_rule r = record r { description = non_empty r.description }

unfoldable pub normalize_acl : AclConfig → AclConfig
unfolding normalize_rule
normalize_acl a = record a {
  name = non_empty a.name;
  description = non_empty a.description;
  rules = sort_by_key (λ r. r.sequence) (map normalize_rule a.rules);
}

unfoldable pub normalize_binding : AclBinding → AclBinding
normalize_binding b = record b { interface_name = canonical_interface_name b.interface_name }

unfoldable pub normalize_process : BgpProcess → BgpProcess
normalize_process p = record p { vrf = trim p.vrf; router_id = non_empty p.router_id }

unfoldable pub normalize_neighbor : BgpNeighbor → BgpNeighbor
normalize_neighbor n = record n {
  vrf = trim n.vrf;
  address = trim n.address;
  description = non_empty n.description;
  import_policy = non_empty n.import_policy;
  export_policy = non_empty n.export_policy;
}

keep_non_empty : List Text → List Text
keep_non_empty [] = []
keep_non_empty ([] ∷ r) = keep_non_empty r
keep_non_empty ((c ∷ s) ∷ r) = (c ∷ s) ∷ keep_non_empty r

unfoldable pub normalize_desired_state : DeviceDesiredState → DeviceDesiredState
unfolding keep_non_empty
normalize_desired_state s = record s {
  vlans = rekey normalize_vlan (λ v. v.vlan_id) s.vlans;
  interfaces = rekey normalize_interface (λ i. i.name) s.interfaces;
  delete_interface_names =
      collect_set (map canonical_interface_name (keys s.delete_interface_names));
  acls = rekey normalize_acl (λ a. a.acl_id) s.acls;
  acl_bindings = rekey normalize_binding binding_key s.acl_bindings;
  delete_acl_bindings = rekey normalize_binding binding_key s.delete_acl_bindings;
  route_policy_refs = collect_set (keep_non_empty (map trim (keys s.route_policy_refs)));
  bgp_processes = rekey normalize_process (λ p. p.vrf) s.bgp_processes;
  bgp_neighbors = rekey normalize_neighbor neighbor_key s.bgp_neighbors;
  delete_bgp_process_vrfs = collect_set (map trim (keys s.delete_bgp_process_vrfs));
  delete_bgp_neighbors = rekey normalize_neighbor neighbor_key s.delete_bgp_neighbors;
}

unfoldable pub normalize_shadow_state : DeviceShadowState → DeviceShadowState
normalize_shadow_state s = record s {
  vlans = rekey normalize_vlan (λ v. v.vlan_id) s.vlans;
  interfaces = rekey normalize_interface (λ i. i.name) s.interfaces;
  acls = rekey normalize_acl (λ a. a.acl_id) s.acls;
  acl_bindings = rekey normalize_binding binding_key s.acl_bindings;
  bgp_processes = rekey normalize_process (λ p. p.vrf) s.bgp_processes;
  bgp_neighbors = rekey normalize_neighbor neighbor_key s.bgp_neighbors;
}

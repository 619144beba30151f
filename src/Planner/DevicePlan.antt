-- ===== src/Planner/DevicePlan.antt =====
-- planner/device_plan.rs: what a device is asked to become.
use aria_underlay.Base.{ℕ, Text, List, [], map, filter, ℕ_ord, text_ord}
use aria_underlay.Base.BTree.{BTreeMap, BTreeSet, collect, same}
use aria_underlay.Model.{
  DeviceId, VlanConfig, InterfaceConfig, AclConfig, AclBinding, BgpProcess, BgpNeighbor,
}
use aria_underlay.Intent.{VlanIntent, InterfaceIntent, SwitchPairIntent, SwitchIntent}

pub record DeviceDesiredState : Type 0 where
  pub device_id : DeviceId
  pub vlans : BTreeMap ℕ VlanConfig
  pub interfaces : BTreeMap Text InterfaceConfig
  pub acls : BTreeMap ℕ AclConfig
  pub acl_bindings : BTreeMap Text AclBinding
  pub route_policy_refs : BTreeSet Text
  pub bgp_processes : BTreeMap Text BgpProcess
  pub bgp_neighbors : BTreeMap Text BgpNeighbor
  pub delete_vlan_ids : BTreeSet ℕ
  pub delete_interface_names : BTreeSet Text
  pub delete_acl_ids : BTreeSet ℕ
  pub delete_acl_bindings : BTreeMap Text AclBinding
  pub delete_bgp_process_vrfs : BTreeSet Text
  pub delete_bgp_neighbors : BTreeMap Text BgpNeighbor

abbrev pub vlan_config : VlanIntent → VlanConfig
vlan_config v = record { vlan_id = v.vlan_id; name = v.name; description = v.description }

abbrev pub interface_config : InterfaceIntent → InterfaceConfig
interface_config i = record {
  name = i.name;
  admin_state = i.admin_state;
  description = i.description;
  mode = i.mode;
}

unfoldable pub plan_switch : SwitchPairIntent → SwitchIntent → DeviceDesiredState
plan_switch intent switch = record {
  device_id = switch.device_id;
  vlans = collect (map (λ v. (v.vlan_id, vlan_config v)) intent.vlans);
  interfaces = collect (
      map (λ i. (i.name, interface_config i))
        (filter (λ i. same i.device_id switch.device_id) intent.interfaces));
  acls = [];
  acl_bindings = [];
  route_policy_refs = [];
  bgp_processes = [];
  bgp_neighbors = [];
  delete_vlan_ids = [];
  delete_interface_names = [];
  delete_acl_ids = [];
  delete_acl_bindings = [];
  delete_bgp_process_vrfs = [];
  delete_bgp_neighbors = [];
}

unfoldable pub plan_switch_pair : SwitchPairIntent → List DeviceDesiredState
plan_switch_pair intent = map (plan_switch intent) intent.switches

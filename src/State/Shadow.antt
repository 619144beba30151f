-- ===== src/State/Shadow.antt =====
-- state/shadow.rs: the last known state of a device.
use aria_underlay.Base.{ℕ, Text, List, []}
use aria_underlay.Base.BTree.{BTreeMap}
use aria_underlay.Model.{
  DeviceId, VlanConfig, InterfaceConfig, AclConfig, AclBinding, BgpProcess, BgpNeighbor,
}
use aria_underlay.Planner.DevicePlan.{DeviceDesiredState}

pub record DeviceShadowState : Type 0 where
  pub device_id : DeviceId
  pub revision : ℕ  -- u64
  pub vlans : BTreeMap ℕ VlanConfig
  pub interfaces : BTreeMap Text InterfaceConfig
  pub acls : BTreeMap ℕ AclConfig
  pub acl_bindings : BTreeMap Text AclBinding
  pub bgp_processes : BTreeMap Text BgpProcess
  pub bgp_neighbors : BTreeMap Text BgpNeighbor
  pub warnings : List Text

pub from_desired : DeviceDesiredState → ℕ → DeviceShadowState
from_desired d revision = record {
  device_id = d.device_id;
  revision = revision;
  vlans = d.vlans;
  interfaces = d.interfaces;
  acls = d.acls;
  acl_bindings = d.acl_bindings;
  bgp_processes = d.bgp_processes;
  bgp_neighbors = d.bgp_neighbors;
  warnings = [];
}

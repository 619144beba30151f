-- ===== src/Intent.antt =====
-- intent/: what a caller asks for, of a domain of switches or of a pair.
use aria_underlay.Base.{ℕ, Text, Option, List}
use aria_underlay.Model.{
  DeviceId, Vendor, DeviceRole, AclKind, AclRule, AclDirection, AdminState, PortMode,
}
pub mod Ipv4
pub mod Checks
pub mod Vlans
mod Tests
pub mod Objects
pub mod Acls
pub mod Bindings
pub mod Bgp
pub mod Validation

pub record VlanIntent : Type 0 where
  pub vlan_id : ℕ  -- u16
  pub name : Option Text
  pub description : Option Text

pub record InterfaceIntent : Type 0 where
  pub device_id : DeviceId
  pub name : Text
  pub admin_state : AdminState
  pub description : Option Text
  pub mode : PortMode

pub record InterfaceDeleteIntent : Type 0 where
  pub device_id : DeviceId
  pub name : Text

pub record AclIntent : Type 0 where
  pub acl_id : ℕ  -- u16
  pub kind : AclKind
  pub name : Option Text
  pub description : Option Text
  pub rules : List AclRule

pub record AclBindingIntent : Type 0 where
  pub device_id : DeviceId
  pub interface_name : Text
  pub direction : AclDirection
  pub acl_id : ℕ  -- u16

pub record BgpProcessIntent : Type 0 where
  pub device_id : DeviceId
  pub vrf : Text
  pub local_as : ℕ  -- u32
  pub router_id : Option Text

pub record BgpNeighborIntent : Type 0 where
  pub device_id : DeviceId
  pub vrf : Text
  pub address : Text
  pub remote_as : ℕ  -- u32
  pub description : Option Text
  pub import_policy : Option Text
  pub export_policy : Option Text

pub record BgpProcessDeleteIntent : Type 0 where
  pub device_id : DeviceId
  pub vrf : Text

pub record BgpNeighborDeleteIntent : Type 0 where
  pub device_id : DeviceId
  pub vrf : Text
  pub address : Text

pub data UnderlayTopology : Type 0 where
  stack_single_management_ip mlag_dual_management_ip small_fabric : UnderlayTopology

pub record ManagementEndpointIntent : Type 0 where
  pub endpoint_id : Text
  pub host : Text
  pub port : ℕ  -- u16
  pub secret_ref : Text
  pub vendor_hint : Option Vendor
  pub model_hint : Option Text

pub record SwitchMemberIntent : Type 0 where
  pub member_id : Text
  pub role : Option DeviceRole
  pub management_endpoint_id : Text

pub record UnderlayDomainIntent : Type 0 where
  pub domain_id : Text
  pub topology : UnderlayTopology
  pub endpoints : List ManagementEndpointIntent
  pub members : List SwitchMemberIntent
  pub vlans : List VlanIntent
  pub interfaces : List InterfaceIntent
  pub acls : List AclIntent
  pub acl_bindings : List AclBindingIntent
  pub delete_vlan_ids : List ℕ
  pub delete_interfaces : List InterfaceDeleteIntent
  pub delete_acl_ids : List ℕ
  pub delete_acl_bindings : List AclBindingIntent
  pub bgp_processes : List BgpProcessIntent
  pub bgp_neighbors : List BgpNeighborIntent
  pub delete_bgp_processes : List BgpProcessDeleteIntent
  pub delete_bgp_neighbors : List BgpNeighborDeleteIntent

pub record SwitchIntent : Type 0 where
  pub device_id : DeviceId
  pub role : DeviceRole

pub record SwitchPairIntent : Type 0 where
  pub pair_id : Text
  pub switches : List SwitchIntent
  pub vlans : List VlanIntent
  pub interfaces : List InterfaceIntent

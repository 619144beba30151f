-- ===== src/Intent/Validation/Turns.antt =====
-- What one turn of each loop of the validation has checked.
use aria_underlay.Base.{ℕ, Text, true, ◌≡◌, arith, text_ord, pair_ord, ℕ_ord}
use aria_underlay.Base.BTree.{BTreeSet, contains, insert_key}
use aria_underlay.Base.Errors.{ok}
use aria_underlay.Model.{DeviceId, PortMode}
use aria_underlay.Intent.{
  SwitchMemberIntent, ManagementEndpointIntent, AclBindingIntent, BgpProcessIntent,
  BgpProcessDeleteIntent, BgpNeighborIntent, BgpNeighborDeleteIntent,
}
use aria_underlay.Intent.Checks.{ensure_known_member}
use aria_underlay.Intent.Objects.{InterfaceKey, validate_interface, validate_interface_delete}
use aria_underlay.Intent.Bindings.{BindingKey, validate_acl_binding, validate_acl_binding_delete}
use aria_underlay.Intent.Bgp.{
  ProcessKey, NeighborKey, validate_bgp_process, validate_bgp_process_delete, validate_bgp_neighbor,
  validate_bgp_neighbor_delete,
}
use aria_underlay.Intent.Validation.{validate_endpoint, validate_member}

-- One turn of each loop has found the device among the members.
module _ (ids : BTreeSet DeviceId) (context : Text) where
  pub interface_member :
      (vlans : BTreeSet ℕ) (label : Text) (seen : BTreeSet InterfaceKey)
      (x : InterfaceKey × PortMode) (t : BTreeSet InterfaceKey)
      → validate_interface ids vlans context label seen x ≡ ok t
      → contains x.0.0 ids ≡ true
  unfolding validate_interface
  interface_member vlans label seen x t h = ground arith

  pub interface_delete_member :
      (keys seen : BTreeSet InterfaceKey) (x : InterfaceKey) (t : BTreeSet InterfaceKey)
      → validate_interface_delete keys ids context seen x ≡ ok t
      → contains x.0 ids ≡ true
  unfolding validate_interface_delete
  interface_delete_member keys seen x t h = ground arith

  pub binding_member :
      (acls : BTreeSet ℕ) (seen : BTreeSet BindingKey) (x : AclBindingIntent)
      (t : BTreeSet BindingKey)
      → validate_acl_binding ids acls context seen x ≡ ok t
      → contains x.device_id ids ≡ true
  unfolding validate_acl_binding
  binding_member acls seen x t h = ground arith

  pub binding_delete_member :
      (keys seen : BTreeSet BindingKey) (x : AclBindingIntent) (t : BTreeSet BindingKey)
      → validate_acl_binding_delete keys ids context seen x ≡ ok t
      → contains x.device_id ids ≡ true
  unfolding validate_acl_binding_delete
  binding_delete_member keys seen x t h = ground arith

  pub process_member :
      (seen : BTreeSet ProcessKey) (x : BgpProcessIntent) (t : BTreeSet ProcessKey)
      → validate_bgp_process ids context seen x ≡ ok t
      → contains x.device_id ids ≡ true
  unfolding validate_bgp_process ensure_known_member
  process_member seen x t h = ground arith

  pub process_delete_member :
      (keys seen : BTreeSet ProcessKey) (x : BgpProcessDeleteIntent) (t : BTreeSet ProcessKey)
      → validate_bgp_process_delete keys ids context seen x ≡ ok t
      → contains x.device_id ids ≡ true
  unfolding validate_bgp_process_delete ensure_known_member
  process_delete_member keys seen x t h = ground arith

  pub neighbor_member :
      (deleted : BTreeSet ProcessKey) (seen : BTreeSet NeighborKey) (x : BgpNeighborIntent)
      (t : BTreeSet NeighborKey)
      → validate_bgp_neighbor deleted ids context seen x ≡ ok t
      → contains x.device_id ids ≡ true
  unfolding validate_bgp_neighbor ensure_known_member
  neighbor_member deleted seen x t h = ground arith

  pub neighbor_delete_member :
      (keys seen : BTreeSet NeighborKey) (x : BgpNeighborDeleteIntent) (t : BTreeSet NeighborKey)
      → validate_bgp_neighbor_delete keys ids context seen x ≡ ok t
      → contains x.device_id ids ≡ true
  unfolding validate_bgp_neighbor_delete ensure_known_member
  neighbor_delete_member keys seen x t h = ground arith

pub member_endpoint :
    (ids : BTreeSet Text) (seen : BTreeSet DeviceId) (x : SwitchMemberIntent)
    (t : BTreeSet DeviceId)
    → validate_member ids seen x ≡ ok t
    → contains x.management_endpoint_id ids ≡ true
unfolding validate_member
member_endpoint ids seen x t h = ground arith

pub member_key :
    (ids : BTreeSet Text) (seen : BTreeSet DeviceId) (x : SwitchMemberIntent)
    (t : BTreeSet DeviceId)
    → validate_member ids seen x ≡ ok t
    → t ≡ insert_key x.member_id seen
unfolding validate_member
member_key ids seen x t h = ground arith

pub endpoint_key :
    (seen : BTreeSet Text) (x : ManagementEndpointIntent) (t : BTreeSet Text)
    → validate_endpoint seen x ≡ ok t
    → t ≡ insert_key x.endpoint_id seen
unfolding validate_endpoint
endpoint_key seen x t h = ground arith

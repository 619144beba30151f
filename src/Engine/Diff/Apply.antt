-- ===== src/Engine/Diff/Apply.antt =====
-- engine/diff.rs: `ChangeSet::apply_to_shadow`, the state after a change set has been carried out.
use aria_underlay.Base.{ℕ, List, [], ◌∷◌, Option, none, some, not, ℕ_ord, text_ord}
use aria_underlay.Base.BTree.{insert, remove, retain, same}
use aria_underlay.Model.{acl_binding_key, binding_key, bgp_neighbor_key, neighbor_key}
use aria_underlay.Planner.DevicePlan.{DeviceDesiredState}
use aria_underlay.State.Shadow.{DeviceShadowState}
use aria_underlay.Engine.Diff.{
  ChangeOp, create_vlan, update_vlan, delete_vlan, update_interface, delete_interface_config,
  create_acl, update_acl, delete_acl, create_acl_binding, update_acl_binding, delete_acl_binding,
  create_bgp_process, update_bgp_process, delete_bgp_process, create_bgp_neighbor,
  update_bgp_neighbor, delete_bgp_neighbor, ChangeSet,
}

unfoldable pub apply_op : ChangeOp → DeviceShadowState → DeviceShadowState
apply_op (create_vlan v) s = record s { vlans = insert v.vlan_id v s.vlans }
apply_op (update_vlan before v) s = record s { vlans = insert v.vlan_id v s.vlans }
apply_op (delete_vlan vlan_id) s = record s { vlans = remove vlan_id s.vlans }
apply_op (update_interface before i) s = record s { interfaces = insert i.name i s.interfaces }
apply_op (delete_interface_config name) s = record s { interfaces = remove name s.interfaces }
apply_op (create_acl a) s = record s { acls = insert a.acl_id a s.acls }
apply_op (update_acl before a) s = record s { acls = insert a.acl_id a s.acls }
apply_op (delete_acl acl_id) s = record s {
  acls = remove acl_id s.acls;
  acl_bindings = retain (λ _ b. not (same b.acl_id acl_id)) s.acl_bindings;
}
apply_op (create_acl_binding b) s = record s {
  acl_bindings = insert (binding_key b) b s.acl_bindings;
}
apply_op (update_acl_binding before b) s = record s {
  acl_bindings = insert (binding_key b) b s.acl_bindings;
}
apply_op (delete_acl_binding interface_name direction acl_id) s = record s {
  acl_bindings = remove (acl_binding_key interface_name direction) s.acl_bindings;
}
apply_op (create_bgp_process p) s = record s { bgp_processes = insert p.vrf p s.bgp_processes }
apply_op (update_bgp_process before p) s = record s {
  bgp_processes = insert p.vrf p s.bgp_processes;
}
apply_op (delete_bgp_process vrf) s = record s {
  bgp_processes = remove vrf s.bgp_processes;
  bgp_neighbors = retain (λ _ n. not (same n.vrf vrf)) s.bgp_neighbors;
}
apply_op (create_bgp_neighbor n) s = record s {
  bgp_neighbors = insert (neighbor_key n) n s.bgp_neighbors;
}
apply_op (update_bgp_neighbor before n) s = record s {
  bgp_neighbors = insert (neighbor_key n) n s.bgp_neighbors;
}
apply_op (delete_bgp_neighbor vrf address) s = record s {
  bgp_neighbors = remove (bgp_neighbor_key vrf address) s.bgp_neighbors;
}

unfoldable pub apply_ops : List ChangeOp → DeviceShadowState → DeviceShadowState
apply_ops [] s = s
apply_ops (op ∷ ops) s = apply_ops ops (apply_op op s)

-- `base.cloned().unwrap_or_else(..)`.
abbrev pub base_or_blank : Option DeviceShadowState → DeviceDesiredState → ℕ → DeviceShadowState
base_or_blank (some s) desired revision = s
base_or_blank none desired revision = record {
  device_id = desired.device_id;
  revision = revision;
  vlans = [];
  interfaces = [];
  acls = [];
  acl_bindings = [];
  bgp_processes = [];
  bgp_neighbors = [];
  warnings = [];
}

unfoldable pub apply_to_shadow :
    ChangeSet → Option DeviceShadowState → DeviceDesiredState → ℕ → DeviceShadowState
unfolding apply_ops
apply_to_shadow changes base desired revision =
    apply_ops changes.ops (record (base_or_blank base desired revision) {
      device_id = desired.device_id;
      revision = revision;
      warnings = [];
    })

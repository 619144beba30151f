-- ===== src/Engine/Diff/Actions.antt =====
-- What each operation of a change set does to one map of the state.
use aria_underlay.Base.{ℕ, Text, List, [], ◌∷◌, not, ◌≡◌, refl, ◌∙◌, ap, ℕ_ord, text_ord}
use aria_underlay.Base.BTree.{BTreeMap, insert, remove, retain, same}
use aria_underlay.Model.{
  VlanConfig, InterfaceConfig, AclConfig, AclBinding, BgpProcess, BgpNeighbor, acl_binding_key,
  binding_key, bgp_neighbor_key, neighbor_key,
}
use aria_underlay.State.Shadow.{DeviceShadowState}
use aria_underlay.Engine.Diff.{
  ChangeOp, create_vlan, update_vlan, delete_vlan, update_interface, delete_interface_config,
  create_acl, update_acl, delete_acl, create_acl_binding, update_acl_binding, delete_acl_binding,
  create_bgp_process, update_bgp_process, delete_bgp_process, create_bgp_neighbor,
  update_bgp_neighbor, delete_bgp_neighbor,
}
use aria_underlay.Engine.Diff.Apply.{apply_op, apply_ops}
use aria_underlay.Engine.Diff.Runs.{run}

abbrev pub vlan_action : ChangeOp → BTreeMap ℕ VlanConfig → BTreeMap ℕ VlanConfig
vlan_action (create_vlan v) m = insert v.vlan_id v m
vlan_action (update_vlan before v) m = insert v.vlan_id v m
vlan_action (delete_vlan vlan_id) m = remove vlan_id m
vlan_action _ m = m

abbrev pub interface_action :
    ChangeOp → BTreeMap Text InterfaceConfig → BTreeMap Text InterfaceConfig
interface_action (update_interface before i) m = insert i.name i m
interface_action (delete_interface_config name) m = remove name m
interface_action _ m = m

abbrev pub acl_action : ChangeOp → BTreeMap ℕ AclConfig → BTreeMap ℕ AclConfig
acl_action (create_acl a) m = insert a.acl_id a m
acl_action (update_acl before a) m = insert a.acl_id a m
acl_action (delete_acl acl_id) m = remove acl_id m
acl_action _ m = m

abbrev pub binding_action : ChangeOp → BTreeMap Text AclBinding → BTreeMap Text AclBinding
binding_action (create_acl_binding b) m = insert (binding_key b) b m
binding_action (update_acl_binding before b) m = insert (binding_key b) b m
binding_action (delete_acl_binding name direction acl_id) m =
    remove (acl_binding_key name direction) m
binding_action (delete_acl acl_id) m = retain (λ _ b. not (same b.acl_id acl_id)) m
binding_action _ m = m

abbrev pub process_action : ChangeOp → BTreeMap Text BgpProcess → BTreeMap Text BgpProcess
process_action (create_bgp_process p) m = insert p.vrf p m
process_action (update_bgp_process before p) m = insert p.vrf p m
process_action (delete_bgp_process vrf) m = remove vrf m
process_action _ m = m

abbrev pub neighbor_action : ChangeOp → BTreeMap Text BgpNeighbor → BTreeMap Text BgpNeighbor
neighbor_action (create_bgp_neighbor n) m = insert (neighbor_key n) n m
neighbor_action (update_bgp_neighbor before n) m = insert (neighbor_key n) n m
neighbor_action (delete_bgp_neighbor vrf address) m = remove (bgp_neighbor_key vrf address) m
neighbor_action (delete_bgp_process vrf) m = retain (λ _ n. not (same n.vrf vrf)) m
neighbor_action _ m = m

-- A map of the state after a list of operations is that map after its actions.
module _ {ℓ} {M : Type ℓ} (view : DeviceShadowState → M) (act : ChangeOp → M → M)
    (one : (op : ChangeOp) (s : DeviceShadowState) → view (apply_op op s) ≡ act op (view s)) where
  view-apply_ops :
      (ops : List ChangeOp) (s : DeviceShadowState) → view (apply_ops ops s) ≡ run act ops (view s)
  unfolding apply_ops run
  view-apply_ops [] s = refl
  view-apply_ops (op ∷ ops) s = view-apply_ops ops (apply_op op s) ∙ ap (run act ops) (one op s)

vlans-apply_op :
    (op : ChangeOp) (s : DeviceShadowState) → (apply_op op s).vlans ≡ vlan_action op s.vlans
unfolding apply_op
vlans-apply_op (create_vlan v) s = refl
vlans-apply_op _ s = refl

interfaces-apply_op :
    (op : ChangeOp) (s : DeviceShadowState)
    → (apply_op op s).interfaces ≡ interface_action op s.interfaces
unfolding apply_op
interfaces-apply_op (create_vlan v) s = refl
interfaces-apply_op _ s = refl

acls-apply_op :
    (op : ChangeOp) (s : DeviceShadowState) → (apply_op op s).acls ≡ acl_action op s.acls
unfolding apply_op
acls-apply_op (create_vlan v) s = refl
acls-apply_op _ s = refl

acl_bindings-apply_op :
    (op : ChangeOp) (s : DeviceShadowState)
    → (apply_op op s).acl_bindings ≡ binding_action op s.acl_bindings
unfolding apply_op
acl_bindings-apply_op (create_vlan v) s = refl
acl_bindings-apply_op _ s = refl

bgp_processes-apply_op :
    (op : ChangeOp) (s : DeviceShadowState)
    → (apply_op op s).bgp_processes ≡ process_action op s.bgp_processes
unfolding apply_op
bgp_processes-apply_op (create_vlan v) s = refl
bgp_processes-apply_op _ s = refl

bgp_neighbors-apply_op :
    (op : ChangeOp) (s : DeviceShadowState)
    → (apply_op op s).bgp_neighbors ≡ neighbor_action op s.bgp_neighbors
unfolding apply_op
bgp_neighbors-apply_op (create_vlan v) s = refl
bgp_neighbors-apply_op _ s = refl

module _ (ops : List ChangeOp) (s : DeviceShadowState) where
  pub vlans-apply_ops : (apply_ops ops s).vlans ≡ run vlan_action ops s.vlans
  vlans-apply_ops = view-apply_ops (λ t. t.vlans) vlan_action vlans-apply_op ops s

  pub interfaces-apply_ops : (apply_ops ops s).interfaces ≡ run interface_action ops s.interfaces
  interfaces-apply_ops =
      view-apply_ops (λ t. t.interfaces) interface_action interfaces-apply_op ops s

  pub acls-apply_ops : (apply_ops ops s).acls ≡ run acl_action ops s.acls
  acls-apply_ops = view-apply_ops (λ t. t.acls) acl_action acls-apply_op ops s

  pub acl_bindings-apply_ops :
      (apply_ops ops s).acl_bindings ≡ run binding_action ops s.acl_bindings
  acl_bindings-apply_ops =
      view-apply_ops (λ t. t.acl_bindings) binding_action acl_bindings-apply_op ops s

  pub bgp_processes-apply_ops :
      (apply_ops ops s).bgp_processes ≡ run process_action ops s.bgp_processes
  bgp_processes-apply_ops =
      view-apply_ops (λ t. t.bgp_processes) process_action bgp_processes-apply_op ops s

  pub bgp_neighbors-apply_ops :
      (apply_ops ops s).bgp_neighbors ≡ run neighbor_action ops s.bgp_neighbors
  bgp_neighbors-apply_ops =
      view-apply_ops (λ t. t.bgp_neighbors) neighbor_action bgp_neighbors-apply_op ops s

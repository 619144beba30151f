-- ===== src/Engine/Normalize/Desired.antt =====
-- What holds of every desired state in normal form: the maps ascend by key, and each entry is normal
-- and stands under its own key.
use aria_underlay.Base.{ℕ_ord, text_ord}
use aria_underlay.Base.BTree.{IsSorted, collect-IsSorted}
use aria_underlay.Model.{binding_key, neighbor_key}
use aria_underlay.Planner.DevicePlan.{DeviceDesiredState}
use aria_underlay.Engine.Normalize.Rekey.{IsKeyed, rekey-IsSorted, rekey-IsKeyed}
use aria_underlay.Engine.Normalize.{
  normalize_vlan, normalize_interface, normalize_acl, normalize_binding, normalize_process,
  normalize_neighbor, normalize_desired_state,
}
use aria_underlay.Engine.Normalize.Idempotent.{
  normalize_vlan_idem, normalize_interface_idem, normalize_acl_idem, normalize_binding_idem,
  normalize_process_idem, normalize_neighbor_idem,
}

pub record IsNormal (d : DeviceDesiredState) : Type 0 where
  pub vlans : IsSorted d.vlans × IsKeyed normalize_vlan (λ v. v.vlan_id) d.vlans
  pub interfaces : IsSorted d.interfaces × IsKeyed normalize_interface (λ i. i.name) d.interfaces
  pub acls : IsSorted d.acls × IsKeyed normalize_acl (λ a. a.acl_id) d.acls
  pub acl_bindings : IsSorted d.acl_bindings × IsKeyed normalize_binding binding_key d.acl_bindings
  pub bgp_processes :
      IsSorted d.bgp_processes × IsKeyed normalize_process (λ p. p.vrf) d.bgp_processes
  pub bgp_neighbors :
      IsSorted d.bgp_neighbors × IsKeyed normalize_neighbor neighbor_key d.bgp_neighbors
  pub delete_acl_bindings :
      IsSorted d.delete_acl_bindings × IsKeyed normalize_binding binding_key d.delete_acl_bindings
  pub delete_bgp_neighbors :
      IsSorted d.delete_bgp_neighbors
      × IsKeyed normalize_neighbor neighbor_key d.delete_bgp_neighbors
  pub delete_vlan_ids : IsSorted d.delete_vlan_ids
  pub delete_interface_names : IsSorted d.delete_interface_names
  pub delete_acl_ids : IsSorted d.delete_acl_ids
  pub delete_bgp_process_vrfs : IsSorted d.delete_bgp_process_vrfs

-- The sets that the normal form leaves as they are ascend, as every `BTreeSet` does.
pub record HasSets (d : DeviceDesiredState) : Type 0 where
  pub vlan_ids : IsSorted d.delete_vlan_ids
  pub acl_ids : IsSorted d.delete_acl_ids

pub normalize_desired_state-IsNormal :
    (d : DeviceDesiredState) → HasSets d → IsNormal (normalize_desired_state d)
unfolding normalize_desired_state
normalize_desired_state-IsNormal d h = record {
  vlans = (rekey-IsSorted _ _ d.vlans, rekey-IsKeyed _ _ normalize_vlan_idem d.vlans);
  interfaces =
      (rekey-IsSorted _ _ d.interfaces, rekey-IsKeyed _ _ normalize_interface_idem d.interfaces);
  acls = (rekey-IsSorted _ _ d.acls, rekey-IsKeyed _ _ normalize_acl_idem d.acls);
  acl_bindings =
      (rekey-IsSorted _ _ d.acl_bindings, rekey-IsKeyed _ _ normalize_binding_idem d.acl_bindings);
  bgp_processes = (
    rekey-IsSorted _ _ d.bgp_processes,
    rekey-IsKeyed _ _ normalize_process_idem d.bgp_processes,
  );
  bgp_neighbors = (
    rekey-IsSorted _ _ d.bgp_neighbors,
    rekey-IsKeyed _ _ normalize_neighbor_idem d.bgp_neighbors,
  );
  delete_acl_bindings = (
    rekey-IsSorted _ _ d.delete_acl_bindings,
    rekey-IsKeyed _ _ normalize_binding_idem d.delete_acl_bindings,
  );
  delete_bgp_neighbors = (
    rekey-IsSorted _ _ d.delete_bgp_neighbors,
    rekey-IsKeyed _ _ normalize_neighbor_idem d.delete_bgp_neighbors,
  );
  delete_vlan_ids = h.vlan_ids;
  delete_interface_names = collect-IsSorted _;
  delete_acl_ids = h.acl_ids;
  delete_bgp_process_vrfs = collect-IsSorted _;
}

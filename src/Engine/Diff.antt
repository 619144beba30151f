-- ===== src/Engine/Diff.antt =====
-- engine/diff.rs: the operations that lead from the current state of a device to the desired one.
pub mod Apply
pub mod Runs
pub mod Actions
pub mod WellFormed
pub mod Normal
pub mod Reconcile
pub mod Settled
pub mod Coherent
pub mod Converge
mod Tests
use aria_underlay.Base.{
  ℕ, Text, List, [], ◌∷◌, ◌++◌, Option, none, some, Bool, true, false, if◌then◌else◌, Ord, ℕ_ord,
  text_ord, ite, ◌==◌,
}
use aria_underlay.Base.BTree.{BTreeMap, get, contains_key}
use aria_underlay.Model.{
  DeviceId, VlanConfig, InterfaceConfig, AclConfig, AclBinding, AclDirection, BgpProcess,
  BgpNeighbor, VlanConfig-discrete, InterfaceConfig-discrete, AclConfig-discrete,
  AclBinding-discrete, BgpProcess-discrete, BgpNeighbor-discrete,
}
use aria_underlay.Planner.DevicePlan.{DeviceDesiredState}
use aria_underlay.State.Shadow.{DeviceShadowState}
use aria_underlay.Engine.Normalize.{normalize_desired_state, normalize_shadow_state}

pub data ChangeOp : Type 0 where
  create_vlan : VlanConfig → ChangeOp
  update_vlan : (before after : VlanConfig) → ChangeOp
  delete_vlan : (vlan_id : ℕ) → ChangeOp
  update_interface : (before : Option InterfaceConfig) (after : InterfaceConfig) → ChangeOp
  delete_interface_config : (interface_name : Text) → ChangeOp
  create_acl : AclConfig → ChangeOp
  update_acl : (before after : AclConfig) → ChangeOp
  delete_acl : (acl_id : ℕ) → ChangeOp
  create_acl_binding : AclBinding → ChangeOp
  update_acl_binding : (before after : AclBinding) → ChangeOp
  delete_acl_binding : (interface_name : Text) (direction : AclDirection) (acl_id : ℕ) → ChangeOp
  create_bgp_process : BgpProcess → ChangeOp
  update_bgp_process : (before after : BgpProcess) → ChangeOp
  delete_bgp_process : (vrf : Text) → ChangeOp
  create_bgp_neighbor : BgpNeighbor → ChangeOp
  update_bgp_neighbor : (before after : BgpNeighbor) → ChangeOp
  delete_bgp_neighbor : (vrf address : Text) → ChangeOp

pub record ChangeSet : Type 0 where
  pub device_id : DeviceId
  pub ops : List ChangeOp

-- `ChangeSet::empty` and `ChangeSet::is_empty`.
abbrev pub empty : DeviceId → ChangeSet
empty id = record { device_id = id; ops = [] }

abbrev pub is_empty : ChangeSet → Bool
is_empty c = elim c.ops [ [] ↦ true | op ∷ r ↦ false ]

-- The loop over one map of the desired state: what is missing is created, what differs is updated.
module _ {ℓ κ} {K : Type ℓ} {V : Type κ} ⦃o : Ord K⦄ where
  unfoldable pub upsert_ops :
      Discrete V → (V → ChangeOp) → (V → V → ChangeOp) → BTreeMap K V → BTreeMap K V → List ChangeOp
  upsert_ops dec create update current [] = []
  upsert_ops dec create update current ((k, v) ∷ desired) =
      let rest = upsert_ops dec create update current desired in
      elim (get k current) [
        | none ↦ create v ∷ rest
        | some w ↦ ite (dec w v) rest (update w v ∷ rest)
      ]

-- The loop over one set or map of deletions: an operation for each entry that passes the test.
module _ {ℓ κ} {K : Type ℓ} {W : Type κ} where
  unfoldable pub delete_ops : (K → W → Bool) → (K → W → ChangeOp) → BTreeMap K W → List ChangeOp
  delete_ops test delete [] = []
  delete_ops test delete ((k, w) ∷ deleted) =
      let rest = delete_ops test delete deleted in if test k w then delete k w ∷ rest else rest

-- `current.get(key).is_some_and(|current_binding| current_binding.acl_id == acl_id)`.
abbrev pub is_bound_to : BTreeMap Text AclBinding → Text → AclBinding → Bool
is_bound_to current key b = elim (get key current) [ none ↦ false | some c ↦ c.acl_id == b.acl_id ]

-- The loops in the order of the code, over states in normal form.
module _ (desired : DeviceDesiredState) (current : DeviceShadowState) where
  abbrev pub vlan_upserts : List ChangeOp
  vlan_upserts = upsert_ops VlanConfig-discrete create_vlan update_vlan current.vlans desired.vlans

  abbrev pub interface_upserts : List ChangeOp
  interface_upserts =
      upsert_ops InterfaceConfig-discrete (update_interface none) (λ b. update_interface (some b))
        current.interfaces desired.interfaces

  abbrev pub interface_deletes : List ChangeOp
  interface_deletes =
      delete_ops (λ k _. contains_key k current.interfaces) (λ k _. delete_interface_config k)
        desired.delete_interface_names

  abbrev pub vlan_deletes : List ChangeOp
  vlan_deletes =
      delete_ops (λ k _. contains_key k current.vlans) (λ k _. delete_vlan k)
        desired.delete_vlan_ids

  abbrev pub acl_upserts : List ChangeOp
  acl_upserts = upsert_ops AclConfig-discrete create_acl update_acl current.acls desired.acls

  abbrev pub binding_upserts : List ChangeOp
  binding_upserts =
      upsert_ops AclBinding-discrete create_acl_binding update_acl_binding current.acl_bindings
        desired.acl_bindings

  abbrev pub binding_deletes : List ChangeOp
  binding_deletes =
      delete_ops (is_bound_to current.acl_bindings)
        (λ _ b. delete_acl_binding b.interface_name b.direction b.acl_id)
        desired.delete_acl_bindings

  abbrev pub acl_deletes : List ChangeOp
  acl_deletes =
      delete_ops (λ k _. contains_key k current.acls) (λ k _. delete_acl k) desired.delete_acl_ids

  abbrev pub process_upserts : List ChangeOp
  process_upserts =
      upsert_ops BgpProcess-discrete create_bgp_process update_bgp_process current.bgp_processes
        desired.bgp_processes

  abbrev pub neighbor_upserts : List ChangeOp
  neighbor_upserts =
      upsert_ops BgpNeighbor-discrete create_bgp_neighbor update_bgp_neighbor current.bgp_neighbors
        desired.bgp_neighbors

  abbrev pub neighbor_deletes : List ChangeOp
  neighbor_deletes =
      delete_ops (λ k _. contains_key k current.bgp_neighbors)
        (λ _ n. delete_bgp_neighbor n.vrf n.address) desired.delete_bgp_neighbors

  abbrev pub process_deletes : List ChangeOp
  process_deletes =
      delete_ops (λ k _. contains_key k current.bgp_processes) (λ k _. delete_bgp_process k)
        desired.delete_bgp_process_vrfs

  unfoldable pub diff_ops : List ChangeOp
  diff_ops =
      vlan_upserts
      ++ (interface_upserts
          ++ (interface_deletes
              ++ (vlan_deletes
                  ++ (acl_upserts
                      ++ (binding_upserts
                          ++ (binding_deletes
                              ++ (acl_deletes
                                  ++ (process_upserts
                                      ++ (neighbor_upserts
                                          ++ (neighbor_deletes ++ process_deletes))))))))))

unfoldable pub compute_diff : DeviceDesiredState → DeviceShadowState → ChangeSet
compute_diff desired current =
    let d = normalize_desired_state desired in
    let c = normalize_shadow_state current in record { device_id = d.device_id; ops = diff_ops d c }

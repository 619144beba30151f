-- ===== src/Engine/Diff/Coherent.antt =====
-- What a state holds, key by key, after the operations of `diff_ops`, and that a second pass over it
-- finds nothing to do.
use aria_underlay.Base.{
  ℕ, Text, [], Option, none, some, Bool, false, not, ◌≡◌, refl, ap, ℕ_ord, text_ord, ◌==◌,
}
use aria_underlay.Base.BTree.{get, contains_key, contains, Entries, Entries-map, kept}
use aria_underlay.Model.{
  VlanConfig-discrete, InterfaceConfig-discrete, AclConfig-discrete, AclBinding-discrete,
  BgpProcess-discrete, BgpNeighbor-discrete, AclBinding,
}
use aria_underlay.Planner.DevicePlan.{DeviceDesiredState}
use aria_underlay.State.Shadow.{DeviceShadowState}
use aria_underlay.Engine.Normalize.Desired.{IsNormal}
use aria_underlay.Engine.Normalize.Shadow.{IsNormalShadow}
use aria_underlay.Engine.Diff.{
  diff_ops, is_bound_to, vlan_upserts, vlan_deletes, interface_upserts, interface_deletes,
  acl_upserts, acl_deletes, binding_upserts, binding_deletes, process_upserts, process_deletes,
  neighbor_upserts, neighbor_deletes,
}
use aria_underlay.Engine.Diff.Apply.{apply_ops}
use aria_underlay.Engine.Diff.Runs.{upsert_ops_settled, delete_ops_settled}
use aria_underlay.Engine.Diff.Runs.Deletes.{marked}
use aria_underlay.Engine.Diff.Reconcile.{reconciled}
use aria_underlay.Engine.Diff.Reconcile.Maps.{
  get-vlans, get-interfaces, get-acls, get-bgp_processes,
}
use aria_underlay.Engine.Diff.Reconcile.Swept.{get-acl_bindings, get-bgp_neighbors}
use aria_underlay.Engine.Diff.Settled.{
  plain_upserts_settled, plain_deletes_settled, present_deletes_settled, upserts_settled,
  deletes_settled, marked_absent,
}

-- No object is asked for and deleted at once, directly or through what it hangs on.
pub record IsCoherent (d : DeviceDesiredState) : Type 0 where
  pub vlans : Entries (λ k v. contains k d.delete_vlan_ids ≡ false) d.vlans
  pub interfaces : Entries (λ k v. contains k d.delete_interface_names ≡ false) d.interfaces
  pub acls : Entries (λ k v. contains k d.delete_acl_ids ≡ false) d.acls
  pub bgp_processes : Entries (λ k v. contains k d.delete_bgp_process_vrfs ≡ false) d.bgp_processes
  pub acl_bindings :
      Entries
        (λ k b.
          (contains_key k d.delete_acl_bindings ≡ false)
          × (contains b.acl_id d.delete_acl_ids ≡ false))
        d.acl_bindings
  pub bgp_neighbors :
      Entries
        (λ k b.
          (contains_key k d.delete_bgp_neighbors ≡ false)
          × (contains b.vrf d.delete_bgp_process_vrfs ≡ false))
        d.bgp_neighbors

-- Every map of the state after the operations, key by key.
pub record Reconciled (d : DeviceDesiredState) (s t : DeviceShadowState) : Type 0 where
  pub vlans :
      (k : ℕ)
      → get k t.vlans
        ≡ reconciled (λ k _. contains_key k s.vlans) d.delete_vlan_ids d.vlans s.vlans k
  pub interfaces :
      (k : Text)
      → get k t.interfaces
        ≡ reconciled
            (λ k _. contains_key k s.interfaces)
            d.delete_interface_names
            d.interfaces
            s.interfaces
            k
  pub acls :
      (k : ℕ)
      → get k t.acls ≡ reconciled (λ k _. contains_key k s.acls) d.delete_acl_ids d.acls s.acls k
  pub bgp_processes :
      (k : Text)
      → get k t.bgp_processes
        ≡ reconciled
            (λ k _. contains_key k s.bgp_processes)
            d.delete_bgp_process_vrfs
            d.bgp_processes
            s.bgp_processes
            k
  pub acl_bindings :
      (k : Text)
      → get k t.acl_bindings
        ≡ kept
            (λ b. not (marked (λ k _. contains_key k s.acls) d.delete_acl_ids b.acl_id))
            (reconciled
              (is_bound_to s.acl_bindings)
              d.delete_acl_bindings
              d.acl_bindings
              s.acl_bindings
              k)
  pub bgp_neighbors :
      (k : Text)
      → get k t.bgp_neighbors
        ≡ kept
            (λ b.
              not (marked (λ k _. contains_key k s.bgp_processes) d.delete_bgp_process_vrfs b.vrf))
            (reconciled
              (λ k _. contains_key k s.bgp_neighbors)
              d.delete_bgp_neighbors
              d.bgp_neighbors
              s.bgp_neighbors
              k)

pub apply_ops-Reconciled :
    (d : DeviceDesiredState) (s : DeviceShadowState)
    → IsNormal d
    → IsNormalShadow s
    → Reconciled d s (apply_ops (diff_ops d s) s)
apply_ops-Reconciled d s n m = record {
  vlans = get-vlans d s n;
  interfaces = get-interfaces d s n;
  acls = get-acls d s n;
  bgp_processes = get-bgp_processes d s n;
  acl_bindings = get-acl_bindings d s n m.acl_bindings.0;
  bgp_neighbors = get-bgp_neighbors d s n m.bgp_neighbors.0;
}

-- `is_some_and(|current_binding| current_binding.acl_id == acl_id)`.
abbrev binds : AclBinding → Option AclBinding → Bool
binds b x = elim x [ none ↦ false | some c ↦ c.acl_id == b.acl_id ]

-- A second pass over a reconciled state finds nothing to do.
module _ (d : DeviceDesiredState) (s t : DeviceShadowState) (n : IsNormal d) (c : IsCoherent d)
    (r : Reconciled d s t) where
  vlans_settled : (vlan_upserts d t ≡ []) × (vlan_deletes d t ≡ [])
  vlans_settled = (
    upsert_ops_settled VlanConfig-discrete _ _ t.vlans d.vlans
        (plain_upserts_settled d.delete_vlan_ids d.vlans s.vlans t.vlans r.vlans c.vlans n.vlans.0),
    delete_ops_settled _ _ d.delete_vlan_ids (
        plain_deletes_settled d.delete_vlan_ids d.vlans s.vlans t.vlans r.vlans c.vlans
          n.delete_vlan_ids),
  )

  interfaces_settled : (interface_upserts d t ≡ []) × (interface_deletes d t ≡ [])
  interfaces_settled = (
    upsert_ops_settled InterfaceConfig-discrete _ _ t.interfaces d.interfaces (
        plain_upserts_settled d.delete_interface_names d.interfaces s.interfaces t.interfaces
          r.interfaces c.interfaces n.interfaces.0),
    delete_ops_settled _ _ d.delete_interface_names (
        plain_deletes_settled d.delete_interface_names d.interfaces s.interfaces t.interfaces
          r.interfaces c.interfaces n.delete_interface_names),
  )

  acls_settled : (acl_upserts d t ≡ []) × (acl_deletes d t ≡ [])
  acls_settled = (
    upsert_ops_settled AclConfig-discrete _ _ t.acls d.acls
        (plain_upserts_settled d.delete_acl_ids d.acls s.acls t.acls r.acls c.acls n.acls.0),
    delete_ops_settled _ _ d.delete_acl_ids (
        plain_deletes_settled d.delete_acl_ids d.acls s.acls t.acls r.acls c.acls n.delete_acl_ids),
  )

  bgp_processes_settled : (process_upserts d t ≡ []) × (process_deletes d t ≡ [])
  bgp_processes_settled = (
    upsert_ops_settled BgpProcess-discrete _ _ t.bgp_processes d.bgp_processes (
        plain_upserts_settled d.delete_bgp_process_vrfs d.bgp_processes s.bgp_processes
          t.bgp_processes r.bgp_processes c.bgp_processes n.bgp_processes.0),
    delete_ops_settled _ _ d.delete_bgp_process_vrfs (
        plain_deletes_settled d.delete_bgp_process_vrfs d.bgp_processes s.bgp_processes
          t.bgp_processes r.bgp_processes c.bgp_processes n.delete_bgp_process_vrfs),
  )

  bgp_neighbors_settled : (neighbor_upserts d t ≡ []) × (neighbor_deletes d t ≡ [])
  bgp_neighbors_settled =
      let survives =
        Entries-map
          (λ k v h.
            (h.0, ap not (marked_absent (λ k _. contains_key k s.bgp_processes) _ v.vrf h.1)))
          d.bgp_neighbors c.bgp_neighbors in
      (
        upsert_ops_settled BgpNeighbor-discrete _ _ t.bgp_neighbors d.bgp_neighbors (
            upserts_settled _ d.delete_bgp_neighbors d.bgp_neighbors s.bgp_neighbors _
              (λ k. get k t.bgp_neighbors) r.bgp_neighbors n.bgp_neighbors.0 survives),
        delete_ops_settled _ _ d.delete_bgp_neighbors (
            present_deletes_settled d.delete_bgp_neighbors d.bgp_neighbors s.bgp_neighbors
              t.bgp_neighbors _ r.bgp_neighbors n.delete_bgp_neighbors.0 survives),
      )

  acl_bindings_settled : (binding_upserts d t ≡ []) × (binding_deletes d t ≡ [])
  acl_bindings_settled =
      let survives =
        Entries-map
          (λ k v h. (h.0, ap not (marked_absent (λ k _. contains_key k s.acls) _ v.acl_id h.1)))
          d.acl_bindings c.acl_bindings in
      (
        upsert_ops_settled AclBinding-discrete _ _ t.acl_bindings d.acl_bindings (
            upserts_settled _ d.delete_acl_bindings d.acl_bindings s.acl_bindings _
              (λ k. get k t.acl_bindings) r.acl_bindings n.acl_bindings.0 survives),
        delete_ops_settled _ _ d.delete_acl_bindings (
            deletes_settled _ d.delete_acl_bindings d.acl_bindings s.acl_bindings _
              (λ k. get k t.acl_bindings) r.acl_bindings binds (λ b. refl) (λ k b. refl)
              n.delete_acl_bindings.0 survives),
      )

  pub settled : diff_ops d t ≡ []
  unfolding diff_ops
  settled = rw (
    vlans_settled.0, interfaces_settled.0, interfaces_settled.1, vlans_settled.1, acls_settled.0,
    acl_bindings_settled.0, acl_bindings_settled.1, acls_settled.1, bgp_processes_settled.0,
    bgp_neighbors_settled.0, bgp_neighbors_settled.1, bgp_processes_settled.1,
  )

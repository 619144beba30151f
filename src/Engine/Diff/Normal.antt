-- ===== src/Engine/Diff/Normal.antt =====
-- The change set of `compute_diff` writes normal forms only, so the state stays in normal form.
use aria_underlay.Base.{
  ℕ, Text, List, [], ◌∷◌, Bool, not, ◌≡◌, refl, ℕ_ord, text_ord, Ord, All, All-append,
}
use aria_underlay.Base.BTree.{
  BTreeMap, insert, remove, retain, same, IsSorted, Entries-map, Entries-insert, Entries-remove,
  Entries-retain, insert-IsSorted, remove-IsSorted, retain-IsSorted,
}
use aria_underlay.Model.{
  VlanConfig, InterfaceConfig, AclConfig, AclBinding, BgpProcess, BgpNeighbor, acl_binding_key,
  binding_key, bgp_neighbor_key, neighbor_key,
}
use aria_underlay.Planner.DevicePlan.{DeviceDesiredState}
use aria_underlay.State.Shadow.{DeviceShadowState}
use aria_underlay.Engine.Normalize.Rekey.{IsKeyed}
use aria_underlay.Engine.Normalize.{
  normalize_vlan, normalize_interface, normalize_acl, normalize_binding, normalize_process,
  normalize_neighbor,
}
use aria_underlay.Engine.Normalize.Desired.{IsNormal}
use aria_underlay.Engine.Normalize.Shadow.{IsNormalShadow}
use aria_underlay.Engine.Diff.{
  ChangeOp, create_vlan, update_vlan, delete_vlan, update_interface, delete_interface_config,
  create_acl, update_acl, delete_acl, create_acl_binding, update_acl_binding, delete_acl_binding,
  create_bgp_process, update_bgp_process, delete_bgp_process, create_bgp_neighbor,
  update_bgp_neighbor, delete_bgp_neighbor, diff_ops,
}
use aria_underlay.Engine.Diff.Apply.{apply_ops}
use aria_underlay.Engine.Diff.Runs.{run, upsert_ops-All, delete_ops-All}
use aria_underlay.Engine.Diff.Actions.{
  vlan_action, interface_action, acl_action, binding_action, process_action, neighbor_action,
  vlans-apply_ops, interfaces-apply_ops, acls-apply_ops, acl_bindings-apply_ops,
  bgp_processes-apply_ops, bgp_neighbors-apply_ops,
}

-- What the operation writes is in normal form.
abbrev pub WritesNormal : ChangeOp → Type 0
WritesNormal (create_vlan v) = normalize_vlan v ≡ v
WritesNormal (update_vlan before v) = normalize_vlan v ≡ v
WritesNormal (update_interface before i) = normalize_interface i ≡ i
WritesNormal (create_acl a) = normalize_acl a ≡ a
WritesNormal (update_acl before a) = normalize_acl a ≡ a
WritesNormal (create_acl_binding b) = normalize_binding b ≡ b
WritesNormal (update_acl_binding before b) = normalize_binding b ≡ b
WritesNormal (create_bgp_process p) = normalize_process p ≡ p
WritesNormal (update_bgp_process before p) = normalize_process p ≡ p
WritesNormal (create_bgp_neighbor n) = normalize_neighbor n ≡ n
WritesNormal (update_bgp_neighbor before n) = normalize_neighbor n ≡ n
WritesNormal _ = Unit

module _ {ℓ κ} {K : Type ℓ} {V : Type κ} ⦃o : Ord K⦄ (normalize : V → V) (key : V → K) where
  abbrev pub IsNormalMap : BTreeMap K V → Type (ℓ ⊔ κ)
  IsNormalMap m = IsSorted m × IsKeyed normalize key m

  insert-IsNormalMap :
      (v : V) (m : BTreeMap K V)
      → normalize v ≡ v
      → IsSorted m × IsKeyed normalize key m
      → IsSorted (insert (key v) v m) × IsKeyed normalize key (insert (key v) v m)
  insert-IsNormalMap v m e h =
      (insert-IsSorted (key v) v m h.0, Entries-insert _ (key v) v m (refl, e) h.1)

  remove-IsNormalMap :
      (k : K) (m : BTreeMap K V)
      → IsSorted m × IsKeyed normalize key m
      → IsSorted (remove k m) × IsKeyed normalize key (remove k m)
  remove-IsNormalMap k m h = (remove-IsSorted k m h.0, Entries-remove _ k m h.1)

  retain-IsNormalMap :
      (p : K → V → Bool) (m : BTreeMap K V)
      → IsSorted m × IsKeyed normalize key m
      → IsSorted (retain p m) × IsKeyed normalize key (retain p m)
  retain-IsNormalMap p m h = (retain-IsSorted p m h.0, Entries-retain _ p m h.1)

vlan_action-IsNormalMap :
    (op : ChangeOp) (m : BTreeMap ℕ VlanConfig)
    → WritesNormal op
    → IsNormalMap normalize_vlan (λ v. v.vlan_id) m
    → IsNormalMap normalize_vlan (λ v. v.vlan_id) (vlan_action op m)
vlan_action-IsNormalMap (create_vlan v) m e h =
    insert-IsNormalMap normalize_vlan (λ v. v.vlan_id) v m e h
vlan_action-IsNormalMap (update_vlan before v) m e h =
    insert-IsNormalMap normalize_vlan (λ v. v.vlan_id) v m e h
vlan_action-IsNormalMap (delete_vlan k) m e h =
    remove-IsNormalMap normalize_vlan (λ v. v.vlan_id) k m h
vlan_action-IsNormalMap _ m e h = h

interface_action-IsNormalMap :
    (op : ChangeOp) (m : BTreeMap Text InterfaceConfig)
    → WritesNormal op
    → IsNormalMap normalize_interface (λ i. i.name) m
    → IsNormalMap normalize_interface (λ i. i.name) (interface_action op m)
interface_action-IsNormalMap (update_interface before i) m e h =
    insert-IsNormalMap normalize_interface (λ i. i.name) i m e h
interface_action-IsNormalMap (delete_interface_config k) m e h =
    remove-IsNormalMap normalize_interface (λ i. i.name) k m h
interface_action-IsNormalMap _ m e h = h

acl_action-IsNormalMap :
    (op : ChangeOp) (m : BTreeMap ℕ AclConfig)
    → WritesNormal op
    → IsNormalMap normalize_acl (λ a. a.acl_id) m
    → IsNormalMap normalize_acl (λ a. a.acl_id) (acl_action op m)
acl_action-IsNormalMap (create_acl a) m e h =
    insert-IsNormalMap normalize_acl (λ a. a.acl_id) a m e h
acl_action-IsNormalMap (update_acl before a) m e h =
    insert-IsNormalMap normalize_acl (λ a. a.acl_id) a m e h
acl_action-IsNormalMap (delete_acl k) m e h = remove-IsNormalMap normalize_acl (λ a. a.acl_id) k m h
acl_action-IsNormalMap _ m e h = h

binding_action-IsNormalMap :
    (op : ChangeOp) (m : BTreeMap Text AclBinding)
    → WritesNormal op
    → IsNormalMap normalize_binding binding_key m
    → IsNormalMap normalize_binding binding_key (binding_action op m)
binding_action-IsNormalMap (create_acl_binding b) m e h =
    insert-IsNormalMap normalize_binding binding_key b m e h
binding_action-IsNormalMap (update_acl_binding before b) m e h =
    insert-IsNormalMap normalize_binding binding_key b m e h
binding_action-IsNormalMap (delete_acl_binding i d a) m e h =
    remove-IsNormalMap normalize_binding binding_key (acl_binding_key i d) m h
binding_action-IsNormalMap (delete_acl k) m e h =
    retain-IsNormalMap normalize_binding binding_key (λ _ b. not (same b.acl_id k)) m h
binding_action-IsNormalMap _ m e h = h

process_action-IsNormalMap :
    (op : ChangeOp) (m : BTreeMap Text BgpProcess)
    → WritesNormal op
    → IsNormalMap normalize_process (λ p. p.vrf) m
    → IsNormalMap normalize_process (λ p. p.vrf) (process_action op m)
process_action-IsNormalMap (create_bgp_process p) m e h =
    insert-IsNormalMap normalize_process (λ p. p.vrf) p m e h
process_action-IsNormalMap (update_bgp_process before p) m e h =
    insert-IsNormalMap normalize_process (λ p. p.vrf) p m e h
process_action-IsNormalMap (delete_bgp_process k) m e h =
    remove-IsNormalMap normalize_process (λ p. p.vrf) k m h
process_action-IsNormalMap _ m e h = h

neighbor_action-IsNormalMap :
    (op : ChangeOp) (m : BTreeMap Text BgpNeighbor)
    → WritesNormal op
    → IsNormalMap normalize_neighbor neighbor_key m
    → IsNormalMap normalize_neighbor neighbor_key (neighbor_action op m)
neighbor_action-IsNormalMap (create_bgp_neighbor n) m e h =
    insert-IsNormalMap normalize_neighbor neighbor_key n m e h
neighbor_action-IsNormalMap (update_bgp_neighbor before n) m e h =
    insert-IsNormalMap normalize_neighbor neighbor_key n m e h
neighbor_action-IsNormalMap (delete_bgp_neighbor v a) m e h =
    remove-IsNormalMap normalize_neighbor neighbor_key (bgp_neighbor_key v a) m h
neighbor_action-IsNormalMap (delete_bgp_process k) m e h =
    retain-IsNormalMap normalize_neighbor neighbor_key (λ _ n. not (same n.vrf k)) m h
neighbor_action-IsNormalMap _ m e h = h

run-keeps {ℓ} :
    {M : Type 0} {P : M → Type ℓ} (act : ChangeOp → M → M)
    → ((op : ChangeOp) (m : M) → WritesNormal op → P m → P (act op m))
    → (ops : List ChangeOp) (m : M) → All WritesNormal ops
    → P m
    → P (run act ops m)
unfolding run
run-keeps act keep [] m w h = h
run-keeps act keep (op ∷ ops) m w h = run-keeps act keep ops (act op m) w.1 (keep op m w.0 h)

-- A state in normal form stays so under operations that write normal forms.
pub apply_ops-IsNormalShadow :
    (ops : List ChangeOp) (s : DeviceShadowState)
    → All WritesNormal ops
    → IsNormalShadow s
    → IsNormalShadow (apply_ops ops s)
apply_ops-IsNormalShadow ops s w n = record {
  vlans = rw (vlans-apply_ops ops s) (
      run-keeps {P = IsNormalMap normalize_vlan (λ v. v.vlan_id)} vlan_action
        vlan_action-IsNormalMap ops s.vlans w n.vlans);
  interfaces = rw (interfaces-apply_ops ops s) (
      run-keeps {P = IsNormalMap normalize_interface (λ i. i.name)} interface_action
        interface_action-IsNormalMap ops s.interfaces w n.interfaces);
  acls = rw (acls-apply_ops ops s) (
      run-keeps {P = IsNormalMap normalize_acl (λ a. a.acl_id)} acl_action acl_action-IsNormalMap
        ops s.acls w n.acls);
  acl_bindings = rw (acl_bindings-apply_ops ops s) (
      run-keeps {P = IsNormalMap normalize_binding binding_key} binding_action
        binding_action-IsNormalMap ops s.acl_bindings w n.acl_bindings);
  bgp_processes = rw (bgp_processes-apply_ops ops s) (
      run-keeps {P = IsNormalMap normalize_process (λ p. p.vrf)} process_action
        process_action-IsNormalMap ops s.bgp_processes w n.bgp_processes);
  bgp_neighbors = rw (bgp_neighbors-apply_ops ops s) (
      run-keeps {P = IsNormalMap normalize_neighbor neighbor_key} neighbor_action
        neighbor_action-IsNormalMap ops s.bgp_neighbors w n.bgp_neighbors);
}

-- The change set itself.
pub diff_ops-WritesNormal :
    (d : DeviceDesiredState) (s : DeviceShadowState) → IsNormal d → All WritesNormal (diff_ops d s)
unfolding diff_ops
diff_ops-WritesNormal d s n =
    All-append _ _ _
      (upsert_ops-All _ _ _ _ s.vlans d.vlans (Entries-map (λ k v h. (h.1, λ w. h.1)) _ n.vlans.1))
      (All-append _ _ _
        (upsert_ops-All _ _ _ _ s.interfaces d.interfaces
          (Entries-map (λ k v h. (h.1, λ w. h.1)) _ n.interfaces.1))
        (All-append _ _ _ (delete_ops-All _ _ _ _ (λ _ _. tt)) (
          All-append _ _ _ (delete_ops-All _ _ _ _ (λ _ _. tt)) (
            All-append _ _ _
              (upsert_ops-All _ _ _ _ s.acls d.acls
                (Entries-map (λ k v h. (h.1, λ w. h.1)) _ n.acls.1))
              (All-append _ _ _
                (upsert_ops-All _ _ _ _ s.acl_bindings d.acl_bindings
                  (Entries-map (λ k v h. (h.1, λ w. h.1)) _ n.acl_bindings.1))
                (All-append _ _ _ (delete_ops-All _ _ _ _ (λ _ _. tt)) (
                  All-append _ _ _ (delete_ops-All _ _ _ _ (λ _ _. tt)) (
                    All-append _ _ _
                      (upsert_ops-All _ _ _ _ s.bgp_processes d.bgp_processes
                        (Entries-map (λ k v h. (h.1, λ w. h.1)) _ n.bgp_processes.1))
                      (All-append _ _ _
                        (upsert_ops-All _ _ _ _ s.bgp_neighbors d.bgp_neighbors
                          (Entries-map (λ k v h. (h.1, λ w. h.1)) _ n.bgp_neighbors.1))
                        (All-append _ _ _ (delete_ops-All _ _ _ _ (λ _ _. tt))
                          ((delete_ops-All _ _ _ _ (λ _ _. tt)))))))))))))

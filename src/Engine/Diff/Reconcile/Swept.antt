-- ===== src/Engine/Diff/Reconcile/Swept.antt =====
-- The bindings of the two maps that a deletion also sweeps: ACL bindings by their ACL, neighbors by
-- their VRF.
use aria_underlay.Base.{Text, ◌≡◌, refl, ap, ◌∙◌, sym, not, ℕ_ord, text_ord}
use aria_underlay.Base.BTree.{get, contains_key, IsSorted, Entries-map, kept, remove}
use aria_underlay.Model.{AclBinding-discrete, BgpNeighbor-discrete, binding_key, neighbor_key}
use aria_underlay.Planner.DevicePlan.{DeviceDesiredState}
use aria_underlay.State.Shadow.{DeviceShadowState}
use aria_underlay.Engine.Normalize.{normalize_binding, normalize_neighbor}
use aria_underlay.Engine.Normalize.Desired.{IsNormal}
use aria_underlay.Engine.Diff.{
  delete_acl, create_acl_binding, update_acl_binding, delete_acl_binding, delete_bgp_process,
  create_bgp_neighbor, update_bgp_neighbor, delete_bgp_neighbor, diff_ops, is_bound_to,
}
use aria_underlay.Engine.Diff.Apply.{apply_ops}
use aria_underlay.Engine.Diff.Runs.Deletes.{marked, get-run_sweeps}
use aria_underlay.Engine.Diff.Reconcile.{
  idle_upserts, idle_deletes, run-diff_ops, reconciled, get-reconciled,
}
use aria_underlay.Engine.Diff.WellFormed.{
  run-IsSorted, binding_action-IsSorted, neighbor_action-IsSorted,
}
use aria_underlay.Engine.Diff.Actions.{
  binding_action, neighbor_action, acl_bindings-apply_ops, bgp_neighbors-apply_ops,
}

module _ (d : DeviceDesiredState) (s : DeviceShadowState) (n : IsNormal d) where
  pub get-acl_bindings :
      IsSorted s.acl_bindings
      → (k : Text)
      → get k (apply_ops (diff_ops d s) s).acl_bindings
        ≡ kept
            (λ v. not (marked (λ k _. contains_key k s.acls) d.delete_acl_ids v.acl_id))
            (reconciled
              (is_bound_to s.acl_bindings)
              d.delete_acl_bindings
              d.acl_bindings
              s.acl_bindings
              k)
  get-acl_bindings sorted k =
      rw
        (
          acl_bindings-apply_ops (diff_ops d s) s,
          run-diff_ops binding_action d s (idle_upserts _ _ _ _ _ _ (λ _ _. refl) (λ _ _ _. refl))
              (idle_upserts _ _ _ _ _ _ (λ _ _. refl) (λ _ _ _. refl))
              (idle_deletes _ _ _ _ (λ _ _ _. refl)) (idle_deletes _ _ _ _ (λ _ _ _. refl))
              (idle_upserts _ _ _ _ _ _ (λ _ _. refl) (λ _ _ _. refl)) (λ m. refl) (λ m. refl)
              (λ m. refl) (idle_upserts _ _ _ _ _ _ (λ _ _. refl) (λ _ _ _. refl))
              (idle_upserts _ _ _ _ _ _ (λ _ _. refl) (λ _ _ _. refl))
              (idle_deletes _ _ _ _ (λ _ _ _. refl)) (idle_deletes _ _ _ _ (λ _ _ _. refl))
              s.acl_bindings,
        )
        (get-run_sweeps binding_action (λ v. v.acl_id) (λ k _. contains_key k s.acls)
            (λ k _. delete_acl k) d.delete_acl_ids _ k n.delete_acl_ids
            (run-IsSorted binding_action binding_action-IsSorted _ _
              (run-IsSorted binding_action binding_action-IsSorted _ _ sorted))
            (λ _ _ _. refl)
          ∙ ap (kept (λ v. not (marked (λ k _. contains_key k s.acls) d.delete_acl_ids v.acl_id))) (
              get-reconciled binding_action AclBinding-discrete create_acl_binding
                update_acl_binding (is_bound_to s.acl_bindings)
                (λ _ b. delete_acl_binding b.interface_name b.direction b.acl_id) normalize_binding
                binding_key (λ _ _. refl) (λ _ _ _. refl) d.delete_acl_bindings d.acl_bindings
                s.acl_bindings k n.delete_acl_bindings.0
                (Entries-map (λ j w h m. ap (λ i. remove i m) (sym h.0)) _ n.delete_acl_bindings.1)
                n.acl_bindings))

  pub get-bgp_neighbors :
      IsSorted s.bgp_neighbors
      → (k : Text)
      → get k (apply_ops (diff_ops d s) s).bgp_neighbors
        ≡ kept
            (λ v.
              not (marked (λ k _. contains_key k s.bgp_processes) d.delete_bgp_process_vrfs v.vrf))
            (reconciled
              (λ k _. contains_key k s.bgp_neighbors)
              d.delete_bgp_neighbors
              d.bgp_neighbors
              s.bgp_neighbors
              k)
  get-bgp_neighbors sorted k =
      rw
        (
          bgp_neighbors-apply_ops (diff_ops d s) s,
          run-diff_ops neighbor_action d s (idle_upserts _ _ _ _ _ _ (λ _ _. refl) (λ _ _ _. refl))
              (idle_upserts _ _ _ _ _ _ (λ _ _. refl) (λ _ _ _. refl))
              (idle_deletes _ _ _ _ (λ _ _ _. refl)) (idle_deletes _ _ _ _ (λ _ _ _. refl))
              (idle_upserts _ _ _ _ _ _ (λ _ _. refl) (λ _ _ _. refl))
              (idle_upserts _ _ _ _ _ _ (λ _ _. refl) (λ _ _ _. refl))
              (idle_deletes _ _ _ _ (λ _ _ _. refl)) (idle_deletes _ _ _ _ (λ _ _ _. refl))
              (idle_upserts _ _ _ _ _ _ (λ _ _. refl) (λ _ _ _. refl)) (λ m. refl) (λ m. refl)
              (λ m. refl) s.bgp_neighbors,
        )
        (get-run_sweeps neighbor_action (λ v. v.vrf) (λ k _. contains_key k s.bgp_processes)
            (λ k _. delete_bgp_process k) d.delete_bgp_process_vrfs _ k n.delete_bgp_process_vrfs
            (run-IsSorted neighbor_action neighbor_action-IsSorted _ _
              (run-IsSorted neighbor_action neighbor_action-IsSorted _ _ sorted))
            (λ _ _ _. refl)
          ∙ ap
              (kept (λ v.
                not
                  (marked (λ k _. contains_key k s.bgp_processes) d.delete_bgp_process_vrfs v.vrf)))
              (get-reconciled neighbor_action BgpNeighbor-discrete create_bgp_neighbor
                update_bgp_neighbor (λ k _. contains_key k s.bgp_neighbors)
                (λ _ n. delete_bgp_neighbor n.vrf n.address) normalize_neighbor neighbor_key
                (λ _ _. refl) (λ _ _ _. refl) d.delete_bgp_neighbors d.bgp_neighbors s.bgp_neighbors
                k n.delete_bgp_neighbors.0
                (Entries-map (λ j w h m. ap (λ i. remove i m) (sym h.0)) _ n.delete_bgp_neighbors.1)
                n.bgp_neighbors))

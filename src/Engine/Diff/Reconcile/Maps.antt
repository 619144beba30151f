-- ===== src/Engine/Diff/Reconcile/Maps.antt =====
-- The bindings of each map after the change set.
use aria_underlay.Base.{ℕ, Text, none, some, ◌≡◌, refl, ℕ_ord, text_ord}
use aria_underlay.Base.BTree.{get, contains_key, Entries-all}
use aria_underlay.Model.{
  VlanConfig-discrete, InterfaceConfig-discrete, AclConfig-discrete, BgpProcess-discrete,
}
use aria_underlay.Planner.DevicePlan.{DeviceDesiredState}
use aria_underlay.State.Shadow.{DeviceShadowState}
use aria_underlay.Engine.Normalize.{
  normalize_vlan, normalize_interface, normalize_acl, normalize_process,
}
use aria_underlay.Engine.Normalize.Desired.{IsNormal}
use aria_underlay.Engine.Diff.{
  create_vlan, update_vlan, delete_vlan, update_interface, delete_interface_config, create_acl,
  update_acl, delete_acl, create_bgp_process, update_bgp_process, delete_bgp_process, diff_ops,
}
use aria_underlay.Engine.Diff.Apply.{apply_ops}
use aria_underlay.Engine.Diff.Reconcile.{
  idle_upserts, idle_deletes, run-diff_ops, reconciled, get-reconciled,
}
use aria_underlay.Engine.Diff.Actions.{
  vlan_action, interface_action, acl_action, process_action, vlans-apply_ops, interfaces-apply_ops,
  acls-apply_ops, bgp_processes-apply_ops,
}

module _ (d : DeviceDesiredState) (s : DeviceShadowState) (n : IsNormal d) where
  pub get-vlans :
      (k : ℕ)
      → get k (apply_ops (diff_ops d s) s).vlans
        ≡ reconciled (λ k _. contains_key k s.vlans) d.delete_vlan_ids d.vlans s.vlans k
  get-vlans k =
      rw
        (
          vlans-apply_ops (diff_ops d s) s,
          run-diff_ops vlan_action d s (λ m. refl)
              (idle_upserts _ _ _ _ _ _ (λ _ _. refl) (λ _ _ _. refl))
              (idle_deletes _ _ _ _ (λ _ _ _. refl)) (λ m. refl)
              (idle_upserts _ _ _ _ _ _ (λ _ _. refl) (λ _ _ _. refl))
              (idle_upserts _ _ _ _ _ _ (λ _ _. refl) (λ _ _ _. refl))
              (idle_deletes _ _ _ _ (λ _ _ _. refl)) (idle_deletes _ _ _ _ (λ _ _ _. refl))
              (idle_upserts _ _ _ _ _ _ (λ _ _. refl) (λ _ _ _. refl))
              (idle_upserts _ _ _ _ _ _ (λ _ _. refl) (λ _ _ _. refl))
              (idle_deletes _ _ _ _ (λ _ _ _. refl)) (idle_deletes _ _ _ _ (λ _ _ _. refl)) s.vlans,
        )
        (get-reconciled vlan_action VlanConfig-discrete create_vlan update_vlan
          (λ k _. contains_key k s.vlans) (λ k _. delete_vlan k) normalize_vlan (λ v. v.vlan_id)
          (λ _ _. refl) (λ _ _ _. refl) d.delete_vlan_ids d.vlans s.vlans k n.delete_vlan_ids
          (Entries-all (λ _ _ _. refl) _) n.vlans)

  pub get-interfaces :
      (k : Text)
      → get k (apply_ops (diff_ops d s) s).interfaces
        ≡ reconciled
            (λ k _. contains_key k s.interfaces)
            d.delete_interface_names
            d.interfaces
            s.interfaces
            k
  get-interfaces k =
      rw
        (
          interfaces-apply_ops (diff_ops d s) s,
          run-diff_ops interface_action d s (idle_upserts _ _ _ _ _ _ (λ _ _. refl) (λ _ _ _. refl))
              (λ m. refl) (λ m. refl) (idle_deletes _ _ _ _ (λ _ _ _. refl))
              (idle_upserts _ _ _ _ _ _ (λ _ _. refl) (λ _ _ _. refl))
              (idle_upserts _ _ _ _ _ _ (λ _ _. refl) (λ _ _ _. refl))
              (idle_deletes _ _ _ _ (λ _ _ _. refl)) (idle_deletes _ _ _ _ (λ _ _ _. refl))
              (idle_upserts _ _ _ _ _ _ (λ _ _. refl) (λ _ _ _. refl))
              (idle_upserts _ _ _ _ _ _ (λ _ _. refl) (λ _ _ _. refl))
              (idle_deletes _ _ _ _ (λ _ _ _. refl)) (idle_deletes _ _ _ _ (λ _ _ _. refl))
              s.interfaces,
        )
        (get-reconciled interface_action InterfaceConfig-discrete (update_interface none)
          (λ b. update_interface (some b)) (λ k _. contains_key k s.interfaces)
          (λ k _. delete_interface_config k) normalize_interface (λ i. i.name) (λ _ _. refl)
          (λ _ _ _. refl) d.delete_interface_names d.interfaces s.interfaces k
          n.delete_interface_names (Entries-all (λ _ _ _. refl) _) n.interfaces)

  pub get-acls :
      (k : ℕ)
      → get k (apply_ops (diff_ops d s) s).acls
        ≡ reconciled (λ k _. contains_key k s.acls) d.delete_acl_ids d.acls s.acls k
  get-acls k =
      rw
        (
          acls-apply_ops (diff_ops d s) s,
          run-diff_ops acl_action d s (idle_upserts _ _ _ _ _ _ (λ _ _. refl) (λ _ _ _. refl))
              (idle_upserts _ _ _ _ _ _ (λ _ _. refl) (λ _ _ _. refl))
              (idle_deletes _ _ _ _ (λ _ _ _. refl)) (idle_deletes _ _ _ _ (λ _ _ _. refl))
              (λ m. refl) (idle_upserts _ _ _ _ _ _ (λ _ _. refl) (λ _ _ _. refl))
              (idle_deletes _ _ _ _ (λ _ _ _. refl)) (λ m. refl)
              (idle_upserts _ _ _ _ _ _ (λ _ _. refl) (λ _ _ _. refl))
              (idle_upserts _ _ _ _ _ _ (λ _ _. refl) (λ _ _ _. refl))
              (idle_deletes _ _ _ _ (λ _ _ _. refl)) (idle_deletes _ _ _ _ (λ _ _ _. refl)) s.acls,
        )
        (get-reconciled acl_action AclConfig-discrete create_acl update_acl
          (λ k _. contains_key k s.acls) (λ k _. delete_acl k) normalize_acl (λ a. a.acl_id)
          (λ _ _. refl) (λ _ _ _. refl) d.delete_acl_ids d.acls s.acls k n.delete_acl_ids
          (Entries-all (λ _ _ _. refl) _) n.acls)

  pub get-bgp_processes :
      (k : Text)
      → get k (apply_ops (diff_ops d s) s).bgp_processes
        ≡ reconciled
            (λ k _. contains_key k s.bgp_processes)
            d.delete_bgp_process_vrfs
            d.bgp_processes
            s.bgp_processes
            k
  get-bgp_processes k =
      rw
        (
          bgp_processes-apply_ops (diff_ops d s) s,
          run-diff_ops process_action d s (idle_upserts _ _ _ _ _ _ (λ _ _. refl) (λ _ _ _. refl))
              (idle_upserts _ _ _ _ _ _ (λ _ _. refl) (λ _ _ _. refl))
              (idle_deletes _ _ _ _ (λ _ _ _. refl)) (idle_deletes _ _ _ _ (λ _ _ _. refl))
              (idle_upserts _ _ _ _ _ _ (λ _ _. refl) (λ _ _ _. refl))
              (idle_upserts _ _ _ _ _ _ (λ _ _. refl) (λ _ _ _. refl))
              (idle_deletes _ _ _ _ (λ _ _ _. refl)) (idle_deletes _ _ _ _ (λ _ _ _. refl))
              (λ m. refl) (idle_upserts _ _ _ _ _ _ (λ _ _. refl) (λ _ _ _. refl))
              (idle_deletes _ _ _ _ (λ _ _ _. refl)) (λ m. refl) s.bgp_processes,
        )
        (get-reconciled process_action BgpProcess-discrete create_bgp_process update_bgp_process
          (λ k _. contains_key k s.bgp_processes) (λ k _. delete_bgp_process k) normalize_process
          (λ p. p.vrf) (λ _ _. refl) (λ _ _ _. refl) d.delete_bgp_process_vrfs d.bgp_processes
          s.bgp_processes k n.delete_bgp_process_vrfs (Entries-all (λ _ _ _. refl) _)
          n.bgp_processes)

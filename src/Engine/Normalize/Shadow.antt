-- ===== src/Engine/Normalize/Shadow.antt =====
-- Shadow states in normal form.
use aria_underlay.Base.{◌≡◌, ℕ_ord, text_ord}
use aria_underlay.Base.BTree.{IsSorted}
use aria_underlay.Model.{binding_key, neighbor_key}
use aria_underlay.State.Shadow.{DeviceShadowState}
use aria_underlay.Engine.Normalize.Rekey.{IsKeyed, rekey-IsSorted, rekey-IsKeyed, rekey_fixed}
use aria_underlay.Engine.Normalize.{
  normalize_vlan, normalize_interface, normalize_acl, normalize_binding, normalize_process,
  normalize_neighbor, normalize_shadow_state,
}
use aria_underlay.Engine.Normalize.Idempotent.{
  normalize_vlan_idem, normalize_interface_idem, normalize_acl_idem, normalize_binding_idem,
  normalize_process_idem, normalize_neighbor_idem,
}

pub record IsNormalShadow (s : DeviceShadowState) : Type 0 where
  pub vlans : IsSorted s.vlans × IsKeyed normalize_vlan (λ v. v.vlan_id) s.vlans
  pub interfaces : IsSorted s.interfaces × IsKeyed normalize_interface (λ i. i.name) s.interfaces
  pub acls : IsSorted s.acls × IsKeyed normalize_acl (λ a. a.acl_id) s.acls
  pub acl_bindings : IsSorted s.acl_bindings × IsKeyed normalize_binding binding_key s.acl_bindings
  pub bgp_processes :
      IsSorted s.bgp_processes × IsKeyed normalize_process (λ p. p.vrf) s.bgp_processes
  pub bgp_neighbors :
      IsSorted s.bgp_neighbors × IsKeyed normalize_neighbor neighbor_key s.bgp_neighbors

pub normalize_shadow_state-IsNormalShadow :
    (s : DeviceShadowState) → IsNormalShadow (normalize_shadow_state s)
unfolding normalize_shadow_state
normalize_shadow_state-IsNormalShadow s = record {
  vlans = (rekey-IsSorted _ _ s.vlans, rekey-IsKeyed _ _ normalize_vlan_idem s.vlans);
  interfaces =
      (rekey-IsSorted _ _ s.interfaces, rekey-IsKeyed _ _ normalize_interface_idem s.interfaces);
  acls = (rekey-IsSorted _ _ s.acls, rekey-IsKeyed _ _ normalize_acl_idem s.acls);
  acl_bindings =
      (rekey-IsSorted _ _ s.acl_bindings, rekey-IsKeyed _ _ normalize_binding_idem s.acl_bindings);
  bgp_processes = (
    rekey-IsSorted _ _ s.bgp_processes,
    rekey-IsKeyed _ _ normalize_process_idem s.bgp_processes,
  );
  bgp_neighbors = (
    rekey-IsSorted _ _ s.bgp_neighbors,
    rekey-IsKeyed _ _ normalize_neighbor_idem s.bgp_neighbors,
  );
}

pub normalize_shadow_state_fixed :
    (s : DeviceShadowState) → IsNormalShadow s → normalize_shadow_state s ≡ s
unfolding normalize_shadow_state
normalize_shadow_state_fixed s n = rw (
  rekey_fixed normalize_vlan (λ v. v.vlan_id) s.vlans n.vlans.0 n.vlans.1,
  rekey_fixed normalize_interface (λ i. i.name) s.interfaces n.interfaces.0 n.interfaces.1,
  rekey_fixed normalize_acl (λ a. a.acl_id) s.acls n.acls.0 n.acls.1,
  rekey_fixed normalize_binding binding_key s.acl_bindings n.acl_bindings.0 n.acl_bindings.1,
  rekey_fixed normalize_process (λ p. p.vrf) s.bgp_processes n.bgp_processes.0 n.bgp_processes.1,
  rekey_fixed normalize_neighbor neighbor_key s.bgp_neighbors n.bgp_neighbors.0 n.bgp_neighbors.1,
)

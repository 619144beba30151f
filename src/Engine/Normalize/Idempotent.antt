-- ===== src/Engine/Normalize/Idempotent.antt =====
-- Normalising twice is normalising once.
use aria_underlay.Base.{[], ◌∷◌, Option, none, some, Text, ◌≡◌, refl, map, List, All}
use aria_underlay.Base.Trim.{trim_idem}
use aria_underlay.Model.{
  VlanConfig, InterfaceConfig, PortMode, access, trunk, AclRule, AclConfig, AclBinding, BgpProcess,
  BgpNeighbor,
}
use aria_underlay.State.Shadow.{DeviceShadowState}
use aria_underlay.Engine.Normalize.Sort.{
  sort_by_key, sort_by_key-IsAscending, dedup-IsStrict, IsAscending-of_IsStrict, sort_by_key_fixed,
  dedup_fixed, sort_by_key-All,
}
use aria_underlay.Engine.Normalize.Names.{canonical_interface_name_idem}
use aria_underlay.Engine.Normalize.Rekey.{rekey_idem}
use aria_underlay.Engine.Normalize.{
  non_empty, normalize_vlan, normalize_mode, normalize_interface, normalize_rule, normalize_acl,
  normalize_binding, normalize_process, normalize_neighbor, normalize_shadow_state,
}

non_empty_idem : (x : Option Text) → non_empty (non_empty x) ≡ non_empty x
unfolding non_empty
non_empty_idem none = refl
non_empty_idem (some []) = refl
non_empty_idem (some (c ∷ s)) = refl

pub normalize_vlan_idem : (v : VlanConfig) → normalize_vlan (normalize_vlan v) ≡ normalize_vlan v
unfolding normalize_vlan
normalize_vlan_idem v = rw (non_empty_idem v.name, non_empty_idem v.description)

normalize_mode_idem : (m : PortMode) → normalize_mode (normalize_mode m) ≡ normalize_mode m
unfolding normalize_mode
normalize_mode_idem (access v) = refl
normalize_mode_idem (trunk n vs) =
    let strict = dedup-IsStrict (sort_by_key (λ v. v) vs) (sort_by_key-IsAscending (λ v. v) vs) in
    rw (sort_by_key_fixed (λ v. v) _ (IsAscending-of_IsStrict _ strict), dedup_fixed _ strict)

pub normalize_interface_idem :
    (i : InterfaceConfig) → normalize_interface (normalize_interface i) ≡ normalize_interface i
unfolding normalize_interface
normalize_interface_idem i =
    rw (
      canonical_interface_name_idem i.name,
      non_empty_idem i.description,
      normalize_mode_idem i.mode,
    )

normalize_rule_idem : (r : AclRule) → normalize_rule (normalize_rule r) ≡ normalize_rule r
unfolding normalize_rule
normalize_rule_idem r = rw (non_empty_idem r.description)

abbrev IsNormalRule : AclRule → Type 0
IsNormalRule r = normalize_rule r ≡ r

map-normalize_rule_normal : (rs : List AclRule) → All IsNormalRule (map normalize_rule rs)
map-normalize_rule_normal [] = tt
map-normalize_rule_normal (r ∷ rs) = (normalize_rule_idem r, map-normalize_rule_normal rs)

map-normalize_rule_fixed : (rs : List AclRule) → All IsNormalRule rs → map normalize_rule rs ≡ rs
map-normalize_rule_fixed [] h = refl
map-normalize_rule_fixed (r ∷ rs) h = rw (h.0, map-normalize_rule_fixed rs h.1)

pub normalize_acl_idem : (a : AclConfig) → normalize_acl (normalize_acl a) ≡ normalize_acl a
unfolding normalize_acl
normalize_acl_idem a =
    let sorted = sort_by_key-All (λ r. r.sequence) _ _ (map-normalize_rule_normal a.rules) in
    rw (
      map-normalize_rule_fixed _ sorted,
      sort_by_key_fixed _ _
          (sort_by_key-IsAscending (λ r. r.sequence) (map normalize_rule a.rules)),
      non_empty_idem a.name,
      non_empty_idem a.description,
    )

pub normalize_binding_idem :
    (b : AclBinding) → normalize_binding (normalize_binding b) ≡ normalize_binding b
unfolding normalize_binding
normalize_binding_idem b = rw (canonical_interface_name_idem b.interface_name)

pub normalize_process_idem :
    (p : BgpProcess) → normalize_process (normalize_process p) ≡ normalize_process p
unfolding normalize_process
normalize_process_idem p = rw (trim_idem p.vrf, non_empty_idem p.router_id)

pub normalize_neighbor_idem :
    (n : BgpNeighbor) → normalize_neighbor (normalize_neighbor n) ≡ normalize_neighbor n
unfolding normalize_neighbor
normalize_neighbor_idem n = rw (
  trim_idem n.vrf,
  trim_idem n.address,
  non_empty_idem n.description,
  non_empty_idem n.import_policy,
  non_empty_idem n.export_policy,
)

-- The normal form of a state is its own normal form, and so on every map of it.
pub normalize_shadow_state_idem :
    (s : DeviceShadowState)
    → normalize_shadow_state (normalize_shadow_state s) ≡ normalize_shadow_state s
unfolding normalize_shadow_state
normalize_shadow_state_idem s = rw (
  rekey_idem normalize_vlan _ normalize_vlan_idem s.vlans,
  rekey_idem normalize_interface _ normalize_interface_idem s.interfaces,
  rekey_idem normalize_acl _ normalize_acl_idem s.acls,
  rekey_idem normalize_binding _ normalize_binding_idem s.acl_bindings,
  rekey_idem normalize_process _ normalize_process_idem s.bgp_processes,
  rekey_idem normalize_neighbor _ normalize_neighbor_idem s.bgp_neighbors,
)

-- ===== src/Engine/Diff/Tests.antt =====
-- One change on concrete states: a VLAN is renamed, an interface is deleted and named in short, an
-- access list goes with the binding that hangs on it, and a neighbour is added.
use aria_underlay.Base.{
  [], ◌∷◌, none, some, ◌≡◌, refl, text, length, trim, trim_start, trim_end, is_whitespace,
  strip_prefix, ℕ_discrete, ℕ_ord, text_ord,
}
use aria_underlay.Base.BTree.{get, collect, extend, insert, contains_key}
use aria_underlay.Model.{
  VlanConfig-discrete, AclDirection, AclKind, AdminState, PortMode, bgp_neighbor_key,
  acl_binding_key,
}
use aria_underlay.Planner.DevicePlan.{DeviceDesiredState}
use aria_underlay.State.Shadow.{DeviceShadowState}
use aria_underlay.Engine.Normalize.{
  normalize_desired_state, normalize_shadow_state, non_empty, normalize_vlan, normalize_interface,
  normalize_acl, normalize_binding, normalize_neighbor,
}
use aria_underlay.Engine.Normalize.Names.{canonical_interface_name}
use aria_underlay.Engine.Normalize.Rekey.{rekey, keyed}
use aria_underlay.Engine.Normalize.Desired.{HasSets}
use aria_underlay.Engine.Normalize.Idempotent.{normalize_shadow_state_idem}
use aria_underlay.Engine.Normalize.Shadow.{IsNormalShadow, normalize_shadow_state-IsNormalShadow}
use aria_underlay.Engine.Diff.{compute_diff, diff_ops, upsert_ops, delete_ops}
use aria_underlay.Engine.Diff.Apply.{apply_to_shadow}
use aria_underlay.Engine.Diff.Coherent.{IsCoherent, Reconciled}
use aria_underlay.Engine.Diff.Converge.{
  apply_to_shadow-Reconciled, apply_to_shadow-IsNormalShadow, compute_diff-apply_to_shadow,
}

abbrev observed : DeviceShadowState
observed = record {
  device_id = text "leaf-a";
  revision = 3;
  vlans = (10, record { vlan_id = 10; name = some (text "old"); description = none }) ∷ [];
  interfaces =
      (
        text "GigabitEthernet1/0/1",
        record {
          name = text "GigabitEthernet1/0/1";
          admin_state = AdminState.up;
          description = none;
          mode = PortMode.access 10;
        },
      )
      ∷ [];
  acls =
      (
        3000,
        record {
          acl_id = 3000;
          kind = AclKind.advanced_ipv4;
          name = none;
          description = none;
          rules = [];
        },
      )
      ∷ [];
  acl_bindings =
      (
        text "GE1/0/1|inbound",
        record {
          interface_name = text "GigabitEthernet1/0/1";
          direction = AclDirection.inbound;
          acl_id = 3000;
        },
      )
      ∷ [];
  bgp_processes = [];
  bgp_neighbors = [];
  warnings = [];
}

abbrev wanted : DeviceDesiredState
wanted = record {
  device_id = text "leaf-a";
  vlans = (10, record { vlan_id = 10; name = some (text " new "); description = none }) ∷ [];
  interfaces = [];
  acls = [];
  acl_bindings = [];
  route_policy_refs = [];
  bgp_processes = [];
  bgp_neighbors =
      (
        text "default|10.0.0.1",
        record {
          vrf = text "default";
          address = text "10.0.0.1";
          remote_as = 65001;
          description = none;
          import_policy = none;
          export_policy = none;
        },
      )
      ∷ [];
  delete_vlan_ids = [];
  delete_interface_names = (text "GE1/0/1", tt) ∷ [];
  delete_acl_ids = (3000, tt) ∷ [];
  delete_acl_bindings = [];
  delete_bgp_process_vrfs = [];
  delete_bgp_neighbors = [];
}

abbrev current : DeviceShadowState
current = normalize_shadow_state observed

current-IsNormalShadow : IsNormalShadow current
current-IsNormalShadow = normalize_shadow_state-IsNormalShadow observed

wanted-HasSets : HasSets wanted
wanted-HasSets = record { vlan_ids = tt; acl_ids = (tt, tt) }

wanted-IsCoherent : IsCoherent (normalize_desired_state wanted)
unfolding normalize_desired_state rekey keyed collect extend insert normalize_vlan
    normalize_neighbor contains_key trim bgp_neighbor_key
wanted-IsCoherent = record {
  vlans = (refl, tt);
  interfaces = tt;
  acls = tt;
  bgp_processes = tt;
  acl_bindings = tt;
  bgp_neighbors = ((refl, refl), tt);
}

four_changes : length (compute_diff wanted current).ops ≡ 4
unfolding compute_diff diff_ops upsert_ops delete_ops normalize_desired_state normalize_shadow_state
    rekey keyed collect extend insert get contains_key normalize_vlan normalize_neighbor
    normalize_interface normalize_acl normalize_binding canonical_interface_name bgp_neighbor_key
    non_empty trim trim_start trim_end is_whitespace strip_prefix acl_binding_key
    VlanConfig-discrete ℕ_discrete
four_changes = refl

apply_to_shadow-Reconciled_example :
    Reconciled
      (normalize_desired_state wanted)
      current
      (apply_to_shadow (compute_diff wanted current) (some current) wanted 4)
apply_to_shadow-Reconciled_example =
    apply_to_shadow-Reconciled wanted current 4 wanted-HasSets current-IsNormalShadow

apply_to_shadow-IsNormalShadow_example :
    IsNormalShadow (apply_to_shadow (compute_diff wanted current) (some current) wanted 4)
apply_to_shadow-IsNormalShadow_example =
    apply_to_shadow-IsNormalShadow wanted current 4 wanted-HasSets current-IsNormalShadow

compute_diff-apply_to_shadow_example :
    (compute_diff wanted
      (apply_to_shadow (compute_diff wanted current) (some current) wanted 4)).ops
    ≡ []
compute_diff-apply_to_shadow_example =
    compute_diff-apply_to_shadow wanted current 4 wanted-HasSets current-IsNormalShadow
      wanted-IsCoherent

normalize_shadow_state_idem_example :
    normalize_shadow_state (normalize_shadow_state observed) ≡ normalize_shadow_state observed
normalize_shadow_state_idem_example = normalize_shadow_state_idem observed

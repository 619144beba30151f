-- ===== src/State/Drift/Tests.antt =====
-- A device whose VLAN has lost its name.
use aria_underlay.Base.{
  Text, text, [], ◌∷◌, Option, none, some, true, false, ◌≡◌, refl, ◌↔◌, ℕ_ord, text_ord, ℕ_discrete,
}
use aria_underlay.Base.BTree.{get, contains_key, insert, extend, collect}
use aria_underlay.Model.{VlanConfig-discrete}
use aria_underlay.State.Shadow.{DeviceShadowState}
use aria_underlay.Engine.Normalize.{non_empty, normalize_vlan, normalize_shadow_state}
use aria_underlay.Engine.Normalize.Rekey.{keyed, rekey}
use aria_underlay.State.Drift.{
  detect_drift, compare, look_for, expected_findings, extra_findings, map_findings, all_findings,
}
use aria_underlay.State.Drift.Clean.{Agrees, detect_drift_iff}

abbrev with_name : Option Text → DeviceShadowState
with_name name = record {
  device_id = text "leaf-a";
  revision = 1;
  vlans = (10, record { vlan_id = 10; name = name; description = some [] }) ∷ [];
  interfaces = [];
  acls = [];
  acl_bindings = [];
  bgp_processes = [];
  bgp_neighbors = [];
  warnings = [];
}

renamed : (detect_drift (with_name (some (text "prod"))) (with_name none)).drift_detected ≡ true
unfolding detect_drift normalize_shadow_state all_findings map_findings expected_findings look_for
    compare extra_findings get contains_key insert extend collect keyed rekey normalize_vlan
    non_empty VlanConfig-discrete ℕ_discrete
renamed = refl

detect_drift_iff_example :
    ((detect_drift (with_name (some (text "prod"))) (with_name none)).drift_detected ≡ false)
    ↔ Agrees
        (normalize_shadow_state (with_name (some (text "prod"))))
        (normalize_shadow_state (with_name none))
detect_drift_iff_example = detect_drift_iff (with_name (some (text "prod"))) (with_name none)

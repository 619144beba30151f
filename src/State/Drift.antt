-- ===== src/State/Drift.antt =====
-- state/drift.rs: where the state that a device reports departs from the state that is expected of it.
pub mod Summaries
pub mod Clean
mod Tests
use aria_underlay.Base.{
  ℕ, Text, text, List, [], ◌∷◌, ◌++◌, Option, none, some, Bool, not, map, is_nil, ite,
  if◌then◌else◌, Ord, ℕ_ord, text_ord,
}
use aria_underlay.Base.BTree.{BTreeMap, get, contains_key}
use aria_underlay.Base.Print.{decimal_text}
use aria_underlay.Model.{
  DeviceId, VlanConfig, VlanConfig-discrete, InterfaceConfig, InterfaceConfig-discrete, AclConfig,
  AclConfig-discrete, AclBinding, AclBinding-discrete,
}
use aria_underlay.State.Shadow.{DeviceShadowState}
use aria_underlay.Engine.Normalize.{normalize_shadow_state}
use Summaries.{vlan_summary, interface_summary, acl_summary, acl_binding_summary}

pub data DriftType : Type 0 where
  missing_vlan extra_vlan vlan_attribute_mismatch : DriftType
  missing_interface extra_interface interface_attribute_mismatch : DriftType
  missing_acl extra_acl acl_attribute_mismatch : DriftType
  missing_acl_binding extra_acl_binding acl_binding_attribute_mismatch : DriftType
  adapter_warning : DriftType

pub record DriftFinding : Type 0 where
  pub drift_type : DriftType
  pub path : Text
  pub expected : Option Text
  pub actual : Option Text

pub record DriftReport : Type 0 where
  pub device_id : DeviceId
  pub drift_detected : Bool
  pub findings : List DriftFinding
  pub warnings : List Text

-- `DriftReport::clean`.
abbrev pub clean : DeviceId → DriftReport
clean id = record { device_id = id; drift_detected = Bool.false; findings = []; warnings = [] }

abbrev pub warning_finding : Text → DriftFinding
warning_finding warning = record {
  drift_type = adapter_warning;
  path = text "adapter.warning";
  expected = none;
  actual = some warning;
}

unfoldable pub from_adapter_warnings : DeviceId → List Text → DriftReport
from_adapter_warnings id warnings =
    let findings = map warning_finding warnings in
    record {
      device_id = id;
      drift_detected = not (is_nil findings);
      findings = findings;
      warnings = warnings;
    }

-- The two loops over one of the maps. `mismatch`, `missing` and `extra` are the types of the findings.
module _ {ℓ κ} {K : Type ℓ} {V : Type κ} ⦃o : Ord K⦄ (dec : Discrete V) (path : K → Text)
    (summary : V → Text) (mismatch missing extra : DriftType) where
  -- `compare_vlan`, `compare_interface`, `compare_acl` and `compare_acl_binding`.
  unfoldable pub compare : K → V → V → List DriftFinding
  compare k expected observed = ite (dec expected observed) [] (
      record {
        drift_type = mismatch;
        path = path k;
        expected = some (summary expected);
        actual = some (summary observed);
      }
      ∷ [])

  unfoldable pub look_for : K → V → Option V → List DriftFinding
  look_for k expected (some observed) = compare k expected observed
  look_for k expected none =
      record {
        drift_type = missing;
        path = path k;
        expected = some (summary expected);
        actual = none;
      }
      ∷ []

  unfoldable pub expected_findings : (observed expected : BTreeMap K V) → List DriftFinding
  expected_findings observed [] = []
  expected_findings observed ((k, v) ∷ expected) =
      look_for k v (get k observed) ++ expected_findings observed expected

  unfoldable pub extra_findings : (expected observed : BTreeMap K V) → List DriftFinding
  extra_findings expected [] = []
  extra_findings expected ((k, v) ∷ observed) =
      let rest = extra_findings expected observed in
      if not (contains_key k expected)
      then record { drift_type = extra; path = path k; expected = none; actual = some (summary v) }
        ∷ rest
      else rest

  unfoldable pub map_findings : (expected observed : BTreeMap K V) → List DriftFinding
  map_findings expected observed =
      expected_findings observed expected ++ extra_findings expected observed

module _ (expected observed : DeviceShadowState) where
  abbrev pub vlan_findings : List DriftFinding
  vlan_findings =
      map_findings VlanConfig-discrete (λ id. text "vlans." ++ decimal_text id) vlan_summary
        vlan_attribute_mismatch missing_vlan extra_vlan expected.vlans observed.vlans

  abbrev pub interface_findings : List DriftFinding
  interface_findings =
      map_findings InterfaceConfig-discrete (λ name. text "interfaces." ++ name) interface_summary
        interface_attribute_mismatch missing_interface extra_interface expected.interfaces
        observed.interfaces

  abbrev pub acl_findings : List DriftFinding
  acl_findings =
      map_findings AclConfig-discrete (λ id. text "acls." ++ decimal_text id) acl_summary
        acl_attribute_mismatch missing_acl extra_acl expected.acls observed.acls

  abbrev pub acl_binding_findings : List DriftFinding
  acl_binding_findings =
      map_findings AclBinding-discrete (λ key. text "acl_bindings." ++ key) acl_binding_summary
        acl_binding_attribute_mismatch missing_acl_binding extra_acl_binding expected.acl_bindings
        observed.acl_bindings

  unfoldable pub all_findings : List DriftFinding
  all_findings =
      vlan_findings
      ++ (interface_findings
          ++ (acl_findings ++ (acl_binding_findings ++ map warning_finding observed.warnings)))

  abbrev pub report : DriftReport
  report = record {
    device_id = expected.device_id;
    drift_detected = not (is_nil all_findings);
    findings = all_findings;
    warnings = observed.warnings;
  }

unfoldable pub detect_drift : (expected observed : DeviceShadowState) → DriftReport
detect_drift expected observed =
    report (normalize_shadow_state expected) (normalize_shadow_state observed)

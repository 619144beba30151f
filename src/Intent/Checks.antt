-- ===== src/Intent/Checks.antt =====
-- intent/validation.rs: the checks of single fields that the others share.
use aria_underlay.Base.{
  ℕ, Text, text, String, List, [], ◌∷◌, Bool, not, ◌&&◌, ◌==◌, leb, ltb, is_empty, trim, length,
  text_ord, ℕ_ord,
}
use aria_underlay.Base.BTree.{BTreeSet, contains}
use aria_underlay.Base.Errors.{UnderlayResult, str, num, fail_if, invalid, ◌>>◌}
use aria_underlay.Base.Loops.{try_seen, insert_new}
use aria_underlay.Model.{DeviceId, is_canonical_identifier, is_canonical}
use aria_underlay.Intent.{UnderlayDomainIntent, UnderlayTopology}
use aria_underlay.Intent.Ipv4.{is_ipv4}

-- `(low..=high).contains(&n)`.
abbrev pub within : ℕ → ℕ → ℕ → Bool
within low high n = leb low n && leb n high

abbrev pub canonical_rule : Text
canonical_rule = text "must be non-empty and contain only ASCII letters, digits, '-' or '_'"

unfoldable pub validate_topology_shape : UnderlayDomainIntent → UnderlayResult (Unit {0})
validate_topology_shape intent =
    let count = length intent.endpoints in
    elim intent.topology [
      | UnderlayTopology.stack_single_management_ip ↦ fail_if (not (count == 1)) (
          invalid "stack topology requires exactly one management endpoint, got {}"
            (num count ∷ []))
      | UnderlayTopology.mlag_dual_management_ip ↦ fail_if (not (count == 2)) (
          invalid "mlag topology requires exactly two management endpoints, got {}"
            (num count ∷ []))
      | UnderlayTopology.small_fabric ↦ fail_if (ltb count 2) (
          invalid "small fabric topology requires at least two management endpoints, got {}"
            (num count ∷ []))
    ]

unfoldable pub validate_non_empty : Text → Text → UnderlayResult (Unit {0})
validate_non_empty field value =
    fail_if (is_empty (trim value)) (invalid "{} is empty" (str field ∷ []))

unfoldable pub validate_identifier : Text → Text → UnderlayResult (Unit {0})
validate_identifier field value =
    fail_if (not (is_canonical_identifier value))
      (invalid "{} is invalid: {}" (str field ∷ str canonical_rule ∷ []))

unfoldable pub validate_device_id : Text → DeviceId → UnderlayResult (Unit {0})
validate_device_id field device_id =
    fail_if (not (is_canonical device_id))
      (invalid "{} {} is invalid: {}" (str field ∷ str device_id ∷ str canonical_rule ∷ []))

unfoldable pub validate_ipv4_text : Text → Text → UnderlayResult (Unit {0})
validate_ipv4_text field value =
    fail_if (not (is_ipv4 value)) (invalid "invalid {} {}" (str field ∷ str value ∷ []))

unfoldable pub ensure_known_member : BTreeSet DeviceId → DeviceId → Text → UnderlayResult (Unit {0})
ensure_known_member member_ids device_id subject =
    fail_if (not (contains device_id member_ids))
      (invalid "{} references unknown switch member {}" (str subject ∷ str device_id ∷ []))

-- The body of the loop of `validate_vlans`, and of `validate_acl_ids` below it.
unfoldable pub validate_vlan_id : Text → BTreeSet ℕ → ℕ → UnderlayResult (BTreeSet ℕ)
validate_vlan_id context seen vlan_id = do
  fail_if (not (within 1 4094 vlan_id)) (
      invalid "{} has invalid vlan_id {}; valid range is 1..=4094" (str context ∷ num vlan_id ∷ []))
  insert_new vlan_id seen (invalid "{} has duplicate vlan_id {}" (str context ∷ num vlan_id ∷ []))

unfoldable pub validate_vlans : List ℕ → Text → UnderlayResult (Unit {0})
validate_vlans vlan_ids context = try_seen (validate_vlan_id context) [] vlan_ids

unfoldable pub validate_acl_id : Text → BTreeSet ℕ → ℕ → UnderlayResult (BTreeSet ℕ)
validate_acl_id context seen acl_id = do
  fail_if (not (within 2000 3999 acl_id)) (
      invalid "{} has invalid numeric IPv4 acl_id {}; valid range is 2000..=3999"
        (str context ∷ num acl_id ∷ []))
  insert_new acl_id seen (invalid "{} has duplicate acl_id {}" (str context ∷ num acl_id ∷ []))

unfoldable pub validate_acl_ids : List ℕ → Text → UnderlayResult (Unit {0})
validate_acl_ids acl_ids context = try_seen (validate_acl_id context) [] acl_ids

-- `for id in &ids { if declared.contains(id) { return Err(..) } }`.
unfoldable pub refuse_declared : BTreeSet ℕ → String → ℕ → UnderlayResult (Unit {0})
refuse_declared declared template id =
    fail_if (contains id declared) (invalid template (num id ∷ []))

-- ===== src/Intent/Objects.antt =====
-- intent/validation.rs: the checks of interfaces, their port modes, and access lists.
use aria_underlay.Base.{
  is_nil, ℕ, Text, List, [], ◌∷◌, not, ◌&&◌, is_none, text, text_ord, ℕ_ord, pair_ord,
}
use aria_underlay.Base.BTree.{BTreeSet, contains, collect_set}
use aria_underlay.Base.Errors.{UnderlayResult, ok, str, num, fail_if, invalid, ◌>>◌, ◌>>=◌}
use aria_underlay.Base.Loops.{try_some, try_seen, insert_new}
use aria_underlay.Model.{DeviceId, PortMode, access, trunk}
use aria_underlay.Intent.Checks.{validate_non_empty}

-- The interface and the device that an error names.
unfoldable pub validate_declared_vlan :
    ℕ → BTreeSet ℕ → Text → DeviceId → Text → UnderlayResult (Unit {0})
validate_declared_vlan vlan_id declared_vlans context device_id interface_name =
    fail_if (not (contains vlan_id declared_vlans)) (
      invalid "{} interface {} on {} references undeclared VLAN {}"
        (str context ∷ str interface_name ∷ str device_id ∷ num vlan_id ∷ []))

-- The body of the loop over the allowed VLANs of a trunk.
unfoldable pub validate_allowed_vlan :
    BTreeSet ℕ → Text → DeviceId → Text → BTreeSet ℕ → ℕ → UnderlayResult (BTreeSet ℕ)
validate_allowed_vlan declared_vlans context device_id interface_name seen vlan_id = do
  validate_declared_vlan vlan_id declared_vlans context device_id interface_name
  insert_new vlan_id seen (
      invalid "{} trunk interface {} on {} has duplicate allowed VLAN {}"
        (str context ∷ str interface_name ∷ str device_id ∷ num vlan_id ∷ []))

unfoldable pub validate_port_mode :
    PortMode → BTreeSet ℕ → Text → DeviceId → Text → UnderlayResult (Unit {0})
validate_port_mode (access vlan_id) declared_vlans context device_id interface_name =
    validate_declared_vlan vlan_id declared_vlans context device_id interface_name
validate_port_mode (trunk native_vlan allowed_vlans) declared_vlans context device_id
      interface_name =
    do
      fail_if (is_nil allowed_vlans && is_none native_vlan) (
          invalid "{} trunk interface {} on {} has no native or allowed VLAN"
            (str context ∷ str interface_name ∷ str device_id ∷ []))
      try_some
          (λ vlan_id.
            validate_declared_vlan vlan_id declared_vlans context device_id interface_name)
          native_vlan
      try_seen (validate_allowed_vlan declared_vlans context device_id interface_name) []
          allowed_vlans

-- The interfaces of an intent as the caller passes them, and the body of the loop over them.
abbrev pub InterfaceKey : Type 0
InterfaceKey = DeviceId × Text

unfoldable pub validate_interface :
    BTreeSet DeviceId
    → BTreeSet ℕ
    → Text
    → Text
    → BTreeSet InterfaceKey
    → InterfaceKey × PortMode
    → UnderlayResult (BTreeSet InterfaceKey)
validate_interface valid_device_ids declared_vlans context unknown_device_label seen (key, mode) =
    do
      validate_non_empty (text "interface name") key.1
      fail_if (not (contains key.0 valid_device_ids)) (
          invalid "{} interface {} references unknown {} {}"
            (str context ∷ str key.1 ∷ str unknown_device_label ∷ str key.0 ∷ []))
      now_seen ←
          insert_new key seen (
            invalid "{} has duplicate interface {} on {}"
              (str context ∷ str key.1 ∷ str key.0 ∷ []))
      validate_port_mode mode declared_vlans context key.0 key.1
      ok now_seen

unfoldable pub validate_interfaces :
    List (InterfaceKey × PortMode)
    → BTreeSet DeviceId
    → BTreeSet ℕ
    → Text
    → Text
    → UnderlayResult (Unit {0})
validate_interfaces interfaces valid_device_ids declared_vlans context unknown_device_label =
    try_seen (validate_interface valid_device_ids declared_vlans context unknown_device_label) []
      interfaces

unfoldable pub validate_interface_delete :
    BTreeSet InterfaceKey
    → BTreeSet DeviceId
    → Text
    → BTreeSet InterfaceKey
    → InterfaceKey
    → UnderlayResult (BTreeSet InterfaceKey)
validate_interface_delete upsert_keys valid_device_ids context seen key = do
  validate_non_empty (text "interface delete name") key.1
  fail_if (not (contains key.0 valid_device_ids)) (
      invalid "{} interface delete {} references unknown switch member {}"
        (str context ∷ str key.1 ∷ str key.0 ∷ []))
  fail_if (contains key upsert_keys) (
      invalid "{} cannot upsert and delete interface {} on {} in the same request"
        (str context ∷ str key.1 ∷ str key.0 ∷ []))
  insert_new key seen (
      invalid "{} has duplicate interface delete {} on {}"
        (str context ∷ str key.1 ∷ str key.0 ∷ []))

unfoldable pub validate_interface_deletes :
    List InterfaceKey → List InterfaceKey → BTreeSet DeviceId → Text → UnderlayResult (Unit {0})
validate_interface_deletes deletes upserts valid_device_ids context =
    try_seen (validate_interface_delete (collect_set upserts) valid_device_ids context) [] deletes

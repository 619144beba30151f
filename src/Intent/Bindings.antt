-- ===== src/Intent/Bindings.antt =====
-- intent/validation.rs: the checks of the bindings of access lists.
use aria_underlay.Base.{ℕ, Text, List, [], ◌∷◌, not, map, text, text_ord, ℕ_ord, pair_ord}
use aria_underlay.Base.BTree.{BTreeSet, contains, collect_set}
use aria_underlay.Base.Errors.{UnderlayResult, str, num, fail_if, invalid, ◌>>◌}
use aria_underlay.Base.Loops.{try_seen, insert_new}
use aria_underlay.Model.{DeviceId, AclDirection, acl_binding_key}
use aria_underlay.Intent.{AclBindingIntent}
use aria_underlay.Intent.Checks.{within, validate_non_empty}

-- `{:?}` of a direction.
abbrev direction_name : AclDirection → Text
direction_name AclDirection.inbound = text "Inbound"
direction_name AclDirection.outbound = text "Outbound"

abbrev pub BindingKey : Type 0
BindingKey = DeviceId × Text

abbrev pub intent_key : AclBindingIntent → BindingKey
intent_key b = (b.device_id, acl_binding_key b.interface_name b.direction)

-- The body of the loop over bindings.
unfoldable pub validate_acl_binding :
    BTreeSet DeviceId
    → BTreeSet ℕ
    → Text
    → BTreeSet BindingKey
    → AclBindingIntent
    → UnderlayResult (BTreeSet BindingKey)
validate_acl_binding valid_device_ids declared_acls context seen b = do
  validate_non_empty (text "ACL binding interface_name") b.interface_name
  fail_if (not (contains b.device_id valid_device_ids)) (
      invalid "{} ACL binding for interface {} references unknown switch member {}"
        (str context ∷ str b.interface_name ∷ str b.device_id ∷ []))
  fail_if (not (contains b.acl_id declared_acls)) (
      invalid "{} ACL binding on {} references undeclared ACL {}"
        (str context ∷ str b.interface_name ∷ num b.acl_id ∷ []))
  insert_new (intent_key b) seen (
      invalid "{} has duplicate ACL binding on {} direction {:?}"
        (str context ∷ str b.interface_name ∷ str (direction_name b.direction) ∷ []))

unfoldable pub validate_acl_bindings :
    List AclBindingIntent → BTreeSet DeviceId → BTreeSet ℕ → Text → UnderlayResult (Unit {0})
validate_acl_bindings bindings valid_device_ids declared_acls context =
    try_seen (validate_acl_binding valid_device_ids declared_acls context) [] bindings

-- The body of the loop over the bindings to delete.
unfoldable pub validate_acl_binding_delete :
    BTreeSet BindingKey
    → BTreeSet DeviceId
    → Text
    → BTreeSet BindingKey
    → AclBindingIntent
    → UnderlayResult (BTreeSet BindingKey)
validate_acl_binding_delete upsert_keys valid_device_ids context seen b = do
  validate_non_empty (text "ACL binding delete interface_name") b.interface_name
  fail_if (not (contains b.device_id valid_device_ids)) (
      invalid "{} ACL binding delete for interface {} references unknown switch member {}"
        (str context ∷ str b.interface_name ∷ str b.device_id ∷ []))
  fail_if (not (within 2000 3999 b.acl_id)) (
      invalid
        "{} ACL binding delete on {} has invalid numeric IPv4 acl_id {}; valid range is 2000..=3999"
        (str context ∷ str b.interface_name ∷ num b.acl_id ∷ []))
  fail_if (contains (intent_key b) upsert_keys) (
      invalid "{} cannot upsert and delete ACL binding on {} direction {:?} in the same request"
        (str context ∷ str b.interface_name ∷ str (direction_name b.direction) ∷ []))
  insert_new (intent_key b) seen (
      invalid "{} has duplicate ACL binding delete on {} direction {:?}"
        (str context ∷ str b.interface_name ∷ str (direction_name b.direction) ∷ []))

unfoldable pub validate_acl_binding_deletes :
    List AclBindingIntent
    → List AclBindingIntent
    → BTreeSet DeviceId
    → Text
    → UnderlayResult (Unit {0})
validate_acl_binding_deletes deletes upserts valid_device_ids context =
    try_seen
      (validate_acl_binding_delete (collect_set (map intent_key upserts)) valid_device_ids context)
      [] deletes

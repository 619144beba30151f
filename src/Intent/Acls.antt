-- ===== src/Intent/Acls.antt =====
-- intent/validation.rs: the checks of access lists and their rules.
use aria_underlay.Base.{
  ℕ, Text, List, [], ◌∷◌, Option, none, some, Bool, true, false, not, ◌==◌, if◌then◌else◌, ◌||◌,
  ◌&&◌, is_some, text, ℕ_ord,
}
use aria_underlay.Base.BTree.{BTreeSet}
use aria_underlay.Base.Errors.{UnderlayResult, ok, str, num, fail_if, invalid, ◌>>◌, ◌>>=◌}
use aria_underlay.Base.Loops.{try_some, try_seen, insert_new}
use aria_underlay.Model.{AclConfig, AclKind, AclProtocol, AclRule, AclEndpoint}
use aria_underlay.Intent.Ipv4.{is_ipv4}
use aria_underlay.Intent.Checks.{within}

unfoldable pub validate_acl_id_for_kind : Text → ℕ → AclKind → UnderlayResult (Unit {0})
validate_acl_id_for_kind context acl_id AclKind.advanced_ipv4 =
    fail_if (not (within 3000 3999 acl_id)) (
      invalid "{} has invalid IPv4 advanced acl_id {}; valid range is 3000..=3999"
        (str context ∷ num acl_id ∷ []))
validate_acl_id_for_kind context acl_id AclKind.basic_ipv4 =
    fail_if (not (within 2000 2999 acl_id)) (
      invalid "{} has invalid IPv4 basic acl_id {}; valid range is 2000..=2999"
        (str context ∷ num acl_id ∷ []))

abbrev pub is_ip : AclProtocol → Bool
is_ip AclProtocol.ip = true
is_ip _ = false

abbrev pub has_ports : AclProtocol → Bool
has_ports AclProtocol.tcp = true
has_ports AclProtocol.udp = true
has_ports _ = false

abbrev pub is_zero_port : Option ℕ → Bool
is_zero_port none = false
is_zero_port (some port) = port == 0

unfoldable pub validate_basic_acl_rule : Text → AclConfig → AclRule → UnderlayResult (Unit {0})
validate_basic_acl_rule context acl rule = do
  fail_if (not (is_ip rule.protocol)) (
      invalid "{} basic IPv4 ACL {} rule {} must use ip protocol"
        (str context ∷ num acl.acl_id ∷ num rule.sequence ∷ []))
  fail_if (is_some rule.destination) (
      invalid "{} basic IPv4 ACL {} rule {} cannot match destination"
        (str context ∷ num acl.acl_id ∷ num rule.sequence ∷ []))
  fail_if (is_some rule.source_port_eq || is_some rule.destination_port_eq) (
      invalid "{} basic IPv4 ACL {} rule {} cannot match ports"
        (str context ∷ num acl.acl_id ∷ num rule.sequence ∷ []))

unfoldable pub validate_acl_endpoint : Text → ℕ → ℕ → Text → AclEndpoint → UnderlayResult (Unit {0})
validate_acl_endpoint context acl_id sequence field endpoint = do
  fail_if (not (is_ipv4 endpoint.address)) (
      invalid "{} ACL {} rule {} has invalid {} IPv4 address {}"
        (str context ∷ num acl_id ∷ num sequence ∷ str field ∷ str endpoint.address ∷ []))
  fail_if (not (is_ipv4 endpoint.wildcard)) (
      invalid "{} ACL {} rule {} has invalid {} wildcard {}"
        (str context ∷ num acl_id ∷ num sequence ∷ str field ∷ str endpoint.wildcard ∷ []))

abbrev is_basic : AclKind → Bool
is_basic AclKind.basic_ipv4 = true
is_basic AclKind.advanced_ipv4 = false

-- The body of the loop over the rules of an access list.
unfoldable pub validate_acl_rule :
    Text → AclConfig → BTreeSet ℕ → AclRule → UnderlayResult (BTreeSet ℕ)
validate_acl_rule context acl rule_ids rule = do
  now_seen ← insert_new rule.sequence rule_ids (
      invalid "{} ACL {} has duplicate rule sequence {}"
        (str context ∷ num acl.acl_id ∷ num rule.sequence ∷ []))
  fail_if (is_some rule.source_port_eq && not (has_ports rule.protocol)) (
      invalid "{} ACL {} rule {} has source_port_eq but protocol is not tcp/udp"
        (str context ∷ num acl.acl_id ∷ num rule.sequence ∷ []))
  fail_if (is_some rule.destination_port_eq && not (has_ports rule.protocol)) (
      invalid "{} ACL {} rule {} has destination_port_eq but protocol is not tcp/udp"
        (str context ∷ num acl.acl_id ∷ num rule.sequence ∷ []))
  fail_if (is_zero_port rule.source_port_eq || is_zero_port rule.destination_port_eq) (
      invalid "{} ACL {} rule {} has invalid port 0"
        (str context ∷ num acl.acl_id ∷ num rule.sequence ∷ []))
  if is_basic acl.kind then validate_basic_acl_rule context acl rule else ok tt
  try_some (validate_acl_endpoint context acl.acl_id rule.sequence (text "source")) rule.source
  try_some (validate_acl_endpoint context acl.acl_id rule.sequence (text "destination"))
      rule.destination
  ok now_seen

-- The body of the loop over access lists.
unfoldable pub validate_acl : Text → BTreeSet ℕ → AclConfig → UnderlayResult (BTreeSet ℕ)
validate_acl context seen acl = do
  validate_acl_id_for_kind context acl.acl_id acl.kind
  now_seen ←
      insert_new acl.acl_id seen
        (invalid "{} has duplicate acl_id {}" (str context ∷ num acl.acl_id ∷ []))
  try_seen (validate_acl_rule context acl) [] acl.rules
  ok now_seen

unfoldable pub validate_acls : List AclConfig → Text → UnderlayResult (Unit {0})
validate_acls acls context = try_seen (validate_acl context) [] acls

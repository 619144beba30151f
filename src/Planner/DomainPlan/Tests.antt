-- ===== src/Planner/DomainPlan/Tests.antt =====
-- A stack of two switches behind one management address.
use aria_underlay.Base.{
  List, [], ◌∷◌, none, All, text, ◌≡◌, refl, ℕ_ord, text_ord, trim, trim_start, trim_end,
  is_whitespace, is_ascii_alphanumeric,
}
use aria_underlay.Base.BTree.{insert, extend, collect, contains_key}
use aria_underlay.Base.Errors.{ok}
use aria_underlay.Model.{
  is_canonical_identifier, acl_binding_key, AclDirection, AclKind, AdminState, PortMode,
}
use aria_underlay.Intent.{UnderlayDomainIntent, UnderlayTopology}
use aria_underlay.Intent.Validation.{
  validate_underlay_domain_intent, validate_endpoint, validate_member, validate_objects,
}
use aria_underlay.Intent.Checks.{
  validate_non_empty, validate_topology_shape, validate_identifier, refuse_declared, validate_vlans,
  validate_vlan_id, validate_acl_ids, validate_acl_id,
}
use aria_underlay.Intent.Objects.{
  validate_interfaces, validate_interface, validate_port_mode, validate_declared_vlan,
  validate_interface_deletes, validate_interface_delete,
}
use aria_underlay.Intent.Acls.{validate_acls, validate_acl, validate_acl_id_for_kind}
use aria_underlay.Intent.Bindings.{
  validate_acl_bindings, validate_acl_binding, validate_acl_binding_deletes,
}
use aria_underlay.Intent.Bgp.{validate_bgp_processes, validate_bgp_neighbors}
use aria_underlay.Base.Loops.{try_fold, try_seen, try_each}
use aria_underlay.Intent.Validation.Members.{IsLinked, validate_underlay_domain_intent-IsLinked}
use aria_underlay.Planner.DevicePlan.{DeviceDesiredState}
use aria_underlay.Planner.DomainPlan.{plan_underlay_domain}
use aria_underlay.Planner.DomainPlan.Apart.{IsApart, plan_underlay_domain-IsApart}
use aria_underlay.Planner.DomainPlan.Total.{plan_underlay_domain_total}

abbrev pub stack : UnderlayDomainIntent
stack = record {
  domain_id = text "dc1";
  topology = UnderlayTopology.stack_single_management_ip;
  endpoints =
      record {
        endpoint_id = text "mgmt";
        host = text "10.0.0.1";
        port = 830;
        secret_ref = text "vault";
        vendor_hint = none;
        model_hint = none;
      }
      ∷ [];
  members =
      record { member_id = text "m1"; role = none; management_endpoint_id = text "mgmt" }
      ∷ record { member_id = text "m2"; role = none; management_endpoint_id = text "mgmt" }
      ∷ [];
  vlans = record { vlan_id = 10; name = none; description = none } ∷ [];
  interfaces =
      record {
        device_id = text "m1";
        name = text "GE1";
        admin_state = AdminState.up;
        description = none;
        mode = PortMode.access 10;
      }
      ∷ [];
  acls =
      record {
        acl_id = 3000;
        kind = AclKind.advanced_ipv4;
        name = none;
        description = none;
        rules = [];
      }
      ∷ [];
  acl_bindings =
      record {
        device_id = text "m2";
        interface_name = text "GE2";
        direction = AclDirection.inbound;
        acl_id = 3000;
      }
      ∷ [];
  delete_vlan_ids = 20 ∷ [];
  delete_interfaces = record { device_id = text "m2"; name = text "GE9" } ∷ [];
  delete_acl_ids = 3001 ∷ [];
  delete_acl_bindings = [];
  bgp_processes = [];
  bgp_neighbors = [];
  delete_bgp_processes = [];
  delete_bgp_neighbors = [];
}

pub stack_valid : validate_underlay_domain_intent stack ≡ ok tt
unfolding validate_underlay_domain_intent validate_non_empty validate_topology_shape
    validate_endpoint validate_member validate_objects validate_identifier is_canonical_identifier
    is_ascii_alphanumeric trim trim_start trim_end is_whitespace try_fold try_seen try_each
    contains_key insert collect extend refuse_declared validate_vlans validate_vlan_id
    validate_interfaces validate_interface validate_port_mode validate_declared_vlan
    validate_interface_deletes validate_interface_delete validate_acls validate_acl
    validate_acl_id_for_kind validate_acl_ids validate_acl_id validate_acl_bindings
    validate_acl_binding acl_binding_key validate_acl_binding_deletes validate_bgp_processes
    validate_bgp_neighbors
stack_valid = refl

validate_underlay_domain_intent-IsLinked_example : IsLinked stack
validate_underlay_domain_intent-IsLinked_example =
    validate_underlay_domain_intent-IsLinked stack stack_valid

plan_underlay_domain_total_example :
    (plan : List DeviceDesiredState) × (plan_underlay_domain stack ≡ ok plan)
plan_underlay_domain_total_example = plan_underlay_domain_total stack stack_valid

plan_underlay_domain-IsApart_example : All IsApart plan_underlay_domain_total_example.0
plan_underlay_domain-IsApart_example =
    plan_underlay_domain-IsApart stack plan_underlay_domain_total_example.0
      plan_underlay_domain_total_example.1

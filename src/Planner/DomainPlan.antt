-- ===== src/Planner/DomainPlan.antt =====
-- planner/domain_plan.rs: the desired state of every management endpoint of a domain.
use aria_underlay.Base.{ℕ, Text, String, List, [], ◌∷◌, none, some, map, text_ord, ℕ_ord}
use aria_underlay.Base.BTree.{BTreeMap, get, insert, insert_key, collect, collect_set, values}
use aria_underlay.Base.Errors.{UnderlayResult, ok, err, str, invalid, ◌>>◌, ◌>>=◌}
use aria_underlay.Base.Loops.{try_fold}
use aria_underlay.Model.{
  DeviceId, VlanConfig, InterfaceConfig, AclBinding, BgpProcess, BgpNeighbor, binding_key,
  neighbor_key,
}
use aria_underlay.Intent.{
  UnderlayDomainIntent, ManagementEndpointIntent, VlanIntent, InterfaceIntent,
  InterfaceDeleteIntent, AclBindingIntent, BgpProcessIntent, BgpProcessDeleteIntent,
  BgpNeighborIntent, BgpNeighborDeleteIntent,
}
use aria_underlay.Intent.Validation.{validate_underlay_domain_intent, acl_config}
use aria_underlay.Planner.DevicePlan.{DeviceDesiredState, vlan_config, interface_config}
pub mod Loops
pub mod Total
pub mod Apart
pub mod Tests

abbrev pub States : Type 0
States = BTreeMap DeviceId DeviceDesiredState

unfoldable pub member_to_endpoint : UnderlayDomainIntent → BTreeMap DeviceId DeviceId
member_to_endpoint i = collect (map (λ m. (m.member_id, m.management_endpoint_id)) i.members)

-- The state of an endpoint before the objects of its members are added.
unfoldable pub endpoint_state : UnderlayDomainIntent → ManagementEndpointIntent → DeviceDesiredState
endpoint_state i e = record {
  device_id = e.endpoint_id;
  vlans = collect (map (λ v. (v.vlan_id, vlan_config v)) i.vlans);
  interfaces = [];
  acls = collect (map (λ a. (a.acl_id, acl_config a)) i.acls);
  acl_bindings = [];
  route_policy_refs = [];
  bgp_processes = [];
  bgp_neighbors = [];
  delete_vlan_ids = collect_set i.delete_vlan_ids;
  delete_interface_names = [];
  delete_acl_ids = collect_set i.delete_acl_ids;
  delete_acl_bindings = [];
  delete_bgp_process_vrfs = [];
  delete_bgp_neighbors = [];
}

unfoldable pub endpoint_states : UnderlayDomainIntent → States
endpoint_states i = collect (map (λ e. (e.endpoint_id, endpoint_state i e)) i.endpoints)

-- The two lookups that every loop does before it changes the state of a member's endpoint.
unfoldable pub edit_state :
    BTreeMap DeviceId DeviceId
    → String
    → DeviceId
    → (DeviceDesiredState → DeviceDesiredState)
    → States
    → UnderlayResult States
edit_state members template device_id edit states = elim (get device_id members) [
  | none ↦ err (invalid template (str device_id ∷ []))
  | some endpoint_id ↦ elim (get endpoint_id states) [
    | none ↦ err (invalid "member references unknown management endpoint {}" (str endpoint_id ∷ []))
    | some s ↦ ok (insert endpoint_id (edit s) states)
  ]
]

abbrev binding_of : AclBindingIntent → AclBinding
binding_of b = record {
  interface_name = b.interface_name;
  direction = b.direction;
  acl_id = b.acl_id;
}

abbrev process_of : BgpProcessIntent → BgpProcess
process_of p = record { vrf = p.vrf; local_as = p.local_as; router_id = p.router_id }

abbrev neighbor_of : BgpNeighborIntent → BgpNeighbor
neighbor_of n = record {
  vrf = n.vrf;
  address = n.address;
  remote_as = n.remote_as;
  description = n.description;
  import_policy = n.import_policy;
  export_policy = n.export_policy;
}

abbrev deleted_neighbor : BgpNeighborDeleteIntent → BgpNeighbor
deleted_neighbor n = record {
  vrf = n.vrf;
  address = n.address;
  remote_as = 0;
  description = none;
  import_policy = none;
  export_policy = none;
}

-- What each loop does to the state of the endpoint.
abbrev pub add_interface : InterfaceIntent → DeviceDesiredState → DeviceDesiredState
add_interface f s = record s { interfaces = insert f.name (interface_config f) s.interfaces }

abbrev pub add_interface_delete : InterfaceDeleteIntent → DeviceDesiredState → DeviceDesiredState
add_interface_delete f s = record s {
  delete_interface_names = insert_key f.name s.delete_interface_names;
}

abbrev pub add_binding : AclBindingIntent → DeviceDesiredState → DeviceDesiredState
add_binding b s = record s {
  acl_bindings = insert (binding_key (binding_of b)) (binding_of b) s.acl_bindings;
}

abbrev pub add_binding_delete : AclBindingIntent → DeviceDesiredState → DeviceDesiredState
add_binding_delete b s = record s {
  delete_acl_bindings = insert (binding_key (binding_of b)) (binding_of b) s.delete_acl_bindings;
}

abbrev pub add_process : BgpProcessIntent → DeviceDesiredState → DeviceDesiredState
add_process p s = record s { bgp_processes = insert p.vrf (process_of p) s.bgp_processes }

abbrev pub add_neighbor : BgpNeighborIntent → DeviceDesiredState → DeviceDesiredState
add_neighbor n s = record s {
  bgp_neighbors = insert (neighbor_key (neighbor_of n)) (neighbor_of n) s.bgp_neighbors;
}

abbrev pub add_process_delete : BgpProcessDeleteIntent → DeviceDesiredState → DeviceDesiredState
add_process_delete p s = record s {
  delete_bgp_process_vrfs = insert_key p.vrf s.delete_bgp_process_vrfs;
}

abbrev pub add_neighbor_delete : BgpNeighborDeleteIntent → DeviceDesiredState → DeviceDesiredState
add_neighbor_delete n s = record s {
  delete_bgp_neighbors =
      insert (neighbor_key (deleted_neighbor n)) (deleted_neighbor n) s.delete_bgp_neighbors;
}

-- One of the loops: the objects of one kind are added to the states of their endpoints.
unfoldable pub add_all {ℓ} :
    {A : Type ℓ}
    → BTreeMap DeviceId DeviceId
    → String
    → (A → DeviceId)
    → (A → DeviceDesiredState → DeviceDesiredState)
    → List A
    → States
    → UnderlayResult States
add_all members template device edit objects states =
    try_fold (λ st x. edit_state members template (device x) (edit x) st) states objects

-- The loops of the code.
module _ (i : UnderlayDomainIntent) where
  abbrev pub plan_interfaces : States → UnderlayResult States
  plan_interfaces =
      add_all (member_to_endpoint i) "interface references unknown switch member {}"
        (λ x. x.device_id) add_interface i.interfaces

  abbrev pub plan_interface_deletes : States → UnderlayResult States
  plan_interface_deletes =
      add_all (member_to_endpoint i) "interface delete references unknown switch member {}"
        (λ x. x.device_id) add_interface_delete i.delete_interfaces

  abbrev pub plan_bindings : States → UnderlayResult States
  plan_bindings =
      add_all (member_to_endpoint i) "ACL binding references unknown switch member {}"
        (λ x. x.device_id) add_binding i.acl_bindings

  abbrev pub plan_binding_deletes : States → UnderlayResult States
  plan_binding_deletes =
      add_all (member_to_endpoint i) "ACL binding delete references unknown switch member {}"
        (λ x. x.device_id) add_binding_delete i.delete_acl_bindings

  abbrev pub plan_processes : States → UnderlayResult States
  plan_processes =
      add_all (member_to_endpoint i) "BGP process references unknown switch member {}"
        (λ x. x.device_id) add_process i.bgp_processes

  abbrev pub plan_neighbors : States → UnderlayResult States
  plan_neighbors =
      add_all (member_to_endpoint i) "BGP neighbor references unknown switch member {}"
        (λ x. x.device_id) add_neighbor i.bgp_neighbors

  abbrev pub plan_process_deletes : States → UnderlayResult States
  plan_process_deletes =
      add_all (member_to_endpoint i) "BGP process delete references unknown switch member {}"
        (λ x. x.device_id) add_process_delete i.delete_bgp_processes

  abbrev pub plan_neighbor_deletes : States → UnderlayResult States
  plan_neighbor_deletes =
      add_all (member_to_endpoint i) "BGP neighbor delete references unknown switch member {}"
        (λ x. x.device_id) add_neighbor_delete i.delete_bgp_neighbors

  -- The loops in the order of the code.
  unfoldable pub add_objects : States → UnderlayResult States
  add_objects states = do
    a ← plan_interfaces states
    b ← plan_interface_deletes a
    c ← plan_bindings b
    d ← plan_binding_deletes c
    e ← plan_processes d
    f ← plan_neighbors e
    g ← plan_process_deletes f
    plan_neighbor_deletes g

unfoldable pub plan_underlay_domain :
    UnderlayDomainIntent → UnderlayResult (List DeviceDesiredState)
plan_underlay_domain i = do
  validate_underlay_domain_intent i
  states ← add_objects i (endpoint_states i)
  ok (values states)

-- ===== src/Engine/ChangePlan/Nodes.antt =====
-- The texts of a change plan: what depends on what, and what a rollback would do.
use aria_underlay.Base.{
  ℕ, Text, text, List, [], ◌∷◌, ◌++◌, Option, none, some, not, ◌==◌, map, filter, trim, is_empty,
  if◌then◌else◌, text_ord,
}
use aria_underlay.Base.BTree.{BTreeSet, same, keys, contains, collect_set}
use aria_underlay.Base.Print.{decimal_text}
use aria_underlay.Model.{AclDirection, inbound, outbound, BgpNeighbor}
use aria_underlay.Engine.Diff.{
  ChangeOp, create_vlan, update_vlan, delete_vlan, update_interface, delete_interface_config,
  create_acl, update_acl, delete_acl, create_acl_binding, update_acl_binding, delete_acl_binding,
  create_bgp_process, update_bgp_process, delete_bgp_process, create_bgp_neighbor,
  update_bgp_neighbor, delete_bgp_neighbor,
}

pub record ChangeDependencyEdge : Type 0 where
  pub from : Text
  pub to : Text

pub data RoutePolicyDirection : Type 0 where
  import_policy export_policy : RoutePolicyDirection

pub record RoutePolicyDependency : Type 0 where
  pub neighbor : Text
  pub policy : Text
  pub direction : RoutePolicyDirection

abbrev pub acl_direction_text : AclDirection → Text
acl_direction_text inbound = text "inbound"
acl_direction_text outbound = text "outbound"

-- A text with a suffix after a blank, if there is one.
abbrev pub suffixed : Text → Text → Text
suffixed node [] = node
suffixed node (c ∷ s) = node ++ (text " " ++ c ∷ s)

unfoldable pub acl_node : (acl_id : ℕ) (suffix : Text) → Text
acl_node acl_id suffix = suffixed (text "acl " ++ decimal_text acl_id) suffix

unfoldable pub acl_binding_node : Text → AclDirection → (acl_id : ℕ) (suffix : Text) → Text
acl_binding_node interface_name direction acl_id suffix =
    suffixed
      (text "acl-binding "
        ++ (interface_name
            ++ (text " "
                ++ (acl_direction_text direction ++ (text " acl " ++ decimal_text acl_id)))))
      suffix

unfoldable pub bgp_process_node : Text → Text
bgp_process_node vrf = text "bgp-process " ++ vrf

unfoldable pub bgp_neighbor_node : (vrf address : Text) → Text
bgp_neighbor_node vrf address = text "bgp-neighbor " ++ (vrf ++ (text " " ++ address))

unfoldable pub route_policy_node : Text → Text
route_policy_node policy = text "route-policy " ++ policy

unfoldable pub normalized_policy_ref : Option Text → Option Text
normalized_policy_ref none = none
normalized_policy_ref (some policy) = if is_empty (trim policy) then none else some (trim policy)

-- `if let Some(x) = o { out.push(f(x)) }`.
abbrev pub pushed : {A B : Type 0} → (A → B) → Option A → List B
pushed f none = []
pushed f (some x) = f x ∷ []

unfoldable pub delete_acl_binding_edges : (acl_id : ℕ) → List ChangeOp → List ChangeDependencyEdge
delete_acl_binding_edges acl_id [] = []
delete_acl_binding_edges acl_id (delete_acl_binding interface_name direction binding_acl_id ∷ ops) =
    let rest = delete_acl_binding_edges acl_id ops in
    if binding_acl_id == acl_id
    then record {
      from = acl_node acl_id (text "delete");
      to = acl_binding_node interface_name direction acl_id (text "unbind");
    }
      ∷ rest
    else rest
delete_acl_binding_edges acl_id (_ ∷ ops) = delete_acl_binding_edges acl_id ops

unfoldable pub delete_bgp_neighbor_edges : (vrf : Text) → List ChangeOp → List ChangeDependencyEdge
delete_bgp_neighbor_edges vrf [] = []
delete_bgp_neighbor_edges vrf (delete_bgp_neighbor neighbor_vrf address ∷ ops) =
    let rest = delete_bgp_neighbor_edges vrf ops in
    if same neighbor_vrf vrf
    then record {
      from = bgp_process_node vrf ++ text " delete";
      to = bgp_neighbor_node vrf address ++ text " delete";
    }
      ∷ rest
    else rest
delete_bgp_neighbor_edges vrf (_ ∷ ops) = delete_bgp_neighbor_edges vrf ops

-- The edges of a deletion, or one that stands for them all.
abbrev or_all : ChangeDependencyEdge → List ChangeDependencyEdge → List ChangeDependencyEdge
or_all edge [] = edge ∷ []
or_all edge (e ∷ es) = e ∷ es

unfoldable pub neighbor_edges : BgpNeighbor → List ChangeDependencyEdge
neighbor_edges n =
    let node = bgp_neighbor_node n.vrf n.address in
    record { from = node; to = bgp_process_node n.vrf }
    ∷ (pushed (λ policy. record { from = node; to = route_policy_node policy })
          (normalized_policy_ref n.import_policy)
        ++ pushed (λ policy. record { from = node; to = route_policy_node policy })
            (normalized_policy_ref n.export_policy))

module _ (all_ops : List ChangeOp) where
  unfoldable pub op_edges : ChangeOp → List ChangeDependencyEdge
  op_edges (create_acl_binding b) =
      record {
        from = acl_binding_node b.interface_name b.direction b.acl_id [];
        to = acl_node b.acl_id [];
      }
      ∷ []
  op_edges (update_acl_binding before b) =
      record {
        from = acl_binding_node b.interface_name b.direction b.acl_id [];
        to = acl_node b.acl_id [];
      }
      ∷ []
  op_edges (delete_acl acl_id) =
      or_all
        (record {
          from = acl_node acl_id (text "delete");
          to = text "all acl " ++ (decimal_text acl_id ++ text " bindings unbound");
        })
        (delete_acl_binding_edges acl_id all_ops)
  op_edges (create_bgp_neighbor n) = neighbor_edges n
  op_edges (update_bgp_neighbor before n) = neighbor_edges n
  op_edges (delete_bgp_process vrf) =
      or_all
        (record {
          from = bgp_process_node vrf ++ text " delete";
          to = text "all bgp process " ++ (vrf ++ text " neighbors removed");
        })
        (delete_bgp_neighbor_edges vrf all_ops)
  op_edges _ = []

  unfoldable pub edges_of : List ChangeOp → List ChangeDependencyEdge
  edges_of [] = []
  edges_of (op ∷ ops) = op_edges op ++ edges_of ops

-- `dependency_edges_for_change_set`.
unfoldable pub dependency_edges : List ChangeOp → List ChangeDependencyEdge
dependency_edges ops = edges_of ops ops

unfoldable pub neighbor_dependencies : BgpNeighbor → List RoutePolicyDependency
neighbor_dependencies n =
    let node = bgp_neighbor_node n.vrf n.address in
    pushed
      (λ policy. record {
        neighbor = node;
        policy = policy;
        direction = RoutePolicyDirection.import_policy;
      })
      (normalized_policy_ref n.import_policy)
    ++ pushed
        (λ policy. record {
          neighbor = node;
          policy = policy;
          direction = RoutePolicyDirection.export_policy;
        })
        (normalized_policy_ref n.export_policy)

-- `route_policy_dependencies_for_change_set`.
unfoldable pub route_policy_dependencies : List ChangeOp → List RoutePolicyDependency
route_policy_dependencies [] = []
route_policy_dependencies (create_bgp_neighbor n ∷ ops) =
    neighbor_dependencies n ++ route_policy_dependencies ops
route_policy_dependencies (update_bgp_neighbor before n ∷ ops) =
    neighbor_dependencies n ++ route_policy_dependencies ops
route_policy_dependencies (_ ∷ ops) = route_policy_dependencies ops

unfoldable pub missing_route_policy_refs :
    List RoutePolicyDependency → (evidence : BTreeSet Text) → List Text
missing_route_policy_refs dependencies evidence = keys (
    collect_set (
      filter (λ policy. not (contains policy evidence))
        (filter (λ policy. not (is_empty policy)) (map (λ d. trim d.policy) dependencies))))

abbrev binding_text : Text → Text → AclDirection → (acl_id : ℕ) → Text
binding_text action interface_name direction acl_id =
    action
    ++ (text " acl binding "
        ++ (decimal_text acl_id
            ++ (text " on " ++ (interface_name ++ (text " " ++ acl_direction_text direction)))))

abbrev number_text : Text → ℕ → Text
number_text action n = action ++ decimal_text n

unfoldable pub rollback_action_for_op : ChangeOp → Text
rollback_action_for_op (create_vlan v) = number_text (text "delete vlan ") v.vlan_id
rollback_action_for_op (update_vlan before v) = number_text (text "restore vlan ") before.vlan_id
rollback_action_for_op (delete_vlan vlan_id) = number_text (text "restore vlan ") vlan_id
rollback_action_for_op (update_interface before i) = text "restore interface " ++ i.name
rollback_action_for_op (delete_interface_config name) = text "restore interface " ++ name
rollback_action_for_op (create_acl a) = number_text (text "delete acl ") a.acl_id
rollback_action_for_op (update_acl before a) = number_text (text "restore acl ") before.acl_id
rollback_action_for_op (delete_acl acl_id) = number_text (text "restore acl ") acl_id
rollback_action_for_op (create_acl_binding b) =
    binding_text (text "remove") b.interface_name b.direction b.acl_id
rollback_action_for_op (update_acl_binding before b) =
    binding_text (text "restore") before.interface_name before.direction before.acl_id
rollback_action_for_op (delete_acl_binding interface_name direction acl_id) =
    binding_text (text "restore") interface_name direction acl_id
rollback_action_for_op (create_bgp_process p) = text "delete bgp process " ++ p.vrf
rollback_action_for_op (update_bgp_process before p) = text "restore bgp process " ++ before.vrf
rollback_action_for_op (delete_bgp_process vrf) = text "restore bgp process " ++ vrf
rollback_action_for_op (create_bgp_neighbor n) =
    text "delete bgp neighbor " ++ (n.vrf ++ (text " " ++ n.address))
rollback_action_for_op (update_bgp_neighbor before n) =
    text "restore bgp neighbor " ++ (before.vrf ++ (text " " ++ before.address))
rollback_action_for_op (delete_bgp_neighbor vrf address) =
    text "restore bgp neighbor " ++ (vrf ++ (text " " ++ address))

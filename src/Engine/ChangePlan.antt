-- ===== src/Engine/ChangePlan.antt =====
-- engine/change_plan.rs: the stages of a change set, what a rollback would do, and whether the device may
-- be written at all.
pub mod Nodes
pub mod Guard
pub mod Staged
pub mod Guarded
mod Tests
use aria_underlay.Base.{Text, List, [], ◌∷◌, ◌++◌, Option, is_nil, if◌then◌else◌}
use aria_underlay.Base.BTree.{BTreeSet}
use aria_underlay.Model.{DeviceId}
use aria_underlay.Engine.Diff.{
  ChangeOp, ChangeSet, create_vlan, update_vlan, delete_vlan, update_interface,
  delete_interface_config, create_acl, update_acl, delete_acl, create_acl_binding,
  update_acl_binding, delete_acl_binding, create_bgp_process, update_bgp_process,
  delete_bgp_process, create_bgp_neighbor, update_bgp_neighbor, delete_bgp_neighbor,
}
use aria_underlay.Engine.Profile.{DeviceModelProfile}
use Nodes.{
  ChangeDependencyEdge, RoutePolicyDependency, route_policy_dependencies, missing_route_policy_refs,
  dependency_edges, rollback_action_for_op,
}
use Guard.{
  HighRiskFeature, BlastRadius, DryRunWriteDecision, effective_high_risk_features,
  classify_blast_radius, collect_unsupported_paths, classify_write_decision,
}

pub data ChangePlanStageKind : Type 0 where
  unbind_references delete_base_objects create_base_objects : ChangePlanStageKind
  update_base_objects bind_references : ChangePlanStageKind

pub record ChangePlanStage : Type 0 where
  pub kind : ChangePlanStageKind
  pub ops : List ChangeOp

-- The operations of each stage.
pub record Buckets : Type 0 where
  pub unbind : List ChangeOp
  pub delete_base : List ChangeOp
  pub create_base : List ChangeOp
  pub update_base : List ChangeOp
  pub bind : List ChangeOp

unfoldable pub place : ChangeOp → Buckets → Buckets
place (delete_acl_binding i d a) b = record b { unbind = delete_acl_binding i d a ∷ b.unbind }
place (delete_bgp_neighbor v a) b = record b { unbind = delete_bgp_neighbor v a ∷ b.unbind }
place (delete_acl a) b = record b { delete_base = delete_acl a ∷ b.delete_base }
place (delete_vlan v) b = record b { delete_base = delete_vlan v ∷ b.delete_base }
place (delete_interface_config i) b = record b {
  delete_base = delete_interface_config i ∷ b.delete_base;
}
place (delete_bgp_process v) b = record b { delete_base = delete_bgp_process v ∷ b.delete_base }
place (create_acl a) b = record b { create_base = create_acl a ∷ b.create_base }
place (create_vlan v) b = record b { create_base = create_vlan v ∷ b.create_base }
place (create_bgp_process p) b = record b { create_base = create_bgp_process p ∷ b.create_base }
place (update_acl x a) b = record b { update_base = update_acl x a ∷ b.update_base }
place (update_vlan x v) b = record b { update_base = update_vlan x v ∷ b.update_base }
place (update_interface x i) b = record b { update_base = update_interface x i ∷ b.update_base }
place (update_bgp_process x p) b = record b { update_base = update_bgp_process x p ∷ b.update_base }
place (create_acl_binding a) b = record b { bind = create_acl_binding a ∷ b.bind }
place (update_acl_binding x a) b = record b { bind = update_acl_binding x a ∷ b.bind }
place (create_bgp_neighbor n) b = record b { bind = create_bgp_neighbor n ∷ b.bind }
place (update_bgp_neighbor x n) b = record b { bind = update_bgp_neighbor x n ∷ b.bind }

-- The loop over the operations, each put before those that follow it.
unfoldable pub buckets : List ChangeOp → Buckets
buckets [] = record { unbind = []; delete_base = []; create_base = []; update_base = []; bind = [] }
buckets (op ∷ ops) = place op (buckets ops)

-- `push_stage`, and the stages after it.
unfoldable pub push_stage :
    ChangePlanStageKind → List ChangeOp → List ChangePlanStage → List ChangePlanStage
push_stage kind ops rest = if is_nil ops then rest else record { kind = kind; ops = ops } ∷ rest

unfoldable pub stages_of : Buckets → List ChangePlanStage
stages_of b = push_stage unbind_references b.unbind (
    push_stage delete_base_objects b.delete_base (
      push_stage create_base_objects b.create_base
        (push_stage update_base_objects b.update_base (push_stage bind_references b.bind []))))

-- The actions for the operations of a stage, from the last.
unfoldable pub undo_ops : List ChangeOp → List Text
undo_ops [] = []
undo_ops (op ∷ ops) = undo_ops ops ++ rollback_action_for_op op ∷ []

unfoldable pub rollback_order_for_stages : List ChangePlanStage → List Text
rollback_order_for_stages [] = []
rollback_order_for_stages (stage ∷ stages) = rollback_order_for_stages stages ++ undo_ops stage.ops

pub record ChangePlan : Type 0 where
  pub device_id : DeviceId
  pub high_risk_features : List HighRiskFeature
  pub stages : List ChangePlanStage
  pub dependency_edges : List ChangeDependencyEdge
  pub route_policy_dependencies : List RoutePolicyDependency
  pub missing_route_policy_refs : List Text
  pub rollback_order : List Text
  pub blast_radius : BlastRadius
  pub unsupported_paths : List Text
  pub write_decision : DryRunWriteDecision

-- `build_change_plan_with_profile_route_policy_evidence_and_high_risk_features`, to which all others
-- come down.
unfoldable pub build_change_plan :
    ChangeSet
    → Option DeviceModelProfile
    → (route_policy_evidence : BTreeSet Text) → List HighRiskFeature
    → ChangePlan
build_change_plan change_set profile route_policy_evidence high_risk_features =
    let ops = change_set.ops in
    let stages = stages_of (buckets ops) in
    let dependencies = route_policy_dependencies ops in
    let missing = missing_route_policy_refs dependencies route_policy_evidence in
    let features = effective_high_risk_features ops high_risk_features in
    let radius = classify_blast_radius ops features in
    let unsupported = collect_unsupported_paths profile missing features in
    record {
      device_id = change_set.device_id;
      high_risk_features = features;
      stages = stages;
      dependency_edges = dependency_edges ops;
      route_policy_dependencies = dependencies;
      missing_route_policy_refs = missing;
      rollback_order = rollback_order_for_stages stages;
      blast_radius = radius;
      unsupported_paths = unsupported;
      write_decision = classify_write_decision profile radius unsupported ops features;
    }

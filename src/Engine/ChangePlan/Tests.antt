-- ===== src/Engine/ChangePlan/Tests.antt =====
-- A BGP neighbor on a device whose profile has evidence for BGP.
use aria_underlay.Engine.ChangePlan.Guard.{
  HighRiskFeature, is_bgp_op, effective_high_risk_features, push_unique_feature,
  classify_blast_radius, collect_unsupported_paths, unsupported_features, unsupported_by,
  missing_path, has_writable_bgp_path, is_bgp_path, feature_readiness, classify_write_decision,
  decide_with_profile, choose_model,
}
use aria_underlay.Engine.ChangePlan.Nodes.{
  route_policy_dependencies, neighbor_dependencies, normalized_policy_ref,
  missing_route_policy_refs,
}
use aria_underlay.Base.BTree.{contains_key, insert, extend, collect}
use aria_underlay.Base.{
  ℕ, not, is_nil, ◌||◌, Text, text, [], ◌∷◌, none, some, true, ◌≡◌, refl, ℕ_ord, text_ord, trim,
}
use aria_underlay.Base.BTree.{BTreeSet}
use aria_underlay.Model.{Vendor, AclDirection, AclBinding}
use aria_underlay.Engine.Diff.{
  ChangeSet, create_bgp_neighbor, delete_acl, delete_acl_binding, update_acl_binding,
}
use aria_underlay.Engine.Profile.{ModelProtocol, WriteReadiness, DeviceModelProfile}
use aria_underlay.Engine.ChangePlan.{build_change_plan, buckets, place, stages_of, push_stage}
use aria_underlay.Engine.ChangePlan.Guard.{touches_bgp}
use aria_underlay.Engine.ChangePlan.Staged.{IsStaged, build_change_plan-IsStaged}
use aria_underlay.Engine.ChangePlan.Staged.Order.{flatten}
use aria_underlay.Engine.ChangePlan.Guarded.{IsBacked, is_allowed, build_change_plan-IsBacked}

abbrev peering : ChangeSet
peering = record {
  device_id = text "leaf-a";
  ops =
      delete_acl 3000
      ∷ delete_acl_binding (text "GE1/0/1") AclDirection.inbound 3000
      ∷ create_bgp_neighbor (record {
        vrf = text "blue";
        address = text "10.0.0.2";
        remote_as = 65001;
        description = none;
        import_policy = some (text "in");
        export_policy = none;
      })
      ∷ [];
}

abbrev proven : DeviceModelProfile
proven = record {
  profile_id = text "p";
  vendor = Vendor.h3c;
  model = text "S6800";
  os_version = text "7";
  paths =
      record {
        protocol = ModelProtocol.open_config_netconf;
        model = text "openconfig-bgp";
        revision = none;
        path = text "/bgp";
        readable = true;
        writable = true;
        verified_on_device = true;
        deviations = [];
        notes = [];
      }
      ∷ [];
  pbr_write_readiness = WriteReadiness.write_rejected;
  bgp_write_readiness = WriteReadiness.write_safe;
  rejection_reasons = [];
  yang_module_count = 0;
}

abbrev known_policies : BTreeSet Text
known_policies = (text "in", tt) ∷ []

peering_allowed :
    is_allowed (build_change_plan peering (some proven) known_policies []).write_decision ≡ true
unfolding build_change_plan is_bgp_op effective_high_risk_features push_unique_feature
    classify_blast_radius collect_unsupported_paths unsupported_features unsupported_by missing_path
    has_writable_bgp_path is_bgp_path feature_readiness classify_write_decision decide_with_profile
    choose_model route_policy_dependencies neighbor_dependencies normalized_policy_ref
    missing_route_policy_refs contains_key insert extend collect trim
peering_allowed = refl

peering_touches : touches_bgp peering.ops || not (is_nil {A = HighRiskFeature} []) ≡ true
unfolding is_bgp_op
peering_touches = refl

build_change_plan-IsBacked_example :
    IsBacked peering.ops (some proven) (build_change_plan peering (some proven) known_policies [])
build_change_plan-IsBacked_example =
    build_change_plan-IsBacked peering (some proven) known_policies [] peering_touches
      peering_allowed

build_change_plan-IsStaged_example :
    IsStaged peering (build_change_plan peering (some proven) known_policies [])
build_change_plan-IsStaged_example =
    build_change_plan-IsStaged peering (some proven) known_policies []

-- A binding that moves from one access list to another, while the one that it leaves is deleted: the
-- deletion comes first.
abbrev bound_to : ℕ → AclBinding
bound_to acl = record {
  interface_name = text "GE1/0/1";
  direction = AclDirection.inbound;
  acl_id = acl;
}

abbrev rebinding : ChangeSet
rebinding = record {
  device_id = text "leaf-a";
  ops = update_acl_binding (bound_to 3000) (bound_to 3001) ∷ delete_acl 3000 ∷ [];
}

rebinding_order :
    flatten (build_change_plan rebinding none [] []).stages
    ≡ delete_acl 3000 ∷ update_acl_binding (bound_to 3000) (bound_to 3001) ∷ []
unfolding build_change_plan buckets place stages_of push_stage
rebinding_order = refl

-- ===== src/Engine/ChangePlan/Guard.antt =====
-- Which features a change set puts at risk, and what the profile of the device allows for them.
use aria_underlay.Base.{
  ◌+◌, Text, text, List, [], ◌∷◌, ◌++◌, Option, none, some, Bool, true, false, not, ◌&&◌, ◌||◌,
  ◌==◌, leb, map, any, filter, is_nil, trim_start, if◌then◌else◌,
}
use aria_underlay.Engine.Diff.{
  ChangeOp, create_acl, update_acl, delete_acl, create_acl_binding, update_acl_binding,
  delete_acl_binding, create_bgp_process, update_bgp_process, delete_bgp_process,
  create_bgp_neighbor, update_bgp_neighbor, delete_bgp_neighbor,
}
use aria_underlay.Engine.Profile.{
  open_config_gnmi, open_config_netconf, WriteReadiness, write_safe, write_rejected,
  ModelPathSupport, DeviceModelProfile,
}

pub data HighRiskFeature : Type 0 where
  pbr bgp qos nqa : HighRiskFeature

pub data BlastRadius : Type 0 where
  no_change local_interface_or_vlan policy_reference routing_control_plane : BlastRadius

pub data DryRunWriteDecision : Type 0 where
  allowed_standard_model allowed_vendor_native allowed_vendor_private : DryRunWriteDecision
  read_only rejected : DryRunWriteDecision

-- `==` of two features, and the tests on readiness and radius.
abbrev pub is_feature : HighRiskFeature → HighRiskFeature → Bool
is_feature pbr pbr = true
is_feature bgp bgp = true
is_feature qos qos = true
is_feature nqa nqa = true
is_feature _ _ = false

abbrev pub is_read_only : WriteReadiness → Bool
is_read_only WriteReadiness.read_only = true
is_read_only _ = false

abbrev pub is_write_rejected : WriteReadiness → Bool
is_write_rejected write_rejected = true
is_write_rejected _ = false

abbrev pub is_routing : BlastRadius → Bool
is_routing routing_control_plane = true
is_routing _ = false

abbrev pub is_risky : BlastRadius → Bool
is_risky routing_control_plane = true
is_risky policy_reference = true
is_risky _ = false

-- `str::contains`, and `to_ascii_lowercase`. (`to_lowercase` agrees with it where the names of features
-- are looked for: no other character has one of their letters as its lower case.)
abbrev pub starts_with : Text → Text → Bool
starts_with [] s = true
starts_with (c ∷ needle) [] = false
starts_with (c ∷ needle) (d ∷ s) = c == d && starts_with needle s

abbrev pub contains_text : Text → Text → Bool
contains_text needle [] = starts_with needle []
contains_text needle (c ∷ s) = starts_with needle (c ∷ s) || contains_text needle s

abbrev pub lower : Text → Text
lower s = map (λ c. if leb b'A' c && leb c b'Z' then c + 32 else c) s

unfoldable pub feature_name : HighRiskFeature → Text
feature_name pbr = text "pbr"
feature_name bgp = text "bgp"
feature_name qos = text "qos"
feature_name nqa = text "nqa"

-- The model or the path names one of the words.
abbrev pub names : ModelPathSupport → List Text → Bool
names path words =
    any (λ w. contains_text w (lower path.model) || contains_text w (lower path.path)) words

unfoldable pub matches_path : HighRiskFeature → ModelPathSupport → Bool
matches_path pbr path = names path (text "pbr" ∷ text "policy-forwarding" ∷ [])
matches_path bgp path = names path (text "bgp" ∷ [])
matches_path qos path =
    names path (text "qos" ∷ text "quality-of-service" ∷ [])
    || contains_text (text "traffic") (lower path.path)
matches_path nqa path = names path (text "nqa" ∷ [])

unfoldable pub is_bgp_path : ModelPathSupport → Bool
is_bgp_path path =
    contains_text (text "bgp") (lower path.model) || contains_text (text "bgp") (lower path.path)

abbrev pub is_usable : ModelPathSupport → Bool
is_usable path = path.verified_on_device && path.writable && path.readable

unfoldable pub has_writable_bgp_path : DeviceModelProfile → Bool
has_writable_bgp_path profile = any (λ path. is_bgp_path path && is_usable path) profile.paths

unfoldable pub has_verified_writable_path_for_feature : DeviceModelProfile → HighRiskFeature → Bool
has_verified_writable_path_for_feature profile feature =
    any
      (λ path.
        path.readable && path.writable && path.verified_on_device && matches_path feature path)
      profile.paths

unfoldable pub feature_readiness : DeviceModelProfile → HighRiskFeature → Option WriteReadiness
feature_readiness profile pbr = some profile.pbr_write_readiness
feature_readiness profile bgp = some profile.bgp_write_readiness
feature_readiness profile qos = none
feature_readiness profile nqa = none

unfoldable pub is_acl_op : ChangeOp → Bool
is_acl_op (create_acl _) = true
is_acl_op (update_acl _ _) = true
is_acl_op (delete_acl _) = true
is_acl_op (create_acl_binding _) = true
is_acl_op (update_acl_binding _ _) = true
is_acl_op (delete_acl_binding _ _ _) = true
is_acl_op _ = false

unfoldable pub is_bgp_op : ChangeOp → Bool
is_bgp_op (create_bgp_process _) = true
is_bgp_op (update_bgp_process _ _) = true
is_bgp_op (delete_bgp_process _) = true
is_bgp_op (create_bgp_neighbor _) = true
is_bgp_op (update_bgp_neighbor _ _) = true
is_bgp_op (delete_bgp_neighbor _ _) = true
is_bgp_op _ = false

abbrev pub touches_acl : List ChangeOp → Bool
touches_acl ops = any is_acl_op ops

abbrev pub touches_bgp : List ChangeOp → Bool
touches_bgp ops = any is_bgp_op ops

abbrev pub touches_pbr : List ChangeOp → Bool
touches_pbr ops = false

unfoldable pub push_unique_feature : List HighRiskFeature → HighRiskFeature → List HighRiskFeature
push_unique_feature features feature =
    if any (is_feature feature) features then features else features ++ feature ∷ []

abbrev pub push_all : List HighRiskFeature → List HighRiskFeature → List HighRiskFeature
push_all features [] = features
push_all features (feature ∷ rest) = push_all (push_unique_feature features feature) rest

abbrev pub push_if : Bool → HighRiskFeature → List HighRiskFeature → List HighRiskFeature
push_if true feature features = push_unique_feature features feature
push_if false feature features = features

unfoldable pub effective_high_risk_features :
    List ChangeOp → (declared : List HighRiskFeature) → List HighRiskFeature
effective_high_risk_features ops declared =
    push_all (push_if (touches_bgp ops) bgp (push_if (touches_pbr ops) pbr [])) declared

unfoldable pub classify_blast_radius : List ChangeOp → List HighRiskFeature → BlastRadius
classify_blast_radius ops features =
    if any (is_feature bgp) features
    then routing_control_plane
    else if not (is_nil features)
    then policy_reference
    else if is_nil ops
    then no_change
    else if touches_bgp ops
    then routing_control_plane
    else if touches_acl ops
    then policy_reference
    else local_interface_or_vlan

unfoldable pub first_rejection_reason : (feature : Text) → List Text → Text
first_rejection_reason feature [] = text "write rejected for " ++ feature
first_rejection_reason feature (reason ∷ reasons) =
    let rest = first_rejection_reason feature reasons in
    if contains_text feature (lower reason) then reason else rest

unfoldable pub feature_rejection_reason : DeviceModelProfile → (feature : Text) → Text
feature_rejection_reason profile feature =
    let reason = first_rejection_reason feature profile.rejection_reasons in
    if starts_with (feature ++ text ":") (lower (trim_start reason))
    then reason
    else feature ++ (text ": " ++ reason)

-- What a feature that may be written still lacks.
unfoldable pub missing_path : DeviceModelProfile → HighRiskFeature → List Text
missing_path profile feature =
    if is_feature feature bgp
    then (if has_writable_bgp_path profile
        then []
        else text "bgp: missing writable BGP path evidence" ∷ [])
    else if has_verified_writable_path_for_feature profile feature
    then []
    else (feature_name feature ++ text ": missing verified writable path-level evidence") ∷ []

unfoldable pub unsupported_by :
    DeviceModelProfile → HighRiskFeature → Option WriteReadiness → List Text
unsupported_by profile feature (some write_safe) = missing_path profile feature
unsupported_by profile feature (some WriteReadiness.read_only) =
    (feature_name feature ++ text ": write readiness is read-only") ∷ []
unsupported_by profile feature (some write_rejected) =
    feature_rejection_reason profile (feature_name feature) ∷ []
unsupported_by profile feature none =
    (feature_name feature ++ text ": DeviceModelProfile write readiness is not implemented") ∷ []

unfoldable pub unsupported_features : DeviceModelProfile → List HighRiskFeature → List Text
unsupported_features profile [] = []
unsupported_features profile (feature ∷ rest) =
    unsupported_by profile feature (feature_readiness profile feature)
    ++ unsupported_features profile rest

unfoldable pub collect_unsupported_paths :
    Option DeviceModelProfile → (missing : List Text) → List HighRiskFeature → List Text
collect_unsupported_paths profile missing features =
    map (λ policy. text "bgp: missing route-policy evidence " ++ policy) missing ++ elim profile [
      | none ↦ map (λ f. feature_name f ++ text ": missing device model profile") features
      | some p ↦ unsupported_features p features
    ]

abbrev pub is_open_config : ModelPathSupport → Bool
is_open_config path = elim path.protocol [
  | open_config_gnmi ↦ true
  | open_config_netconf ↦ true
  | _ ↦ false
]

-- The paths that the change set may use.
abbrev pub writable_paths : DeviceModelProfile → List ChangeOp → List ModelPathSupport
writable_paths profile ops =
    filter is_usable (filter (λ path. not (touches_bgp ops) || is_bgp_path path) profile.paths)

unfoldable pub choose_model : List ModelPathSupport → DryRunWriteDecision
choose_model paths =
    if not (is_nil paths)
    then (if any (λ path. path.verified_on_device && path.writable && is_open_config path) paths
        then allowed_standard_model
        else allowed_vendor_native)
    else allowed_vendor_private

abbrev is_feature_read_only : Option WriteReadiness → Bool
is_feature_read_only none = false
is_feature_read_only (some r) = is_read_only r

unfoldable pub decide_with_profile :
    DeviceModelProfile
    → BlastRadius
    → (unsupported : List Text) → List ChangeOp
    → List HighRiskFeature
    → DryRunWriteDecision
decide_with_profile profile radius unsupported ops features =
    if any (λ f. is_feature_read_only (feature_readiness profile f)) features
    then DryRunWriteDecision.read_only
    else if is_risky radius && not (is_nil unsupported)
    then rejected
    else if (is_write_rejected profile.pbr_write_readiness
          && is_write_rejected profile.bgp_write_readiness)
        && is_routing radius
    then rejected
    else if ((touches_pbr ops && is_read_only profile.pbr_write_readiness)
          || (touches_bgp ops && is_read_only profile.bgp_write_readiness))
        && is_risky radius
    then DryRunWriteDecision.read_only
    else choose_model (writable_paths profile ops)

unfoldable pub classify_write_decision :
    Option DeviceModelProfile
    → BlastRadius
    → (unsupported : List Text) → List ChangeOp
    → List HighRiskFeature
    → DryRunWriteDecision
classify_write_decision (some profile) radius unsupported ops features =
    decide_with_profile profile radius unsupported ops features
classify_write_decision none radius unsupported ops features =
    if not (is_nil features) || is_routing radius then rejected else allowed_vendor_private

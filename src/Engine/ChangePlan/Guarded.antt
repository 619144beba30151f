-- ===== src/Engine/ChangePlan/Guarded.antt =====
-- A change of a feature at risk is let through only with evidence.
use aria_underlay.Base.{
  Text, List, [], ◌∷◌, ◌++◌, Option, none, some, Bool, true, false, not, ◌||◌, map, any, is_nil,
  All, if◌then◌else◌, ◌≡◌, refl, inl, inr, Bool-cases, arith,
}
use aria_underlay.Base.BTree.{BTreeSet}
use aria_underlay.Engine.Diff.{ChangeOp, ChangeSet}
use aria_underlay.Engine.Profile.{WriteReadiness, write_safe, write_rejected, DeviceModelProfile}
use aria_underlay.Engine.ChangePlan.{ChangePlan, build_change_plan}
use aria_underlay.Engine.ChangePlan.Guard.{
  HighRiskFeature, bgp, BlastRadius, DryRunWriteDecision, is_feature, is_risky, touches_bgp,
  has_writable_bgp_path, has_verified_writable_path_for_feature, feature_readiness, push_if,
  push_unique_feature, effective_high_risk_features, classify_blast_radius, missing_path,
  unsupported_by, unsupported_features, collect_unsupported_paths, decide_with_profile,
  classify_write_decision, push_all,
}

abbrev pub is_allowed : DryRunWriteDecision → Bool
is_allowed DryRunWriteDecision.allowed_standard_model = true
is_allowed DryRunWriteDecision.allowed_vendor_native = true
is_allowed DryRunWriteDecision.allowed_vendor_private = true
is_allowed DryRunWriteDecision.read_only = false
is_allowed DryRunWriteDecision.rejected = false

-- The profile calls the feature safe to write, and names a path that was verified on the device.
abbrev pub IsEvidenced : DeviceModelProfile → HighRiskFeature → Type 0
IsEvidenced profile feature =
    (feature_readiness profile feature ≡ some write_safe)
    × ((if is_feature feature bgp
          then has_writable_bgp_path profile
          else has_verified_writable_path_for_feature profile feature)
        ≡ true)

missing_path-nil :
    (profile : DeviceModelProfile) (feature : HighRiskFeature)
    → missing_path profile feature ≡ []
    → (if is_feature feature bgp
        then has_writable_bgp_path profile
        else has_verified_writable_path_for_feature profile feature)
      ≡ true
unfolding missing_path
missing_path-nil profile feature h = ground arith

unsupported_by-nil :
    (profile : DeviceModelProfile) (feature : HighRiskFeature) (r : Option WriteReadiness)
    → feature_readiness profile feature ≡ r
    → unsupported_by profile feature r ≡ []
    → IsEvidenced profile feature
unfolding unsupported_by
unsupported_by-nil profile feature none e h = cc
unsupported_by-nil profile feature (some WriteReadiness.read_only) e h = cc
unsupported_by-nil profile feature (some write_safe) e h = (e, missing_path-nil profile feature h)
unsupported_by-nil profile feature (some write_rejected) e h = cc

append_nil : {A : Type 0} (a b : List A) → a ++ b ≡ [] → (a ≡ []) × (b ≡ [])
append_nil [] b h = (refl, h)
append_nil (x ∷ a) b h = cc

unsupported_features-nil :
    (profile : DeviceModelProfile) (features : List HighRiskFeature)
    → unsupported_features profile features ≡ []
    → All (IsEvidenced profile) features
unfolding unsupported_features
unsupported_features-nil profile [] h = tt
unsupported_features-nil profile (f ∷ fs) h =
    let (here, later) = append_nil _ _ h in
    (unsupported_by-nil profile f _ refl here, unsupported_features-nil profile fs later)

map-nil : {A B : Type 0} (f : A → B) (l : List A) → map f l ≡ [] → l ≡ []
map-nil f [] h = refl
map-nil f (x ∷ l) h = cc

nil_of_is_nil : {A : Type 0} (l : List A) → is_nil l ≡ true → l ≡ []
nil_of_is_nil [] h = refl
nil_of_is_nil (x ∷ l) h = cc

radius-risky :
    (ops : List ChangeOp) (features : List HighRiskFeature)
    → is_nil features ≡ false
    → is_risky (classify_blast_radius ops features) ≡ true
unfolding classify_blast_radius
radius-risky ops features h = ground arith

-- A decision that lets a risky change through leaves nothing unsupported.
decide-supported :
    (profile : DeviceModelProfile) (radius : BlastRadius) (unsupported : List Text)
    (ops : List ChangeOp) (features : List HighRiskFeature)
    → is_risky radius ≡ true
    → is_allowed (decide_with_profile profile radius unsupported ops features) ≡ true
    → is_nil unsupported ≡ true
unfolding decide_with_profile
decide-supported profile radius unsupported ops features r h = ground arith

any-append :
    (p : HighRiskFeature → Bool) (a b : List HighRiskFeature)
    → any p a ≡ true
    → any p (a ++ b) ≡ true
any-append p [] b h = cc
any-append p (x ∷ a) b h = ground (arith, any-append p a b)

kept_feature :
    (g f : HighRiskFeature) (features : List HighRiskFeature)
    → any (is_feature g) features ≡ true
    → any (is_feature g) (push_unique_feature features f) ≡ true
unfolding push_unique_feature
kept_feature g f features h = elim (Bool-cases (any (is_feature f) features)) [
  | inl e ↦ rw e h
  | inr e ↦ rw e (any-append (is_feature g) features (f ∷ []) h)
]

kept_features :
    (g : HighRiskFeature) (features declared : List HighRiskFeature)
    → any (is_feature g) features ≡ true
    → any (is_feature g) (push_all features declared) ≡ true
kept_features g features [] h = h
kept_features g features (f ∷ rest) h =
    kept_features g (push_unique_feature features f) rest (kept_feature g f features h)

-- A change set that touches BGP puts BGP at risk, whatever is declared.
bgp_at_risk :
    (ops : List ChangeOp) (declared : List HighRiskFeature)
    → touches_bgp ops ≡ true
    → any (is_feature bgp) (effective_high_risk_features ops declared) ≡ true
unfolding effective_high_risk_features push_unique_feature
bgp_at_risk ops declared h = rw h (kept_features bgp (bgp ∷ []) declared refl)

push_unique_feature-filled :
    (features : List HighRiskFeature) (f : HighRiskFeature)
    → is_nil (push_unique_feature features f) ≡ false
unfolding push_unique_feature
push_unique_feature-filled [] f = refl
push_unique_feature-filled (g ∷ gs) f = elim (Bool-cases (any (is_feature f) (g ∷ gs))) [
  | inl e ↦ rw e refl
  | inr e ↦ rw e refl
]

push_all-filled :
    (features declared : List HighRiskFeature)
    → is_nil features ≡ false
    → is_nil (push_all features declared) ≡ false
push_all-filled features [] h = h
push_all-filled features (f ∷ rest) h =
    push_all-filled (push_unique_feature features f) rest (push_unique_feature-filled features f)

features_filled :
    (touched : Bool) (declared : List HighRiskFeature)
    → (touched || not (is_nil declared)) ≡ true
    → is_nil (push_all (push_if touched bgp []) declared) ≡ false
features_filled true declared h =
    push_all-filled (push_unique_feature [] bgp) declared (push_unique_feature-filled [] bgp)
features_filled false [] h = cc
features_filled false (f ∷ rest) h =
    push_all-filled (push_unique_feature [] f) rest (push_unique_feature-filled [] f)

bgp_counted :
    (ops : List ChangeOp) (declared : List HighRiskFeature)
    → (not (touches_bgp ops) || any (is_feature bgp) (effective_high_risk_features ops declared))
      ≡ true
bgp_counted ops declared = elim (Bool-cases (touches_bgp ops)) [
  | inl e ↦ rw (e, bgp_at_risk ops declared e) refl
  | inr e ↦ rw e refl
]

-- There is a profile, it has evidence for every feature at risk, of which BGP is one where it is touched,
-- and every route policy that is referred to is known.
pub record IsBacked (ops : List ChangeOp) (profile : Option DeviceModelProfile) (plan : ChangePlan)
    : Type 0 where
  pub known : DeviceModelProfile
  pub given : profile ≡ some known
  pub evidenced : All (IsEvidenced known) plan.high_risk_features
  pub counted : (not (touches_bgp ops) || any (is_feature bgp) plan.high_risk_features) ≡ true
  pub policies : plan.missing_route_policy_refs ≡ []

module _ (ops : List ChangeOp) (missing : List Text) (features : List HighRiskFeature)
    (filled : is_nil features ≡ false) where
  abbrev radius_of : BlastRadius
  radius_of = classify_blast_radius ops features

  Backed : Option DeviceModelProfile → Type 0
  Backed profile =
      (p : DeviceModelProfile) × (profile ≡ some p) × All (IsEvidenced p) features × (missing ≡ [])

  classify-Backed :
      (profile : Option DeviceModelProfile)
      → is_allowed (
          classify_write_decision profile radius_of
            (collect_unsupported_paths profile missing features)
            ops
            features)
        ≡ true
      → Backed profile
  unfolding Backed classify_write_decision collect_unsupported_paths
  classify-Backed none h = let q = rw filled at h in cc
  classify-Backed (some p) h =
      let quiet =
        decide-supported p radius_of _ ops features (radius-risky ops features filled) h in
      let (policies, rest) = append_nil _ _ (nil_of_is_nil _ quiet) in
      (p, refl, unsupported_features-nil p features rest, map-nil _ missing policies)

-- A change plan whose decision lets the device be written although a feature is at risk, be it that the
-- change set touches BGP or that the caller declares a feature, rests on a profile of the device that
-- calls each of these features safe to write and names a path for it that was verified on the device to be
-- readable and writable; and no route policy that the change set refers to is missing.
pub build_change_plan-IsBacked :
    (change_set : ChangeSet) (profile : Option DeviceModelProfile) (evidence : BTreeSet Text)
    (declared : List HighRiskFeature)
    → (touches_bgp change_set.ops || not (is_nil declared)) ≡ true
    → is_allowed (build_change_plan change_set profile evidence declared).write_decision ≡ true
    → IsBacked change_set.ops profile (build_change_plan change_set profile evidence declared)
unfolding build_change_plan Backed effective_high_risk_features
build_change_plan-IsBacked change_set profile evidence declared r h =
    let ops = change_set.ops in
    let (known, given, evidenced, policies) =
      classify-Backed ops _ (effective_high_risk_features ops declared)
        (features_filled (touches_bgp ops) declared r) profile h in
    record {
      known = known;
      given = given;
      evidenced = evidenced;
      counted = bgp_counted ops declared;
      policies = policies;
    }

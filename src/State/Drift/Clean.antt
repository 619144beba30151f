-- ===== src/State/Drift/Clean.antt =====
-- When a comparison finds nothing.
use aria_underlay.Base.{
  Text, List, [], ◌∷◌, ◌++◌, Option, none, some, true, false, not, map, is_nil, is_some, if_pos,
  if_neg, ◌≡◌, refl, sym, ap, ◌∙◌, subst, ◌↔◌, inl, inr, Bool-cases, Option-cases, Ord, ℕ_ord,
  text_ord, arith,
}
use aria_underlay.Base.BTree.{
  BTreeMap, get, contains_key, contains_key-get, IsSorted, Entries, Entries-get, Entries-found,
  Entries-map, get_ext,
}
use aria_underlay.State.Shadow.{DeviceShadowState}
use aria_underlay.Engine.Normalize.{normalize_shadow_state}
use aria_underlay.Engine.Normalize.Shadow.{normalize_shadow_state-IsNormalShadow, IsNormalShadow}
use aria_underlay.State.Drift.{
  DriftType, compare, look_for, expected_findings, extra_findings, map_findings, all_findings,
  warning_finding, detect_drift,
}

module _ {ℓ} {A : Type ℓ} where
  append_nil : (x y : List A) → x ++ y ≡ [] → (x ≡ []) × (y ≡ [])
  append_nil [] y h = (refl, h)
  append_nil (a ∷ x) y h = cc

  append_both : (x y : List A) → x ≡ [] → y ≡ [] → x ++ y ≡ []
  append_both x y h k = rw (h, k) refl

  is_nil_iff : (l : List A) → (not (is_nil l) ≡ false) ↔ (l ≡ [])
  is_nil_iff [] = ground arith
  is_nil_iff (a ∷ l) = ground arith

module _ {ℓ κ} {K : Type ℓ} {V : Type κ} ⦃o : Ord K⦄ (dec : Discrete V) (path : K → Text)
    (summary : V → Text) (mismatch missing extra : DriftType) where
  abbrev Absent : BTreeMap K V → BTreeMap K V → Type 0
  Absent e b = (map_findings dec path summary mismatch missing extra e b ≡ [])

  look_for-nil :
      (k : K) (v : V) (x : Option V)
      → look_for dec path summary mismatch missing extra k v x ≡ []
      → x ≡ some v
  unfolding look_for compare
  look_for-nil k v none h = cc
  look_for-nil k v (some w) h = elim (dec v w) [
    | yes e ↦ ap some (sym e)
    | no n ↦ let q = sym (if_neg (dec v w) n _ _) ∙ h in cc
  ]

  look_for-found :
      (k : K) (v : V) → look_for dec path summary mismatch missing extra k v (some v) ≡ []
  unfolding look_for compare
  look_for-found k v = if_pos (dec v v) refl _ _

  expected_findings-nil :
      (observed m : BTreeMap K V)
      → expected_findings dec path summary mismatch missing extra observed m ≡ []
      → Entries (λ k v. get k observed ≡ some v) m
  unfolding expected_findings
  expected_findings-nil observed [] h = tt
  expected_findings-nil observed ((k, v) ∷ m) h =
      let (here, later) = append_nil _ _ h in
      (look_for-nil k v (get k observed) here, expected_findings-nil observed m later)

  expected_findings-found :
      (observed m : BTreeMap K V)
      → Entries (λ k v. get k observed ≡ some v) m
      → expected_findings dec path summary mismatch missing extra observed m ≡ []
  unfolding expected_findings
  expected_findings-found observed [] h = refl
  expected_findings-found observed ((k, v) ∷ m) h =
      append_both _ _
        (ap (look_for dec path summary mismatch missing extra k v) h.0 ∙ look_for-found k v)
        (expected_findings-found observed m h.1)

  extra_findings-nil :
      (expected m : BTreeMap K V)
      → extra_findings dec path summary mismatch missing extra expected m ≡ []
      → Entries (λ k v. contains_key k expected ≡ true) m
  unfolding extra_findings
  extra_findings-nil expected [] h = tt
  extra_findings-nil expected ((k, v) ∷ m) h = elim (Bool-cases (contains_key k expected)) [
    | inl e ↦ (e, extra_findings-nil expected m (rw e at h))
    | inr e ↦ let q = rw e at h in cc
  ]

  extra_findings-found :
      (expected m : BTreeMap K V)
      → Entries (λ k v. contains_key k expected ≡ true) m
      → extra_findings dec path summary mismatch missing extra expected m ≡ []
  unfolding extra_findings
  extra_findings-found expected [] h = refl
  extra_findings-found expected ((k, v) ∷ m) h = rw h.0 (extra_findings-found expected m h.1)

  same_entry :
      (e b : BTreeMap K V)
      → Entries (λ k v. get k b ≡ some v) e
      → Entries (λ k v. contains_key k e ≡ true) b
      → (k : K) → get k e ≡ get k b
  same_entry e b h j k = elim (Option-cases (get k e)) [
    | inr (v, g) ↦ g ∙ sym (Entries-get (λ k v. get k b ≡ some v) k v e h g)
    | inl g ↦ elim (Option-cases (get k b)) [
      | inl q ↦ g ∙ sym q
      | inr (w, q) ↦
          ground
            (arith, Entries-get (λ k v. contains_key k e ≡ true) k w b j q, contains_key-get k e)
    ]
  ]

  -- The loops over a map find nothing exactly when the two maps are equal.
  pub map_findings-nil_iff :
      (e b : BTreeMap K V)
      → IsSorted e
      → IsSorted b
      → (map_findings dec path summary mismatch missing extra e b ≡ []) ↔ (e ≡ b)
  unfolding map_findings
  map_findings-nil_iff e b s t = (
    λ h.
        let (found, known) = append_nil _ _ h in
        get_ext e b s t
          (same_entry e b (expected_findings-nil b e found) (extra_findings-nil e b known)),
    λ q.
        append_both _ _
          (expected_findings-found b e
            (subst (λ x. Entries (λ k v. get k x ≡ some v) e) q (Entries-found e s)))
          (extra_findings-found e b (
            subst (λ x. Entries (λ k v. contains_key k x ≡ true) b) (sym q)
              (Entries-map (λ k v g. contains_key-get k b ∙ ap is_some g) b (Entries-found b t)))),
  )

warnings-nil_iff : (l : List Text) → (map warning_finding l ≡ []) ↔ (l ≡ [])
warnings-nil_iff [] = (λ h. refl, λ h. refl)
warnings-nil_iff (w ∷ l) = (λ h. cc, λ h. cc)

-- The states agree on all that `detect_drift` looks at, and the adapter has nothing to say.
abbrev pub Agrees : (expected observed : DeviceShadowState) → Type 0
Agrees e b =
    (e.vlans ≡ b.vlans)
    × (e.interfaces ≡ b.interfaces)
    × (e.acls ≡ b.acls)
    × (e.acl_bindings ≡ b.acl_bindings)
    × (b.warnings ≡ [])

all_findings_iff :
    (e b : DeviceShadowState)
    → IsNormalShadow e
    → IsNormalShadow b
    → (all_findings e b ≡ []) ↔ Agrees e b
unfolding all_findings
all_findings_iff e b n m = (
  λ h.
      let (vlans, r) = append_nil _ _ h in
      let (interfaces, r) = append_nil _ _ r in
      let (acls, r) = append_nil _ _ r in
      let (bindings, warnings) = append_nil _ _ r in
      (
        (map_findings-nil_iff _ _ _ _ _ _ e.vlans b.vlans n.vlans.0 m.vlans.0).0 vlans,
        (map_findings-nil_iff _ _ _ _ _ _ e.interfaces b.interfaces n.interfaces.0 m.interfaces.0).0
            interfaces,
        (map_findings-nil_iff _ _ _ _ _ _ e.acls b.acls n.acls.0 m.acls.0).0 acls,
        (map_findings-nil_iff _ _ _ _ _ _ e.acl_bindings b.acl_bindings n.acl_bindings.0
              m.acl_bindings.0).0
            bindings,
        (warnings-nil_iff b.warnings).0 warnings,
      ),
  λ (vlans, interfaces, acls, bindings, warnings).
      append_both _ _
        ((map_findings-nil_iff _ _ _ _ _ _ e.vlans b.vlans n.vlans.0 m.vlans.0).1 vlans)
        (append_both _ _
          ((map_findings-nil_iff _ _ _ _ _ _ e.interfaces b.interfaces n.interfaces.0
              m.interfaces.0).1
            interfaces)
          (append_both _ _
            ((map_findings-nil_iff _ _ _ _ _ _ e.acls b.acls n.acls.0 m.acls.0).1 acls)
            (append_both _ _
              ((map_findings-nil_iff _ _ _ _ _ _ e.acl_bindings b.acl_bindings n.acl_bindings.0
                  m.acl_bindings.0).1
                bindings)
              ((warnings-nil_iff b.warnings).1 warnings)))),
)

-- No drift is reported exactly when the normal forms of the expected and of the observed state hold the
-- same VLANs, interfaces, access lists and bindings, object by object and value by value, and the
-- observation carries no warning of the adapter.
pub detect_drift_iff :
    (expected observed : DeviceShadowState)
    → ((detect_drift expected observed).drift_detected ≡ false)
      ↔ Agrees (normalize_shadow_state expected) (normalize_shadow_state observed)
unfolding detect_drift
detect_drift_iff expected observed =
    let e = normalize_shadow_state expected in
    let b = normalize_shadow_state observed in
    let found = is_nil_iff (all_findings e b) in
    let agree =
      all_findings_iff e b (normalize_shadow_state-IsNormalShadow expected)
        (normalize_shadow_state-IsNormalShadow observed) in
    (λ h. agree.0 (found.0 h), λ h. found.1 (agree.1 h))

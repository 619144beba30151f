-- ===== src/Engine/Diff/Converge.antt =====
-- The change set of `compute_diff`, carried out by `apply_to_shadow`: what the state holds afterwards,
-- and that nothing is left to do.
use aria_underlay.Base.{ℕ, [], some, ◌≡◌, ◌∙◌, ap, ℕ_ord, text_ord}
use aria_underlay.Planner.DevicePlan.{DeviceDesiredState}
use aria_underlay.State.Shadow.{DeviceShadowState}
use aria_underlay.Engine.Normalize.{normalize_desired_state}
use aria_underlay.Engine.Normalize.Desired.{HasSets, normalize_desired_state-IsNormal}
use aria_underlay.Engine.Normalize.Shadow.{IsNormalShadow, normalize_shadow_state_fixed}
use aria_underlay.Engine.Diff.{compute_diff, diff_ops}
use aria_underlay.Engine.Diff.Apply.{apply_ops, apply_to_shadow}
use aria_underlay.Engine.Diff.Normal.{apply_ops-IsNormalShadow, diff_ops-WritesNormal}
use aria_underlay.Engine.Diff.Coherent.{IsCoherent, Reconciled, apply_ops-Reconciled, settled}

-- After the change set a desired state holds, key by key, what the reconciliation of the desired with
-- the current state says, and a second `compute_diff` is empty.
module _ (desired : DeviceDesiredState) (s : DeviceShadowState) (revision : ℕ)
    (sets : HasSets desired) (m : IsNormalShadow s) where
  abbrev pub after : DeviceShadowState
  after = apply_to_shadow (compute_diff desired s) (some s) desired revision

  started : DeviceShadowState
  started = record s { device_id = desired.device_id; revision = revision; warnings = [] }

  started-IsNormalShadow : IsNormalShadow started
  unfolding started
  started-IsNormalShadow = record {
    vlans = m.vlans;
    interfaces = m.interfaces;
    acls = m.acls;
    acl_bindings = m.acl_bindings;
    bgp_processes = m.bgp_processes;
    bgp_neighbors = m.bgp_neighbors;
  }

  -- The change set is applied to the current state with its maps as they are.
  after-apply_ops : after ≡ apply_ops (diff_ops (normalize_desired_state desired) started) started
  unfolding apply_to_shadow compute_diff started diff_ops
  after-apply_ops = rw (normalize_shadow_state_fixed s m)

  Reconciled-started :
      (t : DeviceShadowState)
      → Reconciled (normalize_desired_state desired) started t
      → Reconciled (normalize_desired_state desired) s t
  unfolding started
  Reconciled-started t r = record {
    vlans = r.vlans;
    interfaces = r.interfaces;
    acls = r.acls;
    bgp_processes = r.bgp_processes;
    acl_bindings = r.acl_bindings;
    bgp_neighbors = r.bgp_neighbors;
  }

  -- For a current state in normal form and sets of deletions that ascend, as a `BTreeSet` does: carried
  -- out on it, the change set of a desired state gives the state that is specified key by key, where
  -- each object is the wanted one, or absent if it is deleted, or as it was, and bindings go with their
  -- access list and neighbours with their process.
  pub apply_to_shadow-Reconciled : Reconciled (normalize_desired_state desired) s after
  apply_to_shadow-Reconciled = Reconciled-started after (
      rw after-apply_ops (
        apply_ops-Reconciled (normalize_desired_state desired) started
          (normalize_desired_state-IsNormal desired sets) started-IsNormalShadow))

  -- For a current state in normal form and sets of deletions that ascend: the state after its change
  -- set is in normal form, its maps ascending by key and every object canonical and under its own key.
  pub apply_to_shadow-IsNormalShadow : IsNormalShadow after
  apply_to_shadow-IsNormalShadow = rw after-apply_ops (
      apply_ops-IsNormalShadow _ started
        (diff_ops-WritesNormal _ started (normalize_desired_state-IsNormal desired sets))
        started-IsNormalShadow)

  -- For a current state in normal form, and a desired state with ascending sets of deletions that asks
  -- for no object that it also deletes, directly or with what it hangs on: once the change set has been
  -- carried out, the next change set of the same desired state is empty.
  pub compute_diff-apply_to_shadow :
      IsCoherent (normalize_desired_state desired) → (compute_diff desired after).ops ≡ []
  unfolding compute_diff
  compute_diff-apply_to_shadow c =
      ap (diff_ops (normalize_desired_state desired))
        (normalize_shadow_state_fixed after apply_to_shadow-IsNormalShadow)
      ∙ settled (normalize_desired_state desired) s after
          (normalize_desired_state-IsNormal desired sets) c apply_to_shadow-Reconciled

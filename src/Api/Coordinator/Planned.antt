-- ===== src/Api/Coordinator/Planned.antt =====
-- The change set for which a transaction is started.
use aria_underlay.Base.{List, [], ◌∷◌, ◌≡◌, arith, text_ord}
use aria_underlay.Base.BTree.{get, collect}
use aria_underlay.Base.Errors.{ok, err, >>=-eq-ok, >>-eq-ok}
use aria_underlay.Planner.DevicePlan.{DeviceDesiredState}
use aria_underlay.State.Shadow.{DeviceShadowState}
use aria_underlay.Engine.Diff.{ChangeSet, compute_diff, empty}
use aria_underlay.Api.Coordinator.Env.{Env}
use aria_underlay.Api.Coordinator.Single.{
  DriftPolicy, dry_run_change_sets, ensure_no_in_doubt_for_devices,
  ensure_drift_policy_allows_apply, fetch_current_states, dry_run_desired_states, prepare_plan,
}

-- The difference between what is asked for and what the adapter reports.
abbrev pub planned : Env → DeviceDesiredState → ChangeSet
planned env desired = elim (env.current_state desired) [
  | ok current ↦ compute_diff desired current
  | err e ↦ empty desired.device_id
]

module _ (env : Env) (desired : DeviceDesiredState) where
  fetched :
      (states : List DeviceShadowState)
      → fetch_current_states env (desired ∷ []) ≡ ok states
      → (current : DeviceShadowState) × (env.current_state desired ≡ ok current)
        × (states ≡ current ∷ [])
  unfolding fetch_current_states
  fetched states h =
      let (managed, e1, h1) = >>=-eq-ok (env.inventory desired.device_id) _ h in
      let (e2, h2) = >>-eq-ok (env.client desired.device_id) _ h1 in
      let (current, e3, h3) = >>=-eq-ok (env.current_state desired) _ h2 in
      let (e4, h4) = >>-eq-ok (env.put_observed current) _ h3 in (current, e3, cc)

  differing :
      (current : DeviceShadowState) (change_sets : List ChangeSet)
      → dry_run_change_sets (desired ∷ []) (current ∷ []) ≡ ok change_sets
      → change_sets ≡ compute_diff desired current ∷ []
  unfolding dry_run_change_sets get collect
  differing current change_sets h = ground arith

  pub prepare_plan-planned :
      (policy : DriftPolicy) (change_sets : List ChangeSet)
      → prepare_plan env desired policy ≡ ok change_sets
      → change_sets ≡ planned env desired ∷ []
  unfolding prepare_plan dry_run_desired_states
  prepare_plan-planned policy change_sets h =
      let (e1, h1) = >>-eq-ok (env.lock desired.device_id) _ h in
      let (e2, h2) = >>-eq-ok (ensure_no_in_doubt_for_devices env (desired.device_id ∷ [])) _ h1 in
      let (e3, h3) =
        >>-eq-ok (ensure_drift_policy_allows_apply env (desired.device_id ∷ []) policy) _ h2 in
      let (states, e4, h4) = >>=-eq-ok (fetch_current_states env (desired ∷ [])) _ h3 in
      let (current, e5, e6) = fetched states e4 in
      rw (planned, e5) (differing current change_sets (rw e6 at h4))

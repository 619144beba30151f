-- ===== src/Api/Coordinator/Request/Settled.antt =====
-- What the status of a request says of all its devices.
use aria_underlay.Base.{
  Text, List, [], ◌∷◌, ◌++◌, Bool, true, all, ◌&&◌, ◌≡◌, refl, sym, ◌∙◌, ◌⊎◌, inl, inr, none, arith,
}
use aria_underlay.Planner.DevicePlan.{DeviceDesiredState}
use aria_underlay.Api.Response.{ApplyStatus, DeviceApplyResult}
use aria_underlay.Api.Apply.{is_successful}
use aria_underlay.Api.Apply.Aggregate.{aggregate_apply_status-successful}
use aria_underlay.Api.Coordinator.Env.{Env, Run}
use aria_underlay.Api.Coordinator.Single.{DriftPolicy}
use aria_underlay.Api.Coordinator.Promise.{Honest, Completed}
use aria_underlay.Api.Coordinator.Planned.{planned}
use aria_underlay.Api.Coordinator.Honest.{apply_single_endpoint_state-Honest}
use aria_underlay.Api.Coordinator.Request.{
  World, Turn, results, turn, apply_each, apply_desired_states,
}

-- The device is as asked for: nothing had to be done, or all of it was done.
abbrev pub IsSettled : Env → DeviceDesiredState → Turn → Type 0
IsSettled env desired t =
    ((t.0 ≡ []) × (t.1.status ≡ ApplyStatus.no_op_success))
    ⊎ Completed env desired (planned env desired) t.1.strategy t.0

-- The same of each device, in its surroundings.
abbrev pub AllSettled :
    World → List DeviceApplyResult → List DeviceDesiredState → List Turn → Type 0
AllSettled world done [] [] = Unit
AllSettled world done [] (t ∷ ts) = ⊥
AllSettled world done (d ∷ ds) [] = ⊥
AllSettled world done (d ∷ ds) (t ∷ ts) =
    IsSettled (world.env done) d t × AllSettled world (done ++ t.1 ∷ []) ds ts

both : (a b : Bool) → (a && b) ≡ true → (a ≡ true) × (b ≡ true)
both a b h = ground arith

settled :
    (env : Env) (d : DeviceDesiredState) (t : Turn) (status : ApplyStatus)
    → t.1.status ≡ status
    → is_successful status ≡ true
    → Honest env d (planned env d) status t.1.strategy t.0
    → IsSettled env d t
settled env d t ApplyStatus.no_op_success q s h = inl (h, q)
settled env d t ApplyStatus.success q s h = inr h
settled env d t ApplyStatus.success_with_warning q s h = inr h
settled env d t ApplyStatus.partial_success q s h = elim h [ ]
settled env d t ApplyStatus.failed q s h = cc
settled env d t ApplyStatus.rolled_back q s h = cc
settled env d t ApplyStatus.in_doubt q s h = cc

module _ (world : World)
    (journaled : (done : List DeviceApplyResult) (s : Run)
      → (world.env done).journal_error s ≡ none)
    (request_id trace_id : Text) (allow : Bool) (policy : DriftPolicy) where
  apply_each-AllSettled :
      (done : List DeviceApplyResult) (ds : List DeviceDesiredState)
      → all
          (λ r. is_successful r.status)
          (results (apply_each world request_id trace_id allow policy done ds))
        ≡ true
      → AllSettled world done ds (apply_each world request_id trace_id allow policy done ds)
  unfolding apply_each
  apply_each-AllSettled done [] h = tt
  apply_each-AllSettled done (d ∷ ds) h =
      let t = turn world request_id trace_id allow policy done d in
      let (here, later) = both (is_successful t.1.status) _ h in
      (
        settled (world.env done) d t t.1.status refl here
            (apply_single_endpoint_state-Honest (world.env done) (journaled done) d allow policy _),
        apply_each-AllSettled (done ++ t.1 ∷ []) ds later,
      )

  -- If the journal stores whatever it is given and a request is reported as successful, with warnings or
  -- not, changed or not, then each of its devices, in the order of the plan, either had nothing to be
  -- done and was left alone, or went through the whole transaction: prepared, committed, verified and
  -- confirmed by the adapter, committed in the journal, and followed by the shadow.
  pub apply_desired_states-AllSettled :
      (d : DeviceDesiredState) (ds : List DeviceDesiredState)
      → is_successful
          (apply_desired_states world request_id trace_id allow policy (d ∷ ds)).1.status
        ≡ true
      → AllSettled world []
          (d ∷ ds)
          (apply_desired_states world request_id trace_id allow policy (d ∷ ds)).0
  unfolding apply_desired_states apply_each
  apply_desired_states-AllSettled d ds h =
      apply_each-AllSettled [] (d ∷ ds) (sym (aggregate_apply_status-successful _) ∙ h)

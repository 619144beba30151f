-- ===== src/Api/Coordinator/Changed.antt =====
-- `apply_changed_endpoint_states` for one device: the loop goes through its transaction, or fails as `Failed`
-- says.
use aria_underlay.Base.{List, [], ◌∷◌, Option, none, some, Bool, ◌≡◌, refl}
use aria_underlay.Planner.DevicePlan.{DeviceDesiredState}
use aria_underlay.Engine.Diff.{ChangeSet, is_empty}
use aria_underlay.Tx.Phase.{TxPhase}
use aria_underlay.Tx.Strategy.{TransactionStrategy}
use aria_underlay.Api.Response.{DeviceVerifyReport}
use aria_underlay.Api.Coordinator.Admit.{choose}
use aria_underlay.Api.Coordinator.Env.{Env, Run, pure, ◌>>=◌}
use aria_underlay.Api.Coordinator.Endpoint.{
  find_change_set, carry_out, apply_endpoint, apply_endpoints, Progress, visit, selected,
  apply_changed_endpoint_states,
}
use aria_underlay.Api.Coordinator.Rules.{Sat, Sat-caught, Sat-lift, Sat-if}
use aria_underlay.Api.Coordinator.Steps.{At, Failed, untouched}
use aria_underlay.Api.Coordinator.Confirm.{Through, carry_out-Sat}

module _ (env : Env) (journaled : (s : Run) → env.journal_error s ≡ none)
    (desired : DeviceDesiredState) (allow : Bool) where
  -- The change set of the device, and a transaction for it that went through.
  abbrev pub Succeeded :
      List ChangeSet → TransactionStrategy × Option DeviceVerifyReport → Run → Type 0
  Succeeded change_sets done t =
      (changes : ChangeSet) × (find_change_set desired.device_id change_sets ≡ some changes)
      × Through env journaled desired changes done.0 t

  module _ (change_sets : List ChangeSet) where
    abbrev Finished : Option TransactionStrategy × Option DeviceVerifyReport → Run → Type 0
    Finished (none, report) t = At TxPhase.preparing [] t
    Finished (some strategy, report) t = Succeeded change_sets (strategy, report) t

    endpoint-Sat :
        (changes : ChangeSet) (s : Run)
        → At TxPhase.preparing [] s
        → Sat
            (λ done t. Through env journaled desired changes done.0 t)
            Failed
            (apply_endpoint env allow desired changes s)
    unfolding apply_endpoint
    endpoint-Sat changes s a =
        Sat-lift (λ done t. Through env journaled desired changes done.0 t) Failed
          (choose env allow desired.device_id)
          (λ strategy. carry_out env desired changes strategy >>= λ report. pure (strategy, report))
          s (untouched a)
          (λ strategy.
            Sat-caught (λ _. Through env journaled desired changes strategy)
              (λ done t. Through env journaled desired changes done.0 t) Failed
              (λ report. pure (strategy, report)) (carry_out env desired changes strategy s)
              (carry_out-Sat env journaled desired changes strategy s a) (λ report u c. c))

    visit-Sat :
        (found : Option ChangeSet) (s : Run)
        → find_change_set desired.device_id change_sets ≡ found
        → At TxPhase.preparing [] s
        → Sat Finished Failed (visit env allow desired (none, none) pure found s)
    unfolding visit
    visit-Sat none s f a = untouched a
    visit-Sat (some changes) s f a =
        Sat-if Finished Failed (is_empty changes) _ _ s (λ _. a)
          (λ _.
            Sat-caught (λ done t. Through env journaled desired changes done.0 t) Finished Failed
              (λ done. pure (some done.0, some done.1)) (apply_endpoint env allow desired changes s)
              (endpoint-Sat changes s a) (λ done t g. (changes, f, g)))

    selected-Sat :
        (found : Progress env) (t : Run)
        → Finished found t
        → Sat (Succeeded change_sets) Failed (selected env found t)
    selected-Sat (none, report) t h = untouched h
    selected-Sat (some strategy, report) t h = h

    pub apply_changed-Sat :
        (s : Run)
        → At TxPhase.preparing [] s
        → Sat
            (Succeeded change_sets)
            Failed
            (apply_changed_endpoint_states env allow change_sets (desired ∷ []) s)
    unfolding apply_changed_endpoint_states apply_endpoints
    apply_changed-Sat s a =
        Sat-caught Finished (Succeeded change_sets) Failed (selected env)
          (apply_endpoints env allow change_sets (none, none) (desired ∷ []) s)
          (visit-Sat (find_change_set desired.device_id change_sets) s refl a) selected-Sat

-- ===== src/Api/Coordinator/Promise.antt =====
-- What a reported status promises of the journal and of the device.
use aria_underlay.Base.{Text, List, [], ◌∷◌, Option, none, some, ◌≡◌, refl, ◌∙◌, ap, ◌⊎◌}
use aria_underlay.Base.Errors.{ok}
use aria_underlay.Planner.DevicePlan.{DeviceDesiredState}
use aria_underlay.State.Shadow.{DeviceShadowState}
use aria_underlay.Engine.Diff.{ChangeSet}
use aria_underlay.Engine.Diff.Apply.{apply_to_shadow}
use aria_underlay.Tx.Phase.{TxPhase, validate_transition, is_allowed, is_listed, TxPhase-discrete}
use aria_underlay.Tx.Strategy.{TransactionStrategy}
use aria_underlay.Tx.Journal.{with_phase, with_error, with_strategy}
use aria_underlay.Api.Response.{ApplyStatus, DeviceApplyResult}
use aria_underlay.Api.Coordinator.Env.{
  Env, Run, Event, stored, transition, put, set_strategy, note_error,
}
use aria_underlay.Api.Coordinator.Finish.{note_and_put, commit_record}
use aria_underlay.Api.Coordinator.Rules.{Sat, Never}
use aria_underlay.Api.Coordinator.Steps.{
  Calls, At, Undone, last_phase, calls, transition_accepted, put_stored,
}
use aria_underlay.Api.Coordinator.Confirm.{Carried}

module _ (env : Env) (desired : DeviceDesiredState) (changes : ChangeSet) where
  -- The device has been changed as asked, and what is known of it follows.
  pub record Completed (strategy : Option TransactionStrategy) (events : List Event) : Type 0 where
    pub used : TransactionStrategy
    pub reported : strategy ≡ some used
    pub committed : last_phase events ≡ some TxPhase.committed
    pub carried : Carried env.confirmed_commit_timeout_secs desired changes used (calls events)
    pub existing : Option DeviceShadowState
    pub read : env.shadow_get desired.device_id ≡ ok existing
    pub before : List Event
    pub followed : events ≡ stored (apply_to_shadow changes existing desired 0) ∷ before

  -- What a status promises.
  abbrev pub Honest : ApplyStatus → Option TransactionStrategy → List Event → Type 0
  Honest ApplyStatus.no_op_success strategy events = events ≡ []
  Honest ApplyStatus.success strategy events = Completed strategy events
  Honest ApplyStatus.success_with_warning strategy events = Completed strategy events
  Honest ApplyStatus.partial_success strategy events = ⊥
  Honest ApplyStatus.failed strategy events =
      (calls events ≡ []) × ((events ≡ []) ⊎ (last_phase events ≡ some TxPhase.failed))
  Honest ApplyStatus.rolled_back strategy events =
      Undone (calls events) × (last_phase events ≡ some TxPhase.rolled_back)
  Honest ApplyStatus.in_doubt strategy events =
      (events ≡ []) ⊎ (last_phase events ≡ some TxPhase.in_doubt)

  abbrev pub Ends : Run × DeviceApplyResult → Type 0
  Ends (t, r) = Honest r.status r.strategy t.events

  -- A move that is not stored yet.
  pub record Moved (phase : TxPhase) (so_far : Calls) (s : Run) : Type 0 where
    pub is_in : s.journal_record.phase ≡ phase
    pub history : calls s.events ≡ so_far

  module _ (journaled : (s : Run) → env.journal_error s ≡ none) where
    pub transition-Moved :
        (p q : TxPhase) (cs : Calls) (s : Run)
        → validate_transition p q ≡ ok tt
        → At p cs s
        → Sat (λ _. Moved q cs) Never (transition env q s)
    unfolding with_phase
    transition-Moved p q cs s v a =
        rw (transition_accepted env journaled q s (ap (λ x. validate_transition x q) a.is_in ∙ v))
          (record { is_in = refl; history = a.history })

    pub put-At :
        (q : TxPhase) (cs : Calls) (s : Run) → Moved q cs s → Sat (λ _. At q cs) Never (put env s)
    put-At q cs s m =
        rw (put_stored env journaled s)
          (record { is_in = m.is_in; last = ap some m.is_in; history = m.history })

    pub noted-At :
        (q : TxPhase) (cs : Calls) (code message : Text) (s : Run)
        → Moved q cs s
        → Sat (λ _. At q cs) Never (note_and_put env code message s)
    unfolding note_and_put note_error with_error
    noted-At q cs code message s m = put-At q cs _ (record { is_in = m.is_in; history = m.history })

    pub committing-Moved :
        (strategy : TransactionStrategy) (cs : Calls) (s : Run)
        → At TxPhase.final_confirming cs s
        → Sat (λ _. Moved TxPhase.committed cs) Never (commit_record env strategy s)
    unfolding commit_record set_strategy with_strategy validate_transition is_allowed is_listed
        TxPhase-discrete
    committing-Moved strategy cs s a =
        transition-Moved TxPhase.final_confirming TxPhase.committed cs _ refl
          (record { is_in = a.is_in; last = a.last; history = a.history })

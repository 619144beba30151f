-- ===== src/Api/Coordinator/Logged.antt =====
-- The journal is written ahead: what the adapter is asked to do is in the journal before it is asked,
-- whatever fails. Nothing is assumed of the journal, the adapter or the clock.
pub mod Steps
pub mod Whole
use aria_underlay.Base.{
  Text, List, [], ◌∷◌, Option, none, some, Bool, true, false, all, ◌≡◌, refl, ◌∙◌, ap, sym, subst,
  ◌⊎◌, inl, inr, if◌then◌else◌, Bool-cases, Option-cases,
}
use aria_underlay.Base.Errors.{UnderlayError, UnderlayResult, ok, err, Result-cases}
use aria_underlay.Model.{DeviceId}
use aria_underlay.Planner.DevicePlan.{DeviceDesiredState}
use aria_underlay.Engine.Diff.{ChangeSet}
use aria_underlay.Tx.Phase.{TxPhase, validate_transition}
use aria_underlay.Tx.Strategy.{TransactionStrategy}
use aria_underlay.Tx.Journal.{
  TxJournalRecord, transition_phase, with_phase, with_strategy, with_error,
}
use aria_underlay.Tx.Journal.Life.{transition_phase-cases}
use aria_underlay.Api.Response.{DeviceVerifyReport}
use aria_underlay.Api.Apply.{commit_status_matches_strategy}
use aria_underlay.Api.Coordinator.Env.{
  Env, Run, Event, wrote, called, stored, Operation, prepare, commit, verify, final_confirm,
  rollback, AdapterOutcome, Exec, pure, raise, caught, ◌>>=◌, ◌>>◌, transition, put, set_strategy,
  note_error, call,
}
use aria_underlay.Api.Coordinator.Endpoint.{
  is_prepared, is_committed, is_verified, is_undone, is_confirmed_commit, keep_on_failure,
  begin_rollback, leave_in_doubt, end_rollback, call_rollback, rollback_after_endpoint_failure,
  rollback_preserving_primary, with_rollback_failure_context, check_prepared, prepare_endpoint,
  check_committed, commit_endpoint, check_verified, verify_endpoint, check_confirmed,
  final_confirm_endpoint, finalize_non_confirmed_commit, confirm_endpoint, carry_out,
}
use aria_underlay.Api.Coordinator.Rules.{Sat, Sat-caught, Sat-if}

-- The phase in which each call is made.
abbrev pub phase_of : Operation → TxPhase
phase_of (prepare desired) = TxPhase.preparing
phase_of (commit strategy timeout checksum) = TxPhase.committing
phase_of (verify desired changes) = TxPhase.verifying
phase_of final_confirm = TxPhase.final_confirming
phase_of (rollback strategy) = TxPhase.rolling_back

-- The newest event is the write of a record in that phase.
abbrev pub Announced : TxPhase → List Event → Type 0
Announced phase [] = ⊥
Announced phase (wrote r ∷ es) = r.phase ≡ phase
Announced phase (called op answer ∷ es) = ⊥
Announced phase (stored state ∷ es) = ⊥

module _ (tx_id : Text) (ids : List DeviceId) where
  abbrev pub Owned : TxJournalRecord → Type 0
  Owned r = (r.tx_id ≡ tx_id) × (r.devices ≡ ids)

  -- Every record is that of the transaction, and every call comes directly after the write of a record in
  -- the phase of the call.
  abbrev pub Logged : List Event → Type 0
  Logged [] = Unit
  Logged (wrote r ∷ es) = Owned r × Logged es
  Logged (called op answer ∷ es) = Announced (phase_of op) es × Logged es
  Logged (stored state ∷ es) = Logged es

  pub record Sound (s : Run) : Type 0 where
    pub owned : Owned s.journal_record
    pub logged : Logged s.events

  pub record Ready (phase : TxPhase) (s : Run) : Type 0 where
    pub sound : Sound s
    pub announced : Announced phase s.events

  abbrev pub Keeps : {A : Type 0} → A → Run → Type 0
  Keeps a t = Sound t

  module _ (env : Env) where
    abbrev pub In : {A : Type 0} → TxPhase → A → Run → Type 0
    In phase a t = Sound t × (t.journal_record.phase ≡ phase)

    pub transition-Sound :
        (phase : TxPhase) (s : Run) → Sound s → Sat (In phase) Sound (transition env phase s)
    unfolding transition with_phase
    transition-Sound phase s h =
        elim (transition_phase-cases phase (env.clock s.readings) s.journal_record) [
          | inl (e, v, q) ↦ rw q (record { owned = h.owned; logged = h.logged })
          | inr (v, q) ↦ rw q (record { owned = h.owned; logged = h.logged }, refl)
        ]

    pub put-Ready :
        (phase : TxPhase) (s : Run) → In phase tt s → Sat (λ _. Ready phase) Sound (put env s)
    unfolding put
    put-Ready phase s h = elim (Option-cases (env.journal_error s)) [
      | inl e ↦
          rw (put, e)
            (record {
              sound = record { owned = h.0.owned; logged = (h.0.owned, h.0.logged) };
              announced = h.1;
            })
      | inr (f, e) ↦ rw (put, e) h.0
    ]

    -- A move that is stored before the next step.
    pub announce-Sat :
        {A : Type 0} (phase : TxPhase) (next : Exec A) (s : Run)
        → Sound s
        → ((t : Run) → Ready phase t → Sat Keeps Sound (next t))
        → Sat Keeps Sound ((transition env phase >> (put env >> next)) s)
    announce-Sat phase next s h k =
        Sat-caught (In phase) Keeps Sound (λ _. put env >> next) (transition env phase s)
          (transition-Sound phase s h)
          (λ _ t m.
            Sat-caught (λ _. Ready phase) Keeps Sound (λ _. next) (put env t) (put-Ready phase t m)
              (λ _. k))

    -- The same where nothing follows.
    pub announce_last-Sat :
        (phase : TxPhase) (s : Run)
        → Sound s
        → Sat (λ _. Ready phase) Sound ((transition env phase >> put env) s)
    announce_last-Sat phase s h =
        Sat-caught (In phase) (λ _. Ready phase) Sound (λ _. put env) (transition env phase s)
          (transition-Sound phase s h) (λ _. put-Ready phase)

    pub call-Sound :
        {A : Type 0} (op : Operation) (next : UnderlayResult AdapterOutcome → Exec A) (s : Run)
        → Ready (phase_of op) s
        → ((answer : UnderlayResult AdapterOutcome) (t : Run)
            → Sound t
            → Sat Keeps Sound (next answer t))
        → Sat Keeps Sound ((call env op >>= next) s)
    unfolding call
    call-Sound op next s r k =
        k (env.adapter s op) (call env op s).0
          (record { owned = r.sound.owned; logged = (r.announced, r.sound.logged) })

    pub Ready-Sound :
        {A : Type 0} (phase : TxPhase) (out : Run × UnderlayResult A)
        → Sat (λ _. Ready phase) Sound out
        → Sat Keeps Sound out
    Ready-Sound phase (s, ok a) h = h.sound
    Ready-Sound phase (s, err e) h = h

    pub put-Sound : (s : Run) → Sound s → Sat Keeps Sound (put env s)
    put-Sound s h =
        Ready-Sound s.journal_record.phase (put env s)
          (put-Ready s.journal_record.phase s (h, refl))

    leave_in_doubt-Sound :
        (code message : Text) (e : UnderlayError) (s : Run)
        → Sound s
        → Sat Keeps Sound (leave_in_doubt env code message e s)
    unfolding leave_in_doubt note_error with_error
    leave_in_doubt-Sound code message e s h =
        Sat-caught (In TxPhase.in_doubt) Keeps Sound
          (λ _. note_error env code message >> (put env >> raise e))
          (transition env TxPhase.in_doubt s) (transition-Sound TxPhase.in_doubt s h)
          (λ _ t m.
            Sat-caught Keeps Keeps Sound (λ _. raise e) (put env (note_error env code message t).0)
              (put-Sound (note_error env code message t).0
                (record { owned = m.0.owned; logged = m.0.logged }))
              (λ _ u n. n))

    end_rollback-Sound :
        (answer : UnderlayResult AdapterOutcome) (s : Run)
        → Sound s
        → Sat Keeps Sound (end_rollback env answer s)
    unfolding end_rollback
    end_rollback-Sound (err e) s h = leave_in_doubt-Sound _ _ e s h
    end_rollback-Sound (ok outcome) s h =
        Sat-if Keeps Sound (is_undone outcome.status) _ _ s
          (λ _. Ready-Sound TxPhase.rolled_back _ (announce_last-Sat TxPhase.rolled_back s h))
          (λ _. leave_in_doubt-Sound _ _ _ s h)

    restored :
        (s : Run) (out : Run × UnderlayResult (Unit {0}))
        → Sound s
        → Sat (λ _. Ready TxPhase.rolling_back) Sound out
        → Sat (λ _. Ready TxPhase.rolling_back) Sound (keep_on_failure env s out)
    restored s (t, ok u) h r = r
    restored s (t, err e) h r = record { owned = h.owned; logged = r.logged }

    call_rollback-Sound :
        (s : Run) → Ready TxPhase.rolling_back s → Sat Keeps Sound (call_rollback env s)
    unfolding call_rollback
    call_rollback-Sound s r =
        call-Sound (rollback s.journal_record.strategy) (end_rollback env) s r end_rollback-Sound

    always_fails :
        (A : Type 0) (primary : UnderlayError) (out : Run × UnderlayResult (Unit {0}))
        → Sat Keeps Sound out
        → Sat {A = A} Keeps Sound (
            caught
              (λ e t. (t, err (with_rollback_failure_context primary e)))
              (λ _ t. (t, err primary))
              out)
    always_fails A primary (s, ok a) h = h
    always_fails A primary (s, err e) h = h

    pub rollback_preserving_primary-Sound :
        (A : Type 0) (primary : UnderlayError) (s : Run)
        → Sound s
        → Sat {A = A} Keeps Sound (rollback_preserving_primary env primary s)
    unfolding rollback_preserving_primary rollback_after_endpoint_failure begin_rollback
    rollback_preserving_primary-Sound A primary s h = always_fails A primary _ (
        Sat-caught (λ _. Ready TxPhase.rolling_back) Keeps Sound (λ _. call_rollback env)
          (begin_rollback env s) (restored s _ h (announce_last-Sat TxPhase.rolling_back s h))
          (λ _. call_rollback-Sound))

-- ===== src/Api/Coordinator/Steps.antt =====
-- The steps of a run whose journal stores what it is given. `At` says where a run stands: the phase of
-- its record, which is also the last phase in the journal, and the calls of the adapter so far.
use aria_underlay.Base.{◌+◌, Text, List, [], ◌∷◌, Option, none, some, true, ◌≡◌, refl, ◌∙◌, ap}
use aria_underlay.Base.Errors.{UnderlayError, UnderlayResult, ok, err}
use aria_underlay.Tx.Phase.{TxPhase, validate_transition, is_allowed, is_listed, TxPhase-discrete}
use aria_underlay.Tx.Journal.{transition_phase, with_phase, with_error}
use aria_underlay.Tx.Strategy.{TransactionStrategy}
use aria_underlay.Api.Coordinator.Env.{
  Env, Run, Event, wrote, called, stored, Operation, rollback, AdapterOutcome, Exec, ◌>>=◌, ◌>>◌,
  caught, transition, put, note_error, call,
}
use aria_underlay.Api.Coordinator.Endpoint.{
  is_undone, begin_rollback, leave_in_doubt, end_rollback, call_rollback,
  rollback_after_endpoint_failure, rollback_preserving_primary, with_rollback_failure_context,
}
use aria_underlay.Api.Coordinator.Rules.{Sat, Sat-caught, Sat-if}

-- The phase of the last record in the journal.
abbrev pub last_phase : List Event → Option TxPhase
last_phase [] = none
last_phase (wrote r ∷ es) = some r.phase
last_phase (called op answer ∷ es) = last_phase es
last_phase (stored state ∷ es) = last_phase es

abbrev pub Calls : Type 0
Calls = List (Operation × UnderlayResult AdapterOutcome)

-- The calls of the adapter, the newest first.
abbrev pub calls : List Event → Calls
calls [] = []
calls (wrote r ∷ es) = calls es
calls (called op answer ∷ es) = (op, answer) ∷ calls es
calls (stored state ∷ es) = calls es

pub record At (phase : TxPhase) (so_far : Calls) (s : Run) : Type 0 where
  pub is_in : s.journal_record.phase ≡ phase
  pub last : last_phase s.events ≡ some phase
  pub history : calls s.events ≡ so_far

-- The newest call is a rollback that the adapter has carried out.
abbrev pub Undone : Calls → Type 0
Undone [] = ⊥
Undone ((rollback strategy, ok outcome) ∷ cs) = is_undone outcome.status ≡ true
Undone (c ∷ cs) = ⊥

-- How a transaction that fails leaves its run.
pub data Failed (s : Run) : Type 0 where
  undone : (cs : Calls) → At TxPhase.rolled_back cs s → Undone cs → Failed s
  doubted : (cs : Calls) → At TxPhase.in_doubt cs s → Failed s
  untouched : At TxPhase.preparing [] s → Failed s

module _ (env : Env) (journaled : (s : Run) → env.journal_error s ≡ none) where
  abbrev pub moved : TxPhase → Run → Run
  moved q s = record s {
    journal_record = with_phase q (env.clock s.readings) s.journal_record;
    readings = s.readings + 1;
  }

  pub transition_accepted :
      (q : TxPhase) (s : Run)
      → validate_transition s.journal_record.phase q ≡ ok tt
      → transition env q s ≡ (moved q s, ok tt)
  unfolding transition transition_phase with_phase
  transition_accepted q s v = rw (transition, transition_phase, v)

  pub put_stored :
      (s : Run) → put env s ≡ (record s { events = wrote s.journal_record ∷ s.events }, ok tt)
  unfolding put
  put_stored s = rw (put, journaled s)

  -- A move that is accepted and stored.
  pub move-Sat :
      {A : Type 0} (done : A → Run → Type 0) (failed : Run → Type 0) (p q : TxPhase) (cs : Calls)
      (next : Exec A) (s : Run)
      → validate_transition p q ≡ ok tt
      → At p cs s
      → ((t : Run) → At q cs t → Sat done failed (next t))
      → Sat done failed ((transition env q >> (put env >> next)) s)
  unfolding with_phase
  move-Sat done failed p q cs next s v a k =
      rw
        (
          transition_accepted q s (ap (λ x. validate_transition x q) a.is_in ∙ v),
          put_stored (moved q s),
        )
        (k _ (record { is_in = refl; last = refl; history = a.history }))

  -- The same at the end of a step.
  pub move_last-Sat :
      (failed : Run → Type 0) (p q : TxPhase) (cs : Calls) (s : Run)
      → validate_transition p q ≡ ok tt
      → At p cs s
      → Sat (λ _. At q cs) failed ((transition env q >> put env) s)
  unfolding with_phase
  move_last-Sat failed p q cs s v a =
      rw
        (
          transition_accepted q s (ap (λ x. validate_transition x q) a.is_in ∙ v),
          put_stored (moved q s),
        )
        (record { is_in = refl; last = refl; history = a.history })

  call-At :
      (p : TxPhase) (cs : Calls) (op : Operation) (s : Run)
      → At p cs s
      → At p ((op, env.adapter s op) ∷ cs) (call env op s).0
  unfolding call
  call-At p cs op s a = record {
    is_in = a.is_in;
    last = a.last;
    history = ap (λ (x : Calls). (op, env.adapter s op) ∷ x) a.history;
  }

  pub call-Sat :
      {A : Type 0} (done : A → Run → Type 0) (failed : Run → Type 0) (p : TxPhase) (cs : Calls)
      (op : Operation) (next : UnderlayResult AdapterOutcome → Exec A) (s : Run)
      → At p cs s
      → ((answer : UnderlayResult AdapterOutcome) (t : Run)
          → At p ((op, answer) ∷ cs) t
          → Sat done failed (next answer t))
      → Sat done failed ((call env op >>= next) s)
  unfolding call
  call-Sat done failed p cs op next s a k =
      k (env.adapter s op) (call env op s).0 (call-At p cs op s a)

  -- The tail of a rollback, and of a move that nothing follows.
  abbrev Broken : {A : Type 0} → A → Run → Type 0
  Broken a t = Failed t

  leave_in_doubt-Sat :
      (p : TxPhase) (cs : Calls) (code message : Text) (e : UnderlayError) (s : Run)
      → validate_transition p TxPhase.in_doubt ≡ ok tt
      → At p cs s
      → Sat Broken Failed (leave_in_doubt env code message e s)
  unfolding leave_in_doubt note_error with_phase with_error
  leave_in_doubt-Sat p cs code message e s v a =
      rw
        (
          transition_accepted TxPhase.in_doubt s
              (ap (λ x. validate_transition x TxPhase.in_doubt) a.is_in ∙ v),
          put_stored,
        )
        (doubted cs (record { is_in = refl; last = refl; history = a.history }))

  end_rollback-Sat :
      (cs : Calls) (strategy : Option TransactionStrategy) (answer : UnderlayResult AdapterOutcome)
      (s : Run)
      → At TxPhase.rolling_back ((rollback strategy, answer) ∷ cs) s
      → Sat Broken Failed (end_rollback env answer s)
  unfolding end_rollback validate_transition is_allowed is_listed with_phase TxPhase-discrete
  end_rollback-Sat cs strategy (err e) s a =
      leave_in_doubt-Sat TxPhase.rolling_back _ _ _ e s refl a
  end_rollback-Sat cs strategy (ok outcome) s a =
      Sat-if Broken Failed (is_undone outcome.status) _ _ s
        (λ u.
          rw
            (
              transition_accepted TxPhase.rolled_back s
                  (ap (λ x. validate_transition x TxPhase.rolled_back) a.is_in),
              put_stored,
            )
            (undone _ (record { is_in = refl; last = refl; history = a.history }) u))
        (λ _. leave_in_doubt-Sat TxPhase.rolling_back _ _ _ _ s refl a)

  begin_rollback-At :
      (p : TxPhase) (cs : Calls) (s : Run)
      → validate_transition p TxPhase.rolling_back ≡ ok tt
      → At p cs s
      → Sat (λ _. At TxPhase.rolling_back cs) Failed (begin_rollback env s)
  unfolding begin_rollback with_phase
  begin_rollback-At p cs s v a =
      rw
        (
          transition_accepted TxPhase.rolling_back s
              (ap (λ x. validate_transition x TxPhase.rolling_back) a.is_in ∙ v),
          put_stored,
        )
        (record { is_in = refl; last = refl; history = a.history })

  call_rollback-Sat :
      (cs : Calls) (s : Run)
      → At TxPhase.rolling_back cs s
      → Sat Broken Failed (call_rollback env s)
  unfolding call_rollback
  call_rollback-Sat cs s a =
      call-Sat Broken Failed TxPhase.rolling_back cs (rollback s.journal_record.strategy)
        (end_rollback env) s a
        (λ answer t b. end_rollback-Sat cs s.journal_record.strategy answer t b)

  rollback_after_endpoint_failure-Sat :
      (p : TxPhase) (cs : Calls) (s : Run)
      → validate_transition p TxPhase.rolling_back ≡ ok tt
      → At p cs s
      → Sat Broken Failed (rollback_after_endpoint_failure env s)
  unfolding rollback_after_endpoint_failure
  rollback_after_endpoint_failure-Sat p cs s v a =
      Sat-caught (λ _. At TxPhase.rolling_back cs) Broken Failed (λ _. call_rollback env)
        (begin_rollback env s) (begin_rollback-At p cs s v a) (λ _ t b. call_rollback-Sat cs t b)

  always_fails :
      {A : Type 0} (done : A → Run → Type 0) (primary : UnderlayError)
      (out : Run × UnderlayResult (Unit {0}))
      → Sat Broken Failed out
      → Sat done Failed (
          caught
            (λ e t. (t, err (with_rollback_failure_context primary e)))
            (λ _ t. (t, err primary))
            out)
  always_fails done primary (s, ok a) h = h
  always_fails done primary (s, err e) h = h

  -- A step that fails is undone, or leaves the transaction in doubt.
  pub rollback_preserving_primary-Sat :
      {A : Type 0} (done : A → Run → Type 0) (primary : UnderlayError) (p : TxPhase) (cs : Calls)
      (s : Run)
      → validate_transition p TxPhase.rolling_back ≡ ok tt
      → At p cs s
      → Sat done Failed (rollback_preserving_primary env primary s)
  unfolding rollback_preserving_primary
  rollback_preserving_primary-Sat done primary p cs s v a =
      always_fails done primary _ (rollback_after_endpoint_failure-Sat p cs s v a)

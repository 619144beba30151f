-- ===== src/Api/Recovery/Settled.antt =====
-- How a recovery ends, and what the devices have answered where it decides.
pub mod Proven
use aria_underlay.Base.{
  ℕ, List, [], ◌∷◌, Option, none, some, Bool, true, false, All, ◌≡◌, refl, sym, ap, ◌∙◌, subst, ◌⊎◌,
  inl, inr, if◌then◌else◌, Bool-cases, Option-cases,
}
use aria_underlay.Base.Errors.{UnderlayError, UnderlayResult, ok, err, Result-cases}
use aria_underlay.Model.{DeviceId}
use aria_underlay.State.Shadow.{DeviceShadowState}
use aria_underlay.Tx.Phase.{TxPhase, validate_transition, is_allowed, is_listed, TxPhase-discrete}
use aria_underlay.Tx.Journal.{TxJournalRecord, with_phase, with_error}
use aria_underlay.Tx.Recovery.{
  RecoveryAction, discard_prepared_changes, adapter_recover, classify_recovery,
}
use aria_underlay.Tx.Recovery.Decision.{classify_recovery-recovering}
use aria_underlay.Api.Coordinator.Env.{
  Env, Run, Exec, pure, lift, try, caught, ◌>>=◌, ◌>>◌, transition, put, note_error, store_shadow,
}
use aria_underlay.Api.Coordinator.Rules.{Sat, Sat-caught, Sat-lift, Sat-cases}
use aria_underlay.Api.Coordinator.Steps.{last_phase, transition_accepted, put_stored}
use aria_underlay.Api.Recovery.Devices.{
  Side, recover_record, desired_state_for_record, change_set_for_record,
}
use aria_underlay.Api.Recovery.{
  persist_recovered_shadow, leave_undecided, finish_recovery, settle, recover_one,
  is_phase_committed, desired_or_error, recovered_shadow,
}
use Proven.{IsProven, IsOutcome, recover_record-Proven}

-- The end of a recovery: whether it is decided, with the journal and the devices in agreement.
abbrev pub IsSettled : List (DeviceId × Side) → Run × UnderlayResult Bool → Type 0
IsSettled faced (t, err e) = ⊥
IsSettled faced (t, ok false) = last_phase t.events ≡ some TxPhase.in_doubt
IsSettled faced (t, ok true) =
    ((last_phase t.events ≡ some TxPhase.committed)
      × All (λ d. IsProven TxPhase.committed d.1) faced)
    ⊎ ((last_phase t.events ≡ some TxPhase.rolled_back)
        × All (λ d. IsProven TxPhase.rolled_back d.1) faced)

module _ (env : Env) (journaled : (s : Run) → env.journal_error s ≡ none) (r : TxJournalRecord)
    (faced : List (DeviceId × Side)) where
  InPhase : TxPhase → Run → Type 0
  InPhase p s = s.journal_record.phase ≡ p

  leave_undecided-IsSettled :
      (e : UnderlayError) (s : Run)
      → InPhase TxPhase.recovering s
      → IsSettled faced (leave_undecided env e s)
  unfolding InPhase leave_undecided note_error with_error with_phase validate_transition is_allowed
      is_listed TxPhase-discrete
  leave_undecided-IsSettled e s h =
      rw
        (
          transition_accepted env journaled TxPhase.in_doubt s
              (ap (λ x. validate_transition x TxPhase.in_doubt) h),
          put_stored env journaled,
        )
        refl

  module _ (s : Run) (h : s.journal_record.phase ≡ TxPhase.recovering) where
    finish-committed :
        All (λ d. IsProven TxPhase.committed d.1) faced
        → IsSettled faced (finish_recovery env TxPhase.committed s)
    unfolding finish_recovery with_phase validate_transition is_allowed is_listed TxPhase-discrete
    finish-committed proven =
        rw
          (
            transition_accepted env journaled TxPhase.committed s
                (ap (λ x. validate_transition x TxPhase.committed) h),
            put_stored env journaled,
          )
          (inl (refl, proven))

    finish-rolled_back :
        All (λ d. IsProven TxPhase.rolled_back d.1) faced
        → IsSettled faced (finish_recovery env TxPhase.rolled_back s)
    unfolding finish_recovery with_phase validate_transition is_allowed is_listed TxPhase-discrete
    finish-rolled_back proven =
        rw
          (
            transition_accepted env journaled TxPhase.rolled_back s
                (ap (λ x. validate_transition x TxPhase.rolled_back) h),
            put_stored env journaled,
          )
          (inr (refl, proven))

    finish-in_doubt : IsSettled faced (finish_recovery env TxPhase.in_doubt s)
    unfolding finish_recovery with_phase validate_transition is_allowed is_listed TxPhase-discrete
    finish-in_doubt =
        rw
          (
            transition_accepted env journaled TxPhase.in_doubt s
                (ap (λ x. validate_transition x TxPhase.in_doubt) h),
            put_stored env journaled,
          )
          refl

  -- The end after the answers of the devices.
  finish-IsSettled :
      (p : TxPhase) (s : Run)
      → s.journal_record.phase ≡ TxPhase.recovering
      → (¬ (p ≡ TxPhase.in_doubt) → All (λ d. IsProven p d.1) faced × IsOutcome p)
      → IsSettled faced (finish_recovery env p s)
  finish-IsSettled TxPhase.committed s h f = finish-committed s h (f (λ q. cc)).0
  finish-IsSettled TxPhase.rolled_back s h f = finish-rolled_back s h (f (λ q. cc)).0
  finish-IsSettled TxPhase.in_doubt s h f = finish-in_doubt s h
  finish-IsSettled _ s h f = absurd (f (λ q. cc)).1

  -- A step that leaves the phase of the record as it was.
  Keeps : {A : Type 0} → Run × UnderlayResult A → Type 0
  Keeps out = Sat (λ _. InPhase TxPhase.recovering) (InPhase TxPhase.recovering) out

  store_shadow-Keeps :
      (state : DeviceShadowState) (s : Run)
      → InPhase TxPhase.recovering s
      → Keeps (store_shadow env state s)
  unfolding Keeps InPhase store_shadow
  store_shadow-Keeps state s h = elim (Option-cases (env.shadow_put_error s state)) [
    | inl e ↦ rw (store_shadow, e) h
    | inr (x, e) ↦ rw (store_shadow, e) h
  ]

  lift-Keeps :
      {A B : Type 0} (x : UnderlayResult A) (next : A → Exec B) (s : Run)
      → InPhase TxPhase.recovering s
      → ((a : A) → Keeps (next a s))
      → Keeps ((lift x >>= next) s)
  unfolding Keeps
  lift-Keeps x next s h k =
      Sat-lift (λ _. InPhase TxPhase.recovering) (InPhase TxPhase.recovering) x next s h k

  then-Keeps :
      (m next : Exec (Unit {0})) (s : Run)
      → Keeps (m s)
      → ((t : Run) → InPhase TxPhase.recovering t → Keeps (next t))
      → Keeps ((m >> next) s)
  unfolding Keeps
  then-Keeps m next s h k =
      Sat-caught (λ _. InPhase TxPhase.recovering) (λ _. InPhase TxPhase.recovering)
        (InPhase TxPhase.recovering) (λ _. next) (m s) h (λ a t q. k t q)

  persist_recovered_shadow-Keeps :
      (ids : List DeviceId) (s : Run)
      → InPhase TxPhase.recovering s
      → Keeps (persist_recovered_shadow env r ids s)
  unfolding Keeps persist_recovered_shadow
  persist_recovered_shadow-Keeps [] s h = h
  persist_recovered_shadow-Keeps (id ∷ ids) s h =
      lift-Keeps (desired_or_error env r id (desired_state_for_record r id))
        (λ desired. lift (env.shadow_get id) >>= (λ existing.
          store_shadow env (recovered_shadow env existing desired (change_set_for_record r id))
          >> persist_recovered_shadow env r ids))
        s h
        (λ desired.
          lift-Keeps (env.shadow_get id)
            (λ existing.
              store_shadow env (recovered_shadow env existing desired (change_set_for_record r id))
              >> persist_recovered_shadow env r ids)
            s h
            (λ existing.
              then-Keeps
                (store_shadow env
                  (recovered_shadow env existing desired (change_set_for_record r id)))
                (persist_recovered_shadow env r ids) s
                (store_shadow-Keeps
                  (recovered_shadow env existing desired (change_set_for_record r id)) s h)
                (λ t k. persist_recovered_shadow-Keeps ids t k)))

  -- After the shadows have been written, or after the attempt has failed.
  caught-IsSettled :
      (p : TxPhase)
      → (¬ (p ≡ TxPhase.in_doubt) → All (λ d. IsProven p d.1) faced × IsOutcome p)
      → (out : Run × UnderlayResult (Unit {0})) → Keeps out
      → IsSettled faced (caught (leave_undecided env) (λ _. finish_recovery env p) out)
  unfolding Keeps InPhase
  caught-IsSettled p f (t, ok a) k = finish-IsSettled p t k f
  caught-IsSettled p f (t, err e) k = leave_undecided-IsSettled e t k

  settle-IsSettled :
      (m : UnderlayResult TxPhase) (s : Run)
      → InPhase TxPhase.recovering s
      → ((p : TxPhase)
          → m ≡ ok p
          → ¬ (p ≡ TxPhase.in_doubt)
          → All (λ d. IsProven p d.1) faced × IsOutcome p)
      → IsSettled faced (settle env r m s)
  unfolding settle InPhase
  settle-IsSettled (err e) s h f = leave_undecided-IsSettled e s h
  settle-IsSettled (ok p) s h f = elim (Bool-cases (is_phase_committed env p)) [
    | inl b ↦ rw b (
        caught-IsSettled p (f p refl) (persist_recovered_shadow env r r.devices s)
          (persist_recovered_shadow-Keeps r.devices s h))
    | inr b ↦ rw b (finish-IsSettled p s h (f p refl))
  ]

  module _ (s : Run) (found : s.journal_record ≡ r)
      (v : validate_transition r.phase TxPhase.recovering ≡ ok tt) where
    asked-IsSettled :
        (action : RecoveryAction)
        → IsSettled faced (
            (transition env TxPhase.recovering
                >> (put env >> settle env r (recover_record r faced action)))
              s)
    unfolding InPhase with_phase
    asked-IsSettled action =
        rw
          (
            transition_accepted env journaled TxPhase.recovering s
                (ap (λ x. validate_transition x.phase TxPhase.recovering) found ∙ v),
            put_stored env journaled,
          )
          (settle-IsSettled (recover_record r faced action) _ refl
            (λ p e n. recover_record-Proven r p faced action n e))

    by_action :
        (action : RecoveryAction)
        → (action ≡ RecoveryAction.discard_prepared_changes)
          ⊎ (action ≡ RecoveryAction.adapter_recover)
        → IsSettled faced (recover_one env r faced action s)
    unfolding recover_one
    by_action RecoveryAction.discard_prepared_changes a =
        asked-IsSettled RecoveryAction.discard_prepared_changes
    by_action RecoveryAction.adapter_recover a = asked-IsSettled RecoveryAction.adapter_recover
    by_action RecoveryAction.noop (inl e) = cc
    by_action RecoveryAction.noop (inr e) = cc
    by_action RecoveryAction.manual_intervention (inl e) = cc
    by_action RecoveryAction.manual_intervention (inr e) = cc

-- With a journal that writes, the recovery of a record whose phase may move to `Recovering` never fails:
-- the run ends with the answer `false` and `InDoubt` as the newest record of the journal, or with the
-- answer `true` and one of two outcomes. Either `Committed` is the newest record, and every device that
-- was faced has confirmed the commit, has been verified or has answered `recover` with `Committed`; or
-- `RolledBack` is, and every device has answered `recover` with `RolledBack` or `NoChange`.
pub recover_one-IsSettled :
    (env : Env) (journaled : (s : Run) → env.journal_error s ≡ none) (r : TxJournalRecord)
    (faced : List (DeviceId × Side)) (s : Run)
    → s.journal_record ≡ r
    → validate_transition r.phase TxPhase.recovering ≡ ok tt
    → IsSettled faced (recover_one env r faced (classify_recovery r).action s)
recover_one-IsSettled env journaled r faced s found v =
    by_action env journaled r faced s found v (classify_recovery r).action
      ((classify_recovery-recovering r).1 v)

-- ===== src/Api/Coordinator/Env.antt =====
-- What the coordinator works with, and its steps as state passing. A run holds the journal record that
-- the code changes in place, and what has happened so far, the newest first. Everything that the code
-- calls is given by an `Env`, which may answer each call as it likes: the journal and the adapter by all
-- that has happened before, the clock by the number of its readings. The inventory, the pool of clients,
-- the list of recoverable records and the shadows that are read answer a question in the same way for as
-- long as a run lasts; the code asks the inventory again at each step.
use aria_underlay.Base.{ℕ, ◌+◌, Text, List, ◌∷◌, Option, none, some, Bool}
use aria_underlay.Base.Errors.{UnderlayError, UnderlayResult, ok, err}
use aria_underlay.Model.{DeviceId}
use aria_underlay.Planner.DevicePlan.{DeviceDesiredState}
use aria_underlay.State.Shadow.{DeviceShadowState}
use aria_underlay.Engine.Diff.{ChangeSet}
use aria_underlay.Tx.Phase.{TxPhase}
use aria_underlay.Tx.Strategy.{TransactionStrategy}
use aria_underlay.Tx.Journal.{TxJournalRecord, transition_phase, with_strategy, with_error}
use aria_underlay.Api.Apply.{AdapterOperationStatus}

-- adapter_client/mapper.rs.
pub record AdapterOutcome : Type 0 where
  pub status : AdapterOperationStatus
  pub changed : Bool
  pub warnings : List Text
  pub prepared_candidate_checksum : Option Text
  pub normalized_state : Option DeviceShadowState

-- The calls of the adapter that belong to a transaction. Each goes to the device of the run, under the
-- context of its transaction.
pub data Operation : Type 0 where
  prepare : DeviceDesiredState → Operation
  commit : TransactionStrategy → (timeout_secs : ℕ) → (checksum : Option Text) → Operation
  verify : DeviceDesiredState → ChangeSet → Operation
  final_confirm : Operation
  rollback : Option TransactionStrategy → Operation

pub data Event : Type 0 where
  wrote : TxJournalRecord → Event
  called : Operation → UnderlayResult AdapterOutcome → Event
  stored : DeviceShadowState → Event

pub record Run : Type 0 where
  pub journal_record : TxJournalRecord
  pub events : List Event
  pub readings : ℕ

-- device/info.rs.
pub data DeviceLifecycleState : Type 0 where
  pending probing ready degraded unsupported unreachable auth_failed drifted : DeviceLifecycleState
  maintenance : DeviceLifecycleState

-- `ManagedDevice`, of which the coordinator reads the state, and the strategy of the capability.
pub record ManagedDevice : Type 0 where
  pub lifecycle_state : DeviceLifecycleState
  pub recommended_strategy : Option TransactionStrategy

pub record Env : Type 0 where
  pub lock : DeviceId → UnderlayResult (Unit {0})
  pub recoverable : UnderlayResult (List TxJournalRecord)
  pub inventory : DeviceId → UnderlayResult ManagedDevice
  pub client : DeviceId → UnderlayResult (Unit {0})
  pub capabilities : DeviceId → UnderlayResult TransactionStrategy
  pub current_state : DeviceDesiredState → UnderlayResult DeviceShadowState
  pub put_observed : DeviceShadowState → UnderlayResult (Unit {0})
  pub journal_error : Run → Option UnderlayError
  pub adapter : Run → Operation → UnderlayResult AdapterOutcome
  pub shadow_get : DeviceId → UnderlayResult (Option DeviceShadowState)
  pub shadow_put_error : Run → DeviceShadowState → Option UnderlayError
  pub clock : ℕ → ℕ
  pub confirmed_commit_timeout_secs : ℕ

-- A step that cannot fail, and one that can.
abbrev pub Proc : Type 0 → Type 0
Proc A = Run → Run × A

abbrev pub Exec : Type 0 → Type 0
Exec A = Run → Run × UnderlayResult A

abbrev pub give : {A : Type 0} → A → Proc A
give a s = (s, a)

abbrev pub pure : {A : Type 0} → A → Exec A
pure a s = (s, ok a)

abbrev pub raise : {A : Type 0} → UnderlayError → Exec A
raise e s = (s, err e)

abbrev pub lift : {A : Type 0} → UnderlayResult A → Exec A
lift r s = (s, r)

-- `match m { Ok(a) => .., Err(e) => .. }`.
abbrev pub caught :
    {A B : Type 0} → (UnderlayError → Proc B) → (A → Proc B) → Run × UnderlayResult A → Run × B
caught failed done (s, ok a) = done a s
caught failed done (s, err e) = failed e s

abbrev pub try : {A B : Type 0} → Exec A → (UnderlayError → Proc B) → (A → Proc B) → Proc B
try m failed done s = caught failed done (m s)

infixl 5 ◌>>=◌ ◌>>◌
abbrev pub ◌>>=◌ : {A B : Type 0} → Exec A → (A → Exec B) → Exec B
◌>>=◌ m f s = caught (λ e t. (t, err e)) f (m s)

abbrev pub ◌>>◌ : {B : Type 0} → Exec (Unit {0}) → Exec B → Exec B
m >> k = m >>= λ _. k

module _ (env : Env) where
  -- `journal_record.transition_phase(phase)`.
  unfoldable pub transition : TxPhase → Exec (Unit {0})
  transition phase s =
      let moved = transition_phase phase (env.clock s.readings) s.journal_record in
      (record s { journal_record = moved.0; readings = s.readings + 1 }, moved.1)

  -- `self.journal.put(journal_record)`.
  unfoldable pub put : Exec (Unit {0})
  put s = elim (env.journal_error s) [
    | none ↦ (record s { events = wrote s.journal_record ∷ s.events }, ok tt)
    | some e ↦ (s, err e)
  ]

  unfoldable pub set_strategy : TransactionStrategy → Exec (Unit {0})
  set_strategy strategy s = (
    record s {
      journal_record = with_strategy strategy (env.clock s.readings) s.journal_record;
      readings = s.readings + 1;
    },
    ok tt,
  )

  unfoldable pub note_error : (code message : Text) → Exec (Unit {0})
  note_error code message s = (
    record s {
      journal_record = with_error code message (env.clock s.readings) s.journal_record;
      readings = s.readings + 1;
    },
    ok tt,
  )

  -- A call of the adapter, with its answer as a value.
  unfoldable pub call : Operation → Exec (UnderlayResult AdapterOutcome)
  call operation s =
      let answer = env.adapter s operation in
      (record s { events = called operation answer ∷ s.events }, ok answer)

  -- `self.shadow_store.put(state)`.
  unfoldable pub store_shadow : DeviceShadowState → Exec (Unit {0})
  store_shadow state s = elim (env.shadow_put_error s state) [
    | none ↦ (record s { events = stored state ∷ s.events }, ok tt)
    | some e ↦ (s, err e)
  ]

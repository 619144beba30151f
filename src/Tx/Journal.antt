-- ===== src/Tx/Journal.antt =====
-- tx/journal.rs and tx/context.rs: the record that is kept of a transaction, and the store of records.
-- The time that a change of a record is stamped with is an argument. The mutex of the in-memory store
-- is taken for a whole operation, so an operation is a function of the map; it is never poisoned, since
-- no operation panics under it.
use aria_underlay.Base.{
  ℕ, Bool, not, Text, List, [], ◌∷◌, ◌++◌, Option, none, some, ◌&&◌, ◌||◌, ◌==◌, all, filter,
  is_empty, is_ascii_alphanumeric, text_ord,
}
use aria_underlay.Base.BTree.{BTreeMap, get, insert, values}
use aria_underlay.Base.Errors.{UnderlayResult, ok, err, Arg, str, invalid, fail_if}
use aria_underlay.Model.{DeviceId}
use aria_underlay.Planner.DevicePlan.{DeviceDesiredState}
use aria_underlay.Engine.Diff.{ChangeSet}
use aria_underlay.Tx.Phase.{TxPhase, validate_transition, requires_recovery}
use aria_underlay.Tx.Strategy.{TransactionStrategy}
pub mod Life
pub mod Store
pub mod FileNames
mod Tests

pub record TxContext : Type 0 where
  pub tx_id : Text
  pub request_id : Text
  pub trace_id : Text

pub record TxJournalErrorEvent : Type 0 where
  pub phase : TxPhase
  pub code : Text
  pub message : Text
  pub created_at_unix_secs : ℕ

pub record TxManualResolution : Type 0 where
  pub operator : Text
  pub reason : Text
  pub request_id : Text
  pub trace_id : Text
  pub resolved_at_unix_secs : ℕ

pub record TxJournalRecord : Type 0 where
  pub tx_id : Text
  pub request_id : Text
  pub trace_id : Text
  pub phase : TxPhase
  pub devices : List DeviceId
  pub desired_states : List DeviceDesiredState
  pub change_sets : List ChangeSet
  pub strategy : Option TransactionStrategy
  pub error_code : Option Text
  pub error_message : Option Text
  pub error_history : List TxJournalErrorEvent
  pub manual_resolution : Option TxManualResolution
  pub created_at_unix_secs : ℕ
  pub updated_at_unix_secs : ℕ

unfoldable pub started : TxContext → List DeviceId → ℕ → TxJournalRecord
started context devices now = record {
  tx_id = context.tx_id;
  request_id = context.request_id;
  trace_id = context.trace_id;
  phase = TxPhase.started;
  devices = devices;
  desired_states = [];
  change_sets = [];
  strategy = none;
  error_code = none;
  error_message = none;
  error_history = [];
  manual_resolution = none;
  created_at_unix_secs = now;
  updated_at_unix_secs = now;
}

unfoldable pub with_phase : TxPhase → ℕ → TxJournalRecord → TxJournalRecord
with_phase phase now r = record r { phase = phase; updated_at_unix_secs = now }

-- The record after the call, and what the call returns.
unfoldable pub transition_phase :
    TxPhase → ℕ → TxJournalRecord → TxJournalRecord × UnderlayResult (Unit {0})
transition_phase phase now r = elim (validate_transition r.phase phase) [
  | err e ↦ (r, err e)
  | ok u ↦ (record r { phase = phase; updated_at_unix_secs = now }, ok tt)
]

unfoldable pub with_strategy : TransactionStrategy → ℕ → TxJournalRecord → TxJournalRecord
with_strategy strategy now r = record r { strategy = some strategy; updated_at_unix_secs = now }

unfoldable pub with_desired_states : List DeviceDesiredState → ℕ → TxJournalRecord → TxJournalRecord
with_desired_states states now r = record r { desired_states = states; updated_at_unix_secs = now }

unfoldable pub with_change_sets : List ChangeSet → ℕ → TxJournalRecord → TxJournalRecord
with_change_sets sets now r = record r { change_sets = sets; updated_at_unix_secs = now }

unfoldable pub with_error : Text → Text → ℕ → TxJournalRecord → TxJournalRecord
with_error code message now r = record r {
  error_code = some code;
  error_message = some message;
  error_history =
      r.error_history
      ++ record { phase = r.phase; code = code; message = message; created_at_unix_secs = now }
        ∷ [];
  updated_at_unix_secs = now;
}

unfoldable pub with_manual_resolution :
    (operator reason request_id trace_id : Text) → ℕ → TxJournalRecord → TxJournalRecord
with_manual_resolution operator reason request_id trace_id now r = record r {
  manual_resolution = some (record {
    operator = operator;
    reason = reason;
    request_id = request_id;
    trace_id = trace_id;
    resolved_at_unix_secs = now;
  });
  updated_at_unix_secs = now;
}

-- `InMemoryTxJournalStore`.
abbrev pub InMemoryTxJournalStore : Type 0
InMemoryTxJournalStore = BTreeMap Text TxJournalRecord

unfoldable pub put : TxJournalRecord → InMemoryTxJournalStore → InMemoryTxJournalStore
put r records = insert r.tx_id r records

unfoldable pub find : Text → InMemoryTxJournalStore → Option TxJournalRecord
find tx_id records = get tx_id records

unfoldable pub list_recoverable : InMemoryTxJournalStore → List TxJournalRecord
list_recoverable records = filter (λ r. requires_recovery r.phase) (values records)

-- The identifiers that may name a journal file.
unfoldable pub is_tx_id_char : ℕ → Bool
is_tx_id_char c = is_ascii_alphanumeric c || (c == b'-' || c == b'_')

unfoldable pub validate_journal_tx_id : Text → UnderlayResult (Unit {0})
unfolding is_tx_id_char is_ascii_alphanumeric
validate_journal_tx_id tx_id =
    fail_if (is_empty tx_id || not (all is_tx_id_char tx_id))
      (invalid "tx_id {:?} is invalid for file journal store" (str tx_id ∷ []))

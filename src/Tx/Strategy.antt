-- ===== src/Tx/Strategy.antt =====
-- tx/strategy.rs: how a transaction is carried out on a device, from what the device can do and what
-- the caller allows.
use aria_underlay.Base.{Bool, true, false, not, ◌&&◌, ◌||◌, if◌then◌else◌, Text, text}
pub mod Choice
mod Tests

pub data TransactionStrategy : Type 0 where
  confirmed_commit candidate_commit running_rollback_on_error best_effort_cli : TransactionStrategy
  unsupported : TransactionStrategy

unfoldable pub is_supported : TransactionStrategy → Bool
is_supported unsupported = false
is_supported _ = true

unfoldable pub is_degraded : TransactionStrategy → Bool
is_degraded running_rollback_on_error = true
is_degraded best_effort_cli = true
is_degraded _ = false

-- `{:?}` of a strategy.
unfoldable pub strategy_name : TransactionStrategy → Text
strategy_name confirmed_commit = text "ConfirmedCommit"
strategy_name candidate_commit = text "CandidateCommit"
strategy_name running_rollback_on_error = text "RunningRollbackOnError"
strategy_name best_effort_cli = text "BestEffortCli"
strategy_name unsupported = text "Unsupported"

pub data TransactionMode : Type 0 where
  strict_confirmed_commit allow_candidate_commit allow_running_fallback : TransactionMode
  allow_best_effort_cli : TransactionMode

pub record CapabilityFlags : Type 0 where
  pub supports_candidate : Bool
  pub supports_validate : Bool
  pub supports_confirmed_commit : Bool
  pub supports_persist_id : Bool
  pub supports_rollback_on_error : Bool
  pub supports_writable_running : Bool
  pub supports_cli_fallback : Bool

-- The `matches!` on the mode in each test.
abbrev allows_candidate : TransactionMode → Bool
allows_candidate strict_confirmed_commit = false
allows_candidate _ = true

abbrev allows_running : TransactionMode → Bool
allows_running allow_running_fallback = true
allows_running allow_best_effort_cli = true
allows_running _ = false

abbrev allows_cli : TransactionMode → Bool
allows_cli allow_best_effort_cli = true
allows_cli _ = false

unfoldable pub choose_strategy : CapabilityFlags → TransactionMode → TransactionStrategy
choose_strategy flags mode =
    if flags.supports_candidate && flags.supports_validate && flags.supports_confirmed_commit
      && flags.supports_persist_id
    then confirmed_commit
    else if flags.supports_candidate && flags.supports_validate && allows_candidate mode
    then candidate_commit
    else if flags.supports_writable_running
        && flags.supports_rollback_on_error
        && allows_running mode
    then running_rollback_on_error
    else if flags.supports_cli_fallback && allows_cli mode
    then best_effort_cli
    else unsupported

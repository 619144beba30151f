-- ===== src/Tx/Phase.antt =====
-- tx/journal.rs (`TxPhase`) and tx/phase_transition.rs: the phases of a transaction, and the moves
-- between them that the journal accepts.
use aria_underlay.Base.{Bool, true, false, not, ℕ_discrete, Text, text}
use aria_underlay.Base.Errors.{UnderlayError, UnderlayResult, ok, err, fail_if}
pub mod Graph
pub mod Paths
mod Tests

pub data TxPhase : Type 0 where
  started preparing prepared committing verifying final_confirming recovering committed : TxPhase
  rolling_back rolled_back failed in_doubt force_resolved : TxPhase

unfoldable pub TxPhase-discrete : Discrete TxPhase
TxPhase-discrete = hlevel ℕ_discrete

unfoldable pub requires_recovery : TxPhase → Bool
requires_recovery committed = false
requires_recovery rolled_back = false
requires_recovery failed = false
requires_recovery force_resolved = false
requires_recovery _ = true

-- `{:?}` of a phase.
unfoldable pub phase_name : TxPhase → Text
phase_name started = text "Started"
phase_name preparing = text "Preparing"
phase_name prepared = text "Prepared"
phase_name committing = text "Committing"
phase_name verifying = text "Verifying"
phase_name final_confirming = text "FinalConfirming"
phase_name recovering = text "Recovering"
phase_name committed = text "Committed"
phase_name rolling_back = text "RollingBack"
phase_name rolled_back = text "RolledBack"
phase_name failed = text "Failed"
phase_name in_doubt = text "InDoubt"
phase_name force_resolved = text "ForceResolved"

-- The pairs that `matches!` lists.
unfoldable pub is_listed : TxPhase → TxPhase → Bool
is_listed started preparing = true
is_listed preparing prepared = true
is_listed prepared committing = true
is_listed committing verifying = true
is_listed verifying final_confirming = true
is_listed final_confirming committed = true
is_listed preparing failed = true
is_listed prepared failed = true
is_listed committing failed = true
is_listed verifying failed = true
is_listed final_confirming failed = true
is_listed preparing rolling_back = true
is_listed prepared rolling_back = true
is_listed committing rolling_back = true
is_listed verifying rolling_back = true
is_listed final_confirming rolling_back = true
is_listed started recovering = true
is_listed preparing recovering = true
is_listed prepared recovering = true
is_listed committing recovering = true
is_listed verifying recovering = true
is_listed final_confirming recovering = true
is_listed rolling_back recovering = true
is_listed recovering recovering = true
is_listed recovering committed = true
is_listed recovering rolled_back = true
is_listed recovering in_doubt = true
is_listed rolling_back rolled_back = true
is_listed rolling_back in_doubt = true
is_listed committed in_doubt = true
is_listed in_doubt force_resolved = true
is_listed _ _ = false

unfoldable pub is_allowed : TxPhase → TxPhase → Bool
is_allowed from to = elim (TxPhase-discrete from to) [ yes _ ↦ true | no _ ↦ is_listed from to ]

unfoldable pub validate_transition : TxPhase → TxPhase → UnderlayResult (Unit {0})
validate_transition from to =
    fail_if (not (is_allowed from to))
      (UnderlayError.invalid_phase_transition (phase_name from) (phase_name to))

-- ===== src/Tx/Strategy/Tests.antt =====
-- A device with a writable running configuration and no candidate.
use aria_underlay.Base.{true, false, ◌≡◌, refl}
use aria_underlay.Tx.Strategy.{
  TransactionStrategy, TransactionMode, CapabilityFlags, is_supported, choose_strategy,
}
use aria_underlay.Tx.Strategy.Choice.{IsBest, choose_strategy-IsBest}

abbrev running_only : CapabilityFlags
running_only = record {
  supports_candidate = false;
  supports_validate = true;
  supports_confirmed_commit = true;
  supports_persist_id = true;
  supports_rollback_on_error = true;
  supports_writable_running = true;
  supports_cli_fallback = true;
}

running_chosen :
    choose_strategy running_only TransactionMode.allow_best_effort_cli
    ≡ TransactionStrategy.running_rollback_on_error
unfolding choose_strategy
running_chosen = refl

running_supported :
    is_supported (choose_strategy running_only TransactionMode.allow_best_effort_cli) ≡ true
unfolding choose_strategy is_supported
running_supported = refl

choose_strategy-IsBest_example :
    IsBest running_only TransactionMode.allow_best_effort_cli
      (choose_strategy running_only TransactionMode.allow_best_effort_cli)
choose_strategy-IsBest_example =
    choose_strategy-IsBest running_only TransactionMode.allow_best_effort_cli

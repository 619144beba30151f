-- ===== src/Tx/Strategy/Choice.antt =====
-- The choice of a strategy against what a device can do and how far a mode goes.
use aria_underlay.Base.{ℕ, refl, Bool, true, false, ◌&&◌, ◌≡◌, ◌≤◌, arith}
use aria_underlay.Tx.Strategy.{
  TransactionStrategy, TransactionMode, CapabilityFlags, is_supported, choose_strategy,
}

-- What a device must offer for a strategy.
unfoldable pub can_do : CapabilityFlags → TransactionStrategy → Bool
can_do f TransactionStrategy.confirmed_commit =
    f.supports_candidate && f.supports_validate && f.supports_confirmed_commit
    && f.supports_persist_id
can_do f TransactionStrategy.candidate_commit = f.supports_candidate && f.supports_validate
can_do f TransactionStrategy.running_rollback_on_error =
    f.supports_writable_running && f.supports_rollback_on_error
can_do f TransactionStrategy.best_effort_cli = f.supports_cli_fallback
can_do f TransactionStrategy.unsupported = false

-- How far a strategy is from a confirmed commit, and how far a mode lets it go.
abbrev pub distance : TransactionStrategy → ℕ
distance TransactionStrategy.confirmed_commit = 0
distance TransactionStrategy.candidate_commit = 1
distance TransactionStrategy.running_rollback_on_error = 2
distance TransactionStrategy.best_effort_cli = 3
distance TransactionStrategy.unsupported = 4

abbrev pub tolerance : TransactionMode → ℕ
tolerance TransactionMode.strict_confirmed_commit = 0
tolerance TransactionMode.allow_candidate_commit = 1
tolerance TransactionMode.allow_running_fallback = 2
tolerance TransactionMode.allow_best_effort_cli = 3

abbrev pub IsPermitted : CapabilityFlags → TransactionMode → TransactionStrategy → Type 0
IsPermitted flags mode s = (can_do flags s ≡ true) × (distance s ≤ tolerance mode)

-- The strategy that is closest to a confirmed commit of those that the device can do and the mode
-- tolerates; `Unsupported` stands for none.
abbrev pub IsBest : CapabilityFlags → TransactionMode → TransactionStrategy → Type 0
IsBest flags mode TransactionStrategy.unsupported =
    (t : TransactionStrategy) → ¬ IsPermitted flags mode t
IsBest flags mode s =
    IsPermitted flags mode s
    × ((t : TransactionStrategy) → IsPermitted flags mode t → distance s ≤ distance t)

-- A supported choice is one that the device can do and the mode tolerates.
pub choose_strategy_permitted :
    (flags : CapabilityFlags) (mode : TransactionMode)
    → is_supported (choose_strategy flags mode) ≡ true
    → (can_do flags (choose_strategy flags mode) ≡ true)
      × (distance (choose_strategy flags mode) ≤ tolerance mode)
unfolding is_supported choose_strategy can_do
choose_strategy_permitted flags mode h = ground arith

-- No strategy that the device can do and the mode tolerates is closer to a confirmed commit.
choose_strategy_closest :
    (flags : CapabilityFlags) (mode : TransactionMode) (s : TransactionStrategy)
    → IsPermitted flags mode s
    → distance (choose_strategy flags mode) ≤ distance s
unfolding choose_strategy can_do
choose_strategy_closest flags mode s p = ground arith

tolerance_bound : (mode : TransactionMode) → tolerance mode ≤ 3
tolerance_bound mode = ground arith

permitted_closest :
    (flags : CapabilityFlags) (mode : TransactionMode) (s : TransactionStrategy)
    → (is_supported s ≡ true → IsPermitted flags mode s)
    → ((t : TransactionStrategy) → IsPermitted flags mode t → distance s ≤ distance t)
    → IsBest flags mode s
unfolding is_supported
permitted_closest flags mode TransactionStrategy.unsupported h f =
    λ t p. let far = f t p in let near = p.1 in omega (arith, tolerance_bound mode)
permitted_closest flags mode TransactionStrategy.confirmed_commit h f = (h refl, f)
permitted_closest flags mode TransactionStrategy.candidate_commit h f = (h refl, f)
permitted_closest flags mode TransactionStrategy.running_rollback_on_error h f = (h refl, f)
permitted_closest flags mode TransactionStrategy.best_effort_cli h f = (h refl, f)

-- Either the choice is a strategy that the device can do and the mode tolerates, and of those the closest
-- to a confirmed commit; or it is `Unsupported`, and the device can do none that the mode tolerates.
pub choose_strategy-IsBest :
    (flags : CapabilityFlags) (mode : TransactionMode)
    → IsBest flags mode (choose_strategy flags mode)
choose_strategy-IsBest flags mode =
    permitted_closest flags mode (choose_strategy flags mode) (choose_strategy_permitted flags mode)
      (choose_strategy_closest flags mode)

-- A mode that tolerates more never leads to a choice further from a confirmed commit.
pub choose_strategy_mono :
    (flags : CapabilityFlags) (strict lax : TransactionMode)
    → tolerance strict ≤ tolerance lax
    → distance (choose_strategy flags lax) ≤ distance (choose_strategy flags strict)
unfolding choose_strategy
choose_strategy_mono flags strict lax h = ground arith

-- ===== src/Api/Coordinator/Admit.antt =====
-- What `apply_changed_endpoint_states` finds out about a device before it is touched.
use aria_underlay.Base.{text, [], ◌∷◌, none, some, Bool, not, ◌&&◌, false, if◌then◌else◌}
use aria_underlay.Base.Errors.{
  UnderlayResult, ok, err, str, ◌>>=◌, ◌>>◌, adapter_operation, unsupported_transaction_strategy,
}
use aria_underlay.Model.{DeviceId}
use aria_underlay.Tx.Strategy.{TransactionStrategy, is_supported, is_degraded, strategy_name}
use aria_underlay.Api.Coordinator.Env.{Env, ManagedDevice}

module _ (env : Env) where
  -- `managed.capability`, or else what the adapter says that the device can do.
  abbrev strategy_of : DeviceId → ManagedDevice → UnderlayResult TransactionStrategy
  strategy_of id managed = elim managed.recommended_strategy [
    | some strategy ↦ ok strategy
    | none ↦ env.capabilities id
  ]

  unfoldable pub admit : Bool → DeviceId → TransactionStrategy → UnderlayResult (Unit {0})
  admit allow_degraded id strategy =
      if not (is_supported strategy)
      then err unsupported_transaction_strategy
      else if is_degraded strategy && not allow_degraded
      then err (
          adapter_operation (text "DEGRADED_ATOMICITY_NOT_ALLOWED")
            (record {
              template =
                  "device {} requires degraded transaction strategy {:?}, but request disallows degraded atomicity";
              values = str id ∷ str (strategy_name strategy) ∷ [];
            })
            false [])
      else ok tt

  unfoldable pub choose : Bool → DeviceId → UnderlayResult TransactionStrategy
  choose allow_degraded id = do
    managed ← env.inventory id
    env.client id
    strategy ← strategy_of id managed
    admit allow_degraded id strategy
    ok strategy

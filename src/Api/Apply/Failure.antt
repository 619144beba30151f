-- ===== src/Api/Apply/Failure.antt =====
-- api/apply.rs: the code and message under which an error is recorded, and the result of a device that
-- failed with it.
use aria_underlay.Base.{
  ℕ, zero, suc, ◌-◌, Text, text, List, [], ◌∷◌, ◌++◌, Option, some, map, Bool, true, Bool-cases,
  ◌⊎◌, inl, inr, refl, sym, subst, ◌↔◌, ◌||◌, ◌==◌, length, if◌then◌else◌, ◌≡◌, arith, text_ord,
}
use aria_underlay.Base.BTree.{same, same_iff}
use aria_underlay.Base.Errors.{UnderlayError, AdapterErrorDetail, Message}
use aria_underlay.Base.Print.{decimal_text, join, render}
use aria_underlay.Model.{DeviceId}
use aria_underlay.Tx.Phase.{TxPhase}
use aria_underlay.Tx.Strategy.{TransactionStrategy}
use aria_underlay.Api.Response.{ApplyStatus, DeviceApplyResult, skipped_report, in_doubt_report}
use aria_underlay.Api.Apply.{failed_apply_phase, apply_status_for_failed_phase}

unfoldable pub take {ℓ} : {A : Type ℓ} → ℕ → List A → List A
take zero l = []
take (suc n) [] = []
take (suc n) (a ∷ l) = a ∷ take n l

abbrev detail_text : AdapterErrorDetail → Text
detail_text e = e.code ++ (text ": " ++ e.message)

unfoldable pub adapter_error_message : Text → List AdapterErrorDetail → Text
adapter_error_message message [] = message
adapter_error_message message (e ∷ es) =
    let additional = join (text "; ") (map detail_text (take 8 (e ∷ es))) in
    let truncated = length (e ∷ es) - 8 in
    if truncated == 0
    then message ++ (text "; additional adapter errors: " ++ additional)
    else message
      ++ (text "; additional adapter errors: "
          ++ (additional ++ (text "; " ++ (decimal_text truncated ++ text " more"))))

-- The code and the message.
unfoldable pub journal_error_fields : UnderlayError → Text × Text
journal_error_fields (UnderlayError.adapter_operation code message retryable errors) =
    (code, adapter_error_message (render message) errors)
journal_error_fields (UnderlayError.adapter_transport m) = (text "ADAPTER_TRANSPORT", render m)
journal_error_fields (UnderlayError.invalid_intent m) = (text "INVALID_INTENT", render m)
journal_error_fields (UnderlayError.authorization_denied m) =
    (text "AUTHORIZATION_DENIED", render m)
journal_error_fields (UnderlayError.authentication_failed m) =
    (text "AUTHENTICATION_FAILED", render m)
journal_error_fields (UnderlayError.product_audit_write_failed m) =
    (text "PRODUCT_AUDIT_WRITE_FAILED", render m)
journal_error_fields (UnderlayError.invalid_device_state m) =
    (text "INVALID_DEVICE_STATE", render m)
journal_error_fields (UnderlayError.invalid_phase_transition from to) = (
  text "INVALID_PHASE_TRANSITION",
  text "invalid phase transition: " ++ (from ++ (text " -> " ++ to)),
)
journal_error_fields UnderlayError.unsupported_transaction_strategy =
    (text "UNSUPPORTED_TRANSACTION_STRATEGY", text "unsupported transaction strategy")
journal_error_fields (UnderlayError.device_already_exists id) = (text "DEVICE_ALREADY_EXISTS", id)
journal_error_fields (UnderlayError.device_not_found id) = (text "DEVICE_NOT_FOUND", id)
journal_error_fields (UnderlayError.internal m) = (text "INTERNAL", render m)

-- `matches!(code.as_str(), "TX_IN_DOUBT" | "TX_REQUIRES_RECOVERY")`.
unfoldable pub is_doubtful : Text → Bool
is_doubtful code = same code (text "TX_IN_DOUBT") || same code (text "TX_REQUIRES_RECOVERY")

unfoldable pub device_error_result :
    DeviceId → Bool → Option Text → Option TransactionStrategy → UnderlayError → DeviceApplyResult
device_error_result device_id changed tx_id strategy error =
    let (code, message) = journal_error_fields error in
    record {
      device_id = device_id;
      changed = changed;
      status = if is_doubtful code then ApplyStatus.in_doubt else ApplyStatus.failed;
      tx_id = tx_id;
      strategy = strategy;
      error_code = some code;
      error_message = some message;
      warnings = [];
      verify_report = some (
          if is_doubtful code
          then in_doubt_report device_id code message
          else skipped_report device_id);
    }

-- The status that is reported for a failure is the one of the phase that is recorded for it.
pub failed_apply_phase-status :
    (p : TxPhase)
    → apply_status_for_failed_phase (failed_apply_phase p) ≡ apply_status_for_failed_phase p
unfolding failed_apply_phase apply_status_for_failed_phase
failed_apply_phase-status p = ground arith

-- The codes of `ensure_no_in_doubt_for_devices` of api/apply_coordinator.rs, written out.
pub data IsUnresolved : UnderlayError → Type 0 where
  in_doubt :
      (message : Message) (retryable : Bool) (errors : List AdapterErrorDetail)
      → IsUnresolved (UnderlayError.adapter_operation (text "TX_IN_DOUBT") message retryable errors)
  requires_recovery :
      (message : Message) (retryable : Bool) (errors : List AdapterErrorDetail)
      → IsUnresolved
          (UnderlayError.adapter_operation (text "TX_REQUIRES_RECOVERY") message retryable errors)

doubtful_code :
    (code : Text)
    → is_doubtful code ≡ true
    → (code ≡ text "TX_IN_DOUBT") ⊎ (code ≡ text "TX_REQUIRES_RECOVERY")
unfolding is_doubtful
doubtful_code code h = elim (Bool-cases (same code (text "TX_IN_DOUBT"))) [
  | inl e ↦ inl ((same_iff code (text "TX_IN_DOUBT")).0 e)
  | inr e ↦ inr ((same_iff code (text "TX_REQUIRES_RECOVERY")).0 (rw e at h))
]

unresolved_code :
    (code : Text) (message : Message) (retryable : Bool) (errors : List AdapterErrorDetail)
    → is_doubtful code ≡ true
    → IsUnresolved (UnderlayError.adapter_operation code message retryable errors)
unresolved_code code message retryable errors h = elim (doubtful_code code h) [
  | inl e ↦
      subst (λ c. IsUnresolved (UnderlayError.adapter_operation c message retryable errors)) (sym e)
        (IsUnresolved.in_doubt message retryable errors)
  | inr e ↦
      subst (λ c. IsUnresolved (UnderlayError.adapter_operation c message retryable errors)) (sym e)
        (IsUnresolved.requires_recovery message retryable errors)
]

doubtful_error :
    (error : UnderlayError) → is_doubtful (journal_error_fields error).0 ≡ true → IsUnresolved error
unfolding journal_error_fields is_doubtful
doubtful_error (UnderlayError.adapter_operation code message retryable errors) h =
    unresolved_code code message retryable errors h
doubtful_error _ h = cc

unresolved_error :
    (error : UnderlayError) → IsUnresolved error → is_doubtful (journal_error_fields error).0 ≡ true
unfolding journal_error_fields is_doubtful
unresolved_error _ (IsUnresolved.in_doubt message retryable errors) = refl
unresolved_error _ (IsUnresolved.requires_recovery message retryable errors) = refl

-- The result of a device that failed is in doubt exactly when the error is an operation error under one of
-- the two codes for an earlier transaction on the device, which is in doubt or waits for its recovery.
pub device_error_result-in_doubt :
    (id : DeviceId) (changed : Bool) (tx_id : Option Text) (strategy : Option TransactionStrategy)
    (error : UnderlayError)
    → ((device_error_result id changed tx_id strategy error).status ≡ ApplyStatus.in_doubt)
      ↔ IsUnresolved error
unfolding device_error_result
device_error_result-in_doubt id changed tx_id strategy error =
    elim (Bool-cases (is_doubtful (journal_error_fields error).0)) [
      | inl e ↦ (λ h. doubtful_error error e, λ u. rw e refl)
      | inr e ↦ (λ h. cc (rw e at h), λ u. let d = unresolved_error error u in cc)
    ]

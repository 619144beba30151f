-- ===== src/Base/Print.antt =====
-- `format!`: decimal numbers, and a message with its values in place. The quotes that `{:?}` puts around
-- a text are not reproduced.
use aria_underlay.Base.{
  ℕ, zero, suc, ◌+◌, ◌/◌, ◌%◌, Text, text, List, [], ◌∷◌, ◌++◌, ltb, ◌==◌, if◌then◌else◌, ◌≡◌, refl,
}
use aria_underlay.Base.Errors.{
  Arg, str, num, Message, UnderlayError, device_already_exists, device_not_found,
  invalid_device_state, adapter_transport, adapter_operation, invalid_intent, authorization_denied,
  authentication_failed, product_audit_write_failed, invalid_phase_transition,
  unsupported_transaction_strategy, internal,
}

decimal_digits : ℕ → ℕ → Text
decimal_digits zero n = []
decimal_digits (suc fuel) n =
    let front = decimal_digits fuel (n / 10) in
    if ltb n 10 then (n + b'0') ∷ [] else front ++ (n % 10 + b'0') ∷ []

-- A `u64` has at most twenty digits.
unfoldable pub decimal_text : ℕ → Text
unfolding decimal_digits
decimal_text n = decimal_digits 20 n

unfoldable pub print_arg : Arg → Text
print_arg (str s) = s
print_arg (num n) = decimal_text n

-- `[T]::join`.
unfoldable pub join : Text → List Text → Text
join separator [] = []
join separator (a ∷ []) = a
join separator (a ∷ b ∷ l) = a ++ (separator ++ join separator (b ∷ l))

-- What stands behind the end of a placeholder.
unfoldable pub after_brace : Text → Text
after_brace [] = []
after_brace (c ∷ s) = let rest = after_brace s in if c == b'}' then s else rest

-- The template up to the first placeholder, and from there on.
unfoldable pub before_brace : Text → Text
before_brace [] = []
before_brace (c ∷ s) = let rest = before_brace s in if c == b'{' then [] else c ∷ rest

unfoldable pub from_brace : Text → Text
from_brace [] = []
from_brace (c ∷ s) = let rest = from_brace s in if c == b'{' then c ∷ s else rest

unfoldable pub fill : Text → List Arg → Text
fill template [] = template
fill template (v ∷ vs) =
    before_brace template ++ (print_arg v ++ fill (after_brace (from_brace template)) vs)

unfoldable pub render : Message → Text
unfolding fill
render m = fill (text m.template) m.values

-- `{}` of an error.
unfoldable pub display_error : UnderlayError → Text
unfolding render
display_error (device_already_exists id) = text "device already exists: " ++ id
display_error (device_not_found id) = text "device not found: " ++ id
display_error (invalid_device_state m) = text "invalid device state: " ++ render m
display_error (adapter_transport m) = text "adapter transport error: " ++ render m
display_error (adapter_operation code m retryable errors) =
    text "adapter operation error: " ++ (code ++ (text ": " ++ render m))
display_error (invalid_intent m) = text "invalid intent: " ++ render m
display_error (authorization_denied m) = text "authorization denied: " ++ render m
display_error (authentication_failed m) = text "authentication failed: " ++ render m
display_error (product_audit_write_failed m) = text "product audit write failed: " ++ render m
display_error (invalid_phase_transition from to) =
    text "invalid phase transition: " ++ (from ++ (text " -> " ++ to))
display_error unsupported_transaction_strategy = text "unsupported transaction strategy"
display_error (internal m) = text "internal error: " ++ render m

rendered :
    render (record { template = "ACL {} rule {} x"; values = num 3000 ∷ str (text "7a") ∷ [] })
    ≡ text "ACL 3000 rule 7a x"
unfolding render fill print_arg before_brace from_brace after_brace decimal_text
rendered = refl

-- ===== src/Base/Errors.antt =====
-- error.rs: `UnderlayError` and `UnderlayResult`. A message is its format string together with the
-- values that are printed in it; the printing is not modelled.
use aria_underlay.Base.{ℕ, String, Text, List, Bool, ◌≡◌, refl, ◌⊎◌, inl, inr}

pub data Arg : Type 0 where
  str : Text → Arg
  num : ℕ → Arg

pub record Message : Type 0 where
  pub template : String
  pub values : List Arg

pub record AdapterErrorDetail : Type 0 where
  pub code : Text
  pub message : Text

pub data UnderlayError : Type 0 where
  device_already_exists device_not_found : Text → UnderlayError
  invalid_device_state : Message → UnderlayError
  adapter_transport : Message → UnderlayError
  adapter_operation :
      (code : Text) (message : Message) (retryable : Bool) (errors : List AdapterErrorDetail)
      → UnderlayError
  invalid_intent authorization_denied authentication_failed : Message → UnderlayError
  product_audit_write_failed : Message → UnderlayError
  invalid_phase_transition : (from to : Text) → UnderlayError
  unsupported_transaction_strategy : UnderlayError
  internal : Message → UnderlayError

pub data UnderlayResult {ℓ} (A : Type ℓ) : Type ℓ where
  ok : A → UnderlayResult A
  err : UnderlayError → UnderlayResult A

-- `if test { return Err(..) }`.
abbrev pub fail_if : Bool → UnderlayError → UnderlayResult (Unit {0})
fail_if Bool.false e = ok tt
fail_if Bool.true e = err e

-- The `?` operator.
infixl 5 ◌>>=◌
abbrev pub ◌>>=◌ {ℓ κ} :
    {A : Type ℓ} {B : Type κ} → UnderlayResult A → (A → UnderlayResult B) → UnderlayResult B
err e >>= next = err e
ok value >>= next = next value

-- The `?` operator on a check that returns nothing.
infixl 5 ◌>>◌
abbrev pub ◌>>◌ {ℓ} : {B : Type ℓ} → UnderlayResult (Unit {0}) → UnderlayResult B → UnderlayResult B
check >> rest = check >>= λ done. rest

abbrev pub invalid : String → List Arg → UnderlayError
invalid s vs = invalid_intent (record { template = s; values = vs })

-- A chain that succeeds has succeeded in both parts.
pub >>=-eq-ok {ℓ κ} :
    {A : Type ℓ} {B : Type κ} (first : UnderlayResult A) (next : A → UnderlayResult B) {out : B}
    → (first >>= next) ≡ ok out
    → (value : A) × (first ≡ ok value) × (next value ≡ ok out)
>>=-eq-ok (err e) next h = cc
>>=-eq-ok (ok value) next h = (value, refl, h)

pub >>-eq-ok {ℓ} :
    {B : Type ℓ} (check : UnderlayResult (Unit {0})) (rest : UnderlayResult B) {out : B}
    → (check >> rest) ≡ ok out
    → (check ≡ ok tt) × (rest ≡ ok out)
>>-eq-ok (err e) rest h = cc
>>-eq-ok (ok value) rest h = (refl, h)

pub Result-cases {ℓ} :
    {A : Type ℓ} (m : UnderlayResult A)
    → ((e : UnderlayError) × (m ≡ err e)) ⊎ ((a : A) × (m ≡ ok a))
Result-cases (ok a) = inr (a, refl)
Result-cases (err e) = inl (e, refl)

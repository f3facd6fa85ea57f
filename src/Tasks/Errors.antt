-- ===== src/Tasks/Errors.antt =====
-- The exceptions that the Agent Task queue raises, and results with a bind for `do`.
use esan_gbos.Prelude.{Bool, true, false, Option, none, some}

-- `key_error` and `value_error` are Python's own.
pub data Error : Type 0 where
  validation_error idempotency_conflict lease_conflict task_not_found key_error value_error : Error

pub data Result {ℓ} (A : Type ℓ) : Type ℓ where
  err : Error → Result A
  ok : A → Result A

-- An exception when the test holds, or when there is no value.
abbrev pub raise_if : Bool → Error → Result (Unit {0})
raise_if false exception = ok tt
raise_if true exception = err exception

abbrev pub or_raise {ℓ} : {A : Type ℓ} → Option A → Error → Result A
or_raise (some value) exception = ok value
or_raise none exception = err exception

infixl 5 ◌>>=◌ ◌>>◌
abbrev pub ◌>>=◌ {μ ℓ} : {B : Type ℓ} {A : Type μ} → Result A → (A → Result B) → Result B
err exception >>= next = err exception
ok value >>= next = next value

abbrev pub ◌>>◌ {ℓ} : {B : Type ℓ} → Result (Unit {0}) → Result B → Result B
first >> next = first >>= λ _. next

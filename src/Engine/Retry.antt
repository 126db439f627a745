-- ===== src/Engine/Retry.antt =====
-- src/torq_cli/core/engine.py: `ProviderError.retry_class` and `call_with_retry`. The operation is
-- what it gives at each call, counted from 0; a sleep is its multiple of `base_delay`.
pub mod Calls
mod Tests
use torq_cli_python.Prelude.{
  ℕ, zero, suc, ◌^◌, Bool, true, false, ◌||◌, not, Option, none, some, List, [], ◌∷◌, eqb, leb, any,
  if◌then◌else◌,
}

-- What a call gives: a value, a `ProviderError` with its status, or another exception.
pub data Reply {ℓ} (A : Type ℓ) : Type ℓ where
  value : A → Reply A
  provider_error : Option ℕ → Reply A
  other_error : Reply A

pub data Ending {ℓ} (A : Type ℓ) : Type ℓ where
  ended : Reply A → Ending A
  attempts_invalid : Ending A  -- the `ValueError`
  unreachable : Ending A  -- the `AssertionError`

pub record Retried {ℓ} (A : Type ℓ) : Type ℓ where
  pub ending : Ending A
  pub count : ℕ
  pub sleeps : List ℕ

-- `retry_class is RetryClass.RETRYABLE`
is_retryable_status : Option ℕ → Bool
is_retryable_status none = false
is_retryable_status (some n) = any (λ m. eqb n m) (408 ∷ 409 ∷ 425 ∷ 429 ∷ []) || leb 500 n

pub is_retryable {ℓ} : {A : Type ℓ} → Reply A → Bool
is_retryable (provider_error status) = is_retryable_status status
is_retryable _ = false

-- The loop at call `k`, with what is left of the range.
pub call_from {ℓ} : {A : Type ℓ} → (ℕ → Reply A) → ℕ → ℕ → ℕ → Retried A
call_from operation attempts zero k = record { ending = unreachable; count = k; sleeps = [] }
call_from operation attempts (suc left) k =
    let rest = call_from operation attempts left (suc k) in
    if not (is_retryable (operation k)) || eqb (suc k) attempts
    then record { ending = ended (operation k); count = suc k; sleeps = [] }
    else record { ending = rest.ending; count = rest.count; sleeps = 2 ^ k ∷ rest.sleeps }

-- A negative number of attempts is refused as 0 is.
pub call_with_retry {ℓ} : {A : Type ℓ} → (ℕ → Reply A) → ℕ → Retried A
call_with_retry operation zero = record { ending = attempts_invalid; count = 0; sleeps = [] }
call_with_retry operation (suc n) = call_from operation (suc n) (suc n) 0

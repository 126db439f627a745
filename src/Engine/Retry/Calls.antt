-- ===== src/Engine/Retry/Calls.antt =====
-- How often an operation is called, and what its caller gets.
use torq_cli_python.Prelude.{
  ℕ, zero, suc, ◌+◌, ◌≤◌, ◌<◌, ◌≡◌, subst, inl, inr, refl, true, ◌||◌, not, eqb, length, arith,
  Bool-cases,
}
use torq_cli_python.Engine.Retry.{Reply, ended, Retried, is_retryable, call_from, call_with_retry}

-- The calls stop at `last`: each before it failed in a way that is retried, each was followed by a
-- sleep, and `last` is the first that need not be retried or the last that is allowed.
abbrev StopsAt {ℓ} : {A : Type ℓ} → (ℕ → Reply A) → ℕ → ℕ → Retried A → ℕ → Type ℓ
StopsAt operation attempts start c last =
    (c.ending ≡ ended (operation last))
    × (c.count ≡ suc last)
    × (start + length c.sleeps ≡ last)
    × (last < attempts)
    × ((i : ℕ) → start ≤ i → i < last → is_retryable (operation i) ≡ true)
    × (is_retryable (operation last) ≡ true → suc last ≡ attempts)

abbrev pub Stops {ℓ} : {A : Type ℓ} → (ℕ → Reply A) → ℕ → Retried A → Type ℓ
Stops operation attempts c = (last : ℕ) × StopsAt operation attempts 0 c last

call_from-StopsAt {ℓ} :
    {A : Type ℓ} (operation : ℕ → Reply A) (attempts left k : ℕ)
    → k + suc left ≡ attempts
    → (last : ℕ) × StopsAt operation attempts k (call_from operation attempts (suc left) k) last
unfolding call_from
call_from-StopsAt operation attempts zero k e =
    let last_call : (not (is_retryable (operation k)) || eqb (suc k) attempts) ≡ true =
      ground arith in
    (
      k,
      rw last_call
          (refl, refl, omega arith, omega arith, (λ i a b. absurd (omega arith)), ground arith),
    )
call_from-StopsAt operation attempts (suc l) k e =
    elim (Bool-cases (not (is_retryable (operation k)) || eqb (suc k) attempts)) [
      | inl h ↦ (
        k,
        rw h (refl, refl, omega arith, omega arith, (λ i a b. absurd (omega arith)), ground arith),
      )
      | inr h ↦
          let (last, settled) = call_from-StopsAt operation attempts l (suc k) (omega arith) in
          let (a, b, c, d, f, g) = settled in
          let first : is_retryable (operation k) ≡ true = ground arith in
          let retried : (i : ℕ) → k ≤ i → i < last → is_retryable (operation i) ≡ true = λ i x y.
            elim (Bool-cases (eqb k i)) [
              | inl same ↦
                  let at_k : k ≡ i = ground arith in
                  subst (λ j. is_retryable (operation j) ≡ true) at_k first
              | inr other ↦ f i (ground arith) y
            ] in
          (last, rw (h, call_from) (a, b, omega (arith, c), d, retried, g))
    ]

-- With a positive number of attempts, the caller gets the outcome of the last call made, a value
-- or an exception. Every call before it raised an error that is retried and was followed by one
-- sleep; the last call's outcome is not to be retried, or the attempts are used up.
pub call_with_retry-Stops {ℓ} :
    {A : Type ℓ} (operation : ℕ → Reply A) (attempts : ℕ)
    → 0 < attempts
    → Stops operation attempts (call_with_retry operation attempts)
unfolding call_with_retry
call_with_retry-Stops operation zero h = absurd (omega arith)
call_with_retry-Stops operation (suc n) h = call_from-StopsAt operation (suc n) n 0 (omega arith)

-- ===== src/Retry/Loop.antt =====
-- What the retry loop of crates/chudbot-api/src/retry.rs returns.
use chudbot.Common.{
  ℕ, zero, suc, ◌+◌, ◌-◌, ◌≤◌, ◌<◌, max, ◌≡◌, refl, ◌⊎◌, inl, inr, true, false, none, some, List,
  [], ◌∷◌, ◌++◌, arith, Bool-cases, ◌==◌, ==_iff,
}
use chudbot.Retry.{
  ErrorClass, RetryPolicy, Outcome, ok, err, Retried, should_retry, backoff, retry_after_error,
  retry_loop, with_retry,
}

-- The waits before the first `n` retries.
abbrev pub waits : RetryPolicy → ℕ → List ℕ
waits policy zero = []
waits policy (suc n) = waits policy n ++ backoff policy (suc n) ∷ []

Outcome-cases : {T E : Type 0} (o : Outcome T E) → ((v : T) × (o ≡ ok v)) ⊎ ((e : E) × (o ≡ err e))
Outcome-cases (ok v) = inl (v, refl)
Outcome-cases (err e) = inr (e, refl)

module _ {T E : Type 0} (error_class : E → ErrorClass) (policy : RetryPolicy)
    (op : ℕ → Outcome T E) where
  -- The `k`-th call failed with an error that the policy retries.
  abbrev pub FailedRetryably : ℕ → Type 0
  FailedRetryably k = (e : E) × (op k ≡ err e) × (should_retry policy (error_class e) ≡ true)

  -- No further call can be made: success, the last attempt, or an error that is not retried.
  abbrev pub IsLast : ℕ → Outcome T E → Type 0
  IsLast k (ok v) = Unit
  IsLast k (err e) = (policy.max_attempts ≤ k) ⊎ (should_retry policy (error_class e) ≡ false)

  -- The run stopped at the first call that could be the last one, and returned its outcome.
  pub record Stops (r : Retried T E) : Type 0 where
    pub called : 1 ≤ r.calls
    pub bounded : r.calls ≤ max 1 policy.max_attempts
    pub outcome : op r.calls ≡ r.result
    pub earlier : (k : ℕ) → 1 ≤ k → k < r.calls → FailedRetryably k
    pub last : IsLast r.calls r.result
    pub slept : r.slept ≡ waits policy (r.calls - 1)

  retry_after_error_cases :
      (k : ℕ) (c : ErrorClass)
      → ((retry_after_error policy k c ≡ none)
          × ((policy.max_attempts ≤ k) ⊎ (should_retry policy c ≡ false)))
        ⊎ ((retry_after_error policy k c ≡ some (backoff policy k, k + 1))
            × (k < policy.max_attempts)
            × (should_retry policy c ≡ true))
  unfolding retry_after_error
  retry_after_error_cases k c = ground arith

  -- What the loop knows when the counter reads `k`.
  record Before (k : ℕ) (slept : List ℕ) : Type 0 where
    pos : 1 ≤ k
    bounded : k ≤ max 1 policy.max_attempts
    earlier : (j : ℕ) → 1 ≤ j → j < k → FailedRetryably j
    slept_lem : slept ≡ waits policy (k - 1)

  earlier_suc :
      (k : ℕ) (earlier : (j : ℕ) → 1 ≤ j → j < k → FailedRetryably j)
      → FailedRetryably k
      → (j : ℕ) → 1 ≤ j
      → j < k + 1
      → FailedRetryably j
  earlier_suc k earlier now j p h = elim (Bool-cases (j == k)) [
    | inl same ↦ rw ((==_iff j k).0 same) now
    | inr other ↦ earlier j p (ground arith)
  ]

  waits_next : (k : ℕ) → 1 ≤ k → waits policy (k - 1) ++ backoff policy k ∷ [] ≡ waits policy k
  waits_next zero h = elim h [ ]
  waits_next (suc k) h = let e : suc k - 1 ≡ k = omega arith in rw e

  Before-suc :
      (k : ℕ) (slept : List ℕ)
      → Before k slept
      → k < policy.max_attempts
      → FailedRetryably k
      → Before (k + 1) (slept ++ backoff policy k ∷ [])
  Before-suc k slept b room now =
      let e : k + 1 - 1 ≡ k = omega arith in
      record {
        pos = omega arith;
        bounded = omega arith;
        earlier = earlier_suc k b.earlier now;
        slept_lem = rw (e, b.slept_lem) (waits_next k b.pos);
      }

  retry_loop-Stops :
      (fuel k : ℕ) (slept : List ℕ)
      → policy.max_attempts < k + fuel
      → Before k slept
      → k < k + fuel
      → (r : Retried T E) × (retry_loop error_class policy op fuel k slept ≡ some r) × Stops r
  unfolding retry_loop
  retry_loop-Stops zero k slept h b p = absurd (omega arith)
  retry_loop-Stops (suc fuel) k slept h b p = elim (Outcome-cases (op k)) [
    | inl (v, good) ↦ (
      record { result = ok v; calls = k; slept = slept },
      rw (good, retry_loop),
      record {
        called = b.pos;
        bounded = b.bounded;
        outcome = good;
        earlier = b.earlier;
        last = tt;
        slept = b.slept_lem;
      },
    )
    | inr (e, bad) ↦ elim (retry_after_error_cases k (error_class e)) [
      | inl (stop, why) ↦ (
        record { result = err e; calls = k; slept = slept },
        rw (bad, retry_loop) (rw stop),
        record {
          called = b.pos;
          bounded = b.bounded;
          outcome = bad;
          earlier = b.earlier;
          last = why;
          slept = b.slept_lem;
        },
      )
      | inr (again, room, retried) ↦
          rw (bad, retry_loop)
            (rw again (
              retry_loop-Stops fuel (k + 1) (slept ++ backoff policy k ∷ []) (omega arith)
                (Before-suc k slept b room (e, bad, retried)) (omega arith)))
    ]
  ]

-- `with_retry` always returns. It makes between one and `max_attempts` calls (one if that is 0),
-- stops at the first success or error that it may not retry, returns that outcome unchanged, and
-- has slept the policy's backoff before each repeated call, in order, and nothing else.
pub with_retry-Stops :
    {T E : Type 0} (error_class : E → ErrorClass) (policy : RetryPolicy) (op : ℕ → Outcome T E)
    → (r : Retried T E) × (with_retry error_class policy op ≡ some r)
      × Stops error_class policy op r
unfolding with_retry
with_retry-Stops error_class policy op =
    retry_loop-Stops error_class policy op (suc policy.max_attempts) 1 [] (omega arith)
      (record {
        pos = omega arith;
        bounded = omega arith;
        earlier = λ j p h. absurd (omega arith);
        slept_lem = refl;
      })
      (omega arith)

-- ===== src/Retry.antt =====
-- crates/chudbot-api/src/retry.rs: error classes, the retry policy and the retry loop.
-- A `Duration` is its whole number of nanoseconds, capped where the source saturates.
pub mod Backoff
pub mod Loop
mod Tests
use chudbot.Common.{
  ℕ, zero, suc, ◌+◌, ◌-◌, ◌*◌, ◌^◌, min, Bool, true, false, not, ◌||◌, Option, none, some, List, [],
  ◌∷◌, ◌++◌, leb, if◌then◌else◌,
}

pub data ErrorClass : Type 0 where
  server_transient network permanent : ErrorClass

-- `max_attempts` is a u32; the delays are nanoseconds.
pub record RetryPolicy : Type 0 where
  pub max_attempts : ℕ
  pub base_delay : ℕ
  pub max_delay : ℕ
  pub retry_network : Bool

abbrev pub u32_max : ℕ
u32_max = 4294967295

-- `Duration::MAX` in nanoseconds: u64 seconds and 999999999 nanoseconds.
abbrev pub duration_max : ℕ
duration_max = 18446744073709551615 * 1000000000 + 999999999

-- `RetryPolicy::default`.
abbrev pub default_policy : RetryPolicy
default_policy = record {
  max_attempts = 3;
  base_delay = 500000000;
  max_delay = 4000000000;
  retry_network = true;
}

unfoldable pub should_retry : RetryPolicy → ErrorClass → Bool
should_retry policy server_transient = true
should_retry policy network = policy.retry_network
should_retry policy permanent = false

-- `2u32.saturating_pow(n)` and `Duration::saturating_mul`.
unfoldable pub saturating_pow2 : ℕ → ℕ
saturating_pow2 n = min (2 ^ n) u32_max

unfoldable pub saturating_mul : ℕ → ℕ → ℕ
saturating_mul delay factor = min (delay * factor) duration_max

-- `retry.saturating_sub(1)` is the truncated `-`.
unfoldable pub backoff : RetryPolicy → ℕ → ℕ
unfolding saturating_mul saturating_pow2
backoff policy retry =
    min (saturating_mul policy.base_delay (saturating_pow2 (retry - 1))) policy.max_delay

-- `none` is `false`; otherwise the delay slept and the new value of `*attempt`.
unfoldable pub retry_after_error : RetryPolicy → ℕ → ErrorClass → Option (ℕ × ℕ)
retry_after_error policy attempt class =
    if leb policy.max_attempts attempt || not (should_retry policy class)
    then none
    else some (backoff policy attempt, attempt + 1)

-- One attempt's result.
pub data Outcome (T E : Type 0) : Type 0 where
  ok : T → Outcome T E
  err : E → Outcome T E

-- What a call of `with_retry` did: its result, the number of calls of `op`, and the sleeps.
pub record Retried (T E : Type 0) : Type 0 where
  pub result : Outcome T E
  pub calls : ℕ
  pub slept : List ℕ

module _ {T E : Type 0} (error_class : E → ErrorClass) (policy : RetryPolicy)
    (op : ℕ → Outcome T E) where
  -- The loop: `op attempt` is the outcome of the call made when the counter reads `attempt`.
  -- `none` means that the fuel ran out.
  pub retry_loop : ℕ → ℕ → List ℕ → Option (Retried T E)
  retry_loop zero attempt slept = none
  retry_loop (suc fuel) attempt slept = elim (op attempt) [
    | ok value ↦ some (record { result = ok value; calls = attempt; slept = slept })
    | err e ↦ elim (retry_after_error policy attempt (error_class e)) [
      | none ↦ some (record { result = err e; calls = attempt; slept = slept })
      | some (delay, next) ↦ retry_loop fuel next (slept ++ delay ∷ [])
    ]
  ]

  unfoldable pub with_retry : Option (Retried T E)
  unfolding retry_loop
  with_retry = retry_loop (suc policy.max_attempts) 1 []

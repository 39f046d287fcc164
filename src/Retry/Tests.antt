-- ===== src/Retry/Tests.antt =====
-- Runs of the retry loop of crates/chudbot-api/src/retry.rs, as its own tests make them.
use chudbot.Common.{ℕ, ◌*◌, ◌^◌, min, ◌≡◌, refl, some, [], ◌∷◌, arith, ltb, if◌then◌else◌}
use chudbot.Retry.{
  ErrorClass, server_transient, permanent, default_policy, Outcome, ok, err, Retried, should_retry,
  backoff, retry_after_error, with_retry,
}
use chudbot.Retry.Backoff.{backoff_doubles}
use chudbot.Retry.Loop.{Stops, with_retry-Stops}

-- The error is its own class; the third call succeeds.
abbrev third_time : ℕ → Outcome ℕ ErrorClass
third_time k = if ltb k 3 then err server_transient else ok k

abbrev refused : ℕ → Outcome ℕ ErrorClass
refused k = err permanent

abbrev class : ErrorClass → ErrorClass
class c = c

retries_then_succeeds :
    with_retry class default_policy third_time
    ≡ some (record { result = ok 3; calls = 3; slept = 500000000 ∷ 1000000000 ∷ [] })
unfolding with_retry retry_after_error should_retry backoff
retries_then_succeeds = refl

permanent_errors_are_not_retried :
    with_retry class default_policy refused
    ≡ some (record { result = err permanent; calls = 1; slept = [] })
unfolding with_retry retry_after_error should_retry backoff
permanent_errors_are_not_retried = refl

with_retry-Stops_example :
    (r : Retried ℕ ErrorClass) × (with_retry class default_policy third_time ≡ some r)
    × Stops class default_policy third_time r
with_retry-Stops_example = with_retry-Stops class default_policy third_time

backoff_doubles_example :
    backoff default_policy 3 ≡ min (default_policy.base_delay * 2 ^ 2) default_policy.max_delay
backoff_doubles_example = backoff_doubles default_policy 2 (omega arith) (omega arith)

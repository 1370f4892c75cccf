-- ===== src/Collection/Retry.antt =====
-- `_collect_with_retry`: one URL of one module, with pauses that double.
pub mod Bounds
use competitor_intelligence.Base.{
  ℕ, zero, suc, ◌+◌, ◌*◌, ◌^◌, Bool, true, false, ◌||◌, Option, none, some, List, [], ◌∷◌,
  if◌then◌else◌, Text, codes, lower, is_infix,
}

-- What a collector returns: whether its status is "success", and the sum of its positive counts.
pub record CollectorResult : Type 0 where
  pub succeeded : Bool
  pub found : ℕ

-- A call of a collector returns, or raises an exception with a message.
pub data Attempt : Type 0 where
  returned : CollectorResult → Attempt
  raised : Text → Attempt

pub record RetryRun : Type 0 where
  pub result : CollectorResult
  pub calls : ℕ
  pub waited : ℕ

unfoldable pub contains_any : List Text → Text → Bool
contains_any [] s = false
contains_any (w ∷ words) s = is_infix w s || contains_any words s

unfoldable pub is_retryable : Text → Bool
is_retryable error =
    contains_any
      (codes "timeout"
        ∷ codes "timed out"
        ∷ codes "connection"
        ∷ codes "reset"
        ∷ codes "502"
        ∷ codes "503"
        ∷ codes "504"
        ∷ codes "rate limit"
        ∷ codes "too many"
        ∷ [])
      (lower error)

-- `{"status": "failed", …}`
abbrev pub failed_result : CollectorResult
failed_result = record { succeeded = false; found = 0 }

abbrev pub once : CollectorResult → RetryRun
once r = record { result = r; calls = 1; waited = 0 }

-- the run after a pause and one more call
abbrev pub after_pause : ℕ → RetryRun → RetryRun
after_pause delay run = record run { calls = run.calls + 1; waited = delay + run.waited }

-- what an attempt leads to, with the run that follows a pause: `attempt < max_retries` and
-- `retryable` decide
unfoldable pub settle : ℕ → Option RetryRun → Attempt → RetryRun
settle delay next (returned r) = once r
settle delay none (raised error) = once failed_result
settle delay (some run) (raised error) =
    if is_retryable error then after_pause delay run else once failed_result

module _ (base_delay : ℕ) (call : ℕ → Attempt) where
  -- the loop from an attempt on, with the attempts that are left after it
  unfoldable pub retry_from : ℕ → ℕ → RetryRun
  retry_from zero attempt = settle (base_delay * 2 ^ attempt) none (call attempt)
  retry_from (suc left) attempt =
      let next = retry_from left (attempt + 1) in
      settle (base_delay * 2 ^ attempt) (some next) (call attempt)

  unfoldable pub collect_with_retry : ℕ → RetryRun
  collect_with_retry max_retries = retry_from max_retries 0

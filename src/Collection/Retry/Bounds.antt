-- ===== src/Collection/Retry/Bounds.antt =====
-- How often `_collect_with_retry` calls the collector, and how long it sleeps.
use native.Mathlib.Nat.{pow-suc}
use native.Mathlib.Numerals.{towards_suc}
use competitor_intelligence.Base.{
  ℕ, zero, suc, ◌+◌, ◌*◌, ◌^◌, ◌≤◌, ◌≡◌, ap, arith, ◌∙◌, if_chosen, none, some,
}
use competitor_intelligence.Collection.Retry.{
  CollectorResult, Attempt, returned, raised, RetryRun, is_retryable, failed_result, once, settle,
  after_pause, retry_from, collect_with_retry,
}

-- What a run from an attempt on is to do, with so many attempts left after it.
abbrev pub KeepsBounds : ℕ → ℕ → ℕ → RetryRun → Type 0
KeepsBounds base_delay left attempt run =
    (1 ≤ run.calls)
    × (run.calls ≤ left + 1)
    × (2 * run.waited + base_delay * 2 ^ (attempt + 1) ≡ base_delay * 2 ^ (attempt + run.calls))

pow_double : (d a : ℕ) → d * 2 ^ (a + 1) ≡ d * 2 ^ a + d * 2 ^ a
pow_double d a = simp (towards_suc, pow-suc) (omega arith)

once-KeepsBounds :
    (base_delay left attempt : ℕ) (r : CollectorResult)
    → KeepsBounds base_delay left attempt (once r)
once-KeepsBounds base_delay left attempt r = (omega arith, omega arith, omega arith)

after_pause-KeepsBounds :
    (base_delay left attempt : ℕ) (run : RetryRun)
    → KeepsBounds base_delay left (attempt + 1) run
    → KeepsBounds base_delay (suc left) attempt (after_pause (base_delay * 2 ^ attempt) run)
after_pause-KeepsBounds base_delay left attempt run (low, high, total) =
    let e : attempt + 1 + run.calls ≡ attempt + (run.calls + 1) = omega arith in
    let total' : 2 * run.waited + base_delay * 2 ^ (attempt + 1 + 1)
        ≡ base_delay * 2 ^ (attempt + (run.calls + 1)) =
      total ∙ ap (λ n. base_delay * 2 ^ n) e in
    (
      omega arith,
      omega arith,
      omega (arith, total', pow_double base_delay attempt, pow_double base_delay (attempt + 1)),
    )

settle-KeepsBounds_last :
    (base_delay attempt : ℕ) (o : Attempt)
    → KeepsBounds base_delay 0 attempt (settle (base_delay * 2 ^ attempt) none o)
unfolding settle
settle-KeepsBounds_last base_delay attempt (returned r) = once-KeepsBounds base_delay 0 attempt r
settle-KeepsBounds_last base_delay attempt (raised error) =
    once-KeepsBounds base_delay 0 attempt failed_result

settle-KeepsBounds :
    (base_delay left attempt : ℕ) (run : RetryRun) (o : Attempt)
    → KeepsBounds base_delay left (attempt + 1) run
    → KeepsBounds base_delay (suc left) attempt (settle (base_delay * 2 ^ attempt) (some run) o)
unfolding settle
settle-KeepsBounds base_delay left attempt run (returned r) h =
    once-KeepsBounds base_delay (suc left) attempt r
settle-KeepsBounds base_delay left attempt run (raised error) h =
    if_chosen (KeepsBounds base_delay (suc left) attempt) (is_retryable error) _ _
      (λ retryable. after_pause-KeepsBounds base_delay left attempt run h)
      (λ other. once-KeepsBounds base_delay (suc left) attempt failed_result)

module _ (base_delay : ℕ) (call : ℕ → Attempt) where
  retry_from-KeepsBounds :
      (left attempt : ℕ)
      → KeepsBounds base_delay left attempt (retry_from base_delay call left attempt)
  unfolding retry_from
  retry_from-KeepsBounds zero attempt = settle-KeepsBounds_last base_delay attempt (call attempt)
  retry_from-KeepsBounds (suc left) attempt =
      settle-KeepsBounds base_delay left attempt _ (call attempt)
        (retry_from-KeepsBounds left (attempt + 1))

  -- The retries of a collector call it at least once and at most once more than the number of
  -- retries allowed, and what they sleep between the calls is a geometric sum: the base delay times
  -- two to the power of the calls, less twice the base delay, halved.
  pub collect_with_retry-KeepsBounds :
      (max_retries : ℕ)
      → KeepsBounds base_delay max_retries 0 (collect_with_retry base_delay call max_retries)
  unfolding collect_with_retry
  collect_with_retry-KeepsBounds max_retries = retry_from-KeepsBounds max_retries 0

-- ===== src/Fetcher/RateLimiter.antt =====
-- `RateLimiter`, a token bucket. Tokens are measured by the time in which they refill, in ticks of
-- the clock: the bucket holds `capacity` ticks (one second), and a request costs `interval` ticks
-- (a second over the rate), so that the code's floats become whole numbers and no division is left.
pub mod Bounds
use competitor_intelligence.Base.{ℕ, ◌+◌, ◌-◌, min, ltb, if◌then◌else◌, List, [], ◌∷◌}

pub record RateLimiter : Type 0 where
  pub capacity : ℕ
  pub interval : ℕ
  pub tokens : ℕ
  pub last_refill : ℕ

unfoldable pub init : ℕ → ℕ → ℕ → RateLimiter
init capacity interval now = record {
  capacity = capacity;
  interval = interval;
  tokens = capacity;
  last_refill = now;
}

-- `self._tokens = min(self._rate, self._tokens + elapsed * self._rate)`
unfoldable pub refill : ℕ → RateLimiter → RateLimiter
refill now r = record r {
  tokens = min r.capacity (r.tokens + (now - r.last_refill));
  last_refill = now;
}

-- `acquire`, which holds the lock while it sleeps: the time at which it returns, and the bucket.
unfoldable pub acquire : ℕ → RateLimiter → ℕ × RateLimiter
unfolding refill
acquire now r =
    let r' = refill now r in
    if ltb r'.tokens r'.interval
    then (now + (r'.interval - r'.tokens), record r' { tokens = 0 })
    else (now, record r' { tokens = r'.tokens - r'.interval })

-- A run of requests; each arrives the given time after the one before it has been let through.
unfoldable pub acquire_all : List ℕ → ℕ → RateLimiter → ℕ × RateLimiter
acquire_all [] now r = (now, r)
acquire_all (gap ∷ gaps) now r = let (now', r') = acquire (now + gap) r in acquire_all gaps now' r'

-- ===== src/Fetcher/RateLimiter/Bounds.antt =====
-- What the token bucket guarantees, and by how much it lets through more than its rate.
use competitor_intelligence.Base.{
  ℕ, ◌+◌, ◌*◌, ◌≤◌, ◌<◌, ◌≡◌, arith, List, [], ◌∷◌, length, zero, suc, ap, sym, ◌∙◌,
}
use native.Mathlib.Nat.{add-zero}
use competitor_intelligence.Fetcher.RateLimiter.{RateLimiter, init, acquire, acquire_all}

-- The bucket is not overfull, and its last refill is not in the future.
pub record IsValid (now : ℕ) (r : RateLimiter) : Type 0 where
  pub filled : r.tokens ≤ r.capacity
  pub past : r.last_refill ≤ now

-- A request waits for at most the time of one token, the parameters stay, and the bucket is valid
-- when it is let through.
pub acquire-IsValid :
    (now : ℕ) (r : RateLimiter)
    → IsValid now r
    → let (done, r') = acquire now r in
      (now ≤ done)
      × (done ≤ now + r.interval)
      × IsValid done r'
      × (r'.capacity ≡ r.capacity)
      × (r'.interval ≡ r.interval)
unfolding acquire
acquire-IsValid now r v = ground arith

-- What a request costs is paid by the bucket, by the time since the last refill, and by the wait.
acquire_paid :
    (now : ℕ) (r : RateLimiter)
    → IsValid now r
    → let (done, r') = acquire now r in
      (r.interval + r'.tokens + r.last_refill ≤ r.tokens + done) × (r'.last_refill ≡ now)
unfolding acquire
acquire_paid now r v = ground arith

abbrev RunPaid : List ℕ → ℕ → RateLimiter → Type 0
RunPaid gaps now r =
    let (done, r') = acquire_all gaps now r in
    length gaps * r.interval + r'.tokens + r.last_refill + now ≤ r.tokens + done + done

acquire_all_paid : (gaps : List ℕ) (now : ℕ) (r : RateLimiter) → IsValid now r → RunPaid gaps now r
unfolding acquire_all
acquire_all_paid [] now r v = omega arith
acquire_all_paid (gap ∷ gaps) now r v =
    let v1 : IsValid (now + gap) r = record { filled = v.filled; past = omega (arith, v.past) } in
    let (done, r1) = acquire (now + gap) r in
    let valid = acquire-IsValid (now + gap) r v1 in
    let paid = acquire_paid (now + gap) r v1 in
    let rest : RunPaid gaps done r1 = acquire_all_paid gaps done r1 valid.2 in
    let cost : length gaps * r1.interval ≡ length gaps * r.interval =
      ap (λ (t : ℕ). length gaps * t) valid.4 in
    omega (arith, rest, paid, cost)

-- From a full bucket, any run of requests pays for each of them with the burst that the bucket
-- holds or with at most twice the time that the run takes: beyond the burst, the limiter lets
-- through at most twice its rate.
pub acquire_all_at_most_double :
    (gaps : List ℕ) (capacity interval now : ℕ)
    → length gaps * interval + 2 * now
      ≤ capacity + 2 * (acquire_all gaps now (init capacity interval now)).0
unfolding init
acquire_all_at_most_double gaps capacity interval now =
    let r : RateLimiter = init capacity interval now in
    let paid = acquire_all_paid gaps now r (record { filled = omega arith; past = omega arith }) in
    omega (arith, paid)

-- Pairs of requests that each arrive as soon as the one before is let through.
unfoldable pub pairs : ℕ → List ℕ
pairs zero = []
pairs (suc n) = 0 ∷ 0 ∷ pairs n

double_step :
    (now : ℕ) (r : RateLimiter)
    → r.tokens ≡ 0
    → r.last_refill ≡ now
    → 0 < r.interval
    → r.interval ≤ r.capacity
    → let (done, r') = acquire now r in
      let (done', r'') = acquire done r' in
      (done' ≡ now + r.interval)
      × (r''.tokens ≡ 0)
      × (r''.last_refill ≡ now + r.interval)
      × (r''.interval ≡ r.interval)
      × (r''.capacity ≡ r.capacity)
unfolding acquire
double_step now r empty at positive small = ground arith

acquire_all_at_once :
    (gaps : List ℕ) (now : ℕ) (r : RateLimiter)
    → acquire_all (0 ∷ gaps) now r ≡ acquire_all gaps (acquire now r).0 (acquire now r).1
unfolding acquire_all
acquire_all_at_once gaps now r =
    ap (λ (t : ℕ). acquire_all gaps (acquire t r).0 (acquire t r).1) (add-zero now)

-- The factor two is reached: the time for which a request sleeps is counted again as refill time of
-- the next one, so from an empty bucket, refilled now and large enough for a request, every second
-- request of a steady run waits for nothing, and 2 n requests take the time of n.
pub acquire_all_double_rate :
    (n now : ℕ) (r : RateLimiter)
    → r.tokens ≡ 0
    → r.last_refill ≡ now
    → 0 < r.interval
    → r.interval ≤ r.capacity
    → (acquire_all (pairs n) now r).0 ≡ now + n * r.interval
unfolding pairs
acquire_all_double_rate zero now r empty at positive small = unfold acquire_all in omega arith
acquire_all_double_rate (suc n) now r empty at positive small =
    let (e, t, l, i, c) = double_step now r empty at positive small in
    let first = acquire now r in
    let second = acquire first.0 first.1 in
    let rest : (acquire_all (pairs n) second.0 second.1).0 ≡ second.0 + n * second.1.interval =
      acquire_all_double_rate n second.0 second.1 t (l ∙ sym e) (omega (arith, i))
        (omega (arith, i, c)) in
    let cost : n * second.1.interval ≡ n * r.interval = ap (λ (t : ℕ). n * t) i in
    rw (acquire_all_at_once, acquire_all_at_once) (omega (arith, rest, cost, e))

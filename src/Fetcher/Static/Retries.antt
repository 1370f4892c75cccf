-- ===== src/Fetcher/Static/Retries.antt =====
-- How often `_fetch_static` asks, how long it sleeps, and how it ends.
use native.Mathlib.Nat.{pow-suc, add-zero}
use native.Mathlib.Numerals.{towards_suc}
use competitor_intelligence.Base.{
  ℕ, zero, suc, ◌+◌, ◌*◌, ◌^◌, ◌≤◌, ◌<◌, ◌≡◌, refl, ap, arith, true, Option, none, some, Text, ltb,
  if◌then◌else◌, ◌∙◌, inl, inr,
}
use competitor_intelligence.Fetcher.HttpCache.{HttpCache}
use competitor_intelligence.Fetcher.Result.{FetchResult, FetchError, Reply, Libraries}
use competitor_intelligence.Fetcher.Static.{
  finish, again, returned, raised, handle_reply, attempts_from, fetch_static, Settled-cases,
}

pow_double : (d a : ℕ) → d * 2 ^ (a + 1) ≡ d * 2 ^ a + d * 2 ^ a
pow_double d a = simp (towards_suc, pow-suc) (omega arith)

slept_on :
    (left d slept rest : ℕ)
    → slept ≡ (if ltb 0 left then d else 0) + rest
    → ltb 0 left ≡ true
    → slept ≡ d + rest
slept_on left d slept rest e more = ground arith

module _ (lib : Libraries) (retry_delay : ℕ) (clock : ℕ → ℕ) (url : Text) (reply : ℕ → Reply) where
  -- So many replies from the given attempt on are such that the loop tries again.
  abbrev pub Retried : HttpCache → ℕ → ℕ → Type 0
  Retried c attempt zero = Unit
  Retried c attempt (suc n) =
      ((e : FetchError) × (handle_reply lib (clock attempt) url c (reply attempt) ≡ again e))
      × Retried c (attempt + 1) n

  run_of_again :
      (left attempt : ℕ) (last : Option FetchError) (c : HttpCache) (e : FetchError)
      → handle_reply lib (clock attempt) url c (reply attempt) ≡ again e
      → let rest = attempts_from lib retry_delay clock url reply (attempt + 1) left (some e) c in
        let run = attempts_from lib retry_delay clock url reply attempt (suc left) last c in
        (run.outcome ≡ rest.outcome)
        × (run.cache ≡ rest.cache)
        × (run.requests ≡ rest.requests + 1)
        × (run.slept ≡ (if ltb 0 left then retry_delay * 2 ^ attempt else 0) + rest.slept)
  unfolding attempts_from
  run_of_again left attempt last c e h = rw (h, attempts_from) (refl, refl, refl, refl)

  requests_bounded :
      (left attempt : ℕ) (last : Option FetchError) (c : HttpCache)
      → (attempts_from lib retry_delay clock url reply attempt left last c).requests ≤ left
  unfolding attempts_from
  requests_bounded zero attempt last c = omega arith
  requests_bounded (suc left) attempt last c =
      elim (Settled-cases (handle_reply lib (clock attempt) url c (reply attempt))) [
        | inl (r, c', done) ↦ rw (done, attempts_from) (omega arith)
        | inr (inl (e, more)) ↦
            rw (more, attempts_from) (omega (arith, requests_bounded left (attempt + 1) (some e) c))
        | inr (inr gone) ↦ rw (gone, attempts_from) (omega arith)
      ]

  Retried-run :
      (n left attempt : ℕ) (last : Option FetchError) (c c' : HttpCache) (r : FetchResult)
      → Retried c attempt n
      → handle_reply lib (clock (attempt + n)) url c (reply (attempt + n)) ≡ finish r c'
      → n < left
      → let run = attempts_from lib retry_delay clock url reply attempt left last c in
        (run.outcome ≡ returned r)
        × (run.cache ≡ c')
        × (run.requests ≡ n + 1)
        × (run.slept + retry_delay * 2 ^ attempt ≡ retry_delay * 2 ^ (attempt + n))
  unfolding attempts_from
  Retried-run n zero attempt last c c' r t h lt = absurd (omega arith)
  Retried-run zero (suc left) attempt last c c' r t h lt =
      let here : handle_reply lib (clock attempt) url c (reply attempt) ≡ finish r c' =
        rw add-zero at h in
      rw (here, attempts_from) (refl, refl, omega arith, rw add-zero (omega arith))
  Retried-run (suc n) (suc left) attempt last c c' r t h lt =
      let e : FetchError = t.0.0 in
      let (o, k, q, s) = run_of_again left attempt last c e t.0.1 in
      let next : attempt + 1 + n ≡ attempt + suc n = omega arith in
      let (o', k', q', s') =
        Retried-run n left (attempt + 1) (some e) c c' r t.1 (rw next h) (omega arith) in
      let more : ltb 0 left ≡ true = ground arith in
      (
        o ∙ o',
        k ∙ k',
        omega (arith, q, q'),
        rw (← next) (
            omega (
              arith,
              s',
              pow_double retry_delay attempt,
              slept_on left (retry_delay * 2 ^ attempt) _ _ s more,
            )),
      )

  exhausted_run :
      (n attempt : ℕ) (last : Option FetchError) (c : HttpCache) (e : FetchError)
      → Retried c attempt n
      → handle_reply lib (clock (attempt + n)) url c (reply (attempt + n)) ≡ again e
      → let run = attempts_from lib retry_delay clock url reply attempt (suc n) last c in
        (run.outcome ≡ raised e) × (run.cache ≡ c) × (run.requests ≡ suc n)
  unfolding attempts_from
  exhausted_run zero attempt last c e t h =
      let here : handle_reply lib (clock attempt) url c (reply attempt) ≡ again e =
        rw add-zero at h in
      rw (here, attempts_from) (refl, refl, omega arith)
  exhausted_run (suc n) attempt last c e t h =
      let (o, k, q, s) = run_of_again (suc n) attempt last c t.0.0 t.0.1 in
      let next : attempt + 1 + n ≡ attempt + suc n = omega arith in
      let (o', k', q') = exhausted_run n (attempt + 1) (some t.0.0) c e t.1 (rw next h) in
      (o ∙ o', k ∙ k', omega (arith, q, q'))

  -- If the first n replies are worth another try and the next one settles the fetch, within the
  -- allowed attempts, then that reply decides the result and the cache after n + 1 requests, and
  -- the pauses have doubled each time: together they last retry_delay * (2 ^ n - 1). These are not
  -- more requests than retry_attempts.
  pub fetch_static_settles :
      (n retry_attempts : ℕ) (c c' : HttpCache) (r : FetchResult)
      → Retried c 0 n
      → handle_reply lib (clock n) url c (reply n) ≡ finish r c'
      → n < retry_attempts
      → let run = fetch_static lib retry_delay clock url reply retry_attempts c in
        (run.outcome ≡ returned r)
        × (run.cache ≡ c')
        × (run.requests ≡ n + 1)
        × (run.slept + retry_delay ≡ retry_delay * 2 ^ n)
        × (run.requests ≤ retry_attempts)
  unfolding fetch_static
  fetch_static_settles n k c c' r t h lt =
      let start : 0 + n ≡ n = omega arith in
      let (o, ca, q, s) = Retried-run n k 0 none c c' r t (rw start h) lt in
      (
        o,
        ca,
        q,
        omega (arith, s, ap (λ (m : ℕ). retry_delay * 2 ^ m) start),
        requests_bounded k 0 none c,
      )

  -- If every attempt is worth another try, the error of the last one is raised after exactly
  -- retry_attempts requests, and the cache is as before.
  pub fetch_static_exhausted :
      (n : ℕ) (c : HttpCache) (e : FetchError)
      → Retried c 0 n
      → handle_reply lib (clock n) url c (reply n) ≡ again e
      → let run = fetch_static lib retry_delay clock url reply (suc n) c in
        (run.outcome ≡ raised e) × (run.cache ≡ c) × (run.requests ≡ suc n)
  unfolding fetch_static
  fetch_static_exhausted n c e t h =
      let start : 0 + n ≡ n = omega arith in exhausted_run n 0 none c e t (rw start h)

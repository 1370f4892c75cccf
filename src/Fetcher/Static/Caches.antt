-- ===== src/Fetcher/Static/Caches.antt =====
-- What `_fetch_static` does to the cache of validators.
use competitor_intelligence.Base.{
  ℕ, zero, suc, ◌+◌, ◌<◌, Option, none, some, String, Text, subst, inl, inr, Bool-cases, ◌==◌,
}
use competitor_intelligence.Fetcher.HttpCache
use competitor_intelligence.Fetcher.HttpCache.{HttpCache}
use competitor_intelligence.Fetcher.HttpCache.Bounds
use competitor_intelligence.Fetcher.HttpCache.Bounds.{get-IsValid, get_size}
use competitor_intelligence.Fetcher.Result.{
  FetchError, Response, Reply, Libraries, responded, transport, broken, http_status,
}
use competitor_intelligence.Fetcher.Static.{
  Settled, Settled-cases, finish, again, abort, is_retryable, handle_response, handle_reply,
  attempts_from, fetch_static, detect_404_redirect,
}

-- A valid cache that has room for at least one entry.
abbrev pub IsUsable : HttpCache → Type 0
IsUsable c = Bounds.IsValid c × (0 < c.max_size)

pub get-IsUsable :
    (now : ℕ) (url : String) (c : HttpCache) → IsUsable c → IsUsable (HttpCache.get now url c).1
get-IsUsable now url c (v, p) = (get-IsValid now url c v, rw (get_size now url c) p)

abbrev CacheUsable : Settled → Type 0
CacheUsable (finish r c) = IsUsable c
CacheUsable (again e) = Unit
CacheUsable abort = Unit

module _ (lib : Libraries) where
  handle_response-CacheUsable :
      (now : ℕ) (url : Text) (c : HttpCache) (q : Response)
      → IsUsable c
      → CacheUsable (handle_response lib now url c q)
  unfolding handle_response
  handle_response-CacheUsable now url c q u = elim (Bool-cases (q.status_code == 304)) [
    | inl unchanged ↦ rw (unchanged, handle_response) (get-IsUsable now (lib.cache_key url) c u)
    | inr changed ↦ elim (Bool-cases (detect_404_redirect lib q url)) [
      | inl lost ↦ rw (changed, lost, handle_response) u
      | inr here ↦ elim (Bool-cases (lib.raises_for_status q.status_code)) [
        | inl bad ↦
            elim (Bool-cases
              (is_retryable (some q.status_code) (some (http_status q.status_code)))) [
                | inl more ↦ rw (changed, here, bad, more, handle_response) tt
                | inr last ↦ rw (changed, here, bad, last, handle_response) u
              ]
        | inr good ↦ rw (changed, here, good, handle_response) u
      ]
    ]
  ]

  handle_reply-CacheUsable :
      (now : ℕ) (url : Text) (c : HttpCache) (q : Reply)
      → IsUsable c
      → CacheUsable (handle_reply lib now url c q)
  unfolding handle_reply
  handle_reply-CacheUsable now url c (responded q) u = handle_response-CacheUsable now url c q u
  handle_reply-CacheUsable now url c (transport e) u = tt
  handle_reply-CacheUsable now url c broken u = tt

  module _ (retry_delay : ℕ) (clock : ℕ → ℕ) (url : Text) (reply : ℕ → Reply) where
    attempts_from-IsUsable :
        (left attempt : ℕ) (last : Option FetchError) (c : HttpCache)
        → IsUsable c
        → IsUsable (attempts_from lib retry_delay clock url reply attempt left last c).cache
    unfolding attempts_from
    attempts_from-IsUsable zero attempt last c u = u
    attempts_from-IsUsable (suc left) attempt last c u =
        elim (Settled-cases (handle_reply lib (clock attempt) url c (reply attempt))) [
          | inl (r, c', done) ↦
              let good : CacheUsable (finish r c') =
                subst (λ s. CacheUsable s) done
                  (handle_reply-CacheUsable (clock attempt) url c (reply attempt) u) in
              rw (done, attempts_from) good
          | inr (inl (e, more)) ↦
              rw (more, attempts_from) (attempts_from-IsUsable left (attempt + 1) (some e) c u)
          | inr (inr gone) ↦ rw (gone, attempts_from) u
        ]

    pub fetch_static-IsUsable :
        (retry_attempts : ℕ) (c : HttpCache)
        → IsUsable c
        → IsUsable (fetch_static lib retry_delay clock url reply retry_attempts c).cache
    unfolding fetch_static
    fetch_static-IsUsable retry_attempts c u = attempts_from-IsUsable retry_attempts 0 none c u

-- ===== src/Fetcher/Hybrid/Skips.antt =====
-- What `fetch` skips: the browser for a page that has not changed since the visit before, and the
-- status 429 among those that ask for the browser.
use competitor_intelligence.Base.{
  ℕ, ◌-◌, ◌≤◌, ◌≡◌, refl, arith, ◌∙◌, true, false, some, Text, inl, inr, ◌⊎◌, subst,
}
use competitor_intelligence.Dict.{string_key}
use competitor_intelligence.Fetcher.HttpCache
use competitor_intelligence.Fetcher.HttpCache.{HttpCache, CacheEntry, Headers, filled}
use competitor_intelligence.Fetcher.HttpCache.Visits.{store_keeps_hash}
use competitor_intelligence.Fetcher.Static.{returned, fetch_static}
use competitor_intelligence.Fetcher.Static.Answers.{
  IsSettled, OutcomeSettled, fetch_static-OutcomeSettled,
}
use competitor_intelligence.Fetcher.Static.Caches.{IsUsable}
use competitor_intelligence.Fetcher.Result.{FetchResult, Libraries, Reply}
use competitor_intelligence.Fetcher.PageAnalyzer.{Patterns}
use competitor_intelligence.Fetcher.Hybrid.{
  Settings, Fetcher, World, has_headers, needs_session, compare_hash, after_static, is_unchanged,
  validators, unchanged_result,
}

session_status :
    (r : FetchResult)
    → IsSettled r
    → r.is_404_redirect ≡ false
    → needs_session r.status_code ≡ true
    → (r.status_code ≡ some 401) ⊎ (r.status_code ≡ some 403)
unfolding needs_session
session_status r (inl lost) here h = absurd (cc)
session_status r (inr (s, e, few, low)) here h =
    let h' : needs_session (some s) ≡ true = subst (λ o. needs_session o ≡ true) e h in
    let which : (s ≡ 401) ⊎ (s ≡ 403) = ground arith in
    elim which [ inl k ↦ inl (rw (e, k) refl) | inr k ↦ inr (rw (e, k) refl) ]

-- A result of _fetch_static that is no redirect to an error page and whose status makes fetch turn
-- to the browser has status 401 or 403: the 429 in that test is never met, since the loop tries
-- again on it and in the end raises.
pub fallback_status :
    (lib : Libraries) (retry_delay : ℕ) (clock : ℕ → ℕ) (url : Text) (reply : ℕ → Reply)
    (retry_attempts : ℕ) (c : HttpCache) (r : FetchResult)
    → (fetch_static lib retry_delay clock url reply retry_attempts c).outcome ≡ returned r
    → r.is_404_redirect ≡ false
    → needs_session r.status_code ≡ true
    → (r.status_code ≡ some 401) ⊎ (r.status_code ≡ some 403)
fallback_status lib retry_delay clock url reply retry_attempts c r e here h =
    let settled : IsSettled r =
      subst (λ o. OutcomeSettled o) e
        (fetch_static-OutcomeSettled lib retry_delay clock url reply retry_attempts c) in
    session_status r settled here h

module _ (lib : Libraries) (p : Patterns) (settings : Settings) (url : Text) where
  compare_hash_skips :
      (w : World) (r : FetchResult) (f : Fetcher) (e : CacheEntry)
      → (HttpCache.get w.answered (lib.cache_key url) f.cache).0 ≡ some e
      → e.content_hash ≡ lib.content_hash r.html url
      → filled (lib.content_hash r.html url) ≡ true
      → let x = compare_hash lib p settings url w r f in
        (x.0 ≡ returned (unchanged_result (lib.content_hash r.html url) r))
        × (x.1.playwright_fallbacks ≡ f.playwright_fallbacks)
  unfolding compare_hash is_unchanged
  compare_hash_skips w r f e found same full =
      let unchanged : is_unchanged lib p settings url w (lib.content_hash r.html url)
            (HttpCache.get w.answered (lib.cache_key url) f.cache).0
          ≡ true =
        rw found (ground arith) in
      rw (unchanged, compare_hash) (refl, refl)

  after_static_compares :
      (w : World) (headers : Headers) (r : FetchResult) (f : Fetcher)
      → r.is_404_redirect ≡ false
      → r.not_modified ≡ false
      → has_headers headers ≡ true
      → after_static lib p settings url w false headers r f ≡ compare_hash lib p settings url w r f
  unfolding after_static
  after_static_compares w headers r f here new asks = ground arith

  -- A page is stored with the hash of its content, which is not empty. A later visit, within the
  -- time to live, which sends validators, has not expired and gets a page of the same content,
  -- returns that hash with an empty page marked as not modified, and does not start the browser.
  pub revisit_skips :
      (w w' : World) (r r' : FetchResult) (headers : Headers) (f : Fetcher)
      → IsUsable f.cache
      → r.content_hash ≡ lib.content_hash r'.html url
      → filled r.content_hash ≡ true
      → r'.is_404_redirect ≡ false
      → r'.not_modified ≡ false
      → has_headers headers ≡ true
      → w'.answered - w.answered ≤ f.cache.ttl_seconds
      → (e : CacheEntry) × (c : HttpCache) × (HttpCache.store w.answered w.answered_wall
            (lib.cache_key url)
            (validators lib p settings url w r)
            f.cache
          ≡ some (e, c))
        × (let x = after_static lib p settings url w' false headers r' (record f { cache = c }) in
            (x.0 ≡ returned (unchanged_result (lib.content_hash r'.html url) r'))
            × (x.1.playwright_fallbacks ≡ f.playwright_fallbacks))
  revisit_skips w w' r r' headers f (v, pos) same full here new asks young =
      let (e, c, stored, found, h) =
        store_keeps_hash w.answered w.answered_wall w'.answered (lib.cache_key url)
          (validators lib p settings url w r) f.cache pos v full young in
      let (out, count) =
        compare_hash_skips w' r' (record f { cache = c }) e found (h ∙ same)
          (subst (λ s. filled s ≡ true) same full) in
      (
        e,
        c,
        stored,
        rw (after_static_compares w' headers r' (record f { cache = c }) here new asks)
            (out, count),
      )

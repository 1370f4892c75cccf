-- ===== src/Fetcher/Hybrid.antt =====
-- `HybridFetcher.fetch`: a conditional request, and the browser where the page needs one. The
-- clients and the renderer are not modelled: a fetch is given the replies of the server by request
-- headers and attempt, what the browser renders by base URL (`none` where it raises), and the times.
pub mod Rendering
pub mod Skips
use competitor_intelligence.Base.{
  ℕ, ◌+◌, Bool, true, false, not, ◌||◌, ◌&&◌, Option, none, some, String, List, [], ◌∷◌, length,
  ◌==◌, if◌then◌else◌, ite, is_some, string_discrete, Text,
}
use competitor_intelligence.Dict.{Dict, string_key, lookup, insert}
use competitor_intelligence.Fetcher.HttpCache
use competitor_intelligence.Fetcher.HttpCache.{
  HttpCache, CacheEntry, Headers, Validators, filled, no_headers, build_conditional_headers,
  is_cache_expired, evict_expired,
}
use competitor_intelligence.Fetcher.PageAnalyzer.{Patterns, Analysis, analyze}
use competitor_intelligence.Fetcher.RateLimiter
use competitor_intelligence.Fetcher.RateLimiter.{RateLimiter, acquire}
use competitor_intelligence.Fetcher.Result.{
  FetchResult, Label, Reply, Libraries, blank, no_label, playwright, unexpected,
}
use competitor_intelligence.Fetcher.Static.{Fetched, returned, raised, fetch_static}

pub record Settings : Type 0 where
  pub retry_attempts : ℕ
  pub retry_delay : ℕ
  pub rate_capacity : ℕ
  pub rate_interval : ℕ
  pub second : ℕ

-- The state of a `HybridFetcher`, with the counter `playwright_fallback_total`.
pub record Fetcher : Type 0 where
  pub cache : HttpCache
  pub domain_limiters : Dict String RateLimiter
  pub playwright_fallbacks : ℕ

-- What happens around one fetch.
pub record World : Type 0 where
  pub started : ℕ
  pub started_wall : ℕ
  pub reply_at : ℕ → ℕ
  pub reply : Headers → ℕ → Reply
  pub answered : ℕ
  pub answered_wall : ℕ
  pub rendering : ℕ
  pub render : Option Text → Option Text

-- `if conditional_headers`
unfoldable pub has_headers : Headers → Bool
has_headers h = is_some h.if_none_match || is_some h.if_modified_since

unfoldable pub needs_session : Option ℕ → Bool
needs_session none = false
needs_session (some s) = s == 401 || s == 403 || s == 429

-- the result of an unchanged page
abbrev pub unchanged_result : String → FetchResult → FetchResult
unchanged_result new_hash r = record r {
  html = [];
  is_404_redirect = false;
  content_hash = new_hash;
  not_modified = true;
  language = no_label;
  page_type = no_label;
}

-- the language and the page type that were found, or an exception
unfoldable pub with_labels : Option Label → Option Label → FetchResult → Option FetchResult
with_labels none page_type r = none
with_labels (some language) none r = none
with_labels (some language) (some page_type) r =
    some (record r { language = language; page_type = page_type })

abbrev pub outcome_of : Option FetchResult → Fetched
outcome_of none = raised unexpected
outcome_of (some r) = returned r

module _ (lib : Libraries) (p : Patterns) (settings : Settings) (url : Text) where
  -- `_get_domain_limiter(url).acquire()`
  unfoldable pub acquire_domain : ℕ → Fetcher → Fetcher
  acquire_domain now f =
      let domain = lib.netloc url in
      let limiter : RateLimiter = elim (lookup domain f.domain_limiters) [
        | none ↦ RateLimiter.init settings.rate_capacity settings.rate_interval now
        | some l ↦ l
      ] in
      let (time, limiter') = acquire now limiter in
      record f { domain_limiters = insert domain limiter' f.domain_limiters }

  -- the detection of language and page type, which is written three times
  unfoldable pub labelled : FetchResult → Option FetchResult
  unfolding with_labels
  labelled r = elim r.html [
    | [] ↦ some r
    | c ∷ html ↦ with_labels (lib.detect_language r.html) (lib.classify_page r.html url) r
  ]

  unfoldable pub spa_base_url : Analysis → Option Text
  spa_base_url analysis = if analysis.has_indicators then some (lib.origin url) else none

  dynamic_result : Text → FetchResult
  dynamic_result html = record (blank url playwright) {
    html = html;
    status_code = some 200;
    content_length = length html;
    js_rendered = true;
  }

  module _ (w : World) where
    unfoldable pub static_fetch : Headers → Fetcher → Fetched × Fetcher
    unfolding acquire_domain
    static_fetch headers f =
        let f1 = acquire_domain w.started f in
        let run =
          fetch_static lib settings.retry_delay w.reply_at url (w.reply headers)
            settings.retry_attempts f1.cache in
        (run.outcome, record f1 { cache = run.cache })

    unfoldable pub fetch_dynamic : Option Text → Fetcher → Option FetchResult × Fetcher
    unfolding acquire_domain dynamic_result
    fetch_dynamic base f =
        let f1 = acquire_domain w.rendering f in
        elim (w.render base) [ none ↦ (none, f1) | some html ↦ (some (dynamic_result html), f1) ]

    unfoldable pub count_fallback : Fetcher → Fetcher
    count_fallback f = record f { playwright_fallbacks = f.playwright_fallbacks + 1 }

    -- what the `try` at the end of `fetch` returns, with and without a page of the browser
    rendered_or : FetchResult → Option FetchResult → FetchResult
    rendered_or static_result none = static_result
    rendered_or static_result (some dynamic) = elim (labelled dynamic) [
      | none ↦ static_result
      | some page ↦ page
    ]

    render_or : FetchResult → Option Text → Fetcher → Fetched × Fetcher
    unfolding rendered_or count_fallback
    render_or static_result base f =
        let (d, f1) = fetch_dynamic base (count_fallback f) in
        (returned (rendered_or static_result d), f1)

    unfoldable pub after_labels : Option FetchResult → Fetcher → Fetched × Fetcher
    unfolding render_or
    after_labels none f = (raised unexpected, f)
    after_labels (some page) f =
        let analysis = analyze p page.html in
        if not analysis.needs_rendering && not (needs_session page.status_code)
        then (returned page, f)
        else render_or page (spa_base_url analysis) f

    -- what follows the `store`: here an exception of a label is not caught
    unfoldable pub analyze_page : FetchResult → Fetcher → Fetched × Fetcher
    analyze_page r f = after_labels (labelled r) f

    abbrev pub validators : FetchResult → Validators
    validators r = record {
      etag = r.etag;
      last_modified = r.last_modified;
      cache_control = r.cache_control;
      content_hash = r.content_hash;
    }

    -- A failing `store` has found no entry to evict, after it has removed the expired ones.
    unfoldable pub store_page : FetchResult → Fetcher → Fetched × Fetcher
    unfolding analyze_page
    store_page r f =
        elim (HttpCache.store w.answered w.answered_wall (lib.cache_key url) (validators r)
          f.cache) [
            | none ↦ (raised unexpected, record f { cache = evict_expired w.answered f.cache })
            | some (entry, c) ↦ analyze_page r (record f { cache = c })
          ]

    -- `if cached and cached.content_hash == new_hash and new_hash`
    unfoldable pub is_unchanged : String → Option CacheEntry → Bool
    is_unchanged new_hash none = false
    is_unchanged new_hash (some cached) =
        ite (string_discrete cached.content_hash new_hash) true false && filled new_hash

    compare_hash : FetchResult → Fetcher → Fetched × Fetcher
    compare_hash r f =
        let new_hash = lib.content_hash r.html url in
        let (cached, c) = HttpCache.get w.answered (lib.cache_key url) f.cache in
        if is_unchanged new_hash cached
        then (returned (unchanged_result new_hash r), record f { cache = c })
        else store_page r (record f { cache = c })

    -- what follows the request
    unfoldable pub after_static : Bool → Headers → FetchResult → Fetcher → Fetched × Fetcher
    unfolding compare_hash
    after_static cache_expired headers r f =
        if r.is_404_redirect
        then (returned r, f)
        else if r.not_modified
        then (returned r, f)
        else if has_headers headers && not cache_expired
        then compare_hash r f
        else store_page r f

    unfoldable pub plain_fetch : Fetcher → Fetched × Fetcher
    plain_fetch f =
        let key = lib.cache_key url in
        let cache_expired = is_cache_expired settings.second w.started_wall key f.cache in
        let headers = build_conditional_headers key f.cache in
        let (o, f1) = static_fetch headers f in
        elim o [ raised e ↦ (raised e, f1) | returned r ↦ after_static cache_expired headers r f1 ]

    forced_base : FetchResult → Option Text
    forced_base r = elim r.html [ [] ↦ none | c ∷ html ↦ spa_base_url (analyze p r.html) ]

    -- `force_render`, where a failure of the browser is raised
    unfoldable pub forced_fetch : Fetcher → Fetched × Fetcher
    unfolding forced_base
    forced_fetch f =
        let (o, f1) = static_fetch no_headers (count_fallback f) in
        elim o [
          | raised e ↦ (raised e, f1)
          | returned r ↦
              let (d, f2) = fetch_dynamic (forced_base r) f1 in
              elim d [
                | none ↦ (raised unexpected, f2)
                | some dynamic ↦ (outcome_of (labelled dynamic), f2)
              ]
        ]

    unfoldable pub fetch : Bool → Fetcher → Fetched × Fetcher
    fetch force_render f = if force_render then forced_fetch f else plain_fetch f

-- ===== src/Tests/Fetching.antt =====
-- The fetcher at concrete pages and replies.
use competitor_intelligence.Base.{
  ℕ, zero, suc, ◌+◌, ◌*◌, ◌-◌, ◌^◌, ◌≤◌, ◌≡◌, refl, arith, true, false, none, some, List, [], ◌∷◌,
  length, ltb, leb, if◌then◌else◌, rstrip, lower, string_discrete,
}
use competitor_intelligence.Dict.{string_key, lookup}
use competitor_intelligence.Fetcher.PageAnalyzer.{Patterns}
use competitor_intelligence.Fetcher.RateLimiter
use competitor_intelligence.Fetcher.RateLimiter.{RateLimiter, acquire_all}
use competitor_intelligence.Fetcher.RateLimiter.Bounds.{acquire_all_at_most_double}
use competitor_intelligence.Fetcher.HttpCache
use competitor_intelligence.Fetcher.HttpCache.{
  HttpCache, CacheEntry, Validators, Headers, store, evict_expired, expired_urls, fresh_entry,
  filled, is_old,
}
use competitor_intelligence.Fetcher.HttpCache.Bounds
use competitor_intelligence.Fetcher.HttpCache.Bounds.{store-IsValid}
use competitor_intelligence.Fetcher.HttpCache.Reads.{store-get}
use competitor_intelligence.Fetcher.Result.{
  FetchResult, Response, Reply, Libraries, responded, transport, timeout, blank, httpx, no_label,
}
use competitor_intelligence.Fetcher.Static.{
  finish, again, returned, handle_reply, handle_response, fetch_static, redirect_result,
  error_result, detect_404_redirect, is_404_path, is_retryable, is_network_error, attempts_from,
}
use competitor_intelligence.Fetcher.Static.Retries.{Retried, fetch_static_settles}
use competitor_intelligence.Fetcher.Static.Caches.{IsUsable}
use competitor_intelligence.Fetcher.Hybrid.{
  Settings, Fetcher, World, after_static, validators, unchanged_result, needs_session, has_headers,
}
use competitor_intelligence.Fetcher.Hybrid.Skips.{revisit_skips}

abbrev patterns : Patterns
patterns = record {
  frameworks = (λ html. true) ∷ [];
  indicators = [];
  quality = [];
  min_content_length = 10;
  strip_tags = λ html. html;
  strip_spaces = λ html. html;
}

abbrev gaps : List ℕ
gaps = 0 ∷ 3 ∷ []

acquire_all_at_most_double_example :
    length gaps * 5 + 2 * 7 ≤ 10 + 2 * (acquire_all gaps 7 (RateLimiter.init 10 5 7)).0
acquire_all_at_most_double_example = acquire_all_at_most_double gaps 10 5 7

abbrev empty_bucket : RateLimiter
empty_bucket = record { capacity = 10; interval = 5; tokens = 0; last_refill = 7 }

abbrev entry : CacheEntry
entry = record {
  url = "a";
  etag = some "v1";
  last_modified = none;
  cache_control = none;
  content_hash = "h1";
  last_checked = 0;
}

abbrev http_cache : ℕ → HttpCache
http_cache max_size = record {
  max_size = max_size;
  ttl_seconds = 60;
  cache = ("a", entry) ∷ [];
  timestamps = ("a", 5) ∷ [];
}

http_cache-IsValid : (n : ℕ) → 1 ≤ n → Bounds.IsValid (http_cache n)
unfolding lookup
http_cache-IsValid n h = record {
  bounded = omega arith;
  distinct = (refl, tt);
  stamped = λ url e. ground arith;
}

http_cache-IsUsable : IsUsable (http_cache 3)
http_cache-IsUsable = (http_cache-IsValid 3 (omega arith), omega arith)

abbrev validators_b : Validators
validators_b = record {
  etag = none;
  last_modified = none;
  cache_control = none;
  content_hash = "h2";
}

store-IsValid_example :
    (e : CacheEntry) × (c' : HttpCache) × (store 7 0 "b" validators_b (http_cache 3) ≡ some (e, c'))
    × Bounds.IsValid c'
    × (lookup "b" c'.cache ≡ some e)
    × (lookup "b" c'.timestamps ≡ some 7)
    × (c'.max_size ≡ 3)
store-IsValid_example =
    store-IsValid 7 0 "b" validators_b (http_cache 3) (omega arith)
      (http_cache-IsValid 3 (omega arith))

store-get_example :
    (e : CacheEntry) × (c' : HttpCache) × (store 7 0 "b" validators_b (http_cache 3) ≡ some (e, c'))
    × ((HttpCache.get 9 "b" c').0 ≡ (if ltb c'.ttl_seconds (9 - 7) then none else some e))
store-get_example =
    store-get 7 0 9 "b" validators_b (http_cache 3) (omega arith)
      (http_cache-IsValid 3 (omega arith))

none_expired : expired_urls 7 (http_cache 1) (http_cache 1).timestamps ≡ []
unfolding expired_urls is_old
none_expired = refl

-- Libraries under which only errors raise, and every page has one hash.
abbrev libraries : Libraries
libraries = record {
  raises_for_status = λ s. leb 400 s;
  raises_for_errors = λ s h. ground arith;
  raises_not_for_success = λ s low high. ground arith;
  url_path = λ url. [];
  netloc = λ url. "example.com";
  origin = λ url. url;
  cache_key = λ url. "b";
  content_hash = λ html url. "h2";
  detect_language = λ html. some no_label;
  classify_page = λ html url. some no_label;
}

abbrev response : ℕ → Response
response status = record {
  status_code = status;
  url = [];
  history = [];
  etag = some "v2";
  last_modified = none;
  cache_control = none;
  text = 60 ∷ [];
}

-- First a time-out, then a missing page.
abbrev replies : ℕ → Reply
replies zero = transport timeout
replies (suc n) = responded (response 404)

abbrev times : ℕ → ℕ
times n = 10 + n

timed_out : Retried libraries 2 times [] replies (http_cache 3) 0 1
unfolding handle_reply
timed_out = ((timeout, refl), tt)

lost : detect_404_redirect libraries (response 404) [] ≡ true
unfolding detect_404_redirect
lost = ground arith

missing_page :
    (now : ℕ)
    → handle_reply libraries now [] (http_cache 3) (responded (response 404))
      ≡ finish (redirect_result libraries [] (response 404)) (http_cache 3)
unfolding handle_reply handle_response
missing_page now = rw (lost, handle_response) refl

fetch_static_settles_example :
    let run = fetch_static libraries 2 times [] replies 3 (http_cache 3) in
    (run.outcome ≡ returned (redirect_result libraries [] (response 404)))
    × (run.cache ≡ http_cache 3)
    × (run.requests ≡ 1 + 1)
    × (run.slept + 2 ≡ 2 * 2 ^ 1)
    × (run.requests ≤ 3)
fetch_static_settles_example =
    fetch_static_settles libraries 2 times [] replies 1 3 (http_cache 3) (http_cache 3)
      (redirect_result libraries [] (response 404)) timed_out (missing_page (times 1)) (omega arith)

abbrev silence : ℕ → Reply
silence n = transport timeout

always_timed_out : Retried libraries 2 times [] silence (http_cache 3) 0 1
unfolding handle_reply
always_timed_out = ((timeout, refl), tt)

time_out : handle_reply libraries (times 1) [] (http_cache 3) (silence 1) ≡ again timeout
unfolding handle_reply
time_out = refl

abbrev settings : Settings
settings = record {
  retry_attempts = 3;
  retry_delay = 2;
  rate_capacity = 10;
  rate_interval = 5;
  second = 1;
}

-- A browser that always fails.
abbrev world : World
world = record {
  started = 10;
  started_wall = 0;
  reply_at = times;
  reply = λ headers n. responded (response 403);
  answered = 12;
  answered_wall = 0;
  rendering = 13;
  render = λ base. none;
}

abbrev fetcher : Fetcher
fetcher = record { cache = http_cache 3; domain_limiters = []; playwright_fallbacks = 0 }

not_lost : detect_404_redirect libraries (response 403) [] ≡ false
unfolding detect_404_redirect is_404_path lower rstrip
not_lost = ground arith

forbidden_reply :
    handle_reply libraries (times 0) [] (http_cache 3) (responded (response 403))
    ≡ finish (error_result libraries [] (response 403)) (http_cache 3)
unfolding handle_reply handle_response is_retryable is_network_error
forbidden_reply = rw (not_lost, handle_response) refl

forbidden :
    (fetch_static libraries 2 times [] (λ n. responded (response 403)) 3 (http_cache 3)).outcome
    ≡ returned (error_result libraries [] (response 403))
unfolding fetch_static attempts_from
forbidden = rw (forbidden_reply, attempts_from) refl

asks : needs_session (some 403) ≡ true
unfolding needs_session
asks = refl

abbrev stored_page : FetchResult
stored_page = record (blank [] httpx) {
  html = 60 ∷ [];
  status_code = some 200;
  content_hash = "h2";
}

abbrev asked : Headers
asked = record { if_none_match = some "v2"; if_modified_since = none }

not_empty : filled "h2" ≡ true
unfolding filled string_discrete
not_empty = refl

has_asked : has_headers asked ≡ true
unfolding has_headers
has_asked = refl

revisit_skips_example :
    (e : CacheEntry) × (c : HttpCache) × (store 12 0 "b"
        (validators libraries patterns settings [] world stored_page)
        (http_cache 3)
      ≡ some (e, c))
    × (let x =
          after_static libraries patterns settings [] world false asked stored_page
            (record fetcher { cache = c }) in
        (x.0 ≡ returned (unchanged_result "h2" stored_page)) × (x.1.playwright_fallbacks ≡ 0))
revisit_skips_example =
    revisit_skips libraries patterns settings [] world world stored_page stored_page asked fetcher
      http_cache-IsUsable refl not_empty refl refl has_asked (omega arith)

-- ===== src/Fetcher/Static.antt =====
-- `_is_retryable`, `_detect_404_redirect` and `_fetch_static`: requests with retries. The replies of
-- the server are given by the number of the attempt, the `ChaosMonkey` failures among them.
pub mod Retries
pub mod Answers
pub mod Caches
use competitor_intelligence.Base.{
  ℕ, zero, suc, ◌+◌, ◌*◌, ◌^◌, Bool, true, false, not, ◌||◌, Option, none, some, String, List, [],
  ◌∷◌, length, ltb, leb, ◌==◌, if◌then◌else◌, ite, Text, codes, lower, rstrip, slash, is_infix, ◌≡◌,
  refl, ◌⊎◌, inl, inr,
}
use competitor_intelligence.Utilities.UrlDedup.{Text-discrete}
use competitor_intelligence.Fetcher.HttpCache
use competitor_intelligence.Fetcher.HttpCache.{HttpCache, CacheEntry, truthy}
use competitor_intelligence.Fetcher.Result.{
  FetchResult, Response, FetchError, Reply, Libraries, Method, httpx, blank, timeout, connect,
  remote_protocol, other_transport, unexpected, runtime_error, http_status, responded, transport,
  broken,
}

unfoldable pub is_network_error : Option FetchError → Bool
is_network_error (some timeout) = true
is_network_error (some connect) = true
is_network_error (some remote_protocol) = true
is_network_error (some other_transport) = false
is_network_error (some unexpected) = false
is_network_error (some runtime_error) = false
is_network_error (some (http_status s)) = false
is_network_error none = false

retryable_status : Option ℕ → Bool
retryable_status none = true
retryable_status (some s) = if s == 429 then true else leb 500 s

unfoldable pub is_retryable : Option ℕ → Option FetchError → Bool
unfolding is_network_error retryable_status
is_retryable status error = if is_network_error error then true else retryable_status status

-- What the loop does with a reply: it returns, it raises, or it tries again.
pub data Settled : Type 0 where
  finish : FetchResult → HttpCache → Settled
  again : FetchError → Settled
  abort : Settled

pub Settled-cases :
    (s : Settled)
    → ((r : FetchResult) × (c : HttpCache) × (s ≡ finish r c))
      ⊎ ((e : FetchError) × (s ≡ again e))
      ⊎ (s ≡ abort)
Settled-cases (finish r c) = inl (r, c, refl)
Settled-cases (again e) = inr (inl (e, refl))
Settled-cases abort = inr (inr refl)

pub data Fetched : Type 0 where
  returned : FetchResult → Fetched
  raised : FetchError → Fetched

-- A run of the loop: how it ends, the cache, the requests made, and the time slept between them.
pub record Run : Type 0 where
  pub outcome : Fetched
  pub cache : HttpCache
  pub requests : ℕ
  pub slept : ℕ

unfoldable pub or_else : Option String → Option String → Option String
or_else a b = if truthy a then a else b

module _ (lib : Libraries) where
  unfoldable pub is_404_path : Text → Bool
  is_404_path final_url =
      let path = lower (lib.url_path final_url) in
      is_infix (codes "/404") path
      || is_infix (codes "/error") path
      || is_infix (codes "/not-found") path
      || is_infix (codes "/page-not-found") path

  -- `_detect_404_redirect`; its second result is the final URL
  unfoldable pub detect_404_redirect : Response → Text → Bool
  unfolding is_404_path
  detect_404_redirect response url =
      let redirected =
        ite (Text-discrete (rstrip slash response.url) (rstrip slash url)) false true in
      if redirected
      then (if is_404_path response.url then true else response.status_code == 404)
      else response.status_code == 404

  not_modified_result : Text → Response → Option CacheEntry → FetchResult
  not_modified_result url r none = record (blank url httpx) {
    status_code = some 304;
    redirect_chain = r.history;
    final_url = r.url;
    etag = or_else r.etag none;
    last_modified = or_else r.last_modified none;
    cache_control = r.cache_control;
    not_modified = true;
  }
  not_modified_result url r (some cached) = record (blank url httpx) {
    html = codes cached.content_hash;
    status_code = some 304;
    redirect_chain = r.history;
    final_url = r.url;
    etag = or_else r.etag cached.etag;
    last_modified = or_else r.last_modified cached.last_modified;
    cache_control = r.cache_control;
    content_hash = cached.content_hash;
    not_modified = true;
  }

  abbrev pub redirect_result : Text → Response → FetchResult
  redirect_result url r = record (blank url httpx) {
    status_code = some r.status_code;
    redirect_chain = r.history;
    final_url = r.url;
    is_404_redirect = true;
  }

  abbrev pub error_result : Text → Response → FetchResult
  error_result url r = record (blank url httpx) {
    status_code = some r.status_code;
    redirect_chain = r.history;
  }

  abbrev pub page_result : Text → Response → FetchResult
  page_result url r = record (blank url httpx) {
    html = r.text;
    status_code = some r.status_code;
    content_length = length r.text;
    redirect_chain = r.history;
    final_url = r.url;
    etag = r.etag;
    last_modified = r.last_modified;
    cache_control = r.cache_control;
    content_hash = lib.content_hash r.text url;
  }

  -- the body of `try`, and the two `except` clauses
  unfoldable pub handle_response : ℕ → Text → HttpCache → Response → Settled
  unfolding not_modified_result
  handle_response now url c r =
      if r.status_code == 304
      then (let (cached, c') = HttpCache.get now (lib.cache_key url) c in
          finish (not_modified_result url r cached) c')
      else if detect_404_redirect r url
      then finish (redirect_result url r) c
      else if lib.raises_for_status r.status_code
      then (if is_retryable (some r.status_code) (some (http_status r.status_code))
          then again (http_status r.status_code)
          else finish (error_result url r) c)
      else finish (page_result url r) c

  unfoldable pub handle_reply : ℕ → Text → HttpCache → Reply → Settled
  handle_reply now url c (responded r) = handle_response now url c r
  handle_reply now url c (transport e) = again e
  handle_reply now url c broken = abort

  -- `raise last_error or RuntimeError(…)`
  abbrev last_raised : Option FetchError → FetchError
  last_raised none = runtime_error
  last_raised (some e) = e

  -- `clock` tells when the reply to an attempt arrives.
  module _ (retry_delay : ℕ) (clock : ℕ → ℕ) (url : Text) (reply : ℕ → Reply) where
    -- The loop from attempt `attempt`, with so many attempts left.
    unfoldable pub attempts_from : ℕ → ℕ → Option FetchError → HttpCache → Run
    attempts_from attempt zero last c = record {
      outcome = raised (last_raised last);
      cache = c;
      requests = 0;
      slept = 0;
    }
    attempts_from attempt (suc left) last c =
        elim (handle_reply (clock attempt) url c (reply attempt)) [
          | finish result c' ↦ record {
            outcome = returned result;
            cache = c';
            requests = 1;
            slept = 0;
          }
          | abort ↦ record { outcome = raised unexpected; cache = c; requests = 1; slept = 0 }
          | again e ↦
              let rest = attempts_from (attempt + 1) left (some e) c in
              record rest {
                requests = rest.requests + 1;
                slept = (if ltb 0 left then retry_delay * 2 ^ attempt else 0) + rest.slept;
              }
        ]

    unfoldable pub fetch_static : ℕ → HttpCache → Run
    fetch_static retry_attempts c = attempts_from 0 retry_attempts none c

-- ===== src/Fetcher/Static/Answers.antt =====
-- Which results `_fetch_static` can return.
use competitor_intelligence.Base.{
  ℕ, zero, suc, ◌+◌, ◌<◌, ◌≡◌, ◌≢◌, ◌⊎◌, refl, arith, true, false, Option, none, some, Text, inl,
  inr, Bool-cases, ◌==◌, subst,
}
use competitor_intelligence.Fetcher.HttpCache.{HttpCache, CacheEntry}
use competitor_intelligence.Fetcher.Result.{
  FetchResult, FetchError, Response, Reply, Libraries, responded, transport, broken, http_status,
}
use competitor_intelligence.Fetcher.Static.{
  Settled, Settled-cases, Fetched, finish, again, abort, returned, raised, is_retryable,
  not_modified_result, handle_response, handle_reply, attempts_from, fetch_static,
  detect_404_redirect,
}

-- A result that the loop returns without another try: a redirect to an error page, or an answer
-- that is neither "too many requests" nor a server error.
abbrev pub IsSettled : FetchResult → Type 0
IsSettled r =
    (r.is_404_redirect ≡ true) ⊎ ((s : ℕ) × (r.status_code ≡ some s) × (s ≢ 429) × (s < 500))

abbrev AllSettled : Settled → Type 0
AllSettled (finish r c) = IsSettled r
AllSettled (again e) = Unit
AllSettled abort = Unit

abbrev pub OutcomeSettled : Fetched → Type 0
OutcomeSettled (returned r) = IsSettled r
OutcomeSettled (raised e) = Unit

not_modified-IsSettled :
    (lib : Libraries) (url : Text) (r : Response) (o : Option CacheEntry)
    → IsSettled (not_modified_result lib url r o)
unfolding not_modified_result
not_modified-IsSettled lib url r none = inr (304, refl, omega arith, omega arith)
not_modified-IsSettled lib url r (some e) = inr (304, refl, omega arith, omega arith)

module _ (lib : Libraries) where
  error_status :
      (s : ℕ) → is_retryable (some s) (some (http_status s)) ≡ false → (s ≢ 429) × (s < 500)
  unfolding is_retryable
  error_status s h = ground arith

  page_status : (s : ℕ) → lib.raises_for_status s ≡ false → (s ≢ 429) × (s < 500)
  page_status s h = ground (arith, lib.raises_for_errors s)

  handle_response-AllSettled :
      (now : ℕ) (url : Text) (c : HttpCache) (q : Response)
      → AllSettled (handle_response lib now url c q)
  unfolding handle_response
  handle_response-AllSettled now url c q = elim (Bool-cases (q.status_code == 304)) [
    | inl unchanged ↦ rw (unchanged, handle_response) (not_modified-IsSettled lib url q _)
    | inr changed ↦ elim (Bool-cases (detect_404_redirect lib q url)) [
      | inl lost ↦ rw (changed, lost, handle_response) (inl refl)
      | inr here ↦ elim (Bool-cases (lib.raises_for_status q.status_code)) [
        | inl bad ↦
            elim (Bool-cases
              (is_retryable (some q.status_code) (some (http_status q.status_code)))) [
                | inl more ↦ rw (changed, here, bad, more, handle_response) tt
                | inr last ↦
                    let (few, low) = error_status q.status_code last in
                    rw (changed, here, bad, last, handle_response)
                      (inr (q.status_code, refl, few, low))
              ]
        | inr good ↦
            let (few, low) = page_status q.status_code good in
            rw (changed, here, good, handle_response) (inr (q.status_code, refl, few, low))
      ]
    ]
  ]

  handle_reply-AllSettled :
      (now : ℕ) (url : Text) (c : HttpCache) (q : Reply) → AllSettled (handle_reply lib now url c q)
  unfolding handle_reply
  handle_reply-AllSettled now url c (responded q) = handle_response-AllSettled now url c q
  handle_reply-AllSettled now url c (transport e) = tt
  handle_reply-AllSettled now url c broken = tt

  module _ (retry_delay : ℕ) (clock : ℕ → ℕ) (url : Text) (reply : ℕ → Reply) where
    attempts_from-AllSettled :
        (left attempt : ℕ) (last : Option FetchError) (c : HttpCache)
        → OutcomeSettled (attempts_from lib retry_delay clock url reply attempt left last c).outcome
    unfolding attempts_from
    attempts_from-AllSettled zero attempt last c = tt
    attempts_from-AllSettled (suc left) attempt last c =
        elim (Settled-cases (handle_reply lib (clock attempt) url c (reply attempt))) [
          | inl (r, c', done) ↦
              let good : AllSettled (finish r c') =
                subst (λ s. AllSettled s) done
                  (handle_reply-AllSettled (clock attempt) url c (reply attempt)) in
              rw (done, attempts_from) good
          | inr (inl (e, more)) ↦
              rw (more, attempts_from) (attempts_from-AllSettled left (attempt + 1) (some e) c)
          | inr (inr gone) ↦ rw (gone, attempts_from) tt
        ]

    -- Whatever the server answers, `_fetch_static` either raises or returns a result that is a
    -- redirect to an error page or has a status other than 429 and below 500.
    pub fetch_static-OutcomeSettled :
        (retry_attempts : ℕ) (c : HttpCache)
        → OutcomeSettled (fetch_static lib retry_delay clock url reply retry_attempts c).outcome
    unfolding fetch_static
    fetch_static-OutcomeSettled retry_attempts c = attempts_from-AllSettled retry_attempts 0 none c

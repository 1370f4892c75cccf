-- ===== src/Tests/Collecting.antt =====
-- Collections at concrete services, collectors and pages.
use competitor_intelligence.Dict.{lookup, insert}
use competitor_intelligence.Collection.Modules.{
  collect_modules, module_step, has_collector, collect_module, collect_each, records_of,
}
use competitor_intelligence.Base.{
  ℕ, zero, suc, arith, ◌≡◌, refl, true, false, some, String, List, [], ◌∷◌, Text, codes, is_infix,
  lower, rstrip, starts_with, string_discrete, text_discrete, to_lower, ℕ_discrete,
}
use competitor_intelligence.Scheduler.{
  CollectionLog, should_collect, get_latest_by_competitor, has_elapsed, daily,
}
use competitor_intelligence.Collection.{
  Service, begin_crawl, Config, loaded, Phases, success, collect_competitor, collect_begun,
  run_crawl, with_discovered, collect_urls, after_log,
}
use competitor_intelligence.Collection.Retry.{
  Attempt, returned, raised, failed_result, collect_with_retry, contains_any, is_retryable,
  retry_from, settle,
}
use competitor_intelligence.Collection.Retry.Bounds.{KeepsBounds, collect_with_retry-KeepsBounds}
use competitor_intelligence.Collection.Urls.{
  select_urls_for_module, pricing, classify_url, is_listed, matched_or_base, matched_urls,
  patterns_of, wants_base, with_base,
}
use competitor_intelligence.Collection.Logs.{
  LogsOf, is_logged_begun, collect_competitor-LogsOf, success_waits,
}

-- every page of every module times out
abbrev unreachable : String → Text → ℕ → Attempt
unreachable m url attempt = raised (codes "Read timed out")

-- the second attempt succeeds
abbrev flaky : ℕ → Attempt
flaky zero = raised (codes "502 Bad Gateway")
flaky (suc n) = returned (record { succeeded = true; found = 3 })

flaky_twice :
    collect_with_retry 1 flaky 3
    ≡ record { result = record { succeeded = true; found = 3 }; calls = 2; waited = 1 }
unfolding collect_with_retry retry_from settle is_retryable contains_any is_infix lower starts_with
    to_lower
flaky_twice = refl

unreachable_four :
    collect_with_retry 1 (unreachable "pricing" []) 3
    ≡ record { result = failed_result; calls = 4; waited = 7 }
unfolding collect_with_retry retry_from settle is_retryable contains_any is_infix lower starts_with
    to_lower
unreachable_four = refl

collect_with_retry-KeepsBounds_example : KeepsBounds 1 3 0 (collect_with_retry 1 flaky 3)
collect_with_retry-KeepsBounds_example = collect_with_retry-KeepsBounds 1 flaky 3

abbrev pages : List Text
pages = codes "https://a.com/Pricing" ∷ codes "https://a.com/team" ∷ []

pricing_urls :
    select_urls_for_module "pricing" pages (codes "https://a.com/")
    ≡ codes "https://a.com" ∷ codes "https://a.com/Pricing" ∷ []
unfolding select_urls_for_module matched_or_base patterns_of string_discrete with_base wants_base
    is_listed matched_urls contains_any is_infix lower starts_with to_lower text_discrete rstrip
    ℕ_discrete
pricing_urls = refl

unknown_urls :
    select_urls_for_module "technographic" pages (codes "https://a.com/")
    ≡ codes "https://a.com" ∷ []
unfolding select_urls_for_module matched_or_base patterns_of string_discrete rstrip
unknown_urls = refl

classified : classify_url (codes "https://a.com/Pricing") ≡ pricing
unfolding classify_url contains_any is_infix lower starts_with to_lower
classified = refl

abbrev nobody : Service
nobody = record { active_crawls = [] }

abbrev one : Service
one = record { active_crawls = (4, 90) ∷ [] }

abbrev two : Service
two = record { active_crawls = (4, 90) ∷ (5, 91) ∷ [] }

abbrev well : Phases
well = record {
  discovered = some pages;
  urls_saved = true;
  log_saved = true;
  saved_at = 200;
  changes_detected = true;
}

abbrev shop : Config
shop = loaded ("pricing" ∷ []) (codes "https://a.com/")

abbrev old_logs : List CollectionLog
old_logs =
    record { competitor_id = 4; created_at = 100; start_time = some 90; success = some false } ∷ []

collect_competitor-LogsOf_example :
    let run = collect_competitor unreachable 4 150 well shop old_logs nobody in
    LogsOf (is_logged_begun well shop (begin_crawl 4 150 nobody)) 4 150 200 old_logs (run.0, run.1)
collect_competitor-LogsOf_example =
    collect_competitor-LogsOf unreachable 4 150 well shop old_logs nobody

-- both pages fail, and the call ends in success
fails_well :
    (collect_competitor unreachable 4 150 well shop old_logs nobody).0
    ≡ success (("pricing", failed_result ∷ failed_result ∷ []) ∷ [])
unfolding collect_competitor collect_begun begin_crawl lookup run_crawl with_discovered collect_urls
    after_log collect_modules module_step has_collector collect_module insert string_discrete
    ℕ_discrete collect_each select_urls_for_module matched_or_base patterns_of is_infix lower rstrip
    starts_with text_discrete to_lower records_of collect_with_retry contains_any is_retryable
    retry_from settle is_listed matched_urls wants_base with_base
fails_well = refl

success_waits_example :
    should_collect
      (get_latest_by_competitor 4
        (collect_competitor unreachable 4 150 well shop old_logs nobody).1)
      daily
      300
    ≡ has_elapsed 300 150 daily
unfolding get_latest_by_competitor
success_waits_example =
    success_waits unreachable 4 150 well shop old_logs nobody
      (("pricing", failed_result ∷ failed_result ∷ []) ∷ []) daily 300 fails_well (omega arith)

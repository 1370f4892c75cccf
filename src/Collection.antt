-- ===== src/Collection.antt =====
-- `CollectionService` (app/services/collection_service.py). What the collectors, the discovery and the
-- database do is given by outcomes; a call is split where it takes and where it leaves its place among
-- the active crawls.
pub mod Urls
pub mod Retry
pub mod Modules
pub mod Crawls
pub mod Logs
use competitor_intelligence.Base.{
  ℕ, Bool, true, false, ◌||◌, Option, none, some, String, List, [], ◌∷◌, ◌++◌, length, ◌==◌,
  if◌then◌else◌, ite, is_some, string_discrete, Text, codes, lower,
}
use competitor_intelligence.Dict.{Dict, nat_key, string_key, lookup, contains, insert, erase}
use competitor_intelligence.Scheduler.{CollectionLog}
use competitor_intelligence.Collection.Retry.{
  CollectorResult, Attempt, collect_with_retry, RetryRun,
}
use competitor_intelligence.Collection.Modules.{Progress, collect_modules, no_progress}

-- `_active_crawls`
pub record Service : Type 0 where
  pub active_crawls : Dict ℕ ℕ

-- the first locked section: `none` is a crawl that is running already
unfoldable pub begin_crawl : ℕ → ℕ → Service → Option Service
begin_crawl id now s =
    if contains id s.active_crawls
    then none
    else some (record { active_crawls = insert id now s.active_crawls })

-- the locked section of `finally`
unfoldable pub end_crawl : ℕ → Service → Service
end_crawl id s = record { active_crawls = erase id s.active_crawls }

-- What `_load_competitor` returns.
pub data Config : Type 0 where
  not_found disabled no_modules : Config
  loaded : (modules : List String) (base_url : Text) → Config

-- How the other phases end: the URLs found, `none` where the discovery raises, and whether saving the
-- URLs, saving the log, with its time and with the report before it, and detecting the changes, with
-- the notice after it, succeed.
pub record Phases : Type 0 where
  pub discovered : Option (List Text)
  pub urls_saved : Bool
  pub log_saved : Bool
  pub saved_at : ℕ
  pub changes_detected : Bool

pub data Outcome : Type 0 where
  success : (results : Dict String (List CollectorResult)) → Outcome
  failed skipped : Outcome

-- `_save_collection_log`, with the errors that were noted
unfoldable pub log_entry : ℕ → ℕ → ℕ → List Text → CollectionLog
log_entry id start saved errors = record {
  competitor_id = id;
  created_at = saved;
  start_time = some start;
  success = some (length errors == 0);
}

module _ (collect : String → Text → ℕ → Attempt) (id start : ℕ) where
  unfoldable pub after_log : Phases → Progress → List CollectionLog → Outcome × List CollectionLog
  after_log ph p logs = (
    (if ph.changes_detected then success p.results else failed),
    log_entry id start ph.saved_at p.errors ∷ logs,
  )

  unfoldable pub collect_urls :
      Phases → List String → Text → List Text → List CollectionLog → Outcome × List CollectionLog
  collect_urls ph modules base_url urls logs =
      if ph.urls_saved
      then (if ph.log_saved
          then after_log ph (collect_modules collect base_url urls modules no_progress) logs
          else (failed, logs))
      else (failed, logs)

  unfoldable pub with_discovered :
      Phases
      → List String
      → Text
      → Option (List Text)
      → List CollectionLog
      → Outcome × List CollectionLog
  with_discovered ph modules base_url none logs = (failed, logs)
  with_discovered ph modules base_url (some urls) logs = collect_urls ph modules base_url urls logs

  -- the `try` of `collect_competitor`, with the table of logs, the newest first
  unfoldable pub run_crawl : Phases → Config → List CollectionLog → Outcome × List CollectionLog
  run_crawl ph not_found logs = (failed, logs)
  run_crawl ph disabled logs = (skipped, logs)
  run_crawl ph no_modules logs = (skipped, logs)
  run_crawl ph (loaded modules base_url) logs =
      with_discovered ph modules base_url ph.discovered logs

  abbrev pub finished_crawl :
      Outcome × List CollectionLog → Service → Outcome × List CollectionLog × Service
  finished_crawl (o, logs) s = (o, logs, end_crawl id s)

  unfoldable pub collect_begun :
      Phases
      → Config
      → Option Service
      → List CollectionLog
      → Service
      → Outcome × List CollectionLog × Service
  collect_begun ph config none logs s = (failed, logs, s)
  collect_begun ph config (some begun) logs s = finished_crawl (run_crawl ph config logs) begun

  unfoldable pub collect_competitor :
      Phases → Config → List CollectionLog → Service → Outcome × List CollectionLog × Service
  collect_competitor ph config logs s = collect_begun ph config (begin_crawl id start s) logs s

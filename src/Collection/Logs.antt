-- ===== src/Collection/Logs.antt =====
-- What `collect_competitor` writes to the table of logs, and what the scheduler reads from it.
use competitor_intelligence.Base.{
  ◌&&◌, is_some, ℕ, ◌≤◌, Bool, true, false, Option, none, some, String, List, [], ◌∷◌, Text,
  if◌then◌else◌, ◌≡◌, refl, ap, ◌∙◌, subst, arith, le→leb,
}
use competitor_intelligence.Dict.{Dict}
use competitor_intelligence.Scheduler.{
  CollectionLog, newer, get_latest_by_competitor, should_collect, started_due, has_failed,
  has_elapsed, Frequency,
}
use competitor_intelligence.Collection.{
  Service, Config, not_found, disabled, no_modules, loaded, Phases, Outcome, success, failed,
  skipped, log_entry, after_log, collect_urls, with_discovered, run_crawl, begin_crawl,
  collect_begun, collect_competitor,
}
use competitor_intelligence.Collection.Retry.{CollectorResult, Attempt}
use competitor_intelligence.Collection.Modules.{
  Progress, no_progress, collect_module, module_step, collect_modules,
}

module _ (collect : String → Text → ℕ → Attempt) where
  errors-module_step :
      (base_url : Text) (urls : List Text) (m : String) (p : Progress)
      → (module_step collect base_url urls m p).errors ≡ p.errors
  unfolding module_step collect_module
  errors-module_step base_url urls m p = ground arith

  -- no module notes an error, whatever its collector does
  errors-collect_modules :
      (base_url : Text) (urls : List Text) (ms : List String) (p : Progress)
      → (collect_modules collect base_url urls ms p).errors ≡ p.errors
  unfolding collect_modules
  errors-collect_modules base_url urls [] p = refl
  errors-collect_modules base_url urls (m ∷ ms) p =
      errors-collect_modules base_url urls ms (module_step collect base_url urls m p)
      ∙ errors-module_step base_url urls m p

-- the log of a crawl that noted no error
abbrev pub clean_log : ℕ → ℕ → ℕ → CollectionLog
clean_log id start saved = record {
  competitor_id = id;
  created_at = saved;
  start_time = some start;
  success = some true;
}

-- Whether a crawl saves its log: its configuration is loaded, the discovery returns, and saving the
-- URLs and the log succeeds.
abbrev pub is_logged : Phases → Config → Bool
is_logged ph not_found = false
is_logged ph disabled = false
is_logged ph no_modules = false
is_logged ph (loaded modules base_url) = is_some ph.discovered && (ph.urls_saved && ph.log_saved)

-- a call that finds its competitor being crawled saves nothing
abbrev pub is_logged_begun : Phases → Config → Option Service → Bool
is_logged_begun ph config none = false
is_logged_begun ph config (some begun) = is_logged ph config

-- What an outcome tells of the log.
abbrev pub Tells : Bool → Outcome → Type 0
Tells logged (success results) = logged ≡ true
Tells logged failed = Unit
Tells logged skipped = logged ≡ false

-- The clean log is added if a log is saved, and nothing else is changed; a success has saved one, and a
-- crawl that is skipped has not.
abbrev pub LogsOf : Bool → ℕ → ℕ → ℕ → List CollectionLog → Outcome × List CollectionLog → Type 0
LogsOf logged id start saved logs (o, after) =
    (after ≡ (if logged then clean_log id start saved ∷ logs else logs)) × Tells logged o

and_true : (b : Bool) → (b && true) ≡ b
and_true true = refl
and_true false = refl

clean :
    (id start saved : ℕ) (errors : List Text)
    → errors ≡ []
    → log_entry id start saved errors ≡ clean_log id start saved
unfolding log_entry
clean id start saved [] e = refl
clean id start saved (x ∷ errors) e = cc

module _ (id start saved : ℕ) (logs : List CollectionLog) where
  LogsOf-after_changes :
      (detected : Bool) (results : Dict String (List CollectorResult)) (after : List CollectionLog)
      → after ≡ clean_log id start saved ∷ logs
      → LogsOf true id start saved logs ((if detected then success results else failed), after)
  LogsOf-after_changes true results after e = (e, refl)
  LogsOf-after_changes false results after e = (e, tt)

  LogsOf-unless_failed :
      (b logged : Bool) (o : Outcome × List CollectionLog)
      → LogsOf logged id start saved logs o
      → LogsOf (b && logged) id start saved logs (if b then o else (failed, logs))
  LogsOf-unless_failed true logged o h = h
  LogsOf-unless_failed false logged o h = (refl, tt)

-- the newest log, if there is one, is not newer than the time
abbrev pub IsNotAfter : Option CollectionLog → ℕ → Type 0
IsNotAfter none time = Unit
IsNotAfter (some l) time = l.created_at ≤ time

newer_clean :
    (id start saved : ℕ) (m : Option CollectionLog)
    → IsNotAfter m saved
    → newer (clean_log id start saved) m ≡ clean_log id start saved
newer_clean id start saved none h = refl
newer_clean id start saved (some m) h = ground (arith, le→leb m.created_at saved h)

module _ (collect : String → Text → ℕ → Attempt) (id start : ℕ) where
  after_log-LogsOf :
      (ph : Phases) (p : Progress) (logs : List CollectionLog)
      → p.errors ≡ []
      → LogsOf true id start ph.saved_at logs (after_log collect id start ph p logs)
  unfolding after_log
  after_log-LogsOf ph p logs e =
      LogsOf-after_changes id start ph.saved_at logs ph.changes_detected p.results _
        (ap (λ (l : CollectionLog). l ∷ logs) (clean id start ph.saved_at p.errors e))

  collect_urls-LogsOf :
      (ph : Phases) (modules : List String) (base_url : Text) (urls : List Text)
      (logs : List CollectionLog)
      → LogsOf
          (ph.urls_saved && ph.log_saved)
          id
          start
          ph.saved_at
          logs
          (collect_urls collect id start ph modules base_url urls logs)
  unfolding collect_urls
  collect_urls-LogsOf ph modules base_url urls logs =
      LogsOf-unless_failed id start ph.saved_at logs ph.urls_saved ph.log_saved _ (
        subst
          (λ b. LogsOf b id start ph.saved_at logs (
            if ph.log_saved
            then after_log collect id start ph
                (collect_modules collect base_url urls modules no_progress) logs
            else (failed, logs)))
          (and_true ph.log_saved)
          (LogsOf-unless_failed id start ph.saved_at logs ph.log_saved true _ (
            after_log-LogsOf ph (collect_modules collect base_url urls modules no_progress) logs
              (errors-collect_modules collect base_url urls modules no_progress))))

  with_discovered-LogsOf :
      (ph : Phases) (modules : List String) (base_url : Text) (found : Option (List Text))
      (logs : List CollectionLog)
      → LogsOf
          (is_some found && (ph.urls_saved && ph.log_saved))
          id
          start
          ph.saved_at
          logs
          (with_discovered collect id start ph modules base_url found logs)
  unfolding with_discovered
  with_discovered-LogsOf ph modules base_url none logs = (refl, tt)
  with_discovered-LogsOf ph modules base_url (some urls) logs =
      collect_urls-LogsOf ph modules base_url urls logs

  run_crawl-LogsOf :
      (ph : Phases) (config : Config) (logs : List CollectionLog)
      → LogsOf
          (is_logged ph config)
          id
          start
          ph.saved_at
          logs
          (run_crawl collect id start ph config logs)
  unfolding run_crawl
  run_crawl-LogsOf ph not_found logs = (refl, tt)
  run_crawl-LogsOf ph disabled logs = (refl, refl)
  run_crawl-LogsOf ph no_modules logs = (refl, refl)
  run_crawl-LogsOf ph (loaded modules base_url) logs =
      with_discovered-LogsOf ph modules base_url ph.discovered logs

  collect_begun-LogsOf :
      (ph : Phases) (config : Config) (begun : Option Service) (logs : List CollectionLog)
      (s : Service)
      → let run = collect_begun collect id start ph config begun logs s in
        LogsOf (is_logged_begun ph config begun) id start ph.saved_at logs (run.0, run.1)
  unfolding collect_begun
  collect_begun-LogsOf ph config none logs s = (refl, tt)
  collect_begun-LogsOf ph config (some begun) logs s = run_crawl-LogsOf ph config logs

  -- A call of collect_competitor adds one log, whose success is true whatever the collectors
  -- returned or raised, exactly if it begins, its configuration is loaded, the discovery returns,
  -- and saving the URLs and saving the log succeed; otherwise it leaves the logs as they are. A
  -- success has added the log, and a crawl that is skipped has not.
  pub collect_competitor-LogsOf :
      (ph : Phases) (config : Config) (logs : List CollectionLog) (s : Service)
      → let run = collect_competitor collect id start ph config logs s in
        LogsOf
          (is_logged_begun ph config (begin_crawl id start s))
          id
          start
          ph.saved_at
          logs
          (run.0, run.1)
  unfolding collect_competitor
  collect_competitor-LogsOf ph config logs s =
      collect_begun-LogsOf ph config (begin_crawl id start s) logs s

  latest_of_clean :
      (saved : ℕ) (logs : List CollectionLog)
      → IsNotAfter (get_latest_by_competitor id logs) saved
      → get_latest_by_competitor id (clean_log id start saved ∷ logs)
        ≡ some (clean_log id start saved)
  unfolding get_latest_by_competitor
  latest_of_clean saved logs h =
      ground (arith, newer_clean id start saved (get_latest_by_competitor id logs) h)

  -- After a call that ends in success, and whose log is not older than the newest one of the
  -- competitor, the scheduler finds the competitor due when the interval since the start of the
  -- crawl is over and not before, though every collector may have failed.
  pub success_waits :
      (ph : Phases) (config : Config) (logs : List CollectionLog) (s : Service)
      (results : Dict String (List CollectorResult)) (f : Frequency) (now : ℕ)
      → (collect_competitor collect id start ph config logs s).0 ≡ success results
      → IsNotAfter (get_latest_by_competitor id logs) ph.saved_at
      → should_collect
          (get_latest_by_competitor id (collect_competitor collect id start ph config logs s).1)
          f
          now
        ≡ has_elapsed now start f
  unfolding should_collect started_due has_failed
  success_waits ph config logs s results f now e h =
      let run = collect_competitor collect id start ph config logs s in
      let (all, told) = collect_competitor-LogsOf ph config logs s in
      let logged = is_logged_begun ph config (begin_crawl id start s) in
      let saved : logged ≡ true = subst (λ o. Tells logged o) e told in
      let added : run.1 ≡ clean_log id start ph.saved_at ∷ logs =
        all ∙ ap (λ b. if b then clean_log id start ph.saved_at ∷ logs else logs) saved in
      ap (λ l. should_collect l f now)
        (ap (λ l. get_latest_by_competitor id l) added ∙ latest_of_clean ph.saved_at logs h)

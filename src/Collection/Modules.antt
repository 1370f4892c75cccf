-- ===== src/Collection/Modules.antt =====
-- The loop of `collect_competitor` over the modules of a competitor.
use competitor_intelligence.Base.{
  ℕ, ◌+◌, Bool, true, false, String, List, [], ◌∷◌, if◌then◌else◌, ite, string_discrete, Text,
}
use competitor_intelligence.Dict.{Dict, string_key, insert}
use competitor_intelligence.Collection.Retry.{CollectorResult, Attempt, collect_with_retry}
use competitor_intelligence.Collection.Urls.{select_urls_for_module}

-- `results`, `errors` and `records_collected`.
pub record Progress : Type 0 where
  pub results : Dict String (List CollectorResult)
  pub errors : List Text
  pub records_collected : ℕ

abbrev pub no_progress : Progress
no_progress = record { results = []; errors = []; records_collected = 0 }

-- the keys of `MODULE_COLLECTORS`
unfoldable pub has_collector : String → Bool
has_collector m = ite (string_discrete m "company") true (
    ite (string_discrete m "services") true (
      ite (string_discrete m "pricing") true (
        ite (string_discrete m "content") true (
          ite (string_discrete m "social") true
            (ite (string_discrete m "technographic") true false)))))

abbrev pub counted : CollectorResult → ℕ
counted r = if r.succeeded then r.found else 0

module _ (collect : String → Text → ℕ → Attempt) where
  -- the loop over the URLs of a module
  unfoldable pub collect_each : String → List Text → List CollectorResult
  collect_each m [] = []
  collect_each m (url ∷ urls) =
      (collect_with_retry 1 (collect m url) 3).result ∷ collect_each m urls

  unfoldable pub records_of : List CollectorResult → ℕ
  records_of [] = 0
  records_of (r ∷ rs) = counted r + records_of rs

  unfoldable pub collect_module : Text → List Text → String → Progress → Progress
  collect_module base_url urls m p =
      let rs = collect_each m (select_urls_for_module m urls base_url) in
      record p {
        results = insert m rs p.results;
        records_collected = p.records_collected + records_of rs;
      }

  -- `{"status": "completed", "source": "DiscoveryEngine"}`
  abbrev pub discovery_result : CollectorResult
  discovery_result = record { succeeded = false; found = 0 }

  unfoldable pub module_step : Text → List Text → String → Progress → Progress
  module_step base_url urls m p =
      ite (string_discrete m "discovery")
        (record p { results = insert m (discovery_result ∷ []) p.results })
        (if has_collector m then collect_module base_url urls m p else p)

  unfoldable pub collect_modules : Text → List Text → List String → Progress → Progress
  collect_modules base_url urls [] p = p
  collect_modules base_url urls (m ∷ ms) p =
      collect_modules base_url urls ms (module_step base_url urls m p)

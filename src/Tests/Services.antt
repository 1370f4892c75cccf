-- ===== src/Tests/Services.antt =====
-- Validation, change detection, alerts and the edit distance at concrete inputs.
use competitor_intelligence.Base.{
  arith, ℕ, ◌≡◌, ◌≢◌, refl, Bool, true, false, Option, none, some, String, List, [], ◌∷◌, ltb, leb,
  if◌then◌else◌, Text, string_discrete, All,
}
use competitor_intelligence.Dict.{string_key, nat_key, lookup, insert}
use competitor_intelligence.Validation.{
  Field, missing, is_none, Observation, Services, Batch, process, process_observations, required,
  valid_price, number_of, unset, Report, Conversion, number, not_numeric, is_overflow, has_zone,
  zoned,
}
use competitor_intelligence.Validation.Verdicts.{Verdict, Remembers, process-Verdict}
use competitor_intelligence.Validation.Counts.{IsTallied, IsHarmless, process_observations_tally}
use competitor_intelligence.Changes.{
  Row, Change, added, removed, detect_changes, compare_fields, most_recent_time, later,
  compare_rows, by_hash, index_from, add_row, previous_rows, collected_before, added_changes,
  removed_changes, modified_changes, common_hashes, record_to_dict, field_changes,
}
use competitor_intelligence.Fetcher.HttpCache.{filled}
use competitor_intelligence.Changes.Removed.{never_removed}
use competitor_intelligence.Alerting.{
  Alert, AlertRule, AlertManager, fires, critical, active, evaluate,
}
use competitor_intelligence.Alerting.Active.{is_active, standing, evaluate_active}
use competitor_intelligence.Alerting.History.{IsValid}
use competitor_intelligence.Resolution.Levenshtein.{levenshtein}
use competitor_intelligence.Resolution.Levenshtein.Distance.{edit, reverse_onto, levenshtein_lem}

-- Prices and scores in hundredths; a price that is not a number is `none`.
abbrev conversion : Option ℕ → Conversion ℕ
conversion none = not_numeric
conversion (some n) = number n

conversion_fits : (p : Option ℕ) → is_overflow (conversion p) ≡ false
unfolding is_overflow
conversion_fits none = refl
conversion_fits (some n) = refl

abbrev good_report : Report ℕ
good_report = record { overall_quality_score = 90; quality_flags = []; is_ml_ready = true }

abbrev services : Services (Option ℕ) ℕ
services = record {
  to_float = conversion;
  show_price = λ p. "price";
  at_most = leb;
  below = ltb;
  hundredths = λ n. n;
  lower_strip = λ s. s;
  upper_strip = λ s. s;
  concat = λ a b. a;
  map_service = λ name category. record {
    canonical_service_name = name;
    canonical_service_id = some name;
    similarity_score = 100;
    mapping_confidence = 100;
  };
  evaluate = λ r. if has_zone r.collected_at then some good_report else none;
  evaluates_zoned = λ r zone. (good_report, ground arith);
}

abbrev observation : Field String → Observation (Option ℕ) ℕ
observation unit = record {
  competitor_id = "1";
  original_service_name = some "sofa cleaning";
  category = none;
  location = some "Pune";
  collected_at = some (zoned 7);
  raw_price = some (some 49900);
  price = none;
  pricing_unit = unit;
  currency = none;
  stages_passed = [];
  flags = [];
  is_duplicate = false;
  mapping = none;
  report = none;
  validation_status = unset;
  is_ml_ready = false;
}

abbrev stores : Observation (Option ℕ) ℕ → Bool
stores r = true

process-Verdict_example :
    Verdict
      (Option ℕ)
      ℕ
      services
      []
      (observation missing)
      (process (Option ℕ) ℕ services [] (observation missing)).0
    × Remembers
        (Option ℕ)
        ℕ
        services
        (process (Option ℕ) ℕ services [] (observation missing)).1
        (observation missing)
        (required (Option ℕ) ℕ services (observation missing))
process-Verdict_example = process-Verdict (Option ℕ) ℕ services [] (observation missing)

missing≢is_none : ◌≢◌ {A = Field String} missing is_none
missing≢is_none e = cc

harmless : IsHarmless (Option ℕ) ℕ services true stores (observation missing)
unfolding has_zone
harmless = (missing≢is_none, refl, λ name price e. conversion_fits price)

process_observations_tally_example :
    (b : Batch (Option ℕ) ℕ) × (process_observations
        (Option ℕ)
        ℕ
        services
        true
        stores
        (observation missing ∷ observation missing ∷ [])
      ≡ some b)
    × IsTallied (Option ℕ) ℕ services true stores 2 b
process_observations_tally_example =
    process_observations_tally (Option ℕ) ℕ services true stores
      (observation missing ∷ observation missing ∷ []) (harmless, (harmless, tt))

named : required (Option ℕ) ℕ services (observation is_none) ≡ some ("sofa cleaning", some 49900)
unfolding required filled string_discrete
named = refl

priced : valid_price (Option ℕ) ℕ services (some 49900) ≡ some 49900
unfolding valid_price number_of
priced = refl

abbrev row : ℕ → ℕ → String → Row ℕ
row id time hash = record {
  id = id;
  collected_at = some time;
  content_hash = some hash;
  value = λ field. id;
}

abbrev same_number : ℕ → ℕ → Bool
same_number a b = if leb a b then leb b a else false

-- The first row stands in both queries under one hash, and the second is new.
abbrev changes : List (Change ℕ)
changes =
    record {
      change_type = added;
      data_type = "social";
      record_id = 2;
      old_value = [];
      new_value = ("profile_url", 2) ∷ ("username", 2) ∷ [];
    }
    ∷ []

one_added :
    detect_changes ℕ same_number
      (λ n. n)
      (λ hashes. hashes)
      "social"
      (row 1 10 "x" ∷ row 2 20 "y" ∷ [])
    ≡ some changes
unfolding detect_changes compare_fields most_recent_time later compare_rows by_hash index_from
    add_row filled insert lookup previous_rows collected_before added_changes removed_changes
    modified_changes common_hashes record_to_dict field_changes string_discrete
one_added = refl

never_removed_example : All (λ (c : Change ℕ). c.change_type ≢ removed) changes
never_removed_example =
    never_removed ℕ same_number (λ n. n) (λ hashes. hashes) "social"
      (row 1 10 "x" ∷ row 2 20 "y" ∷ []) changes one_added

abbrev rule : AlertRule ℕ
rule = record {
  name = "queue_depth_high";
  severity = critical;
  check_fn = λ session. fires [];
  enabled = true;
}

abbrev manager : AlertManager ℕ
manager = record {
  objects = [];
  next_object = 0;
  active_alerts = [];
  history = [];
  rules = rule ∷ [];
  webhook_urls = [];
  webhook_tasks = [];
}

abbrev stamp : String → String
stamp name = "2024-01-01"

evaluate_active_example :
    is_active ℕ none stamp "queue_depth_high" (evaluate ℕ none stamp manager)
    ≡ standing ℕ none stamp "queue_depth_high" (rule ∷ []) false
unfolding lookup
evaluate_active_example = evaluate_active ℕ none stamp "queue_depth_high" manager

manager-IsValid : IsValid ℕ manager
unfolding lookup
manager-IsValid = record {
  numbered = λ n a h. absurd (cc);
  tabled = λ n a h s. absurd (cc);
  present = λ name n h. absurd (cc);
}

abbrev alert : Alert
alert = record {
  name = "queue_depth_high";
  severity = critical;
  message = [];
  timestamp = "2024-01-01";
  status = active;
}

none_active : lookup "queue_depth_high" manager.active_alerts ≡ none
unfolding lookup
none_active = refl

levenshtein_lem_example :
    levenshtein (1 ∷ 2 ∷ 3 ∷ []) (1 ∷ 3 ∷ [])
    ≡ edit (reverse_onto (1 ∷ 2 ∷ 3 ∷ []) []) (reverse_onto (1 ∷ 3 ∷ []) [])
levenshtein_lem_example = levenshtein_lem (1 ∷ 2 ∷ 3 ∷ []) (1 ∷ 3 ∷ [])

abbrev pair : Text
pair = 1 ∷ 2 ∷ []

abbrev single : Text
single = 3 ∷ []

-- ===== src/Validation.antt =====
-- `DataValidationPipeline.process_observations` (app/services/quality/validation_pipeline.py). The
-- taxonomy and the quality framework are an interface, floats are a type with the tests that the
-- pipeline makes, and texts change case and lose spaces by given functions.
pub mod Counts
pub mod Losses
pub mod Verdicts
use competitor_intelligence.Base.{
  ℕ, ◌+◌, Bool, true, false, not, ◌||◌, ◌&&◌, Option, none, some, String, List, [], ◌∷◌, ◌++◌,
  length, if◌then◌else◌, ite, string_discrete, is_some, ◌≡◌,
}
use competitor_intelligence.Fetcher.HttpCache.{filled}

-- A value of a raw record: the key is missing, or is there with `None`, or with a value.
pub data Field (A : Type 0) : Type 0 where
  missing is_none : Field A
  given : A → Field A

unfoldable pub get_field : {A : Type 0} → Field A → Option A
get_field missing = none
get_field is_none = none
get_field (given a) = some a

pub data ValidationStatus : Type 0 where
  unset rejected flagged_for_review validated : ValidationStatus

pub record Mapping (F : Type 0) : Type 0 where
  pub canonical_service_name : String
  pub canonical_service_id : Option String
  pub similarity_score : F
  pub mapping_confidence : F

pub record Report (F : Type 0) : Type 0 where
  pub overall_quality_score : F
  pub quality_flags : List String
  pub is_ml_ready : Bool

-- `collected_at`: a time, or the text of one, with or without a time zone, or another text
pub data Timestamp : Type 0 where
  zoned naive : ℕ → Timestamp
  unreadable : Timestamp

-- the difference to the time now can be taken, or is not asked for
unfoldable pub has_zone : Option Timestamp → Bool
has_zone none = true
has_zone (some (zoned n)) = true
has_zone (some (naive n)) = false
has_zone (some unreadable) = true

-- `float(…)`: a number, or a `ValueError` or `TypeError`, or an `OverflowError`
pub data Conversion (F : Type 0) : Type 0 where
  number : F → Conversion F
  not_numeric overflows : Conversion F

unfoldable pub number_of : {F : Type 0} → Conversion F → Option F
number_of (number x) = some x
number_of not_numeric = none
number_of overflows = none

unfoldable pub is_overflow : {F : Type 0} → Conversion F → Bool
is_overflow (number x) = false
is_overflow not_numeric = false
is_overflow overflows = true

-- The record of an observation: what came in, and what the stages add to it.
pub record Observation (Price F : Type 0) : Type 0 where
  pub competitor_id : String
  pub original_service_name : Option String
  pub category : Option String
  pub location : Option String
  pub collected_at : Option Timestamp
  pub raw_price : Option Price
  pub price : Option F
  pub pricing_unit : Field String
  pub currency : Option String
  pub stages_passed : List String
  pub flags : List String
  pub is_duplicate : Bool
  pub mapping : Option (Mapping F)
  pub report : Option (Report F)
  pub validation_status : ValidationStatus
  pub is_ml_ready : Bool

-- Floats and texts of Python, and the two services that the pipeline calls. `evaluate` raises where it
-- takes a time without a zone from the time now, and only there.
pub record Services (Price F : Type 0) : Type 0 where
  pub to_float : Price → Conversion F
  pub show_price : Price → String
  pub at_most : F → F → Bool
  pub below : F → F → Bool
  pub hundredths : ℕ → F
  pub lower_strip : String → String
  pub upper_strip : String → String
  pub concat : String → String → String
  pub map_service : String → Option String → Mapping F
  pub evaluate : Observation Price F → Option (Report F)
  pub evaluates_zoned :
      (r : Observation Price F)
      → has_zone r.collected_at ≡ true
      → (report : Report F) × (evaluate r ≡ some report)

pub record Tally : Type 0 where
  pub validated_count : ℕ
  pub flagged_count : ℕ
  pub rejected_count : ℕ
  pub ml_ready_count : ℕ

-- The local variables of the loop, with the records that were added to the session.
pub record Batch (Price F : Type 0) : Type 0 where
  pub results : List (Observation Price F)
  pub tally : Tally
  pub seen_hashes : List String
  pub added : List (Observation Price F)

unfoldable pub is_seen : String → List String → Bool
is_seen h [] = false
is_seen h (s ∷ seen) = if ite (string_discrete s h) true false then true else is_seen h seen

module _ (Price F : Type 0) (service : Services Price F) where
  unfoldable pub passed : String → Observation Price F → Observation Price F
  passed stage r = record r { stages_passed = r.stages_passed ++ stage ∷ [] }

  unfoldable pub flag : String → Observation Price F → Observation Price F
  flag text r = record r { flags = r.flags ++ text ∷ [] }

  -- A stage goes on with the record, or rejects it.
  unfoldable pub reject : String → Observation Price F → Observation Price F
  unfolding flag
  reject text r = flag text (record r { validation_status = rejected })

  unfoldable pub ingest : Observation Price F → Observation Price F
  unfolding passed
  ingest raw =
      passed "1_ingestion"
        (record raw { stages_passed = []; flags = []; validation_status = unset })

  -- Stage 2; the name and the price that the later stages read
  unfoldable pub required : Observation Price F → Option (String × Price)
  required r = elim r.original_service_name [
    | none ↦ none
    | some name ↦ elim r.raw_price [
      | none ↦ none
      | some price ↦ if filled name then some (name, price) else none
    ]
  ]

  unfoldable pub observation_hash : Observation Price F → String → Price → String
  observation_hash r name price =
      service.concat r.competitor_id
        (service.concat "_" (service.concat name (service.concat "_" (service.show_price price))))

  -- Stage 3
  unfoldable pub mark_duplicate : Bool → Observation Price F → Observation Price F
  unfolding passed flag
  mark_duplicate seen r = passed "3_duplicate_detection" (
      if seen
      then flag "Stage 3: Duplicate observation within batch" (record r { is_duplicate = true })
      else record r { is_duplicate = false })

  -- Stage 4
  unfoldable pub normalize_service : String → Observation Price F → Observation Price F
  unfolding passed
  normalize_service name r =
      passed "4_service_normalization"
        (record r { mapping = some (service.map_service name r.category) })

  -- Stage 5: the price, or why it is refused
  unfoldable pub valid_price : Price → Option F
  valid_price price = elim (number_of (service.to_float price)) [
    | none ↦ none
    | some value ↦ if service.at_most value (service.hundredths 0) then none else some value
  ]

  unfoldable pub price_flag : Price → String
  price_flag price =
      if is_some (number_of (service.to_float price))
      then "Stage 5: Price is zero or negative"
      else "Stage 5: Price is non-numeric"

  unfoldable pub unit_name : String → String
  unit_name unit = ite (string_discrete unit "unit") "per_unit" (
      ite (string_discrete unit "service") "per_service" (
        ite (string_discrete unit "visit") "per_visit"
          (ite (string_discrete unit "hour") "per_hour" unit)))

  -- Stage 6; `none` is the `AttributeError` for a unit that is there and is `None`
  unfoldable pub unit_of : Field String → Option String
  unfolding unit_name
  unit_of missing = some (unit_name (service.lower_strip "per_service"))
  unit_of is_none = none
  unit_of (given unit) = some (unit_name (service.lower_strip unit))

  -- Stage 7
  unfoldable pub currency_of : Option String → String
  currency_of c =
      let given_currency : String = elim c [
        | none ↦ "INR"
        | some s ↦ if filled s then s else "INR"
      ] in
      let curr = service.upper_strip given_currency in
      ite (string_discrete curr "USD") curr
        (ite (string_discrete curr "EUR") curr (ite (string_discrete curr "GBP") curr "INR"))

  -- Stages 5 to 9 for a valid price and a unit
  unfoldable pub normalized : F → String → Observation Price F → Observation Price F
  unfolding passed flag currency_of
  normalized price unit r0 =
      let r5 = passed "5_price_validation" (record r0 { price = some price }) in
      let r6 = passed "6_unit_normalization" (record r5 { pricing_unit = given unit }) in
      let r7 =
        passed "7_currency_normalization"
          (record r6 { currency = some (currency_of r6.currency) }) in
      let r8 =
        if service.below (service.hundredths 10000000) price
        then flag "Stage 8: Price outlier > ₹1,00,000" r7
        else r7 in
      passed "9_cross_source_verification" (passed "8_outlier_detection" r8)

  unfoldable pub some_flag : List String → Bool
  some_flag [] = false
  some_flag (f ∷ fs) = true

  unfoldable pub needs_review : Report F → List String → Bool
  unfolding some_flag
  needs_review report flags =
      service.below report.overall_quality_score (service.hundredths 70)
      || some_flag flags
      || some_flag report.quality_flags

  -- Stages 10 to 13
  unfoldable pub scored : Report F → Observation Price F → Observation Price F
  unfolding passed
  scored report r9 =
      let r10 = passed "10_quality_scoring" (record r9 { report = some report }) in
      let review = needs_review report r10.flags in
      let r11 =
        passed "11_human_review_assignment"
          (record r10 { validation_status = if review then flagged_for_review else validated }) in
      let r12 = passed "12_validated_storage" r11 in
      passed "13_ml_dataset_filter" (record r12 { is_ml_ready = report.is_ml_ready && not review })

  count_by : ValidationStatus → Bool → Tally → Tally
  count_by unset ready t = t
  count_by rejected ready t = record t { rejected_count = t.rejected_count + 1 }
  count_by flagged_for_review ready t = record t {
    flagged_count = t.flagged_count + 1;
    ml_ready_count = t.ml_ready_count + (if ready then 1 else 0);
  }
  count_by validated ready t = record t {
    validated_count = t.validated_count + 1;
    ml_ready_count = t.ml_ready_count + (if ready then 1 else 0);
  }

  unfoldable pub count : Observation Price F → Tally → Tally
  unfolding count_by
  count r t = count_by r.validation_status r.is_ml_ready t

  -- What becomes of a record: it is kept with or without a row of the database, or the batch fails.
  pub data Processed : Type 0 where
    refused accepted : Observation Price F → Processed
    crashed : Processed

  -- Stages 10 to 13, which a failing evaluation does not reach
  unfoldable pub evaluated : Option (Report F) → Observation Price F → Processed
  evaluated none r = crashed
  evaluated (some report) r = accepted (scored report r)

  unfoldable pub checked_stages : Price → Observation Price F → Processed
  unfolding reject
  checked_stages price r = elim (valid_price price) [
    | none ↦ refused (reject (price_flag price) r)
    | some value ↦ elim (unit_of r.pricing_unit) [
      | none ↦ crashed
      | some unit ↦ let n = normalized value unit r in evaluated (service.evaluate n) n
    ]
  ]

  -- Stages 5 to 13; `OverflowError` is not caught
  unfoldable pub price_stages : Price → Observation Price F → Processed
  price_stages price r =
      if is_overflow (service.to_float price) then crashed else checked_stages price r

  -- The stages for one observation, given the hashes seen so far, and the hash that it adds.
  unfoldable pub process : List String → Observation Price F → Processed × List String
  unfolding price_stages reject
  process seen raw =
      let r1 = ingest raw in
      elim (required r1) [
        | none ↦
            (refused (reject "Stage 2: Schema validation failed (missing name or price)" r1), seen)
        | some (name, price) ↦
            let h = observation_hash r1 name price in
            let r3 = mark_duplicate (is_seen h seen) (passed "2_schema_validation" r1) in
            (
              price_stages price (normalize_service name r3),
              if is_seen h seen then seen else h ∷ seen,
            )
      ]

  module _ (has_session : Bool) (stores : Observation Price F → Bool) where
    -- the end of the loop's body; a row that the database refuses is skipped with a warning
    keep : Observation Price F → List String → Bool → Batch Price F → Batch Price F
    keep r seen row b = record {
      results = b.results ++ r ∷ [];
      tally = count r b.tally;
      seen_hashes = seen;
      added = if row && has_session && stores r then b.added ++ r ∷ [] else b.added;
    }

    collect : Processed × List String → Batch Price F → Option (Batch Price F)
    unfolding keep
    collect (refused r, seen) b = some (keep r seen false b)
    collect (accepted r, seen) b = some (keep r seen true b)
    collect (crashed, seen) b = none

    unfoldable pub process_all : List (Observation Price F) → Batch Price F → Option (Batch Price F)
    unfolding collect
    process_all [] b = some b
    process_all (raw ∷ raws) b = elim (collect (process b.seen_hashes raw) b) [
      | none ↦ none
      | some b' ↦ process_all raws b'
    ]

    abbrev pub empty_batch : Batch Price F
    empty_batch = record {
      results = [];
      tally = record {
        validated_count = 0;
        flagged_count = 0;
        rejected_count = 0;
        ml_ready_count = 0;
      };
      seen_hashes = [];
      added = [];
    }

    unfoldable pub process_observations : List (Observation Price F) → Option (Batch Price F)
    unfolding process_all
    process_observations raws = process_all raws empty_batch

-- ===== src/Validation/Verdicts.antt =====
-- What the status of a processed observation tells of it.
use mathlib.Core.Bool.{false≢true}
use competitor_intelligence.Base.{
  sym, ◌∙◌, ◌≡◌, Option, none, if_chosen, if◌then◌else◌, ◌⊎◌, refl, arith, Bool, true, false, some,
  String, List, [], ◌∷◌, ◌++◌, inl, inr, Bool-cases, Option-cases,
}
use competitor_intelligence.Validation.{
  Observation, Services, Report, Processed, refused, accepted, crashed, rejected,
  flagged_for_review, validated, passed, flag, reject, ingest, required, mark_duplicate,
  normalize_service, valid_price, unit_of, normalized, needs_review, scored, evaluated,
  checked_stages, price_stages, is_overflow, process, is_seen, some_flag, observation_hash,
}

module _ (Price F : Type 0) (service : Services Price F) where
  -- The hash of the observation is not among those seen.
  abbrev pub IsFirst : List String → Observation Price F → Type 0
  IsFirst seen raw =
      (name : String) × (price : Price) × (required Price F service raw ≡ some (name, price))
      × (is_seen (observation_hash Price F service raw name price) seen ≡ false)

  -- Afterwards the hash of an observation with a name and a price is among those seen.
  abbrev pub Remembers : List String → Observation Price F → Option (String × Price) → Type 0
  Remembers seen raw none = Unit
  Remembers seen raw (some (name, price)) =
      is_seen (observation_hash Price F service raw name price) seen ≡ true

module _ (Price F : Type 0) (service : Services Price F) (seen : List String)
    (raw : Observation Price F) where
  -- What an observation with the status "validated" has been through.
  abbrev pub IsSound : Observation Price F → Type 0
  IsSound r =
      (r.is_duplicate ≡ false)
      × IsFirst Price F service seen raw
      × ((value : F) × (r.price ≡ some value)
          × (service.at_most value (service.hundredths 0) ≡ false)
          × (service.below (service.hundredths 10000000) value ≡ false))
      × ((report : Report F) × (r.report ≡ some report)
          × (service.below report.overall_quality_score (service.hundredths 70) ≡ false)
          × (report.quality_flags ≡ []))

  -- A refused observation has the status "rejected"; an accepted one is validated and sound, or is
  -- flagged for review and not ready for training.
  abbrev pub Verdict : Processed Price F service → Type 0
  Verdict (refused r) = (r.validation_status ≡ rejected)
  Verdict (accepted r) =
      ((r.validation_status ≡ validated) × IsSound r)
      ⊎ ((r.validation_status ≡ flagged_for_review) × (r.is_ml_ready ≡ false))
  Verdict crashed = Unit

  no_flags : (fs : List String) → some_flag Price F service fs ≡ false → fs ≡ []
  unfolding some_flag
  no_flags [] h = refl
  no_flags (f ∷ fs) h = absurd (cc)

  unflagged : (fs : List String) (s : String) → some_flag Price F service (fs ++ s ∷ []) ≡ true
  unfolding some_flag
  unflagged [] s = refl
  unflagged (f ∷ fs) s = refl

  no_review :
      (report : Report F) (flags : List String)
      → needs_review Price F service report flags ≡ false
      → (service.below report.overall_quality_score (service.hundredths 70) ≡ false)
        × (some_flag Price F service flags ≡ false)
        × (some_flag Price F service report.quality_flags ≡ false)
  unfolding needs_review
  no_review report flags h = ground arith

  scored-Verdict :
      (report : Report F) (value : F) (r : Observation Price F)
      → r.price ≡ some value
      → service.at_most value (service.hundredths 0) ≡ false
      → (some_flag Price F service r.flags ≡ false
          → (r.is_duplicate ≡ false)
            × IsFirst Price F service seen raw
            × (service.below (service.hundredths 10000000) value ≡ false))
      → Verdict (accepted (scored Price F service report r))
  unfolding scored passed
  scored-Verdict report value r priced positive clean =
      elim (Bool-cases (needs_review Price F service report r.flags)) [
        | inl review ↦ inr (rw (review) refl, rw (review) (ground arith))
        | inr fine ↦
            let (good, unmarked, none_found) = no_review report r.flags fine in
            let (single, first, low) = clean unmarked in
            inl (
              rw (fine) refl,
              (
                single,
                first,
                (value, priced, positive, low),
                (report, refl, good, no_flags report.quality_flags none_found),
              ),
            )
      ]

  normalized_clean :
      (value : F) (unit : String) (r : Observation Price F)
      → some_flag Price F service (normalized Price F service value unit r).flags ≡ false
      → (service.below (service.hundredths 10000000) value ≡ false)
        × (some_flag Price F service r.flags ≡ false)
  unfolding normalized passed flag
  normalized_clean value unit r h =
      elim (Bool-cases (service.below (service.hundredths 10000000) value)) [
        | inl high ↦
            let h' : some_flag Price F service
                  (r.flags ++ "Stage 8: Price outlier > ₹1,00,000" ∷ [])
                ≡ false =
              rw high at h in
            absurd (false≢true (sym h' ∙ unflagged r.flags _))
        | inr low ↦ (low, rw low at h)
      ]

  normalized_keeps :
      (value : F) (unit : String) (r : Observation Price F)
      → let n = normalized Price F service value unit r in
        (n.price ≡ some value) × (n.is_duplicate ≡ r.is_duplicate)
  unfolding normalized passed flag
  normalized_keeps value unit r =
      elim (Bool-cases (service.below (service.hundredths 10000000) value)) [
        | inl high ↦ rw high (refl, refl)
        | inr low ↦ rw low (refl, refl)
      ]

  marked_clean :
      (again : Bool) (r : Observation Price F)
      → let m = mark_duplicate Price F service again r in
        some_flag Price F service m.flags ≡ false → (m.is_duplicate ≡ false) × (again ≡ false)
  unfolding mark_duplicate passed flag
  marked_clean true r h = absurd (false≢true (sym h ∙ unflagged r.flags _))
  marked_clean false r h = (refl, refl)

  valid_price_positive :
      (price : Price) (value : F)
      → valid_price Price F service price ≡ some value
      → service.at_most value (service.hundredths 0) ≡ false
  unfolding valid_price
  valid_price_positive price value h = ground arith

  evaluated-Verdict :
      (report : Option (Report F)) (value : F) (r : Observation Price F)
      → r.price ≡ some value
      → service.at_most value (service.hundredths 0) ≡ false
      → (some_flag Price F service r.flags ≡ false
          → (r.is_duplicate ≡ false)
            × IsFirst Price F service seen raw
            × (service.below (service.hundredths 10000000) value ≡ false))
      → Verdict (evaluated Price F service report r)
  unfolding evaluated
  evaluated-Verdict none value r priced positive clean = tt
  evaluated-Verdict (some report) value r priced positive clean =
      scored-Verdict report value r priced positive clean

  checked_stages-Verdict :
      (price : Price) (r : Observation Price F)
      → (some_flag Price F service r.flags ≡ false
          → (r.is_duplicate ≡ false) × IsFirst Price F service seen raw)
      → Verdict (checked_stages Price F service price r)
  unfolding checked_stages reject flag
  checked_stages-Verdict price r single = elim (Option-cases (valid_price Price F service price)) [
    | inl bad ↦ rw (bad, checked_stages) refl
    | inr (value, good) ↦ elim (Option-cases (unit_of Price F service r.pricing_unit)) [
      | inl lost ↦ rw (good, lost, checked_stages) tt
      | inr (unit, known) ↦
          let n = normalized Price F service value unit r in
          let (priced, same) = normalized_keeps value unit r in
          rw (good, known, checked_stages)
            (evaluated-Verdict (service.evaluate n) value n priced
              (valid_price_positive price value good)
              (λ h.
                let (low, clear) = normalized_clean value unit r h in
                let (alone, first) = single clear in (same ∙ alone, first, low)))
    ]
  ]

  price_stages-Verdict :
      (price : Price) (r : Observation Price F)
      → (some_flag Price F service r.flags ≡ false
          → (r.is_duplicate ≡ false) × IsFirst Price F service seen raw)
      → Verdict (price_stages Price F service price r)
  unfolding price_stages
  price_stages-Verdict price r single =
      if_chosen Verdict (is_overflow (service.to_float price)) crashed _ (λ lost. tt)
        (λ fine. checked_stages-Verdict price r single)

  added-Remembers : (h : String) → is_seen h (if is_seen h seen then seen else h ∷ seen) ≡ true
  unfolding is_seen
  added-Remembers h = ground arith

  required_ingested :
      (o : Option (String × Price))
      → required Price F service raw ≡ o
      → required Price F service (ingest Price F service raw) ≡ o
  unfolding required ingest passed
  required_ingested o h = h

  -- Each observation is refused with the status "rejected", or accepted, unless the batch fails. An
  -- accepted one is flagged for review and not ready for training, or validated: then its hash is
  -- not among those seen before, its price is neither at most zero nor above 100000, its quality
  -- score is not below 0.70, and it has no quality flag. Afterwards the hash of an observation with
  -- a name and a price is among those seen.
  pub process-Verdict :
      Verdict (process Price F service seen raw).0
      × Remembers Price F service
          (process Price F service seen raw).1
          raw
          (required Price F service raw)
  unfolding process reject flag normalize_service passed ingest observation_hash
  process-Verdict = elim (Option-cases (required Price F service raw)) [
    | inl short ↦
        let short' = required_ingested none short in rw (short', short, process) (refl, tt)
    | inr ((name, price), there) ↦
        let there' = required_ingested (some (name, price)) there in
        let h = observation_hash Price F service raw name price in
        let r2 = passed Price F service "2_schema_validation" (ingest Price F service raw) in
        rw (there', there, process)
          (
            price_stages-Verdict price
                (normalize_service Price F service name
                  (mark_duplicate Price F service (is_seen h seen) r2))
                (λ clear.
                  let (alone, new) = marked_clean (is_seen h seen) r2 clear in
                  (alone, (name, price, there, new))),
            added-Remembers h,
          )
  ]

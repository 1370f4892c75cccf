-- ===== src/Validation/Counts.antt =====
-- The counts of a batch, and when a batch has a result at all.
use competitor_intelligence.Base.{
  ℕ, ◌+◌, ◌≤◌, ◌≡◌, ◌≢◌, ◌⊎◌, refl, arith, ◌∙◌, subst, sym, Bool, true, false, Option, none, some,
  String, List, [], ◌∷◌, inl, inr, Option-cases, Bool-cases, length, length-append, All,
}
use competitor_intelligence.Validation.{
  Field, missing, is_none, given, Observation, Services, Batch, Tally, Processed, refused, accepted,
  crashed, rejected, flagged_for_review, validated, passed, ingest, required, mark_duplicate,
  normalize_service, valid_price, unit_of, ValidationStatus, count_by, count, price_stages, process,
  has_zone, is_overflow, Report, evaluated, checked_stages, normalized, keep, collect, process_all,
  process_observations, empty_batch, flag,
}
use competitor_intelligence.Validation.Verdicts.{Verdict, process-Verdict}

module _ (Price F : Type 0) (service : Services Price F) (has_session : Bool)
    (stores : Observation Price F → Bool) where
  -- The counts of a batch of so many observations; each has a record in the results.
  abbrev pub IsTallied : ℕ → Batch Price F → Type 0
  IsTallied n b =
      (b.tally.validated_count + b.tally.flagged_count + b.tally.rejected_count ≡ n)
      × (length b.results ≡ n)
      × (b.tally.ml_ready_count ≤ b.tally.validated_count)

  counted :
      (s : ValidationStatus) (ready : Bool) (t : Tally)
      → (s ≡ rejected) ⊎ ((s ≡ validated) ⊎ ((s ≡ flagged_for_review) × (ready ≡ false)))
      → t.ml_ready_count ≤ t.validated_count
      → let t' = count_by Price F service s ready t in
        (t'.validated_count + t'.flagged_count + t'.rejected_count
          ≡ t.validated_count + t.flagged_count + t.rejected_count + 1)
        × (t'.ml_ready_count ≤ t'.validated_count)
  unfolding count_by
  counted s ready t (inl e) h = rw e (omega arith, h)
  counted s ready t (inr (inl e)) h = rw e (omega arith, ground arith)
  counted s ready t (inr (inr (e, unready))) h = rw (e, unready) (omega arith, omega arith)

  keep-IsTallied :
      (r : Observation Price F) (seen : List String) (row : Bool) (b : Batch Price F) (n : ℕ)
      → (r.validation_status ≡ rejected)
        ⊎ ((r.validation_status ≡ validated)
            ⊎ ((r.validation_status ≡ flagged_for_review) × (r.is_ml_ready ≡ false)))
      → IsTallied n b
      → IsTallied (n + 1) (keep Price F service has_session stores r seen row b)
  unfolding keep count
  keep-IsTallied r seen row b n which (sums, size, ready) =
      let (more, ready') = counted r.validation_status r.is_ml_ready b.tally which ready in
      (omega (arith, sums, more), omega (arith, length-append b.results (r ∷ []), size), ready')

  abbrev AllTallied : ℕ → Option (Batch Price F) → Type 0
  AllTallied n none = Unit
  AllTallied n (some b) = IsTallied n b

  collect-AllTallied :
      (prior : List String) (raw : Observation Price F) (x : Processed Price F service)
      (seen : List String) (b : Batch Price F) (n : ℕ)
      → Verdict Price F service prior raw x
      → IsTallied n b
      → AllTallied (n + 1) (collect Price F service has_session stores (x, seen) b)
  unfolding collect
  collect-AllTallied prior raw (refused r) seen b n v t = keep-IsTallied r seen false b n (inl v) t
  collect-AllTallied prior raw (accepted r) seen b n (inl (e, s)) t =
      keep-IsTallied r seen true b n (inr (inl e)) t
  collect-AllTallied prior raw (accepted r) seen b n (inr e) t =
      keep-IsTallied r seen true b n (inr (inr e)) t
  collect-AllTallied prior raw crashed seen b n v t = tt

  process_all-AllTallied :
      (raws : List (Observation Price F)) (b : Batch Price F) (n : ℕ)
      → IsTallied n b
      → AllTallied (n + length raws) (process_all Price F service has_session stores raws b)
  unfolding process_all
  process_all-AllTallied [] b n t = subst (λ k. IsTallied k b) (omega arith) t
  process_all-AllTallied (raw ∷ raws) b n t =
      let x = process Price F service b.seen_hashes raw in
      let step =
        collect-AllTallied b.seen_hashes raw x.0 x.1 b n
          (process-Verdict Price F service b.seen_hashes raw).0 t in
      elim (Option-cases (collect Price F service has_session stores x b)) [
        | inl lost ↦ rw (lost, process_all) tt
        | inr (b', next) ↦
            let t' : IsTallied (n + 1) b' = subst (λ o. AllTallied (n + 1) o) next step in
            rw (next, process_all)
              (subst (λ k. AllTallied k (process_all Price F service has_session stores raws b'))
                (omega arith) (process_all-AllTallied raws b' (n + 1) t'))
      ]

  -- Nothing in the observation raises: it does not have `None` for its unit, its time has a zone where
  -- it has a time, and its price is not too large for a float.
  abbrev pub IsHarmless : Observation Price F → Type 0
  IsHarmless raw =
      (raw.pricing_unit ≢ is_none)
      × (has_zone raw.collected_at ≡ true)
      × ((name : String) (price : Price)
          → required Price F service raw ≡ some (name, price)
          → is_overflow (service.to_float price) ≡ false)

  known_unit :
      (u : Field String) → u ≢ is_none → (s : String) × (unit_of Price F service u ≡ some s)
  unfolding unit_of
  known_unit missing h = (_, refl)
  known_unit is_none h = absurd (h refl)
  known_unit (given s) h = (_, refl)

  abbrev HasRecord : Processed Price F service → Type 0
  HasRecord (refused r) = Unit
  HasRecord (accepted r) = Unit
  HasRecord crashed = ⊥

  zone-normalized :
      (value : F) (unit : String) (r : Observation Price F)
      → (normalized Price F service value unit r).collected_at ≡ r.collected_at
  unfolding normalized passed flag
  zone-normalized value unit r =
      elim (Bool-cases (service.below (service.hundredths 10000000) value)) [
        | inl high ↦ rw high refl
        | inr low ↦ rw low refl
      ]

  evaluated-HasRecord :
      (report : Report F) (r : Observation Price F) (o : Option (Report F))
      → o ≡ some report
      → HasRecord (evaluated Price F service o r)
  unfolding evaluated
  evaluated-HasRecord report r none e = absurd (cc)
  evaluated-HasRecord report r (some other) e = tt

  checked_stages-HasRecord :
      (price : Price) (r : Observation Price F)
      → r.pricing_unit ≢ is_none
      → has_zone r.collected_at ≡ true
      → HasRecord (checked_stages Price F service price r)
  unfolding checked_stages
  checked_stages-HasRecord price r h zone =
      elim (Option-cases (valid_price Price F service price)) [
        | inl bad ↦ rw (bad, checked_stages) tt
        | inr (value, good) ↦
            let (unit, known) = known_unit r.pricing_unit h in
            let n = normalized Price F service value unit r in
            let (report, e) =
              service.evaluates_zoned n
                (subst (λ c. has_zone c ≡ true) (sym (zone-normalized value unit r)) zone) in
            rw (good, known, checked_stages) (evaluated-HasRecord report n (service.evaluate n) e)
      ]

  price_stages-HasRecord :
      (price : Price) (r : Observation Price F)
      → is_overflow (service.to_float price) ≡ false
      → r.pricing_unit ≢ is_none
      → has_zone r.collected_at ≡ true
      → HasRecord (price_stages Price F service price r)
  unfolding price_stages
  price_stages-HasRecord price r fits h zone =
      rw (fits, price_stages) (checked_stages-HasRecord price r h zone)

  pub required-ingest :
      (raw : Observation Price F)
      → required Price F service (ingest Price F service raw) ≡ required Price F service raw
  unfolding required ingest passed
  required-ingest raw = refl

  -- what the stages before the price leave as it is
  pub marked_same :
      (raw : Observation Price F) (seen : Bool)
      → let m =
          mark_duplicate Price F service seen
            (passed Price F service "2_schema_validation" (ingest Price F service raw)) in
        (m.pricing_unit ≡ raw.pricing_unit) × (m.collected_at ≡ raw.collected_at)
  unfolding mark_duplicate passed flag ingest
  marked_same raw true = (refl, refl)
  marked_same raw false = (refl, refl)

  process-HasRecord :
      (seen : List String) (raw : Observation Price F)
      → IsHarmless raw
      → HasRecord (process Price F service seen raw).0
  unfolding process normalize_service passed
  process-HasRecord seen raw (unit, zone, fits) =
      elim (Option-cases (required Price F service (ingest Price F service raw))) [
        | inl short ↦ rw (short, process) tt
        | inr ((name, price), there) ↦
            let (same, kept) = marked_same raw _ in
            rw (there, process)
              (price_stages-HasRecord price _ (fits name price (sym (required-ingest raw) ∙ there))
                (λ e. unit (sym same ∙ e)) (subst (λ c. has_zone c ≡ true) (sym kept) zone))
      ]

  collects :
      (x : Processed Price F service) (seen : List String) (b : Batch Price F)
      → HasRecord x
      → (b' : Batch Price F) × (collect Price F service has_session stores (x, seen) b ≡ some b')
  unfolding collect
  collects (refused r) seen b h = (_, refl)
  collects (accepted r) seen b h = (_, refl)
  collects crashed seen b h = absurd h

  process_all_total :
      (raws : List (Observation Price F)) (b : Batch Price F)
      → All IsHarmless raws
      → (b' : Batch Price F) × (process_all Price F service has_session stores raws b ≡ some b')
  unfolding process_all
  process_all_total [] b h = (b, refl)
  process_all_total (raw ∷ raws) b (unit, units) =
      let x = process Price F service b.seen_hashes raw in
      let (b1, step) = collects x.0 x.1 b (process-HasRecord b.seen_hashes raw unit) in
      let (b', rest) = process_all_total raws b1 units in (b', rw (step, process_all) rest)

  -- If no observation has None for its unit, a time without a zone, or a price too large for a
  -- float, the batch has a result: every observation has one record in it, and is counted once, as
  -- validated, flagged or rejected. Not more are ready for training than are validated.
  pub process_observations_tally :
      (raws : List (Observation Price F))
      → All IsHarmless raws
      → (b : Batch Price F) × (process_observations Price F service has_session stores raws
          ≡ some b)
        × IsTallied (length raws) b
  unfolding process_observations
  process_observations_tally raws units =
      let (b, e) = process_all_total raws (empty_batch Price F service has_session stores) units in
      (
        b,
        e,
        subst (λ o. AllTallied (length raws) o) e
            (subst
              (λ k. AllTallied k (process_observations Price F service has_session stores raws))
              (omega arith)
              (process_all-AllTallied raws (empty_batch Price F service has_session stores) 0
                (refl, refl, omega arith))),
      )

-- ===== src/Validation/Losses.antt =====
-- When a batch is lost: one observation whose unit is there and is `None`.
use competitor_intelligence.Base.{
  ◌≡◌, refl, ◌∙◌, subst, sym, Bool, false, none, some, String, List, [], ◌∷◌, ◌++◌, inl, inr,
  Option-cases,
}
use competitor_intelligence.Validation.{
  is_none, Observation, Services, Batch, Processed, crashed, passed, ingest, required,
  normalize_service, valid_price, unit_of, price_stages, process, is_overflow, number_of,
  Conversion, number, not_numeric, overflows, checked_stages, collect, process_all,
  process_observations, empty_batch,
}
use competitor_intelligence.Validation.Counts.{required-ingest, marked_same}

module _ (Price F : Type 0) (service : Services Price F) (has_session : Bool)
    (stores : Observation Price F → Bool) where
  number_fits : (c : Conversion F) (x : F) → number_of c ≡ some x → is_overflow c ≡ false
  unfolding number_of is_overflow
  number_fits (number y) x e = refl
  number_fits not_numeric x e = refl
  number_fits overflows x e = absurd (cc)

  valid_fits :
      (price : Price) (value : F)
      → valid_price Price F service price ≡ some value
      → is_overflow (service.to_float price) ≡ false
  unfolding valid_price
  valid_fits price value good = elim (Option-cases (number_of (service.to_float price))) [
    | inl bad ↦
        let refused' : valid_price Price F service price ≡ none = rw (bad, valid_price) refl in
        absurd (cc)
    | inr (x, e) ↦ number_fits (service.to_float price) x e
  ]

  price_stages_crash :
      (price : Price) (value : F) (r : Observation Price F)
      → valid_price Price F service price ≡ some value
      → r.pricing_unit ≡ is_none
      → price_stages Price F service price r ≡ crashed
  unfolding price_stages checked_stages unit_of
  price_stages_crash price value r good lost =
      let no_unit : unit_of Price F service r.pricing_unit ≡ none =
        subst (λ u. unit_of Price F service u ≡ none) (sym lost) refl in
      rw (valid_fits price value good, price_stages) (rw (good, checked_stages) (rw (no_unit) refl))

  process_crash :
      (seen : List String) (raw : Observation Price F) (name : String) (price : Price) (value : F)
      → required Price F service raw ≡ some (name, price)
      → valid_price Price F service price ≡ some value
      → raw.pricing_unit ≡ is_none
      → (process Price F service seen raw).0 ≡ crashed
  unfolding process normalize_service passed
  process_crash seen raw name price value there good lost =
      let there' : required Price F service (ingest Price F service raw) ≡ some (name, price) =
        required-ingest Price F service has_session stores raw ∙ there in
      rw (there', process)
        (price_stages_crash price value _ good
          ((marked_same Price F service has_session stores raw _).0 ∙ lost))

  collect_crash :
      (x : Processed Price F service) (seen : List String) (b : Batch Price F)
      → x ≡ crashed
      → collect Price F service has_session stores (x, seen) b ≡ none
  unfolding collect
  collect_crash x seen b e = rw e refl

  process_all_crash :
      (before after : List (Observation Price F)) (raw : Observation Price F) (b : Batch Price F)
      → ((seen : List String) → (process Price F service seen raw).0 ≡ crashed)
      → process_all Price F service has_session stores (before ++ raw ∷ after) b ≡ none
  unfolding process_all collect
  process_all_crash [] after raw b h =
      let x = process Price F service b.seen_hashes raw in
      let lost : collect Price F service has_session stores (x.0, x.1) b ≡ none =
        collect_crash x.0 x.1 b (h b.seen_hashes) in
      rw (lost, process_all) refl
  process_all_crash (r ∷ before) after raw b h =
      elim (Option-cases
        (collect Price F service has_session stores (process Price F service b.seen_hashes r) b)) [
          | inl lost ↦ rw (lost, process_all) refl
          | inr (b', step) ↦ rw (step, process_all) (process_all_crash before after raw b' h)
        ]

  -- One observation with a name and a positive price whose unit is None fails the whole batch,
  -- whatever stands before and after it.
  pub unit_none_loses_batch :
      (before after : List (Observation Price F)) (raw : Observation Price F) (name : String)
      (price : Price) (value : F)
      → required Price F service raw ≡ some (name, price)
      → valid_price Price F service price ≡ some value
      → raw.pricing_unit ≡ is_none
      → process_observations Price F service has_session stores (before ++ raw ∷ after) ≡ none
  unfolding process_observations
  unit_none_loses_batch before after raw name price value there good lost =
      process_all_crash before after raw (empty_batch Price F service has_session stores)
        (λ seen. process_crash seen raw name price value there good lost)

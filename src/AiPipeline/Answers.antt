-- ===== src/AiPipeline/Answers.antt =====
-- What an analysis rests on, and how often it asks the provider.
use competitor_intelligence.Base.{
  ℕ, ◌+◌, ◌≤◌, Bool, ◌⊎◌, Option, none, some, String, [], ◌∷◌, ◌++◌, length, length-append, ◌≡◌,
  refl, ap, arith, if_chosen,
}
use competitor_intelligence.LlmCache
use competitor_intelligence.LlmCache.{ResponseCodec, LlmCache}
use competitor_intelligence.AiPipeline.{
  Context, Insight, Tools, Analysis, World, State, validate_response, send, store_first,
  from_cached, finished, finish, repaired, judge, judge_raw,
}

module _ {R V Score Rest : Type 0} (codec : ResponseCodec R) (hash_prompt : String → String)
    (ttl : ℕ) (connects : Bool) (tools : Tools R V Score Rest) where
  abbrev pub Pipeline : Type 0
  Pipeline = State codec hash_prompt ttl connects tools

  module _ (w : World R) where
    -- A response that the cache holds, or that the provider gave in this run.
    abbrev pub Came : String → Pipeline → R → Type 0
    Came prompt s r =
        ((LlmCache.get codec hash_prompt ttl connects w.get_answers w.get_time prompt s.cache).0
          ≡ some r)
        ⊎ ((w.first_answer ≡ some r) ⊎ (w.repair_answer ≡ some r))

    module _ (context : Context V) where
      -- An analysis is made of a valid response.
      abbrev pub RestsOn : (R → Type 0) → Option (Analysis V Score Rest) → Type 0
      RestsOn P none = Unit
      RestsOn P (some a) =
          (r : R) × (i : Insight Score Rest) × (P r
            × (validate_response tools r ≡ some i)
            × (a ≡ finished tools context r i))

      module _ (prompt : String) (P : R → Type 0) (first : (r : R) → w.first_answer ≡ some r → P r)
          (repair : (r : R) → w.repair_answer ≡ some r → P r) where
        abbrev pub AllOf : Option R → Type 0
        AllOf none = Unit
        AllOf (some r) = P r

        store_first-AllOf :
            (o : Option R) (s : Pipeline)
            → ((r : R) → o ≡ some r → P r)
            → AllOf (store_first codec hash_prompt ttl connects tools w prompt o s).0
        unfolding store_first
        store_first-AllOf none s h = tt
        store_first-AllOf (some r) s h = h r refl

        pub from_cached-AllOf :
            (o : Option R) (s : Pipeline)
            → ((r : R) → o ≡ some r → P r)
            → AllOf (from_cached codec hash_prompt ttl connects tools w prompt o s).0
        unfolding from_cached
        from_cached-AllOf none s h = store_first-AllOf w.first_answer _ first
        from_cached-AllOf (some r) s h =
            if_chosen (λ (x : Option R × Pipeline). AllOf x.0) (tools.is_filled r) _ _
              (λ hit. h r refl) (λ empty. store_first-AllOf w.first_answer _ first)

        finish-RestsOn :
            (r : R) (v : Option (Insight Score Rest))
            → P r
            → validate_response tools r ≡ v
            → RestsOn P (finish tools context r v)
        unfolding finish
        finish-RestsOn r none p e = tt
        finish-RestsOn r (some i) p e = (r, i, (p, e, refl))

        repaired-RestsOn :
            (o : Option R) (s : Pipeline)
            → ((r : R) → o ≡ some r → P r)
            → RestsOn P (repaired codec hash_prompt ttl connects tools w prompt context o s).0
        unfolding repaired
        repaired-RestsOn none s h = tt
        repaired-RestsOn (some r) s h = finish-RestsOn r (validate_response tools r) (h r refl) refl

        judge-RestsOn :
            (r : R) (v : Option (Insight Score Rest)) (s : Pipeline)
            → P r
            → validate_response tools r ≡ v
            → RestsOn P (judge codec hash_prompt ttl connects tools w prompt context r v s).0
        unfolding judge
        judge-RestsOn r none s p e = repaired-RestsOn w.repair_answer _ repair
        judge-RestsOn r (some i) s p e = (r, i, (p, e, refl))

        pub judge_raw-RestsOn :
            (x : Option R × Pipeline)
            → AllOf x.0
            → RestsOn P (judge_raw codec hash_prompt ttl connects tools w prompt context x).0
        unfolding judge_raw
        judge_raw-RestsOn (none, s) h = tt
        judge_raw-RestsOn (some r, s) h = judge-RestsOn r (validate_response tools r) s h refl

    -- The prompts that were sent, after a run that may send two.
    abbrev pub SendsAtMost : ℕ → Pipeline → Pipeline → Type 0
    SendsAtMost n s s' = length s'.sent ≤ length s.sent + n

    module _ (prompt : String) where
      store_first-sent :
          (o : Option R) (s : Pipeline)
          → (store_first codec hash_prompt ttl connects tools w prompt o s).1.sent ≡ s.sent
      unfolding store_first
      store_first-sent none s = refl
      store_first-sent (some r) s = refl

      store_first-send :
          (o : Option R) (s : Pipeline)
          → SendsAtMost 1 s
              (store_first codec hash_prompt ttl connects tools w prompt o
                (send codec hash_prompt ttl connects tools prompt s)).1
      unfolding send
      store_first-send o s = omega (
        arith,
        ap length (store_first-sent o (record s { sent = s.sent ++ prompt ∷ [] })),
        length-append {0} s.sent (prompt ∷ []),
      )

      pub from_cached-sends :
          (o : Option R) (s : Pipeline)
          → SendsAtMost 1 s (from_cached codec hash_prompt ttl connects tools w prompt o s).1
      unfolding from_cached
      from_cached-sends none s = store_first-send w.first_answer s
      from_cached-sends (some r) s =
          if_chosen (λ (x : Option R × Pipeline). SendsAtMost 1 s x.1) (tools.is_filled r) _ _
            (λ hit. omega arith) (λ empty. store_first-send w.first_answer s)

      pub repaired-sent :
          (context : Context V) (o : Option R) (s : Pipeline)
          → (repaired codec hash_prompt ttl connects tools w prompt context o s).1.sent ≡ s.sent
      unfolding repaired
      repaired-sent context none s = refl
      repaired-sent context (some r) s = refl

      judge-sends :
          (context : Context V) (r : R) (v : Option (Insight Score Rest)) (s : Pipeline)
          → SendsAtMost 1 s (judge codec hash_prompt ttl connects tools w prompt context r v s).1
      unfolding judge send
      judge-sends context r none s =
          let asked : Pipeline = record s { sent = s.sent ++ tools.repair_prompt prompt r ∷ [] } in
          omega (
            arith,
            ap length (repaired-sent context w.repair_answer asked),
            length-append {0} s.sent (tools.repair_prompt prompt r ∷ []),
          )
      judge-sends context r (some i) s = omega arith

      pub judge_raw-sends :
          (context : Context V) (x : Option R × Pipeline)
          → SendsAtMost 1 x.1 (judge_raw codec hash_prompt ttl connects tools w prompt context x).1
      unfolding judge_raw
      judge_raw-sends context (none, s) = omega arith
      judge_raw-sends context (some r, s) = judge-sends context r (validate_response tools r) s

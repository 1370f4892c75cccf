-- ===== src/AiPipeline/Poisoned.antt =====
-- A response that fails the validation, and the cache.
use competitor_intelligence.Base.{
  ℕ, ◌+◌, ◌≤◌, ◌<◌, Bool, true, Option, none, some, String, [], ◌∷◌, ◌++◌, if◌then◌else◌, ◌≡◌, sym,
  ap, ◌∙◌,
}
use competitor_intelligence.LlmCache
use competitor_intelligence.LlmCache.{ResponseCodec, LlmCache}
use competitor_intelligence.LlmCache.Outages.{set-get, invalidate-get}
use competitor_intelligence.AiPipeline.{
  RawData, prepare_context, Tools, Analysis, World, validate_response, send, store_first,
  from_cached, raw_response, repaired, judge, judge_raw, with_prompt, run_analysis,
}
use competitor_intelligence.AiPipeline.Answers.{Pipeline, repaired-sent}

module _ {R V Score Rest : Type 0} (codec : ResponseCodec R) (hash_prompt : String → String)
    (ttl : ℕ) (connects : Bool) (tools : Tools R V Score Rest) where
  module _ (w : World R) (raw : RawData V) (prompt : String) (r : R)
      (s : Pipeline codec hash_prompt ttl connects tools)
      (built : tools.build_prompt (prepare_context raw) ≡ some prompt)
      (invalid : validate_response tools r ≡ none) where
    abbrev read : Option R × LlmCache R codec.Text
    read = LlmCache.get codec hash_prompt ttl connects w.get_answers w.get_time prompt s.cache

    abbrev after_read : Pipeline codec hash_prompt ttl connects tools
    after_read = record s { cache = read.1 }

    -- the cache of an invalid answer, and the prompts sent for it
    abbrev poisoned : Pipeline codec hash_prompt ttl connects tools
    poisoned = record {
      cache = LlmCache.set codec hash_prompt ttl connects w.set_answers w.set_time prompt r read.1;
      sent = (s.sent ++ prompt ∷ []) ++ tools.repair_prompt prompt r ∷ [];
    }

    -- The provider answers with an invalid response.
    invalid_run :
        read.0 ≡ none
        → w.first_answer ≡ some r
        → run_analysis codec hash_prompt ttl connects tools w raw s
          ≡ repaired codec hash_prompt ttl connects tools w prompt
              (prepare_context raw)
              w.repair_answer
              poisoned
    unfolding run_analysis with_prompt raw_response from_cached store_first judge_raw judge send
    invalid_run missed first =
        let context = prepare_context raw in
        ap (λ o. with_prompt codec hash_prompt ttl connects tools w context o s) built
        ∙ ap
            (λ o.
              judge_raw codec hash_prompt ttl connects tools w prompt context
                (from_cached codec hash_prompt ttl connects tools w prompt o after_read))
            missed
        ∙ ap
            (λ o. judge_raw codec hash_prompt ttl connects tools w prompt context (
              store_first codec hash_prompt ttl connects tools w prompt o
                (send codec hash_prompt ttl connects tools prompt after_read)))
            first
        ∙ ap
            (λ v. judge codec hash_prompt ttl connects tools w prompt context r v (record {
              cache =
                  LlmCache.set codec hash_prompt ttl connects w.set_answers w.set_time prompt r
                    read.1;
              sent = s.sent ++ prompt ∷ [];
            }))
            invalid

    -- A run that finds an invalid response in the cache.
    cached_run :
        read.0 ≡ some r
        → tools.is_filled r ≡ true
        → run_analysis codec hash_prompt ttl connects tools w raw s
          ≡ repaired codec hash_prompt ttl connects tools w prompt
              (prepare_context raw)
              w.repair_answer
              (send codec hash_prompt ttl connects tools (tools.repair_prompt prompt r) after_read)
    unfolding run_analysis with_prompt raw_response from_cached judge_raw judge
    cached_run hit filled =
        let context = prepare_context raw in
        ap (λ o. with_prompt codec hash_prompt ttl connects tools w context o s) built
        ∙ ap
            (λ o.
              judge_raw codec hash_prompt ttl connects tools w prompt context
                (from_cached codec hash_prompt ttl connects tools w prompt o after_read))
            hit
        ∙ ap
            (λ b. judge_raw codec hash_prompt ttl connects tools w prompt context (
              if b
              then (some r, after_read)
              else store_first codec hash_prompt ttl connects tools w prompt w.first_answer
                  (send codec hash_prompt ttl connects tools prompt after_read)))
            filled
        ∙ ap (λ v. judge codec hash_prompt ttl connects tools w prompt context r v after_read)
            invalid

    -- what the repair leaves when it raises
    failed_run :
        read.0 ≡ none
        → w.first_answer ≡ some r
        → w.repair_answer ≡ none
        → run_analysis codec hash_prompt ttl connects tools w raw s ≡ (none, poisoned)
    unfolding repaired
    failed_run missed first repair =
        invalid_run missed first
        ∙ ap
            (λ o.
              repaired codec hash_prompt ttl connects tools w prompt (prepare_context raw) o
                poisoned)
            repair

    -- If the first answer fails the validation and the provider answers the repair prompt, while
    -- Redis answers, then afterwards the cache holds nothing for the prompt, whether or not the
    -- repaired response is valid.
    pub repair_clears :
        (repair : R) (later : ℕ) (answers : Bool)
        → read.0 ≡ none
        → w.first_answer ≡ some r
        → w.repair_answer ≡ some repair
        → w.invalidate_answers ≡ true
        → (LlmCache.get codec hash_prompt ttl connects answers later prompt
            (run_analysis codec hash_prompt ttl connects tools w raw s).1.cache).0
          ≡ none
    unfolding repaired
    repair_clears repair later answers missed first answered up =
        ap
          (λ (x : Option (Analysis V Score Rest) × Pipeline codec hash_prompt ttl connects tools).
            (LlmCache.get codec hash_prompt ttl connects answers later prompt x.1.cache).0)
          (invalid_run missed first
            ∙ ap
                (λ o.
                  repaired codec hash_prompt ttl connects tools w prompt (prepare_context raw) o
                    poisoned)
                answered)
        ∙ ap
            (λ b.
              (LlmCache.get codec hash_prompt ttl connects answers later prompt
                (LlmCache.invalidate codec hash_prompt ttl connects b prompt poisoned.cache)).0)
            up
        ∙ invalidate-get codec hash_prompt ttl connects answers later prompt poisoned.cache

  -- If the cache misses, the provider answers with a response that is not empty and fails the
  -- validation, and then raises at the repair prompt, the run fails and leaves that response in the
  -- cache: a run within the time to live, with Redis answering as before, is not given a new answer
  -- to the prompt, it only sends the repair prompt again.
  pub invalid_stays :
      (w w' : World R) (raw : RawData V) (prompt : String) (r : R)
      (s : Pipeline codec hash_prompt ttl connects tools)
      → tools.build_prompt (prepare_context raw) ≡ some prompt
      → validate_response tools r ≡ none
      → tools.is_filled r ≡ true
      → (LlmCache.get codec hash_prompt ttl connects w.get_answers w.get_time prompt s.cache).0
        ≡ none
      → w.first_answer ≡ some r
      → w.repair_answer ≡ none
      → w'.get_answers ≡ w.set_answers
      → w.set_time ≤ w'.get_time
      → w'.get_time < w.set_time + ttl
      → let run = run_analysis codec hash_prompt ttl connects tools w raw s in
        (run.0 ≡ none)
        × ((run_analysis codec hash_prompt ttl connects tools w' raw run.1).1.sent
            ≡ run.1.sent ++ tools.repair_prompt prompt r ∷ [])
  unfolding send
  invalid_stays w w' raw prompt r s built invalid filled missed first repair same after young =
      let run = failed_run w raw prompt r s built invalid missed first repair in
      let left = poisoned w raw prompt r s built invalid in
      let found =
        ap (λ b. (LlmCache.get codec hash_prompt ttl connects b w'.get_time prompt left.cache).0)
          same
        ∙ set-get codec hash_prompt ttl connects w.set_answers w.set_time w'.get_time prompt r
            (read w raw prompt r s built invalid).1 young after in
      let again = cached_run w' raw prompt r left built invalid found filled in
      let asked = after_read w' raw prompt r left built invalid in
      (
        ap
            (λ (x : Option (Analysis V Score Rest) × Pipeline codec hash_prompt ttl connects tools).
              x.0)
            run,
        ap
              (λ (x : Option (Analysis V Score Rest)
                  × Pipeline codec hash_prompt ttl connects tools).
                (run_analysis codec hash_prompt ttl connects tools w' raw x.1).1.sent)
              run
            ∙ ap
                (λ (x : Option (Analysis V Score Rest)
                    × Pipeline codec hash_prompt ttl connects tools).
                  x.1.sent)
                again
            ∙ repaired-sent codec hash_prompt ttl connects tools w' prompt (prepare_context raw)
                w'.repair_answer
                (send codec hash_prompt ttl connects tools (tools.repair_prompt prompt r) asked)
            ∙ ap
                (λ (x : Option (Analysis V Score Rest)
                    × Pipeline codec hash_prompt ttl connects tools).
                  x.1.sent ++ tools.repair_prompt prompt r ∷ [])
                (sym run),
      )

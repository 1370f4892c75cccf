-- ===== src/AiPipeline/Runs.antt =====
-- A whole run of the pipeline.
use competitor_intelligence.Base.{ℕ, Bool, inl, inr, some, String, ◌≡◌, sym, subst, arith}
use competitor_intelligence.LlmCache
use competitor_intelligence.LlmCache.{ResponseCodec, LlmCache}
use competitor_intelligence.AiPipeline.{
  RawData, Context, prepare_context, Tools, World, from_cached, raw_response, with_prompt,
  run_analysis,
}
use competitor_intelligence.AiPipeline.Answers.{
  Pipeline, Came, RestsOn, from_cached-AllOf, judge_raw-RestsOn, SendsAtMost, from_cached-sends,
  judge_raw-sends,
}

module _ {R V Score Rest : Type 0} (codec : ResponseCodec R) (hash_prompt : String → String)
    (ttl : ℕ) (connects : Bool) (tools : Tools R V Score Rest) (w : World R) where
  -- the run, once the prompt is known
  with_prompt-RestsOn :
      (context : Context V) (prompt : String) (s : Pipeline codec hash_prompt ttl connects tools)
      → RestsOn codec hash_prompt ttl connects tools w context
          (Came codec hash_prompt ttl connects tools w prompt s)
          (with_prompt codec hash_prompt ttl connects tools w context (some prompt) s).0
        × SendsAtMost codec hash_prompt ttl connects tools w 2 s
            (with_prompt codec hash_prompt ttl connects tools w context (some prompt) s).1
  unfolding with_prompt raw_response
  with_prompt-RestsOn context prompt s =
      let read =
        LlmCache.get codec hash_prompt ttl connects w.get_answers w.get_time prompt s.cache in
      let s1 : Pipeline codec hash_prompt ttl connects tools = record s { cache = read.1 } in
      let first = from_cached codec hash_prompt ttl connects tools w prompt read.0 s1 in
      let P = Came codec hash_prompt ttl connects tools w prompt s in
      (
        judge_raw-RestsOn codec hash_prompt ttl connects tools w context prompt P
            (λ r e. inr (inl e)) (λ r e. inr (inr e)) first
            (from_cached-AllOf codec hash_prompt ttl connects tools w context prompt P
              (λ r e. inr (inl e)) (λ r e. inr (inr e)) read.0 s1 (λ r e. inl e)),
        omega (
          arith,
          judge_raw-sends codec hash_prompt ttl connects tools w prompt context first,
          from_cached-sends codec hash_prompt ttl connects tools w prompt read.0 s1,
        ),
      )

  -- Once the prompt is built, a run returns an analysis only of a response that passed the
  -- validation, with the confidence blended from the data quality and its own, and that response is
  -- the one in the cache, the first answer of the provider or its answer to the repair prompt. At
  -- most two prompts are sent.
  pub run_analysis-RestsOn :
      (raw : RawData V) (prompt : String) (s : Pipeline codec hash_prompt ttl connects tools)
      → tools.build_prompt (prepare_context raw) ≡ some prompt
      → RestsOn codec hash_prompt ttl connects tools w
          (prepare_context raw)
          (Came codec hash_prompt ttl connects tools w prompt s)
          (run_analysis codec hash_prompt ttl connects tools w raw s).0
        × SendsAtMost codec hash_prompt ttl connects tools w 2 s
            (run_analysis codec hash_prompt ttl connects tools w raw s).1
  unfolding run_analysis
  run_analysis-RestsOn raw prompt s e =
      subst
        (λ o.
          RestsOn codec hash_prompt ttl connects tools w (prepare_context raw)
            (Came codec hash_prompt ttl connects tools w prompt s)
            (with_prompt codec hash_prompt ttl connects tools w (prepare_context raw) o s).0
          × SendsAtMost codec hash_prompt ttl connects tools w 2 s
              (with_prompt codec hash_prompt ttl connects tools w (prepare_context raw) o s).1)
        (sym e) (with_prompt-RestsOn (prepare_context raw) prompt s)

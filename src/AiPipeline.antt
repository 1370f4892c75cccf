-- ===== src/AiPipeline.antt =====
-- `AIPipeline` (app/ai/application/pipeline.py) over the cache of LlmCache. The schema, the prompts
-- and the scores, which work on floats, are parameters; the provider is given by its answer to each
-- call, `none` where it raises. Any exception becomes a `PipelineError`.
pub mod Answers
pub mod Runs
pub mod Poisoned
use competitor_intelligence.Base.{
  ℕ, ◌+◌, Bool, true, false, not, ◌||◌, Option, none, some, String, List, [], ◌∷◌, ◌++◌, length,
  ltb, if◌then◌else◌, Text,
}
use competitor_intelligence.LlmCache
use competitor_intelligence.LlmCache.{ResponseCodec, LlmCache}

-- A value of the raw data; its items, entries and other values do not matter.
pub data RawValue (V : Type 0) : Type 0 where
  items : List V → RawValue V
  entries : List (String × V) → RawValue V
  other : V → RawValue V

pub record RawData (V : Type 0) : Type 0 where
  pub name : Option String
  pub url : Option String
  pub services : Option (RawValue V)
  pub pricing : Option (RawValue V)
  pub content : Option (RawValue V)
  pub social : Option (RawValue V)
  pub extracted : Option (RawValue V)

pub record Context (V : Type 0) : Type 0 where
  pub competitor_name : String
  pub competitor_url : String
  pub services : List V
  pub pricing : List V
  pub content : List V
  pub social : List V
  pub extracted_data : List (String × V)

abbrev pub string_or : String → Option String → String
string_or d none = d
string_or d (some s) = s

module _ {V : Type 0} where
  -- `x if isinstance(x, list) else []`
  unfoldable pub list_or_empty : Option (RawValue V) → List V
  list_or_empty none = []
  list_or_empty (some (items xs)) = xs
  list_or_empty (some (entries es)) = []
  list_or_empty (some (other v)) = []

  unfoldable pub dict_or_empty : Option (RawValue V) → List (String × V)
  dict_or_empty none = []
  dict_or_empty (some (items xs)) = []
  dict_or_empty (some (entries es)) = es
  dict_or_empty (some (other v)) = []

  unfoldable pub prepare_context : RawData V → Context V
  prepare_context raw = record {
    competitor_name = string_or "Unknown" raw.name;
    competitor_url = string_or "" raw.url;
    services = list_or_empty raw.services;
    pricing = list_or_empty raw.pricing;
    content = list_or_empty raw.content;
    social = list_or_empty raw.social;
    extracted_data = dict_or_empty raw.extracted;
  }

-- `AIInsightResponse`, as far as the pipeline looks at it; `rest` are the other fields.
pub record Insight (Score Rest : Type 0) : Type 0 where
  pub confidence_score : Score
  pub summary : Text
  pub rest : Rest

-- What is read from a response `R` and from scores, and how prompts are made.
pub record Tools (R V Score Rest : Type 0) : Type 0 where
  pub parse : R → Option (Insight Score Rest)
  pub is_filled : R → Bool
  pub token_usage : R → Option V
  pub below_zero : Score → Bool
  pub above_one : Score → Bool
  pub calculate_data_quality : Context V → Score
  pub blend : Score → Score → Score
  pub build_prompt : Context V → Option String
  pub repair_prompt : String → R → String

pub record Analysis (V Score Rest : Type 0) : Type 0 where
  pub insight : Insight Score Rest
  pub data_quality_score : Score
  pub usage : Option V

-- The clock, whether Redis answers, at the three calls of the cache, and what the provider answers to
-- the first prompt and to the repair prompt.
pub record World (R : Type 0) : Type 0 where
  pub get_time : ℕ
  pub set_time : ℕ
  pub get_answers : Bool
  pub set_answers : Bool
  pub invalidate_answers : Bool
  pub first_answer : Option R
  pub repair_answer : Option R

module _ {R V Score Rest : Type 0} (tools : Tools R V Score Rest) where
  -- the checks of `validate_response` after the schema
  unfoldable pub is_valid : Insight Score Rest → Bool
  is_valid i = not (
      tools.below_zero i.confidence_score
      || tools.above_one i.confidence_score
      || ltb (length i.summary) 10)

  unfoldable pub check_insight : Option (Insight Score Rest) → Option (Insight Score Rest)
  check_insight none = none
  check_insight (some i) = if is_valid i then some i else none

  unfoldable pub validate_response : R → Option (Insight Score Rest)
  validate_response r = check_insight (tools.parse r)

  -- steps 7 and 8
  unfoldable pub finished : Context V → R → Insight Score Rest → Analysis V Score Rest
  finished context r i =
      let quality = tools.calculate_data_quality context in
      record {
        insight = record i { confidence_score = tools.blend quality i.confidence_score };
        data_quality_score = quality;
        usage = tools.token_usage r;
      }

  unfoldable pub finish :
      Context V → R → Option (Insight Score Rest) → Option (Analysis V Score Rest)
  finish context r none = none
  finish context r (some i) = some (finished context r i)

module _ {R V Score Rest : Type 0} (codec : ResponseCodec R) (hash_prompt : String → String)
    (ttl : ℕ) (connects : Bool) (tools : Tools R V Score Rest) where
  -- The cache, and the prompts that were sent to the provider.
  pub record State : Type 0 where
    pub cache : LlmCache R codec.Text
    pub sent : List String

  unfoldable pub send : String → State → State
  send prompt s = record s { sent = s.sent ++ prompt ∷ [] }

  module _ (w : World R) (prompt : String) where
    unfoldable pub store_first : Option R → State → Option R × State
    store_first none s = (none, s)
    store_first (some r) s = (
      some r,
      record s {
        cache =
            LlmCache.set codec hash_prompt ttl connects w.set_answers w.set_time prompt r s.cache;
      },
    )

    -- the response of the cache, or of the provider, which is cached
    unfoldable pub from_cached : Option R → State → Option R × State
    from_cached none s = store_first w.first_answer (send prompt s)
    from_cached (some r) s =
        if tools.is_filled r then (some r, s) else store_first w.first_answer (send prompt s)

    unfoldable pub raw_response : State → Option R × State
    raw_response s =
        let (cached, cache) =
          LlmCache.get codec hash_prompt ttl connects w.get_answers w.get_time prompt s.cache in
        from_cached cached (record s { cache = cache })

    -- after the repair prompt was sent
    unfoldable pub repaired : Context V → Option R → State → Option (Analysis V Score Rest) × State
    repaired context none s = (none, s)
    repaired context (some r) s = (
      finish tools context r (validate_response tools r),
      record s {
        cache =
            LlmCache.invalidate codec hash_prompt ttl connects w.invalidate_answers prompt s.cache;
      },
    )

    unfoldable pub judge :
        Context V → R → Option (Insight Score Rest) → State → Option (Analysis V Score Rest) × State
    judge context r (some i) s = (some (finished tools context r i), s)
    judge context r none s =
        repaired context w.repair_answer (send (tools.repair_prompt prompt r) s)

    unfoldable pub judge_raw : Context V → Option R × State → Option (Analysis V Score Rest) × State
    judge_raw context (none, s) = (none, s)
    judge_raw context (some r, s) = judge context r (validate_response tools r) s

  unfoldable pub with_prompt :
      World R → Context V → Option String → State → Option (Analysis V Score Rest) × State
  with_prompt w context none s = (none, s)
  with_prompt w context (some prompt) s = judge_raw w prompt context (raw_response w prompt s)

  unfoldable pub run_analysis : World R → RawData V → State → Option (Analysis V Score Rest) × State
  run_analysis w raw s =
      let context = prepare_context raw in with_prompt w context (tools.build_prompt context) s

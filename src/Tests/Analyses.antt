-- ===== src/Tests/Analyses.antt =====
-- The pipeline of analyses with a small response type: a response is its confidence, valid up to 10.
use competitor_intelligence.Base.{
  ℕ, ◌+◌, ◌≡◌, refl, arith, true, false, ltb, Option, none, some, String, [], ◌∷◌, ◌++◌, codes,
  ℕ_discrete,
}
use competitor_intelligence.Dict.{lookup, nat_key}
use competitor_intelligence.AiWorker.{Store, Writes, completed, process_task}
use competitor_intelligence.AiWorker.Tasks.{Settles, process_task-Settles, first_failure_unseen}
use competitor_intelligence.LlmCache.{ResponseCodec, get, get_redis, from_redis, from_entry}
use competitor_intelligence.AiPipeline.{
  RawData, Context, Insight, Tools, World, State, is_valid, check_insight, validate_response,
  prepare_context, run_analysis,
}
use competitor_intelligence.AiPipeline.Answers.{Came, RestsOn, SendsAtMost}
use competitor_intelligence.AiPipeline.Runs.{run_analysis-RestsOn}
use competitor_intelligence.AiPipeline.Poisoned.{invalid_stays}

abbrev codec : ResponseCodec ℕ
codec = record {
  Text = Option ℕ;
  dumps = some;
  loads = λ t. t;
  is_empty = λ t. false;
  loads-dumps = λ r. refl;
  is_empty-dumps = λ r. refl;
}

abbrev hash_prompt : String → String
hash_prompt prompt = prompt

abbrev read : ℕ → Option (Insight ℕ ℕ)
read r = some (record { confidence_score = r; summary = codes "a long summary"; rest = 0 })

abbrev build : Context ℕ → Option String
build context = some "prompt"

abbrev tools : Tools ℕ ℕ ℕ ℕ
tools = record {
  parse = read;
  is_filled = λ r. true;
  token_usage = λ r. none;
  below_zero = λ c. false;
  above_one = λ c. ltb 10 c;
  calculate_data_quality = λ context. 5;
  blend = λ q c. q + c;
  build_prompt = build;
  repair_prompt = λ prompt r. "repair";
}

abbrev raw : RawData ℕ
raw = record {
  name = some "a";
  url = none;
  services = none;
  pricing = none;
  content = none;
  social = none;
  extracted = none;
}

abbrev start : State codec hash_prompt 60 false tools
start = record {
  cache = record { memory_cache = []; redis_client = false; redis_attempted = true; server = [] };
  sent = [];
}

-- The provider answers 20, which is out of range, and to the repair prompt as given.
abbrev world : Option ℕ → ℕ → World ℕ
world repair time = record {
  get_time = time;
  set_time = time;
  get_answers = true;
  set_answers = true;
  invalidate_answers = true;
  first_answer = some 20;
  repair_answer = repair;
}

run_analysis-RestsOn_example :
    RestsOn codec hash_prompt 60 false tools
      (world (some 7) 1)
      (prepare_context raw)
      (Came codec hash_prompt 60 false tools (world (some 7) 1) "prompt" start)
      (run_analysis codec hash_prompt 60 false tools (world (some 7) 1) raw start).0
    × SendsAtMost codec hash_prompt 60 false tools
        (world (some 7) 1)
        2
        start
        (run_analysis codec hash_prompt 60 false tools (world (some 7) 1) raw start).1
run_analysis-RestsOn_example =
    run_analysis-RestsOn codec hash_prompt 60 false tools (world (some 7) 1) raw "prompt" start refl

twenty_invalid : validate_response tools 20 ≡ none
unfolding validate_response check_insight is_valid
twenty_invalid = refl

start_misses : (get codec hash_prompt 60 false true 1 "prompt" start.cache).0 ≡ none
unfolding get get_redis from_redis from_entry lookup
start_misses = refl

invalid_stays_example :
    ((run_analysis codec hash_prompt 60 false tools (world none 1) raw start).0 ≡ none)
    × ((run_analysis codec hash_prompt 60 false tools
          (world (some 7) 30)
          raw
          (run_analysis codec hash_prompt 60 false tools (world none 1) raw start).1).1.sent
        ≡ (run_analysis codec hash_prompt 60 false tools (world none 1) raw start).1.sent
          ++ "repair" ∷ [])
invalid_stays_example =
    invalid_stays codec hash_prompt 60 false tools (world none 1) (world (some 7) 30) raw "prompt"
      20 start refl twenty_invalid refl start_misses refl refl refl (omega arith) (omega arith)

abbrev writes : Writes
writes = record {
  processing_ok = true;
  save_ok = true;
  completed_ok = true;
  failed_ok = true;
  letter_ok = true;
}

abbrev table : Store ℕ
table = record {
  insights = (3, record { insight = 5; status = completed }) ∷ [];
  dead_letters = [];
}

process_task-Settles_example : Settles 3 true table (process_task 3 writes true (some 8) table)
process_task-Settles_example = process_task-Settles 3 writes true (some 8) table

four_absent : lookup 4 table.insights ≡ none
unfolding lookup ℕ_discrete
four_absent = refl

first_failure_unseen_example : (process_task 4 writes true none table).1.insights ≡ table.insights
first_failure_unseen_example = first_failure_unseen 4 writes table four_absent

-- ===== src/Tests/Ordering.antt =====
-- The orderer of strategies at concrete statistics, with tenths of natural numbers for floats.
use mathlib.Core.List.{Perm}
use competitor_intelligence.Sorting.{sort_by, insert_by}
use competitor_intelligence.Base.{
  ℕ, ◌+◌, ◌-◌, ◌*◌, ◌/◌, max, String, List, [], ◌∷◌, ltb, ◌==◌, ◌≡◌, refl, arith, string_discrete,
}
use competitor_intelligence.Dict.{Dict, lookup, insert}
use competitor_intelligence.Sorting.Order.{IsSorted}
use competitor_intelligence.Adaptive.{
  record_success, record_failure, Scored, is_below, names_of, rank_strategies, score_from,
  get_stats, get_known,
}
use competitor_intelligence.Adaptive.Stats.{
  Floats, StrategyStats, composite_score, success_rate, average_confidence, average_time_ms,
  note_success, note_failure,
}
use competitor_intelligence.Adaptive.Files.{missing, holds, written, load_stats, save_stats}
use competitor_intelligence.Adaptive.Files.Reload.{
  loaded, succeeded, failed, Reachable, Reachable-reload,
}
use competitor_intelligence.Adaptive.Ranking.{
  has_lower, KeepsTies, Compares, scores, rank_strategies-IsSorted,
}

abbrev fixed : Floats ℕ
fixed = record {
  zero_f = 0;
  tenths = λ n. n;
  of_int = λ n. n * 10;
  add = λ a b. a + b;
  sub = λ a b. a - b;
  mul = λ a b. a * b / 10;
  div = λ a b. a * 10 / b;
  max_f = λ a b. max a b;
  eq = λ a b. a == b;
  lt = λ a b. ltb a b;
}

fixed_compares : Compares fixed
fixed_compares = record {
  eq_iff = λ a b. ground arith;
  asym = λ a b h. ground arith;
  trans = λ a b c h k. ground arith;
}

abbrev table : Dict String (StrategyStats ℕ)
table =
    record_success fixed "css" 9 2000 (record_failure fixed "regex" 9000 (load_stats fixed missing))

strategies_ranked :
    (rank_strategies fixed ("regex" ∷ "llm" ∷ "css" ∷ []) table).0 ≡ "css" ∷ "llm" ∷ "regex" ∷ []
unfolding rank_strategies names_of sort_by score_from insert_by is_below composite_score
    success_rate get_stats get_known lookup record_success insert record_failure load_stats
    string_discrete average_confidence average_time_ms note_success note_failure
strategies_ranked = refl

table_reached : Reachable fixed table
table_reached = succeeded "css" 9 2000 (failed "regex" 9000 (loaded missing))

Reachable-reload_example : load_stats fixed (save_stats fixed written table (holds [])) ≡ table
Reachable-reload_example = Reachable-reload fixed (holds []) table_reached

rank_strategies-IsSorted_example :
    (scored : List (Scored fixed)) × ((rank_strategies fixed ("regex" ∷ "llm" ∷ "css" ∷ []) table).0
      ≡ names_of fixed scored)
    × Perm scored (scores fixed 0 ("regex" ∷ "llm" ∷ "css" ∷ []) table)
    × IsSorted (has_lower fixed) scored
    × KeepsTies fixed scored (scores fixed 0 ("regex" ∷ "llm" ∷ "css" ∷ []) table)
rank_strategies-IsSorted_example =
    rank_strategies-IsSorted fixed ("regex" ∷ "llm" ∷ "css" ∷ []) table fixed_compares

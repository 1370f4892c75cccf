-- ===== src/Adaptive/Stats.antt =====
-- `StrategyStats`: the record of one strategy and its composite score.
use competitor_intelligence.Base.{ℕ, ◌+◌, Bool, String, ◌==◌, if◌then◌else◌, Text, []}

-- What the code does with floats: literals in tenths, and the conversion of an integer.
pub record Floats (F : Type 0) : Type 0 where
  pub zero_f : F
  pub tenths : ℕ → F
  pub of_int : ℕ → F
  pub add : F → F → F
  pub sub : F → F → F
  pub mul : F → F → F
  pub div : F → F → F
  pub max_f : F → F → F
  pub eq : F → F → Bool
  pub lt : F → F → Bool

pub record StrategyStats (F : Type 0) : Type 0 where
  pub name : String
  pub total_runs : ℕ
  pub successful_runs : ℕ
  pub failed_runs : ℕ
  pub total_confidence : F
  pub total_time_ms : F
  pub last_updated : Text

-- `StrategyStats(name=…)`
abbrev pub new_stats : {F : Type 0} → String → F → StrategyStats F
new_stats name zero_f = record {
  name = name;
  total_runs = 0;
  successful_runs = 0;
  failed_runs = 0;
  total_confidence = zero_f;
  total_time_ms = zero_f;
  last_updated = [];
}

module _ {F : Type 0} (fl : Floats F) where
  unfoldable pub success_rate : StrategyStats F → F
  success_rate s =
      if s.total_runs == 0
      then fl.tenths 5
      else fl.div (fl.of_int s.successful_runs) (fl.of_int s.total_runs)

  unfoldable pub average_confidence : StrategyStats F → F
  average_confidence s =
      if s.successful_runs == 0
      then fl.zero_f
      else fl.div s.total_confidence (fl.of_int s.successful_runs)

  unfoldable pub average_time_ms : StrategyStats F → F
  average_time_ms s =
      if s.total_runs == 0 then fl.tenths 1000 else fl.div s.total_time_ms (fl.of_int s.total_runs)

  unfoldable pub composite_score : StrategyStats F → F
  composite_score s =
      let speed_score =
        fl.max_f fl.zero_f (fl.sub (fl.tenths 10) (fl.div (average_time_ms s) (fl.tenths 10000))) in
      fl.add
        (fl.add (fl.mul (success_rate s) (fl.tenths 5))
          (fl.mul (average_confidence s) (fl.tenths 3)))
        (fl.mul speed_score (fl.tenths 2))

  -- the methods `record_success` and `record_failure` of the statistics
  unfoldable pub note_success : F → F → StrategyStats F → StrategyStats F
  note_success confidence time_ms s = record s {
    total_runs = s.total_runs + 1;
    successful_runs = s.successful_runs + 1;
    total_confidence = fl.add s.total_confidence confidence;
    total_time_ms = fl.add s.total_time_ms time_ms;
  }

  unfoldable pub note_failure : F → StrategyStats F → StrategyStats F
  note_failure time_ms s = record s {
    total_runs = s.total_runs + 1;
    failed_runs = s.failed_runs + 1;
    total_time_ms = fl.add s.total_time_ms time_ms;
  }

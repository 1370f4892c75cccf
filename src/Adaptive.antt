-- ===== src/Adaptive.antt =====
-- `AdaptiveStrategyOrderer` (app/parsers/adaptive_orderer.py): the statistics of the parsing
-- strategies, their ranking, and the file that keeps them. The operations on floats are parameters,
-- and the file is given by what its text parses to.
pub mod Stats
pub mod Ranking
pub mod Files
use competitor_intelligence.Base.{
  ℕ, ◌+◌, Bool, true, false, Option, none, some, String, List, [], ◌∷◌, ltb, ◌==◌, if◌then◌else◌,
}
use competitor_intelligence.Dict.{Dict, string_key, lookup, insert}
use competitor_intelligence.Sorting.{sort_by}
use competitor_intelligence.Adaptive.Stats.{
  Floats, StrategyStats, new_stats, composite_score, note_success, note_failure,
}

module _ {F : Type 0} where
  -- `get_stats`
  unfoldable pub get_known :
      String
      → Option (StrategyStats F)
      → F
      → Dict String (StrategyStats F)
      → StrategyStats F × Dict String (StrategyStats F)
  get_known name none zero_f d = (new_stats name zero_f, insert name (new_stats name zero_f) d)
  get_known name (some s) zero_f d = (s, d)

module _ {F : Type 0} (fl : Floats F) where
  unfoldable pub get_stats :
      String → Dict String (StrategyStats F) → StrategyStats F × Dict String (StrategyStats F)
  get_stats name d = get_known name (lookup name d) fl.zero_f d

  -- The object that `get_stats` returns is the one in the table, so changing it changes the table.
  unfoldable pub record_success :
      String → F → F → Dict String (StrategyStats F) → Dict String (StrategyStats F)
  record_success name confidence time_ms d =
      let (s, d') = get_stats name d in insert name (note_success fl confidence time_ms s) d'

  unfoldable pub record_failure :
      String → F → Dict String (StrategyStats F) → Dict String (StrategyStats F)
  record_failure name time_ms d =
      let (s, d') = get_stats name d in insert name (note_failure fl time_ms s) d'

  -- an entry of `scored`
  pub record Scored : Type 0 where
    pub score : F
    pub place : ℕ
    pub strategy : String

  unfoldable pub score_from :
      ℕ → List String → Dict String (StrategyStats F) → List Scored × Dict String (StrategyStats F)
  score_from i [] d = ([], d)
  score_from i (name ∷ names) d =
      let (s, d') = get_stats name d in
      let (rest, d'') = score_from (i + 1) names d' in
      (record { score = composite_score fl s; place = i; strategy = name } ∷ rest, d'')

  -- the order of the keys `(x[0], -x[1])`
  unfoldable pub is_below : Scored → Scored → Bool
  is_below x y = if fl.eq x.score y.score then ltb y.place x.place else fl.lt x.score y.score

  unfoldable pub names_of : List Scored → List String
  names_of [] = []
  names_of (x ∷ xs) = x.strategy ∷ names_of xs

  unfoldable pub rank_strategies :
      List String → Dict String (StrategyStats F) → List String × Dict String (StrategyStats F)
  rank_strategies names d =
      let (scored, d') = score_from 0 names d in (names_of (sort_by is_below scored), d')

-- ===== src/Adaptive/Files.antt =====
-- `_load_stats` and `save_stats`: the table and the file of the statistics.
pub mod Reload
use competitor_intelligence.Base.{ℕ, Option, none, some, String, List, [], ◌∷◌}
use competitor_intelligence.Dict.{Dict, string_key, insert}
use competitor_intelligence.Adaptive.Stats.{Floats, StrategyStats, composite_score}

-- An entry of "strategies", each value of which may be missing. A value that is there is of the type
-- that `save_stats` writes: the code does not check it, and another one is not modelled.
pub record Entry (F : Type 0) : Type 0 where
  pub name : Option String
  pub total_runs : Option ℕ
  pub successful_runs : Option ℕ
  pub failed_runs : Option ℕ
  pub total_confidence : Option F
  pub total_time_ms : Option F
  pub composite : Option F

-- What stands at the path: nothing, a text that cannot be read or parsed, or a dictionary.
pub data StatsFile (F : Type 0) : Type 0 where
  missing unreadable : StatsFile F
  holds : (strategies : List (Entry F)) → StatsFile F

-- How `write_text` ends: it may fail before it opens the file, or in the middle.
pub data WriteOutcome : Type 0 where
  written refused cut_short : WriteOutcome

abbrev pub or_default : {A : Type 0} → A → Option A → A
or_default a none = a
or_default a (some b) = b

module _ {F : Type 0} (fl : Floats F) where
  abbrev pub stats_of : String → Entry F → StrategyStats F
  stats_of name e = record {
    name = name;
    total_runs = or_default 0 e.total_runs;
    successful_runs = or_default 0 e.successful_runs;
    failed_runs = or_default 0 e.failed_runs;
    total_confidence = or_default fl.zero_f e.total_confidence;
    total_time_ms = or_default fl.zero_f e.total_time_ms;
    last_updated = [];
  }

  -- An entry without a name raises, and the entries before it stay.
  unfoldable pub load_entries :
      List (Entry F) → Dict String (StrategyStats F) → Dict String (StrategyStats F)
  load_entries [] d = d
  load_entries (e ∷ es) d = elim e.name [
    | none ↦ d
    | some name ↦ load_entries es (insert name (stats_of name e) d)
  ]

  unfoldable pub load_stats : StatsFile F → Dict String (StrategyStats F)
  load_stats missing = []
  load_stats unreadable = []
  load_stats (holds es) = load_entries es []

  -- `to_dict`
  abbrev pub to_dict : StrategyStats F → Entry F
  to_dict s = record {
    name = some s.name;
    total_runs = some s.total_runs;
    successful_runs = some s.successful_runs;
    failed_runs = some s.failed_runs;
    total_confidence = some s.total_confidence;
    total_time_ms = some s.total_time_ms;
    composite = some (composite_score fl s);
  }

  unfoldable pub entries_of : Dict String (StrategyStats F) → List (Entry F)
  entries_of [] = []
  entries_of ((name, s) ∷ d) = to_dict s ∷ entries_of d

  unfoldable pub save_stats :
      WriteOutcome → Dict String (StrategyStats F) → StatsFile F → StatsFile F
  save_stats written d file = holds (entries_of d)
  save_stats refused d file = file
  save_stats cut_short d file = unreadable

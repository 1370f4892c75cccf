-- ===== src/Adaptive/Files/Reload.antt =====
-- A table that is saved and loaded again.
use mathlib.Core.Option.{some-injective}
use competitor_intelligence.Base.{
  ℕ, ◌+◌, Option, none, some, String, List, [], ◌∷◌, ◌++◌, append_assoc, append-nil, ite, Text,
  string_discrete, ◌≡◌, refl, sym, ap, ◌∙◌, subst, arith,
}
use competitor_intelligence.Dict.{Dict, string_key, lookup, insert, IsDistinct}
use competitor_intelligence.Dict.Laws.{insert_absent, insert-IsDistinct, lookup-append_last}
use competitor_intelligence.Adaptive.{
  get_known, get_stats, record_success, record_failure, score_from, rank_strategies,
}
use competitor_intelligence.Adaptive.Stats.{
  Floats, StrategyStats, note_success, note_failure, new_stats,
}
use competitor_intelligence.Adaptive.Files.{
  Entry, StatsFile, missing, unreadable, holds, written, stats_of, to_dict, load_entries,
  load_stats, entries_of, save_stats,
}

module _ {F : Type 0} where
  -- the statistics of a strategy, which nothing dates
  abbrev IsNamed : String → StrategyStats F → Type 0
  IsNamed name s = (s.name ≡ name) × (s.last_updated ≡ [])

  abbrev AreNamed : Dict String (StrategyStats F) → Type 0
  AreNamed [] = Unit
  AreNamed ((name, s) ∷ d) = IsNamed name s × AreNamed d

  -- Each strategy has one record, under its name.
  abbrev IsValid : Dict String (StrategyStats F) → Type 0
  IsValid d = IsDistinct d × AreNamed d

  insert-AreNamed :
      (name : String) (s : StrategyStats F) (d : Dict String (StrategyStats F))
      → IsNamed name s
      → AreNamed d
      → AreNamed (insert name s d)
  unfolding insert
  insert-AreNamed name s [] n h = (n, tt)
  insert-AreNamed name s ((k, t) ∷ d) n h =
      elim (string_discrete k name)
        as (λ q. AreNamed (ite q ((k, s) ∷ d) ((k, t) ∷ insert name s d))) [
          | yes e ↦ ((n.0 ∙ sym e, n.1), h.1)
          | no other ↦ (h.0, insert-AreNamed name s d n h.1)
        ]

  insert-IsValid :
      (name : String) (s : StrategyStats F) (d : Dict String (StrategyStats F))
      → IsNamed name s
      → IsValid d
      → IsValid (insert name s d)
  insert-IsValid name s d n h = (insert-IsDistinct name s d h.0, insert-AreNamed name s d n h.1)

  lookup-IsNamed :
      (name : String) (s : StrategyStats F) (d : Dict String (StrategyStats F))
      → AreNamed d
      → lookup name d ≡ some s
      → IsNamed name s
  unfolding lookup
  lookup-IsNamed name s [] h e = cc
  lookup-IsNamed name s ((k, t) ∷ d) h e =
      elim (string_discrete k name)
          as (λ q. ite q (some t) (lookup name d) ≡ some s → IsNamed name s) [
            | yes p ↦ λ g. subst (λ r. IsNamed name r) (some-injective t s g) (h.0.0 ∙ p, h.0.1)
            | no other ↦ λ g. lookup-IsNamed name s d h.1 g
          ]
        e

  get_known-IsValid :
      (name : String) (known : Option (StrategyStats F)) (zero_f : F)
      (d : Dict String (StrategyStats F))
      → lookup name d ≡ known
      → IsValid d
      → let r = get_known name known zero_f d in IsNamed name r.0 × IsValid r.1
  unfolding get_known
  get_known-IsValid name none zero_f d e h =
      ((refl, refl), insert-IsValid name (new_stats name zero_f) d (refl, refl) h)
  get_known-IsValid name (some s) zero_f d e h = (lookup-IsNamed name s d h.1 e, h)

module _ {F : Type 0} (fl : Floats F) where
  get_stats-IsValid :
      (name : String) (d : Dict String (StrategyStats F))
      → IsValid d
      → let r = get_stats fl name d in IsNamed name r.0 × IsValid r.1
  unfolding get_stats
  get_stats-IsValid name d h = get_known-IsValid name (lookup name d) fl.zero_f d refl h

  record_success-IsValid :
      (name : String) (confidence time_ms : F) (d : Dict String (StrategyStats F))
      → IsValid d
      → IsValid (record_success fl name confidence time_ms d)
  unfolding record_success note_success
  record_success-IsValid name confidence time_ms d h =
      let (n, v) = get_stats-IsValid name d h in insert-IsValid name _ _ n v

  record_failure-IsValid :
      (name : String) (time_ms : F) (d : Dict String (StrategyStats F))
      → IsValid d
      → IsValid (record_failure fl name time_ms d)
  unfolding record_failure note_failure
  record_failure-IsValid name time_ms d h =
      let (n, v) = get_stats-IsValid name d h in insert-IsValid name _ _ n v

  score_from-IsValid :
      (i : ℕ) (names : List String) (d : Dict String (StrategyStats F))
      → IsValid d
      → IsValid (score_from fl i names d).1
  unfolding score_from
  score_from-IsValid i [] d h = h
  score_from-IsValid i (name ∷ names) d h =
      score_from-IsValid (i + 1) names (get_stats fl name d).1 (get_stats-IsValid name d h).1

  rank_strategies-IsValid :
      (names : List String) (d : Dict String (StrategyStats F))
      → IsValid d
      → IsValid (rank_strategies fl names d).1
  unfolding rank_strategies
  rank_strategies-IsValid names d h = score_from-IsValid 0 names d h

  load_entries-IsValid :
      (es : List (Entry F)) (d : Dict String (StrategyStats F))
      → IsValid d
      → IsValid (load_entries fl es d)
  unfolding load_entries
  load_entries-IsValid [] d h = h
  load_entries-IsValid (e ∷ es) d h =
      elim e.name
        as (λ o. IsValid (elim o [
          | none ↦ d
          | some name ↦ load_entries fl es (insert name (stats_of fl name e) d)
        ])) [
          | none ↦ h
          | some name ↦
              load_entries-IsValid es (insert name (stats_of fl name e) d)
                (insert-IsValid name (stats_of fl name e) d (refl, refl) h)
        ]

  load_stats-IsValid : (file : StatsFile F) → IsValid (load_stats fl file)
  unfolding load_stats
  load_stats-IsValid missing = (tt, tt)
  load_stats-IsValid unreadable = (tt, tt)
  load_stats-IsValid (holds es) = load_entries-IsValid es [] (tt, tt)

  -- The tables of an orderer: loaded from some file, and changed by its methods.
  pub data Reachable : Dict String (StrategyStats F) → Type 0 where
    loaded : (file : StatsFile F) → Reachable (load_stats fl file)
    succeeded :
        {d : Dict String (StrategyStats F)} (name : String) (confidence time_ms : F)
        → Reachable d
        → Reachable (record_success fl name confidence time_ms d)
    failed :
        {d : Dict String (StrategyStats F)} (name : String) (time_ms : F)
        → Reachable d
        → Reachable (record_failure fl name time_ms d)
    ranked :
        {d : Dict String (StrategyStats F)} (names : List String)
        → Reachable d
        → Reachable (rank_strategies fl names d).1

  Reachable-IsValid : {d : Dict String (StrategyStats F)} → Reachable d → IsValid d
  Reachable-IsValid (loaded file) = load_stats-IsValid file
  Reachable-IsValid (succeeded {d} name confidence time_ms r) =
      record_success-IsValid name confidence time_ms d (Reachable-IsValid r)
  Reachable-IsValid (failed {d} name time_ms r) =
      record_failure-IsValid name time_ms d (Reachable-IsValid r)
  Reachable-IsValid (ranked {d} names r) = rank_strategies-IsValid names d (Reachable-IsValid r)

  -- no key of the second table is one of the first
  abbrev AreNew : Dict String (StrategyStats F) → Dict String (StrategyStats F) → Type 0
  AreNew acc [] = Unit
  AreNew acc ((name, s) ∷ d) = (lookup name acc ≡ none) × AreNew acc d

  AreNew-append :
      (name : String) (s : StrategyStats F) (acc d : Dict String (StrategyStats F))
      → lookup name acc ≡ none
      → lookup name d ≡ none
      → AreNew acc d
      → AreNew (acc ++ (name, s) ∷ []) d
  unfolding lookup
  AreNew-append name s acc [] absent new h = tt
  AreNew-append name s acc ((k, t) ∷ d) absent new h =
      ground
        (arith, lookup-append_last name k s acc absent, AreNew-append name s acc d absent, h, new)

  AreNew-nil : (d : Dict String (StrategyStats F)) → AreNew [] d
  unfolding lookup
  AreNew-nil [] = tt
  AreNew-nil ((name, s) ∷ d) = (refl, AreNew-nil d)

  abbrev dated : Text → StrategyStats F → StrategyStats F
  dated l s = record s { last_updated = l }

  stats_of-to_dict :
      (name : String) (s : StrategyStats F) → IsNamed name s → stats_of fl s.name (to_dict fl s) ≡ s
  stats_of-to_dict name s n = ap (λ l. dated l s) (sym n.1)

  load_entries-entries_of :
      (acc d : Dict String (StrategyStats F))
      → IsValid d
      → AreNew acc d
      → load_entries fl (entries_of fl d) acc ≡ acc ++ d
  unfolding load_entries entries_of
  load_entries-entries_of acc [] h new = sym (append-nil acc)
  load_entries-entries_of acc ((name, s) ∷ d) h new =
      let same : insert s.name (stats_of fl s.name (to_dict fl s)) acc ≡ acc ++ (name, s) ∷ [] =
        ap (λ k. insert k (stats_of fl s.name (to_dict fl s)) acc) h.1.0.0
        ∙ ap (λ r. insert name r acc) (stats_of-to_dict name s h.1.0)
        ∙ insert_absent name s acc new.0 in
      ap (λ a. load_entries fl (entries_of fl d) a) same
      ∙ load_entries-entries_of (acc ++ (name, s) ∷ []) d (h.0.1, h.1.1)
          (AreNew-append name s acc d new.0 h.0.0 new.1)
      ∙ append_assoc acc ((name, s) ∷ []) d

  -- Whatever file an orderer started from, and whatever it recorded and ranked since, the table
  -- that is written to a file is the one that the next orderer loads from it.
  pub Reachable-reload :
      {d : Dict String (StrategyStats F)} (file : StatsFile F)
      → Reachable d
      → load_stats fl (save_stats fl written d file) ≡ d
  unfolding load_stats save_stats
  Reachable-reload {d} file r = load_entries-entries_of [] d (Reachable-IsValid r) (AreNew-nil d)

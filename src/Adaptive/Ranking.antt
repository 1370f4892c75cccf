-- ===== src/Adaptive/Ranking.antt =====
-- What `rank_strategies` returns.
use mathlib.Core.List.{Perm}
use competitor_intelligence.Base.{
  All, ◌≤◌, Bool, true, false, if◌then◌else◌, ℕ, ◌+◌, true, false, not, ◌&&◌, Option, none, some,
  String, List, [], ◌∷◌, ite, string_discrete, ◌≡◌, refl, sym, ap, ◌∙◌, subst, arith,
}
use competitor_intelligence.Dict.{Dict, string_key, lookup}
use competitor_intelligence.Dict.Laws.{lookup-insert}
use competitor_intelligence.Sorting.{insert_by, sort_by}
use competitor_intelligence.Sorting.Order.{
  All-sort_by, IsSorted-coarse, IsSorted, IsWeakOrder, sort_by-Perm, sort_by-IsSorted,
}
use competitor_intelligence.Adaptive.{
  get_known, get_stats, Scored, score_from, is_below, names_of, rank_strategies,
}
use competitor_intelligence.Adaptive.Stats.{Floats, StrategyStats, new_stats, composite_score}

abbrev pub or_new : {F : Type 0} → String → F → Option (StrategyStats F) → StrategyStats F
or_new name zero_f none = new_stats name zero_f
or_new name zero_f (some s) = s

module _ {F : Type 0} (fl : Floats F) where
  -- The comparisons of floats that are numbers.
  pub record Compares : Type 0 where
    pub eq_iff : (a b : F) → fl.eq a b ≡ (not (fl.lt a b) && not (fl.lt b a))
    pub asym : (a b : F) → fl.lt a b ≡ true → fl.lt b a ≡ false
    pub trans : (a b c : F) → fl.lt a b ≡ false → fl.lt b c ≡ false → fl.lt a c ≡ false

  -- The composite scores at the start, that of new statistics for a strategy that has none, with the
  -- places in the list.
  abbrev pub scores : ℕ → List String → Dict String (StrategyStats F) → List (Scored fl)
  scores i [] d = []
  scores i (name ∷ names) d =
      record {
        score = composite_score fl (or_new name fl.zero_f (lookup name d));
        place = i;
        strategy = name;
      }
      ∷ scores (i + 1) names d

  new_or_new :
      (name other : String) (d : Dict String (StrategyStats F))
      → lookup name d ≡ none
      → or_new other fl.zero_f
          (ite (string_discrete name other) (some (new_stats name fl.zero_f)) (lookup other d))
        ≡ or_new other fl.zero_f (lookup other d)
  new_or_new name other d e =
      elim (string_discrete name other)
        as (λ q.
          or_new other fl.zero_f (ite q (some (new_stats name fl.zero_f)) (lookup other d))
          ≡ or_new other fl.zero_f (lookup other d)) [
            | yes p ↦
                ap (λ n. new_stats n fl.zero_f) p
                ∙ sym (ap (λ o. or_new other fl.zero_f o) (ap (λ n. lookup n d) (sym p) ∙ e))
            | no n ↦ refl
          ]

  -- reading the statistics of one strategy does not change what is read of another
  get_known_reads :
      (name other : String) (known : Option (StrategyStats F)) (d : Dict String (StrategyStats F))
      → lookup name d ≡ known
      → or_new other fl.zero_f (lookup other (get_known name known fl.zero_f d).1)
        ≡ or_new other fl.zero_f (lookup other d)
  unfolding get_known
  get_known_reads name other none d e =
      ap (λ o. or_new other fl.zero_f o) (lookup-insert name other (new_stats name fl.zero_f) d)
      ∙ new_or_new name other d e
  get_known_reads name other (some s) d e = refl

  scores-get_known :
      (name : String) (i : ℕ) (names : List String) (d : Dict String (StrategyStats F))
      → scores i names (get_known name (lookup name d) fl.zero_f d).1 ≡ scores i names d
  scores-get_known name i [] d = refl
  scores-get_known name i (other ∷ names) d =
      ap
        (λ s.
          record { score = composite_score fl s; place = i; strategy = other }
          ∷ scores (i + 1) names (get_known name (lookup name d) fl.zero_f d).1)
        (get_known_reads name other (lookup name d) d refl)
      ∙ ap
          (λ (rest : List (Scored fl)).
            record {
              score = composite_score fl (or_new other fl.zero_f (lookup other d));
              place = i;
              strategy = other;
            }
            ∷ rest)
          (scores-get_known name (i + 1) names d)

  get_known_first :
      (name : String) (known : Option (StrategyStats F)) (d : Dict String (StrategyStats F))
      → (get_known name known fl.zero_f d).0 ≡ or_new name fl.zero_f known
  unfolding get_known
  get_known_first name none d = refl
  get_known_first name (some s) d = refl

  score_from-scores :
      (i : ℕ) (names : List String) (d : Dict String (StrategyStats F))
      → (score_from fl i names d).0 ≡ scores i names d
  unfolding score_from get_stats
  score_from-scores i [] d = refl
  score_from-scores i (name ∷ names) d =
      let rest = score_from-scores (i + 1) names (get_known name (lookup name d) fl.zero_f d).1 in
      ap
        (λ s.
          record { score = composite_score fl s; place = i; strategy = name }
          ∷ (score_from fl (i + 1) names (get_known name (lookup name d) fl.zero_f d).1).0)
        (get_known_first name (lookup name d) d)
      ∙ ap
          (λ (r : List (Scored fl)).
            record {
              score = composite_score fl (or_new name fl.zero_f (lookup name d));
              place = i;
              strategy = name;
            }
            ∷ r)
          (rest ∙ scores-get_known name (i + 1) names d)

  abbrev pub has_lower : Scored fl → Scored fl → Bool
  has_lower x y = fl.lt x.score y.score

  -- those of one score, in their order
  abbrev pub with_score : F → List (Scored fl) → List (Scored fl)
  with_score s [] = []
  with_score s (x ∷ xs) = let rest = with_score s xs in if fl.eq x.score s then x ∷ rest else rest

  -- All of a score stand in the order of the other list.
  abbrev pub KeepsTies : List (Scored fl) → List (Scored fl) → Type 0
  KeepsTies xs ys = (s : F) → with_score s xs ≡ with_score s ys

  places :
      (i j : ℕ) (names : List String) (d : Dict String (StrategyStats F))
      → j ≤ i
      → All (λ (x : Scored fl). j ≤ x.place) (scores i names d)
  places i j [] d h = tt
  places i j (name ∷ names) d h = (h, places (i + 1) j names d (omega arith))

  module _ (c : Compares) where
    is_below-IsWeakOrder : IsWeakOrder (is_below fl)
    unfolding is_below
    is_below-IsWeakOrder = record {
      asym = λ x y h.
          ground
            (arith, c.eq_iff x.score y.score, c.eq_iff y.score x.score, c.asym x.score y.score);
      trans = λ x y z h k. ground (
        arith,
        c.eq_iff x.score y.score,
        c.eq_iff y.score z.score,
        c.eq_iff x.score z.score,
        c.asym x.score z.score,
        c.trans x.score y.score z.score,
        c.trans z.score y.score x.score,
        c.trans y.score z.score x.score,
        c.trans z.score x.score y.score,
      );
    }

    is_below-has_lower : (x y : Scored fl) → is_below fl x y ≡ false → has_lower x y ≡ false
    unfolding is_below
    is_below-has_lower x y h = ground (arith, c.eq_iff x.score y.score)

    with_score-insert_by :
        (s : F) (x : Scored fl) (ys : List (Scored fl))
        → All (λ (y : Scored fl). x.place + 1 ≤ y.place) ys
        → with_score s (insert_by (is_below fl) x ys) ≡ with_score s (x ∷ ys)
    unfolding insert_by is_below
    with_score-insert_by s x [] h = refl
    with_score-insert_by s x (y ∷ ys) h = ground (
      arith,
      h,
      with_score-insert_by s x ys h.1,
      c.eq_iff x.score s,
      c.eq_iff y.score s,
      c.eq_iff x.score y.score,
      c.trans x.score s y.score,
      c.trans y.score s x.score,
    )

    with_score-sort_by :
        (s : F) (i : ℕ) (names : List String) (d : Dict String (StrategyStats F))
        → with_score s (sort_by (is_below fl) (scores i names d)) ≡ with_score s (scores i names d)
    unfolding sort_by
    with_score-sort_by s i [] d = refl
    with_score-sort_by s i (name ∷ names) d =
        let x : Scored fl = record {
          score = composite_score fl (or_new name fl.zero_f (lookup name d));
          place = i;
          strategy = name;
        } in
        let rest = sort_by (is_below fl) (scores (i + 1) names d) in
        let later =
          All-sort_by (is_below fl) (λ (y : Scored fl). i + 1 ≤ y.place) (scores (i + 1) names d)
            (places (i + 1) (i + 1) names d (omega arith)) in
        with_score-insert_by s x rest later
        ∙ ap (λ (r : List (Scored fl)). if fl.eq x.score s then x ∷ r else r)
            (with_score-sort_by s (i + 1) names d)

  -- Where the floats are numbers, the ranking lists the given names by composite score: it permutes
  -- them with the scores that they had at the start, puts none behind one of a lower score, and
  -- keeps the order of the names of each score.
  pub rank_strategies-IsSorted :
      (names : List String) (d : Dict String (StrategyStats F))
      → Compares
      → (scored : List (Scored fl)) × ((rank_strategies fl names d).0 ≡ names_of fl scored)
        × Perm scored (scores 0 names d)
        × IsSorted has_lower scored
        × KeepsTies scored (scores 0 names d)
  unfolding rank_strategies
  rank_strategies-IsSorted names d c =
      let below = is_below fl in
      let all = scores 0 names d in
      let (same, ranked, stable) =
        subst
          (λ (xs : List (Scored fl)).
            Perm (sort_by below xs) all
            × IsSorted has_lower (sort_by below xs)
            × KeepsTies (sort_by below xs) all)
          (sym (score_from-scores 0 names d))
          (
            sort_by-Perm below all,
            IsSorted-coarse below has_lower (is_below-has_lower c) (sort_by below all)
                (sort_by-IsSorted below (is_below-IsWeakOrder c) all),
            λ s. with_score-sort_by c s 0 names d,
          ) in
      (sort_by below (score_from fl 0 names d).0, refl, same, ranked, stable)

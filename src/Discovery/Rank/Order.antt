-- ===== src/Discovery/Rank/Order.antt =====
-- The ranked list: a permutation from the highest score to the lowest, equal scores in their order.
use mathlib.Core.List.{Perm}
use competitor_intelligence.Base.{
  ◌+◌, Bool, true, false, List, [], ◌∷◌, ◌==◌, if◌then◌else◌, All, ◌≡◌, refl, arith,
}
use competitor_intelligence.Sorting.{insert_by, sort_by}
use competitor_intelligence.Sorting.Order.{
  IsSorted, IsWeakOrder, sort_by-Perm, All-sort_by, sort_by-IsSorted,
}
use competitor_intelligence.Discovery.{DiscoveredUrl, UrlTools}
use competitor_intelligence.Discovery.Rank.{Score, is_below, score_url, is_ranked_below, rank}

abbrev pub same_score : Score → Score → Bool
same_score a b = (a.gain + b.penalty) == (b.gain + a.penalty)

is_below_asym : (a b : Score) → is_below a b ≡ true → is_below b a ≡ false
unfolding is_below
is_below_asym a b h = ground arith

is_below_trans :
    (a b c : Score) → is_below a b ≡ false → is_below b c ≡ false → is_below a c ≡ false
unfolding is_below
is_below_trans a b c h k = ground arith

module _ (tools : UrlTools) where
  -- Nothing stands behind a URL of a lower score.
  abbrev pub IsRanked : List DiscoveredUrl → Type 0
  IsRanked xs = IsSorted (is_ranked_below tools) xs

  -- the URLs of one score, in their order
  abbrev pub with_score : Score → List DiscoveredUrl → List DiscoveredUrl
  with_score s [] = []
  with_score s (x ∷ xs) =
      let rest = with_score s xs in if same_score (score_url tools x) s then x ∷ rest else rest

  is_ranked_below-IsWeakOrder : IsWeakOrder (is_ranked_below tools)
  is_ranked_below-IsWeakOrder = record {
    asym = λ x y. is_below_asym (score_url tools x) (score_url tools y);
    trans = λ x y z. is_below_trans (score_url tools x) (score_url tools y) (score_url tools z);
  }

  pub All-rank :
      (P : DiscoveredUrl → Type 0) (xs : List DiscoveredUrl) → All P xs → All P (rank tools xs)
  unfolding rank
  All-rank P xs h = All-sort_by (is_ranked_below tools) P xs h

  pub rank-IsRanked : (xs : List DiscoveredUrl) → IsRanked (rank tools xs)
  unfolding rank
  rank-IsRanked xs = sort_by-IsSorted (is_ranked_below tools) is_ranked_below-IsWeakOrder xs

  with_score-insert_by :
      (s : Score) (x : DiscoveredUrl) (ys : List DiscoveredUrl)
      → with_score s (insert_by (is_ranked_below tools) x ys) ≡ with_score s (x ∷ ys)
  unfolding insert_by is_below
  with_score-insert_by s x [] = refl
  with_score-insert_by s x (y ∷ ys) = ground (arith, with_score-insert_by s x ys)

  with_score-sort_by :
      (s : Score) (xs : List DiscoveredUrl)
      → with_score s (sort_by (is_ranked_below tools) xs) ≡ with_score s xs
  unfolding sort_by
  with_score-sort_by s [] = refl
  with_score-sort_by s (x ∷ xs) = ground (
    arith,
    with_score-insert_by s x (sort_by (is_ranked_below tools) xs),
    with_score-sort_by s xs,
  )

  -- Ranking permutes the URLs, puts none behind one of a lower score, and keeps the order of the
  -- URLs of each score.
  pub rank_lem :
      (xs : List DiscoveredUrl) (s : Score)
      → Perm (rank tools xs) xs
        × IsRanked (rank tools xs)
        × (with_score s (rank tools xs) ≡ with_score s xs)
  unfolding rank
  rank_lem xs s =
      (sort_by-Perm (is_ranked_below tools) xs, rank-IsRanked xs, with_score-sort_by s xs)

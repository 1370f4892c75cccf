-- ===== src/Discovery/Rank.antt =====
-- `_rank`: the score of a URL, and the stable sort from the highest score to the lowest. A score is
-- what speaks for a URL and what speaks against it, since the difference may be negative.
pub mod Order
use competitor_intelligence.Base.{
  ℕ, ◌+◌, ◌*◌, Bool, true, false, List, [], ◌∷◌, ltb, leb, if◌then◌else◌, Text, String, codes,
  lower, slash, is_infix,
}
use competitor_intelligence.Sorting.{sort_by}
use competitor_intelligence.Discovery.{
  Source, robots, sitemap, nav, footer, meta, internal_link, spa_fallback, DiscoveredUrl, UrlTools,
}

unfoldable pub source_score : Source → ℕ
source_score nav = 5
source_score footer = 3
source_score sitemap = 4
source_score robots = 2
source_score meta = 1
source_score internal_link = 0
source_score spa_fallback = 0

-- `re.search` for a slash with one of the words behind it
unfoldable pub has_segment : List Text → Text → Bool
has_segment [] url = false
has_segment (w ∷ words) url = if is_infix (slash ∷ w) url then true else has_segment words url

-- `high_value_patterns`
abbrev pub high_value_patterns : List (List Text × ℕ)
high_value_patterns =
    (
      codes "service"
          ∷ codes "pricing"
          ∷ codes "plan"
          ∷ codes "product"
          ∷ codes "feature"
          ∷ codes "seva"
          ∷ codes "mulya"
          ∷ codes "yojana"
          ∷ [],
      10,
    )
    ∷ (
      codes "about"
          ∷ codes "company"
          ∷ codes "team"
          ∷ codes "story"
          ∷ codes "mission"
          ∷ codes "humare-bare"
          ∷ codes "samuh"
          ∷ [],
      8,
    )
    ∷ (
      codes "blog"
          ∷ codes "article"
          ∷ codes "news"
          ∷ codes "resource"
          ∷ codes "case-study"
          ∷ codes "samachar"
          ∷ codes "lekh"
          ∷ [],
      7,
    )
    ∷ (
      codes "contact"
          ∷ codes "support"
          ∷ codes "help"
          ∷ codes "faq"
          ∷ codes "sampark"
          ∷ codes "sahayata"
          ∷ codes "prashn"
          ∷ [],
      5,
    )
    ∷ (
      codes "privacy"
          ∷ codes "terms"
          ∷ codes "legal"
          ∷ codes "policy"
          ∷ codes "gopniyata"
          ∷ codes "sharten"
          ∷ codes "kanooni"
          ∷ codes "niti"
          ∷ [],
      3,
    )
    ∷ (
      codes "career"
          ∷ codes "job"
          ∷ codes "hiring"
          ∷ codes "rozgar"
          ∷ codes "naukri"
          ∷ codes "bharti"
          ∷ [],
      2,
    )
    ∷ []

unfoldable pub pattern_score : List (List Text × ℕ) → Text → ℕ
pattern_score [] url = 0
pattern_score ((words, weight) ∷ patterns) url =
    if has_segment words url then weight else pattern_score patterns url

pub record Score : Type 0 where
  pub gain : ℕ
  pub penalty : ℕ

-- `a < b`
unfoldable pub is_below : Score → Score → Bool
is_below a b = ltb (a.gain + b.penalty) (b.gain + a.penalty)

module _ (tools : UrlTools) where
  unfoldable pub score_url : DiscoveredUrl → Score
  score_url found = record {
    gain =
        source_score found.source
        + pattern_score high_value_patterns (lower found.url)
        + (if leb (tools.path_parts found.url) 2 then 2 else 0);
    penalty = found.depth * 2;
  }

  abbrev pub is_ranked_below : DiscoveredUrl → DiscoveredUrl → Bool
  is_ranked_below x y = is_below (score_url x) (score_url y)

  -- `sort(key=score_url, reverse=True)`, which keeps the order of equal scores
  unfoldable pub rank : List DiscoveredUrl → List DiscoveredUrl
  rank xs = sort_by is_ranked_below xs

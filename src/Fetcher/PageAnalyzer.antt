-- ===== src/Fetcher/PageAnalyzer.antt =====
-- `PageAnalyzer.analyze`: the score of a page from three tests of its text. The compiled patterns
-- of each test are given by what they find.
use competitor_intelligence.Base.{
  ℕ, ◌+◌, ◌≡◌, ◌≤◌, arith, Bool, true, false, ◌||◌, List, [], ◌∷◌, if◌then◌else◌, leb, ltb, Text,
  length,
}

pub record Analysis : Type 0 where
  pub needs_rendering : Bool
  pub score : ℕ
  pub has_framework : Bool
  pub has_indicators : Bool
  pub has_quality_issues : Bool

-- `any(pattern.search(html) for pattern in patterns)`
unfoldable pub any_search : List (Text → Bool) → Text → Bool
any_search [] html = false
any_search (p ∷ ps) html = p html || any_search ps html

-- The compiled patterns, `_min_content_length`, and the two substitutions of the text estimate.
pub record Patterns : Type 0 where
  pub frameworks : List (Text → Bool)
  pub indicators : List (Text → Bool)
  pub quality : List (Text → Bool)
  pub min_content_length : ℕ
  pub strip_tags : Text → Text
  pub strip_spaces : Text → Text

unfoldable pub check_js_frameworks : Patterns → Text → Bool
check_js_frameworks p html = any_search p.frameworks html

unfoldable pub check_dynamic_indicators : Patterns → Text → Bool
check_dynamic_indicators p html = any_search p.indicators html

unfoldable pub check_content_quality : Patterns → Text → Bool
check_content_quality p html =
    if ltb (length (p.strip_spaces (p.strip_tags html))) p.min_content_length
    then true
    else any_search p.quality html

unfoldable pub analyze : Patterns → Text → Analysis
analyze p html =
    let has_framework = check_js_frameworks p html in
    let has_indicators = check_dynamic_indicators p html in
    let has_quality_issues = check_content_quality p html in
    let score =
      (if has_framework then 40 else 0)
      + (if has_indicators then 35 else 0)
      + (if has_quality_issues then 25 else 0) in
    record {
      needs_rendering = leb 50 score;
      score = score;
      has_framework = has_framework;
      has_indicators = has_indicators;
      has_quality_issues = has_quality_issues;
    }

-- The number of tests that a page meets.
unfoldable pub signals : Patterns → Text → ℕ
signals p html =
    (if check_js_frameworks p html then 1 else 0)
    + (if check_dynamic_indicators p html then 1 else 0)
    + (if check_content_quality p html then 1 else 0)

-- A page is rendered exactly when it meets at least two of the three tests, and no score is above
-- 100.
pub analyze_two_signals :
    (p : Patterns) (html : Text)
    → ((analyze p html).needs_rendering ≡ leb 2 (signals p html)) × ((analyze p html).score ≤ 100)
unfolding analyze signals
analyze_two_signals p html = ground arith

-- A page with too little text is rendered exactly when it shows a framework or an indicator.
pub analyze_short_page :
    (p : Patterns) (html : Text)
    → ltb (length (p.strip_spaces (p.strip_tags html))) p.min_content_length ≡ true
    → (analyze p html).needs_rendering
      ≡ (check_js_frameworks p html || check_dynamic_indicators p html)
unfolding analyze check_content_quality
analyze_short_page p html short = ground arith

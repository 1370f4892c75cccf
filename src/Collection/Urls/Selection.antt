-- ===== src/Collection/Urls/Selection.antt =====
-- Which URLs a module fetches.
use competitor_intelligence.Base.{
  ◌≤◌, arith, String, List, [], ◌∷◌, length, length-take, Text, rstrip, slash,
}
use competitor_intelligence.Collection.Urls.{
  first_ten, with_base, matched_urls, matched_or_base, patterns_of, select_urls_for_module,
}

abbrev pub IsLimited : List Text → Type 0
IsLimited urls = (1 ≤ length urls) × (length urls ≤ 10)

first_ten-IsLimited : (base : Text) (urls : List Text) → IsLimited (first_ten base urls)
first_ten-IsLimited base [] = (omega arith, omega arith)
first_ten-IsLimited base (u ∷ us) =
    (omega (arith, length-take 9 us), omega (arith, length-take 9 us))

matched_or_base-IsLimited :
    (module_name : String) (base : Text) (patterns urls : List Text)
    → IsLimited (matched_or_base module_name base patterns urls)
unfolding matched_or_base
matched_or_base-IsLimited module_name base [] urls = (omega arith, omega arith)
matched_or_base-IsLimited module_name base (p ∷ patterns) urls =
    first_ten-IsLimited base (with_base module_name base (matched_urls (p ∷ patterns) urls))

-- A module fetches at least one URL and at most ten, whatever was discovered.
pub select_urls_for_module-IsLimited :
    (module_name : String) (urls : List Text) (base_url : Text)
    → IsLimited (select_urls_for_module module_name urls base_url)
unfolding select_urls_for_module
select_urls_for_module-IsLimited module_name urls base_url =
    matched_or_base-IsLimited module_name (rstrip slash base_url) (patterns_of module_name) urls

-- ===== src/Collection/Urls.antt =====
-- `_select_urls_for_module` and `_classify_url`: the URLs that a module fetches, and the type of a page.
pub mod Selection
use competitor_intelligence.Base.{
  ℕ, Bool, true, false, not, ◌&&◌, ◌||◌, Option, none, some, String, List, [], ◌∷◌, take,
  if◌then◌else◌, ite, string_discrete, Text, codes, lower, rstrip, slash, text_discrete,
}
use competitor_intelligence.Collection.Retry.{contains_any}

abbrev pub service_patterns : List Text
service_patterns =
    codes "/service"
    ∷ codes "/solution"
    ∷ codes "/plan"
    ∷ codes "/coverage"
    ∷ codes "/warranty"
    ∷ codes "/protect"
    ∷ codes "/booking"
    ∷ codes "/book"
    ∷ codes "/category"
    ∷ codes "/categories"
    ∷ codes "/cleaning"
    ∷ codes "/plumbing"
    ∷ codes "/electrical"
    ∷ codes "/repair"
    ∷ codes "/pest"
    ∷ codes "/painting"
    ∷ codes "/ac"
    ∷ codes "/appliance"
    ∷ codes "/interior"
    ∷ codes "/renovation"
    ∷ codes "/salon"
    ∷ codes "/beauty"
    ∷ codes "/fitness"
    ∷ codes "/tutor"
    ∷ codes "/coaching"
    ∷ []

abbrev pub pricing_patterns : List Text
pricing_patterns =
    codes "/pric"
    ∷ codes "/cost"
    ∷ codes "/rate"
    ∷ codes "/fee"
    ∷ codes "/charge"
    ∷ codes "/subscription"
    ∷ codes "/plan"
    ∷ codes "/package"
    ∷ codes "/quote"
    ∷ codes "/estimate"
    ∷ codes "/tariff"
    ∷ codes "/membership"
    ∷ codes "/tier"
    ∷ codes "/offer"
    ∷ codes "/book"
    ∷ codes "/booking"
    ∷ codes "/enquir"
    ∷ codes "/get-a-quote"
    ∷ []

-- `patterns.get(module, [])`
unfoldable pub patterns_of : String → List Text
patterns_of module_name =
    ite (string_discrete module_name "company")
      (codes "/about"
        ∷ codes "/company"
        ∷ codes "/team"
        ∷ codes "/story"
        ∷ codes "/mission"
        ∷ codes "/contact"
        ∷ [])
      (ite (string_discrete module_name "services") service_patterns (
        ite (string_discrete module_name "pricing") pricing_patterns (
          ite (string_discrete module_name "content")
            (codes "/blog"
              ∷ codes "/article"
              ∷ codes "/news"
              ∷ codes "/resource"
              ∷ codes "/case-study"
              ∷ codes "/post"
              ∷ [])
            (ite (string_discrete module_name "social")
              (codes "/social" ∷ codes "/follow" ∷ codes "/community" ∷ []) []))))

unfoldable pub matched_urls : List Text → List Text → List Text
matched_urls patterns [] = []
matched_urls patterns (url ∷ urls) =
    let rest = matched_urls patterns urls in
    if contains_any patterns (lower url) then url ∷ rest else rest

unfoldable pub is_listed : Text → List Text → Bool
is_listed u [] = false
is_listed u (v ∷ vs) = ite (text_discrete v u) true (is_listed u vs)

-- `module in ("services", "pricing")`
unfoldable pub wants_base : String → Bool
wants_base module_name =
    ite (string_discrete module_name "services") true
      (ite (string_discrete module_name "pricing") true false)

unfoldable pub with_base : String → Text → List Text → List Text
with_base module_name base matched =
    if wants_base module_name && not (is_listed base matched) then base ∷ matched else matched

abbrev pub first_ten : Text → List Text → List Text
first_ten base [] = base ∷ []
first_ten base (u ∷ us) = take 10 (u ∷ us)

unfoldable pub matched_or_base : String → Text → List Text → List Text → List Text
matched_or_base module_name base [] urls = base ∷ []
matched_or_base module_name base (p ∷ patterns) urls =
    first_ten base (with_base module_name base (matched_urls (p ∷ patterns) urls))

unfoldable pub select_urls_for_module : String → List Text → Text → List Text
select_urls_for_module module_name discovered_urls base_url =
    matched_or_base module_name (rstrip slash base_url) (patterns_of module_name) discovered_urls

pub data PageType : Type 0 where
  services pricing content company social sitemap general : PageType

unfoldable pub classify_url : Text → PageType
classify_url url =
    let url_lower = lower url in
    if contains_any (codes "service" ∷ codes "product" ∷ codes "feature" ∷ codes "solution" ∷ [])
      url_lower
    then services
    else if contains_any
        (codes "pric"
          ∷ codes "cost"
          ∷ codes "rate"
          ∷ codes "plan"
          ∷ codes "quote"
          ∷ codes "estimate"
          ∷ codes "fee"
          ∷ codes "tariff"
          ∷ codes "charge"
          ∷ codes "package"
          ∷ [])
        url_lower
    then pricing
    else if contains_any
        (codes "blog" ∷ codes "article" ∷ codes "news" ∷ codes "post" ∷ codes "resource" ∷ [])
        url_lower
    then content
    else if contains_any (codes "about" ∷ codes "company" ∷ codes "team" ∷ codes "contact" ∷ [])
        url_lower
    then company
    else if contains_any (codes "social" ∷ codes "follow" ∷ codes "community" ∷ []) url_lower
    then social
    else if contains_any (codes "sitemap" ∷ []) url_lower
    then sitemap
    else general

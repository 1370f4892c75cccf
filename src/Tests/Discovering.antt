-- ===== src/Tests/Discovering.antt =====
-- Discovery at a small site.
use mathlib.Core.Option.{some-injective}
use competitor_intelligence.Base.{
  suc, ◌≡◌, refl, true, false, Option, none, some, List, [], ◌∷◌, length, String, subst, All, Text,
  codes, lower, to_lower, rstrip, text_discrete, ℕ_discrete,
}
use competitor_intelligence.Dict.{lookup, insert}
use competitor_intelligence.Utilities.UrlDedup.{
  init, normalized, is_seen, add, is_duplicate, mark_seen, Text-discrete,
}
use competitor_intelligence.Discovery.{
  Source, nav, internal_link, footer, DiscoveredUrl, UrlTools, source_priority, keep_better,
  keep_url, keep_all, deduplicate, ends_with, same_text,
}
use competitor_intelligence.Discovery.Unique.{IsUnique, forms, AllCovered, deduplicate_lem}
use competitor_intelligence.Discovery.Sitemaps.{Document, is_visited, sitemap_url, fetch_sitemaps}
use competitor_intelligence.Discovery.Sitemaps.Limits.{IsBounded, fetch_sitemaps-IsBounded}
use competitor_intelligence.Discovery.Sitemaps.Finite.{IsKnown, IsClosed, fetch_sitemaps-ends}
use competitor_intelligence.Discovery.Crawl.{Settings, Site, discover}
use competitor_intelligence.Discovery.Crawl.Results.{IsAcceptable, discover-IsAcceptable}

abbrev tools : UrlTools
tools = record {
  netloc = λ url. codes "a.in";
  origin = λ url. codes "//a.in";
  path_parts = λ url. 1;
  normalize_url = λ url base. url;
}

abbrev found : String → Source → DiscoveredUrl
found url source = record { url = codes url; source = source; depth = 0; context = [] }

-- The same page in two spellings, the better source later.
abbrev spellings : List DiscoveredUrl
spellings = found "/Plans" internal_link ∷ found "/plans" nav ∷ found "/Plans/" footer ∷ []

deduplicate_lem_example :
    IsUnique (forms (deduplicate spellings init))
    × AllCovered spellings (forms (deduplicate spellings init))
deduplicate_lem_example = deduplicate_lem spellings

-- The better source counts for the same spelling only.
deduplicate-spellings : deduplicate spellings init ≡ found "/Plans/" footer ∷ []
unfolding deduplicate keep_all keep_url keep_better is_duplicate mark_seen add is_seen normalized
    source_priority lookup insert init lower to_lower rstrip Text-discrete text_discrete ℕ_discrete
deduplicate-spellings = refl

-- Two sitemaps that refer to each other.
abbrev index : Document
index = record { locs = codes "/b.xml" ∷ []; sitemaps = codes "/b.xml" ∷ [] }

abbrev document : Text → Option Document
document url = some index

abbrev known : List Text
known = codes "/b.xml" ∷ []

known-IsKnown : IsKnown tools known (codes "/b.xml")
unfolding is_visited sitemap_url ends_with same_text text_discrete ℕ_discrete
known-IsKnown = refl

document-IsClosed : IsClosed tools known document
document-IsClosed a doc e =
    subst (λ (d : Document). All (IsKnown tools known) d.sitemaps) (some-injective index doc e)
      (known-IsKnown, tt)

fetch_sitemaps-ends_example :
    (fetch_sitemaps 5 tools document (suc (length known)) (codes "/b.xml") []).out_of_fuel ≡ false
fetch_sitemaps-ends_example =
    fetch_sitemaps-ends 5 tools known document document-IsClosed (codes "/b.xml") known-IsKnown

fetch_sitemaps-IsBounded_example :
    IsBounded 5 [] (fetch_sitemaps 5 tools document 3 (codes "/b.xml") [])
fetch_sitemaps-IsBounded_example = fetch_sitemaps-IsBounded 5 tools document 3 (codes "/b.xml") []

abbrev settings : Settings
settings = record {
  fetch_robots_txt = true;
  fetch_sitemap = true;
  same_domain_only = true;
  parse_nav = true;
  parse_footer = true;
  parse_internal_links = true;
  max_pages = 5;
}

abbrev site : Site
site = record { sitemap_directives = none; document = document; homepage = none }

discover-IsAcceptable_example :
    IsAcceptable tools (codes "//a.in") settings (discover tools (codes "//a.in") settings 3 site)
discover-IsAcceptable_example = discover-IsAcceptable tools (codes "//a.in") settings 3 site

-- ===== src/Discovery/Crawl.antt =====
-- `discover`: the links of robots.txt, the sitemaps and the homepage, filtered, deduplicated, ranked
-- and cut. What the parsers find in a reply is given, `none` for a request that fails or a status
-- other than 200; the fuel is that of the sitemaps.
pub mod Results
use competitor_intelligence.Base.{
  ℕ, ◌+◌, Bool, true, false, not, ◌&&◌, ◌||◌, Option, none, some, List, [], ◌∷◌, ◌++◌, length, take,
  ltb, if◌then◌else◌, Text, codes, lower, rstrip, slash, starts_with, is_infix, map,
}
use competitor_intelligence.Utilities.UrlDedup.{init}
use competitor_intelligence.Discovery.{
  Source, robots, nav, footer, meta, internal_link, spa_fallback, DiscoveredUrl, UrlTools,
  same_text, is_same_domain, deduplicate,
}
use competitor_intelligence.Discovery.Rank.{rank}
use competitor_intelligence.Discovery.Sitemaps.{Document, Fetched, fetch_sitemaps}

pub record Settings : Type 0 where
  pub fetch_robots_txt : Bool
  pub fetch_sitemap : Bool
  pub same_domain_only : Bool
  pub parse_nav : Bool
  pub parse_footer : Bool
  pub parse_internal_links : Bool
  pub max_pages : ℕ

pub record Anchor : Type 0 where
  pub href : Text
  pub text : Text

-- The anchors that the selectors find, selector by selector, and the `link` tags with their `rel`.
pub record Page : Type 0 where
  pub nav_anchors : List Anchor
  pub footer_anchors : List Anchor
  pub all_anchors : List Anchor
  pub link_tags : List (Text × List Text)

pub record Site : Type 0 where
  pub sitemap_directives : Option (List Text)
  pub document : Text → Option Document
  pub homepage : Option Page

unfoldable pub starts_with_any : List Text → Text → Bool
starts_with_any [] s = false
starts_with_any (p ∷ ps) s = starts_with p s || starts_with_any ps s

unfoldable pub is_empty : Text → Bool
is_empty [] = true
is_empty (c ∷ s) = false

-- `href and not href.startswith(("#", "javascript:", "mailto:", "tel:"))`
unfoldable pub is_link : Text → Bool
is_link href =
    not (is_empty href)
    && not (
        starts_with_any (codes "#" ∷ codes "javascript:" ∷ codes "mailto:" ∷ codes "tel:" ∷ [])
          href)

-- `[u for u in urls if p(u)]`
unfoldable pub filter_urls : (DiscoveredUrl → Bool) → List DiscoveredUrl → List DiscoveredUrl
filter_urls p [] = []
filter_urls p (u ∷ us) = let rest = filter_urls p us in if p u then u ∷ rest else rest

abbrev pub shallow : Text → Source → Text → DiscoveredUrl
shallow url source context = record { url = url; source = source; depth = 0; context = context }

unfoldable pub common_paths : List Text
common_paths =
    codes "/services"
    ∷ codes "/service"
    ∷ codes "/solutions"
    ∷ codes "/products"
    ∷ codes "/pricing"
    ∷ codes "/plans"
    ∷ codes "/packages"
    ∷ codes "/quote"
    ∷ codes "/estimate"
    ∷ codes "/about"
    ∷ codes "/about-us"
    ∷ codes "/company"
    ∷ codes "/team"
    ∷ codes "/contact"
    ∷ codes "/contact-us"
    ∷ codes "/get-quote"
    ∷ codes "/blog"
    ∷ codes "/news"
    ∷ codes "/resources"
    ∷ codes "/case-studies"
    ∷ codes "/faq"
    ∷ codes "/faqs"
    ∷ codes "/help"
    ∷ codes "/support"
    ∷ codes "/login"
    ∷ codes "/signup"
    ∷ codes "/register"
    ∷ codes "/dashboard"
    ∷ codes "/portal"
    ∷ codes "/app"
    ∷ []

unfoldable pub bad_patterns : List Text
bad_patterns =
    codes "/service/electrician"
    ∷ codes "/service/plumber"
    ∷ codes "/service/ac-repair"
    ∷ codes "/service/ac-installation"
    ∷ codes "/service/refrigerator-repair"
    ∷ codes "/service/washing-machine-repair"
    ∷ codes "/service/water-purifier-service"
    ∷ codes "/service/geyser-repair"
    ∷ []

unfoldable pub has_bad : List Text → Text → Bool
has_bad [] url = false
has_bad (p ∷ ps) url = is_infix p url || has_bad ps url

-- `any(r in rel_list for r in ("canonical", "alternate"))`
unfoldable pub is_canonical : List Text → Bool
is_canonical [] = false
is_canonical (r ∷ rels) =
    (same_text r (codes "canonical") || same_text r (codes "alternate")) || is_canonical rels

module _ (tools : UrlTools) (base_url : Text) where
  unfoldable pub domain : Text
  domain = lower (tools.netloc base_url)

  unfoldable pub extract_links : Source → List Anchor → List DiscoveredUrl
  extract_links source [] = []
  extract_links source (a ∷ anchors) =
      let rest = extract_links source anchors in
      if is_link a.href
      then shallow (tools.normalize_url a.href (some base_url)) source (take 100 a.text) ∷ rest
      else rest

  unfoldable pub extract_internal_links : List Anchor → List DiscoveredUrl
  unfolding domain
  extract_internal_links anchors =
      filter_urls (λ u. is_same_domain tools domain u.url) (extract_links internal_link anchors)

  unfoldable pub extract_meta_links : List (Text × List Text) → List DiscoveredUrl
  extract_meta_links [] = []
  extract_meta_links ((href, rels) ∷ tags) =
      let rest = extract_meta_links tags in
      if not (is_empty href) && is_canonical rels
      then shallow (tools.normalize_url href (some base_url)) meta [] ∷ rest
      else rest

  unfoldable pub robots_urls : Option (List Text) → List DiscoveredUrl
  robots_urls none = []
  robots_urls (some []) = []
  robots_urls (some (d ∷ directives)) =
      shallow (tools.normalize_url d (some base_url)) robots (codes "Sitemap directive")
      ∷ robots_urls (some directives)

  module _ (settings : Settings) where
    unfoldable pub page_urls : Option Page → List DiscoveredUrl
    page_urls none = []
    page_urls (some page) =
        (if settings.parse_nav then extract_links nav page.nav_anchors else [])
        ++ ((if settings.parse_footer then extract_links footer page.footer_anchors else [])
            ++ ((if settings.parse_internal_links
                  then extract_internal_links page.all_anchors
                  else [])
                ++ extract_meta_links page.link_tags))

    unfoldable pub all_urls : ℕ → Site → List DiscoveredUrl
    all_urls fuel site =
        (if settings.fetch_robots_txt then robots_urls site.sitemap_directives else [])
        ++ ((if settings.fetch_sitemap
              then (fetch_sitemaps settings.max_pages tools site.document fuel base_url []).urls
              else [])
            ++ page_urls site.homepage)

  unfoldable pub fallback_urls : List Text → List DiscoveredUrl
  unfolding domain
  fallback_urls [] = []
  fallback_urls (path ∷ paths) =
      let test_url = tools.normalize_url (rstrip slash base_url ++ path) none in
      let rest = fallback_urls paths in
      if is_same_domain tools domain test_url
      then record {
        url = test_url;
        source = spa_fallback;
        depth = 1;
        context = codes "SPA fallback path: " ++ path;
      }
        ∷ rest
      else rest

  unfoldable pub or_fallback : List DiscoveredUrl → List DiscoveredUrl
  unfolding common_paths
  or_fallback [] = fallback_urls common_paths
  or_fallback (u ∷ us) = u ∷ us

  unfoldable pub without_bad : List DiscoveredUrl → List DiscoveredUrl
  unfolding bad_patterns
  without_bad us =
      if is_infix (codes "callsevai.com") base_url
      then filter_urls (λ u. not (has_bad bad_patterns u.url)) us
      else us

  module _ (settings : Settings) where
    unfoldable pub own_urls : List DiscoveredUrl → List DiscoveredUrl
    unfolding domain
    own_urls us =
        if settings.same_domain_only
        then filter_urls (λ u. is_same_domain tools domain u.url) us
        else us

    unfoldable pub truncated : List DiscoveredUrl → List DiscoveredUrl
    truncated us = if ltb settings.max_pages (length us) then take settings.max_pages us else us

    unfoldable pub discover : ℕ → Site → List DiscoveredUrl
    discover fuel site =
        let unique = deduplicate (own_urls (all_urls settings fuel site)) init in
        truncated (rank tools (without_bad (or_fallback unique)))

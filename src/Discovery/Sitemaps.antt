-- ===== src/Discovery/Sitemaps.antt =====
-- `_fetch_sitemaps`: a sitemap and those that it refers to. The set `visited` is shared by all calls.
-- The recursion is on fuel, and the result tells whether the fuel was used up.
pub mod Limits
pub mod Finite
use competitor_intelligence.Base.{
  ℕ, zero, suc, ◌+◌, Bool, true, false, ◌||◌, Option, none, some, List, [], ◌∷◌, ◌++◌, length, take,
  leb, if◌then◌else◌, ite, Text, codes, lower, is_infix, text_discrete,
}
use competitor_intelligence.Discovery.{DiscoveredUrl, Source, sitemap, UrlTools, ends_with}

-- A sitemap as it is parsed: the texts of all `loc` tags, and those of the `loc` tags in `sitemap` tags.
pub record Document : Type 0 where
  pub locs : List Text
  pub sitemaps : List Text

-- What a call returns, the set afterwards, and the addresses that were requested, in their order.
pub record Fetched : Type 0 where
  pub urls : List DiscoveredUrl
  pub visited : List Text
  pub requested : List Text
  pub out_of_fuel : Bool

unfoldable pub is_visited : Text → List Text → Bool
is_visited u [] = false
is_visited u (v ∷ vs) = ite (text_discrete v u) true (is_visited u vs)

unfoldable pub sitemap_url : UrlTools → Text → Text
sitemap_url tools url =
    if ends_with (codes ".xml") url || is_infix (codes "sitemap") (lower url)
    then url
    else tools.origin url ++ codes "/sitemap.xml"

module _ (max_pages : ℕ) where
  -- the loop over the `loc` tags
  unfoldable pub page_urls : UrlTools → Text → List Text → List DiscoveredUrl → List DiscoveredUrl
  page_urls tools base [] urls = urls
  page_urls tools base (loc ∷ locs) urls =
      let page : DiscoveredUrl = record {
        url = tools.normalize_url loc (some base);
        source = sitemap;
        depth = 0;
        context = [];
      } in
      let more = page_urls tools base locs (urls ++ page ∷ []) in
      if leb max_pages (length urls) then urls else more

  -- the URLs so far with those of one more sitemap, cut at the limit
  unfoldable pub add_sub : Fetched → Fetched → Fetched
  add_sub r sub =
      let all = r.urls ++ sub.urls in
      record {
        urls = if leb max_pages (length all) then take max_pages all else all;
        visited = sub.visited;
        requested = r.requested ++ sub.requested;
        out_of_fuel = r.out_of_fuel || sub.out_of_fuel;
      }

  -- the loop over the `sitemap` tags, with the call for one of them
  unfoldable pub follow : (Text → List Text → Fetched) → List Text → Fetched → Fetched
  follow fetch [] r = r
  follow fetch (loc ∷ locs) r = elim (leb max_pages (length r.urls)) [
    | true ↦ r
    | false ↦ follow fetch locs (add_sub r (fetch loc r.visited))
  ]

  abbrev pub nothing : List Text → Fetched
  nothing visited = record { urls = []; visited = visited; requested = []; out_of_fuel = false }

  -- what is known after the request for an address
  abbrev pub requested_one : Text → List Text → Fetched
  requested_one address visited = record (nothing visited) { requested = address ∷ [] }

  -- what a call does with the reply to the request for the address
  unfoldable pub read_document :
      UrlTools → (Text → List Text → Fetched) → Text → Text → List Text → Option Document → Fetched
  read_document tools fetch url address visited none = requested_one address visited
  read_document tools fetch url address visited (some doc) =
      follow fetch doc.sitemaps
        (record (requested_one address visited) { urls = page_urls tools url doc.locs [] })

  -- `get` is the document at an address, or `none` for a failing request or a status other than 200.
  module _ (tools : UrlTools) (get : Text → Option Document) where
    unfoldable pub fetch_sitemaps : ℕ → Text → List Text → Fetched
    fetch_sitemaps zero url visited = record (nothing visited) { out_of_fuel = true }
    fetch_sitemaps (suc fuel) url visited =
        let address = sitemap_url tools url in
        elim (is_visited address visited) [
          | true ↦ nothing visited
          | false ↦
              read_document tools (fetch_sitemaps fuel) url address (address ∷ visited)
                (get address)
        ]

-- ===== src/Discovery/Crawl/Results.antt =====
-- What `discover` returns: URLs of the domain, at most the limit, from the highest score down.
use competitor_intelligence.Base.{
  ℕ, zero, suc, ◌≤◌, Bool, true, Option, none, some, List, [], ◌∷◌, ◌++◌, length, length-take, take,
  ltb, Text, rstrip, slash, codes, is_infix, All, ◌≡◌, arith, if_chosen,
}
use competitor_intelligence.Dict.{Dict, lookup, insert}
use competitor_intelligence.Utilities.UrlDedup.{UrlDedup, init, is_duplicate}
use competitor_intelligence.Discovery.{
  url_key, DiscoveredUrl, UrlTools, is_same_domain, Kept, source_priority, keep_better, keep_url,
  keep_all, values, deduplicate,
}
use competitor_intelligence.Discovery.Rank.Order.{IsRanked, rank-IsRanked, All-rank}
use competitor_intelligence.Discovery.Crawl.{
  Settings, Site, filter_urls, domain, all_urls, common_paths, fallback_urls, or_fallback,
  without_bad, own_urls, truncated, discover,
}

module _ (P : DiscoveredUrl → Type 0) where
  All-filter_urls :
      (p : DiscoveredUrl → Bool) (us : List DiscoveredUrl) → All P us → All P (filter_urls p us)
  unfolding filter_urls
  All-filter_urls p [] h = tt
  All-filter_urls p (u ∷ us) h =
      if_chosen (All P) (p u) _ _ (λ kept. (h.0, All-filter_urls p us h.1))
        (λ dropped. All-filter_urls p us h.1)

  All-take : (n : ℕ) (us : List DiscoveredUrl) → All P us → All P (take n us)
  All-take zero us h = tt
  All-take (suc n) [] h = tt
  All-take (suc n) (u ∷ us) h = (h.0, All-take n us h.1)

  All-insert :
      (k : Text) (u : DiscoveredUrl) (d : Dict Text DiscoveredUrl)
      → P u
      → All P (values d)
      → All P (values (insert k u d))
  unfolding insert
  All-insert k u [] hu h = (hu, tt)
  All-insert k u ((j, v) ∷ d) hu h = ground (arith, All-insert k u d hu h.1, h.0, h.1, hu)

  All-keep_better :
      (k : Text) (u : DiscoveredUrl) (o : Option DiscoveredUrl) (d : Dict Text DiscoveredUrl)
      → P u
      → All P (values d)
      → All P (values (keep_better k u o d))
  unfolding keep_better
  All-keep_better k u none d hu h = h
  All-keep_better k u (some v) d hu h =
      if_chosen (λ e. All P (values e)) (ltb (source_priority u.source) (source_priority v.source))
        _ _ (λ better. All-insert k u d hu h) (λ worse. h)

  All-keep_url :
      (u : DiscoveredUrl) (k : Kept)
      → P u
      → All P (values k.seen)
      → All P (values (keep_url u k).seen)
  unfolding keep_url
  All-keep_url u k hu h =
      if_chosen (λ (e : Kept). All P (values e.seen))
        (is_duplicate (rstrip slash u.url) k.url_dedup).0 _ _
        (λ dup.
          All-keep_better (rstrip slash u.url) u (lookup (rstrip slash u.url) k.seen) k.seen hu h)
        (λ new. All-insert (rstrip slash u.url) u k.seen hu h)

  All-keep_all :
      (us : List DiscoveredUrl) (k : Kept)
      → All P us
      → All P (values k.seen)
      → All P (values (keep_all us k).seen)
  unfolding keep_all
  All-keep_all [] k hs h = h
  All-keep_all (u ∷ us) k hs h = All-keep_all us (keep_url u k) hs.1 (All-keep_url u k hs.0 h)

  All-deduplicate : (us : List DiscoveredUrl) (s : UrlDedup) → All P us → All P (deduplicate us s)
  unfolding deduplicate
  All-deduplicate us s h = All-keep_all us (record { url_dedup = s; seen = [] }) h tt

filter_urls-All :
    (p : DiscoveredUrl → Bool) (us : List DiscoveredUrl)
    → All (λ (u : DiscoveredUrl). p u ≡ true) (filter_urls p us)
unfolding filter_urls
filter_urls-All p [] = tt
filter_urls-All p (u ∷ us) =
    if_chosen (All (λ (v : DiscoveredUrl). p v ≡ true)) (p u) _ _
      (λ kept. (kept, filter_urls-All p us)) (λ dropped. filter_urls-All p us)

module _ (tools : UrlTools) (base_url : Text) where
  abbrev pub IsOwn : DiscoveredUrl → Type 0
  IsOwn u = is_same_domain tools (domain tools base_url) u.url ≡ true

  fallback_urls-All : (paths : List Text) → All IsOwn (fallback_urls tools base_url paths)
  unfolding fallback_urls
  fallback_urls-All [] = tt
  fallback_urls-All (path ∷ paths) =
      if_chosen (All IsOwn)
        (is_same_domain tools (domain tools base_url)
          (tools.normalize_url (rstrip slash base_url ++ path) none))
        _ _ (λ own. (own, fallback_urls-All paths)) (λ other. fallback_urls-All paths)

  or_fallback-All :
      (us : List DiscoveredUrl) → All IsOwn us → All IsOwn (or_fallback tools base_url us)
  unfolding or_fallback
  or_fallback-All [] h = fallback_urls-All common_paths
  or_fallback-All (u ∷ us) h = h

  without_bad-All :
      (us : List DiscoveredUrl) → All IsOwn us → All IsOwn (without_bad tools base_url us)
  unfolding without_bad
  without_bad-All us h =
      if_chosen (All IsOwn) (is_infix (codes "callsevai.com") base_url) _ us
        (λ special. All-filter_urls IsOwn _ us h) (λ plain. h)

  IsRanked-take : (n : ℕ) (us : List DiscoveredUrl) → IsRanked tools us → IsRanked tools (take n us)
  IsRanked-take zero us h = tt
  IsRanked-take (suc n) [] h = tt
  IsRanked-take (suc n) (u ∷ us) h = (All-take _ n us h.0, IsRanked-take n us h.1)

  module _ (settings : Settings) where
    pub record IsAcceptable (us : List DiscoveredUrl) : Type 0 where
      pub within : length us ≤ settings.max_pages
      pub ranked : IsRanked tools us
      pub own : settings.same_domain_only ≡ true → All IsOwn us

    own_urls-All :
        (us : List DiscoveredUrl)
        → settings.same_domain_only ≡ true
        → All IsOwn (own_urls tools base_url settings us)
    unfolding own_urls
    own_urls-All us wanted =
        if_chosen (All IsOwn) settings.same_domain_only _ us
          (λ on. filter_urls-All (λ u. is_same_domain tools (domain tools base_url) u.url) us)
          (λ off. cc)

    truncated-IsAcceptable :
        (us : List DiscoveredUrl)
        → IsRanked tools us
        → (settings.same_domain_only ≡ true → All IsOwn us)
        → IsAcceptable (truncated tools base_url settings us)
    unfolding truncated
    truncated-IsAcceptable us ranked own =
        if_chosen IsAcceptable (ltb settings.max_pages (length us)) _ us
          (λ long. record {
            within = omega (arith, length-take settings.max_pages us);
            ranked = IsRanked-take settings.max_pages us ranked;
            own = λ wanted. All-take IsOwn settings.max_pages us (own wanted);
          })
          (λ short. record { within = ground arith; ranked = ranked; own = own })

    -- discover returns at most max_pages URLs, none behind one of a lower score, and with
    -- same_domain_only each of them is of the domain of the base URL, the fallback paths included.
    pub discover-IsAcceptable :
        (fuel : ℕ) (site : Site) → IsAcceptable (discover tools base_url settings fuel site)
    unfolding discover
    discover-IsAcceptable fuel site = truncated-IsAcceptable _ (rank-IsRanked tools _) (λ wanted.
        All-rank tools IsOwn _ (
          without_bad-All _ (
            or_fallback-All _ (
              All-deduplicate IsOwn _ init
                (own_urls-All (all_urls tools base_url settings fuel site) wanted)))))

-- ===== src/Fetcher/Hybrid/Rendering.antt =====
-- When `fetch` returns, and what the browser has to do with it.
use competitor_intelligence.Base.{◌≡◌, Bool, true, false, none, Text, ◌⊎◌, if◌then◌else◌}
use competitor_intelligence.Fetcher.HttpCache
use competitor_intelligence.Fetcher.HttpCache.{HttpCache, no_headers, build_conditional_headers}
use competitor_intelligence.Fetcher.Static.{Fetched, returned, raised}
use competitor_intelligence.Fetcher.Static.Caches.{IsUsable}
use competitor_intelligence.Fetcher.Result.{FetchResult, unexpected, Libraries}
use competitor_intelligence.Fetcher.PageAnalyzer.{Patterns}
use competitor_intelligence.Fetcher.Hybrid.{Settings, Fetcher, World, labelled, static_fetch}

module _ (lib : Libraries) (p : Patterns) (settings : Settings) (url : Text) (w : World) where
  -- A fetcher whose cache is usable, and a result, or the exception of a label of the page.
  abbrev Answered : FetchResult → Fetched × Fetcher → Type 0
  Answered page x =
      (((r : FetchResult) × (x.0 ≡ returned r))
        ⊎ ((x.0 ≡ raised unexpected) × (labelled lib p settings url page ≡ none)))
      × IsUsable x.1.cache

  chosen :
      (page : FetchResult) (b : Bool) (x y : Fetched × Fetcher)
      → Answered page x
      → Answered page y
      → Answered page (if b then x else y)
  chosen page true x y p q = p
  chosen page false x y p q = q

  abbrev pub first_request : Fetcher → Fetched × Fetcher
  first_request f =
      static_fetch lib p settings url w (build_conditional_headers (lib.cache_key url) f.cache) f

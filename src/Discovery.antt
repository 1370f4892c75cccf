-- ===== src/Discovery.antt =====
-- `DiscoveryEngine` (app/collectors/discovery.py). What comes from a parser of URLs, HTML or robots.txt
-- is a parameter, and so are the replies of the server.
pub mod Crawl
pub mod Unique
pub mod Sitemaps
pub mod Rank
use competitor_intelligence.Base.{
  ℕ, ◌+◌, ◌*◌, Bool, true, false, not, ◌&&◌, ◌||◌, Option, none, some, List, [], ◌∷◌, ◌++◌, length,
  take, drop, ltb, leb, if◌then◌else◌, ite, Text, codes, lower, rstrip, slash, starts_with,
  is_infix, text_discrete, map,
}
use competitor_intelligence.Dict.{Key, Dict, lookup, insert}
use competitor_intelligence.Utilities.UrlDedup
use competitor_intelligence.Utilities.UrlDedup.{UrlDedup, is_duplicate, mark_seen}

instance abbrev pub url_key : Key Text
url_key = record { dec = text_discrete }

pub data Source : Type 0 where
  robots sitemap nav footer meta internal_link spa_fallback : Source

pub record DiscoveredUrl : Type 0 where
  pub url : Text
  pub source : Source
  pub depth : ℕ
  pub context : Text

-- The parts of `urlparse`, and `normalize_url` with its base, which may be missing. The URLs are those
-- that `urlparse` takes apart: the exception for another text, as one with an unclosed bracket, is not
-- modelled.
pub record UrlTools : Type 0 where
  pub netloc : Text → Text
  pub origin : Text → Text
  pub path_parts : Text → ℕ
  pub normalize_url : Text → Option Text → Text

unfoldable pub same_text : Text → Text → Bool
same_text a b = ite (text_discrete a b) true false

-- `s.endswith(p)`
unfoldable pub ends_with : Text → Text → Bool
ends_with p [] = same_text p []
ends_with p (c ∷ s) = same_text p (c ∷ s) || ends_with p s

unfoldable pub strip_www : Text → Text
strip_www domain = if starts_with (codes "www.") domain then drop 4 domain else domain

module _ (tools : UrlTools) where
  unfoldable pub is_same_domain : Text → Text → Bool
  is_same_domain domain url =
      let url_domain = strip_www (lower (tools.netloc url)) in
      let own = strip_www domain in same_text url_domain own || ends_with (b'.' ∷ own) url_domain

-- `source_priority.get(source, 99)`
unfoldable pub source_priority : Source → ℕ
source_priority robots = 0
source_priority sitemap = 1
source_priority nav = 2
source_priority footer = 3
source_priority meta = 4
source_priority internal_link = 5
source_priority spa_fallback = 99

-- The deduplicator, and `seen`, whose values are the result.
pub record Kept : Type 0 where
  pub url_dedup : UrlDedup
  pub seen : Dict Text DiscoveredUrl

-- the branch of a duplicate
unfoldable pub keep_better :
    Text → DiscoveredUrl → Option DiscoveredUrl → Dict Text DiscoveredUrl → Dict Text DiscoveredUrl
keep_better key found none seen = seen
keep_better key found (some existing) seen =
    if ltb (source_priority found.source) (source_priority existing.source)
    then insert key found seen
    else seen

unfoldable pub keep_url : DiscoveredUrl → Kept → Kept
keep_url found k =
    let key = rstrip slash found.url in
    let (dup, dedup) = is_duplicate key k.url_dedup in
    if dup
    then record { url_dedup = dedup; seen = keep_better key found (lookup key k.seen) k.seen }
    else record { url_dedup = mark_seen key dedup; seen = insert key found k.seen }

unfoldable pub keep_all : List DiscoveredUrl → Kept → Kept
keep_all [] k = k
keep_all (found ∷ urls) k = keep_all urls (keep_url found k)

-- `d.values()`
abbrev pub values : Dict Text DiscoveredUrl → List DiscoveredUrl
values [] = []
values ((k, v) ∷ d) = v ∷ values d

unfoldable pub deduplicate : List DiscoveredUrl → UrlDedup → List DiscoveredUrl
deduplicate urls dedup = values (keep_all urls (record { url_dedup = dedup; seen = [] })).seen

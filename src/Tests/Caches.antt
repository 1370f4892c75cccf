-- ===== src/Tests/Caches.antt =====
-- The caches and the deduplicators at concrete inputs.
use competitor_intelligence.Base.{
  ℕ, ◌+◌, ◌≡◌, ◌≢◌, refl, arith, none, some, String, [], ◌∷◌, ◌++◌, length, Text, slash, lower,
  ℕ_discrete,
}
use competitor_intelligence.Dict.{string_key, nat_key, lookup, insert}
use competitor_intelligence.Utilities.LruCache.{LruCache, put, make_room, pop_oldest}
use competitor_intelligence.Utilities.LruCache.Bounds
use competitor_intelligence.Utilities.LruCache.Reads.{victim, oldest}
use competitor_intelligence.Utilities.UrlDedup.{
  UrlDedup, normalized, check_all, stats, normalized_lem, check_all_count,
}
use competitor_intelligence.Utilities.ContentDedup.{ContentDedup}
use competitor_intelligence.Utilities.CachedParse.{Page, IsSound}

-- Two entries in a cache of two.
abbrev full : LruCache ℕ ℕ
full = record { max_size = 2; ttl_seconds = 60; cache = (1, (10, 5)) ∷ (2, (20, 6)) ∷ [] }

abbrev after_three : LruCache ℕ ℕ
after_three = record full { cache = (2, (20, 6)) ∷ (3, (30, 7)) ∷ [] }

full-IsValid : Bounds.IsValid full
unfolding lookup ℕ_discrete
full-IsValid = record {
  positive = omega arith;
  bounded = omega arith;
  distinct = (refl, (refl, tt));
}

put_three : put 7 3 30 full ≡ some after_three
unfolding put make_room pop_oldest lookup insert ℕ_discrete
put_three = refl

victim_one : victim 3 full ≢ some 2
unfolding victim oldest lookup ℕ_discrete
victim_one e = ground arith

two≢three : ◌≢◌ {A = ℕ} 2 3
two≢three = omega arith

abbrev some_url : Text
some_url = 65 ∷ 66 ∷ []

normalized_lem_example :
    (normalized (normalized some_url) ≡ normalized some_url)
    × (normalized (some_url ++ slash ∷ []) ≡ normalized some_url)
    × (normalized (lower some_url) ≡ normalized some_url)
normalized_lem_example = normalized_lem some_url

abbrev seen : UrlDedup
seen = record { seen_urls = (97 ∷ []) ∷ []; duplicates_skipped = 0 }

check_all_count_example :
    (stats (check_all (some_url ∷ some_url ∷ []) seen)).0
      + (stats (check_all (some_url ∷ some_url ∷ []) seen)).1
    ≡ (stats seen).0 + (stats seen).1 + length (some_url ∷ some_url ∷ [])
check_all_count_example = check_all_count (some_url ∷ some_url ∷ []) seen

abbrev no_content : ContentDedup
no_content = record { hash_to_url = []; duplicates = 0 }

unknown_hash : lookup "h" no_content.hash_to_url ≡ none
unfolding lookup
unknown_hash = refl

-- A digest that is the page, and a parser that reads only the page.
abbrev digest : Page → String
digest p = p.html

abbrev parsed : Page → String
parsed p = p.html

abbrev page : Page
page = record { url = "u"; html = "<html>"; strategy_sig = "s" }

abbrev parse_cache : LruCache String String
parse_cache = record { max_size = 1; ttl_seconds = 60; cache = [] }

parse_cache-IsValid : Bounds.IsValid parse_cache
parse_cache-IsValid = record { positive = omega arith; bounded = omega arith; distinct = tt }

parse_cache-IsSound : IsSound digest parsed parse_cache
unfolding lookup
parse_cache-IsSound p e h = absurd (cc)

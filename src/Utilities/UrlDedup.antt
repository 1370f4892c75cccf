-- ===== src/Utilities/UrlDedup.antt =====
-- `URLDeduplicator`: the set of normalized URLs seen in a crawl, and a count of the duplicates.
-- `_seen_hashes` is never written to by any method but `reset`.
use competitor_intelligence.Base.{
  ℕ, ◌+◌, ◌≡◌, ap, arith, Bool, true, false, List, [], ◌∷◌, ◌++◌, length, if◌then◌else◌, ite, Text,
  text_discrete, lower, rstrip, slash, lower-lower, rstrip-rstrip, rstrip-lower, rstrip-append_last,
}

unfoldable pub Text-discrete : Discrete Text
Text-discrete = text_discrete

pub record UrlDedup : Type 0 where
  pub seen_urls : List Text
  pub duplicates_skipped : ℕ

unfoldable pub init : UrlDedup
init = record { seen_urls = []; duplicates_skipped = 0 }

-- `url.rstrip("/").lower()`
unfoldable pub normalized : Text → Text
normalized url = lower (rstrip slash url)

unfoldable pub is_seen : Text → List Text → Bool
is_seen u [] = false
is_seen u (x ∷ xs) = ite (Text-discrete x u) true (is_seen u xs)

-- `_seen_urls.add`
unfoldable pub add : Text → List Text → List Text
add u xs = if is_seen u xs then xs else u ∷ xs

unfoldable pub is_duplicate : Text → UrlDedup → Bool × UrlDedup
is_duplicate url s =
    if is_seen (normalized url) s.seen_urls
    then (true, record s { duplicates_skipped = s.duplicates_skipped + 1 })
    else (false, s)

unfoldable pub mark_seen : Text → UrlDedup → UrlDedup
mark_seen url s = record s { seen_urls = add (normalized url) s.seen_urls }

unfoldable pub check_and_mark : Text → UrlDedup → Bool × UrlDedup
unfolding is_duplicate mark_seen
check_and_mark url s =
    let (dup, s') = is_duplicate url s in if dup then (true, s') else (false, mark_seen url s')

unfoldable pub reset : UrlDedup → UrlDedup
unfolding init
reset s = init

-- `stats`: the URLs seen, and the duplicates skipped
unfoldable pub stats : UrlDedup → ℕ × ℕ
stats s = (length s.seen_urls, s.duplicates_skipped)

-- `check_and_mark` on each URL of a crawl, in order
unfoldable pub check_all : List Text → UrlDedup → UrlDedup
check_all [] s = s
check_all (u ∷ us) s = check_all us (check_and_mark u s).1

-- A trailing slash and the case of the letters do not tell URLs apart, and normalizing once is
-- enough.
pub normalized_lem :
    (url : Text)
    → (normalized (normalized url) ≡ normalized url)
      × (normalized (url ++ slash ∷ []) ≡ normalized url)
      × (normalized (lower url) ≡ normalized url)
unfolding normalized
normalized_lem url =
    let once : lower (rstrip slash (lower (rstrip slash url))) ≡ lower (rstrip slash url) =
      rw (rstrip-lower (rstrip slash url), rstrip-rstrip slash url)
        (lower-lower (rstrip slash url)) in
    (
      once,
      ap lower (rstrip-append_last slash url),
      rw (rstrip-lower url) (lower-lower (rstrip slash url)),
    )

pub is_seen-add :
    (u w : Text) (xs : List Text)
    → is_seen u (add w xs) ≡ ite (Text-discrete w u) true (is_seen u xs)
unfolding add is_seen
is_seen-add u w xs = ground arith

length-add : (u : Text) (xs : List Text) → is_seen u xs ≡ false → length (add u xs) ≡ length xs + 1
unfolding add
length-add u xs new = ground arith

-- check_and_mark answers whether a URL with the same normalized form was seen. Afterwards that form
-- is seen, every other is as before, and one of the two numbers has grown by one.
pub check_and_mark_lem :
    (url other : Text) (s : UrlDedup)
    → let (dup, s') = check_and_mark url s in
      (dup ≡ is_seen (normalized url) s.seen_urls)
      × (is_seen (normalized other) s'.seen_urls
          ≡ ite
              (Text-discrete (normalized url) (normalized other))
              true
              (is_seen (normalized other) s.seen_urls))
      × ((stats s').0 + (stats s').1 ≡ (stats s).0 + (stats s).1 + 1)
unfolding check_and_mark stats
check_and_mark_lem url other s = ground (
  arith,
  is_seen-add (normalized other) (normalized url) s.seen_urls,
  length-add (normalized url) s.seen_urls,
)

-- Over a crawl the URLs seen and the duplicates skipped add up to the URLs checked.
pub check_all_count :
    (urls : List Text) (s : UrlDedup)
    → (stats (check_all urls s)).0 + (stats (check_all urls s)).1
      ≡ (stats s).0 + (stats s).1 + length urls
unfolding check_all
check_all_count [] s = omega arith
check_all_count (u ∷ us) s =
    omega (arith, check_all_count us (check_and_mark u s).1, (check_and_mark_lem u u s).2)

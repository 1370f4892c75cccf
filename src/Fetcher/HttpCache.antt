-- ===== src/Fetcher/HttpCache.antt =====
-- `HttpCacheLayer`: validators of pages by URL, the least recently used first, and the times of
-- their storing in a dictionary of its own. `now` is the monotonic clock, `wall` the UTC clock that
-- `last_checked` records, and `second` the ticks of a second.
pub mod MaxAge
pub mod Bounds
pub mod Reads
pub mod Visits
use competitor_intelligence.Base.{
  ℕ, ◌-◌, ◌*◌, Bool, true, false, not, ◌||◌, ◌&&◌, Option, none, some, List, [], ◌∷◌, String,
  length, ltb, leb, if◌then◌else◌, ite, is_some, string_discrete, Text, codes, is_infix,
}
use competitor_intelligence.Dict.{Dict, string_key, lookup, insert, erase, move_to_end}
use competitor_intelligence.Fetcher.HttpCache.MaxAge.{find_max_age}

pub record CacheEntry : Type 0 where
  pub url : String
  pub etag : Option String
  pub last_modified : Option String
  pub cache_control : Option Text
  pub content_hash : String
  pub last_checked : ℕ

pub record HttpCache : Type 0 where
  pub max_size : ℕ
  pub ttl_seconds : ℕ
  pub cache : Dict String CacheEntry
  pub timestamps : Dict String ℕ

-- A text that is not empty, and an optional one that is there and not empty.
unfoldable pub filled : String → Bool
filled s = ite (string_discrete s "") false true

unfoldable pub truthy : Option String → Bool
unfolding filled
truthy none = false
truthy (some s) = filled s

unfoldable pub truthy_text : Option Text → Bool
truthy_text none = false
truthy_text (some []) = false
truthy_text (some (c ∷ s)) = true

unfoldable pub is_old : ℕ → ℕ → HttpCache → Bool
is_old now ts c = ltb c.ttl_seconds (now - ts)

-- the list `expired` of `_evict_expired`
unfoldable pub expired_urls : ℕ → HttpCache → Dict String ℕ → List String
unfolding is_old
expired_urls now c [] = []
expired_urls now c ((url, ts) ∷ more) =
    let rest = expired_urls now c more in if is_old now ts c then url ∷ rest else rest

-- both `pop(url, None)`
unfoldable pub forget : String → HttpCache → HttpCache
forget url c = record c { cache = erase url c.cache; timestamps = erase url c.timestamps }

unfoldable pub forget_all : List String → HttpCache → HttpCache
forget_all [] c = c
forget_all (url ∷ urls) c = forget_all urls (forget url c)

unfoldable pub evict_expired : ℕ → HttpCache → HttpCache
unfolding expired_urls forget forget_all
evict_expired now c = forget_all (expired_urls now c c.timestamps) c

-- `self._timestamps.get(url, 0.0)`
unfoldable pub timestamp : String → HttpCache → ℕ
timestamp url c = elim (lookup url c.timestamps) [ none ↦ 0 | some ts ↦ ts ]

get_entry : ℕ → String → Option CacheEntry → HttpCache → Option CacheEntry × HttpCache
get_entry now url none c = (none, c)
get_entry now url (some entry) c =
    if is_old now (timestamp url c) c
    then (none, forget url c)
    else (some entry, record c { cache = move_to_end url entry c.cache })

unfoldable pub get : ℕ → String → HttpCache → Option CacheEntry × HttpCache
unfolding get_entry is_old forget timestamp
get now url c = get_entry now url (lookup url c.cache) c

-- `popitem(last=False)`, and the entry's timestamp; `none` is the `KeyError` on an empty cache
pop_oldest : Dict String CacheEntry → HttpCache → Option HttpCache
pop_oldest [] c = none
pop_oldest ((url, entry) ∷ rest) c =
    some (record c { cache = rest; timestamps = erase url c.timestamps })

-- the two `if` statements at the head of `store`
unfoldable pub make_room : ℕ → HttpCache → Option HttpCache
unfolding pop_oldest
make_room now c =
    let c1 = if leb c.max_size (length c.cache) then evict_expired now c else c in
    if leb c1.max_size (length c1.cache) then pop_oldest c1.cache c1 else some c1

-- The arguments of `store` but the URL.
pub record Validators : Type 0 where
  pub etag : Option String
  pub last_modified : Option String
  pub cache_control : Option Text
  pub content_hash : String

unfoldable pub updated : ℕ → Validators → CacheEntry → CacheEntry
updated wall a e = record {
  url = e.url;
  etag = if truthy a.etag then a.etag else e.etag;
  last_modified = if truthy a.last_modified then a.last_modified else e.last_modified;
  cache_control = if truthy_text a.cache_control then a.cache_control else e.cache_control;
  content_hash = if filled a.content_hash then a.content_hash else e.content_hash;
  last_checked = wall;
}

unfoldable pub fresh_entry : ℕ → String → Validators → CacheEntry
fresh_entry wall url a = record {
  url = url;
  etag = a.etag;
  last_modified = a.last_modified;
  cache_control = a.cache_control;
  content_hash = a.content_hash;
  last_checked = wall;
}

-- the rest of `store`; the updated entry moves to the end, a new one is appended there
put_entry : ℕ → ℕ → String → Validators → Option CacheEntry → HttpCache → CacheEntry × HttpCache
put_entry now wall url a (some old) c =
    let e = updated wall a old in
    (e, record c { cache = move_to_end url e c.cache; timestamps = insert url now c.timestamps })
put_entry now wall url a none c =
    let e = fresh_entry wall url a in
    (e, record c { cache = insert url e c.cache; timestamps = insert url now c.timestamps })

unfoldable pub store : ℕ → ℕ → String → Validators → HttpCache → Option (CacheEntry × HttpCache)
unfolding put_entry
store now wall url a c = elim (make_room now c) [
  | none ↦ none
  | some c' ↦ some (put_entry now wall url a (lookup url c'.cache) c')
]

-- The two headers of a conditional request.
pub record Headers : Type 0 where
  pub if_none_match : Option String
  pub if_modified_since : Option String

abbrev pub no_headers : Headers
no_headers = record { if_none_match = none; if_modified_since = none }

unfoldable pub build_conditional_headers : String → HttpCache → Headers
build_conditional_headers url c = elim (lookup url c.cache) [
  | none ↦ no_headers
  | some e ↦ record {
    if_none_match = if truthy e.etag then e.etag else none;
    if_modified_since = if truthy e.last_modified then e.last_modified else none;
  }
]

control_expired : ℕ → ℕ → ℕ → Option Text → Bool
control_expired second wall last_checked none = true
control_expired second wall last_checked (some []) = true
control_expired second wall last_checked (some (c ∷ s)) =
    if is_infix (codes "no-cache") (c ∷ s) || is_infix (codes "no-store") (c ∷ s)
    then true
    else elim (find_max_age (c ∷ s)) [
      | some max_age ↦ ltb (max_age * second) (wall - last_checked)
      | none ↦ false
    ]

unfoldable pub is_cache_expired : ℕ → ℕ → String → HttpCache → Bool
unfolding control_expired
is_cache_expired second wall url c = elim (lookup url c.cache) [
  | none ↦ true
  | some e ↦ control_expired second wall e.last_checked e.cache_control
]

-- `remove` and `clear` leave the timestamps.
unfoldable pub remove : String → HttpCache → HttpCache
remove url c = record c { cache = erase url c.cache }

unfoldable pub clear : HttpCache → HttpCache
clear c = record c { cache = [] }

unfoldable pub size : HttpCache → ℕ
size c = length c.cache

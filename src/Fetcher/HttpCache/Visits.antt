-- ===== src/Fetcher/HttpCache/Visits.antt =====
-- What a visit finds of the visit before it: the hash that `store` was given.
use competitor_intelligence.Base.{
  ℕ, ◌-◌, ◌<◌, ◌≤◌, ◌≡◌, refl, arith, ◌∙◌, Bool, true, false, Option, none, some, String, List, [],
  ◌∷◌, if◌then◌else◌, subst, ltb, leb, length,
}
use competitor_intelligence.Dict.{Dict, string_key, lookup}
use competitor_intelligence.Fetcher.HttpCache.{
  HttpCache, CacheEntry, Validators, filled, get, store, make_room, evict_expired, expired_urls,
  forget_all, forget, pop_oldest, put_entry, updated, fresh_entry,
}
use competitor_intelligence.Fetcher.HttpCache.Bounds.{IsValid, store-IsValid}
use competitor_intelligence.Fetcher.HttpCache.Reads.{got}

abbrev SameTtl : HttpCache → Option HttpCache → Type 0
SameTtl c none = Unit
SameTtl c (some c') = c'.ttl_seconds ≡ c.ttl_seconds

forget_all_ttl :
    (urls : List String) (c : HttpCache) → (forget_all urls c).ttl_seconds ≡ c.ttl_seconds
unfolding forget_all forget
forget_all_ttl [] c = refl
forget_all_ttl (url ∷ urls) c = forget_all_ttl urls (forget url c)

pop_oldest-SameTtl : (d : Dict String CacheEntry) (c : HttpCache) → SameTtl c (pop_oldest d c)
unfolding pop_oldest
pop_oldest-SameTtl [] c = tt
pop_oldest-SameTtl ((url, e) ∷ d) c = refl

popped-SameTtl : (b : Bool) (c : HttpCache) → SameTtl c (if b then pop_oldest c.cache c else some c)
popped-SameTtl true c = pop_oldest-SameTtl c.cache c
popped-SameTtl false c = refl

SameTtl-trans :
    (c d : HttpCache) (o : Option HttpCache)
    → d.ttl_seconds ≡ c.ttl_seconds
    → SameTtl d o
    → SameTtl c o
SameTtl-trans c d none e h = tt
SameTtl-trans c d (some x) e h = h ∙ e

evicted_ttl :
    (now : ℕ) (b : Bool) (c : HttpCache)
    → (if b then evict_expired now c else c).ttl_seconds ≡ c.ttl_seconds
unfolding evict_expired
evicted_ttl now true c = forget_all_ttl (expired_urls now c c.timestamps) c
evicted_ttl now false c = refl

make_room-SameTtl : (now : ℕ) (c : HttpCache) → SameTtl c (make_room now c)
unfolding make_room
make_room-SameTtl now c =
    let c1 = if leb c.max_size (length c.cache) then evict_expired now c else c in
    SameTtl-trans c c1 _ (evicted_ttl now (leb c.max_size (length c.cache)) c)
      (popped-SameTtl (leb c1.max_size (length c1.cache)) c1)

-- A stored entry with the given hash, in a cache with the same time to live.
abbrev Stored : Validators → HttpCache → Option (CacheEntry × HttpCache) → Type 0
Stored a c none = Unit
Stored a c (some (e, c')) = (c'.ttl_seconds ≡ c.ttl_seconds) × (e.content_hash ≡ a.content_hash)

put_entry-Stored :
    (now wall : ℕ) (url : String) (a : Validators) (c : HttpCache) (o : Option CacheEntry)
    → filled a.content_hash ≡ true
    → Stored a c (some (put_entry now wall url a o c))
unfolding put_entry updated fresh_entry
put_entry-Stored now wall url a c none f = (refl, refl)
put_entry-Stored now wall url a c (some e) f = (refl, rw f refl)

store-Stored :
    (now wall : ℕ) (url : String) (a : Validators) (c : HttpCache)
    → filled a.content_hash ≡ true
    → Stored a c (store now wall url a c)
unfolding store
store-Stored now wall url a c f = go (make_room now c) (make_room-SameTtl now c)
  where
    go :
        (o : Option HttpCache)
        → SameTtl c o
        → Stored a c (elim o [
          | none ↦ none
          | some d ↦ some (put_entry now wall url a (lookup url d.cache) d)
        ])
    go none s = tt
    go (some d) s =
        let (t, h) = put_entry-Stored now wall url a d (lookup url d.cache) f in (t ∙ s, h)

-- After `store` with a hash that is not empty, `get` finds, until the entry is older than
-- `ttl_seconds`, an entry with that hash.
pub store_keeps_hash :
    (now wall later : ℕ) (url : String) (a : Validators) (c : HttpCache)
    → 0 < c.max_size
    → IsValid c
    → filled a.content_hash ≡ true
    → later - now ≤ c.ttl_seconds
    → (e : CacheEntry) × (c' : HttpCache) × (store now wall url a c ≡ some (e, c'))
      × ((get later url c').0 ≡ some e)
      × (e.content_hash ≡ a.content_hash)
store_keeps_hash now wall later url a c p v f young =
    let (e, c', r, v', cached, stamped, _) = store-IsValid now wall url a c p v in
    let (t, h) : Stored a c (some (e, c')) =
      subst (λ o. Stored a c o) r (store-Stored now wall url a c f) in
    let new : ltb c'.ttl_seconds (later - now) ≡ false = ground arith in
    (e, c', r, got later now url e c' cached stamped ∙ rw new refl, h)

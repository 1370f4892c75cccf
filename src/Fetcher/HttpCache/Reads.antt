-- ===== src/Fetcher/HttpCache/Reads.antt =====
-- What `HttpCacheLayer` returns after a call.
use competitor_intelligence.Base.{
  ℕ, ◌-◌, ◌≤◌, ◌<◌, ◌≡◌, ap, refl, subst, arith, Bool, true, false, Option, none, some, List, [],
  ◌∷◌, String, length, leb, ltb, ite, if◌then◌else◌, string_discrete,
}
use competitor_intelligence.Dict.{Dict, string_key, lookup, erase, IsDistinct}
use competitor_intelligence.Dict.Laws.{lookup-erase}
use competitor_intelligence.Fetcher.HttpCache.{
  CacheEntry, HttpCache, Validators, is_old, expired_urls, forget, forget_all, evict_expired, get,
  pop_oldest, make_room, fresh_entry, put_entry, store,
}
use competitor_intelligence.Fetcher.HttpCache.Bounds.{IsValid, store-IsValid}

unfoldable pub is_member : String → List String → Bool
is_member u [] = false
is_member u (x ∷ xs) = ite (string_discrete x u) true (is_member u xs)

lookup-forget_all :
    (u : String) (urls : List String) (c : HttpCache)
    → lookup u (forget_all urls c).cache ≡ (if is_member u urls then none else lookup u c.cache)
unfolding forget_all forget is_member
lookup-forget_all u [] c = refl
lookup-forget_all u (x ∷ xs) c =
    ground (arith, lookup-forget_all u xs (forget x c), lookup-erase x u c.cache)

-- Whether a URL's time, if it has one, is old.
abbrev pub old_at : ℕ → HttpCache → Option ℕ → Bool
old_at now c none = false
old_at now c (some ts) = is_old now ts c

unstamped_not_expired :
    (now : ℕ) (u : String) (c : HttpCache) (d : Dict String ℕ)
    → lookup u d ≡ none
    → is_member u (expired_urls now c d) ≡ false
unfolding expired_urls is_member lookup
unstamped_not_expired now u c [] h = refl
unstamped_not_expired now u c ((x, ts) ∷ d) h = ground (arith, unstamped_not_expired now u c d)

is_member-expired_urls :
    (now : ℕ) (u : String) (c : HttpCache) (d : Dict String ℕ)
    → IsDistinct d
    → is_member u (expired_urls now c d) ≡ old_at now c (lookup u d)
unfolding expired_urls is_member lookup
is_member-expired_urls now u c [] h = refl
is_member-expired_urls now u c ((x, ts) ∷ d) h =
    ground (arith, is_member-expired_urls now u c d h.1, unstamped_not_expired now x c d h.0)

-- `_evict_expired` drops exactly the entries whose time is old.
pub evict_expired_exact :
    (now : ℕ) (u : String) (c : HttpCache)
    → IsDistinct c.timestamps
    → lookup u (evict_expired now c).cache
      ≡ (if old_at now c (lookup u c.timestamps) then none else lookup u c.cache)
unfolding evict_expired
evict_expired_exact now u c h =
    rw (← is_member-expired_urls now u c c.timestamps h)
      (lookup-forget_all u (expired_urls now c c.timestamps) c)

pub got :
    (later now : ℕ) (url : String) (e : CacheEntry) (c : HttpCache)
    → lookup url c.cache ≡ some e
    → lookup url c.timestamps ≡ some now
    → (get later url c).0 ≡ (if ltb c.ttl_seconds (later - now) then none else some e)
unfolding get
got later now url e c cached stamped = ground arith

-- On a valid cache of positive size, what store returns is what get finds, until it is older than
-- ttl_seconds; then it finds nothing.
pub store-get :
    (now wall later : ℕ) (url : String) (a : Validators) (c : HttpCache)
    → 0 < c.max_size
    → IsValid c
    → (e : CacheEntry) × (c' : HttpCache) × (store now wall url a c ≡ some (e, c'))
      × ((get later url c').0 ≡ (if ltb c'.ttl_seconds (later - now) then none else some e))
store-get now wall later url a c p v =
    let (e, c', r, v', cached, stamped, _) = store-IsValid now wall url a c p v in
    (e, c', r, got later now url e c' cached stamped)

evict_none :
    (now : ℕ) (c : HttpCache) → expired_urls now c c.timestamps ≡ [] → evict_expired now c ≡ c
unfolding evict_expired
evict_none now c none_old = ap (λ urls. forget_all urls c) none_old

pop_first :
    (c : HttpCache) (url : String) (old : CacheEntry) (rest : Dict String CacheEntry)
    → c.cache ≡ (url, old) ∷ rest
    → pop_oldest c.cache c ≡ some (record c { cache = rest; timestamps = erase url c.timestamps })
unfolding pop_oldest
pop_first c url old rest e = ap (λ d. pop_oldest d c) e

popped_full :
    (now : ℕ) (c : HttpCache) (url : String) (old : CacheEntry) (rest : Dict String CacheEntry)
    → c.cache ≡ (url, old) ∷ rest
    → c.max_size ≤ length c.cache
    → expired_urls now c c.timestamps ≡ []
    → make_room now c ≡ some (record c { cache = rest; timestamps = erase url c.timestamps })
unfolding make_room
popped_full now c url old rest e full none_old =
    let test : leb c.max_size (length c.cache) ≡ true = ground arith in
    rw (test, evict_none now c none_old, test) (pop_first c url old rest e)

distinct_cons :
    (c : HttpCache) (url : String) (old : CacheEntry) (rest : Dict String CacheEntry)
    → c.cache ≡ (url, old) ∷ rest
    → IsDistinct c.cache
    → lookup url rest ≡ none
distinct_cons c url old rest e u =
    let both : IsDistinct ((url, old) ∷ rest) = subst (λ d. IsDistinct d) e u in both.0

-- At capacity store makes room also for a URL that has its entry already. If nothing is old and the
-- URL's entry is the oldest, that entry goes: the validators that this call does not give are lost,
-- instead of kept as in an update.
pub store_full_forgets :
    (now wall : ℕ) (url : String) (a : Validators) (c : HttpCache) (old : CacheEntry)
    (rest : Dict String CacheEntry)
    → IsValid c
    → c.cache ≡ (url, old) ∷ rest
    → length c.cache ≡ c.max_size
    → expired_urls now c c.timestamps ≡ []
    → (c' : HttpCache) × (store now wall url a c ≡ some (fresh_entry wall url a, c'))
unfolding store
store_full_forgets now wall url a c old rest v e full none_old =
    let fits : c.max_size ≤ length c.cache = omega arith in
    let gone : lookup url rest ≡ none = distinct_cons c url old rest e v.distinct in
    let popped : HttpCache = record c { cache = rest; timestamps = erase url c.timestamps } in
    (
      (put_entry now wall url a none popped).1,
      rw (popped_full now c url old rest e fits none_old, store) (rw (gone, put_entry)),
    )

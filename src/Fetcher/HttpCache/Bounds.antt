-- ===== src/Fetcher/HttpCache/Bounds.antt =====
-- The invariant of `HttpCacheLayer`: it is not larger than `max_size`, no URL stands twice, and
-- each cached URL has the time of its storing.
use competitor_intelligence.Base.{
  ℕ, ◌≤◌, ◌<◌, ◌≡◌, refl, arith, Option, none, some, List, [], ◌∷◌, String, length, length-append,
  inl, inr, Option-cases, Bool-cases, leb, if◌then◌else◌, ◌∙◌,
}
use competitor_intelligence.Dict.{Dict, string_key, lookup, erase, move_to_end, IsDistinct}
use competitor_intelligence.Dict.Laws.{
  lookup-insert, lookup-insert_self, lookup-erase, lookup-erase_self, lookup-move_to_end,
  length-erase, length-erase-le, erase-IsDistinct, append_last-IsDistinct, insert_absent,
  insert-IsDistinct,
}
use competitor_intelligence.Fetcher.HttpCache.{
  CacheEntry, HttpCache, Validators, expired_urls, forget, forget_all, evict_expired, get,
  pop_oldest, make_room, updated, fresh_entry, put_entry, store,
}

pub record IsValid (c : HttpCache) : Type 0 where
  pub bounded : length c.cache ≤ c.max_size
  pub distinct : IsDistinct c.cache
  pub stamped : (url : String) → lookup url c.timestamps ≡ none → lookup url c.cache ≡ none

forget-IsValid : (url : String) (c : HttpCache) → IsValid c → IsValid (forget url c)
unfolding forget
forget-IsValid url c v = record {
  bounded = omega (arith, v.bounded, length-erase-le url c.cache);
  distinct = erase-IsDistinct url c.cache v.distinct;
  stamped = λ u h.
      ground (arith, lookup-erase url u c.cache, lookup-erase url u c.timestamps, v.stamped u);
}

forget_all-IsValid :
    (urls : List String) (c : HttpCache)
    → IsValid c
    → IsValid (forget_all urls c) × ((forget_all urls c).max_size ≡ c.max_size)
unfolding forget_all forget
forget_all-IsValid [] c v = (v, refl)
forget_all-IsValid (url ∷ urls) c v =
    let (v', same) = forget_all-IsValid urls (forget url c) (forget-IsValid url c v) in (v', same)

pub evict_expired-IsValid :
    (now : ℕ) (c : HttpCache)
    → IsValid c
    → IsValid (evict_expired now c) × ((evict_expired now c).max_size ≡ c.max_size)
unfolding evict_expired
evict_expired-IsValid now c v = forget_all-IsValid (expired_urls now c c.timestamps) c v

length-move_to_end :
    (k : String) (e e' : CacheEntry) (d : Dict String CacheEntry)
    → IsDistinct d
    → lookup k d ≡ some e
    → length (move_to_end k e' d) ≡ length d
unfolding move_to_end
length-move_to_end k e e' d u h =
    omega (arith, length-append (erase k d) ((k, e') ∷ []), length-erase k e d u h)

move_to_end-IsDistinct :
    (k : String) (e : CacheEntry) (d : Dict String CacheEntry)
    → IsDistinct d
    → IsDistinct (move_to_end k e d)
unfolding move_to_end
move_to_end-IsDistinct k e d u =
    append_last-IsDistinct k e (erase k d) (lookup-erase_self k d) (erase-IsDistinct k d u)

-- `get` keeps the invariant, whether it hits, misses or drops an old entry.
pub get-IsValid : (now : ℕ) (url : String) (c : HttpCache) → IsValid c → IsValid (get now url c).1
unfolding get
get-IsValid now url c v = elim (Option-cases (lookup url c.cache)) [
  | inl miss ↦ rw miss v
  | inr (e, hit) ↦ rw hit (record {
    bounded =
        ground
          (arith, length-erase-le url c.cache, length-move_to_end url e e c.cache v.distinct hit);
    distinct = ground (
      arith,
      erase-IsDistinct url c.cache v.distinct,
      move_to_end-IsDistinct url e c.cache v.distinct,
    );
    stamped = λ u h. ground (
      arith,
      lookup-erase url u c.cache,
      lookup-erase url u c.timestamps,
      lookup-move_to_end url u e c.cache,
      v.stamped u,
    );
  })
]

-- What `make_room` leaves: a valid cache with room for one entry.
pub record HasRoom (c d : HttpCache) : Type 0 where
  pub valid : IsValid d
  pub room : length d.cache < d.max_size
  pub same_size : d.max_size ≡ c.max_size

popped :
    (d : Dict String CacheEntry) (c : HttpCache)
    → 0 < c.max_size
    → length d ≤ c.max_size
    → IsDistinct d
    → ((url : String) → lookup url c.timestamps ≡ none → lookup url d ≡ none)
    → c.max_size ≤ length d
    → (c' : HttpCache) × (pop_oldest d c ≡ some c') × HasRoom c c'
unfolding pop_oldest lookup
popped [] c p b u s full = absurd (omega arith)
popped ((url, e) ∷ rest) c p b u s full = (
  _,
  refl,
  record {
    valid = record {
      bounded = omega arith;
      distinct = u.1;
      stamped = λ w h. ground (arith, s w, lookup-erase url w c.timestamps);
    };
    room = omega arith;
    same_size = refl;
  },
)

roomy :
    (c : HttpCache)
    → 0 < c.max_size
    → IsValid c
    → (d : HttpCache) × ((if leb c.max_size (length c.cache) then pop_oldest c.cache c else some c)
        ≡ some d)
      × HasRoom c d
roomy c p v = elim (Bool-cases (leb c.max_size (length c.cache))) [
  | inl full ↦
      let (d, r, room) = popped c.cache c p v.bounded v.distinct v.stamped (ground arith) in
      (d, rw full r, room)
  | inr short ↦ (c, rw short, record { valid = v; room = ground arith; same_size = refl })
]

pub make_room-HasRoom :
    (now : ℕ) (c : HttpCache)
    → 0 < c.max_size
    → IsValid c
    → (d : HttpCache) × (make_room now c ≡ some d) × HasRoom c d
unfolding make_room
make_room-HasRoom now c p v = elim (Bool-cases (leb c.max_size (length c.cache))) [
  | inl full ↦
      let (v1, same) = evict_expired-IsValid now c v in
      let (d, r, room) = roomy (evict_expired now c) (rw same p) v1 in
      (
        d,
        rw full r,
        record { valid = room.valid; room = room.room; same_size = room.same_size ∙ same },
      )
  | inr short ↦ (c, rw (short, short), record { valid = v; room = ground arith; same_size = refl })
]

put_entry-IsValid :
    (now wall : ℕ) (url : String) (a : Validators) (c : HttpCache) (o : Option CacheEntry)
    → lookup url c.cache ≡ o
    → IsValid c
    → length c.cache < c.max_size
    → IsValid (put_entry now wall url a o c).1
unfolding put_entry
put_entry-IsValid now wall url a c (some e) h v room = record {
  bounded = omega (arith, length-move_to_end url e (updated wall a e) c.cache v.distinct h, room);
  distinct = move_to_end-IsDistinct url (updated wall a e) c.cache v.distinct;
  stamped = λ u n. ground (
    arith,
    lookup-insert url u now c.timestamps,
    lookup-move_to_end url u (updated wall a e) c.cache,
    v.stamped u,
  );
}
put_entry-IsValid now wall url a c none h v room = record {
  bounded =
      rw (insert_absent url (fresh_entry wall url a) c.cache h)
        (omega (arith, length-append c.cache ((url, fresh_entry wall url a) ∷ []), room));
  distinct = insert-IsDistinct url (fresh_entry wall url a) c.cache v.distinct;
  stamped = λ u n. ground (
    arith,
    lookup-insert url u now c.timestamps,
    lookup-insert url u (fresh_entry wall url a) c.cache,
    v.stamped u,
  );
}

put_entry_cached :
    (now wall : ℕ) (url : String) (a : Validators) (c : HttpCache) (o : Option CacheEntry)
    → let (e, c') = put_entry now wall url a o c in lookup url c'.cache ≡ some e
unfolding put_entry
put_entry_cached now wall url a c (some e) =
    ground (arith, lookup-move_to_end url url (updated wall a e) c.cache)
put_entry_cached now wall url a c none =
    ground (arith, lookup-insert url url (fresh_entry wall url a) c.cache)

put_entry_stamped :
    (now wall : ℕ) (url : String) (a : Validators) (c : HttpCache) (o : Option CacheEntry)
    → lookup url (put_entry now wall url a o c).1.timestamps ≡ some now
unfolding put_entry
put_entry_stamped now wall url a c (some e) = lookup-insert_self url now c.timestamps
put_entry_stamped now wall url a c none = lookup-insert_self url now c.timestamps

put_entry_size :
    (now wall : ℕ) (url : String) (a : Validators) (c : HttpCache) (o : Option CacheEntry)
    → (put_entry now wall url a o c).1.max_size ≡ c.max_size
unfolding put_entry
put_entry_size now wall url a c (some e) = refl
put_entry_size now wall url a c none = refl

pub get_size : (now : ℕ) (url : String) (c : HttpCache) → (get now url c).1.max_size ≡ c.max_size
unfolding get
get_size now url c = elim (Option-cases (lookup url c.cache)) [
  | inl miss ↦ rw miss refl
  | inr (e, hit) ↦ rw hit (ground arith)
]

-- On a valid cache of positive size store does not raise, keeps the invariant and the size limit,
-- and afterwards the URL has the returned entry and the time of the call.
pub store-IsValid :
    (now wall : ℕ) (url : String) (a : Validators) (c : HttpCache)
    → 0 < c.max_size
    → IsValid c
    → (e : CacheEntry) × (c' : HttpCache) × (store now wall url a c ≡ some (e, c'))
      × IsValid c'
      × (lookup url c'.cache ≡ some e)
      × (lookup url c'.timestamps ≡ some now)
      × (c'.max_size ≡ c.max_size)
unfolding store
store-IsValid now wall url a c p v =
    let (d, r, room) = make_room-HasRoom now c p v in
    let o : Option CacheEntry = lookup url d.cache in
    let (e, c') = put_entry now wall url a o d in
    (
      e,
      c',
      rw (r, store),
      put_entry-IsValid now wall url a d o refl room.valid room.room,
      put_entry_cached now wall url a d o,
      put_entry_stamped now wall url a d o,
      put_entry_size now wall url a d o ∙ room.same_size,
    )

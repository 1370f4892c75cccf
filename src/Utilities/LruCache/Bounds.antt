-- ===== src/Utilities/LruCache/Bounds.antt =====
-- The invariant of `LRUCache`: never more entries than `max_size`, never a key twice.
use competitor_intelligence.Base.{
  ℕ, ◌≤◌, ◌<◌, ◌≡◌, refl, arith, none, some, [], ◌∷◌, length, length-append, inl, inr, Option-cases,
  Bool-cases, leb,
}
use competitor_intelligence.Dict.{Key, Dict, lookup, insert, erase, move_to_end, IsDistinct}
use competitor_intelligence.Dict.Laws.{
  lookup-erase_self, length-erase, length-erase-le, erase-IsDistinct, append_last-IsDistinct,
  insert_absent, insert-IsDistinct,
}
use competitor_intelligence.Utilities.LruCache.{LruCache, init, get, pop_oldest, make_room, put}

module _ {K V : Type 0} ⦃key : Key K⦄ where
  pub record IsValid (c : LruCache K V) : Type 0 where
    pub positive : 0 < c.max_size
    pub bounded : length c.cache ≤ c.max_size
    pub distinct : IsDistinct c.cache

  pub init-IsValid : (max_size ttl : ℕ) → 0 < max_size → IsValid (init {K = K} {V = V} max_size ttl)
  unfolding init
  init-IsValid max_size ttl h = record { positive = h; bounded = omega arith; distinct = tt }

  length-move_to_end :
      (k : K) (e : V × ℕ) (d : Dict K (V × ℕ))
      → IsDistinct d
      → lookup k d ≡ some e
      → length (move_to_end k e d) ≡ length d
  unfolding move_to_end
  length-move_to_end k e d u h =
      omega (arith, length-append (erase k d) ((k, e) ∷ []), length-erase k e d u h)

  move_to_end-IsDistinct :
      (k : K) (e : V × ℕ) (d : Dict K (V × ℕ)) → IsDistinct d → IsDistinct (move_to_end k e d)
  unfolding move_to_end
  move_to_end-IsDistinct k e d u =
      append_last-IsDistinct k e (erase k d) (lookup-erase_self k d) (erase-IsDistinct k d u)

  -- `get` keeps the invariant, whether it hits, misses or drops a stale entry.
  pub get-IsValid : (now : ℕ) (k : K) (c : LruCache K V) → IsValid c → IsValid (get now k c).1
  unfolding get
  get-IsValid now k c h = elim (Option-cases (lookup k c.cache)) [
    | inl miss ↦ rw miss h
    | inr (e, hit) ↦ rw hit (record {
      positive = ground arith;
      bounded =
          ground (arith, length-erase-le k c.cache, length-move_to_end k e c.cache h.distinct hit);
      distinct = ground (
        arith,
        erase-IsDistinct k c.cache h.distinct,
        move_to_end-IsDistinct k e c.cache h.distinct,
      );
    })
  ]

  -- What `make_room` leaves: the key is gone, and there is room for one entry.
  pub record HasRoom (k : K) (c : LruCache K V) (d : Dict K (V × ℕ)) : Type 0 where
    pub gone : lookup k d ≡ none
    pub room : length d < c.max_size
    pub apart : IsDistinct d

  evicted :
      (k : K) (c : LruCache K V) (d : Dict K (V × ℕ))
      → 0 < c.max_size
      → length d ≤ c.max_size
      → IsDistinct d
      → lookup k d ≡ none
      → c.max_size ≤ length d
      → (rest : Dict K (V × ℕ)) × (pop_oldest d ≡ some rest) × HasRoom k c rest
  unfolding pop_oldest lookup
  evicted k c [] some_room sized apart miss full = absurd (omega arith)
  evicted k c ((j, x) ∷ rest) some_room sized apart miss full =
      (rest, refl, record { gone = ground arith; room = omega arith; apart = apart.1 })

  pub make_room-HasRoom :
      (k : K) (c : LruCache K V)
      → IsValid c
      → (d : Dict K (V × ℕ)) × (make_room k c ≡ some d) × HasRoom k c d
  unfolding make_room
  make_room-HasRoom k c h = elim (Option-cases (lookup k c.cache)) [
    | inr (e, there) ↦ rw there (
      erase k c.cache,
      refl,
      record {
        gone = lookup-erase_self k c.cache;
        room = omega (arith, length-erase k e c.cache h.distinct there, h.bounded);
        apart = erase-IsDistinct k c.cache h.distinct;
      },
    )
    | inl absent ↦ elim (Bool-cases (leb c.max_size (length c.cache))) [
      | inl full ↦
          let (rest, r, room) =
            evicted k c c.cache h.positive h.bounded h.distinct absent (ground arith) in
          (rest, rw (absent, full) r, room)
      | inr short ↦ (
        c.cache,
        rw (absent, short),
        record { gone = absent; room = ground arith; apart = h.distinct },
      )
    ]
  ]

  -- On a valid cache `put` does not raise, and keeps the invariant.
  pub put-IsValid :
      (now : ℕ) (k : K) (v : V) (c : LruCache K V)
      → IsValid c
      → (c' : LruCache K V) × (put now k v c ≡ some c') × IsValid c'
  unfolding put
  put-IsValid now k v c h =
      let (d, r, room) = make_room-HasRoom k c h in
      (
        record c { cache = insert k (v, now) d },
        rw (r, put),
        record {
          positive = h.positive;
          bounded =
              rw (insert_absent k (v, now) d room.gone)
                (omega (arith, length-append d ((k, (v, now)) ∷ []), room.room));
          distinct = insert-IsDistinct k (v, now) d room.apart;
        },
      )

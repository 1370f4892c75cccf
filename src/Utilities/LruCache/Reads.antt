-- ===== src/Utilities/LruCache/Reads.antt =====
-- What can be read from `LRUCache` after a call.
use competitor_intelligence.Base.{
  ℕ, ◌-◌, ◌≤◌, ◌≡◌, ◌≢◌, ◌⊎◌, arith, Option, none, some, [], ◌∷◌, length, inl, inr, Option-cases,
  leb, ltb, is_some, if◌then◌else◌,
}
use competitor_intelligence.Dict.{Key, Dict, lookup, IsDistinct}
use competitor_intelligence.Dict.Laws.{lookup-insert, lookup-erase, lookup-move_to_end}
use competitor_intelligence.Utilities.LruCache.{LruCache, get, pop_oldest, make_room, put, contains}
use competitor_intelligence.Utilities.LruCache.Bounds.{IsValid}

module _ {K V : Type 0} ⦃key : Key K⦄ where
  -- The value that a reader gets: the one stored, while it is not older than `ttl_seconds`.
  unfoldable pub fresh : ℕ → K → LruCache K V → Option V
  fresh now k c = elim (lookup k c.cache) [
    | none ↦ none
    | some e ↦ if ltb c.ttl_seconds (now - e.1) then none else some e.0
  ]

  pub get-fresh : (now : ℕ) (k : K) (c : LruCache K V) → (get now k c).0 ≡ fresh now k c
  unfolding get fresh
  get-fresh now k c = ground arith

  -- get returns the stored value while it is fresh, contains says whether there is one, and neither
  -- changes what any key reads at this or a later time.
  pub get_keeps_reads :
      (now later : ℕ) (k j : K) (c : LruCache K V)
      → now ≤ later
      → ((get now k c).0 ≡ fresh now k c)
        × ((contains now k c).0 ≡ is_some (fresh now k c))
        × (fresh later j (get now k c).1 ≡ fresh later j c)
        × (fresh later j (contains now k c).1 ≡ fresh later j c)
  unfolding contains get fresh
  get_keeps_reads now later k j c h = elim (Option-cases (lookup k c.cache)) [
    | inl miss ↦ ground arith
    | inr (e, hit) ↦ ground (arith, lookup-erase k j c.cache, lookup-move_to_end k j e c.cache)
  ]

  -- The key of the oldest entry.
  unfoldable pub oldest : Dict K (V × ℕ) → Option K
  oldest [] = none
  oldest (e ∷ rest) = some e.0

  -- The key that `put` evicts: the oldest entry's, when the key is new and the cache is full.
  unfoldable pub victim : K → LruCache K V → Option K
  victim k c =
      if is_some (lookup k c.cache)
      then none
      else if leb c.max_size (length c.cache)
      then oldest c.cache
      else none

  pop_oldest_reads :
      (j : K) (d rest : Dict K (V × ℕ))
      → IsDistinct d
      → pop_oldest d ≡ some rest
      → (oldest d ≢ some j → lookup j rest ≡ lookup j d)
        × (oldest d ≡ some j → lookup j rest ≡ none)
  unfolding pop_oldest oldest lookup
  pop_oldest_reads j [] rest u e = ground arith
  pop_oldest_reads j ((i, x) ∷ d) rest u e = ground arith

  make_room_reads :
      (k j : K) (c : LruCache K V) (d : Dict K (V × ℕ))
      → IsDistinct c.cache
      → make_room k c ≡ some d
      → (j ≢ k → victim k c ≢ some j → lookup j d ≡ lookup j c.cache)
        × (victim k c ≡ some j → lookup j d ≡ none)
  unfolding make_room victim
  make_room_reads k j c d u e =
      ground (arith, pop_oldest_reads j c.cache d u, lookup-erase k j c.cache)

  oldest-ne : (k : K) (d : Dict K (V × ℕ)) → lookup k d ≡ none → oldest d ≢ some k
  unfolding oldest lookup
  oldest-ne k [] miss e = cc
  oldest-ne k ((i, x) ∷ d) miss e = ground arith

  victim-ne : (k : K) (c : LruCache K V) → victim k c ≢ some k
  unfolding victim
  victim-ne k c e = oldest-ne k c.cache (ground arith) (ground arith)

  -- After `put` the key reads the new value until it is older than `ttl_seconds`, and every other
  -- key reads as before, except the victim, which is gone.
  pub put_reads :
      (now later : ℕ) (k j : K) (v : V) (c c' : LruCache K V)
      → IsValid c
      → put now k v c ≡ some c'
      → (fresh later k c' ≡ (if ltb c.ttl_seconds (later - now) then none else some v))
        × (j ≢ k → victim k c ≢ some j → fresh later j c' ≡ fresh later j c)
        × (victim k c ≡ some j → fresh later j c' ≡ none)
  unfolding put fresh
  put_reads now later k j v c c' h e = elim (Option-cases (make_room k c)) [
    | inl raised ↦ absurd (ground arith)
    | inr (d, made) ↦ ground (
      arith,
      make_room_reads k j c d h.distinct made,
      lookup-insert k k (v, now) d,
      lookup-insert k j (v, now) d,
      victim-ne k c,
    )
  ]

  -- On a valid cache, after put the key reads the new value until it is older than ttl_seconds, and
  -- every other key reads as before, except the victim: the oldest key, when a new key comes to a
  -- full cache.
  pub put_keeps_others :
      (now later : ℕ) (k j : K) (v : V) (c c' : LruCache K V)
      → IsValid c
      → put now k v c ≡ some c'
      → j ≢ k
      → victim k c ≢ some j
      → (fresh later k c' ≡ (if ltb c.ttl_seconds (later - now) then none else some v))
        × (fresh later j c' ≡ fresh later j c)
  put_keeps_others now later k j v c c' h e other spared =
      let (own, others, _) = put_reads now later k j v c c' h e in (own, others other spared)

  -- `get` adds no entry, and `put` only its own.
  pub get_only_drops :
      (now : ℕ) (k j : K) (e : V × ℕ) (c : LruCache K V)
      → lookup j (get now k c).1.cache ≡ some e
      → lookup j c.cache ≡ some e
  unfolding get
  get_only_drops now k j e c h = elim (Option-cases (lookup k c.cache)) [
    | inl miss ↦ ground arith
    | inr (x, hit) ↦ ground (arith, lookup-erase k j c.cache, lookup-move_to_end k j x c.cache)
  ]

  pop_only_drops :
      (j : K) (e : V × ℕ) (d rest : Dict K (V × ℕ))
      → IsDistinct d
      → pop_oldest d ≡ some rest
      → lookup j rest ≡ some e
      → lookup j d ≡ some e
  unfolding pop_oldest lookup
  pop_only_drops j e [] rest u p h = ground arith
  pop_only_drops j e ((i, x) ∷ d) rest u p h = ground arith

  pub put_only_adds :
      (now : ℕ) (k j : K) (v : V) (e : V × ℕ) (c c' : LruCache K V)
      → IsValid c
      → put now k v c ≡ some c'
      → lookup j c'.cache ≡ some e
      → ((j ≡ k) × (e ≡ (v, now))) ⊎ (lookup j c.cache ≡ some e)
  unfolding put make_room
  put_only_adds now k j v e c c' u p h = elim (Option-cases (make_room k c)) [
    | inl raised ↦ absurd (ground arith)
    | inr (d, made) ↦ ground (
      arith,
      lookup-insert k j (v, now) d,
      lookup-erase k j c.cache,
      pop_only_drops j e c.cache d u.distinct,
    )
  ]

-- ===== src/Utilities/LruCache.antt =====
-- `LRUCache`: an `OrderedDict` of values with the time of their storing, the least recently used
-- first. The lock makes each method atomic. `none` beside the state is the `KeyError` of `popitem`.
pub mod Bounds
pub mod Reads
use competitor_intelligence.Base.{
  ℕ, ◌-◌, Bool, Option, none, some, List, [], ◌∷◌, length, ltb, leb, if◌then◌else◌, is_some,
}
use competitor_intelligence.Dict.{Key, Dict, lookup, insert, erase, move_to_end}

pub record LruCache (K V : Type 0) : Type 0 where
  pub max_size : ℕ
  pub ttl_seconds : ℕ
  pub cache : Dict K (V × ℕ)

module _ {K V : Type 0} ⦃key : Key K⦄ where
  unfoldable pub init : ℕ → ℕ → LruCache K V
  init max_size ttl_seconds = record { max_size = max_size; ttl_seconds = ttl_seconds; cache = [] }

  -- `time.time() - timestamp > self._ttl_seconds`
  unfoldable pub is_stale : ℕ → ℕ → LruCache K V → Bool
  is_stale now timestamp c = ltb c.ttl_seconds (now - timestamp)

  get_entry : ℕ → K → Option (V × ℕ) → LruCache K V → Option V × LruCache K V
  get_entry now k none c = (none, c)
  get_entry now k (some (v, timestamp)) c =
      if is_stale now timestamp c
      then (none, record c { cache = erase k c.cache })
      else (some v, record c { cache = move_to_end k (v, timestamp) c.cache })

  unfoldable pub get : ℕ → K → LruCache K V → Option V × LruCache K V
  unfolding get_entry is_stale
  get now k c = get_entry now k (lookup k c.cache) c

  -- `self._cache.popitem(last=False)`
  unfoldable pub pop_oldest : Dict K (V × ℕ) → Option (Dict K (V × ℕ))
  pop_oldest [] = none
  pop_oldest (e ∷ rest) = some rest

  -- the `if`/`elif` of `put`
  unfoldable pub make_room : K → LruCache K V → Option (Dict K (V × ℕ))
  unfolding pop_oldest
  make_room k c =
      if is_some (lookup k c.cache)
      then some (erase k c.cache)
      else if leb c.max_size (length c.cache)
      then pop_oldest c.cache
      else some c.cache

  unfoldable pub put : ℕ → K → V → LruCache K V → Option (LruCache K V)
  unfolding make_room
  put now k v c = elim (make_room k c) [
    | none ↦ none
    | some d ↦ some (record c { cache = insert k (v, now) d })
  ]

  unfoldable pub contains : ℕ → K → LruCache K V → Bool × LruCache K V
  unfolding get
  contains now k c = let (found, c') = get now k c in (is_some found, c')

  unfoldable pub clear : LruCache K V → LruCache K V
  clear c = record c { cache = [] }

  unfoldable pub size : LruCache K V → ℕ
  size c = length c.cache

-- ===== src/LlmCache.antt =====
-- `LLMResponseCache` (app/ai/infrastructure/cache.py): responses of a model by a hash of the prompt,
-- in Redis, or in memory when Redis does not answer. The hash and JSON are parameters, and so is for
-- each call whether Redis answers; `connects` tells whether a client can be made.
pub mod Outages
use competitor_intelligence.Base.{
  ℕ, ◌+◌, ◌-◌, ◌≡◌, Bool, true, false, ◌&&◌, Option, none, some, String, List, [], ◌∷◌, length, ltb,
  if◌then◌else◌,
}
use competitor_intelligence.Dict.{Dict, string_key, lookup, insert, erase}

-- `json.dumps` and `json.loads` (`none`: it raises) on responses; a dumped one is not empty and loads
-- again.
pub record ResponseCodec (R : Type 0) : Type 1 where
  pub Text : Type 0
  pub dumps : R → Text
  pub loads : Text → Option R
  pub is_empty : Text → Bool
  pub loads-dumps : (r : R) → loads (dumps r) ≡ some r
  pub is_empty-dumps : (r : R) → is_empty (dumps r) ≡ false

-- The cache and the Redis server, which holds texts with the times at which they expire.
pub record LlmCache (R Text : Type 0) : Type 0 where
  pub memory_cache : Dict String (R × ℕ)
  pub redis_client : Bool
  pub redis_attempted : Bool
  pub server : Dict String (Text × ℕ)

module _ {R : Type 0} (codec : ResponseCodec R) (hash_prompt : String → String) (ttl : ℕ)
    (connects : Bool) where
  abbrev pub State : Type 0
  State = LlmCache R codec.Text

  -- `_get_redis`: whether there is a client, which is tried once
  unfoldable pub get_redis : State → State
  get_redis s =
      if s.redis_attempted then s else record s { redis_attempted = true; redis_client = connects }

  -- `redis.get`: a text that has not expired
  unfoldable pub server_get : ℕ → String → State → Option codec.Text
  server_get now key s = elim (lookup key s.server) [
    | none ↦ none
    | some (raw, expiry) ↦ if ltb now expiry then some raw else none
  ]

  unfoldable pub parsed : Option codec.Text → Option R
  parsed none = none
  parsed (some raw) = if codec.is_empty raw then none else codec.loads raw

  unfoldable pub from_entry : ℕ → String → Option (R × ℕ) → State → Option R × State
  from_entry now key none s = (none, s)
  from_entry now key (some (value, ts)) s =
      if ltb (now - ts) ttl
      then (some value, s)
      else (none, record s { memory_cache = erase key s.memory_cache })

  unfoldable pub from_redis : ℕ → String → Option R → State → Option R × State
  from_redis now key (some value) s = (some value, s)
  from_redis now key none s = from_entry now key (lookup key s.memory_cache) s

  unfoldable pub get : Bool → ℕ → String → State → Option R × State
  unfolding from_redis from_entry
  get answers now prompt s0 =
      let key = hash_prompt prompt in
      let s = get_redis s0 in
      from_redis now key (if s.redis_client && answers then parsed (server_get now key s) else none)
        s

  unfoldable pub set : Bool → ℕ → String → R → State → State
  set answers now prompt response s0 =
      let key = hash_prompt prompt in
      let s = get_redis s0 in
      if s.redis_client && answers
      then record s { server = insert key (codec.dumps response, now + ttl) s.server }
      else record s { memory_cache = insert key (response, now) s.memory_cache }

  unfoldable pub invalidate : Bool → String → State → State
  invalidate answers prompt s0 =
      let key = hash_prompt prompt in
      let s = get_redis s0 in
      let server = if s.redis_client && answers then erase key s.server else s.server in
      record s { server = server; memory_cache = erase key s.memory_cache }

  -- the keys that `scan_iter` finds: those that have not expired
  unfoldable pub live_keys : ℕ → Dict String (codec.Text × ℕ) → ℕ
  live_keys now [] = 0
  live_keys now ((key, (raw, expiry)) ∷ server) =
      (if ltb now expiry then 1 else 0) + live_keys now server

  unfoldable pub clear : Bool → ℕ → State → ℕ × State
  clear answers now s0 =
      let s = get_redis (record s0 { memory_cache = [] }) in
      if s.redis_client && answers
      then (live_keys now s.server, record s { server = [] })
      else (0, s)

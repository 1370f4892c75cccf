-- ===== src/LlmCache/Outages.antt =====
-- What a reader gets from the cache of model responses, and what an outage of Redis does to it.
use competitor_intelligence.Base.{
  ℕ, ◌+◌, ◌-◌, ◌≤◌, ◌<◌, ◌≡◌, refl, arith, ap, ◌∙◌, Bool, true, false, ◌&&◌, none, some, String,
  inl, inr, Bool-cases, ltb,
}
use competitor_intelligence.Dict.{string_key, lookup, insert}
use competitor_intelligence.Dict.Laws.{lookup-insert_self, lookup-erase_self}
use competitor_intelligence.LlmCache.{
  ResponseCodec, State, get_redis, server_get, parsed, from_entry, from_redis, get, set, invalidate,
}

module _ {R : Type 0} (codec : ResponseCodec R) (hash_prompt : String → String) (ttl : ℕ)
    (connects : Bool) where
  get_redis-attempted :
      (s : State codec hash_prompt ttl connects)
      → (get_redis codec hash_prompt ttl connects s).redis_attempted ≡ true
  unfolding get_redis
  get_redis-attempted s = ground arith

  get_redis_again :
      (s : State codec hash_prompt ttl connects)
      → s.redis_attempted ≡ true
      → get_redis codec hash_prompt ttl connects s ≡ s
  unfolding get_redis
  get_redis_again s h = ground arith

  read_back :
      (now later : ℕ) (key : String) (r : R) (s : State codec hash_prompt ttl connects)
      → lookup key s.server ≡ some (codec.dumps r, now + ttl)
      → later < now + ttl
      → parsed codec hash_prompt ttl connects
          (server_get codec hash_prompt ttl connects later key s)
        ≡ some r
  unfolding parsed server_get
  read_back now later key r s h young = ground (arith, codec.loads-dumps r, codec.is_empty-dumps r)

  get_up :
      (answers : Bool) (later : ℕ) (prompt : String) (r : R)
      (s : State codec hash_prompt ttl connects)
      → s.redis_attempted ≡ true
      → (s.redis_client && answers) ≡ true
      → parsed codec hash_prompt ttl connects
          (server_get codec hash_prompt ttl connects later (hash_prompt prompt) s)
        ≡ some r
      → (get codec hash_prompt ttl connects answers later prompt s).0 ≡ some r
  unfolding get from_redis
  get_up answers later prompt r s tried up found =
      rw (get_redis_again s tried, get) (rw (up, found) refl)

  get_down :
      (answers : Bool) (later ts : ℕ) (prompt : String) (r : R)
      (s : State codec hash_prompt ttl connects)
      → s.redis_attempted ≡ true
      → (s.redis_client && answers) ≡ false
      → lookup (hash_prompt prompt) s.memory_cache ≡ some (r, ts)
      → later - ts < ttl
      → (get codec hash_prompt ttl connects answers later prompt s).0 ≡ some r
  unfolding get from_redis from_entry
  get_down answers later ts prompt r s tried down found young =
      let fresh : ltb (later - ts) ttl ≡ true = ground arith in
      rw (get_redis_again s tried, get) (rw (down, found, fresh) refl)

  abbrev tried : State codec hash_prompt ttl connects → State codec hash_prompt ttl connects
  tried s = get_redis codec hash_prompt ttl connects s

  set_up :
      (answers : Bool) (now : ℕ) (prompt : String) (r : R)
      (s : State codec hash_prompt ttl connects)
      → ((tried s).redis_client && answers) ≡ true
      → set codec hash_prompt ttl connects answers now prompt r s ≡ record (tried s) {
        server = insert (hash_prompt prompt) (codec.dumps r, now + ttl) (tried s).server;
      }
  unfolding set
  set_up answers now prompt r s up = rw (up, set) refl

  set_down :
      (answers : Bool) (now : ℕ) (prompt : String) (r : R)
      (s : State codec hash_prompt ttl connects)
      → ((tried s).redis_client && answers) ≡ false
      → set codec hash_prompt ttl connects answers now prompt r s ≡ record (tried s) {
        memory_cache = insert (hash_prompt prompt) (r, now) (tried s).memory_cache;
      }
  unfolding set
  set_down answers now prompt r s down = rw (down, set) refl

  -- What is set is what get finds, as long as it is younger than the time to live and Redis answers
  -- in both calls or in neither.
  pub set-get :
      (answers : Bool) (now later : ℕ) (prompt : String) (r : R)
      (s : State codec hash_prompt ttl connects)
      → later < now + ttl
      → now ≤ later
      → (get codec hash_prompt ttl connects answers later prompt
          (set codec hash_prompt ttl connects answers now prompt r s)).0
        ≡ some r
  set-get answers now later prompt r s young after =
      let key = hash_prompt prompt in
      let s1 = tried s in
      elim (Bool-cases ((tried s).redis_client && answers)) [
        | inl up ↦
            let s2 : State codec hash_prompt ttl connects = record s1 {
              server = insert key (codec.dumps r, now + ttl) s1.server;
            } in
            ap (λ x. (get codec hash_prompt ttl connects answers later prompt x).0)
              (set_up answers now prompt r s up)
            ∙ get_up answers later prompt r s2 (get_redis-attempted s) up (
                read_back now later key r s2
                  (lookup-insert_self key (codec.dumps r, now + ttl) s1.server) young)
        | inr down ↦
            let s2 : State codec hash_prompt ttl connects = record s1 {
              memory_cache = insert key (r, now) s1.memory_cache;
            } in
            ap (λ x. (get codec hash_prompt ttl connects answers later prompt x).0)
              (set_down answers now prompt r s down)
            ∙ get_down answers later now prompt r s2 (get_redis-attempted s) down
                (lookup-insert_self key (r, now) s1.memory_cache) (omega arith)
      ]

  and_false : (b : Bool) → (b && false) ≡ false
  and_false true = refl
  and_false false = refl

  -- With a client, a response that was set in an outage stays in memory when a newer one is set in
  -- Redis: in the next outage, within the time to live of the older one, get returns the older one.
  pub outage_returns_stale :
      (first second later : ℕ) (prompt : String) (old new : R)
      (s : State codec hash_prompt ttl connects)
      → s.redis_attempted ≡ true
      → s.redis_client ≡ true
      → later - first < ttl
      → (get codec hash_prompt ttl connects false later prompt (
          set codec hash_prompt ttl connects true second prompt new
            (set codec hash_prompt ttl connects false first prompt old s))).0
        ≡ some old
  outage_returns_stale first second later prompt old new s once client young =
      let key = hash_prompt prompt in
      let same = get_redis_again s once in
      let s1 : State codec hash_prompt ttl connects = record s {
        memory_cache = insert key (old, first) s.memory_cache;
      } in
      let s2 : State codec hash_prompt ttl connects = record s1 {
        server = insert key (codec.dumps new, second + ttl) s1.server;
      } in
      let step1 : set codec hash_prompt ttl connects false first prompt old s ≡ s1 =
        set_down false first prompt old s (and_false _)
        ∙ ap
            (λ (x : State codec hash_prompt ttl connects). record x {
              memory_cache = insert key (old, first) x.memory_cache;
            })
            same in
      let same1 : tried s1 ≡ s1 = get_redis_again s1 once in
      let up : ((tried s1).redis_client && true) ≡ true =
        ap (λ (x : State codec hash_prompt ttl connects). x.redis_client && true) same1
        ∙ ap (λ b. b && true) client in
      let step2 : set codec hash_prompt ttl connects true second prompt new s1 ≡ s2 =
        set_up true second prompt new s1 up
        ∙ ap
            (λ (x : State codec hash_prompt ttl connects). record x {
              server = insert key (codec.dumps new, second + ttl) x.server;
            })
            same1 in
      ap
        (λ x.
          (get codec hash_prompt ttl connects false later prompt
            (set codec hash_prompt ttl connects true second prompt new x)).0)
        step1
      ∙ ap (λ x. (get codec hash_prompt ttl connects false later prompt x).0) step2
      ∙ get_down false later first prompt old s2 once (and_false _)
          (lookup-insert_self key (old, first) s.memory_cache) young

  -- what is found of a prompt whose entry the server and the memory do not hold
  get_absent :
      (answers : Bool) (later : ℕ) (prompt : String) (s : State codec hash_prompt ttl connects)
      → s.redis_attempted ≡ true
      → (s.redis_client ≡ true → lookup (hash_prompt prompt) s.server ≡ none)
      → lookup (hash_prompt prompt) s.memory_cache ≡ none
      → (get codec hash_prompt ttl connects answers later prompt s).0 ≡ none
  unfolding get from_redis from_entry parsed server_get
  get_absent answers later prompt s tried gone none_here =
      rw (get_redis_again s tried, get) (ground (arith, gone, none_here))

  -- What is invalidated while Redis answers is not found any more.
  pub invalidate-get :
      (answers : Bool) (later : ℕ) (prompt : String) (s : State codec hash_prompt ttl connects)
      → (get codec hash_prompt ttl connects answers later prompt
          (invalidate codec hash_prompt ttl connects true prompt s)).0
        ≡ none
  unfolding invalidate
  invalidate-get answers later prompt s =
      get_absent answers later prompt (invalidate codec hash_prompt ttl connects true prompt s)
        (get_redis-attempted s)
        (λ client. ground (arith, lookup-erase_self (hash_prompt prompt) (tried s).server))
        (lookup-erase_self (hash_prompt prompt) (tried s).memory_cache)

-- ===== src/Queue/Redis/Fifo.antt =====
-- While the server answers and holds messages of this program only, the Redis backend keeps the
-- same contract as the in-memory one.
use competitor_intelligence.Base.{
  ℕ, ◌≡◌, refl, sym, ap, ◌∙◌, append-nil, arith, Bool, true, false, none, some, String, List, [],
  ◌∷◌, ◌++◌, map, map-append, inl, inr, Bool-cases, length, length-map,
}
use competitor_intelligence.Dict.{string_key, lookup, insert, erase}
use competitor_intelligence.Queue.Backend.{
  View, IsFifo, count_retry, goes_back, returned, start, marked_retry,
}
use competitor_intelligence.Queue.Exec.{Exec}
use competitor_intelligence.Queue.Message.{QueueMessage, failed, to_dict}
use competitor_intelligence.Queue.Message.Codec.{from_dict-to_dict}
use competitor_intelligence.Queue.Redis.{
  JsonCodec, Retry, Server, encode, decode, publish_once, publish, take_parsed, consume_from,
  consume_once, consume, ack, hand_back, nack, size, purge, redis,
}

module _ (json : JsonCodec) (retrying : Retry) (uuid : ℕ → String) where
  decode-encode :
      (now : ℕ) (m : QueueMessage)
      → decode json retrying uuid now (encode json retrying uuid m) ≡ some m
  unfolding decode encode
  decode-encode now m = rw (json.loads-dumps (to_dict m)) (from_dict-to_dict (uuid now) now m)

  is_empty-encode : (m : QueueMessage) → json.is_empty (encode json retrying uuid m) ≡ false
  unfolding encode
  is_empty-encode m = json.is_empty-dumps (to_dict m)

  -- The messages of a stored list; what does not parse is left out.
  unfoldable pub messages : List json.Text → List QueueMessage
  messages [] = []
  messages (t ∷ ts) = elim (decode json retrying uuid 0 t) [
    | none ↦ messages ts
    | some m ↦ m ∷ messages ts
  ]

  messages-encode : (ms : List QueueMessage) → messages (map (encode json retrying uuid) ms) ≡ ms
  unfolding messages
  messages-encode [] = refl
  messages-encode (m ∷ ms) = rw (decode-encode 0 m, messages) (ap (◌∷◌ m) (messages-encode ms))

  abbrev pub redis_view : View (redis json retrying uuid)
  redis_view = record {
    IsLive =
        λ s. (s.reachable ≡ true) × (s.queue ≡ map (encode json retrying uuid) (messages s.queue));
    waiting = λ s. messages s.queue;
    in_flight = λ s. s.processing;
  }

  -- A live state is one whose list is the encoding of some messages, which then are its view.
  live_of :
      (s : Server json retrying uuid) (ms : List QueueMessage)
      → s.queue ≡ map (encode json retrying uuid) ms
      → (messages s.queue ≡ ms) × (s.queue ≡ map (encode json retrying uuid) (messages s.queue))
  live_of s ms e =
      let m : messages s.queue ≡ ms = ap messages e ∙ messages-encode ms in
      (m, e ∙ ap (map (encode json retrying uuid)) (sym m))

  -- A call whose first attempt succeeds is not repeated.
  first_attempt :
      {A : Type 0} (m : Exec (Server json retrying uuid) A) (s s' : Server json retrying uuid)
      (x : A)
      → m s ≡ (some x, s')
      → retrying.attempts (Server json retrying uuid) A 3 m s ≡ (some x, s')
  first_attempt m s s' x e =
      retrying.attempts_done (Server json retrying uuid) _ 2 m s x (ap (λ r. r.0) e) ∙ e

  publish_live :
      (m : QueueMessage) (s : Server json retrying uuid)
      → redis_view.IsLive s
      → (s' : Server json retrying uuid) × (publish json retrying uuid m s ≡ (some true, s'))
        × redis_view.IsLive s'
        × (messages s'.queue ≡ messages s.queue ++ m ∷ [])
        × (s'.processing ≡ s.processing)
  unfolding publish publish_once
  publish_live m s h =
      let s' : Server json retrying uuid = record s {
        queue = s.queue ++ encode json retrying uuid m ∷ [];
      } in
      let (seen, stored) = live_of s' (messages s.queue ++ m ∷ []) (rw (map-append, ← h.1)) in
      (
        s',
        first_attempt (publish_once json retrying uuid m) s s' true (ground arith),
        (h.0, stored),
        seen,
        refl,
      )

  consume_once_head :
      (now : ℕ) (m : QueueMessage) (ts : List json.Text) (s : Server json retrying uuid)
      → s.reachable ≡ true
      → s.queue ≡ encode json retrying uuid m ∷ ts
      → consume_once json retrying uuid now s ≡ (
        some (some (start now m)),
        record s { queue = ts; processing = insert m.message_id (start now m) s.processing },
      )
  unfolding consume_once consume_from take_parsed
  consume_once_head now m ts s up e = ground (arith, decode-encode now m, is_empty-encode m)

  consume_live :
      (now : ℕ) (m : QueueMessage) (rest : List QueueMessage) (s : Server json retrying uuid)
      → redis_view.IsLive s
      → messages s.queue ≡ m ∷ rest
      → (s' : Server json retrying uuid) × (consume json retrying uuid now s
          ≡ (some (some (start now m)), s'))
        × redis_view.IsLive s'
        × (messages s'.queue ≡ rest)
        × (s'.processing ≡ insert m.message_id (start now m) s.processing)
  unfolding consume
  consume_live now m rest s h e =
      let ts : List json.Text = map (encode json retrying uuid) rest in
      let s' : Server json retrying uuid = record s {
        queue = ts;
        processing = insert m.message_id (start now m) s.processing;
      } in
      let full : s.queue ≡ encode json retrying uuid m ∷ ts =
        h.1 ∙ ap (map (encode json retrying uuid)) e in
      let (seen, stored) = live_of s' rest refl in
      (
        s',
        first_attempt (consume_once json retrying uuid now) s s' (some (start now m))
            (consume_once_head now m ts s h.0 full),
        (h.0, stored),
        seen,
        refl,
      )

  nack_live :
      (k : String) (requeue : Bool) (m : QueueMessage) (s : Server json retrying uuid)
      → redis_view.IsLive s
      → lookup k s.processing ≡ some m
      → (s' : Server json retrying uuid) × (nack json retrying uuid k requeue s ≡ (some true, s'))
        × redis_view.IsLive s'
        × (messages s'.queue ≡ messages s.queue ++ returned requeue m)
        × (s'.processing ≡ erase k s.processing)
  unfolding nack hand_back returned
  nack_live k requeue m s h e = elim (Bool-cases (goes_back requeue (count_retry m))) [
    | inl back ↦
        let t = encode json retrying uuid (marked_retry (count_retry m)) in
        let s' : Server json retrying uuid = record s {
          queue = s.queue ++ t ∷ [];
          processing = erase k s.processing;
        } in
        let (seen, stored) =
          live_of s' (messages s.queue ++ marked_retry (count_retry m) ∷ [])
            (rw (map-append, ← h.1)) in
        rw back (s', ground arith, (h.0, stored), seen, refl)
    | inr out ↦
        let t = encode json retrying uuid (record (count_retry m) { status = failed }) in
        let s' : Server json retrying uuid = record s {
          dlq = s.dlq ++ t ∷ [];
          processing = erase k s.processing;
        } in
        rw (out, append-nil) (s', ground arith, h, refl, refl)
  ]

  consume_none :
      (now : ℕ) (s : Server json retrying uuid)
      → redis_view.IsLive s
      → messages s.queue ≡ []
      → consume json retrying uuid now s ≡ (some none, s)
  unfolding consume consume_once consume_from
  consume_none now s h e =
      let idle : s.queue ≡ [] = h.1 ∙ ap (map (encode json retrying uuid)) e in
      first_attempt (consume_once json retrying uuid now) s s none (ground arith)

  length-queue :
      (s : Server json retrying uuid)
      → redis_view.IsLive s
      → length s.queue ≡ length (messages s.queue)
  length-queue s h = ap length h.1 ∙ length-map (encode json retrying uuid) (messages s.queue)

  ack_missing :
      (now : ℕ) (k : String) (s : Server json retrying uuid)
      → lookup k s.processing ≡ none
      → ack json retrying uuid now k s ≡ (some false, s)
  unfolding ack
  ack_missing now k s e = ground arith

  nack_missing :
      (k : String) (requeue : Bool) (s : Server json retrying uuid)
      → lookup k s.processing ≡ none
      → nack json retrying uuid k requeue s ≡ (some false, s)
  unfolding nack
  nack_missing k requeue s e = ground arith

  size_live :
      (s : Server json retrying uuid)
      → redis_view.IsLive s
      → size json retrying uuid s ≡ (some (length (messages s.queue)), s)
  unfolding size
  size_live s h = ground (arith, length-queue s h)

  purge_live :
      (s : Server json retrying uuid)
      → redis_view.IsLive s
      → (s' : Server json retrying uuid) × (purge json retrying uuid s
          ≡ (some (length (messages s.queue)), s'))
        × redis_view.IsLive s'
        × (messages s'.queue ≡ [])
  unfolding purge messages
  purge_live s h = (record s { queue = [] }, ground (arith, length-queue s h), (h.0, refl), refl)

  -- While the server answers and its list holds messages that this program stored, the Redis
  -- backend keeps the contract of a first-in first-out queue: no call raises, messages are consumed
  -- in the order in which they were published or handed back, and a refused one comes back as long
  -- as it has retries left.
  pub redis-IsFifo : IsFifo (redis json retrying uuid) redis_view
  unfolding ack
  redis-IsFifo = record {
    publish_lem = publish_live;
    consume_empty = consume_none;
    consume_head = consume_live;
    ack_known = λ now k m s h e. rw (e, ack) (_, refl, h, refl, refl);
    ack_unknown = λ now k s h e. ack_missing now k s e;
    nack_known = nack_live;
    nack_unknown = λ k requeue s h e. nack_missing k requeue s e;
    size_lem = size_live;
    purge_lem = purge_live;
  }

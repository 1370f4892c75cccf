-- ===== src/Queue/Redis/Losses.antt =====
-- Where the Redis backend keeps a refused message, and where it loses one.
use competitor_intelligence.Base.{
  ◌&&◌, ltb, if◌then◌else◌, ℕ, ◌≡◌, ◌+◌, ap, ◌∙◌, arith, Bool, true, false, Option, none, some,
  String, List, [], ◌∷◌, length, length-append,
}
use competitor_intelligence.Dict.{string_key, lookup}
use competitor_intelligence.Dict.Laws.{lookup-erase_self}
use competitor_intelligence.Queue.Backend.{count_retry, goes_back}
use competitor_intelligence.Queue.Message.{QueueMessage}
use competitor_intelligence.Queue.Redis.{
  JsonCodec, Retry, Server, decode, take_parsed, consume_from, consume_once, consume, hand_back,
  nack, purge,
}

module _ (json : JsonCodec) (retrying : Retry) (uuid : ℕ → String) where
  -- While the server answers, refusing a message in flight succeeds and adds exactly one element to
  -- the two lists together: to the queue if it may go back and has a try left, and to the dead
  -- letters otherwise.
  pub nack_conserves :
      (k : String) (requeue : Bool) (m : QueueMessage) (s : Server json retrying uuid)
      → s.reachable ≡ true
      → lookup k s.processing ≡ some m
      → let (r, s') = nack json retrying uuid k requeue s in
        let back = requeue && ltb (m.retry_count + 1) m.max_retries in
        (r ≡ some true)
        × (length s'.queue ≡ length s.queue + (if back then 1 else 0))
        × (length s'.dlq ≡ length s.dlq + (if back then 0 else 1))
  unfolding nack hand_back goes_back count_retry
  nack_conserves k requeue m s up known = grind (arith, length-append)

  -- If the server does not answer, a refused message is lost: the call returns False, and the
  -- message is no longer in flight, nor on either list.
  pub nack_outage :
      (k : String) (requeue : Bool) (m : QueueMessage) (s : Server json retrying uuid)
      → s.reachable ≡ false
      → lookup k s.processing ≡ some m
      → let (r, s') = nack json retrying uuid k requeue s in
        (r ≡ some false) × (s'.queue ≡ s.queue) × (s'.dlq ≡ s.dlq) × (lookup k s'.processing ≡ none)
  unfolding nack hand_back
  nack_outage k requeue m s down known = ground (arith, lookup-erase_self k s.processing)

  consume_once_malformed :
      (now : ℕ) (t : json.Text) (rest : List json.Text) (s : Server json retrying uuid)
      → s.reachable ≡ true
      → s.queue ≡ t ∷ rest
      → json.is_empty t ≡ false
      → decode json retrying uuid now t ≡ none
      → consume_once json retrying uuid now s ≡ (none, record s { queue = rest })
  unfolding consume_once consume_from take_parsed
  consume_once_malformed now t rest s up full filled bad = ground arith

  -- While the server answers, an element that does not parse is off the list before it is parsed:
  -- the first attempt loses it, and the second of the three attempts goes on with the rest.
  pub consume_malformed :
      (now : ℕ) (t : json.Text) (rest : List json.Text) (s : Server json retrying uuid)
      → s.reachable ≡ true
      → s.queue ≡ t ∷ rest
      → json.is_empty t ≡ false
      → decode json retrying uuid now t ≡ none
      → consume json retrying uuid now s
        ≡ retrying.attempts
            (Server json retrying uuid)
            (Option QueueMessage)
            2
            (consume_once json retrying uuid now)
            (record s { queue = rest })
  unfolding consume
  consume_malformed now t rest s up full filled bad =
      let broken : consume_once json retrying uuid now s ≡ (none, record s { queue = rest }) =
        consume_once_malformed now t rest s up full filled bad in
      retrying.attempts_again (Server json retrying uuid) (Option QueueMessage) 1
        (consume_once json retrying uuid now) s (ap (λ r. r.0) broken)
      ∙ ap
          (λ r.
            retrying.attempts (Server json retrying uuid) (Option QueueMessage) 2
              (consume_once json retrying uuid now) r.1)
          broken

  -- While the server answers, purge returns the number of waiting messages and empties the queue,
  -- and it leaves the messages in flight and the dead letters.
  pub purge_keeps_in_flight :
      (s : Server json retrying uuid)
      → s.reachable ≡ true
      → let (r, s') = purge json retrying uuid s in
        (r ≡ some (length s.queue))
        × (s'.queue ≡ [])
        × (s'.processing ≡ s.processing)
        × (s'.dlq ≡ s.dlq)
  unfolding purge
  purge_keeps_in_flight s up = ground arith

-- ===== src/Queue/Redis.antt =====
-- `RedisQueueBackend`. The Redis server is two lists and whether it answers; `json` and tenacity's
-- `retry` are parameters with the behaviour that they document.
pub mod Fifo
pub mod Losses
use competitor_intelligence.Base.{
  ℕ, zero, suc, Bool, true, false, Option, none, some, String, List, [], ◌∷◌, ◌++◌, length, ◌≡◌,
  if◌then◌else◌,
}
use competitor_intelligence.Dict.{Dict, string_key, lookup, insert, erase}
use competitor_intelligence.Queue.Json.{JsonFields}
use competitor_intelligence.Queue.Exec.{Exec}
use competitor_intelligence.Queue.Backend.{
  QueueBackend, start, count_retry, goes_back, marked_retry,
}
use competitor_intelligence.Queue.Message.{QueueMessage, to_dict, from_dict, failed, ◌>>=◌}

-- `json.dumps` and `json.loads` (`none`: it raises); a dumped object is not empty and loads again.
pub record JsonCodec : Type 1 where
  pub Text : Type 0
  pub dumps : JsonFields → Text
  pub loads : Text → Option JsonFields
  pub is_empty : Text → Bool
  pub loads-dumps : (d : JsonFields) → loads (dumps d) ≡ some d
  pub is_empty-dumps : (d : JsonFields) → is_empty (dumps d) ≡ false

-- `@retry(stop=stop_after_attempt(n), retry=retry_if_exception_type(Exception))`
pub record Retry : Type 1 where
  pub attempts : (S A : Type 0) → ℕ → Exec S A → Exec S A
  pub attempts_done :
      (S A : Type 0) (n : ℕ) (m : Exec S A) (s : S) (a : A)
      → (m s).0 ≡ some a
      → attempts S A (suc n) m s ≡ m s
  pub attempts_again :
      (S A : Type 0) (n : ℕ) (m : Exec S A) (s : S)
      → (m s).0 ≡ none
      → attempts S A (suc (suc n)) m s ≡ attempts S A (suc n) m (m s).1
  pub attempts_over :
      (S A : Type 0) (m : Exec S A) (s : S) → (m s).0 ≡ none → attempts S A 1 m s ≡ (none, (m s).1)

pub record Redis (Text : Type 0) : Type 0 where
  pub reachable : Bool
  pub queue : List Text
  pub dlq : List Text
  pub processing : Dict String QueueMessage

-- `uuid` draws the id that `from_dict` gives to a message without one.
module _ (json : JsonCodec) (retrying : Retry) (uuid : ℕ → String) where
  abbrev pub Server : Type 0
  Server = Redis json.Text

  unfoldable pub encode : QueueMessage → json.Text
  encode m = json.dumps (to_dict m)

  unfoldable pub decode : ℕ → json.Text → Option QueueMessage
  decode now t = do d ← json.loads t; from_dict (uuid now) now d

  unfoldable pub publish_once : QueueMessage → Exec Server Bool
  publish_once m s =
      if s.reachable then (some true, record s { queue = s.queue ++ encode m ∷ [] }) else (none, s)

  unfoldable pub publish : QueueMessage → Exec Server Bool
  publish m = retrying.attempts Server Bool 3 (publish_once m)

  -- The element is off the list when it is parsed.
  unfoldable pub take_parsed : ℕ → Option QueueMessage → Exec Server (Option QueueMessage)
  take_parsed now none s = (none, s)
  take_parsed now (some m) s = (
    some (some (start now m)),
    record s { processing = insert m.message_id (start now m) s.processing },
  )

  unfoldable pub consume_from : List json.Text → ℕ → Exec Server (Option QueueMessage)
  consume_from [] now s = (some none, s)
  consume_from (t ∷ rest) now s =
      let popped : Server = record s { queue = rest } in
      if json.is_empty t then (some none, popped) else take_parsed now (decode now t) popped

  unfoldable pub consume_once : ℕ → Exec Server (Option QueueMessage)
  consume_once now s = if s.reachable then consume_from s.queue now s else (none, s)

  unfoldable pub consume : ℕ → Exec Server (Option QueueMessage)
  consume now = retrying.attempts Server (Option QueueMessage) 3 (consume_once now)

  unfoldable pub ack : ℕ → String → Exec Server Bool
  ack now k s = elim (lookup k s.processing) [
    | none ↦ (some false, s)
    | some m ↦ (some true, record s { processing = erase k s.processing })
  ]

  -- the `try` of `nack`, after the message has left `_processing`
  unfoldable pub hand_back : Bool → QueueMessage → Exec Server Bool
  hand_back requeue m s =
      if s.reachable
      then if goes_back requeue m
        then (some true, record s { queue = s.queue ++ encode (marked_retry m) ∷ [] })
        else (some true, record s { dlq = s.dlq ++ encode (record m { status = failed }) ∷ [] })
      else (some false, s)

  unfoldable pub nack : String → Bool → Exec Server Bool
  nack k requeue s = elim (lookup k s.processing) [
    | none ↦ (some false, s)
    | some m ↦ hand_back requeue (count_retry m) (record s { processing = erase k s.processing })
  ]

  unfoldable pub size : Exec Server ℕ
  size s = (some (if s.reachable then length s.queue else 0), s)

  unfoldable pub purge : Exec Server ℕ
  purge s = if s.reachable then (some (length s.queue), record s { queue = [] }) else (some 0, s)

  abbrev pub redis : QueueBackend
  redis = record {
    State = Server;
    publish = publish;
    consume = consume;
    ack = ack;
    nack = nack;
    size = size;
    purge = purge;
  }

-- ===== src/Queue/Broker.antt =====
-- `MessageQueue`: publishing, handlers by message type, and the loop that processes messages.
-- A handler reads the message and has one of three outcomes; it does not change the message.
pub mod Counts
pub mod Rounds
pub mod Loop
use competitor_intelligence.Base.{
  ℕ, zero, suc, ◌+◌, Bool, true, false, Option, none, some, String, List, [], ◌∷◌, map,
  if◌then◌else◌,
}
use competitor_intelligence.Dict.{Key, Dict, lookup, insert}
use competitor_intelligence.Queue.Json.{JsonFields, end}
use competitor_intelligence.Queue.Exec.{Exec, pure, raise, try_except, ◌>>=◌, ◌>>◌}
use competitor_intelligence.Queue.Message.{QueueMessage, MessageType, pending}
use competitor_intelligence.Queue.Backend.{QueueBackend}

pub data Outcome : Type 0 where
  success failure raised : Outcome

abbrev pub Handler : Type 0
Handler = QueueMessage → Outcome

pub MessageType-discrete : Discrete MessageType
MessageType-discrete = hlevel

instance abbrev pub type_key : Key MessageType
unfolding MessageType-discrete
type_key = record { dec = MessageType-discrete }

pub record Stats : Type 0 where
  pub published : ℕ
  pub consumed : ℕ
  pub acknowledged : ℕ
  pub failed : ℕ

-- `_stats["consumed"] += 1`, and so on
abbrev pub bump_published : Stats → Stats
bump_published t = record t { published = t.published + 1 }

abbrev pub bump_consumed : Stats → Stats
bump_consumed t = record t { consumed = t.consumed + 1 }

abbrev pub bump_acknowledged : Stats → Stats
bump_acknowledged t = record t { acknowledged = t.acknowledged + 1 }

abbrev pub bump_failed : Stats → Stats
bump_failed t = record t { failed = t.failed + 1 }

pub record Broker (b : QueueBackend) : Type 0 where
  pub backend : b.State
  pub handlers : Dict MessageType Handler
  pub stats : Stats

-- The message that `publish` makes: the id and the clock are drawn by the dataclass.
unfoldable pub new_message :
    String → ℕ → MessageType → JsonFields → Option JsonFields → QueueMessage
new_message fresh_id now message_type payload metadata = record {
  message_id = fresh_id;
  message_type = message_type;
  payload = payload;
  status = pending;
  created_at = now;
  processed_at = none;
  completed_at = none;
  retry_count = 0;
  max_retries = 3;
  error = none;
  metadata = elim metadata [ none ↦ end | some fs ↦ fs ];
}

module _ (b : QueueBackend) where
  -- a call of the backend
  abbrev pub call : {A : Type 0} → Exec b.State A → Exec (Broker b) A
  call m q = let (r, s) = m q.backend in (r, record q { backend = s })

  abbrev pub count : (Stats → Stats) → Exec (Broker b) (Unit {0})
  count f q = (some tt, record q { stats = f q.stats })

  unfoldable pub set_handler : MessageType → Handler → Broker b → Broker b
  set_handler t h q = record q { handlers = insert t h q.handlers }

  unfoldable pub publish :
      String → ℕ → MessageType → JsonFields → Option JsonFields → Exec (Broker b) String
  publish fresh_id now message_type payload metadata = do
    let message = new_message fresh_id now message_type payload metadata
    done ← call (b.publish message)
    if done then (do count bump_published; pure message.message_id) else pure ""

  -- the `else` branch, and the body of `except`
  unfoldable pub refuse : Bool → QueueMessage → Exec (Broker b) Bool
  refuse requeue m = do call (b.nack m.message_id requeue); count bump_failed; pure false

  unfoldable pub accept : ℕ → QueueMessage → Exec (Broker b) Bool
  accept now m = do call (b.ack now m.message_id); count bump_acknowledged; pure true

  -- the body of `try`
  unfoldable pub attempt : ℕ → Outcome → QueueMessage → Exec (Broker b) Bool
  attempt now success m = accept now m
  attempt now failure m = refuse true m
  attempt now raised m = raise

  unfoldable pub dispatch : ℕ → Option Handler → QueueMessage → Exec (Broker b) Bool
  dispatch now none m = refuse false m
  dispatch now (some h) m = try_except (attempt now (h m) m) (refuse true m)

  unfoldable pub deliver : ℕ → Option QueueMessage → Exec (Broker b) Bool
  deliver now none = pure false
  deliver now (some m) = do
    count bump_consumed
    λ q. dispatch now (lookup m.message_type q.handlers) m q

  unfoldable pub process_next : ℕ → Exec (Broker b) Bool
  process_next now = do m ← call (b.consume now); deliver now m

  -- the `for` loop with its `break`; `clock` is read in each round
  unfoldable pub process_rounds : (ℕ → ℕ) → ℕ → ℕ → Exec (Broker b) ℕ
  process_rounds clock zero processed = pure processed
  process_rounds clock (suc rounds) processed = do
    let rest = process_rounds clock rounds (processed + 1)
    going ← process_next (clock processed)
    if going then rest else pure processed

  unfoldable pub process_all : (ℕ → ℕ) → ℕ → Exec (Broker b) ℕ
  process_all clock max_messages = process_rounds clock max_messages 0

  unfoldable pub get_stats : Exec (Broker b) (Stats × ℕ × List MessageType)
  get_stats = do n ← call b.size; λ q. (some (q.stats, n, map (λ e. e.0) q.handlers), q)

  unfoldable pub purge : Exec (Broker b) ℕ
  purge = call b.purge

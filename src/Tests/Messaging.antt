-- ===== src/Tests/Messaging.antt =====
-- The message queue and the worker at concrete messages.
use competitor_intelligence.Base.{
  ℕ, zero, suc, ◌+◌, ◌≡◌, refl, arith, Bool, true, false, Option, none, some, String, List, [], ◌∷◌,
  string_discrete,
}
use competitor_intelligence.Dict.{Dict, string_key, nat_key, lookup}
use competitor_intelligence.Queue.Json.{JsonFields, end, field, text}
use competitor_intelligence.Queue.Exec.{Exec}
use competitor_intelligence.Queue.Message.{
  QueueMessage, MessageType, collection, parsing, pending, to_dict, from_dict,
}
use competitor_intelligence.Queue.Message.Codec.{from_dict-to_dict}
use competitor_intelligence.Queue.Backend.{IsFifo}
use competitor_intelligence.Queue.Memory.{InMemory, in_memory}
use competitor_intelligence.Queue.Memory.Fifo.{in_memory_view, in_memory-IsFifo}
use competitor_intelligence.Queue.Broker.{
  Broker, Handler, Stats, type_key, success, failure, process_next, process_all, deliver,
}
use competitor_intelligence.Queue.Broker.Rounds.{At}
use competitor_intelligence.Queue.Broker.Loop.{streak, residue, process_all_lem}
use competitor_intelligence.Queue.Redis.{JsonCodec, Retry, Server, redis, decode}
use competitor_intelligence.Queue.Redis.Fifo.{redis_view, redis-IsFifo}
use competitor_intelligence.Worker.{CollectionWorker, run_rounds}
use competitor_intelligence.Worker.Drain.{run_rounds_empties}

abbrev message : String → MessageType → ℕ → QueueMessage
message message_id message_type retry_count = record {
  message_id = message_id;
  message_type = message_type;
  payload = field "url" (text "https://example.com") end;
  status = pending;
  created_at = 5;
  processed_at = none;
  completed_at = none;
  retry_count = retry_count;
  max_retries = 3;
  error = none;
  metadata = end;
}

abbrev first : QueueMessage
first = message "a" collection 0

abbrev second : QueueMessage
second = message "b" parsing 1

abbrev third : QueueMessage
third = message "c" collection 0

from_dict-to_dict_example : from_dict "x" 9 (to_dict second) ≡ some second
from_dict-to_dict_example = from_dict-to_dict "x" 9 second

-- One handler accepts, one refuses.
abbrev handlers : Dict MessageType Handler
handlers = (collection, λ m. success) ∷ (parsing, λ m. failure) ∷ []

abbrev no_stats : Stats
no_stats = record { published = 0; consumed = 0; acknowledged = 0; failed = 0 }

abbrev broker : List QueueMessage → Broker in_memory
broker waiting = record {
  backend = record { queue = waiting; processing = [] };
  handlers = handlers;
  stats = no_stats;
}

abbrev clock : ℕ → ℕ
clock i = 10 + i

broker-At :
    (waiting : List QueueMessage)
    → At in_memory in_memory_view in_memory-IsFifo waiting [] handlers (broker waiting)
broker-At waiting = record { live = tt; waits = refl; flies = refl; handled = refl }

process_all_lem_example :
    (q' : Broker in_memory) × (process_all in_memory clock 5 (broker (first ∷ second ∷ third ∷ []))
      ≡ (some (streak handlers clock 0 5 (first ∷ second ∷ third ∷ [])), q'))
    × At in_memory in_memory_view in_memory-IsFifo
        (residue handlers clock 0 5 (first ∷ second ∷ third ∷ []))
        []
        handlers
        q'
process_all_lem_example =
    process_all_lem handlers clock in_memory in_memory_view in_memory-IsFifo 5
      (first ∷ second ∷ third ∷ []) (broker (first ∷ second ∷ third ∷ [])) (broker-At _)

abbrev worker : CollectionWorker
worker = record { worker_id = "worker-1"; running = true; processed = 0; failed = 0 }

run_rounds_empties_example :
    (w' : CollectionWorker) × (q' : Broker in_memory) × (run_rounds in_memory clock 5
        (worker, broker (first ∷ second ∷ []))
      ≡ (w', q'))
    × (w'.failed ≡ worker.failed)
    × At in_memory in_memory_view in_memory-IsFifo [] [] handlers q'
run_rounds_empties_example =
    run_rounds_empties handlers clock in_memory in_memory_view in_memory-IsFifo 5
      (first ∷ second ∷ []) worker (broker (first ∷ second ∷ [])) (omega arith) refl (broker-At _)

idle : process_next in_memory 10 (broker []) ≡ (some false, broker [])
unfolding process_next deliver competitor_intelligence.Queue.Memory.consume
idle = refl

-- A codec that keeps the object, and a loop for the retries.
abbrev codec : JsonCodec
codec = record {
  Text = Option JsonFields;
  dumps = some;
  loads = λ t. t;
  is_empty = λ t. false;
  loads-dumps = λ d. refl;
  is_empty-dumps = λ d. refl;
}

abbrev again : {S A : Type 0} → ℕ → Exec S A → Option A × S → Option A × S
again zero m r = r
again (suc n) m (some a, s) = (some a, s)
again (suc n) m (none, s) = again n m (m s)

again-none :
    {S A : Type 0} (n : ℕ) (m : Exec S A) (r : Option A × S)
    → r.0 ≡ none
    → again (suc n) m r ≡ again n m (m r.1)
again-none n m (none, s) e = refl
again-none n m (some a, s) e = absurd (cc)

again-some :
    {S A : Type 0} (n : ℕ) (m : Exec S A) (r : Option A × S) (a : A)
    → r.0 ≡ some a
    → again n m r ≡ r
again-some zero m r a e = refl
again-some (suc n) m (some b, s) a e = refl
again-some (suc n) m (none, s) a e = absurd (cc)

again_over : {S A : Type 0} (r : Option A × S) → r.0 ≡ none → r ≡ (none, r.1)
again_over (none, s) e = refl
again_over (some a, s) e = absurd (cc)

abbrev attempts_of : (S A : Type 0) → ℕ → Exec S A → Exec S A
attempts_of S A zero m s = (none, s)
attempts_of S A (suc n) m s = again n m (m s)

abbrev tenacity : Retry
tenacity = record {
  attempts = attempts_of;
  attempts_done = λ S A n m s a e. again-some n m (m s) a e;
  attempts_again = λ S A n m s e. again-none n m (m s) e;
  attempts_over = λ S A m s e. again_over (m s) e;
}

abbrev uuid : ℕ → String
uuid n = "new"

redis-IsFifo_example : IsFifo (redis codec tenacity uuid) (redis_view codec tenacity uuid)
redis-IsFifo_example = redis-IsFifo codec tenacity uuid

abbrev server : Bool → Server codec tenacity uuid
server reachable = record {
  reachable = reachable;
  queue = none ∷ [];
  dlq = [];
  processing = ("b", second) ∷ [];
}

in_flight : (reachable : Bool) → lookup "b" (server reachable).processing ≡ some second
unfolding lookup string_discrete
in_flight reachable = refl

not_json : decode codec tenacity uuid 9 none ≡ none
unfolding decode
not_json = refl

-- ===== src/Queue/Memory.antt =====
-- `InMemoryQueueBackend`. A message whose last reference goes is dropped.
pub mod Fifo
use competitor_intelligence.Base.{
  ℕ, Bool, true, false, Option, none, some, String, List, [], ◌∷◌, ◌++◌, length, if◌then◌else◌,
}
use competitor_intelligence.Dict.{Dict, string_key, lookup, insert, erase}
use competitor_intelligence.Queue.Exec.{Exec}
use competitor_intelligence.Queue.Backend.{
  QueueBackend, start, count_retry, goes_back, marked_retry,
}
use competitor_intelligence.Queue.Message.{QueueMessage}

pub record InMemory : Type 0 where
  pub queue : List QueueMessage
  pub processing : Dict String QueueMessage

abbrev pub init : InMemory
init = record { queue = []; processing = [] }

unfoldable pub publish : QueueMessage → Exec InMemory Bool
publish m s = (some true, record s { queue = s.queue ++ m ∷ [] })

consume_from : List QueueMessage → ℕ → Exec InMemory (Option QueueMessage)
consume_from [] now s = (some none, s)
consume_from (m ∷ rest) now s = (
  some (some (start now m)),
  record s { queue = rest; processing = insert m.message_id (start now m) s.processing },
)

unfoldable pub consume : ℕ → Exec InMemory (Option QueueMessage)
unfolding consume_from
consume now s = consume_from s.queue now s

-- `ack` also marks the message as completed; nothing holds it afterwards.
unfoldable pub ack : ℕ → String → Exec InMemory Bool
ack now k s = elim (lookup k s.processing) [
  | none ↦ (some false, s)
  | some m ↦ (some true, record s { processing = erase k s.processing })
]

nack_found : QueueMessage → Bool → List QueueMessage → List QueueMessage
nack_found m requeue queue = if goes_back requeue m then queue ++ marked_retry m ∷ [] else queue

unfoldable pub nack : String → Bool → Exec InMemory Bool
unfolding nack_found goes_back count_retry
nack k requeue s = elim (lookup k s.processing) [
  | none ↦ (some false, s)
  | some m ↦ (
    some true,
    record {
      queue = nack_found (count_retry m) requeue s.queue;
      processing = erase k s.processing;
    },
  )
]

unfoldable pub size : Exec InMemory ℕ
size s = (some (length s.queue), s)

unfoldable pub purge : Exec InMemory ℕ
purge s = (some (length s.queue), init)

abbrev pub in_memory : QueueBackend
in_memory = record {
  State = InMemory;
  publish = publish;
  consume = consume;
  ack = ack;
  nack = nack;
  size = size;
  purge = purge;
}

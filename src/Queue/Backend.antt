-- ===== src/Queue/Backend.antt =====
-- `QueueBackend`: the operations, and the contract of a first-in first-out queue with messages in
-- flight that a client may rely on. The clock is an argument of the calls that read it.
use competitor_intelligence.Base.{
  ℕ, ◌+◌, ◌≡◌, Bool, true, false, ◌&&◌, Option, none, some, String, List, [], ◌∷◌, ◌++◌, ltb,
  if◌then◌else◌, length,
}
use competitor_intelligence.Dict.{Dict, string_key, lookup, insert, erase}
use competitor_intelligence.Queue.Exec.{Exec}
use competitor_intelligence.Queue.Message.{QueueMessage, processing, retry}

pub record QueueBackend : Type 1 where
  pub State : Type 0
  pub publish : QueueMessage → Exec State Bool
  pub consume : ℕ → Exec State (Option QueueMessage)
  pub ack : ℕ → String → Exec State Bool
  pub nack : String → Bool → Exec State Bool
  pub size : Exec State ℕ
  pub purge : Exec State ℕ

-- The changes of a message, shared by the two backends: `consume` starts it, `nack` counts a try.
unfoldable pub start : ℕ → QueueMessage → QueueMessage
start now m = record m { status = processing; processed_at = some now }

unfoldable pub count_retry : QueueMessage → QueueMessage
count_retry m = record m { retry_count = m.retry_count + 1 }

-- `requeue and message.retry_count < message.max_retries`, after the try is counted
unfoldable pub goes_back : Bool → QueueMessage → Bool
goes_back requeue m = requeue && ltb m.retry_count m.max_retries

abbrev pub marked_retry : QueueMessage → QueueMessage
marked_retry m = record m { status = retry }

-- What a refused message leaves at the end of the queue.
unfoldable pub returned : Bool → QueueMessage → List QueueMessage
unfolding count_retry goes_back
returned requeue m =
    if goes_back requeue (count_retry m) then marked_retry (count_retry m) ∷ [] else []

-- The abstract state of a backend: the messages that wait, the oldest first, and those in flight.
pub record View (b : QueueBackend) : Type 1 where
  pub IsLive : b.State → Type 0
  pub waiting : b.State → List QueueMessage
  pub in_flight : b.State → Dict String QueueMessage

-- The contract: on a live state no call raises, and each has this effect on the abstract state.
pub record IsFifo (b : QueueBackend) (v : View b) : Type 0 where
  pub publish_lem :
      (m : QueueMessage) (s : b.State)
      → v.IsLive s
      → (s' : b.State) × (b.publish m s ≡ (some true, s'))
        × v.IsLive s'
        × (v.waiting s' ≡ v.waiting s ++ m ∷ [])
        × (v.in_flight s' ≡ v.in_flight s)
  pub consume_empty :
      (now : ℕ) (s : b.State) → v.IsLive s → v.waiting s ≡ [] → b.consume now s ≡ (some none, s)
  pub consume_head :
      (now : ℕ) (m : QueueMessage) (rest : List QueueMessage) (s : b.State)
      → v.IsLive s
      → v.waiting s ≡ m ∷ rest
      → (s' : b.State) × (b.consume now s ≡ (some (some (start now m)), s'))
        × v.IsLive s'
        × (v.waiting s' ≡ rest)
        × (v.in_flight s' ≡ insert m.message_id (start now m) (v.in_flight s))
  pub ack_known :
      (now : ℕ) (k : String) (m : QueueMessage) (s : b.State)
      → v.IsLive s
      → lookup k (v.in_flight s) ≡ some m
      → (s' : b.State) × (b.ack now k s ≡ (some true, s'))
        × v.IsLive s'
        × (v.waiting s' ≡ v.waiting s)
        × (v.in_flight s' ≡ erase k (v.in_flight s))
  pub ack_unknown :
      (now : ℕ) (k : String) (s : b.State)
      → v.IsLive s
      → lookup k (v.in_flight s) ≡ none
      → b.ack now k s ≡ (some false, s)
  pub nack_known :
      (k : String) (requeue : Bool) (m : QueueMessage) (s : b.State)
      → v.IsLive s
      → lookup k (v.in_flight s) ≡ some m
      → (s' : b.State) × (b.nack k requeue s ≡ (some true, s'))
        × v.IsLive s'
        × (v.waiting s' ≡ v.waiting s ++ returned requeue m)
        × (v.in_flight s' ≡ erase k (v.in_flight s))
  pub nack_unknown :
      (k : String) (requeue : Bool) (s : b.State)
      → v.IsLive s
      → lookup k (v.in_flight s) ≡ none
      → b.nack k requeue s ≡ (some false, s)
  pub size_lem : (s : b.State) → v.IsLive s → b.size s ≡ (some (length (v.waiting s)), s)
  pub purge_lem :
      (s : b.State)
      → v.IsLive s
      → (s' : b.State) × (b.purge s ≡ (some (length (v.waiting s)), s'))
        × v.IsLive s'
        × (v.waiting s' ≡ [])

-- ===== src/Queue/Memory/Fifo.antt =====
-- The in-memory backend keeps the contract of a first-in first-out queue, in every state.
use competitor_intelligence.Base.{
  ℕ, ◌≡◌, refl, sym, append-nil, arith, Bool, false, none, some, String, List, ◌++◌, [], inl, inr,
  Bool-cases,
}
use competitor_intelligence.Dict.{string_key, lookup}
use competitor_intelligence.Queue.Backend.{View, IsFifo, count_retry, goes_back, returned}
use competitor_intelligence.Queue.Memory.{
  InMemory, init, publish, consume, ack, nack_found, nack, size, purge, in_memory,
}
use competitor_intelligence.Queue.Message.{QueueMessage}

nack_found-returned :
    (m : QueueMessage) (requeue : Bool) (q : List QueueMessage)
    → nack_found (count_retry m) requeue q ≡ q ++ returned requeue m
unfolding nack_found returned
nack_found-returned m requeue q = elim (Bool-cases (goes_back requeue (count_retry m))) [
  | inl back ↦ rw back
  | inr out ↦ rw out (sym (append-nil q))
]

consume_idle : (now : ℕ) (s : InMemory) → s.queue ≡ [] → consume now s ≡ (some none, s)
unfolding consume
consume_idle now s e = ground arith

ack_missing :
    (now : ℕ) (k : String) (s : InMemory)
    → lookup k s.processing ≡ none
    → ack now k s ≡ (some false, s)
unfolding ack
ack_missing now k s e = ground arith

nack_missing :
    (k : String) (requeue : Bool) (s : InMemory)
    → lookup k s.processing ≡ none
    → nack k requeue s ≡ (some false, s)
unfolding nack
nack_missing k requeue s e = ground arith

abbrev pub in_memory_view : View in_memory
in_memory_view = record {
  IsLive = λ s. Unit;
  waiting = λ s. s.queue;
  in_flight = λ s. s.processing;
}

-- The in-memory backend keeps the same contract in every state: no call raises, messages are
-- consumed in the order in which they were published or handed back, and a refused one comes back
-- as long as it has retries left.
pub in_memory-IsFifo : IsFifo in_memory in_memory_view
unfolding publish consume ack nack size purge
in_memory-IsFifo = record {
  publish_lem = λ m s h. (_, refl, tt, refl, refl);
  consume_empty = λ now s h e. consume_idle now s e;
  consume_head = λ now m rest s h e. rw (e, consume) (_, refl, tt, refl, refl);
  ack_known = λ now k m s h e. rw (e, ack) (_, refl, tt, refl, refl);
  ack_unknown = λ now k s h e. ack_missing now k s e;
  nack_known =
      λ k requeue m s h e. rw (e, nack) (_, refl, tt, nack_found-returned m requeue s.queue, refl);
  nack_unknown = λ k requeue s h e. nack_missing k requeue s e;
  size_lem = λ s h. refl;
  purge_lem = λ s h. (init, refl, tt, refl);
}

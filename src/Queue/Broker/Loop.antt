-- ===== src/Queue/Broker/Loop.antt =====
-- `process_all`: how far the loop comes, and where it stops.
use competitor_intelligence.Base.{
  ℕ, zero, suc, ◌≡◌, ◌+◌, refl, Bool, true, Option, none, some, List, [], ◌∷◌, ◌++◌, arith, min,
  length, drop, Bool-cases, inl, inr, if◌then◌else◌, All, append-nil,
}
use competitor_intelligence.Dict.{Dict, string_key, lookup, erase}
use competitor_intelligence.Queue.Message.{QueueMessage, MessageType}
use competitor_intelligence.Queue.Backend.{QueueBackend, View, IsFifo, start}
use competitor_intelligence.Queue.Broker.{Broker, Handler, type_key, process_rounds, process_all}
use competitor_intelligence.Queue.Broker.Rounds.{
  At, verdict, left_over, process_next_empty, process_next_head,
}

module _ (hs : Dict MessageType Handler) (clock : ℕ → ℕ) where
  -- Whether the handlers accept the message in the given round.
  abbrev pub accepts : ℕ → QueueMessage → Bool
  accepts i m = verdict (lookup m.message_type hs) (start (clock i) m)

  -- How many messages in a row are accepted, from round `i`, in at most the given rounds.
  unfoldable pub streak : ℕ → ℕ → List QueueMessage → ℕ
  streak i zero w = 0
  streak i (suc k) [] = 0
  streak i (suc k) (m ∷ w) = let more = streak (i + 1) k w in if accepts i m then suc more else 0

  -- What waits afterwards: the first refused message is taken too, and goes back or is dropped.
  unfoldable pub residue : ℕ → ℕ → List QueueMessage → List QueueMessage
  residue i zero w = w
  residue i (suc k) [] = []
  residue i (suc k) (m ∷ w) =
      let more = residue (i + 1) k w in
      if accepts i m then more else w ++ left_over (lookup m.message_type hs) (start (clock i) m)

  accepted_leaves_nothing :
      (h : Option Handler) (m : QueueMessage) → verdict h m ≡ true → left_over h m ≡ []
  accepted_leaves_nothing none m e = cc
  accepted_leaves_nothing (some h) m e = ground arith

  module _ (b : QueueBackend) (v : View b) (law : IsFifo b v) where
    rounds-At :
        (k i : ℕ) (w : List QueueMessage) (q : Broker b)
        → At b v law w [] hs q
        → (q' : Broker b) × (process_rounds b clock k i q ≡ (some (i + streak i k w), q'))
          × At b v law (residue i k w) [] hs q'
    unfolding process_rounds streak residue erase
    rounds-At zero i w q a = (q, ground arith, a)
    rounds-At (suc k) i [] q a =
        (q, rw (process_next_empty b v law (clock i) q a) (ground arith), a)
    rounds-At (suc k) i (m ∷ w) q a =
        let (q1, r1, a1) = process_next_head b v law (clock i) m q a in
        let h : Option Handler = lookup m.message_type hs in
        elim (Bool-cases (accepts i m)) [
          | inl good ↦
              let empty : left_over h (start (clock i) m) ≡ [] =
                accepted_leaves_nothing h (start (clock i) m) good in
              let a2 : At b v law w [] hs q1 = rw (empty, append-nil) at a1 in
              let (q2, r2, a3) = rounds-At k (i + 1) w q1 a2 in
              (q2, rw (r1, good) (rw r2 (ground arith)), rw good a3)
          | inr bad ↦ (q1, rw (r1, bad) (ground arith), rw bad a1)
        ]

    -- From a state with nothing in flight, process_all returns the number of messages that were
    -- accepted in a row from the front, at most max_messages. The first message that is not
    -- accepted ends the loop: it goes to the end of the queue or is dropped, and what stands behind
    -- it is not looked at.
    pub process_all_lem :
        (max_messages : ℕ) (w : List QueueMessage) (q : Broker b)
        → At b v law w [] hs q
        → (q' : Broker b) × (process_all b clock max_messages q
            ≡ (some (streak 0 max_messages w), q'))
          × At b v law (residue 0 max_messages w) [] hs q'
    unfolding process_all
    process_all_lem k w q a = let (q', r, a') = rounds-At k 0 w q a in (q', rw r (ground arith), a')

  -- Where every message is accepted, whenever it is taken, the loop does the first `max_messages`.
  accepted_streak :
      (i k : ℕ) (w : List QueueMessage)
      → All (λ m. (j : ℕ) → accepts j m ≡ true) w
      → (streak i k w ≡ min k (length w)) × (residue i k w ≡ drop k w)
  unfolding streak residue
  accepted_streak i zero w h = (omega arith, refl)
  accepted_streak i (suc k) [] h = (omega arith, refl)
  accepted_streak i (suc k) (m ∷ w) h =
      let (n, d) = accepted_streak (i + 1) k w h.1 in rw (h.0 i) (omega (arith, n), d)

  module _ (b : QueueBackend) (v : View b) (law : IsFifo b v) where
    -- With handlers that accept every waiting message, and nothing in flight, process_all processes
    -- the oldest max_messages messages, or all of them, and leaves the rest in order.
    pub process_all_accepted :
        (max_messages : ℕ) (w : List QueueMessage) (q : Broker b)
        → At b v law w [] hs q
        → All (λ m. (j : ℕ) → accepts j m ≡ true) w
        → (q' : Broker b) × (process_all b clock max_messages q
            ≡ (some (min max_messages (length w)), q'))
          × At b v law (drop max_messages w) [] hs q'
    process_all_accepted k w q a good =
        let (n, d) = accepted_streak 0 k w good in
        let (q', r, a') = process_all_lem b v law k w q a in (q', rw n at r, rw d at a')

-- ===== src/Worker/Drain.antt =====
-- A running worker empties the queue: the retry limit bounds the rounds.
use competitor_intelligence.Base.{
  ℕ, zero, suc, ◌≡◌, ◌-◌, ◌≤◌, ◌<◌, refl, Bool, true, false, Option, none, some, List, [], ◌∷◌,
  ◌++◌, arith, max, sum_by, sum_by-append,
}
use competitor_intelligence.Dict.{Dict, lookup, erase}
use competitor_intelligence.Queue.Message.{QueueMessage, MessageType}
use competitor_intelligence.Queue.Backend.{
  QueueBackend, View, IsFifo, returned, count_retry, goes_back,
}
use competitor_intelligence.Queue.Backend
use competitor_intelligence.Queue.Broker.{Broker, Handler, type_key, process_next}
use competitor_intelligence.Queue.Broker.Rounds.{
  At, verdict, left_over, process_next_empty, process_next_head,
}
use competitor_intelligence.Worker.{CollectionWorker, note_result, round, run_rounds}

-- How often a message can still be taken: once at least, and up to its retry limit.
abbrev pub attempts : QueueMessage → ℕ
attempts m = max 1 (m.max_retries - m.retry_count)

-- A message that goes back has one attempt less.
attempts-returned :
    (requeue : Bool) (now : ℕ) (m : QueueMessage)
    → sum_by attempts (returned requeue (Backend.start now m)) < attempts m
unfolding returned Backend.start
attempts-returned requeue now m = ground arith

attempts-left_over :
    (h : Option Handler) (now : ℕ) (m : QueueMessage)
    → sum_by attempts (left_over h (Backend.start now m)) < attempts m
attempts-left_over none now m = attempts-returned false now m
attempts-left_over (some h) now m = ground (arith, attempts-returned true now m)

note_result-failed :
    (r : Bool) (w : CollectionWorker)
    → ((note_result (some r) w).failed ≡ w.failed) × ((note_result (some r) w).running ≡ w.running)
unfolding note_result
note_result-failed true w = (refl, refl)
note_result-failed false w = (refl, refl)

round_running :
    (b : QueueBackend) (now : ℕ) (w : CollectionWorker) (q q' : Broker b) (r : Bool)
    → w.running ≡ true
    → process_next b now q ≡ (some r, q')
    → round b now (w, q) ≡ (note_result (some r) w, q')
unfolding round
round_running b now w q q' r on e = ground arith

module _ (hs : Dict MessageType Handler) (clock : ℕ → ℕ) (b : QueueBackend) (v : View b)
    (law : IsFifo b v) where
  -- A running worker that alone serves a queue with nothing in flight has emptied it after as many
  -- rounds as the waiting messages have attempts, whatever the handlers answer, and has counted no
  -- failure of its own.
  pub run_rounds_empties :
      (n : ℕ) (waiting : List QueueMessage) (w : CollectionWorker) (q : Broker b)
      → sum_by attempts waiting ≤ n
      → w.running ≡ true
      → At b v law waiting [] hs q
      → (w' : CollectionWorker) × (q' : Broker b) × (run_rounds b clock n (w, q) ≡ (w', q'))
        × (w'.failed ≡ w.failed)
        × At b v law [] [] hs q'
  unfolding run_rounds erase note_result
  run_rounds_empties zero [] w q enough on a = (w, q, refl, refl, a)
  run_rounds_empties zero (m ∷ ms) w q enough on a = absurd (omega arith)
  run_rounds_empties (suc n) [] w q enough on a =
      let idle = process_next_empty b v law (clock n) q a in
      let (w1, q1, r1, f1, a1) = run_rounds_empties n [] w q (omega arith) on a in
      (w1, q1, rw (round_running b (clock n) w q q false on idle) r1, f1, a1)
  run_rounds_empties (suc n) (m ∷ ms) w q enough on a =
      let (q1, r1, a1) = process_next_head b v law (clock n) m q a in
      let h : Option Handler = lookup m.message_type hs in
      let fewer : sum_by attempts (left_over h (Backend.start (clock n) m)) < attempts m =
        attempts-left_over h (clock n) m in
      let ok : Bool = verdict h (Backend.start (clock n) m) in
      let w1 : CollectionWorker = note_result (some ok) w in
      let (same, still) = note_result-failed ok w in
      let (w2, q2, r2, f2, a2) =
        run_rounds_empties n (ms ++ left_over h (Backend.start (clock n) m)) w1 q1
          (omega (arith, sum_by-append attempts ms (left_over h (Backend.start (clock n) m))))
          (cc (still, on)) a1 in
      (w2, q2, rw (round_running b (clock n) w q q1 ok on r1) r2, cc (f2, same), a2)

-- ===== src/Worker.antt =====
-- app/workers/__init__.py: `CollectionWorker`, whose loop polls the queue, and `WorkerPool`.
-- A round of the loop is one pass of `while self._running`; the sleeps only pass time.
pub mod Drain
use competitor_intelligence.Base.{
  ℕ, zero, suc, ◌+◌, Bool, true, false, Option, none, some, String, List, [], ◌∷◌, map,
  if◌then◌else◌,
}
use competitor_intelligence.Queue.Backend.{QueueBackend}
use competitor_intelligence.Queue.Broker.{Broker, process_next}

pub record CollectionWorker : Type 0 where
  pub worker_id : String
  pub running : Bool
  pub processed : ℕ
  pub failed : ℕ

abbrev pub init : String → CollectionWorker
init worker_id = record { worker_id = worker_id; running = false; processed = 0; failed = 0 }

-- `start` of a worker that runs already only logs a warning.
unfoldable pub start : CollectionWorker → CollectionWorker
start w = if w.running then w else record w { running = true }

unfoldable pub stop : CollectionWorker → CollectionWorker
stop w = record w { running = false }

-- The counters after one round, by the result of `process_next`; `none` is an exception.
unfoldable pub note_result : Option Bool → CollectionWorker → CollectionWorker
note_result (some true) w = record w { processed = w.processed + 1 }
note_result (some false) w = w
note_result none w = record w { failed = w.failed + 1 }

module _ (b : QueueBackend) where
  unfoldable pub round : ℕ → CollectionWorker × Broker b → CollectionWorker × Broker b
  round now (w, q) =
      if w.running then (let (r, q') = process_next b now q in (note_result r w, q')) else (w, q)

  -- `_run_loop` for the given number of rounds, nothing else touching worker or queue
  unfoldable pub run_rounds :
      (ℕ → ℕ) → ℕ → CollectionWorker × Broker b → CollectionWorker × Broker b
  run_rounds clock zero s = s
  run_rounds clock (suc n) s = run_rounds clock n (round (clock n) s)

-- `WorkerPool`: the workers `worker-1` to `worker-n`, by the names given.
abbrev pub WorkerPool : Type 0
WorkerPool = List CollectionWorker

unfoldable pub pool_init : List String → WorkerPool
pool_init = map init

unfoldable pub pool_start : WorkerPool → WorkerPool
pool_start = map start

unfoldable pub pool_stop : WorkerPool → WorkerPool
pool_stop = map stop

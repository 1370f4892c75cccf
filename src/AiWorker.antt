-- ===== src/AiWorker.antt =====
-- `AIWorker` (app/ai/application/worker.py): one analysis task, with the row of the competitor and the
-- file of dead letters. The outcome of the pipeline, and whether the database and the file can be
-- written, are given; the cost estimate, a float, is a function of the insight.
pub mod Tasks
use competitor_intelligence.Base.{
  ℕ, Bool, true, false, Option, none, some, List, [], ◌∷◌, ◌++◌, if◌then◌else◌,
}
use competitor_intelligence.Dict.{Dict, nat_key, lookup, insert}

-- `processing_status`; a new row has the default of its column, `completed`.
pub data Status : Type 0 where
  processing completed failed : Status

pub record Row (A : Type 0) : Type 0 where
  pub insight : A
  pub status : Status

pub record Store (A : Type 0) : Type 0 where
  pub insights : Dict ℕ (Row A)
  pub dead_letters : List ℕ

-- Which writes succeed: of the three statuses, of the insight, and of the dead letter.
pub record Writes : Type 0 where
  pub processing_ok : Bool
  pub save_ok : Bool
  pub completed_ok : Bool
  pub failed_ok : Bool
  pub letter_ok : Bool

module _ {A : Type 0} where
  -- the row after the upsert: the fields of the insight over the status that was there
  abbrev pub upserted : A → Option (Row A) → Row A
  upserted a none = record { insight = a; status = completed }
  upserted a (some row) = record { insight = a; status = row.status }

module _ {A : Type 0} (competitor : ℕ) where
  set_status : Status → Option (Row A) → Store A → Store A
  set_status status none s = s
  set_status status (some row) s = record s {
    insights = insert competitor (record row { status = status }) s.insights;
  }

  -- `_update_status`: a row that is not there is not made, and an exception is logged
  unfoldable pub update_status : Bool → Status → Store A → Store A
  unfolding set_status
  update_status ok status s = if ok then set_status status (lookup competitor s.insights) s else s

  unfoldable pub save_insight : A → Store A → Store A
  save_insight a s = record s {
    insights = insert competitor (upserted a (lookup competitor s.insights)) s.insights;
  }

  -- `_write_dlq`
  unfoldable pub write_dlq : Bool → Store A → Store A
  write_dlq ok s = if ok then record s { dead_letters = s.dead_letters ++ competitor ∷ [] } else s

  module _ (w : Writes) where
    -- the three `except` clauses do the same
    unfoldable pub fail_task : Store A → Option A × Store A
    fail_task s = (none, write_dlq w.letter_ok (update_status w.failed_ok failed s))

    unfoldable pub save_task : A → Store A → Option A × Store A
    save_task a s =
        if w.save_ok
        then (some a, update_status w.completed_ok completed (save_insight a s))
        else fail_task s

    unfoldable pub settle_task : Option A → Store A → Option A × Store A
    settle_task none s = fail_task s
    settle_task (some a) s = save_task a s

    unfoldable pub begun_task : Option A → Store A → Option A × Store A
    begun_task analysis s = settle_task analysis (update_status w.processing_ok processing s)

    -- `process_task`: `none` is an exception. What stands before the `try` is given by whether it
    -- succeeds: `_ensure_initialized` raises where the provider is not there yet and cannot be made, as
    -- without a key. A cancellation, which none of the clauses catches, is not modelled.
    unfoldable pub process_task : Bool → Option A → Store A → Option A × Store A
    process_task initialized analysis s = if initialized then begun_task analysis s else (none, s)

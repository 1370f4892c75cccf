-- ===== src/Scheduler/Round.antt =====
-- A round of `_run_loop`: `_check_and_publish` and `_regenerate_predictions`.
use competitor_intelligence.Base.{
  ℕ, ◌+◌, Option, none, some, List, [], ◌∷◌, ◌++◌, leb, if◌then◌else◌,
}
use competitor_intelligence.Scheduler.{
  Tables, DueJob, due_competitors, Collection, collected, timed_out, raised, Scheduler,
}

-- The scheduler with the competitors that were collected, in order, and the regenerations so far.
pub record Progress : Type 0 where
  pub scheduler : Scheduler
  pub attempts : List ℕ
  pub regenerations : ℕ

module _ (collect : ℕ → Collection) where
  unfoldable pub count_collection : Collection → Scheduler → Scheduler
  count_collection collected s = record s { since_last_prediction = s.since_last_prediction + 1 }
  count_collection timed_out s = s
  count_collection raised s = s

  -- the loop over the due competitors
  unfoldable pub collect_due : List DueJob → Progress → Progress
  collect_due [] p = p
  collect_due (job ∷ jobs) p = collect_due jobs (record p {
    scheduler = count_collection (collect job.comp_id) p.scheduler;
    attempts = p.attempts ++ job.comp_id ∷ [];
  })

  unfoldable pub regenerate_predictions : Progress → Progress
  regenerate_predictions p = record p {
    scheduler = record p.scheduler { since_last_prediction = 0 };
    regenerations = p.regenerations + 1;
  }

  unfoldable pub after_collections : Progress → Progress
  after_collections p =
      if leb 3 p.scheduler.since_last_prediction then regenerate_predictions p else p

  -- `none` is a read of the database that fails
  unfoldable pub check_and_publish : Option Tables → ℕ → Progress → Progress
  check_and_publish none now p = p
  check_and_publish (some t) now p = after_collections (collect_due (due_competitors t now) p)

  -- what one turn of the loop does before it sleeps
  unfoldable pub round : Option Tables → ℕ → Progress → Progress
  round t now p = if p.scheduler.paused then p else check_and_publish t now p

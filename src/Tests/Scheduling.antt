-- ===== src/Tests/Scheduling.antt =====
-- The scheduler at concrete tables and calls.
use mathlib.Core.List.{Memᴰ}
use competitor_intelligence.Base.{ℕ, ◌≡◌, ◌↔◌, refl, true, false, some, [], ◌∷◌, codes}
use competitor_intelligence.Scheduler.{
  hourly, daily, Competitor, Tables, due_competitors, Collection, collected, Scheduler, init,
  Settings, start, spawn,
}
use competitor_intelligence.Scheduler.Due.{IsDue, job_at, due_competitors_iff}
use competitor_intelligence.Scheduler.Life.{
  started, Reachable, created, called, IsSound, RunsUnnamed, overlapped, Reachable-IsSound,
  overlapped_stop,
}
use competitor_intelligence.Scheduler.Publishing.{Publishes, round-Publishes}
use competitor_intelligence.Scheduler.Round.{Progress, round}

abbrev shop : Competitor
shop = record { id = 4; name = codes "Shop"; enabled = true; collection_frequency = hourly }

abbrev rival : Competitor
rival = record { id = 5; name = codes "Rival"; enabled = true; collection_frequency = daily }

abbrev tables : Tables
tables = record {
  competitors = shop ∷ rival ∷ [];
  logs =
      record { competitor_id = 4; created_at = 100; start_time = some 90; success = some true }
      ∷ record { competitor_id = 5; created_at = 110; start_time = some 95; success = some true }
      ∷ [];
}

due_competitors_iff_example : Memᴰ (job_at hourly shop) (due_competitors tables 5000) ↔ (
    (c : Competitor) × Memᴰ c tables.competitors
    × (job_at hourly shop ≡ job_at c.collection_frequency c)
    × IsDue tables 5000 c)
due_competitors_iff_example = due_competitors_iff tables 5000 (job_at hourly shop)

abbrev collect : ℕ → Collection
collect n = collected

abbrev quiet : Scheduler
quiet = record {
  running = true;
  paused = false;
  task = some 0;
  prediction_task = some 1;
  backtest_task = some 2;
  interval_seconds = 60;
  since_last_prediction = 2;
  alive = 0 ∷ 2 ∷ [];
  next_task = 3;
}

abbrev progress : Progress
progress = record { scheduler = quiet; attempts = []; regenerations = 0 }

round-Publishes_example :
    Publishes collect
      (due_competitors tables 5000)
      progress
      (round collect (some tables) 5000 progress)
round-Publishes_example = round-Publishes collect tables 5000 progress refl

abbrev settings : Settings
settings = record { enabled = true; check_interval_seconds = 30 }

launched : Reachable (start settings init)
launched = called (started settings) created

launched_runs : (start settings init).running ≡ true
unfolding start init spawn
launched_runs = refl

Reachable-IsSound_example : IsSound (start settings init)
Reachable-IsSound_example = Reachable-IsSound launched

overlapped_stop_example :
    RunsUnnamed (start settings init).next_task (overlapped settings (start settings init))
overlapped_stop_example = overlapped_stop settings launched launched_runs refl

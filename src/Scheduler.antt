-- ===== src/Scheduler.antt =====
-- `CollectionScheduler` (app/schedulers/scheduler.py): which competitors are due, a round of the
-- loop, and the life of the three tasks. Reading the database, one collection and the regeneration of
-- the predictions are given by their outcomes; times and intervals are in seconds.
pub mod Round
pub mod Publishing
pub mod Due
pub mod Life
use competitor_intelligence.Base.{
  ℕ, zero, suc, ◌+◌, ◌-◌, Bool, true, false, not, ◌&&◌, Option, none, some, List, [], ◌∷◌, ◌++◌,
  Text, leb, ◌==◌, if◌then◌else◌,
}

pub data Frequency : Type 0 where
  hourly daily weekly monthly : Frequency

abbrev pub frequency_index : Frequency → ℕ
frequency_index hourly = 0
frequency_index daily = 1
frequency_index weekly = 2
frequency_index monthly = 3

-- `CollectionFrequency` in the order of its members
abbrev pub frequencies : List Frequency
frequencies = hourly ∷ daily ∷ weekly ∷ monthly ∷ []

-- `interval_map`
unfoldable pub interval : Frequency → ℕ
interval hourly = 3600
interval daily = 86400
interval weekly = 604800
interval monthly = 2592000

pub record Competitor : Type 0 where
  pub id : ℕ
  pub name : Text
  pub enabled : Bool
  pub collection_frequency : Frequency

pub record CollectionLog : Type 0 where
  pub competitor_id : ℕ
  pub created_at : ℕ
  pub start_time : Option ℕ
  pub success : Option Bool

-- The rows of the two tables that a check reads.
pub record Tables : Type 0 where
  pub competitors : List Competitor
  pub logs : List CollectionLog

-- `get_by_frequency`
unfoldable pub is_selected : Frequency → Competitor → Bool
is_selected f c = c.enabled && (frequency_index c.collection_frequency == frequency_index f)

unfoldable pub get_by_frequency : Frequency → List Competitor → List Competitor
get_by_frequency f [] = []
get_by_frequency f (c ∷ cs) =
    let rest = get_by_frequency f cs in if is_selected f c then c ∷ rest else rest

-- the newest of two logs, the first one where they are as old
abbrev pub newer : CollectionLog → Option CollectionLog → CollectionLog
newer l none = l
newer l (some m) = if leb m.created_at l.created_at then l else m

-- `get_latest_by_competitor`: the first row in falling order of `created_at`
unfoldable pub get_latest_by_competitor : ℕ → List CollectionLog → Option CollectionLog
get_latest_by_competitor id [] = none
get_latest_by_competitor id (l ∷ logs) =
    let rest = get_latest_by_competitor id logs in
    if l.competitor_id == id then some (newer l rest) else rest

-- `last_log.success is False`
unfoldable pub has_failed : Option Bool → Bool
has_failed (some false) = true
has_failed (some true) = false
has_failed none = false

-- Times do not fall, so `now - start_time` is a natural number, or negative and less than an interval.
unfoldable pub has_elapsed : ℕ → ℕ → Frequency → Bool
unfolding interval
has_elapsed now start f = leb (interval f + start) now

unfoldable pub started_due : Option ℕ → Option Bool → Frequency → ℕ → Bool
started_due none success f now = true
started_due (some start) success f now =
    if has_failed success then true else has_elapsed now start f

unfoldable pub should_collect : Option CollectionLog → Frequency → ℕ → Bool
should_collect none f now = true
should_collect (some log) f now = started_due log.start_time log.success f now

-- `if last_log and not self._should_collect(…): continue`
unfoldable pub is_due : Tables → ℕ → Frequency → Competitor → Bool
is_due t now f c =
    if c.enabled then should_collect (get_latest_by_competitor c.id t.logs) f now else false

-- an entry of `due_competitors`
pub record DueJob : Type 0 where
  pub comp_id : ℕ
  pub comp_name : Text
  pub freq : Frequency

unfoldable pub due_of : Tables → ℕ → Frequency → List Competitor → List DueJob
due_of t now f [] = []
due_of t now f (c ∷ cs) =
    let rest = due_of t now f cs in
    if is_due t now f c
    then record { comp_id = c.id; comp_name = c.name; freq = f } ∷ rest
    else rest

unfoldable pub due_by : Tables → ℕ → List Frequency → List DueJob
due_by t now [] = []
due_by t now (f ∷ fs) = due_of t now f (get_by_frequency f t.competitors) ++ due_by t now fs

unfoldable pub due_competitors : Tables → ℕ → List DueJob
due_competitors t now = due_by t now frequencies

-- How `wait_for(collect_competitor(…), timeout=3600)` ends.
pub data Collection : Type 0 where
  collected timed_out raised : Collection

-- The state of a `CollectionScheduler`. A task is the number of its creation; `alive` lists the tasks
-- of the event loop that have not ended.
pub record Scheduler : Type 0 where
  pub running : Bool
  pub paused : Bool
  pub task : Option ℕ
  pub prediction_task : Option ℕ
  pub backtest_task : Option ℕ
  pub interval_seconds : ℕ
  pub since_last_prediction : ℕ
  pub alive : List ℕ
  pub next_task : ℕ

unfoldable pub init : Scheduler
init = record {
  running = false;
  paused = false;
  task = none;
  prediction_task = none;
  backtest_task = none;
  interval_seconds = 60;
  since_last_prediction = 0;
  alive = [];
  next_task = 0;
}

-- `settings.scheduler`
pub record Settings : Type 0 where
  pub enabled : Bool
  pub check_interval_seconds : ℕ

-- `create_task` three times: the loop, the initial setup and the backtests
unfoldable pub spawn : Settings → Scheduler → Scheduler
spawn settings s = record s {
  running = true;
  paused = false;
  interval_seconds = settings.check_interval_seconds;
  task = some s.next_task;
  prediction_task = some (s.next_task + 1);
  backtest_task = some (s.next_task + 2);
  alive = s.next_task ∷ (s.next_task + 1) ∷ (s.next_task + 2) ∷ s.alive;
  next_task = s.next_task + 3;
}

unfoldable pub start : Settings → Scheduler → Scheduler
start settings s = if s.running then s else if settings.enabled then spawn settings s else s

-- A task that is cancelled and awaited has ended.
unfoldable pub end_task : Option ℕ → List ℕ → List ℕ
end_task none ts = ts
end_task (some t) [] = []
end_task (some t) (u ∷ ts) = let rest = end_task (some t) ts in if u == t then rest else u ∷ rest

-- `stop` awaits each task that it has cancelled, and then forgets what stands in the attribute: the
-- parts before and after an await are functions of their own, the later one of the task awaited.
unfoldable pub begin_stop : Scheduler → Scheduler
begin_stop s = record s { running = false }

unfoldable pub end_loop : Option ℕ → Scheduler → Scheduler
end_loop none s = s
end_loop (some t) s = record s { alive = end_task (some t) s.alive; task = none }

unfoldable pub end_prediction : Option ℕ → Scheduler → Scheduler
end_prediction none s = s
end_prediction (some t) s = record s { alive = end_task (some t) s.alive; prediction_task = none }

unfoldable pub end_backtest : Option ℕ → Scheduler → Scheduler
end_backtest none s = s
end_backtest (some t) s = record s { alive = end_task (some t) s.alive; backtest_task = none }

-- what `stop` does after the await of the loop
unfoldable pub finish_stop : Option ℕ → Scheduler → Scheduler
finish_stop awaited s =
    let s1 = end_loop awaited s in
    let s2 = end_prediction s1.prediction_task s1 in end_backtest s2.backtest_task s2

unfoldable pub stop : Scheduler → Scheduler
stop s = finish_stop s.task (begin_stop s)

-- the initial setup ends by itself
unfoldable pub setup_ends : Scheduler → Scheduler
setup_ends s = record s { alive = end_task s.prediction_task s.alive }

unfoldable pub pause : Scheduler → Scheduler
pause s = record s { paused = true }

unfoldable pub resume : Scheduler → Scheduler
resume s = record s { paused = false }

unfoldable pub is_running : Scheduler → Bool
is_running s = if s.running then not s.paused else false

-- ===== src/Scheduler/Life.antt =====
-- The tasks of the scheduler: what runs after any sequence of calls.
use mathlib.Core.List.{Memᴰ}
use mathlib.Core.List.Memᴰ
use competitor_intelligence.Base.{
  ℕ, ◌+◌, ◌<◌, Bool, true, false, ◌⊎◌, inl, inr, none, some, List, [], ◌∷◌, ◌==◌, if◌then◌else◌,
  ◌≡◌, ◌≢◌, refl, sym, ap, ◌∙◌, subst, arith, Bool-cases,
}
use competitor_intelligence.Scheduler.{
  Scheduler, Settings, init, spawn, start, end_task, begin_stop, end_loop, end_prediction,
  end_backtest, finish_stop, stop, setup_ends, pause, resume,
}

-- A call that runs to its end, or the end of the initial setup.
pub data Event : Type 0 where
  started : Settings → Event
  stopped paused resumed setup_ended : Event

abbrev pub after_event : Event → Scheduler → Scheduler
after_event (started settings) s = start settings s
after_event stopped s = stop s
after_event paused s = pause s
after_event resumed s = resume s
after_event setup_ended s = setup_ends s

pub data Reachable : Scheduler → Type 0 where
  created : Reachable init
  called : {s : Scheduler} (e : Event) → Reachable s → Reachable (after_event e s)

-- No task is left and none is named.
pub record IsIdle (s : Scheduler) : Type 0 where
  pub off : s.running ≡ false
  pub no_task : s.task ≡ none
  pub no_prediction : s.prediction_task ≡ none
  pub no_backtest : s.backtest_task ≡ none
  pub none_alive : s.alive ≡ []

-- The three tasks of one start are named, and they alone are alive; the setup may have ended.
pub record IsActive (s : Scheduler) : Type 0 where
  pub first : ℕ
  pub on : s.running ≡ true
  pub loop_task : s.task ≡ some first
  pub setup_task : s.prediction_task ≡ some (first + 1)
  pub backtests : s.backtest_task ≡ some (first + 2)
  pub fresh : first + 2 < s.next_task
  pub alive_tasks :
      (s.alive ≡ first ∷ (first + 1) ∷ (first + 2) ∷ []) ⊎ (s.alive ≡ first ∷ (first + 2) ∷ [])

abbrev pub IsSound : Scheduler → Type 0
IsSound s = IsIdle s ⊎ IsActive s

spawn-IsActive : (settings : Settings) (s : Scheduler) → s.alive ≡ [] → IsActive (spawn settings s)
unfolding spawn
spawn-IsActive settings s e = record {
  first = s.next_task;
  on = refl;
  loop_task = refl;
  setup_task = refl;
  backtests = refl;
  fresh = omega arith;
  alive_tasks = inl (ap (λ ts. s.next_task ∷ (s.next_task + 1) ∷ (s.next_task + 2) ∷ ts) e);
}

running_start : (settings : Settings) (s : Scheduler) → s.running ≡ true → start settings s ≡ s
unfolding start
running_start settings s e = ground arith

idle_start :
    (settings : Settings) (s : Scheduler)
    → s.running ≡ false
    → settings.enabled ≡ true
    → start settings s ≡ spawn settings s
unfolding start
idle_start settings s e d = ground arith

disabled_start :
    (settings : Settings) (s : Scheduler)
    → s.running ≡ false
    → settings.enabled ≡ false
    → start settings s ≡ s
unfolding start
disabled_start settings s e d = ground arith

start-IsSound : (settings : Settings) (s : Scheduler) → IsSound s → IsSound (start settings s)
start-IsSound settings s (inr h) = inr (subst IsActive (sym (running_start settings s h.on)) h)
start-IsSound settings s (inl h) = elim (Bool-cases settings.enabled) [
  | inl wanted ↦ inr (
      subst IsActive (sym (idle_start settings s h.off wanted))
        (spawn-IsActive settings s h.none_alive))
  | inr off ↦ inl (subst IsIdle (sym (disabled_start settings s h.off off)) h)
]

end-all :
    (n : ℕ) (ts : List ℕ)
    → (ts ≡ n ∷ (n + 1) ∷ (n + 2) ∷ []) ⊎ (ts ≡ n ∷ (n + 2) ∷ [])
    → end_task (some (n + 2)) (end_task (some (n + 1)) (end_task (some n) ts)) ≡ []
unfolding end_task
end-all n ts (inl e) = rw e (ground arith)
end-all n ts (inr e) = rw e (ground arith)

stop-IsIdle : (s : Scheduler) → IsSound s → IsIdle (stop s)
unfolding stop finish_stop begin_stop end_loop end_prediction end_backtest
stop-IsIdle s (inl h) = record {
  off = ground (arith, h.no_task, h.no_prediction, h.no_backtest);
  no_task = ground (arith, h.no_task, h.no_prediction, h.no_backtest);
  no_prediction = ground (arith, h.no_task, h.no_prediction, h.no_backtest);
  no_backtest = ground (arith, h.no_task, h.no_prediction, h.no_backtest);
  none_alive = ground (arith, h.no_task, h.no_prediction, h.no_backtest, h.none_alive);
}
stop-IsIdle s (inr h) = record {
  off = ground (arith, h.loop_task, h.setup_task, h.backtests);
  no_task = ground (arith, h.loop_task, h.setup_task, h.backtests);
  no_prediction = ground (arith, h.loop_task, h.setup_task, h.backtests);
  no_backtest = ground (arith, h.loop_task, h.setup_task, h.backtests);
  none_alive =
      ground (arith, h.loop_task, h.setup_task, h.backtests, end-all h.first s.alive h.alive_tasks);
}

pause-IsSound : (s : Scheduler) (b : Bool) → IsSound s → IsSound (record s { paused = b })
pause-IsSound s b (inl h) = inl (record {
  off = h.off;
  no_task = h.no_task;
  no_prediction = h.no_prediction;
  no_backtest = h.no_backtest;
  none_alive = h.none_alive;
})
pause-IsSound s b (inr h) = inr (record {
  first = h.first;
  on = h.on;
  loop_task = h.loop_task;
  setup_task = h.setup_task;
  backtests = h.backtests;
  fresh = h.fresh;
  alive_tasks = h.alive_tasks;
})

setup_gone : (s : Scheduler) (h : IsActive s) → (setup_ends s).alive ≡ h.first ∷ (h.first + 2) ∷ []
unfolding setup_ends end_task
setup_gone s h = ground (arith, h.setup_task, h.alive_tasks)

setup_ends-IsSound : (s : Scheduler) → IsSound s → IsSound (setup_ends s)
unfolding setup_ends end_task
setup_ends-IsSound s (inl h) = inl (record {
  off = h.off;
  no_task = h.no_task;
  no_prediction = h.no_prediction;
  no_backtest = h.no_backtest;
  none_alive = ground (arith, h.no_prediction, h.none_alive);
})
setup_ends-IsSound s (inr h) = inr (record {
  first = h.first;
  on = h.on;
  loop_task = h.loop_task;
  setup_task = h.setup_task;
  backtests = h.backtests;
  fresh = h.fresh;
  alive_tasks = inr (setup_gone s h);
})

-- After any sequence of calls of start, stop, pause and resume that run to their end, and of ends
-- of the initial setup, the scheduler does not run, names no task and has none alive, or it runs,
-- names the three tasks of one start and has no other alive: the loop and the backtests are alive,
-- and the setup may have ended.
pub Reachable-IsSound : {s : Scheduler} → Reachable s → IsSound s
unfolding init pause resume
Reachable-IsSound created = inl (record {
  off = refl;
  no_task = refl;
  no_prediction = refl;
  no_backtest = refl;
  none_alive = refl;
})
Reachable-IsSound (called {s} (started settings) r) = start-IsSound settings s (Reachable-IsSound r)
Reachable-IsSound (called {s} stopped r) = inl (stop-IsIdle s (Reachable-IsSound r))
Reachable-IsSound (called {s} paused r) = pause-IsSound s true (Reachable-IsSound r)
Reachable-IsSound (called {s} resumed r) = pause-IsSound s false (Reachable-IsSound r)
Reachable-IsSound (called {s} setup_ended r) = setup_ends-IsSound s (Reachable-IsSound r)

-- `stop` is called, and `start` runs while `stop` awaits the loop.
abbrev pub overlapped : Settings → Scheduler → Scheduler
overlapped settings s = finish_stop s.task (start settings (begin_stop s))

Memᴰ-skip : (x u : ℕ) (b : Bool) (ts : List ℕ) → Memᴰ x ts → Memᴰ x (if b then ts else u ∷ ts)
Memᴰ-skip x u true ts m = m
Memᴰ-skip x u false ts m = Memᴰ.tail m

Memᴰ-end_task : (x t : ℕ) (ts : List ℕ) → Memᴰ x ts → x ≢ t → Memᴰ x (end_task (some t) ts)
unfolding end_task
Memᴰ-end_task x t [] m other = m
Memᴰ-end_task x t (u ∷ ts) m other = elim (Memᴰ.cases_cons m) [
  | inl same ↦ rw (differs u (λ e. other (same ∙ e))) (Memᴰ.head same)
  | inr later ↦ Memᴰ-skip x u (u == t) (end_task (some t) ts) (Memᴰ-end_task x t ts later other)
]
  where
    differs : (u : ℕ) → u ≢ t → (u == t) ≡ false
    differs u h = ground arith

-- A scheduler that runs, names no loop, and has this task alive.
abbrev pub RunsUnnamed : ℕ → Scheduler → Type 0
RunsUnnamed t s = (s.running ≡ true) × (s.task ≡ none) × Memᴰ t s.alive

-- what `stop` leaves of the three tasks that were started while it waited
overlapped_spawn :
    (settings : Settings) (s : Scheduler) (t : ℕ)
    → t < s.next_task
    → RunsUnnamed s.next_task (finish_stop (some t) (spawn settings s))
unfolding finish_stop end_loop end_prediction end_backtest spawn
overlapped_spawn settings s t h = (
  refl,
  refl,
  Memᴰ-end_task _ _ _
      (Memᴰ-end_task _ _ _ (Memᴰ-end_task _ _ _ (Memᴰ.head refl) (λ e. absurd (omega arith)))
        (λ e. absurd (omega arith)))
      (λ e. absurd (omega arith)),
)

begin_off : (s : Scheduler) → (begin_stop s).running ≡ false
unfolding begin_stop
begin_off s = refl

begin_fresh : (s : Scheduler) (h : IsActive s) → h.first < (begin_stop s).next_task
unfolding begin_stop
begin_fresh s h = omega (arith, h.fresh)

-- If start runs while stop awaits the loop of a running scheduler, then after both calls the
-- scheduler runs, names no loop, and the new loop is alive: a later stop has no task to cancel.
pub overlapped_stop :
    (settings : Settings) {s : Scheduler}
    → Reachable s
    → s.running ≡ true
    → settings.enabled ≡ true
    → RunsUnnamed s.next_task (overlapped settings s)
unfolding begin_stop
overlapped_stop settings {s} r on wanted = elim (Reachable-IsSound r) [
  | inl idle ↦ cc
  | inr h ↦
      subst (λ t. RunsUnnamed s.next_task (finish_stop t (start settings (begin_stop s))))
        (sym h.loop_task)
        (subst (λ x. RunsUnnamed s.next_task (finish_stop (some h.first) x))
          (sym (idle_start settings (begin_stop s) (begin_off s) wanted))
          (overlapped_spawn settings (begin_stop s) h.first (begin_fresh s h)))
]

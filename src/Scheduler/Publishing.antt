-- ===== src/Scheduler/Publishing.antt =====
-- What a round of the scheduler collects, counts and regenerates.
use competitor_intelligence.Base.{
  ℕ, ◌+◌, ◌≤◌, ◌<◌, Bool, true, false, ◌⊎◌, some, List, [], ◌∷◌, ◌++◌, append_assoc, append-nil,
  map, if◌then◌else◌, ◌≡◌, refl, sym, ◌∙◌, arith, subst,
}
use competitor_intelligence.Scheduler.{
  Tables, DueJob, due_competitors, Collection, collected, timed_out, raised, Scheduler,
}
use competitor_intelligence.Scheduler.Round.{
  Progress, count_collection, collect_due, regenerate_predictions, after_collections,
  check_and_publish, round,
}

module _ (collect : ℕ → Collection) where
  -- 1 for a collection that ends in time and raises nothing
  abbrev pub counted : Collection → ℕ
  counted collected = 1
  counted timed_out = 0
  counted raised = 0

  abbrev pub successes : List DueJob → ℕ
  successes [] = 0
  successes (job ∷ jobs) = counted (collect job.comp_id) + successes jobs

  -- What is left of the collections of a list of jobs.
  record Collects (jobs : List DueJob) (p q : Progress) : Type 0 where
    attempted : q.attempts ≡ p.attempts ++ map (λ (j : DueJob). j.comp_id) jobs
    total : q.scheduler.since_last_prediction ≡ p.scheduler.since_last_prediction + successes jobs
    untouched : q.regenerations ≡ p.regenerations

  since-count_collection :
      (c : Collection) (s : Scheduler)
      → (count_collection collect c s).since_last_prediction ≡ s.since_last_prediction + counted c
  unfolding count_collection
  since-count_collection collected s = refl
  since-count_collection timed_out s = omega arith
  since-count_collection raised s = omega arith

  collect_due-Collects :
      (jobs : List DueJob) (p : Progress) → Collects jobs p (collect_due collect jobs p)
  unfolding collect_due
  collect_due-Collects [] p = record {
    attempted = sym (append-nil p.attempts);
    total = omega arith;
    untouched = refl;
  }
  collect_due-Collects (job ∷ jobs) p =
      let next : Progress = record p {
        scheduler = count_collection collect (collect job.comp_id) p.scheduler;
        attempts = p.attempts ++ job.comp_id ∷ [];
      } in
      let rest = collect_due-Collects jobs next in
      record {
        attempted =
            rest.attempted
            ∙ append_assoc p.attempts (job.comp_id ∷ []) (map (λ (j : DueJob). j.comp_id) jobs);
        total = omega (arith, rest.total, since-count_collection (collect job.comp_id) p.scheduler);
        untouched = rest.untouched;
      }

  -- What a check does with the jobs that it found due.
  pub record Publishes (jobs : List DueJob) (p q : Progress) : Type 0 where
    pub attempted : q.attempts ≡ p.attempts ++ map (λ (j : DueJob). j.comp_id) jobs
    pub counter :
        (p.scheduler.since_last_prediction + successes jobs < 3)
          × (q.scheduler.since_last_prediction ≡ p.scheduler.since_last_prediction + successes jobs)
          × (q.regenerations ≡ p.regenerations)
        ⊎ (3 ≤ p.scheduler.since_last_prediction + successes jobs)
          × (q.scheduler.since_last_prediction ≡ 0)
          × (q.regenerations ≡ p.regenerations + 1)

  after-Publishes :
      (jobs : List DueJob) (p q : Progress)
      → Collects jobs p q
      → Publishes jobs p (after_collections collect q)
  unfolding after_collections regenerate_predictions
  after-Publishes jobs p q h = ground (arith, h.attempted, h.total, h.untouched)

  if_off : (b : Bool) (p q : Progress) → b ≡ false → (if b then p else q) ≡ q
  if_off true p q e = cc
  if_off false p q e = refl

  -- A round that is not paused and reads the database tries each due competitor once, in order. If
  -- the collections since the last prediction, with those that now succeeded, are fewer than three,
  -- it only counts them; otherwise it regenerates the predictions once and counts from zero.
  pub round-Publishes :
      (t : Tables) (now : ℕ) (p : Progress)
      → p.scheduler.paused ≡ false
      → Publishes (due_competitors t now) p (round collect (some t) now p)
  unfolding round check_and_publish
  round-Publishes t now p h =
      let jobs = due_competitors t now in
      let q = collect_due collect jobs p in
      subst (Publishes jobs p) (sym (if_off p.scheduler.paused p (after_collections collect q) h))
        (after-Publishes jobs p q (collect_due-Collects jobs p))

-- ===== src/AiWorker/Tasks.antt =====
-- What a task leaves in the table and in the file of dead letters.
use competitor_intelligence.Base.{
  ℕ, Bool, true, false, ◌&&◌, inl, inr, Option, none, some, [], ◌∷◌, ◌++◌, if◌then◌else◌, ◌≡◌, refl,
  ap, ◌∙◌, arith, Option-cases, ite, ℕ_discrete, if_chosen,
}
use competitor_intelligence.Dict.{nat_key, lookup}
use competitor_intelligence.Dict.Laws.{lookup-insert}
use competitor_intelligence.AiWorker.{
  Status, processing, completed, failed, Row, Store, Writes, update_status, upserted, save_insight,
  write_dlq, fail_task, save_task, settle_task, begun_task, process_task,
}

module _ {A : Type 0} where
  -- the insight of a competitor, whatever its status
  abbrev pub insight_of : Option (Row A) → Option A
  insight_of none = none
  insight_of (some row) = some row.insight

module _ {A : Type 0} (competitor : ℕ) where
  insight-update_status :
      (ok : Bool) (status : Status) (s : Store A) (c : ℕ)
      → insight_of (lookup c (update_status competitor ok status s).insights)
        ≡ insight_of (lookup c s.insights)
  unfolding update_status
  insight-update_status ok status s c = elim (Option-cases (lookup competitor s.insights)) [
    | inl absent ↦ ground (arith, absent)
    | inr (row, e) ↦
        ground (arith, e, lookup-insert competitor c (record row { status = status }) s.insights)
  ]

  letters-update_status :
      (ok : Bool) (status : Status) (s : Store A)
      → (update_status competitor ok status s).dead_letters ≡ s.dead_letters
  unfolding update_status
  letters-update_status ok status s = elim (Option-cases (lookup competitor s.insights)) [
    | inl absent ↦ ground (arith, absent)
    | inr (row, e) ↦ ground (arith, e)
  ]

  insight-save_insight :
      (a : A) (s : Store A) (c : ℕ)
      → insight_of (lookup c (save_insight competitor a s).insights)
        ≡ ite (ℕ_discrete competitor c) (some a) (insight_of (lookup c s.insights))
  unfolding save_insight
  insight-save_insight a s c = elim (Option-cases (lookup competitor s.insights)) [
    | inl absent ↦ ground (arith, absent, lookup-insert competitor c (upserted a none) s.insights)
    | inr (row, e) ↦
        ground (arith, e, lookup-insert competitor c (upserted a (some row)) s.insights)
  ]

  letters-save_insight :
      (a : A) (s : Store A) → (save_insight competitor a s).dead_letters ≡ s.dead_letters
  unfolding save_insight
  letters-save_insight a s = refl

  -- A task that returns an insight has saved it, and one that raises has changed no insight and
  -- written a dead letter if the file could be written.
  abbrev pub Settles : Bool → Store A → Option A × Store A → Type 0
  Settles letter_ok s (some a, s') =
      ((c : ℕ)
        → insight_of (lookup c s'.insights)
          ≡ ite (ℕ_discrete competitor c) (some a) (insight_of (lookup c s.insights)))
      × (s'.dead_letters ≡ s.dead_letters)
  Settles letter_ok s (none, s') =
      ((c : ℕ) → insight_of (lookup c s'.insights) ≡ insight_of (lookup c s.insights))
      × (s'.dead_letters
          ≡ (if letter_ok then s.dead_letters ++ competitor ∷ [] else s.dead_letters))

  module _ (w : Writes) where
    fail_task-Settles :
        (s s1 : Store A)
        → ((c : ℕ) → insight_of (lookup c s1.insights) ≡ insight_of (lookup c s.insights))
        → s1.dead_letters ≡ s.dead_letters
        → Settles w.letter_ok s (fail_task competitor w s1)
    unfolding fail_task write_dlq
    fail_task-Settles s s1 same letters =
        let s2 = update_status competitor w.failed_ok failed s1 in
        let kept = letters-update_status w.failed_ok failed s1 ∙ letters in
        (
          λ c.
              if_chosen
                (λ (x : Store A).
                  insight_of (lookup c x.insights) ≡ insight_of (lookup c s.insights))
                w.letter_ok (record s2 { dead_letters = s2.dead_letters ++ competitor ∷ [] }) s2
                (λ ok. insight-update_status w.failed_ok failed s1 c ∙ same c)
                (λ lost. insight-update_status w.failed_ok failed s1 c ∙ same c),
          ground (arith, kept),
        )

    save_task-Settles :
        (a : A) (s s1 : Store A)
        → ((c : ℕ) → insight_of (lookup c s1.insights) ≡ insight_of (lookup c s.insights))
        → s1.dead_letters ≡ s.dead_letters
        → Settles w.letter_ok s (save_task competitor w a s1)
    unfolding save_task
    save_task-Settles a s s1 same letters =
        if_chosen (Settles w.letter_ok s) w.save_ok _ _
          (λ saved. (
            λ c.
                insight-update_status w.completed_ok completed (save_insight competitor a s1) c
                ∙ insight-save_insight a s1 c
                ∙ ap (ite (ℕ_discrete competitor c) (some a)) (same c),
            letters-update_status w.completed_ok completed (save_insight competitor a s1)
                ∙ letters-save_insight a s1
                ∙ letters,
          ))
          (λ lost. fail_task-Settles s s1 same letters)

    begun_task-Settles :
        (analysis : Option A) (s : Store A)
        → Settles w.letter_ok s (begun_task competitor w analysis s)
    unfolding begun_task settle_task
    begun_task-Settles none s =
        fail_task-Settles s (update_status competitor w.processing_ok processing s)
          (insight-update_status w.processing_ok processing s)
          (letters-update_status w.processing_ok processing s)
    begun_task-Settles (some a) s =
        save_task-Settles a s (update_status competitor w.processing_ok processing s)
          (insight-update_status w.processing_ok processing s)
          (letters-update_status w.processing_ok processing s)

    -- This is about a task that is not cancelled. If it returns an insight, it has stored it as
    -- that of its competitor, and no dead letter. If it raises, it leaves every insight as it was,
    -- and writes one dead letter for the competitor if the worker was initialized and the file can
    -- be written; where the worker cannot be initialized, it raises and writes none. The insights
    -- of other competitors stay in all cases.
    pub process_task-Settles :
        (initialized : Bool) (analysis : Option A) (s : Store A)
        → Settles (initialized && w.letter_ok) s (process_task competitor w initialized analysis s)
    unfolding process_task
    process_task-Settles true analysis s = begun_task-Settles analysis s
    process_task-Settles false analysis s = ((λ c. refl), refl)

  -- If the pipeline of an initialized worker raises for a competitor that has no row, the table
  -- stays as it was: the status "failed" is not recorded.
  pub first_failure_unseen :
      (w : Writes) (s : Store A)
      → lookup competitor s.insights ≡ none
      → (process_task competitor w true none s).1.insights ≡ s.insights
  unfolding process_task begun_task settle_task fail_task write_dlq update_status
  first_failure_unseen w s absent = ground (arith, absent)

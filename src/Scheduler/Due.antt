-- ===== src/Scheduler/Due.antt =====
-- Which competitors a check of the scheduler finds due.
use mathlib.Core.Option.{some-injective}
use mathlib.Core.List.{Memᴰ}
use mathlib.Core.List.Memᴰ
use competitor_intelligence.Base.{
  ℕ, ◌+◌, ◌≤◌, Bool, true, false, ◌⊎◌, inl, inr, ◌↔◌, Option, none, some, List, [], ◌∷◌, leb,
  leb→le, le→leb, ◌≢◌, ==_iff, get_elem?, ◌≡◌, refl, sym, ap, ◌∙◌, subst, arith, Memᴰ-kept,
  kept-head, kept-tail,
}
use competitor_intelligence.Scheduler.{
  Frequency, hourly, daily, weekly, monthly, frequency_index, frequencies, interval, Competitor,
  CollectionLog, Tables, get_by_frequency, get_latest_by_competitor, has_failed, has_elapsed,
  started_due, should_collect, is_selected, is_due, DueJob, due_of, due_by, due_competitors,
}

-- Why a competitor is due: it was never collected, its newest log has no start or is of a failure, or
-- the interval of its frequency is over.
abbrev pub IsOverdue : Option CollectionLog → Frequency → ℕ → Type 0
IsOverdue none f now = Unit
IsOverdue (some log) f now =
    (log.start_time ≡ none)
    ⊎ ((log.success ≡ some false)
        ⊎ ((start : ℕ) × (log.start_time ≡ some start) × (start + interval f ≤ now)))

abbrev pub IsDue : Tables → ℕ → Competitor → Type 0
IsDue t now c =
    (c.enabled ≡ true) × IsOverdue (get_latest_by_competitor c.id t.logs) c.collection_frequency now

abbrev pub job_at : Frequency → Competitor → DueJob
job_at f c = record { comp_id = c.id; comp_name = c.name; freq = f }

elapsed_iff :
    (s : ℕ) (success : Option Bool) (f : Frequency) (now : ℕ)
    → success ≢ some false
    → (leb (interval f + s) now ≡ true) ↔ (
        (some s ≡ none)
        ⊎ ((success ≡ some false)
            ⊎ ((start : ℕ) × (some s ≡ some start) × (start + interval f ≤ now))))
elapsed_iff s success f now other = (
  λ h. inr (inr (s, refl, omega (arith, leb→le (interval f + s) now h))),
  λ h. elim h [
    | inl e ↦ cc
    | inr (inl e) ↦ absurd (other e)
    | inr (inr (start, e, le)) ↦
        le→leb (interval f + s) now (omega (arith, some-injective s start e))
  ],
)

started_due_iff :
    (start : Option ℕ) (success : Option Bool) (f : Frequency) (now : ℕ)
    → (started_due start success f now ≡ true) ↔ (
        (start ≡ none)
        ⊎ ((success ≡ some false) ⊎ ((s : ℕ) × (start ≡ some s) × (s + interval f ≤ now))))
unfolding started_due has_elapsed has_failed
started_due_iff none success f now = ((λ h. inl refl), λ h. refl)
started_due_iff (some s) none f now = elapsed_iff s none f now (λ e. cc)
started_due_iff (some s) (some true) f now = elapsed_iff s (some true) f now (λ e. cc)
started_due_iff (some s) (some false) f now = ((λ h. inr (inl refl)), λ h. refl)

should_collect_iff :
    (log : Option CollectionLog) (f : Frequency) (now : ℕ)
    → (should_collect log f now ≡ true) ↔ IsOverdue log f now
unfolding should_collect
should_collect_iff none f now = ((λ h. tt), λ h. refl)
should_collect_iff (some log) f now = started_due_iff log.start_time log.success f now

is_due_if :
    (t : Tables) (now : ℕ) (c : Competitor)
    → IsDue t now c
    → is_due t now c.collection_frequency c ≡ true
unfolding is_due
is_due_if t now c h =
    rw (h.0)
      ((should_collect_iff (get_latest_by_competitor c.id t.logs) c.collection_frequency now).1 h.1)

abbrev or_monthly : Option Frequency → Frequency
or_monthly none = monthly
or_monthly (some f) = f

abbrev frequency_at : ℕ → Frequency
frequency_at n = or_monthly (get_elem? (hourly ∷ daily ∷ weekly ∷ []) n)

frequency_at_lem : (f : Frequency) → frequency_at (frequency_index f) ≡ f
frequency_at_lem hourly = refl
frequency_at_lem daily = refl
frequency_at_lem weekly = refl
frequency_at_lem monthly = refl

is_selected_iff :
    (f : Frequency) (c : Competitor)
    → (is_selected f c ≡ true) ↔ ((c.enabled ≡ true) × (c.collection_frequency ≡ f))
unfolding is_selected
is_selected_iff f c = (
  λ h. (
    ground (arith),
    sym (frequency_at_lem c.collection_frequency)
        ∙ ap frequency_at
            ((==_iff (frequency_index c.collection_frequency) (frequency_index f)).0 (ground arith))
        ∙ frequency_at_lem f,
  ),
  λ h. ground (arith, ap frequency_index h.1, h.0),
)

is_due_only_if :
    (t : Tables) (now : ℕ) (f : Frequency) (c : Competitor)
    → c.collection_frequency ≡ f
    → is_due t now f c ≡ true
    → IsDue t now c
unfolding is_due
is_due_only_if t now f c e h = (
  ground (arith),
  (should_collect_iff (get_latest_by_competitor c.id t.logs) c.collection_frequency now).0 (
      subst (λ g. should_collect (get_latest_by_competitor c.id t.logs) g now ≡ true) (sym e)
        (ground (arith))),
)

module _ (t : Tables) (now : ℕ) where
  -- what the query for one frequency yields
  Memᴰ-get_by_frequency :
      (f : Frequency) (cs : List Competitor) (c : Competitor)
      → Memᴰ c (get_by_frequency f cs)
      → Memᴰ c cs × (c.collection_frequency ≡ f)
  unfolding get_by_frequency
  Memᴰ-get_by_frequency f [] c m = absurd (Memᴰ.not-nil m)
  Memᴰ-get_by_frequency f (d ∷ cs) c m =
      elim (Memᴰ-kept c d (is_selected f d) (get_by_frequency f cs) m) [
        | inl (chosen, e) ↦ (
          Memᴰ.head e,
          ap (λ (x : Competitor). x.collection_frequency) e ∙ ((is_selected_iff f d).0 chosen).1,
        )
        | inr later ↦ let found = Memᴰ-get_by_frequency f cs c later in (Memᴰ.tail found.0, found.1)
      ]

  get_by_frequency-Memᴰ :
      (cs : List Competitor) (c : Competitor)
      → Memᴰ c cs
      → c.enabled ≡ true
      → Memᴰ c (get_by_frequency c.collection_frequency cs)
  unfolding get_by_frequency
  get_by_frequency-Memᴰ [] c m on = absurd (Memᴰ.not-nil m)
  get_by_frequency-Memᴰ (d ∷ cs) c m on = elim (Memᴰ.cases_cons m) [
    | inl e ↦
        kept-head c d _ _
          (subst (λ x. is_selected c.collection_frequency x ≡ true) e
            ((is_selected_iff c.collection_frequency c).1 (on, refl)))
          e
    | inr later ↦ kept-tail c d _ _ (get_by_frequency-Memᴰ cs c later on)
  ]

  Memᴰ-due_of :
      (f : Frequency) (cs : List Competitor) (job : DueJob)
      → Memᴰ job (due_of t now f cs)
      → (c : Competitor) × Memᴰ c cs × (job ≡ job_at f c) × (is_due t now f c ≡ true)
  unfolding due_of
  Memᴰ-due_of f [] job m = absurd (Memᴰ.not-nil m)
  Memᴰ-due_of f (d ∷ cs) job m =
      elim (Memᴰ-kept job (job_at f d) (is_due t now f d) (due_of t now f cs) m) [
        | inl (due, e) ↦ (d, Memᴰ.head refl, e, due)
        | inr later ↦
            let (c, found, e, due) = Memᴰ-due_of f cs job later in (c, Memᴰ.tail found, e, due)
      ]

  due_of-Memᴰ :
      (f : Frequency) (cs : List Competitor) (c : Competitor)
      → Memᴰ c cs
      → is_due t now f c ≡ true
      → Memᴰ (job_at f c) (due_of t now f cs)
  unfolding due_of
  due_of-Memᴰ f [] c m due = absurd (Memᴰ.not-nil m)
  due_of-Memᴰ f (d ∷ cs) c m due = elim (Memᴰ.cases_cons m) [
    | inl e ↦
        kept-head (job_at f c) (job_at f d) _ _ (subst (λ x. is_due t now f x ≡ true) e due)
          (ap (job_at f) e)
    | inr later ↦ kept-tail (job_at f c) (job_at f d) _ _ (due_of-Memᴰ f cs c later due)
  ]

  Memᴰ-due_by :
      (fs : List Frequency) (job : DueJob)
      → Memᴰ job (due_by t now fs)
      → (c : Competitor) × Memᴰ c t.competitors
        × (job ≡ job_at c.collection_frequency c)
        × IsDue t now c
  unfolding due_by
  Memᴰ-due_by [] job m = absurd (Memᴰ.not-nil m)
  Memᴰ-due_by (f ∷ fs) job m =
      elim (Memᴰ.append_cases (due_of t now f (get_by_frequency f t.competitors)) m) [
        | inl here ↦
            let (c, found, e, due) = Memᴰ-due_of f (get_by_frequency f t.competitors) job here in
            let (listed, same) = Memᴰ-get_by_frequency f t.competitors c found in
            (c, listed, e ∙ ap (λ g. job_at g c) (sym same), is_due_only_if t now f c same due)
        | inr later ↦ Memᴰ-due_by fs job later
      ]

  due_by-Memᴰ :
      (fs : List Frequency) (c : Competitor)
      → Memᴰ c.collection_frequency fs
      → Memᴰ c t.competitors
      → IsDue t now c
      → Memᴰ (job_at c.collection_frequency c) (due_by t now fs)
  unfolding due_by
  due_by-Memᴰ [] c known m due = absurd (Memᴰ.not-nil known)
  due_by-Memᴰ (f ∷ fs) c known m due = elim (Memᴰ.cases_cons known) [
    | inl same ↦ Memᴰ.append_left (due_by t now fs) (
        subst
          (λ g.
            Memᴰ (job_at c.collection_frequency c)
              (due_of t now g (get_by_frequency g t.competitors)))
          same
          (due_of-Memᴰ c.collection_frequency
            (get_by_frequency c.collection_frequency t.competitors) c
            (get_by_frequency-Memᴰ t.competitors c m due.0) (is_due_if t now c due)))
    | inr later ↦
        Memᴰ.append_right (due_of t now f (get_by_frequency f t.competitors))
          (due_by-Memᴰ fs c later m due)
  ]

all_frequencies : (f : Frequency) → Memᴰ f frequencies
all_frequencies hourly = Memᴰ.head refl
all_frequencies daily = Memᴰ.tail (Memᴰ.head refl)
all_frequencies weekly = Memᴰ.tail (Memᴰ.tail (Memᴰ.head refl))
all_frequencies monthly = Memᴰ.tail (Memᴰ.tail (Memᴰ.tail (Memᴰ.head refl)))

-- A check finds a job due exactly when it is that of an enabled competitor, at its own frequency,
-- that was never collected, or whose newest log has no start time, is of a failure, or started at
-- least the interval of the frequency ago.
pub due_competitors_iff :
    (t : Tables) (now : ℕ) (job : DueJob)
    → Memᴰ job (due_competitors t now) ↔ (
        (c : Competitor) × Memᴰ c t.competitors
        × (job ≡ job_at c.collection_frequency c)
        × IsDue t now c)
unfolding due_competitors
due_competitors_iff t now job = (
  Memᴰ-due_by t now frequencies job,
  λ (c, m, e, due).
      subst (λ j. Memᴰ j (due_by t now frequencies)) (sym e)
        (due_by-Memᴰ t now frequencies c (all_frequencies c.collection_frequency) m due),
)

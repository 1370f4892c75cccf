-- ===== src/Collection/Crawls.antt =====
-- Concurrent calls of `collect_competitor`: which crawls run.
use mathlib.Core.List.{Memᴰ}
use mathlib.Core.List.Memᴰ
use competitor_intelligence.Base.{ℕ, ◌+◌, some, List, [], ◌∷◌, ◌==◌, if◌then◌else◌, ◌≡◌}
use competitor_intelligence.Dict.{nat_key, contains}
use competitor_intelligence.Collection.{Service, begin_crawl, end_crawl}

-- one of the calls for this competitor is over
unfoldable pub leave : ℕ → List ℕ → List ℕ
leave id [] = []
leave id (c ∷ running) = let rest = leave id running in if c == id then running else c ∷ rest

-- The service, and the competitors of the calls that are between their two locked sections.
pub data Reachable : Service → List ℕ → Type 0 where
  idle : Reachable (record { active_crawls = [] }) []
  begins :
      {s s' : Service} {running : List ℕ} (id now : ℕ)
      → Reachable s running
      → begin_crawl id now s ≡ some s'
      → Reachable s' (id ∷ running)
  ends :
      {s : Service} {running : List ℕ} (id : ℕ)
      → Reachable s running
      → Memᴰ id running
      → Reachable (end_crawl id s) (leave id running)

abbrev pub times : ℕ → List ℕ → ℕ
times id [] = 0
times id (c ∷ running) = (if c == id then 1 else 0) + times id running

abbrev held : Service → ℕ → ℕ
held s id = if contains id s.active_crawls then 1 else 0

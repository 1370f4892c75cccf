-- ===== src/Resolution/Levenshtein.antt =====
-- `levenshtein`: the edit distance, computed by rows of a table of which one is kept.
pub mod Distance
use competitor_intelligence.Base.{
  ℕ, zero, suc, ◌+◌, min, Bool, true, false, List, [], ◌∷◌, Text, length, ltb, ◌==◌, if◌then◌else◌,
}

-- `list(range(start, start + n))`
unfoldable pub range_from : ℕ → ℕ → List ℕ
range_from start zero = []
range_from start (suc n) = start ∷ range_from (start + 1) n

unfoldable pub cost : ℕ → ℕ → ℕ
cost ca cb = if ca == cb then 0 else 1

-- The inner loop: what it appends to `curr`, whose last element is `left`; the row before, from
-- `prev[j]` on.
unfoldable pub cells : ℕ → Text → List ℕ → ℕ → List ℕ
cells ca [] prev left = []
cells ca (cb ∷ b) [] left = []
cells ca (cb ∷ b) (p0 ∷ []) left = []
cells ca (cb ∷ b) (p0 ∷ p1 ∷ prev) left =
    let cell = min (min (left + 1) (p1 + 1)) (p0 + cost ca cb) in cell ∷ cells ca b (p1 ∷ prev) cell

unfoldable pub next_row : ℕ → ℕ → Text → List ℕ → List ℕ
next_row i ca b prev = (i + 1) ∷ cells ca b prev (i + 1)

-- the outer loop
unfoldable pub rows : ℕ → Text → Text → List ℕ → List ℕ
rows i [] b prev = prev
rows i (ca ∷ a) b prev = rows (i + 1) a b (next_row i ca b prev)

-- `prev[-1]`
unfoldable pub last_or : ℕ → List ℕ → ℕ
last_or d [] = d
last_or d (x ∷ xs) = last_or x xs

table : Text → Text → ℕ
table a [] = length a
table a (cb ∷ b) = last_or 0 (rows 0 a (cb ∷ b) (range_from 0 (length (cb ∷ b) + 1)))

unfoldable pub levenshtein : Text → Text → ℕ
unfolding table
levenshtein a b = if ltb (length a) (length b) then table b a else table a b

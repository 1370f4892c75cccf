-- ===== src/Sorting.antt =====
-- `sort(key=…, reverse=True)`: a stable sort from the highest to the lowest, for a test that tells
-- whether one element is below another.
pub mod Order
use competitor_intelligence.Base.{Bool, true, false, List, [], ◌∷◌, if◌then◌else◌}

module _ {ℓ} {A : Type ℓ} (below : A → A → Bool) where
  unfoldable pub insert_by : A → List A → List A
  insert_by x [] = x ∷ []
  insert_by x (y ∷ ys) = let rest = insert_by x ys in if below x y then y ∷ rest else x ∷ y ∷ ys

  unfoldable pub sort_by : List A → List A
  sort_by [] = []
  sort_by (x ∷ xs) = insert_by x (sort_by xs)

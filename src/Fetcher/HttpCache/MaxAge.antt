-- ===== src/Fetcher/HttpCache/MaxAge.antt =====
-- `re.search(r"max-age=(\d+)", cache_control)`, over ASCII digits.
use competitor_intelligence.Base.{
  ℕ, ◌+◌, ◌-◌, ◌*◌, Bool, ◌&&◌, Option, none, some, [], ◌∷◌, leb, if◌then◌else◌, Text, codes,
  starts_with, drop,
}

unfoldable pub is_digit : ℕ → Bool
is_digit c = leb b'0' c && leb c b'9'

-- The number that the leading digits make.
unfoldable pub read_digits : ℕ → Text → ℕ
read_digits n [] = n
read_digits n (c ∷ s) =
    let more = read_digits (n * 10 + (c - b'0')) s in if is_digit c then more else n

unfoldable pub digits_first : Text → Option ℕ
unfolding is_digit read_digits
digits_first [] = none
digits_first (c ∷ s) = if is_digit c then some (read_digits 0 (c ∷ s)) else none

unfoldable pub max_age_here : Text → Option ℕ
unfolding digits_first
max_age_here s = if starts_with (codes "max-age=") s then digits_first (drop 8 s) else none

unfoldable pub find_max_age : Text → Option ℕ
unfolding max_age_here
find_max_age [] = none
find_max_age (c ∷ s) =
    let more = find_max_age s in elim (max_age_here (c ∷ s)) [ some n ↦ some n | none ↦ more ]

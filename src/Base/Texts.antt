-- ===== src/Base/Texts.antt =====
-- Texts as lists of code points, where the program looks inside them. `lower` is that of ASCII.
use Prim.Native.Nat.{ℕ, ◌+◌}
use Prim.Native.Char.{code}
use Prim.Native.String.{String}
use mathlib.Core.Path.{◌≡◌, refl}
use mathlib.Core.Bool.{Bool, true, false, ◌&&◌, ◌||◌}
use mathlib.Core.List.{List, [], ◌∷◌, ◌++◌, map}
use native.Mathlib.Omega.{arith}
use native.Mathlib.Decide.{ℕ_discrete}
use competitor_intelligence.Base.Tests.{leb, ◌==◌, if◌then◌else◌}

abbrev pub Text : Type 0
Text = List ℕ

-- The code points of a literal.
abbrev pub codes : String → Text
codes String.[] = []
codes (String.◌∷◌ c s) = code c ∷ codes s

-- Texts have decidable equality, one code point after the other.
unfoldable pub text_discrete : Discrete Text
text_discrete [] [] = yes refl
text_discrete [] (y ∷ ys) = no (λ p. cc)
text_discrete (x ∷ xs) [] = no (λ p. cc)
text_discrete (x ∷ xs) (y ∷ ys) = elim (ℕ_discrete x y) [
  | no p ↦ no (λ q. p (cc))
  | yes p ↦ elim (text_discrete xs ys) [ yes q ↦ yes (cc) | no r ↦ no (λ q. r (cc)) ]
]

abbrev pub slash : ℕ
slash = b'/'

unfoldable pub to_lower : ℕ → ℕ
to_lower c = if leb b'A' c && leb c b'Z' then c + 32 else c

unfoldable pub lower : Text → Text
lower = map to_lower

-- `s.rstrip(c)`: an end of the text that holds only `c` is dropped.
unfoldable pub rstrip : ℕ → Text → Text
rstrip c [] = []
rstrip c (x ∷ xs) = elim (rstrip c xs) [
  | [] ↦ (if x == c then [] else x ∷ [])
  | y ∷ ys ↦ x ∷ y ∷ ys
]

-- `s.startswith(p)`
unfoldable pub starts_with : Text → Text → Bool
starts_with [] s = true
starts_with (p ∷ ps) [] = false
starts_with (p ∷ ps) (x ∷ xs) = p == x && starts_with ps xs

-- `p in s`
unfoldable pub is_infix : Text → Text → Bool
is_infix p [] = starts_with p []
is_infix p (x ∷ xs) = starts_with p (x ∷ xs) || is_infix p xs

pub lower-lower : (s : Text) → lower (lower s) ≡ lower s
unfolding lower to_lower
lower-lower [] = refl
lower-lower (c ∷ s) = ground (arith, lower-lower s)

-- One more of the stripped character at the end makes no difference.
pub rstrip-append_last : (c : ℕ) (s : Text) → rstrip c (s ++ c ∷ []) ≡ rstrip c s
unfolding rstrip
rstrip-append_last c [] = ground arith
rstrip-append_last c (x ∷ xs) = rw (rstrip-append_last c xs, rstrip)

pub rstrip-rstrip : (c : ℕ) (s : Text) → rstrip c (rstrip c s) ≡ rstrip c s
unfolding rstrip
rstrip-rstrip c [] = refl
rstrip-rstrip c (x ∷ xs) = ground (arith, rstrip-rstrip c xs)

-- Lower case neither makes nor removes a slash.
pub rstrip-lower : (s : Text) → rstrip slash (lower s) ≡ lower (rstrip slash s)
unfolding rstrip lower to_lower
rstrip-lower [] = refl
rstrip-lower (x ∷ xs) = ground (arith, rstrip-lower xs)

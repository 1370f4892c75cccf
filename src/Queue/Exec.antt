-- ===== src/Queue/Exec.antt =====
-- Methods that change an object and may raise: `none` beside the state that the raise left.
use competitor_intelligence.Base.{Option, none, some}

abbrev pub Exec : Type 0 → Type 0 → Type 0
Exec S A = S → Option A × S

module _ {S A : Type 0} where
  abbrev pub pure : A → Exec S A
  pure a s = (some a, s)

  abbrev pub raise : Exec S A
  raise s = (none, s)

  abbrev handled : Option A → Exec S A → Exec S A
  handled (some a) handler s = (some a, s)
  handled none handler s = handler s

  -- `try: body except Exception: handler`
  abbrev pub try_except : Exec S A → Exec S A → Exec S A
  try_except body handler s = let (r, s') = body s in handled r handler s'

module _ {S A B : Type 0} where
  abbrev continue : Option A → (A → Exec S B) → Exec S B
  continue (some a) f s = f a s
  continue none f s = (none, s)

  infixl 5 ◌>>=◌ ◌>>◌
  abbrev pub ◌>>=◌ : Exec S A → (A → Exec S B) → Exec S B
  ◌>>=◌ m f s = let (r, s') = m s in continue r f s'

  abbrev pub ◌>>◌ : Exec S A → Exec S B → Exec S B
  m >> k = m >>= λ _. k

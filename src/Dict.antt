-- ===== src/Dict.antt =====
-- Python's `dict` and `OrderedDict`: entries in insertion order, the oldest first.
pub mod Laws
use competitor_intelligence.Base.{
  ℕ, Bool, Option, none, some, List, [], ◌∷◌, ◌++◌, String, ite, is_some, string_discrete,
  ℕ_discrete, ◌≡◌,
}

-- What a key type offers: its equality test.
pub record Key (K : Type 0) : Type 0 where
  pub dec : Discrete K

instance abbrev pub string_key : Key String
string_key = record { dec = string_discrete }

instance abbrev pub nat_key : Key ℕ
nat_key = record { dec = ℕ_discrete }

abbrev pub Dict : Type 0 → Type 0 → Type 0
Dict K V = List (K × V)

module _ {K V : Type 0} ⦃key : Key K⦄ where
  -- `d.get(k)`
  unfoldable pub lookup : K → Dict K V → Option V
  lookup k [] = none
  lookup k ((j, v) ∷ d) = ite (key.dec j k) (some v) (lookup k d)

  -- `k in d`
  abbrev pub contains : K → Dict K V → Bool
  contains k d = is_some (lookup k d)

  -- `d[k] = v`: a key that is there keeps its place, a new one goes to the end
  unfoldable pub insert : K → V → Dict K V → Dict K V
  insert k v [] = (k, v) ∷ []
  insert k v ((j, w) ∷ d) = ite (key.dec j k) ((j, v) ∷ d) ((j, w) ∷ insert k v d)

  -- `d.pop(k, None)`
  unfoldable pub erase : K → Dict K V → Dict K V
  erase k [] = []
  erase k ((j, v) ∷ d) = let rest = erase k d in ite (key.dec j k) rest ((j, v) ∷ rest)

  -- `d.move_to_end(k)` for a key whose value is `v`
  unfoldable pub move_to_end : K → V → Dict K V → Dict K V
  move_to_end k v d = erase k d ++ (k, v) ∷ []

  -- No key stands twice.
  abbrev pub IsDistinct : Dict K V → Type 0
  IsDistinct [] = Unit
  IsDistinct ((k, v) ∷ d) = (lookup k d ≡ none) × IsDistinct d

-- ===== src/Resolution/Item.antt =====
-- The items of a parsed result: dictionaries with the values that the resolution tells apart.
pub mod References
use competitor_intelligence.Base.{
  ℕ, Bool, true, false, not, Option, none, some, String, List, [], ◌∷◌, if◌then◌else◌, ◌==◌,
}
use competitor_intelligence.Dict.{Dict, string_key, lookup, insert}
use competitor_intelligence.Fetcher.HttpCache.{filled}

-- `None`, a Boolean, a number, a text, or a list of texts.
pub data Value : Type 0 where
  null : Value
  flag : Bool → Value
  number : ℕ → Value
  text : String → Value
  sequence : List String → Value

abbrev pub Item : Type 0
Item = Dict String Value

-- `if v`
unfoldable pub is_truthy : Value → Bool
is_truthy null = false
is_truthy (flag b) = b
is_truthy (number n) = not (n == 0)
is_truthy (text s) = filled s
is_truthy (sequence []) = false
is_truthy (sequence (x ∷ xs)) = true

-- `if item.get(k)`
unfoldable pub has_value : String → Item → Bool
has_value k item = elim (lookup k item) [ none ↦ false | some v ↦ is_truthy v ]

-- `str(v).strip()` is a parameter.
module _ (shown : Value → String) where
  text_of : Option Value → Option String
  text_of none = none
  text_of (some v) =
      if is_truthy v then (if filled (shown v) then some (shown v) else none) else none

  first_of : Option String → Option String → Option String
  first_of none rest = rest
  first_of (some s) rest = some s

  -- `_first_value`
  unfoldable pub first_value : Item → List String → Option String
  unfolding text_of first_of
  first_value item [] = none
  first_value item (k ∷ keys) = first_of (text_of (lookup k item)) (first_value item keys)

-- `_update_cross_references`, for names that `_resolve_list` has mapped; `none` is the `TypeError` of
-- looking up a list
rename : String → Dict String Value → Item → String → Item
rename field name_map item current = elim (lookup current name_map) [
  | none ↦ item
  | some name ↦ if filled current then insert field name item else item
]

unfoldable pub update_reference : String → Dict String Value → Item → Option Value → Option Item
unfolding rename
update_reference field name_map item none = some item
update_reference field name_map item (some null) = some item
update_reference field name_map item (some (flag b)) = some item
update_reference field name_map item (some (number n)) = some item
update_reference field name_map item (some (text current)) =
    some (rename field name_map item current)
update_reference field name_map item (some (sequence [])) = some item
update_reference field name_map item (some (sequence (x ∷ xs))) = none

-- The items before the one that raises are updated; a raise leaves the caller, so they are dropped
-- here.
cons_items : Option Item → Option (List Item) → Option (List Item)
cons_items none rest = none
cons_items (some item) none = none
cons_items (some item) (some items) = some (item ∷ items)

unfoldable pub update_cross_references : String → Dict String Value → List Item → Option (List Item)
unfolding cons_items
update_cross_references field name_map [] = some []
update_cross_references field name_map (item ∷ items) =
    cons_items (update_reference field name_map item (lookup field item))
      (update_cross_references field name_map items)

-- ===== src/Resolution/Duplicates.antt =====
-- `_deduplicate_list`: merged items and repetitions of a key value are removed.
pub mod Keys
use competitor_intelligence.Base.{
  Bool, true, false, Option, none, some, String, List, [], ◌∷◌, if◌then◌else◌, ite, string_discrete,
}
use competitor_intelligence.Dict.{string_key, erase}
use competitor_intelligence.Resolution.Item.{Value, Item, has_value, first_value}

-- `key_val in seen`
unfoldable pub is_in : String → List String → Bool
is_in k [] = false
is_in k (s ∷ seen) = ite (string_discrete s k) true (is_in k seen)

module _ (shown : Value → String) (keys : List String) where
  unfoldable pub key_value : Item → Option String
  key_value item = first_value shown (erase "__merged__" item) keys

  -- what the loop does with an item that is not merged
  keep_new : Option String → List String → Item → (List String → List Item) → List Item
  keep_new none seen item rest = item ∷ rest seen
  keep_new (some k) seen item rest = if is_in k seen then rest seen else item ∷ rest (k ∷ seen)

  unfoldable pub deduplicate_from : List Item → List String → List Item
  unfolding keep_new
  deduplicate_from [] seen = []
  deduplicate_from (item ∷ items) seen =
      let rest = deduplicate_from items in
      if has_value "__merged__" item
      then rest seen
      else keep_new (key_value item) seen (erase "__merged__" item) rest

  unfoldable pub deduplicate_list : List Item → List Item
  deduplicate_list items = deduplicate_from items []

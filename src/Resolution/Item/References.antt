-- ===== src/Resolution/Item/References.antt =====
-- When `_update_cross_references` raises, and what it changes otherwise.
use competitor_intelligence.Base.{
  ◌≡◌, refl, ap, ◌∙◌, Option, none, some, String, List, [], ◌∷◌, ◌++◌,
}
use competitor_intelligence.Dict.{Dict, string_key, lookup}
use competitor_intelligence.Resolution.Item.{
  Value, sequence, Item, update_reference, cons_items, update_cross_references,
}

cons_items-none : (o : Option Item) → cons_items o none ≡ none
unfolding cons_items
cons_items-none none = refl
cons_items-none (some item) = refl

-- One item with a list of names, not empty, in the field makes the update of the references raise,
-- whatever stands before and after it.
pub update_cross_references-sequence :
    (field : String) (name_map : Dict String Value) (before after : List Item) (item : Item)
    (x : String) (xs : List String)
    → lookup field item ≡ some (sequence (x ∷ xs))
    → update_cross_references field name_map (before ++ item ∷ after) ≡ none
unfolding update_cross_references update_reference cons_items
update_cross_references-sequence field name_map [] after item x xs h =
    ap
      (λ o.
        cons_items (update_reference field name_map item o)
          (update_cross_references field name_map after))
      h
update_cross_references-sequence field name_map (b ∷ before) after item x xs h =
    ap (cons_items (update_reference field name_map b (lookup field b)))
      (update_cross_references-sequence field name_map before after item x xs h)
    ∙ cons_items-none (update_reference field name_map b (lookup field b))

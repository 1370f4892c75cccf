-- ===== src/Resolution/Merge.antt =====
-- `_pick_canonical` and `_merge_cluster`: the richest item of a cluster takes the fields that it
-- lacks from the others, which are marked as merged.
pub mod Fields
use competitor_intelligence.Base.{
  ℕ, zero, suc, ◌+◌, Bool, true, false, not, ◌&&◌, ◌||◌, Option, none, some, String, List, [], ◌∷◌,
  ltb, ◌==◌, if◌then◌else◌, ite, string_discrete, get_elem?, map,
}
use competitor_intelligence.Dict.{Dict, string_key, lookup, insert}
use competitor_intelligence.Fetcher.HttpCache.{filled}
use competitor_intelligence.Resolution.Item.{
  Value, null, flag, number, text, sequence, Item, is_truthy, has_value,
}

-- `v is None or v == ""`, and the same for a missing key
unfoldable pub is_blank : Option Value → Bool
is_blank none = true
is_blank (some null) = true
is_blank (some (flag b)) = false
is_blank (some (number n)) = false
is_blank (some (text s)) = not (filled s)
is_blank (some (sequence xs)) = false

is_counted : Value → Bool
is_counted (flag true) = false
is_counted (flag false) = true
is_counted null = false
is_counted (number n) = true
is_counted (text s) = filled s
is_counted (sequence xs) = true

unfoldable pub count_filled : Item → ℕ
unfolding is_counted
count_filled [] = 0
count_filled ((k, v) ∷ item) = (if is_counted v then 1 else 0) + count_filled item

-- The length of `str(v)` is a parameter.
module _ (length_of : Value → ℕ) where
  name_length : Option Value → Option Value → ℕ
  name_length (some name) plan_name = length_of name
  name_length none (some plan_name) = length_of plan_name
  name_length none none = 0

  -- `_score`; its first number is one larger than in the code, which has -1 for a merged item
  unfoldable pub score : Item → ℕ × ℕ
  unfolding name_length
  score item = (
    if has_value "__merged__" item then 0 else count_filled item + 1,
    name_length (lookup "name" item) (lookup "plan_name" item),
  )

  unfoldable pub is_better : ℕ × ℕ → ℕ × ℕ → Bool
  is_better a b = if a.0 == b.0 then ltb b.1 a.1 else ltb b.0 a.0

  score_at : List Item → ℕ → ℕ × ℕ
  score_at items i = elim (get_elem? items i) [ none ↦ (0, 0) | some item ↦ score item ]

  -- `max(indices, key=_score)`: the first of the best
  unfoldable pub best_index : List Item → ℕ → List ℕ → ℕ
  unfolding score_at
  best_index items best [] = best
  best_index items best (i ∷ indices) =
      if is_better (score_at items i) (score_at items best)
      then best_index items i indices
      else best_index items best indices

  or_value : Option Value → Value → Value
  or_value none other = other
  or_value (some v) other = if is_truthy v then v else other

  unfoldable pub best_name : List Item → ℕ → String → Value
  unfolding or_value
  best_name items best first_name = elim (get_elem? items best) [
    | none ↦ text first_name
    | some item ↦
        or_value (lookup "name" item) (or_value (lookup "plan_name" item) (text first_name))
  ]

-- the two inner loops of `_merge_cluster`: the canonical item after one variant, and after all
unfoldable pub fill : Item → Item → Item
fill canonical [] = canonical
fill canonical ((k, v) ∷ variant) =
    fill
      (if not (is_blank (some v)) && is_blank (lookup k canonical)
        then insert k v canonical
        else canonical)
      variant

unfoldable pub enrich : Item → List Item → Item
enrich canonical [] = canonical
enrich canonical (variant ∷ variants) = enrich (fill canonical variant) variants

unfoldable pub set_item : ℕ → Item → List Item → List Item
set_item i x [] = []
set_item zero x (item ∷ items) = x ∷ items
set_item (suc i) x (item ∷ items) = item ∷ set_item i x items

unfoldable pub variants_of : ℕ → List ℕ → List Item → List Item
variants_of best [] items = []
variants_of best (i ∷ indices) items =
    let rest = variants_of best indices items in
    if i == best then rest else elim (get_elem? items i) [ none ↦ rest | some item ↦ item ∷ rest ]

unfoldable pub mark_merged : ℕ → List ℕ → List Item → List Item
mark_merged best [] items = items
mark_merged best (i ∷ indices) items = mark_merged best indices (
    if i == best then items else elim (get_elem? items i) [
      | none ↦ items
      | some item ↦ set_item i (insert "__merged__" (flag true) item) items
    ])

is_named : String → Value → Bool
is_named name (text s) = ite (string_discrete name s) true false
is_named name null = false
is_named name (flag b) = false
is_named name (number n) = false
is_named name (sequence xs) = false

unfoldable pub map_names : List String → Value → Dict String Value → Dict String Value
unfolding is_named
map_names [] canonical result_map = result_map
map_names (name ∷ names) canonical result_map =
    map_names names canonical
      (if is_named name canonical then result_map else insert name canonical result_map)

abbrev pub merged_items : ℕ → List Item → List Item → Option Item → List Item
merged_items best variants items none = items
merged_items best variants items (some canonical) = set_item best (enrich canonical variants) items

-- A cluster is its first index and name, and the others.
unfoldable pub merge_cluster :
    (Value → ℕ)
    → ℕ × String
    → List (ℕ × String)
    → List Item × Dict String Value
    → List Item × Dict String Value
merge_cluster length_of seed others (items, result_map) =
    let indices = map (λ x. x.0) others in
    let best = best_index length_of items seed.0 indices in
    let name = best_name length_of items best seed.1 in
    let all = seed.0 ∷ indices in
    let merged = merged_items best (variants_of best all items) items (get_elem? items best) in
    (mark_merged best all merged, map_names (seed.1 ∷ map (λ x. x.1) others) name result_map)

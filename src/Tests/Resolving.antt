-- ===== src/Tests/Resolving.antt =====
-- The entity resolution at concrete items.
use competitor_intelligence.Base.{
  ℕ, ◌≡◌, refl, some, Bool, true, false, String, List, [], ◌∷◌, length, ltb, sum_by, All,
  string_discrete,
}
use competitor_intelligence.Dict.{string_key, lookup, IsDistinct}
use competitor_intelligence.Fetcher.HttpCache.{filled}
use competitor_intelligence.Resolution.Item.{
  sequence, Value, null, text, Item, is_truthy, first_value,
}
use competitor_intelligence.Resolution.Duplicates.{is_in, deduplicate_list}
use competitor_intelligence.Resolution.Duplicates.Keys.{keys_of, AreNew, deduplicate_list-keys}
use competitor_intelligence.Resolution.Clusters.{named_from, clusters_of}
use competitor_intelligence.Resolution.Clusters.Partition.{
  times, times_in, AreApart, clusters_of_lem,
}

abbrev shown : Value → String
shown (text s) = s
shown v = "?"

abbrev sofa : Item
sofa = ("name", text "sofa cleaning") ∷ ("price", null) ∷ []

abbrev sofas : Item
sofas = ("name", text "sofa") ∷ ("price", text "499") ∷ []

abbrev items : List Item
items = sofa ∷ sofas ∷ []

abbrev keys : List String
keys = "name" ∷ []

deduplicate_list-keys_example :
    let left = deduplicate_list shown keys items in
    AreNew shown keys [] (keys_of shown keys left)
    × (is_in "sofa" (keys_of shown keys left) ≡ is_in "sofa" (keys_of shown keys items))
deduplicate_list-keys_example = deduplicate_list-keys shown keys items "sofa"

abbrev name_length : String → ℕ
name_length s = 4

abbrev similar : String → String → Bool
similar a b = true

two_items : ltb (length items) 2 ≡ false
two_items = refl

two_names : ltb (length (named_from shown name_length similar keys 0 items)) 2 ≡ false
unfolding named_from first_value lookup is_truthy filled string_discrete
two_names = refl

clusters_of_lem_example :
    let cs = clusters_of shown name_length similar keys items in
    (sum_by (times_in 1) cs ≡ times 1 (named_from shown name_length similar keys 0 items))
    × AreApart shown name_length similar cs
clusters_of_lem_example = clusters_of_lem shown name_length similar keys items 1 two_items two_names

IsDistinct-fields : All (λ (v : Item). IsDistinct v) (sofas ∷ [])
unfolding lookup string_discrete
IsDistinct-fields = ((refl, (refl, tt)), tt)

-- A plan with its list of features.
abbrev plan : Item
plan = ("name", text "basic") ∷ ("features", sequence ("support" ∷ [])) ∷ []

plan_features : lookup "features" plan ≡ some (sequence ("support" ∷ []))
unfolding lookup string_discrete
plan_features = refl

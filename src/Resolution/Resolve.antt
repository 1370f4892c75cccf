-- ===== src/Resolution/Resolve.antt =====
-- `_resolve_list`: the clusters of a list, and the merge of those with more than one item.
use competitor_intelligence.Base.{ℕ, ◌≡◌, refl, ◌∙◌, Bool, String, List, [], ◌∷◌, length}
use competitor_intelligence.Dict.{Dict, string_key}
use competitor_intelligence.Resolution.Item.{Value, Item}
use competitor_intelligence.Resolution.Clusters.{Cluster, clusters_of}
use competitor_intelligence.Resolution.Merge.{merge_cluster}
use competitor_intelligence.Resolution.Merge.Fields.{length-merge_cluster}

module _ (shown : Value → String) (name_length : String → ℕ) (similar : String → String → Bool)
    (length_of : Value → ℕ) where
  merge_some :
      Cluster → List (ℕ × String) → List Item × Dict String Value → List Item × Dict String Value
  merge_some c [] state = state
  merge_some c (x ∷ others) state = merge_cluster length_of c.seed (x ∷ others) state

  merge_all : List Cluster → List Item × Dict String Value → List Item × Dict String Value
  unfolding merge_some
  merge_all [] state = state
  merge_all (c ∷ cs) state = merge_all cs (merge_some c c.others state)

  -- the items after the merges, and the map from names to canonical names
  unfoldable pub resolve_list : List String → List Item → List Item × Dict String Value
  unfolding merge_all
  resolve_list keys items = merge_all (clusters_of shown name_length similar keys items) (items, [])

  length-merge_some :
      (c : Cluster) (others : List (ℕ × String)) (state : List Item × Dict String Value)
      → length (merge_some c others state).0 ≡ length state.0
  unfolding merge_some
  length-merge_some c [] state = refl
  length-merge_some c (x ∷ others) state =
      length-merge_cluster length_of c.seed (x ∷ others) state.0 state.1

  length-merge_all :
      (cs : List Cluster) (state : List Item × Dict String Value)
      → length (merge_all cs state).0 ≡ length state.0
  unfolding merge_all
  length-merge_all [] state = refl
  length-merge_all (c ∷ cs) state =
      length-merge_all cs (merge_some c c.others state) ∙ length-merge_some c c.others state

  -- Resolving a list removes none of its items.
  length-resolve_list :
      (keys : List String) (items : List Item) → length (resolve_list keys items).0 ≡ length items
  unfolding resolve_list
  length-resolve_list keys items =
      length-merge_all (clusters_of shown name_length similar keys items) (items, [])

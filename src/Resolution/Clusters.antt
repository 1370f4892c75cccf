-- ===== src/Resolution/Clusters.antt =====
-- `_resolve_list`: the named items, longest name first, put into clusters around a first item. The
-- length of a name, and whether `name_similarity` reaches the threshold, are given by functions.
pub mod Partition
use competitor_intelligence.Base.{
  ℕ, ◌+◌, Bool, true, false, Option, none, some, String, List, [], ◌∷◌, ◌++◌, length, leb, ltb,
  if◌then◌else◌,
}
use competitor_intelligence.Resolution.Item.{Value, Item, first_value}

-- An item's index and its name.
abbrev pub Named : Type 0
Named = ℕ × String

-- A cluster: its first item, and those that were appended.
pub record Cluster : Type 0 where
  pub seed : Named
  pub others : List Named

module _ (shown : Value → String) (name_length : String → ℕ)
    (similar : String → String → Bool) where
  name_of : ℕ → Option String → List Named → List Named
  name_of idx none rest = rest
  name_of idx (some name) rest = if leb 3 (name_length name) then (idx, name) ∷ rest else rest

  unfoldable pub named_from : List String → ℕ → List Item → List Named
  unfolding name_of
  named_from keys idx [] = []
  named_from keys idx (item ∷ items) =
      name_of idx (first_value shown item keys) (named_from keys (idx + 1) items)

  -- `sort(key=lambda x: len(x[1]), reverse=True)`, which keeps the order of equal lengths
  unfoldable pub insert_named : Named → List Named → List Named
  insert_named x [] = x ∷ []
  insert_named x (y ∷ ys) =
      if leb (name_length y.1) (name_length x.1) then x ∷ y ∷ ys else y ∷ insert_named x ys

  unfoldable pub sort_named : List Named → List Named
  sort_named [] = []
  sort_named (x ∷ xs) = insert_named x (sort_named xs)

  -- the inner loop with its `break`, and the new cluster if none took the item
  unfoldable pub assign : Named → List Cluster → List Cluster
  assign x [] = record { seed = x; others = [] } ∷ []
  assign x (c ∷ cs) =
      if similar x.1 c.seed.1
      then record c { others = c.others ++ x ∷ [] } ∷ cs
      else c ∷ assign x cs

  unfoldable pub cluster_all : List Named → List Cluster → List Cluster
  cluster_all [] cs = cs
  cluster_all (x ∷ xs) cs = cluster_all xs (assign x cs)

  unfoldable pub clusters_of : List String → List Item → List Cluster
  clusters_of keys items =
      let named = named_from keys 0 items in
      if ltb (length items) 2
      then []
      else if ltb (length named) 2
      then []
      else cluster_all (sort_named named) []

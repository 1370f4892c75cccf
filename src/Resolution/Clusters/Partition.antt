-- ===== src/Resolution/Clusters/Partition.antt =====
-- The clusters of `_resolve_list` hold each named item once, near its seed and away from the others.
use competitor_intelligence.Base.{
  ℕ, ◌+◌, ◌≡◌, refl, arith, Bool, true, false, String, List, [], ◌∷◌, length, leb, ltb, ◌==◌,
  if◌then◌else◌, sum_by, sum_by-append, All, All-append, inl, inr, Bool-cases,
}
use competitor_intelligence.Resolution.Item.{Value, Item}
use competitor_intelligence.Resolution.Clusters.{
  Named, Cluster, named_from, insert_named, sort_named, assign, cluster_all, clusters_of,
}

-- How often an index stands in a list of named items.
abbrev pub is_index : ℕ → Named → ℕ
is_index i x = if x.0 == i then 1 else 0

abbrev pub times : ℕ → List Named → ℕ
times i xs = sum_by (is_index i) xs

abbrev pub times_in : ℕ → Cluster → ℕ
times_in i c = is_index i c.seed + times i c.others

module _ (shown : Value → String) (name_length : String → ℕ)
    (similar : String → String → Bool) where
  times-insert_named :
      (i : ℕ) (x : Named) (xs : List Named)
      → times i (insert_named shown name_length similar x xs) ≡ is_index i x + times i xs
  unfolding insert_named
  times-insert_named i x [] = refl
  times-insert_named i x (y ∷ ys) = elim (Bool-cases (leb (name_length y.1) (name_length x.1))) [
    | inl longer ↦ rw (longer, insert_named) refl
    | inr shorter ↦ rw (shorter, insert_named) (omega (arith, times-insert_named i x ys))
  ]

  times-sort_named :
      (i : ℕ) (xs : List Named) → times i (sort_named shown name_length similar xs) ≡ times i xs
  unfolding sort_named
  times-sort_named i [] = refl
  times-sort_named i (x ∷ xs) = omega (
    arith,
    times-insert_named i x (sort_named shown name_length similar xs),
    times-sort_named i xs,
  )

  times-assign :
      (i : ℕ) (x : Named) (cs : List Cluster)
      → sum_by (times_in i) (assign shown name_length similar x cs)
        ≡ is_index i x + sum_by (times_in i) cs
  unfolding assign
  times-assign i x [] = omega arith
  times-assign i x (c ∷ cs) = elim (Bool-cases (similar x.1 c.seed.1)) [
    | inl near ↦ rw (near, assign) (omega (arith, sum_by-append (is_index i) c.others (x ∷ [])))
    | inr far ↦ rw (far, assign) (omega (arith, times-assign i x cs))
  ]

  times-cluster_all :
      (i : ℕ) (xs : List Named) (cs : List Cluster)
      → sum_by (times_in i) (cluster_all shown name_length similar xs cs)
        ≡ times i xs + sum_by (times_in i) cs
  unfolding cluster_all
  times-cluster_all i [] cs = omega arith
  times-cluster_all i (x ∷ xs) cs =
      omega
        (arith, times-cluster_all i xs (assign shown name_length similar x cs), times-assign i x cs)

  -- Each member of a cluster is similar to the seed, and no seed is similar to an earlier one.
  abbrev pub IsNear : Cluster → Type 0
  IsNear c = All (λ m. similar m.1 c.seed.1 ≡ true) c.others

  abbrev pub IsFar : Cluster → List Cluster → Type 0
  IsFar c cs = All (λ (d : Cluster). similar d.seed.1 c.seed.1 ≡ false) cs

  abbrev pub AreApart : List Cluster → Type 0
  AreApart [] = Unit
  AreApart (c ∷ cs) = IsNear c × IsFar c cs × AreApart cs

  assign-IsFar :
      (c : Cluster) (x : Named) (cs : List Cluster)
      → similar x.1 c.seed.1 ≡ false
      → IsFar c cs
      → IsFar c (assign shown name_length similar x cs)
  unfolding assign
  assign-IsFar c x [] far h = (far, tt)
  assign-IsFar c x (d ∷ cs) far (e, h) = elim (Bool-cases (similar x.1 d.seed.1)) [
    | inl near ↦ rw (near, assign) (e, h)
    | inr other ↦ rw (other, assign) (e, assign-IsFar c x cs far h)
  ]

  assign-AreApart :
      (x : Named) (cs : List Cluster)
      → AreApart cs
      → AreApart (assign shown name_length similar x cs)
  unfolding assign
  assign-AreApart x [] h = (tt, tt, tt)
  assign-AreApart x (c ∷ cs) (near, far, rest) = elim (Bool-cases (similar x.1 c.seed.1)) [
    | inl here ↦
        rw (here, assign)
          (
            All-append (λ m. similar m.1 c.seed.1 ≡ true) c.others (x ∷ []) near (here, tt),
            far,
            rest,
          )
    | inr other ↦
        rw (other, assign) (near, assign-IsFar c x cs other far, assign-AreApart x cs rest)
  ]

  cluster_all-AreApart :
      (xs : List Named) (cs : List Cluster)
      → AreApart cs
      → AreApart (cluster_all shown name_length similar xs cs)
  unfolding cluster_all
  cluster_all-AreApart [] cs h = h
  cluster_all-AreApart (x ∷ xs) cs h =
      cluster_all-AreApart xs (assign shown name_length similar x cs) (assign-AreApart x cs h)

  -- Of a list with at least two items and two names, the clusters hold each named item exactly
  -- once, every member of a cluster is similar to the first one, and no first one is similar to the
  -- first one of an earlier cluster.
  pub clusters_of_lem :
      (keys : List String) (items : List Item) (i : ℕ)
      → ltb (length items) 2 ≡ false
      → ltb (length (named_from shown name_length similar keys 0 items)) 2 ≡ false
      → let cs = clusters_of shown name_length similar keys items in
        (sum_by (times_in i) cs ≡ times i (named_from shown name_length similar keys 0 items))
        × AreApart cs
  unfolding clusters_of
  clusters_of_lem keys items i many named =
      let xs = named_from shown name_length similar keys 0 items in
      rw (many, named, clusters_of)
        (
          omega (
            arith,
            times-cluster_all i (sort_named shown name_length similar xs) [],
            times-sort_named i xs,
          ),
          cluster_all-AreApart (sort_named shown name_length similar xs) [] tt,
        )

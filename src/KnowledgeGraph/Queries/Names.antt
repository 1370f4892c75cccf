-- ===== src/KnowledgeGraph/Queries/Names.antt =====
-- The search by name is the first matches among all nodes.
use competitor_intelligence.Base.{
  ℕ, zero, suc, ◌-◌, ◌<◌, List, [], ◌∷◌, ◌++◌, append_assoc, append-nil, length, length-append,
  take, if◌then◌else◌, Text, ◌≡◌, refl, sym, ap, ◌∙◌, arith,
}
use competitor_intelligence.Dict.{Dict}
use competitor_intelligence.KnowledgeGraph.{GraphNode, Graph}
use competitor_intelligence.KnowledgeGraph.Build.Ids.{NodeId, node_id_key}
use competitor_intelligence.KnowledgeGraph.Queries.{matches, search_from, search}

-- all nodes whose name matches, in the order of the table
abbrev pub matching : Text → Dict NodeId (GraphNode NodeId) → List (GraphNode NodeId)
matching query [] = []
matching query ((k, n) ∷ nodes) =
    let rest = matching query nodes in if matches query n then n ∷ rest else rest

module _ (query : Text) (limit : ℕ) where
  take-nil : (m : ℕ) → take {A = GraphNode NodeId} m [] ≡ []
  take-nil zero = refl
  take-nil (suc m) = refl

  take-zero : (ns : List (GraphNode NodeId)) (m : ℕ) → m ≡ 0 → take m ns ≡ []
  take-zero ns zero e = refl
  take-zero ns (suc m) e = absurd (omega arith)

  take-suc :
      (m : ℕ) (n : GraphNode NodeId) (ns : List (GraphNode NodeId))
      → 0 < m
      → take m (n ∷ ns) ≡ n ∷ take (m - 1) ns
  take-suc zero n ns h = absurd (omega arith)
  take-suc (suc m) n ns h = ap (λ k. n ∷ take k ns) (omega arith)

  search_from_lem :
      (nodes : Dict NodeId (GraphNode NodeId)) (results : List (GraphNode NodeId))
      → length results < limit
      → search_from query limit nodes results
        ≡ results ++ take (limit - length results) (matching query nodes)
  unfolding search_from
  search_from_lem [] results h =
      sym (ap (λ ns. results ++ ns) (take-nil (limit - length results)) ∙ append-nil results)
  search_from_lem ((k, n) ∷ nodes) results h = ground (
    arith,
    search_from_lem nodes results h,
    search_from_lem nodes (results ++ n ∷ []),
    length-append results (n ∷ []),
    append_assoc results (n ∷ []) (take (limit - suc (length results)) (matching query nodes)),
    take-suc (limit - length results) n (matching query nodes),
    take-zero (matching query nodes) (limit - suc (length results)),
    append-nil (results ++ n ∷ []),
  )

  -- With a positive limit, search returns the first matches of the query, at most limit many, in
  -- the order in which the nodes were added.
  pub search_lem :
      (g : Graph NodeId) → 0 < limit → search query limit g ≡ take limit (matching query g.nodes)
  unfolding search
  search_lem g h =
      search_from_lem g.nodes [] h ∙ ap (λ m. take m (matching query g.nodes)) (omega arith)

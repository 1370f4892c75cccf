-- ===== src/KnowledgeGraph/Consistency.antt =====
-- The adjacency tables of the graph hold the edges of its list, in the order of the list.
use competitor_intelligence.Base.{List, [], ◌∷◌, ◌++◌, ite, ◌≡◌, refl, arith}
use competitor_intelligence.Dict.{Key, Dict, lookup}
use competitor_intelligence.Dict.Laws.{lookup-insert}
use competitor_intelligence.KnowledgeGraph.{
  GraphNode, GraphEdge, Graph, or_empty, empty_graph, add_node, append_edge, add_edge, out_edges,
  in_edges,
}

module _ {Ident : Type 0} ⦃key : Key Ident⦄ where
  -- the edges one of whose ends is `k`
  abbrev pub edges_at :
      (GraphEdge Ident → Ident) → Ident → List (GraphEdge Ident) → List (GraphEdge Ident)
  edges_at near k [] = []
  edges_at near k (e ∷ es) =
      let rest = edges_at near k es in ite (key.dec (near e) k) (e ∷ rest) rest

  pub record IsConsistent (g : Graph Ident) : Type 0 where
    pub outward : (k : Ident) → out_edges g k ≡ edges_at (λ e. e.source_id) k g.edges
    pub inward : (k : Ident) → in_edges g k ≡ edges_at (λ e. e.target_id) k g.edges

  edges_at-append_last :
      (near : GraphEdge Ident → Ident) (k : Ident) (es : List (GraphEdge Ident))
      (e : GraphEdge Ident)
      → edges_at near k (es ++ e ∷ [])
        ≡ ite (key.dec (near e) k) (edges_at near k es ++ e ∷ []) (edges_at near k es)
  edges_at-append_last near k [] e = refl
  edges_at-append_last near k (d ∷ es) e = ground (arith, edges_at-append_last near k es e)

  -- a table that holds the edges of the list holds them after one more
  table-append_edge :
      (near : GraphEdge Ident → Ident) (d : Dict Ident (List (GraphEdge Ident)))
      (es : List (GraphEdge Ident)) (e : GraphEdge Ident) (k : Ident)
      → ((j : Ident) → or_empty (lookup j d) ≡ edges_at near j es)
      → or_empty (lookup k (append_edge (near e) e d)) ≡ edges_at near k (es ++ e ∷ [])
  unfolding append_edge
  table-append_edge near d es e k h = ground (
    arith,
    lookup-insert (near e) k (or_empty (lookup (near e) d) ++ e ∷ []) d,
    edges_at-append_last near k es e,
    h k,
    h (near e),
  )

  pub add_node-IsConsistent :
      (n : GraphNode Ident) (g : Graph Ident) → IsConsistent g → IsConsistent (add_node n g)
  unfolding add_node
  add_node-IsConsistent n g h = record { outward = h.outward; inward = h.inward }

  pub add_edge-IsConsistent :
      (e : GraphEdge Ident) (g : Graph Ident) → IsConsistent g → IsConsistent (add_edge e g)
  unfolding add_edge
  add_edge-IsConsistent e g h = record {
    outward = λ k. table-append_edge (λ d. d.source_id) g.adjacency g.edges e k h.outward;
    inward = λ k. table-append_edge (λ d. d.target_id) g.reverse_adjacency g.edges e k h.inward;
  }

  pub empty_graph-IsConsistent : IsConsistent empty_graph
  unfolding empty_graph lookup
  empty_graph-IsConsistent = record { outward = λ k. refl; inward = λ k. refl }

-- ===== src/KnowledgeGraph/Paths.antt =====
-- `KnowledgeGraph.find_path`: a breadth-first search whose queue holds the nodes and the edges of the
-- way to each node. The loop runs on fuel, one round for the start and one for each edge.
pub mod Trails
pub mod Levels
pub mod Steps
pub mod Rounds
pub mod Bounds
pub mod Shortest
use competitor_intelligence.Base.{
  ℕ, zero, suc, true, false, none, List, [], ◌∷◌, ◌++◌, length, sum_by, ltb, if◌then◌else◌, ite,
}
use competitor_intelligence.Dict.{Key, Dict}
use competitor_intelligence.KnowledgeGraph.{GraphEdge, Graph, is_among, out_edges}

pub record GraphPath (Ident : Type 0) : Type 0 where
  pub nodes : List Ident
  pub edges : List (GraphEdge Ident)
  pub total_weight : ℕ

-- An entry of the queue.
pub record Trail (Ident : Type 0) : Type 0 where
  pub current : Ident
  pub path_nodes : List Ident
  pub path_edges : List (GraphEdge Ident)

pub record Search (Ident : Type 0) : Type 0 where
  pub visited : List Ident
  pub queue : List (Trail Ident)

-- What a round of the loop, and the whole search, ends with.
pub data Scanned (Ident : Type 0) : Type 0 where
  found : GraphPath Ident → Scanned Ident
  searching : Search Ident → Scanned Ident

pub data Answer (Ident : Type 0) : Type 0 where
  path : GraphPath Ident → Answer Ident
  no_path out_of_fuel : Answer Ident

module _ {Ident : Type 0} ⦃key : Key Ident⦄ where
  -- `path_nodes + [edge.target_id]` and `path_edges + [edge]`
  abbrev pub extended : Trail Ident → GraphEdge Ident → Trail Ident
  extended t e = record {
    current = e.target_id;
    path_nodes = t.path_nodes ++ e.target_id ∷ [];
    path_edges = t.path_edges ++ e ∷ [];
  }

  abbrev pub path_of : Trail Ident → GraphPath Ident
  path_of t = record {
    nodes = t.path_nodes;
    edges = t.path_edges;
    total_weight = sum_by (λ e. e.weight) t.path_edges;
  }

  abbrev pub push : Trail Ident → Search Ident → Search Ident
  push t s = record { visited = t.current ∷ s.visited; queue = s.queue ++ t ∷ [] }

  module _ (g : Graph Ident) (target : Ident) where
    -- the inner loop, over the edges that leave the end of the trail
    unfoldable pub scan : Trail Ident → List (GraphEdge Ident) → Search Ident → Scanned Ident
    scan t [] s = searching s
    scan t (e ∷ es) s = elim (is_among e.target_id s.visited) [
      | true ↦ scan t es s
      | false ↦
          ite (key.dec e.target_id target) (found (path_of (extended t e)))
            (scan t es (push (extended t e) s))
    ]

    module _ (max_depth : ℕ) where
      -- one round, after the trail left the head of the queue
      unfoldable pub expand : Trail Ident → Search Ident → Scanned Ident
      expand t s =
          if ltb max_depth (length t.path_nodes)
          then searching s
          else scan t (out_edges g t.current) s

      unfoldable pub loop : ℕ → Search Ident → Answer Ident
      loop zero s = elim s.queue [ [] ↦ no_path | t ∷ rest ↦ out_of_fuel ]
      loop (suc fuel) s = elim s.queue [
        | [] ↦ no_path
        | t ∷ rest ↦ elim (expand t (record s { queue = rest })) [
          | found p ↦ path p
          | searching s' ↦ loop fuel s'
        ]
      ]

  -- the edges of the adjacency lists
  abbrev pub listed_edges : Dict Ident (List (GraphEdge Ident)) → List (GraphEdge Ident)
  listed_edges [] = []
  listed_edges ((k, es) ∷ d) = es ++ listed_edges d

  abbrev pub start : Ident → Search Ident
  start source = record {
    visited = source ∷ [];
    queue = record { current = source; path_nodes = source ∷ []; path_edges = [] } ∷ [];
  }

  abbrev pub fuel_for : Graph Ident → ℕ
  fuel_for g = suc (length (listed_edges g.adjacency))

  unfoldable pub find_path : Graph Ident → Ident → Ident → ℕ → Answer Ident
  find_path g source target max_depth =
      ite (key.dec source target)
        (path (record { nodes = source ∷ []; edges = []; total_weight = 0 }))
        (loop g target max_depth (fuel_for g) (start source))

-- ===== src/KnowledgeGraph/Queries.antt =====
-- The questions that the graph answers for the API: competitors by city and by category, and the
-- search by name. The order of a Python set, in which the competitors of a category come, is that of
-- insertion here.
pub mod Names
use competitor_intelligence.Base.{
  ℕ, zero, suc, ◌≤◌, Bool, true, false, Option, none, some, List, [], ◌∷◌, ◌++◌, length, leb, max,
  ◌==◌, if◌then◌else◌, Text, lower, is_infix, map, All, ◌≡◌, refl, arith,
}
use competitor_intelligence.Dict.{Dict, lookup}
use competitor_intelligence.KnowledgeGraph.{
  EntityType, competitor, city, category, entity_index, RelationshipType, operates_in, owns, uses,
  GraphNode, GraphEdge, Graph, add_to_set, get_reverse_neighbors,
}
use competitor_intelligence.KnowledgeGraph.Build.Ids.{NodeId, worded, node_id_key}

-- the nodes of a list of neighbours
abbrev neighbour_nodes : List (GraphNode NodeId × GraphEdge NodeId) → List (GraphNode NodeId)
neighbour_nodes [] = []
neighbour_nodes ((n, e) ∷ rest) = n ∷ neighbour_nodes rest

unfoldable pub find_competitors_in_city : Text → Graph NodeId → List (GraphNode NodeId)
find_competitors_in_city name g =
    neighbour_nodes (get_reverse_neighbors (worded city (lower name)) (some operates_in) g)

unfoldable pub is_competitor : GraphNode NodeId → Bool
unfolding entity_index
is_competitor n = entity_index n.entity_type == entity_index competitor

unfoldable pub add_competitor_ids : List (GraphNode NodeId) → List NodeId → List NodeId
add_competitor_ids [] ids = ids
add_competitor_ids (n ∷ ns) ids =
    add_competitor_ids ns (if is_competitor n then add_to_set n.id ids else ids)

-- the loop over the services of the category
unfoldable pub owners_of : Graph NodeId → List (GraphNode NodeId) → List NodeId → List NodeId
owners_of g [] ids = ids
owners_of g (svc ∷ services) ids =
    owners_of g services
      (add_competitor_ids (neighbour_nodes (get_reverse_neighbors svc.id (some owns) g)) ids)

abbrev cons_node : Option (GraphNode NodeId) → List (GraphNode NodeId) → List (GraphNode NodeId)
cons_node none rest = rest
cons_node (some n) rest = n ∷ rest

-- `[self._nodes[cid] for cid in ids if cid in self._nodes]`
unfoldable pub nodes_of : Graph NodeId → List NodeId → List (GraphNode NodeId)
nodes_of g [] = []
nodes_of g (k ∷ ks) = cons_node (lookup k g.nodes) (nodes_of g ks)

unfoldable pub find_competitors_in_category : Text → Graph NodeId → List (GraphNode NodeId)
find_competitors_in_category name g =
    let services =
      neighbour_nodes (get_reverse_neighbors (worded category (lower name)) (some uses) g) in
    nodes_of g (owners_of g services [])

unfoldable pub matches : Text → GraphNode NodeId → Bool
matches query n = is_infix (lower query) (lower n.name)

module _ (query : Text) (limit : ℕ) where
  -- the loop of `search`, with the test at its end
  unfoldable pub search_from :
      Dict NodeId (GraphNode NodeId) → List (GraphNode NodeId) → List (GraphNode NodeId)
  search_from [] results = results
  search_from ((k, n) ∷ nodes) results =
      let results' = if matches query n then results ++ n ∷ [] else results in
      let later = search_from nodes results' in
      if leb limit (length results') then results' else later

  unfoldable pub search : Graph NodeId → List (GraphNode NodeId)
  search g = search_from g.nodes []

-- ===== src/Tests/Graphs.antt =====
-- The knowledge graph at a small graph and a small database.
use mathlib.Core.List.{Memᴰ}
use competitor_intelligence.Base.{
  ℕ, ◌≤◌, ◌≡◌, ◌≢◌, refl, arith, true, some, List, [], ◌∷◌, length, Text, codes, ℕ_discrete,
  text_discrete, lower, to_lower, is_infix, starts_with,
}
use competitor_intelligence.Dict.{nat_key, lookup, insert}
use competitor_intelligence.KnowledgeGraph.{
  GraphNode, GraphEdge, Graph, owns, service, competitor, is_among, empty_graph, add_node, add_edge,
  append_edge, add_to_set, entity_index, relationship_index, is_wanted, ends, get_reverse_neighbors,
}
use competitor_intelligence.KnowledgeGraph.Build.Ids.{
  NodeId, numbered, node_id_key, node_id_discrete, entity_discrete,
}
use competitor_intelligence.KnowledgeGraph.Build.{
  Database, build_from_database, add_services, add_competitors, add_tags, add_tag, add_category,
  see_category, is_new_category, add_owned, add_labelled, add_contents, add_mentions, put,
  put_counted, link, present, text_or, has_any, cities, categories_by_competitor, shared, compete,
  compete_with, compete_all,
}
use competitor_intelligence.KnowledgeGraph.Build.Totals.{IsCounted, build_from_database-IsCounted}
use competitor_intelligence.KnowledgeGraph.Queries.{
  find_competitors_in_category, owners_of, add_competitor_ids, is_competitor, nodes_of,
}
use competitor_intelligence.KnowledgeGraph.Paths.{
  GraphPath, path, no_path, out_of_fuel, find_path, loop, scan, expand,
}
use competitor_intelligence.KnowledgeGraph.Paths.Trails.{Chain}
use competitor_intelligence.KnowledgeGraph.Paths.Levels.{IsShortest}
use competitor_intelligence.KnowledgeGraph.Paths.Bounds.{find_path-ends}
use competitor_intelligence.KnowledgeGraph.Paths.Shortest.{find_path-IsShortest}

abbrev edge : ℕ → ℕ → GraphEdge ℕ
edge u v = record { source_id = u; target_id = v; relationship = owns; weight = 10 }

-- 0 → 1 → 2 → 3 and 0 → 3, and a way back from 3 to 0
abbrev ring : Graph ℕ
ring = record {
  nodes = [];
  edges = edge 0 1 ∷ edge 0 3 ∷ edge 1 2 ∷ edge 2 3 ∷ edge 3 0 ∷ [];
  adjacency =
      (0, edge 0 1 ∷ edge 0 3 ∷ [])
      ∷ (1, edge 1 2 ∷ [])
      ∷ (2, edge 2 3 ∷ [])
      ∷ (3, edge 3 0 ∷ [])
      ∷ [];
  reverse_adjacency =
      (1, edge 0 1 ∷ [])
      ∷ (3, edge 0 3 ∷ edge 2 3 ∷ [])
      ∷ (2, edge 1 2 ∷ [])
      ∷ (0, edge 3 0 ∷ [])
      ∷ [];
  type_index = [];
  name_index = [];
}

abbrev detour : List (GraphEdge ℕ)
detour = edge 0 1 ∷ edge 1 2 ∷ edge 2 3 ∷ []

detour-Chain : Chain ring 0 detour 3
unfolding lookup ℕ_discrete
detour-Chain = (Memᴰ.head refl, (Memᴰ.head refl, (Memᴰ.head refl, refl)))

find_path-IsShortest_example :
    (p : GraphPath ℕ) × (find_path ring 0 3 5 ≡ path p)
    × IsShortest ring 0 3 p
    × (length p.edges ≤ length detour)
find_path-IsShortest_example = find_path-IsShortest ring 0 3 5 detour detour-Chain (omega arith)

find_path-ends_example : find_path ring 0 9 5 ≢ out_of_fuel
find_path-ends_example = find_path-ends ring 0 9 5

-- the direct edge, and nothing where no edge leads
find_path-ring :
    (find_path ring 0 3 5
      ≡ path (record { nodes = 0 ∷ 3 ∷ []; edges = edge 0 3 ∷ []; total_weight = 10 }))
    × (find_path ring 1 0 2 ≡ no_path)
unfolding find_path loop expand scan is_among lookup ℕ_discrete
find_path-ring = (refl, refl)

abbrev title_case : Text → Text
title_case t = t

abbrev content_label : ℕ → Text
content_label n = n ∷ []

abbrev cleaning : Text
cleaning = codes "Cleaning"

-- Two competitors with a service of the same category.
abbrev rivals : Database
rivals = record {
  competitors =
      record { id = 1; name = codes "One"; tags = codes "Pune" ∷ []; enabled = true }
      ∷ record { id = 2; name = codes "Two"; tags = []; enabled = true }
      ∷ [];
  services =
      record {
        id = 7;
        competitor_id = 1;
        service_name = codes "Home";
        service_category = some cleaning;
      }
      ∷ record {
        id = 8;
        competitor_id = 2;
        service_name = codes "Office";
        service_category = some cleaning;
      }
      ∷ [];
  pricings = [];
  contents = [];
  socials = [];
}

build_from_database-IsCounted_example :
    IsCounted (build_from_database title_case content_label (codes "react" ∷ []) rivals)
build_from_database-IsCounted_example =
    build_from_database-IsCounted title_case content_label (codes "react" ∷ []) rivals

abbrev office : GraphNode NodeId
office = record { id = numbered service 8; entity_type = service; name = codes "Office" }

abbrev shop : Graph NodeId
shop = record {
  nodes = (numbered service 8, office) ∷ [];
  edges = [];
  adjacency = [];
  reverse_adjacency = [];
  type_index = [];
  name_index = [];
}

abbrev ids : List (GraphNode NodeId) → List NodeId
ids [] = []
ids (n ∷ ns) = n.id ∷ ids ns

abbrev rivals_graph : Graph NodeId
rivals_graph = (build_from_database title_case content_label [] rivals).graph

-- Both offer the category, but only the owner of its first service is found.
find_competitors_in_category-misses :
    ids (find_competitors_in_category cleaning rivals_graph) ≡ numbered competitor 1 ∷ []
unfolding build_from_database add_services add_competitors add_tags add_tag add_category
    see_category is_new_category add_owned add_labelled add_contents add_mentions put put_counted
    link present text_or has_any cities categories_by_competitor shared compete compete_with
    compete_all add_node add_edge append_edge add_to_set is_among entity_index relationship_index
    is_wanted ends get_reverse_neighbors empty_graph lookup insert find_competitors_in_category
    owners_of add_competitor_ids is_competitor nodes_of node_id_discrete entity_discrete
    text_discrete ℕ_discrete lower to_lower is_infix starts_with
find_competitors_in_category-misses = refl

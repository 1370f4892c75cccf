-- ===== src/KnowledgeGraph.antt =====
-- `KnowledgeGraph` (app/services/knowledge_graph/engine.py): nodes, edges and the tables that find
-- them. Node ids are any type with an equality test. A weight is given in tenths; the properties and
-- the times of creation of nodes and edges, which no operation here reads, are left out.
pub mod Consistency
pub mod Build
pub mod Queries
pub mod Paths
use competitor_intelligence.Base.{
  ℕ, Bool, true, false, ◌||◌, Option, none, some, List, [], ◌∷◌, ◌++◌, ◌==◌, if◌then◌else◌, ite,
  Text, lower, text_discrete,
}
use competitor_intelligence.Dict.{Key, Dict, nat_key, lookup, insert}

instance abbrev pub text_key : Key Text
text_key = record { dec = text_discrete }

pub data EntityType : Type 0 where
  competitor service city state pricing category technology content social report : EntityType

-- The place of a member in the enumeration, which tells the members apart.
unfoldable pub entity_index : EntityType → ℕ
entity_index competitor = 0
entity_index service = 1
entity_index city = 2
entity_index state = 3
entity_index pricing = 4
entity_index category = 5
entity_index technology = 6
entity_index content = 7
entity_index social = 8
entity_index report = 9

pub data RelationshipType : Type 0 where
  offers operates_in competes_with uses mentions owns located_in expanded_to priced_at :
      RelationshipType

unfoldable pub relationship_index : RelationshipType → ℕ
relationship_index offers = 0
relationship_index operates_in = 1
relationship_index competes_with = 2
relationship_index uses = 3
relationship_index mentions = 4
relationship_index owns = 5
relationship_index located_in = 6
relationship_index expanded_to = 7
relationship_index priced_at = 8

pub record GraphNode (Ident : Type 0) : Type 0 where
  pub id : Ident
  pub entity_type : EntityType
  pub name : Text

pub record GraphEdge (Ident : Type 0) : Type 0 where
  pub source_id : Ident
  pub target_id : Ident
  pub relationship : RelationshipType
  pub weight : ℕ

pub record Graph (Ident : Type 0) : Type 0 where
  pub nodes : Dict Ident (GraphNode Ident)
  pub edges : List (GraphEdge Ident)
  pub adjacency : Dict Ident (List (GraphEdge Ident))
  pub reverse_adjacency : Dict Ident (List (GraphEdge Ident))
  pub type_index : Dict ℕ (List Ident)
  pub name_index : Dict Text Ident

-- the value of a `defaultdict(list)`, and `get(k, [])`
abbrev pub or_empty {ℓ} : {A : Type ℓ} → Option (List A) → List A
or_empty none = []
or_empty (some xs) = xs

module _ {Ident : Type 0} ⦃key : Key Ident⦄ where
  unfoldable pub empty_graph : Graph Ident
  empty_graph = record {
    nodes = [];
    edges = [];
    adjacency = [];
    reverse_adjacency = [];
    type_index = [];
    name_index = [];
  }

  -- `x in s`
  unfoldable pub is_among : Ident → List Ident → Bool
  is_among x [] = false
  is_among x (y ∷ ys) = ite (key.dec y x) true (is_among x ys)

  -- `s.add(x)`
  unfoldable pub add_to_set : Ident → List Ident → List Ident
  add_to_set x ys = if is_among x ys then ys else ys ++ x ∷ []

  unfoldable pub add_node : GraphNode Ident → Graph Ident → Graph Ident
  unfolding entity_index
  add_node n g =
      let members = or_empty (lookup (entity_index n.entity_type) g.type_index) in
      record g {
        nodes = insert n.id n g.nodes;
        type_index = insert (entity_index n.entity_type) (add_to_set n.id members) g.type_index;
        name_index = insert (lower n.name) n.id g.name_index;
      }

  -- `d[k].append(e)`
  unfoldable pub append_edge :
      Ident
      → GraphEdge Ident
      → Dict Ident (List (GraphEdge Ident))
      → Dict Ident (List (GraphEdge Ident))
  append_edge k e d = insert k (or_empty (lookup k d) ++ e ∷ []) d

  unfoldable pub add_edge : GraphEdge Ident → Graph Ident → Graph Ident
  add_edge e g = record g {
    edges = g.edges ++ e ∷ [];
    adjacency = append_edge e.source_id e g.adjacency;
    reverse_adjacency = append_edge e.target_id e g.reverse_adjacency;
  }

  unfoldable pub get_node : Ident → Graph Ident → Option (GraphNode Ident)
  get_node k g = lookup k g.nodes

  abbrev pub out_edges : Graph Ident → Ident → List (GraphEdge Ident)
  out_edges g k = or_empty (lookup k g.adjacency)

  abbrev pub in_edges : Graph Ident → Ident → List (GraphEdge Ident)
  in_edges g k = or_empty (lookup k g.reverse_adjacency)

  -- `relationship is None or edge.relationship == relationship`
  unfoldable pub is_wanted : Option RelationshipType → GraphEdge Ident → Bool
  is_wanted none e = true
  is_wanted (some r) e = relationship_index e.relationship == relationship_index r

  abbrev pub cons_found :
      Option (GraphNode Ident)
      → GraphEdge Ident
      → List (GraphNode Ident × GraphEdge Ident)
      → List (GraphNode Ident × GraphEdge Ident)
  cons_found none e rest = rest
  cons_found (some n) e rest = (n, e) ∷ rest

  -- the loop of the two look-ups, with the end of an edge at which the node is
  unfoldable pub ends :
      (GraphEdge Ident → Ident)
      → Option RelationshipType
      → Graph Ident
      → List (GraphEdge Ident)
      → List (GraphNode Ident × GraphEdge Ident)
  ends far r g [] = []
  ends far r g (e ∷ es) =
      let rest = ends far r g es in
      if is_wanted r e then cons_found (lookup (far e) g.nodes) e rest else rest

  unfoldable pub get_neighbors :
      Ident → Option RelationshipType → Graph Ident → List (GraphNode Ident × GraphEdge Ident)
  get_neighbors k r g = ends (λ e. e.target_id) r g (out_edges g k)

  unfoldable pub get_reverse_neighbors :
      Ident → Option RelationshipType → Graph Ident → List (GraphNode Ident × GraphEdge Ident)
  get_reverse_neighbors k r g = ends (λ e. e.source_id) r g (in_edges g k)

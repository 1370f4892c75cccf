-- ===== src/KnowledgeGraph/Build/Totals.antt =====
-- The edges are counted, and the tables of the graph that is built agree.
use competitor_intelligence.Base.{
  ℕ, Bool, true, false, List, [], ◌∷◌, length, length-append, if◌then◌else◌, Text, ◌≡◌, refl, arith,
}
use competitor_intelligence.Dict.{Dict}
use competitor_intelligence.KnowledgeGraph.{
  EntityType, RelationshipType, GraphEdge, empty_graph, add_node, add_edge,
}
use competitor_intelligence.KnowledgeGraph.Consistency.{
  IsConsistent, add_node-IsConsistent, add_edge-IsConsistent, empty_graph-IsConsistent,
}
use competitor_intelligence.KnowledgeGraph.Build.Ids.{NodeId, numbered, node_id_key}
use competitor_intelligence.KnowledgeGraph.Build.{
  CompetitorRow, ServiceRow, LabelledRow, ContentRow, Database, Built, put, put_counted, link,
  add_tag, add_tags, add_competitors, add_owned, is_new_category, add_category, add_services,
  add_labelled, add_mentions, add_contents, compete, compete_with, compete_all, unbuilt,
  build_from_database, see_category, categories_by_competitor, shared, searched_text,
}

pub record IsCounted (b : Built) : Type 0 where
  pub edges_counted : b.edge_count ≡ length b.graph.edges
  pub consistent : IsConsistent b.graph

put-IsCounted :
    (id : NodeId) (kind : EntityType) (name : Text) (b : Built)
    → IsCounted b
    → IsCounted (put id kind name b)
unfolding put add_node
put-IsCounted id kind name b h = record {
  edges_counted = h.edges_counted;
  consistent =
      add_node-IsConsistent (record { id = id; entity_type = kind; name = name }) b.graph
        h.consistent;
}

put_counted-IsCounted :
    (id : NodeId) (kind : EntityType) (name : Text) (b : Built)
    → IsCounted b
    → IsCounted (put_counted id kind name b)
unfolding put_counted put add_node
put_counted-IsCounted id kind name b h = record {
  edges_counted = h.edges_counted;
  consistent =
      add_node-IsConsistent (record { id = id; entity_type = kind; name = name }) b.graph
        h.consistent;
}

link-IsCounted :
    (source target : NodeId) (kind : RelationshipType) (weight : ℕ) (b : Built)
    → IsCounted b
    → IsCounted (link source target kind weight b)
unfolding link add_edge
link-IsCounted source target kind weight b h =
    let e : GraphEdge NodeId = record {
      source_id = source;
      target_id = target;
      relationship = kind;
      weight = weight;
    } in
    record {
      edges_counted = omega (arith, h.edges_counted, length-append {0} b.graph.edges (e ∷ []));
      consistent = add_edge-IsConsistent e b.graph h.consistent;
    }

-- a test between two graphs that are counted
if-IsCounted : (t : Bool) (b c : Built) → IsCounted b → IsCounted c → IsCounted (if t then b else c)
if-IsCounted true b c hb hc = hb
if-IsCounted false b c hb hc = hc

add_owned-IsCounted :
    (kind : EntityType) (relation : RelationshipType) (id owner : ℕ) (name : Text) (b : Built)
    → IsCounted b
    → IsCounted (add_owned kind relation id owner name b)
unfolding add_owned
add_owned-IsCounted kind relation id owner name b h =
    link-IsCounted _ _ relation 10 _ (put_counted-IsCounted (numbered kind id) kind name b h)

module _ (title_case : Text → Text) where
  add_tags-IsCounted :
      (id : ℕ) (tags : List Text) (b : Built)
      → IsCounted b
      → IsCounted (add_tags title_case id tags b)
  unfolding add_tags add_tag
  add_tags-IsCounted id [] b h = h
  add_tags-IsCounted id (tag ∷ tags) b h =
      add_tags-IsCounted id tags _
        (if-IsCounted _ _ b (link-IsCounted _ _ _ 10 _ (put-IsCounted _ _ (title_case tag) b h)) h)

  add_competitors-IsCounted :
      (rows : List CompetitorRow) (b : Built)
      → IsCounted b
      → IsCounted (add_competitors title_case rows b)
  unfolding add_competitors
  add_competitors-IsCounted [] b h = h
  add_competitors-IsCounted (c ∷ rows) b h = add_competitors-IsCounted rows _ (
      if-IsCounted c.enabled _ b
        (add_tags-IsCounted c.id c.tags _ (put_counted-IsCounted _ _ c.name b h)) h)

add_category-IsCounted :
    (svc : ServiceRow) (seen : List Text) (b : Built)
    → IsCounted b
    → IsCounted (add_category svc seen b)
unfolding add_category
add_category-IsCounted svc seen b h =
    if-IsCounted (is_new_category svc.service_category seen) _ b
      (link-IsCounted _ _ _ 10 _ (put-IsCounted _ _ _ b h)) h

add_services-IsCounted :
    (rows : List ServiceRow) (seen : List Text) (b : Built)
    → IsCounted b
    → IsCounted (add_services rows seen b)
unfolding add_services
add_services-IsCounted [] seen b h = h
add_services-IsCounted (svc ∷ rows) seen b h =
    add_services-IsCounted rows (see_category svc seen) _
      (add_category-IsCounted svc seen _ (add_owned-IsCounted _ _ svc.id _ svc.service_name b h))

add_labelled-IsCounted :
    (kind : EntityType) (relation : RelationshipType) (rows : List LabelledRow) (b : Built)
    → IsCounted b
    → IsCounted (add_labelled kind relation rows b)
unfolding add_labelled
add_labelled-IsCounted kind relation [] b h = h
add_labelled-IsCounted kind relation (r ∷ rows) b h =
    add_labelled-IsCounted kind relation rows _ (add_owned-IsCounted _ _ r.id _ r.label b h)

compete-IsCounted :
    (a c : ℕ) (common : List Text) (b : Built) → IsCounted b → IsCounted (compete a c common b)
unfolding compete
compete-IsCounted a c [] b h = h
compete-IsCounted a c (w ∷ common) b h = link-IsCounted _ _ _ _ b h

compete_with-IsCounted :
    (a : ℕ) (categories : List Text) (d : Dict ℕ (List Text)) (b : Built)
    → IsCounted b
    → IsCounted (compete_with a categories d b)
unfolding compete_with
compete_with-IsCounted a categories [] b h = h
compete_with-IsCounted a categories ((other, theirs) ∷ d) b h =
    compete_with-IsCounted a categories d _
      (compete-IsCounted a other (shared categories theirs) b h)

compete_all-IsCounted :
    (d : Dict ℕ (List Text)) (b : Built) → IsCounted b → IsCounted (compete_all d b)
unfolding compete_all
compete_all-IsCounted [] b h = h
compete_all-IsCounted ((a, categories) ∷ d) b h =
    compete_all-IsCounted d _ (compete_with-IsCounted a categories d b h)

module _ (title_case : Text → Text) (content_label : ℕ → Text) (tech_keywords : List Text) where
  add_mentions-IsCounted :
      (owner : ℕ) (text : Text) (words : List Text) (b : Built)
      → IsCounted b
      → IsCounted (add_mentions title_case content_label tech_keywords owner text words b)
  unfolding add_mentions
  add_mentions-IsCounted owner text [] b h = h
  add_mentions-IsCounted owner text (tech ∷ words) b h =
      add_mentions-IsCounted owner text words _
        (if-IsCounted _ _ b (link-IsCounted _ _ _ 5 _ (put-IsCounted _ _ (title_case tech) b h)) h)

  add_contents-IsCounted :
      (rows : List ContentRow) (b : Built)
      → IsCounted b
      → IsCounted (add_contents title_case content_label tech_keywords rows b)
  unfolding add_contents
  add_contents-IsCounted [] b h = h
  add_contents-IsCounted (c ∷ rows) b h = add_contents-IsCounted rows _ (
      add_mentions-IsCounted c.competitor_id (searched_text c) tech_keywords _
        (add_owned-IsCounted _ _ c.id _ _ b h))

  -- In the graph that build_from_database makes of any database, the adjacency lists in both
  -- directions hold exactly the edges of the list of edges with that end, in its order, and
  -- stats["edges"] is the number of edges.
  pub build_from_database-IsCounted :
      (db : Database) → IsCounted (build_from_database title_case content_label tech_keywords db)
  unfolding build_from_database empty_graph
  build_from_database-IsCounted db =
      compete_all-IsCounted (categories_by_competitor db.services []) _ (
        add_labelled-IsCounted _ _ db.socials _ (
          add_contents-IsCounted db.contents _ (
            add_labelled-IsCounted _ _ db.pricings _ (
              add_services-IsCounted db.services [] _ (
                add_competitors-IsCounted title_case db.competitors unbuilt
                  (record { edges_counted = refl; consistent = empty_graph-IsConsistent }))))))

-- ===== src/KnowledgeGraph/Build.antt =====
-- `KnowledgeGraph.build_from_database`. The rows of the tables are given in the order of the queries,
-- and the columns that only reach the properties of a node are left out. Titles in capitals, the
-- labels that an f-string makes of a row, and the order of the set of keywords are parameters.
pub mod Ids
pub mod Totals
use competitor_intelligence.Base.{
  ℕ, ◌+◌, ◌*◌, min, Bool, true, false, not, ◌&&◌, Option, none, some, List, [], ◌∷◌, ◌++◌, take,
  length, get_elem?, if◌then◌else◌, ite, is_some, Text, String, codes, lower, is_infix, ℕ_discrete,
  text_discrete, refl, ap, sym, ◌∙◌, ◌≡◌,
}
use competitor_intelligence.Dict.{Key, Dict, nat_key, lookup, insert}
use competitor_intelligence.KnowledgeGraph.Build.Ids.{NodeId, numbered, worded, node_id_key}
use competitor_intelligence.KnowledgeGraph.{
  EntityType, competitor, service, city, state, pricing, category, technology, content, social,
  report, entity_index, RelationshipType, operates_in, competes_with, uses, owns, priced_at,
  GraphNode, GraphEdge, Graph, text_key, or_empty, empty_graph, is_among, add_to_set, add_node,
  add_edge,
}

pub record CompetitorRow : Type 0 where
  pub id : ℕ
  pub name : Text
  pub tags : List Text
  pub enabled : Bool

pub record ServiceRow : Type 0 where
  pub id : ℕ
  pub competitor_id : ℕ
  pub service_name : Text
  pub service_category : Option Text

-- A row of the prices or of the social profiles, with the label that is made of it.
pub record LabelledRow : Type 0 where
  pub id : ℕ
  pub competitor_id : ℕ
  pub label : Text

pub record ContentRow : Type 0 where
  pub id : ℕ
  pub competitor_id : ℕ
  pub title : Option Text
  pub raw_content : Option Text

pub record Database : Type 0 where
  pub competitors : List CompetitorRow
  pub services : List ServiceRow
  pub pricings : List LabelledRow
  pub contents : List ContentRow
  pub socials : List LabelledRow

-- The graph so far, with `stats`.
pub record Built : Type 0 where
  pub graph : Graph NodeId
  pub node_count : ℕ
  pub edge_count : ℕ

-- `_add_node` alone, and with `stats["nodes"] += 1`
unfoldable pub put : NodeId → EntityType → Text → Built → Built
put id kind name b = record b {
  graph = add_node (record { id = id; entity_type = kind; name = name }) b.graph;
}

unfoldable pub put_counted : NodeId → EntityType → Text → Built → Built
unfolding put
put_counted id kind name b = record (put id kind name b) { node_count = b.node_count + 1 }

-- `_add_edge` and `stats["edges"] += 1`
unfoldable pub link : NodeId → NodeId → RelationshipType → ℕ → Built → Built
link source target kind weight b = record b {
  graph =
      add_edge
        (record { source_id = source; target_id = target; relationship = kind; weight = weight })
        b.graph;
  edge_count = b.edge_count + 1;
}

-- `if s`, for a text that may be missing
unfoldable pub present : Option Text → Bool
present none = false
present (some []) = false
present (some (c ∷ s)) = true

unfoldable pub text_or : Text → Option Text → Text
text_or d none = d
text_or d (some []) = d
text_or d (some (c ∷ s)) = c ∷ s

-- `any(c in text for c in words)`
unfoldable pub has_any : List Text → Text → Bool
has_any [] text = false
has_any (w ∷ words) text = if is_infix w text then true else has_any words text

unfoldable pub cities : List Text
cities =
    codes "chennai"
    ∷ codes "mumbai"
    ∷ codes "delhi"
    ∷ codes "bangalore"
    ∷ codes "hyderabad"
    ∷ codes "pune"
    ∷ codes "kolkata"
    ∷ codes "jaipur"
    ∷ codes "ahmedabad"
    ∷ codes "lucknow"
    ∷ []

module _ (title_case : Text → Text) where
  -- one tag of a competitor
  unfoldable pub add_tag : ℕ → Text → Built → Built
  add_tag id tag b =
      let place = worded city (lower tag) in
      if has_any cities (lower tag)
      then link (numbered competitor id) place operates_in 10 (put place city (title_case tag) b)
      else b

  unfoldable pub add_tags : ℕ → List Text → Built → Built
  add_tags id [] b = b
  add_tags id (tag ∷ tags) b = add_tags id tags (add_tag id tag b)

  unfoldable pub add_competitors : List CompetitorRow → Built → Built
  add_competitors [] b = b
  add_competitors (c ∷ rows) b = add_competitors rows (
      if c.enabled
      then add_tags c.id c.tags (put_counted (numbered competitor c.id) competitor c.name b)
      else b)

-- a node of a row, and the edge to it from the competitor of the row
unfoldable pub add_owned : EntityType → RelationshipType → ℕ → ℕ → Text → Built → Built
add_owned kind relation id owner name b =
    link (numbered competitor owner) (numbered kind id) relation 10
      (put_counted (numbered kind id) kind name b)

-- `svc.service_category and svc.service_category not in categories_seen`
unfoldable pub is_new_category : Option Text → List Text → Bool
is_new_category c seen = present c && not (is_among (text_or [] c) seen)

unfoldable pub add_category : ServiceRow → List Text → Built → Built
add_category svc seen b =
    let name = text_or [] svc.service_category in
    if is_new_category svc.service_category seen
    then link (numbered service svc.id) (worded category (lower name)) uses 10
        (put (worded category (lower name)) category name b)
    else b

unfoldable pub see_category : ServiceRow → List Text → List Text
see_category svc seen =
    if is_new_category svc.service_category seen
    then text_or [] svc.service_category ∷ seen
    else seen

unfoldable pub add_services : List ServiceRow → List Text → Built → Built
add_services [] seen b = b
add_services (svc ∷ rows) seen b =
    add_services rows (see_category svc seen)
      (add_category svc seen (add_owned service owns svc.id svc.competitor_id svc.service_name b))

unfoldable pub add_labelled : EntityType → RelationshipType → List LabelledRow → Built → Built
add_labelled kind relation [] b = b
add_labelled kind relation (r ∷ rows) b =
    add_labelled kind relation rows (add_owned kind relation r.id r.competitor_id r.label b)

-- what the keywords are looked for in
unfoldable pub searched_text : ContentRow → Text
searched_text c = lower (text_or [] c.title) ++ (b' ' ∷ lower (take 500 (text_or [] c.raw_content)))

module _ (title_case : Text → Text) (content_label : ℕ → Text) (tech_keywords : List Text) where
  unfoldable pub add_mentions : ℕ → Text → List Text → Built → Built
  add_mentions owner text [] b = b
  add_mentions owner text (tech ∷ keywords) b = add_mentions owner text keywords (
      if is_infix tech text
      then link (numbered competitor owner) (worded technology tech) uses 5
          (put (worded technology tech) technology (title_case tech) b)
      else b)

  unfoldable pub add_contents : List ContentRow → Built → Built
  add_contents [] b = b
  add_contents (c ∷ rows) b = add_contents rows (
      add_mentions c.competitor_id (searched_text c) tech_keywords
        (add_owned content owns c.id c.competitor_id (text_or (content_label c.id) c.title) b))

-- `comp_categories`
unfoldable pub categories_by_competitor : List ServiceRow → Dict ℕ (List Text) → Dict ℕ (List Text)
categories_by_competitor [] d = d
categories_by_competitor (svc ∷ rows) d = categories_by_competitor rows (
    if present svc.service_category
    then insert svc.competitor_id
        (add_to_set (lower (text_or [] svc.service_category))
          (or_empty (lookup svc.competitor_id d)))
        d
    else d)

-- `a & b`
unfoldable pub shared : List Text → List Text → List Text
shared [] ys = []
shared (x ∷ xs) ys = let rest = shared xs ys in if is_among x ys then x ∷ rest else rest

unfoldable pub compete : ℕ → ℕ → List Text → Built → Built
compete a b [] built = built
compete a b (c ∷ common) built =
    link (numbered competitor a) (numbered competitor b) competes_with
      (min (length (c ∷ common) * 2) 10) built

-- the inner loop, over the competitors after this one
unfoldable pub compete_with : ℕ → List Text → Dict ℕ (List Text) → Built → Built
compete_with a categories [] b = b
compete_with a categories ((other, theirs) ∷ d) b =
    compete_with a categories d (compete a other (shared categories theirs) b)

unfoldable pub compete_all : Dict ℕ (List Text) → Built → Built
compete_all [] b = b
compete_all ((a, categories) ∷ d) b = compete_all d (compete_with a categories d b)

abbrev pub unbuilt : Built
unbuilt = record { graph = empty_graph; node_count = 0; edge_count = 0 }

module _ (title_case : Text → Text) (content_label : ℕ → Text) (tech_keywords : List Text) where
  unfoldable pub build_from_database : Database → Built
  build_from_database db =
      let owned = add_services db.services [] (add_competitors title_case db.competitors unbuilt) in
      let priced = add_labelled pricing priced_at db.pricings owned in
      let told = add_contents title_case content_label tech_keywords db.contents priced in
      compete_all (categories_by_competitor db.services [])
        (add_labelled social owns db.socials told)

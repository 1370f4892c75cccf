-- ===== src/KnowledgeGraph/Build/Ids.antt =====
-- The ids of the nodes that `build_from_database` makes, and their equality.
use competitor_intelligence.Base.{
  ℕ, Option, none, some, [], ◌∷◌, get_elem?, Text, ℕ_discrete, text_discrete, ◌≡◌, refl, ap, sym,
  ◌∙◌,
}
use competitor_intelligence.Dict.{Key}
use competitor_intelligence.KnowledgeGraph.{
  EntityType, competitor, service, city, state, pricing, category, technology, content, social,
  report, entity_index,
}

-- `f"competitor:{id}"` and its like: the kind of the node, with the key of a row or with a word.
pub data NodeId : Type 0 where
  numbered : EntityType → ℕ → NodeId
  worded : EntityType → Text → NodeId

abbrev pub or_report : Option EntityType → EntityType
or_report none = report
or_report (some e) = e

abbrev pub entity_at : ℕ → EntityType
entity_at n = or_report (
    get_elem?
      (competitor ∷ service ∷ city ∷ state ∷ pricing ∷ category ∷ technology ∷ content ∷ social
        ∷ [])
      n)

pub entity_at-entity_index : (e : EntityType) → entity_at (entity_index e) ≡ e
unfolding entity_index
entity_at-entity_index competitor = refl
entity_at-entity_index service = refl
entity_at-entity_index city = refl
entity_at-entity_index state = refl
entity_at-entity_index pricing = refl
entity_at-entity_index category = refl
entity_at-entity_index technology = refl
entity_at-entity_index content = refl
entity_at-entity_index social = refl
entity_at-entity_index report = refl

unfoldable pub entity_discrete : Discrete EntityType
unfolding entity_index
entity_discrete a b = elim (ℕ_discrete (entity_index a) (entity_index b)) [
  | yes same ↦ yes (sym (entity_at-entity_index a) ∙ ap entity_at same ∙ entity_at-entity_index b)
  | no other ↦ no (λ e. other (ap entity_index e))
]

unfoldable pub node_id_discrete : Discrete NodeId
unfolding entity_discrete
node_id_discrete (numbered a m) (numbered b n) = elim (entity_discrete a b) [
  | no other ↦ no (λ e. other (cc))
  | yes same ↦ elim (ℕ_discrete m n) [ yes p ↦ yes (cc) | no other ↦ no (λ e. other (cc)) ]
]
node_id_discrete (numbered a m) (worded b w) = no (λ e. cc)
node_id_discrete (worded a v) (numbered b n) = no (λ e. cc)
node_id_discrete (worded a v) (worded b w) = elim (entity_discrete a b) [
  | no other ↦ no (λ e. other (cc))
  | yes same ↦ elim (text_discrete v w) [ yes p ↦ yes (cc) | no other ↦ no (λ e. other (cc)) ]
]

instance abbrev pub node_id_key : Key NodeId
node_id_key = record { dec = node_id_discrete }

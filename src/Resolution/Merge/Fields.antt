-- ===== src/Resolution/Merge/Fields.antt =====
-- What a merged item has in its fields, and that a merge keeps the number of items.
use competitor_intelligence.Base.{
  ℕ, zero, suc, ◌≡◌, refl, arith, sym, ◌∙◌, ap, subst, ◌≢◌, if_pos, if_neg, true, not, ◌&&◌, Option,
  none, some, String, List, [], ◌∷◌, length, All, if◌then◌else◌, string_discrete, inl, inr,
  Bool-cases, Option-cases, get_elem?, map, ◌==◌,
}
use competitor_intelligence.Dict.{Dict, string_key, lookup, insert, IsDistinct}
use competitor_intelligence.Dict.Laws.{lookup-insert, lookup-insert_self}
use competitor_intelligence.Resolution.Item.{Value, flag, Item}
use competitor_intelligence.Resolution.Merge.{
  is_blank, fill, enrich, set_item, mark_merged, merge_cluster, best_index, variants_of,
  merged_items,
}

-- The first value that is not blank; if all are, the canonical item's.
unfoldable pub chosen : Option Value → Option Value → Option Value
chosen a b = if is_blank a then (if is_blank b then a else b) else a

unfoldable pub first_filled : String → Option Value → List Item → Option Value
unfolding chosen
first_filled k v [] = v
first_filled k v (item ∷ items) = first_filled k (chosen v (lookup k item)) items

chosen-none : (a : Option Value) → chosen a none ≡ a
unfolding chosen is_blank
chosen-none a = elim (Bool-cases (is_blank a)) [
  | inl blank ↦ rw (blank, chosen) refl
  | inr there ↦ rw (there, chosen) refl
]

-- The canonical item after one entry of a variant.
abbrev taken : String → Value → Item → Item
taken j v canonical =
    if not (is_blank (some v)) && is_blank (lookup j canonical)
    then insert j v canonical
    else canonical

taken_own :
    (j : String) (v : Value) (canonical : Item)
    → lookup j (taken j v canonical) ≡ chosen (lookup j canonical) (some v)
unfolding chosen
taken_own j v canonical = ground (arith, lookup-insert_self j v canonical)

taken_other :
    (j k : String) (v : Value) (canonical : Item)
    → j ≢ k
    → lookup k (taken j v canonical) ≡ lookup k canonical
taken_other j k v canonical other = ground (arith, lookup-insert j k v canonical)

fill_reads :
    (k : String) (canonical variant : Item)
    → IsDistinct variant
    → lookup k (fill canonical variant) ≡ chosen (lookup k canonical) (lookup k variant)
unfolding fill lookup
fill_reads k canonical [] u = sym (chosen-none (lookup k canonical))
fill_reads k canonical ((j, v) ∷ variant) (new, u) =
    let rest = fill_reads k (taken j v canonical) variant u in
    elim (string_discrete j k) [
      | yes p ↦
          let absent : lookup k variant ≡ none = subst (λ i. lookup i variant ≡ none) p new in
          let own : lookup k (taken j v canonical) ≡ chosen (lookup k canonical) (some v) =
            subst (λ i. lookup i (taken j v canonical) ≡ chosen (lookup i canonical) (some v)) p
              (taken_own j v canonical) in
          rest
          ∙ ap (chosen (lookup k (taken j v canonical))) absent
          ∙ chosen-none (lookup k (taken j v canonical))
          ∙ own
          ∙ ap (chosen (lookup k canonical)) (sym (if_pos (string_discrete j k) p _ _))
      | no n ↦
          rest
          ∙ ap (λ o. chosen o (lookup k variant)) (taken_other j k v canonical n)
          ∙ ap (chosen (lookup k canonical)) (sym (if_neg (string_discrete j k) n _ _))
    ]

-- Enriching an item by its variants, in none of which a key stands twice, leaves in each field the
-- first value that is neither None nor empty, the item's own before those of the variants in their
-- order.
pub enrich_reads :
    (k : String) (canonical : Item) (variants : List Item)
    → All (λ v. IsDistinct v) variants
    → lookup k (enrich canonical variants) ≡ first_filled k (lookup k canonical) variants
unfolding enrich first_filled
enrich_reads k canonical [] u = refl
enrich_reads k canonical (variant ∷ variants) (u, us) =
    enrich_reads k (fill canonical variant) variants us
    ∙ ap (λ o. first_filled k o variants) (fill_reads k canonical variant u)

length-set_item :
    (i : ℕ) (x : Item) (items : List Item) → length (set_item i x items) ≡ length items
unfolding set_item
length-set_item i x [] = refl
length-set_item zero x (item ∷ items) = refl
length-set_item (suc i) x (item ∷ items) = ap suc (length-set_item i x items)

length-mark_merged :
    (best : ℕ) (indices : List ℕ) (items : List Item)
    → length (mark_merged best indices items) ≡ length items
unfolding mark_merged
length-mark_merged best [] items = refl
length-mark_merged best (i ∷ indices) items = elim (Bool-cases (i == best)) [
  | inl here ↦ rw (here, mark_merged) (length-mark_merged best indices items)
  | inr other ↦ elim (Option-cases (get_elem? items i)) [
    | inl gone ↦ rw (other, gone, mark_merged) (length-mark_merged best indices items)
    | inr (item, there) ↦
        rw (other, there, mark_merged)
          (length-mark_merged best indices (set_item i (insert "__merged__" (flag true) item) items)
            ∙ length-set_item i (insert "__merged__" (flag true) item) items)
  ]
]

enriched_length :
    (best : ℕ) (variants : List Item) (items : List Item) (o : Option Item)
    → get_elem? items best ≡ o
    → length (merged_items best variants items o) ≡ length items
enriched_length best variants items none e = refl
enriched_length best variants items (some canonical) e =
    length-set_item best (enrich canonical variants) items

-- A merge removes no item: those that it marks are removed later, by the deduplication.
pub length-merge_cluster :
    (length_of : Value → ℕ) (seed : ℕ × String) (others : List (ℕ × String)) (items : List Item)
    (names : Dict String Value)
    → length (merge_cluster length_of seed others (items, names)).0 ≡ length items
unfolding merge_cluster
length-merge_cluster length_of seed others items names =
    let indices = map (λ x. x.0) others in
    let best = best_index length_of items seed.0 indices in
    let all = seed.0 ∷ indices in
    let variants = variants_of best all items in
    length-mark_merged best all (merged_items best variants items (get_elem? items best))
    ∙ enriched_length best variants items (get_elem? items best) refl

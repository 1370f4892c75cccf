-- ===== src/Resolution/Duplicates/Keys.antt =====
-- The keys that `_deduplicate_list` leaves.
use competitor_intelligence.Base.{
  ◌≡◌, refl, sym, ap, ◌∙◌, subst, arith, Bool, true, false, not, ◌&&◌, Option, none, some, String,
  List, [], ◌∷◌, inl, inr, Bool-cases, Option-cases, if◌then◌else◌, string_discrete,
}
use competitor_intelligence.Dict.{string_key, erase}
use competitor_intelligence.Dict.Laws.{lookup-erase_self, erase_absent}
use competitor_intelligence.Resolution.Item.{Value, Item, has_value, first_value}
use competitor_intelligence.Resolution.Duplicates.{
  is_in, key_value, keep_new, deduplicate_from, deduplicate_list,
}

and_true : (b : Bool) → (b && not false) ≡ b
and_true true = refl
and_true false = refl

module _ (shown : Value → String) (keys : List String) where
  -- The key values of the items that are not merged, in order.
  add_key : Option String → List String → List String
  add_key none ks = ks
  add_key (some k) ks = k ∷ ks

  unfoldable pub keys_of : List Item → List String
  unfolding add_key
  keys_of [] = []
  keys_of (item ∷ items) =
      let rest = keys_of items in
      if has_value "__merged__" item then rest else add_key (key_value shown keys item) rest

  -- No key stands twice, and none is among those seen.
  abbrev pub AreNew : List String → List String → Type 0
  AreNew seen [] = Unit
  AreNew seen (k ∷ ks) = (is_in k seen ≡ false) × AreNew (k ∷ seen) ks

  unmerged : (item : Item) → has_value "__merged__" (erase "__merged__" item) ≡ false
  unfolding has_value
  unmerged item = rw (lookup-erase_self "__merged__" item, has_value) refl

  key_again :
      (item : Item) → key_value shown keys (erase "__merged__" item) ≡ key_value shown keys item
  unfolding key_value
  key_again item =
      ap (λ i. first_value shown i keys)
        (erase_absent "__merged__" (erase "__merged__" item) (lookup-erase_self "__merged__" item))

  keys_of_kept :
      (item : Item) (items : List Item)
      → keys_of (erase "__merged__" item ∷ items)
        ≡ add_key (key_value shown keys item) (keys_of items)
  unfolding keys_of
  keys_of_kept item items = rw (unmerged item, keys_of) (rw (key_again item) refl)

  keyless_kept :
      (item : Item) (items : List Item)
      → key_value shown keys item ≡ none
      → keys_of (erase "__merged__" item ∷ items) ≡ keys_of items
  unfolding add_key
  keyless_kept item items e = keys_of_kept item items ∙ ap (λ o. add_key o (keys_of items)) e

  keyed_kept :
      (k : String) (item : Item) (items : List Item)
      → key_value shown keys item ≡ some k
      → keys_of (erase "__merged__" item ∷ items) ≡ k ∷ keys_of items
  unfolding add_key
  keyed_kept k item items e = keys_of_kept item items ∙ ap (λ o. add_key o (keys_of items)) e

  -- How the loop goes on, by what the first item is.
  abbrev rest_of : List Item → List String → List Item
  rest_of items seen = deduplicate_from shown keys items seen

  deduplicate_from-AreNew :
      (items : List Item) (seen : List String) → AreNew seen (keys_of (rest_of items seen))
  unfolding deduplicate_from keep_new keys_of
  deduplicate_from-AreNew [] seen = tt
  deduplicate_from-AreNew (item ∷ items) seen = elim (Bool-cases (has_value "__merged__" item)) [
    | inl merged ↦ rw (merged, deduplicate_from) (deduplicate_from-AreNew items seen)
    | inr kept ↦ elim (Option-cases (key_value shown keys item)) [
      | inl keyless ↦
          rw (kept, keyless, deduplicate_from)
            (subst (λ ks. AreNew seen ks) (sym (keyless_kept item (rest_of items seen) keyless))
              (deduplicate_from-AreNew items seen))
      | inr (k, keyed) ↦ elim (Bool-cases (is_in k seen)) [
        | inl old ↦ rw (kept, keyed, deduplicate_from, old) (deduplicate_from-AreNew items seen)
        | inr new ↦
            rw (kept, keyed, deduplicate_from, new)
              (subst (λ ks. AreNew seen ks)
                (sym (keyed_kept k item (rest_of items (k ∷ seen)) keyed))
                (new, deduplicate_from-AreNew items (k ∷ seen)))
      ]
    ]
  ]

  -- A key is left exactly when an item that is not merged has it and it was not seen before.
  abbrev Left : String → List String → List String → List String → Type 0
  Left key seen before after = is_in key after ≡ (is_in key before && not (is_in key seen))

  skipped :
      (key k : String) (seen before after : List String)
      → is_in k seen ≡ true
      → Left key seen before after
      → Left key seen (k ∷ before) after
  unfolding is_in
  skipped key k seen before after old h = elim (string_discrete k key) [
    | yes p ↦
        let seen_key : is_in key seen ≡ true = subst (λ j. is_in j seen ≡ true) p old in
        ground arith
    | no n ↦ ground arith
  ]

  taken :
      (key k : String) (seen before after : List String)
      → is_in k seen ≡ false
      → Left key (k ∷ seen) before after
      → Left key seen (k ∷ before) (k ∷ after)
  unfolding is_in
  taken key k seen before after new h = elim (string_discrete k key) [
    | yes p ↦
        let new_key : is_in key seen ≡ false = subst (λ j. is_in j seen ≡ false) p new in
        ground arith
    | no n ↦ ground arith
  ]

  deduplicate_from-Left :
      (key : String) (items : List Item) (seen : List String)
      → Left key seen (keys_of items) (keys_of (rest_of items seen))
  unfolding deduplicate_from keep_new keys_of is_in add_key
  deduplicate_from-Left key [] seen = refl
  deduplicate_from-Left key (item ∷ items) seen = elim (Bool-cases (has_value "__merged__" item)) [
    | inl merged ↦ rw (merged, deduplicate_from) (deduplicate_from-Left key items seen)
    | inr kept ↦ elim (Option-cases (key_value shown keys item)) [
      | inl keyless ↦
          rw (kept, keyless, deduplicate_from)
            (subst (λ ks. Left key seen (keys_of items) ks)
              (sym (keyless_kept item (rest_of items seen) keyless))
              (deduplicate_from-Left key items seen))
      | inr (k, keyed) ↦ elim (Bool-cases (is_in k seen)) [
        | inl old ↦
            rw (kept, keyed, deduplicate_from, old)
              (skipped key k seen (keys_of items) (keys_of (rest_of items seen)) old
                (deduplicate_from-Left key items seen))
        | inr new ↦
            rw (kept, keyed, deduplicate_from, new)
              (subst (λ ks. Left key seen (k ∷ keys_of items) ks)
                (sym (keyed_kept k item (rest_of items (k ∷ seen)) keyed))
                (taken key k seen (keys_of items) (keys_of (rest_of items (k ∷ seen))) new
                  (deduplicate_from-Left key items (k ∷ seen))))
      ]
    ]
  ]

  -- After the deduplication no key value stands twice, and exactly the key values of the items that
  -- were not merged are left.
  pub deduplicate_list-keys :
      (items : List Item) (key : String)
      → let left = deduplicate_list shown keys items in
        AreNew [] (keys_of left) × (is_in key (keys_of left) ≡ is_in key (keys_of items))
  unfolding deduplicate_list is_in
  deduplicate_list-keys items key = (
    deduplicate_from-AreNew items [],
    deduplicate_from-Left key items [] ∙ and_true (is_in key (keys_of items)),
  )

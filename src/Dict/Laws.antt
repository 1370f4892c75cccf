-- ===== src/Dict/Laws.antt =====
-- The laws of dictionaries: what can be read after a write, the sizes, and distinct keys.
use mathlib.Core.Option.{some-injective}
use competitor_intelligence.Base.{
  ◌⊎◌, inl, inr, sym, ◌∙◌, ◌+◌, ◌≤◌, ◌≡◌, refl, ◌≢◌, none, some, [], ◌∷◌, ◌++◌, ite, length, arith,
}
use competitor_intelligence.Dict.{Key, Dict, lookup, insert, erase, move_to_end, IsDistinct}

module _ {K V : Type 0} ⦃key : Key K⦄ where
  pub lookup-insert :
      (k j : K) (v : V) (d : Dict K V)
      → lookup j (insert k v d) ≡ ite (key.dec k j) (some v) (lookup j d)
  unfolding lookup insert
  lookup-insert k j v [] = refl
  lookup-insert k j v ((i, w) ∷ d) = ground (arith, lookup-insert k j v d)

  pub lookup-erase :
      (k j : K) (d : Dict K V) → lookup j (erase k d) ≡ ite (key.dec k j) none (lookup j d)
  unfolding lookup erase
  lookup-erase k j [] = ground arith
  lookup-erase k j ((i, w) ∷ d) = ground (arith, lookup-erase k j d)

  pub lookup-append_last :
      (k j : K) (v : V) (d : Dict K V)
      → lookup k d ≡ none
      → lookup j (d ++ (k, v) ∷ []) ≡ ite (key.dec k j) (some v) (lookup j d)
  unfolding lookup
  lookup-append_last k j v [] h = refl
  lookup-append_last k j v ((i, w) ∷ d) h = ground (arith, lookup-append_last k j v d)

  pub lookup-move_to_end :
      (k j : K) (v : V) (d : Dict K V)
      → lookup j (move_to_end k v d) ≡ ite (key.dec k j) (some v) (lookup j d)
  unfolding move_to_end
  lookup-move_to_end k j v d =
      ground (arith, lookup-append_last k j v (erase k d), lookup-erase k j d, lookup-erase k k d)

  pub erase_absent : (k : K) (d : Dict K V) → lookup k d ≡ none → erase k d ≡ d
  unfolding lookup erase
  erase_absent k [] h = refl
  erase_absent k ((i, w) ∷ d) h = ground (arith, erase_absent k d)

  pub insert_absent :
      (k : K) (v : V) (d : Dict K V) → lookup k d ≡ none → insert k v d ≡ d ++ (k, v) ∷ []
  unfolding lookup insert
  insert_absent k v [] h = refl
  insert_absent k v ((i, w) ∷ d) h = ground (arith, insert_absent k v d)

  pub length-erase-le : (k : K) (d : Dict K V) → length (erase k d) ≤ length d
  unfolding erase
  length-erase-le k [] = omega arith
  length-erase-le k ((i, w) ∷ d) = ground (arith, length-erase-le k d)

  pub length-erase :
      (k : K) (v : V) (d : Dict K V)
      → IsDistinct d
      → lookup k d ≡ some v
      → length (erase k d) + 1 ≡ length d
  unfolding lookup erase
  length-erase k v [] u h = ground arith
  length-erase k v ((i, w) ∷ d) u h = ground (arith, length-erase k v d u.1, erase_absent i d)

  pub length-insert_present :
      (k : K) (v w : V) (d : Dict K V) → lookup k d ≡ some w → length (insert k v d) ≡ length d
  unfolding lookup insert
  length-insert_present k v w [] h = ground arith
  length-insert_present k v w ((i, x) ∷ d) h = ground (arith, length-insert_present k v w d)

  pub insert-IsDistinct : (k : K) (v : V) (d : Dict K V) → IsDistinct d → IsDistinct (insert k v d)
  unfolding insert lookup
  insert-IsDistinct k v [] u = (refl, tt)
  insert-IsDistinct k v ((i, w) ∷ d) u =
      ground (arith, insert-IsDistinct k v d u.1, lookup-insert k i v d)

  pub erase-IsDistinct : (k : K) (d : Dict K V) → IsDistinct d → IsDistinct (erase k d)
  unfolding erase lookup
  erase-IsDistinct k [] u = tt
  erase-IsDistinct k ((i, w) ∷ d) u = ground (arith, erase-IsDistinct k d u.1, lookup-erase k i d)

  pub append_last-IsDistinct :
      (k : K) (v : V) (d : Dict K V)
      → lookup k d ≡ none
      → IsDistinct d
      → IsDistinct (d ++ (k, v) ∷ [])
  unfolding lookup
  append_last-IsDistinct k v [] h u = (refl, tt)
  append_last-IsDistinct k v ((i, w) ∷ d) h u =
      ground (arith, append_last-IsDistinct k v d, lookup-append_last k i v d)

  pub erase-insert_self : (k : K) (v : V) (d : Dict K V) → erase k (insert k v d) ≡ erase k d
  unfolding erase insert
  erase-insert_self k v [] = ground arith
  erase-insert_self k v ((i, w) ∷ d) = ground (arith, erase-insert_self k v d)

  pub lookup-insert_self : (k : K) (v : V) (d : Dict K V) → lookup k (insert k v d) ≡ some v
  lookup-insert_self k v d = ground (arith, lookup-insert k k v d)

  pub lookup-erase_self : (k : K) (d : Dict K V) → lookup k (erase k d) ≡ none
  lookup-erase_self k d = ground (arith, lookup-erase k k d)

-- A key that is found after an insertion is the one inserted, or was there before; a key that is
-- found after a removal is another one and was there before.
module _ {K V : Type 0} ⦃key : Key K⦄ where
  pub found-insert :
      (k j : K) (v w : V) (d : Dict K V)
      → lookup j (insert k v d) ≡ some w
      → ((k ≡ j) × (v ≡ w)) ⊎ ((k ≢ j) × (lookup j d ≡ some w))
  found-insert k j v w d h =
      let h' : ite (key.dec k j) (some v) (lookup j d) ≡ some w = sym (lookup-insert k j v d) ∙ h in
      elim (key.dec k j)
          as (λ q.
            ite q (some v) (lookup j d) ≡ some w
            → ((k ≡ j) × (v ≡ w)) ⊎ ((k ≢ j) × (lookup j d ≡ some w))) [
              | yes p ↦ λ g. inl (p, some-injective _ _ g)
              | no n ↦ λ g. inr (n, g)
            ]
        h'

  pub found-erase :
      (k j : K) (w : V) (d : Dict K V)
      → lookup j (erase k d) ≡ some w
      → (k ≢ j) × (lookup j d ≡ some w)
  found-erase k j w d h =
      let h' : ite (key.dec k j) none (lookup j d) ≡ some w = sym (lookup-erase k j d) ∙ h in
      elim (key.dec k j)
          as (λ q. ite q none (lookup j d) ≡ some w → (k ≢ j) × (lookup j d ≡ some w)) [
            | yes p ↦ λ g. absurd (cc)
            | no n ↦ λ g. (n, g)
          ]
        h'

-- ===== src/Sorting/Order.antt =====
-- A sorted list is a permutation, and where the test is that of a weak order nothing stands behind an
-- element that is below it.
use mathlib.Core.List.{Perm}
use mathlib.Core.List.Perm
use competitor_intelligence.Base.{Bool, true, false, List, [], ◌∷◌, All, ◌≡◌, refl, if_chosen}
use competitor_intelligence.Sorting.{insert_by, sort_by}

module _ {ℓ} {A : Type ℓ} (below : A → A → Bool) where
  abbrev pub IsSorted : List A → Type ℓ
  IsSorted [] = Unit
  IsSorted (x ∷ xs) = All (λ (y : A). below x y ≡ false) xs × IsSorted xs

  -- What a test of a weak order does: of two elements at most one is below, and an element that is not
  -- below a second, which is not below a third, is not below that.
  pub record IsWeakOrder : Type ℓ where
    pub asym : (x y : A) → below x y ≡ true → below y x ≡ false
    pub trans : (x y z : A) → below x y ≡ false → below y z ≡ false → below x z ≡ false

  insert_by-Perm : (x : A) (ys : List A) → Perm (insert_by below x ys) (x ∷ ys)
  unfolding insert_by
  insert_by-Perm x [] = Perm.rfl
  insert_by-Perm x (y ∷ ys) =
      if_chosen (λ zs. Perm zs (x ∷ y ∷ ys)) (below x y) _ _
        (λ lower. Perm.trans (Perm.cons' refl (insert_by-Perm x ys)) (Perm.swap x y ys))
        (λ upper. Perm.rfl)

  pub sort_by-Perm : (xs : List A) → Perm (sort_by below xs) xs
  unfolding sort_by
  sort_by-Perm [] = Perm.rfl
  sort_by-Perm (x ∷ xs) =
      Perm.trans (insert_by-Perm x (sort_by below xs)) (Perm.cons' refl (sort_by-Perm xs))

  All-insert_by {κ} :
      (P : A → Type κ) (x : A) (ys : List A) → P x → All P ys → All P (insert_by below x ys)
  unfolding insert_by
  All-insert_by P x [] hx h = (hx, tt)
  All-insert_by P x (y ∷ ys) hx h =
      if_chosen (All P) (below x y) _ _ (λ lower. (h.0, All-insert_by P x ys hx h.1))
        (λ upper. (hx, h))

  pub All-sort_by {κ} : (P : A → Type κ) (xs : List A) → All P xs → All P (sort_by below xs)
  unfolding sort_by
  All-sort_by P [] h = tt
  All-sort_by P (x ∷ xs) h = All-insert_by P x (sort_by below xs) h.0 (All-sort_by P xs h.1)

  module _ (order : IsWeakOrder) where
    All-not_below :
        (x y : A) (zs : List A)
        → below x y ≡ false
        → All (λ (z : A). below y z ≡ false) zs
        → All (λ (z : A). below x z ≡ false) zs
    All-not_below x y [] h hs = tt
    All-not_below x y (z ∷ zs) h hs = (order.trans x y z h hs.0, All-not_below x y zs h hs.1)

    insert_by-IsSorted : (x : A) (ys : List A) → IsSorted ys → IsSorted (insert_by below x ys)
    unfolding insert_by
    insert_by-IsSorted x [] h = (tt, tt)
    insert_by-IsSorted x (y ∷ ys) h =
        if_chosen IsSorted (below x y) _ _
          (λ lower. (All-insert_by _ x ys (order.asym x y lower) h.0, insert_by-IsSorted x ys h.1))
          (λ upper. ((upper, All-not_below x y ys upper h.0), h))

    pub sort_by-IsSorted : (xs : List A) → IsSorted (sort_by below xs)
    unfolding sort_by
    sort_by-IsSorted [] = tt
    sort_by-IsSorted (x ∷ xs) = insert_by-IsSorted x (sort_by below xs) (sort_by-IsSorted xs)

-- a coarser test
module _ {ℓ} {A : Type ℓ} (below coarse : A → A → Bool)
    (weaker : (x y : A) → below x y ≡ false → coarse x y ≡ false) where
  All-weaker :
      (x : A) (ys : List A)
      → All (λ (y : A). below x y ≡ false) ys
      → All (λ (y : A). coarse x y ≡ false) ys
  All-weaker x [] h = tt
  All-weaker x (y ∷ ys) h = (weaker x y h.0, All-weaker x ys h.1)

  pub IsSorted-coarse : (xs : List A) → IsSorted below xs → IsSorted coarse xs
  IsSorted-coarse [] h = tt
  IsSorted-coarse (x ∷ xs) h = (All-weaker x xs h.0, IsSorted-coarse xs h.1)

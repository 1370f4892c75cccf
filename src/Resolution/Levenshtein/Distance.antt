-- ===== src/Resolution/Levenshtein/Distance.antt =====
-- `levenshtein` computes the edit distance.
use competitor_intelligence.Base.{
  ℕ, suc, ◌+◌, min, ◌≡◌, refl, sym, ◌∙◌, ap, arith, List, [], ◌∷◌, Text, length, ltb, inl, inr,
  Bool-cases, ◌≤◌, ◌↔◌, ◌++◌, append-nil,
}
use competitor_intelligence.Resolution.Levenshtein.{
  range_from, cost, cells, next_row, rows, last_or, table, levenshtein,
}

-- The distance of two texts that are read from their ends: the last letters are deleted, inserted or
-- exchanged.
unfoldable pub edit : Text → Text → ℕ
edit [] ys = length ys
edit (x ∷ xs) [] = suc (length xs)
edit (x ∷ xs) (y ∷ ys) =
    min (min (edit (x ∷ xs) ys + 1) (edit xs (y ∷ ys) + 1)) (edit xs ys + cost x y)

unfoldable pub reverse_onto : Text → Text → Text
reverse_onto [] ys = ys
reverse_onto (x ∷ xs) ys = reverse_onto xs (x ∷ ys)

-- What stands right of the distance to `vs` in the row of `us`.
abbrev row_tail : Text → Text → Text → List ℕ
row_tail us vs [] = []
row_tail us vs (b ∷ rest) = edit us (b ∷ vs) ∷ row_tail us (b ∷ vs) rest

cells_lem :
    (ca : ℕ) (us vs rest : Text)
    → cells ca rest (edit us vs ∷ row_tail us vs rest) (edit (ca ∷ us) vs)
      ≡ row_tail (ca ∷ us) vs rest
unfolding cells edit
cells_lem ca us vs [] = refl
cells_lem ca us vs (b ∷ rest) =
    ap (λ t. edit (ca ∷ us) (b ∷ vs) ∷ t) (cells_lem ca us (b ∷ vs) rest)

cells_lem_first :
    (ca : ℕ) (us b : Text)
    → cells ca b (edit us [] ∷ row_tail us [] b) (suc (length us)) ≡ row_tail (ca ∷ us) [] b
unfolding edit
cells_lem_first ca us b = cells_lem ca us [] b

range_from_lem : (vs rest : Text) → range_from (length vs + 1) (length rest) ≡ row_tail [] vs rest
unfolding range_from edit
range_from_lem vs [] = refl
range_from_lem vs (b ∷ rest) =
    ap (λ t. (length vs + 1) ∷ t)
      (ap (λ n. range_from n (length rest)) (omega arith) ∙ range_from_lem (b ∷ vs) rest)
    ∙ ap (λ n. n ∷ row_tail [] (b ∷ vs) rest) (omega arith)

rows_lem :
    (a us b : Text)
    → rows (length us) a b (edit us [] ∷ row_tail us [] b)
      ≡ edit (reverse_onto a us) [] ∷ row_tail (reverse_onto a us) [] b
unfolding rows next_row reverse_onto edit
rows_lem [] us b = refl
rows_lem (ca ∷ a) us b =
    let e : length us + 1 ≡ suc (length us) = omega arith in
    let prev = edit us [] ∷ row_tail us [] b in
    ap (λ n. rows n a b (n ∷ cells ca b prev n)) e
    ∙ ap (λ t. rows (suc (length us)) a b (suc (length us) ∷ t)) (cells_lem_first ca us b)
    ∙ rows_lem a (ca ∷ us) b

last_or_lem :
    (us vs rest : Text)
    → last_or (edit us vs) (row_tail us vs rest) ≡ edit us (reverse_onto rest vs)
unfolding last_or reverse_onto
last_or_lem us vs [] = refl
last_or_lem us vs (b ∷ rest) = last_or_lem us (b ∷ vs) rest

cost_comm : (x y : ℕ) → cost x y ≡ cost y x
unfolding cost
cost_comm x y = ground arith

edit_comm : (xs ys : Text) → edit xs ys ≡ edit ys xs
unfolding edit
edit_comm [] [] = refl
edit_comm [] (y ∷ ys) = refl
edit_comm (x ∷ xs) [] = refl
edit_comm (x ∷ xs) (y ∷ ys) =
    omega (arith, edit_comm (x ∷ xs) ys, edit_comm xs (y ∷ ys), edit_comm xs ys, cost_comm x y)

edit_nil : (xs : Text) → edit xs [] ≡ length xs
unfolding edit
edit_nil [] = refl
edit_nil (x ∷ xs) = refl

length-reverse_onto : (xs ys : Text) → length (reverse_onto xs ys) ≡ length xs + length ys
unfolding reverse_onto
length-reverse_onto [] ys = omega arith
length-reverse_onto (x ∷ xs) ys = omega (arith, length-reverse_onto xs (x ∷ ys))

first_row : (b : Text) → range_from 0 (length b + 1) ≡ edit [] [] ∷ row_tail [] [] b
unfolding range_from edit
first_row b =
    let e : length b + 1 ≡ suc (length b) = omega arith in
    ap (λ n. range_from 0 n) e
    ∙ ap (λ t. 0 ∷ t) (ap (λ n. range_from n (length b)) (omega arith) ∙ range_from_lem [] b)

table_lem : (a b : Text) → table a b ≡ edit (reverse_onto a []) (reverse_onto b [])
unfolding table last_or reverse_onto
table_lem a [] =
    let e : length (reverse_onto a []) ≡ length a + 0 = length-reverse_onto a [] in
    let f : length a ≡ length (reverse_onto a []) = omega (arith, e) in
    f ∙ sym (edit_nil (reverse_onto a []))
table_lem a (cb ∷ b) =
    ap (λ r. last_or 0 (rows 0 a (cb ∷ b) r)) (first_row (cb ∷ b))
    ∙ ap (λ r. last_or 0 r) (rows_lem a [] (cb ∷ b))
    ∙ last_or_lem (reverse_onto a []) [] (cb ∷ b)

-- The routine by rows computes the edit distance: the fewest letters to delete, insert or exchange,
-- by its recursion from the ends of the two texts.
pub levenshtein_lem : (a b : Text) → levenshtein a b ≡ edit (reverse_onto a []) (reverse_onto b [])
unfolding levenshtein
levenshtein_lem a b = elim (Bool-cases (ltb (length a) (length b))) [
  | inl short ↦
      rw (short, levenshtein) (table_lem b a ∙ edit_comm (reverse_onto b []) (reverse_onto a []))
  | inr long ↦ rw (long, levenshtein) (table_lem a b)
]

edit_self : (xs : Text) → edit xs xs ≡ 0
unfolding edit cost
edit_self [] = refl
edit_self (x ∷ xs) = ground (arith, edit_self xs)

edit_zero : (xs ys : Text) → edit xs ys ≡ 0 → xs ≡ ys
unfolding edit cost
edit_zero [] [] h = refl
edit_zero [] (y ∷ ys) h = absurd (omega arith)
edit_zero (x ∷ xs) [] h = absurd (omega arith)
edit_zero (x ∷ xs) (y ∷ ys) h =
    let (same, rest) : (x ≡ y) × (edit xs ys ≡ 0) = ground arith in
    ap (λ t. x ∷ t) (edit_zero xs ys rest) ∙ ap (λ z. z ∷ ys) same

edit_le : (xs ys : Text) → edit xs ys ≤ length xs + length ys
unfolding edit cost
edit_le [] ys = omega arith
edit_le (x ∷ xs) [] = omega arith
edit_le (x ∷ xs) (y ∷ ys) = omega (arith, edit_le (x ∷ xs) ys)

reverse_onto_twice :
    (xs ys zs : Text) → reverse_onto (reverse_onto xs ys) zs ≡ reverse_onto ys (xs ++ zs)
unfolding reverse_onto
reverse_onto_twice [] ys zs = refl
reverse_onto_twice (x ∷ xs) ys zs = reverse_onto_twice xs (x ∷ ys) zs

reverse_injective : (a b : Text) → reverse_onto a [] ≡ reverse_onto b [] → a ≡ b
unfolding reverse_onto
reverse_injective a b e =
    sym (reverse_onto_twice a [] [] ∙ append-nil a)
    ∙ ap (λ t. reverse_onto t []) e
    ∙ (reverse_onto_twice b [] [] ∙ append-nil b)

-- levenshtein does not depend on the order of its arguments, is zero exactly for equal texts, and
-- is at most the sum of the lengths.
pub levenshtein_metric :
    (a b : Text)
    → (levenshtein a b ≡ levenshtein b a)
      × ((levenshtein a b ≡ 0) ↔ (a ≡ b))
      × (levenshtein a b ≤ length a + length b)
levenshtein_metric a b =
    let xs = reverse_onto a [] in
    let ys = reverse_onto b [] in
    let e = levenshtein_lem a b in
    (
      e ∙ edit_comm xs ys ∙ sym (levenshtein_lem b a),
      (
        λ h. reverse_injective a b (edit_zero xs ys (sym e ∙ h)),
        λ h. e ∙ ap (λ t. edit xs (reverse_onto t [])) (sym h) ∙ edit_self xs,
      ),
      omega (arith, e, edit_le xs ys, length-reverse_onto a [], length-reverse_onto b []),
    )

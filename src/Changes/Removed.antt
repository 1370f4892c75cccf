-- ===== src/Changes/Removed.antt =====
-- Which changes `detect_changes` can report.
use competitor_intelligence.Base.{
  ℕ, ◌≡◌, ◌≢◌, refl, arith, subst, Bool, true, Option, none, some, String, List, [], ◌∷◌, ◌++◌, All,
  All-append, inl, inr, Bool-cases, Option-cases, ite, string_discrete,
}
use competitor_intelligence.Dict.{Dict, string_key, lookup, contains, insert}
use competitor_intelligence.Dict.Laws.{lookup-insert}
use competitor_intelligence.Fetcher.HttpCache.{filled}
use competitor_intelligence.Changes.{
  Row, Change, added, removed, modified, compare_fields, most_recent_time, collected_before,
  previous_rows, add_row, index_from, by_hash, added_changes, removed_changes, field_changes,
  common_hashes, rows_changes, modified_changes, compare_rows, detect_changes, at_time, detect_rows,
}

module _ (V : Type 0) (same_value : V → V → Bool) (plain : V → V) where
  -- The row's hash, if it has one, is a key of the index.
  abbrev IsIndexed : Dict String (Row V) → Row V → Type 0
  IsIndexed d r = (h : String) → r.content_hash ≡ some h → filled h ≡ true → contains h d ≡ true

  add_row_keeps :
      (h : String) (o : Option String) (r : Row V) (d : Dict String (Row V))
      → contains h d ≡ true
      → contains h (add_row V same_value plain o r d) ≡ true
  unfolding add_row
  add_row_keeps h none r d there = there
  add_row_keeps h (some k) r d there = ground (arith, lookup-insert k h r d)

  index_from_keeps :
      (h : String) (rows : List (Row V)) (d : Dict String (Row V))
      → contains h d ≡ true
      → contains h (index_from V same_value plain d rows) ≡ true
  unfolding index_from
  index_from_keeps h [] d there = there
  index_from_keeps h (r ∷ rows) d there =
      index_from_keeps h rows (add_row V same_value plain r.content_hash r d)
        (add_row_keeps h r.content_hash r d there)

  add_row_indexes :
      (h : String) (o : Option String) (r : Row V) (d : Dict String (Row V))
      → o ≡ some h
      → filled h ≡ true
      → contains h (add_row V same_value plain o r d) ≡ true
  unfolding add_row
  add_row_indexes h o r d e full = rw e (ground (arith, lookup-insert h h r d))

  rows-IsIndexed :
      (rows : List (Row V)) (d : Dict String (Row V))
      → All (IsIndexed (index_from V same_value plain d rows)) rows
  unfolding index_from
  rows-IsIndexed [] d = tt
  rows-IsIndexed (r ∷ rows) d = (
    λ h e full.
        index_from_keeps h rows (add_row V same_value plain r.content_hash r d)
          (add_row_indexes h r.content_hash r d e full),
    rows-IsIndexed rows (add_row V same_value plain r.content_hash r d),
  )

  previous-All :
      (P : Row V → Type 0) (time : ℕ) (rows : List (Row V))
      → All P rows
      → All P (previous_rows V same_value plain time rows)
  unfolding previous_rows
  previous-All P time [] h = tt
  previous-All P time (r ∷ rows) (p, h) =
      elim (Bool-cases (collected_before V same_value plain time r.collected_at)) [
        | inl old ↦ rw (old, previous_rows) (p, previous-All P time rows h)
        | inr new ↦ rw (new, previous_rows) (previous-All P time rows h)
      ]

  -- Each key of one index is a key of the other.
  abbrev KeysIn : Dict String (Row V) → Dict String (Row V) → Type 0
  KeysIn other d = All (λ e. contains e.0 other ≡ true) d

  ite-KeysIn :
      {P : Type 0} (q : Dec P) (other x y : Dict String (Row V))
      → KeysIn other x
      → KeysIn other y
      → KeysIn other (ite q x y)
  ite-KeysIn (yes p) other x y hx hy = hx
  ite-KeysIn (no n) other x y hx hy = hy

  insert-KeysIn :
      (other d : Dict String (Row V)) (h : String) (r : Row V)
      → contains h other ≡ true
      → KeysIn other d
      → KeysIn other (insert h r d)
  unfolding insert
  insert-KeysIn other [] h r there k = (there, tt)
  insert-KeysIn other ((j, s) ∷ d) h r there (k, ks) =
      ite-KeysIn (string_discrete j h) other ((j, r) ∷ d) ((j, s) ∷ insert h r d) (k, ks)
        (k, insert-KeysIn other d h r there ks)

  add_row-KeysIn :
      (other d : Dict String (Row V)) (o : Option String) (r : Row V)
      → ((h : String) → o ≡ some h → filled h ≡ true → contains h other ≡ true)
      → KeysIn other d
      → KeysIn other (add_row V same_value plain o r d)
  unfolding add_row
  add_row-KeysIn other d none r there k = k
  add_row-KeysIn other d (some h) r there k = elim (Bool-cases (filled h)) [
    | inl full ↦ rw (full, add_row) (insert-KeysIn other d h r (there h refl full) k)
    | inr empty ↦ rw (empty, add_row) k
  ]

  index_from-KeysIn :
      (other : Dict String (Row V)) (rows : List (Row V)) (d : Dict String (Row V))
      → All (IsIndexed other) rows
      → KeysIn other d
      → KeysIn other (index_from V same_value plain d rows)
  unfolding index_from
  index_from-KeysIn other [] d i k = k
  index_from-KeysIn other (r ∷ rows) d (i, is) k =
      index_from-KeysIn other rows (add_row V same_value plain r.content_hash r d) is
        (add_row-KeysIn other d r.content_hash r i k)

  module _ (data_type : String) (fields : List String) where
    no_removed_changes :
        (current previous : Dict String (Row V))
        → KeysIn current previous
        → removed_changes V same_value plain data_type fields current previous ≡ []
    unfolding removed_changes
    no_removed_changes current [] k = refl
    no_removed_changes current ((h, r) ∷ previous) (k, ks) =
        rw (k, removed_changes) (no_removed_changes current previous ks)

    abbrev NotRemoved : Change V → Type 0
    NotRemoved c = c.change_type ≢ removed

    added≢removed : added ≢ removed
    added≢removed e = cc

    modified≢removed : modified ≢ removed
    modified≢removed e = cc

    added-NotRemoved :
        (previous current : Dict String (Row V))
        → All NotRemoved (added_changes V same_value plain data_type fields previous current)
    unfolding added_changes
    added-NotRemoved previous [] = tt
    added-NotRemoved previous ((h, r) ∷ current) = elim (Bool-cases (contains h previous)) [
      | inl there ↦ rw (there, added_changes) (added-NotRemoved previous current)
      | inr new ↦ rw (new, added_changes) (added≢removed, added-NotRemoved previous current)
    ]

    fields-NotRemoved :
        (fs : List String) (now before : Row V)
        → All NotRemoved (field_changes V same_value plain data_type fields fs now before)
    unfolding field_changes
    fields-NotRemoved [] now before = tt
    fields-NotRemoved (f ∷ fs) now before =
        elim (Bool-cases (same_value (now.value f) (before.value f))) [
          | inl same ↦ rw (same, field_changes) (fields-NotRemoved fs now before)
          | inr other ↦
              rw (other, field_changes) (modified≢removed, fields-NotRemoved fs now before)
        ]

    rows-NotRemoved :
        (now before : Option (Row V))
        → All NotRemoved (rows_changes V same_value plain data_type fields now before)
    unfolding rows_changes
    rows-NotRemoved (some now) (some before) = fields-NotRemoved fields now before
    rows-NotRemoved (some now) none = tt
    rows-NotRemoved none before = tt

    modified-NotRemoved :
        (current previous : Dict String (Row V)) (hashes : List String)
        → All NotRemoved
            (modified_changes V same_value plain data_type fields current previous hashes)
    unfolding modified_changes
    modified-NotRemoved current previous [] = tt
    modified-NotRemoved current previous (h ∷ hashes) =
        All-append NotRemoved _ _ (rows-NotRemoved (lookup h current) (lookup h previous))
          (modified-NotRemoved current previous hashes)

    compare_rows-NotRemoved :
        (arrange : List String → List String) (time : ℕ) (rows : List (Row V))
        → All NotRemoved (compare_rows V same_value plain data_type fields arrange time rows)
    unfolding compare_rows by_hash
    compare_rows-NotRemoved arrange time rows =
        let current = by_hash V same_value plain rows in
        let old = previous_rows V same_value plain time rows in
        let previous = by_hash V same_value plain old in
        let inside : KeysIn current previous =
          index_from-KeysIn current old []
            (previous-All (IsIndexed current) time rows (rows-IsIndexed rows [])) tt in
        let hashes = arrange (common_hashes V same_value plain data_type fields previous current) in
        let gone = removed_changes V same_value plain data_type fields current previous in
        let none_gone : All NotRemoved gone = rw (no_removed_changes current previous inside) tt in
        let news = added_changes V same_value plain data_type fields previous current in
        All-append NotRemoved (news ++ gone)
          (modified_changes V same_value plain data_type fields current previous hashes)
          (All-append NotRemoved news gone (added-NotRemoved previous current) none_gone)
          (modified-NotRemoved current previous hashes)

  abbrev Fine : Option (List (Change V)) → Type 0
  Fine none = Unit
  Fine (some changes) = All (λ c. c.change_type ≢ removed) changes

  at_time-Fine :
      (arrange : List String → List String) (data_type : String) (fields : List String)
      (rows : List (Row V)) (time : Option ℕ)
      → Fine (at_time V same_value plain arrange data_type fields rows time)
  at_time-Fine arrange data_type fields rows none = tt
  at_time-Fine arrange data_type fields rows (some time) =
      compare_rows-NotRemoved data_type fields arrange time rows

  detect_rows-Fine :
      (arrange : List String → List String) (data_type : String) (fields : List String)
      (rows : List (Row V))
      → Fine (detect_rows V same_value plain arrange data_type fields rows)
  unfolding detect_rows
  detect_rows-Fine arrange data_type fields [] = tt
  detect_rows-Fine arrange data_type fields (r ∷ more) =
      at_time-Fine arrange data_type fields (r ∷ more)
        (most_recent_time V same_value plain (r ∷ more))

  detect_changes-Fine :
      (arrange : List String → List String) (data_type : String) (rows : List (Row V))
      → Fine (detect_changes V same_value plain arrange data_type rows)
  unfolding detect_changes
  detect_changes-Fine arrange data_type rows = elim (Option-cases (compare_fields data_type)) [
    | inl unknown ↦ rw (unknown, detect_changes) tt
    | inr (fields, known) ↦
        rw (known, detect_changes) (detect_rows-Fine arrange data_type fields rows)
  ]

  -- No comparison reports a change of type "removed", whatever the rows are: the rows of the
  -- previous collections are among the current ones.
  pub never_removed :
      (arrange : List String → List String) (data_type : String) (rows : List (Row V))
      (changes : List (Change V))
      → detect_changes V same_value plain arrange data_type rows ≡ some changes
      → All (λ c. c.change_type ≢ removed) changes
  never_removed arrange data_type rows changes e =
      subst (λ o. Fine o) e (detect_changes-Fine arrange data_type rows)

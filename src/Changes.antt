-- ===== src/Changes.antt =====
-- `ChangeDetectionService.detect_changes` (app/services/change_detection_service.py). The table of
-- a data type is given by the competitor's rows in the order of their ids; the two queries read it.
-- The order in which Python walks through a set is given by a function.
pub mod Removed
use competitor_intelligence.Base.{
  ℕ, Bool, true, false, not, Option, none, some, String, List, [], ◌∷◌, ◌++◌, max, ltb,
  if◌then◌else◌, ite, string_discrete,
}
use competitor_intelligence.Dict.{Dict, string_key, lookup, contains, insert}
use competitor_intelligence.Fetcher.HttpCache.{filled}

pub record Row (V : Type 0) : Type 0 where
  pub id : ℕ
  pub collected_at : Option ℕ
  pub content_hash : Option String
  pub value : String → V

pub data ChangeType : Type 0 where
  added removed modified : ChangeType

pub record Change (V : Type 0) : Type 0 where
  pub change_type : ChangeType
  pub data_type : String
  pub record_id : ℕ
  pub old_value : List (String × V)
  pub new_value : List (String × V)

-- `COMPARE_FIELDS`; `none` is a data type that is not in `DATA_MODELS`
unfoldable pub compare_fields : String → Option (List String)
compare_fields data_type =
    ite (string_discrete data_type "services")
      (some ("service_name" ∷ "service_category" ∷ "description" ∷ "starting_price" ∷ []))
      (ite (string_discrete data_type "pricing")
        (some ("service_name" ∷ "base_price" ∷ "promotional_price" ∷ "currency" ∷ []))
        (ite (string_discrete data_type "content")
          (some ("title" ∷ "summary" ∷ "content_type" ∷ []))
          (ite (string_discrete data_type "social") (some ("profile_url" ∷ "username" ∷ [])) none)))

module _ (V : Type 0) (same_value : V → V → Bool) (plain : V → V) where
  -- `max(r.collected_at for r in … if r.collected_at)`; `none` is the `ValueError` of an empty `max`
  unfoldable pub later : Option ℕ → Option ℕ → Option ℕ
  later none b = b
  later (some a) none = some a
  later (some a) (some b) = some (max a b)

  unfoldable pub most_recent_time : List (Row V) → Option ℕ
  most_recent_time [] = none
  most_recent_time (r ∷ rows) = later r.collected_at (most_recent_time rows)

  unfoldable pub collected_before : ℕ → Option ℕ → Bool
  collected_before time none = false
  collected_before time (some t) = ltb t time

  -- the rows of `prev_stmt`
  unfoldable pub previous_rows : ℕ → List (Row V) → List (Row V)
  previous_rows time [] = []
  previous_rows time (r ∷ rows) =
      let rest = previous_rows time rows in
      if collected_before time r.collected_at then r ∷ rest else rest

  -- `{r.content_hash: r for r in … if r.content_hash}`
  unfoldable pub add_row : Option String → Row V → Dict String (Row V) → Dict String (Row V)
  add_row none r d = d
  add_row (some h) r d = if filled h then insert h r d else d

  unfoldable pub index_from : Dict String (Row V) → List (Row V) → Dict String (Row V)
  index_from d [] = d
  index_from d (r ∷ rows) = index_from (add_row r.content_hash r d) rows

  unfoldable pub by_hash : List (Row V) → Dict String (Row V)
  by_hash rows = index_from [] rows

  -- `_record_to_dict`, where `plain` turns decimals, dates and enums into plain values
  unfoldable pub record_to_dict : Row V → List String → List (String × V)
  record_to_dict r [] = []
  record_to_dict r (f ∷ fields) = (f, plain (r.value f)) ∷ record_to_dict r fields

  module _ (data_type : String) (fields : List String) where
    unfoldable pub added_changes : Dict String (Row V) → Dict String (Row V) → List (Change V)
    added_changes previous [] = []
    added_changes previous ((h, r) ∷ current) =
        let rest = added_changes previous current in
        if contains h previous
        then rest
        else record {
          change_type = added;
          data_type = data_type;
          record_id = r.id;
          old_value = [];
          new_value = record_to_dict r fields;
        }
          ∷ rest

    unfoldable pub removed_changes : Dict String (Row V) → Dict String (Row V) → List (Change V)
    removed_changes current [] = []
    removed_changes current ((h, r) ∷ previous) =
        let rest = removed_changes current previous in
        if contains h current
        then rest
        else record {
          change_type = removed;
          data_type = data_type;
          record_id = r.id;
          old_value = record_to_dict r fields;
          new_value = [];
        }
          ∷ rest

    unfoldable pub field_changes : List String → Row V → Row V → List (Change V)
    field_changes [] now before = []
    field_changes (f ∷ fs) now before =
        let rest = field_changes fs now before in
        if same_value (now.value f) (before.value f)
        then rest
        else record {
          change_type = modified;
          data_type = data_type;
          record_id = now.id;
          old_value = (f, before.value f) ∷ [];
          new_value = (f, now.value f) ∷ [];
        }
          ∷ rest

    -- `set(current_by_hash.keys()) & set(prev_by_hash.keys())`
    unfoldable pub common_hashes : Dict String (Row V) → Dict String (Row V) → List String
    common_hashes previous [] = []
    common_hashes previous ((h, r) ∷ current) =
        let rest = common_hashes previous current in if contains h previous then h ∷ rest else rest

    rows_changes : Option (Row V) → Option (Row V) → List (Change V)
    rows_changes (some now) (some before) = field_changes fields now before
    rows_changes (some now) none = []
    rows_changes none before = []

    unfoldable pub modified_changes :
        Dict String (Row V) → Dict String (Row V) → List String → List (Change V)
    unfolding rows_changes
    modified_changes current previous [] = []
    modified_changes current previous (h ∷ hashes) =
        rows_changes (lookup h current) (lookup h previous)
        ++ modified_changes current previous hashes

    unfoldable pub compare_rows : (List String → List String) → ℕ → List (Row V) → List (Change V)
    compare_rows arrange time rows =
        let current = by_hash rows in
        let previous = by_hash (previous_rows time rows) in
        added_changes previous current
        ++ removed_changes current previous
        ++ modified_changes current previous (arrange (common_hashes previous current))

  module _ (arrange : List String → List String) (data_type : String) where
    abbrev at_time : List String → List (Row V) → Option ℕ → Option (List (Change V))
    at_time fields rows none = none
    at_time fields rows (some time) = some (compare_rows data_type fields arrange time rows)

    detect_rows : List String → List (Row V) → Option (List (Change V))
    detect_rows fields [] = some []
    detect_rows fields (r ∷ more) = at_time fields (r ∷ more) (most_recent_time (r ∷ more))

    unfoldable pub detect_changes : List (Row V) → Option (List (Change V))
    unfolding detect_rows
    detect_changes rows = elim (compare_fields data_type) [
      | none ↦ some []
      | some fields ↦ detect_rows fields rows
    ]

-- ===== src/Utilities/ContentDedup.antt =====
-- `ContentDeduplicator`: the first URL of each content hash.
use competitor_intelligence.Base.{
  ℕ, ◌+◌, ◌≡◌, arith, Bool, true, false, none, some, String, [], length, is_some, if◌then◌else◌,
  ite, string_discrete,
}
use competitor_intelligence.Dict.{Dict, string_key, lookup, insert}
use competitor_intelligence.Dict.Laws.{lookup-insert}

pub record ContentDedup : Type 0 where
  pub hash_to_url : Dict String String
  pub duplicates : ℕ

unfoldable pub is_duplicate : String → String → ContentDedup → Bool × ContentDedup
is_duplicate content_hash url s = elim (lookup content_hash s.hash_to_url) [
  | none ↦ (false, s)
  | some existing_url ↦
      ite (string_discrete existing_url url) (false, s)
        (true, record s { duplicates = s.duplicates + 1 })
]

unfoldable pub register : String → String → ContentDedup → ContentDedup
register content_hash url s =
    if is_some (lookup content_hash s.hash_to_url)
    then s
    else record s { hash_to_url = insert content_hash url s.hash_to_url }

unfoldable pub reset : ContentDedup → ContentDedup
reset s = record { hash_to_url = []; duplicates = 0 }

-- `stats`: the number of hashes, and the duplicates detected
unfoldable pub stats : ContentDedup → ℕ × ℕ
stats s = (length s.hash_to_url, s.duplicates)

register_keeps :
    (h h' url url' : String) (s : ContentDedup)
    → lookup h s.hash_to_url ≡ none
    → lookup h (register h' url' (register h url s)).hash_to_url ≡ some url
unfolding register
register_keeps h h' url url' s new = ground (
  arith,
  lookup-insert h h url s.hash_to_url,
  lookup-insert h h' url s.hash_to_url,
  lookup-insert h' h url' (insert h url s.hash_to_url),
)

-- The first URL registered for a hash that is not known stays: from then on exactly the other URLs
-- with that hash are duplicates, whatever is registered next.
pub register_first :
    (h h' url url' : String) (s : ContentDedup)
    → lookup h s.hash_to_url ≡ none
    → let s' = register h' url' (register h url s) in
      (lookup h s'.hash_to_url ≡ some url)
      × ((other : String)
          → (is_duplicate h other s').0 ≡ ite (string_discrete url other) false true)
unfolding is_duplicate
register_first h h' url url' s new =
    let kept = register_keeps h h' url url' s new in
    (kept, λ other. rw (kept, is_duplicate) (ground arith))

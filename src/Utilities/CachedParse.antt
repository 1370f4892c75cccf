-- ===== src/Utilities/CachedParse.antt =====
-- `cached_parse`: a parser whose results are kept in an `LRUCache` under a digest of the URL, the
-- page and the names of the strategies. `sha256` is a parameter.
use competitor_intelligence.Base.{
  ℕ, ◌≡◌, ap, sym, ◌∙◌, arith, Option, none, some, String, inl, inr, Option-cases,
}
use competitor_intelligence.Dict.{string_key, lookup}
use competitor_intelligence.Utilities.LruCache.{LruCache, get, put}
use competitor_intelligence.Utilities.LruCache.Bounds.{IsValid, get-IsValid, put-IsValid}
use competitor_intelligence.Utilities.LruCache.Reads.{
  fresh, get-fresh, get_only_drops, put_only_adds,
}

-- What the key is made of.
pub record Page : Type 0 where
  pub url : String
  pub html : String
  pub strategy_sig : String

module _ {R : Type 0} (sha256 : Page → String) (parse : Page → R) where
  -- `wrapper`; `none` is the exception of `put`
  unfoldable pub wrapper : ℕ → Page → LruCache String R → Option (R × LruCache String R)
  wrapper now page c =
      let (cached, c') = get now (sha256 page) c in
      elim cached [
        | some r ↦ some (r, c')
        | none ↦
            let result = parse page in
            elim (put now (sha256 page) result c') [ none ↦ none | some c'' ↦ some (result, c'') ]
      ]

  -- What is stored under the digest of a page is that page's result.
  abbrev pub IsSound : LruCache String R → Type 0
  IsSound c = (page : Page) (e : R × ℕ) → lookup (sha256 page) c.cache ≡ some e → e.0 ≡ parse page

  fresh-IsSound :
      (now : ℕ) (page : Page) (r : R) (c : LruCache String R)
      → IsSound c
      → fresh now (sha256 page) c ≡ some r
      → r ≡ parse page
  unfolding fresh
  fresh-IsSound now page r c s h = elim (Option-cases (lookup (sha256 page) c.cache)) [
    | inl miss ↦ ground arith
    | inr (e, hit) ↦ ground (arith, s page e)
  ]

  module _ (agrees : (p q : Page) → sha256 p ≡ sha256 q → parse p ≡ parse q) where
    put-IsSound :
        (now : ℕ) (page : Page) (c c' : LruCache String R)
        → IsValid c
        → IsSound c
        → put now (sha256 page) (parse page) c ≡ some c'
        → IsSound c'
    put-IsSound now page c c' u s p q e h =
        elim (put_only_adds now (sha256 page) (sha256 q) (parse page) e c c' u p h) [
          | inl (same, stored) ↦ ap (λ x. x.0) stored ∙ sym (agrees q page same)
          | inr old ↦ s q e old
        ]

    -- The decorator does not raise on a valid and sound cache and changes no result, if pages with
    -- one digest have one result: whatever the cache holds and whatever it evicts, the call returns
    -- what the parser returns on the page, and the cache stays valid and sound for the calls to
    -- come.
    pub wrapper_transparent :
        (now : ℕ) (page : Page) (c : LruCache String R)
        → IsValid c
        → IsSound c
        → (c' : LruCache String R) × (wrapper now page c ≡ some (parse page, c'))
          × IsValid c'
          × IsSound c'
    unfolding wrapper
    wrapper_transparent now page c u s =
        let u1 : IsValid (get now (sha256 page) c).1 = get-IsValid now (sha256 page) c u in
        let s1 : IsSound (get now (sha256 page) c).1 =
          λ q e h. s q e (get_only_drops now (sha256 page) (sha256 q) e c h) in
        elim (Option-cases (get now (sha256 page) c).0) [
          | inr (r, hit) ↦
              let right : r ≡ parse page =
                fresh-IsSound now page r c s (sym (get-fresh now (sha256 page) c) ∙ hit) in
              (
                (get now (sha256 page) c).1,
                rw (hit, wrapper) (ap (λ x. some (x, (get now (sha256 page) c).1)) right),
                u1,
                s1,
              )
          | inl miss ↦
              let (c2, p, u2) =
                put-IsValid now (sha256 page) (parse page) (get now (sha256 page) c).1 u1 in
              (
                c2,
                rw (miss, wrapper, p),
                u2,
                put-IsSound now page (get now (sha256 page) c).1 c2 u1 s1 p,
              )
        ]

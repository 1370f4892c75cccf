-- ===== src/Discovery/Sitemaps/Finite.antt =====
-- The recursion over the sitemaps of a finite site ends.
use competitor_intelligence.Base.{
  ℕ, zero, suc, ◌+◌, ◌≤◌, ◌<◌, true, false, Option, none, some, List, [], ◌∷◌, length, leb,
  if◌then◌else◌, Text, All, ◌≡◌, refl, arith,
}
use competitor_intelligence.Discovery.{UrlTools}
use competitor_intelligence.Discovery.Sitemaps.{
  Document, Fetched, is_visited, sitemap_url, add_sub, follow, read_document, fetch_sitemaps,
}
use competitor_intelligence.Discovery.Sitemaps.Limits.{chosen}

-- the addresses of the list that are still to be visited
abbrev left : List Text → List Text → ℕ
left visited [] = 0
left visited (k ∷ known) = (if is_visited k visited then 0 else 1) + left visited known

left-le : (a : Text) (visited known : List Text) → left (a ∷ visited) known ≤ left visited known
unfolding is_visited
left-le a visited [] = omega arith
left-le a visited (k ∷ known) = ground (arith, left-le a visited known)

left-lt :
    (a : Text) (visited known : List Text)
    → is_visited a known ≡ true
    → is_visited a visited ≡ false
    → suc (left (a ∷ visited) known) ≤ left visited known
unfolding is_visited
left-lt a visited [] m new = cc
left-lt a visited (k ∷ known) m new =
    ground (arith, left-le a visited known, left-lt a visited known)

left-length : (known : List Text) → left [] known ≤ length known
unfolding is_visited
left-length [] = omega arith
left-length (k ∷ known) = omega (arith, left-length known)

module _ (tools : UrlTools) (known : List Text) where
  -- The sitemap that a text refers to is known.
  abbrev pub IsKnown : Text → Type 0
  IsKnown url = is_visited (sitemap_url tools url) known ≡ true

  -- All that the documents refer to is known.
  abbrev pub IsClosed : (Text → Option Document) → Type 0
  IsClosed get = (a : Text) (doc : Document) → get a ≡ some doc → All IsKnown doc.sitemaps

module _ (max_pages : ℕ) (tools : UrlTools) (known : List Text) where
  record EndsBelow (n : ℕ) (r : Fetched) : Type 0 where
    off : r.out_of_fuel ≡ false
    falls : left r.visited known ≤ n

  add_sub-EndsBelow :
      (n : ℕ) (r sub : Fetched)
      → r.out_of_fuel ≡ false
      → EndsBelow n sub
      → EndsBelow n (add_sub max_pages r sub)
  unfolding add_sub
  add_sub-EndsBelow n r sub h hs = record { off = ground (arith, hs.off); falls = hs.falls }

  module _ (fuel : ℕ) (fetch : Text → List Text → Fetched)
      (calls : (url : Text) (visited : List Text)
        → IsKnown tools known url
        → left visited known < fuel
        → EndsBelow (left visited known) (fetch url visited)) where
    follow-EndsBelow :
        (locs : List Text) (r : Fetched) (n : ℕ)
        → All (IsKnown tools known) locs
        → n < fuel
        → EndsBelow n r
        → EndsBelow n (follow max_pages fetch locs r)
    unfolding follow
    follow-EndsBelow [] r n ks lt h = h
    follow-EndsBelow (loc ∷ locs) r n ks lt h =
        let sub = calls loc r.visited ks.0 (omega (arith, h.falls)) in
        let below : EndsBelow n (fetch loc r.visited) = record {
          off = sub.off;
          falls = omega (arith, sub.falls, h.falls);
        } in
        chosen (EndsBelow n) (leb max_pages (length r.urls)) r _ (λ full. h)
          (λ room.
            follow-EndsBelow locs (add_sub max_pages r (fetch loc r.visited)) n ks.1 lt
              (add_sub-EndsBelow n r (fetch loc r.visited) h.off below))

    read_document-EndsBelow :
        (url address : Text) (visited : List Text) (doc : Option Document)
        → ((d : Document) → doc ≡ some d → All (IsKnown tools known) d.sitemaps)
        → left visited known < fuel
        → EndsBelow
            (left visited known)
            (read_document max_pages tools fetch url address visited doc)
    unfolding read_document
    read_document-EndsBelow url address visited none closed lt = record {
      off = refl;
      falls = omega arith;
    }
    read_document-EndsBelow url address visited (some doc) closed lt =
        follow-EndsBelow doc.sitemaps _ (left visited known) (closed doc refl) lt
          (record { off = refl; falls = omega arith })

  module _ (get : Text → Option Document) (closed : IsClosed tools known get) where
    fetch_sitemaps-EndsBelow :
        (fuel : ℕ) (url : Text) (visited : List Text)
        → IsKnown tools known url
        → left visited known < fuel
        → EndsBelow (left visited known) (fetch_sitemaps max_pages tools get fuel url visited)
    unfolding fetch_sitemaps
    fetch_sitemaps-EndsBelow zero url visited k lt = absurd (omega arith)
    fetch_sitemaps-EndsBelow (suc fuel) url visited k lt =
        let address = sitemap_url tools url in
        chosen (EndsBelow (left visited known)) (is_visited address visited) _ _
          (λ old. record { off = refl; falls = omega arith })
          (λ new.
            let fewer = left-lt address visited known k new in
            let r =
              read_document-EndsBelow fuel (fetch_sitemaps max_pages tools get fuel)
                (fetch_sitemaps-EndsBelow fuel) url address (address ∷ visited) (get address)
                (closed address) (omega arith) in
            record { off = r.off; falls = omega (arith, r.falls) })

    -- On a site whose sitemaps refer only to finitely many addresses, the recursion over the
    -- sitemaps ends: it never goes deeper than the number of these addresses, also where sitemaps
    -- refer to each other.
    pub fetch_sitemaps-ends :
        (url : Text)
        → IsKnown tools known url
        → (fetch_sitemaps max_pages tools get (suc (length known)) url []).out_of_fuel ≡ false
    fetch_sitemaps-ends url k =
        (fetch_sitemaps-EndsBelow (suc (length known)) url [] k
          (omega (arith, left-length known))).off

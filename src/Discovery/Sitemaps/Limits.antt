-- ===== src/Discovery/Sitemaps/Limits.antt =====
-- How a sitemap and those below it are fetched: no address is requested twice, and the limit of
-- pages is kept.
use mathlib.Core.Bool.{false≢true}
use competitor_intelligence.Base.{
  All, All-append, Bool-cases, inl, inr, sym, ◌∙◌, subst, ite, text_discrete, ℕ, zero, suc, ◌≤◌,
  ◌<◌, Bool, true, false, Option, none, some, List, [], ◌∷◌, ◌++◌, length, length-append,
  length-take, leb, Text, ◌≡◌, refl, arith,
}
use competitor_intelligence.Discovery.{UrlTools, DiscoveredUrl, sitemap}
use competitor_intelligence.Discovery.Sitemaps.{
  Document, Fetched, is_visited, sitemap_url, page_urls, add_sub, nothing, requested_one, follow,
  read_document, fetch_sitemaps,
}

-- No address stands twice.
abbrev pub HasNoRepeat : List Text → Type 0
HasNoRepeat [] = Unit
HasNoRepeat (v ∷ vs) = (is_visited v vs ≡ false) × HasNoRepeat vs

-- a property of a choice holds if it holds of both branches
pub chosen :
    (P : Fetched → Type 0) (b : Bool) (x y : Fetched)
    → (b ≡ true → P x)
    → (b ≡ false → P y)
    → P (elim b [ true ↦ x | false ↦ y ])
chosen P true x y hx hy = hx refl
chosen P false x y hx hy = hy refl

-- None of the addresses is among the visited ones.
abbrev pub AreNew : List Text → List Text → Type 0
AreNew visited [] = Unit
AreNew visited (a ∷ more) = (is_visited a visited ≡ false) × AreNew visited more

-- All of the addresses are among the visited ones.
abbrev pub AreVisited : List Text → List Text → Type 0
AreVisited visited more = All (λ (a : Text). is_visited a visited ≡ true) more

-- What is visited stays so.
abbrev pub Extends : List Text → List Text → Type 0
Extends visited after = (a : Text) → is_visited a visited ≡ true → is_visited a after ≡ true

visited_self : (a : Text) (visited : List Text) → is_visited a (a ∷ visited) ≡ true
unfolding is_visited
visited_self a visited = ground arith

visited_later : (b : Text) (visited : List Text) → Extends visited (b ∷ visited)
unfolding is_visited
visited_later b visited a h = ground (arith, h)

AreVisited-Extends :
    (visited after xs : List Text)
    → Extends visited after
    → AreVisited visited xs
    → AreVisited after xs
AreVisited-Extends visited after [] e h = tt
AreVisited-Extends visited after (x ∷ xs) e h = (e x h.0, AreVisited-Extends visited after xs e h.1)

not_visited :
    (a : Text) (visited after : List Text)
    → Extends visited after
    → is_visited a after ≡ false
    → is_visited a visited ≡ false
not_visited a visited after e h = elim (Bool-cases (is_visited a visited)) [
  | inl old ↦ absurd (false≢true (sym h ∙ e a old))
  | inr new ↦ new
]

AreNew-shrinks :
    (visited after xs : List Text) → Extends visited after → AreNew after xs → AreNew visited xs
AreNew-shrinks visited after [] e h = tt
AreNew-shrinks visited after (x ∷ xs) e h =
    (not_visited x visited after e h.0, AreNew-shrinks visited after xs e h.1)

AreNew-append :
    (visited xs ys : List Text) → AreNew visited xs → AreNew visited ys → AreNew visited (xs ++ ys)
AreNew-append visited [] ys h k = k
AreNew-append visited (x ∷ xs) ys h k = (h.0, AreNew-append visited xs ys h.1 k)

-- one of the first addresses is not among the later ones, which are new
new_apart :
    (a : Text) (visited ys : List Text)
    → is_visited a visited ≡ true
    → AreNew visited ys
    → is_visited a ys ≡ false
unfolding is_visited
new_apart a visited [] h k = refl
new_apart a visited (y ∷ ys) h k =
    elim (text_discrete y a) as (λ q. ite q true (is_visited a ys) ≡ false) [
      | yes e ↦ absurd (false≢true (sym k.0 ∙ subst (λ b. is_visited b visited ≡ true) (sym e) h))
      | no other ↦ new_apart a visited ys h k.1
    ]

visited-append :
    (a : Text) (xs ys : List Text)
    → is_visited a xs ≡ false
    → is_visited a ys ≡ false
    → is_visited a (xs ++ ys) ≡ false
unfolding is_visited
visited-append a [] ys h k = k
visited-append a (x ∷ xs) ys h k = ground (arith, visited-append a xs ys)

HasNoRepeat-append :
    (visited xs ys : List Text)
    → HasNoRepeat xs
    → HasNoRepeat ys
    → AreVisited visited xs
    → AreNew visited ys
    → HasNoRepeat (xs ++ ys)
HasNoRepeat-append visited [] ys h k v n = k
HasNoRepeat-append visited (x ∷ xs) ys h k v n = (
  visited-append x xs ys h.0 (new_apart x visited ys v.0 n),
  HasNoRepeat-append visited xs ys h.1 k v.1 n,
)

module _ (max_pages : ℕ) where
  -- What a call that starts from the visited addresses may return, request and leave.
  pub record IsBounded (visited : List Text) (r : Fetched) : Type 0 where
    pub within : length r.urls ≤ max_pages
    pub distinct : HasNoRepeat r.requested
    pub new : AreNew visited r.requested
    pub marked : AreVisited r.visited r.requested
    pub kept : Extends visited r.visited

  length-page_urls :
      (tools : UrlTools) (base : Text) (locs : List Text) (urls : List DiscoveredUrl)
      → length urls ≤ max_pages
      → length (page_urls max_pages tools base locs urls) ≤ max_pages
  unfolding page_urls
  length-page_urls tools base [] urls h = h
  length-page_urls tools base (loc ∷ locs) urls h =
      let page : DiscoveredUrl = record {
        url = tools.normalize_url loc (some base);
        source = sitemap;
        depth = 0;
        context = [];
      } in
      ground (
        arith,
        length-page_urls tools base locs (urls ++ page ∷ []),
        length-append urls (page ∷ []),
      )

  add_sub-IsBounded :
      (visited : List Text) (r sub : Fetched)
      → length r.urls < max_pages
      → IsBounded visited r
      → IsBounded r.visited sub
      → IsBounded visited (add_sub max_pages r sub)
  unfolding add_sub
  add_sub-IsBounded visited r sub room h hs = record {
    within = ground (arith, length-take max_pages (r.urls ++ sub.urls));
    distinct =
        HasNoRepeat-append r.visited r.requested sub.requested h.distinct hs.distinct h.marked
          hs.new;
    new =
        AreNew-append visited r.requested sub.requested h.new
          (AreNew-shrinks visited r.visited sub.requested h.kept hs.new);
    marked =
        All-append (λ (a : Text). is_visited a sub.visited ≡ true) r.requested sub.requested
          (AreVisited-Extends r.visited sub.visited r.requested hs.kept h.marked) hs.marked;
    kept = λ a old. hs.kept a (h.kept a old);
  }

  nothing-IsBounded : (visited : List Text) → IsBounded visited (nothing max_pages visited)
  nothing-IsBounded visited = record {
    within = omega arith;
    distinct = tt;
    new = tt;
    marked = tt;
    kept = λ a old. old;
  }

  requested_one-IsBounded :
      (address : Text) (visited : List Text) (urls : List DiscoveredUrl)
      → is_visited address visited ≡ false
      → length urls ≤ max_pages
      → IsBounded visited
          (record (requested_one max_pages address (address ∷ visited)) { urls = urls })
  unfolding is_visited
  requested_one-IsBounded address visited urls new room = record {
    within = room;
    distinct = (refl, tt);
    new = (new, tt);
    marked = (visited_self address visited, tt);
    kept = visited_later address visited;
  }

  module _ (fetch : Text → List Text → Fetched)
      (calls : (url : Text) (visited : List Text) → IsBounded visited (fetch url visited)) where
    follow-IsBounded :
        (visited locs : List Text) (r : Fetched)
        → IsBounded visited r
        → IsBounded visited (follow max_pages fetch locs r)
    unfolding follow
    follow-IsBounded visited [] r h = h
    follow-IsBounded visited (loc ∷ locs) r h =
        chosen (IsBounded visited) (leb max_pages (length r.urls)) r _ (λ full. h)
          (λ room. follow-IsBounded visited locs (add_sub max_pages r (fetch loc r.visited)) (
            add_sub-IsBounded visited r (fetch loc r.visited) (ground arith) h
              (calls loc r.visited)))

    read_document-IsBounded :
        (tools : UrlTools) (url address : Text) (visited : List Text) (doc : Option Document)
        → is_visited address visited ≡ false
        → IsBounded visited
            (read_document max_pages tools fetch url address (address ∷ visited) doc)
    unfolding read_document
    read_document-IsBounded tools url address visited none new =
        requested_one-IsBounded address visited [] new (omega arith)
    read_document-IsBounded tools url address visited (some doc) new =
        follow-IsBounded visited doc.sitemaps _ (
          requested_one-IsBounded address visited (page_urls max_pages tools url doc.locs []) new
            (length-page_urls tools url doc.locs [] (omega arith)))

  -- However the sitemaps refer to each other and whether or not the fuel lasts, a call returns at
  -- most max_pages URLs, requests no address twice and none that was visited before, and leaves
  -- those visited before and those it requested among the visited ones.
  pub fetch_sitemaps-IsBounded :
      (tools : UrlTools) (get : Text → Option Document) (fuel : ℕ) (url : Text)
      (visited : List Text)
      → IsBounded visited (fetch_sitemaps max_pages tools get fuel url visited)
  unfolding fetch_sitemaps
  fetch_sitemaps-IsBounded tools get zero url visited = record {
    within = omega arith;
    distinct = tt;
    new = tt;
    marked = tt;
    kept = λ a old. old;
  }
  fetch_sitemaps-IsBounded tools get (suc fuel) url visited =
      let address = sitemap_url tools url in
      chosen (IsBounded visited) (is_visited address visited) _ _ (λ old. nothing-IsBounded visited)
        (λ new.
          read_document-IsBounded (fetch_sitemaps max_pages tools get fuel)
            (fetch_sitemaps-IsBounded tools get fuel) tools url address visited (get address) new)

-- ===== src/Discovery/Unique.antt =====
-- The deduplication of the URLs that were found.
use competitor_intelligence.Base.{
  true, false, Option, none, some, List, [], ◌∷◌, ◌++◌, map, map-append, ltb, ite, Text, lower,
  rstrip, slash, rstrip-rstrip, ◌≡◌, refl, sym, ap, ◌∙◌, subst, arith, if_chosen, All,
}
use competitor_intelligence.Dict.{Dict, lookup, insert}
use competitor_intelligence.Dict.Laws.{insert_absent}
use competitor_intelligence.Utilities.UrlDedup.{
  UrlDedup, Text-discrete, init, normalized, is_seen, is_duplicate, mark_seen, is_seen-add,
}
use competitor_intelligence.Discovery.{
  url_key, DiscoveredUrl, source_priority, Kept, keep_better, keep_url, keep_all, values,
  deduplicate,
}

-- the normalized URLs, which the deduplicator compares
abbrev pub forms : List DiscoveredUrl → List Text
forms = map (λ (u : DiscoveredUrl). normalized u.url)

-- No URL stands twice, up to a slash at its end and the case of its letters.
abbrev pub IsUnique : List Text → Type 0
IsUnique [] = Unit
IsUnique (n ∷ ns) = (is_seen n ns ≡ false) × IsUnique ns

is_seen-append_last :
    (n m : Text) (ns : List Text)
    → is_seen n (ns ++ m ∷ []) ≡ ite (Text-discrete m n) true (is_seen n ns)
unfolding is_seen
is_seen-append_last n m [] = refl
is_seen-append_last n m (k ∷ ns) = ground (arith, is_seen-append_last n m ns)

append_last-IsUnique :
    (m : Text) (ns : List Text) → IsUnique ns → is_seen m ns ≡ false → IsUnique (ns ++ m ∷ [])
unfolding is_seen
append_last-IsUnique m [] h new = (refl, tt)
append_last-IsUnique m (k ∷ ns) h new =
    ground (arith, append_last-IsUnique m ns, is_seen-append_last k m ns)

-- Each value stands under its URL without slashes at the end.
abbrev IsKeyed : Dict Text DiscoveredUrl → Type 0
IsKeyed [] = Unit
IsKeyed ((k, u) ∷ d) = (rstrip slash u.url ≡ k) × IsKeyed d

normalized_key : (u : DiscoveredUrl) → normalized (rstrip slash u.url) ≡ normalized u.url
unfolding normalized
normalized_key u = ap lower (rstrip-rstrip slash u.url)

-- A better source for a key changes neither the keys nor the forms.
insert-IsKeyed :
    (u : DiscoveredUrl) (d : Dict Text DiscoveredUrl)
    → IsKeyed d
    → IsKeyed (insert (rstrip slash u.url) u d)
unfolding insert
insert-IsKeyed u [] h = (refl, tt)
insert-IsKeyed u ((k, v) ∷ d) h = ground (arith, insert-IsKeyed u d h.1)

forms-insert_present :
    (u v : DiscoveredUrl) (d : Dict Text DiscoveredUrl)
    → IsKeyed d
    → lookup (rstrip slash u.url) d ≡ some v
    → forms (values (insert (rstrip slash u.url) u d)) ≡ forms (values d)
unfolding insert lookup
forms-insert_present u v [] h e = cc
forms-insert_present u v ((k, w) ∷ d) h e =
    ground (arith, forms-insert_present u v d h.1, normalized_key u, normalized_key w)

-- A key that is there has its form among the forms.
is_seen_of_lookup :
    (key : Text) (v : DiscoveredUrl) (d : Dict Text DiscoveredUrl)
    → IsKeyed d
    → lookup key d ≡ some v
    → is_seen (normalized key) (forms (values d)) ≡ true
unfolding lookup is_seen
is_seen_of_lookup key v [] h e = cc
is_seen_of_lookup key v ((k, w) ∷ d) h e =
    ground (arith, is_seen_of_lookup key v d h.1, normalized_key w)

values-append : (d e : Dict Text DiscoveredUrl) → values (d ++ e) ≡ values d ++ values e
values-append [] e = refl
values-append ((k, v) ∷ d) e = ap (λ vs. v ∷ vs) (values-append d e)

record IsKept (k : Kept) : Type 0 where
  keyed : IsKeyed k.seen
  unique : IsUnique (forms (values k.seen))
  agree : (n : Text) → is_seen n k.url_dedup.seen_urls ≡ is_seen n (forms (values k.seen))

abbrev old_kept : DiscoveredUrl → Kept → Kept
old_kept u k = record {
  url_dedup = (is_duplicate (rstrip slash u.url) k.url_dedup).1;
  seen = keep_better (rstrip slash u.url) u (lookup (rstrip slash u.url) k.seen) k.seen;
}

abbrev new_kept : DiscoveredUrl → Kept → Kept
new_kept u k = record {
  url_dedup = mark_seen (rstrip slash u.url) (is_duplicate (rstrip slash u.url) k.url_dedup).1;
  seen = insert (rstrip slash u.url) u k.seen;
}

-- what `is_duplicate` leaves of the set
seen_urls-is_duplicate :
    (url : Text) (s : UrlDedup) → (is_duplicate url s).1.seen_urls ≡ s.seen_urls
unfolding is_duplicate
seen_urls-is_duplicate url s = ground arith

is_duplicate_lem :
    (u : DiscoveredUrl) (s : UrlDedup)
    → (is_duplicate (rstrip slash u.url) s).0 ≡ is_seen (normalized u.url) s.seen_urls
unfolding is_duplicate
is_duplicate_lem u s = ground (arith, normalized_key u)

module _ (u : DiscoveredUrl) (k : Kept) (h : IsKept k) where
  better-IsKeyed :
      (o : Option DiscoveredUrl) → IsKeyed (keep_better (rstrip slash u.url) u o k.seen)
  unfolding keep_better
  better-IsKeyed none = h.keyed
  better-IsKeyed (some v) =
      if_chosen IsKeyed (ltb (source_priority u.source) (source_priority v.source)) _ _
        (λ better. insert-IsKeyed u k.seen h.keyed) (λ worse. h.keyed)

  forms-better :
      (o : Option DiscoveredUrl)
      → lookup (rstrip slash u.url) k.seen ≡ o
      → forms (values (keep_better (rstrip slash u.url) u o k.seen)) ≡ forms (values k.seen)
  unfolding keep_better
  forms-better none e = refl
  forms-better (some v) e =
      if_chosen (λ d. forms (values d) ≡ forms (values k.seen))
        (ltb (source_priority u.source) (source_priority v.source)) _ _
        (λ better. forms-insert_present u v k.seen h.keyed e) (λ worse. refl)

  old-IsKept : IsKept (old_kept u k)
  old-IsKept =
      let same = forms-better (lookup (rstrip slash u.url) k.seen) refl in
      record {
        keyed = better-IsKeyed (lookup (rstrip slash u.url) k.seen);
        unique = subst IsUnique (sym same) h.unique;
        agree = λ n.
            ap (is_seen n) (seen_urls-is_duplicate (rstrip slash u.url) k.url_dedup)
            ∙ h.agree n
            ∙ ap (is_seen n) (sym same);
      }

  module _ (new : is_seen (normalized u.url) k.url_dedup.seen_urls ≡ false) where
    absent : (o : Option DiscoveredUrl) → lookup (rstrip slash u.url) k.seen ≡ o → o ≡ none
    absent none e = refl
    absent (some v) e = cc (
      is_seen_of_lookup (rstrip slash u.url) v k.seen h.keyed e,
      normalized_key u,
      h.agree (normalized u.url),
      new,
    )

    forms-new : forms (values (new_kept u k).seen) ≡ forms (values k.seen) ++ normalized u.url ∷ []
    forms-new =
        ap (λ d. forms (values d))
          (insert_absent (rstrip slash u.url) u k.seen
            (absent (lookup (rstrip slash u.url) k.seen) refl))
        ∙ ap forms (values-append k.seen ((rstrip slash u.url, u) ∷ []))
        ∙ map-append (λ (v : DiscoveredUrl). normalized v.url) (values k.seen) (u ∷ [])

    new-IsKept : IsKept (new_kept u k)
    unfolding mark_seen
    new-IsKept = record {
      keyed = insert-IsKeyed u k.seen h.keyed;
      unique = subst IsUnique (sym forms-new) (
          append_last-IsUnique (normalized u.url) (forms (values k.seen)) h.unique
            (sym (h.agree (normalized u.url)) ∙ new));
      agree = λ n. ground (
        arith,
        is_seen-add n (normalized (rstrip slash u.url)) k.url_dedup.seen_urls,
        seen_urls-is_duplicate (rstrip slash u.url) k.url_dedup,
        normalized_key u,
        h.agree n,
        forms-new,
        is_seen-append_last n (normalized u.url) (forms (values k.seen)),
      );
    }

  -- Nothing that stood for a URL is lost, and this one is stood for.
  abbrev Covers : Kept → Type 0
  Covers k' =
      ((n : Text)
        → is_seen n (forms (values k.seen)) ≡ true
        → is_seen n (forms (values k'.seen)) ≡ true)
      × (is_seen (normalized u.url) (forms (values k'.seen)) ≡ true)

  old-Covers : is_seen (normalized u.url) k.url_dedup.seen_urls ≡ true → Covers (old_kept u k)
  old-Covers dup =
      let same = forms-better (lookup (rstrip slash u.url) k.seen) refl in
      (
        λ n e. ap (is_seen n) same ∙ e,
        ap (is_seen (normalized u.url)) same ∙ sym (h.agree (normalized u.url)) ∙ dup,
      )

  new-Covers : is_seen (normalized u.url) k.url_dedup.seen_urls ≡ false → Covers (new_kept u k)
  new-Covers new = (
    λ n e.
        ap (is_seen n) (forms-new new)
        ∙ is_seen-append_last n (normalized u.url) (forms (values k.seen))
        ∙ ground (arith, e),
    ap (is_seen (normalized u.url)) (forms-new new)
        ∙ is_seen-append_last (normalized u.url) (normalized u.url) (forms (values k.seen))
        ∙ ground arith,
  )

  keep_url-IsKept : IsKept (keep_url u k) × Covers (keep_url u k)
  unfolding keep_url
  keep_url-IsKept =
      let tested = is_duplicate_lem u k.url_dedup in
      if_chosen (λ k'. IsKept k' × Covers k') (is_duplicate (rstrip slash u.url) k.url_dedup).0
        (old_kept u k) (new_kept u k) (λ dup. (old-IsKept, old-Covers (sym tested ∙ dup)))
        (λ new. (new-IsKept (sym tested ∙ new), new-Covers (sym tested ∙ new)))

-- each of the URLs is stood for
abbrev pub AllCovered : List DiscoveredUrl → List Text → Type 0
AllCovered us ns = All (λ (u : DiscoveredUrl). is_seen (normalized u.url) ns ≡ true) us

keep_all-IsKept :
    (us : List DiscoveredUrl) (k : Kept)
    → IsKept k
    → IsKept (keep_all us k)
      × AllCovered us (forms (values (keep_all us k).seen))
      × ((n : Text)
          → is_seen n (forms (values k.seen)) ≡ true
          → is_seen n (forms (values (keep_all us k).seen)) ≡ true)
unfolding keep_all
keep_all-IsKept [] k h = (h, tt, λ n e. e)
keep_all-IsKept (u ∷ us) k h =
    let (kept, (grows, covered)) = keep_url-IsKept u k h in
    let (rest, all, later) = keep_all-IsKept us (keep_url u k) kept in
    (rest, (later (normalized u.url) covered, all), λ n e. later n (grows n e))

-- After the deduplication by a fresh deduplicator no URL stands twice, up to slashes at the end and
-- the case of the letters, and each URL that was found is stood for by one.
pub deduplicate_lem :
    (us : List DiscoveredUrl)
    → IsUnique (forms (deduplicate us init)) × AllCovered us (forms (deduplicate us init))
unfolding deduplicate init is_seen
deduplicate_lem us =
    let (kept, covered, later) =
      keep_all-IsKept us (record { url_dedup = init; seen = [] })
        (record { keyed = tt; unique = tt; agree = λ n. refl }) in
    (kept.unique, covered)

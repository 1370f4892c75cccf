-- ===== src/KnowledgeGraph/Paths/Bounds.antt =====
-- The loop of `find_path` ends: each trail but the first is queued for a target that was not visited.
use mathlib.Core.List.{Memᴰ}
use mathlib.Core.List.Memᴰ
use competitor_intelligence.Base.{
  ℕ, zero, suc, ◌+◌, ◌≤◌, false, inl, inr, List, [], ◌∷◌, length, length-append, ◌≡◌, ◌≢◌, refl,
  some, if_pos, if_neg, sym, subst, ap, arith, dec_le, if◌then◌else◌,
}
use competitor_intelligence.Dict.{Key, Dict, lookup}
use competitor_intelligence.KnowledgeGraph.{GraphEdge, Graph, or_empty, is_among, out_edges}
use competitor_intelligence.KnowledgeGraph.Paths.{
  Trail, Search, Scanned, found, searching, out_of_fuel, extended, scan, expand, loop, listed_edges,
  start, fuel_for, find_path,
}
use competitor_intelligence.KnowledgeGraph.Paths.Trails.{After, scan_rule}
use competitor_intelligence.KnowledgeGraph.Paths.Steps.{
  after_round, loop-empty, loop-cons, expand-tired, expand-open,
}

module _ {Ident : Type 0} ⦃key : Key Ident⦄ where
  -- the edges whose target is still to be visited
  abbrev fresh : List Ident → List (GraphEdge Ident) → ℕ
  fresh visited [] = 0
  fresh visited (e ∷ es) = (if is_among e.target_id visited then 0 else 1) + fresh visited es

  fresh-le :
      (x : Ident) (visited : List Ident) (es : List (GraphEdge Ident))
      → fresh (x ∷ visited) es ≤ fresh visited es
  unfolding is_among
  fresh-le x visited [] = omega arith
  fresh-le x visited (e ∷ es) = ground (arith, fresh-le x visited es)

  fresh-lt :
      (e : GraphEdge Ident) (visited : List Ident) (es : List (GraphEdge Ident))
      → Memᴰ e es
      → is_among e.target_id visited ≡ false
      → suc (fresh (e.target_id ∷ visited) es) ≤ fresh visited es
  unfolding is_among
  fresh-lt e visited [] m new = absurd (Memᴰ.not-nil m)
  fresh-lt e visited (d ∷ es) m new = elim (Memᴰ.cases_cons m) [
    | inl same ↦ ground (
      arith,
      subst (λ (c : GraphEdge Ident). is_among c.target_id visited ≡ false) same new,
      ap (λ (c : GraphEdge Ident). c.target_id) same,
      fresh-le e.target_id visited es,
    )
    | inr later ↦ ground (arith, fresh-lt e visited es later new)
  ]

  fresh-length : (visited : List Ident) (es : List (GraphEdge Ident)) → fresh visited es ≤ length es
  fresh-length visited [] = omega arith
  fresh-length visited (e ∷ es) = ground (arith, fresh-length visited es)

  listed_out :
      (d : Dict Ident (List (GraphEdge Ident))) (u : Ident) (e : GraphEdge Ident)
      → Memᴰ e (or_empty (lookup u d))
      → Memᴰ e (listed_edges d)
  unfolding lookup
  listed_out [] u e m = m
  listed_out ((k, es) ∷ d) u e m = elim (key.dec k u) [
    | yes same ↦
        Memᴰ.append_left (listed_edges d)
          (rw (if_pos (key.dec k u) same (some es) (lookup u d)) at m)
    | no other ↦
        Memᴰ.append_right es
          (listed_out d u e (rw (if_neg (key.dec k u) other (some es) (lookup u d)) at m))
  ]

  module _ (g : Graph Ident) (target : Ident) where
    abbrev all_edges : List (GraphEdge Ident)
    all_edges = listed_edges g.adjacency

    abbrev work : Search Ident → ℕ
    work s = fresh s.visited all_edges + length s.queue

    abbrev Listed : List (GraphEdge Ident) → Type 0
    Listed es = (e : GraphEdge Ident) → Memᴰ e es → Memᴰ e all_edges

    abbrev Busy : ℕ → List (GraphEdge Ident) → Search Ident → Type 0
    Busy limit es s = Listed es × (work s ≤ limit)

    scan-work :
        (limit : ℕ) (t : Trail Ident) (es : List (GraphEdge Ident)) (s : Search Ident)
        → Busy limit es s
        → After (λ _. Unit) (Busy limit []) (scan g target t es s)
    scan-work limit t es s =
        scan_rule g target t (λ _. Unit) (Busy limit)
          (λ e rest s' h old. ((λ d m. h.0 d (Memᴰ.tail m)), h.1)) (λ e rest s' h new same. tt)
          (λ e rest s' h new other. (
            (λ d m. h.0 d (Memᴰ.tail m)),
            omega (
              arith,
              h.1,
              fresh-lt e s'.visited all_edges (h.0 e (Memᴰ.head refl)) new,
              length-append {0} s'.queue (extended t e ∷ []),
            ),
          ))
          es s

    module _ (max_depth : ℕ) where
      expand-work :
          (limit : ℕ) (t : Trail Ident) (s : Search Ident)
          → work s ≤ limit
          → After (λ _. Unit) (Busy limit []) (expand g target max_depth t s)
      expand-work limit t s h = elim (dec_le (length t.path_nodes) max_depth) [
        | yes short ↦
            subst (After (λ _. Unit) (Busy limit []))
              (sym (expand-open g target max_depth t s short))
              (scan-work limit t (out_edges g t.current) s (listed_out g.adjacency t.current, h))
        | no long ↦
            subst (After (λ _. Unit) (Busy limit []))
              (sym (expand-tired g target max_depth t s (omega arith)))
              ((λ e m. absurd (Memᴰ.not-nil m)), h)
      ]

      -- What a round leaves is not the end of the fuel, if the rounds after it end.
      round_ends :
          (fuel : ℕ)
          → ((s : Search Ident) → work s ≤ fuel → loop g target max_depth fuel s ≢ out_of_fuel)
          → (r : Scanned Ident) → After (λ _. Unit) (Busy fuel []) r
          → after_round g target max_depth fuel r ≢ out_of_fuel
      round_ends fuel rest_ends (found p) h = λ e. cc
      round_ends fuel rest_ends (searching s) h = rest_ends s h.1

      loop-ends :
          (fuel : ℕ) (s : Search Ident) (ts : List (Trail Ident))
          → s.queue ≡ ts
          → work s ≤ fuel
          → loop g target max_depth fuel s ≢ out_of_fuel
      loop-ends fuel s [] e h =
          subst (λ a. a ≢ out_of_fuel) (sym (loop-empty g target max_depth fuel s e)) (λ p. cc)
      loop-ends zero s (t ∷ ts) e h = absurd (omega (arith, ap length e))
      loop-ends (suc fuel) s (t ∷ ts) e h =
          let rest : Search Ident = record s { queue = ts } in
          let less : work rest ≤ fuel = omega (arith, ap length e) in
          subst (λ a. a ≢ out_of_fuel) (sym (loop-cons g target max_depth fuel s t ts e))
            (round_ends fuel (λ s'. loop-ends fuel s' s'.queue refl)
              (expand g target max_depth t rest) (expand-work fuel t rest less))

  -- The breadth-first search ends in every graph, with cycles too: one round for the start and one
  -- for each listed edge are enough.
  pub find_path-ends :
      (g : Graph Ident) (source target : Ident) (max_depth : ℕ)
      → find_path g source target max_depth ≢ out_of_fuel
  unfolding find_path
  find_path-ends g source target max_depth = elim (key.dec source target) [
    | yes same ↦
        subst (λ a. a ≢ out_of_fuel) (sym (if_pos (key.dec source target) same _ _)) (λ p. cc)
    | no other ↦
        subst (λ a. a ≢ out_of_fuel) (sym (if_neg (key.dec source target) other _ _))
          (loop-ends g target max_depth (fuel_for g) (start source) (start source).queue refl
            (omega (arith, fresh-length (source ∷ []) (listed_edges g.adjacency))))
  ]

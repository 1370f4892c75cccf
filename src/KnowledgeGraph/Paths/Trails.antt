-- ===== src/KnowledgeGraph/Paths/Trails.antt =====
-- Trails and walks of the graph, and the rule for the inner loop of the search.
use mathlib.Core.List.{Memᴰ}
use competitor_intelligence.Base.{
  ℕ, zero, suc, ◌+◌, true, false, inl, inr, List, [], ◌∷◌, ◌++◌, length, length-map, ◌≡◌, ◌≢◌, refl,
  arith, map, map-append, ap, sym, ◌∙◌, Bool-cases, subst,
}
use competitor_intelligence.Dict.{Key}
use competitor_intelligence.KnowledgeGraph.{GraphEdge, Graph, is_among, out_edges}
use competitor_intelligence.KnowledgeGraph.Paths.{
  GraphPath, Trail, Search, Scanned, found, searching, extended, path_of, push, scan,
}

module _ {Ident : Type 0} ⦃key : Key Ident⦄ where
  -- Each of the edges leads from the end of the one before, the first from `u`, the last to `v`.
  abbrev pub Chain : Graph Ident → Ident → List (GraphEdge Ident) → Ident → Type 0
  Chain g u [] v = u ≡ v
  Chain g u (e ∷ es) v = Memᴰ e (out_edges g u) × Chain g e.target_id es v

  pub Chain-append_last :
      (g : Graph Ident) (u v : Ident) (es : List (GraphEdge Ident)) (e : GraphEdge Ident)
      → Chain g u es v
      → Memᴰ e (out_edges g v)
      → Chain g u (es ++ e ∷ []) e.target_id
  Chain-append_last g u v [] e c m = (subst (λ x. Memᴰ e (out_edges g x)) (sym c) m, refl)
  Chain-append_last g u v (d ∷ es) e c m = (c.0, Chain-append_last g d.target_id v es e c.1 m)

  -- A trail from the source, and a path from the source to the target.
  pub record IsTrail (g : Graph Ident) (source : Ident) (t : Trail Ident) : Type 0 where
    pub spelled : t.path_nodes ≡ source ∷ map (λ (e : GraphEdge Ident). e.target_id) t.path_edges
    pub chained : Chain g source t.path_edges t.current

  pub extended-IsTrail :
      (g : Graph Ident) (source : Ident) (t : Trail Ident) (e : GraphEdge Ident)
      → IsTrail g source t
      → Memᴰ e (out_edges g t.current)
      → IsTrail g source (extended t e)
  extended-IsTrail g source t e h m = record {
    spelled =
        ap (λ ns. ns ++ e.target_id ∷ []) h.spelled
        ∙ ap (λ ns. source ∷ ns)
            (sym (map-append (λ (d : GraphEdge Ident). d.target_id) t.path_edges (e ∷ [])));
    chained = Chain-append_last g source t.current t.path_edges e h.chained m;
  }

  pub IsTrail-length :
      (g : Graph Ident) (source : Ident) (t : Trail Ident)
      → IsTrail g source t
      → length t.path_nodes ≡ suc (length t.path_edges)
  IsTrail-length g source t h =
      ap length h.spelled ∙ ap suc (length-map (λ (e : GraphEdge Ident). e.target_id) t.path_edges)

  -- There is a walk of `n` edges from the source to `v`.
  abbrev pub Walk : Graph Ident → Ident → ℕ → Ident → Type 0
  Walk g source zero v = source ≡ v
  Walk g source (suc n) v =
      (u : Ident) × (e : GraphEdge Ident) × (Walk g source n u
        × Memᴰ e (out_edges g u)
        × (e.target_id ≡ v))

  pub Chain-Walk :
      (g : Graph Ident) (source u v : Ident) (n : ℕ) (es : List (GraphEdge Ident))
      → Walk g source n u
      → Chain g u es v
      → Walk g source (length es + n) v
  Chain-Walk g source u v n [] w c =
      subst (λ m. Walk g source m v) (omega arith) (subst (Walk g source n) c w)
  Chain-Walk g source u v n (e ∷ es) w c =
      subst (λ m. Walk g source m v) (omega arith)
        (Chain-Walk g source e.target_id v (suc n) es (u, e, (w, c.0, refl)) c.1)

  -- What holds of the outcome of a round.
  abbrev pub After : (GraphPath Ident → Type 0) → (Search Ident → Type 0) → Scanned Ident → Type 0
  After F P (found p) = F p
  After F P (searching s) = P s

  scan-nil :
      (g : Graph Ident) (target : Ident) (t : Trail Ident) (s : Search Ident)
      → scan g target t [] s ≡ searching s
  unfolding scan
  scan-nil g target t s = refl

  module _ (g : Graph Ident) (target : Ident) (t : Trail Ident) (e : GraphEdge Ident)
      (es : List (GraphEdge Ident)) (s : Search Ident) where
    scan-old :
        is_among e.target_id s.visited ≡ true → scan g target t (e ∷ es) s ≡ scan g target t es s
    unfolding scan
    scan-old old = ground (arith)

    scan-hit :
        is_among e.target_id s.visited ≡ false
        → e.target_id ≡ target
        → scan g target t (e ∷ es) s ≡ found (path_of (extended t e))
    unfolding scan
    scan-hit new same = ground (arith)

    scan-new :
        is_among e.target_id s.visited ≡ false
        → e.target_id ≢ target
        → scan g target t (e ∷ es) s ≡ scan g target t es (push (extended t e) s)
    unfolding scan
    scan-new new other = ground (arith)

  pub scan_rule :
      (g : Graph Ident) (target : Ident) (t : Trail Ident) (F : GraphPath Ident → Type 0)
      (P : List (GraphEdge Ident) → Search Ident → Type 0)
      → ((e : GraphEdge Ident) (es : List (GraphEdge Ident)) (s : Search Ident)
          → P (e ∷ es) s
          → is_among e.target_id s.visited ≡ true
          → P es s)
      → ((e : GraphEdge Ident) (es : List (GraphEdge Ident)) (s : Search Ident)
          → P (e ∷ es) s
          → is_among e.target_id s.visited ≡ false
          → e.target_id ≡ target
          → F (path_of (extended t e)))
      → ((e : GraphEdge Ident) (es : List (GraphEdge Ident)) (s : Search Ident)
          → P (e ∷ es) s
          → is_among e.target_id s.visited ≡ false
          → e.target_id ≢ target
          → P es (push (extended t e) s))
      → (es : List (GraphEdge Ident)) (s : Search Ident) → P es s
      → After F (P []) (scan g target t es s)
  scan_rule g target t F P skip hit keep [] s h =
      subst (After F (P [])) (sym (scan-nil g target t s)) h
  scan_rule g target t F P skip hit keep (e ∷ es) s h =
      elim (Bool-cases (is_among e.target_id s.visited)) [
        | inl old ↦
            subst (After F (P [])) (sym (scan-old g target t e es s old))
              (scan_rule g target t F P skip hit keep es s (skip e es s h old))
        | inr new ↦ elim (key.dec e.target_id target) [
          | yes same ↦
              subst (After F (P [])) (sym (scan-hit g target t e es s new same))
                (hit e es s h new same)
          | no other ↦ subst (After F (P [])) (sym (scan-new g target t e es s new other)) (
              scan_rule g target t F P skip hit keep es (push (extended t e) s)
                (keep e es s h new other))
        ]
      ]

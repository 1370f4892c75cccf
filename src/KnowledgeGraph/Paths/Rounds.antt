-- ===== src/KnowledgeGraph/Paths/Rounds.antt =====
-- One round of the loop at a level of the search, and what is left where the trails are too long.
use mathlib.Core.Bool.{false≢true}
use mathlib.Core.List.{Memᴰ}
use competitor_intelligence.Base.{
  ℕ, zero, suc, ◌≤◌, ◌<◌, ◌⊎◌, inl, inr, List, [], ◌∷◌, ◌++◌, append_assoc, length, All, All-append,
  ◌≡◌, refl, sym, ap, ◌∙◌, subst, arith, dec_le,
}
use competitor_intelligence.Dict.{Key}
use competitor_intelligence.KnowledgeGraph.{GraphEdge, Graph, out_edges}
use competitor_intelligence.KnowledgeGraph.Paths.{
  GraphPath, Trail, Search, Scanned, found, searching, Answer, path, no_path, out_of_fuel, extended,
  scan, loop,
}
use competitor_intelligence.KnowledgeGraph.Paths.Trails.{IsTrail-length, Walk, After, scan_rule}
use competitor_intelligence.KnowledgeGraph.Paths.Steps.{
  after_round, loop-empty, loop-exhausted, loop-cons, expand-tired, expand-open,
}
use competitor_intelligence.KnowledgeGraph.Paths.Levels.{
  AtDepth, Level, IsShortest, pop_Level, skip_Level, push_Level, found_IsShortest, length-extended,
}

module _ {Ident : Type 0} ⦃key : Key Ident⦄ where
  module _ (g : Graph Ident) (source target : Ident) where
    -- The state of a search at level `k`.
    pub record AtLevel (k : ℕ) (pending : List (GraphEdge Ident)) (now : List (Trail Ident))
        (s : Search Ident) : Type 0 where
      pub next : List (Trail Ident)
      pub lined_up : s.queue ≡ now ++ next
      pub level : Level g source target k pending now next s.visited

    module _ (k : ℕ) (t : Trail Ident) (now : List (Trail Ident))
        (at : AtDepth g source target k t) where
      abbrev Looking : List (GraphEdge Ident) → Search Ident → Type 0
      Looking es s =
          ((e : GraphEdge Ident) → Memᴰ e es → Memᴰ e (out_edges g t.current)) × AtLevel k es now s

      abbrev FoundAt : GraphPath Ident → Type 0
      FoundAt p = IsShortest g source target p × (length p.edges ≡ suc k)

      scan-AtLevel :
          (s : Search Ident)
          → AtLevel k (out_edges g t.current) now s
          → After FoundAt (Looking []) (scan g target t (out_edges g t.current) s)
      scan-AtLevel s h =
          scan_rule g target t FoundAt Looking
            (λ e es s' seen old. (
              λ d m. seen.0 d (Memᴰ.tail m),
              record {
                next = seen.1.next;
                lined_up = seen.1.lined_up;
                level =
                    skip_Level g source target k e es now seen.1.next s'.visited seen.1.level old;
              },
            ))
            (λ e es s' seen new same.
              let leaves = seen.0 e (Memᴰ.head refl) in
              (
                found_IsShortest g source target k t e es now seen.1.next s'.visited at leaves
                    seen.1.level new same,
                length-extended g source target k t e es now seen.1.next s'.visited at leaves
                    seen.1.level new,
              ))
            (λ e es s' seen new other. (
              λ d m. seen.0 d (Memᴰ.tail m),
              record {
                next = seen.1.next ++ extended t e ∷ [];
                lined_up =
                    ap (λ q. q ++ extended t e ∷ []) seen.1.lined_up
                    ∙ append_assoc now seen.1.next (extended t e ∷ []);
                level =
                    push_Level g source target k t e es now seen.1.next s'.visited at
                      (seen.0 e (Memᴰ.head refl)) seen.1.level new other;
              },
            ))
            (out_edges g t.current) s ((λ e m. m), h)

    -- What an answer has to be.
    abbrev pub IsRight : ℕ → Answer Ident → Type 0
    IsRight max_depth (path p) = IsShortest g source target p × (length p.edges ≤ max_depth)
    IsRight max_depth no_path = (n : ℕ) → n ≤ max_depth → ¬ Walk g source n target
    IsRight max_depth out_of_fuel = Unit

    module _ (max_depth : ℕ) where
      -- where the trails are long enough, the search runs to its end and finds nothing
      loop-tired :
          (fuel : ℕ) (s : Search Ident) (ts : List (Trail Ident))
          → s.queue ≡ ts
          → All (λ (t : Trail Ident). max_depth < length t.path_nodes) ts
          → (loop g target max_depth fuel s ≡ no_path)
            ⊎ (loop g target max_depth fuel s ≡ out_of_fuel)
      loop-tired fuel s [] e h = inl (loop-empty g target max_depth fuel s e)
      loop-tired zero s (t ∷ ts) e h = inr (loop-exhausted g target max_depth s t ts e)
      loop-tired (suc fuel) s (t ∷ ts) e h =
          let rest : Search Ident = record s { queue = ts } in
          let round =
            loop-cons g target max_depth fuel s t ts e
            ∙ ap (after_round g target max_depth fuel)
                (expand-tired g target max_depth t rest h.0) in
          elim (loop-tired fuel rest ts refl h.1) [
            | inl none_found ↦ inl (round ∙ none_found)
            | inr stopped ↦ inr (round ∙ stopped)
          ]

      All-deep :
          (d : ℕ) (ts : List (Trail Ident))
          → max_depth ≤ d
          → All (AtDepth g source target d) ts
          → All (λ (t : Trail Ident). max_depth < length t.path_nodes) ts
      All-deep d [] le h = tt
      All-deep d (t ∷ ts) le h =
          (omega (arith, IsTrail-length g source t h.0.trail, h.0.depth), All-deep d ts le h.1)

      -- nothing is found by walks that are at most as long as the level
      not_near :
          (k : ℕ) (now : List (Trail Ident)) (s : Search Ident)
          → AtLevel k [] now s
          → max_depth ≤ k
          → (n : ℕ) → n ≤ max_depth
          → ¬ Walk g source n target
      not_near k now s h deep n le w =
          false≢true (sym h.level.unseen ∙ h.level.near n target (omega arith) w)

      tired_answer :
          (a : Answer Ident)
          → ((n : ℕ) → n ≤ max_depth → ¬ Walk g source n target)
          → (a ≡ no_path) ⊎ (a ≡ out_of_fuel)
          → IsRight max_depth a
      tired_answer a none_near (inl e) = subst (IsRight max_depth) (sym e) none_near
      tired_answer a none_near (inr e) = subst (IsRight max_depth) (sym e) tt

      module _ (fuel : ℕ)
          (rest_right : (k : ℕ) (now : List (Trail Ident)) (s : Search Ident)
            → AtLevel k [] now s
            → IsRight max_depth (loop g target max_depth fuel s)) where
        after_round-IsRight :
            (k : ℕ) (t : Trail Ident) (now : List (Trail Ident)) (at : AtDepth g source target k t)
            → suc k ≤ max_depth
            → (r : Scanned Ident) → After (FoundAt k t now at) (Looking k t now at []) r
            → IsRight max_depth (after_round g target max_depth fuel r)
        after_round-IsRight k t now at le (found p) h = (h.0, omega (arith, h.1))
        after_round-IsRight k t now at le (searching s) h = rest_right k now s h.1

        pub round-IsRight :
            (k : ℕ) (t : Trail Ident) (now : List (Trail Ident)) (s : Search Ident)
            → AtLevel k [] (t ∷ now) s
            → IsRight max_depth (loop g target max_depth (suc fuel) s)
        round-IsRight k t now s h =
            let at = h.level.first.0 in
            let rest : Search Ident = record s { queue = now ++ h.next } in
            elim (dec_le (suc k) max_depth) [
              | yes le ↦
                  let popped : AtLevel k (out_edges g t.current) now rest = record {
                    next = h.next;
                    lined_up = refl;
                    level = pop_Level g source target k t now h.next s.visited h.level;
                  } in
                  let short : length t.path_nodes ≤ max_depth =
                    omega (arith, IsTrail-length g source t at.trail, at.depth) in
                  let round =
                    loop-cons g target max_depth fuel s t (now ++ h.next) h.lined_up
                    ∙ ap (after_round g target max_depth fuel)
                        (expand-open g target max_depth t rest short) in
                  subst (IsRight max_depth) (sym round) (
                    after_round-IsRight k t now at le (scan g target t (out_edges g t.current) rest)
                      (scan-AtLevel k t now at rest popped))
              | no deep ↦
                  tired_answer (loop g target max_depth (suc fuel) s)
                    (not_near k (t ∷ now) s h (omega arith))
                    (loop-tired (suc fuel) s (t ∷ now ++ h.next) h.lined_up (
                      All-append _ (t ∷ now) h.next
                        (All-deep k (t ∷ now) (omega arith) h.level.first)
                        (All-deep (suc k) h.next (omega arith) h.level.second)))
            ]

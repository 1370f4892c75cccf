-- ===== src/KnowledgeGraph/Paths/Shortest.antt =====
-- What `find_path` returns is a shortest path, and it returns none only where there is none.
use mathlib.Core.Bool.{false≢true}
use mathlib.Core.List.{Memᴰ}
use competitor_intelligence.Base.{
  ℕ, zero, suc, ◌+◌, ◌≤◌, true, inl, inr, List, [], ◌∷◌, ◌++◌, append-nil, length, ◌≡◌, ◌≢◌, refl,
  if_pos, if_neg, sym, ◌∙◌, subst, arith,
}
use competitor_intelligence.Dict.{Key}
use competitor_intelligence.KnowledgeGraph.{GraphEdge, Graph, is_among}
use competitor_intelligence.KnowledgeGraph.Paths.{
  GraphPath, Trail, Search, Answer, path, no_path, out_of_fuel, loop, start, fuel_for, find_path,
}
use competitor_intelligence.KnowledgeGraph.Paths.Trails.{Chain, Walk, Chain-Walk}
use competitor_intelligence.KnowledgeGraph.Paths.Rounds.{AtLevel, IsRight, round-IsRight}
use competitor_intelligence.KnowledgeGraph.Paths.Steps.{loop-empty, loop-exhausted}
use competitor_intelligence.KnowledgeGraph.Paths.Bounds.{find_path-ends}
use competitor_intelligence.KnowledgeGraph.Paths.Levels.{
  is_among_nil, is_among_head, is_among_cases, is_among_other, Level, IsShortest, raise_Level,
  Level-empty,
}

module _ {Ident : Type 0} ⦃key : Key Ident⦄ where
  module _ (g : Graph Ident) (source target : Ident) where
    module _ (max_depth : ℕ) where
      -- If the search is right where the level has a trail left, it is right everywhere.
      module _ (fuel : ℕ)
          (rounds : (k : ℕ) (t : Trail Ident) (now : List (Trail Ident)) (s : Search Ident)
            → AtLevel g source target k [] (t ∷ now) s
            → IsRight g source target max_depth (loop g target max_depth fuel s)) where
        next_IsRight :
            (k : ℕ) (next : List (Trail Ident)) (s : Search Ident)
            → s.queue ≡ next
            → Level g source target k [] [] next s.visited
            → IsRight g source target max_depth (loop g target max_depth fuel s)
        next_IsRight k [] s e h =
            subst (IsRight g source target max_depth) (sym (loop-empty g target max_depth fuel s e))
              (λ n le w.
                false≢true (sym h.unseen ∙ Level-empty g source target k s.visited h n target w))
        next_IsRight k (t ∷ next) s e h = rounds (suc k) t next s (record {
          next = [];
          lined_up = e ∙ sym (append-nil (t ∷ next));
          level = raise_Level g source target k (t ∷ next) s.visited h;
        })

        level_IsRight :
            (k : ℕ) (now : List (Trail Ident)) (s : Search Ident)
            → AtLevel g source target k [] now s
            → IsRight g source target max_depth (loop g target max_depth fuel s)
        level_IsRight k [] s h = next_IsRight k h.next s h.lined_up h.level
        level_IsRight k (t ∷ now) s h = rounds k t now s h

      pub loop-IsRight :
          (fuel k : ℕ) (now : List (Trail Ident)) (s : Search Ident)
          → AtLevel g source target k [] now s
          → IsRight g source target max_depth (loop g target max_depth fuel s)
      loop-IsRight zero = level_IsRight zero (λ k t now s h.
          subst (IsRight g source target max_depth)
            (sym (loop-exhausted g target max_depth s t (now ++ h.next) h.lined_up)) tt)
      loop-IsRight (suc fuel) =
          level_IsRight (suc fuel)
            (round-IsRight g source target max_depth fuel (loop-IsRight fuel))

      near_source :
          (n : ℕ) (v : Ident) → n ≤ 0 → Walk g source n v → is_among v (source ∷ []) ≡ true
      near_source zero v le w =
          subst (λ x. is_among x (source ∷ []) ≡ true) w (is_among_head source [])
      near_source (suc n) v le w = absurd (omega arith)

      -- The search starts at level 0.
      start-AtLevel :
          source ≢ target
          → AtLevel g source target 0 []
              (record { current = source; path_nodes = source ∷ []; path_edges = [] } ∷ [])
              (start source)
      start-AtLevel other = record {
        next = [];
        lined_up = refl;
        level = record {
          near = near_source;
          first = (
            record {
              trail = record { spelled = refl; chained = refl };
              depth = refl;
              least = λ n w. omega arith;
            },
            tt,
          );
          second = tt;
          closed = λ x e seen m. elim (is_among_cases x source [] seen) [
            | inl same ↦ inr (inl (Memᴰ.head (sym same)))
            | inr old ↦ absurd (false≢true (sym (is_among_nil x) ∙ old))
          ];
          unseen = is_among_other target source [] other (is_among_nil target);
        };
      }

    find_path_self :
        (max_depth : ℕ)
        → source ≡ target
        → find_path g source target max_depth
          ≡ path (record { nodes = source ∷ []; edges = []; total_weight = 0 })
    unfolding find_path
    find_path_self max_depth same = if_pos (key.dec source target) same _ _

    find_path_other :
        (max_depth : ℕ)
        → source ≢ target
        → find_path g source target max_depth ≡ loop g target max_depth (fuel_for g) (start source)
    unfolding find_path
    find_path_other max_depth other = if_neg (key.dec source target) other _ _

    pub find_path-IsRight :
        (max_depth : ℕ) → IsRight g source target max_depth (find_path g source target max_depth)
    find_path-IsRight max_depth = elim (key.dec source target) [
      | yes same ↦ subst (IsRight g source target max_depth) (sym (find_path_self max_depth same)) (
        record { spelled = refl; chained = same; weighed = refl; least = λ n w. omega arith },
        omega arith,
      )
      | no other ↦
          subst (IsRight g source target max_depth) (sym (find_path_other max_depth other)) (
            loop-IsRight max_depth (fuel_for g) 0
              (record { current = source; path_nodes = source ∷ []; path_edges = [] } ∷ [])
              (start source) (start-AtLevel max_depth other))
    ]

  -- the answer, once it is known to be right and not the end of the fuel
  best_answer :
      (g : Graph Ident) (source target : Ident) (max_depth : ℕ) (es : List (GraphEdge Ident))
      → Walk g source (length es) target
      → length es ≤ max_depth
      → (a : Answer Ident) → a ≢ out_of_fuel
      → IsRight g source target max_depth a
      → (p : GraphPath Ident) × (a ≡ path p)
        × IsShortest g source target p
        × (length p.edges ≤ length es)
  best_answer g source target max_depth es w le (path p) ends right =
      (p, refl, right.0, right.0.least (length es) w)
  best_answer g source target max_depth es w le no_path ends right = absurd (right (length es) le w)
  best_answer g source target max_depth es w le out_of_fuel ends right = absurd (ends refl)

  -- If edges of the graph lead from the source to the target, and they are at most max_depth many,
  -- find_path returns a path with at most as many edges: its edges are in the adjacency lists and
  -- lead from the source to the target, its nodes are their ends, its weight is the sum of theirs,
  -- and no walk from the source to the target has fewer edges.
  pub find_path-IsShortest :
      (g : Graph Ident) (source target : Ident) (max_depth : ℕ) (es : List (GraphEdge Ident))
      → Chain g source es target
      → length es ≤ max_depth
      → (p : GraphPath Ident) × (find_path g source target max_depth ≡ path p)
        × IsShortest g source target p
        × (length p.edges ≤ length es)
  find_path-IsShortest g source target max_depth es chain le =
      let walk : Walk g source (length es + 0) target =
        Chain-Walk g source source target 0 es refl chain in
      best_answer g source target max_depth es
        (subst (λ n. Walk g source n target) (omega arith) walk) le
        (find_path g source target max_depth) (find_path-ends g source target max_depth)
        (find_path-IsRight g source target max_depth)

  pub find_path_sound :
      (g : Graph Ident) (source target : Ident) (max_depth : ℕ) (p : GraphPath Ident)
      → find_path g source target max_depth ≡ path p
      → IsShortest g source target p × (length p.edges ≤ max_depth)
  find_path_sound g source target max_depth p e =
      subst (IsRight g source target max_depth) e (find_path-IsRight g source target max_depth)

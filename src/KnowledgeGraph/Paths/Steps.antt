-- ===== src/KnowledgeGraph/Paths/Steps.antt =====
-- One step of the loop of `find_path`, by what is at the head of the queue.
use competitor_intelligence.Base.{
  ℕ, zero, suc, ◌≤◌, ◌<◌, List, [], ◌∷◌, length, ◌≡◌, refl, arith, lt→ltb,
}
use competitor_intelligence.Dict.{Key}
use competitor_intelligence.KnowledgeGraph.{Graph, out_edges}
use competitor_intelligence.KnowledgeGraph.Paths.{
  Trail, Search, Scanned, found, searching, Answer, path, no_path, out_of_fuel, scan, expand, loop,
}

module _ {Ident : Type 0} ⦃key : Key Ident⦄ where
  module _ (g : Graph Ident) (target : Ident) (max_depth : ℕ) where
    abbrev pub after_round : ℕ → Scanned Ident → Answer Ident
    after_round fuel (found p) = path p
    after_round fuel (searching s) = loop g target max_depth fuel s

    pub loop-empty :
        (fuel : ℕ) (s : Search Ident) → s.queue ≡ [] → loop g target max_depth fuel s ≡ no_path
    unfolding loop
    loop-empty zero s e = rw (e, loop) refl
    loop-empty (suc fuel) s e = rw (e, loop) refl

    pub loop-exhausted :
        (s : Search Ident) (t : Trail Ident) (ts : List (Trail Ident))
        → s.queue ≡ t ∷ ts
        → loop g target max_depth zero s ≡ out_of_fuel
    unfolding loop
    loop-exhausted s t ts e = rw (e, loop) refl

    pub loop-cons :
        (fuel : ℕ) (s : Search Ident) (t : Trail Ident) (ts : List (Trail Ident))
        → s.queue ≡ t ∷ ts
        → loop g target max_depth (suc fuel) s
          ≡ after_round fuel (expand g target max_depth t (record s { queue = ts }))
    unfolding loop
    loop-cons fuel s t ts e = ground (arith)

    pub expand-tired :
        (t : Trail Ident) (s : Search Ident)
        → max_depth < length t.path_nodes
        → expand g target max_depth t s ≡ searching s
    unfolding expand
    expand-tired t s h = rw (lt→ltb _ _ h) refl

    pub expand-open :
        (t : Trail Ident) (s : Search Ident)
        → length t.path_nodes ≤ max_depth
        → expand g target max_depth t s ≡ scan g target t (out_edges g t.current) s
    unfolding expand
    expand-open t s h = ground (arith)

-- ===== src/KnowledgeGraph/Paths/Levels.antt =====
-- The levels of the breadth-first search: which nodes are visited when the trails of one length are
-- at the head of the queue, and how a round keeps this.
use mathlib.Core.Bool.{false≢true}
use mathlib.Core.List.{Memᴰ}
use mathlib.Core.List.Memᴰ
use competitor_intelligence.Base.{
  ℕ, zero, suc, ◌≤◌, true, false, ◌⊎◌, inl, inr, List, [], ◌∷◌, ◌++◌, map, map-append, length,
  length-append, sum_by, All, All-append, ◌≡◌, ◌≢◌, refl, sym, ◌∙◌, subst, arith, dec_le,
}
use competitor_intelligence.Dict.{Key}
use competitor_intelligence.KnowledgeGraph.{GraphEdge, Graph, is_among, out_edges}
use competitor_intelligence.KnowledgeGraph.Paths.{GraphPath, Trail, extended, path_of}
use competitor_intelligence.KnowledgeGraph.Paths.Trails.{Chain, IsTrail, extended-IsTrail, Walk}

module _ {Ident : Type 0} ⦃key : Key Ident⦄ where
  pub is_among_nil : (x : Ident) → is_among x [] ≡ false
  unfolding is_among
  is_among_nil x = refl

  pub is_among_cons :
      (x y : Ident) (ys : List Ident) → is_among x ys ≡ true → is_among x (y ∷ ys) ≡ true
  unfolding is_among
  is_among_cons x y ys h = ground arith

  pub is_among_head : (x : Ident) (ys : List Ident) → is_among x (x ∷ ys) ≡ true
  unfolding is_among
  is_among_head x ys = ground arith

  pub is_among_cases :
      (x y : Ident) (ys : List Ident)
      → is_among x (y ∷ ys) ≡ true
      → (y ≡ x) ⊎ (is_among x ys ≡ true)
  unfolding is_among
  is_among_cases x y ys h = ground arith

  pub is_among_other :
      (x y : Ident) (ys : List Ident) → y ≢ x → is_among x ys ≡ false → is_among x (y ∷ ys) ≡ false
  unfolding is_among
  is_among_other x y ys n h = ground arith

  abbrev pub ends_of : List (Trail Ident) → List Ident
  ends_of = map (λ (t : Trail Ident). t.current)

  module _ (g : Graph Ident) (source target : Ident) where
    -- A trail of `d` edges, which no walk from the source to its end undercuts.
    pub record AtDepth (d : ℕ) (t : Trail Ident) : Type 0 where
      pub trail : IsTrail g source t
      pub depth : length t.path_edges ≡ d
      pub least : (n : ℕ) → Walk g source n t.current → d ≤ n

    -- `pending` are the edges of the current node that are still to be looked at.
    pub record Level (k : ℕ) (pending : List (GraphEdge Ident)) (now next : List (Trail Ident))
        (visited : List Ident) : Type 0 where
      pub near : (n : ℕ) (v : Ident) → n ≤ k → Walk g source n v → is_among v visited ≡ true
      pub first : All (AtDepth k) now
      pub second : All (AtDepth (suc k)) next
      pub closed :
          (x : Ident) (e : GraphEdge Ident)
          → is_among x visited ≡ true
          → Memᴰ e (out_edges g x)
          → (is_among e.target_id visited ≡ true)
            ⊎ (Memᴰ x (ends_of now) ⊎ (Memᴰ x (ends_of next) ⊎ Memᴰ e pending))
      pub unseen : is_among target visited ≡ false

    -- The best path: it leads to the target, and no walk is shorter.
    pub record IsShortest (p : GraphPath Ident) : Type 0 where
      pub spelled : p.nodes ≡ source ∷ map (λ (e : GraphEdge Ident). e.target_id) p.edges
      pub chained : Chain g source p.edges target
      pub weighed : p.total_weight ≡ sum_by (λ (e : GraphEdge Ident). e.weight) p.edges
      pub least : (n : ℕ) → Walk g source n target → length p.edges ≤ n

    All-AtDepth-least :
        (d : ℕ) (ts : List (Trail Ident)) (x : Ident) (n : ℕ)
        → All (AtDepth d) ts
        → Memᴰ x (ends_of ts)
        → Walk g source n x
        → d ≤ n
    All-AtDepth-least d [] x n h m w = absurd (Memᴰ.not-nil m)
    All-AtDepth-least d (t ∷ ts) x n h m w = elim (Memᴰ.cases_cons m) [
      | inl e ↦ h.0.least n (subst (Walk g source n) e w)
      | inr later ↦ All-AtDepth-least d ts x n h.1 later w
    ]

    module _ (k : ℕ) (next : List (Trail Ident)) (visited : List Ident)
        (h : Level k [] [] next visited) where
      -- an edge from a visited node leads to a visited node, or starts in the next level
      left_by :
          (x : Ident) (e : GraphEdge Ident)
          → is_among x visited ≡ true
          → Memᴰ e (out_edges g x)
          → (is_among e.target_id visited ≡ true) ⊎ Memᴰ x (ends_of next)
      left_by x e seen m = elim (h.closed x e seen m) [
        | inl done ↦ inl done
        | inr (inl none_now) ↦ absurd (Memᴰ.not-nil none_now)
        | inr (inr (inl waits)) ↦ inr waits
        | inr (inr (inr none_left)) ↦ absurd (Memᴰ.not-nil none_left)
      ]

      near_step : (v : Ident) → Walk g source (suc k) v → is_among v visited ≡ true
      near_step v (u, e, (w, m, ends)) = elim (left_by u e (h.near k u (omega arith) w) m) [
        | inl done ↦ subst (λ x. is_among x visited ≡ true) ends done
        | inr waits ↦ absurd (omega (arith, All-AtDepth-least (suc k) next u k h.second waits w))
      ]

      near_next : (n : ℕ) (v : Ident) → n ≤ suc k → Walk g source n v → is_among v visited ≡ true
      near_next n v n_le w = elim (dec_le n k) [
        | yes old ↦ h.near n v old w
        | no top ↦
            let level : n ≡ suc k = omega arith in
            near_step v (subst (λ m. Walk g source m v) level w)
      ]

      -- the trails of one level are used up, and those of the next one come to the head
      pub raise_Level : Level (suc k) [] next [] visited
      raise_Level = record {
        near = near_next;
        first = h.second;
        second = tt;
        closed = λ x e seen m. elim (left_by x e seen m) [
          | inl done ↦ inl done
          | inr waits ↦ inr (inl waits)
        ];
        unseen = h.unseen;
      }

    -- With no trail left, all that a walk reaches is visited.
    pub Level-empty :
        (k : ℕ) (visited : List Ident)
        → Level k [] [] [] visited
        → (n : ℕ) (v : Ident) → Walk g source n v
        → is_among v visited ≡ true
    Level-empty k visited h zero v w = h.near zero v (omega arith) w
    Level-empty k visited h (suc n) v (u, e, (w, m, ends)) =
        elim (left_by k [] visited h u e (Level-empty k visited h n u w) m) [
          | inl done ↦ subst (λ x. is_among x visited ≡ true) ends done
          | inr waits ↦ absurd (Memᴰ.not-nil waits)
        ]

    -- The head of the queue is taken off, and its edges are to be looked at.
    pub pop_Level :
        (k : ℕ) (t : Trail Ident) (now next : List (Trail Ident)) (visited : List Ident)
        → Level k [] (t ∷ now) next visited
        → Level k (out_edges g t.current) now next visited
    pop_Level k t now next visited h = record {
      near = h.near;
      first = h.first.1;
      second = h.second;
      closed = λ x e seen m. elim (h.closed x e seen m) [
        | inl done ↦ inl done
        | inr (inl waits) ↦ elim (Memᴰ.cases_cons waits) [
          | inl same ↦ inr (inr (inr (subst (λ y. Memᴰ e (out_edges g y)) same m)))
          | inr later ↦ inr (inl later)
        ]
        | inr (inr (inl waits)) ↦ inr (inr (inl waits))
        | inr (inr (inr none_left)) ↦ absurd (Memᴰ.not-nil none_left)
      ];
      unseen = h.unseen;
    }

    -- An edge to a visited node adds nothing.
    pub skip_Level :
        (k : ℕ) (e : GraphEdge Ident) (es : List (GraphEdge Ident)) (now next : List (Trail Ident))
        (visited : List Ident)
        → Level k (e ∷ es) now next visited
        → is_among e.target_id visited ≡ true
        → Level k es now next visited
    skip_Level k e es now next visited h old = record {
      near = h.near;
      first = h.first;
      second = h.second;
      closed = λ x d seen m. elim (h.closed x d seen m) [
        | inl done ↦ inl done
        | inr (inl waits) ↦ inr (inl waits)
        | inr (inr (inl waits)) ↦ inr (inr (inl waits))
        | inr (inr (inr left)) ↦ elim (Memᴰ.cases_cons left) [
          | inl same ↦
              inl (
                subst (λ (c : GraphEdge Ident). is_among c.target_id visited ≡ true) (sym same) old)
          | inr later ↦ inr (inr (inr later))
        ]
      ];
      unseen = h.unseen;
    }

    module _ (k : ℕ) (t : Trail Ident) (e : GraphEdge Ident) (es : List (GraphEdge Ident))
        (now next : List (Trail Ident)) (visited : List Ident) (at : AtDepth k t)
        (leaves : Memᴰ e (out_edges g t.current)) (h : Level k (e ∷ es) now next visited)
        (new : is_among e.target_id visited ≡ false) where
      extended-AtDepth : AtDepth (suc k) (extended t e)
      extended-AtDepth = record {
        trail = extended-IsTrail g source t e at.trail leaves;
        depth = omega (arith, length-append {0} t.path_edges (e ∷ []), at.depth);
        least = λ n w. elim (dec_le n k) [
          | yes old ↦ absurd (false≢true (sym new ∙ h.near n e.target_id old w))
          | no top ↦ omega arith
        ];
      }

      queue_end : (x : Ident) → Memᴰ x (ends_of next) → Memᴰ x (ends_of (next ++ extended t e ∷ []))
      queue_end x m =
          subst (Memᴰ x)
            (sym (map-append (λ (u : Trail Ident). u.current) next (extended t e ∷ [])))
            (Memᴰ.append_left (e.target_id ∷ []) m)

      queue_last : (x : Ident) → e.target_id ≡ x → Memᴰ x (ends_of (next ++ extended t e ∷ []))
      queue_last x same =
          subst (Memᴰ x)
            (sym (map-append (λ (u : Trail Ident). u.current) next (extended t e ∷ [])))
            (Memᴰ.append_right (ends_of next) (Memᴰ.head (sym same)))

      push_closed :
          (x : Ident) (d : GraphEdge Ident)
          → is_among x (e.target_id ∷ visited) ≡ true
          → Memᴰ d (out_edges g x)
          → (is_among d.target_id (e.target_id ∷ visited) ≡ true)
            ⊎ (Memᴰ x (ends_of now) ⊎ (Memᴰ x (ends_of (next ++ extended t e ∷ [])) ⊎ Memᴰ d es))
      push_closed x d seen m = elim (is_among_cases x e.target_id visited seen) [
        | inl fresh ↦ inr (inr (inl (queue_last x fresh)))
        | inr old ↦ elim (h.closed x d old m) [
          | inl done ↦ inl (is_among_cons d.target_id e.target_id visited done)
          | inr (inl waits) ↦ inr (inl waits)
          | inr (inr (inl waits)) ↦ inr (inr (inl (queue_end x waits)))
          | inr (inr (inr left)) ↦ elim (Memᴰ.cases_cons left) [
            | inl same ↦ inl (
                subst (λ (c : GraphEdge Ident). is_among c.target_id (e.target_id ∷ visited) ≡ true)
                  (sym same) (is_among_head e.target_id visited))
            | inr later ↦ inr (inr (inr later))
          ]
        ]
      ]

      -- A new node is visited, and its trail is the last of the queue.
      pub push_Level :
          e.target_id ≢ target → Level k es now (next ++ extended t e ∷ []) (e.target_id ∷ visited)
      push_Level other = record {
        near = λ n v le w. is_among_cons v e.target_id visited (h.near n v le w);
        first = h.first;
        second =
            All-append (AtDepth (suc k)) next (extended t e ∷ []) h.second (extended-AtDepth, tt);
        closed = push_closed;
        unseen = is_among_other target e.target_id visited other h.unseen;
      }

      pub length-extended : length (path_of (extended t e)).edges ≡ suc k
      length-extended = extended-AtDepth.depth

      pub found_IsShortest : e.target_id ≡ target → IsShortest (path_of (extended t e))
      found_IsShortest same = record {
        spelled = extended-AtDepth.trail.spelled;
        chained =
            subst (Chain g source (t.path_edges ++ e ∷ [])) same extended-AtDepth.trail.chained;
        weighed = refl;
        least = λ n w.
            subst (λ (d : ℕ). d ≤ n) (sym extended-AtDepth.depth)
              (extended-AtDepth.least n (subst (Walk g source n) (sym same) w));
      }

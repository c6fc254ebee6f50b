-- ===== src/Index/Graph/Search.antt =====
-- The invariant of the breadth-first search (src/index/graph.rs, `bfs`), round by round.
use uldb.Prelude.{
  ℕ, suc, ◌+◌, ◌≡◌, ◌<◌, ◌≤◌, List, [], ◌∷◌, ◌++◌, Option, some, false, arith, refl, ap, sym, ◌∙◌,
  length, get_elem?, All, map, All-append, All_mono, get_elem?-bound, get_elem?-snoc,
  get_elem?-append_left, get_elem?-append_right, ◌⊎◌, inl, inr, eqb_iff, nat_eq,
}
use uldb.Maps.{lookup, insert, contains_key, lookup-insert, lookup-absent}
use uldb.Index.Graph.{Relation, Edge}
use uldb.Index.Graph.Pushes.{EndsBelow}
use uldb.Index.Graph.Walks.{HasEdge, Walk, HasEdge-below, here, step}
use uldb.Index.Graph.Traverse.{Visit, Search}

-- The depths in the queue do not fall, from `lo` on.
abbrev pub Rising : ℕ → List (ℕ × ℕ) → Type 0
Rising lo [] = Unit
Rising lo ((v, k) ∷ queue) = (lo ≤ k) × Rising k queue

Rising-snoc :
    (lo v k : ℕ) (queue : List (ℕ × ℕ))
    → Rising lo queue
    → All (λ p. p.1 ≤ k) queue
    → lo ≤ k
    → Rising lo (queue ++ (v, k) ∷ [])
Rising-snoc lo v k [] h a b = (b, tt)
Rising-snoc lo v k ((w, j) ∷ queue) h a b = (h.0, Rising-snoc j v k queue h.1 a.1 a.0)

Rising-mono : (lo lo' : ℕ) (queue : List (ℕ × ℕ)) → lo' ≤ lo → Rising lo queue → Rising lo' queue
Rising-mono lo lo' [] h r = tt
Rising-mono lo lo' ((v, k) ∷ queue) h r = (omega (arith, r.0), r.1)

abbrev pub entry : Visit → ℕ × ℕ
entry v = (v.node, v.depth)

pub insert-absent :
    (v k : ℕ) (m : List (ℕ × ℕ)) → contains_key v m ≡ false → insert v k m ≡ m ++ (v, k) ∷ []
unfolding insert contains_key
insert-absent v k [] h = refl
insert-absent v k ((w, j) ∷ m) h = ground (arith, insert-absent v k m)

map-snoc : (vs : List Visit) (v : Visit) → map entry (vs ++ v ∷ []) ≡ map entry vs ++ entry v ∷ []
map-snoc [] v = refl
map-snoc (w ∷ vs) v = ap (λ l. entry w ∷ l) (map-snoc vs v)

module _ (adj : List (List Edge)) (f : Option Relation) (max_depth start : ℕ) where
  -- The state where every visited depth is at most `d + 1`. The edges out of the visited nodes are
  -- searched, but for those of the queue, of the depth bound, and of `skip`.
  pub record IsSearch (d : ℕ) (skip : Option ℕ) (s : Search) : Type 0 where
    pub started : lookup start s.visited ≡ some 0
    pub sound :
        (v k : ℕ)
        → lookup v s.visited ≡ some k
        → Walk adj f start v k × (k ≤ max_depth) × (k ≤ d + 1)
    pub queued : All (λ p. (lookup p.0 s.visited ≡ some p.1) × (p.1 ≤ d + 1)) s.queue
    pub rising : Rising d s.queue
    pub closed :
        (v k : ℕ) (e : Edge)
        → lookup v s.visited ≡ some k
        → HasEdge adj f v e
        → ((i : ℕ) × (get_elem? s.queue i ≡ some (v, k)))
          ⊎ ((max_depth ≤ k)
              ⊎ ((skip ≡ some v) ⊎ ((j : ℕ) × (lookup e.dst s.visited ≡ some j) × (j ≤ k + 1))))
    pub recorded : map entry s.results ≡ s.visited
    pub once :
        (i j v k l : ℕ)
        → get_elem? s.visited i ≡ some (v, k)
        → get_elem? s.visited j ≡ some (v, l)
        → i ≡ j
    pub held : (i v k : ℕ) → get_elem? s.visited i ≡ some (v, k) → lookup v s.visited ≡ some k

  -- An edge out of the node `u` at depth `d`.
  module _ (d u : ℕ) (e : Edge) (in_reach : d < max_depth) (edge : HasEdge adj f u e) where
    abbrev pub found : Search → Search
    found s = record {
      visited = insert e.dst (d + 1) s.visited;
      queue = s.queue ++ (e.dst, d + 1) ∷ [];
      results =
          s.results ++ record { node = e.dst; depth = d + 1; relation = some e.relation } ∷ [];
    }

    looked :
        (s : Search) (v k : ℕ)
        → lookup v (found s).visited ≡ some k
        → ((v ≡ e.dst) × (k ≡ d + 1)) ⊎ (lookup v s.visited ≡ some k)
    looked s v k h = ground (arith, lookup-insert e.dst v (d + 1) s.visited, eqb_iff e.dst v)

    pub kept :
        (s : Search)
        → contains_key e.dst s.visited ≡ false
        → (v k : ℕ) → lookup v s.visited ≡ some k
        → lookup v (found s).visited ≡ some k
    kept s absent v k h = ground (
      arith,
      lookup-insert e.dst v (d + 1) s.visited,
      eqb_iff e.dst v,
      lookup-absent e.dst s.visited absent,
    )

    -- The new node as an entry of the visited ones.
    at_found :
        (s : Search) (i v k : ℕ)
        → contains_key e.dst s.visited ≡ false
        → get_elem? (found s).visited i ≡ some (v, k)
        → (get_elem? s.visited i ≡ some (v, k))
          ⊎ ((i ≡ length s.visited) × (v ≡ e.dst) × (k ≡ d + 1))
    at_found s i v k absent h = ground (
      arith,
      h,
      insert-absent e.dst (d + 1) s.visited absent,
      get_elem?-snoc s.visited (e.dst, d + 1) i,
    )

    pub found-IsSearch :
        (skip : Option ℕ) (s : Search)
        → contains_key e.dst s.visited ≡ false
        → lookup u s.visited ≡ some d
        → IsSearch d skip s
        → IsSearch d skip (found s)
    found-IsSearch skip s absent at_u i =
        let no = lookup-absent e.dst s.visited absent in
        let here_now : lookup e.dst (found s).visited ≡ some (d + 1) =
          ground (arith, lookup-insert e.dst e.dst (d + 1) s.visited) in
        let one : suc d ≡ d + 1 = omega arith in
        let walk : Walk adj f start e.dst (d + 1) = rw⁻¹ one (step e (i.sound u d at_u).0 edge) in
        record {
          started = kept s absent start 0 i.started;
          sound = λ v k h. elim (looked s v k h) [
            | inl p ↦ rw (p.0, p.1) (walk, omega arith, omega arith)
            | inr p ↦ i.sound v k p
          ];
          queued =
              All-append _ s.queue ((e.dst, d + 1) ∷ [])
                (All_mono _ _ (λ p h. (kept s absent p.0 p.1 h.0, h.1)) s.queue i.queued)
                ((here_now, omega arith), tt);
          rising =
              Rising-snoc d e.dst (d + 1) s.queue i.rising
                (All_mono _ _ (λ p h. h.1) s.queue i.queued) (omega arith);
          closed = λ v k x h out. elim (looked s v k h) [
            | inl p ↦ inl (
              length s.queue,
              get_elem?-append_right s.queue ((e.dst, d + 1) ∷ []) (length s.queue) 0 (omega arith)
                  ∙ rw (p.0, p.1) refl,
            )
            | inr p ↦ elim (i.closed v k x p out) [
              | inl (j, q) ↦ inl (
                j,
                get_elem?-append_left s.queue ((e.dst, d + 1) ∷ []) j
                      (get_elem?-bound s.queue j (v, k) q)
                    ∙ q,
              )
              | inr (inl q) ↦ inr (inl q)
              | inr (inr (inl q)) ↦ inr (inr (inl q))
              | inr (inr (inr (j, q, r))) ↦ inr (inr (inr (j, kept s absent x.dst j q, r)))
            ]
          ];
          recorded =
              map-snoc s.results _
              ∙ ap (λ l. l ++ (e.dst, d + 1) ∷ []) i.recorded
              ∙ sym (insert-absent e.dst (d + 1) s.visited absent);
          once = λ a b v k l h h'. ground (
            arith,
            at_found s a v k absent h,
            at_found s b v l absent h',
            i.once a b v k l,
            i.held a v k,
            i.held b v l,
            no,
          );
          held = λ a v k h. elim (at_found s a v k absent h) [
            | inl p ↦ kept s absent v k (i.held a v k p)
            | inr p ↦ rw (p.1, p.2) here_now
          ];
        }

  pub below-Walk : (n : ℕ) → EndsBelow n adj → start < n → (v k : ℕ) → Walk adj f start v k → v < n
  below-Walk n b lt v k here = lt
  below-Walk n b lt v k (step e w out) = HasEdge-below adj f n _ e b out

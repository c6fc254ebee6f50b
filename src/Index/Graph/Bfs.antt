-- ===== src/Index/Graph/Bfs.antt =====
-- The breadth-first search of src/index/graph.rs: it ends, and its depths are shortest distances.
use uldb.Prelude.{
  ℕ, zero, suc, ◌≡◌, ◌<◌, List, [], ◌∷◌, Option, some, none, arith, refl, sym, ◌∙◌, length,
  get_elem?, inl, inr, eqb_iff, ==_refl, nat_eq, List-cases,
}
use uldb.Maps.{lookup, insert, contains_key}
use uldb.Index.Graph.{Relation, Edge, Csr, rows_of}
use uldb.Index.Graph.Pushes.{EndsBelow}
use uldb.Index.Graph.Walks.{here}
use uldb.Index.Graph.Traverse.{Search, expand, bfs_loop, start_at}
use uldb.Index.Graph.Search.{IsSearch}
use uldb.Index.Graph.Rounds.{rounds, unvisited_all, unvisited-insert, expand-Round}

only : (x : ℕ × ℕ) (i : ℕ) (y : ℕ × ℕ) → get_elem? (x ∷ []) i ≡ some y → (i ≡ 0) × (y ≡ x)
only x zero y h = (refl, ground (arith, h))
only x (suc i) y h = cc

bfs_loop_step :
    (csr : Csr) (f : Option Relation) (max_depth fuel u k : ℕ) (rest : List (ℕ × ℕ)) (s s₁ : Search)
    → s.queue ≡ (u, k) ∷ rest
    → expand csr f max_depth u k (record s { queue = rest }) ≡ some s₁
    → bfs_loop csr f max_depth (suc fuel) s ≡ bfs_loop csr f max_depth fuel s₁
unfolding bfs_loop
bfs_loop_step csr f max_depth fuel u k rest s s₁ e run = rw (e, run, bfs_loop) refl

module _ (adj : List (List Edge)) (f : Option Relation) (max_depth start : ℕ)
    (below : EndsBelow (length adj) adj) (lt : start < length adj) where
  first : (v k : ℕ) → lookup v (start_at start).visited ≡ some k → (v ≡ start) × (k ≡ 0)
  unfolding start_at insert lookup
  first v k h = ground (arith, h, eqb_iff start v)

  pub start_at-IsSearch : IsSearch adj f max_depth start 0 none (start_at start)
  unfolding start_at insert lookup
  start_at-IsSearch = record {
    started = ground (arith, ==_refl start);
    sound = λ v k h. let p = first v k h in rw (p.0, p.1) (here, omega arith, omega arith);
    queued = ((ground (arith, ==_refl start), omega arith), tt);
    rising = (omega arith, tt);
    closed = λ v k e h out. let p = first v k h in inl (0, rw (p.0, p.1) refl);
    recorded = refl;
    once = λ i j v k l h h'. (only (start, 0) i (v, k) h).0 ∙ sym (only (start, 0) j (v, l) h').0;
    held = λ i v k h. ground (arith, only (start, 0) i (v, k) h, ==_refl start);
  }

  pub bfs_loop-IsSearch :
      (fuel d : ℕ) (s : Search)
      → rounds (length adj) s < fuel
      → IsSearch adj f max_depth start d none s
      → (s' : Search) × (b : ℕ) × (bfs_loop (rows_of adj) f max_depth fuel s ≡ some s')
        × (s'.queue ≡ [])
        × IsSearch adj f max_depth start b none s'
  unfolding bfs_loop
  bfs_loop-IsSearch zero d s h i = absurd (omega arith)
  bfs_loop-IsSearch (suc fuel) d s h i = elim (List-cases s.queue) [
    | inl e ↦ (s, d, rw e refl, e, i)
    | inr ((u, k), rest, e) ↦
        let (s₁, run, r) = expand-Round adj f max_depth start below d u k rest s lt e i in
        let (s', b, out, done, j) = bfs_loop-IsSearch fuel k s₁ (omega (arith, r.fewer)) r.search in
        (s', b, bfs_loop_step (rows_of adj) f max_depth fuel u k rest s s₁ e run ∙ out, done, j)
  ]

pub rounds_start : (n start : ℕ) → start < n → rounds n (start_at start) ≡ n
unfolding start_at contains_key
rounds_start n start h = omega (arith, unvisited-insert n start 0 [] h refl, unvisited_all n)

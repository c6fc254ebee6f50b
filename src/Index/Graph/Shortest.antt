-- ===== src/Index/Graph/Shortest.antt =====
-- What `bfs` reports (src/index/graph.rs): the nodes in reach, each at its shortest distance.
use uldb.Prelude.{
  ℕ, suc, ◌≡◌, ◌<◌, ◌≤◌, List, [], Option, some, none, Bool, arith, refl, subst, ◌∙◌, length,
  get_elem?, All, All-positions, inl, inr, nat_eq, Option-cases,
}
use uldb.Bytes.{Bytes, bytes_eq}
use uldb.Maps.{lookup}
use uldb.Index.Graph.{Relation, RelationGraph, rows, rows_of, ensure_built}
use uldb.Index.Graph.Invariant.{IsValid, ensure_built_lem, index-lt}
use uldb.Index.Graph.Pushes.{EndsBelow}
use uldb.Index.Graph.Neighbours.Answers.{adjacency}
use uldb.Index.Graph.Neighbours.Answers.{adjacency-rows, rows-adjacency}
use uldb.Index.Graph.Walks.{Walk, here, step}
use uldb.Index.Graph.Traverse.{Visit, Search, TraversalResult, bfs_loop, start_at, name_visits, bfs}
use uldb.Index.Graph.Search.{IsSearch, entry, below-Walk}
use uldb.Index.Graph.Reports.{
  name_visits_total, visit_of, report_of, lookup-position, entry-at, visit-at, le-cases,
}
use uldb.Index.Graph.Bfs.{bfs_loop-IsSearch, start_at-IsSearch, rounds_start}

bfs_ran :
    (start : Bytes) (backward : Bool) (max_depth : ℕ) (f : Option Relation) (g : RelationGraph)
    (s : ℕ) (last : Search)
    → lookup start (ensure_built g).key_to_idx ≡ some s
    → bfs_loop
        (rows backward (ensure_built g))
        f
        max_depth
        (suc (length (ensure_built g).idx_to_key))
        (start_at s)
      ≡ some last
    → bfs start backward max_depth f g ≡ name_visits (ensure_built g).idx_to_key last.results
unfolding bfs
bfs_ran start backward max_depth f g s last found out = rw (found, bfs) (rw (out) refl)

-- A search from a node of a well-formed graph.
module _ (g : RelationGraph) (v : IsValid g) (start : Bytes) (backward : Bool) (max_depth : ℕ)
    (f : Option Relation) (s : ℕ) (hs : lookup start g.key_to_idx ≡ some s) where
  pub record Run (rs : List TraversalResult) : Type 0 where
    pub last : Search
    pub bound : ℕ
    pub search : IsSearch (adjacency backward g) f max_depth s bound none last
    pub drained : last.queue ≡ []
    pub named : name_visits g.idx_to_key last.results ≡ some rs

  bfs-named :
      (last : Search) (rs : List TraversalResult)
      → bfs_loop
          (rows_of (adjacency backward g))
          f
          max_depth
          (suc (length g.idx_to_key))
          (start_at s)
        ≡ some last
      → name_visits g.idx_to_key last.results ≡ some rs
      → bfs start backward max_depth f g ≡ some rs
  unfolding bfs
  bfs-named last rs out named =
      let same = ensure_built_lem g v in
      let here_out : bfs_loop (rows backward (ensure_built g)) f max_depth
            (suc (length (ensure_built g).idx_to_key)) (start_at s)
          ≡ some last =
        rw (rows-adjacency backward g v, same.3) out in
      let here_named : name_visits (ensure_built g).idx_to_key last.results ≡ some rs =
        rw same.3 named in
      let found : lookup start (ensure_built g).key_to_idx ≡ some s = rw same.2 hs in
      bfs_ran start backward max_depth f g s last found here_out ∙ here_named

  visit_held :
      (b : ℕ) (last : Search)
      → IsSearch (adjacency backward g) f max_depth s b none last
      → (i : ℕ) (n : Visit) → get_elem? last.results i ≡ some n
      → lookup n.node last.visited ≡ some n.depth
  visit_held b last search i n at =
      search.held i n.node n.depth
        (subst (λ m. get_elem? m i ≡ some (entry n)) search.recorded (entry-at last.results i n at))

  run : (rs : List TraversalResult) × (bfs start backward max_depth f g ≡ some rs) × Run rs
  run =
      let adj = adjacency backward g in
      let sides = adjacency-rows backward g v in
      let below : EndsBelow (length adj) adj = rw sides.0 sides.1 in
      let s_lt : s < length adj = omega (arith, index-lt start g s v hs, sides.0) in
      let (last, bound, out, drained, search) =
        bfs_loop-IsSearch adj f max_depth s below s_lt (suc (length g.idx_to_key)) 0 (start_at s)
          (omega (arith, rounds_start (length adj) s s_lt, sides.0))
          (start_at-IsSearch adj f max_depth s below s_lt) in
      let in_range : All (λ n. n.node < length g.idx_to_key) last.results =
        All-positions last.results (λ i n at.
          let walk = (search.sound n.node n.depth (visit_held bound last search i n at)).0 in
          omega (
            arith,
            below-Walk adj f max_depth s (length adj) below s_lt n.node n.depth walk,
            sides.0,
          )) in
      let (rs, named) = name_visits_total g.idx_to_key last.results in_range in
      (
        rs,
        bfs-named last rs out named,
        record { last = last; bound = bound; search = search; drained = drained; named = named },
      )

  Run-of : (rs : List TraversalResult) → bfs start backward max_depth f g ≡ some rs → Run rs
  Run-of rs h =
      let (rs', out, r) = run in let same : rs' ≡ rs = ground (arith, out, h) in subst Run same r

  -- A node that is reported, with what the search knows of it.
  known :
      (rs : List TraversalResult) (r : Run rs) (i : ℕ) (x : TraversalResult)
      → get_elem? rs i ≡ some x
      → (n : ℕ) × (get_elem? g.idx_to_key n ≡ some x.key) × (lookup n r.last.visited ≡ some x.depth)
  known rs r i x at =
      let (n, at_n, key, depth) = visit_of g.idx_to_key r.last.results rs i x r.named at in
      (n.node, key, rw depth (visit_held r.bound r.last r.search i n at_n))

  reached :
      (rs : List TraversalResult) (r : Run rs) (n k : ℕ)
      → Walk (adjacency backward g) f s n k
      → k ≤ max_depth
      → (d : ℕ) × (lookup n r.last.visited ≡ some d) × (d ≤ k)
  reached rs r n k here h = (0, r.search.started, omega arith)
  reached rs r n k (step {u = u} {k = j} e w out) h =
      let (d, at_u, le) = reached rs r u j w (omega arith) in
      elim (r.search.closed u d e at_u out) [
        | inl (i, p) ↦ absurd (ground (arith, p, r.drained))
        | inr (inl deep) ↦ absurd (omega arith)
        | inr (inr (inl skipped)) ↦ cc
        | inr (inr (inr (l, at_e, m))) ↦ (l, at_e, omega arith)
      ]

  -- Every reported node is at the end of a walk from the start of as many edges as the depth says,
  -- which pass the filter, and the depth is within the bound.
  pub bfs_sound :
      (rs : List TraversalResult) (i : ℕ) (x : TraversalResult)
      → bfs start backward max_depth f g ≡ some rs
      → get_elem? rs i ≡ some x
      → (n : ℕ) × (lookup x.key g.key_to_idx ≡ some n)
        × Walk (adjacency backward g) f s n x.depth
        × (x.depth ≤ max_depth)
  bfs_sound rs i x h at =
      let r = Run-of rs h in
      let (n, key, depth) = known rs r i x at in
      let known_n = r.search.sound n x.depth depth in (n, v.keyed x.key n key, known_n.0, known_n.1)

  -- Every node at the end of a walk of at most `max_depth` edges that pass the filter is reported.
  pub bfs_complete :
      (rs : List TraversalResult) (n k : ℕ)
      → bfs start backward max_depth f g ≡ some rs
      → Walk (adjacency backward g) f s n k
      → k ≤ max_depth
      → (i : ℕ) × (x : TraversalResult) × (get_elem? rs i ≡ some x)
        × (lookup x.key g.key_to_idx ≡ some n)
        × (x.depth ≤ k)
  bfs_complete rs n k h w le =
      let r = Run-of rs h in
      let (d, at_n, less) = reached rs r n k w le in
      let (i, at_i) = lookup-position n d r.last.visited at_n in
      let (m, at_m, node, depth) = visit-at r.last.results i n d (rw r.search.recorded at_i) in
      let (x, at_x, key, same) = report_of g.idx_to_key r.last.results rs i m r.named at_m in
      (
        i,
        x,
        at_x,
        v.keyed x.key n (subst (λ j. get_elem? g.idx_to_key j ≡ some x.key) node key),
        omega (arith, same, depth, less),
      )

  -- No walk to a reported node that passes the filter is shorter than the reported depth.
  pub bfs-shortest :
      (rs : List TraversalResult) (i : ℕ) (x : TraversalResult) (n k : ℕ)
      → bfs start backward max_depth f g ≡ some rs
      → get_elem? rs i ≡ some x
      → lookup x.key g.key_to_idx ≡ some n
      → Walk (adjacency backward g) f s n k
      → x.depth ≤ k
  bfs-shortest rs i x n k h at key w =
      let r = Run-of rs h in
      let (m, key_m, depth) = known rs r i x at in
      let same : m ≡ n = ground (arith, v.keyed x.key m key_m, key) in
      let at_n = subst (λ j. lookup j r.last.visited ≡ some x.depth) same depth in
      elim (le-cases k max_depth) [
        | inl le ↦
            let (d, at_d, less) = reached rs r n k w le in
            let eq : d ≡ x.depth = ground (arith, at_d, at_n) in omega arith
        | inr gt ↦ omega (arith, (r.search.sound n x.depth at_n).1)
      ]

  -- No node is reported twice.
  pub bfs-once :
      (rs : List TraversalResult) (i j : ℕ) (x y : TraversalResult)
      → bfs start backward max_depth f g ≡ some rs
      → get_elem? rs i ≡ some x
      → get_elem? rs j ≡ some y
      → x.key ≡ y.key
      → i ≡ j
  bfs-once rs i j x y h at_i at_j same =
      let r = Run-of rs h in
      let (n, at_n, key, _) = visit_of g.idx_to_key r.last.results rs i x r.named at_i in
      let (m, at_m, key', _) = visit_of g.idx_to_key r.last.results rs j y r.named at_j in
      let nodes : n.node ≡ m.node =
        ground (arith, v.keyed x.key n.node key, v.keyed y.key m.node key', same) in
      r.search.once i j m.node n.depth m.depth
        (subst (λ u. get_elem? r.last.visited i ≡ some (u, n.depth)) nodes
          (subst (λ l. get_elem? l i ≡ some (entry n)) r.search.recorded
            (entry-at r.last.results i n at_n)))
        (subst (λ l. get_elem? l j ≡ some (entry m)) r.search.recorded
          (entry-at r.last.results j m at_m))

bfs-unknown :
    (start : Bytes) (backward : Bool) (max_depth : ℕ) (f : Option Relation) (g : RelationGraph)
    → lookup start (ensure_built g).key_to_idx ≡ none
    → bfs start backward max_depth f g ≡ some []
unfolding bfs
bfs-unknown start backward max_depth f g h = rw (h, bfs) refl

-- On a well-formed graph the search ends, within the fuel, and reads no array out of its bounds.
pub bfs_total :
    (start : Bytes) (backward : Bool) (max_depth : ℕ) (f : Option Relation) (g : RelationGraph)
    → IsValid g
    → (rs : List TraversalResult) × (bfs start backward max_depth f g ≡ some rs)
bfs_total start backward max_depth f g v = elim (Option-cases (lookup start g.key_to_idx)) [
  | inl h ↦ ([], bfs-unknown start backward max_depth f g (rw ((ensure_built_lem g v).2) h))
  | inr (s, h) ↦ let out = run g v start backward max_depth f s h in (out.0, out.1)
]

-- ===== src/Index/Graph/Descents.antt =====
-- The depth-first search of src/index/graph.rs: it ends, and reports nodes in reach.
use uldb.Prelude.{
  ℕ, zero, suc, ◌+◌, ◌≡◌, ◌<◌, ◌≤◌, List, [], ◌∷◌, ◌++◌, Option, some, none, Bool, true, false,
  arith, refl, ap, subst, ◌∙◌, length, length-append, get_elem?, get_elem?-lt, All, All-append,
  All_mono, All-get_elem?, All-positions, List-cases, Bool-cases, if_elim, inl, inr, if◌then◌else◌,
  eqb, eqb_iff, leb, nat_eq,
}
use uldb.Bytes.{Bytes, bytes_eq}
use uldb.Maps.{lookup, insert, contains_key}
use uldb.Index.Graph.{
  Relation, Edge, RelationGraph, keep, rows, rows_of, row, ensure_built, all_edges,
}
use uldb.Index.Graph.Invariant.{IsValid, ensure_built_lem, index-lt}
use uldb.Index.Graph.Pushes.{EndsBelow}
use uldb.Index.Graph.Neighbours.Answers.{adjacency}
use uldb.Index.Graph.Neighbours.Answers.{adjacency-rows, rows-adjacency}
use uldb.Index.Graph.Rows.{row-rows_of}
use uldb.Index.Graph.Walks.{HasEdge, Walk, here, step}
use uldb.Index.Graph.Search.{below-Walk}
use uldb.Index.Graph.Traverse.{
  Descent, push_all, descend, dfs_loop, dfs, TraversalResult, name_visits,
}
use uldb.Index.Graph.Reports.{name_visits_total, visit_of}

-- The edges out of the nodes that are not seen, for the rows from the node `i` on.
unfoldable unseen : ℕ → List (List Edge) → List (ℕ × Bool) → ℕ
unseen i [] seen = 0
unseen i (row ∷ adj) seen =
    (if contains_key i seen then 0 else length row) + unseen (i + 1) adj seen

unseen_all : (i : ℕ) (adj : List (List Edge)) → unseen i adj [] ≡ length (all_edges adj)
unfolding unseen all_edges contains_key
unseen_all i [] = refl
unseen_all i (row ∷ adj) = omega (arith, unseen_all (i + 1) adj, length-append row (all_edges adj))

contains-insert :
    (v w : ℕ) (m : List (ℕ × Bool))
    → contains_key w (insert v true m) ≡ (if eqb v w then true else contains_key w m)
unfolding insert contains_key
contains-insert v w [] = ground arith
contains-insert v w ((i, j) ∷ m) =
    ground (arith, contains-insert v w m, eqb_iff v w, eqb_iff i v, eqb_iff i w)

unseen-before :
    (i u : ℕ) (adj : List (List Edge)) (seen : List (ℕ × Bool))
    → u < i
    → unseen i adj (insert u true seen) ≡ unseen i adj seen
unfolding unseen
unseen-before i u [] seen h = refl
unseen-before i u (row ∷ adj) seen h =
    let rest = unseen-before (i + 1) u adj seen (omega arith) in
    ground (arith, contains-insert u i seen, rest)

unseen-insert :
    (i u k : ℕ) (adj : List (List Edge)) (seen : List (ℕ × Bool)) (es : List Edge)
    → u ≡ i + k
    → get_elem? adj k ≡ some es
    → contains_key u seen ≡ false
    → unseen i adj (insert u true seen) + length es ≡ unseen i adj seen
unfolding unseen
unseen-insert i u k [] seen es h at new = cc
unseen-insert i u zero (row ∷ adj) seen es h at new =
    let same : row ≡ es = ground (arith, at) in
    let here_now : u ≡ i = omega (arith, h) in
    let count : length row ≡ length es = ap length same in
    ground (arith, here_now, count, new, contains-insert u i seen, unseen-before (i + 1) u adj seen)
unseen-insert i u (suc k) (row ∷ adj) seen es h at new =
    let rest = unseen-insert (i + 1) u k adj seen es (omega (arith, h)) at new in
    ground (arith, h, rest, contains-insert u i seen)

length-keep_le : (f : Option Relation) (es : List Edge) → length (keep f es) ≤ length es
unfolding keep
length-keep_le f [] = omega arith
length-keep_le f (e ∷ es) = ground (arith, length-keep_le f es)

module _ (adj : List (List Edge)) (f : Option Relation) (max_depth start : ℕ) where
  -- What is on the stack and in the results is in reach.
  pub record IsDescent (s : Descent) : Type 0 where
    pub waiting : All (λ p. Walk adj f start p.0 p.1 × (p.1 ≤ max_depth)) s.stack
    pub visited : All (λ v. Walk adj f start v.node v.depth × (v.depth ≤ max_depth)) s.results

  -- Pushing the edges out of `u` at depth `d`.
  push_all-IsDescent :
      (d u : ℕ) (es : List Edge) (s : Descent)
      → d < max_depth
      → Walk adj f start u d
      → All (HasEdge adj f u) es
      → IsDescent s
      → IsDescent (push_all (d + 1) es s)
        × (length (push_all (d + 1) es s).stack ≤ length es + length s.stack)
        × ((push_all (d + 1) es s).seen ≡ s.seen)
  unfolding push_all
  push_all-IsDescent d u [] s lt w edges i = (i, omega arith, refl)
  push_all-IsDescent d u (e ∷ es) s lt w edges i =
      let one : suc d ≡ d + 1 = omega arith in
      let walk : Walk adj f start e.dst (d + 1) = rw⁻¹ one (step e w edges.0) in
      let pushed : Descent = record s { stack = (e.dst, d + 1) ∷ s.stack } in
      let same = push_all-IsDescent d u es s lt w edges.1 i in
      let more =
        push_all-IsDescent d u es pushed lt w edges.1
          (record { waiting = ((walk, omega arith), i.waiting); visited = i.visited }) in
      if_elim
        (λ s'.
          IsDescent (push_all (d + 1) es s')
          × (length (push_all (d + 1) es s').stack ≤ suc (length es) + length s.stack)
          × ((push_all (d + 1) es s').seen ≡ s.seen))
        (contains_key e.dst s.seen) s pushed (λ held. (same.0, omega (arith, same.1), same.2))
        (λ new. (more.0, omega (arith, more.1), more.2))

-- The rounds that the search has left at most.
abbrev left : List (List Edge) → Descent → ℕ
left adj s = length s.stack + unseen 0 adj s.seen

out_of :
    (adj : List (List Edge)) (f : Option Relation) (u : ℕ) (es : List Edge)
    → get_elem? adj u ≡ some es
    → All (HasEdge adj f u) (keep f es)
out_of adj f u es h =
    All-positions (keep f es) (λ i e at. record { row = es; at = i; row_of = h; edge_of = at })

module _ (adj : List (List Edge)) (f : Option Relation) (max_depth start : ℕ)
    (below : EndsBelow (length adj) adj) (lt : start < length adj) where
  descend-IsDescent :
      (u k : ℕ) (rest : List (ℕ × ℕ)) (s : Descent)
      → s.stack ≡ (u, k) ∷ rest
      → IsDescent adj f max_depth start s
      → (s' : Descent) × (descend (rows_of adj) f max_depth u k (record s { stack = rest })
          ≡ some s')
        × IsDescent adj f max_depth start s'
        × (left adj s' < left adj s)
  unfolding descend
  descend-IsDescent u k rest s q i =
      let all =
        subst (λ l. All (λ p. Walk adj f start p.0 p.1 × (p.1 ≤ max_depth)) l) q i.waiting in
      let size : length s.stack ≡ suc (length rest) = ap length q in
      let s₀ : Descent = record s { stack = rest } in
      let s₁ : Descent = record s₀ {
        seen = insert u true s.seen;
        results = s.results ++ record { node = u; depth = k; relation = none } ∷ [];
      } in
      let i₁ : IsDescent adj f max_depth start s₁ = record {
        waiting = all.1;
        visited = All-append _ s.results _ i.visited (all.0, tt);
      } in
      let (es, at) =
        get_elem?-lt adj u (below-Walk adj f max_depth start (length adj) below lt u k all.0.0) in
      elim (Bool-cases (contains_key u s.seen)) [
        | inl held ↦
            (s₀, rw held refl, record { waiting = all.1; visited = i.visited }, omega (arith, size))
        | inr new ↦
            let less = unseen-insert 0 u u adj s.seen es (omega arith) at new in
            elim (Bool-cases (leb max_depth k)) [
              | inl deep ↦ (s₁, rw (new, deep) refl, i₁, omega (arith, size, less))
              | inr shallow ↦
                  let next : row u (rows_of adj) ≡ some es = row-rows_of u adj es at in
                  let more =
                    push_all-IsDescent adj f max_depth start k u (keep f es) s₁
                      (ground (arith, shallow)) all.0.0 (out_of adj f u es at) i₁ in
                  let seen_same : unseen 0 adj (push_all (k + 1) (keep f es) s₁).seen
                      ≡ unseen 0 adj s₁.seen =
                    ap (unseen 0 adj) more.2 in
                  (
                    push_all (k + 1) (keep f es) s₁,
                    rw (new, shallow, next) refl,
                    more.0,
                    omega (arith, size, less, more.1, seen_same, length-keep_le f es),
                  )
            ]
      ]

  dfs_loop_step :
      (fuel u k : ℕ) (rest : List (ℕ × ℕ)) (s s₁ : Descent)
      → s.stack ≡ (u, k) ∷ rest
      → descend (rows_of adj) f max_depth u k (record s { stack = rest }) ≡ some s₁
      → dfs_loop (rows_of adj) f max_depth (suc fuel) s ≡ dfs_loop (rows_of adj) f max_depth fuel s₁
  unfolding dfs_loop
  dfs_loop_step fuel u k rest s s₁ e run = rw (e, run, dfs_loop) refl

  dfs_loop-IsDescent :
      (fuel : ℕ) (s : Descent)
      → left adj s < fuel
      → IsDescent adj f max_depth start s
      → (s' : Descent) × (dfs_loop (rows_of adj) f max_depth fuel s ≡ some s')
        × IsDescent adj f max_depth start s'
  unfolding dfs_loop
  dfs_loop-IsDescent zero s h i = absurd (omega arith)
  dfs_loop-IsDescent (suc fuel) s h i = elim (List-cases s.stack) [
    | inl e ↦ (s, rw e refl, i)
    | inr ((u, k), rest, e) ↦
        let (s₁, run, j, less) = descend-IsDescent u k rest s e i in
        let (s', out, j') = dfs_loop-IsDescent fuel s₁ (omega (arith, less)) j in
        (s', dfs_loop_step fuel u k rest s s₁ e run ∙ out, j')
  ]

dfs_ran :
    (key : Bytes) (backward : Bool) (max_depth : ℕ) (f : Option Relation) (g : RelationGraph)
    (s : ℕ) (last : Descent)
    → lookup key (ensure_built g).key_to_idx ≡ some s
    → dfs_loop
        (rows backward (ensure_built g))
        f
        max_depth
        ((ensure_built g).edge_count + 2)
        (record { seen = []; stack = (s, 0) ∷ []; results = [] })
      ≡ some last
    → dfs key backward max_depth f g ≡ name_visits (ensure_built g).idx_to_key last.results
unfolding dfs
dfs_ran key backward max_depth f g s last found out = rw (found, dfs) (rw out refl)

edge_total :
    (backward : Bool) (g : RelationGraph)
    → IsValid g
    → length (all_edges (adjacency backward g)) ≡ g.edge_count
edge_total true g v = v.bwd_count
edge_total false g v = v.fwd_count

-- A reported node, in reach from the node `s`.
abbrev pub InReach : RelationGraph → Bool → Option Relation → ℕ → ℕ → TraversalResult → Type 0
InReach g backward f max_depth s r =
    (n : ℕ) × (lookup r.key g.key_to_idx ≡ some n)
    × Walk (adjacency backward g) f s n r.depth
    × (r.depth ≤ max_depth)

-- From a node of a well-formed graph the depth-first search ends, within its fuel, and every node
-- that it reports is at the end of a walk of as many edges as its depth says, within the bound.
pub dfs_lem :
    (key : Bytes) (backward : Bool) (max_depth : ℕ) (f : Option Relation) (g : RelationGraph)
    (s : ℕ)
    → IsValid g
    → lookup key g.key_to_idx ≡ some s
    → (rs : List TraversalResult) × (dfs key backward max_depth f g ≡ some rs)
      × All (InReach g backward f max_depth s) rs
dfs_lem key backward max_depth f g s v hs =
    let adj = adjacency backward g in
    let sides = adjacency-rows backward g v in
    let same = ensure_built_lem g v in
    let below : EndsBelow (length adj) adj = rw sides.0 sides.1 in
    let s_lt : s < length adj = omega (arith, index-lt key g s v hs, sides.0) in
    let first : Descent = record { seen = []; stack = (s, 0) ∷ []; results = [] } in
    let size : left adj first < g.edge_count + 2 =
      omega (arith, unseen_all 0 adj, edge_total backward g v) in
    let (last, out, i) =
      dfs_loop-IsDescent adj f max_depth s below s_lt (g.edge_count + 2) first size
        (record { waiting = ((here, omega arith), tt); visited = tt }) in
    let in_range : All (λ n. n.node < length g.idx_to_key) last.results =
      All_mono _ _
        (λ n h.
          omega (
            arith,
            below-Walk adj f max_depth s (length adj) below s_lt n.node n.depth h.0,
            sides.0,
          ))
        last.results i.visited in
    let (rs, named) = name_visits_total g.idx_to_key last.results in_range in
    (
      rs,
      dfs_ran key backward max_depth f g s last (rw (same.2) hs)
            (rw (rows-adjacency backward g v, same.4) out)
          ∙ rw (same.3) named,
      All-positions rs (λ p r at.
          let (n, at_n, name, depth) = visit_of g.idx_to_key last.results rs p r named at in
          let reach =
            All-get_elem? (λ w. Walk adj f s w.node w.depth × (w.depth ≤ max_depth)) last.results p
              n i.visited at_n in
          (n.node, v.keyed r.key n.node name, rw depth reach.0, rw depth reach.1)),
    )

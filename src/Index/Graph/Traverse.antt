-- ===== src/Index/Graph/Traverse.antt =====
-- `bfs` and `dfs` (src/index/graph.rs). The keys of the visited nodes are looked up at the end
-- instead of one by one.
use uldb.Prelude.{
  ℕ, zero, suc, ◌+◌, List, [], ◌∷◌, ◌++◌, Option, some, none, Bool, true, if◌then◌else◌, length,
  leb, get_elem?, nat_eq,
}
use uldb.Bytes.{Bytes, bytes_eq}
use uldb.Maps.{lookup, insert, contains_key}
use uldb.Index.Graph.{Relation, Edge, Csr, RelationGraph, ensure_built, row, rows, keep}

pub record Visit : Type 0 where
  pub node : ℕ
  pub depth : ℕ
  pub relation : Option Relation

-- The state of the breadth-first search.
pub record Search : Type 0 where
  pub visited : List (ℕ × ℕ)
  pub queue : List (ℕ × ℕ)
  pub results : List Visit

-- One edge of the inner loop, out of a node above the depth `depth`.
unfoldable pub offer : ℕ → Edge → Search → Search
offer depth e s = if contains_key e.dst s.visited then s else record {
  visited = insert e.dst depth s.visited;
  queue = s.queue ++ (e.dst, depth) ∷ [];
  results = s.results ++ record { node = e.dst; depth = depth; relation = some e.relation } ∷ [];
}

unfoldable pub offer_all : ℕ → List Edge → Search → Search
unfolding offer
offer_all depth [] s = s
offer_all depth (e ∷ es) s = offer_all depth es (offer depth e s)

abbrev expanded : Option Relation → ℕ → Option (List Edge) → Search → Option Search
expanded filter depth none s = none
expanded filter depth (some es) s = some (offer_all depth (keep filter es) s)

-- One node that left the queue.
unfoldable pub expand : Csr → Option Relation → ℕ → ℕ → ℕ → Search → Option Search
unfolding row keep offer_all
expand csr filter max_depth node depth s =
    if leb max_depth depth then some s else expanded filter (depth + 1) (row node csr) s

-- The `while` loop. It also gives `none` where the fuel runs out.
unfoldable pub bfs_loop : Csr → Option Relation → ℕ → ℕ → Search → Option Search
unfolding expand
bfs_loop csr filter max_depth zero s = none
bfs_loop csr filter max_depth (suc fuel) s = elim s.queue [
  | [] ↦ some s
  | (node, depth) ∷ rest ↦
      elim (expand csr filter max_depth node depth (record s { queue = rest })) [
        | none ↦ none
        | some s' ↦ bfs_loop csr filter max_depth fuel s'
      ]
]

unfoldable pub start_at : ℕ → Search
unfolding insert
start_at node = record {
  visited = insert node 0 [];
  queue = (node, 0) ∷ [];
  results = record { node = node; depth = 0; relation = none } ∷ [];
}

pub record TraversalResult : Type 0 where
  pub key : Bytes
  pub depth : ℕ
  pub relation : Option Relation

abbrev named : Option Bytes → Visit → Option (List TraversalResult) → Option (List TraversalResult)
named (some key) v (some later) =
    some (record { key = key; depth = v.depth; relation = v.relation } ∷ later)
named _ v _ = none

unfoldable pub name_visits : List Bytes → List Visit → Option (List TraversalResult)
name_visits keys [] = some []
name_visits keys (v ∷ vs) = named (get_elem? keys v.node) v (name_visits keys vs)

-- A node enters the queue once, so a round for each node and one more are enough.
unfoldable pub bfs :
    Bytes → Bool → ℕ → Option Relation → RelationGraph → Option (List TraversalResult)
unfolding ensure_built bfs_loop start_at name_visits
bfs start backward max_depth filter g =
    let g' = ensure_built g in
    elim (lookup start g'.key_to_idx) [
      | none ↦ some []
      | some idx ↦
          elim (bfs_loop (rows backward g') filter max_depth (suc (length g'.idx_to_key))
            (start_at idx)) [ none ↦ none | some s ↦ name_visits g'.idx_to_key s.results ]
    ]

-- The state of the depth-first search: the stack has its top first.
pub record Descent : Type 0 where
  pub seen : List (ℕ × Bool)
  pub stack : List (ℕ × ℕ)
  pub results : List Visit

unfoldable pub push_all : ℕ → List Edge → Descent → Descent
push_all depth [] s = s
push_all depth (e ∷ es) s =
    push_all depth es
      (if contains_key e.dst s.seen then s else record s { stack = (e.dst, depth) ∷ s.stack })

abbrev descended : Option Relation → ℕ → Option (List Edge) → Descent → Option Descent
descended filter depth none s = none
descended filter depth (some es) s = some (push_all depth (keep filter es) s)

-- One node that left the stack.
unfoldable pub descend : Csr → Option Relation → ℕ → ℕ → ℕ → Descent → Option Descent
unfolding row keep push_all
descend csr filter max_depth node depth s =
    if contains_key node s.seen
    then some s
    else let s' = record s {
      seen = insert node true s.seen;
      results = s.results ++ record { node = node; depth = depth; relation = none } ∷ [];
    } in
      if leb max_depth depth then some s' else descended filter (depth + 1) (row node csr) s'

unfoldable pub dfs_loop : Csr → Option Relation → ℕ → ℕ → Descent → Option Descent
unfolding descend
dfs_loop csr filter max_depth zero s = none
dfs_loop csr filter max_depth (suc fuel) s = elim s.stack [
  | [] ↦ some s
  | (node, depth) ∷ rest ↦
      elim (descend csr filter max_depth node depth (record s { stack = rest })) [
        | none ↦ none
        | some s' ↦ dfs_loop csr filter max_depth fuel s'
      ]
]

-- A node's row is pushed once, so a round for each edge and two more are enough.
unfoldable pub dfs :
    Bytes → Bool → ℕ → Option Relation → RelationGraph → Option (List TraversalResult)
unfolding ensure_built dfs_loop name_visits
dfs start backward max_depth filter g =
    let g' = ensure_built g in
    elim (lookup start g'.key_to_idx) [
      | none ↦ some []
      | some idx ↦
          elim (dfs_loop (rows backward g') filter max_depth (g'.edge_count + 2)
            (record { seen = []; stack = (idx, 0) ∷ []; results = [] })) [
              | none ↦ none
              | some s ↦ name_visits g'.idx_to_key s.results
            ]
    ]

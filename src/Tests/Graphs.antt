-- ===== src/Tests/Graphs.antt =====
-- Relation graphs and their searches at concrete inputs.
use uldb.Prelude.{
  Bool, true, ltb, ℕ, ◌≡◌, ◌≤◌, ◌⊎◌, List, [], ◌∷◌, ◌++◌, some, none, false, refl, subst, arith,
  get_elem?, All,
}
use uldb.Bytes.{Bytes, bytes_eq}
use uldb.Bytes.Utf8
use uldb.Maps.{lookup, insert, contains_key}
use uldb.Index.Graph.{
  Relation, calls, imports, Edge, RelationGraph, no_rows, new, add_edge, add_node, link, push_at,
  neighbours, ensure_built, build, rows_of,
}
use uldb.Index.Graph
use uldb.Index.Graph.Traverse.{TraversalResult, bfs, dfs}
use uldb.Index.Graph.Walks.{Walk, here, step}
use uldb.Index.Graph.Invariant.{IsValid, new-IsValid, add_edge-IsValid}
use uldb.Index.Graph.Neighbours.{neighbours-add_edge, new_edge}
use uldb.Index.Graph.Shortest.{bfs_total, bfs_sound, bfs_complete, bfs-shortest}
use uldb.Index.Graph.Descents.{dfs_lem, InReach}
use uldb.Index.Graph.Format.{serialize, deserialize, loaded, refused, aborted, magic, ReadError}
use uldb.Index.Graph.Format.Loading.{deserialize-serialize_graph, deserialize_graph-IsValid}
use uldb.Tests.Inputs.{key_a, key_b, key_c}

abbrev edge_to : ℕ → Edge
edge_to d = record { dst = d; relation = calls }

-- `a` calls `b`, which calls `c`.
abbrev pair : RelationGraph
pair = record {
  key_to_idx = (key_a, 0) ∷ (key_b, 1) ∷ [];
  idx_to_key = key_a ∷ key_b ∷ [];
  fwd_adj = (edge_to 1 ∷ []) ∷ [] ∷ [];
  bwd_adj = [] ∷ (edge_to 0 ∷ []) ∷ [];
  fwd = no_rows;
  bwd = no_rows;
  built = false;
  edge_count = 1;
}

abbrev pub chain : RelationGraph
chain = record {
  key_to_idx = (key_a, 0) ∷ (key_b, 1) ∷ (key_c, 2) ∷ [];
  idx_to_key = key_a ∷ key_b ∷ key_c ∷ [];
  fwd_adj = (edge_to 1 ∷ []) ∷ (edge_to 2 ∷ []) ∷ [] ∷ [];
  bwd_adj = [] ∷ (edge_to 0 ∷ []) ∷ (edge_to 1 ∷ []) ∷ [];
  fwd = no_rows;
  bwd = no_rows;
  built = false;
  edge_count = 2;
}

add_ab : add_edge key_a key_b calls new ≡ some pair
unfolding add_edge uldb.Maps.lookup insert
add_ab = refl

add_bc : add_edge key_b key_c calls pair ≡ some chain
unfolding add_edge uldb.Maps.lookup insert
add_bc = refl

pair-IsValid : IsValid pair
pair-IsValid =
    let (g, out, v) = add_edge-IsValid key_a key_b calls new new-IsValid in
    let same : g ≡ pair = ground (arith, out, add_ab) in subst IsValid same v

chain-IsValid : IsValid chain
chain-IsValid =
    let (g, out, v) = add_edge-IsValid key_b key_c calls pair pair-IsValid in
    let same : g ≡ chain = ground (arith, out, add_bc) in subst IsValid same v

add_edge-IsValid_example :
    (g : RelationGraph) × (add_edge key_b key_c calls pair ≡ some g) × IsValid g
add_edge-IsValid_example = add_edge-IsValid key_b key_c calls pair pair-IsValid

neighbours-add_edge_example :
    (g : RelationGraph) × (ns : List (Bytes × Relation)) × (add_edge key_a key_c calls chain
      ≡ some g)
    × ((neighbours key_a false (some calls) chain).0 ≡ some ns)
    × ((neighbours key_a false (some calls) g).0
        ≡ some (ns ++ new_edge key_a false key_a key_c calls (some calls)))
neighbours-add_edge_example =
    neighbours-add_edge key_a key_a key_c false (some calls) calls chain chain-IsValid

abbrev reports : List TraversalResult
reports =
    record { key = key_a; depth = 0; relation = none }
    ∷ record { key = key_b; depth = 1; relation = some calls }
    ∷ record { key = key_c; depth = 2; relation = some calls }
    ∷ []

bfs-chain : bfs key_a false 2 none chain ≡ some reports
unfolding bfs lookup contains_key
bfs-chain = refl

at_a : lookup key_a chain.key_to_idx ≡ some 0
unfolding lookup
at_a = refl

at_c : lookup key_c chain.key_to_idx ≡ some 2
unfolding lookup
at_c = refl

Walk-to_c : Walk chain.fwd_adj none 0 2 2
unfolding uldb.Index.Graph.keep
Walk-to_c =
    step (edge_to 2)
      (step (edge_to 1) here
        (record { row = edge_to 1 ∷ []; at = 0; row_of = refl; edge_of = refl }))
      (record { row = edge_to 2 ∷ []; at = 0; row_of = refl; edge_of = refl })

bfs_total_example : (rs : List TraversalResult) × (bfs key_a false 2 none chain ≡ some rs)
bfs_total_example = bfs_total key_a false 2 none chain chain-IsValid

bfs_sound_example :
    (n : ℕ) × (lookup key_c chain.key_to_idx ≡ some n) × Walk chain.fwd_adj none 0 n 2 × (2 ≤ 2)
bfs_sound_example =
    bfs_sound chain chain-IsValid key_a false 2 none 0 at_a reports 2
      (record { key = key_c; depth = 2; relation = some calls }) bfs-chain refl

bfs_complete_example :
    (i : ℕ) × (x : TraversalResult) × (get_elem? reports i ≡ some x)
    × (lookup x.key chain.key_to_idx ≡ some 2)
    × (x.depth ≤ 2)
bfs_complete_example =
    bfs_complete chain chain-IsValid key_a false 2 none 0 at_a reports 2 2 bfs-chain Walk-to_c
      (omega arith)

bfs-shortest_example : 2 ≤ 2
bfs-shortest_example =
    bfs-shortest chain chain-IsValid key_a false 2 none 0 at_a reports 2
      (record { key = key_c; depth = 2; relation = some calls }) 2 2 bfs-chain refl at_c Walk-to_c

dfs_lem_example :
    (rs : List TraversalResult) × (dfs key_a false 1 none chain ≡ some rs)
    × All (InReach chain false none 1 0) rs
dfs_lem_example = dfs_lem key_a false 1 none chain 0 chain-IsValid at_a

-- There is room for every count, or for fewer than two elements.
abbrev much_room : ℕ → Bool
much_room n = true

abbrev little_room : ℕ → Bool
little_room n = ltb n 2

deserialize-serialize_graph_example :
    (g : RelationGraph) × (deserialize much_room (serialize chain) ≡ loaded g)
    × IsValid g
    × (g.idx_to_key ≡ chain.idx_to_key)
    × (g.fwd_adj ≡ chain.fwd_adj)
    × (g.edge_count ≡ 2)
unfolding Utf8.is_utf8
deserialize-serialize_graph_example =
    deserialize-serialize_graph much_room chain chain-IsValid
      ((refl, omega arith), ((refl, omega arith), ((refl, omega arith), tt))) (omega arith)
      (omega arith) refl refl

deserialize_graph-IsValid_example :
    ((e : ReadError) × (deserialize little_room (serialize pair) ≡ refused e))
    ⊎ (((g : RelationGraph) × (deserialize little_room (serialize pair) ≡ loaded g) × IsValid g)
        ⊎ ((n : ℕ) × (little_room n ≡ false)
            × (deserialize little_room (serialize pair) ≡ aborted)))
deserialize_graph-IsValid_example = deserialize_graph-IsValid little_room (serialize pair)

-- Eight bytes that claim a great many keys abort the program.
claimed_keys : deserialize little_room (magic ++ 255 ∷ 255 ∷ 255 ∷ 255 ∷ []) ≡ aborted
unfolding deserialize
claimed_keys = refl

-- A node two calls from the start that the depth-first search with the bound 2 does not report:
-- the node between them is visited first at the depth 2, on another way.
abbrev detour : RelationGraph
detour = record {
  key_to_idx = (key_a, 0) ∷ (key_b, 1) ∷ (key_c, 2) ∷ (1 ∷ [], 3) ∷ [];
  idx_to_key = key_a ∷ key_b ∷ key_c ∷ (1 ∷ []) ∷ [];
  fwd_adj = (edge_to 1 ∷ edge_to 2 ∷ []) ∷ (edge_to 3 ∷ []) ∷ (edge_to 1 ∷ []) ∷ [] ∷ [];
  bwd_adj = [] ∷ (edge_to 0 ∷ edge_to 2 ∷ []) ∷ (edge_to 0 ∷ []) ∷ (edge_to 1 ∷ []) ∷ [];
  fwd = no_rows;
  bwd = no_rows;
  built = false;
  edge_count = 4;
}

dfs-detour :
    dfs key_a false 2 none detour
    ≡ some (
        record { key = key_a; depth = 0; relation = none }
        ∷ record { key = key_c; depth = 1; relation = none }
        ∷ record { key = key_b; depth = 2; relation = none }
        ∷ [])
unfolding dfs lookup contains_key insert
dfs-detour = refl

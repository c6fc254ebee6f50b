-- ===== src/Index/Graph.antt =====
-- src/index/graph.rs: the relation graph, its construction, and its compressed rows (CSR).
-- Strings are their UTF-8 bytes. `none` is a panic: an index out of bounds.
pub mod Traverse
pub mod Format
pub mod Pushes
pub mod Invariant
pub mod Rows
pub mod Neighbours
pub mod Walks
pub mod Search
pub mod Rounds
pub mod Bfs
pub mod Reports
pub mod Shortest
pub mod Descents
use uldb.Prelude.{
  ℕ, zero, suc, ◌+◌, ◌-◌, List, [], ◌∷◌, ◌++◌, Option, some, none, Bool, true, false, if◌then◌else◌,
  length, ◌==◌, get_elem?, eqb,
}
use uldb.Bytes.{Bytes, bytes_eq}
use uldb.Maps.{lookup, insert, contains_key}

pub data Relation : Type 0 where
  imports calls inherits tests defines : Relation

unfoldable pub relation_tag : Relation → ℕ
relation_tag imports = 1
relation_tag calls = 2
relation_tag inherits = 3
relation_tag tests = 4
relation_tag defines = 5

unfoldable pub as_str : Relation → Bytes
as_str imports = b'i' ∷ b'm' ∷ b'p' ∷ b'o' ∷ b'r' ∷ b't' ∷ b's' ∷ []
as_str calls = b'c' ∷ b'a' ∷ b'l' ∷ b'l' ∷ b's' ∷ []
as_str inherits = b'i' ∷ b'n' ∷ b'h' ∷ b'e' ∷ b'r' ∷ b'i' ∷ b't' ∷ b's' ∷ []
as_str tests = b't' ∷ b'e' ∷ b's' ∷ b't' ∷ b's' ∷ []
as_str defines = b'd' ∷ b'e' ∷ b'f' ∷ b'i' ∷ b'n' ∷ b'e' ∷ b's' ∷ []

unfoldable pub from_str : Bytes → Option Relation
unfolding as_str
from_str s =
    if s == as_str imports
    then some imports
    else if s == as_str calls
    then some calls
    else if s == as_str inherits
    then some inherits
    else if s == as_str tests
    then some tests
    else if s == as_str defines
    then some defines
    else none

pub record Edge : Type 0 where
  pub dst : ℕ
  pub relation : Relation

-- The arrays of one direction: `ptr` has the start of each node's row in `dst` and `rel`.
pub record Csr : Type 0 where
  pub ptr : List ℕ
  pub dst : List ℕ
  pub rel : List Relation

pub record RelationGraph : Type 0 where
  pub key_to_idx : List (Bytes × ℕ)
  pub idx_to_key : List Bytes
  pub fwd_adj : List (List Edge)
  pub bwd_adj : List (List Edge)
  pub fwd : Csr
  pub bwd : Csr
  pub built : Bool
  pub edge_count : ℕ

abbrev pub no_rows : Csr
no_rows = record { ptr = []; dst = []; rel = [] }

abbrev pub new : RelationGraph
new = record {
  key_to_idx = [];
  idx_to_key = [];
  fwd_adj = [];
  bwd_adj = [];
  fwd = no_rows;
  bwd = no_rows;
  built = false;
  edge_count = 0;
}

-- The index, and the graph with the node.
unfoldable pub add_node : Bytes → RelationGraph → ℕ × RelationGraph
add_node key g = elim (lookup key g.key_to_idx) [
  | some idx ↦ (idx, g)
  | none ↦ (
    length g.idx_to_key,
    record g {
      key_to_idx = insert key (length g.idx_to_key) g.key_to_idx;
      idx_to_key = g.idx_to_key ++ key ∷ [];
      fwd_adj = g.fwd_adj ++ [] ∷ [];
      bwd_adj = g.bwd_adj ++ [] ∷ [];
      built = false;
    },
  )
]

-- `adj[i].push(e)`
unfoldable pub push_at : ℕ → Edge → List (List Edge) → Option (List (List Edge))
push_at i e [] = none
push_at zero e (row ∷ adj) = some ((row ++ e ∷ []) ∷ adj)
push_at (suc i) e (row ∷ adj) = elim (push_at i e adj) [
  | none ↦ none
  | some adj' ↦ some (row ∷ adj')
]

-- An edge between two nodes that are there.
unfoldable pub link : ℕ → ℕ → Relation → RelationGraph → Option RelationGraph
unfolding push_at
link s d relation g = elim (push_at s (record { dst = d; relation = relation }) g.fwd_adj) [
  | none ↦ none
  | some fwd_adj ↦ elim (push_at d (record { dst = s; relation = relation }) g.bwd_adj) [
    | none ↦ none
    | some bwd_adj ↦ some (record g {
      fwd_adj = fwd_adj;
      bwd_adj = bwd_adj;
      edge_count = g.edge_count + 1;
      built = false;
    })
  ]
]

unfoldable pub add_edge : Bytes → Bytes → Relation → RelationGraph → Option RelationGraph
unfolding link add_node
add_edge src dst relation g =
    let (s, g₁) = add_node src g in let (d, g₂) = add_node dst g₁ in link s d relation g₂

-- The offsets that `build` pushes, one before each row and one at the end.
unfoldable pub offsets : ℕ → List (List Edge) → List ℕ
offsets offset [] = offset ∷ []
offsets offset (row ∷ adj) = offset ∷ offsets (offset + length row) adj

unfoldable pub targets : List Edge → List ℕ
targets [] = []
targets (e ∷ es) = e.dst ∷ targets es

unfoldable pub relations : List Edge → List Relation
relations [] = []
relations (e ∷ es) = e.relation ∷ relations es

unfoldable pub all_edges : List (List Edge) → List Edge
all_edges [] = []
all_edges (row ∷ adj) = row ++ all_edges adj

-- The arrays of one direction. There is a row for each node.
unfoldable pub rows_of : List (List Edge) → Csr
unfolding offsets targets relations all_edges
rows_of adj = record {
  ptr = offsets 0 adj;
  dst = targets (all_edges adj);
  rel = relations (all_edges adj);
}

unfoldable pub build : RelationGraph → RelationGraph
unfolding rows_of
build g = record g { fwd = rows_of g.fwd_adj; bwd = rows_of g.bwd_adj; built = true }

unfoldable pub ensure_built : RelationGraph → RelationGraph
unfolding build
ensure_built g = if g.built then g else build g

abbrev edge_at : Option ℕ → Option Relation → Option (List Edge) → Option (List Edge)
edge_at (some dst) (some relation) (some later) =
    some (record { dst = dst; relation = relation } ∷ later)
edge_at _ _ _ = none

-- The entries `i`, `i + 1`, … of the two arrays, `n` of them.
unfoldable pub read_edges : ℕ → ℕ → Csr → Option (List Edge)
read_edges zero i csr = some []
read_edges (suc n) i csr =
    edge_at (get_elem? csr.dst i) (get_elem? csr.rel i) (read_edges n (i + 1) csr)

abbrev read_between : Option ℕ → Option ℕ → Csr → Option (List Edge)
read_between (some first) (some last) csr = read_edges (last - first) first csr
read_between _ _ csr = none

-- The row of a node: the entries from `ptr[node]` to `ptr[node + 1]`.
unfoldable pub row : ℕ → Csr → Option (List Edge)
unfolding read_edges
row node csr = read_between (get_elem? csr.ptr node) (get_elem? csr.ptr (node + 1)) csr

unfoldable pub passes : Option Relation → Relation → Bool
passes none relation = true
passes (some filter) relation = eqb (relation_tag relation) (relation_tag filter)

-- The edges that the filter lets through.
unfoldable pub keep : Option Relation → List Edge → List Edge
unfolding passes
keep filter [] = []
keep filter (e ∷ es) =
    let rest = keep filter es in if passes filter e.relation then e ∷ rest else rest

abbrev pair_with :
    Option Bytes → Relation → Option (List (Bytes × Relation)) → Option (List (Bytes × Relation))
pair_with (some key) relation (some later) = some ((key, relation) ∷ later)
pair_with _ relation _ = none

-- The keys of the edges' ends.
unfoldable pub name_edges : List Bytes → List Edge → Option (List (Bytes × Relation))
name_edges keys [] = some []
name_edges keys (e ∷ es) = pair_with (get_elem? keys e.dst) e.relation (name_edges keys es)

-- `backward` is the test of the direction's name.
abbrev pub rows : Bool → RelationGraph → Csr
rows backward g = if backward then g.bwd else g.fwd

unfoldable pub neighbours :
    Bytes
    → Bool
    → Option Relation
    → RelationGraph
    → Option (List (Bytes × Relation)) × RelationGraph
unfolding ensure_built row keep name_edges
neighbours key backward filter g =
    let g' = ensure_built g in
    (
      elim (lookup key g'.key_to_idx) [
        | none ↦ some []
        | some idx ↦ elim (row idx (rows backward g')) [
          | none ↦ none
          | some es ↦ name_edges g'.idx_to_key (keep filter es)
        ]
      ],
      g',
    )

unfoldable pub has_node : Bytes → RelationGraph → Bool
has_node key g = contains_key key g.key_to_idx

-- ===== src/Index/Graph/Format.antt =====
-- The binary format of src/index/graph.rs. A position in the data is the bytes from there on.
pub mod Roundtrip
pub mod Rebuild
pub mod Loading
use uldb.Prelude.{
  ℕ, zero, suc, ◌+◌, ◌%◌, ◌^◌, ◌/◌, List, [], ◌∷◌, ◌++◌, Option, some, none, Bool, true, false,
  ◌&&◌, ◌||◌, not, eqb, ◌==◌, if◌then◌else◌, length, ltb, get_elem?, take, drop,
}
use uldb.Bytes.{Bytes, bytes_eq}
use uldb.Bytes.Endian.{be32, from32}
use uldb.Bytes.Utf8.{is_utf8}
use uldb.Index.Graph.{
  Relation, imports, calls, inherits, tests, defines, relation_tag, Edge, RelationGraph, new,
  add_node, add_edge,
}

unfoldable pub write_keys : List Bytes → Bytes
write_keys [] = []
write_keys (key ∷ keys) = be32 (length key % 2 ^ 32) ++ (key ++ write_keys keys)

unfoldable pub write_row : ℕ → List Edge → Bytes
write_row src [] = []
write_row src (e ∷ es) =
    be32 (src % 2 ^ 32) ++ (be32 (e.dst % 2 ^ 32) ++ relation_tag e.relation ∷ write_row src es)

unfoldable pub write_rows : ℕ → List (List Edge) → Bytes
unfolding write_row
write_rows src [] = []
write_rows src (row ∷ adj) = write_row src row ++ write_rows (src + 1) adj

abbrev pub magic : Bytes
magic = b'G' ∷ b'R' ∷ b'P' ∷ b'H' ∷ []

unfoldable pub serialize : RelationGraph → Bytes
unfolding write_keys write_rows
serialize g =
    magic
    ++ (be32 (length g.idx_to_key % 2 ^ 32)
        ++ (write_keys g.idx_to_key ++ (be32 (g.edge_count % 2 ^ 32) ++ write_rows 0 g.fwd_adj)))

pub data ReadError : Type 0 where
  bad_magic eof_in_u32 eof_in_key invalid_utf8 eof_in_tag : ReadError
  unknown_tag : ℕ → ReadError

-- A value that was read, and the bytes after it.
pub data Read (A : Type 0) : Type 0 where
  failed : ReadError → Read A
  got : A → Bytes → Read A

pub data Outcome : Type 0 where
  refused : ReadError → Outcome
  panics : Outcome
  aborted : Outcome
  loaded : RelationGraph → Outcome

unfoldable pub read_u32 : Bytes → Read ℕ
read_u32 (a ∷ b ∷ c ∷ d ∷ rest) = got (from32 a b c d) rest
read_u32 _ = failed eof_in_u32

unfoldable pub read_key : Bytes → Read Bytes
unfolding read_u32
read_key bytes = elim (read_u32 bytes) [
  | failed e ↦ failed e
  | got key_len rest ↦
      if ltb (length rest) key_len
      then failed eof_in_key
      else if is_utf8 (take key_len rest)
      then got (take key_len rest) (drop key_len rest)
      else failed invalid_utf8
]

-- The loops read their count of items.
unfoldable pub read_keys : ℕ → Bytes → Read (List Bytes)
unfolding read_key
read_keys zero bytes = got [] bytes
read_keys (suc n) bytes = elim (read_key bytes) [
  | failed e ↦ failed e
  | got key rest ↦ elim (read_keys n rest) [
    | failed e ↦ failed e
    | got keys later ↦ got (key ∷ keys) later
  ]
]

abbrev pub relation_of : ℕ → Option Relation
relation_of tag =
    if eqb tag 1
    then some imports
    else if eqb tag 2
    then some calls
    else if eqb tag 3
    then some inherits
    else if eqb tag 4
    then some tests
    else if eqb tag 5
    then some defines
    else none

abbrev pub tagged : ℕ → ℕ → Bytes → Read (ℕ × ℕ × Relation)
tagged src dst [] = failed eof_in_tag
tagged src dst (tag ∷ rest) = elim (relation_of tag) [
  | none ↦ failed (unknown_tag tag)
  | some relation ↦ got (src, dst, relation) rest
]

unfoldable pub read_edge : Bytes → Read (ℕ × ℕ × Relation)
unfolding read_u32
read_edge bytes = elim (read_u32 bytes) [
  | failed e ↦ failed e
  | got src rest ↦ elim (read_u32 rest) [
    | failed e ↦ failed e
    | got dst later ↦ tagged src dst later
  ]
]

unfoldable pub read_edges : ℕ → Bytes → Read (List (ℕ × ℕ × Relation))
unfolding read_edge
read_edges zero bytes = got [] bytes
read_edges (suc n) bytes = elim (read_edge bytes) [
  | failed e ↦ failed e
  | got edge rest ↦ elim (read_edges n rest) [
    | failed e ↦ failed e
    | got edges later ↦ got (edge ∷ edges) later
  ]
]

unfoldable pub add_nodes : List Bytes → RelationGraph → RelationGraph
add_nodes [] g = g
add_nodes (key ∷ keys) g = add_nodes keys (add_node key g).1

abbrev pub add_named : Option Bytes → Option Bytes → Relation → RelationGraph → Option RelationGraph
add_named (some src) (some dst) relation g = add_edge src dst relation g
add_named _ _ relation g = none

-- An edge with an end that is no node is skipped.
unfoldable pub add_edges :
    List Bytes → List (ℕ × ℕ × Relation) → RelationGraph → Option RelationGraph
add_edges keys [] g = some g
add_edges keys ((src, dst, relation) ∷ edges) g =
    if ltb src (length keys) && ltb dst (length keys)
    then elim (add_named (get_elem? keys src) (get_elem? keys dst) relation g) [
      | none ↦ none
      | some g' ↦ add_edges keys edges g'
    ]
    else add_edges keys edges g

unfoldable pub rebuild : List Bytes → List (ℕ × ℕ × Relation) → Outcome
unfolding add_nodes add_edges
rebuild keys edges = elim (add_edges keys edges (add_nodes keys new)) [
  | none ↦ panics
  | some g ↦ loaded g
]

-- `Vec::with_capacity` aborts the program where the allocator has no room for so many elements.
abbrev with_room : Bool → Outcome → Outcome
with_room false next = aborted
with_room true next = next

-- `room` says of each number of keys, or of edges, whether the allocator has room for it.
abbrev pub read_graph : (ℕ → Bool) → Bytes → Outcome
read_graph room bytes = elim (read_u32 bytes) [
  | failed e ↦ refused e
  | got n_nodes rest ↦ with_room (room n_nodes) (elim (read_keys n_nodes rest) [
    | failed e ↦ refused e
    | got keys later ↦ elim (read_u32 later) [
      | failed e ↦ refused e
      | got n_edges last ↦ with_room (room n_edges) (elim (read_edges n_edges last) [
        | failed e ↦ refused e
        | got edges _ ↦ rebuild keys edges
      ])
    ]
  ])
]

unfoldable pub deserialize : (ℕ → Bool) → Bytes → Outcome
unfolding rebuild read_u32 read_keys read_edges
deserialize room bytes =
    if ltb (length bytes) 4 || not (take 4 bytes == magic)
    then refused bad_magic
    else read_graph room (drop 4 bytes)

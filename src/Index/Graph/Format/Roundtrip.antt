-- ===== src/Index/Graph/Format/Roundtrip.antt =====
-- The binary format of a relation graph read back (src/index/graph.rs).
use uldb.Prelude.{
  ℕ, suc, ◌+◌, ◌%◌, ◌^◌, ◌/◌, ◌≡◌, ◌<◌, ◌≤◌, List, [], ◌∷◌, ◌++◌, true, false, arith, refl, ◌∙◌,
  length, ltb, append_assoc, length-append, take-append, drop-append, All,
}
use uldb.Bytes.{Bytes, bytes_eq}
use uldb.Bytes.Endian.{be32, from32, from32-be32}
use uldb.Bytes.Utf8.{is_utf8}
use uldb.Index.Graph.{
  Relation, imports, calls, inherits, tests, defines, relation_tag, Edge, all_edges,
}
use uldb.Index.Graph.Format.{
  write_keys, write_row, write_rows, got, read_u32, read_key, read_keys, tagged, read_edge,
  read_edges,
}

-- A key that the format holds: a string of less than 4 GiB.
abbrev pub IsKey : Bytes → Type 0
IsKey key = (is_utf8 key ≡ true) × (length key < 2 ^ 32)

-- A number of 32 bits that was written as one.
pub u32 :
    (v : ℕ)
    → v < 2 ^ 32
    → from32
        (v % 2 ^ 32 / 2 ^ 24 % 256)
        (v % 2 ^ 32 / 2 ^ 16 % 256)
        (v % 2 ^ 32 / 2 ^ 8 % 256)
        (v % 2 ^ 32 % 256)
      ≡ v
u32 v h = let small : v % 2 ^ 32 ≡ v = omega arith in from32-be32 (v % 2 ^ 32) (omega arith) ∙ small

read_key-written :
    (key rest : Bytes)
    → IsKey key
    → read_key (be32 (length key % 2 ^ 32) ++ (key ++ rest)) ≡ got key rest
unfolding read_key read_u32
read_key-written key rest h =
    let long : ltb (length (key ++ rest)) (length key) ≡ false =
      ground (arith, length-append key rest) in
    rw
      (
        u32 (length key) h.1,
        long,
        take-append (length key) key rest refl,
        drop-append (length key) key rest refl,
        h.0,
      )
      refl

read_keys_step :
    (n : ℕ) (bytes rest later : Bytes) (key : Bytes) (keys : List Bytes)
    → read_key bytes ≡ got key rest
    → read_keys n rest ≡ got keys later
    → read_keys (suc n) bytes ≡ got (key ∷ keys) later
unfolding read_keys
read_keys_step n bytes rest later key keys h k = rw (h, k, read_keys) refl

pub read_keys-written :
    (keys : List Bytes) (rest : Bytes)
    → All IsKey keys
    → read_keys (length keys) (write_keys keys ++ rest) ≡ got keys rest
unfolding write_keys read_keys
read_keys-written [] rest h = refl
read_keys-written (key ∷ keys) rest h = rw (append_assoc key (write_keys keys) rest) (
    read_keys_step (length keys) (be32 (length key % 2 ^ 32) ++ (key ++ (write_keys keys ++ rest)))
      (write_keys keys ++ rest) rest key keys (read_key-written key (write_keys keys ++ rest) h.0)
      (read_keys-written keys rest h.1))

zero_add : (n : ℕ) → 0 + n ≡ n
zero_add n = omega arith

suc_add : (m n : ℕ) → suc m + n ≡ suc (m + n)
suc_add m n = omega arith

tagged-tag :
    (src dst : ℕ) (r : Relation) (rest : Bytes)
    → tagged src dst (relation_tag r ∷ rest) ≡ got (src, dst, r) rest
unfolding relation_tag
tagged-tag src dst imports rest = refl
tagged-tag src dst calls rest = refl
tagged-tag src dst inherits rest = refl
tagged-tag src dst tests rest = refl
tagged-tag src dst defines rest = refl

-- The edges in the order of the file.
unfoldable pub row_edges : ℕ → List Edge → List (ℕ × ℕ × Relation)
row_edges src [] = []
row_edges src (e ∷ es) = (src, e.dst, e.relation) ∷ row_edges src es

unfoldable pub file_edges : ℕ → List (List Edge) → List (ℕ × ℕ × Relation)
unfolding row_edges
file_edges src [] = []
file_edges src (row ∷ adj) = row_edges src row ++ file_edges (src + 1) adj

read_edge-written :
    (src dst : ℕ) (r : Relation) (rest : Bytes)
    → src < 2 ^ 32
    → dst < 2 ^ 32
    → read_edge (be32 (src % 2 ^ 32) ++ (be32 (dst % 2 ^ 32) ++ relation_tag r ∷ rest))
      ≡ got (src, dst, r) rest
unfolding read_edge read_u32
read_edge-written src dst r rest hs hd = rw (u32 src hs, u32 dst hd) (tagged-tag src dst r rest)

read_edges_step :
    (n : ℕ) (bytes rest later : Bytes) (e : ℕ × ℕ × Relation) (es : List (ℕ × ℕ × Relation))
    → read_edge bytes ≡ got e rest
    → read_edges n rest ≡ got es later
    → read_edges (suc n) bytes ≡ got (e ∷ es) later
unfolding read_edges
read_edges_step n bytes rest later e es h k = rw (h, k, read_edges) refl

-- The edges of one row, before whatever else the file holds.
read_edges-row :
    (src n : ℕ) (es : List Edge) (rest later : Bytes) (es' : List (ℕ × ℕ × Relation))
    → src < 2 ^ 32
    → All (λ e. e.dst < 2 ^ 32) es
    → read_edges n rest ≡ got es' later
    → read_edges (length es + n) (write_row src es ++ rest) ≡ got (row_edges src es ++ es') later
unfolding write_row row_edges
read_edges-row src n [] rest later es' hs h k = rw (zero_add n) k
read_edges-row src n (e ∷ es) rest later es' hs h k = rw (suc_add (length es) n) (
    read_edges_step (length es + n) _ (write_row src es ++ rest) later (src, e.dst, e.relation) _
      (read_edge-written src e.dst e.relation (write_row src es ++ rest) hs h.0)
      (read_edges-row src n es rest later es' hs h.1 k))

pub read_edges-written :
    (src : ℕ) (adj : List (List Edge))
    → src + length adj ≤ 2 ^ 32
    → All (All (λ e. e.dst < 2 ^ 32)) adj
    → read_edges (length (all_edges adj)) (write_rows src adj) ≡ got (file_edges src adj) []
unfolding write_rows file_edges all_edges read_edges
read_edges-written src [] h k = refl
read_edges-written src (row ∷ adj) h k = rw (length-append row (all_edges adj)) (
    read_edges-row src (length (all_edges adj)) row (write_rows (src + 1) adj) []
      (file_edges (src + 1) adj) (omega arith) k.0
      (read_edges-written (src + 1) adj (omega arith) k.1))

-- ===== src/Index/Graph/Format/Loading.antt =====
-- `deserialize` as a whole (src/index/graph.rs): the round trip, and what any bytes lead to.
use uldb.Prelude.{
  Bool, true, Bool-cases, subst, ℕ, ◌≡◌, ◌<◌, ◌%◌, ◌^◌, List, [], ◌∷◌, ◌++◌, Option, some, none,
  false, not, arith, refl, sym, ap, ◌∙◌, length, ltb, ◌==◌, get_elem?, All, if_elim, ◌&&◌, ◌||◌,
  not, take, drop, get_elem?-lt, ◌⊎◌, inl, inr,
}
use uldb.Bytes.{Bytes, bytes_eq}
use uldb.Bytes.Endian.{be32}
use uldb.Index.Graph.{Relation, RelationGraph, new, add_node}
use uldb.Index.Graph.Invariant.{IsValid, new-IsValid, add_node-IsValid, add_edge-IsValid}
use uldb.Index.Graph.Pushes.{EndsBelow, EndsBelow-mono}
use uldb.Index.Graph.Format.{
  serialize, Outcome, loaded, aborted, refused, ReadError, bad_magic, Read, got, failed, read_u32,
  read_keys, read_edges, read_graph, add_named, add_nodes, add_edges, rebuild, deserialize,
  write_keys, write_rows, magic,
}
use uldb.Index.Graph.Format.Roundtrip.{
  IsKey, u32, read_keys-written, read_edges-written, file_edges,
}
use uldb.Index.Graph.Format.Rebuild.{rebuild-file, rebuild_loaded}

read_u32-be32 :
    (v : ℕ) (rest : Bytes) → v < 2 ^ 32 → read_u32 (be32 (v % 2 ^ 32) ++ rest) ≡ got v rest
unfolding read_u32
read_u32-be32 v rest h = ap (λ n. got n rest) (u32 v h)

read_graph_lem :
    (room : ℕ → Bool) (bytes r₁ r₂ r₃ r₄ : Bytes) (n m : ℕ) (keys : List Bytes)
    (edges : List (ℕ × ℕ × Relation))
    → read_u32 bytes ≡ got n r₁
    → read_keys n r₁ ≡ got keys r₂
    → read_u32 r₂ ≡ got m r₃
    → read_edges m r₃ ≡ got edges r₄
    → room n ≡ true
    → room m ≡ true
    → read_graph room bytes ≡ rebuild keys edges
read_graph_lem room bytes r₁ r₂ r₃ r₄ n m keys edges a b c d e f =
    rw (a, e, b, c, f, d, read_graph) refl

deserialize-magic :
    (room : ℕ → Bool) (bytes : Bytes) → deserialize room (magic ++ bytes) ≡ read_graph room bytes
unfolding deserialize
deserialize-magic room bytes =
    let long : ltb (length (magic ++ bytes)) 4 ≡ false = ground arith in rw (long, deserialize) refl

-- A graph of fewer than 2^32 nodes and edges, whose keys are strings shorter than 4 GiB, is read
-- back from its bytes with the same nodes, edges and edge count, and well-formed, where the allocator
-- has room for as many nodes and edges.
pub deserialize-serialize_graph :
    (room : ℕ → Bool) (g : RelationGraph)
    → IsValid g
    → All IsKey g.idx_to_key
    → length g.idx_to_key < 2 ^ 32
    → g.edge_count < 2 ^ 32
    → room (length g.idx_to_key) ≡ true
    → room g.edge_count ≡ true
    → (g' : RelationGraph) × (deserialize room (serialize g) ≡ loaded g')
      × IsValid g'
      × (g'.idx_to_key ≡ g.idx_to_key)
      × (g'.fwd_adj ≡ g.fwd_adj)
      × (g'.edge_count ≡ g.edge_count)
unfolding serialize
deserialize-serialize_graph room g v ks n_lt e_lt n_room e_room =
    let keys = g.idx_to_key in
    let edges = write_rows 0 g.fwd_adj in
    let tail = be32 (g.edge_count % 2 ^ 32) ++ edges in
    let small : EndsBelow (2 ^ 32) g.fwd_adj =
      EndsBelow-mono (length keys) (2 ^ 32) g.fwd_adj (omega arith) v.fwd_ends in
    let read : read_edges g.edge_count edges ≡ got (file_edges 0 g.fwd_adj) [] =
      rw (sym v.fwd_count) (read_edges-written 0 g.fwd_adj (omega (arith, v.fwd_rows)) small) in
    let (g', out, valid, nodes, rows, count) = rebuild-file g v in
    (
      g',
      deserialize-magic room (be32 (length keys % 2 ^ 32) ++ (write_keys keys ++ tail))
          ∙ read_graph_lem room (be32 (length keys % 2 ^ 32) ++ (write_keys keys ++ tail))
              (write_keys keys ++ tail) tail edges [] (length keys) g.edge_count keys
              (file_edges 0 g.fwd_adj) (read_u32-be32 (length keys) (write_keys keys ++ tail) n_lt)
              (read_keys-written keys tail ks) (read_u32-be32 g.edge_count edges e_lt) read n_room
              e_room
          ∙ out,
      valid,
      nodes,
      rows,
      count,
    )

-- A graph that was built without a panic.
abbrev Builds : Option RelationGraph → Type 0
Builds o = (g : RelationGraph) × (o ≡ some g) × IsValid g

add_edges_found :
    (keys : List Bytes) (edges : List (ℕ × ℕ × Relation)) (a b : Option Bytes) (r : Relation)
    (g g' : RelationGraph)
    → add_named a b r g ≡ some g'
    → Builds (add_edges keys edges g')
    → Builds (elim (add_named a b r g) [ none ↦ none | some g'' ↦ add_edges keys edges g'' ])
add_edges_found keys edges a b r g g' h k = rw h k

add_edges-IsValid :
    (keys : List Bytes) (edges : List (ℕ × ℕ × Relation)) (g : RelationGraph)
    → IsValid g
    → Builds (add_edges keys edges g)
unfolding add_edges
add_edges-IsValid keys [] g v = (g, refl, v)
add_edges-IsValid keys ((s, d, r) ∷ edges) g v =
    if_elim Builds (ltb s (length keys) && ltb d (length keys)) _ (add_edges keys edges g)
      (λ ok.
        let (src, hs) = get_elem?-lt keys s (ground (arith, ok)) in
        let (dst, hd) = get_elem?-lt keys d (ground (arith, ok)) in
        let (g', out, v') = add_edge-IsValid src dst r g v in
        add_edges_found keys edges (get_elem? keys s) (get_elem? keys d) r g g' (rw (hs, hd) out)
          (add_edges-IsValid keys edges g' v'))
      (λ no. add_edges-IsValid keys edges g v)

add_nodes-IsValid : (keys : List Bytes) (g : RelationGraph) → IsValid g → IsValid (add_nodes keys g)
unfolding add_nodes
add_nodes-IsValid [] g v = v
add_nodes-IsValid (key ∷ keys) g v =
    add_nodes-IsValid keys (add_node key g).1 (add_node-IsValid key g v).0

rebuild-IsValid :
    (keys : List Bytes) (edges : List (ℕ × ℕ × Relation))
    → (g : RelationGraph) × (rebuild keys edges ≡ loaded g) × IsValid g
rebuild-IsValid keys edges =
    let (g, out, v) =
      add_edges-IsValid keys edges (add_nodes keys new) (add_nodes-IsValid keys new new-IsValid) in
    (g, rebuild_loaded keys edges g out, v)

-- What reading a graph leads to: an error, a well-formed graph, or an abort for want of room.
abbrev Sound : (ℕ → Bool) → Outcome → Type 0
Sound room o =
    ((e : ReadError) × (o ≡ refused e))
    ⊎ (((g : RelationGraph) × (o ≡ loaded g) × IsValid g)
        ⊎ ((n : ℕ) × (room n ≡ false) × (o ≡ aborted)))

Read-cases :
    {A : Type 0} (r : Read A)
    → ((e : ReadError) × (r ≡ failed e)) ⊎ ((a : A) × (rest : Bytes) × (r ≡ got a rest))
Read-cases (failed e) = inl (e, refl)
Read-cases (got a rest) = inr (a, rest, refl)

read_graph-Sound : (room : ℕ → Bool) (bytes : Bytes) → Sound room (read_graph room bytes)
read_graph-Sound room bytes = elim (Read-cases (read_u32 bytes)) [
  | inl (e, h) ↦ inl (e, rw (h, read_graph) refl)
  | inr (n, r₁, a) ↦ elim (Bool-cases (room n)) [
    | inr none_n ↦ inr (inr (n, none_n, rw (a, none_n, read_graph) refl))
    | inl room_n ↦ elim (Read-cases (read_keys n r₁)) [
      | inl (e, h) ↦ inl (e, rw (a, room_n, h, read_graph) refl)
      | inr (keys, r₂, b) ↦ elim (Read-cases (read_u32 r₂)) [
        | inl (e, h) ↦ inl (e, rw (a, room_n, b, h, read_graph) refl)
        | inr (m, r₃, c) ↦ elim (Bool-cases (room m)) [
          | inr none_m ↦ inr (inr (m, none_m, rw (a, room_n, b, c, none_m, read_graph) refl))
          | inl room_m ↦ elim (Read-cases (read_edges m r₃)) [
            | inl (e, h) ↦ inl (e, rw (a, room_n, b, c, room_m, h, read_graph) refl)
            | inr (edges, r₄, d) ↦
                let (g, out, v) = rebuild-IsValid keys edges in
                inr (
                  inl (
                    g,
                    read_graph_lem room bytes r₁ r₂ r₃ r₄ n m keys edges a b c d room_n room_m
                        ∙ out,
                    v,
                  ))
          ]
        ]
      ]
    ]
  ]
]

-- Whatever the bytes, loading a graph does not panic: it gives an error or a well-formed graph, or the
-- program is aborted, and then the allocator has no room for some number of elements.
pub deserialize_graph-IsValid :
    (room : ℕ → Bool) (bytes : Bytes)
    → ((e : ReadError) × (deserialize room bytes ≡ refused e))
      ⊎ (((g : RelationGraph) × (deserialize room bytes ≡ loaded g) × IsValid g)
          ⊎ ((n : ℕ) × (room n ≡ false) × (deserialize room bytes ≡ aborted)))
unfolding deserialize
deserialize_graph-IsValid room bytes =
    if_elim (Sound room) (ltb (length bytes) 4 || not (take 4 bytes == magic)) (refused bad_magic)
      (read_graph room (drop 4 bytes)) (λ bad. inl (bad_magic, refl))
      (λ good. read_graph-Sound room (drop 4 bytes))

-- A graph that was loaded is well-formed.
pub loaded-IsValid :
    (room : ℕ → Bool) (bytes : Bytes) (g : RelationGraph)
    → deserialize room bytes ≡ loaded g
    → IsValid g
loaded-IsValid room bytes g h = elim (deserialize_graph-IsValid room bytes) [
  | inl (e, out) ↦ absurd (ground (arith, h, out))
  | inr (inl (g', out, v)) ↦ let same : g' ≡ g = ground (arith, h, out) in subst IsValid same v
  | inr (inr (n, no_room, out)) ↦ absurd (ground (arith, h, out))
]

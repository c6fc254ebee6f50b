-- ===== src/Index/Graph/Invariant.antt =====
-- The well-formedness of a relation graph (src/index/graph.rs), and that its operations keep it.
use uldb.Index.Graph.Pushes.{
  EndsBelow, pushed, push_at-pushed, length-pushed, length-all_edges-pushed, EndsBelow-pushed,
  EndsBelow-mono, all_edges-grown, grown, add_node-held, add_node-absent,
}
use uldb.Prelude.{
  ℕ, ◌+◌, ◌≡◌, ◌<◌, [], ◌∷◌, ◌++◌, some, none, true, false, arith, refl, ◌∙◌, ap, length, get_elem?,
  All-append, length-append, get_elem?-bound, get_elem?-snoc, Option-cases, if_elim, inl, inr,
}
use uldb.Bytes.{Bytes, bytes_eq}
use uldb.Maps.{lookup, lookup-insert}
use uldb.Index.Graph.{
  Relation, Edge, RelationGraph, new, add_node, link, add_edge, rows_of, build, ensure_built,
  all_edges,
}

pub record IsValid (g : RelationGraph) : Type 0 where
  pub named :
      (k : Bytes) (i : ℕ) → lookup k g.key_to_idx ≡ some i → get_elem? g.idx_to_key i ≡ some k
  pub keyed :
      (k : Bytes) (i : ℕ) → get_elem? g.idx_to_key i ≡ some k → lookup k g.key_to_idx ≡ some i
  pub fwd_rows : length g.fwd_adj ≡ length g.idx_to_key
  pub bwd_rows : length g.bwd_adj ≡ length g.idx_to_key
  pub fwd_ends : EndsBelow (length g.idx_to_key) g.fwd_adj
  pub bwd_ends : EndsBelow (length g.idx_to_key) g.bwd_adj
  pub fwd_count : length (all_edges g.fwd_adj) ≡ g.edge_count
  pub bwd_count : length (all_edges g.bwd_adj) ≡ g.edge_count
  pub fwd_built : g.built ≡ true → g.fwd ≡ rows_of g.fwd_adj
  pub bwd_built : g.built ≡ true → g.bwd ≡ rows_of g.bwd_adj

pub new-IsValid : IsValid new
unfolding lookup all_edges
new-IsValid = record {
  named = λ k i h. cc;
  keyed = λ k i h. cc;
  fwd_rows = refl;
  bwd_rows = refl;
  fwd_ends = tt;
  bwd_ends = tt;
  fwd_count = refl;
  bwd_count = refl;
  fwd_built = λ h. cc;
  bwd_built = λ h. cc;
}

grown-IsValid :
    (key : Bytes) (g : RelationGraph)
    → lookup key g.key_to_idx ≡ none
    → IsValid g
    → IsValid (grown key g)
grown-IsValid key g new_key v =
    let n = length g.idx_to_key in
    let n' : length (g.idx_to_key ++ key ∷ []) ≡ n + 1 = length-append g.idx_to_key (key ∷ []) in
    record {
      named = λ k i h. ground (
        arith,
        lookup-insert key k n g.key_to_idx,
        bytes_eq.beq_iff key k,
        v.named k i,
        get_elem?-snoc g.idx_to_key key i,
        get_elem?-bound g.idx_to_key i k,
      );
      keyed = λ k i h. ground (
        arith,
        lookup-insert key k n g.key_to_idx,
        bytes_eq.beq_iff key k,
        v.keyed k i,
        get_elem?-snoc g.idx_to_key key i,
      );
      fwd_rows = omega (arith, length-append g.fwd_adj ([] ∷ []), v.fwd_rows, n');
      bwd_rows = omega (arith, length-append g.bwd_adj ([] ∷ []), v.bwd_rows, n');
      fwd_ends =
          All-append _ g.fwd_adj ([] ∷ [])
            (EndsBelow-mono n _ g.fwd_adj (omega (arith, n')) v.fwd_ends) (tt, tt);
      bwd_ends =
          All-append _ g.bwd_adj ([] ∷ [])
            (EndsBelow-mono n _ g.bwd_adj (omega (arith, n')) v.bwd_ends) (tt, tt);
      fwd_count = ap length (all_edges-grown g.fwd_adj) ∙ v.fwd_count;
      bwd_count = ap length (all_edges-grown g.bwd_adj) ∙ v.bwd_count;
      fwd_built = λ h. cc;
      bwd_built = λ h. cc;
    }

-- What `add_node` gives: a valid graph of at least the nodes before, with the key at the index.
pub add_node-IsValid :
    (key : Bytes) (g : RelationGraph)
    → IsValid g
    → IsValid (add_node key g).1
      × (lookup key (add_node key g).1.key_to_idx ≡ some (add_node key g).0)
      × ((k : Bytes) (i : ℕ)
          → lookup k g.key_to_idx ≡ some i
          → lookup k (add_node key g).1.key_to_idx ≡ some i)
add_node-IsValid key g v = elim (Option-cases (lookup key g.key_to_idx)) [
  | inl absent ↦ rw (add_node-absent key g absent) (
    grown-IsValid key g absent v,
    ground
        (arith, lookup-insert key key (length g.idx_to_key) g.key_to_idx, bytes_eq.beq_iff key key),
    λ k i h.
        ground
          (arith, lookup-insert key k (length g.idx_to_key) g.key_to_idx, bytes_eq.beq_iff key k),
  )
  | inr (i, held) ↦ rw (add_node-held key g i held) (v, held, λ k i h. h)
]

pub index-lt :
    (key : Bytes) (g : RelationGraph) (i : ℕ)
    → IsValid g
    → lookup key g.key_to_idx ≡ some i
    → i < length g.idx_to_key
index-lt key g i v h = get_elem?-bound g.idx_to_key i key (v.named key i h)

-- The graph with an edge between two of its nodes.
abbrev pub linked : ℕ → ℕ → Relation → RelationGraph → RelationGraph
linked s d relation g = record g {
  fwd_adj = pushed s (record { dst = d; relation = relation }) g.fwd_adj;
  bwd_adj = pushed d (record { dst = s; relation = relation }) g.bwd_adj;
  edge_count = g.edge_count + 1;
  built = false;
}

pub link_lem :
    (s d : ℕ) (relation : Relation) (g : RelationGraph)
    → IsValid g
    → s < length g.idx_to_key
    → d < length g.idx_to_key
    → link s d relation g ≡ some (linked s d relation g)
unfolding link
link_lem s d relation g v hs hd =
    rw
      (
        push_at-pushed s (record { dst = d; relation = relation }) g.fwd_adj
            (omega (arith, v.fwd_rows)),
        push_at-pushed d (record { dst = s; relation = relation }) g.bwd_adj
            (omega (arith, v.bwd_rows)),
        link,
      )
      refl

pub linked-IsValid :
    (s d : ℕ) (relation : Relation) (g : RelationGraph)
    → IsValid g
    → s < length g.idx_to_key
    → d < length g.idx_to_key
    → IsValid (linked s d relation g)
linked-IsValid s d relation g v hs hd =
    let out : Edge = record { dst = d; relation = relation } in
    let back : Edge = record { dst = s; relation = relation } in
    let n = length g.idx_to_key in
    record {
      named = v.named;
      keyed = v.keyed;
      fwd_rows = length-pushed s out g.fwd_adj ∙ v.fwd_rows;
      bwd_rows = length-pushed d back g.bwd_adj ∙ v.bwd_rows;
      fwd_ends = EndsBelow-pushed n s out g.fwd_adj hd v.fwd_ends;
      bwd_ends = EndsBelow-pushed n d back g.bwd_adj hs v.bwd_ends;
      fwd_count =
          omega (
            arith,
            length-all_edges-pushed s out g.fwd_adj (omega (arith, v.fwd_rows)),
            v.fwd_count,
          );
      bwd_count = omega (
        arith,
        length-all_edges-pushed d back g.bwd_adj (omega (arith, v.bwd_rows)),
        v.bwd_count,
      );
      fwd_built = λ h. cc;
      bwd_built = λ h. cc;
    }

-- `add_edge` never panics on a well-formed graph, and gives a well-formed graph again.
pub add_edge-IsValid :
    (src dst : Bytes) (relation : Relation) (g : RelationGraph)
    → IsValid g
    → (g' : RelationGraph) × (add_edge src dst relation g ≡ some g') × IsValid g'
unfolding add_edge
add_edge-IsValid src dst relation g v =
    let a = add_node-IsValid src g v in
    let b = add_node-IsValid dst (add_node src g).1 a.0 in
    let g₂ = (add_node dst (add_node src g).1).1 in
    let s = (add_node src g).0 in
    let d = (add_node dst (add_node src g).1).0 in
    let s_lt = index-lt src g₂ s b.0 (b.2 src s a.1) in
    let d_lt = index-lt dst g₂ d b.0 b.1 in
    (
      linked s d relation g₂,
      link_lem s d relation g₂ b.0 s_lt d_lt,
      linked-IsValid s d relation g₂ b.0 s_lt d_lt,
    )

build-IsValid : (g : RelationGraph) → IsValid g → IsValid (build g)
unfolding build
build-IsValid g v = record {
  named = v.named;
  keyed = v.keyed;
  fwd_rows = v.fwd_rows;
  bwd_rows = v.bwd_rows;
  fwd_ends = v.fwd_ends;
  bwd_ends = v.bwd_ends;
  fwd_count = v.fwd_count;
  bwd_count = v.bwd_count;
  fwd_built = λ h. refl;
  bwd_built = λ h. refl;
}

pub ensure_built-IsValid : (g : RelationGraph) → IsValid g → IsValid (ensure_built g)
unfolding ensure_built
ensure_built-IsValid g v = if_elim IsValid g.built g (build g) (λ e. v) (λ e. build-IsValid g v)

-- What the searches read: the rows of the adjacency lists, and the nodes as they are.
abbrev pub IsBuiltFrom : RelationGraph → RelationGraph → Type 0
IsBuiltFrom g g' =
    (g'.fwd ≡ rows_of g.fwd_adj)
    × (g'.bwd ≡ rows_of g.bwd_adj)
    × (g'.key_to_idx ≡ g.key_to_idx)
    × (g'.idx_to_key ≡ g.idx_to_key)
    × (g'.edge_count ≡ g.edge_count)

pub ensure_built_lem : (g : RelationGraph) → IsValid g → IsBuiltFrom g (ensure_built g)
unfolding ensure_built build
ensure_built_lem g v =
    if_elim (IsBuiltFrom g) g.built g (build g)
      (λ e. (v.fwd_built e, v.bwd_built e, refl, refl, refl)) (λ e. (refl, refl, refl, refl, refl))

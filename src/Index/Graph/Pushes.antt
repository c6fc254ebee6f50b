-- ===== src/Index/Graph/Pushes.antt =====
-- Edges at the ends of rows, and new nodes, in the adjacency lists of a graph (src/index/graph.rs).
use uldb.Prelude.{
  ℕ, zero, suc, ◌+◌, ◌≡◌, ◌<◌, ◌≤◌, List, [], ◌∷◌, ◌++◌, some, none, false, arith, refl, ap, length,
  All, All-append, length-append,
}
use uldb.Bytes.{Bytes, bytes_eq}
use uldb.Maps.{lookup, insert}
use uldb.Index.Graph.{Edge, RelationGraph, add_node, push_at, all_edges}

abbrev pub EndsBelow : ℕ → List (List Edge) → Type 0
EndsBelow n = All (All (λ e. e.dst < n))

-- `push_at` where the row is there.
unfoldable pub pushed : ℕ → Edge → List (List Edge) → List (List Edge)
pushed i e [] = []
pushed zero e (row ∷ adj) = (row ++ e ∷ []) ∷ adj
pushed (suc i) e (row ∷ adj) = row ∷ pushed i e adj

pub push_at-pushed :
    (i : ℕ) (e : Edge) (adj : List (List Edge))
    → i < length adj
    → push_at i e adj ≡ some (pushed i e adj)
unfolding push_at pushed
push_at-pushed i e [] h = absurd (omega arith)
push_at-pushed zero e (row ∷ adj) h = refl
push_at-pushed (suc i) e (row ∷ adj) h = rw (push_at-pushed i e adj (omega arith)) refl

pub length-pushed :
    (i : ℕ) (e : Edge) (adj : List (List Edge)) → length (pushed i e adj) ≡ length adj
unfolding pushed
length-pushed i e [] = refl
length-pushed zero e (row ∷ adj) = refl
length-pushed (suc i) e (row ∷ adj) = ap suc (length-pushed i e adj)

pub length-all_edges-pushed :
    (i : ℕ) (e : Edge) (adj : List (List Edge))
    → i < length adj
    → length (all_edges (pushed i e adj)) ≡ length (all_edges adj) + 1
unfolding pushed all_edges
length-all_edges-pushed i e [] h = absurd (omega arith)
length-all_edges-pushed zero e (row ∷ adj) h = omega (
  arith,
  length-append (row ++ e ∷ []) (all_edges adj),
  length-append row (e ∷ []),
  length-append row (all_edges adj),
)
length-all_edges-pushed (suc i) e (row ∷ adj) h = omega (
  arith,
  length-append row (all_edges (pushed i e adj)),
  length-append row (all_edges adj),
  length-all_edges-pushed i e adj (omega arith),
)

pub EndsBelow-pushed :
    (n i : ℕ) (e : Edge) (adj : List (List Edge))
    → e.dst < n
    → EndsBelow n adj
    → EndsBelow n (pushed i e adj)
unfolding pushed
EndsBelow-pushed n i e [] b h = tt
EndsBelow-pushed n zero e (row ∷ adj) b h = (All-append _ row (e ∷ []) h.0 (b, tt), h.1)
EndsBelow-pushed n (suc i) e (row ∷ adj) b h = (h.0, EndsBelow-pushed n i e adj b h.1)

below_mono :
    (n m : ℕ) (row : List Edge) → n ≤ m → All (λ e. e.dst < n) row → All (λ e. e.dst < m) row
below_mono n m [] h b = tt
below_mono n m (e ∷ row) h b = (omega (arith, b.0), below_mono n m row h b.1)

pub EndsBelow-mono : (n m : ℕ) (adj : List (List Edge)) → n ≤ m → EndsBelow n adj → EndsBelow m adj
EndsBelow-mono n m [] h b = tt
EndsBelow-mono n m (row ∷ adj) h b = (below_mono n m row h b.0, EndsBelow-mono n m adj h b.1)

pub all_edges-grown : (adj : List (List Edge)) → all_edges (adj ++ [] ∷ []) ≡ all_edges adj
unfolding all_edges
all_edges-grown [] = refl
all_edges-grown (row ∷ adj) = ap (λ es. row ++ es) (all_edges-grown adj)

-- The graph with a node that was not there.
abbrev pub grown : Bytes → RelationGraph → RelationGraph
grown key g = record g {
  key_to_idx = insert key (length g.idx_to_key) g.key_to_idx;
  idx_to_key = g.idx_to_key ++ key ∷ [];
  fwd_adj = g.fwd_adj ++ [] ∷ [];
  bwd_adj = g.bwd_adj ++ [] ∷ [];
  built = false;
}

pub add_node-held :
    (key : Bytes) (g : RelationGraph) (i : ℕ)
    → lookup key g.key_to_idx ≡ some i
    → add_node key g ≡ (i, g)
unfolding add_node
add_node-held key g i h = rw (h, add_node) refl

pub add_node-absent :
    (key : Bytes) (g : RelationGraph)
    → lookup key g.key_to_idx ≡ none
    → add_node key g ≡ (length g.idx_to_key, grown key g)
unfolding add_node
add_node-absent key g h = rw (h, add_node) refl

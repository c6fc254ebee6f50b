-- ===== src/Index/Graph/Format/Rebuild.antt =====
-- The graph that `deserialize` rebuilds from the nodes and edges it read (src/index/graph.rs).
use uldb.Prelude.{
  ℕ, zero, suc, ◌+◌, ◌≡◌, ◌<◌, ◌≤◌, List, [], ◌∷◌, ◌++◌, some, none, true, false, arith, refl, sym,
  ap, subst, ◌∙◌, length, ltb, ◌==◌, get_elem?, append_assoc, length-append, All, All-append,
  All-positions, append_nil, get_elem?-lt, inl, inr, Bool-cases,
}
use uldb.Bytes.{Bytes, bytes_eq}
use uldb.Maps.{lookup, lookup-insert}
use uldb.Index.Graph.{Relation, Edge, RelationGraph, new, add_edge, link, all_edges}
use uldb.Index.Graph.Invariant.{
  IsValid, new-IsValid, add_node-IsValid, linked, linked-IsValid, link_lem, index-lt,
}
use uldb.Index.Graph.Pushes.{EndsBelow, pushed, add_node-held, add_node-absent, grown}
use uldb.Index.Graph.Format.{loaded, add_nodes, add_edges, rebuild}
use uldb.Index.Graph.Format.Roundtrip.{row_edges, file_edges}

abbrev Distinct : List Bytes → Type 0
Distinct [] = Unit
Distinct (k ∷ ks) = All (λ j. (k == j) ≡ false) ks × Distinct ks

distinct :
    (ks : List Bytes)
    → ((i j : ℕ) (k : Bytes) → get_elem? ks i ≡ some k → get_elem? ks j ≡ some k → i ≡ j)
    → Distinct ks
distinct [] h = tt
distinct (k ∷ ks) h = (
  All-positions ks (λ i x at. elim (Bool-cases (k == x)) [
    | inl same ↦ absurd (ground (arith, h 0 (suc i) k refl, (bytes_eq.beq_iff k x).0 same, at))
    | inr apart ↦ apart
  ]),
  distinct ks (λ i j x a b. let up : suc i ≡ suc j = h (suc i) (suc j) x a b in omega arith),
)

-- No key is in the graph.
abbrev Fresh : List Bytes → RelationGraph → Type 0
Fresh ks g = All (λ k. lookup k g.key_to_idx ≡ none) ks

Fresh-grown :
    (k : Bytes) (ks : List Bytes) (g : RelationGraph)
    → All (λ j. (k == j) ≡ false) ks
    → Fresh ks g
    → Fresh ks (grown k g)
Fresh-grown k [] g a h = tt
Fresh-grown k (j ∷ ks) g a h = (
  ground (arith, lookup-insert k j (length g.idx_to_key) g.key_to_idx, a.0, h.0),
  Fresh-grown k ks g a.1 h.1,
)

unfoldable blanks : ℕ → List (List Edge)
blanks zero = []
blanks (suc n) = [] ∷ blanks n

-- A graph of the nodes alone.
record AddsNodes (ks : List Bytes) (g g' : RelationGraph) : Type 0 where
  valid : IsValid g'
  nodes : g'.idx_to_key ≡ g.idx_to_key ++ ks
  rows : g'.fwd_adj ≡ g.fwd_adj ++ blanks (length ks)
  count : g'.edge_count ≡ g.edge_count

add_nodes-AddsNodes :
    (ks : List Bytes) (g : RelationGraph)
    → IsValid g
    → Distinct ks
    → Fresh ks g
    → AddsNodes ks g (add_nodes ks g)
unfolding add_nodes blanks
add_nodes-AddsNodes [] g v d h = record {
  valid = v;
  nodes = sym (append_nil g.idx_to_key);
  rows = sym (append_nil g.fwd_adj);
  count = refl;
}
add_nodes-AddsNodes (k ∷ ks) g v d h =
    let e = add_node-absent k g h.0 in
    let valid : IsValid (grown k g) = subst (λ p. IsValid p.1) e (add_node-IsValid k g v).0 in
    let r = add_nodes-AddsNodes ks (grown k g) valid d.1 (Fresh-grown k ks g d.0 h.1) in
    rw e (record {
      valid = r.valid;
      nodes = r.nodes ∙ append_assoc g.idx_to_key (k ∷ []) ks;
      rows = r.rows ∙ append_assoc g.fwd_adj ([] ∷ []) (blanks (length ks));
      count = r.count;
    })

unfoldable push_edges : List (ℕ × ℕ × Relation) → List (List Edge) → List (List Edge)
push_edges [] adj = adj
push_edges ((s, d, r) ∷ es) adj = push_edges es (pushed s (record { dst = d; relation = r }) adj)

push_edges-append :
    (xs ys : List (ℕ × ℕ × Relation)) (adj : List (List Edge))
    → push_edges (xs ++ ys) adj ≡ push_edges ys (push_edges xs adj)
unfolding push_edges
push_edges-append [] ys adj = refl
push_edges-append ((s, d, r) ∷ xs) ys adj =
    push_edges-append xs ys (pushed s (record { dst = d; relation = r }) adj)

pushed-after :
    (e : Edge) (pre : List (List Edge)) (row : List Edge) (post : List (List Edge))
    → pushed (length pre) e (pre ++ row ∷ post) ≡ pre ++ (row ++ e ∷ []) ∷ post
unfolding pushed
pushed-after e [] row post = refl
pushed-after e (r ∷ pre) row post = ap (λ l. r ∷ l) (pushed-after e pre row post)

push_edges-row :
    (es : List Edge) (pre : List (List Edge)) (row : List Edge) (post : List (List Edge))
    → push_edges (row_edges (length pre) es) (pre ++ row ∷ post) ≡ pre ++ (row ++ es) ∷ post
unfolding push_edges row_edges
push_edges-row [] pre row post = ap (λ r. pre ++ r ∷ post) (sym (append_nil row))
push_edges-row (e ∷ es) pre row post =
    ap (push_edges (row_edges (length pre) es)) (pushed-after e pre row post)
    ∙ push_edges-row es pre (row ++ e ∷ []) post
    ∙ ap (λ r. pre ++ r ∷ post) (append_assoc row (e ∷ []) es)

-- The edges of the file, pushed in its order, are the adjacency lists again.
push_edges-file :
    (n : ℕ) (pre adj : List (List Edge))
    → n ≡ length pre
    → push_edges (file_edges n adj) (pre ++ blanks (length adj)) ≡ pre ++ adj
unfolding file_edges blanks push_edges
push_edges-file n pre [] h = refl
push_edges-file n pre (row ∷ adj) h =
    push_edges-append (row_edges n row) (file_edges (n + 1) adj) (pre ++ [] ∷ blanks (length adj))
    ∙ ap (push_edges (file_edges (n + 1) adj)) (
        ap (λ m. push_edges (row_edges m row) (pre ++ [] ∷ blanks (length adj))) h
        ∙ push_edges-row row pre [] (blanks (length adj))
        ∙ sym (append_assoc pre (row ∷ []) (blanks (length adj))))
    ∙ push_edges-file (n + 1) (pre ++ row ∷ []) adj (omega (arith, h, length-append pre (row ∷ [])))
    ∙ append_assoc pre (row ∷ []) adj

add_edge-known :
    (src dst : Bytes) (r : Relation) (g : RelationGraph) (s d : ℕ)
    → lookup src g.key_to_idx ≡ some s
    → lookup dst g.key_to_idx ≡ some d
    → add_edge src dst r g ≡ link s d r g
unfolding add_edge
add_edge-known src dst r g s d hs hd = rw (add_node-held src g s hs, add_node-held dst g d hd) refl

-- A graph of the same nodes with the edges pushed.
record AddsEdges (edges : List (ℕ × ℕ × Relation)) (g g' : RelationGraph) : Type 0 where
  valid : IsValid g'
  nodes : g'.idx_to_key ≡ g.idx_to_key
  rows : g'.fwd_adj ≡ push_edges edges g.fwd_adj
  count : g'.edge_count ≡ g.edge_count + length edges

abbrev InRange : ℕ → List (ℕ × ℕ × Relation) → Type 0
InRange n = All (λ e. (e.0 < n) × (e.1 < n))

add_edges_step :
    (keys : List Bytes) (s d : ℕ) (r : Relation) (edges : List (ℕ × ℕ × Relation))
    (g g' : RelationGraph) (src dst : Bytes)
    → get_elem? keys s ≡ some src
    → get_elem? keys d ≡ some dst
    → s < length keys
    → d < length keys
    → add_edge src dst r g ≡ some g'
    → add_edges keys ((s, d, r) ∷ edges) g ≡ add_edges keys edges g'
unfolding add_edges
add_edges_step keys s d r edges g g' src dst hs hd s_lt d_lt out =
    let s_in : ltb s (length keys) ≡ true = ground arith in
    let d_in : ltb d (length keys) ≡ true = ground arith in
    rw (s_in, d_in, hs, hd, out, add_edges) refl

add_edges-AddsEdges :
    (keys : List Bytes) (edges : List (ℕ × ℕ × Relation)) (g : RelationGraph)
    → IsValid g
    → g.idx_to_key ≡ keys
    → InRange (length keys) edges
    → (g' : RelationGraph) × (add_edges keys edges g ≡ some g') × AddsEdges edges g g'
unfolding push_edges add_edges
add_edges-AddsEdges keys [] g v same h =
    (g, refl, record { valid = v; nodes = refl; rows = refl; count = omega arith })
add_edges-AddsEdges keys ((s, d, r) ∷ edges) g v same h =
    let (src, hs) = get_elem?-lt keys s h.0.0 in
    let (dst, hd) = get_elem?-lt keys d h.0.1 in
    let at_s = v.keyed src s (subst (λ l. get_elem? l s ≡ some src) (sym same) hs) in
    let at_d = v.keyed dst d (subst (λ l. get_elem? l d ≡ some dst) (sym same) hd) in
    let s_lt = index-lt src g s v at_s in
    let d_lt = index-lt dst g d v at_d in
    let g₁ = linked s d r g in
    let out = add_edge-known src dst r g s d at_s at_d ∙ link_lem s d r g v s_lt d_lt in
    let (g', rest, a) =
      add_edges-AddsEdges keys edges g₁ (linked-IsValid s d r g v s_lt d_lt) same h.1 in
    (
      g',
      add_edges_step keys s d r edges g g₁ src dst hs hd h.0.0 h.0.1 out ∙ rest,
      record { valid = a.valid; nodes = a.nodes; rows = a.rows; count = a.count ∙ omega arith },
    )

InRange-row :
    (n src : ℕ) (es : List Edge) → src < n → All (λ e. e.dst < n) es → InRange n (row_edges src es)
unfolding row_edges
InRange-row n src [] h b = tt
InRange-row n src (e ∷ es) h b = ((h, b.0), InRange-row n src es h b.1)

InRange-file :
    (n src : ℕ) (adj : List (List Edge))
    → src + length adj ≤ n
    → EndsBelow n adj
    → InRange n (file_edges src adj)
unfolding file_edges
InRange-file n src [] h b = tt
InRange-file n src (row ∷ adj) h b =
    All-append _ (row_edges src row) (file_edges (src + 1) adj)
      (InRange-row n src row (omega arith) b.0) (InRange-file n (src + 1) adj (omega arith) b.1)

length-row_edges : (src : ℕ) (es : List Edge) → length (row_edges src es) ≡ length es
unfolding row_edges
length-row_edges src [] = refl
length-row_edges src (e ∷ es) = ap suc (length-row_edges src es)

length-file_edges :
    (src : ℕ) (adj : List (List Edge)) → length (file_edges src adj) ≡ length (all_edges adj)
unfolding file_edges all_edges
length-file_edges src [] = refl
length-file_edges src (row ∷ adj) = omega (
  arith,
  length-append (row_edges src row) (file_edges (src + 1) adj),
  length-append row (all_edges adj),
  length-row_edges src row,
  length-file_edges (src + 1) adj,
)

pub rebuild_loaded :
    (keys : List Bytes) (edges : List (ℕ × ℕ × Relation)) (g : RelationGraph)
    → add_edges keys edges (add_nodes keys new) ≡ some g
    → rebuild keys edges ≡ loaded g
unfolding rebuild
rebuild_loaded keys edges g h = rw (h, rebuild) refl

-- The nodes and the edges of a well-formed graph give a graph with the same nodes and edges.
pub rebuild-file :
    (g : RelationGraph)
    → IsValid g
    → (g' : RelationGraph) × (rebuild g.idx_to_key (file_edges 0 g.fwd_adj) ≡ loaded g')
      × IsValid g'
      × (g'.idx_to_key ≡ g.idx_to_key)
      × (g'.fwd_adj ≡ g.fwd_adj)
      × (g'.edge_count ≡ g.edge_count)
unfolding rebuild lookup
rebuild-file g v =
    let keys = g.idx_to_key in
    let edges = file_edges 0 g.fwd_adj in
    let alone : Distinct keys =
      distinct keys (λ i j k a b. ground (arith, v.keyed k i a, v.keyed k j b)) in
    let nodes =
      add_nodes-AddsNodes keys new new-IsValid alone (All-positions keys (λ i k at. refl)) in
    let in_range = InRange-file (length keys) 0 g.fwd_adj (omega (arith, v.fwd_rows)) v.fwd_ends in
    let (g', out, a) =
      add_edges-AddsEdges keys edges (add_nodes keys new) nodes.valid nodes.nodes in_range in
    let size : blanks (length keys) ≡ blanks (length g.fwd_adj) = ap blanks (sym v.fwd_rows) in
    (
      g',
      rebuild_loaded keys edges g' out,
      a.valid,
      a.nodes ∙ nodes.nodes,
      a.rows ∙ ap (push_edges edges) (nodes.rows ∙ size) ∙ push_edges-file 0 [] g.fwd_adj refl,
      omega (arith, a.count, nodes.count, length-file_edges 0 g.fwd_adj, v.fwd_count),
    )

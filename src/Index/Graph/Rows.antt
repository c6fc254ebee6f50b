-- ===== src/Index/Graph/Rows.antt =====
-- The compressed rows of a graph hold its adjacency lists (src/index/graph.rs, `build`), and what
-- `neighbours` therefore answers.
use uldb.Prelude.{
  ℕ, zero, suc, ◌+◌, ◌-◌, ◌≡◌, ◌≤◌, List, [], ◌∷◌, ◌++◌, some, arith, refl, ◌∙◌, ap, length,
  get_elem?, take, drop, length-append, take-append, get_elem?-lt, get_elem?-bound,
}
use uldb.Bytes.{bytes_eq}
use uldb.Index.Graph.{Edge, offsets, targets, relations, all_edges, rows_of, read_edges, row}

-- The edges before a node's row.
abbrev before : ℕ → List (List Edge) → ℕ
before zero adj = 0
before (suc i) [] = 0
before (suc i) (row ∷ adj) = length row + before i adj

get_elem?-offsets :
    (o i : ℕ) (adj : List (List Edge))
    → i ≤ length adj
    → get_elem? (offsets o adj) i ≡ some (o + before i adj)
unfolding offsets
get_elem?-offsets o zero [] h = ap some (omega arith)
get_elem?-offsets o zero (row ∷ adj) h = ap some (omega arith)
get_elem?-offsets o (suc i) [] h = absurd (omega arith)
get_elem?-offsets o (suc i) (row ∷ adj) h =
    get_elem?-offsets (o + length row) i adj (omega arith) ∙ ap some (omega arith)

get_elem?-targets :
    (es : List Edge) (i : ℕ) (e : Edge)
    → get_elem? es i ≡ some e
    → get_elem? (targets es) i ≡ some e.dst
unfolding targets
get_elem?-targets [] i e h = cc
get_elem?-targets (f ∷ es) zero e h = ground (arith, h)
get_elem?-targets (f ∷ es) (suc i) e h = get_elem?-targets es i e h

get_elem?-relations :
    (es : List Edge) (i : ℕ) (e : Edge)
    → get_elem? es i ≡ some e
    → get_elem? (relations es) i ≡ some e.relation
unfolding relations
get_elem?-relations [] i e h = cc
get_elem?-relations (f ∷ es) zero e h = ground (arith, h)
get_elem?-relations (f ∷ es) (suc i) e h = get_elem?-relations es i e h

drop-suc :
    (es : List Edge) (i j : ℕ) (e : Edge)
    → j ≡ suc i
    → get_elem? es i ≡ some e
    → drop i es ≡ e ∷ drop j es
drop-suc [] i j e hj h = cc
drop-suc (f ∷ es) i zero e hj h = absurd (omega (arith, hj))
drop-suc (f ∷ es) zero (suc j) e hj h =
    let z : j ≡ 0 = omega (arith, hj) in rw z (ground (arith, h))
drop-suc (f ∷ es) (suc i) (suc j) e hj h = drop-suc es i j e (omega (arith, hj)) h

-- Entries in range are read as they were pushed.
read_edges_lem :
    (es : List Edge) (ptr : List ℕ) (n i : ℕ)
    → i + n ≤ length es
    → read_edges n i (record { ptr = ptr; dst = targets es; rel = relations es })
      ≡ some (take n (drop i es))
unfolding read_edges
read_edges_lem es ptr zero i h = refl
read_edges_lem es ptr (suc n) i h =
    let (e, he) = get_elem?-lt es i (omega arith) in
    rw
      (
        get_elem?-targets es i e he,
        get_elem?-relations es i e he,
        read_edges_lem es ptr n (i + 1) (omega arith),
        drop-suc es i (i + 1) e (omega arith) he,
      )
      refl

drop-append_more : (xs ys : List Edge) (n m : ℕ) → n ≡ length xs + m → drop n (xs ++ ys) ≡ drop m ys
drop-append_more [] ys n m h = ap (λ k. drop k ys) (omega (arith, h))
drop-append_more (x ∷ xs) ys zero m h = absurd (omega (arith, h))
drop-append_more (x ∷ xs) ys (suc n) m h = drop-append_more xs ys n m (omega (arith, h))

slice :
    (adj : List (List Edge)) (i : ℕ) (es : List Edge)
    → get_elem? adj i ≡ some es
    → take (length es) (drop (before i adj) (all_edges adj)) ≡ es
unfolding all_edges
slice [] i es h = cc
slice (r ∷ adj) zero es h =
    let e : r ≡ es = ground (arith, h) in rw e (take-append (length es) es (all_edges adj) refl)
slice (r ∷ adj) (suc i) es h =
    rw (drop-append_more r (all_edges adj) (length r + before i adj) (before i adj) refl)
      (slice adj i es h)

before-suc :
    (adj : List (List Edge)) (i : ℕ) (es : List Edge)
    → get_elem? adj i ≡ some es
    → (before (suc i) adj ≡ before i adj + length es)
      × (before (suc i) adj ≤ length (all_edges adj))
unfolding all_edges
before-suc [] i es h = cc
before-suc (r ∷ adj) zero es h =
    let e : r ≡ es = ground (arith, h) in
    rw e (omega arith, omega (arith, length-append es (all_edges adj)))
before-suc (r ∷ adj) (suc i) es h =
    let ih = before-suc adj i es h in
    (omega (arith, ih.0), omega (arith, ih.1, length-append r (all_edges adj)))

-- The row that the arrays hold for a node is the node's adjacency list.
pub row-rows_of :
    (node : ℕ) (adj : List (List Edge)) (es : List Edge)
    → get_elem? adj node ≡ some es
    → row node (rows_of adj) ≡ some es
unfolding row rows_of
row-rows_of node adj es h =
    let b = before-suc adj node es h in
    let n_lt = get_elem?-bound adj node es h in
    let next : node + 1 ≡ suc node = omega arith in
    let span : before node adj + length es - before node adj ≡ length es = omega arith in
    let first : get_elem? (offsets 0 adj) node ≡ some (before node adj) =
      get_elem?-offsets 0 node adj (omega arith) ∙ ap some (omega arith) in
    let last : get_elem? (offsets 0 adj) (suc node) ≡ some (before node adj + length es) =
      get_elem?-offsets 0 (suc node) adj (omega arith) ∙ ap some (omega (arith, b.0)) in
    rw
      (
        next,
        first,
        last,
        span,
        read_edges_lem (all_edges adj) (offsets 0 adj) (length es) (before node adj)
            (omega (arith, b.0, b.1)),
        slice adj node es h,
      )
      refl

-- ===== src/Index/Graph/Neighbours/Answers.antt =====
-- The answer of `neighbours` over the adjacency lists (src/index/graph.rs).
use uldb.Prelude.{
  ℕ, ◌≡◌, ◌<◌, List, [], ◌∷◌, ◌++◌, Option, some, none, Bool, true, false, arith, refl, sym, ◌∙◌,
  if◌then◌else◌, length, ◌==◌, get_elem?, All, All-get_elem?, get_elem?-lt, get_elem?-append_left,
  get_elem?-append_right, Option-cases, Bool-cases, inl, inr,
}
use uldb.Bytes.{Bytes, bytes_eq}
use uldb.Maps.{lookup, lookup-insert}
use uldb.Index.Graph.{
  Relation, Edge, RelationGraph, add_node, rows_of, keep, name_edges, rows, neighbours,
  ensure_built,
}
use uldb.Index.Graph.Invariant.{IsValid, ensure_built_lem, index-lt}
use uldb.Index.Graph.Pushes.{EndsBelow, add_node-held, add_node-absent, grown}
use uldb.Index.Graph.Rows.{row-rows_of}

abbrev pub adjacency : Bool → RelationGraph → List (List Edge)
adjacency backward g = if backward then g.bwd_adj else g.fwd_adj

-- The answer of `neighbours` over the adjacency lists.
unfoldable pub answer :
    Bytes → Option Relation → RelationGraph → List (List Edge) → Option (List (Bytes × Relation))
answer key filter g adj = elim (lookup key g.key_to_idx) [
  | none ↦ some []
  | some i ↦ elim (get_elem? adj i) [
    | none ↦ none
    | some es ↦ name_edges g.idx_to_key (keep filter es)
  ]
]

pub below-keep :
    (n : ℕ) (f : Option Relation) (es : List Edge)
    → All (λ e. e.dst < n) es
    → All (λ e. e.dst < n) (keep f es)
unfolding keep
below-keep n f [] h = tt
below-keep n f (e ∷ es) h = ground (arith, below-keep n f es)

pub keep-append :
    (f : Option Relation) (xs ys : List Edge) → keep f (xs ++ ys) ≡ keep f xs ++ keep f ys
unfolding keep
keep-append f [] ys = refl
keep-append f (e ∷ xs) ys = ground (arith, keep-append f xs ys)

name_edges_total :
    (keys : List Bytes) (es : List Edge)
    → All (λ e. e.dst < length keys) es
    → (ns : List (Bytes × Relation)) × (name_edges keys es ≡ some ns)
unfolding name_edges
name_edges_total keys [] h = ([], refl)
name_edges_total keys (e ∷ es) h =
    let (k, hk) = get_elem?-lt keys e.dst h.0 in
    let (ns, hn) = name_edges_total keys es h.1 in ((k, e.relation) ∷ ns, rw (hk, hn) refl)

-- Two answers, one after the other.
abbrev pub joined :
    Option (List (Bytes × Relation))
    → Option (List (Bytes × Relation))
    → Option (List (Bytes × Relation))
joined (some a) (some b) = some (a ++ b)
joined _ _ = none

pub name_edges-append :
    (keys : List Bytes) (xs ys : List Edge)
    → All (λ e. e.dst < length keys) ys
    → name_edges keys (xs ++ ys) ≡ joined (name_edges keys xs) (name_edges keys ys)
unfolding name_edges
name_edges-append keys [] ys h = rw ((name_edges_total keys ys h).1) refl
name_edges-append keys (e ∷ xs) ys h =
    ground (arith, name_edges-append keys xs ys h, name_edges_total keys ys h)

name_edges-grown :
    (keys : List Bytes) (k : Bytes) (es : List Edge)
    → All (λ e. e.dst < length keys) es
    → name_edges (keys ++ k ∷ []) es ≡ name_edges keys es
unfolding name_edges
name_edges-grown keys k [] h = refl
name_edges-grown keys k (e ∷ es) h =
    rw (get_elem?-append_left keys (k ∷ []) e.dst h.0, name_edges-grown keys k es h.1) refl

pub answer-cases :
    (key : Bytes) (f : Option Relation) (g : RelationGraph) (adj : List (List Edge)) (i : ℕ)
    (es : List Edge)
    → lookup key g.key_to_idx ≡ some i
    → get_elem? adj i ≡ some es
    → answer key f g adj ≡ name_edges g.idx_to_key (keep f es)
unfolding answer
answer-cases key f g adj i es h k = rw (h, k, answer) refl

pub answer-unknown :
    (key : Bytes) (f : Option Relation) (g : RelationGraph) (adj : List (List Edge))
    → lookup key g.key_to_idx ≡ none
    → answer key f g adj ≡ some []
unfolding answer
answer-unknown key f g adj h = rw (h, answer) refl

-- The row of a key that is there.
module _ (g : RelationGraph) (v : IsValid g) (adj : List (List Edge))
    (rs : length adj ≡ length g.idx_to_key) where
  pub row_of :
      (key : Bytes) (i : ℕ)
      → lookup key g.key_to_idx ≡ some i
      → (es : List Edge) × (get_elem? adj i ≡ some es)
  row_of key i h = get_elem?-lt adj i (omega (arith, rs, index-lt key g i v h))

  pub answer_total :
      (key : Bytes) (f : Option Relation)
      → EndsBelow (length g.idx_to_key) adj
      → (ns : List (Bytes × Relation)) × (answer key f g adj ≡ some ns)
  answer_total key f below = elim (Option-cases (lookup key g.key_to_idx)) [
    | inl h ↦ ([], answer-unknown key f g adj h)
    | inr (i, h) ↦
        let (es, he) = row_of key i h in
        let (ns, hn) =
          name_edges_total g.idx_to_key (keep f es)
            (below-keep (length g.idx_to_key) f es (All-get_elem? _ adj i es below he)) in
        (ns, answer-cases key f g adj i es h he ∙ hn)
  ]

pub rows-adjacency :
    (backward : Bool) (g : RelationGraph)
    → IsValid g
    → rows backward (ensure_built g) ≡ rows_of (adjacency backward g)
rows-adjacency true g v = (ensure_built_lem g v).1
rows-adjacency false g v = (ensure_built_lem g v).0

pub adjacency-rows :
    (backward : Bool) (g : RelationGraph)
    → IsValid g
    → (length (adjacency backward g) ≡ length g.idx_to_key)
      × EndsBelow (length g.idx_to_key) (adjacency backward g)
adjacency-rows true g v = (v.bwd_rows, v.bwd_ends)
adjacency-rows false g v = (v.fwd_rows, v.fwd_ends)

-- `neighbours` answers from the adjacency lists.
pub neighbours-answer :
    (key : Bytes) (backward : Bool) (f : Option Relation) (g : RelationGraph)
    → IsValid g
    → (neighbours key backward f g).0 ≡ answer key f g (adjacency backward g)
unfolding neighbours
neighbours-answer key backward f g v =
    let keys_same = (ensure_built_lem g v).2 in
    let names_same = (ensure_built_lem g v).3 in
    elim (Option-cases (lookup key g.key_to_idx)) [
      | inl h ↦
          rw (keys_same, h, neighbours) (sym (answer-unknown key f g (adjacency backward g) h))
      | inr (i, h) ↦
          let adj = adjacency backward g in
          let (es, he) = row_of g v adj (adjacency-rows backward g v).0 key i h in
          let there = row-rows_of i adj es he in
          rw (keys_same, h, rows-adjacency backward g v, there, names_same, neighbours)
            (sym (answer-cases key f g adj i es h he))
    ]

-- A key's answer is the same in a graph with one more node.
answer-grown :
    (key k : Bytes) (f : Option Relation) (g : RelationGraph) (adj : List (List Edge))
    → IsValid g
    → length adj ≡ length g.idx_to_key
    → EndsBelow (length g.idx_to_key) adj
    → lookup k g.key_to_idx ≡ none
    → answer key f (grown k g) (adj ++ [] ∷ []) ≡ answer key f g adj
unfolding keep name_edges
answer-grown key k f g adj v rs below new_key =
    let n = length g.idx_to_key in
    let held = lookup-insert k key n g.key_to_idx in
    elim (Option-cases (lookup key g.key_to_idx)) [
      | inl h ↦ elim (Bool-cases (k == key)) [
        | inl e ↦
            answer-cases key f (grown k g) (adj ++ [] ∷ []) n [] (ground (arith, held, e))
              (get_elem?-append_right adj ([] ∷ []) n 0 (omega (arith, rs)))
            ∙ sym (answer-unknown key f g adj h)
        | inr e ↦
            answer-unknown key f (grown k g) (adj ++ [] ∷ []) (ground (arith, held, e, h))
            ∙ sym (answer-unknown key f g adj h)
      ]
      | inr (i, h) ↦
          let (es, he) = row_of g v adj rs key i h in
          let i_lt : i < length adj = omega (arith, rs, index-lt key g i v h) in
          answer-cases key f (grown k g) (adj ++ [] ∷ []) i es
            (ground (arith, held, h, new_key, bytes_eq.beq_iff k key))
            (get_elem?-append_left adj ([] ∷ []) i i_lt ∙ he)
          ∙ name_edges-grown g.idx_to_key k (keep f es)
              (below-keep n f es (All-get_elem? _ adj i es below he))
          ∙ sym (answer-cases key f g adj i es h he)
    ]

adjacency-grown :
    (backward : Bool) (k : Bytes) (g : RelationGraph)
    → adjacency backward (grown k g) ≡ adjacency backward g ++ [] ∷ []
adjacency-grown true k g = refl
adjacency-grown false k g = refl

pub answer-add_node :
    (key k : Bytes) (backward : Bool) (f : Option Relation) (g : RelationGraph)
    → IsValid g
    → answer key f (add_node k g).1 (adjacency backward (add_node k g).1)
      ≡ answer key f g (adjacency backward g)
answer-add_node key k backward f g v = elim (Option-cases (lookup k g.key_to_idx)) [
  | inl h ↦
      let a = adjacency-rows backward g v in
      rw (add_node-absent k g h, adjacency-grown backward k g)
        (answer-grown key k f g (adjacency backward g) v a.0 a.1 h)
  | inr (i, h) ↦ rw (add_node-held k g i h) refl
]

-- ===== src/Index/Graph/Neighbours.antt =====
-- What `neighbours` answers (src/index/graph.rs), and how `add_edge` changes it.
pub mod Answers
use uldb.Index.Graph.Neighbours.Answers.{
  row_of, answer_total, adjacency, answer, below-keep, keep-append, joined, name_edges-append,
  answer-cases, answer-unknown, adjacency-rows, neighbours-answer, answer-add_node,
}
use uldb.Prelude.{
  ℕ, zero, suc, ◌≡◌, ◌<◌, ◌&&◌, List, [], ◌∷◌, ◌++◌, Option, some, none, Bool, true, false, arith,
  refl, sym, ◌∙◌, ap, if◌then◌else◌, length, eqb, ◌==◌, get_elem?, All, append_nil, ==_refl,
  All-get_elem?, get_elem?-lt, get_elem?-append_left, get_elem?-append_right, Option-cases,
  Bool-cases, inl, inr,
}
use uldb.Bytes.{Bytes, bytes_eq}
use uldb.Maps.{lookup, lookup-insert}
use uldb.Index.Graph.{
  Relation, Edge, RelationGraph, add_node, add_edge, rows_of, passes, keep, name_edges, rows,
  neighbours, ensure_built,
}
use uldb.Index.Graph.Invariant.{
  IsValid, ensure_built_lem, add_node-IsValid, index-lt, link_lem, linked, linked-IsValid,
}
use uldb.Index.Graph.Pushes.{pushed, EndsBelow, add_node-held, add_node-absent, grown}
use uldb.Index.Graph.Rows.{row-rows_of}

get_elem?-pushed :
    (i j : ℕ) (e : Edge) (adj : List (List Edge)) (es : List Edge)
    → get_elem? adj j ≡ some es
    → get_elem? (pushed i e adj) j ≡ some (if eqb i j then es ++ e ∷ [] else es)
unfolding pushed
get_elem?-pushed i j e [] es h = cc
get_elem?-pushed zero zero e (r ∷ adj) es h = ground (arith, h)
get_elem?-pushed zero (suc j) e (r ∷ adj) es h = ground (arith, h)
get_elem?-pushed (suc i) zero e (r ∷ adj) es h = ground (arith, h)
get_elem?-pushed (suc i) (suc j) e (r ∷ adj) es h = ground (arith, get_elem?-pushed i j e adj es h)

-- What one more edge out of `src` adds to the answer for `key`.
abbrev pub added : Bytes → Bytes → Bytes → Relation → Option Relation → List (Bytes × Relation)
added key src dst relation f = if src == key && passes f relation then (dst, relation) ∷ [] else []

keep_one :
    (f : Option Relation) (e : Edge)
    → keep f (e ∷ []) ≡ (if passes f e.relation then e ∷ [] else [])
unfolding keep
keep_one f e = refl

name_added :
    (keys : List Bytes) (f : Option Relation) (d : ℕ) (dst src : Bytes) (relation : Relation)
    → get_elem? keys d ≡ some dst
    → name_edges keys (keep f (record { dst = d; relation = relation } ∷ []))
      ≡ some (added src src dst relation f)
unfolding keep name_edges
name_added keys f d dst src relation h = rw (==_refl src) (ground (arith, h))

joined_nil : (o : Option (List (Bytes × Relation))) → joined o (some []) ≡ o
joined_nil none = refl
joined_nil (some a) = ap some (append_nil a)

-- One more edge in the lists of one direction: from the node `s` to the node `d`.
module _ (g : RelationGraph) (v : IsValid g) (adj : List (List Edge))
    (rs : length adj ≡ length g.idx_to_key) (src dst : Bytes) (s d : ℕ)
    (hs : lookup src g.key_to_idx ≡ some s) (hd : lookup dst g.key_to_idx ≡ some d)
    (f : Option Relation) (relation : Relation) where
  answer-pushed_other :
      (key : Bytes) (i : ℕ)
      → lookup key g.key_to_idx ≡ some i
      → (src == key) ≡ false
      → answer key f g (pushed s (record { dst = d; relation = relation }) adj) ≡ answer key f g adj
  answer-pushed_other key i k other =
      let (es, he) = row_of g v adj rs key i k in
      let e : Edge = record { dst = d; relation = relation } in
      let apart : eqb s i ≡ false =
        ground (arith, other, v.named src s hs, v.named key i k, bytes_eq.beq_iff src key) in
      answer-cases key f g (pushed s e adj) i es k
        (get_elem?-pushed s i e adj es he ∙ rw apart refl)
      ∙ sym (answer-cases key f g adj i es k he)

  answer-pushed_src :
      answer src f g (pushed s (record { dst = d; relation = relation }) adj)
      ≡ joined (answer src f g adj) (some (added src src dst relation f))
  answer-pushed_src =
      let (es, he) = row_of g v adj rs src s hs in
      let e : Edge = record { dst = d; relation = relation } in
      let same : eqb s s ≡ true = ground arith in
      let new_edge = name_added g.idx_to_key f d dst src relation (v.named dst d hd) in
      let in_range : All (λ e. e.dst < length g.idx_to_key) (e ∷ []) =
        (index-lt dst g d v hd, tt) in
      let there : get_elem? (pushed s e adj) s ≡ some (es ++ e ∷ []) =
        get_elem?-pushed s s e adj es he ∙ rw same refl in
      answer-cases src f g (pushed s e adj) s (es ++ e ∷ []) hs there
      ∙ ap (name_edges g.idx_to_key) (keep-append f es (e ∷ []))
      ∙ name_edges-append g.idx_to_key (keep f es) (keep f (e ∷ []))
          (below-keep _ f (e ∷ []) in_range)
      ∙ rw (new_edge, answer-cases src f g adj s es hs he) refl

  answer-pushed :
      (key : Bytes)
      → answer key f g (pushed s (record { dst = d; relation = relation }) adj)
        ≡ joined (answer key f g adj) (some (added key src dst relation f))
  answer-pushed key = elim (Option-cases (lookup key g.key_to_idx)) [
    | inl k ↦
        let other : (src == key) ≡ false = ground (arith, hs, k, bytes_eq.beq_iff src key) in
        rw (other, answer-unknown key f g adj k)
          (answer-unknown key f g (pushed s (record { dst = d; relation = relation }) adj) k)
    | inr (i, k) ↦ elim (Bool-cases (src == key)) [
      | inl e ↦ rw (sym ((bytes_eq.beq_iff src key).0 e)) answer-pushed_src
      | inr e ↦ rw e (answer-pushed_other key i k e ∙ sym (joined_nil (answer key f g adj)))
    ]
  ]

-- The edge that `add_edge src dst relation` adds to the answer for `key`, in either direction.
abbrev pub new_edge :
    Bytes → Bool → Bytes → Bytes → Relation → Option Relation → List (Bytes × Relation)
new_edge key backward src dst relation f =
    if backward then added key dst src relation f else added key src dst relation f

answer-linked :
    (key src dst : Bytes) (backward : Bool) (f : Option Relation) (g : RelationGraph) (s d : ℕ)
    (relation : Relation)
    → IsValid g
    → lookup src g.key_to_idx ≡ some s
    → lookup dst g.key_to_idx ≡ some d
    → answer key f (linked s d relation g) (adjacency backward (linked s d relation g))
      ≡ joined
          (answer key f g (adjacency backward g))
          (some (new_edge key backward src dst relation f))
unfolding answer
answer-linked key src dst true f g s d relation v hs hd =
    answer-pushed g v g.bwd_adj v.bwd_rows dst src d s hd hs f relation key
answer-linked key src dst false f g s d relation v hs hd =
    answer-pushed g v g.fwd_adj v.fwd_rows src dst s d hs hd f relation key

-- On a well-formed graph `add_edge` succeeds, and afterwards `neighbours` answers for every key,
-- direction and filter what it answered before, with the new edge at the end where it starts
-- (backward: ends) at the key and passes the filter. Neither panics.
pub neighbours-add_edge :
    (key src dst : Bytes) (backward : Bool) (f : Option Relation) (relation : Relation)
    (g : RelationGraph)
    → IsValid g
    → (g' : RelationGraph) × (ns : List (Bytes × Relation)) × (add_edge src dst relation g
        ≡ some g')
      × ((neighbours key backward f g).0 ≡ some ns)
      × ((neighbours key backward f g').0 ≡ some (ns ++ new_edge key backward src dst relation f))
unfolding add_edge
neighbours-add_edge key src dst backward f relation g v =
    let g₁ = (add_node src g).1 in
    let g₂ = (add_node dst g₁).1 in
    let s = (add_node src g).0 in
    let d = (add_node dst g₁).0 in
    let a = add_node-IsValid src g v in
    let b = add_node-IsValid dst g₁ a.0 in
    let held = b.2 src s a.1 in
    let s_lt = index-lt src g₂ s b.0 held in
    let d_lt = index-lt dst g₂ d b.0 b.1 in
    let g' = linked s d relation g₂ in
    let before = adjacency-rows backward g v in
    let (ns, hn) = answer_total g v (adjacency backward g) before.0 key f before.1 in
    (
      g',
      ns,
      link_lem s d relation g₂ b.0 s_lt d_lt,
      neighbours-answer key backward f g v ∙ hn,
      neighbours-answer key backward f g' (linked-IsValid s d relation g₂ b.0 s_lt d_lt)
          ∙ answer-linked key src dst backward f g₂ s d relation b.0 held b.1
          ∙ rw
              (
                answer-add_node key dst backward f g₁ a.0,
                answer-add_node key src backward f g v,
                hn,
              )
              refl,
    )

-- ===== src/Index/Graph/Reports.antt =====
-- The reports of a search are its visited nodes, by their keys (src/index/graph.rs).
use uldb.Prelude.{
  ℕ, zero, suc, ◌≡◌, ◌<◌, ◌≤◌, List, [], ◌∷◌, some, arith, refl, subst, ◌∙◌, length, get_elem?,
  get_elem?-lt, All, map, ◌⊎◌, inl, inr, eqb_iff, nat_eq, Option-cases, Bool-cases, ◌==◌,
}
use uldb.Bytes.{Bytes, bytes_eq}
use uldb.Maps.{lookup}
use uldb.Index.Graph.Traverse.{Visit, TraversalResult, name_visits}
use uldb.Index.Graph.Search.{entry}

pub name_visits_total :
    (keys : List Bytes) (vs : List Visit)
    → All (λ v. v.node < length keys) vs
    → (rs : List TraversalResult) × (name_visits keys vs ≡ some rs)
unfolding name_visits
name_visits_total keys [] h = ([], refl)
name_visits_total keys (v ∷ vs) h =
    let (k, at_k) = get_elem?-lt keys v.node h.0 in
    let (rs, out) = name_visits_total keys vs h.1 in
    (record { key = k; depth = v.depth; relation = v.relation } ∷ rs, rw (at_k, out) refl)

name_visits-cons :
    (keys : List Bytes) (v : Visit) (vs : List Visit) (rs : List TraversalResult)
    → name_visits keys (v ∷ vs) ≡ some rs
    → (r : TraversalResult) × (later : List TraversalResult) × (rs ≡ r ∷ later)
      × (name_visits keys vs ≡ some later)
      × (get_elem? keys v.node ≡ some r.key)
      × (r.depth ≡ v.depth)
unfolding name_visits
name_visits-cons keys v vs rs h = elim (Option-cases (get_elem? keys v.node)) [
  | inl e ↦ absurd (ground (arith, h, e))
  | inr (k, e) ↦ elim (Option-cases (name_visits keys vs)) [
    | inl e' ↦ absurd (ground (arith, h, e, e'))
    | inr (later, e') ↦ (
      record { key = k; depth = v.depth; relation = v.relation },
      later,
      ground (arith, h, e, e'),
      e',
      e,
      refl,
    )
  ]
]

pub visit_of :
    (keys : List Bytes) (vs : List Visit) (rs : List TraversalResult) (i : ℕ) (r : TraversalResult)
    → name_visits keys vs ≡ some rs
    → get_elem? rs i ≡ some r
    → (v : Visit) × (get_elem? vs i ≡ some v)
      × (get_elem? keys v.node ≡ some r.key)
      × (r.depth ≡ v.depth)
unfolding name_visits
visit_of keys [] [] i r h at = cc
visit_of keys [] (q ∷ rs) i r h at = cc
visit_of keys (v ∷ vs) [] i r h at = cc
visit_of keys (v ∷ vs) (q ∷ rs) zero r h at =
    let (q', later, e, rest, key, depth) = name_visits-cons keys v vs (q ∷ rs) h in
    let same : q' ≡ r = ground (arith, e, at) in
    (
      v,
      refl,
      subst (λ x. get_elem? keys v.node ≡ some x.key) same key,
      subst (λ x. x.depth ≡ v.depth) same depth,
    )
visit_of keys (v ∷ vs) (q ∷ rs) (suc i) r h at =
    let (q', later, e, rest, key, depth) = name_visits-cons keys v vs (q ∷ rs) h in
    visit_of keys vs rs i r (rest ∙ ground (arith, e)) at

pub report_of :
    (keys : List Bytes) (vs : List Visit) (rs : List TraversalResult) (i : ℕ) (v : Visit)
    → name_visits keys vs ≡ some rs
    → get_elem? vs i ≡ some v
    → (r : TraversalResult) × (get_elem? rs i ≡ some r)
      × (get_elem? keys v.node ≡ some r.key)
      × (r.depth ≡ v.depth)
report_of keys [] rs i v h at = cc
report_of keys (w ∷ vs) rs zero v h at =
    let (q, later, e, rest, key, depth) = name_visits-cons keys w vs rs h in
    let wv : w ≡ v = ground (arith, at) in (q, rw e refl, rw⁻¹ wv key, rw⁻¹ wv depth)
report_of keys (w ∷ vs) rs (suc i) v h at =
    let (q, later, e, rest, key, depth) = name_visits-cons keys w vs rs h in
    rw e (report_of keys vs later i v rest at)

pub le-cases : (a b : ℕ) → (a ≤ b) ⊎ (b < a)
le-cases a b = ground arith

pub lookup-position :
    (v k : ℕ) (m : List (ℕ × ℕ)) → lookup v m ≡ some k → (i : ℕ) × (get_elem? m i ≡ some (v, k))
unfolding lookup
lookup-position v k [] h = cc
lookup-position v k ((w, j) ∷ m) h = elim (Bool-cases (w == v)) [
  | inl e ↦ (0, ground (arith, h, e, eqb_iff w v))
  | inr e ↦ let (i, at) = lookup-position v k m (ground (arith, h, e)) in (suc i, at)
]

pub entry-at :
    (vs : List Visit) (i : ℕ) (v : Visit)
    → get_elem? vs i ≡ some v
    → get_elem? (map entry vs) i ≡ some (entry v)
entry-at [] i v h = cc
entry-at (w ∷ vs) zero v h = ground (arith, h)
entry-at (w ∷ vs) (suc i) v h = entry-at vs i v h

pub visit-at :
    (vs : List Visit) (i n k : ℕ)
    → get_elem? (map entry vs) i ≡ some (n, k)
    → (v : Visit) × (get_elem? vs i ≡ some v) × (v.node ≡ n) × (v.depth ≡ k)
visit-at [] i n k h = cc
visit-at (w ∷ vs) zero n k h = (w, refl, ground (arith, h), ground (arith, h))
visit-at (w ∷ vs) (suc i) n k h = visit-at vs i n k h

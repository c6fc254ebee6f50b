-- ===== src/Index/Graph/Rounds.antt =====
-- The rounds of the breadth-first search (src/index/graph.rs, `bfs`): each keeps the invariant, and
-- there are at most as many as there are nodes.
use uldb.Prelude.{
  ℕ, zero, suc, ◌+◌, ◌≡◌, ◌<◌, ◌≤◌, List, [], ◌∷◌, Option, some, none, true, false, arith, refl, ap,
  subst, ◌∙◌, length, length-append, if_elim, get_elem?, get_elem?-lt, All, All_mono, All-positions,
  All-get_elem?, ◌⊎◌, inl, inr, if◌then◌else◌, eqb, leb, eqb_iff, ◌==◌, nat_eq, Bool-cases,
}
use uldb.Maps.{lookup, insert, contains_key, lookup-insert}
use uldb.Index.Graph.{Relation, Edge, keep, rows_of, row}
use uldb.Index.Graph.Pushes.{EndsBelow}
use uldb.Index.Graph.Rows.{row-rows_of}
use uldb.Index.Graph.Walks.{HasEdge, HasEdge-below}
use uldb.Index.Graph.Traverse.{Search, offer, offer_all, expand}
use uldb.Index.Graph.Search.{Rising, IsSearch, found, found-IsSearch, kept, below-Walk}

-- The nodes below `n` that are not visited.
unfoldable pub unvisited : ℕ → List (ℕ × ℕ) → ℕ
unvisited zero m = 0
unvisited (suc n) m = let rest = unvisited n m in if contains_key n m then rest else suc rest

contains-insert :
    (v w k : ℕ) (m : List (ℕ × ℕ))
    → contains_key w (insert v k m) ≡ (if eqb v w then true else contains_key w m)
unfolding insert contains_key
contains-insert v w k [] = ground arith
contains-insert v w k ((i, j) ∷ m) =
    ground (arith, contains-insert v w k m, eqb_iff v w, eqb_iff i v, eqb_iff i w)

unvisited-out : (n v k : ℕ) (m : List (ℕ × ℕ)) → n ≤ v → unvisited n (insert v k m) ≡ unvisited n m
unfolding unvisited
unvisited-out zero v k m h = refl
unvisited-out (suc n) v k m h = ground (arith, contains-insert v n k m, unvisited-out n v k m)

pub unvisited-insert :
    (n v k : ℕ) (m : List (ℕ × ℕ))
    → v < n
    → contains_key v m ≡ false
    → unvisited n (insert v k m) + 1 ≡ unvisited n m
unfolding unvisited
unvisited-insert zero v k m h absent = absurd (omega arith)
unvisited-insert (suc n) v k m h absent =
    ground
      (arith, contains-insert v n k m, unvisited-out n v k m, unvisited-insert n v k m, eqb_iff v n)

pub unvisited_all : (n : ℕ) → unvisited n [] ≡ n
unfolding unvisited contains_key
unvisited_all zero = refl
unvisited_all (suc n) = ap suc (unvisited_all n)

lookup-contains :
    (v : ℕ) (m : List (ℕ × ℕ)) → contains_key v m ≡ true → (k : ℕ) × (lookup v m ≡ some k)
unfolding lookup contains_key
lookup-contains v [] h = cc
lookup-contains v ((w, k) ∷ m) h = elim (Bool-cases (w == v)) [
  | inl e ↦ (k, rw e refl)
  | inr e ↦ let (j, at_j) = lookup-contains v m (ground (arith, h, e)) in (j, rw e at_j)
]

popped :
    (x : ℕ × ℕ) (rest : List (ℕ × ℕ)) (i : ℕ) (y : ℕ × ℕ)
    → get_elem? (x ∷ rest) i ≡ some y
    → (x ≡ y) ⊎ ((j : ℕ) × (get_elem? rest j ≡ some y))
popped x rest zero y h = inl (ground (arith, h))
popped x rest (suc i) y h = inr (i, h)

-- The rounds that the search has left at most.
abbrev pub rounds : ℕ → Search → ℕ
rounds n s = length s.queue + unvisited n s.visited

module _ (adj : List (List Edge)) (f : Option Relation) (max_depth start : ℕ)
    (below : EndsBelow (length adj) adj) where
  -- What offering the edges `es` out of `u` leads to.
  pub record Offered (d u : ℕ) (es : List Edge) (s s' : Search) : Type 0 where
    pub search : IsSearch adj f max_depth start d (some u) s'
    pub keeps : (v k : ℕ) → lookup v s.visited ≡ some k → lookup v s'.visited ≡ some k
    pub reached : All (λ e. (j : ℕ) × (lookup e.dst s'.visited ≡ some j) × (j ≤ d + 1)) es
    pub same : rounds (length adj) s' ≡ rounds (length adj) s

  module _ (d u : ℕ) (in_reach : d < max_depth) where
    offer-Offered :
        (e : Edge) (s : Search)
        → HasEdge adj f u e
        → lookup u s.visited ≡ some d
        → IsSearch adj f max_depth start d (some u) s
        → Offered d u (e ∷ []) s (offer (d + 1) e s)
    unfolding offer
    offer-Offered e s edge at_u i =
        let found_e = found adj f max_depth start d u e in_reach edge in
        if_elim (Offered d u (e ∷ []) s) (contains_key e.dst s.visited) s (found_e s)
          (λ held.
            let (j, at_j) = lookup-contains e.dst s.visited held in
            record {
              search = i;
              keeps = λ v k h. h;
              same = refl;
              reached = ((j, at_j, (i.sound e.dst j at_j).2), tt);
            })
          (λ absent. record {
            search =
                found-IsSearch adj f max_depth start d u e in_reach edge (some u) s absent at_u i;
            keeps = kept adj f max_depth start d u e in_reach edge s absent;
            reached = (
              (d + 1, ground (arith, lookup-insert e.dst e.dst (d + 1) s.visited), omega arith),
              tt,
            );
            same = omega (
              arith,
              length-append s.queue ((e.dst, d + 1) ∷ []),
              unvisited-insert (length adj) e.dst (d + 1) s.visited
                  (HasEdge-below adj f (length adj) u e below edge) absent,
            );
          })

    pub offer_all-Offered :
        (es : List Edge) (s : Search)
        → All (HasEdge adj f u) es
        → lookup u s.visited ≡ some d
        → IsSearch adj f max_depth start d (some u) s
        → Offered d u es s (offer_all (d + 1) es s)
    unfolding offer_all
    offer_all-Offered [] s edges at_u i = record {
      search = i;
      keeps = λ v k h. h;
      reached = tt;
      same = refl;
    }
    offer_all-Offered (e ∷ es) s edges at_u i =
        let one = offer-Offered e s edges.0 at_u i in
        let s₁ = offer (d + 1) e s in
        let all = offer_all-Offered es s₁ edges.1 (one.keeps u d at_u) one.search in
        let (j, at_j, le) = one.reached.0 in
        record {
          search = all.search;
          keeps = λ v k h. all.keeps v k (one.keeps v k h);
          reached = ((j, all.keeps e.dst j at_j, le), all.reached);
          same = all.same ∙ one.same;
        }

  popped-IsSearch :
      (d u k : ℕ) (rest : List (ℕ × ℕ)) (s : Search)
      → s.queue ≡ (u, k) ∷ rest
      → IsSearch adj f max_depth start d none s
      → IsSearch adj f max_depth start k (some u) (record s { queue = rest })
  popped-IsSearch d u k rest s q i =
      let up : Rising d ((u, k) ∷ rest) = subst (λ queue. Rising d queue) q i.rising in
      let all : All (λ p. (lookup p.0 s.visited ≡ some p.1) × (p.1 ≤ d + 1)) ((u, k) ∷ rest) =
        subst (λ queue. All (λ p. (lookup p.0 s.visited ≡ some p.1) × (p.1 ≤ d + 1)) queue) q
          i.queued in
      record {
        started = i.started;
        recorded = i.recorded;
        once = i.once;
        held = i.held;
        sound = λ v j h. let old = i.sound v j h in (old.0, old.1, omega (arith, old.2, up.0));
        queued = All_mono _ _ (λ p h. (h.0, omega (arith, h.1, up.0))) rest all.1;
        rising = up.1;
        closed = λ v j e h out. elim (i.closed v j e h out) [
          | inl (a, p) ↦ elim (popped (u, k) rest a (v, j) (rw⁻¹ q p)) [
            | inl same ↦ inr (inr (inl (ap (λ x. some x.0) same)))
            | inr later ↦ inl later
          ]
          | inr (inl le) ↦ inr (inl le)
          | inr (inr (inl skipped)) ↦ cc
          | inr (inr (inr done)) ↦ inr (inr (inr done))
        ];
      }

  -- One round of the loop: a node leaves the queue.
  pub record Round (d : ℕ) (s : Search) (rest : List (ℕ × ℕ)) (s' : Search) : Type 0 where
    pub search : IsSearch adj f max_depth start d none s'
    pub fewer : rounds (length adj) s' + 1 ≡ rounds (length adj) s

  -- The edges of a row are edges out of its node.
  out_of : (u : ℕ) (es : List Edge) → get_elem? adj u ≡ some es → All (HasEdge adj f u) (keep f es)
  out_of u es h =
      All-positions (keep f es) (λ i e at. record { row = es; at = i; row_of = h; edge_of = at })

  -- The edges out of the node that was expanded lead to visited nodes.
  row_done :
      (u k v j : ℕ) (e : Edge) (es : List Edge) (s s' : Search)
      → ◌≡◌ {A = Option ℕ} (some u) (some v)
      → get_elem? adj u ≡ some es
      → lookup u s.visited ≡ some k
      → lookup v s'.visited ≡ some j
      → HasEdge adj f v e
      → Offered k u (keep f es) s s'
      → (l : ℕ) × (lookup e.dst s'.visited ≡ some l) × (l ≤ j + 1)
  row_done u k v j e es s s' same he at_u at_v out o =
      let uv : u ≡ v = ground (arith, same) in
      let depth : k ≡ j = ground (arith, uv, o.keeps u k at_u, at_v) in
      let rows : out.row ≡ es = ground (arith, uv, he, out.row_of) in
      let at = subst (λ r. get_elem? (keep f r) out.at ≡ some e) rows out.edge_of in
      rw⁻¹ depth (
        All-get_elem? (λ x. (l : ℕ) × (lookup x.dst s'.visited ≡ some l) × (l ≤ k + 1)) (keep f es)
          out.at e o.reached at)

  pub expand-Round :
      (d u k : ℕ) (rest : List (ℕ × ℕ)) (s : Search)
      → start < length adj
      → s.queue ≡ (u, k) ∷ rest
      → IsSearch adj f max_depth start d none s
      → (s' : Search) × (expand (rows_of adj) f max_depth u k (record s { queue = rest }) ≡ some s')
        × Round k s rest s'
  unfolding expand
  expand-Round d u k rest s lt q i =
      let p = popped-IsSearch d u k rest s q i in
      let all : All (λ p. (lookup p.0 s.visited ≡ some p.1) × (p.1 ≤ d + 1)) ((u, k) ∷ rest) =
        subst (λ queue. All (λ p. (lookup p.0 s.visited ≡ some p.1) × (p.1 ≤ d + 1)) queue) q
          i.queued in
      let at_u : lookup u s.visited ≡ some k = all.0.0 in
      let s₀ : Search = record s { queue = rest } in
      let one_less : rounds (length adj) s₀ + 1 ≡ rounds (length adj) s = rw q (omega arith) in
      elim (Bool-cases (leb max_depth k)) [
        | inl deep ↦ (
          s₀,
          rw deep refl,
          record {
            fewer = one_less;
            search = record {
              started = p.started;
              sound = p.sound;
              queued = p.queued;
              rising = p.rising;
              recorded = p.recorded;
              once = p.once;
              held = p.held;
              closed = λ v j e h out. elim (p.closed v j e h out) [
                | inr (inr (inl same)) ↦ inr (inl (ground (arith, same, h, at_u, deep)))
                | inr (inr (inr x)) ↦ inr (inr (inr x))
                | inr (inl x) ↦ inr (inl x)
                | inl x ↦ inl x
              ];
            };
          },
        )
        | inr shallow ↦
            let (es, he) =
              get_elem?-lt adj u
                (below-Walk adj f max_depth start (length adj) below lt u k (i.sound u k at_u).0) in
            let next : row u (rows_of adj) ≡ some es = row-rows_of u adj es he in
            let o =
              offer_all-Offered k u (ground (arith, shallow)) (keep f es) s₀ (out_of u es he) at_u
                p in
            let o_search = o.search in
            let s' = offer_all (k + 1) (keep f es) s₀ in
            (
              s',
              rw (shallow, next) refl,
              record {
                fewer = rw o.same one_less;
                search = record {
                  started = o_search.started;
                  sound = o_search.sound;
                  queued = o_search.queued;
                  rising = o_search.rising;
                  recorded = o_search.recorded;
                  once = o_search.once;
                  held = o_search.held;
                  closed = λ v j e h out. elim (o_search.closed v j e h out) [
                    | inr (inr (inl same)) ↦
                        inr (inr (inr (row_done u k v j e es s₀ s' same he at_u h out o)))
                    | inr (inr (inr x)) ↦ inr (inr (inr x))
                    | inr (inl x) ↦ inr (inl x)
                    | inl x ↦ inl x
                  ];
                };
              },
            )
      ]

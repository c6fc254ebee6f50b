-- ===== src/Query/Planner/Plans.antt =====
-- What a plan holds, and in which order (src/query/planner.rs, `plan`).
use uldb.Prelude.{
  ℕ, ◌+◌, ◌≡◌, List, [], ◌∷◌, Bool, true, false, ◌&&◌, not, if◌then◌else◌, eqb, leb, length, arith,
}
use uldb.Query.Planner.{
  QueryStep, bm25, hnsw, fuzzy, graph, step_tag, QuerySpec, is_empty, looks_symbol_like, has_text,
  plan_steps, plan, contains, retain_new,
}

-- When a query needs a step: text for BM25, a vector for HNSW, symbol-like text for the fuzzy
-- matcher, and relations for the graph.
abbrev pub needs : {F : Type 0} → QueryStep → QuerySpec F → Bool
needs bm25 q = has_text q.text
needs hnsw q = not (is_empty q.vector)
needs fuzzy q = has_text q.text && looks_symbol_like q.text
needs graph q = not (is_empty q.relations)

abbrev needed : QueryStep → Bool → Bool → Bool → Bool → Bool
needed bm25 t v g s = t
needed hnsw t v g s = v
needed fuzzy t v g s = t && s
needed graph t v g s = g

abbrev pub count : QueryStep → List QueryStep → ℕ
count s [] = 0
count s (t ∷ steps) = let n = count s steps in if eqb (step_tag t) (step_tag s) then n + 1 else n

-- The first of the two steps in the list is `s`.
abbrev pub first_is : QueryStep → QueryStep → List QueryStep → Bool
first_is s t [] = false
first_is s t (u ∷ steps) =
    let rest = first_is s t steps in
    if eqb (step_tag u) (step_tag s)
    then true
    else if eqb (step_tag u) (step_tag t)
    then false
    else rest

count-plan_steps :
    (s : QueryStep) (t v g i h : Bool)
    → count s (plan_steps t v g i h) ≡ (if needed s t v g i then 1 else 0)
unfolding plan_steps retain_new contains
count-plan_steps bm25 t v g i h = ground arith
count-plan_steps hnsw t v g i h = ground arith
count-plan_steps fuzzy t v g i h = ground arith
count-plan_steps graph t v g i h = ground arith

-- A plan holds every step that the query needs once, and no other.
pub count-plan :
    {F : Type 0} (s : QueryStep) (q : QuerySpec F) → count s (plan q) ≡ (if needs s q then 1 else 0)
unfolding plan
count-plan bm25 q =
    count-plan_steps bm25 (has_text q.text) (not (is_empty q.vector)) (not (is_empty q.relations))
      (looks_symbol_like q.text) (leb (length q.text) 32)
count-plan hnsw q =
    count-plan_steps hnsw (has_text q.text) (not (is_empty q.vector)) (not (is_empty q.relations))
      (looks_symbol_like q.text) (leb (length q.text) 32)
count-plan fuzzy q =
    count-plan_steps fuzzy (has_text q.text) (not (is_empty q.vector)) (not (is_empty q.relations))
      (looks_symbol_like q.text) (leb (length q.text) 32)
count-plan graph q =
    count-plan_steps graph (has_text q.text) (not (is_empty q.vector)) (not (is_empty q.relations))
      (looks_symbol_like q.text) (leb (length q.text) 32)

plan_steps-order :
    (s : QueryStep) (t v g i h : Bool)
    → (first_is graph s (plan_steps t v g i h) ≡ g)
      × (first_is fuzzy bm25 (plan_steps t v g i h) ≡ (t && i && h))
unfolding plan_steps retain_new contains
plan_steps-order bm25 t v g i h = (ground arith, ground arith)
plan_steps-order hnsw t v g i h = (ground arith, ground arith)
plan_steps-order fuzzy t v g i h = (ground arith, ground arith)
plan_steps-order graph t v g i h = (ground arith, ground arith)

-- The graph comes before every other step of a plan. Symbol-like text of at most 32 bytes has the
-- fuzzy matcher before BM25, longer text has BM25 before it.
pub plan-order :
    {F : Type 0} (s : QueryStep) (q : QuerySpec F)
    → (first_is graph s (plan q) ≡ not (is_empty q.relations))
      × (first_is fuzzy bm25 (plan q)
          ≡ (has_text q.text && looks_symbol_like q.text && leb (length q.text) 32))
unfolding plan
plan-order s q =
    plan_steps-order s (has_text q.text) (not (is_empty q.vector)) (not (is_empty q.relations))
      (looks_symbol_like q.text) (leb (length q.text) 32)

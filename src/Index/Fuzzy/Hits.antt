-- ===== src/Index/Fuzzy/Hits.antt =====
-- How often the index of a symbol occurs in the lists of src/index/fuzzy.rs, and how many hits a
-- query counts for it.
use uldb.Prelude.{
  ℕ, ◌+◌, ◌≡◌, ◌≤◌, ◌<◌, List, [], ◌∷◌, ◌++◌, some, none, true, if◌then◌else◌, arith, refl, ◌∙◌,
  length, eqb, eqb_iff, ◌==◌, All, All_mono, Bool-cases, inl, inr, nat_eq,
}
use uldb.Bytes.{Bytes, bytes_eq, blt}
use uldb.Bytes.Order.{blt_irrefl, blt_trans, blt_total}
use uldb.Maps.{lookup, insert, lookup-insert}
use uldb.Index.Fuzzy.{insert_unique, sort_dedup, held, index_trigrams, count_hits, count_trigrams}

-- Occurrences of an index in a list.
abbrev pub occurs : ℕ → List ℕ → ℕ
occurs i [] = 0
occurs i (j ∷ js) = if eqb j i then occurs i js + 1 else occurs i js

occurs-append : (i : ℕ) (xs ys : List ℕ) → occurs i (xs ++ ys) ≡ occurs i xs + occurs i ys
occurs-append i [] ys = omega arith
occurs-append i (x ∷ xs) ys = ground (arith, occurs-append i xs ys)

pub occurs_below : (n : ℕ) (js : List ℕ) → All (λ j. j < n) js → occurs n js ≡ 0
occurs_below n [] h = refl
occurs_below n (j ∷ js) h = ground (arith, h, eqb_iff j n, occurs_below n js h.1)

-- Occurrences of a trigram.
abbrev times : Bytes → List Bytes → ℕ
times t [] = 0
times t (u ∷ us) = if u == t then times t us + 1 else times t us

-- Trigrams in strictly rising order.
abbrev Above : Bytes → List Bytes → Type 0
Above t = All (λ u. blt t u ≡ true)

abbrev Ascending : List Bytes → Type 0
Ascending [] = Unit
Ascending (t ∷ ts) = Above t ts × Ascending ts

insert_unique-Above :
    (s t : Bytes) (us : List Bytes) → blt s t ≡ true → Above s us → Above s (insert_unique t us)
unfolding insert_unique
insert_unique-Above s t [] st h = (st, tt)
insert_unique-Above s t (u ∷ us) st h = ground (arith, st, h, insert_unique-Above s t us st h.1)

Above-trans : (s t : Bytes) (us : List Bytes) → blt s t ≡ true → Above t us → Above s us
Above-trans s t us st h =
    All_mono (λ u. blt t u ≡ true) (λ u. blt s u ≡ true) (λ u tu. blt_trans s t u st tu) us h

insert_unique-Ascending :
    (t : Bytes) (us : List Bytes) → Ascending us → Ascending (insert_unique t us)
unfolding insert_unique
insert_unique-Ascending t [] h = (tt, tt)
insert_unique-Ascending t (u ∷ us) h = elim (Bool-cases (t == u)) [
  | inl same ↦ rw (same, insert_unique) h
  | inr apart ↦ elim (Bool-cases (blt t u)) [
    | inl lt ↦ rw (apart, lt, insert_unique) ((lt, Above-trans t u us lt h.0), h)
    | inr ge ↦
        let above : blt u t ≡ true =
          ground (arith, blt_total t u ge, apart, bytes_eq.beq_iff t u, Bool-cases (blt u t)) in
        rw (apart, ge, insert_unique)
          (insert_unique-Above u t us above h.0, insert_unique-Ascending t us h.1)
  ]
]

sort_dedup-Ascending : (ts : List Bytes) → Ascending (sort_dedup ts)
unfolding sort_dedup
sort_dedup-Ascending [] = tt
sort_dedup-Ascending (t ∷ ts) = insert_unique-Ascending t (sort_dedup ts) (sort_dedup-Ascending ts)

times-Above : (t : Bytes) (us : List Bytes) → Above t us → times t us ≡ 0
times-Above t [] h = refl
times-Above t (u ∷ us) h =
    ground (arith, h, bytes_eq.beq_iff u t, blt_irrefl t, times-Above t us h.1)

times-Ascending : (t : Bytes) (us : List Bytes) → Ascending us → times t us ≤ 1
times-Ascending t [] h = omega arith
times-Ascending t (u ∷ us) h =
    ground (arith, bytes_eq.beq_iff u t, times-Above u us h.0, times-Ascending t us h.1)

-- Indexing a symbol adds its index to the list of a trigram once for each time the trigram occurs.
occurs-index_trigrams :
    (i idx : ℕ) (t : Bytes) (ts : List Bytes) (index : List (Bytes × List ℕ))
    → occurs i (held (lookup t (index_trigrams idx ts index)))
      ≡ occurs i (held (lookup t index)) + (if eqb idx i then times t ts else 0)
unfolding index_trigrams
occurs-index_trigrams i idx t [] index = ground arith
occurs-index_trigrams i idx t (u ∷ ts) index =
    occurs-index_trigrams i idx t ts (insert u (held (lookup u index) ++ idx ∷ []) index)
    ∙ rw (lookup-insert u t (held (lookup u index) ++ idx ∷ []) index)
        (ground (arith, bytes_eq.beq_iff u t, occurs-append i (held (lookup u index)) (idx ∷ [])))

-- No list names an index twice.
abbrev pub Once : List (Bytes × List ℕ) → Type 0
Once index = (t : Bytes) (i : ℕ) → occurs i (held (lookup t index)) ≤ 1

-- An index that no list names can be added to the lists of a symbol's trigrams.
pub index_trigrams-Once :
    (idx : ℕ) (ts : List Bytes) (index : List (Bytes × List ℕ))
    → ((t : Bytes) → occurs idx (held (lookup t index)) ≡ 0)
    → Once index
    → Once (index_trigrams idx (sort_dedup ts) index)
index_trigrams-Once idx ts index fresh once t i = ground (
  arith,
  occurs-index_trigrams i idx t (sort_dedup ts) index,
  times-Ascending t (sort_dedup ts) (sort_dedup-Ascending ts),
  fresh t,
  once t i,
  eqb_iff idx i,
)

-- The hits so far and the occurrences that are left are at most a bound.
abbrev Within : ℕ → List ℕ → ℕ × ℕ → Type 0
Within bound is p = p.1 + occurs p.0 is ≤ bound

insert-All :
    (P : ℕ × ℕ → Type 0) (idx n : ℕ) (counts : List (ℕ × ℕ))
    → P (idx, n)
    → All P counts
    → All P (insert idx n counts)
unfolding insert
insert-All P idx n [] p h = (p, tt)
insert-All P idx n ((i, k) ∷ counts) p h =
    ground (arith, p, h, insert-All P idx n counts p h.1, eqb_iff i idx)

lookup-Within :
    (bound : ℕ) (is : List ℕ) (idx : ℕ) (counts : List (ℕ × ℕ))
    → All (Within bound (idx ∷ is)) counts
    → occurs idx is + 1 ≤ bound
    → elim (lookup idx counts) [ none ↦ 1 | some n ↦ n + 1 ] + occurs idx is ≤ bound
unfolding lookup
lookup-Within bound is idx [] h b = omega (arith, b)
lookup-Within bound is idx ((i, k) ∷ counts) h b =
    ground (arith, h, b, eqb_iff i idx, lookup-Within bound is idx counts h.1 b)

count_hits-Within :
    (bound : ℕ) (is : List ℕ) (counts : List (ℕ × ℕ))
    → ((i : ℕ) → occurs i is ≤ bound)
    → All (Within bound is) counts
    → All (λ p. p.1 ≤ bound) (count_hits is counts)
unfolding count_hits
count_hits-Within bound [] counts b h =
    All_mono (Within bound []) (λ p. p.1 ≤ bound) (λ p w. omega (arith, w)) counts h
count_hits-Within bound (idx ∷ is) counts b h =
    count_hits-Within bound is _ (λ i. ground (arith, b i, eqb_iff idx i))
      (insert-All (Within bound is) idx _ counts
        (lookup-Within bound is idx counts h (ground (arith, b idx, eqb_iff idx idx)))
        (All_mono (Within bound (idx ∷ is)) (Within bound is)
          (λ p w. ground (arith, w, eqb_iff idx p.0)) counts h))

-- Each trigram counts at most one more hit.
count_trigrams-bound :
    (k : ℕ) (ts : List Bytes) (index : List (Bytes × List ℕ)) (counts : List (ℕ × ℕ))
    → Once index
    → All (λ p. p.1 ≤ k) counts
    → All (λ p. p.1 ≤ k + length ts) (count_trigrams ts index counts)
unfolding count_trigrams
count_trigrams-bound k [] index counts once h =
    All_mono (λ p. p.1 ≤ k) (λ p. p.1 ≤ k + 0) (λ p b. omega (arith, b)) counts h
count_trigrams-bound k (t ∷ ts) index counts once h =
    let is = held (lookup t index) in
    let one =
      count_hits-Within (k + 1) is counts (λ i. omega (arith, once t i))
        (All_mono (λ p. p.1 ≤ k) (Within (k + 1) is) (λ p b. omega (arith, b, once t p.0)) counts
          h) in
    All_mono (λ p. p.1 ≤ k + 1 + length ts) (λ p. p.1 ≤ k + length (t ∷ ts))
      (λ p b. omega (arith, b)) _
      (count_trigrams-bound (k + 1) ts index (count_hits is counts) once one)

-- A query counts at most one hit for each of its trigrams.
pub count_trigrams-hits :
    (ts : List Bytes) (index : List (Bytes × List ℕ))
    → Once index
    → All (λ p. p.1 ≤ length ts) (count_trigrams ts index [])
count_trigrams-hits ts index once =
    All_mono (λ p. p.1 ≤ 0 + length ts) (λ p. p.1 ≤ length ts) (λ p b. omega (arith, b)) _
      (count_trigrams-bound 0 ts index [] once tt)

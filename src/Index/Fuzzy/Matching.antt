-- ===== src/Index/Fuzzy/Matching.antt =====
-- The fuzzy index and its queries (src/index/fuzzy.rs).
use uldb.Prelude.{
  ltb, false, ℕ, ◌+◌, ◌-◌, ◌≡◌, ◌<◌, ◌≤◌, List, [], ◌∷◌, ◌++◌, some, arith, refl, length,
  length-append, get_elem?, get_elem?-lt, get_elem?-snoc, All, All_mono, All-append, nat_eq,
}
use uldb.Bytes.{Bytes, bytes_eq}
use uldb.Index.Fuzzy.Hits.{Once, occurs_below, index_trigrams-Once}
use uldb.Maps.{lookup, insert}
use uldb.Index.Fuzzy.{
  FuzzyMatcher, new, normalize, trigrams, sort_dedup, index_trigrams, add, count_hits,
  count_trigrams, candidates, Jaccard, held,
}

abbrev AllBelow : ℕ → List ℕ → Type 0
AllBelow n = All (λ i. i < n)

-- The columns of the index have an entry for each symbol, and its lists name symbols only, each at
-- most once.
pub record IsIndexed (m : FuzzyMatcher) : Type 0 where
  pub normal_forms :
      (i : ℕ) (s : Bytes)
      → get_elem? m.symbols i ≡ some s
      → get_elem? m.normalized i ≡ some (normalize s)
  pub normal_count : length m.normalized ≡ length m.symbols
  pub counts : length m.tri_counts ≡ length m.symbols
  pub in_range : All (λ p. AllBelow (length m.symbols) p.1) m.index
  pub once : Once m.index

pub new-IsIndexed : (max_distance : ℕ) → IsIndexed (new max_distance)
new-IsIndexed max_distance = record {
  normal_forms = λ i s h. cc;
  normal_count = refl;
  counts = refl;
  in_range = tt;
  once = λ t i. unfold lookup in omega arith;
}

below_mono : (n m : ℕ) → n ≤ m → (is : List ℕ) → AllBelow n is → AllBelow m is
below_mono n m h is b = All_mono (λ i. i < n) (λ i. i < m) (λ i lt. omega arith) is b

lookup-below :
    (n : ℕ) (t : Bytes) (index : List (Bytes × List ℕ))
    → All (λ p. AllBelow n p.1) index
    → AllBelow n (held (lookup t index))
unfolding lookup
lookup-below n t [] h = tt
lookup-below n t ((u, is) ∷ index) h = ground (arith, h, lookup-below n t index h.1)

insert-below :
    (n : ℕ) (t : Bytes) (is : List ℕ) (index : List (Bytes × List ℕ))
    → AllBelow n is
    → All (λ p. AllBelow n p.1) index
    → All (λ p. AllBelow n p.1) (insert t is index)
unfolding insert
insert-below n t is [] b h = (b, tt)
insert-below n t is ((u, js) ∷ index) b h = ground (arith, h, b, insert-below n t is index b h.1)

index_trigrams-below :
    (n idx : ℕ) (ts : List Bytes) (index : List (Bytes × List ℕ))
    → idx < n
    → All (λ p. AllBelow n p.1) index
    → All (λ p. AllBelow n p.1) (index_trigrams idx ts index)
unfolding index_trigrams
index_trigrams-below n idx [] index b h = h
index_trigrams-below n idx (t ∷ ts) index b h =
    index_trigrams-below n idx ts (insert t (held (lookup t index) ++ idx ∷ []) index) b (
      insert-below n t (held (lookup t index) ++ idx ∷ []) index
        (All-append _ (held (lookup t index)) (idx ∷ []) (lookup-below n t index h) (b, tt)) h)

-- Adding a symbol keeps the index consistent.
pub add-IsIndexed : (symbol : Bytes) (m : FuzzyMatcher) → IsIndexed m → IsIndexed (add symbol m)
unfolding add
add-IsIndexed symbol m v =
    let n' = length-append m.symbols (symbol ∷ []) in
    record {
      normal_forms = λ i s h. ground (
        arith,
        get_elem?-snoc m.symbols symbol i,
        h,
        v.normal_forms i s,
        v.normal_count,
        get_elem?-snoc m.normalized (normalize symbol) i,
      );
      normal_count =
          omega (arith, n', length-append m.normalized (normalize symbol ∷ []), v.normal_count);
      counts = omega (
        arith,
        n',
        length-append m.tri_counts (length (sort_dedup (trigrams (normalize symbol))) ∷ []),
        v.counts,
      );
      in_range =
          index_trigrams-below (length (m.symbols ++ symbol ∷ [])) (length m.symbols)
            (sort_dedup (trigrams (normalize symbol))) m.index (omega (arith, n'))
            (All_mono _ _ (λ p b. below_mono _ _ (omega (arith, n')) p.1 b) m.index v.in_range);
      once =
          index_trigrams-Once (length m.symbols) (trigrams (normalize symbol)) m.index
            (λ t.
              occurs_below (length m.symbols) (held (lookup t m.index))
                (lookup-below (length m.symbols) t m.index v.in_range))
            v.once;
    }

-- Counting and scoring.
count_insert-below :
    (n idx k : ℕ) (counts : List (ℕ × ℕ))
    → idx < n
    → All (λ p. p.0 < n) counts
    → All (λ p. p.0 < n) (insert idx k counts)
unfolding insert
count_insert-below n idx k [] b h = (b, tt)
count_insert-below n idx k ((i, j) ∷ counts) b h =
    ground (arith, h, b, count_insert-below n idx k counts b h.1)

count_hits-below :
    (n : ℕ) (is : List ℕ) (counts : List (ℕ × ℕ))
    → AllBelow n is
    → All (λ p. p.0 < n) counts
    → All (λ p. p.0 < n) (count_hits is counts)
unfolding count_hits
count_hits-below n [] counts b h = h
count_hits-below n (i ∷ is) counts b h =
    count_hits-below n is _ b.1 (count_insert-below n i _ counts b.0 h)

pub count_trigrams-below :
    (n : ℕ) (ts : List Bytes) (index : List (Bytes × List ℕ)) (counts : List (ℕ × ℕ))
    → All (λ p. AllBelow n p.1) index
    → All (λ p. p.0 < n) counts
    → All (λ p. p.0 < n) (count_trigrams ts index counts)
unfolding count_trigrams
count_trigrams-below n [] index counts b h = h
count_trigrams-below n (t ∷ ts) index counts b h =
    count_trigrams-below n ts index _ b
      (count_hits-below n (held (lookup t index)) counts (lookup-below n t index b) h)

pub candidates_total :
    (q n : ℕ) (tri_counts : List ℕ) (counts : List (ℕ × ℕ))
    → length tri_counts ≡ n
    → All (λ p. p.0 < n) counts
    → All (λ p. p.1 ≤ q) counts
    → (cs : List (Jaccard × ℕ)) × (candidates q tri_counts counts ≡ some cs) × All (λ c. c.1 < n) cs
unfolding candidates
candidates_total q n tri_counts [] h b few = ([], refl, tt)
candidates_total q n tri_counts ((idx, hits) ∷ counts) h b few =
    let (t, at) = get_elem?-lt tri_counts idx (omega (arith, h, b.0)) in
    let (cs, out, c) = candidates_total q n tri_counts counts h b.1 few.1 in
    let enough : ltb (q + t) hits ≡ false = ground (arith, few) in
    (
      (record { hits = hits; union = q + t - hits }, idx) ∷ cs,
      rw (at, enough, out, candidates) refl,
      (b.0, c),
    )

-- ===== src/Index/Fuzzy.antt =====
-- src/index/fuzzy.rs: normalization, trigrams, the bounded edit distance, and the index.
-- A Jaccard similarity is kept as its fraction, hits over union: for counts below 2^26, quotients
-- in double precision are in the order of the fractions.
pub mod Edits
pub mod Distance
pub mod Hits
pub mod Matching
pub mod Queries
use uldb.Prelude.{
  ℕ, zero, suc, ◌+◌, ◌-◌, ◌*◌, List, [], ◌∷◌, ◌++◌, Option, some, none, Bool, true, false, ◌&&◌,
  ◌||◌, not, if◌then◌else◌, length, eqb, ltb, leb, ◌==◌, get_elem?, take, map, min, max, nat_eq,
}
use uldb.Prelude.Sorting.{insert_by, sort_by}
use uldb.Bytes.{Bytes, bytes_eq, blt}
use uldb.Bytes.Utf8.{chars}
use uldb.Maps.{lookup, insert}

-- `to_ascii_lowercase`; no byte of a longer character is changed by it.
abbrev pub lowercase : ℕ → ℕ
lowercase b = if leb b'A' b && leb b b'Z' then b + 32 else b

unfoldable pub normalize : Bytes → Bytes
normalize [] = []
normalize (b ∷ bytes) =
    let rest = normalize bytes in
    if eqb b b'_' || eqb b b'-' || eqb b b' ' then rest else lowercase b ∷ rest

-- `padded[i], padded[i + 1], padded[i + 2]` for each `i` with all three.
unfoldable pub windows : Bytes → List Bytes
windows (a ∷ b ∷ c ∷ rest) = (a ∷ b ∷ c ∷ []) ∷ windows (b ∷ c ∷ rest)
windows _ = []

unfoldable pub trigrams : Bytes → List Bytes
unfolding windows
trigrams [] = []
trigrams (b ∷ bytes) = windows ((b'#' ∷ b'#' ∷ b ∷ bytes) ++ (b'#' ∷ b'#' ∷ []))

-- The entries of a row after its first one: `left` is the entry before, `prev` the row above.
unfoldable pub next_row : ℕ → List ℕ → List ℕ → ℕ → List ℕ
next_row a (c ∷ cs) (p₀ ∷ p₁ ∷ prev) left =
    let entry = min (min (p₁ + 1) (left + 1)) (p₀ + (if eqb a c then 0 else 1)) in
    entry ∷ next_row a cs (p₁ ∷ prev) entry
next_row a _ _ left = []

unfoldable pub row_min : ℕ → List ℕ → ℕ
row_min least [] = least
row_min least (entry ∷ row) = row_min (min least entry) row

-- `0..=lb` from `i` on.
unfoldable pub first_row : ℕ → List ℕ → List ℕ
first_row i [] = i ∷ []
first_row i (c ∷ cs) = i ∷ first_row (i + 1) cs

-- The last entry.
unfoldable pub last_entry : ℕ → List ℕ → ℕ
last_entry last [] = last
last_entry last (entry ∷ row) = last_entry entry row

-- The loop over the rows, from the row `i` on.
unfoldable pub rows_from : ℕ → List ℕ → List ℕ → List ℕ → ℕ → ℕ
unfolding next_row row_min last_entry
rows_from i [] b prev max_dist = last_entry 0 prev
rows_from i (a ∷ later) b prev max_dist =
    let row = next_row a b prev (i + 1) in
    let rest = rows_from (i + 1) later b ((i + 1) ∷ row) max_dist in
    if ltb max_dist (row_min (i + 1) row) then max_dist + 1 else rest

abbrev pub bounded : Bytes → Bytes → ℕ → ℕ
bounded a b max_dist =
    if ltb max_dist (length b - length a)
    then max_dist + 1
    else rows_from 0 (chars a) (chars b) (first_row 0 (chars b)) max_dist

unfoldable pub levenshtein : Bytes → Bytes → ℕ → ℕ
unfolding rows_from first_row
levenshtein a b max_dist =
    if ltb (length b) (length a) then bounded b a max_dist else bounded a b max_dist

pub record FuzzyMatcher : Type 0 where
  pub symbols : List Bytes
  pub normalized : List Bytes
  pub tri_counts : List ℕ
  pub index : List (Bytes × List ℕ)
  pub max_distance : ℕ

abbrev pub new : ℕ → FuzzyMatcher
new max_distance = record {
  symbols = [];
  normalized = [];
  tri_counts = [];
  index = [];
  max_distance = max_distance;
}

unfoldable pub insert_unique : Bytes → List Bytes → List Bytes
insert_unique t [] = t ∷ []
insert_unique t (u ∷ us) =
    let rest = insert_unique t us in
    if t == u then u ∷ us else if blt t u then t ∷ u ∷ us else u ∷ rest

-- `sort_unstable` and `dedup`
unfoldable pub sort_dedup : List Bytes → List Bytes
unfolding insert_unique
sort_dedup [] = []
sort_dedup (t ∷ ts) = insert_unique t (sort_dedup ts)

abbrev pub held : Option (List ℕ) → List ℕ
held none = []
held (some indices) = indices

-- `entry(tg).or_default().push(idx)` for each trigram.
unfoldable pub index_trigrams : ℕ → List Bytes → List (Bytes × List ℕ) → List (Bytes × List ℕ)
index_trigrams idx [] index = index
index_trigrams idx (t ∷ ts) index =
    index_trigrams idx ts (insert t (held (lookup t index) ++ idx ∷ []) index)

unfoldable pub add : Bytes → FuzzyMatcher → FuzzyMatcher
unfolding normalize trigrams sort_dedup index_trigrams
add symbol m =
    let unique = sort_dedup (trigrams (normalize symbol)) in
    record m {
      symbols = m.symbols ++ symbol ∷ [];
      normalized = m.normalized ++ normalize symbol ∷ [];
      tri_counts = m.tri_counts ++ length unique ∷ [];
      index = index_trigrams (length m.symbols) unique m.index;
    }

-- `*hit_count.entry(idx).or_default() += 1` for each index.
unfoldable pub count_hits : List ℕ → List (ℕ × ℕ) → List (ℕ × ℕ)
count_hits [] counts = counts
count_hits (idx ∷ indices) counts =
    count_hits indices (insert idx (elim (lookup idx counts) [ none ↦ 1 | some n ↦ n + 1 ]) counts)

unfoldable pub count_trigrams : List Bytes → List (Bytes × List ℕ) → List (ℕ × ℕ) → List (ℕ × ℕ)
unfolding count_hits
count_trigrams [] index counts = counts
count_trigrams (t ∷ ts) index counts =
    count_trigrams ts index (count_hits (held (lookup t index)) counts)

pub record Jaccard : Type 0 where
  pub hits : ℕ
  pub union : ℕ

-- `a < b`; the similarity with an empty union is 0.
abbrev pub below : Jaccard → Jaccard → Bool
below a b =
    ltb ((if eqb a.union 0 then 0 else a.hits) * (if eqb b.union 0 then 1 else b.union))
      ((if eqb b.union 0 then 0 else b.hits) * (if eqb a.union 0 then 1 else a.union))

-- `none` where the index is out of range, and where the subtraction underflows.
abbrev similarity : ℕ → Option ℕ → ℕ → Option Jaccard
similarity q_tri_n none hits = none
similarity q_tri_n (some tri_count) hits =
    if ltb (q_tri_n + tri_count) hits
    then none
    else some (record { hits = hits; union = q_tri_n + tri_count - hits })

abbrev scored : Option Jaccard → ℕ → Option (List (Jaccard × ℕ)) → Option (List (Jaccard × ℕ))
scored (some jaccard) idx (some later) = some ((jaccard, idx) ∷ later)
scored _ idx _ = none

unfoldable pub candidates : ℕ → List ℕ → List (ℕ × ℕ) → Option (List (Jaccard × ℕ))
candidates q_tri_n tri_counts [] = some []
candidates q_tri_n tri_counts ((idx, hits) ∷ counts) =
    scored (similarity q_tri_n (get_elem? tri_counts idx) hits) idx
      (candidates q_tri_n tri_counts counts)

-- The similarity from high to low, then the index.
abbrev pub candidate_lt : Jaccard × ℕ → Jaccard × ℕ → Bool
candidate_lt a b = below b.0 a.0 || (not (below a.0 b.0) && ltb a.1 b.1)

pub record Ranked : Type 0 where
  pub dist : ℕ
  pub inexact : Bool
  pub jaccard : Jaccard
  pub idx : ℕ

abbrev pub ranked_lt : Ranked → Ranked → Bool
ranked_lt a b =
    if eqb a.dist b.dist
    then elim a.inexact [
      | false ↦ b.inexact || candidate_lt (a.jaccard, a.idx) (b.jaccard, b.idx)
      | true ↦ b.inexact && candidate_lt (a.jaccard, a.idx) (b.jaccard, b.idx)
    ]
    else ltb a.dist b.dist

abbrev judged :
    Bytes
    → Bytes
    → ℕ
    → Jaccard
    → ℕ
    → Option Bytes
    → Option Bytes
    → Option (List Ranked)
    → Option (List Ranked)
judged q q_norm max_distance jaccard idx (some symbol) (some norm) (some later) =
    let dist = levenshtein q_norm norm max_distance in
    if leb dist max_distance
    then some
        (record { dist = dist; inexact = not (symbol == q); jaccard = jaccard; idx = idx } ∷ later)
    else some later
judged q q_norm max_distance jaccard idx _ _ _ = none

unfoldable pub rank : Bytes → ℕ → FuzzyMatcher → List (Jaccard × ℕ) → Option (List Ranked)
unfolding levenshtein
rank q max_distance m [] = some []
rank q max_distance m ((jaccard, idx) ∷ rest) =
    judged q (normalize q) max_distance jaccard idx (get_elem? m.symbols idx)
      (get_elem? m.normalized idx) (rank q max_distance m rest)

pub record FuzzyMatch : Type 0 where
  pub symbol : Bytes
  pub distance : ℕ
  pub jaccard : Jaccard

abbrev matched : Option Bytes → Ranked → Option (List FuzzyMatch) → Option (List FuzzyMatch)
matched (some symbol) r (some later) =
    some (record { symbol = symbol; distance = r.dist; jaccard = r.jaccard } ∷ later)
matched _ r _ = none

unfoldable pub name_matches : List Bytes → List Ranked → Option (List FuzzyMatch)
name_matches symbols [] = some []
name_matches symbols (r ∷ rs) = matched (get_elem? symbols r.idx) r (name_matches symbols rs)

abbrev matches : ℕ → List Bytes → Option (List Ranked) → Option (List FuzzyMatch)
matches top_k symbols none = none
matches top_k symbols (some ranked) = name_matches symbols (take top_k (sort_by ranked_lt ranked))

-- A query without trigrams has no hits, and one without hits no matches.
unfoldable pub query_with_max : Bytes → ℕ → ℕ → FuzzyMatcher → Option (List FuzzyMatch)
unfolding normalize trigrams sort_dedup count_trigrams candidates sort_by rank name_matches
query_with_max q top_k max_distance m =
    let q_trigs = sort_dedup (trigrams (normalize q)) in
    elim (candidates (length q_trigs) m.tri_counts (count_trigrams q_trigs m.index [])) [
      | none ↦ none
      | some scored ↦
          matches top_k m.symbols
            (rank q max_distance m (take (max top_k 50 * 4) (sort_by candidate_lt scored)))
    ]

unfoldable pub query : Bytes → ℕ → FuzzyMatcher → Option (List FuzzyMatch)
unfolding query_with_max
query q top_k m = query_with_max q top_k m.max_distance m

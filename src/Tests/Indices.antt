-- ===== src/Tests/Indices.antt =====
-- The fuzzy and BM25 indices, plans, fused lists, schemas and the manager at concrete inputs.
use uldb.Prelude.{
  Option, ℕ, ◌+◌, ◌*◌, ◌≡◌, ◌≤◌, List, [], ◌∷◌, some, none, Bool, true, false, refl, subst, arith,
  length, ltb, eqb, if◌then◌else◌, nat_eq,
}
use uldb.Bytes.{Bytes, bytes_eq}
use uldb.Maps.{lookup, insert}
use uldb.Index.Fuzzy
use uldb.Index.Fuzzy.{FuzzyMatcher, Jaccard, add, levenshtein}
use uldb.Index.Fuzzy.Edits.{Edits}
use uldb.Index.Fuzzy.Distance.{levenshtein-Edits, levenshtein-le}
use uldb.Index.Fuzzy.Matching.{IsIndexed, new-IsIndexed}
use uldb.Index.Bm25
use uldb.Index.Bm25.{Bm25Index, Bm25Result, search}
use uldb.Index.Bm25.Upkeep
use uldb.Index.Bm25.Upkeep.{add_document_direct-IsIndexed}
use uldb.Index.Bm25.Searches.{search_lem, Found}
use uldb.Index.Manager
use uldb.Index.Manager.{IndexManager, Scoring, on_put, replay_put}
use uldb.Query.Planner.{QuerySpec, fuzzy, plan, RankedHit, merge_rrf, default}
use uldb.Query.Planner.Plans.{count-plan, count, needs}
use uldb.Query.Planner.Fusion.{scores-merge_rrf, scores_of, at_most_one, summed, terms}
use uldb.Query.Schema.{Schema, Record, string, int, has_type, validate, apply_defaults}
use uldb.Query.Schema.Validation.{validate-apply_defaults}
use uldb.Tests.Inputs.{key_a, key_b, value_one}

abbrev ab : Bytes
ab = b'a' ∷ b'b' ∷ []

abbrev cb : Bytes
cb = b'c' ∷ b'b' ∷ []

levenshtein-Edits_example : Edits ab cb (levenshtein ab cb 2)
unfolding levenshtein uldb.Bytes.Utf8.chars
levenshtein-Edits_example =
    levenshtein-Edits ab cb 2 (omega arith, (omega arith, tt)) (omega arith, (omega arith, tt))
      (omega arith)

levenshtein-le_example : levenshtein ab cb 2 ≤ 1
levenshtein-le_example =
    levenshtein-le ab cb 2 1 (omega arith, (omega arith, tt)) (omega arith, (omega arith, tt))
      (Edits.replace b'a' b'c' (Edits.keep b'b' Edits.done)) (omega arith)

-- Where the distance is above the bound, the result can be above the bound and one.
levenshtein_above : levenshtein ab (b'b' ∷ b'c' ∷ b'd' ∷ []) 1 ≡ 3
unfolding levenshtein uldb.Bytes.Utf8.chars
levenshtein_above = refl

-- `é` takes two bytes: one edit from the empty text, and yet above the bound of one.
levenshtein_bytes : levenshtein [] (0xC3 ∷ 0xA9 ∷ []) 1 ≡ 2
unfolding levenshtein
levenshtein_bytes = refl

abbrev symbols : FuzzyMatcher
symbols = add cb (add ab (Fuzzy.new 4))

-- A search for a symbol along a relation.
abbrev by_name : QuerySpec ℕ
by_name = record default { text = ab; relations = key_a ∷ [] }

count-plan_example : count fuzzy (plan by_name) ≡ (if needs fuzzy by_name then 1 else 0)
count-plan_example = count-plan fuzzy by_name

-- Scores are counted in thousandths.
abbrev rrf_term : ℕ → ℕ
rrf_term rank = 1000 + rank

abbrev add_up : ℕ → ℕ → ℕ
add_up m n = m + n

abbrev hit : Bytes → RankedHit ℕ
hit key = record { key = key; score = 0; rank = 0 }

abbrev two_lists : List (List (RankedHit ℕ))
two_lists = (hit key_a ∷ hit key_b ∷ []) ∷ (hit key_b ∷ []) ∷ []

scores-merge_rrf_example :
    scores_of 0 add_up rrf_term ltb key_b (merge_rrf ℕ 0 add_up rrf_term ltb two_lists)
    ≡ at_most_one 0 add_up rrf_term ltb
        (summed 0 add_up rrf_term ltb none (terms 0 add_up rrf_term ltb key_b two_lists))
scores-merge_rrf_example = scores-merge_rrf 0 add_up rrf_term ltb key_b two_lists

abbrev counted : Schema
counted = record {
  name = key_a;
  fields =
      record { name = key_a; field_type = string; required = true; default = none }
      ∷ record { name = key_b; field_type = int; required = false; default = some (b'7' ∷ []) }
      ∷ [];
}

abbrev bare : Record
bare = (key_a, b'x' ∷ []) ∷ []

a_number : (v : Bytes) → some (b'7' ∷ []) ≡ some v → has_type int v ≡ true
unfolding has_type uldb.Bytes.Utf8.is_utf8
a_number v h =
    let same : b'7' ∷ [] ≡ v = ground (arith, h) in subst (λ w. has_type int w ≡ true) same refl

validate-apply_defaults_example : validate counted (apply_defaults counted bare) ≡ []
unfolding validate lookup uldb.Bytes.Utf8.is_utf8
validate-apply_defaults_example =
    validate-apply_defaults counted bare (λ v h. absurd (ground (arith, h)), (a_number, tt)) refl

abbrev mean_of : ℕ → ℕ → ℕ
mean_of total count = total

abbrev weight_of : ℕ → ℕ → ℕ
weight_of docs df = docs

abbrev part_of : ℕ → ℕ → ℕ → ℕ → ℕ
part_of weight tf len avgdl = weight * tf

abbrev is_nought : ℕ → Bool
is_nought n = eqb n 0

abbrev documents : Bm25Index ℕ
documents = Bm25.add_document_direct 0 mean_of key_a key_a ab (Bm25.new 0 mean_of)

documents-IsIndexed : Bm25.Upkeep.IsIndexed documents
unfolding lookup
documents-IsIndexed =
    add_document_direct-IsIndexed 0 mean_of key_a key_a ab (Bm25.new 0 mean_of)
      (Bm25.Upkeep.new-IsIndexed 0 mean_of) refl

search_lem_example :
    (rs : List (Bm25Result ℕ)) × (search 0 add_up is_nought weight_of part_of ltb ab 3 documents
      ≡ some rs)
    × (length rs ≤ 3)
    × Found 0 add_up is_nought weight_of part_of ltb documents 0 rs
search_lem_example =
    search_lem 0 add_up is_nought weight_of part_of ltb documents ab 3 documents-IsIndexed

-- The document of the search is found.
search_found :
    search 0 add_up is_nought weight_of part_of ltb ab 3 documents
    ≡ some (record { key = key_a; score = 1; rank = 0 } ∷ [])
unfolding search lookup Bm25.add_document_direct insert
search_found = refl

abbrev similarity_of : Jaccard → ℕ
similarity_of j = j.hits

abbrev closeness_of : ℕ → ℕ
closeness_of depth = 10 + depth

abbrev scoring : Scoring ℕ
scoring = record {
  zero_score = 0;
  plus = add_up;
  is_zero = is_nought;
  idf = weight_of;
  part = part_of;
  lt = ltb;
  term = rrf_term;
  similarity = similarity_of;
  closeness = closeness_of;
}

-- A record is replayed, and then its key is put again.
abbrev replayed : IndexManager ℕ
replayed = replay_put 0 mean_of key_a key_a ab (Manager.new 0 mean_of)

abbrev after_put : Option (IndexManager ℕ) → IndexManager ℕ
after_put none = replayed
after_put (some m) = m

abbrev written : IndexManager ℕ
written = after_put (on_put 0 mean_of key_a value_one replayed)

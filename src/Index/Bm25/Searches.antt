-- ===== src/Index/Bm25/Searches.antt =====
-- What a BM25 search answers (src/index/bm25.rs, `search`).
use uldb.Prelude.{
  if◌then◌else◌, get_elem?-bound, get_elem?-lt, ℕ, suc, ◌+◌, ◌≡◌, ◌≤◌, List, [], ◌∷◌, ◌++◌, Option,
  some, none, Bool, true, arith, refl, ap, length, length-take-le, get_elem?, take, if_elim, All,
  All-append, nat_eq,
}
use uldb.Prelude.Sorting.{sort_by, All-sort_by, All-take}
use uldb.Bytes.{Bytes, bytes_eq}
use uldb.Maps.{lookup, contains_key, contains-lookup}
use uldb.Index.Bm25.{
  scored, score_known, Bm25Index, Bm25Result, Scores, add_score, score_postings, score_term,
  score_terms, score_at, with_scores, is_live, by_score, name_results, search,
}
use uldb.Index.Bm25.Tokens.{tokenize}
use uldb.Index.Bm25.Upkeep.{IsIndexed, InStep, IsIndexed-InStep}

module _ {S : Type 0} (zero_score : S) (plus : S → S → S) (is_zero : S → Bool) (idf : ℕ → ℕ → S)
    (part : S → ℕ → ℕ → S → S) (lt : S → S → Bool) (ix : Bm25Index S) where
  -- A document that was not removed.
  abbrev Live : ℕ → Type 0
  Live d = (b : ℕ) × (k : Bytes) × (get_elem? ix.docs d ≡ some (b ∷ k))

  live :
      (o : Option Bytes)
      → is_live zero_score plus is_zero idf part lt o ≡ true
      → (b : ℕ) × (k : Bytes) × (o ≡ some (b ∷ k))
  live none h = cc
  live (some []) h = cc
  live (some (b ∷ k)) h = (b, k, refl)

  add_score-Live :
      (d : ℕ) (score : S) (acc : Scores S)
      → Live d
      → All Live acc.touched
      → All Live (add_score zero_score plus is_zero idf part lt d score acc).touched
  unfolding add_score
  add_score-Live d score acc l h =
      if_elim (All Live) (is_zero (score_at zero_score plus is_zero idf part lt d acc))
        (acc.touched ++ d ∷ []) acc.touched (λ e. All-append Live acc.touched (d ∷ []) h (l, tt))
        (λ e. h)

  -- Scores that name documents that were not removed.
  abbrev LiveScores : Option (Scores S) → Type 0
  LiveScores o = (acc : Scores S) × (o ≡ some acc) × All Live acc.touched

  one_posting :
      (weight : S) (d tf : ℕ) (acc : Scores S)
      → InStep ix
      → All Live acc.touched
      → LiveScores (
          if is_live zero_score plus is_zero idf part lt (get_elem? ix.docs d)
          then scored zero_score plus is_zero idf part lt weight d tf
              (get_elem? ix.doc_len d)
              ix
              acc
          else some acc)
  one_posting weight d tf acc v h =
      if_elim LiveScores (is_live zero_score plus is_zero idf part lt (get_elem? ix.docs d)) _
        (some acc)
        (λ e.
          let l = live (get_elem? ix.docs d) e in
          let d_lt = get_elem?-bound ix.docs d (l.0 ∷ l.1) l.2 in
          let (dl, at) = get_elem?-lt ix.doc_len d (omega (arith, v.lengths, d_lt)) in
          let score = part weight tf dl ix.avgdl in
          (
            add_score zero_score plus is_zero idf part lt d score acc,
            rw at refl,
            add_score-Live d score acc l h,
          ))
        (λ e. (acc, refl, h))

  score_postings-Live :
      (weight : S) (posting : List (ℕ × ℕ)) (acc : Scores S)
      → InStep ix
      → All Live acc.touched
      → LiveScores (score_postings zero_score plus is_zero idf part lt weight posting ix acc)
  unfolding score_postings
  score_postings-Live weight [] acc v h = (acc, refl, h)
  score_postings-Live weight ((d, tf) ∷ posting) acc v h =
      let (acc₁, one, h₁) = one_posting weight d tf acc v h in
      let (acc₂, rest, h₂) = score_postings-Live weight posting acc₁ v h₁ in
      (acc₂, rw (one, score_postings) rest, h₂)

  score_term-Live :
      (df : Option ℕ) (posting : Option (List (ℕ × ℕ))) (acc : Scores S)
      → InStep ix
      → All Live acc.touched
      → LiveScores (score_term zero_score plus is_zero idf part lt df posting ix acc)
  score_term-Live none posting acc v h = (acc, refl, h)
  score_term-Live (some df) none acc v h = (acc, refl, h)
  score_term-Live (some df) (some posting) acc v h =
      score_postings-Live (idf (length ix.docs) df) posting acc v h

  score_known-Live :
      (tid : Option ℕ) (acc : Scores S)
      → InStep ix
      → All Live acc.touched
      → LiveScores (score_known zero_score plus is_zero idf part lt tid ix acc)
  score_known-Live none acc v h = (acc, refl, h)
  score_known-Live (some tid) acc v h =
      score_term-Live (lookup tid ix.df) (lookup tid ix.postings) acc v h

  score_terms-Live :
      (terms : List Bytes) (acc : Scores S)
      → InStep ix
      → All Live acc.touched
      → LiveScores (score_terms zero_score plus is_zero idf part lt terms ix acc)
  unfolding score_terms
  score_terms-Live [] acc v h = (acc, refl, h)
  score_terms-Live (t ∷ terms) acc v h =
      let (acc₁, one, h₁) = score_known-Live (lookup t ix.term_ids) acc v h in
      let (acc₂, rest, h₂) = score_terms-Live terms acc₁ v h₁ in
      (acc₂, rw (one, score_terms) rest, h₂)

  with_scores-Live :
      (ids : List ℕ) (acc : Scores S)
      → All Live ids
      → All (λ p. Live p.0) (with_scores zero_score plus is_zero idf part lt ids acc)
  with_scores-Live [] acc h = tt
  with_scores-Live (d ∷ ids) acc h = (h.0, with_scores-Live ids acc h.1)

  -- The results are indexed keys, and their ranks are their positions from `rank` on.
  abbrev pub Found : ℕ → List (Bm25Result S) → Type 0
  Found rank [] = Unit
  Found rank (r ∷ rs) =
      (contains_key r.key ix.key_to_doc ≡ true) × (r.rank ≡ rank) × Found (rank + 1) rs

  name_results_total :
      (rank : ℕ) (cs : List (ℕ × S))
      → All (λ p. Live p.0) cs
      → (rs : List (Bm25Result S)) × (name_results zero_score plus is_zero idf part lt rank ix.docs
            cs
          ≡ some rs)
        × (length rs ≡ length cs)
        × (IsIndexed ix → Found rank rs)
  unfolding name_results
  name_results_total rank [] h = ([], refl, refl, λ v. tt)
  name_results_total rank ((d, score) ∷ cs) h =
      let (b, k, at) = h.0 in
      let (rs, out, n, found) = name_results_total (rank + 1) cs h.1 in
      (
        record { key = b ∷ k; score = score; rank = rank } ∷ rs,
        rw (at, out) refl,
        ap suc n,
        λ v. (contains-lookup (b ∷ k) ix.key_to_doc d (v.of_doc b k d at), refl, found v),
      )

  -- While the columns are in step a search returns, with at most `top_k` results.
  pub search_total :
      (query : Bytes) (top_k : ℕ)
      → InStep ix
      → (rs : List (Bm25Result S)) × (search zero_score plus is_zero idf part lt query top_k ix
          ≡ some rs)
        × (length rs ≤ top_k)
        × (IsIndexed ix → Found 0 rs)
  unfolding search
  search_total query top_k v =
      let (acc, scores, touched) =
        score_terms-Live (tokenize query) (record { scores = []; touched = [] }) v tt in
      let order = by_score zero_score plus is_zero idf part lt in
      let scored_docs = with_scores zero_score plus is_zero idf part lt acc.touched acc in
      let all = with_scores-Live acc.touched acc touched in
      let (rs, out, n, found) = name_results_total 0 (take top_k (sort_by order scored_docs)) (
        All-take order (λ p. Live p.0) top_k (sort_by order scored_docs)
          (All-sort_by order (λ p. Live p.0) scored_docs all)) in
      (
        rs,
        rw (scores, search) out,
        omega (arith, n, length-take-le top_k (sort_by order scored_docs)),
        found,
      )

  -- A search of an index that is in step with its keys never panics. It gives at most `top_k`
  -- results, whose keys are all indexed, so none was removed, and whose ranks count them.
  pub search_lem :
      (query : Bytes) (top_k : ℕ)
      → IsIndexed ix
      → (rs : List (Bm25Result S)) × (search zero_score plus is_zero idf part lt query top_k ix
          ≡ some rs)
        × (length rs ≤ top_k)
        × Found 0 rs
  search_lem query top_k v =
      let (rs, out, n, found) = search_total query top_k (IsIndexed-InStep ix v) in
      (rs, out, n, found v)

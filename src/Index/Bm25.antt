-- ===== src/Index/Bm25.antt =====
-- src/index/bm25.rs: the tokenizer, the inverted index, and the search. Floating-point numbers are
-- values of a type `S` with the operations that the code uses.
pub mod Tokens
pub mod Upkeep
pub mod Searches
use uldb.Index.Bm25.Tokens.{tokenize}
use uldb.Prelude.{
  ℕ, zero, suc, ◌+◌, ◌-◌, ◌%◌, ◌^◌, List, [], ◌∷◌, ◌++◌, Option, some, none, Bool, true, false,
  ◌&&◌, ◌||◌, not, if◌then◌else◌, length, eqb, leb, ltb, ◌==◌, get_elem?, take, nat_eq,
}
use uldb.Prelude.Sorting.{sort_by}
use uldb.Bytes.{Bytes, bytes_eq, blt}
use uldb.Maps.{lookup, insert, remove, contains_key}

pub record Bm25Index (S : Type 0) : Type 0 where
  pub docs : List Bytes
  pub key_to_doc : List (Bytes × ℕ)
  pub term_pool : ℕ
  pub term_ids : List (Bytes × ℕ)
  pub doc_terms : List (List ℕ)
  pub df : List (ℕ × ℕ)
  pub postings : List (ℕ × List (ℕ × ℕ))
  pub doc_len : List ℕ
  pub total_doc_len : ℕ
  pub active_docs : ℕ
  pub avgdl : S

pub record Bm25Result (S : Type 0) : Type 0 where
  pub key : Bytes
  pub score : S
  pub rank : ℕ

-- `v[i] = x`; nothing is out of range where the code writes.
unfoldable pub set_at {ℓ} : {A : Type ℓ} → ℕ → A → List A → List A
set_at i x [] = []
set_at zero x (y ∷ ys) = x ∷ ys
set_at (suc i) x (y ∷ ys) = y ∷ set_at i x ys

unfoldable pub insert_token : Bytes → List Bytes → List Bytes
insert_token t [] = t ∷ []
insert_token t (u ∷ us) = let rest = insert_token t us in if blt u t then u ∷ rest else t ∷ u ∷ us

-- `sort_unstable`
unfoldable pub sort_tokens : List Bytes → List Bytes
unfolding insert_token
sort_tokens [] = []
sort_tokens (t ∷ ts) = insert_token t (sort_tokens ts)

abbrev add_to_run : Bytes → List (Bytes × ℕ) → List (Bytes × ℕ)
add_to_run t [] = (t, 1) ∷ []
add_to_run t ((u, freq) ∷ runs) = if u == t then (t, freq + 1) ∷ runs else (t, 1) ∷ (u, freq) ∷ runs

-- The runs of equal tokens, with their lengths.
unfoldable pub runs_of : List Bytes → List (Bytes × ℕ)
runs_of [] = []
runs_of (t ∷ ts) = add_to_run t (runs_of ts)

abbrev held : Option (List (ℕ × ℕ)) → List (ℕ × ℕ)
held none = []
held (some posting) = posting

abbrev pub or_zero : Option ℕ → ℕ
or_zero none = 0
or_zero (some n) = n

unfoldable pub count_term : ℕ → List (ℕ × ℕ) → List (ℕ × ℕ)
count_term tid [] = (tid, 1) ∷ []
count_term tid ((t, freq) ∷ counts) =
    let rest = count_term tid counts in
    if eqb t tid then (t, freq + 1) ∷ counts else (t, freq) ∷ rest

abbrev pub ids_of : List (ℕ × ℕ) → List ℕ
ids_of [] = []
ids_of ((tid, freq) ∷ counts) = tid ∷ ids_of counts

pub record Scores (S : Type 0) : Type 0 where
  pub scores : List (ℕ × S)
  pub touched : List ℕ

module _ {S : Type 0} where
  -- The id of a term, new if there is none; `term_pool` is the length of the pool of placeholders.
  unfoldable pub intern : Bytes → Bm25Index S → ℕ × Bm25Index S
  intern term ix = elim (lookup term ix.term_ids) [
    | some id ↦ (id, ix)
    | none ↦ (
      ix.term_pool % 2 ^ 32,
      record ix {
        term_ids = insert term (ix.term_pool % 2 ^ 32) ix.term_ids;
        term_pool = ix.term_pool + 1;
      },
    )
  ]

  -- `postings.entry(tid).or_default().push((doc_id, freq))` and `*df.entry(tid).or_insert(0) += 1`
  unfoldable pub post : ℕ → ℕ → ℕ → Bm25Index S → Bm25Index S
  post doc_id tid freq ix = record ix {
    postings = insert tid (held (lookup tid ix.postings) ++ (doc_id, freq) ∷ []) ix.postings;
    df = insert tid (or_zero (lookup tid ix.df) + 1) ix.df;
  }

  -- The loop over the runs, with the ids of the terms.
  unfoldable pub post_runs : ℕ → List (Bytes × ℕ) → Bm25Index S → List ℕ × Bm25Index S
  unfolding intern post
  post_runs doc_id [] ix = ([], ix)
  post_runs doc_id ((term, freq) ∷ runs) ix =
      let (tid, ix₁) = intern term ix in
      let (ids, ix₂) = post_runs doc_id runs (post doc_id tid freq ix₁) in (tid ∷ ids, ix₂)

  abbrev pub start_doc : Bytes → ℕ → Bm25Index S → Bm25Index S
  start_doc key len ix = record ix {
    key_to_doc = insert key (length ix.docs) ix.key_to_doc;
    docs = ix.docs ++ key ∷ [];
    doc_len = ix.doc_len ++ len ∷ [];
  }

  -- `intern_and_count` for each token.
  unfoldable pub intern_and_count :
      List Bytes → List (ℕ × ℕ) → Bm25Index S → List (ℕ × ℕ) × Bm25Index S
  unfolding intern count_term
  intern_and_count [] term_freq ix = (term_freq, ix)
  intern_and_count (t ∷ ts) term_freq ix =
      let (tid, ix') = intern t ix in intern_and_count ts (count_term tid term_freq) ix'

  unfoldable pub post_counts : ℕ → List (ℕ × ℕ) → Bm25Index S → Bm25Index S
  unfolding post
  post_counts doc_id [] ix = ix
  post_counts doc_id ((tid, freq) ∷ counts) ix = post_counts doc_id counts (post doc_id tid freq ix)

  -- Whether the key is indexed.
  abbrev pub is_indexed : Bytes → Bm25Index S → Bool
  is_indexed key ix = contains_key key ix.key_to_doc

  -- The number 0, and the quotient of two counts.
  module _ (zero_score : S) (mean : ℕ → ℕ → S) where
    abbrev pub new : Bm25Index S
    new = record {
      docs = [];
      key_to_doc = [];
      term_pool = 0;
      term_ids = [];
      doc_terms = [];
      df = [];
      postings = [];
      doc_len = [];
      total_doc_len = 0;
      active_docs = 0;
      avgdl = zero_score;
    }

    abbrev finish_doc : List ℕ → ℕ → Bm25Index S → Bm25Index S
    finish_doc ids len ix = record ix {
      doc_terms = ix.doc_terms ++ ids ∷ [];
      total_doc_len = ix.total_doc_len + len;
      active_docs = ix.active_docs + 1;
      avgdl = mean (ix.total_doc_len + len) (ix.active_docs + 1);
    }

    abbrev add_tokens : Bytes → List Bytes → Bm25Index S → Bm25Index S
    add_tokens key tokens ix =
        let len = length tokens % 2 ^ 32 in
        let (ids, ix') =
          post_runs (length ix.docs) (runs_of (sort_tokens tokens)) (start_doc key len ix) in
        finish_doc ids len ix'

    unfoldable pub add_document : Bytes → Bytes → Bm25Index S → Bm25Index S
    unfolding post_runs tokenize sort_tokens runs_of
    add_document key content ix = add_tokens key (tokenize content) ix

    unfoldable pub add_document_parts : Bytes → Bytes → Bytes → Bm25Index S → Bm25Index S
    unfolding post_runs tokenize sort_tokens runs_of
    add_document_parts key key_text value_text ix =
        add_tokens key (tokenize key_text ++ tokenize value_text) ix

    unfoldable pub add_document_direct : Bytes → Bytes → Bytes → Bm25Index S → Bm25Index S
    unfolding intern_and_count post_counts tokenize
    add_document_direct key key_text value_text ix =
        let tokens = tokenize key_text ++ tokenize value_text in
        let len = length tokens % 2 ^ 32 in
        let (counts, ix') = intern_and_count tokens [] (start_doc key 0 ix) in
        finish_doc (ids_of counts) len
          (record (post_counts (length ix.docs) counts ix') { doc_len = ix.doc_len ++ len ∷ [] })

    -- The document at an index, of some length, is marked as removed.
    abbrev pub cleared : Bytes → ℕ → ℕ → Bm25Index S → Bm25Index S
    cleared key doc_id removed_len ix =
        let total = ix.total_doc_len - removed_len in
        let active = ix.active_docs - 1 in
        record ix {
          key_to_doc = remove key ix.key_to_doc;
          docs = set_at doc_id [] ix.docs;
          doc_len = set_at doc_id 0 ix.doc_len;
          total_doc_len = total;
          active_docs = active;
          avgdl = if ltb 0 active then mean total active else zero_score;
        }

    -- `none` where the index is out of range.
    abbrev removed : Bytes → ℕ → Option ℕ → Option Bytes → Bm25Index S → Option (Bm25Index S)
    removed key doc_id (some removed_len) (some doc) ix = some (cleared key doc_id removed_len ix)
    removed key doc_id _ _ ix = none

    unfoldable pub remove_document : Bytes → Bm25Index S → Option (Bm25Index S)
    unfolding set_at
    remove_document key ix = elim (lookup key ix.key_to_doc) [
      | none ↦ some ix
      | some doc_id ↦ removed key doc_id (get_elem? ix.doc_len doc_id) (get_elem? ix.docs doc_id) ix
    ]

  module _ (zero_score : S) (plus : S → S → S) (is_zero : S → Bool) (idf : ℕ → ℕ → S)
      (part : S → ℕ → ℕ → S → S) (lt : S → S → Bool) where
    abbrev or_zero_score : Option S → S
    or_zero_score none = zero_score
    or_zero_score (some s) = s

    -- The score of a document, in a vector that starts with 0 everywhere.
    abbrev pub score_at : ℕ → Scores S → S
    score_at doc_id acc = or_zero_score (lookup doc_id acc.scores)

    unfoldable pub add_score : ℕ → S → Scores S → Scores S
    add_score doc_id score acc = record {
      touched = if is_zero (score_at doc_id acc) then acc.touched ++ doc_id ∷ [] else acc.touched;
      scores = insert doc_id (plus (score_at doc_id acc) score) acc.scores;
    }

    abbrev pub is_live : Option Bytes → Bool
    is_live none = false
    is_live (some []) = false
    is_live (some (b ∷ key)) = true

    -- One posting of a document that is not removed; `none` where it has no length.
    abbrev pub scored : S → ℕ → ℕ → Option ℕ → Bm25Index S → Scores S → Option (Scores S)
    scored weight doc_id tf none ix acc = none
    scored weight doc_id tf (some dl) ix acc =
        some (add_score doc_id (part weight tf dl ix.avgdl) acc)

    unfoldable pub score_postings : S → List (ℕ × ℕ) → Bm25Index S → Scores S → Option (Scores S)
    unfolding add_score
    score_postings weight [] ix acc = some acc
    score_postings weight ((doc_id, tf) ∷ posting) ix acc =
        elim (if is_live (get_elem? ix.docs doc_id)
          then scored weight doc_id tf (get_elem? ix.doc_len doc_id) ix acc
          else some acc) [ none ↦ none | some acc' ↦ score_postings weight posting ix acc' ]

    abbrev pub score_term :
        Option ℕ → Option (List (ℕ × ℕ)) → Bm25Index S → Scores S → Option (Scores S)
    score_term (some df) (some posting) ix acc =
        score_postings (idf (length ix.docs) df) posting ix acc
    score_term _ _ ix acc = some acc

    abbrev pub score_known : Option ℕ → Bm25Index S → Scores S → Option (Scores S)
    score_known none ix acc = some acc
    score_known (some tid) ix acc = score_term (lookup tid ix.df) (lookup tid ix.postings) ix acc

    unfoldable pub score_terms : List Bytes → Bm25Index S → Scores S → Option (Scores S)
    unfolding score_postings
    score_terms [] ix acc = some acc
    score_terms (t ∷ terms) ix acc = elim (score_known (lookup t ix.term_ids) ix acc) [
      | none ↦ none
      | some acc' ↦ score_terms terms ix acc'
    ]

    abbrev pub with_scores : List ℕ → Scores S → List (ℕ × S)
    with_scores [] acc = []
    with_scores (doc_id ∷ ids) acc = (doc_id, score_at doc_id acc) ∷ with_scores ids acc

    abbrev named :
        Option Bytes → S → ℕ → Option (List (Bm25Result S)) → Option (List (Bm25Result S))
    named (some key) score rank (some later) =
        some (record { key = key; score = score; rank = rank } ∷ later)
    named _ score rank _ = none

    unfoldable pub name_results : ℕ → List Bytes → List (ℕ × S) → Option (List (Bm25Result S))
    name_results rank docs [] = some []
    name_results rank docs ((doc_id, score) ∷ rest) =
        named (get_elem? docs doc_id) score rank (name_results (rank + 1) docs rest)

    abbrev pub by_score : ℕ × S → ℕ × S → Bool
    by_score a b = lt b.1 a.1

    -- The best `top_k`: of equal scores at the cut, the code may keep others than this sort does.
    unfoldable pub search : Bytes → ℕ → Bm25Index S → Option (List (Bm25Result S))
    unfolding tokenize score_terms sort_by name_results
    search query top_k ix =
        elim (score_terms (tokenize query) ix (record { scores = []; touched = [] })) [
          | none ↦ none
          | some acc ↦
              name_results 0 ix.docs (take top_k (sort_by by_score (with_scores acc.touched acc)))
        ]

-- ===== src/Index/Bm25/Upkeep.antt =====
-- The documents of the BM25 index stay in step with its keys (src/index/bm25.rs).
use uldb.Prelude.{
  ==_refl, ℕ, zero, suc, ◌+◌, ◌%◌, ◌^◌, ◌≡◌, ◌<◌, List, [], ◌∷◌, ◌++◌, some, none, arith, refl, ap,
  ◌∙◌, length, length-append, get_elem?, get_elem?-bound, get_elem?-lt, get_elem?-snoc,
  if◌then◌else◌, eqb, eqb_iff, Option-cases, inl, inr,
}
use uldb.Bytes.{Bytes, bytes_eq}
use uldb.Maps.{lookup, insert, lookup-insert, lookup-remove}
use uldb.Index.Bm25.{
  cleared, Bm25Index, new, intern, post, post_counts, intern_and_count, start_doc, count_term,
  set_at, add_document_direct, remove_document,
}
use uldb.Index.Bm25.Tokens.{tokenize}

abbrev pub sum : List ℕ → ℕ
sum [] = 0
sum (n ∷ ns) = n + sum ns

sum-append : (xs ys : List ℕ) → sum (xs ++ ys) ≡ sum xs + sum ys
sum-append [] ys = omega arith
sum-append (x ∷ xs) ys = omega (arith, sum-append xs ys)

get_elem?-set_at :
    {A : Type 0} (i j : ℕ) (x : A) (xs : List A)
    → i < length xs
    → get_elem? (set_at i x xs) j ≡ (if eqb i j then some x else get_elem? xs j)
unfolding set_at
get_elem?-set_at i j x [] h = absurd (omega arith)
get_elem?-set_at zero zero x (y ∷ ys) h = refl
get_elem?-set_at zero (suc j) x (y ∷ ys) h = ground arith
get_elem?-set_at (suc i) zero x (y ∷ ys) h = ground arith
get_elem?-set_at (suc i) (suc j) x (y ∷ ys) h =
    get_elem?-set_at i j x ys (omega arith) ∙ ground arith

length-set_at : {A : Type 0} (i : ℕ) (x : A) (xs : List A) → length (set_at i x xs) ≡ length xs
unfolding set_at
length-set_at i x [] = refl
length-set_at zero x (y ∷ ys) = refl
length-set_at (suc i) x (y ∷ ys) = ap suc (length-set_at i x ys)

sum-set_at : (i n : ℕ) (ns : List ℕ) → get_elem? ns i ≡ some n → sum (set_at i 0 ns) + n ≡ sum ns
unfolding set_at
sum-set_at i n [] h = cc
sum-set_at zero n (m ∷ ns) h = let e : m ≡ n = ground (arith, h) in omega (arith, e)
sum-set_at (suc i) n (m ∷ ns) h = omega (arith, sum-set_at i n ns h)

-- A key's document is at its index, a document that was not removed is at the index of its key, and
-- the total length adds the lengths of the documents.
pub record IsIndexed {S : Type 0} (ix : Bm25Index S) : Type 0 where
  pub at_key : (k : Bytes) (i : ℕ) → lookup k ix.key_to_doc ≡ some i → get_elem? ix.docs i ≡ some k
  pub of_doc :
      (b : ℕ) (k : Bytes) (i : ℕ)
      → get_elem? ix.docs i ≡ some (b ∷ k)
      → lookup (b ∷ k) ix.key_to_doc ≡ some i
  pub lengths : length ix.doc_len ≡ length ix.docs
  pub total : ix.total_doc_len ≡ sum ix.doc_len

-- The columns have an entry for each document, and keys are at indices of documents. Unlike
-- `IsIndexed`, this holds as well if a key was added twice.
pub record InStep {S : Type 0} (ix : Bm25Index S) : Type 0 where
  pub lengths : length ix.doc_len ≡ length ix.docs
  pub known : (k : Bytes) (i : ℕ) → lookup k ix.key_to_doc ≡ some i → i < length ix.docs

pub IsIndexed-InStep : {S : Type 0} (ix : Bm25Index S) → IsIndexed ix → InStep ix
IsIndexed-InStep ix v = record {
  lengths = v.lengths;
  known = λ k i h. get_elem?-bound ix.docs i k (v.at_key k i h);
}

-- The postings change, and the documents do not.
record SameDocs {S : Type 0} (ix ix' : Bm25Index S) : Type 0 where
  docs : ix'.docs ≡ ix.docs
  keys : ix'.key_to_doc ≡ ix.key_to_doc
  total : ix'.total_doc_len ≡ ix.total_doc_len
  active : ix'.active_docs ≡ ix.active_docs

module _ {S : Type 0} where
  same_refl : (ix : Bm25Index S) → SameDocs ix ix
  same_refl ix = record { docs = refl; keys = refl; total = refl; active = refl }

  same_trans : (a b c : Bm25Index S) → SameDocs a b → SameDocs b c → SameDocs a c
  same_trans a b c h k = record {
    docs = k.docs ∙ h.docs;
    keys = k.keys ∙ h.keys;
    total = k.total ∙ h.total;
    active = k.active ∙ h.active;
  }

  intern-SameDocs : (t : Bytes) (ix : Bm25Index S) → SameDocs ix (intern t ix).1
  unfolding intern
  intern-SameDocs t ix = elim (Option-cases (lookup t ix.term_ids)) [
    | inl h ↦ rw (h, intern) (record { docs = refl; keys = refl; total = refl; active = refl })
    | inr (id, h) ↦ rw (h, intern) (same_refl ix)
  ]

  post_counts-SameDocs :
      (d : ℕ) (counts : List (ℕ × ℕ)) (ix : Bm25Index S) → SameDocs ix (post_counts d counts ix)
  unfolding post_counts post
  post_counts-SameDocs d [] ix = same_refl ix
  post_counts-SameDocs d ((tid, freq) ∷ counts) ix =
      let h = post_counts-SameDocs d counts (post d tid freq ix) in
      record { docs = h.docs; keys = h.keys; total = h.total; active = h.active }

  intern_and_count-SameDocs :
      (ts : List Bytes) (counts : List (ℕ × ℕ)) (ix : Bm25Index S)
      → SameDocs ix (intern_and_count ts counts ix).1
  unfolding intern_and_count
  intern_and_count-SameDocs [] counts ix = same_refl ix
  intern_and_count-SameDocs (t ∷ ts) counts ix =
      let (tid, ix') = intern t ix in
      same_trans ix ix' _ (intern-SameDocs t ix)
        (intern_and_count-SameDocs ts (count_term tid counts) ix')

  -- A new document of a key that is not indexed.
  added-IsIndexed :
      (key : Bytes) (len : ℕ) (ix ix' : Bm25Index S)
      → IsIndexed ix
      → lookup key ix.key_to_doc ≡ none
      → ix'.docs ≡ ix.docs ++ key ∷ []
      → ix'.key_to_doc ≡ insert key (length ix.docs) ix.key_to_doc
      → ix'.doc_len ≡ ix.doc_len ++ len ∷ []
      → ix'.total_doc_len ≡ ix.total_doc_len + len
      → IsIndexed ix'
  added-IsIndexed key len ix ix' v absent docs keys lens total = record {
    at_key = λ k i h. ground (
      arith,
      h,
      docs,
      keys,
      lookup-insert key k (length ix.docs) ix.key_to_doc,
      bytes_eq.beq_iff key k,
      v.at_key k i,
      get_elem?-snoc ix.docs key i,
      get_elem?-bound ix.docs i k,
    );
    of_doc = λ b k i h. ground (
      arith,
      h,
      docs,
      keys,
      absent,
      lookup-insert key (b ∷ k) (length ix.docs) ix.key_to_doc,
      bytes_eq.beq_iff key (b ∷ k),
      v.of_doc b k i,
      get_elem?-snoc ix.docs key i,
    );
    lengths =
        rw (docs, lens)
          (omega (
            arith,
            v.lengths,
            length-append ix.docs (key ∷ []),
            length-append ix.doc_len (len ∷ []),
          ));
    total = rw (lens, total) (omega (arith, v.total, sum-append ix.doc_len (len ∷ [])));
  }

  pub new-IsIndexed : (zero_score : S) (mean : ℕ → ℕ → S) → IsIndexed (new zero_score mean)
  unfolding lookup
  new-IsIndexed zero_score mean = record {
    at_key = λ k i h. cc;
    of_doc = λ b k i h. cc;
    lengths = refl;
    total = refl;
  }

  module _ (zero_score : S) (mean : ℕ → ℕ → S) where
    -- A document of a key that is not indexed keeps the index in step.
    pub add_document_direct-IsIndexed :
        (key key_text value_text : Bytes) (ix : Bm25Index S)
        → IsIndexed ix
        → lookup key ix.key_to_doc ≡ none
        → IsIndexed (add_document_direct zero_score mean key key_text value_text ix)
    unfolding add_document_direct
    add_document_direct-IsIndexed key key_text value_text ix v absent =
        let tokens = tokenize key_text ++ tokenize value_text in
        let len = length tokens % 2 ^ 32 in
        let begun = start_doc key 0 ix in
        let (counts, ix₁) = intern_and_count tokens [] begun in
        let a = intern_and_count-SameDocs tokens [] begun in
        let b = post_counts-SameDocs (length ix.docs) counts ix₁ in
        let all = same_trans begun ix₁ (post_counts (length ix.docs) counts ix₁) a b in
        added-IsIndexed key len ix _ v absent all.docs all.keys refl (ap (λ n. n + len) all.total)

    -- Whatever the key, adding a document keeps the columns in step.
    pub add_document_direct-InStep :
        (key key_text value_text : Bytes) (ix : Bm25Index S)
        → InStep ix
        → InStep (add_document_direct zero_score mean key key_text value_text ix)
    unfolding add_document_direct
    add_document_direct-InStep key key_text value_text ix v =
        let tokens = tokenize key_text ++ tokenize value_text in
        let len = length tokens % 2 ^ 32 in
        let begun = start_doc key 0 ix in
        let (counts, ix₁) = intern_and_count tokens [] begun in
        let a = intern_and_count-SameDocs tokens [] begun in
        let b = post_counts-SameDocs (length ix.docs) counts ix₁ in
        let all = same_trans begun ix₁ (post_counts (length ix.docs) counts ix₁) a b in
        let more = length-append ix.docs (key ∷ []) in
        record {
          lengths =
              rw all.docs (omega (arith, v.lengths, more, length-append ix.doc_len (len ∷ [])));
          known = λ k i h. rw all.docs (
              ground (
                arith,
                h,
                all.keys,
                more,
                lookup-insert key k (length ix.docs) ix.key_to_doc,
                v.known k i,
              ));
        }

    -- Removing a document does not panic while the columns are in step, and keeps them so; the key is
    -- then not indexed.
    pub remove_document-InStep :
        (key : Bytes) (ix : Bm25Index S)
        → InStep ix
        → (ix' : Bm25Index S) × (remove_document zero_score mean key ix ≡ some ix')
          × InStep ix'
          × (lookup key ix'.key_to_doc ≡ none)
    unfolding remove_document
    remove_document-InStep key ix v = elim (Option-cases (lookup key ix.key_to_doc)) [
      | inl h ↦ (ix, rw (h, remove_document) refl, v, h)
      | inr (d, h) ↦
          let d_lt = v.known key d h in
          let (n, at_d) = get_elem?-lt ix.doc_len d (omega (arith, v.lengths, d_lt)) in
          let (doc, at_doc) = get_elem?-lt ix.docs d d_lt in
          (
            cleared zero_score mean key d n ix,
            rw (h, at_d, at_doc, remove_document) refl,
            record {
              lengths =
                  omega
                    (arith, length-set_at d 0 ix.doc_len, length-set_at d [] ix.docs, v.lengths);
              known = λ k i e. ground (
                arith,
                e,
                lookup-remove key k ix.key_to_doc,
                length-set_at d [] ix.docs,
                v.known k i,
              );
            },
            ground (arith, lookup-remove key key ix.key_to_doc, ==_refl key),
          )
    ]

    -- Removing a document keeps the index in step with its keys, whether its key is indexed or not.
    pub remove_document-IsIndexed :
        (key : Bytes) (ix : Bm25Index S)
        → IsIndexed ix
        → (ix' : Bm25Index S) × (remove_document zero_score mean key ix ≡ some ix') × IsIndexed ix'
    unfolding remove_document
    remove_document-IsIndexed key ix v = elim (Option-cases (lookup key ix.key_to_doc)) [
      | inl h ↦ (ix, rw (h, remove_document) refl, v)
      | inr (d, h) ↦
          let d_lt = get_elem?-bound ix.docs d key (v.at_key key d h) in
          let (n, at_d) = get_elem?-lt ix.doc_len d (omega (arith, v.lengths, d_lt)) in
          let at_doc = v.at_key key d h in
          (
            cleared zero_score mean key d n ix,
            rw (h, at_d, at_doc, remove_document) refl,
            record {
              at_key = λ k i e. ground (
                arith,
                e,
                lookup-remove key k ix.key_to_doc,
                bytes_eq.beq_iff key k,
                v.at_key k i,
                v.at_key key d h,
                get_elem?-set_at d i [] ix.docs d_lt,
                eqb_iff d i,
              );
              of_doc = λ b k i e. ground (
                arith,
                e,
                h,
                lookup-remove key (b ∷ k) ix.key_to_doc,
                bytes_eq.beq_iff key (b ∷ k),
                v.of_doc b k i,
                get_elem?-set_at d i [] ix.docs d_lt,
                eqb_iff d i,
              );
              lengths =
                  omega
                    (arith, length-set_at d 0 ix.doc_len, length-set_at d [] ix.docs, v.lengths);
              total = omega (arith, v.total, sum-set_at d n ix.doc_len at_d);
            },
          )
    ]

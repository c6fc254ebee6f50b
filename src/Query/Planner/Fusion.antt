-- ===== src/Query/Planner/Fusion.antt =====
-- Reciprocal rank fusion (src/query/planner.rs, `merge_rrf`).
use uldb.Prelude.{
  ℕ, zero, suc, ◌+◌, ◌≡◌, List, [], ◌∷◌, ◌++◌, Option, some, none, Bool, if◌then◌else◌, arith, refl,
  sym, ◌∙◌, ap, get_elem?, ◌==◌,
}
use uldb.Bytes.{Bytes, bytes_eq}
use uldb.Maps.{lookup, insert, lookup-insert}
use uldb.Query.Planner.{
  RankedHit, add_scores, add_lists, insert_hit, sort_hits, number, merge_rrf, or_zero,
}

module _ {S : Type 0} (zero_score : S) (plus : S → S → S) (term : ℕ → S) (lt : S → S → Bool) where
  -- The terms that a key has in a list, and in all lists, in their order.
  abbrev pub terms_in : Bytes → ℕ → List (RankedHit S) → List S
  terms_in key i [] = []
  terms_in key i (hit ∷ hits) =
      let rest = terms_in key (i + 1) hits in if hit.key == key then term (i + 1) ∷ rest else rest

  abbrev pub terms : Bytes → List (List (RankedHit S)) → List S
  terms key [] = []
  terms key (hits ∷ lists) = terms_in key 0 hits ++ terms key lists

  -- The sum from the left on top of what there was; a key without terms keeps what it had.
  abbrev pub summed : Option S → List S → Option S
  summed o [] = o
  summed o (t ∷ ts) = summed (some (plus (or_zero S zero_score plus term lt o) t)) ts

  summed-append : (xs ys : List S) (o : Option S) → summed o (xs ++ ys) ≡ summed (summed o xs) ys
  summed-append [] ys o = refl
  summed-append (x ∷ xs) ys o =
      summed-append xs ys (some (plus (or_zero S zero_score plus term lt o) x))

  lookup-add_scores :
      (key : Bytes) (i : ℕ) (hits : List (RankedHit S)) (scores : List (Bytes × S))
      → lookup key (add_scores S zero_score plus term lt i hits scores)
        ≡ summed (lookup key scores) (terms_in key i hits)
  unfolding add_scores
  lookup-add_scores key i [] scores = refl
  lookup-add_scores key i (hit ∷ hits) scores =
      let later = plus (or_zero S zero_score plus term lt (lookup hit.key scores)) (term (i + 1)) in
      lookup-add_scores key (i + 1) hits (insert hit.key later scores)
      ∙ rw (lookup-insert hit.key key later scores) (ground (arith, bytes_eq.beq_iff hit.key key))

  lookup-add_lists :
      (key : Bytes) (lists : List (List (RankedHit S))) (scores : List (Bytes × S))
      → lookup key (add_lists S zero_score plus term lt lists scores)
        ≡ summed (lookup key scores) (terms key lists)
  unfolding add_lists
  lookup-add_lists key [] scores = refl
  lookup-add_lists key (hits ∷ lists) scores =
      lookup-add_lists key lists (add_scores S zero_score plus term lt 0 hits scores)
      ∙ ap (λ o. summed o (terms key lists)) (lookup-add_scores key 0 hits scores)
      ∙ sym (summed-append (terms_in key 0 hits) (terms key lists) (lookup key scores))

  -- The keys are all different.
  abbrev Distinct : List (Bytes × S) → Type 0
  Distinct [] = Unit
  Distinct ((key, score) ∷ hits) = (lookup key hits ≡ none) × Distinct hits

  insert-Distinct :
      (key : Bytes) (score : S) (m : List (Bytes × S)) → Distinct m → Distinct (insert key score m)
  unfolding insert lookup
  insert-Distinct key score [] h = (refl, tt)
  insert-Distinct key score ((j, s) ∷ m) h = ground (
    arith,
    bytes_eq.beq_iff j key,
    bytes_eq.beq_iff key j,
    insert-Distinct key score m,
    lookup-insert key j score m,
  )

  add_scores-Distinct :
      (i : ℕ) (hits : List (RankedHit S)) (scores : List (Bytes × S))
      → Distinct scores
      → Distinct (add_scores S zero_score plus term lt i hits scores)
  unfolding add_scores
  add_scores-Distinct i [] scores h = h
  add_scores-Distinct i (hit ∷ hits) scores h =
      add_scores-Distinct (i + 1) hits _ (insert-Distinct hit.key _ scores h)

  add_lists-Distinct :
      (lists : List (List (RankedHit S))) (scores : List (Bytes × S))
      → Distinct scores
      → Distinct (add_lists S zero_score plus term lt lists scores)
  unfolding add_lists
  add_lists-Distinct [] scores h = h
  add_lists-Distinct (hits ∷ lists) scores h =
      add_lists-Distinct lists _ (add_scores-Distinct 0 hits scores h)

  lookup-insert_hit :
      (key j : Bytes) (score : S) (hits : List (Bytes × S))
      → lookup j hits ≡ none
      → lookup key (insert_hit S zero_score plus term lt (j, score) hits)
        ≡ (if j == key then some score else lookup key hits)
  unfolding insert_hit lookup
  lookup-insert_hit key j score [] h = refl
  lookup-insert_hit key j score ((i, s) ∷ hits) h = ground (
    arith,
    bytes_eq.beq_iff j key,
    bytes_eq.beq_iff i key,
    bytes_eq.beq_iff i j,
    lookup-insert_hit key j score hits,
  )

  insert_hit-Distinct :
      (j : Bytes) (score : S) (hits : List (Bytes × S))
      → lookup j hits ≡ none
      → Distinct hits
      → Distinct (insert_hit S zero_score plus term lt (j, score) hits)
  unfolding insert_hit lookup
  insert_hit-Distinct j score [] h d = (refl, tt)
  insert_hit-Distinct j score ((i, s) ∷ hits) h d = ground (
    arith,
    bytes_eq.beq_iff j i,
    bytes_eq.beq_iff i j,
    lookup-insert_hit i j score hits,
    insert_hit-Distinct j score hits,
  )

  lookup-sort_hits :
      (key : Bytes) (hits : List (Bytes × S))
      → Distinct hits
      → lookup key (sort_hits S zero_score plus term lt hits) ≡ lookup key hits
  unfolding sort_hits lookup
  lookup-sort_hits key [] h = refl
  lookup-sort_hits key ((j, s) ∷ hits) h =
      lookup-insert_hit key j s (sort_hits S zero_score plus term lt hits)
        (lookup-sort_hits j hits h.1 ∙ h.0)
      ∙ ground (arith, lookup-sort_hits key hits h.1)

  -- The score of the hits of a merged list that have the key; a second hit would be found as well.
  abbrev pub scores_of : Bytes → List (RankedHit S) → List S
  scores_of key [] = []
  scores_of key (hit ∷ hits) =
      let rest = scores_of key hits in if hit.key == key then hit.score ∷ rest else rest

  abbrev pub at_most_one : Option S → List S
  at_most_one none = []
  at_most_one (some s) = s ∷ []

  scores-number :
      (key : Bytes) (i : ℕ) (hits : List (Bytes × S))
      → Distinct hits
      → scores_of key (number S zero_score plus term lt i hits) ≡ at_most_one (lookup key hits)
  unfolding number lookup
  scores-number key i [] h = refl
  scores-number key i ((j, s) ∷ hits) h =
      ground (arith, bytes_eq.beq_iff j key, scores-number key (i + 1) hits h.1)

  sort_hits-Distinct :
      (hits : List (Bytes × S))
      → Distinct hits
      → Distinct (sort_hits S zero_score plus term lt hits)
  unfolding sort_hits
  sort_hits-Distinct [] h = tt
  sort_hits-Distinct ((j, s) ∷ hits) h =
      insert_hit-Distinct j s (sort_hits S zero_score plus term lt hits)
        (lookup-sort_hits j hits h.1 ∙ h.0) (sort_hits-Distinct hits h.1)

  -- A merged list has one hit for each key of the lists, whose score adds the key's terms in the
  -- order of the lists, and no hit for another key.
  pub scores-merge_rrf :
      (key : Bytes) (lists : List (List (RankedHit S)))
      → scores_of key (merge_rrf S zero_score plus term lt lists)
        ≡ at_most_one (summed none (terms key lists))
  unfolding merge_rrf lookup
  scores-merge_rrf key lists =
      let scores = add_lists S zero_score plus term lt lists [] in
      let d = add_lists-Distinct lists [] tt in
      scores-number key 0 (sort_hits S zero_score plus term lt scores) (sort_hits-Distinct scores d)
      ∙ ap at_most_one (lookup-sort_hits key scores d ∙ lookup-add_lists key lists [])

  -- The rank of a hit of a merged list is its position.
  number-rank :
      (hits : List (Bytes × S)) (n i : ℕ) (hit : RankedHit S)
      → get_elem? (number S zero_score plus term lt n hits) i ≡ some hit
      → hit.rank ≡ n + i
  unfolding number
  number-rank [] n i hit h = cc
  number-rank ((j, s) ∷ hits) n zero hit h = ground (arith, h)
  number-rank ((j, s) ∷ hits) n (suc i) hit h = omega (arith, number-rank hits (n + 1) i hit h)

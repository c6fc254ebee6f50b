-- ===== src/Index/Fuzzy/Distance.antt =====
-- `levenshtein` against edit scripts (src/index/fuzzy.rs).
use uldb.Prelude.{
  ℕ, suc, ◌+◌, ◌-◌, ◌≡◌, ◌<◌, ◌≤◌, List, [], ◌∷◌, arith, refl, sym, ap, subst, length, min, ltb,
  All, ◌⊎◌, inl, inr, if_elim,
}
use uldb.Bytes.{Bytes}
use uldb.Bytes.Utf8.{chars, IsAscii, chars-ascii}
use uldb.Index.Fuzzy.{next_row, row_min, first_row, last_entry, rows_from, bounded, levenshtein}
use uldb.Index.Fuzzy.Edits.{
  Edits, edit, edit-le, edit-Edits, edit-rev, rev_onto, edit_nil, edit_comm, length-edit,
}

-- The row of distances from `ra` to the prefixes of a list, `rb` of which is behind, both backwards.
unfoldable later_entries : List ℕ → List ℕ → List ℕ → List ℕ
later_entries ra rb [] = []
later_entries ra rb (y ∷ ys) = edit ra (y ∷ rb) ∷ later_entries ra (y ∷ rb) ys

abbrev row : List ℕ → List ℕ → List ℕ → List ℕ
row ra rb ys = edit ra rb ∷ later_entries ra rb ys

first_row_lem : (rb ys : List ℕ) (i : ℕ) → i ≡ length rb → first_row i ys ≡ row [] rb ys
unfolding first_row later_entries edit
first_row_lem rb [] i h = ap (λ n. n ∷ []) h
first_row_lem rb (y ∷ ys) i h = rw (first_row_lem (y ∷ rb) ys (i + 1) (omega (arith, h)), h) refl

next_row_lem :
    (a : ℕ) (ra rb ys : List ℕ) (left : ℕ)
    → left ≡ edit (a ∷ ra) rb
    → next_row a ys (row ra rb ys) left ≡ later_entries (a ∷ ra) rb ys
unfolding next_row later_entries edit
next_row_lem a ra rb [] left h = refl
next_row_lem a ra rb (y ∷ ys) left h =
    rw h (ap (λ l. edit (a ∷ ra) (y ∷ rb) ∷ l) (next_row_lem a ra (y ∷ rb) ys _ refl))

last_entry_lem :
    (ra rb ys : List ℕ) (n : ℕ) → last_entry n (row ra rb ys) ≡ edit ra (rev_onto rb ys)
unfolding last_entry later_entries rev_onto
last_entry_lem ra rb [] n = refl
last_entry_lem ra rb (y ∷ ys) n = last_entry_lem ra (y ∷ rb) ys (edit ra rb)

-- The distances of a row that are all `m` or more stay so in the next row, and to the end.
abbrev AtLeast : ℕ → List ℕ → Type 0
AtLeast m = All (λ n. m ≤ n)

later-AtLeast :
    (m a : ℕ) (ra rb ys : List ℕ)
    → AtLeast m (row ra rb ys)
    → m ≤ edit (a ∷ ra) rb
    → AtLeast m (later_entries (a ∷ ra) rb ys)
unfolding later_entries edit
later-AtLeast m a ra rb [] h k = tt
later-AtLeast m a ra rb (y ∷ ys) h k =
    let entry : m ≤ edit (a ∷ ra) (y ∷ rb) = omega (arith, h.0, h.1.0, k) in
    (entry, later-AtLeast m a ra (y ∷ rb) ys h.1 entry)

last-AtLeast : (m : ℕ) (ra rb ys : List ℕ) → AtLeast m (row ra rb ys) → m ≤ edit ra (rev_onto rb ys)
unfolding later_entries rev_onto
last-AtLeast m ra rb [] h = h.0
last-AtLeast m ra rb (y ∷ ys) h = last-AtLeast m ra (y ∷ rb) ys h.1

rows-AtLeast :
    (m : ℕ) (ra later ys : List ℕ)
    → AtLeast m (row ra [] ys)
    → m ≤ edit (rev_onto ra later) (rev_onto [] ys)
unfolding rev_onto edit
rows-AtLeast m ra [] ys h = last-AtLeast m ra [] ys h
rows-AtLeast m ra (a ∷ later) ys h =
    let first : m ≤ edit (a ∷ ra) [] = omega (arith, h.0, edit_nil ra) in
    rows-AtLeast m (a ∷ ra) later ys (first, later-AtLeast m a ra [] ys h first)

row_min-AtLeast :
    (m least : ℕ) (entries : List ℕ) → m ≤ row_min least entries → (m ≤ least) × AtLeast m entries
unfolding row_min
row_min-AtLeast m least [] h = (h, tt)
row_min-AtLeast m least (n ∷ entries) h =
    let ih = row_min-AtLeast m (min least n) entries h in
    (omega (arith, ih.0), (omega (arith, ih.0), ih.1))

-- The distance, or a number above the bound where the distance is above it.
abbrev Bounded : ℕ → ℕ → ℕ → Type 0
Bounded d max_dist n = (n ≡ d) ⊎ ((max_dist < n) × (max_dist < d))

rows_from-Bounded :
    (i : ℕ) (ra later ys : List ℕ) (max_dist : ℕ)
    → i ≡ length ra
    → Bounded
        (edit (rev_onto ra later) (rev_onto [] ys))
        max_dist
        (rows_from i later ys (row ra [] ys) max_dist)
unfolding rows_from rev_onto
rows_from-Bounded i ra [] ys max_dist h = inl (last_entry_lem ra [] ys 0)
rows_from-Bounded i ra (a ∷ later) ys max_dist h =
    let first : i + 1 ≡ edit (a ∷ ra) [] = omega (arith, h, edit_nil (a ∷ ra)) in
    let entries = next_row_lem a ra [] ys (i + 1) first in
    let next = row (a ∷ ra) [] ys in
    let same : (i + 1) ∷ next_row a ys (row ra [] ys) (i + 1) ≡ next = rw (entries, first) refl in
    if_elim (Bounded (edit (rev_onto (a ∷ ra) later) (rev_onto [] ys)) max_dist)
      (ltb max_dist (row_min (i + 1) (next_row a ys (row ra [] ys) (i + 1)))) (max_dist + 1)
      (rows_from (i + 1) later ys ((i + 1) ∷ next_row a ys (row ra [] ys) (i + 1)) max_dist)
      (λ exceeded.
        let least : max_dist < row_min (i + 1) (next_row a ys (row ra [] ys) (i + 1)) =
          ground (arith, exceeded) in
        let low =
          row_min-AtLeast (suc max_dist) (i + 1) (next_row a ys (row ra [] ys) (i + 1)) least in
        let all : AtLeast (suc max_dist) next = subst (AtLeast (suc max_dist)) same low in
        inr (omega arith, rows-AtLeast (suc max_dist) (a ∷ ra) later ys all))
      (λ within. rw same (rows_from-Bounded (i + 1) (a ∷ ra) later ys max_dist (omega (arith, h))))

bounded-Bounded :
    (a b : Bytes) (max_dist : ℕ)
    → IsAscii a
    → IsAscii b
    → length a ≤ length b
    → Bounded (edit a b) max_dist (bounded a b max_dist)
bounded-Bounded a b max_dist ha hb h =
    if_elim (Bounded (edit a b) max_dist) (ltb max_dist (length b - length a)) (max_dist + 1)
      (rows_from 0 (chars a) (chars b) (first_row 0 (chars b)) max_dist)
      (λ far. let apart = length-edit a b in inr (omega arith, ground (arith, far, apart)))
      (λ near.
        rw (chars-ascii a ha, chars-ascii b hb, first_row_lem [] b 0 refl)
          (rw⁻¹ (edit-rev a b) (rows_from-Bounded 0 [] a b max_dist refl)))

-- On ASCII strings the result is the least number of edits, or above the bound where that is.
levenshtein-Bounded :
    (a b : Bytes) (max_dist : ℕ)
    → IsAscii a
    → IsAscii b
    → Bounded (edit a b) max_dist (levenshtein a b max_dist)
unfolding levenshtein
levenshtein-Bounded a b max_dist ha hb =
    if_elim (Bounded (edit a b) max_dist) (ltb (length b) (length a)) (bounded b a max_dist)
      (bounded a b max_dist)
      (λ longer. rw (edit_comm a b) (bounded-Bounded b a max_dist hb ha (ground (arith, longer))))
      (λ shorter. bounded-Bounded a b max_dist ha hb (ground (arith, shorter)))

-- On ASCII strings, a result within the bound is the number of edits of a script from the first
-- string to the second.
pub levenshtein-Edits :
    (a b : Bytes) (max_dist : ℕ)
    → IsAscii a
    → IsAscii b
    → levenshtein a b max_dist ≤ max_dist
    → Edits a b (levenshtein a b max_dist)
levenshtein-Edits a b max_dist ha hb h = elim (levenshtein-Bounded a b max_dist ha hb) [
  | inl same ↦ subst (λ n. Edits a b n) (sym same) (edit-Edits a b)
  | inr above ↦ absurd (omega (arith, above.0))
]

-- On ASCII strings, no script of at most `max_dist` edits has fewer than the result.
pub levenshtein-le :
    (a b : Bytes) (max_dist k : ℕ)
    → IsAscii a
    → IsAscii b
    → Edits a b k
    → k ≤ max_dist
    → levenshtein a b max_dist ≤ k
levenshtein-le a b max_dist k ha hb e h = elim (levenshtein-Bounded a b max_dist ha hb) [
  | inl same ↦ omega (arith, same, edit-le a b k e)
  | inr above ↦ absurd (omega (arith, above.1, edit-le a b k e))
]

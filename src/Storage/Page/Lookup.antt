-- ===== src/Storage/Page/Lookup.antt =====
-- Lookups and ranges in a page (src/storage/page.rs) against the plain list of its records.
use uldb.Prelude.{
  suc, ◌≡◌, List, [], ◌∷◌, Option, some, none, true, false, not, ◌&&◌, if◌then◌else◌, drop, ◌==◌,
  arith, refl, ap, All, ◌∙◌, Bool-cases, inl, inr, ◌⊎◌,
}
use uldb.Bytes.{Bytes, bytes_eq, blt}
use uldb.Bytes.Order.{blt_irrefl, blt_trans, blt_total}
use uldb.Storage.Page.{
  PageRecord, Page, Search, found, missing, shift, binary_search, record_at, live_value, get,
  index_of, take_below, range,
}

-- The first record of a key.
unfoldable pub find_record : Bytes → List PageRecord → Option PageRecord
find_record key [] = none
find_record key (r ∷ rs) = if r.key == key then some r else find_record key rs

abbrev pub Above : Bytes → List PageRecord → Type 0
Above k = All (λ r. blt k r.key ≡ true)

-- The keys go strictly up.
abbrev pub IsSorted : List PageRecord → Type 0
IsSorted [] = Unit
IsSorted (r ∷ rs) = Above r.key rs × IsSorted rs

pub Above-find : (k : Bytes) (rs : List PageRecord) → Above k rs → find_record k rs ≡ none
unfolding find_record
Above-find k [] h = refl
Above-find k (r ∷ rs) h =
    ground (arith, bytes_eq.beq_iff r.key k, blt_irrefl k, Above-find k rs h.1)

pub Above-trans : (k j : Bytes) (rs : List PageRecord) → blt k j ≡ true → Above j rs → Above k rs
Above-trans k j [] h a = tt
Above-trans k j (r ∷ rs) h a = (blt_trans k j r.key h a.0, Above-trans k j rs h a.1)

-- The binary search finds the record of its key, if the page is sorted.
pub binary_search-find :
    (k : Bytes) (rs : List PageRecord)
    → IsSorted rs
    → record_at (binary_search k rs) rs ≡ find_record k rs
unfolding binary_search find_record
binary_search-find k [] s = refl
binary_search-find k (r ∷ rs) s = elim (Bool-cases (r.key == k)) [
  | inl e ↦ rw (e, binary_search, find_record)
  | inr n ↦ elim (Bool-cases (blt r.key k)) [
    | inl b ↦
        rw (n, b, binary_search, find_record)
          (shifted (binary_search k rs) r rs ∙ binary_search-find k rs s.1)
    | inr nb ↦ ground (
      arith,
      n,
      nb,
      blt_total r.key k,
      bytes_eq.beq_iff r.key k,
      λ (h : blt k r.key ≡ true). Above-find k rs (Above-trans k r.key rs h s.0),
    )
  ]
]
  where
    shifted :
        (i : Search) (r : PageRecord) (rs : List PageRecord)
        → record_at (elim i [ found j ↦ found (suc j) | missing j ↦ missing (suc j) ]) (r ∷ rs)
          ≡ record_at i rs
    shifted (found i) r rs = refl
    shifted (missing i) r rs = refl

-- A lookup in a sorted page gives the value of the key's record, and nothing for a tombstone.
pub get-find :
    (k : Bytes) (p : Page) → IsSorted p.records → get k p ≡ live_value (find_record k p.records)
unfolding get
get-find k p s = ap live_value (binary_search-find k p.records s)

pub Above-take_below : (k e : Bytes) (rs : List PageRecord) → Above k rs → Above k (take_below e rs)
unfolding take_below
Above-take_below k e [] a = tt
Above-take_below k e (r ∷ rs) a = ground (arith, Above-take_below k e rs)

take_below-IsSorted : (e : Bytes) (rs : List PageRecord) → IsSorted rs → IsSorted (take_below e rs)
unfolding take_below
take_below-IsSorted e [] s = tt
take_below-IsSorted e (r ∷ rs) s =
    ground (arith, take_below-IsSorted e rs, Above-take_below r.key e rs)

find-take_below :
    (j e : Bytes) (rs : List PageRecord)
    → IsSorted rs
    → find_record j (take_below e rs) ≡ (if blt j e then find_record j rs else none)
unfolding take_below find_record
find-take_below j e [] s = ground arith
find-take_below j e (r ∷ rs) s = ground (
  arith,
  bytes_eq.beq_iff r.key j,
  find-take_below j e rs s.1,
  λ (h : blt r.key j ≡ true). blt_trans r.key j e h,
  blt_total r.key j,
  Above-find j rs,
  λ (h : blt j r.key ≡ true). Above-find j rs (Above-trans j r.key rs h s.0),
)

index_of-shift : (i : Search) → index_of (shift i) ≡ suc (index_of i)
index_of-shift (found i) = refl
index_of-shift (missing i) = refl

-- Below the first key of a sorted page there is nothing.
find_below :
    (j : Bytes) (r : PageRecord) (rs : List PageRecord)
    → IsSorted (r ∷ rs)
    → blt j r.key ≡ true
    → find_record j (r ∷ rs) ≡ none
unfolding find_record
find_below j r rs s h =
    ground (
      arith,
      bytes_eq.beq_iff r.key j,
      blt_irrefl j,
      Above-find j rs (Above-trans j r.key rs h s.0),
    )

abbrev FromStart : Bytes → Bytes → List PageRecord → List PageRecord → Type 0
FromStart start j out rs =
    IsSorted out × (find_record j out ≡ (if blt j start then none else find_record j rs))

from_first :
    (start j : Bytes) (r : PageRecord) (rs : List PageRecord)
    → IsSorted (r ∷ rs)
    → blt r.key start ≡ false
    → FromStart start j (r ∷ rs) (r ∷ rs)
from_first start j r rs s h = (
  s,
  elim (Bool-cases (blt j start)) [
    | inl b ↦ rw b (
        find_below j r rs s (
          ground (
            arith,
            b,
            h,
            blt_trans j start r.key,
            blt_total r.key start,
            bytes_eq.beq_iff r.key start,
            λ (q : blt start r.key ≡ true). blt_trans j start r.key b q,
            Bool-cases (blt start r.key),
            λ (q : blt start r.key ≡ false). blt_total r.key start h q,
          )))
    | inr n ↦ rw n
  ],
)

index_first :
    (start : Bytes) (r : PageRecord) (rs : List PageRecord)
    → ((r.key == start) ≡ true) ⊎ (blt r.key start ≡ false)
    → index_of (binary_search start (r ∷ rs)) ≡ 0
unfolding binary_search
index_first start r rs (inl h) = ground arith
index_first start r rs (inr h) = ground arith

index_later :
    (start : Bytes) (r : PageRecord) (rs : List PageRecord)
    → (r.key == start) ≡ false
    → blt r.key start ≡ true
    → index_of (binary_search start (r ∷ rs)) ≡ suc (index_of (binary_search start rs))
unfolding binary_search
index_later start r rs n h = ground (arith, index_of-shift (binary_search start rs))

-- The part of a page from the first key that is not below `start`.
from_start :
    (start j : Bytes) (rs : List PageRecord)
    → IsSorted rs
    → FromStart start j (drop (index_of (binary_search start rs)) rs) rs
from_start start j [] s = unfold binary_search in (tt, unfold find_record in ground arith)
from_start start j (r ∷ rs) s = elim (Bool-cases (r.key == start)) [
  | inl e ↦ rw (index_first start r rs (inl e)) (
      from_first start j r rs s (ground (arith, e, bytes_eq.beq_iff r.key start, blt_irrefl start)))
  | inr n ↦ elim (Bool-cases (blt r.key start)) [
    | inr h ↦ rw (index_first start r rs (inr h)) (from_first start j r rs s h)
    | inl h ↦ rw (index_later start r rs n h) (
        let (sd, e) = from_start start j rs s.1 in
        (sd, e ∙ unfold find_record in ground (arith, bytes_eq.beq_iff r.key j, h)))
  ]
]

-- A range scan of a sorted page is sorted, and holds exactly the records of the page whose keys
-- satisfy `start <= key < end`.
pub range_lem :
    (start end j : Bytes) (p : Page)
    → IsSorted p.records
    → IsSorted (range start end p)
      × (find_record j (range start end p)
          ≡ (if not (blt j start) && blt j end then find_record j p.records else none))
unfolding range
range_lem start end j p s =
    let (sd, e) = from_start start j p.records s in
    (take_below-IsSorted end _ sd, find-take_below j end _ sd ∙ ground (arith, e))

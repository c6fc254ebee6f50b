-- ===== src/Storage/Page/Sorting.antt =====
-- Sorting a page (src/storage/page.rs).
use uldb.Prelude.{
  ◌≡◌, List, [], ◌∷◌, some, none, true, if◌then◌else◌, ◌==◌, arith, refl, ◌∙◌, ==_refl,
}
use uldb.Bytes.{Bytes, bytes_eq, blt}
use uldb.Bytes.Order.{blt_irrefl, blt_total, blt_asymm}
use uldb.Storage.Page.{PageRecord, Page, insert_sorted, sort_records, sort}
use uldb.Storage.Page.Lookup.{find_record, Above, Above-trans, IsSorted}

find-insert_sorted :
    (j : Bytes) (r : PageRecord) (rs : List PageRecord)
    → find_record j (insert_sorted r rs) ≡ (if r.key == j then some r else find_record j rs)
unfolding find_record insert_sorted
find-insert_sorted j r [] = refl
find-insert_sorted j r (s ∷ rs) = ground (
  arith,
  find-insert_sorted j r rs,
  bytes_eq.beq_iff r.key j,
  bytes_eq.beq_iff s.key j,
  blt_irrefl j,
)

find-sort_records :
    (j : Bytes) (rs : List PageRecord) → find_record j (sort_records rs) ≡ find_record j rs
unfolding sort_records find_record
find-sort_records j [] = refl
find-sort_records j (r ∷ rs) =
    find-insert_sorted j r (sort_records rs) ∙ ground (arith, find-sort_records j rs)

insert_sorted-IsSorted :
    (r : PageRecord) (rs : List PageRecord)
    → IsSorted rs
    → find_record r.key rs ≡ none
    → IsSorted (insert_sorted r rs)
      × ((k : Bytes) → blt k r.key ≡ true → Above k rs → Above k (insert_sorted r rs))
unfolding insert_sorted find_record
insert_sorted-IsSorted r [] s n = ((tt, tt), λ k h a. (h, tt))
insert_sorted-IsSorted r (t ∷ rs) s n =
    let ih : find_record r.key rs ≡ none = ground arith in
    let (sd, ab) = insert_sorted-IsSorted r rs s.1 ih in
    (
      ground (
        arith,
        sd,
        ab t.key,
        bytes_eq.beq_iff t.key r.key,
        blt_total r.key t.key,
        ==_refl r.key,
        λ (h : blt r.key t.key ≡ true). Above-trans r.key t.key rs h s.0,
      ),
      λ k h a. ground (arith, ab k),
    )

-- The keys are all different.
abbrev pub IsDistinct : List PageRecord → Type 0
IsDistinct [] = Unit
IsDistinct (r ∷ rs) = (find_record r.key rs ≡ none) × IsDistinct rs

sort_records-IsSorted : (rs : List PageRecord) → IsDistinct rs → IsSorted (sort_records rs)
unfolding sort_records
sort_records-IsSorted [] d = tt
sort_records-IsSorted (r ∷ rs) d =
    (insert_sorted-IsSorted r (sort_records rs) (sort_records-IsSorted rs d.1)
      (find-sort_records r.key rs ∙ d.0)).0

-- Sorting a page is stable, so the first record of each key stays the first, and the keys of a page
-- that has no key twice go strictly up afterwards.
pub sort_lem :
    (p : Page)
    → ((j : Bytes) → find_record j (sort p).records ≡ find_record j p.records)
      × (IsDistinct p.records → IsSorted (sort p).records)
unfolding sort
sort_lem p = ((λ j. find-sort_records j p.records), sort_records-IsSorted p.records)

-- A sorted page is left as it is by `sort`.
pub sort_sorted : (rs : List PageRecord) → IsSorted rs → sort_records rs ≡ rs
unfolding sort_records
sort_sorted [] s = refl
sort_sorted (r ∷ []) s = refl
sort_sorted (r ∷ t ∷ rs) s =
    rw (sort_sorted (t ∷ rs) s.1) (ground (arith, blt_asymm r.key t.key s.0.0))

-- ===== src/Storage/Compaction/Scan.antt =====
-- `CompactionManager::scan` (src/storage/compaction.rs) agrees with `get`.
use uldb.Prelude.{
  ◌≡◌, List, [], ◌∷◌, ◌++◌, Option, some, none, Bool, arith, refl, ap, ◌∙◌, not, ◌&&◌,
  if◌then◌else◌, append_nil,
}
use uldb.Bytes.{Bytes, bytes_eq, blt}
use uldb.Maps.{lookup, remove, lookup-remove}
use uldb.Maps.Sorted
use uldb.Maps.Sorted.{tree_insert, lookup-tree_insert, tree_insert-IsSorted, remove-IsSorted}
use uldb.Storage.Page
use uldb.Storage.Page.{PageRecord, Page, live_value}
use uldb.Storage.Page.Lookup.{find_record, IsSorted, Above-find, range_lem}
use uldb.Storage.Compaction.{CompactionManager, rev, get, apply_records, apply_pages, scan}
use uldb.Storage.Compaction.Merge.{all_records, or_record, find-append}
use uldb.Storage.Compaction.Reads.{
  SortedPages, IsValid, newest_first, get-newest, all_records-append,
}

-- What a record makes of the value that older pages left.
abbrev settle : Option PageRecord → Option Bytes → Option Bytes
settle none old = old
settle (some r) old = if r.tombstone then none else some r.value

abbrev pub in_range : Bytes → Bytes → Bytes → Bool
in_range start end j = not (blt j start) && blt j end

abbrev within : Bool → Option PageRecord → Option PageRecord
within b r = if b then r else none

apply_records-IsSorted :
    (rs : List PageRecord) (m : List (Bytes × Bytes))
    → Sorted.IsSorted m
    → Sorted.IsSorted (apply_records rs m)
unfolding apply_records
apply_records-IsSorted [] m s = s
apply_records-IsSorted (r ∷ rs) m s =
    apply_records-IsSorted rs _
      (ground (arith, tree_insert-IsSorted r.key r.value m, remove-IsSorted r.key m))

lookup-apply_records :
    (j : Bytes) (rs : List PageRecord) (m : List (Bytes × Bytes))
    → IsSorted rs
    → lookup j (apply_records rs m) ≡ settle (find_record j rs) (lookup j m)
unfolding apply_records find_record
lookup-apply_records j [] m s = refl
lookup-apply_records j (r ∷ rs) m s =
    lookup-apply_records j rs (if r.tombstone then remove r.key m else tree_insert r.key r.value m)
      s.1
    ∙ ground (
      arith,
      bytes_eq.beq_iff r.key j,
      Above-find j rs,
      lookup-tree_insert r.key j r.value m,
      lookup-remove r.key j m,
    )

module _ (start end : Bytes) where
  apply_pages-IsSorted :
      (ps : List Page) (m : List (Bytes × Bytes))
      → Sorted.IsSorted m
      → Sorted.IsSorted (apply_pages start end ps m)
  unfolding apply_pages
  apply_pages-IsSorted [] m s = s
  apply_pages-IsSorted (p ∷ ps) m s =
      apply_pages-IsSorted ps _ (apply_records-IsSorted (Page.range start end p) m s)

  lookup-apply_pages :
      (j : Bytes) (ps : List Page) (m : List (Bytes × Bytes))
      → SortedPages ps
      → lookup j (apply_pages start end ps m)
        ≡ settle (within (in_range start end j) (find_record j (all_records (rev ps)))) (lookup j m)
  unfolding apply_pages rev
  lookup-apply_pages j [] m s = unfold all_records find_record in ground arith
  lookup-apply_pages j (p ∷ ps) m s =
      let (rs, rf) = range_lem start end j p s.0 in
      let one : all_records (p ∷ []) ≡ p.records = unfold all_records in append_nil p.records in
      let last : find_record j (all_records (rev ps ++ p ∷ []))
          ≡ or_record (find_record j (all_records (rev ps))) (find_record j p.records) =
        ap (find_record j) (all_records-append (rev ps) (p ∷ []))
        ∙ (find-append j (all_records (rev ps)) (all_records (p ∷ []))
            ∙ ap (λ l. or_record (find_record j (all_records (rev ps))) (find_record j l)) one) in
      lookup-apply_pages j ps (apply_records (Page.range start end p) m) s.1
      ∙ ground (arith, lookup-apply_records j (Page.range start end p) m rs, rf, last)

  -- A scan is in the order of the keys, and gives for every key of the range what a read of that
  -- key gives, and nothing outside the range.
  pub scan-get :
      (cm : CompactionManager)
      → IsValid cm
      → Sorted.IsSorted (scan start end cm)
        × ((j : Bytes)
            → lookup j (scan start end cm) ≡ (if in_range start end j then get j cm else none))
  unfolding scan
  scan-get cm ok =
      let m2 = apply_pages start end cm.l2 [] in
      let m1 = apply_pages start end cm.l1 m2 in
      (
        apply_pages-IsSorted cm.l0 m1
            (apply_pages-IsSorted cm.l1 m2 (apply_pages-IsSorted cm.l2 [] tt)),
        λ j.
            unfold lookup newest_first in
            ground (
              arith,
              lookup-apply_pages j cm.l0 m1 ok.sorted0,
              lookup-apply_pages j cm.l1 m2 ok.sorted1,
              lookup-apply_pages j cm.l2 [] ok.sorted2,
              get-newest j cm ok,
              find-append j (all_records (rev cm.l0))
                  (all_records (rev cm.l1) ++ all_records (rev cm.l2)),
              find-append j (all_records (rev cm.l1)) (all_records (rev cm.l2)),
            ),
      )

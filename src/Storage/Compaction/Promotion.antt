-- ===== src/Storage/Compaction/Promotion.antt =====
-- What the compaction of the first level does to reads (src/storage/compaction.rs). It hands the
-- pages of the first level to the merge in the order of their flushes, so the oldest comes first.
use uldb.Prelude.{
  ℕ, ◌+◌, ◌≡◌, ◌≤◌, List, [], ◌∷◌, ◌++◌, some, none, false, arith, refl, ap, ◌∙◌, sym, is_some,
  if◌then◌else◌, All-append, length, length-append,
}
use uldb.Bytes.{Bytes, bytes_eq}
use uldb.Storage.Page.{PageRecord, Page, live_value}
use uldb.Storage.Page.Lookup.{find_record, IsSorted}
use uldb.Storage.Compaction.{
  CompactionManager, rev, get, merge_pages, compact_l0_to_l1, add_l0_page, l0_limit,
}
use uldb.Storage.Compaction.Merge.{all_records, or_record, find-append, merge_pages_lem}
use uldb.Storage.Compaction.Reads.{
  SortedPages, IsValid, newest_first, get-newest, all_records-append,
}
use uldb.Storage.Compaction.Levels.{
  IsShaped, merged01, compact_l0_to_l1-cases, add_l0_page-cases, merged-sorted, rev_few,
  all_records_nil, all_records_one, get-compact_l1_to_l2,
}

-- The pages that hold a record of `k`.
unfoldable pub holders : Bytes → List Page → ℕ
holders k [] = 0
holders k (p ∷ ps) = (if is_some (find_record k p.records) then 1 else 0) + holders k ps

find-all_cons :
    (k : Bytes) (p : Page) (ps : List Page)
    → find_record k (all_records (p ∷ ps))
      ≡ or_record (find_record k p.records) (find_record k (all_records ps))
unfolding all_records
find-all_cons k p ps = find-append k p.records (all_records ps)

find-rev_cons :
    (k : Bytes) (p : Page) (ps : List Page)
    → find_record k (all_records (rev (p ∷ ps)))
      ≡ or_record (find_record k (all_records (rev ps))) (find_record k p.records)
unfolding rev
find-rev_cons k p ps =
    ap (find_record k) (all_records-append (rev ps) (p ∷ []))
    ∙ (find-append k (all_records (rev ps)) (all_records (p ∷ []))
        ∙ ap (λ l. or_record (find_record k (all_records (rev ps))) (find_record k l))
            (all_records_one p))

no_holders : (k : Bytes) (ps : List Page) → holders k ps ≡ 0 → find_record k (all_records ps) ≡ none
unfolding holders
no_holders k [] h = unfold all_records find_record in refl
no_holders k (p ∷ ps) h = ground (arith, find-all_cons k p ps, no_holders k ps)

find-rev :
    (k : Bytes) (ps : List Page)
    → holders k ps ≤ 1
    → find_record k (all_records (rev ps)) ≡ find_record k (all_records ps)
unfolding holders
find-rev k [] h = unfold rev in refl
find-rev k (p ∷ ps) h =
    ground (arith, find-rev_cons k p ps, find-all_cons k p ps, find-rev k ps, no_holders k ps)

rev_last : (ps : List Page) (p : Page) → rev (ps ++ p ∷ []) ≡ p ∷ rev ps
unfolding rev
rev_last [] p = refl
rev_last (q ∷ ps) p = ap (λ l. l ++ q ∷ []) (rev_last ps p)

find-newest :
    (k : Bytes) (cm : CompactionManager)
    → find_record k (newest_first cm)
      ≡ or_record
          (find_record k (all_records (rev cm.l0)))
          (find_record k (all_records (rev cm.l1) ++ all_records (rev cm.l2)))
unfolding newest_first
find-newest k cm =
    find-append k (all_records (rev cm.l0)) (all_records (rev cm.l1) ++ all_records (rev cm.l2))

-- A page that is added is the newest.
find-newest_added :
    (k : Bytes) (page : Page) (cm : CompactionManager)
    → find_record k (newest_first (record cm { l0 = cm.l0 ++ page ∷ [] }))
      ≡ or_record (find_record k page.records) (find_record k (newest_first cm))
find-newest_added k page cm = ground (
  arith,
  find-newest k (record cm { l0 = cm.l0 ++ page ∷ [] }),
  find-newest k cm,
  ap (λ l. find_record k (all_records l)) (rev_last cm.l0 page),
  find-all_cons k page (rev cm.l0),
)

module _ (deflate : Bytes → Bytes) (k : Bytes) where
  -- After the first level was compacted, with or without the second, a read of `k` gives the first
  -- record from the oldest page of the first level to the newest, and then from the lower levels.
  pub get-compact_l0_to_l1 :
      (cm : CompactionManager)
      → IsValid cm
      → length cm.l1 ≤ 1
      → length cm.l2 ≤ 1
      → get k (compact_l0_to_l1 deflate cm)
        ≡ live_value (
            or_record
              (find_record k (all_records cm.l0))
              (find_record k (all_records (cm.l1 ++ cm.l2))))
  get-compact_l0_to_l1 cm ok f1 f2 =
      let m = merge_pages false (cm.l0 ++ cm.l1) in
      let cm' = merged01 deflate cm in
      let v : IsValid cm' = record {
        sorted0 = tt;
        sorted1 = merged-sorted false (cm.l0 ++ cm.l1);
        sorted2 = ok.sorted2;
      } in
      let view : newest_first cm' ≡ m.records ++ all_records cm.l2 =
        unfold newest_first in rw (all_records_nil, all_records_one, rev_few cm.l2 f2) in
      let here : get k cm'
          ≡ live_value (
              or_record (find_record k (all_records cm.l0))
                (find_record k (all_records (cm.l1 ++ cm.l2)))) =
        get-newest k cm' v
        ∙ rw view (
            ap live_value (
              ground (
                arith,
                find-append k m.records (all_records cm.l2),
                (merge_pages_lem false (cm.l0 ++ cm.l1)).1 k,
                ap (find_record k) (all_records-append cm.l0 cm.l1),
                ap (find_record k) (all_records-append cm.l1 cm.l2),
                find-append k (all_records cm.l0) (all_records cm.l1),
                find-append k (all_records cm.l1) (all_records cm.l2),
              ))) in
      compact_l0_to_l1-cases deflate
        (λ c.
          get k c
          ≡ live_value (
              or_record (find_record k (all_records cm.l0))
                (find_record k (all_records (cm.l1 ++ cm.l2)))))
        cm here (get-compact_l1_to_l2 k cm' v (omega arith) f2 ∙ here)

  module _ (page : Page) (cm : CompactionManager) (sorted : IsSorted page.records) (ok : IsValid cm)
      (shape : IsShaped cm) where
    all_sorted : SortedPages (cm.l0 ++ page ∷ [])
    all_sorted = All-append (λ p. IsSorted p.records) cm.l0 (page ∷ []) ok.sorted0 (sorted, tt)

    -- While no key is in two pages of the first level, a new page overrides what was read before
    -- and every other key reads as before, also when the page starts a compaction.
    pub get-add_l0_page :
        holders k (cm.l0 ++ page ∷ []) ≤ 1
        → get k (add_l0_page deflate page cm)
          ≡ live_value (or_record (find_record k page.records) (find_record k (newest_first cm)))
    get-add_l0_page once =
        let cm' = record cm { l0 = cm.l0 ++ page ∷ [] } in
        let ok' : IsValid cm' = record {
          sorted0 = all_sorted;
          sorted1 = ok.sorted1;
          sorted2 = ok.sorted2;
        } in
        let plain : get k cm'
            ≡ live_value
                (or_record (find_record k page.records) (find_record k (newest_first cm))) =
          get-newest k cm' ok' ∙ ap live_value (find-newest_added k page cm) in
        let lower : find_record k (all_records (rev cm.l1) ++ all_records (rev cm.l2))
            ≡ find_record k (all_records (cm.l1 ++ cm.l2)) =
          rw (rev_few cm.l1 shape.few1, rev_few cm.l2 shape.few2, all_records-append cm.l1 cm.l2) in
        let merged : get k (compact_l0_to_l1 deflate cm') ≡ get k cm' =
          get-compact_l0_to_l1 cm' ok' shape.few1 shape.few2
          ∙ (ap live_value
                (ground (arith, find-newest k cm', find-rev k (cm.l0 ++ page ∷ []) once, lower))
              ∙ sym (get-newest k cm' ok')) in
        add_l0_page-cases deflate
          (λ c.
            get k c
            ≡ live_value (or_record (find_record k page.records) (find_record k (newest_first cm))))
          page cm (λ few. plain) (merged ∙ plain)

    -- A key that the oldest page of the first level holds reads as that old record after the
    -- compaction, whatever the newer pages hold: a later write or delete of the key is lost.
    pub stale_read :
        (old : Page) (newer : List Page) (r : PageRecord)
        → cm.l0 ≡ old ∷ newer
        → l0_limit ≤ length cm.l0 + 1
        → find_record k old.records ≡ some r
        → get k (add_l0_page deflate page cm) ≡ live_value (some r)
    stale_read old newer r e full holds =
        let cm' = record cm { l0 = cm.l0 ++ page ∷ [] } in
        let ok' : IsValid cm' = record {
          sorted0 = all_sorted;
          sorted1 = ok.sorted1;
          sorted2 = ok.sorted2;
        } in
        let first : find_record k (all_records (cm.l0 ++ page ∷ [])) ≡ some r =
          rw e (find-all_cons k old (newer ++ page ∷ []) ∙ rw holds) in
        add_l0_page-cases deflate (λ c. get k c ≡ live_value (some r)) page cm
          (λ few. absurd (omega (arith, length-append cm.l0 (page ∷ []))))
          (get-compact_l0_to_l1 cm' ok' shape.few1 shape.few2 ∙ rw first)

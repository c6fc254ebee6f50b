-- ===== src/Storage/Compaction/Levels.antt =====
-- Adding pages and compacting levels (src/storage/compaction.rs): which reads change.
use uldb.Prelude.{
  ◌+◌, ◌≡◌, ◌≤◌, ◌<◌, List, [], ◌∷◌, ◌++◌, Bool, true, false, arith, refl, ap, ◌∙◌, sym, ltb, leb,
  All-append, append_nil, Bool-cases, inl, inr, length,
}
use uldb.Bytes.{Bytes, bytes_eq}
use uldb.Storage.Page.{Page}
use uldb.Storage.Page.Lookup.{IsSorted}
use uldb.Storage.Compaction.{
  CompactionManager, rev, get, merge_pages, compact_l0_to_l1, compact_l1_to_l2, add_l0_page,
  serialized_size, l0_limit, l1_size_limit,
}
use uldb.Storage.Compaction.Merge.{all_records, find-append, merge_pages_lem}
use uldb.Storage.Compaction.Reads.{
  SortedPages, IsValid, newest_first, get-newest, all_records-append,
}

-- Compaction leaves one page at most in each of the lower levels.
pub record IsShaped (cm : CompactionManager) : Type 0 where
  pub few0 : length cm.l0 < l0_limit
  pub few1 : length cm.l1 ≤ 1
  pub few2 : length cm.l2 ≤ 1

pub merged-sorted : (d : Bool) (ps : List Page) → SortedPages (merge_pages d ps ∷ [])
merged-sorted d ps = ((merge_pages_lem d ps).0, tt)

abbrev Good : CompactionManager → Type 0
Good cm = IsValid cm × IsShaped cm

compact_l1_to_l2-Good :
    (cm : CompactionManager) → IsValid cm → length cm.l0 < l0_limit → Good (compact_l1_to_l2 cm)
unfolding compact_l1_to_l2
compact_l1_to_l2-Good cm ok few = (
  record { sorted0 = ok.sorted0; sorted1 = tt; sorted2 = merged-sorted true (cm.l1 ++ cm.l2) },
  record { few0 = few; few1 = omega arith; few2 = omega arith },
)

module _ (deflate : Bytes → Bytes) where
  -- The manager after the merge of the first two levels, before the size test.
  abbrev pub merged01 : CompactionManager → CompactionManager
  merged01 cm = record cm {
    l0 = [];
    l1 = merge_pages false (cm.l0 ++ cm.l1) ∷ [];
    compaction_count = cm.compaction_count + 1;
  }

  -- The size test picks one of two results.
  pub compact_l0_to_l1-cases :
      (P : CompactionManager → Type 0) (cm : CompactionManager)
      → P (merged01 cm)
      → P (compact_l1_to_l2 (merged01 cm))
      → P (compact_l0_to_l1 deflate cm)
  unfolding compact_l0_to_l1
  compact_l0_to_l1-cases P cm small large =
      elim (Bool-cases
        (ltb l1_size_limit (serialized_size deflate (merge_pages false (cm.l0 ++ cm.l1) ∷ [])))) [
          | inl e ↦ rw e large
          | inr e ↦ rw e small
        ]

  pub add_l0_page-cases :
      (P : CompactionManager → Type 0) (page : Page) (cm : CompactionManager)
      → (length (cm.l0 ++ page ∷ []) < l0_limit → P (record cm { l0 = cm.l0 ++ page ∷ [] }))
      → P (compact_l0_to_l1 deflate (record cm { l0 = cm.l0 ++ page ∷ [] }))
      → P (add_l0_page deflate page cm)
  unfolding add_l0_page
  add_l0_page-cases P page cm few many =
      elim (Bool-cases (leb l0_limit (length (cm.l0 ++ page ∷ [])))) [
        | inl e ↦ rw e many
        | inr e ↦ rw e (few (ground (arith, e)))
      ]

  -- Adding a sorted page keeps all pages sorted, keeps fewer than four pages in the first level and
  -- one at most in each of the others, whether or not it starts a compaction.
  pub add_l0_page-IsValid :
      (page : Page) (cm : CompactionManager)
      → IsSorted page.records
      → IsValid cm
      → IsShaped cm
      → IsValid (add_l0_page deflate page cm) × IsShaped (add_l0_page deflate page cm)
  add_l0_page-IsValid page cm s ok shape =
      let l0' = cm.l0 ++ page ∷ [] in
      let s0 : SortedPages l0' =
        All-append (λ p. IsSorted p.records) cm.l0 (page ∷ []) ok.sorted0 (s, tt) in
      let cm' = record cm { l0 = l0' } in
      let v : IsValid (merged01 cm') = record {
        sorted0 = tt;
        sorted1 = merged-sorted false (l0' ++ cm.l1);
        sorted2 = ok.sorted2;
      } in
      add_l0_page-cases Good page cm
        (λ few. (
          record { sorted0 = s0; sorted1 = ok.sorted1; sorted2 = ok.sorted2 },
          record { few0 = few; few1 = shape.few1; few2 = shape.few2 },
        ))
        (compact_l0_to_l1-cases Good cm'
          (v, record { few0 = omega arith; few1 = omega arith; few2 = shape.few2 })
          (compact_l1_to_l2-Good (merged01 cm') v (omega arith)))

-- One page at most is its own reverse.
pub rev_few : (ps : List Page) → length ps ≤ 1 → rev ps ≡ ps
unfolding rev
rev_few [] h = refl
rev_few (p ∷ []) h = refl
rev_few (p ∷ q ∷ ps) h = absurd (omega arith)

pub all_records_nil : all_records (rev []) ≡ []
unfolding all_records rev
all_records_nil = refl

pub all_records_one : (p : Page) → all_records (rev (p ∷ [])) ≡ p.records
unfolding all_records rev
all_records_one p = append_nil p.records

-- Moving the second level into the third changes no read: the tombstones that it drops hid only
-- records that are merged with them.
pub get-compact_l1_to_l2 :
    (k : Bytes) (cm : CompactionManager)
    → IsValid cm
    → length cm.l1 ≤ 1
    → length cm.l2 ≤ 1
    → get k (compact_l1_to_l2 cm) ≡ get k cm
get-compact_l1_to_l2 k cm ok f1 f2 =
    let cm' = compact_l1_to_l2 cm in
    let m = merge_pages true (cm.l1 ++ cm.l2) in
    let ok' : IsValid cm' =
      unfold compact_l1_to_l2 in
      record {
        sorted0 = ok.sorted0;
        sorted1 = tt;
        sorted2 = merged-sorted true (cm.l1 ++ cm.l2);
      } in
    let a = all_records (rev cm.l0) in
    let after : newest_first cm' ≡ a ++ m.records =
      unfold compact_l1_to_l2 newest_first in
      (ap (λ l. a ++ (l ++ all_records (rev (m ∷ [])))) all_records_nil
        ∙ ap (λ l. a ++ l) (all_records_one m)) in
    let before : newest_first cm ≡ a ++ all_records (cm.l1 ++ cm.l2) =
      unfold newest_first in
      rw (rev_few cm.l1 f1, rev_few cm.l2 f2, all_records-append cm.l1 cm.l2) in
    get-newest k cm' ok'
    ∙ (rw (after, before)
          (ground (
            arith,
            find-append k a m.records,
            find-append k a (all_records (cm.l1 ++ cm.l2)),
            (merge_pages_lem true (cm.l1 ++ cm.l2)).1 k,
          ))
        ∙ sym (get-newest k cm ok))

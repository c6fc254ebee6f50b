-- ===== src/Tests/Levels.antt =====
-- The compaction of src/storage/compaction.rs at concrete inputs.
use uldb.Prelude.{◌≡◌, [], ◌∷◌, some, none, refl, arith, if◌then◌else◌}
use uldb.Bytes.{Bytes, bytes_eq, blt}
use uldb.Maps.{lookup}
use uldb.Maps.Sorted
use uldb.Storage.Page.{PageRecord, Page, live_value}
use uldb.Storage.Page.Lookup.{find_record, IsSorted}
use uldb.Storage.Compaction.{get, add_l0_page, compact_l1_to_l2, scan, merge_pages, rev}
use uldb.Storage.Compaction.Reads.{IsValid, newest_first}
use uldb.Storage.Compaction.Levels.{IsShaped}
use uldb.Storage.Compaction.Scan.{scan-get, in_range}
use uldb.Storage.Compaction.Promotion.{holders, get-add_l0_page, stale_read}
use uldb.Tests.Inputs.{
  key_a, key_d, value_one, same_bytes, live_record, page_ab, page_c, page_ad, page_d, filled,
}

filled-IsValid : IsValid filled
unfolding blt
filled-IsValid = record {
  sorted0 = ((tt, tt), ((tt, tt), (tt, tt)));
  sorted1 = (((refl, tt), (tt, tt)), tt);
  sorted2 = (((refl, tt), (tt, tt)), tt);
}

filled-IsShaped : IsShaped filled
filled-IsShaped = record { few0 = omega arith; few1 = omega arith; few2 = omega arith }

page_ab-IsSorted : IsSorted page_ab.records
unfolding blt
page_ab-IsSorted = ((refl, tt), (tt, tt))

-- A fourth page starts a compaction, and the old tombstone of `a` gives way to its value.
get-add_l0_page_example : get key_a (add_l0_page same_bytes page_ab filled) ≡ some value_one
unfolding find_record newest_first holders
get-add_l0_page_example =
    get-add_l0_page same_bytes key_a page_ab filled page_ab-IsSorted filled-IsValid filled-IsShaped
      (omega arith)

scan-get_example :
    Sorted.IsSorted (scan key_a key_d filled)
    × ((j : Bytes)
        → lookup j (scan key_a key_d filled)
          ≡ (if in_range key_a key_d j then get j filled else none))
scan-get_example = scan-get key_a key_d filled filled-IsValid

-- The key `d` is written again, and the fourth page makes the older value come back.
stale_read_example :
    get key_d
      (add_l0_page same_bytes page_ad (record filled { l0 = page_d ∷ page_c ∷ page_c ∷ [] }))
    ≡ some value_one
unfolding find_record blt
stale_read_example =
    stale_read same_bytes key_d page_ad (record filled { l0 = page_d ∷ page_c ∷ page_c ∷ [] })
      ((refl, tt), (tt, tt))
      (record {
        sorted0 = ((tt, tt), ((tt, tt), ((tt, tt), tt)));
        sorted1 = (((refl, tt), (tt, tt)), tt);
        sorted2 = (((refl, tt), (tt, tt)), tt);
      })
      (record { few0 = omega arith; few1 = omega arith; few2 = omega arith }) page_d
      (page_c ∷ page_c ∷ []) (live_record key_d value_one) refl (omega arith) refl

-- The same write and its loss, by running the code.
stale_run :
    get key_d
      (add_l0_page same_bytes page_ad (record filled { l0 = page_d ∷ page_c ∷ page_c ∷ [] }))
    ≡ some value_one
unfolding get add_l0_page uldb.Storage.Compaction.compact_l0_to_l1 uldb.Storage.Page.serialize
    merge_pages uldb.Maps.contains_key uldb.Maps.insert blt lookup uldb.Storage.Page.get
stale_run = refl

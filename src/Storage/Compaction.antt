-- ===== src/Storage/Compaction.antt =====
-- src/storage/compaction.rs: three levels of pages, their merges, and reads across them.
pub mod Keys
pub mod Merge
pub mod Reads
pub mod Scan
pub mod Levels
pub mod Promotion
use uldb.Prelude.{
  ℕ, zero, suc, ◌+◌, ◌*◌, List, [], ◌∷◌, ◌++◌, Option, some, none, Bool, true, false, ltb, leb,
  ◌&&◌, if◌then◌else◌, length, map, ◌==◌,
}
use uldb.Bytes.{Bytes, bytes_eq, blt}
use uldb.Maps
use uldb.Maps.{lookup, insert, remove, keys}
use uldb.Maps.Sorted.{tree_insert}
use uldb.Storage.Page
use uldb.Storage.Page.{PageRecord, Page, Search, found, missing, binary_search}

abbrev pub l0_limit : ℕ
l0_limit = 4

abbrev pub l1_size_limit : ℕ
l1_size_limit = 64 * 1024

-- `levels` is the array `[l0, l1, l2]`.
pub record CompactionManager : Type 0 where
  pub l0 : List Page
  pub l1 : List Page
  pub l2 : List Page
  pub compaction_count : ℕ

abbrev pub new : CompactionManager
new = record { l0 = []; l1 = []; l2 = []; compaction_count = 0 }

-- `latest.entry(key).or_insert(rec)` for each record.
unfoldable pub collect_records :
    List PageRecord → List (Bytes × PageRecord) → List (Bytes × PageRecord)
collect_records [] latest = latest
collect_records (r ∷ rs) latest =
    collect_records rs (if Maps.contains_key r.key latest then latest else insert r.key r latest)

unfoldable pub collect : List Page → List (Bytes × PageRecord) → List (Bytes × PageRecord)
unfolding collect_records
collect [] latest = latest
collect (p ∷ ps) latest = collect ps (collect_records p.records latest)

-- `keys.sort()`
unfoldable pub insert_key : Bytes → List Bytes → List Bytes
insert_key k [] = k ∷ []
insert_key k (j ∷ ks) = if blt j k then j ∷ insert_key k ks else k ∷ j ∷ ks

unfoldable pub sort_keys : List Bytes → List Bytes
unfolding insert_key
sort_keys [] = []
sort_keys (k ∷ ks) = insert_key k (sort_keys ks)

-- One round of the second loop; every key is one of `latest`, so `latest[key]` never fails.
abbrev pub emit_one : Bool → Option PageRecord → List PageRecord → List PageRecord
emit_one drop_tombstones none rest = rest
emit_one drop_tombstones (some r) rest = if drop_tombstones && r.tombstone then rest else r ∷ rest

unfoldable pub emit : Bool → List (Bytes × PageRecord) → List Bytes → List PageRecord
emit drop_tombstones latest [] = []
emit drop_tombstones latest (k ∷ ks) =
    emit_one drop_tombstones (lookup k latest) (emit drop_tombstones latest ks)

unfoldable pub merge_pages : Bool → List Page → Page
unfolding collect sort_keys emit
merge_pages drop_tombstones pages =
    let latest = collect pages [] in
    record {
      records = emit drop_tombstones latest (sort_keys (keys latest));
      level = 1;
      bloom = none;
    }

-- Tombstones go at the last level.
unfoldable pub compact_l1_to_l2 : CompactionManager → CompactionManager
compact_l1_to_l2 cm = record cm {
  l1 = [];
  l2 = merge_pages true (cm.l1 ++ cm.l2) ∷ [];
  compaction_count = cm.compaction_count + 1;
}

module _ (deflate : Bytes → Bytes) where
  unfoldable pub serialized_size : List Page → ℕ
  serialized_size [] = 0
  serialized_size (p ∷ ps) = length (Page.serialize deflate p) + serialized_size ps

  unfoldable pub compact_l0_to_l1 : CompactionManager → CompactionManager
  unfolding serialized_size
  compact_l0_to_l1 cm =
      let cm' = record cm {
        l0 = [];
        l1 = merge_pages false (cm.l0 ++ cm.l1) ∷ [];
        compaction_count = cm.compaction_count + 1;
      } in
      if ltb l1_size_limit (serialized_size cm'.l1) then compact_l1_to_l2 cm' else cm'

  unfoldable pub add_l0_page : Page → CompactionManager → CompactionManager
  add_l0_page page cm =
      let cm' = record cm { l0 = cm.l0 ++ page ∷ [] } in
      if leb l0_limit (length cm'.l0) then compact_l0_to_l1 cm' else cm'

-- `iter().rev()`
unfoldable pub rev {ℓ} : {A : Type ℓ} → List A → List A
rev [] = []
rev (x ∷ xs) = rev xs ++ x ∷ []

abbrev pub flagged : Option PageRecord → Bool
flagged none = false
flagged (some r) = r.tombstone

-- The second binary search of `get`.
unfoldable pub tombstoned : Bytes → Page → Bool
tombstoned key p = flagged (Page.record_at (binary_search key p.records) p.records)

-- `none` is to go on to older pages, `some none` the early return at a tombstone.
unfoldable pub search_pages : Bytes → List Page → Option (Option Bytes)
unfolding tombstoned
search_pages key [] = none
search_pages key (p ∷ ps) =
    let rest = search_pages key ps in
    elim (Page.get key p) [
      | some v ↦ some (some v)
      | none ↦ if tombstoned key p then some none else rest
    ]

abbrev pub or_search : Option (Option Bytes) → Option (Option Bytes) → Option (Option Bytes)
or_search none later = later
or_search (some v) later = some v

abbrev pub answer : Option (Option Bytes) → Option Bytes
answer none = none
answer (some v) = v

unfoldable pub get : Bytes → CompactionManager → Option Bytes
unfolding rev search_pages
get key cm = answer (
    or_search (search_pages key (rev cm.l0))
      (or_search (search_pages key (rev cm.l1)) (search_pages key (rev cm.l2))))

unfoldable pub apply_records : List PageRecord → List (Bytes × Bytes) → List (Bytes × Bytes)
apply_records [] merged = merged
apply_records (r ∷ rs) merged =
    apply_records rs (if r.tombstone then remove r.key merged else tree_insert r.key r.value merged)

unfoldable pub apply_pages : Bytes → Bytes → List Page → List (Bytes × Bytes) → List (Bytes × Bytes)
unfolding apply_records
apply_pages start end [] merged = merged
apply_pages start end (p ∷ ps) merged =
    apply_pages start end ps (apply_records (Page.range start end p) merged)

-- Oldest to newest.
unfoldable pub scan : Bytes → Bytes → CompactionManager → List (Bytes × Bytes)
unfolding apply_pages
scan start end cm =
    apply_pages start end cm.l0 (apply_pages start end cm.l1 (apply_pages start end cm.l2 []))

unfoldable pub load_pages : ℕ → List Page → CompactionManager → CompactionManager
load_pages zero pages cm = record cm { l0 = pages }
load_pages (suc zero) pages cm = record cm { l1 = pages }
load_pages (suc (suc zero)) pages cm = record cm { l2 = pages }
load_pages level pages cm = cm

unfoldable pub count_records : List Page → ℕ
count_records [] = 0
count_records (p ∷ ps) = length p.records + count_records ps

unfoldable pub total_records : CompactionManager → ℕ
unfolding count_records
total_records cm = count_records cm.l0 + (count_records cm.l1 + count_records cm.l2)

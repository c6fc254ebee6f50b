-- ===== src/Storage/Memtable/Laws.antt =====
-- The memtable (src/storage/memtable.rs) as a map, and its invariant.
use uldb.Prelude.{
  ℕ, ◌+◌, ◌≡◌, ◌≤◌, List, [], ◌∷◌, Option, some, none, true, false, leb, if◌then◌else◌, length,
  arith, refl, ap, All, ◌==◌, ◌&&◌, not,
}
use uldb.Bytes.{Bytes, bytes_eq, blt}
use uldb.Maps.{lookup}
use uldb.Maps.Sorted.{
  tree_insert, range, between, lookup-tree_insert, lookup-between, IsSorted, tree_insert-IsSorted,
  Above-lookup, Above-trans, between-IsSorted,
}
use uldb.Storage.Memtable.{
  Memtable, MemEntry, new, value_len, should_flush, store, put, delete, get_entry, get, scan, drain,
}

abbrev pub entry_size : Bytes → MemEntry → ℕ
entry_size key e = length key + value_len e.value + 8

-- The bytes of all entries.
unfoldable pub total : List (Bytes × MemEntry) → ℕ
total [] = 0
total ((k, e) ∷ m) = entry_size k e + total m

-- Sorted keys, an exact size, and no sequence number above the last one given.
pub record IsValid (m : Memtable) : Type 0 where
  pub sorted : IsSorted m.entries
  pub sized : m.size_bytes ≡ total m.entries
  pub numbered : All (λ p. p.1.seq ≤ m.next_seq) m.entries

abbrev pub old_size : Bytes → Option MemEntry → ℕ
old_size k none = 0
old_size k (some e) = entry_size k e

total-tree_insert :
    (k : Bytes) (e : MemEntry) (m : List (Bytes × MemEntry))
    → IsSorted m
    → (total (tree_insert k e m) + old_size k (lookup k m) ≡ total m + entry_size k e)
      × (old_size k (lookup k m) ≤ total m)
unfolding total tree_insert lookup
total-tree_insert k e [] s = (omega arith, omega arith)
total-tree_insert k e ((j, w) ∷ m) s = ground (
  arith,
  bytes_eq.beq_iff j k,
  total-tree_insert k e m s.1,
  Above-lookup j m s.0,
  λ (h : blt k j ≡ true). Above-lookup k m (Above-trans k j m h s.0),
)

All-tree_insert :
    (n : ℕ) (k : Bytes) (e : MemEntry) (m : List (Bytes × MemEntry))
    → e.seq ≤ n
    → All (λ p. p.1.seq ≤ n) m
    → All (λ p. p.1.seq ≤ n) (tree_insert k e m)
unfolding tree_insert
All-tree_insert n k e [] h a = (h, tt)
All-tree_insert n k e ((j, w) ∷ m) h a = ground (arith, All-tree_insert n k e m)

numbered_suc :
    (n : ℕ) (m : List (Bytes × MemEntry)) → All (λ p. p.1.seq ≤ n) m → All (λ p. p.1.seq ≤ n + 1) m
numbered_suc n [] a = tt
numbered_suc n ((j, w) ∷ m) a = (omega arith, numbered_suc n m a.1)

store-IsValid : (k : Bytes) (v : Option Bytes) (m : Memtable) → IsValid m → IsValid (store k v m)
unfolding store
store-IsValid k v m ok =
    let e : MemEntry = record { value = v; seq = m.next_seq + 1 } in
    record {
      sorted = tree_insert-IsSorted k _ m.entries ok.sorted;
      sized = ground (arith, total-tree_insert k e m.entries ok.sorted, ok.sized);
      numbered =
          All-tree_insert (m.next_seq + 1) k e m.entries (omega arith)
            (numbered_suc m.next_seq m.entries ok.numbered);
    }

-- A new memtable meets the invariant, and `put` and `delete` keep it.
pub put-delete-IsValid :
    (k v : Bytes) (m : Memtable) → IsValid m → IsValid (put k v m).0 × IsValid (delete k m).0
unfolding put delete
put-delete-IsValid k v m ok = (store-IsValid k (some v) m ok, store-IsValid k none m ok)

pub new-IsValid : (threshold : ℕ) → IsValid (new threshold)
unfolding new total
new-IsValid threshold = record { sorted = tt; sized = refl; numbered = tt }

-- After a put or a delete every key reads as before but the one written, which reads as the value
-- put, or as absent though its tombstone stays.
pub get-put-delete :
    (k j v : Bytes) (m : Memtable)
    → (get j (put k v m).0 ≡ (if k == j then some v else get j m))
      × (get j (delete k m).0 ≡ (if k == j then none else get j m))
unfolding get put delete store
get-put-delete k j v m = (
  ground
      (arith, lookup-tree_insert k j (record { value = some v; seq = m.next_seq + 1 }) m.entries),
  ground (arith, lookup-tree_insert k j (record { value = none; seq = m.next_seq + 1 }) m.entries),
)

-- The entry that a write leaves has a number above those of all entries before it.
pub get_entry-store :
    (k j : Bytes) (v : Option Bytes) (m : Memtable)
    → get_entry j (store k v m)
      ≡ (if k == j then some (record { value = v; seq = m.next_seq + 1 }) else get_entry j m)
unfolding get_entry store
get_entry-store k j v m =
    lookup-tree_insert k j (record { value = v; seq = m.next_seq + 1 }) m.entries

-- The flush signal of `put` and `delete` is exact: it is the test that the bytes of all entries
-- together reach the threshold.
pub flush_signal :
    (k v : Bytes) (m : Memtable)
    → IsValid m
    → ((put k v m).1 ≡ leb m.flush_threshold (total (put k v m).0.entries))
      × ((delete k m).1 ≡ leb m.flush_threshold (total (delete k m).0.entries))
unfolding put delete should_flush store
flush_signal k v m ok =
    let p = store-IsValid k (some v) m ok in
    let d = store-IsValid k none m ok in
    (ap (leb m.flush_threshold) p.sized, ap (leb m.flush_threshold) d.sized)

-- A scan whose range does not run backwards gives, in the order of the keys, the entries with
-- `start <= key < end`, and nothing else.
pub scan_lem :
    (start end : Bytes) (m : Memtable) (j : Bytes)
    → IsValid m
    → blt end start ≡ false
    → (out : List (Bytes × MemEntry)) × (scan start end m ≡ some out)
      × IsSorted out
      × (lookup j out ≡ (if not (blt j start) && blt j end then get_entry j m else none))
unfolding scan range get_entry
scan_lem start end m j ok forward = (
  between start end m.entries,
  ground (arith, forward),
  between-IsSorted start end m.entries ok.sorted,
  lookup-between start end j m.entries,
)

-- Draining hands over every entry and leaves an empty memtable with the same threshold.
pub drain_lem :
    (m : Memtable)
    → let (out, m') = drain m in
      (out ≡ m.entries) × (m' ≡ new m.flush_threshold) × ((j : Bytes) → get j m' ≡ none)
unfolding drain new get lookup
drain_lem m = (refl, refl, λ j. refl)

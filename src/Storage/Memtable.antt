-- ===== src/Storage/Memtable.antt =====
-- src/storage/memtable.rs: the sorted write buffer with tombstones, sequence numbers and a size.
pub mod Laws
use uldb.Prelude.{
  ℕ, ◌+◌, ◌-◌, List, [], Option, some, none, Bool, true, false, leb, if◌then◌else◌, length,
}
use uldb.Bytes.{Bytes, bytes_eq}
use uldb.Maps.{lookup, contains_key}
use uldb.Maps.Sorted.{tree_insert, range}

-- `value = none` is a tombstone.
pub record MemEntry : Type 0 where
  pub value : Option Bytes
  pub seq : ℕ

pub record Memtable : Type 0 where
  pub entries : List (Bytes × MemEntry)
  pub size_bytes : ℕ
  pub next_seq : ℕ
  pub flush_threshold : ℕ

unfoldable pub new : ℕ → Memtable
new flush_threshold = record {
  entries = [];
  size_bytes = 0;
  next_seq = 0;
  flush_threshold = flush_threshold;
}

abbrev pub value_len : Option Bytes → ℕ
value_len none = 0
value_len (some v) = length v

-- `saturating_sub` of the size that an overwritten entry had.
unfoldable pub drop_old : Bytes → Option MemEntry → ℕ → ℕ
drop_old key none size = size
drop_old key (some old) size = size - (length key + value_len old.value + 8)

unfoldable pub should_flush : Memtable → Bool
should_flush m = leb m.flush_threshold m.size_bytes

-- The common body of `put` and `delete`.
unfoldable pub store : Bytes → Option Bytes → Memtable → Memtable
unfolding drop_old
store key value m = record m {
  entries = tree_insert key (record { value = value; seq = m.next_seq + 1 }) m.entries;
  size_bytes =
      drop_old key (lookup key m.entries) m.size_bytes + (length key + value_len value + 8);
  next_seq = m.next_seq + 1;
}

unfoldable pub put : Bytes → Bytes → Memtable → Memtable × Bool
unfolding store should_flush
put key value m = let m' = store key (some value) m in (m', should_flush m')

unfoldable pub delete : Bytes → Memtable → Memtable × Bool
unfolding store should_flush
delete key m = let m' = store key none m in (m', should_flush m')

unfoldable pub get_entry : Bytes → Memtable → Option MemEntry
get_entry key m = lookup key m.entries

abbrev pub entry_value : Option MemEntry → Option Bytes
entry_value none = none
entry_value (some e) = e.value

unfoldable pub get : Bytes → Memtable → Option Bytes
get key m = entry_value (lookup key m.entries)

unfoldable pub contains : Bytes → Memtable → Bool
contains key m = contains_key key m.entries

abbrev is_none : Option Bytes → Bool
is_none none = true
is_none (some v) = false

abbrev entry_is_tombstone : Option MemEntry → Bool
entry_is_tombstone none = false
entry_is_tombstone (some e) = is_none e.value

unfoldable pub is_tombstone : Bytes → Memtable → Bool
is_tombstone key m = entry_is_tombstone (lookup key m.entries)

-- `range` panics (`none`) where `start` is above `end`.
unfoldable pub scan : Bytes → Bytes → Memtable → Option (List (Bytes × MemEntry))
scan start end m = range start end m.entries

-- The entries, and the memtable that is left; its threshold stays.
unfoldable pub drain : Memtable → List (Bytes × MemEntry) × Memtable
drain m = (m.entries, record m { entries = []; size_bytes = 0; next_seq = 0 })

unfoldable pub len : Memtable → ℕ
len m = length m.entries

unfoldable pub is_empty : Memtable → Bool
is_empty m = elim m.entries [ [] ↦ true | _ ↦ false ]

-- ===== src/Storage/Cache.antt =====
-- src/storage/cache.rs: the LRU cache, a map with a generation for each entry.
pub mod Laws
use uldb.Prelude.{
  ℕ, ◌+◌, ◌-◌, ◌^◌, List, [], ◌∷◌, Option, some, none, Bool, ltb, leb, if◌then◌else◌, length, true,
  false,
}
use uldb.Bytes.{Bytes, bytes_eq}
use uldb.Maps.{lookup, insert, remove}
use uldb.Maps

pub record CacheEntry : Type 0 where
  pub value : Bytes
  pub generation : ℕ

pub record LruCache : Type 0 where
  pub entries : List (Bytes × CacheEntry)
  pub capacity : ℕ
  pub generation : ℕ

unfoldable pub new : ℕ → LruCache
new capacity = record { entries = []; capacity = capacity; generation = 0 }

abbrev hit : Bytes → LruCache → Option CacheEntry → Option Bytes × LruCache
hit key c none = (none, c)
hit key c (some e) = (
  some e.value,
  record c {
    entries = insert key (record e { generation = c.generation + 1 }) c.entries;
    generation = c.generation + 1;
  },
)

-- A hit makes the entry the most recent one.
unfoldable pub get : Bytes → LruCache → Option Bytes × LruCache
get key c = hit key c (lookup key c.entries)

-- The scan for the lowest generation: `min_gen` starts at `u64::MAX`, and only a smaller one counts.
unfoldable pub oldest : List (Bytes × CacheEntry) → ℕ → Option Bytes → Option Bytes
oldest [] min_gen min_key = min_key
oldest ((k, e) ∷ m) min_gen min_key =
    oldest m (if ltb e.generation min_gen then e.generation else min_gen)
      (if ltb e.generation min_gen then some k else min_key)

abbrev u64_max : ℕ
u64_max = 2 ^ 64 - 1

abbrev drop_key : Option Bytes → List (Bytes × CacheEntry) → List (Bytes × CacheEntry)
drop_key none m = m
drop_key (some k) m = remove k m

unfoldable pub evict : List (Bytes × CacheEntry) → List (Bytes × CacheEntry)
unfolding oldest
evict m = drop_key (oldest m u64_max none) m

unfoldable pub put : Bytes → Bytes → LruCache → LruCache
unfolding evict
put key value c =
    let e : CacheEntry = record { value = value; generation = c.generation + 1 } in
    if Maps.contains_key key c.entries
    then record c { entries = insert key e c.entries; generation = c.generation + 1 }
    else record c {
      entries =
          insert key e (if leb c.capacity (length c.entries) then evict c.entries else c.entries);
      generation = c.generation + 1;
    }

unfoldable pub invalidate : Bytes → LruCache → LruCache
invalidate key c = record c { entries = remove key c.entries }

unfoldable pub clear : LruCache → LruCache
clear c = record c { entries = [] }

unfoldable pub is_empty : LruCache → Bool
is_empty c = elim c.entries [ [] ↦ true | _ ↦ false ]

-- ===== src/Tests/Buffers.antt =====
-- The memtable, pages, the cache and the Bloom filter at concrete inputs.
use uldb.Prelude.{◌*◌, ◌≡◌, [], ◌∷◌, ◌++◌, some, none, true, refl, arith, inl}
use uldb.Bytes.{Bytes, bytes_eq, blt}
use uldb.Maps.{lookup, contains_key}
use uldb.Storage.Page
use uldb.Storage.Page.{PageRecord, Page, live_value, encode_body, encode_record, parsed}
use uldb.Storage.Page.Lookup.{IsSorted}
use uldb.Storage.Page.{stuck}
use uldb.Storage.Page.Format.{deserialize-serialize_page}
use uldb.Storage.Cache
use uldb.Storage.Cache.{LruCache, CacheEntry}
use uldb.Storage.Cache.Laws.{view, operations-IsValid, put_full, put_room, get_lem, In, AtLeast}
use uldb.Index.Bloom
use uldb.Index.Bloom.{BloomFilter, may_contain, new-IsValid}
use uldb.Index.Bloom.Membership.{add_all, no_false_negatives}
use uldb.Storage.Fnv.{fnv1a, fnv1a_parts, fnv1a_parts-flatten}
use mathlib.Core.List.{flatten}
use uldb.Tests.Inputs.{key_a, key_b, key_c, value_one, value_two, same_bytes, same_back, page_ad}

-- The page is sorted.
page_ad-IsSorted : IsSorted page_ad.records
unfolding blt
page_ad-IsSorted = ((refl, tt), (tt, tt))

deserialize-serialize_page_example :
    Page.deserialize same_back (Page.serialize same_bytes page_ad)
    ≡ parsed (record { records = page_ad.records; level = 0; bloom = none })
unfolding encode_body encode_record
deserialize-serialize_page_example =
    deserialize-serialize_page same_bytes same_back (λ b. refl) page_ad
      (
        record { key_fits = omega arith; value_fits = omega arith },
        (record { key_fits = omega arith; value_fits = omega arith }, tt),
      )
      (omega arith) (omega arith) (omega arith)

-- A full cache of two entries, of which `b` was used last.
abbrev lru : LruCache
lru = record {
  entries =
      (key_b, record { value = value_one; generation = 5 })
      ∷ (key_a, record { value = value_two; generation = 3 })
      ∷ [];
  capacity = 2;
  generation = 5;
}

lru-IsValid : Cache.Laws.IsValid lru
lru-IsValid = record {
  numbered = (omega arith, (omega arith, tt));
  in_u64 = omega arith;
  fits = omega arith;
}

put_room_example : view key_b (Cache.put key_a value_one lru) ≡ some value_one
unfolding contains_key view lookup
put_room_example = put_room key_a key_b value_one lru (inl refl)

get_lem_example :
    ((Cache.get key_a lru).0 ≡ view key_a lru)
    × ((j : Bytes) → view j (Cache.get key_a lru).1 ≡ view j lru)
get_lem_example = get_lem key_a lru

-- A filter of 128 bits and three hashes.
abbrev filter : BloomFilter
filter = Bloom.new (λ capacity. 8 * capacity) (λ bits capacity. 3) 16

no_false_negatives_example :
    (f' : BloomFilter) × (add_all (key_a ∷ key_b ∷ key_c ∷ []) filter ≡ some f')
    × (may_contain key_b f' ≡ some true)
no_false_negatives_example =
    no_false_negatives (key_a ∷ []) key_b (key_c ∷ []) filter
      (new-IsValid (λ capacity. 8 * capacity) (λ bits capacity. 3) 16)

fnv1a_parts-flatten_example : fnv1a_parts (key_a ∷ key_b ∷ []) ≡ fnv1a (key_a ++ (key_b ++ []))
unfolding flatten
fnv1a_parts-flatten_example = fnv1a_parts-flatten (key_a ∷ key_b ∷ [])

-- ===== src/Tests/Inputs.antt =====
-- Concrete keys, records, pages and external functions for the tests.
use uldb.Prelude.{
  ℕ, zero, suc, ◌≡◌, refl, ap, ◌%◌, ◌^◌, ◌<◌, ◌+◌, List, [], ◌∷◌, Option, some, none, true, false,
  length, arith,
}
use uldb.Storage.Wal.Writer.{open_file}
use uldb.Storage.Memtable.{Memtable}
use uldb.Storage.Memtable.Laws.{IsValid, total}
use uldb.Storage.Fnv.{fnv1a}
use uldb.Tx.Hamt.{Hamt, leaf, pair_branch, put}
use uldb.Engine.{Engine, frozen_to_page}
use uldb.Bytes.{blt}
use uldb.Prelude.{◌*◌}
use uldb.Bytes.{Bytes}
use uldb.Storage.Page.{PageRecord, Page}
use uldb.Storage.Compaction.{CompactionManager}

abbrev pub key_a : Bytes
key_a = b'a' ∷ []

abbrev pub key_b : Bytes
key_b = b'b' ∷ []

abbrev pub key_c : Bytes
key_c = b'c' ∷ b'c' ∷ []

abbrev pub key_d : Bytes
key_d = b'd' ∷ []

abbrev pub value_one : Bytes
value_one = 1 ∷ []

abbrev pub value_two : Bytes
value_two = 2 ∷ 2 ∷ []

-- A checksum of 32 bits.
abbrev pub toy_crc : Bytes → ℕ
toy_crc bytes = (length bytes + 7) % 2 ^ 32

pub toy_crc-lt : (bytes : Bytes) → toy_crc bytes < 2 ^ 32
toy_crc-lt bytes = omega arith

-- The same byte, many times.
unfoldable pub repeat_byte : ℕ → Bytes
repeat_byte zero = []
repeat_byte (suc n) = 7 ∷ repeat_byte n

pub length-repeat_byte : (n : ℕ) → length (repeat_byte n) ≡ n
unfolding repeat_byte
length-repeat_byte zero = refl
length-repeat_byte (suc n) = ap suc (length-repeat_byte n)

-- A compression that does nothing.
abbrev pub same_bytes : Bytes → Bytes
same_bytes bytes = bytes

abbrev pub same_back : Bytes → Option Bytes
same_back bytes = some bytes

abbrev pub live_record : Bytes → Bytes → PageRecord
live_record key value = record { key = key; value = value; tombstone = false }

abbrev pub dead_record : Bytes → PageRecord
dead_record key = record { key = key; value = []; tombstone = true }

abbrev pub page_of : List PageRecord → Page
page_of records = record { records = records; level = 0; bloom = none }

-- Two live keys.
abbrev pub page_ab : Page
page_ab = page_of (live_record key_a value_one ∷ live_record key_b value_one ∷ [])

abbrev pub page_c : Page
page_c = page_of (live_record key_c value_two ∷ [])

-- A tombstone and a live key.
abbrev pub page_ad : Page
page_ad = page_of (dead_record key_a ∷ live_record key_d value_two ∷ [])

abbrev pub page_d : Page
page_d = page_of (live_record key_d value_one ∷ [])

-- Three pages wait in the first level, and the lower levels hold older records.
abbrev pub filled : CompactionManager
filled = record {
  l0 = page_c ∷ page_d ∷ page_of [] ∷ [];
  l1 = page_ad ∷ [];
  l2 = page_ab ∷ [];
  compaction_count = 2;
}

-- The two formulas of the Bloom filter, for the tests.
abbrev pub toy_bits : ℕ → ℕ
toy_bits capacity = 8 * capacity

abbrev pub toy_hashes : ℕ → ℕ → ℕ
toy_hashes bits capacity = 1

-- Tries of one key and of two.
abbrev pub one_key : Hamt
one_key = record { root = some (leaf (fnv1a key_a) key_a value_one); len = 1 }

abbrev pub two_keys : Hamt
two_keys = record {
  root =
      some (
        pair_branch 12 5 (leaf (fnv1a key_a) key_a value_one) (leaf (fnv1a key_b) key_b value_two));
  len = 2;
}

pub put_b : put key_b value_two one_key ≡ some two_keys
unfolding put fnv1a uldb.Tx.Hamt.get_node uldb.Tx.Hamt.insert_node uldb.Tx.Hamt.split_leaf
    uldb.Tx.Hamt.bit_index uldb.Storage.Fnv.fnv1a_from uldb.Storage.Fnv.mix
put_b = refl

-- One live entry and one tombstone.
abbrev pub table : Memtable
table = record {
  entries =
      (key_a, record { value = some value_one; seq = 1 })
      ∷ (key_b, record { value = none; seq = 2 })
      ∷ [];
  size_bytes = 19;
  next_seq = 2;
  flush_threshold = 60;
}

pub table-IsValid : IsValid table
unfolding total blt
table-IsValid = record {
  sorted = ((refl, tt), (tt, tt));
  sized = refl;
  numbered = (omega arith, (omega arith, tt));
}

-- A page waits in the first level, and older ones below; the cache knows a key of the levels.
abbrev pub engine : Engine
engine = record {
  wal = open_file [];
  memtable = table;
  frozen = [];
  flush_threshold = 60;
  queue = [];
  worker_alive = true;
  levels = record { l0 = page_c ∷ []; l1 = page_ad ∷ []; l2 = page_ab ∷ []; compaction_count = 2 };
  state = one_key;
  snapshots = [];
  snapshot_counter = 0;
  flush_count = 0;
  total_puts = 2;
  total_gets = 0;
  total_deletes = 0;
  cache = record {
    entries = (key_c, record { value = value_two; generation = 1 }) ∷ [];
    capacity = 1024;
    generation = 1;
  };
}

-- The page that a flush makes of the table.
abbrev pub table_page : Page
table_page = record {
  records = live_record key_a value_one ∷ dead_record key_b ∷ [];
  level = 0;
  bloom = some (record { bits = 4096 ∷ 0 ∷ []; num_bits = 128; num_hashes = 1; count = 1 });
}

pub frozen_to_page-table : frozen_to_page toy_bits toy_hashes table.entries ≡ some table_page
unfolding frozen_to_page uldb.Storage.Page.build_bloom uldb.Storage.Page.sort uldb.Storage.Page.push
    blt uldb.Index.Bloom.add uldb.Index.Bloom.new uldb.Index.Bloom.set_in fnv1a
    uldb.Storage.Fnv.fnv1a_from uldb.Storage.Fnv.mix uldb.Storage.Fnv.fnv1a_parts
    uldb.Storage.Fnv.fnv1a_parts_from uldb.Word.set_bit
frozen_to_page-table = refl

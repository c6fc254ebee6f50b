-- ===== src/Tests/Runs.antt =====
-- The engine of src/engine.rs at concrete inputs.
use uldb.Prelude.{
  ◌≡◌, List, [], ◌∷◌, ◌++◌, some, none, true, false, refl, arith, if◌then◌else◌, ◌==◌, inl,
}
use uldb.Bytes.{Bytes, bytes_eq, blt}
use uldb.Maps.{lookup}
use uldb.Storage.Wal.{WalRecord, serialize, read_record}
use uldb.Storage.Wal.Replay.{log_of}
use uldb.Storage.Wal.Writer.{contents, open_file}
use uldb.Storage.Memtable
use uldb.Storage.Memtable.{MemEntry}
use uldb.Storage.Page.Lookup.{find_record}
use uldb.Storage.Compaction
use uldb.Storage.Compaction.Reads
use uldb.Storage.Compaction.Promotion.{holders}
use uldb.Storage.Cache.Laws.{view}
use uldb.Tx.Hamt
use uldb.Tx.Hamt.{Hamt, leaf}
use uldb.Engine.{Engine, ok, io_error, put, delete, flush_memtable, worker_step, frozen_to_page}
use uldb.Engine.Open.{open_engine, load_levels}
use uldb.Engine.Reads.{reads}
use uldb.Engine.Lookup.{scan}
use uldb.Maps.Sorted
use uldb.Storage.Compaction.Scan.{in_range}
use uldb.Engine.Scans.{scan-reads}
use uldb.Engine.Writes.{put_lem}
use uldb.Engine.Flushes.{worker_step-flush_memtable}
use uldb.Engine.Recovery.{open_engine_lem, last_recorded, or_level}
use uldb.Engine.Snapshots.{snapshot_create, snapshot_get, snapshot_restore}
use uldb.Engine.Isolation.{put_event, worker_event, happen_all, snapshot_get-snapshot_create}
use uldb.Tests.Inputs.{
  key_a, key_b, key_c, value_one, value_two, toy_crc, toy_crc-lt, toy_bits, toy_hashes, same_bytes,
  one_key, two_keys, put_b, table-IsValid, table_page, frozen_to_page-table, engine,
}

put_lem_example :
    (e' : Engine) × (put toy_bits toy_hashes toy_crc true true key_b value_two engine ≡ ok e')
    × (e'.wal.file ≡ contents engine.wal ++ serialize toy_crc key_b value_two)
    × (e'.state ≡ two_keys)
    × ((j : Bytes) → reads j e' ≡ (if key_b == j then some value_two else reads j engine))
unfolding Memtable.put lookup
put_lem_example = put_lem toy_bits toy_hashes toy_crc key_b value_two engine two_keys put_b refl

engine-IsValid : Reads.IsValid engine.levels
unfolding blt
engine-IsValid = record {
  sorted0 = ((tt, tt), tt);
  sorted1 = (((refl, tt), (tt, tt)), tt);
  sorted2 = (((refl, tt), (tt, tt)), tt);
}

-- The value of `a` survives the flush, over its tombstone in the levels.
worker_step-flush_memtable_example :
    (e' : Engine) × (flush_memtable toy_bits toy_hashes engine ≡ ok e')
    × (reads key_a (worker_step same_bytes e') ≡ reads key_a engine)
unfolding holders find_record view lookup
worker_step-flush_memtable_example =
    worker_step-flush_memtable toy_bits toy_hashes engine table-IsValid refl tt same_bytes key_a
      table_page refl engine-IsValid
      (record { few0 = omega arith; few1 = omega arith; few2 = omega arith }) frozen_to_page-table
      (omega arith) (inl refl)

-- A put of `a` and then a deletion of `b`, and three bytes of a record that was cut short.
abbrev log_records : List WalRecord
log_records = record { key = key_a; value = value_one } ∷ record { key = key_b; value = [] } ∷ []

open_engine_lem_example :
    (e : Engine) × (open_engine toy_bits toy_hashes toy_crc
        (log_of toy_crc log_records ++ (0 ∷ 0 ∷ 0 ∷ []))
        []
        60
      ≡ ok e)
    × (e.wal.file ≡ log_of toy_crc log_records ++ (0 ∷ 0 ∷ 0 ∷ []))
    × (e.state ≡ one_key)
    × ((j : Bytes)
        → reads j e
          ≡ or_level
              (last_recorded j log_records)
              (Compaction.get j (load_levels 0 [] Compaction.new)))
unfolding read_record Memtable.should_flush uldb.Engine.apply_log Memtable.new lookup
    uldb.Maps.Sorted.tree_insert uldb.Engine.rebuild blt Hamt.put
open_engine_lem_example =
    open_engine_lem toy_bits toy_hashes toy_crc toy_crc-lt log_records (0 ∷ 0 ∷ 0 ∷ []) [] 60
      one_key
      (
        record { key_fits = omega arith; value_fits = omega arith },
        (record { key_fits = omega arith; value_fits = omega arith }, tt),
      )
      tt refl refl

-- A put that is refused and a step of the worker come after the snapshot.
snapshot_get-snapshot_create_example :
    ((j : Bytes)
      → snapshot_get
          (snapshot_create key_c engine).0
          j
          (record engine { snapshots = (key_c, one_key) ∷ [] })
        ≡ Hamt.get j one_key)
    × ((snapshot_restore
          (snapshot_create key_c engine).0
          (record engine { snapshots = (key_c, one_key) ∷ [] })).1
        ≡ true)
    × ((snapshot_restore
          (snapshot_create key_c engine).0
          (record engine { snapshots = (key_c, one_key) ∷ [] })).0.state
        ≡ one_key)
unfolding happen_all uldb.Storage.Wal.Writer.append snapshot_create uldb.Maps.insert
snapshot_get-snapshot_create_example =
    snapshot_get-snapshot_create toy_bits toy_hashes toy_crc same_bytes key_c engine
      (put_event false true key_b value_two ∷ worker_event ∷ [])
      (record engine { snapshots = (key_c, one_key) ∷ [] }) refl

abbrev flushed_engine : Engine
flushed_engine = record engine {
  flush_count = 1;
  cache = record { entries = []; capacity = 4; generation = 0 };
}

no_cached : (j : Bytes) → view j flushed_engine.cache ≡ none
unfolding view lookup
no_cached j = refl

scan-reads_example :
    (out : List (Bytes × Bytes)) × (scan key_a key_c flushed_engine ≡ some out)
    × Sorted.IsSorted out
    × ((j : Bytes)
        → lookup j out ≡ (if in_range key_a key_c j then reads j flushed_engine else none))
unfolding blt
scan-reads_example =
    scan-reads key_a key_c flushed_engine table-IsValid tt engine-IsValid (λ j. inl (no_cached j))
      (omega arith) refl

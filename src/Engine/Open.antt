-- ===== src/Engine/Open.antt =====
-- `Engine::open` (src/engine.rs): the pages on disk, the log replayed, and the trie rebuilt.
use uldb.Prelude.{ℕ, ◌+◌, List, [], ◌∷◌, Option, some, none, true, if◌then◌else◌}
use uldb.Bytes.{Bytes}
use uldb.Storage.Wal.{replay}
use uldb.Storage.Wal.Writer.{open_file}
use uldb.Storage.Memtable
use uldb.Storage.Memtable.{Memtable, MemEntry}
use uldb.Storage.Page.{Page}
use uldb.Storage.Compaction
use uldb.Storage.Compaction.{CompactionManager, load_pages}
use uldb.Storage.Cache
use uldb.Tx.Hamt.{Hamt}
use uldb.Tx.Hamt
use uldb.Engine.{Outcome, ok, panicked, apply_log, rebuild, frozen_to_page}

-- `enumerate` over the levels that the page store read.
unfoldable pub load_levels : ℕ → List (List Page) → CompactionManager → CompactionManager
unfolding load_pages
load_levels level [] cm = cm
load_levels level (pages ∷ more) cm = load_levels (level + 1) more (load_pages level pages cm)

module _ (ideal_bits : ℕ → ℕ) (ideal_hashes : ℕ → ℕ → ℕ) where
  -- A memtable that is too large after the replay goes to the worker, and an empty one stays.
  unfoldable pub settle_replayed : Memtable → Option (Memtable × List Page)
  unfolding Memtable.should_flush
  settle_replayed m =
      if Memtable.should_flush m
      then elim (frozen_to_page ideal_bits ideal_hashes (Memtable.drain m).0) [
        | none ↦ none
        | some page ↦ some ((Memtable.drain m).1, page ∷ [])
      ]
      else some (m, [])

  abbrev start : Bytes → ℕ → CompactionManager → Memtable × List Page → Option Hamt → Outcome
  start log threshold levels replayed none = panicked
  start log threshold levels replayed (some state) = ok (record {
    wal = open_file log;
    memtable = replayed.0;
    frozen = [];
    flush_threshold = threshold;
    queue = replayed.1;
    worker_alive = true;
    levels = levels;
    state = state;
    snapshots = [];
    snapshot_counter = 0;
    flush_count = 0;
    total_puts = 0;
    total_gets = 0;
    total_deletes = 0;
    cache = Cache.new 1024;
  })

  -- `log` is the file's bytes, empty where there is none, and `pages` what the page store holds.
  -- A replay out of fuel would be a panic here.
  unfoldable pub open_engine : (Bytes → ℕ) → Bytes → List (List Page) → ℕ → Outcome
  unfolding apply_log rebuild settle_replayed load_levels
  open_engine crc log pages threshold = elim (replay crc log) [
    | none ↦ panicked
    | some found ↦ elim (settle_replayed (apply_log found.0 (Memtable.new threshold))) [
      | none ↦ panicked
      | some replayed ↦
          start log threshold (load_levels 0 pages Compaction.new) replayed
            (rebuild replayed.0.entries Hamt.empty)
    ]
  ]

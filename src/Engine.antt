-- ===== src/Engine.antt =====
-- src/engine.rs with the worker of src/storage/bg_compaction.rs: the log, the memtable, the levels
-- and the cache behind one interface. The text, vector and graph indices are left out, since no
-- read of a key passes through them. Locks are not held across calls, so each call is one step.
pub mod Lookup
pub mod Snapshots
pub mod Open
pub mod Batches
pub mod Pages
pub mod Reads
pub mod Writes
pub mod Flushes
pub mod Recovery
pub mod Isolation
pub mod Scans
pub mod Client
use uldb.Prelude.{
  ℕ, zero, suc, ◌+◌, ◌-◌, ◌*◌, List, [], ◌∷◌, ◌++◌, Option, some, none, Bool, true, false, eqb,
  if◌then◌else◌, length, drop, ◌&&◌, not,
}
use uldb.Bytes.{Bytes, bytes_eq}
use uldb.Maps.{remove}
use uldb.Maps.Sorted.{tree_insert}
use uldb.Storage.Wal.{WalRecord, replay}
use uldb.Storage.Wal.Writer
use uldb.Storage.Wal.Writer.{WalWriter, open_file}
use uldb.Storage.Memtable
use uldb.Storage.Memtable.{Memtable, MemEntry}
use uldb.Storage.Page
use uldb.Storage.Page.{Page}
use uldb.Storage.Compaction
use uldb.Storage.Compaction.{CompactionManager, rev, add_l0_page}
use uldb.Storage.Cache
use uldb.Storage.Cache.{LruCache}
use uldb.Tx.Hamt
use uldb.Tx.Hamt.{Hamt}

-- `queue` holds the pages that the worker was sent and has not added yet.
pub record Engine : Type 0 where
  pub wal : WalWriter
  pub memtable : Memtable
  pub frozen : List Memtable
  pub flush_threshold : ℕ
  pub queue : List Page
  pub worker_alive : Bool
  pub levels : CompactionManager
  pub state : Hamt
  pub snapshots : List (Bytes × Hamt)
  pub snapshot_counter : ℕ
  pub flush_count : ℕ
  pub total_puts : ℕ
  pub total_gets : ℕ
  pub total_deletes : ℕ
  pub cache : LruCache

-- Success, an error that is returned, or a panic.
pub data Outcome : Type 0 where
  ok : Engine → Outcome
  io_error : Engine → Outcome
  panicked : Outcome

abbrev pub or_empty : Option Bytes → Bytes
or_empty none = []
or_empty (some v) = v

abbrev pub is_none : Option Bytes → Bool
is_none none = true
is_none (some v) = false

unfoldable pub push_entries : List (Bytes × MemEntry) → Page → Page
push_entries [] p = p
push_entries ((k, e) ∷ es) p = push_entries es (Page.push k (or_empty e.value) (is_none e.value) p)

-- One record of the log applied during `open`: an empty value is a deletion.
unfoldable pub apply_record : WalRecord → Memtable → Memtable
unfolding Memtable.put Memtable.delete
apply_record r m = elim r.value [
  | [] ↦ (Memtable.delete r.key m).0
  | _ ↦ (Memtable.put r.key r.value m).0
]

unfoldable pub apply_log : List WalRecord → Memtable → Memtable
unfolding apply_record
apply_log [] m = m
apply_log (r ∷ rs) m = apply_log rs (apply_record r m)

-- The trie of the live entries, in the order of the keys.
unfoldable pub rebuild : List (Bytes × MemEntry) → Hamt → Option Hamt
rebuild [] h = some h
rebuild ((k, e) ∷ es) h = elim e.value [
  | none ↦ rebuild es h
  | some v ↦ elim (Hamt.put k v h) [ none ↦ none | some h' ↦ rebuild es h' ]
]

-- `while frozen.len() > 2 { frozen.remove(0) }`
unfoldable pub keep_two : List Memtable → List Memtable
keep_two ms = drop (length ms - 2) ms

unfoldable pub invalidate_cache : Bytes → LruCache → LruCache
unfolding Cache.invalidate Cache.is_empty
invalidate_cache key c = if Cache.is_empty c then c else Cache.invalidate key c

module _ (ideal_bits : ℕ → ℕ) (ideal_hashes : ℕ → ℕ → ℕ) where
  -- The page of a memtable's entries; `memtable_to_page` is the same.
  unfoldable pub frozen_to_page : List (Bytes × MemEntry) → Option Page
  unfolding push_entries
  frozen_to_page entries =
      Page.build_bloom ideal_bits ideal_hashes (Page.sort (push_entries entries (Page.new 0)))

  -- If the worker is gone, the page and the old memtable are dropped with the error.
  unfoldable pub flush_memtable : Engine → Outcome
  unfolding frozen_to_page keep_two
  flush_memtable e =
      let drained = Memtable.drain e.memtable in
      let e' = record e { memtable = Memtable.new e.flush_threshold } in
      elim (frozen_to_page drained.0) [
        | none ↦ panicked
        | some page ↦
            if e.worker_alive
            then ok (record e' {
              queue = e.queue ++ page ∷ [];
              frozen = keep_two (e.frozen ++ drained.1 ∷ []);
              flush_count = e.flush_count + 1;
            })
            else io_error e'
      ]

  unfoldable pub flush : Engine → Outcome
  unfolding flush_memtable
  flush e = if Memtable.is_empty e.memtable then ok e else flush_memtable e

  -- What `put` and `delete` do once the record is in the log.
  unfoldable pub settle : Bool → Option Hamt → Engine → Outcome
  unfolding flush_memtable
  settle should_flush none e = panicked
  settle should_flush (some state) e =
      let e' = record e { state = state } in if should_flush then flush_memtable e' else ok e'

  module _ (crc : Bytes → ℕ) where
    -- `appended` and `flushed` are whether the operating system accepts the two writes.
    unfoldable pub put : Bool → Bool → Bytes → Bytes → Engine → Outcome
    unfolding settle invalidate_cache
    put appended flushed key value e =
        let logged = Writer.append crc appended key value e.wal in
        let synced = Writer.flush flushed logged.0 in
        let stored = Memtable.put key value e.memtable in
        if not logged.1
        then io_error (record e { wal = logged.0 })
        else if not synced.1
        then io_error (record e { wal = synced.0 })
        else settle stored.1 (Hamt.put key value e.state) (record e {
          wal = synced.0;
          memtable = stored.0;
          total_puts = e.total_puts + 1;
          cache = invalidate_cache key e.cache;
        })

    unfoldable pub delete : Bool → Bool → Bytes → Engine → Outcome
    unfolding settle invalidate_cache
    delete appended flushed key e =
        let logged = Writer.append crc appended key [] e.wal in
        let synced = Writer.flush flushed logged.0 in
        let stored = Memtable.delete key e.memtable in
        if not logged.1
        then io_error (record e { wal = logged.0 })
        else if not synced.1
        then io_error (record e { wal = synced.0 })
        else settle stored.1 (Hamt.delete key e.state) (record e {
          wal = synced.0;
          memtable = stored.0;
          total_deletes = e.total_deletes + 1;
          cache = invalidate_cache key e.cache;
        })

    -- `put_profiled`, which leaves the cache alone.
    unfoldable pub put_profiled : Bool → Bool → Bytes → Bytes → Engine → Outcome
    unfolding settle
    put_profiled appended flushed key value e =
        let logged = Writer.append crc appended key value e.wal in
        let synced = Writer.flush flushed logged.0 in
        let stored = Memtable.put key value e.memtable in
        if not logged.1
        then io_error (record e { wal = logged.0 })
        else if not synced.1
        then io_error (record e { wal = synced.0 })
        else settle stored.1 (Hamt.put key value e.state)
            (record e { wal = synced.0; memtable = stored.0; total_puts = e.total_puts + 1 })

unfoldable pub sync : Bool → Engine → Outcome
unfolding Writer.sync
sync synced e =
    let out = Writer.sync synced e.wal in
    if out.1 then ok (record e { wal = out.0 }) else io_error (record e { wal = out.0 })

-- The worker takes the next page of its queue.
unfoldable pub worker_step : (Bytes → Bytes) → Engine → Engine
unfolding add_l0_page
worker_step deflate e = elim e.queue [
  | [] ↦ e
  | page ∷ later ↦ record e { queue = later; levels = add_l0_page deflate page e.levels }
]

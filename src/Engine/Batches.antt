-- ===== src/Engine/Batches.antt =====
-- `put_batch` and `bulk_ingest` (src/engine.rs): many records with one flush of the log.
use uldb.Prelude.{
  ℕ, ◌+◌, List, [], ◌∷◌, Option, some, none, Bool, true, false, if◌then◌else◌, not, ◌||◌,
}
use uldb.Bytes.{Bytes}
use uldb.Storage.Wal.Writer
use uldb.Storage.Wal.Writer.{WalWriter}
use uldb.Storage.Memtable
use uldb.Storage.Cache
use uldb.Tx.Hamt
use uldb.Engine.{Engine, Outcome, ok, io_error, panicked, settle}

-- The loop that stores the records, with the flush signals seen so far. `none` is a panic.
unfoldable pub store_all : List (Bytes × Bytes) → Bool → Engine → Option (Engine × Bool)
unfolding Memtable.put
store_all [] signal e = some (e, signal)
store_all ((k, v) ∷ entries) signal e =
    let stored = Memtable.put k v e.memtable in
    elim (Hamt.put k v e.state) [
      | none ↦ none
      | some state ↦
          store_all entries (signal || stored.1)
            (record e { memtable = stored.0; total_puts = e.total_puts + 1; state = state })
    ]

module _ (ideal_bits : ℕ → ℕ) (ideal_hashes : ℕ → ℕ → ℕ) (crc : Bytes → ℕ) where
  -- The appends, up to the first one that is refused; `appended` tells which are accepted.
  unfoldable pub append_batch : (ℕ → Bool) → ℕ → List (Bytes × Bytes) → WalWriter → WalWriter × Bool
  append_batch appended i [] w = (w, true)
  append_batch appended i ((k, v) ∷ entries) w =
      let logged = Writer.append crc (appended i) k v w in
      let rest = append_batch appended (i + 1) entries logged.0 in if logged.1 then rest else logged

  unfoldable pub put_batch : (ℕ → Bool) → Bool → List (Bytes × Bytes) → Engine → Outcome
  unfolding store_all append_batch settle
  put_batch appended flushed entries e =
      let logged = append_batch appended 0 entries e.wal in
      let synced = Writer.flush flushed logged.0 in
      if not logged.1
      then io_error (record e { wal = logged.0 })
      else if not synced.1
      then io_error (record e { wal = synced.0 })
      else elim (store_all entries false
          (record e { wal = synced.0; cache = Cache.clear e.cache })) [
            | none ↦ panicked
            | some out ↦ settle ideal_bits ideal_hashes out.1 (some out.0.state) out.0
          ]

  -- The flush test is made once, at the end, and nothing happens for no entries.
  unfoldable pub bulk_ingest : (ℕ → Bool) → Bool → List (Bytes × Bytes) → Engine → Outcome
  unfolding store_all append_batch settle
  bulk_ingest appended flushed [] e = ok e
  bulk_ingest appended flushed (entry ∷ entries) e =
      let logged = append_batch appended 0 (entry ∷ entries) e.wal in
      let synced = Writer.flush flushed logged.0 in
      if not logged.1
      then io_error (record e { wal = logged.0 })
      else if not synced.1
      then io_error (record e { wal = synced.0 })
      else elim (store_all (entry ∷ entries) false
          (record e { wal = synced.0; cache = Cache.clear e.cache })) [
            | none ↦ panicked
            | some out ↦
                settle ideal_bits ideal_hashes (Memtable.should_flush out.0.memtable)
                  (some out.0.state) out.0
          ]

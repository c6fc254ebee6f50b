-- ===== src/Engine/Writes.antt =====
-- `Engine::put` and `Engine::delete` (src/engine.rs) while the memtable has room.
use uldb.Prelude.{
  ℕ, ◌+◌, ◌≡◌, [], ◌++◌, some, none, Bool, true, false, if◌then◌else◌, ◌==◌, ◌&&◌, arith, refl, ◌∙◌,
}
use uldb.Bytes.{Bytes, bytes_eq}
use uldb.Storage.Wal.{serialize}
use uldb.Storage.Wal.Writer
use uldb.Storage.Wal.Writer.{contents, append_lem}
use uldb.Storage.Memtable
use uldb.Storage.Memtable.{Memtable, MemEntry, should_flush}
use uldb.Storage.Memtable.Laws.{get_entry-store}
use uldb.Tx.Hamt
use uldb.Tx.Hamt.{Hamt}
use uldb.Engine.{Engine, ok, io_error, put, delete, settle, invalidate_cache}
use uldb.Engine.Lookup.{get}
use uldb.Engine.Reads.{reads, reads_first, view-invalidate_cache}

module _ (ideal_bits : ℕ → ℕ) (ideal_hashes : ℕ → ℕ → ℕ) (crc : Bytes → ℕ) where
  -- A put returns, with the record in the log's file. The key then reads as the value, and every
  -- other key as before, if both writes are accepted, the trie takes the key, and the memtable
  -- stays below its threshold.
  pub put_lem :
      (k v : Bytes) (e : Engine) (state : Hamt)
      → Hamt.put k v e.state ≡ some state
      → (Memtable.put k v e.memtable).1 ≡ false
      → (e' : Engine) × (put ideal_bits ideal_hashes crc true true k v e ≡ ok e')
        × (e'.wal.file ≡ contents e.wal ++ serialize crc k v)
        × (e'.state ≡ state)
        × ((j : Bytes) → reads j e' ≡ (if k == j then some v else reads j e))
  unfolding put Writer.append Writer.flush settle Memtable.put
  put_lem k v e state h room = (
    record e {
      wal = (Writer.flush true (Writer.append crc true k v e.wal).0).0;
      memtable = Memtable.store k (some v) e.memtable;
      total_puts = e.total_puts + 1;
      cache = invalidate_cache k e.cache;
      state = state;
    },
    rw (h, room),
    (append_lem crc true k v e.wal).1,
    refl,
    λ j.
        reads_first j _
        ∙ ground (
          arith,
          reads_first j e,
          view-invalidate_cache k j e.cache,
          get_entry-store k j (some v) e.memtable,
        ),
  )

  -- A deletion returns, with an empty value for the key in the log's file. The key is then absent, and
  -- every other key reads as before, if both writes are accepted, the trie gives a result, and the
  -- memtable stays below its threshold.
  pub delete_lem :
      (k : Bytes) (e : Engine) (state : Hamt)
      → Hamt.delete k e.state ≡ some state
      → (Memtable.delete k e.memtable).1 ≡ false
      → (e' : Engine) × (delete ideal_bits ideal_hashes crc true true k e ≡ ok e')
        × (e'.wal.file ≡ contents e.wal ++ serialize crc k [])
        × (e'.state ≡ state)
        × ((j : Bytes) → reads j e' ≡ (if k == j then none else reads j e))
  unfolding delete Writer.append Writer.flush settle Memtable.delete
  delete_lem k e state h room = (
    record e {
      wal = (Writer.flush true (Writer.append crc true k [] e.wal).0).0;
      memtable = Memtable.store k none e.memtable;
      total_deletes = e.total_deletes + 1;
      cache = invalidate_cache k e.cache;
      state = state;
    },
    rw (h, room),
    (append_lem crc true k [] e.wal).1,
    refl,
    λ j.
        reads_first j _
        ∙ ground (
          arith,
          reads_first j e,
          view-invalidate_cache k j e.cache,
          get_entry-store k j none e.memtable,
        ),
  )

  -- Where the operating system refuses a write, put and delete return an error, and every key
  -- reads as before.
  pub refused_lem :
      (appended flushed : Bool) (k v : Bytes) (e : Engine)
      → (appended && flushed) ≡ false
      → ((e' : Engine) × (put ideal_bits ideal_hashes crc appended flushed k v e ≡ io_error e')
          × ((j : Bytes) → reads j e' ≡ reads j e))
        × ((e' : Engine) × (delete ideal_bits ideal_hashes crc appended flushed k e ≡ io_error e')
            × ((j : Bytes) → reads j e' ≡ reads j e))
  unfolding put delete Writer.append Writer.flush get
  refused_lem false flushed k v e h =
      ((record e { wal = e.wal }, refl, λ j. refl), (record e { wal = e.wal }, refl, λ j. refl))
  refused_lem true false k v e h = (
    (record e { wal = (Writer.append crc true k v e.wal).0 }, refl, λ j. ground arith),
    (record e { wal = (Writer.append crc true k [] e.wal).0 }, refl, λ j. ground arith),
  )
  refused_lem true true k v e h = cc

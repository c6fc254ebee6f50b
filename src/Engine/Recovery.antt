-- ===== src/Engine/Recovery.antt =====
-- Crash recovery: what `Engine::open` (src/engine.rs) reads back from the log.
use uldb.Prelude.{
  ℕ, ◌≡◌, ◌<◌, ◌^◌, List, [], ◌∷◌, ◌++◌, Option, some, none, true, false, if◌then◌else◌, ◌==◌,
  arith, refl, ap, ◌∙◌, sym, All,
}
use uldb.Bytes.{Bytes, bytes_eq}
use uldb.Maps.{lookup}
use uldb.Storage.Wal.{WalRecord, read_record}
use uldb.Storage.Wal.Record.{Fits}
use uldb.Storage.Wal.Replay.{log_of, replay-log, IsStop}
use uldb.Storage.Wal.Writer
use uldb.Storage.Memtable
use uldb.Storage.Memtable.{Memtable, MemEntry, should_flush}
use uldb.Storage.Memtable.Laws.{get_entry-store}
use uldb.Storage.Page.{Page}
use uldb.Storage.Compaction
use uldb.Storage.Compaction.{CompactionManager, rev}
use uldb.Storage.Cache
use uldb.Storage.Cache.Laws.{view}
use uldb.Tx.Hamt
use uldb.Tx.Hamt.{Hamt}
use uldb.Engine.{Engine, ok, apply_record, apply_log, rebuild}
use uldb.Engine.Lookup.{find_frozen}
use uldb.Bytes.{blt}
use uldb.Maps.Sorted.{range, between}
use uldb.Storage.Memtable.Laws
use uldb.Storage.Memtable.Laws.{put-delete-IsValid, new-IsValid}
use uldb.Engine.Lookup.{scan, live_entries}
use uldb.Engine.Pages.{frozen_to_page_lem}
use uldb.Engine.Open.{open_engine, settle_replayed, load_levels}
use uldb.Engine.Reads.{reads, reads_first, first_known}

-- What one record says of a key: a value, or that it is deleted, by an empty value.
abbrev pub recorded : Bytes → WalRecord → Option (Option Bytes)
recorded j r =
    if r.key == j then some (elim r.value [ [] ↦ none | x ∷ xs ↦ some (x ∷ xs) ]) else none

abbrev pub later : Option (Option Bytes) → Option (Option Bytes) → Option (Option Bytes)
later none before = before
later (some v) before = some v

-- What the last record of a key says.
unfoldable pub last_recorded : Bytes → List WalRecord → Option (Option Bytes)
last_recorded j [] = none
last_recorded j (r ∷ rs) = later (last_recorded j rs) (recorded j r)

abbrev known : Option MemEntry → Option (Option Bytes)
known none = none
known (some e) = some e.value

later_assoc : (a b c : Option (Option Bytes)) → later a (later b c) ≡ later (later a b) c
later_assoc none b c = refl
later_assoc (some v) b c = refl

apply_record_lem :
    (j : Bytes) (r : WalRecord) (m : Memtable)
    → known (Memtable.get_entry j (apply_record r m))
      ≡ later (recorded j r) (known (Memtable.get_entry j m))
unfolding apply_record Memtable.put Memtable.delete
apply_record_lem j r m = at r.value refl
  where
    at :
        (v : Bytes)
        → v ≡ r.value
        → known (Memtable.get_entry j (apply_record r m))
          ≡ later (recorded j r) (known (Memtable.get_entry j m))
    at [] e = ground (arith, sym e, get_entry-store r.key j none m)
    at (x ∷ xs) e = ground (arith, sym e, get_entry-store r.key j (some (x ∷ xs)) m)

apply_log_lem :
    (j : Bytes) (rs : List WalRecord) (m : Memtable)
    → known (Memtable.get_entry j (apply_log rs m))
      ≡ later (last_recorded j rs) (known (Memtable.get_entry j m))
unfolding apply_log last_recorded
apply_log_lem j [] m = refl
apply_log_lem j (r ∷ rs) m =
    apply_log_lem j rs (apply_record r m)
    ∙ (ap (later (last_recorded j rs)) (apply_record_lem j r m)
        ∙ later_assoc (last_recorded j rs) (recorded j r) (known (Memtable.get_entry j m)))

abbrev pub or_level : Option (Option Bytes) → Option Bytes → Option Bytes
or_level none level = level
or_level (some v) level = v

first_known-known :
    (entry : Option MemEntry) (level : Option Bytes)
    → first_known entry none none level ≡ or_level (known entry) level
first_known-known none level = refl
first_known-known (some e) level = refl

module _ (ideal_bits : ℕ → ℕ) (ideal_hashes : ℕ → ℕ → ℕ) (crc : Bytes → ℕ)
    (crc_u32 : (b : Bytes) → crc b < 2 ^ 32) where
  -- Opening a log of written records, which may end in a record cut short, reads every key as its
  -- last record says, where an empty value is a deletion, and a key without a record as the pages
  -- on disk say, if the records do not fill the memtable and the trie takes them.
  pub open_engine_lem :
      (rs : List WalRecord) (tail : Bytes) (pages : List (List Page)) (threshold : ℕ) (state : Hamt)
      → All Fits rs
      → IsStop (read_record crc tail)
      → should_flush (apply_log rs (Memtable.new threshold)) ≡ false
      → rebuild (apply_log rs (Memtable.new threshold)).entries Hamt.empty ≡ some state
      → (e : Engine) × (open_engine ideal_bits ideal_hashes crc
            (log_of crc rs ++ tail)
            pages
            threshold
          ≡ ok e)
        × (e.wal.file ≡ log_of crc rs ++ tail)
        × (e.state ≡ state)
        × ((j : Bytes)
            → reads j e
              ≡ or_level
                  (last_recorded j rs)
                  (Compaction.get j (load_levels 0 pages Compaction.new)))
  unfolding open_engine settle_replayed Writer.open_file
  open_engine_lem rs tail pages threshold state fits stop room made =
      let m = apply_log rs (Memtable.new threshold) in
      let levels = load_levels 0 pages Compaction.new in
      let e : Engine = record {
        wal = Writer.open_file (log_of crc rs ++ tail);
        memtable = m;
        frozen = [];
        flush_threshold = threshold;
        queue = [];
        worker_alive = true;
        levels = levels;
        state = state;
        snapshots = [];
        snapshot_counter = 0;
        flush_count = 0;
        total_puts = 0;
        total_gets = 0;
        total_deletes = 0;
        cache = Cache.new 1024;
      } in
      (
        e,
        ground (arith, replay-log crc crc_u32 rs tail fits stop, room, made),
        refl,
        refl,
        λ j.
            reads_first j e
            ∙ cold j m levels
            ∙ ap (λ k. or_level k (Compaction.get j levels))
                (apply_log_lem j rs (Memtable.new threshold) ∙ unknown (last_recorded j rs) j),
      )
    where
      cold :
          (j : Bytes) (m : Memtable) (levels : CompactionManager)
          → first_known
              (Memtable.get_entry j m)
              (find_frozen j (rev []))
              (view j (Cache.new 1024))
              (Compaction.get j levels)
            ≡ or_level (known (Memtable.get_entry j m)) (Compaction.get j levels)
      cold j m levels =
          unfold find_frozen rev view Cache.new lookup in
          first_known-known (Memtable.get_entry j m) (Compaction.get j levels)

      unknown :
          (k : Option (Option Bytes)) (j : Bytes)
          → later k (known (Memtable.get_entry j (Memtable.new threshold))) ≡ k
      unknown none j = unfold Memtable.get_entry Memtable.new lookup in refl
      unknown (some v) j = refl

apply_record-IsValid :
    (r : WalRecord) (m : Memtable) → Laws.IsValid m → Laws.IsValid (apply_record r m)
unfolding apply_record
apply_record-IsValid r m valid = at r.value refl
  where
    at : (v : Bytes) → v ≡ r.value → Laws.IsValid (apply_record r m)
    at [] e = rw (sym e) ((put-delete-IsValid r.key r.value m valid).1)
    at (x ∷ xs) e = rw (sym e) ((put-delete-IsValid r.key (x ∷ xs) m valid).0)

apply_log-IsValid :
    (rs : List WalRecord) (m : Memtable) → Laws.IsValid m → Laws.IsValid (apply_log rs m)
unfolding apply_log
apply_log-IsValid [] m valid = valid
apply_log-IsValid (r ∷ rs) m valid =
    apply_log-IsValid rs (apply_record r m) (apply_record-IsValid r m valid)

module _ (ideal_bits : ℕ → ℕ) (ideal_hashes : ℕ → ℕ → ℕ) (crc : Bytes → ℕ)
    (crc_u32 : (b : Bytes) → crc b < 2 ^ 32) where
  -- When the records of the log fill the memtable, the engine that opens has an empty trie, and its
  -- scans of ranges that do not run backwards give nothing, whatever the log and the pages hold.
  pub open_engine-should_flush :
      (rs : List WalRecord) (tail : Bytes) (pages : List (List Page)) (threshold : ℕ)
      (start end : Bytes)
      → All Fits rs
      → IsStop (read_record crc tail)
      → should_flush (apply_log rs (Memtable.new threshold)) ≡ true
      → blt end start ≡ false
      → (e : Engine) × (open_engine ideal_bits ideal_hashes crc
            (log_of crc rs ++ tail)
            pages
            threshold
          ≡ ok e)
        × (e.state ≡ Hamt.empty)
        × (scan start end e ≡ some [])
  unfolding open_engine settle_replayed Memtable.drain rebuild scan Memtable.scan range between
      live_entries
  open_engine-should_flush rs tail pages threshold start end fits stop full forward =
      let m = apply_log rs (Memtable.new threshold) in
      let valid = apply_log-IsValid rs (Memtable.new threshold) (new-IsValid threshold) in
      let (page, made, _, _) = frozen_to_page_lem ideal_bits ideal_hashes m.entries valid.sorted in
      let e : Engine = record {
        wal = Writer.open_file (log_of crc rs ++ tail);
        memtable = (Memtable.drain m).1;
        frozen = [];
        flush_threshold = threshold;
        queue = page ∷ [];
        worker_alive = true;
        levels = load_levels 0 pages Compaction.new;
        state = Hamt.empty;
        snapshots = [];
        snapshot_counter = 0;
        flush_count = 0;
        total_puts = 0;
        total_gets = 0;
        total_deletes = 0;
        cache = Cache.new 1024;
      } in
      (
        e,
        ground (arith, replay-log crc crc_u32 rs tail fits stop, full, made),
        refl,
        ground (arith, forward),
      )

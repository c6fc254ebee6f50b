-- ===== src/Storage/Wal/Writer.antt =====
-- `WalWriter` of src/storage/wal.rs over a buffered file. `BufWriter` is modelled by what it has
-- passed to the file and what it still holds; whether the operating system accepts a write is an
-- argument of each call that can reach it.
use uldb.Prelude.{
  ℕ, ◌+◌, ◌-◌, ◌*◌, ◌^◌, All, some, ◌≡◌, ◌<◌, List, [], ◌∷◌, ◌++◌, Bool, true, false, ltb, leb,
  if◌then◌else◌, length, arith, refl, ap, ◌∙◌, sym, length-append, All-append, append_assoc,
  append_nil,
}
use uldb.Bytes.{Bytes}
use uldb.Storage.Wal.{WalRecord, serialize, replay, read_record}
use uldb.Storage.Wal.Record.{Fits}
use uldb.Storage.Wal.Replay.{log_of, replay-log}

pub record WalWriter : Type 0 where
  -- what the operating system has, and what `sync` has put on the disk of it
  pub file : Bytes
  pub synced : Bytes
  pub buffer : Bytes
  pub bytes_written : ℕ
  pub records_written : ℕ

abbrev pub buffer_capacity : ℕ
buffer_capacity = 64 * 1024

-- `open`: the file's bytes are kept and counted, and no record is.
unfoldable pub open_file : Bytes → WalWriter
open_file bytes = record {
  file = bytes;
  synced = bytes;
  buffer = [];
  bytes_written = length bytes;
  records_written = 0;
}

-- `BufWriter::write_all`: what does not fit in the spare room pushes the buffer out first, and
-- what is as large as the whole buffer goes past it.
unfoldable pub write_all : Bytes → WalWriter → WalWriter
write_all bytes w =
    let spill = w.file ++ w.buffer in
    if ltb (length bytes) (buffer_capacity - length w.buffer)
    then record w { buffer = w.buffer ++ bytes }
    else let held =
        (if ltb (buffer_capacity - length w.buffer) (length bytes) then [] else w.buffer) in
      let sent =
        (if ltb (buffer_capacity - length w.buffer) (length bytes) then spill else w.file) in
      if leb buffer_capacity (length bytes)
      then record w { file = sent ++ (held ++ bytes); buffer = [] }
      else record w { file = sent; buffer = held ++ bytes }

module _ (crc : Bytes → ℕ) where
  -- `accepted` is false where the operating system refuses the write; nothing is counted then.
  unfoldable pub append : Bool → Bytes → Bytes → WalWriter → WalWriter × Bool
  unfolding write_all
  append accepted key value w =
      let out = serialize crc key value in
      let w' = write_all out w in
      if accepted
      then (
        record w' {
          bytes_written = w.bytes_written + length out;
          records_written = w.records_written + 1;
        },
        true,
      )
      else (w, false)

unfoldable pub flush : Bool → WalWriter → WalWriter × Bool
flush accepted w =
    if accepted then (record w { file = w.file ++ w.buffer; buffer = [] }, true) else (w, false)

-- `flush` and then `sync_all`.
unfoldable pub sync : Bool → WalWriter → WalWriter × Bool
sync accepted w =
    if accepted
    then (record w { file = w.file ++ w.buffer; synced = w.file ++ w.buffer; buffer = [] }, true)
    else (w, false)

-- All that has been written, flushed or not.
abbrev pub contents : WalWriter → Bytes
contents w = w.file ++ w.buffer

contents-write_all :
    (bytes : Bytes) (w : WalWriter) → contents (write_all bytes w) ≡ contents w ++ bytes
unfolding write_all
contents-write_all bytes w = ground (
  arith,
  append_assoc w.file w.buffer bytes,
  append_nil (w.file ++ (w.buffer ++ bytes)),
  append_nil ((w.file ++ w.buffer) ++ bytes),
)

module _ (crc : Bytes → ℕ) where
  -- A successful append adds the record at the end of what was written, counts it and its bytes,
  -- and a refused one changes nothing.
  pub append_lem :
      (accepted : Bool) (key value : Bytes) (w : WalWriter)
      → let (w', done) = append crc accepted key value w in
        (done ≡ accepted)
        × (contents w' ≡ contents w ++ (if accepted then serialize crc key value else []))
        × (w'.records_written ≡ w.records_written + (if accepted then 1 else 0))
  unfolding append
  append_lem true key value w = (refl, contents-write_all (serialize crc key value) w, refl)
  append_lem false key value w = (refl, sym (append_nil (contents w)), omega arith)

  -- Appends of several records in a row, all accepted.
  unfoldable pub append_all : List WalRecord → WalWriter → WalWriter
  append_all [] w = w
  append_all (r ∷ rs) w = append_all rs (append crc true r.key r.value w).0

  contents-append_all :
      (rs : List WalRecord) (w : WalWriter)
      → contents (append_all rs w) ≡ contents w ++ log_of crc rs
  unfolding append_all log_of
  contents-append_all [] w = sym (append_nil (contents w))
  contents-append_all (r ∷ rs) w =
      contents-append_all rs (append crc true r.key r.value w).0
      ∙ (ap (λ b. b ++ log_of crc rs) (append_lem true r.key r.value w).1
          ∙ append_assoc (contents w) (serialize crc r.key r.value) (log_of crc rs))

  -- After appends and a flush the file holds what it held and then the records in order, and
  -- nothing is left in the buffer.
  pub flush-append_all :
      (rs : List WalRecord) (w : WalWriter)
      → let (w', done) = flush true (append_all rs w) in
        (w'.file ≡ contents w ++ log_of crc rs) × (w'.buffer ≡ []) × (done ≡ true)
  unfolding flush
  flush-append_all rs w = (contents-append_all rs w, refl, refl)

  -- `bytes_written` is the length of all that the file holds or will hold after a flush.
  pub append-counted :
      (accepted : Bool) (key value : Bytes) (w : WalWriter)
      → w.bytes_written ≡ length (contents w)
      → let w' = (append crc accepted key value w).0 in w'.bytes_written ≡ length (contents w')
  unfolding append
  append-counted true key value w h = omega (
    arith,
    ap length (contents-write_all (serialize crc key value) w),
    length-append (contents w) (serialize crc key value),
    h,
  )
  append-counted false key value w h = h

  log_of-append : (xs ys : List WalRecord) → log_of crc (xs ++ ys) ≡ log_of crc xs ++ log_of crc ys
  unfolding log_of
  log_of-append [] ys = refl
  log_of-append (r ∷ xs) ys =
      ap (λ b. serialize crc r.key r.value ++ b) (log_of-append xs ys)
      ∙ sym (append_assoc (serialize crc r.key r.value) (log_of crc xs) (log_of crc ys))

  -- Durability: records appended to a log and flushed, all writes accepted, are read back by the next
  -- replay, after the records that the log held before and in the order of the appends, with none
  -- corrupted, if every old and new record has a key of less than 64 KiB and a value of at most
  -- 100,000,000 bytes, and checksums have 32 bits.
  pub replay-flush :
      ((b : Bytes) → crc b < 2 ^ 32)
      → (old rs : List WalRecord) → All Fits old
      → All Fits rs
      → replay crc (flush true (append_all rs (open_file (log_of crc old)))).0.file
        ≡ some (old ++ rs, 0)
  unfolding open_file read_record
  replay-flush crc_u32 old rs fo fr =
      let w = open_file (log_of crc old) in
      let e : (flush true (append_all rs w)).0.file ≡ log_of crc (old ++ rs) ++ [] =
        (flush-append_all rs w).0
        ∙ (ap (λ b. b ++ log_of crc rs) (append_nil (log_of crc old))
            ∙ (sym (log_of-append old rs) ∙ sym (append_nil (log_of crc (old ++ rs))))) in
      rw e (replay-log crc crc_u32 (old ++ rs) [] (All-append Fits old rs fo fr) tt)

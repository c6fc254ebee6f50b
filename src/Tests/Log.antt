-- ===== src/Tests/Log.antt =====
-- The log of src/storage/wal.rs at concrete inputs.
use uldb.Prelude.{◌≡◌, [], ◌∷◌, ◌++◌, some, true, arith, take, length}
use uldb.Storage.Wal.{WalRecord, serialize, deserialize, replay}
use uldb.Storage.Wal.Record.{Fits, deserialize-serialize}
use uldb.Storage.Wal.Replay.{log_of}
use uldb.Storage.Wal.Crash.{replay_torn}
use uldb.Storage.Wal.Writer.{
  open_file, append, append_all, flush, replay-flush, append-counted, contents,
}
use uldb.Tests.Inputs.{key_a, key_c, value_one, value_two, toy_crc, toy_crc-lt}

abbrev record_a : WalRecord
record_a = record { key = key_a; value = value_one }

abbrev record_c : WalRecord
record_c = record { key = key_c; value = value_two }

Fits-a : Fits record_a
Fits-a = record { key_fits = omega arith; value_fits = omega arith }

Fits-c : Fits record_c
Fits-c = record { key_fits = omega arith; value_fits = omega arith }

replay-flush_example :
    replay toy_crc
      (flush true
        (append_all toy_crc (record_c ∷ []) (open_file (log_of toy_crc (record_a ∷ []))))).0.file
    ≡ some (record_a ∷ record_c ∷ [], 0)
replay-flush_example =
    replay-flush toy_crc toy_crc-lt (record_a ∷ []) (record_c ∷ []) (Fits-a, tt) (Fits-c, tt)

replay_torn_example :
    replay toy_crc (log_of toy_crc (record_a ∷ []) ++ take 9 (serialize toy_crc key_c value_two))
    ≡ some (record_a ∷ [], 1)
replay_torn_example =
    replay_torn toy_crc toy_crc-lt (record_a ∷ []) record_c 9 (Fits-a, tt) Fits-c (omega arith)

deserialize-serialize_example :
    deserialize toy_crc (serialize toy_crc key_c value_two) ≡ some record_c
deserialize-serialize_example =
    deserialize-serialize toy_crc toy_crc-lt key_c value_two (omega arith) (omega arith)

append-counted_example :
    let w = (append toy_crc true key_c value_two (open_file (9 ∷ []))).0 in
    w.bytes_written ≡ length (contents w)
unfolding open_file
append-counted_example =
    append-counted toy_crc true key_c value_two (open_file (9 ∷ [])) (omega arith)

-- ===== src/Storage/Wal/Crash.antt =====
-- What a crash leaves in a WAL file (src/storage/wal.rs): a record cut short, or a bad checksum.
use uldb.Prelude.{
  ℕ, zero, suc, ◌+◌, ◌%◌, ◌^◌, ◌≡◌, ◌≢◌, ◌<◌, ◌≤◌, List, ◌++◌, some, Bool, true, false, ltb,
  if◌then◌else◌, length, take, arith, refl, ap, ◌∙◌, All, append_assoc, length-take-le,
}
use uldb.Bytes.{Bytes}
use uldb.Bytes.Endian.{be32, from32-be32}
use uldb.Storage.Wal.{
  WalRecord, header, serialize, read_body, read_record, eof, corrupt, replay, deserialize,
  decode_payload,
}
use uldb.Storage.Wal.Record.{Fits, key_len, val_len, read_body-header}
use uldb.Storage.Wal.Replay.{log_of, replay-log, IsStop, stopped_by}

IsStop-if : (b : Bool) → IsStop (if b then eof else corrupt)
IsStop-if true = tt
IsStop-if false = tt

stopped_if : (b : Bool) → stopped_by (if b then eof else corrupt) ≡ (if b then 0 else 1)
stopped_if true = refl
stopped_if false = refl

module _ (crc : Bytes → ℕ) where
  torn_body :
      (c n : ℕ) (key value : Bytes)
      → length key < 2 ^ 16
      → length value < 2 ^ 32
      → n < 6 + length key + length value
      → read_body crc c (take n (header key value ++ (key ++ value))) ≡ corrupt
  unfolding read_body header
  torn_body c zero key value kf vf h = refl
  torn_body c (suc zero) key value kf vf h = refl
  torn_body c (suc (suc zero)) key value kf vf h = refl
  torn_body c (suc (suc (suc zero))) key value kf vf h = refl
  torn_body c (suc (suc (suc (suc zero)))) key value kf vf h = refl
  torn_body c (suc (suc (suc (suc (suc zero))))) key value kf vf h = refl
  torn_body c (suc (suc (suc (suc (suc (suc m)))))) key value kf vf h =
      rw (key_len key value kf vf, val_len key value kf vf)
        (ground (arith, length-take-le m (key ++ value)))

  -- A record cut short after `n` bytes.
  torn_record :
      (n : ℕ) (key value : Bytes)
      → length key < 2 ^ 16
      → length value < 2 ^ 32
      → n < 10 + length key + length value
      → read_record crc (take n (serialize crc key value)) ≡ (if ltb n 4 then eof else corrupt)
  unfolding read_record serialize
  torn_record zero key value kf vf h = refl
  torn_record (suc zero) key value kf vf h = refl
  torn_record (suc (suc zero)) key value kf vf h = refl
  torn_record (suc (suc (suc zero))) key value kf vf h = refl
  torn_record (suc (suc (suc (suc m)))) key value kf vf h =
      let k : ltb (suc (suc (suc (suc m)))) 4 ≡ false = ground arith in
      rw k (torn_body _ m key value kf vf (omega arith))

  -- After a crash in the middle of a write the replay gives back every record that was complete,
  -- and counts the one cut short as corrupted, unless less than its checksum was written. All the
  -- records, the one cut short included, have keys of less than 64 KiB and values of at most
  -- 100,000,000 bytes, and checksums have 32 bits.
  pub replay_torn :
      ((b : Bytes) → crc b < 2 ^ 32)
      → (rs : List WalRecord) (r : WalRecord) (n : ℕ) → All Fits rs
      → Fits r
      → n < 10 + length r.key + length r.value
      → replay crc (log_of crc rs ++ take n (serialize crc r.key r.value))
        ≡ some (rs, if ltb n 4 then 0 else 1)
  replay_torn crc_u32 rs r n fits fr h =
      let e = torn_record n r.key r.value fr.key_fits (omega (arith, fr.value_fits)) h in
      let stop : IsStop (read_record crc (take n (serialize crc r.key r.value))) =
        rw e (IsStop-if (ltb n 4)) in
      replay-log crc crc_u32 rs (take n (serialize crc r.key r.value)) fits stop
      ∙ rw e (ap (λ k. some (rs, k)) (stopped_if (ltb n 4)))

  -- The bytes of a record with `c` in the place of its checksum.
  abbrev pub with_checksum : ℕ → WalRecord → Bytes
  with_checksum c r = be32 c ++ (header r.key r.value ++ (r.key ++ r.value))

  bad_checksum :
      (c : ℕ) (r : WalRecord) (later : Bytes)
      → Fits r
      → c < 2 ^ 32
      → c ≢ crc (header r.key r.value ++ (r.key ++ r.value))
      → read_record crc (with_checksum c r ++ later) ≡ corrupt
  unfolding read_record
  bad_checksum c r later f cf ne = rw (from32-be32 c cf) (
      rw (append_assoc (header r.key r.value) (r.key ++ r.value) later) (
        read_body-header r.key r.value f.key_fits (omega (arith, f.value_fits)) crc c later
          f.value_fits
        ∙ ground (arith, ne)))

  -- A record with a wrong checksum ends the replay: what was written after it, valid or not, is
  -- not recovered.
  pub replay-bad_checksum :
      ((b : Bytes) → crc b < 2 ^ 32)
      → (rs : List WalRecord) (r : WalRecord) (c : ℕ) (later : Bytes) → All Fits rs
      → Fits r
      → c < 2 ^ 32
      → c ≢ crc (header r.key r.value ++ (r.key ++ r.value))
      → replay crc (log_of crc rs ++ (with_checksum c r ++ later)) ≡ some (rs, 1)
  replay-bad_checksum crc_u32 rs r c later fits fr cf ne =
      let e = bad_checksum c r later fr cf ne in
      let stop : IsStop (read_record crc (with_checksum c r ++ later)) = rw e tt in
      replay-log crc crc_u32 rs (with_checksum c r ++ later) fits stop ∙ rw e

  -- A record whose key has 64 KiB or more is written without an error, and reading it back never
  -- gives that record, since the length field holds only the low 16 bits.
  pub deserialize-long_key :
      (key value : Bytes)
      → 2 ^ 16 ≤ length key
      → deserialize crc (serialize crc key value) ≢ some (record { key = key; value = value })
  unfolding deserialize serialize decode_payload header
  deserialize-long_key key value long h =
      ground (arith, length-take-le (length key % 2 ^ 16) (key ++ value))

  long_value :
      (key value later : Bytes)
      → length key < 2 ^ 16
      → 100000000 < length value
      → length value < 2 ^ 32
      → read_record crc (serialize crc key value ++ later) ≡ corrupt
  unfolding read_record read_body serialize header
  long_value key value later kf low vf =
      rw (key_len key value kf vf, val_len key value kf vf) (ground arith)

  -- A record whose value has more than 100,000,000 bytes (and less than 4 GiB) is written without
  -- an error, and the replay stops at it: it and all later records are lost.
  pub replay-long_value :
      ((b : Bytes) → crc b < 2 ^ 32)
      → (rs : List WalRecord) (key value later : Bytes) → All Fits rs
      → length key < 2 ^ 16
      → 100000000 < length value
      → length value < 2 ^ 32
      → replay crc (log_of crc rs ++ (serialize crc key value ++ later)) ≡ some (rs, 1)
  replay-long_value crc_u32 rs key value later fits kf low vf =
      let e = long_value key value later kf low vf in
      let stop : IsStop (read_record crc (serialize crc key value ++ later)) = rw e tt in
      replay-log crc crc_u32 rs (serialize crc key value ++ later) fits stop ∙ rw e

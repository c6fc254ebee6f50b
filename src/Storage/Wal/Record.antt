-- ===== src/Storage/Wal/Record.antt =====
-- One WAL record: encoding and decoding (src/storage/wal.rs).
use uldb.Prelude.{
  ℕ, ◌+◌, ◌/◌, ◌%◌, ◌^◌, ◌≡◌, ◌<◌, ◌≤◌, ◌++◌, some, false, eqb, ltb, if◌then◌else◌, length, arith,
  refl, ◌∙◌, length-append, take-append, drop-append, take_all,
}
use uldb.Bytes.{Bytes}
use uldb.Bytes.Endian.{from16, from32, from32-be32}
use uldb.Storage.Wal.{
  WalRecord, header, serialize, decode_payload, deserialize, read_body, read_record, corrupt, good,
}

-- A record that the format holds and that the replay takes.
pub record Fits (r : WalRecord) : Type 0 where
  pub key_fits : length r.key < 2 ^ 16
  pub value_fits : length r.value ≤ 100000000

module _ (key value : Bytes) (kf : length key < 2 ^ 16) (vf : length value < 2 ^ 32) where
  pub key_len : from16 (length key % 2 ^ 16 / 2 ^ 8 % 256) (length key % 2 ^ 16 % 256) ≡ length key
  key_len = omega arith

  pub val_len :
      from32
        (length value % 2 ^ 32 / 2 ^ 24 % 256)
        (length value % 2 ^ 32 / 2 ^ 16 % 256)
        (length value % 2 ^ 32 / 2 ^ 8 % 256)
        (length value % 2 ^ 32 % 256)
      ≡ length value
  val_len = omega arith

  pub decode_payload-header :
      (crc : Bytes → ℕ)
      → decode_payload crc (header key value ++ (key ++ value))
        ≡ some (record { key = key; value = value })
  unfolding decode_payload header
  decode_payload-header crc =
      rw (key_len, val_len, length-append)
        (ground (
          arith,
          take-append (length key) key value refl,
          drop-append (length key) key value refl,
          take_all value,
        ))

  -- The body of a written record, whatever checksum was read and whatever follows it in the file.
  pub read_body-header :
      (crc : Bytes → ℕ) (c : ℕ) (tail : Bytes)
      → length value ≤ 100000000
      → read_body crc c (header key value ++ ((key ++ value) ++ tail)) ≡ (
          if eqb (crc (header key value ++ (key ++ value))) c
          then good (record { key = key; value = value }) tail
          else corrupt)
  unfolding read_body header
  read_body-header crc c tail small =
      let kv : length (key ++ value) ≡ length key + length value = length-append key value in
      let all : length ((key ++ value) ++ tail) ≡ length key + length value + length tail =
        omega (arith, length-append (key ++ value) tail, kv) in
      rw
        (
          key_len,
          val_len,
          take-append (length key + length value) (key ++ value) tail kv,
          drop-append (length key + length value) (key ++ value) tail kv,
          all,
          take-append (length key) key value refl,
          drop-append (length key) key value refl,
        )
        (ground arith)

module _ (crc : Bytes → ℕ) (crc_u32 : (b : Bytes) → crc b < 2 ^ 32) where
  checksum :
      (b : Bytes)
      → from32 (crc b / 2 ^ 24 % 256) (crc b / 2 ^ 16 % 256) (crc b / 2 ^ 8 % 256) (crc b % 256)
        ≡ crc b
  checksum b = from32-be32 (crc b) (crc_u32 b)

  -- A record that is written and read back is the same record, if its key is shorter than 64 KiB
  -- and its value than 4 GiB.
  pub deserialize-serialize :
      (key value : Bytes)
      → length key < 2 ^ 16
      → length value < 2 ^ 32
      → deserialize crc (serialize crc key value) ≡ some (record { key = key; value = value })
  unfolding deserialize serialize
  deserialize-serialize key value kf vf =
      let all = header key value ++ (key ++ value) in
      let long : ltb (4 + length all) 10 ≡ false = unfold header in ground arith in
      rw (checksum all) (ground (arith, long, decode_payload-header key value kf vf crc))

  -- The round of the replay that meets a written record.
  pub read_record-serialize :
      (key value tail : Bytes)
      → length key < 2 ^ 16
      → length value ≤ 100000000
      → read_record crc (serialize crc key value ++ tail)
        ≡ good (record { key = key; value = value }) tail
  unfolding read_record serialize
  read_record-serialize key value tail kf vf =
      let all = header key value ++ (key ++ value) in
      rw (checksum all)
        (read_body-header key value kf (omega arith) crc (crc all) tail vf ∙ ground arith)

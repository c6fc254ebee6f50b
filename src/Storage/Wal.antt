-- ===== src/Storage/Wal.antt =====
-- src/storage/wal.rs: the record format, the writer over a buffered file, and the replay.
-- The checksum of `crc32fast` is a parameter `crc`; a file is its bytes.
pub mod Record
pub mod Replay
pub mod Crash
pub mod Writer
use uldb.Prelude.{
  ℕ, zero, suc, ◌+◌, ◌-◌, ◌/◌, ◌%◌, ◌^◌, List, [], ◌∷◌, ◌++◌, Option, some, none, Bool, true, false,
  eqb, ltb, leb, if◌then◌else◌, length, take, drop, map, ◌||◌, not,
}
use uldb.Bytes.{Bytes}
use uldb.Bytes.Endian.{be16, be32, from16, from32}

pub record WalRecord : Type 0 where
  pub key : Bytes
  pub value : Bytes

-- The six bytes of the two lengths, each cut to its width: `as u16`, `as u32`.
unfoldable pub header : Bytes → Bytes → Bytes
header key value = be16 (length key % 2 ^ 16) ++ be32 (length value % 2 ^ 32)

-- One round of the replay loop: the end of the file, a record that stops the loop, or a record
-- and the bytes after it.
pub data Round : Type 0 where
  eof : Round
  corrupt : Round
  good : WalRecord → Bytes → Round

module _ (crc : Bytes → ℕ) where
  unfoldable pub serialize : Bytes → Bytes → Bytes
  unfolding header
  serialize key value =
      be32 (crc (header key value ++ (key ++ value))) ++ (header key value ++ (key ++ value))

  -- The fields of a record whose checksum has been read: `payload` starts at the header.
  unfoldable pub decode_payload : Bytes → Option WalRecord
  decode_payload (a ∷ b ∷ c ∷ d ∷ e ∷ f ∷ rest) =
      let key_len = from16 a b in
      let val_len = from32 c d e f in
      if ltb (6 + length rest) (6 + key_len + val_len)
      then none
      else some (record { key = take key_len rest; value = take val_len (drop key_len rest) })
  decode_payload _ = none

  unfoldable pub deserialize : Bytes → Option WalRecord
  unfolding decode_payload
  deserialize (a ∷ b ∷ c ∷ d ∷ payload) =
      if ltb (4 + length payload) 10
      then none
      else if eqb (crc payload) (from32 a b c d)
      then decode_payload payload
      else none
  deserialize _ = none

  -- From the header on, with the stored checksum.
  unfoldable pub read_body : ℕ → Bytes → Round
  read_body crc_stored (a ∷ b ∷ c ∷ d ∷ e ∷ f ∷ rest) =
      let key_len = from16 a b in
      let val_len = from32 c d e f in
      let payload = take (key_len + val_len) rest in
      if ltb 1000000 key_len || ltb 100000000 val_len
      then corrupt
      else if ltb (length rest) (key_len + val_len)
      then corrupt
      else if eqb (crc ((a ∷ b ∷ c ∷ d ∷ e ∷ f ∷ []) ++ payload)) crc_stored
      then good (record { key = take key_len payload; value = drop key_len payload })
          (drop (key_len + val_len) rest)
      else corrupt
  read_body crc_stored _ = corrupt

  unfoldable pub read_record : Bytes → Round
  unfolding read_body
  read_record (a ∷ b ∷ c ∷ d ∷ rest) = read_body (from32 a b c d) rest
  read_record _ = eof

  -- The loop, with the records and the count of corrupted ones; `none` if the fuel runs out.
  unfoldable pub replay_loop : ℕ → Bytes → List WalRecord → Option (List WalRecord × ℕ)
  replay_loop zero bytes records = none
  replay_loop (suc fuel) bytes records = elim (read_record bytes) [
    | eof ↦ some (records, 0)
    | corrupt ↦ some (records, 1)
    | good r rest ↦ replay_loop fuel rest (records ++ r ∷ [])
  ]

  -- Each round takes ten bytes at least, so a round for each byte and one more are enough.
  unfoldable pub replay : Bytes → Option (List WalRecord × ℕ)
  unfolding replay_loop
  replay bytes = replay_loop (suc (length bytes)) bytes []

-- ===== src/Storage/Wal/Replay.antt =====
-- The replay of a WAL file (src/storage/wal.rs): which records a file gives back.
use uldb.Prelude.{
  ℕ, zero, suc, ◌+◌, ◌^◌, ◌≡◌, ◌<◌, ◌≤◌, List, [], ◌∷◌, ◌++◌, some, length, arith, refl, ap, ◌∙◌,
  All, append_assoc, append_nil, length-drop,
}
use uldb.Bytes.{Bytes}
use uldb.Bytes.Endian.{from16, from32}
use uldb.Storage.Wal.{
  WalRecord, serialize, read_body, read_record, Round, eof, corrupt, good, replay, replay_loop,
}
use uldb.Storage.Wal.Record.{Fits, read_record-serialize}

-- What a round leaves to read.
abbrev Shrinks : ℕ → Round → Type 0
Shrinks n eof = Unit
Shrinks n corrupt = Unit
Shrinks n (good r rest) = length rest + 10 ≤ n

-- The bytes that `append` wrote for these records.
unfoldable pub log_of : (Bytes → ℕ) → List WalRecord → Bytes
log_of crc [] = []
log_of crc (r ∷ rs) = serialize crc r.key r.value ++ log_of crc rs

-- What the replay returns when a round at the end of the records stops it.
abbrev pub stopped_by : Round → ℕ
stopped_by corrupt = 1
stopped_by _ = 0

-- The round ends the loop.
abbrev pub IsStop : Round → Type 0
IsStop (good r rest) = ⊥
IsStop _ = Unit

module _ (crc : Bytes → ℕ) where
  read_body-Shrinks :
      (c : ℕ) (bytes : Bytes)
      → Shrinks (suc (suc (suc (suc (length bytes))))) (read_body crc c bytes)
  unfolding read_body
  read_body-Shrinks c (a ∷ b ∷ d ∷ e ∷ f ∷ g ∷ rest) =
      ground (arith, length-drop (from16 a b + from32 d e f g) rest)
  read_body-Shrinks c _ = tt

  read_record-Shrinks : (bytes : Bytes) → Shrinks (length bytes) (read_record crc bytes)
  unfolding read_record
  read_record-Shrinks (a ∷ b ∷ c ∷ d ∷ rest) = read_body-Shrinks (from32 a b c d) rest
  read_record-Shrinks _ = tt

  loop_total :
      (fuel : ℕ) (bytes : Bytes) (acc : List WalRecord) (round : Round)
      → read_record crc bytes ≡ round
      → length bytes < fuel
      → (r : List WalRecord × ℕ) × (replay_loop crc fuel bytes acc ≡ some r)
  unfolding replay_loop
  loop_total zero bytes acc round e h = absurd (omega arith)
  loop_total (suc fuel) bytes acc eof e h = ((acc, 0), rw (e, replay_loop))
  loop_total (suc fuel) bytes acc corrupt e h = ((acc, 1), rw (e, replay_loop))
  loop_total (suc fuel) bytes acc (good r rest) e h =
      let s : Shrinks (length bytes) (good r rest) = rw e at (read_record-Shrinks bytes) in
      let (out, eq) =
        loop_total fuel rest (acc ++ r ∷ []) (read_record crc rest) refl (omega arith) in
      (out, rw (e, replay_loop) eq)

  -- The replay of any file comes to an end within its fuel and gives a result.
  pub replay_total : (bytes : Bytes) → (r : List WalRecord × ℕ) × (replay crc bytes ≡ some r)
  unfolding replay
  replay_total bytes =
      loop_total (suc (length bytes)) bytes [] (read_record crc bytes) refl (omega arith)

  loop-stop :
      (fuel : ℕ) (tail : Bytes) (acc : List WalRecord) (round : Round)
      → read_record crc tail ≡ round
      → IsStop round
      → replay_loop crc (suc fuel) tail acc ≡ some (acc, stopped_by round)
  unfolding replay_loop
  loop-stop fuel tail acc eof e s = rw (e, replay_loop)
  loop-stop fuel tail acc corrupt e s = rw (e, replay_loop)
  loop-stop fuel tail acc (good r rest) e s = absurd s

  module _ (crc_u32 : (b : Bytes) → crc b < 2 ^ 32) where
    loop-log :
        (rs : List WalRecord) (fuel : ℕ) (tail : Bytes) (acc : List WalRecord)
        → All Fits rs
        → IsStop (read_record crc tail)
        → length (log_of crc rs ++ tail) < fuel
        → replay_loop crc fuel (log_of crc rs ++ tail) acc
          ≡ some (acc ++ rs, stopped_by (read_record crc tail))
    unfolding log_of replay_loop
    loop-log rs zero tail acc fits stop h = absurd (omega arith)
    loop-log [] (suc fuel) tail acc fits stop h =
        rw append_nil (loop-stop fuel tail acc (read_record crc tail) refl stop)
    loop-log (r ∷ rs) (suc fuel) tail acc fits stop h =
        let rest = log_of crc rs ++ tail in
        let split : (serialize crc r.key r.value ++ log_of crc rs) ++ tail
            ≡ serialize crc r.key r.value ++ rest =
          append_assoc (serialize crc r.key r.value) (log_of crc rs) tail in
        let round : read_record crc ((serialize crc r.key r.value ++ log_of crc rs) ++ tail)
            ≡ good r rest =
          rw split (
            read_record-serialize crc crc_u32 r.key r.value rest fits.0.key_fits
              fits.0.value_fits) in
        let s : Shrinks (length ((serialize crc r.key r.value ++ log_of crc rs) ++ tail))
            (good r rest) =
          rw round at
            (read_record-Shrinks ((serialize crc r.key r.value ++ log_of crc rs) ++ tail)) in
        rw (round, replay_loop)
          (loop-log rs fuel tail (acc ++ r ∷ []) fits.1 stop (omega arith)
            ∙ ap (λ l. some (l, stopped_by (read_record crc tail))) (append_assoc acc (r ∷ []) rs))

    -- A file that starts with written records, and goes on with bytes that are no record, gives
    -- back exactly those records, with a corrupted one counted unless the file just ends.
    pub replay-log :
        (rs : List WalRecord) (tail : Bytes)
        → All Fits rs
        → IsStop (read_record crc tail)
        → replay crc (log_of crc rs ++ tail) ≡ some (rs, stopped_by (read_record crc tail))
    unfolding replay
    replay-log rs tail fits stop =
        loop-log rs (suc (length (log_of crc rs ++ tail))) tail [] fits stop (omega arith)

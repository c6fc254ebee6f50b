-- ===== src/Bytes/Endian.antt =====
-- Big-endian integers: `to_be_bytes` and `from_be_bytes` at the widths in use.
use uldb.Prelude.{ℕ, ◌+◌, ◌*◌, ◌/◌, ◌%◌, ◌^◌, ◌<◌, ◌≡◌, [], ◌∷◌, arith}
use uldb.Bytes.{Bytes}

abbrev pub be16 : ℕ → Bytes
be16 v = (v / 2 ^ 8 % 256) ∷ (v % 256) ∷ []

abbrev pub be32 : ℕ → Bytes
be32 v = (v / 2 ^ 24 % 256) ∷ (v / 2 ^ 16 % 256) ∷ (v / 2 ^ 8 % 256) ∷ (v % 256) ∷ []

abbrev pub be64 : ℕ → Bytes
be64 v =
    (v / 2 ^ 56 % 256)
    ∷ (v / 2 ^ 48 % 256)
    ∷ (v / 2 ^ 40 % 256)
    ∷ (v / 2 ^ 32 % 256)
    ∷ (v / 2 ^ 24 % 256)
    ∷ (v / 2 ^ 16 % 256)
    ∷ (v / 2 ^ 8 % 256)
    ∷ (v % 256)
    ∷ []

abbrev pub from16 : ℕ → ℕ → ℕ
from16 a b = a * 2 ^ 8 + b

abbrev pub from32 : ℕ → ℕ → ℕ → ℕ → ℕ
from32 a b c d = a * 2 ^ 24 + b * 2 ^ 16 + c * 2 ^ 8 + d

abbrev pub from64 : ℕ → ℕ → ℕ → ℕ → ℕ → ℕ → ℕ → ℕ → ℕ
from64 a b c d e f g h = from32 a b c d * 2 ^ 32 + from32 e f g h

pub from16-be16 : (v : ℕ) → v < 2 ^ 16 → from16 (v / 2 ^ 8 % 256) (v % 256) ≡ v
from16-be16 v h = omega arith

pub from32-be32 :
    (v : ℕ)
    → v < 2 ^ 32
    → from32 (v / 2 ^ 24 % 256) (v / 2 ^ 16 % 256) (v / 2 ^ 8 % 256) (v % 256) ≡ v
from32-be32 v h = omega arith

pub from64-be64 :
    (v : ℕ)
    → v < 2 ^ 64
    → from64
        (v / 2 ^ 56 % 256)
        (v / 2 ^ 48 % 256)
        (v / 2 ^ 40 % 256)
        (v / 2 ^ 32 % 256)
        (v / 2 ^ 24 % 256)
        (v / 2 ^ 16 % 256)
        (v / 2 ^ 8 % 256)
        (v % 256)
      ≡ v
from64-be64 v h = omega arith

-- ===== src/Bytes.antt =====
-- Byte strings (`Vec<u8>`, `&[u8]`) as lists of numbers.
pub mod Order
pub mod Endian
pub mod Utf8
use uldb.Prelude.{
  ℕ, ◌<◌, List, Eq, nat_eq, list_beq, list_beq_iff, All, Bool, true, false, [], ◌∷◌, eqb, ltb,
  if◌then◌else◌,
}

abbrev pub Bytes : Type 0
Bytes = List ℕ

instance abbrev pub bytes_eq : Eq Bytes
bytes_eq = record { beq = list_beq; beq_iff = list_beq_iff }

abbrev pub IsByte : ℕ → Type 0
IsByte b = b < 256

abbrev pub IsBytes : Bytes → Type 0
IsBytes = All IsByte

-- `a < b` on byte slices: lexicographic.
unfoldable pub blt : Bytes → Bytes → Bool
blt [] [] = false
blt [] (y ∷ ys) = true
blt (x ∷ xs) [] = false
blt (x ∷ xs) (y ∷ ys) = if eqb x y then blt xs ys else ltb x y

-- ===== src/Bytes/Utf8.antt =====
-- What `str::from_utf8` accepts.
use uldb.Prelude.{
  ◌≡◌, ◌<◌, ◌+◌, ◌*◌, ◌%◌, All, arith, refl, ℕ, zero, suc, List, [], ◌∷◌, Option, some, none, Bool,
  true, false, ◌&&◌, leb, eqb, if◌then◌else◌,
}
use uldb.Bytes.{Bytes}

-- The continuation bytes after a first byte: how many, and the bounds of the next one.
abbrev first_byte : ℕ → Option (ℕ × ℕ × ℕ)
first_byte b =
    if leb b 0x7F
    then some (0, 0, 0)
    else if leb b 0xC1
    then none
    else if leb b 0xDF
    then some (1, 0x80, 0xBF)
    else if eqb b 0xE0
    then some (2, 0xA0, 0xBF)
    else if eqb b 0xED
    then some (2, 0x80, 0x9F)
    else if leb b 0xEF
    then some (2, 0x80, 0xBF)
    else if eqb b 0xF0
    then some (3, 0x90, 0xBF)
    else if leb b 0xF3
    then some (3, 0x80, 0xBF)
    else if eqb b 0xF4
    then some (3, 0x80, 0x8F)
    else none

unfoldable pub continues : ℕ → ℕ → ℕ → Bytes → Bool
continues zero lo hi [] = true
continues (suc n) lo hi [] = false
continues (suc n) lo hi (b ∷ bytes) = leb lo b && leb b hi && continues n 0x80 0xBF bytes
continues zero lo hi (b ∷ bytes) = elim (first_byte b) [
  | none ↦ false
  | some (n, next_lo, next_hi) ↦ continues n next_lo next_hi bytes
]

unfoldable pub is_utf8 : Bytes → Bool
unfolding continues
is_utf8 bytes = continues 0 0 0 bytes

-- `s.chars()` of a valid string: `n` bytes are left of the character whose bits so far are `acc`.
unfoldable pub decode : ℕ → ℕ → Bytes → List ℕ
decode acc n [] = []
decode acc zero (b ∷ bytes) =
    if leb b 0x7F
    then b ∷ decode 0 0 bytes
    else if leb b 0xDF
    then decode (b % 32) 1 bytes
    else if leb b 0xEF
    then decode (b % 16) 2 bytes
    else decode (b % 8) 3 bytes
decode acc (suc zero) (b ∷ bytes) = (acc * 64 + b % 64) ∷ decode 0 0 bytes
decode acc (suc (suc n)) (b ∷ bytes) = decode (acc * 64 + b % 64) (suc n) bytes

unfoldable pub chars : Bytes → List ℕ
unfolding decode
chars bytes = decode 0 0 bytes

abbrev pub IsAscii : Bytes → Type 0
IsAscii = All (λ b. b < 128)

pub chars-ascii : (bytes : Bytes) → IsAscii bytes → chars bytes ≡ bytes
unfolding chars decode
chars-ascii [] h = refl
chars-ascii (b ∷ bytes) h = ground (arith, h, chars-ascii bytes h.1)

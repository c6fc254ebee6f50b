-- ===== src/Index/Bloom.antt =====
-- src/index/bloom.rs: a Bloom filter over packed 64-bit words. The two floating-point formulas of
-- `new` are parameters; an index past the end of the words is a panic (`none`).
pub mod Membership
use uldb.Prelude.{
  ℕ, zero, suc, ◌+◌, ◌-◌, ◌*◌, ◌/◌, ◌%◌, ◌^◌, ◌≡◌, ◌≤◌, ◌<◌, List, [], ◌∷◌, ◌++◌, Option, some,
  none, Bool, true, false, if◌then◌else◌, eqb, ◌&&◌, arith, refl, ap, length, min, max, ◌⊎◌, inl,
  inr, Option-cases,
}
use uldb.Bytes.{Bytes}
use uldb.Storage.Fnv.{fnv1a, fnv1a_parts}
use uldb.Word.{test_bit, set_bit, test_bit-set_bit, test_bit-le}

pub record BloomFilter : Type 0 where
  pub bits : List ℕ
  pub num_bits : ℕ
  pub num_hashes : ℕ
  pub count : ℕ

abbrev zeros : ℕ → List ℕ
zeros zero = []
zeros (suc n) = 0 ∷ zeros n

-- `ideal_bits capacity` and `ideal_hashes m capacity` are the values of the two formulas.
unfoldable pub new : (ℕ → ℕ) → (ℕ → ℕ → ℕ) → ℕ → BloomFilter
new ideal_bits ideal_hashes capacity =
    let m = max (ideal_bits capacity) 64 in
    record {
      bits = zeros ((m + 63) / 64);
      num_bits = m;
      num_hashes = min (max (ideal_hashes m capacity) 1) 20;
      count = 0;
    }

-- `b"_bloom_salt"`
abbrev bloom_salt : Bytes
bloom_salt = b'_' ∷ b'b' ∷ b'l' ∷ b'o' ∷ b'o' ∷ b'm' ∷ b'_' ∷ b's' ∷ b'a' ∷ b'l' ∷ b't' ∷ []

-- The positions of the rounds `i`, `i + 1`, …, `rounds` of them.
unfoldable pub positions_from : ℕ → ℕ → ℕ → ℕ → ℕ → List ℕ
positions_from zero i h1 h2 num_bits = []
positions_from (suc rounds) i h1 h2 num_bits =
    ((h1 + i * h2 % 2 ^ 64) % 2 ^ 64 % num_bits) ∷ positions_from rounds (i + 1) h1 h2 num_bits

unfoldable pub positions : Bytes → BloomFilter → List ℕ
unfolding positions_from
positions key f =
    positions_from f.num_hashes 0 (fnv1a key) (fnv1a_parts (key ∷ bloom_salt ∷ [])) f.num_bits

-- `bits[word] |= 1 << bit`
unfoldable pub set_in : List ℕ → ℕ → ℕ → Option (List ℕ)
set_in [] word bit = none
set_in (w ∷ ws) zero bit = some (set_bit w bit ∷ ws)
set_in (w ∷ ws) (suc word) bit = elim (set_in ws word bit) [ none ↦ none | some l ↦ some (w ∷ l) ]

-- `bits[word]`, then `(… >> bit) & 1 == 1`
unfoldable pub test_in : List ℕ → ℕ → ℕ → Option Bool
test_in [] word bit = none
test_in (w ∷ ws) zero bit = some (eqb (test_bit w bit) 1)
test_in (w ∷ ws) (suc word) bit = test_in ws word bit

unfoldable pub set_all : List ℕ → List ℕ → Option (List ℕ)
set_all [] bits = some bits
set_all (p ∷ ps) bits = elim (set_in bits (p / 64) (p % 64)) [ none ↦ none | some l ↦ set_all ps l ]

-- `all` stops at the first position whose bit is clear.
unfoldable pub test_all : List ℕ → List ℕ → Option Bool
test_all [] bits = some true
test_all (p ∷ ps) bits = elim (test_in bits (p / 64) (p % 64)) [
  | none ↦ none
  | some hit ↦ if hit then test_all ps bits else some false
]

unfoldable pub add : Bytes → BloomFilter → Option BloomFilter
unfolding positions set_all
add key f = elim (set_all (positions key f) f.bits) [
  | none ↦ none
  | some bits ↦ some (record f { bits = bits; count = f.count + 1 })
]

unfoldable pub may_contain : Bytes → BloomFilter → Option Bool
unfolding positions test_all
may_contain key f = test_all (positions key f) f.bits

-- The words hold every position below `num_bits`, and there is such a position.
pub record IsValid (f : BloomFilter) : Type 0 where
  pub some_bits : 0 < f.num_bits
  pub room : f.num_bits ≤ 64 * length f.bits

length-zeros : (n : ℕ) → length (zeros n) ≡ n
length-zeros zero = refl
length-zeros (suc n) = ap suc (length-zeros n)

pub new-IsValid :
    (ideal_bits : ℕ → ℕ) (ideal_hashes : ℕ → ℕ → ℕ) (capacity : ℕ)
    → IsValid (new ideal_bits ideal_hashes capacity)
unfolding new
new-IsValid ideal_bits ideal_hashes capacity =
    let m = max (ideal_bits capacity) 64 in
    record { some_bits = omega arith; room = rw (length-zeros ((m + 63) / 64)) (omega arith) }

-- The bit at a position, as `may_contain` reads it.
abbrev pub reads : List ℕ → ℕ → Option Bool
reads bits p = test_in bits (p / 64) (p % 64)

pub set_in_lem :
    (bits : List ℕ) (w b : ℕ)
    → w < length bits
    → (l : List ℕ) × (set_in bits w b ≡ some l)
      × (length l ≡ length bits)
      × ((v c : ℕ) → test_in l v c ≡ (if eqb w v && eqb b c then some true else test_in bits v c))
unfolding set_in test_in
set_in_lem [] w b h = absurd (omega arith)
set_in_lem (x ∷ xs) zero b h = (
  set_bit x b ∷ xs,
  refl,
  refl,
  λ v c.
      elim v
        as (λ v.
          test_in (set_bit x b ∷ xs) v c
          ≡ (if eqb 0 v && eqb b c then some true else test_in (x ∷ xs) v c)) [
            | zero ↦ ground (arith, test_bit-set_bit x b c)
            | suc v ↦ ground arith
          ],
)
set_in_lem (x ∷ xs) (suc w) b h =
    let (l, e, n, t) = set_in_lem xs w b (omega arith) in
    (
      x ∷ l,
      rw e,
      omega arith,
      λ v c.
          elim v
            as (λ v.
              test_in (x ∷ l) v c
              ≡ (if eqb (suc w) v && eqb b c then some true else test_in (x ∷ xs) v c)) [
                | zero ↦ ground arith
                | suc v ↦ ground (arith, t v c)
              ],
    )

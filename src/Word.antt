-- ===== src/Word.antt =====
-- Single bits of machine words, digit by digit: what `(w >> i) & 1`, `w | (1 << i)`,
-- `w & !(1 << i)` and `(w & ((1 << i) - 1)).count_ones()` compute.
use uldb.Prelude.{
  ℕ, zero, suc, ◌+◌, ◌-◌, ◌*◌, ◌/◌, ◌%◌, ◌≡◌, ◌≤◌, ◌<◌, if◌then◌else◌, eqb, ltb, arith,
}

-- `(w >> i) & 1`
unfoldable pub test_bit : ℕ → ℕ → ℕ
test_bit w zero = w % 2
test_bit w (suc i) = test_bit (w / 2) i

-- `w | (1 << i)`
unfoldable pub set_bit : ℕ → ℕ → ℕ
set_bit w zero = w + (1 - w % 2)
set_bit w (suc i) = w % 2 + 2 * set_bit (w / 2) i

-- `w & !(1 << i)`
unfoldable pub clear_bit : ℕ → ℕ → ℕ
clear_bit w zero = w - w % 2
clear_bit w (suc i) = w % 2 + 2 * clear_bit (w / 2) i

-- `(w & ((1 << i) - 1)).count_ones()`: the bits that are set below `i`.
unfoldable pub rank : ℕ → ℕ → ℕ
rank w zero = 0
rank w (suc i) = w % 2 + rank (w / 2) i

pub test_bit-le : (w i : ℕ) → test_bit w i ≤ 1
unfolding test_bit
test_bit-le w zero = omega arith
test_bit-le w (suc i) = test_bit-le (w / 2) i

pub test_bit-set_bit :
    (w i j : ℕ) → test_bit (set_bit w i) j ≡ (if eqb i j then 1 else test_bit w j)
unfolding test_bit set_bit
test_bit-set_bit w zero zero = ground arith
test_bit-set_bit w zero (suc j) =
    let e : (w + (1 - w % 2)) / 2 ≡ w / 2 = omega arith in ground (arith, e)
test_bit-set_bit w (suc i) zero = ground arith
test_bit-set_bit w (suc i) (suc j) =
    let e : (w % 2 + 2 * set_bit (w / 2) i) / 2 ≡ set_bit (w / 2) i = omega arith in
    rw e (ground (arith, test_bit-set_bit (w / 2) i j))

pub test_bit-clear_bit :
    (w i j : ℕ) → test_bit (clear_bit w i) j ≡ (if eqb i j then 0 else test_bit w j)
unfolding test_bit clear_bit
test_bit-clear_bit w zero zero = ground arith
test_bit-clear_bit w zero (suc j) =
    let e : (w - w % 2) / 2 ≡ w / 2 = omega arith in ground (arith, e)
test_bit-clear_bit w (suc i) zero = ground arith
test_bit-clear_bit w (suc i) (suc j) =
    let e : (w % 2 + 2 * clear_bit (w / 2) i) / 2 ≡ clear_bit (w / 2) i = omega arith in
    rw e (ground (arith, test_bit-clear_bit (w / 2) i j))

-- Setting a bit that was clear moves what lies above it by one place.
pub rank-set_bit :
    (w i j : ℕ)
    → test_bit w i ≡ 0
    → rank (set_bit w i) j ≡ (if ltb i j then rank w j + 1 else rank w j)
unfolding test_bit set_bit rank
rank-set_bit w i zero h = ground arith
rank-set_bit w zero (suc j) h =
    let e : (w + (1 - w % 2)) / 2 ≡ w / 2 = omega arith in rw e (ground arith)
rank-set_bit w (suc i) (suc j) h =
    let e : (w % 2 + 2 * set_bit (w / 2) i) / 2 ≡ set_bit (w / 2) i = omega arith in
    rw e (ground (arith, rank-set_bit (w / 2) i j h))

pub rank-clear_bit :
    (w i j : ℕ) → test_bit w i ≡ 1 → rank (clear_bit w i) j + (if ltb i j then 1 else 0) ≡ rank w j
unfolding test_bit clear_bit rank
rank-clear_bit w i zero h = ground arith
rank-clear_bit w zero (suc j) h =
    let e : (w - w % 2) / 2 ≡ w / 2 = omega arith in rw e (ground arith)
rank-clear_bit w (suc i) (suc j) h =
    let e : (w % 2 + 2 * clear_bit (w / 2) i) / 2 ≡ clear_bit (w / 2) i = omega arith in
    rw e (ground (arith, rank-clear_bit (w / 2) i j h))

-- A set bit has its own place, below those of the higher ones.
pub rank-lt : (w i j : ℕ) → i < j → test_bit w i ≡ 1 → rank w i < rank w j
unfolding test_bit rank
rank-lt w zero zero h t = absurd (omega arith)
rank-lt w zero (suc j) h t = omega arith
rank-lt w (suc i) zero h t = absurd (omega arith)
rank-lt w (suc i) (suc j) h t = omega (arith, rank-lt (w / 2) i j (omega arith) t)

pub rank_mono : (w i j : ℕ) → i ≤ j → rank w i ≤ rank w j
unfolding rank
rank_mono w zero j h = omega arith
rank_mono w (suc i) zero h = absurd (omega arith)
rank_mono w (suc i) (suc j) h = omega (arith, rank_mono (w / 2) i j (omega arith))

-- ===== src/Bytes/Order.antt =====
-- The lexicographic order on byte strings is a strict total order.
use uldb.Prelude.{◌≡◌, true, false, [], ◌∷◌, arith, refl, ◌==◌}
use uldb.Bytes.{Bytes, blt, bytes_eq}

pub blt_irrefl : (a : Bytes) → blt a a ≡ false
unfolding blt
blt_irrefl [] = refl
blt_irrefl (x ∷ xs) = ground (arith, blt_irrefl xs)

pub blt_trans : (a b c : Bytes) → blt a b ≡ true → blt b c ≡ true → blt a c ≡ true
unfolding blt
blt_trans [] [] c h k = cc
blt_trans [] (y ∷ ys) [] h k = cc
blt_trans [] (y ∷ ys) (z ∷ zs) h k = refl
blt_trans (x ∷ xs) [] c h k = cc
blt_trans (x ∷ xs) (y ∷ ys) [] h k = cc
blt_trans (x ∷ xs) (y ∷ ys) (z ∷ zs) h k = ground (arith, blt_trans xs ys zs)

pub blt_total : (a b : Bytes) → blt a b ≡ false → blt b a ≡ false → a ≡ b
unfolding blt
blt_total [] [] h k = refl
blt_total [] (y ∷ ys) h k = cc
blt_total (x ∷ xs) [] h k = cc
blt_total (x ∷ xs) (y ∷ ys) h k = ground (arith, blt_total xs ys)

pub blt_asymm : (a b : Bytes) → blt a b ≡ true → blt b a ≡ false
unfolding blt
blt_asymm [] [] h = cc
blt_asymm [] (y ∷ ys) h = refl
blt_asymm (x ∷ xs) [] h = cc
blt_asymm (x ∷ xs) (y ∷ ys) h = ground (arith, blt_asymm xs ys)

-- A smaller key is another key.
pub blt-ne : (a b : Bytes) → blt a b ≡ true → (a == b) ≡ false
unfolding blt
blt-ne [] [] h = cc
blt-ne [] (y ∷ ys) h = refl
blt-ne (x ∷ xs) [] h = refl
blt-ne (x ∷ xs) (y ∷ ys) h = ground (arith, blt-ne xs ys)

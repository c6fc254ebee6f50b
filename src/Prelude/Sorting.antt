-- ===== src/Prelude/Sorting.antt =====
-- Stable sorting by a comparison, `sort_by` of the standard library.
use Prim.Native.Nat.{ℕ, zero, suc}
use mathlib.Core.Bool.{Bool}
use mathlib.Core.List.{List, [], ◌∷◌}
use uldb.Prelude.Tests.{if◌then◌else◌, if_elim}
use uldb.Prelude.Lists.{All, take}

-- `sort_by` with the comparison `a < b`; it is stable.
module _ {A : Type 0} (lt : A → A → Bool) where
  unfoldable pub insert_by : A → List A → List A
  insert_by x [] = x ∷ []
  insert_by x (y ∷ ys) = let rest = insert_by x ys in if lt y x then y ∷ rest else x ∷ y ∷ ys

  unfoldable pub sort_by : List A → List A
  unfolding insert_by
  sort_by [] = []
  sort_by (x ∷ xs) = insert_by x (sort_by xs)

-- What is true of every element stays so in a sorted list and in a part of it.
module _ {A : Type 0} (lt : A → A → Bool) (P : A → Type 0) where
  pub All-insert_by : (x : A) (xs : List A) → P x → All P xs → All P (insert_by lt x xs)
  unfolding insert_by
  All-insert_by x [] p h = (p, tt)
  All-insert_by x (y ∷ ys) p h =
      if_elim (All P) (lt y x) (y ∷ insert_by lt x ys) (x ∷ y ∷ ys)
        (λ e. (h.0, All-insert_by x ys p h.1)) (λ e. (p, h))

  pub All-sort_by : (xs : List A) → All P xs → All P (sort_by lt xs)
  unfolding sort_by
  All-sort_by [] h = tt
  All-sort_by (x ∷ xs) h = All-insert_by x (sort_by lt xs) h.0 (All-sort_by xs h.1)

  pub All-take : (n : ℕ) (xs : List A) → All P xs → All P (take n xs)
  All-take zero xs h = tt
  All-take (suc n) [] h = tt
  All-take (suc n) (x ∷ xs) h = (h.0, All-take n xs h.1)

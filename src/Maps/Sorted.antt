-- ===== src/Maps/Sorted.antt =====
-- `BTreeMap<Vec<u8>, V>` as an association list in the order of its keys.
use uldb.Prelude.{
  ◌≡◌, List, [], ◌∷◌, Option, some, none, true, arith, refl, ◌==◌, if◌then◌else◌, ==_refl, All,
  ◌&&◌, not,
}
use uldb.Bytes.{Bytes, bytes_eq, blt}
use uldb.Bytes.Order.{blt_irrefl, blt_trans, blt_total}
use uldb.Maps.{lookup, remove}

module _ {V : Type 0} where
  -- `m.insert(k, v)`
  unfoldable pub tree_insert : Bytes → V → List (Bytes × V) → List (Bytes × V)
  tree_insert k v [] = (k, v) ∷ []
  tree_insert k v ((j, w) ∷ m) =
      if j == k
      then (k, v) ∷ m
      else if blt k j
      then (k, v) ∷ (j, w) ∷ m
      else (j, w) ∷ tree_insert k v m

  -- The entries of `m.range(start..end)` where `start <= end`.
  unfoldable pub between : Bytes → Bytes → List (Bytes × V) → List (Bytes × V)
  between start end [] = []
  between start end ((j, w) ∷ m) =
      let rest = between start end m in
      if not (blt j start) && blt j end then (j, w) ∷ rest else rest

  -- `m.range(start..end)`, which panics (`none`) on a range that runs backwards.
  unfoldable pub range : Bytes → Bytes → List (Bytes × V) → Option (List (Bytes × V))
  range start end m = if blt end start then none else some (between start end m)

  -- Every key of the list is above `k`.
  abbrev pub Above : Bytes → List (Bytes × V) → Type 0
  Above k = All (λ p. blt k p.0 ≡ true)

  abbrev pub IsSorted : List (Bytes × V) → Type 0
  IsSorted [] = Unit
  IsSorted ((k, v) ∷ m) = Above k m × IsSorted m

  pub lookup-tree_insert :
      (k j : Bytes) (v : V) (m : List (Bytes × V))
      → lookup j (tree_insert k v m) ≡ (if k == j then some v else lookup j m)
  unfolding lookup tree_insert
  lookup-tree_insert k j v [] = refl
  lookup-tree_insert k j v ((i, w) ∷ m) = ground (
    arith,
    bytes_eq.beq_iff k j,
    bytes_eq.beq_iff i k,
    bytes_eq.beq_iff i j,
    lookup-tree_insert k j v m,
  )

  pub lookup-between :
      (s e j : Bytes) (m : List (Bytes × V))
      → lookup j (between s e m) ≡ (if not (blt j s) && blt j e then lookup j m else none)
  unfolding lookup between
  lookup-between s e j [] = ground arith
  lookup-between s e j ((i, w) ∷ m) = ground (arith, bytes_eq.beq_iff i j, lookup-between s e j m)

  pub Above-lookup : (k : Bytes) (m : List (Bytes × V)) → Above k m → lookup k m ≡ none
  unfolding lookup
  Above-lookup k [] h = refl
  Above-lookup k ((j, w) ∷ m) h =
      ground (arith, bytes_eq.beq_iff j k, blt_irrefl k, Above-lookup k m h.1)

  pub Above-trans : (k j : Bytes) (m : List (Bytes × V)) → blt k j ≡ true → Above j m → Above k m
  Above-trans k j [] h a = tt
  Above-trans k j ((i, w) ∷ m) h a = (blt_trans k j i h a.0, Above-trans k j m h a.1)

  pub Above-tree_insert :
      (k j : Bytes) (v : V) (m : List (Bytes × V))
      → blt k j ≡ true
      → Above k m
      → Above k (tree_insert j v m)
  unfolding tree_insert
  Above-tree_insert k j v [] h a = (h, tt)
  Above-tree_insert k j v ((i, w) ∷ m) h a = ground (arith, Above-tree_insert k j v m)

  pub tree_insert-IsSorted :
      (k : Bytes) (v : V) (m : List (Bytes × V)) → IsSorted m → IsSorted (tree_insert k v m)
  unfolding tree_insert
  tree_insert-IsSorted k v [] h = (tt, tt)
  tree_insert-IsSorted k v ((i, w) ∷ m) h = ground (
    arith,
    bytes_eq.beq_iff i k,
    tree_insert-IsSorted k v m,
    Above-trans k i m,
    Above-tree_insert i k v m,
    blt_total k i,
  )

  pub Above-remove : (k j : Bytes) (m : List (Bytes × V)) → Above k m → Above k (remove j m)
  unfolding remove
  Above-remove k j [] a = tt
  Above-remove k j ((i, w) ∷ m) a = ground (arith, Above-remove k j m)

  pub remove-IsSorted : (k : Bytes) (m : List (Bytes × V)) → IsSorted m → IsSorted (remove k m)
  unfolding remove
  remove-IsSorted k [] h = tt
  remove-IsSorted k ((i, w) ∷ m) h = ground (arith, remove-IsSorted k m, Above-remove i k m)

  pub Above-between : (k s e : Bytes) (m : List (Bytes × V)) → Above k m → Above k (between s e m)
  unfolding between
  Above-between k s e [] a = tt
  Above-between k s e ((i, w) ∷ m) a = ground (arith, Above-between k s e m)

  pub between-IsSorted :
      (s e : Bytes) (m : List (Bytes × V)) → IsSorted m → IsSorted (between s e m)
  unfolding between
  between-IsSorted s e [] h = tt
  between-IsSorted s e ((i, w) ∷ m) h =
      ground (arith, between-IsSorted s e m, Above-between i s e m)

module _ {V : Type 0} where
  -- A sorted map is determined by what its keys hold.
  pub sorted_ext :
      (m n : List (Bytes × V))
      → IsSorted m
      → IsSorted n
      → ((k : Bytes) → lookup k m ≡ lookup k n)
      → m ≡ n
  unfolding lookup
  sorted_ext [] [] sm sn h = refl
  sorted_ext [] ((j, w) ∷ n) sm sn h = ground (arith, h j, ==_refl j)
  sorted_ext ((i, v) ∷ m) [] sm sn h = ground (arith, h i, ==_refl i)
  sorted_ext ((i, v) ∷ m) ((j, w) ∷ n) sm sn h =
      let fst : (i ≡ j) × (v ≡ w) = ground (
        arith,
        h i,
        h j,
        ==_refl i,
        ==_refl j,
        bytes_eq.beq_iff i j,
        bytes_eq.beq_iff j i,
        blt_total i j,
        Above-lookup i n,
        Above-lookup j m,
        Above-trans i j n,
        Above-trans j i m,
      ) in
      let rest : m ≡ n = sorted_ext m n sm.1 sn.1 (λ k. ground (
        arith,
        h k,
        bytes_eq.beq_iff i k,
        bytes_eq.beq_iff j k,
        Above-lookup i m sm.0,
        Above-lookup j n sn.0,
        fst,
      )) in
      cc

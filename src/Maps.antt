-- ===== src/Maps.antt =====
-- `HashMap` as an association list in any order, with the operations that the program calls.
-- Iteration visits the entries in the order of the list, which no theorem fixes.
pub mod Sorted
use uldb.Prelude.{
  ℕ, ◌≡◌, ◌≢◌, List, [], ◌∷◌, Option, some, none, Bool, true, false, arith, refl, Eq, ◌==◌,
  if◌then◌else◌, length, ◌+◌, map, ap, ==_refl, is_some, ◌<◌, ◌≤◌, suc, ◌-◌,
}

module _ {ℓ} {K : Type ℓ} ⦃e : Eq K⦄ {V : Type ℓ} where
  -- `m.get(k)`
  unfoldable pub lookup : K → List (K × V) → Option V
  lookup k [] = none
  lookup k ((held, v) ∷ rest) = if held == k then some v else lookup k rest

  -- `m.insert(k, v)`
  unfoldable pub insert : K → V → List (K × V) → List (K × V)
  insert k v [] = (k, v) ∷ []
  insert k v ((held, w) ∷ rest) = if held == k then (k, v) ∷ rest else (held, w) ∷ insert k v rest

  -- `m.remove(k)`
  unfoldable pub remove : K → List (K × V) → List (K × V)
  remove k [] = []
  remove k ((j, w) ∷ m) = let rest = remove k m in if j == k then rest else (j, w) ∷ rest

  -- `m.contains_key(k)`
  unfoldable pub contains_key : K → List (K × V) → Bool
  contains_key k [] = false
  contains_key k ((j, v) ∷ m) = if j == k then true else contains_key k m

  abbrev pub keys : List (K × V) → List K
  keys = map (λ p. p.0)

  pub lookup-insert :
      (k j : K) (v : V) (m : List (K × V))
      → lookup j (insert k v m) ≡ (if k == j then some v else lookup j m)
  unfolding lookup insert
  lookup-insert key j v [] = refl
  lookup-insert key j v ((held, w) ∷ rest) =
      ground
        (arith, e.beq_iff key j, e.beq_iff held key, e.beq_iff held j, lookup-insert key j v rest)

  pub lookup-remove :
      (k j : K) (m : List (K × V)) → lookup j (remove k m) ≡ (if k == j then none else lookup j m)
  unfolding lookup remove
  lookup-remove k j [] = ground arith
  lookup-remove k j ((i, w) ∷ m) =
      ground (arith, e.beq_iff k j, e.beq_iff i k, e.beq_iff i j, lookup-remove k j m)

  pub length-insert :
      (k : K) (v : V) (m : List (K × V))
      → length (insert k v m) ≡ (if contains_key k m then length m else length m + 1)
  unfolding insert contains_key
  length-insert k v [] = omega arith
  length-insert k v ((i, w) ∷ m) = ground (arith, length-insert k v m)

  pub length-remove : (k : K) (m : List (K × V)) → length (remove k m) ≤ length m
  unfolding remove
  length-remove k [] = omega arith
  length-remove k ((i, w) ∷ m) = ground (arith, length-remove k m)

  pub length-remove_lt :
      (k : K) (m : List (K × V)) → contains_key k m ≡ true → length (remove k m) < length m
  unfolding remove contains_key
  length-remove_lt k [] h = cc
  length-remove_lt k ((i, w) ∷ m) h = ground (arith, length-remove_lt k m, length-remove k m)

  pub contains-lookup :
      (k : K) (m : List (K × V)) (v : V) → lookup k m ≡ some v → contains_key k m ≡ true
  unfolding lookup contains_key
  contains-lookup k [] v h = cc
  contains-lookup k ((i, w) ∷ m) v h = ground (arith, contains-lookup k m v)

  pub lookup-absent : (k : K) (m : List (K × V)) → contains_key k m ≡ false → lookup k m ≡ none
  unfolding lookup contains_key
  lookup-absent k [] h = refl
  lookup-absent k ((i, w) ∷ m) h = ground (arith, lookup-absent k m)

  pub contains-is_some : (k : K) (m : List (K × V)) → contains_key k m ≡ is_some (lookup k m)
  unfolding lookup contains_key
  contains-is_some k [] = refl
  contains-is_some k ((i, w) ∷ m) = ground (arith, contains-is_some k m)

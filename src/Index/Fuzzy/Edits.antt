-- ===== src/Index/Fuzzy/Edits.antt =====
-- Edit scripts: the reference for `levenshtein` (src/index/fuzzy.rs).
use uldb.Prelude.{
  ℕ, suc, ◌+◌, ◌≡◌, ◌≤◌, List, [], ◌∷◌, ◌++◌, arith, refl, subst, ◌∙◌, length, min, if◌then◌else◌,
  eqb, eqb_iff, append_nil, Bool-cases, ◌⊎◌, inl, inr,
}

-- `ys` is `xs` after `k` insertions, deletions and substitutions.
pub data Edits : List ℕ → List ℕ → ℕ → Type 0 where
  done : Edits [] [] 0
  keep : {xs ys : List ℕ} {k : ℕ} (x : ℕ) → Edits xs ys k → Edits (x ∷ xs) (x ∷ ys) k
  delete : {xs ys : List ℕ} {k : ℕ} (x : ℕ) → Edits xs ys k → Edits (x ∷ xs) ys (suc k)
  insert : {xs ys : List ℕ} {k : ℕ} (y : ℕ) → Edits xs ys k → Edits xs (y ∷ ys) (suc k)
  replace : {xs ys : List ℕ} {k : ℕ} (x y : ℕ) → Edits xs ys k → Edits (x ∷ xs) (y ∷ ys) (suc k)

-- The least number of edits, by recursion.
unfoldable pub edit : List ℕ → List ℕ → ℕ
edit [] ys = length ys
edit (x ∷ xs) [] = suc (length xs)
edit (x ∷ xs) (y ∷ ys) =
    min (min (edit xs (y ∷ ys) + 1) (edit (x ∷ xs) ys + 1))
      (edit xs ys + (if eqb x y then 0 else 1))

pub edit_nil : (xs : List ℕ) → edit xs [] ≡ length xs
unfolding edit
edit_nil [] = refl
edit_nil (x ∷ xs) = refl

pub edit-insert_le : (xs ys : List ℕ) (y : ℕ) → edit xs (y ∷ ys) ≤ edit xs ys + 1
unfolding edit
edit-insert_le [] ys y = omega arith
edit-insert_le (x ∷ xs) ys y = omega arith

edit-delete_le : (xs ys : List ℕ) (x : ℕ) → edit (x ∷ xs) ys ≤ edit xs ys + 1
unfolding edit
edit-delete_le xs [] x = omega (arith, edit_nil xs)
edit-delete_le xs (y ∷ ys) x = omega arith

edit-keep_le : (xs ys : List ℕ) (x : ℕ) → edit (x ∷ xs) (x ∷ ys) ≤ edit xs ys
unfolding edit
edit-keep_le xs ys x = ground arith

edit-replace_le : (xs ys : List ℕ) (x y : ℕ) → edit (x ∷ xs) (y ∷ ys) ≤ edit xs ys + 1
unfolding edit
edit-replace_le xs ys x y = ground arith

-- No script has fewer edits.
pub edit-le : (xs ys : List ℕ) (k : ℕ) → Edits xs ys k → edit xs ys ≤ k
unfolding edit
edit-le _ _ _ done = omega arith
edit-le _ _ _ (keep {xs = xs} {ys = ys} {k = k} x e) =
    omega (arith, edit-keep_le xs ys x, edit-le xs ys k e)
edit-le _ _ _ (delete {xs = xs} {ys = ys} {k = k} x e) =
    omega (arith, edit-delete_le xs ys x, edit-le xs ys k e)
edit-le _ _ _ (insert {xs = xs} {ys = ys} {k = k} y e) =
    omega (arith, edit-insert_le xs ys y, edit-le xs ys k e)
edit-le _ _ _ (replace {xs = xs} {ys = ys} {k = k} x y e) =
    omega (arith, edit-replace_le xs ys x y, edit-le xs ys k e)

insert_all : (ys : List ℕ) → Edits [] ys (length ys)
insert_all [] = done
insert_all (y ∷ ys) = insert y (insert_all ys)

delete_all : (xs : List ℕ) → Edits xs [] (length xs)
delete_all [] = done
delete_all (x ∷ xs) = delete x (delete_all xs)

recount : (xs ys : List ℕ) (k j : ℕ) → k ≡ j → Edits xs ys k → Edits xs ys j
recount xs ys k j h e = subst (λ n. Edits xs ys n) h e

min-cases : (a b c : ℕ) → (min (min a b) c ≡ a) ⊎ ((min (min a b) c ≡ b) ⊎ (min (min a b) c ≡ c))
min-cases a b c = ground arith

-- There is a script with that many edits.
pub edit-Edits : (xs ys : List ℕ) → Edits xs ys (edit xs ys)
unfolding edit
edit-Edits [] ys = insert_all ys
edit-Edits (x ∷ xs) [] = delete_all (x ∷ xs)
edit-Edits (x ∷ xs) (y ∷ ys) =
    let cost : ℕ = if eqb x y then 0 else 1 in
    elim (min-cases (edit xs (y ∷ ys) + 1) (edit (x ∷ xs) ys + 1) (edit xs ys + cost)) [
      | inl h ↦
          recount _ _ (suc (edit xs (y ∷ ys))) _ (omega (arith, h))
            (delete x (edit-Edits xs (y ∷ ys)))
      | inr (inl h) ↦
          recount _ _ (suc (edit (x ∷ xs) ys)) _ (omega (arith, h))
            (insert y (edit-Edits (x ∷ xs) ys))
      | inr (inr h) ↦ elim (Bool-cases (eqb x y)) [
        | inl same ↦ recount _ _ (edit xs ys) _ (ground (arith, h, same)) (
            subst (λ z. Edits (x ∷ xs) (z ∷ ys) (edit xs ys)) ((eqb_iff x y).0 same)
              (keep x (edit-Edits xs ys)))
        | inr apart ↦
            recount _ _ (suc (edit xs ys)) _ (ground (arith, h, apart))
              (replace x y (edit-Edits xs ys))
      ]
    ]

-- The list backwards, before `acc`.
unfoldable pub rev_onto : List ℕ → List ℕ → List ℕ
rev_onto acc [] = acc
rev_onto acc (x ∷ xs) = rev_onto (x ∷ acc) xs

Edits-rev_onto :
    (xs ys acc acc' : List ℕ) (k j : ℕ)
    → Edits xs ys k
    → Edits acc acc' j
    → Edits (rev_onto acc xs) (rev_onto acc' ys) (k + j)
unfolding rev_onto
Edits-rev_onto _ _ acc acc' _ j done f = recount _ _ j _ (omega arith) f
Edits-rev_onto _ _ acc acc' _ j (keep {xs = xs} {ys = ys} {k = k} x e) f =
    Edits-rev_onto xs ys (x ∷ acc) (x ∷ acc') k j e (keep x f)
Edits-rev_onto _ _ acc acc' _ j (delete {xs = xs} {ys = ys} {k = k} x e) f =
    recount _ _ (k + suc j) _ (omega arith)
      (Edits-rev_onto xs ys (x ∷ acc) acc' k (suc j) e (delete x f))
Edits-rev_onto _ _ acc acc' _ j (insert {xs = xs} {ys = ys} {k = k} y e) f =
    recount _ _ (k + suc j) _ (omega arith)
      (Edits-rev_onto xs ys acc (y ∷ acc') k (suc j) e (insert y f))
Edits-rev_onto _ _ acc acc' _ j (replace {xs = xs} {ys = ys} {k = k} x y e) f =
    recount _ _ (k + suc j) _ (omega arith)
      (Edits-rev_onto xs ys (x ∷ acc) (y ∷ acc') k (suc j) e (replace x y f))

rev_onto-rev_onto : (xs acc b : List ℕ) → rev_onto acc (rev_onto b xs) ≡ rev_onto (xs ++ acc) b
unfolding rev_onto
rev_onto-rev_onto [] acc b = refl
rev_onto-rev_onto (x ∷ xs) acc b = rev_onto-rev_onto xs acc (x ∷ b)

rev_rev : (xs : List ℕ) → rev_onto [] (rev_onto [] xs) ≡ xs
unfolding rev_onto
rev_rev xs = rev_onto-rev_onto xs [] [] ∙ append_nil xs

-- The least number of edits is the same backwards.
pub edit-rev : (xs ys : List ℕ) → edit (rev_onto [] xs) (rev_onto [] ys) ≡ edit xs ys
edit-rev xs ys =
    let one =
      edit-le (rev_onto [] xs) (rev_onto [] ys) (edit xs ys + 0)
        (Edits-rev_onto xs ys [] [] _ 0 (edit-Edits xs ys) done) in
    let there =
      Edits-rev_onto (rev_onto [] xs) (rev_onto [] ys) [] [] _ 0
        (edit-Edits (rev_onto [] xs) (rev_onto [] ys)) done in
    let back : Edits xs ys (edit (rev_onto [] xs) (rev_onto [] ys) + 0) =
      subst (λ l. Edits l ys (edit (rev_onto [] xs) (rev_onto [] ys) + 0)) (rev_rev xs)
        (subst
          (λ l. Edits (rev_onto [] (rev_onto [] xs)) l (edit (rev_onto [] xs) (rev_onto [] ys) + 0))
          (rev_rev ys) there) in
    omega (arith, one, edit-le xs ys _ back)

Edits-sym : (xs ys : List ℕ) (k : ℕ) → Edits xs ys k → Edits ys xs k
Edits-sym _ _ _ done = done
Edits-sym _ _ _ (keep {xs = xs} {ys = ys} {k = k} x e) = keep x (Edits-sym xs ys k e)
Edits-sym _ _ _ (delete {xs = xs} {ys = ys} {k = k} x e) = insert x (Edits-sym xs ys k e)
Edits-sym _ _ _ (insert {xs = xs} {ys = ys} {k = k} y e) = delete y (Edits-sym xs ys k e)
Edits-sym _ _ _ (replace {xs = xs} {ys = ys} {k = k} x y e) = replace y x (Edits-sym xs ys k e)

pub edit_comm : (xs ys : List ℕ) → edit xs ys ≡ edit ys xs
edit_comm xs ys = omega (
  arith,
  edit-le xs ys (edit ys xs) (Edits-sym ys xs _ (edit-Edits ys xs)),
  edit-le ys xs (edit xs ys) (Edits-sym xs ys _ (edit-Edits xs ys)),
)

length-Edits : (xs ys : List ℕ) (k : ℕ) → Edits xs ys k → length ys ≤ length xs + k
length-Edits _ _ _ done = omega arith
length-Edits _ _ _ (keep {xs = xs} {ys = ys} {k = k} x e) = omega (arith, length-Edits xs ys k e)
length-Edits _ _ _ (delete {xs = xs} {ys = ys} {k = k} x e) = omega (arith, length-Edits xs ys k e)
length-Edits _ _ _ (insert {xs = xs} {ys = ys} {k = k} y e) = omega (arith, length-Edits xs ys k e)
length-Edits _ _ _ (replace {xs = xs} {ys = ys} {k = k} x y e) =
    omega (arith, length-Edits xs ys k e)

pub length-edit : (xs ys : List ℕ) → length ys ≤ length xs + edit xs ys
length-edit xs ys = length-Edits xs ys _ (edit-Edits xs ys)

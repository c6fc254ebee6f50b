-- ===== src/Tx/Hamt/Children.antt =====
-- The child arrays of src/tx/hamt.rs, and which tries are well formed.
use uldb.Prelude.{
  ℕ, zero, suc, ◌+◌, ◌-◌, ◌≡◌, ◌≤◌, ◌<◌, Option, some, none, ltb, eqb, if◌then◌else◌, arith, refl,
  ap,
}
use uldb.Bytes.{bytes_eq}
use uldb.Storage.Fnv.{fnv1a}
use uldb.Word.{rank}
use uldb.Tx.Hamt.{
  Node, leaf, branch, Nodes, nil, cons, count, insert_at, set_at, remove_at, max_level,
}

unfoldable pub nth : ℕ → Nodes → Option Node
nth i nil = none
nth zero (cons n ns) = some n
nth (suc i) (cons n ns) = nth i ns

pub nth-insert_at :
    (i j : ℕ) (m : Node) (ns : Nodes)
    → i ≤ count ns
    → nth j (insert_at i m ns)
      ≡ (if ltb j i then nth j ns else if eqb j i then some m else nth (j - 1) ns)
unfolding nth insert_at count
nth-insert_at zero zero m ns h = refl
nth-insert_at zero (suc j) m ns h = ground arith
nth-insert_at (suc i) j m nil h = absurd (omega arith)
nth-insert_at (suc i) zero m (cons n ns) h = ground arith
nth-insert_at (suc i) (suc zero) m (cons n ns) h = ground (arith, nth-insert_at i zero m ns)
nth-insert_at (suc i) (suc (suc j)) m (cons n ns) h = ground (arith, nth-insert_at i (suc j) m ns)

pub nth-set_at :
    (i j : ℕ) (m : Node) (ns : Nodes)
    → i < count ns
    → nth j (set_at i m ns) ≡ (if eqb j i then some m else nth j ns)
unfolding nth set_at count
nth-set_at i j m nil h = absurd (omega arith)
nth-set_at zero zero m (cons n ns) h = refl
nth-set_at zero (suc j) m (cons n ns) h = ground arith
nth-set_at (suc i) zero m (cons n ns) h = ground arith
nth-set_at (suc i) (suc j) m (cons n ns) h = ground (arith, nth-set_at i j m ns)

pub nth-remove_at :
    (i j : ℕ) (ns : Nodes) → nth j (remove_at i ns) ≡ (if ltb j i then nth j ns else nth (j + 1) ns)
unfolding nth remove_at
nth-remove_at i j nil = ground arith
nth-remove_at zero j (cons n ns) = ground arith
nth-remove_at (suc i) zero (cons n ns) = ground arith
nth-remove_at (suc i) (suc j) (cons n ns) = ground (arith, nth-remove_at i j ns)

pub count-insert_at : (i : ℕ) (m : Node) (ns : Nodes) → count (insert_at i m ns) ≡ count ns + 1
unfolding insert_at count
count-insert_at zero m ns = omega arith
count-insert_at (suc i) m nil = omega arith
count-insert_at (suc i) m (cons n ns) = omega (arith, count-insert_at i m ns)

pub count-set_at : (i : ℕ) (m : Node) (ns : Nodes) → count (set_at i m ns) ≡ count ns
unfolding set_at count
count-set_at i m nil = refl
count-set_at zero m (cons n ns) = refl
count-set_at (suc i) m (cons n ns) = ap suc (count-set_at i m ns)

pub count-remove_at : (i : ℕ) (ns : Nodes) → i < count ns → count (remove_at i ns) + 1 ≡ count ns
unfolding remove_at count
count-remove_at i nil h = absurd (omega arith)
count-remove_at zero (cons n ns) h = omega arith
count-remove_at (suc i) (cons n ns) h = omega (arith, count-remove_at i ns)

pub nth-some : (i : ℕ) (ns : Nodes) → i < count ns → (n : Node) × (nth i ns ≡ some n)
unfolding nth count
nth-some i nil h = absurd (omega arith)
nth-some zero (cons n ns) h = (n, refl)
nth-some (suc i) (cons n ns) h = nth-some i ns (omega arith)

-- Every leaf has the hash of its key, a branch stands at level 12 or above in the tree, and it has
-- a child for each of the 32 bits that is set.
unfoldable mutual
  pub IsTrie : ℕ → Node → Type 0
  IsTrie level (leaf h k v) = h ≡ fnv1a k
  IsTrie level (branch bitmap children) =
      (level < max_level) × (count children ≡ rank bitmap 32) × AreTries (level + 1) children

  pub AreTries : ℕ → Nodes → Type 0
  AreTries level nil = Unit
  AreTries level (cons n ns) = IsTrie level n × AreTries level ns

pub AreTries-nth :
    (l i : ℕ) (ns : Nodes) (n : Node) → AreTries l ns → nth i ns ≡ some n → IsTrie l n
unfolding nth AreTries
AreTries-nth l i nil n a e = cc
AreTries-nth l zero (cons m ns) n a e = ground (arith, a.0, e)
AreTries-nth l (suc i) (cons m ns) n a e = AreTries-nth l i ns n a.1 e

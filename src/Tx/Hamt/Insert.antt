-- ===== src/Tx/Hamt/Insert.antt =====
-- Insertion into the trie (src/tx/hamt.rs).
use uldb.Prelude.{
  ℕ, zero, suc, ◌+◌, ◌-◌, ◌≡◌, ◌≤◌, ◌<◌, ◌≢◌, Option, some, none, ltb, eqb, if◌then◌else◌, ◌==◌,
  arith, refl, ◌∙◌, Bool-cases, inl, inr, Option-cases,
}
use uldb.Bytes.{Bytes, bytes_eq}
use uldb.Storage.Fnv.{fnv1a}
use uldb.Word.{
  test_bit, set_bit, rank, test_bit-le, test_bit-set_bit, rank-set_bit, rank-lt, rank_mono,
}
use uldb.Tx.Hamt.{
  Node, leaf, branch, Nodes, nil, cons, count, get_node, get_nth, max_level, bit_index, split_leaf,
  insert_at, set_at, insert_node, insert_nth,
}
use uldb.Tx.Hamt.Children.{
  nth, IsTrie, AreTries, nth-insert_at, nth-set_at, count-insert_at, count-set_at,
}
use uldb.Tx.Hamt.Split.{split_leaf_lem, get_leaf, get_branch, bit_index-lt}

abbrev pub get_in : ℕ → Bytes → ℕ → Option Node → Option (Option Bytes)
get_in hash j l none = none
get_in hash j l (some n) = get_node hash j l n

pub get_nth-nth :
    (hash : ℕ) (j : Bytes) (l i : ℕ) (ns : Nodes)
    → get_nth hash j l i ns ≡ get_in hash j l (nth i ns)
unfolding get_node nth
get_nth-nth hash j l i nil = refl
get_nth-nth hash j l zero (cons n ns) = refl
get_nth-nth hash j l (suc i) (cons n ns) = get_nth-nth hash j l i ns

AreTries-insert_at :
    (l i : ℕ) (m : Node) (ns : Nodes) → IsTrie l m → AreTries l ns → AreTries l (insert_at i m ns)
unfolding AreTries insert_at
AreTries-insert_at l zero m ns t a = (t, a)
AreTries-insert_at l (suc i) m nil t a = (t, tt)
AreTries-insert_at l (suc i) m (cons n ns) t a = (a.0, AreTries-insert_at l i m ns t a.1)

pub AreTries-set_at :
    (l i : ℕ) (m : Node) (ns : Nodes) → IsTrie l m → AreTries l ns → AreTries l (set_at i m ns)
unfolding AreTries set_at
AreTries-set_at l i m nil t a = tt
AreTries-set_at l zero m (cons n ns) t a = (t, a.1)
AreTries-set_at l (suc i) m (cons n ns) t a = (a.0, AreTries-set_at l i m ns t a.1)

-- What a lookup of `j` finds after `k` was set to `w`, where `none` is a removal.
abbrev pub updated : Bytes → Option Bytes → Bytes → Option (Option Bytes) → Option (Option Bytes)
updated k w j old = if k == j then some w else old

-- Every lookup in `n'` gives what it gave in `n`, but that of `k`, which gives `w`.
abbrev pub Updates : Bytes → Option Bytes → ℕ → Node → Node → Type 0
Updates k w l n n' =
    (j : Bytes) → get_node (fnv1a j) j l n' ≡ updated k w j (get_node (fnv1a j) j l n)

-- Two set bits of one bitmap have two places.
pub rank-ne : (bm i j : ℕ) → test_bit bm i ≡ 1 → test_bit bm j ≡ 1 → i ≢ j → rank bm i ≢ rank bm j
rank-ne bm i j ti tj ne e = elim (Bool-cases (ltb i j)) [
  | inl lt ↦ omega (arith, rank-lt bm i j (ground (arith, lt)) ti)
  | inr ge ↦ omega (arith, rank-lt bm j i (ground (arith, ge, ne)) tj)
]

module _ (k v : Bytes) (l bm : ℕ) (ns : Nodes) (low : l < max_level) (full : count ns ≡ rank bm 32)
    (tries : AreTries (l + 1) ns) where
  -- A new leaf in a free place of a branch.
  insert_new :
      test_bit bm (bit_index (fnv1a k) l) ≡ 0
      → let b = bit_index (fnv1a k) l in
        let n = branch (set_bit bm b) (insert_at (rank bm b) (leaf (fnv1a k) k v) ns) in
        IsTrie l n × Updates k (some v) l (branch bm ns) n
  insert_new free =
      let b = bit_index (fnv1a k) l in
      let new_leaf = leaf (fnv1a k) k v in
      let b32 = bit_index-lt (fnv1a k) l in
      let place : rank bm b ≤ count ns =
        omega (arith, rank_mono bm b 32 (omega (arith, b32)), full) in
      let tl : IsTrie (l + 1) new_leaf = unfold IsTrie in refl in
      (
        unfold IsTrie in
            (
              low,
              ground (
                arith,
                count-insert_at (rank bm b) new_leaf ns,
                rank-set_bit bm b 32 free,
                b32,
                full,
              ),
              AreTries-insert_at (l + 1) (rank bm b) new_leaf ns tl tries,
            ),
        λ j.
            let c = bit_index (fnv1a j) l in
            get_branch (fnv1a j) j l (set_bit bm b) _ low
            ∙ ground (
              arith,
              get_branch (fnv1a j) j l bm ns low,
              test_bit-set_bit bm b c,
              test_bit-le bm c,
              rank-set_bit bm b c free,
              bytes_eq.beq_iff k j,
              get_nth-nth (fnv1a j) j (l + 1) (rank bm c) ns,
              get_nth-nth (fnv1a j) j (l + 1) (rank (set_bit bm b) c)
                  (insert_at (rank bm b) new_leaf ns),
              nth-insert_at (rank bm b) (rank (set_bit bm b) c) new_leaf ns place,
              get_leaf (fnv1a j) j (l + 1) (fnv1a k) k v,
              free,
              λ (h : b < c). rank_mono bm b c (omega arith),
              λ (h : c < b) (s : test_bit bm c ≡ 1). rank-lt bm c b h s,
            ),
      )

-- A branch whose child on the path of `k` was updated.
module _ (k : Bytes) (w : Option Bytes) (l bm : ℕ) (ns : Nodes) (low : l < max_level)
    (full : count ns ≡ rank bm 32) (tries : AreTries (l + 1) ns) where
  pub replace_child :
      (old child : Node)
      → test_bit bm (bit_index (fnv1a k) l) ≡ 1
      → nth (rank bm (bit_index (fnv1a k) l)) ns ≡ some old
      → IsTrie (l + 1) child
      → Updates k w (l + 1) old child
      → let n = branch bm (set_at (rank bm (bit_index (fnv1a k) l)) child ns) in
        IsTrie l n × Updates k w l (branch bm ns) n
  replace_child old child used at t law =
      let b = bit_index (fnv1a k) l in
      let b32 = bit_index-lt (fnv1a k) l in
      let place : rank bm b < count ns = omega (arith, rank-lt bm b 32 b32 used, full) in
      (
        unfold IsTrie in
            (
              low,
              count-set_at (rank bm b) child ns ∙ full,
              AreTries-set_at (l + 1) (rank bm b) child ns t tries,
            ),
        λ j.
            let c = bit_index (fnv1a j) l in
            get_branch (fnv1a j) j l bm _ low
            ∙ ground (
              arith,
              get_branch (fnv1a j) j l bm ns low,
              test_bit-le bm c,
              bytes_eq.beq_iff k j,
              get_nth-nth (fnv1a j) j (l + 1) (rank bm c) ns,
              get_nth-nth (fnv1a j) j (l + 1) (rank bm c) (set_at (rank bm b) child ns),
              nth-set_at (rank bm b) (rank bm c) child ns place,
              at,
              used,
              law j,
              λ (s : test_bit bm c ≡ 1) (ne : c ≢ b). rank-ne bm c b s used ne,
            ),
      )

insert_leaf :
    (k v : Bytes) (l h : ℕ) (ok ov : Bytes) (n' : Node)
    → l ≤ max_level
    → insert_node (fnv1a k) k v l (leaf h ok ov) ≡ some n'
    → IsTrie l (leaf h ok ov)
    → IsTrie l n' × Updates k (some v) l (leaf h ok ov) n'
insert_leaf k v l h ok ov n' le e t =
    let hash : h ≡ fnv1a ok = unfold IsTrie in t in
    elim (Bool-cases (ok == k)) [
      | inl same ↦
          let shape : n' ≡ leaf (fnv1a k) k v = unfold insert_node in ground (arith, e, same) in
          rw shape (
            unfold IsTrie in refl,
            λ j. ground (
              arith,
              get_leaf (fnv1a j) j l (fnv1a k) k v,
              get_leaf (fnv1a j) j l h ok ov,
              same,
              bytes_eq.beq_iff ok k,
            ),
          )
      | inr different ↦
          let split : split_leaf (max_level - l) l (fnv1a ok) ok ov (fnv1a k) k v ≡ some n' =
            unfold insert_node in ground (arith, e, different, hash) in
          let (t', law) =
            split_leaf_lem ok ov k v different (max_level - l) l n' (omega arith) split in
          (t', λ j. law j ∙ ground (arith, get_leaf (fnv1a j) j l h ok ov))
    ]

-- The new child on the path of `k`, by the induction hypothesis.
abbrev Descends : Bytes → Bytes → ℕ → ℕ → Nodes → Type 0
Descends k v l i ns =
    (child : Node)
    → l ≤ max_level
    → insert_nth (fnv1a k) k v l i ns ≡ some child
    → AreTries l ns
    → (old : Node) × (nth i ns ≡ some old) × IsTrie l child × Updates k (some v) l old child

insert_branch :
    (k v : Bytes) (l bm : ℕ) (ns : Nodes) (n' : Node)
    → insert_node (fnv1a k) k v l (branch bm ns) ≡ some n'
    → IsTrie l (branch bm ns)
    → Descends k v (l + 1) (rank bm (bit_index (fnv1a k) l)) ns
    → IsTrie l n' × Updates k (some v) l (branch bm ns) n'
insert_branch k v l bm ns n' e t ih =
    let b = bit_index (fnv1a k) l in
    let i = rank bm b in
    let parts : (l < max_level) × (count ns ≡ rank bm 32) × AreTries (l + 1) ns =
      unfold IsTrie in t in
    let (low, full, tries) = parts in
    elim (Bool-cases (eqb (test_bit bm b) 0)) [
      | inl free ↦
          let shape : n' ≡ branch (set_bit bm b) (insert_at i (leaf (fnv1a k) k v) ns) =
            unfold insert_node in ground (arith, e, free, low) in
          rw shape (insert_new k v l bm ns low full tries (ground (arith, free)))
      | inr used ↦ elim (Option-cases (insert_nth (fnv1a k) k v (l + 1) i ns)) [
        | inl dead ↦ absurd (unfold insert_node in ground (arith, e, used, dead, low))
        | inr f ↦
            let shape : n' ≡ branch bm (set_at i f.0 ns) =
              unfold insert_node in ground (arith, e, used, f.1, low) in
            let (old, at, tc, law) = ih f.0 (omega (arith, low)) f.1 tries in
            rw shape (
              replace_child k (some v) l bm ns low full tries old f.0
                (ground (arith, used, test_bit-le bm b)) at tc law)
      ]
    ]

mutual
  unfolding insert_node AreTries nth

  pub insert_node_lem :
      (k v : Bytes) (l : ℕ) (n n' : Node)
      → l ≤ max_level
      → insert_node (fnv1a k) k v l n ≡ some n'
      → IsTrie l n
      → IsTrie l n' × Updates k (some v) l n n'
  insert_node_lem k v l (leaf h ok ov) n' le e t = insert_leaf k v l h ok ov n' le e t
  insert_node_lem k v l (branch bm ns) n' le e t =
      insert_branch k v l bm ns n' e t
        (insert_nth_lem k v (l + 1) (rank bm (bit_index (fnv1a k) l)) ns)

  pub insert_nth_lem :
      (k v : Bytes) (l i : ℕ) (ns : Nodes) (child : Node)
      → l ≤ max_level
      → insert_nth (fnv1a k) k v l i ns ≡ some child
      → AreTries l ns
      → (old : Node) × (nth i ns ≡ some old) × IsTrie l child × Updates k (some v) l old child
  insert_nth_lem k v l i nil child le e a = cc
  insert_nth_lem k v l zero (cons n ns) child le e a =
      let (t, law) = insert_node_lem k v l n child le e a.0 in (n, refl, t, law)
  insert_nth_lem k v l (suc i) (cons n ns) child le e a = insert_nth_lem k v l i ns child le e a.1

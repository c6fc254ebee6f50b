-- ===== src/Tx/Hamt/Remove.antt =====
-- Removal from the trie (src/tx/hamt.rs), and lookups that always return.
use uldb.Prelude.{
  ℕ, zero, suc, ◌+◌, ◌≡◌, ◌<◌, ◌≢◌, Option, some, none, eqb, ◌==◌, arith, refl, ◌∙◌, Bool-cases,
  inl, inr, ==_refl,
}
use uldb.Bytes.{Bytes, bytes_eq}
use uldb.Storage.Fnv.{fnv1a}
use uldb.Word.{test_bit, clear_bit, rank, test_bit-le, test_bit-clear_bit, rank-clear_bit, rank-lt}
use uldb.Tx.Hamt.{
  Node, leaf, branch, Nodes, nil, cons, count, get_node, get_nth, max_level, bit_index, set_at,
  remove_at, remove_node, remove_nth, shrink,
}
use uldb.Tx.Hamt.Children.{nth, IsTrie, AreTries, nth-remove_at, count-remove_at}
use uldb.Tx.Hamt.Split.{get_leaf, get_branch, bit_index-lt}
use uldb.Tx.Hamt.Insert.{get_nth-nth, updated, Updates, rank-ne, replace_child}

mutual
  unfolding get_node IsTrie count

  -- A lookup in a trie never panics.
  pub get_node_total :
      (hash : ℕ) (j : Bytes) (l : ℕ) (n : Node)
      → IsTrie l n
      → (r : Option Bytes) × (get_node hash j l n ≡ some r)
  get_node_total hash j l (leaf h k v) t = (_, refl)
  get_node_total hash j l (branch bm ns) t =
      let b = bit_index hash l in
      elim (Bool-cases (eqb (test_bit bm b) 0)) [
        | inl free ↦ (none, ground (arith, free, t.0))
        | inr used ↦
            let place : rank bm b < count ns = omega (
              arith,
              rank-lt bm b 32 (bit_index-lt hash l) (ground (arith, used, test_bit-le bm b)),
              t.1,
            ) in
            let (r, e) = get_nth_total hash j (l + 1) (rank bm b) ns place t.2 in
            (r, ground (arith, used, e, t.0))
      ]

  pub get_nth_total :
      (hash : ℕ) (j : Bytes) (l i : ℕ) (ns : Nodes)
      → i < count ns
      → AreTries l ns
      → (r : Option Bytes) × (get_nth hash j l i ns ≡ some r)
  get_nth_total hash j l i nil h a = absurd (omega arith)
  get_nth_total hash j l zero (cons n ns) h a = get_node_total hash j l n a.0
  get_nth_total hash j l (suc i) (cons n ns) h a = get_nth_total hash j l i ns (omega arith) a.1

AreTries-remove_at : (l i : ℕ) (ns : Nodes) → AreTries l ns → AreTries l (remove_at i ns)
unfolding AreTries remove_at
AreTries-remove_at l i nil a = tt
AreTries-remove_at l zero (cons n ns) a = a.1
AreTries-remove_at l (suc i) (cons n ns) a = (a.0, AreTries-remove_at l i ns a.1)

-- What is left of `n` without `k`: nothing, if no other key is found in it, or a trie.
abbrev pub Without : Bytes → ℕ → Node → Option Node → Type 0
Without k l n none = (j : Bytes) → some none ≡ updated k none j (get_node (fnv1a j) j l n)
Without k l n (some n') = IsTrie l n' × Updates k none l n n'

-- A removal returns, without a panic, and leaves what it should.
abbrev pub Removes : Bytes → ℕ → Node → Option (Option Node) → Type 0
Removes k l n out = (r : Option Node) × (out ≡ some r) × Without k l n r

module _ (k : Bytes) (l bm : ℕ) (ns : Nodes) (low : l < max_level) (full : count ns ≡ rank bm 32)
    (tries : AreTries (l + 1) ns) (used : test_bit bm (bit_index (fnv1a k) l) ≡ 1) (old : Node)
    (at : nth (rank bm (bit_index (fnv1a k) l)) ns ≡ some old)
    (gone : Without k (l + 1) old none) where
  -- The child on the path of `k` went away, and it was the only one.
  last_child : count ns ≡ 1 → Without k l (branch bm ns) none
  last_child one j =
      let b = bit_index (fnv1a k) l in
      let c = bit_index (fnv1a j) l in
      let b32 = bit_index-lt (fnv1a k) l in
      let c32 = bit_index-lt (fnv1a j) l in
      ground (
        arith,
        get_branch (fnv1a j) j l bm ns low,
        test_bit-le bm c,
        bytes_eq.beq_iff k j,
        used,
        at,
        gone j,
        get_nth-nth (fnv1a j) j (l + 1) (rank bm c) ns,
        one,
        full,
        λ (s : test_bit bm c ≡ 1) (ne : c ≢ b). rank-ne bm c b s used ne,
        λ (s : test_bit bm c ≡ 1). rank-lt bm c 32 c32 s,
        rank-lt bm b 32 b32 used,
      )

  -- It went away, and other children stay.
  drop_child :
      let n =
        branch
          (clear_bit bm (bit_index (fnv1a k) l))
          (remove_at (rank bm (bit_index (fnv1a k) l)) ns) in
      IsTrie l n × Updates k none l (branch bm ns) n
  drop_child =
      let b = bit_index (fnv1a k) l in
      let b32 = bit_index-lt (fnv1a k) l in
      let place : rank bm b < count ns = omega (arith, rank-lt bm b 32 b32 used, full) in
      (
        unfold IsTrie in
            (
              low,
              ground (
                arith,
                count-remove_at (rank bm b) ns place,
                rank-clear_bit bm b 32 used,
                b32,
                full,
              ),
              AreTries-remove_at (l + 1) (rank bm b) ns tries,
            ),
        λ j.
            let c = bit_index (fnv1a j) l in
            get_branch (fnv1a j) j l (clear_bit bm b) _ low
            ∙ ground (
              arith,
              get_branch (fnv1a j) j l bm ns low,
              test_bit-clear_bit bm b c,
              test_bit-le bm c,
              rank-clear_bit bm b c used,
              bytes_eq.beq_iff k j,
              used,
              at,
              gone j,
              get_nth-nth (fnv1a j) j (l + 1) (rank bm c) ns,
              get_nth-nth (fnv1a j) j (l + 1) (rank (clear_bit bm b) c) (remove_at (rank bm b) ns),
              nth-remove_at (rank bm b) (rank (clear_bit bm b) c) ns,
              λ (h : b < c). rank-lt bm b c h used,
              λ (h : c < b) (s : test_bit bm c ≡ 1). rank-lt bm c b h s,
            ),
      )

remove_leaf :
    (k : Bytes) (l h : ℕ) (ok ov : Bytes)
    → IsTrie l (leaf h ok ov)
    → Removes k l (leaf h ok ov) (remove_node (fnv1a k) k l (leaf h ok ov))
remove_leaf k l h ok ov t = elim (Bool-cases (ok == k)) [
  | inl same ↦ (
    none,
    unfold remove_node in ground (arith, same),
    λ j. ground (arith, get_leaf (fnv1a j) j l h ok ov, same, bytes_eq.beq_iff ok k),
  )
  | inr other ↦ (
    some (leaf h ok ov),
    unfold remove_node in ground (arith, other),
    (
      t,
      λ j. ground (
        arith,
        get_leaf (fnv1a j) j l h ok ov,
        other,
        bytes_eq.beq_iff ok j,
        bytes_eq.beq_iff k j,
        bytes_eq.beq_iff ok k,
        ==_refl j,
      ),
    ),
  )
]

remove_branch :
    (k : Bytes) (l bm : ℕ) (ns : Nodes)
    → IsTrie l (branch bm ns)
    → (rank bm (bit_index (fnv1a k) l) < count ns
        → AreTries (l + 1) ns
        → (old : Node) × (nth (rank bm (bit_index (fnv1a k) l)) ns ≡ some old)
          × Removes k
              (l + 1)
              old
              (remove_nth (fnv1a k) k (l + 1) (rank bm (bit_index (fnv1a k) l)) ns))
    → Removes k l (branch bm ns) (remove_node (fnv1a k) k l (branch bm ns))
remove_branch k l bm ns t ih =
    let b = bit_index (fnv1a k) l in
    let i = rank bm b in
    let parts : (l < max_level) × (count ns ≡ rank bm 32) × AreTries (l + 1) ns =
      unfold IsTrie in t in
    let (low, full, tries) = parts in
    elim (Bool-cases (eqb (test_bit bm b) 0)) [
      | inl free ↦ (
        some (branch bm ns),
        unfold remove_node in ground (arith, free, low),
        (t, λ j. ground (arith, get_branch (fnv1a j) j l bm ns low, free, bytes_eq.beq_iff k j)),
      )
      | inr taken ↦
          let used : test_bit bm b ≡ 1 = ground (arith, taken, test_bit-le bm b) in
          let place : i < count ns =
            omega (arith, rank-lt bm b 32 (bit_index-lt (fnv1a k) l) used, full) in
          let (old, at, rem) = ih place tries in
          let out : (r : Option Node) × (remove_nth (fnv1a k) k (l + 1) i ns ≡ some r)
              × Without k (l + 1) old r =
            rem in
          let (r, e, w) = out in rest r e old at used w low full tries
    ]
  where
    rest :
        (r : Option Node)
        → remove_nth (fnv1a k) k (l + 1) (rank bm (bit_index (fnv1a k) l)) ns ≡ some r
        → (old : Node) → nth (rank bm (bit_index (fnv1a k) l)) ns ≡ some old
        → test_bit bm (bit_index (fnv1a k) l) ≡ 1
        → Without k (l + 1) old r
        → l < max_level
        → count ns ≡ rank bm 32
        → AreTries (l + 1) ns
        → Removes k l (branch bm ns) (remove_node (fnv1a k) k l (branch bm ns))
    rest none e old at used w low full tries = elim (Bool-cases (eqb (count ns) 1)) [
      | inl one ↦ (
        none,
        unfold remove_node shrink in ground (arith, e, used, low, one),
        last_child k l bm ns low full tries used old at w (ground (arith, one)),
      )
      | inr more ↦ (
        some (
            branch (clear_bit bm (bit_index (fnv1a k) l))
              (remove_at (rank bm (bit_index (fnv1a k) l)) ns)),
        unfold remove_node shrink in ground (arith, e, used, low, more),
        drop_child k l bm ns low full tries used old at w,
      )
    ]
    rest (some child) e old at used w low full tries = (
      some (branch bm (set_at (rank bm (bit_index (fnv1a k) l)) child ns)),
      unfold remove_node shrink in ground (arith, e, used, low),
      replace_child k none l bm ns low full tries old child used at w.0 w.1,
    )

mutual
  unfolding remove_node AreTries nth count

  -- A removal from a trie never panics. It leaves nothing where no other key was, and otherwise a
  -- trie in which `k` is not found and every other key is found as before.
  pub remove_node_lem :
      (k : Bytes) (l : ℕ) (n : Node) → IsTrie l n → Removes k l n (remove_node (fnv1a k) k l n)
  remove_node_lem k l (leaf h ok ov) t = remove_leaf k l h ok ov t
  remove_node_lem k l (branch bm ns) t =
      remove_branch k l bm ns t (remove_nth_lem k (l + 1) (rank bm (bit_index (fnv1a k) l)) ns)

  pub remove_nth_lem :
      (k : Bytes) (l i : ℕ) (ns : Nodes)
      → i < count ns
      → AreTries l ns
      → (old : Node) × (nth i ns ≡ some old) × Removes k l old (remove_nth (fnv1a k) k l i ns)
  remove_nth_lem k l i nil h a = absurd (omega arith)
  remove_nth_lem k l zero (cons n ns) h a = (n, refl, remove_node_lem k l n a.0)
  remove_nth_lem k l (suc i) (cons n ns) h a = remove_nth_lem k l i ns (omega arith) a.1

-- ===== src/Tx/Hamt/Split.antt =====
-- Two keys that meet in one leaf of the trie (src/tx/hamt.rs).
use uldb.Prelude.{
  ℕ, zero, suc, ◌+◌, ◌≡◌, ◌<◌, ◌≢◌, some, none, false, ltb, eqb, if◌then◌else◌, ◌==◌, arith, refl,
  ◌∙◌, Bool-cases, inl, inr, Option-cases,
}
use uldb.Bytes.{Bytes, bytes_eq}
use uldb.Storage.Fnv.{fnv1a}
use uldb.Word.{test_bit, set_bit, rank, test_bit-set_bit, rank-set_bit}
use uldb.Tx.Hamt.{
  Node, leaf, branch, Nodes, nil, cons, count, get_node, get_nth, max_level, bit_index, one_bit,
  pair_branch, split_leaf,
}
use uldb.Tx.Hamt.Children.{IsTrie}

pub test_zero : (i : ℕ) → test_bit 0 i ≡ 0
unfolding test_bit
test_zero zero = refl
test_zero (suc i) = test_zero i

pub rank_zero : (i : ℕ) → rank 0 i ≡ 0
unfolding rank
rank_zero zero = refl
rank_zero (suc i) = omega (arith, rank_zero i)

pub bit_index-lt : (h l : ℕ) → bit_index h l < 32
unfolding bit_index
bit_index-lt h l = omega arith

-- What a lookup finds at a leaf.
pub get_leaf :
    (hash : ℕ) (j : Bytes) (l h : ℕ) (k v : Bytes)
    → get_node hash j l (leaf h k v) ≡ some (if k == j then some v else none)
unfolding get_node
get_leaf hash j l h k v = refl

pub get_branch :
    (hash : ℕ) (j : Bytes) (l bm : ℕ) (ns : Nodes)
    → l < max_level
    → get_node hash j l (branch bm ns) ≡ (
        if eqb (test_bit bm (bit_index hash l)) 0
        then some none
        else get_nth hash j (l + 1) (rank bm (bit_index hash l)) ns)
unfolding get_node
get_branch hash j l bm ns h = ground arith

get-single :
    (hash : ℕ) (j : Bytes) (l b : ℕ) (d : Node)
    → l < max_level
    → get_node hash j l (branch (one_bit b) (cons d nil))
      ≡ (if eqb (bit_index hash l) b then get_node hash j (l + 1) d else some none)
get-single hash j l b d h =
    let c = bit_index hash l in
    get_branch hash j l (one_bit b) (cons d nil) h
    ∙ unfold get_node in
      ground
        (arith, test_bit-set_bit 0 b c, rank-set_bit 0 b c (test_zero b), test_zero c, rank_zero c)

get-pair :
    (hash : ℕ) (j : Bytes) (l a b : ℕ) (x y : Node)
    → l < max_level
    → a ≢ b
    → get_node hash j l (pair_branch a b x y) ≡ (
        if eqb (bit_index hash l) a
        then get_node hash j (l + 1) x
        else if eqb (bit_index hash l) b
        then get_node hash j (l + 1) y
        else some none)
unfolding pair_branch
get-pair hash j l a b x y h ne =
    let c = bit_index hash l in
    let bm = set_bit (one_bit a) b in
    let free : test_bit (one_bit a) b ≡ 0 = ground (arith, test_bit-set_bit 0 a b, test_zero b) in
    get_branch hash j l bm _ h
    ∙ unfold get_node in
      ground (
        arith,
        test_bit-set_bit (one_bit a) b c,
        test_bit-set_bit 0 a c,
        test_zero c,
        rank-set_bit (one_bit a) b c free,
        rank-set_bit 0 a c (test_zero a),
        rank_zero c,
        ne,
      )

IsTrie-single :
    (l a : ℕ) (d : Node)
    → l < max_level
    → a < 32
    → IsTrie (l + 1) d
    → IsTrie l (branch (one_bit a) (cons d nil))
unfolding IsTrie count
IsTrie-single l a d h b t =
    (h, ground (arith, rank-set_bit 0 a 32 (test_zero a), rank_zero 32), (t, tt))

IsTrie-pair :
    (l a b : ℕ) (x y : Node)
    → l < max_level
    → a < 32
    → b < 32
    → a ≢ b
    → IsTrie (l + 1) x
    → IsTrie (l + 1) y
    → IsTrie l (pair_branch a b x y)
unfolding pair_branch
IsTrie-pair l a b x y h ba bb ne tx ty =
    let free : test_bit (one_bit a) b ≡ 0 = ground (arith, test_bit-set_bit 0 a b, test_zero b) in
    let two : 2 ≡ rank (set_bit (one_bit a) b) 32 = ground (
      arith,
      rank-set_bit (one_bit a) b 32 free,
      rank-set_bit 0 a 32 (test_zero a),
      rank_zero 32,
    ) in
    elim (Bool-cases (ltb a b)) [
      | inl e ↦ rw e (unfold IsTrie count in (h, two, (tx, (ty, tt))))
      | inr e ↦ rw e (unfold IsTrie count in (h, two, (ty, (tx, tt))))
    ]

module _ (ok ov k v : Bytes) (different : (ok == k) ≡ false) where
  -- The branches that hold two leaves form a trie in which both keys, and no other, are found.
  pub split_leaf_lem :
      (rounds level : ℕ) (n : Node)
      → rounds + level ≡ max_level
      → split_leaf rounds level (fnv1a ok) ok ov (fnv1a k) k v ≡ some n
      → IsTrie level n
        × ((j : Bytes)
            → get_node (fnv1a j) j level n
              ≡ some (if k == j then some v else if ok == j then some ov else none))
  unfolding split_leaf
  split_leaf_lem zero level n r e = cc
  split_leaf_lem (suc rounds) level n r e =
      let a = bit_index (fnv1a ok) level in
      let b = bit_index (fnv1a k) level in
      elim (Bool-cases (eqb a b)) [
        | inl same ↦
            elim (Option-cases (split_leaf rounds (level + 1) (fnv1a ok) ok ov (fnv1a k) k v)) [
              | inl dead ↦ absurd (ground (arith, e, same, dead))
              | inr f ↦
                  let (t, g) = split_leaf_lem rounds (level + 1) f.0 (omega arith) f.1 in
                  let shape : n ≡ branch (one_bit a) (cons f.0 nil) =
                    ground (arith, e, same, f.1) in
                  rw shape (
                    IsTrie-single level a f.0 (omega arith) (bit_index-lt (fnv1a ok) level) t,
                    λ j.
                        get-single (fnv1a j) j level a f.0 (omega arith)
                        ∙ ground (arith, g j, same, bytes_eq.beq_iff k j, bytes_eq.beq_iff ok j),
                  )
            ]
        | inr apart ↦
            let shape : n ≡ pair_branch a b (leaf (fnv1a ok) ok ov) (leaf (fnv1a k) k v) =
              ground (arith, e, apart) in
            rw shape (
              IsTrie-pair level a b _ _ (omega arith) (bit_index-lt (fnv1a ok) level)
                  (bit_index-lt (fnv1a k) level) (ground (arith, apart)) (unfold IsTrie in refl)
                  (unfold IsTrie in refl),
              λ j.
                  get-pair (fnv1a j) j level a b _ _ (omega arith) (ground (arith, apart))
                  ∙ ground (
                    arith,
                    get_leaf (fnv1a j) j (level + 1) (fnv1a ok) ok ov,
                    get_leaf (fnv1a j) j (level + 1) (fnv1a k) k v,
                    different,
                    bytes_eq.beq_iff k j,
                    bytes_eq.beq_iff ok j,
                    bytes_eq.beq_iff ok k,
                  ),
            )
      ]

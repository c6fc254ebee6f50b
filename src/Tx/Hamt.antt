-- ===== src/Tx/Hamt.antt =====
-- src/tx/hamt.rs: the persistent hash trie. Nodes are values, so every version stays as it was.
-- `none` is a panic: a shift by 64 bits or more (below level 12), or an index out of bounds.
pub mod Children
pub mod Split
pub mod Insert
pub mod Remove
pub mod Map
use uldb.Prelude.{
  ℕ, zero, suc, ◌+◌, ◌-◌, ◌*◌, ◌/◌, ◌%◌, ◌^◌, List, [], ◌∷◌, ◌++◌, Option, some, none, Bool, true,
  false, ltb, leb, eqb, if◌then◌else◌, ◌==◌,
}
use uldb.Bytes.{Bytes, bytes_eq}
use uldb.Storage.Fnv.{fnv1a}
use uldb.Word.{test_bit, set_bit, clear_bit, rank}

mutual
  pub data Node : Type 0 where
    leaf : ℕ → Bytes → Bytes → Node
    branch : ℕ → Nodes → Node

  pub data Nodes : Type 0 where
    nil : Nodes
    cons : Node → Nodes → Nodes

-- Thirteen levels of five bits use up the 64 bits of a hash.
abbrev pub max_level : ℕ
max_level = 13

-- `(hash >> (level * 5)) & 31`, where the shift is below 64.
unfoldable pub bit_index : ℕ → ℕ → ℕ
bit_index hash level = hash / 2 ^ (level * 5) % 32

-- `1 << bit`
abbrev pub one_bit : ℕ → ℕ
one_bit bit = set_bit 0 bit

unfoldable pub count : Nodes → ℕ
count nil = 0
count (cons n ns) = suc (count ns)

-- `Vec::insert`, where the index is at most the length.
unfoldable pub insert_at : ℕ → Node → Nodes → Nodes
insert_at zero m ns = cons m ns
insert_at (suc i) m nil = cons m nil
insert_at (suc i) m (cons n ns) = cons n (insert_at i m ns)

-- `children[idx] = child`
unfoldable pub set_at : ℕ → Node → Nodes → Nodes
set_at i m nil = nil
set_at zero m (cons n ns) = cons m ns
set_at (suc i) m (cons n ns) = cons n (set_at i m ns)

-- `Vec::remove`
unfoldable pub remove_at : ℕ → Nodes → Nodes
remove_at i nil = nil
remove_at zero (cons n ns) = ns
remove_at (suc i) (cons n ns) = cons n (remove_at i ns)

-- One round of the loop of `get` for each level. The outer `none` is a panic.
unfoldable mutual
  pub get_node : ℕ → Bytes → ℕ → Node → Option (Option Bytes)
  get_node hash key level (leaf h k v) = some (if k == key then some v else none)
  get_node hash key level (branch bitmap children) =
      let bit = bit_index hash level in
      let below = get_nth hash key (level + 1) (rank bitmap bit) children in
      if ltb level max_level
      then (if eqb (test_bit bitmap bit) 0 then some none else below)
      else none

  pub get_nth : ℕ → Bytes → ℕ → ℕ → Nodes → Option (Option Bytes)
  get_nth hash key level i nil = none
  get_nth hash key level zero (cons n ns) = get_node hash key level n
  get_nth hash key level (suc i) (cons n ns) = get_nth hash key level i ns

-- The two new leaves' branch, the lower bit first.
unfoldable pub pair_branch : ℕ → ℕ → Node → Node → Node
pair_branch old_bit new_bit old_leaf new_leaf = branch (set_bit (one_bit old_bit) new_bit) (
    if ltb old_bit new_bit
    then cons old_leaf (cons new_leaf nil)
    else cons new_leaf (cons old_leaf nil))

-- Two keys at one place: branches with one child as long as their bits agree. The rounds left are
-- the levels up to 12, after which the shift overflows.
unfoldable pub split_leaf : ℕ → ℕ → ℕ → Bytes → Bytes → ℕ → Bytes → Bytes → Option Node
unfolding pair_branch
split_leaf zero level old_hash old_key old_value hash key value = none
split_leaf (suc rounds) level old_hash old_key old_value hash key value =
    let old_bit = bit_index old_hash level in
    let new_bit = bit_index hash level in
    let deeper = split_leaf rounds (level + 1) old_hash old_key old_value hash key value in
    if eqb old_bit new_bit
    then elim deeper [ none ↦ none | some d ↦ some (branch (one_bit old_bit) (cons d nil)) ]
    else some (pair_branch old_bit new_bit (leaf old_hash old_key old_value) (leaf hash key value))

abbrev with_child : ℕ → ℕ → Nodes → Option Node → Option Node
with_child bitmap i children none = none
with_child bitmap i children (some child) = some (branch bitmap (set_at i child children))

unfoldable mutual
  pub insert_node : ℕ → Bytes → Bytes → ℕ → Node → Option Node
  insert_node hash key value level (leaf h k v) =
      if k == key
      then some (leaf hash key value)
      else split_leaf (max_level - level) level h k v hash key value
  insert_node hash key value level (branch bitmap children) =
      let bit = bit_index hash level in
      let i = rank bitmap bit in
      let child = insert_nth hash key value (level + 1) i children in
      if ltb level max_level
      then (if eqb (test_bit bitmap bit) 0
          then some (branch (set_bit bitmap bit) (insert_at i (leaf hash key value) children))
          else with_child bitmap i children child)
      else none

  -- The new version of the child at an index.
  pub insert_nth : ℕ → Bytes → Bytes → ℕ → ℕ → Nodes → Option Node
  insert_nth hash key value level i nil = none
  insert_nth hash key value level zero (cons n ns) = insert_node hash key value level n
  insert_nth hash key value level (suc i) (cons n ns) = insert_nth hash key value level i ns

-- What is left of a branch once its child at `i` became `child`, or went away.
unfoldable pub shrink : ℕ → ℕ → ℕ → Nodes → Option (Option Node) → Option (Option Node)
shrink bitmap bit i children none = none
shrink bitmap bit i children (some none) =
    if eqb (count children) 1
    then some none
    else some (some (branch (clear_bit bitmap bit) (remove_at i children)))
shrink bitmap bit i children (some (some child)) =
    some (some (branch bitmap (set_at i child children)))

unfoldable mutual
  pub remove_node : ℕ → Bytes → ℕ → Node → Option (Option Node)
  remove_node hash key level (leaf h k v) = some (if k == key then none else some (leaf h k v))
  remove_node hash key level (branch bitmap children) =
      let bit = bit_index hash level in
      let i = rank bitmap bit in
      let child = remove_nth hash key (level + 1) i children in
      if ltb level max_level
      then (if eqb (test_bit bitmap bit) 0
          then some (some (branch bitmap children))
          else shrink bitmap bit i children child)
      else none

  pub remove_nth : ℕ → Bytes → ℕ → ℕ → Nodes → Option (Option Node)
  remove_nth hash key level i nil = none
  remove_nth hash key level zero (cons n ns) = remove_node hash key level n
  remove_nth hash key level (suc i) (cons n ns) = remove_nth hash key level i ns

unfoldable mutual
  pub collect_leaves : Node → List (Bytes × Bytes)
  collect_leaves (leaf h k v) = (k, v) ∷ []
  collect_leaves (branch bitmap children) = collect_all children

  pub collect_all : Nodes → List (Bytes × Bytes)
  collect_all nil = []
  collect_all (cons n ns) = collect_leaves n ++ collect_all ns

pub record Hamt : Type 0 where
  pub root : Option Node
  pub len : ℕ

abbrev pub empty : Hamt
empty = record { root = none; len = 0 }

unfoldable pub get : Bytes → Hamt → Option (Option Bytes)
get key h = elim h.root [ none ↦ some none | some n ↦ get_node (fnv1a key) key 0 n ]

unfoldable pub insert_root : Bytes → Bytes → Option Node → Option Node
insert_root key value none = some (leaf (fnv1a key) key value)
insert_root key value (some n) = insert_node (fnv1a key) key value 0 n

abbrev grown : ℕ → Option Bytes → ℕ
grown len none = len + 1
grown len (some v) = len

unfoldable pub put : Bytes → Bytes → Hamt → Option Hamt
unfolding get insert_root
put key value h = elim (get key h) [
  | none ↦ none
  | some existed ↦ elim (insert_root key value h.root) [
    | none ↦ none
    | some n ↦ some (record { root = some n; len = grown h.len existed })
  ]
]

unfoldable pub remove_root : Bytes → Option Node → Option (Option Node)
remove_root key none = some none
remove_root key (some n) = remove_node (fnv1a key) key 0 n

unfoldable pub delete : Bytes → Hamt → Option Hamt
unfolding get remove_root
delete key h = elim (get key h) [
  | none ↦ none
  | some none ↦ some h
  | some (some v) ↦ elim (remove_root key h.root) [
    | none ↦ none
    | some root ↦ some (record { root = root; len = h.len - 1 })
  ]
]

unfoldable pub iter : Hamt → List (Bytes × Bytes)
unfolding collect_leaves
iter h = elim h.root [ none ↦ [] | some n ↦ collect_leaves n ]

unfoldable pub put_all : List (Bytes × Bytes) → Hamt → Option Hamt
unfolding put
put_all [] h = some h
put_all ((k, v) ∷ entries) h = elim (put k v h) [ none ↦ none | some h' ↦ put_all entries h' ]

unfoldable pub merge_from : Hamt → Hamt → Option Hamt
unfolding put_all iter
merge_from other h = put_all (iter other) h

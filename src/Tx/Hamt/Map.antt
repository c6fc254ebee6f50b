-- ===== src/Tx/Hamt/Map.antt =====
-- The laws of `PersistentHamt` (src/tx/hamt.rs) as a map from keys to values.
use uldb.Prelude.{
  ℕ, ◌-◌, ◌≡◌, Option, some, none, if◌then◌else◌, ◌==◌, arith, refl, inl, inr, Option-cases,
}
use uldb.Bytes.{Bytes, bytes_eq}
use uldb.Storage.Fnv.{fnv1a}
use uldb.Tx.Hamt.{
  Node, leaf, insert_node, remove_node, Hamt, get, put, delete, insert_root, remove_root,
}
use uldb.Tx.Hamt.Children.{IsTrie}
use uldb.Tx.Hamt.Split.{get_leaf}
use uldb.Tx.Hamt.Insert.{updated, insert_node_lem}
use uldb.Tx.Hamt.Remove.{Without, Removes, remove_node_lem, get_node_total}

-- The root, if there is one, is a well-formed trie of the first level.
unfoldable pub IsRooted : Option Node → Type 0
IsRooted none = Unit
IsRooted (some n) = IsTrie 0 n

unfoldable pub IsValid : Hamt → Type 0
IsValid h = IsRooted h.root

pub get_total : (k : Bytes) (h : Hamt) → IsValid h → (r : Option Bytes) × (get k h ≡ some r)
unfolding get IsValid IsRooted
get_total k h valid = at h.root valid
  where
    at :
        (root : Option Node)
        → IsRooted root
        → (r : Option Bytes) × (get k (record { root = root; len = h.len }) ≡ some r)
    at none v = (none, refl)
    at (some n) v = get_node_total (fnv1a k) k 0 n v

-- The new root of an insertion: `k` gives `v` in it, and every other key what it gave.
insert_root_lem :
    (k v : Bytes) (root : Option Node) (n : Node) (m m' : ℕ)
    → IsRooted root
    → insert_root k v root ≡ some n
    → IsTrie 0 n
      × ((j : Bytes)
          → get j (record { root = some n; len = m' })
            ≡ updated k (some v) j (get j (record { root = root; len = m })))
insert_root_lem k v none n m m' t e =
    let shape : n ≡ leaf (fnv1a k) k v = unfold insert_root in ground (arith, e) in
    rw shape (
      unfold IsTrie in refl,
      λ j. unfold get in ground (arith, get_leaf (fnv1a j) j 0 (fnv1a k) k v),
    )
insert_root_lem k v (some old) n m m' t e =
    let rooted : IsTrie 0 old = unfold IsRooted in t in
    let made : insert_node (fnv1a k) k v 0 old ≡ some n = unfold insert_root in e in
    let (t', law) = insert_node_lem k v 0 old n (omega arith) made rooted in
    (t', λ j. unfold get in law j)

-- An insertion that returns gives a valid trie in which `k` is `v` and the rest is as before.
pub get-put :
    (k v : Bytes) (h h' : Hamt)
    → IsValid h
    → put k v h ≡ some h'
    → IsValid h' × ((j : Bytes) → get j h' ≡ (if k == j then some (some v) else get j h))
get-put k v h h' valid e = elim (Option-cases (insert_root k v h.root)) [
  | inl dead ↦ absurd (unfold put in ground (arith, e, dead, (get_total k h valid).1))
  | inr f ↦
      let (existed, seen) = get_total k h valid in
      let shape : h' ≡ record { root = some f.0; len = h'.len } =
        unfold put in ground (arith, e, f.1, seen) in
      let rooted : IsRooted h.root = unfold IsValid in valid in
      let (t, law) = insert_root_lem k v h.root f.0 h.len h'.len rooted f.1 in
      rw shape (unfold IsValid IsRooted in t, law)
]

-- What is left of the root without `k`.
remove_root_lem :
    (k : Bytes) (root : Option Node) (m : ℕ)
    → IsRooted root
    → (r : Option Node) × (remove_root k root ≡ some r)
      × IsRooted r
      × ((j : Bytes) (m' : ℕ)
          → get j (record { root = r; len = m' })
            ≡ updated k none j (get j (record { root = root; len = m })))
remove_root_lem k none m t =
    (none, unfold remove_root in refl, t, λ j m'. unfold get in ground arith)
remove_root_lem k (some n) m t =
    let rooted : IsTrie 0 n = unfold IsRooted in t in
    let out : Removes k 0 n (remove_node (fnv1a k) k 0 n) = remove_node_lem k 0 n rooted in
    at out.0 out.1 out.2
  where
    at :
        (r : Option Node)
        → remove_node (fnv1a k) k 0 n ≡ some r
        → Without k 0 n r
        → (r : Option Node) × (remove_root k (some n) ≡ some r)
          × IsRooted r
          × ((j : Bytes) (m' : ℕ)
              → get j (record { root = r; len = m' })
                ≡ updated k none j (get j (record { root = some n; len = m })))
    at none e w = (none, unfold remove_root in e, unfold IsRooted in tt, λ j m'. unfold get in w j)
    at (some n') e w =
        (some n', unfold remove_root in e, unfold IsRooted in w.0, λ j m'. unfold get in w.1 j)

-- A deletion always returns: `k` is gone, and the rest is as before.
pub get-delete :
    (k : Bytes) (h : Hamt)
    → IsValid h
    → (h' : Hamt) × (delete k h ≡ some h')
      × IsValid h'
      × ((j : Bytes) → get j h' ≡ (if k == j then some none else get j h))
get-delete k h valid =
    let found : (r : Option Bytes) × (get k h ≡ some r) = get_total k h valid in at found.0 found.1
  where
    at :
        (r : Option Bytes)
        → get k h ≡ some r
        → (h' : Hamt) × (delete k h ≡ some h')
          × IsValid h'
          × ((j : Bytes) → get j h' ≡ (if k == j then some none else get j h))
    at none e =
        (h, unfold delete in ground (arith, e), valid, λ j. ground (arith, e, bytes_eq.beq_iff k j))
    at (some v) e =
        let rooted : IsRooted h.root = unfold IsValid in valid in
        let (r, gone, t, law) = remove_root_lem k h.root h.len rooted in
        (
          record { root = r; len = h.len - 1 },
          unfold delete in ground (arith, e, gone),
          unfold IsValid in t,
          λ j. law j (h.len - 1),
        )

-- ===== src/Tx/Session/Reads.antt =====
-- Reads inside a transaction (src/tx/session.rs).
use uldb.Prelude.{
  ◌≡◌, List, [], ◌∷◌, Option, some, none, arith, refl, ◌∙◌, sym, Option-cases, inl, inr, ap,
}
use uldb.Bytes.{Bytes, bytes_eq}
use uldb.Tx.Hamt.{Hamt}
use uldb.Tx.Hamt
use uldb.Tx.Hamt.Map.{IsValid, get-put, get-delete}
use uldb.Tx.Session.{TxSession, TxOp, put_op, delete_op, says, last_op, get}

-- The operations of a buffer applied to a version of the trie, the way a commit applies them.
unfoldable pub apply_op : TxOp → Hamt → Option Hamt
unfolding Hamt.put Hamt.delete
apply_op (put_op k v) h = Hamt.put k v h
apply_op (delete_op k) h = Hamt.delete k h

unfoldable pub apply_ops : List TxOp → Hamt → Option Hamt
unfolding apply_op
apply_ops [] h = some h
apply_ops (op ∷ ops) h = elim (apply_op op h) [ none ↦ none | some h' ↦ apply_ops ops h' ]

-- The answer of a buffer, or else that of the trie.
abbrev over : Option (Option Bytes) → Option (Option Bytes) → Option (Option Bytes)
over none below = below
over (some answer) below = some answer

apply_op_lem :
    (op : TxOp) (h h' : Hamt)
    → IsValid h
    → apply_op op h ≡ some h'
    → IsValid h' × ((j : Bytes) → Hamt.get j h' ≡ over (says j op) (Hamt.get j h))
apply_op_lem (put_op k v) h h' valid e =
    let made : Hamt.put k v h ≡ some h' = unfold apply_op in e in
    let (valid', law) = get-put k v h h' valid made in
    (valid', λ j. unfold says in ground (arith, law j))
apply_op_lem (delete_op k) h h' valid e =
    let made : Hamt.delete k h ≡ some h' = unfold apply_op in e in
    let (h'', made', valid', law) = get-delete k h valid in
    let same : h' ≡ h'' = ground (arith, made, made') in
    rw same (valid', λ j. unfold says in ground (arith, law j))

-- One operation, and then the rest of the buffer.
over_later :
    (j : Bytes) (op : TxOp) (ops : List TxOp) (x : Option (Option Bytes))
    → over (last_op j (op ∷ ops)) x ≡ over (last_op j ops) (over (says j op) x)
unfolding last_op
over_later j op ops x = elim (Option-cases (last_op j ops)) [
  | inl e ↦ rw e refl
  | inr f ↦ rw f.1 refl
]

apply_ops_lem :
    (ops : List TxOp) (h h' : Hamt)
    → IsValid h
    → apply_ops ops h ≡ some h'
    → IsValid h' × ((j : Bytes) → Hamt.get j h' ≡ over (last_op j ops) (Hamt.get j h))
apply_ops_lem [] h h' valid e =
    let same : h' ≡ h = unfold apply_ops in ground (arith, e) in
    rw same (valid, λ j. unfold last_op in refl)
apply_ops_lem (op ∷ ops) h h' valid e = elim (Option-cases (apply_op op h)) [
  | inl dead ↦ absurd (unfold apply_ops in ground (arith, e, dead))
  | inr f ↦
      let (mid, made) = f in
      let (valid1, law1) = apply_op_lem op h mid valid made in
      let more : apply_ops ops mid ≡ some h' = unfold apply_ops in ground (arith, e, made) in
      let (valid2, law2) = apply_ops_lem ops mid h' valid1 more in
      (valid2, λ j. law2 j ∙ ap (over (last_op j ops)) (law1 j) ∙ sym (over_later j op ops _))
]

-- A read inside a transaction gives what the trie gives once all buffered operations are applied
-- to the snapshot, in order.
pub get-apply_ops :
    (s : TxSession) (h : Hamt) (j : Bytes)
    → IsValid s.snapshot
    → apply_ops s.write_buffer s.snapshot ≡ some h
    → (get j s).0 ≡ Hamt.get j h
get-apply_ops s h j valid e =
    let (_, law) = apply_ops_lem s.write_buffer s.snapshot h valid e in
    sym (law j ∙ through (last_op j s.write_buffer) refl)
  where
    through :
        (answer : Option (Option Bytes))
        → answer ≡ last_op j s.write_buffer
        → over answer (Hamt.get j s.snapshot) ≡ (get j s).0
    through none e = unfold get in ground (arith, sym e)
    through (some a) e = unfold get in ground (arith, sym e)

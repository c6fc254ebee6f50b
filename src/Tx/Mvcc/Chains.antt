-- ===== src/Tx/Mvcc/Chains.antt =====
-- One version chain of src/tx/mvcc.rs under the store's operations.
use uldb.Prelude.{
  ℕ, ◌≡◌, List, [], ◌∷◌, some, none, if◌then◌else◌, arith, ◌∙◌, ◌==◌, ==_refl, Option-cases, inl,
  inr,
}
use uldb.Bytes.{Bytes, bytes_eq}
use uldb.Maps.{lookup, remove, lookup-insert, lookup-remove}
use uldb.Tx.Mvcc.{
  Version, MvccStore, chain, chain_or_empty, write_intent, stamp_head, commit_key, abort_key,
}

abbrev pub pending : Bytes → ℕ → Version
pending value txn_id = record { value = value; txn_id = txn_id; commit_ts = none }

abbrev pub stamped : Bytes → ℕ → ℕ → Version
stamped value txn_id cts = record { value = value; txn_id = txn_id; commit_ts = some cts }

-- An intent is put on top of its key's chain; no other chain changes.
pub chain-write_intent :
    (k j v : Bytes) (id : ℕ) (st : MvccStore)
    → chain j (write_intent k v id st) ≡ (if k == j then pending v id ∷ chain j st else chain j st)
unfolding chain write_intent
chain-write_intent k j v id st = ground (
  arith,
  bytes_eq.beq_iff k j,
  lookup-insert k j (pending v id ∷ chain_or_empty (lookup k st.chains)) (remove k st.chains),
  lookup-remove k j st.chains,
)

-- Committing a key stamps the head of its chain, if that is the transaction's own intent.
pub chain-commit_key :
    (k j : Bytes) (id cts : ℕ) (st : MvccStore)
    → chain j (commit_key k id cts st).0
      ≡ (if k == j then (stamp_head id cts (chain j st)).0 else chain j st)
unfolding chain commit_key
chain-commit_key k j id cts st = elim (Option-cases (lookup k st.chains)) [
  | inl e ↦ rw (e, commit_key) (ground (arith, bytes_eq.beq_iff k j, e))
  | inr f ↦
      rw (f.1, commit_key)
        (ground
          (arith, bytes_eq.beq_iff k j, f.1, lookup-insert k j (stamp_head id cts f.0).0 st.chains))
]

-- Aborting a transaction whose intent is the head takes that intent off the chain of its key.
chain-abort_key :
    (k j v : Bytes) (id : ℕ) (rest : List Version) (st : MvccStore)
    → lookup k st.chains ≡ some (pending v id ∷ rest)
    → chain j (abort_key k id st) ≡ (if k == j then rest else chain j st)
unfolding chain abort_key
chain-abort_key k j v id [] st e = rw (e, abort_key) (ground (arith, lookup-remove k j st.chains))
chain-abort_key k j v id (p ∷ rest) st e =
    rw (e, abort_key)
      (ground
        (arith, lookup-insert k j (p ∷ rest) (remove k st.chains), lookup-remove k j st.chains))

-- Aborting right after an intent gives the chain of every key back.
pub abort-write_intent :
    (k j v : Bytes) (id : ℕ) (st : MvccStore)
    → chain j (abort_key k id (write_intent k v id st)) ≡ chain j st
abort-write_intent k j v id st =
    let st' = write_intent k v id st in
    let e : lookup k st'.chains ≡ some (pending v id ∷ chain k st) =
      unfold write_intent in
      (lookup-insert k k (pending v id ∷ chain k st) (remove k st.chains) ∙ rw (==_refl k)) in
    chain-abort_key k j v id (chain k st) st' e
    ∙ ground (arith, chain-write_intent k j v id st, bytes_eq.beq_iff k j)

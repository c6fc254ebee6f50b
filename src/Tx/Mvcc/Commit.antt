-- ===== src/Tx/Mvcc/Commit.antt =====
-- A commit of src/tx/mvcc.rs as one step: what it makes visible, and to whom.
use uldb.Prelude.{
  ℕ, ◌+◌, ◌≡◌, List, [], ◌∷◌, Option, some, none, Bool, true, false, leb, if◌then◌else◌, arith,
  refl, ap, ◌∙◌, ◌==◌,
}
use uldb.Bytes.{Bytes, bytes_eq}
use uldb.Maps.{lookup, insert, keys, contains_key, contains-is_some}
use uldb.Tx.Mvcc.{
  Version, MvccStore, Transaction, chain, read, read_chain, write_intent, stamp_head, commit_key,
  install, stamp, next_ts, apply_writes,
}
use uldb.Tx.Mvcc.Chains.{pending, stamped, chain-write_intent, chain-commit_key}

-- A `HashMap` has each key once.
abbrev pub IsMap : List (Bytes × Bytes) → Type 0
IsMap [] = Unit
IsMap ((k, v) ∷ m) = (contains_key k m ≡ false) × IsMap m

contains-insert :
    (k j v : Bytes) (m : List (Bytes × Bytes))
    → contains_key j (insert k v m) ≡ (if k == j then true else contains_key j m)
unfolding contains_key insert
contains-insert k j v [] = ground arith
contains-insert k j v ((i, w) ∷ m) = ground (
  arith,
  contains-insert k j v m,
  bytes_eq.beq_iff k j,
  bytes_eq.beq_iff i k,
  bytes_eq.beq_iff i j,
)

pub insert-IsMap : (k v : Bytes) (m : List (Bytes × Bytes)) → IsMap m → IsMap (insert k v m)
unfolding insert
insert-IsMap k v [] h = (unfold contains_key in refl, tt)
insert-IsMap k v ((i, w) ∷ m) h =
    ground (
      arith,
      insert-IsMap k v m,
      contains-insert k i v m,
      bytes_eq.beq_iff i k,
      bytes_eq.beq_iff k i,
    )

abbrev with_intent : Option Bytes → ℕ → List Version → List Version
with_intent none id c = c
with_intent (some v) id c = pending v id ∷ c

chain-install :
    (ws : List (Bytes × Bytes)) (j : Bytes) (id : ℕ) (st : MvccStore)
    → IsMap ws
    → chain j (install ws id st) ≡ with_intent (lookup j ws) id (chain j st)
unfolding install lookup
chain-install [] j id st m = refl
chain-install ((k, v) ∷ ws) j id st m =
    chain-install ws j id (write_intent k v id st) m.1
    ∙ ground (arith, chain-write_intent k j v id st, bytes_eq.beq_iff k j, contains-is_some k ws)

abbrev restamp : Bool → ℕ → ℕ → List Version → List Version
restamp hit id cts c = if hit then (stamp_head id cts c).0 else c

chain-stamp :
    (ws : List (Bytes × Bytes)) (j : Bytes) (id cts : ℕ) (st : MvccStore)
    → IsMap ws
    → chain j (stamp (keys ws) id cts st) ≡ restamp (contains_key j ws) id cts (chain j st)
unfolding stamp contains_key
chain-stamp [] j id cts st m = refl
chain-stamp ((k, v) ∷ ws) j id cts st m =
    chain-stamp ws j id cts (commit_key k id cts st).0 m.1
    ∙ ground (arith, chain-commit_key k j id cts st, bytes_eq.beq_iff k j)

abbrev with_version : Option Bytes → ℕ → ℕ → List Version → List Version
with_version none id cts c = c
with_version (some v) id cts c = stamped v id cts ∷ c

ts-install : (ws : List (Bytes × Bytes)) (id : ℕ) (st : MvccStore) → (install ws id st).ts ≡ st.ts
unfolding install write_intent
ts-install [] id st = refl
ts-install ((k, v) ∷ ws) id st = ts-install ws id (write_intent k v id st)

ts-commit_key : (k : Bytes) (id cts : ℕ) (st : MvccStore) → (commit_key k id cts st).0.ts ≡ st.ts
unfolding commit_key
ts-commit_key k id cts st = ground arith

ts-stamp : (ks : List Bytes) (id cts : ℕ) (st : MvccStore) → (stamp ks id cts st).ts ≡ st.ts
unfolding stamp
ts-stamp [] id cts st = refl
ts-stamp (k ∷ ks) id cts st =
    ts-stamp ks id cts (commit_key k id cts st).0 ∙ ts-commit_key k id cts st

module _ (t : Transaction) (st : MvccStore) (m : IsMap t.writes) where
  pub ts-apply_writes : (apply_writes t st).ts ≡ st.ts + 1
  unfolding apply_writes next_ts
  ts-apply_writes =
      ts-stamp (keys t.writes) t.txn_id _ _ ∙ ap (λ n. n + 1) (ts-install t.writes t.txn_id st)

  -- Applying the write set puts one committed version, stamped with the new time, on top of the
  -- chain of every key written, and touches no other chain.
  pub chain-apply_writes :
      (j : Bytes)
      → chain j (apply_writes t st)
        ≡ with_version (lookup j t.writes) t.txn_id (st.ts + 1) (chain j st)
  unfolding apply_writes stamp_head
  chain-apply_writes j =
      let st1 = install t.writes t.txn_id st in
      let st2 = next_ts st1 in
      let same : chain j st2 ≡ chain j st1 = unfold next_ts chain in refl in
      let time : st2.ts ≡ st.ts + 1 =
        unfold next_ts in ap (λ n. n + 1) (ts-install t.writes t.txn_id st) in
      chain-stamp t.writes j t.txn_id st2.ts st2 m
      ∙ ground
          (arith, same, time, chain-install t.writes j t.txn_id st m, contains-is_some j t.writes)

  -- A read at time `s` after a commit gives the value committed, if the key was written and `s` has
  -- reached the commit, and otherwise what it gave before: a snapshot taken earlier never changes.
  pub read-apply_writes :
      (j : Bytes) (s : ℕ)
      → read j s (apply_writes t st) ≡ elim (lookup j t.writes) [
        | none ↦ read j s st
        | some v ↦ if leb (st.ts + 1) s then some v else read j s st
      ]
  unfolding read read_chain
  read-apply_writes j s = ground (arith, chain-apply_writes j)

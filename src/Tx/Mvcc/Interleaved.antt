-- ===== src/Tx/Mvcc/Interleaved.antt =====
-- `Transaction::commit` of src/tx/mvcc.rs, call by call: before each call that takes a lock, other
-- threads may change the store.
use uldb.Prelude.{
  ℕ, ◌+◌, ◌≡◌, List, [], ◌∷◌, Option, some, none, if◌then◌else◌, refl, arith, Option-cases,
  Bool-cases, inl, inr, ◌∙◌, ap, sym,
}
use uldb.Bytes.{Bytes, bytes_eq}
use uldb.Maps.{keys, lookup}
use uldb.Tx.Mvcc.{
  MvccStore, Transaction, Outcome, committed, conflict, has_committed_since, write_intent, next_ts,
  commit_key, first_conflict, install, stamp, checked_reads, apply_writes, commit_alone,
}

-- What other threads do to the store before the call of each number.
abbrev pub Others : Type 0
Others = ℕ → MvccStore → MvccStore

-- No other thread does anything.
abbrev pub alone : Others
alone n st = st

-- The conflict check, with the number of the next call and the store.
unfoldable pub check_from : Others → ℕ → ℕ → List Bytes → MvccStore → Option Bytes × ℕ × MvccStore
unfolding has_committed_since
check_from others n since [] st = (none, n, st)
check_from others n since (k ∷ ks) st =
    let st' = others n st in
    let rest = check_from others (n + 1) since ks st' in
    if has_committed_since k since st' then (some k, n, st') else rest

unfoldable pub install_from : Others → ℕ → List (Bytes × Bytes) → ℕ → MvccStore → ℕ × MvccStore
unfolding write_intent
install_from others n [] txn_id st = (n, st)
install_from others n ((k, v) ∷ ws) txn_id st =
    install_from others (n + 1) ws txn_id (write_intent k v txn_id (others n st))

-- The result of `commit_key` is ignored.
unfoldable pub stamp_from : Others → ℕ → List Bytes → ℕ → ℕ → MvccStore → MvccStore
unfolding commit_key
stamp_from others n [] txn_id cts st = st
stamp_from others n (k ∷ ks) txn_id cts st =
    stamp_from others (n + 1) ks txn_id cts (commit_key k txn_id cts (others n st)).0

-- The writes, once no conflict was found; the time is what `next_ts` returned.
unfoldable pub write_from : Others → ℕ → Transaction → MvccStore → Outcome × MvccStore
unfolding install_from next_ts stamp_from
write_from others n t st =
    let (m, installed) = install_from others n t.writes t.txn_id st in
    let timed = next_ts (others m installed) in
    (committed timed.ts, stamp_from others (m + 1) (keys t.writes) t.txn_id timed.ts timed)

abbrev decided : Others → Transaction → Option Bytes × ℕ × MvccStore → Outcome × MvccStore
decided others t (some k, n, st) = (conflict k, st)
decided others t (none, n, st) = write_from others n t st

unfoldable pub commit : Others → Transaction → MvccStore → Outcome × MvccStore
unfolding check_from write_from
commit others t st = decided others t (check_from others 0 t.snapshot_ts (checked_reads t) st)

check_from-alone :
    (n since : ℕ) (ks : List Bytes) (st : MvccStore)
    → (m : ℕ) × (check_from alone n since ks st ≡ (first_conflict since ks st, m, st))
unfolding check_from first_conflict
check_from-alone n since [] st = (n, refl)
check_from-alone n since (k ∷ ks) st = elim (Bool-cases (has_committed_since k since st)) [
  | inl e ↦ (n, rw (e, check_from, first_conflict) refl)
  | inr e ↦
      let (m, rest) = check_from-alone (n + 1) since ks st in
      (m, rw (e, check_from, first_conflict) rest)
]

install_from-alone :
    (n txn_id : ℕ) (ws : List (Bytes × Bytes)) (st : MvccStore)
    → (install_from alone n ws txn_id st).1 ≡ install ws txn_id st
unfolding install_from install
install_from-alone n txn_id [] st = refl
install_from-alone n txn_id ((k, v) ∷ ws) st =
    install_from-alone (n + 1) txn_id ws (write_intent k v txn_id st)

stamp_from-alone :
    (n txn_id cts : ℕ) (ks : List Bytes) (st : MvccStore)
    → stamp_from alone n ks txn_id cts st ≡ stamp ks txn_id cts st
unfolding stamp_from stamp
stamp_from-alone n txn_id cts [] st = refl
stamp_from-alone n txn_id cts (k ∷ ks) st =
    stamp_from-alone (n + 1) txn_id cts ks (commit_key k txn_id cts st).0

ts-commit_key :
    (k : Bytes) (txn_id cts : ℕ) (st : MvccStore) → (commit_key k txn_id cts st).0.ts ≡ st.ts
unfolding commit_key
ts-commit_key k txn_id cts st = elim (Option-cases (lookup k st.chains)) [
  | inl e ↦ rw (e, commit_key) refl
  | inr (c, e) ↦ rw (e, commit_key) refl
]

ts-stamp : (ks : List Bytes) (txn_id cts : ℕ) (st : MvccStore) → (stamp ks txn_id cts st).ts ≡ st.ts
unfolding stamp
ts-stamp [] txn_id cts st = refl
ts-stamp (k ∷ ks) txn_id cts st =
    ts-stamp ks txn_id cts (commit_key k txn_id cts st).0 ∙ ts-commit_key k txn_id cts st

write_from-alone :
    (n : ℕ) (t : Transaction) (st : MvccStore)
    → write_from alone n t st ≡ (committed (apply_writes t st).ts, apply_writes t st)
unfolding write_from apply_writes
write_from-alone n t st =
    let timed = next_ts (install t.writes t.txn_id st) in
    rw (install_from-alone n t.txn_id t.writes st) (
      ap (λ x. (committed timed.ts, x)) (stamp_from-alone _ t.txn_id timed.ts (keys t.writes) timed)
      ∙ ap (λ x. (committed x, stamp (keys t.writes) t.txn_id timed.ts timed))
          (sym (ts-stamp (keys t.writes) t.txn_id timed.ts timed)))

-- Without other threads the commit is a check and then the writes, on one store.
pub commit-alone : (t : Transaction) (st : MvccStore) → commit alone t st ≡ commit_alone t st
unfolding commit commit_alone
commit-alone t st =
    let (m, checked) = check_from-alone 0 t.snapshot_ts (checked_reads t) st in
    ap (decided alone t) checked
    ∙ elim (Option-cases (first_conflict t.snapshot_ts (checked_reads t) st)) [
      | inr (k, e) ↦ rw (e, commit_alone) refl
      | inl e ↦ rw (e, commit_alone) (write_from-alone m t st)
    ]

-- A key that the check finds is the conflict.
pub commit_found :
    (others : Others) (t : Transaction) (st : MvccStore) (k : Bytes)
    → (check_from others 0 t.snapshot_ts (checked_reads t) st).0 ≡ some k
    → (commit others t st).0 ≡ conflict k
unfolding commit
commit_found others t st k h =
    decided_found (check_from others 0 t.snapshot_ts (checked_reads t) st) h
  where
    decided_found :
        (p : Option Bytes × ℕ × MvccStore) → p.0 ≡ some k → (decided others t p).0 ≡ conflict k
    decided_found (none, n, st') h = cc
    decided_found (some j, n, st') h = let same : j ≡ k = ground (arith, h) in ap conflict same

-- ===== src/Tx/Mvcc/Snapshots.antt =====
-- Isolation in src/tx/mvcc.rs: repeatable reads of a snapshot, and the conflict check.
use uldb.Prelude.{
  ℕ, ◌+◌, ◌≡◌, ◌≤◌, List, [], ◌∷◌, some, none, true, false, leb, ◌≢◌, if◌then◌else◌, arith, refl,
  ap, ◌∙◌, Option-cases, Bool-cases, inl, inr, All, ◌⊎◌,
}
use uldb.Bytes.{Bytes, bytes_eq}
use uldb.Maps.{lookup, contains_key, contains-is_some}
use uldb.Tx.Mvcc.{
  MvccStore, Transaction, read_committed, read, has_committed_since, apply_writes, commit_alone,
  get, first_conflict, checked_reads, committed, conflict,
}
use uldb.Tx.Mvcc.Interleaved.{Others, alone, check_from, commit, commit-alone, commit_found}
use uldb.Tx.Mvcc.Commit.{IsMap, read-apply_writes, ts-apply_writes, chain-apply_writes}

-- What a transaction has read was not committed by another one since its snapshot.
abbrev pub NoConflict : Transaction → MvccStore → Type 0
NoConflict t st = All (λ k. has_committed_since k t.snapshot_ts st ≡ false) (checked_reads t)

no_conflict :
    (since : ℕ) (ks : List Bytes) (st : MvccStore)
    → All (λ k. has_committed_since k since st ≡ false) ks
    → first_conflict since ks st ≡ none
unfolding first_conflict
no_conflict since [] st h = refl
no_conflict since (k ∷ ks) st h = rw (h.0, first_conflict) (no_conflict since ks st h.1)

abbrev Mem : Bytes → List Bytes → Type 0
Mem k [] = ⊥
Mem k (j ∷ ks) = (k ≡ j) ⊎ Mem k ks

some_conflict :
    (since : ℕ) (k : Bytes) (ks : List Bytes) (st : MvccStore)
    → Mem k ks
    → has_committed_since k since st ≡ true
    → (j : Bytes) × (first_conflict since ks st ≡ some j) × (has_committed_since j since st ≡ true)
unfolding first_conflict
some_conflict since k [] st i h = absurd i
some_conflict since k (j ∷ ks) st i h = elim (Bool-cases (has_committed_since j since st)) [
  | inl e ↦ (j, rw (e, first_conflict), e)
  | inr e ↦
      let rest : Mem k ks = elim i [ inl p ↦ ground (arith, p, h, e) | inr q ↦ q ] in
      let (x, f, hx) = some_conflict since k ks st rest h in (x, rw (e, first_conflict) f, hx)
]

-- A commit without a conflict and with no step of another thread between its calls succeeds with the
-- next time; every key then reads as the value that the transaction wrote to it, from that time on,
-- and as before at all earlier times and for all other keys. Its writes name no key twice, as they are a
-- map.
pub commit_lem :
    (t : Transaction) (st : MvccStore)
    → IsMap t.writes
    → NoConflict t st
    → ((commit alone t st).0 ≡ committed (st.ts + 1))
      × ((j : Bytes) (s : ℕ)
          → read j s (commit alone t st).1 ≡ elim (lookup j t.writes) [
            | none ↦ read j s st
            | some v ↦ if leb (st.ts + 1) s then some v else read j s st
          ])
unfolding commit_alone
commit_lem t st m free =
    let e = no_conflict t.snapshot_ts (checked_reads t) st free in
    rw (commit-alone t st, e, commit_alone)
      (ap committed (ts-apply_writes t st m), λ j s. read-apply_writes t st m j s)

-- A commit that checks a read key which got a version committed after the snapshot fails at such a
-- key, and changes nothing.
pub commit_conflict :
    (t : Transaction) (st : MvccStore) (k : Bytes)
    → Mem k (checked_reads t)
    → has_committed_since k t.snapshot_ts st ≡ true
    → (j : Bytes) × ((commit_alone t st).0 ≡ conflict j)
      × ((commit_alone t st).1 ≡ st)
      × (has_committed_since j t.snapshot_ts st ≡ true)
unfolding commit_alone
commit_conflict t st k i h =
    let (j, e, hj) = some_conflict t.snapshot_ts k (checked_reads t) st i h in
    (j, rw (e, commit_alone), rw (e, commit_alone), hj)

commit-cases :
    (P : MvccStore → Type 0) (t : Transaction) (st : MvccStore)
    → P st
    → P (apply_writes t st)
    → P (commit_alone t st).1
unfolding commit_alone
commit-cases P t st same applied =
    elim (Option-cases (first_conflict t.snapshot_ts (checked_reads t) st)) [
      | inl e ↦ rw (e, commit_alone) applied
      | inr f ↦ rw (f.1, commit_alone) same
    ]

-- Commits of several transactions one after another, failed ones included, none within another.
unfoldable pub commit_each : List Transaction → MvccStore → MvccStore
commit_each [] st = st
commit_each (t ∷ ts) st = commit_each ts (commit_alone t st).1

-- What `commit` leaves of the reads at an earlier time.
abbrev Keeps : ℕ → MvccStore → MvccStore → Type 0
Keeps s st st' = (st.ts ≤ st'.ts) × ((j : Bytes) → read j s st' ≡ read j s st)

commit-Keeps :
    (t : Transaction) (st : MvccStore) (s : ℕ)
    → IsMap t.writes
    → s ≤ st.ts
    → Keeps s st (commit_alone t st).1
commit-Keeps t st s m h =
    commit-cases (Keeps s st) t st (omega arith, λ j. refl)
      (omega (arith, ts-apply_writes t st m), λ j. read-apply_writes t st m j s ∙ ground arith)

-- Repeatable reads: a read at a time that has passed gives the same value however many
-- transactions commit, or fail to commit, afterwards, one after another.
pub read-commit_each :
    (ts : List Transaction) (st : MvccStore) (j : Bytes) (s : ℕ)
    → All (λ t. IsMap t.writes) ts
    → s ≤ st.ts
    → read j s (commit_each ts st) ≡ read j s st
unfolding commit_each
read-commit_each [] st j s m h = refl
read-commit_each (t ∷ ts) st j s m h =
    let (grow, same) = commit-Keeps t st s m.0 h in
    read-commit_each ts (commit_alone t st).1 j s m.1 (omega arith) ∙ same j

-- A transaction of level Snapshot or Serializable reads its own write where it has one, and else
-- the state at its begin, whatever commits have come since, one after another.
pub get_stable :
    (ts : List Transaction) (t : Transaction) (st : MvccStore) (k : Bytes)
    → All (λ u. IsMap u.writes) ts
    → t.snapshot_ts ≤ st.ts
    → t.isolation ≢ read_committed
    → (get k t (commit_each ts st)).0
      ≡ elim (lookup k t.writes) [ some v ↦ some v | none ↦ read k t.snapshot_ts st ]
unfolding get
get_stable ts t st k m h level = ground (arith, read-commit_each ts st k t.snapshot_ts m h)

after_commit :
    (j : Bytes) (since : ℕ) (t : Transaction) (st : MvccStore)
    → IsMap t.writes
    → contains_key j t.writes ≡ true
    → since ≤ st.ts
    → has_committed_since j since (apply_writes t st) ≡ true
unfolding has_committed_since
after_commit j since t st m w h =
    ground (arith, chain-apply_writes t st m j, contains-is_some j t.writes)

-- A call of another thread that takes no committed version of a key away since a time.
abbrev Remembers : Bytes → ℕ → Others → Type 0
Remembers k since others =
    (n : ℕ) (st : MvccStore)
    → has_committed_since k since st ≡ true
    → has_committed_since k since (others n st) ≡ true

check_from-conflict :
    (others : Others) (n since : ℕ) (k : Bytes) (ks : List Bytes) (st : MvccStore)
    → Remembers k since others
    → Mem k ks
    → has_committed_since k since st ≡ true
    → (j : Bytes) × ((check_from others n since ks st).0 ≡ some j)
unfolding check_from
check_from-conflict others n since k [] st keep i h = absurd i
check_from-conflict others n since k (j ∷ ks) st keep i h =
    let st' = others n st in
    let h' = keep n st h in
    elim (Bool-cases (has_committed_since j since st')) [
      | inl e ↦ (j, rw (e, check_from) refl)
      | inr e ↦
          let later : Mem k ks = elim i [ inl p ↦ ground (arith, p, h', e) | inr q ↦ q ] in
          let (x, f) = check_from-conflict others (n + 1) since k ks st' keep later h' in
          (x, rw (e, check_from) f)
    ]

-- First committer wins: once a transaction has committed a write of `k` with no step of another thread
-- in between, a serializable one that read `k` and began before that commit fails, whatever other
-- threads do during its own commit, if they take no committed version of `k` away. The writes of
-- the first name no key twice, and it has no conflict itself.
pub second_committer :
    (first second : Transaction) (st : MvccStore) (k : Bytes) (others : Others)
    → IsMap first.writes
    → NoConflict first st
    → contains_key k first.writes ≡ true
    → second.snapshot_ts ≤ st.ts
    → Mem k (checked_reads second)
    → Remembers k second.snapshot_ts others
    → (j : Bytes) × ((commit others second (commit alone first st).1).0 ≡ conflict j)
second_committer first second st k others m free w h i keep =
    let e : (commit alone first st).1 ≡ apply_writes first st =
      ap (λ p. p.1) (commit-alone first st)
      ∙ (unfold commit_alone in
          rw (no_conflict first.snapshot_ts (checked_reads first) st free, commit_alone) refl) in
    let (j, c) =
      check_from-conflict others 0 second.snapshot_ts k (checked_reads second)
        (commit alone first st).1 keep i
        (rw e (after_commit k second.snapshot_ts first st m w h)) in
    (j, commit_found others second (commit alone first st).1 j c)

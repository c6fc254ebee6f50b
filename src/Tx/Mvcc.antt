-- ===== src/Tx/Mvcc.antt =====
-- src/tx/mvcc.rs: version chains, timestamps, buffered transactions and garbage collection.
-- Keys are strings by their bytes. Each method of the store holds a lock from its first line to its
-- last, so it is one step on the state; `Transaction::commit` calls several of them, and Interleaved
-- has it with the steps of other threads in between. A chain of boxed versions is a list, the newest first; a key with no
-- version is not in the map.
pub mod Chains
pub mod Commit
pub mod Interleaved
pub mod Snapshots
pub mod Collect
use uldb.Prelude.{
  ℕ, zero, suc, ◌+◌, List, [], ◌∷◌, ◌++◌, Option, some, none, Bool, true, false, ltb, leb, eqb,
  ◌&&◌, ◌||◌, if◌then◌else◌, length,
}
use uldb.Bytes.{Bytes, bytes_eq}
use uldb.Maps.{lookup, insert, remove, keys}

pub data Isolation : Type 0 where
  read_committed snapshot serializable : Isolation

pub record Version : Type 0 where
  pub value : Bytes
  pub txn_id : ℕ
  pub commit_ts : Option ℕ

pub record MvccStore : Type 0 where
  pub chains : List (Bytes × List Version)
  pub ts : ℕ

abbrev pub new : MvccStore
new = record { chains = []; ts = 0 }

-- The new time is `ts` of the state.
unfoldable pub next_ts : MvccStore → MvccStore
next_ts st = record st { ts = st.ts + 1 }

abbrev pub chain_or_empty : Option (List Version) → List Version
chain_or_empty none = []
chain_or_empty (some c) = c

unfoldable pub chain : Bytes → MvccStore → List Version
chain key st = chain_or_empty (lookup key st.chains)

abbrev pub committed_by : ℕ → Option ℕ → Bool
committed_by ts none = false
committed_by ts (some cts) = leb cts ts

abbrev pub committed_after : ℕ → Option ℕ → Bool
committed_after ts none = false
committed_after ts (some cts) = ltb ts cts

unfoldable pub read_chain : ℕ → List Version → Option Bytes
read_chain ts [] = none
read_chain ts (v ∷ rest) = if committed_by ts v.commit_ts then some v.value else read_chain ts rest

unfoldable pub read : Bytes → ℕ → MvccStore → Option Bytes
unfolding chain read_chain
read key snapshot_ts st = read_chain snapshot_ts (chain key st)

unfoldable pub write_intent : Bytes → Bytes → ℕ → MvccStore → MvccStore
unfolding chain
write_intent key value txn_id st = record st {
  chains =
      insert key (record { value = value; txn_id = txn_id; commit_ts = none } ∷ chain key st)
        (remove key st.chains);
}

-- The head is this transaction's own version, not yet committed.
abbrev pub is_own : ℕ → Version → Bool
is_own txn_id v = eqb v.txn_id txn_id && elim v.commit_ts [ none ↦ true | some cts ↦ false ]

unfoldable pub stamp_head : ℕ → ℕ → List Version → List Version × Bool
stamp_head txn_id cts [] = ([], false)
stamp_head txn_id cts (v ∷ rest) =
    if is_own txn_id v then (record v { commit_ts = some cts } ∷ rest, true) else (v ∷ rest, false)

abbrev with_chain : Bytes → MvccStore → List Version → MvccStore
with_chain key st c = record st { chains = insert key c st.chains }

unfoldable pub commit_key : Bytes → ℕ → ℕ → MvccStore → MvccStore × Bool
unfolding stamp_head
commit_key key txn_id cts st = elim (lookup key st.chains) [
  | none ↦ (st, false)
  | some c ↦ let (c', done) = stamp_head txn_id cts c in (with_chain key st c', done)
]

-- What `abort_key` does to a chain: the own head goes, and with it the key if nothing is below.
abbrev abort_chain : Bytes → ℕ → MvccStore → List Version → MvccStore
abort_chain key txn_id st [] = st
abort_chain key txn_id st (v ∷ []) =
    if is_own txn_id v then record st { chains = remove key st.chains } else st
abort_chain key txn_id st (v ∷ prev ∷ rest) =
    if is_own txn_id v
    then record st { chains = insert key (prev ∷ rest) (remove key st.chains) }
    else st

unfoldable pub abort_key : Bytes → ℕ → MvccStore → MvccStore
abort_key key txn_id st = elim (lookup key st.chains) [
  | none ↦ st
  | some c ↦ abort_chain key txn_id st c
]

unfoldable pub any_after : ℕ → List Version → Bool
any_after since [] = false
any_after since (v ∷ rest) = committed_after since v.commit_ts || any_after since rest

unfoldable pub has_committed_since : Bytes → ℕ → MvccStore → Bool
unfolding any_after chain
has_committed_since key since st = any_after since (chain key st)

abbrev pub is_committed : Option ℕ → Bool
is_committed none = false
is_committed (some cts) = true

abbrev pub committed_before : ℕ → Option ℕ → Bool
committed_before ts none = false
committed_before ts (some cts) = ltb cts ts

-- The inner loop of `gc`: the chain that is left, and the number of versions cut off.
unfoldable pub gc_chain : ℕ → Bool → List Version → List Version × ℕ
gc_chain oldest seen [] = ([], 0)
gc_chain oldest seen (v ∷ rest) =
    let (rest', n) = gc_chain oldest (seen || is_committed v.commit_ts) rest in
    if seen && committed_before oldest v.commit_ts then (v ∷ [], length rest) else (v ∷ rest', n)

unfoldable pub gc_all : ℕ → List (Bytes × List Version) → List (Bytes × List Version) × ℕ
unfolding gc_chain
gc_all oldest [] = ([], 0)
gc_all oldest ((k, c) ∷ m) =
    let (c', n) = gc_chain oldest false c in let (m', r) = gc_all oldest m in ((k, c') ∷ m', n + r)

unfoldable pub gc : ℕ → MvccStore → MvccStore × ℕ
unfolding gc_all
gc oldest st = let (m, n) = gc_all oldest st.chains in (record st { chains = m }, n)

unfoldable pub count_versions : List (Bytes × List Version) → ℕ
count_versions [] = 0
count_versions ((k, c) ∷ m) = length c + count_versions m

unfoldable pub version_count : MvccStore → ℕ
unfolding count_versions
version_count st = count_versions st.chains

pub record Transaction : Type 0 where
  pub txn_id : ℕ
  pub snapshot_ts : ℕ
  pub isolation : Isolation
  pub writes : List (Bytes × Bytes)
  pub reads : List Bytes

unfoldable pub begin_at : ℕ → Isolation → MvccStore → Transaction
begin_at txn_id isolation st = record {
  txn_id = txn_id;
  snapshot_ts = st.ts;
  isolation = isolation;
  writes = [];
  reads = [];
}

abbrev pub read_ts : Transaction → MvccStore → ℕ
read_ts t st = elim t.isolation [ read_committed ↦ st.ts | _ ↦ t.snapshot_ts ]

abbrev pub note_read : Bytes → Transaction → Transaction
note_read key t = record t {
  reads = elim t.isolation [ serializable ↦ t.reads ++ key ∷ [] | _ ↦ t.reads ];
}

unfoldable pub get : Bytes → Transaction → MvccStore → Option Bytes × Transaction
unfolding read
get key t st = elim (lookup key t.writes) [
  | some v ↦ (some v, t)
  | none ↦ (read key (read_ts t st) st, note_read key t)
]

unfoldable pub put : Bytes → Bytes → Transaction → Transaction
put key value t = record t { writes = insert key value t.writes }

-- The first key of the read set that was committed since the snapshot.
unfoldable pub first_conflict : ℕ → List Bytes → MvccStore → Option Bytes
unfolding has_committed_since
first_conflict since [] st = none
first_conflict since (k ∷ ks) st =
    if has_committed_since k since st then some k else first_conflict since ks st

unfoldable pub install : List (Bytes × Bytes) → ℕ → MvccStore → MvccStore
unfolding write_intent
install [] txn_id st = st
install ((k, v) ∷ ws) txn_id st = install ws txn_id (write_intent k v txn_id st)

unfoldable pub stamp : List Bytes → ℕ → ℕ → MvccStore → MvccStore
unfolding commit_key
stamp [] txn_id cts st = st
stamp (k ∷ ks) txn_id cts st = stamp ks txn_id cts (commit_key k txn_id cts st).0

-- `conflict` is the error with its key.
pub data Outcome : Type 0 where
  committed : ℕ → Outcome
  conflict : Bytes → Outcome

abbrev pub checked_reads : Transaction → List Bytes
checked_reads t = elim t.isolation [ serializable ↦ t.reads | _ ↦ [] ]

-- The writes of a commit with no step of another thread in between, once no conflict was found.
unfoldable pub apply_writes : Transaction → MvccStore → MvccStore
unfolding install next_ts stamp
apply_writes t st =
    let st' = next_ts (install t.writes t.txn_id st) in stamp (keys t.writes) t.txn_id st'.ts st'

-- A whole commit with no step of another thread in between.
unfoldable pub commit_alone : Transaction → MvccStore → Outcome × MvccStore
unfolding first_conflict apply_writes
commit_alone t st = elim (first_conflict t.snapshot_ts (checked_reads t) st) [
  | some k ↦ (conflict k, st)
  | none ↦ (committed (apply_writes t st).ts, apply_writes t st)
]

-- The transaction manager over one store.
pub record TxManager : Type 0 where
  pub store : MvccStore
  pub next_txn_id : ℕ

unfoldable pub begin : Isolation → TxManager → Transaction × TxManager
unfolding begin_at
begin isolation m =
    (begin_at (m.next_txn_id + 1) isolation m.store, record m { next_txn_id = m.next_txn_id + 1 })

-- ===== src/Tests/Transactions.antt =====
-- The versions, the trie, sessions and namespaces at concrete inputs.
use uldb.Prelude.{
  true, eqb, ℕ, ◌≡◌, [], ◌∷◌, some, none, false, refl, arith, if◌then◌else◌, ◌==◌, inl, inr, leb,
  not, ◌&&◌, nat_eq,
}
use uldb.Bytes.{Bytes, bytes_eq, blt}
use uldb.Maps.{contains_key, insert, lookup, lookup-insert, lookup-remove, remove}
use uldb.Tx.Mvcc.Interleaved.{Others, alone, commit}
use uldb.Tx.Mvcc.{
  MvccStore, Transaction, serializable, read, chain, Outcome, write_intent, committed, conflict,
  has_committed_since, any_after,
}
use uldb.Tx.Mvcc.Commit.{IsMap}
use uldb.Tx.Mvcc.Snapshots.{NoConflict, commit_lem, second_committer}
use uldb.Tx.Hamt
use uldb.Tx.Hamt.{Hamt, put, delete, leaf, pair_branch}
use uldb.Tx.Hamt.Children.{IsTrie}
use uldb.Tx.Hamt.Map.{get-put, get-delete, IsRooted}
use uldb.Tx.Session.{
  TxSession, TxManager, put_op, delete_op, snapshot_level, begin, exists, active_count, get_session,
  new, new_manager,
}
use uldb.Tx.Session
use uldb.Tx.Session.Reads.{apply_ops, get-apply_ops}
use uldb.Tx.Session.Manager
use uldb.Tx.Session.Manager.{begin_lem}
use uldb.Namespace.{scope_key, ns_scan_range}
use uldb.Storage.Fnv.{fnv1a, namespace_key}
use uldb.Tests.Inputs.{key_a, key_b, value_one, value_two, one_key, two_keys, put_b}

-- Two committed versions of `a` and an intent on top of the one of `b`.
abbrev store : MvccStore
store = record {
  chains =
      (
        key_a,
        record { value = value_two; txn_id = 2; commit_ts = some 4 }
            ∷ record { value = value_one; txn_id = 1; commit_ts = some 2 }
            ∷ [],
      )
      ∷ (
        key_b,
        record { value = value_two; txn_id = 3; commit_ts = none }
            ∷ record { value = value_one; txn_id = 1; commit_ts = some 2 }
            ∷ [],
      )
      ∷ [];
  ts = 4;
}

abbrev writer : Transaction
writer = record {
  txn_id = 5;
  snapshot_ts = 4;
  isolation = serializable;
  writes = (key_a, value_one) ∷ [];
  reads = key_a ∷ key_b ∷ [];
}

abbrev reader : Transaction
reader = record {
  txn_id = 6;
  snapshot_ts = 3;
  isolation = serializable;
  writes = (key_b, value_one) ∷ [];
  reads = key_b ∷ key_a ∷ [];
}

writer-IsMap : IsMap writer.writes
unfolding contains_key
writer-IsMap = (refl, tt)

reader-IsMap : IsMap reader.writes
unfolding contains_key
reader-IsMap = (refl, tt)

writer-NoConflict : NoConflict writer store
unfolding has_committed_since any_after chain lookup
writer-NoConflict = (refl, (refl, tt))

commit_lem_example :
    ((commit alone writer store).0 ≡ committed 5)
    × ((j : Bytes) (s : ℕ)
        → read j s (commit alone writer store).1 ≡ elim (lookup j writer.writes) [
          | none ↦ read j s store
          | some v ↦ if leb 5 s then some v else read j s store
        ])
commit_lem_example = commit_lem writer store writer-IsMap writer-NoConflict

-- Another thread that puts an intent on `b` before each call.
abbrev intruder : Others
intruder n st = write_intent key_b value_two 9 st

intruder-remembers :
    (n : ℕ) (st : MvccStore)
    → has_committed_since key_a 3 st ≡ true
    → has_committed_since key_a 3 (intruder n st) ≡ true
unfolding has_committed_since write_intent chain any_after
intruder-remembers n st h = ground (
  arith,
  h,
  lookup-insert key_b key_a
      (record { value = value_two; txn_id = 9; commit_ts = none } ∷ chain key_b st)
      (remove key_b st.chains),
  lookup-remove key_b key_a st.chains,
)

second_committer_example :
    (j : Bytes) × ((commit intruder reader (commit alone writer store).1).0 ≡ conflict j)
unfolding contains_key
second_committer_example =
    second_committer writer reader store key_a intruder writer-IsMap writer-NoConflict refl
      (omega arith) (inr (inl refl)) intruder-remembers

-- A commit that another thread's intent on its key comes into reports success, and its write is not
-- visible.
abbrev upstart : Others
upstart n st = if eqb n 3 then write_intent key_a value_two 9 st else st

abbrev buried : Outcome × MvccStore
buried = commit upstart writer store

buried_write : (buried.0 ≡ committed 5) × (read key_a 5 buried.1 ≡ some value_two)
unfolding commit has_committed_since any_after chain lookup read insert remove
buried_write = (refl, refl)

one_key-IsValid : Hamt.Map.IsValid one_key
unfolding Hamt.Map.IsValid IsRooted IsTrie
one_key-IsValid = refl

get-put_example :
    Hamt.Map.IsValid two_keys
    × ((j : Bytes)
        → Hamt.get j two_keys ≡ (if key_b == j then some (some value_two) else Hamt.get j one_key))
get-put_example = get-put key_b value_two one_key two_keys one_key-IsValid put_b

two_keys-IsValid : Hamt.Map.IsValid two_keys
two_keys-IsValid = (get-put key_b value_two one_key two_keys one_key-IsValid put_b).0

get-delete_example :
    (h' : Hamt) × (delete key_a two_keys ≡ some h')
    × Hamt.Map.IsValid h'
    × ((j : Bytes) → Hamt.get j h' ≡ (if key_a == j then some none else Hamt.get j two_keys))
get-delete_example = get-delete key_a two_keys two_keys-IsValid

-- A session over the trie of one key, which has put `b`.
abbrev session : TxSession
session = record {
  tx_id = 1;
  isolation = snapshot_level;
  snapshot = one_key;
  write_buffer = put_op key_b value_two ∷ [];
  read_set = [];
  begin_ts = 1;
}

get-apply_ops_example : (Session.get key_b session).0 ≡ Hamt.get key_b two_keys
unfolding apply_ops put fnv1a Hamt.get_node Hamt.insert_node Hamt.split_leaf Hamt.bit_index
    uldb.Storage.Fnv.fnv1a_from uldb.Storage.Fnv.mix
get-apply_ops_example = get-apply_ops session two_keys key_b one_key-IsValid refl

new_manager-IsValid : Manager.IsValid new_manager
unfolding Manager.IsValid get_session lookup
new_manager-IsValid id le = refl

-- A key that starts with 0xFF is in its namespace, and outside of the range.
ns_scan_range_misses :
    (not (blt (scope_key 42 (255 ∷ [])) (ns_scan_range 42).0)
      && blt (scope_key 42 (255 ∷ [])) (ns_scan_range 42).1)
    ≡ false
unfolding blt scope_key ns_scan_range
ns_scan_range_misses = refl

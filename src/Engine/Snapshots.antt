-- ===== src/Engine/Snapshots.antt =====
-- Snapshots and branches (src/engine.rs): named versions of the trie.
use uldb.Prelude.{
  ℕ, zero, suc, ◌+◌, ◌/◌, ◌%◌, List, [], ◌∷◌, ◌++◌, Option, some, none, Bool, true, false, ltb,
  if◌then◌else◌, length, is_some, ◌-◌,
}
use uldb.Bytes.{Bytes, bytes_eq}
use uldb.Maps.{lookup, insert, remove, keys}
use uldb.Storage.Wal.Writer
use uldb.Storage.Memtable
use uldb.Tx.Hamt
use uldb.Tx.Hamt.{Hamt}
use uldb.Engine.{Engine, Outcome, ok, io_error, panicked}

-- The decimal digits of a number; one round of fuel for each digit, `n` and one more is enough.
unfoldable pub digits : ℕ → ℕ → Bytes
digits zero n = []
digits (suc fuel) n =
    let front = digits fuel (n / 10) in
    if ltb n 10 then (48 + n) ∷ [] else front ++ (48 + n % 10) ∷ []

unfoldable pub zeros : ℕ → Bytes
zeros zero = []
zeros (suc n) = b'0' ∷ zeros n

-- `format!("snap-{:04}", n)`
unfoldable pub snapshot_name : ℕ → Bytes
unfolding digits zeros
snapshot_name n =
    let text = digits (suc n) n in
    b's' ∷ b'n' ∷ b'a' ∷ b'p' ∷ b'-' ∷ (zeros (4 - length text) ++ text)

-- The identifier, and the engine with the snapshot under it.
unfoldable pub snapshot_create : Bytes → Engine → Bytes × Engine
unfolding snapshot_name
snapshot_create [] e =
    let id = snapshot_name (e.snapshot_counter + 1) in
    (
      id,
      record e {
        snapshot_counter = e.snapshot_counter + 1;
        snapshots = insert id e.state e.snapshots;
      },
    )
snapshot_create (c ∷ name) e =
    (c ∷ name, record e { snapshots = insert (c ∷ name) e.state e.snapshots })

-- `false` is the error that no snapshot has the name.
unfoldable pub snapshot_restore : Bytes → Engine → Engine × Bool
snapshot_restore name e = elim (lookup name e.snapshots) [
  | none ↦ (e, false)
  | some snap ↦ (record e { state = snap }, true)
]

-- Also `branch_rollback`.
unfoldable pub snapshot_delete : Bytes → Engine → Engine × Bool
snapshot_delete name e =
    (record e { snapshots = remove name e.snapshots }, is_some (lookup name e.snapshots))

unfoldable pub snapshot_list : Engine → List Bytes
snapshot_list e = keys e.snapshots

-- The outer `none` is a panic of the trie; a missing snapshot and a missing key are both absent.
unfoldable pub snapshot_get : Bytes → Bytes → Engine → Option (Option Bytes)
snapshot_get name key e = elim (lookup name e.snapshots) [
  | none ↦ some none
  | some snap ↦ Hamt.get key snap
]

unfoldable pub snapshot_count : Engine → ℕ
snapshot_count e = length e.snapshots

-- An empty source is the live state.
unfoldable pub branch_create : Bytes → Bytes → Engine → Engine × Bool
branch_create id [] e = (record e { snapshots = insert id e.state e.snapshots }, true)
branch_create id (c ∷ source) e = elim (lookup (c ∷ source) e.snapshots) [
  | none ↦ (e, false)
  | some base ↦ (record e { snapshots = insert id base e.snapshots }, true)
]

module _ (crc : Bytes → ℕ) where
  -- The loop of `branch_merge`; an append that is refused ends it with an error, in the middle.
  unfoldable pub merge_entries : (ℕ → Bool) → ℕ → List (Bytes × Bytes) → Engine → Outcome
  unfolding Memtable.put Writer.append
  merge_entries appended i [] e = ok e
  merge_entries appended i ((k, v) ∷ entries) e = elim (Hamt.put k v e.state) [
    | none ↦ panicked
    | some state ↦
        let logged = Writer.append crc (appended i) k v e.wal in
        let next = merge_entries appended (i + 1) entries (record e {
          state = state;
          wal = logged.0;
          memtable = (Memtable.put k v e.memtable).0;
        }) in
        if logged.1 then next else io_error (record e { state = state; wal = logged.0 })
  ]

  abbrev drop_branch : Bytes → Outcome → Outcome
  drop_branch id (ok e) = ok (record e { snapshots = remove id e.snapshots })
  drop_branch id (io_error e) = io_error e
  drop_branch id panicked = panicked

  -- The count is that of the branch's entries.
  unfoldable pub branch_merge : (ℕ → Bool) → Bytes → Engine → Outcome × ℕ
  unfolding merge_entries Hamt.iter
  branch_merge appended id e = elim (lookup id e.snapshots) [
    | none ↦ (io_error e, 0)
    | some branch ↦
        (drop_branch id (merge_entries appended 0 (Hamt.iter branch) e), length (Hamt.iter branch))
  ]

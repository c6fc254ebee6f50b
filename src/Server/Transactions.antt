-- ===== src/Server/Transactions.antt =====
-- The transactions of the handler (src/server.rs): the sessions of src/tx/session.rs over the engine.
pub mod Commits
use uldb.Prelude.{
  ℕ, suc, List, [], ◌∷◌, Option, some, none, Bool, true, false, ◌==◌, if◌then◌else◌, length,
}
use uldb.Bytes.{Bytes, bytes_eq}
use uldb.KeyValue.{KeyValue, Written, done, refused}
use uldb.Namespace.{scope_key}
use uldb.Tx.Hamt.{Hamt}
use uldb.Tx.Hamt
use uldb.Tx.Session
use uldb.Tx.Session.{
  TxManager, TxSession, TxOp, put_op, delete_op, is_serializable, from_byte, begin, get_session,
  update_session, remove_session, exists,
}
use uldb.Server.{
  Opcodes, Response, single, enc, u64_field, string_field, error_response, result_end_response,
}

pub record UmpHandler (E : Type 0) : Type 0 where
  pub engine : E
  pub tx_mgr : TxManager

-- `not_found`, `conflict` and `io_error` are returned; `panicked` is a panic of a trie.
pub data CommitError : Type 0 where
  not_found : CommitError
  conflict : Bytes → CommitError
  io_error : CommitError
  panicked : CommitError

-- An error, or the count of operations, with the engine after them.
pub data Commit (E : Type 0) : Type 0 where
  failed : CommitError → E → Commit E
  committed : ℕ → E → Commit E

abbrev pub same_value : Option Bytes → Option Bytes → Bool
same_value none none = true
same_value (some v) (some w) = v == w
same_value _ _ = false

-- The trie's answers for a key, live and in the snapshot, against each other.
abbrev pub compare_reads :
    Bytes → Option (Option Bytes) → Option (Option Bytes) → Option CommitError → Option CommitError
compare_reads key (some live) (some snap) later =
    if same_value live snap then later else some (conflict key)
compare_reads key _ _ later = some panicked

unfoldable pub check_reads : List Bytes → Hamt → Hamt → Option CommitError
check_reads [] live snapshot = none
check_reads (key ∷ keys) live snapshot =
    compare_reads key (Hamt.get key live) (Hamt.get key snapshot) (check_reads keys live snapshot)

-- `state` is the engine's trie.
module _ {E : Type 0} (kv : KeyValue E) (state : E → Hamt) where
  unfoldable pub begin_tx : ℕ → UmpHandler E → ℕ × UmpHandler E
  unfolding begin from_byte
  begin_tx isolation h =
      let (tx_id, mgr) = begin (from_byte isolation) (state h.engine) h.tx_mgr in
      (tx_id, record h { tx_mgr = mgr })

  abbrev apply_op : TxOp → E → Written E
  apply_op (put_op k v) e = kv.put k v e
  apply_op (delete_op k) e = kv.delete k e

  unfoldable pub apply_ops : List TxOp → E → Written E
  apply_ops [] e = done e
  apply_ops (op ∷ ops) e = elim (apply_op op e) [
    | refused e' ↦ refused e'
    | done e' ↦ apply_ops ops e'
  ]

  abbrev pub validated : TxSession → E → Option CommitError
  validated s e =
      if is_serializable s.isolation then check_reads s.read_set (state e) s.snapshot else none

  -- The session is taken out of the table under one lock.
  abbrev pub taken : ℕ → UmpHandler E → UmpHandler E
  taken tx_id h = record h { tx_mgr = (remove_session tx_id h.tx_mgr).1 }

  -- The writes, under the lock for writing.
  unfoldable pub write_session : TxSession → E → Commit E
  unfolding apply_ops
  write_session s e = elim (apply_ops s.write_buffer e) [
    | refused e' ↦ failed io_error e'
    | done e' ↦ committed (length s.write_buffer) e'
  ]

  -- `before` is what other threads do before the lock for the check is held, and `between` what they
  -- do from there until the lock for writing is held.
  unfoldable pub commit_session :
      (UmpHandler E → UmpHandler E)
      → (UmpHandler E → UmpHandler E)
      → TxSession
      → UmpHandler E
      → Commit E × TxManager
  unfolding check_reads write_session is_serializable
  commit_session before between s h =
      let checked = before h in
      let free = between checked in
      elim (validated s checked.engine) [
        | some error ↦ (failed error checked.engine, checked.tx_mgr)
        | none ↦ (write_session s free.engine, free.tx_mgr)
      ]

  -- The session is gone whatever comes of the commit.
  unfoldable pub commit_tx :
      (UmpHandler E → UmpHandler E)
      → (UmpHandler E → UmpHandler E)
      → ℕ
      → UmpHandler E
      → Commit E × TxManager
  unfolding commit_session remove_session
  commit_tx before between tx_id h = elim (remove_session tx_id h.tx_mgr).0 [
    | none ↦ (failed not_found h.engine, (taken tx_id h).tx_mgr)
    | some s ↦ commit_session before between s (taken tx_id h)
  ]

  unfoldable pub rollback_tx : ℕ → UmpHandler E → Bool × UmpHandler E
  unfolding remove_session
  rollback_tx tx_id h =
      let (found, mgr) = remove_session tx_id h.tx_mgr in
      (elim found [ none ↦ false | some s ↦ true ], record h { tx_mgr = mgr })

  -- `none` is a panic of the trie; without a transaction the read is live.
  unfoldable pub tx_get : ℕ → Bytes → UmpHandler E → Option (Option Bytes) × UmpHandler E
  unfolding get_session update_session Session.get scope_key
  tx_get tx_id key h = elim (get_session tx_id h.tx_mgr) [
    | none ↦ (some (kv.get (scope_key 0 key) h.engine), h)
    | some s ↦ (
      (Session.get (scope_key 0 key) s).0,
      record h {
        tx_mgr = update_session tx_id (λ t. (Session.get (scope_key 0 key) t).1) h.tx_mgr;
      },
    )
  ]

  unfoldable pub tx_put : ℕ → Bytes → Bytes → UmpHandler E → Bool × UmpHandler E
  unfolding update_session exists Session.put scope_key
  tx_put tx_id key value h = (
    exists tx_id h.tx_mgr,
    record h { tx_mgr = update_session tx_id (Session.put (scope_key 0 key) value) h.tx_mgr },
  )

  unfoldable pub tx_delete : ℕ → Bytes → UmpHandler E → Bool × UmpHandler E
  unfolding update_session exists Session.delete scope_key
  tx_delete tx_id key h = (
    exists tx_id h.tx_mgr,
    record h { tx_mgr = update_session tx_id (Session.delete (scope_key 0 key)) h.tx_mgr },
  )

  -- The texts of the error messages are parameters.
  module _ (op : Opcodes) (error_text : CommitError → Bytes) (missing_text : ℕ → Bytes) where
    unfoldable pub handle_tx_begin : ℕ → UmpHandler E → Response × UmpHandler E
    unfolding begin_tx enc
    handle_tx_begin isolation h =
        let (tx_id, h') = begin_tx isolation h in
        (single op.op_result_end (enc (u64_field tx_id ∷ [])), h')

    unfoldable pub handle_tx_commit :
        (UmpHandler E → UmpHandler E)
        → (UmpHandler E → UmpHandler E)
        → ℕ
        → UmpHandler E
        → Response × UmpHandler E
    unfolding commit_tx error_response result_end_response
    handle_tx_commit before between tx_id h =
        let (outcome, mgr) = commit_tx before between tx_id h in
        elim outcome [
          | failed error e ↦
              (error_response op 0x61 (error_text error), record { engine = e; tx_mgr = mgr })
          | committed count e ↦
              (result_end_response op count 0, record { engine = e; tx_mgr = mgr })
        ]

    unfoldable pub handle_tx_rollback : ℕ → UmpHandler E → Response × UmpHandler E
    unfolding rollback_tx error_response result_end_response
    handle_tx_rollback tx_id h =
        let (found, h') = rollback_tx tx_id h in
        (
          if found then result_end_response op 0 0 else error_response op 0x60 (missing_text tx_id),
          h',
        )

    unfoldable pub handle_tx_status : ℕ → UmpHandler E → Response
    unfolding exists enc
    handle_tx_status tx_id h = single op.op_result_end (
        enc (
          u64_field tx_id
          ∷ string_field (
              if exists tx_id h.tx_mgr
              then b'a' ∷ b'c' ∷ b't' ∷ b'i' ∷ b'v' ∷ b'e' ∷ []
              else b'u' ∷ b'n' ∷ b'k' ∷ b'n' ∷ b'o' ∷ b'w' ∷ b'n' ∷ [])
          ∷ []))

-- ===== src/Tx/Session.antt =====
-- src/tx/session.rs: client transactions, each with a snapshot of the trie and a write buffer.
pub mod Reads
pub mod Manager
use uldb.Prelude.{
  ℕ, suc, ◌+◌, ◌-◌, ◌≡◌, List, [], ◌∷◌, ◌++◌, Option, some, none, Bool, true, false, if◌then◌else◌,
  ◌==◌, length, nat_eq,
}
use uldb.Bytes.{Bytes, bytes_eq}
use uldb.Maps.{lookup, insert, remove, contains_key}
use uldb.Tx.Hamt.{Hamt}
use uldb.Tx.Hamt

pub data TxIsolation : Type 0 where
  read_committed : TxIsolation
  snapshot_level : TxIsolation
  serializable : TxIsolation

unfoldable pub from_byte : ℕ → TxIsolation
from_byte b =
    if b == 1
    then read_committed
    else if b == 2
    then snapshot_level
    else if b == 3
    then serializable
    else snapshot_level

unfoldable pub is_serializable : TxIsolation → Bool
is_serializable read_committed = false
is_serializable snapshot_level = false
is_serializable serializable = true

pub data TxOp : Type 0 where
  put_op : Bytes → Bytes → TxOp
  delete_op : Bytes → TxOp

pub record TxSession : Type 0 where
  pub tx_id : ℕ
  pub isolation : TxIsolation
  pub snapshot : Hamt
  pub write_buffer : List TxOp
  pub read_set : List Bytes
  pub begin_ts : ℕ

abbrev pub new : ℕ → TxIsolation → Hamt → ℕ → TxSession
new tx_id isolation snapshot begin_ts = record {
  tx_id = tx_id;
  isolation = isolation;
  snapshot = snapshot;
  write_buffer = [];
  read_set = [];
  begin_ts = begin_ts;
}

-- What a buffered operation says of a key: the value it sets, `some none` where it deletes the
-- key, and `none` where it is about another key.
unfoldable pub says : Bytes → TxOp → Option (Option Bytes)
says key (put_op k v) = if k == key then some (some v) else none
says key (delete_op k) = if k == key then some none else none

-- The latest operation on the key: the loop over `write_buffer.iter().rev()`.
unfoldable pub last_op : Bytes → List TxOp → Option (Option Bytes)
unfolding says
last_op key [] = none
last_op key (op ∷ ops) =
    let later = last_op key ops in elim later [ none ↦ says key op | some answer ↦ some answer ]

unfoldable pub track : Bytes → TxSession → TxSession
unfolding is_serializable
track key s = record s {
  read_set = if is_serializable s.isolation then s.read_set ++ key ∷ [] else s.read_set;
}

-- The answer, and the session after the read. An answer `none` is a panic of the trie.
unfoldable pub get : Bytes → TxSession → Option (Option Bytes) × TxSession
unfolding last_op track Hamt.get
get key s = elim (last_op key s.write_buffer) [
  | some answer ↦ (some answer, s)
  | none ↦ (Hamt.get key s.snapshot, track key s)
]

unfoldable pub put : Bytes → Bytes → TxSession → TxSession
put key value s = record s { write_buffer = s.write_buffer ++ put_op key value ∷ [] }

unfoldable pub delete : Bytes → TxSession → TxSession
delete key s = record s { write_buffer = s.write_buffer ++ delete_op key ∷ [] }

unfoldable pub buffer_len : TxSession → ℕ
buffer_len s = length s.write_buffer

pub record TxManager : Type 0 where
  pub sessions : List (ℕ × TxSession)
  pub next_id : ℕ
  pub next_ts : ℕ

abbrev pub new_manager : TxManager
new_manager = record { sessions = []; next_id = 1; next_ts = 1 }

-- The two counters are 64 bits wide, and are not taken to wrap around.
unfoldable pub begin : TxIsolation → Hamt → TxManager → ℕ × TxManager
unfolding insert
begin isolation snapshot m = (
  m.next_id,
  record {
    sessions = insert m.next_id (new m.next_id isolation snapshot m.next_ts) m.sessions;
    next_id = m.next_id + 1;
    next_ts = m.next_ts + 1;
  },
)

unfoldable pub get_session : ℕ → TxManager → Option TxSession
unfolding lookup
get_session tx_id m = lookup tx_id m.sessions

-- `get_mut`, and what the caller does with the session.
unfoldable pub update_session : ℕ → (TxSession → TxSession) → TxManager → TxManager
unfolding insert lookup
update_session tx_id f m = elim (lookup tx_id m.sessions) [
  | none ↦ m
  | some s ↦ record m { sessions = insert tx_id (f s) m.sessions }
]

unfoldable pub remove_session : ℕ → TxManager → Option TxSession × TxManager
unfolding lookup remove
remove_session tx_id m = (lookup tx_id m.sessions, record m { sessions = remove tx_id m.sessions })

unfoldable pub active_count : TxManager → ℕ
active_count m = length m.sessions

unfoldable pub exists : ℕ → TxManager → Bool
unfolding contains_key
exists tx_id m = contains_key tx_id m.sessions

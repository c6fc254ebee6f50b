-- ===== src/Tx/Session/Manager.antt =====
-- The table of active transactions (src/tx/session.rs).
use uldb.Prelude.{ℕ, ◌+◌, ◌≡◌, ◌≤◌, some, none, false, if◌then◌else◌, ◌==◌, arith, refl, nat_eq}
use uldb.Maps.{
  lookup, remove, contains_key, lookup-insert, lookup-remove, length-insert, contains-is_some,
}
use uldb.Tx.Hamt.{Hamt}
use uldb.Tx.Session.{
  TxIsolation, TxSession, TxManager, new, begin, get_session, update_session, remove_session,
  active_count, exists,
}

-- No identifier from the counter on is in use.
unfoldable pub IsValid : TxManager → Type 0
unfolding get_session
IsValid m = (id : ℕ) → m.next_id ≤ id → get_session id m ≡ none

-- A transaction that begins gets an identifier that no active one has. It is then active, with an
-- empty buffer, and the others are as they were.
pub begin_lem :
    (level : TxIsolation) (snapshot : Hamt) (m : TxManager)
    → IsValid m
    → let (id, m') = begin level snapshot m in
      IsValid m'
      × (exists id m ≡ false)
      × (active_count m' ≡ active_count m + 1)
      × ((j : ℕ)
          → get_session j m'
            ≡ (if id == j then some (new id level snapshot m.next_ts) else get_session j m))
unfolding IsValid get_session begin exists active_count
begin_lem level snapshot m valid =
    let fresh : lookup m.next_id m.sessions ≡ none = valid m.next_id (omega arith) in
    let free : contains_key m.next_id m.sessions ≡ false =
      ground (arith, contains-is_some m.next_id m.sessions, fresh) in
    let s = new m.next_id level snapshot m.next_ts in
    (
      λ j le.
          ground
            (arith, lookup-insert m.next_id j s m.sessions, nat_eq.beq_iff m.next_id j, valid j),
      free,
      ground (arith, length-insert m.next_id s m.sessions, free),
      λ j. lookup-insert m.next_id j s m.sessions,
    )

-- What is done to one session leaves every other one as it was, and ends none.
pub update_session_lem :
    (id : ℕ) (f : TxSession → TxSession) (m : TxManager) (s : TxSession)
    → get_session id m ≡ some s
    → (j : ℕ)
    → get_session j (update_session id f m) ≡ (if id == j then some (f s) else get_session j m)
unfolding get_session update_session
update_session_lem id f m s e j = ground (arith, e, lookup-insert id j (f s) m.sessions)

-- A session taken out is no longer active, and the others are as they were.
pub remove_session_lem :
    (id : ℕ) (m : TxManager)
    → let (out, m') = remove_session id m in
      (out ≡ get_session id m)
      × (exists id m' ≡ false)
      × ((j : ℕ) → get_session j m' ≡ (if id == j then none else get_session j m))
unfolding remove_session get_session exists
remove_session_lem id m = (
  refl,
  ground (
    arith,
    contains-is_some id (remove id m.sessions),
    lookup-remove id id m.sessions,
    nat_eq.beq_iff id id,
  ),
  λ j. lookup-remove id j m.sessions,
)

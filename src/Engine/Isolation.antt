-- ===== src/Engine/Isolation.antt =====
-- Snapshots (src/engine.rs) stay as they were, whatever is written after them.
use uldb.Prelude.{
  ℕ, ◌+◌, ◌≡◌, List, [], ◌∷◌, Option, some, none, Bool, true, false, arith, refl, ap, ◌∙◌, sym,
  ==_refl, Option-cases, Bool-cases, inl, inr,
}
use uldb.Bytes.{Bytes, bytes_eq}
use uldb.Maps.{lookup, lookup-insert}
use uldb.Storage.Memtable
use uldb.Storage.Wal.Writer
use uldb.Tx.Hamt
use uldb.Tx.Hamt.{Hamt}
use uldb.Engine.{
  Engine, Outcome, ok, io_error, panicked, put, delete, settle, flush_memtable, worker_step,
  frozen_to_page,
}
use uldb.Engine.Snapshots.{snapshot_create, snapshot_name, snapshot_get, snapshot_restore}

lookup-snapshot_create :
    (name : Bytes) (e : Engine)
    → let (id, e') = snapshot_create name e in lookup id e'.snapshots ≡ some e.state
unfolding snapshot_create
lookup-snapshot_create [] e =
    let id = snapshot_name (e.snapshot_counter + 1) in
    lookup-insert id id e.state e.snapshots ∙ rw (==_refl id)
lookup-snapshot_create (c ∷ name) e =
    lookup-insert (c ∷ name) (c ∷ name) e.state e.snapshots ∙ rw (==_refl (c ∷ name))

-- What can happen to an engine between two snapshot operations: a put or a delete, each with the
-- answers of the operating system to its two writes, or a step of the worker.
pub data Event : Type 0 where
  put_event : Bool → Bool → Bytes → Bytes → Event
  delete_event : Bool → Bool → Bytes → Event
  worker_event : Event

-- An error leaves the engine in use, a panic does not (`none`).
abbrev pub engine_of : Outcome → Option Engine
engine_of (ok e) = some e
engine_of (io_error e) = some e
engine_of panicked = none

module _ (ideal_bits : ℕ → ℕ) (ideal_hashes : ℕ → ℕ → ℕ) (crc : Bytes → ℕ)
    (deflate : Bytes → Bytes) where
  unfoldable pub happen : Event → Engine → Option Engine
  unfolding put delete worker_step
  happen (put_event appended flushed k v) e =
      engine_of (put ideal_bits ideal_hashes crc appended flushed k v e)
  happen (delete_event appended flushed k) e =
      engine_of (delete ideal_bits ideal_hashes crc appended flushed k e)
  happen worker_event e = some (worker_step deflate e)

  unfoldable pub happen_all : List Event → Engine → Option Engine
  unfolding happen
  happen_all [] e = some e
  happen_all (event ∷ events) e = elim (happen event e) [
    | none ↦ none
    | some e' ↦ happen_all events e'
  ]

  -- The snapshots of an outcome.
  abbrev Keeps : List (Bytes × Hamt) → Option Engine → Type 0
  Keeps snaps none = Unit
  Keeps snaps (some e) = e.snapshots ≡ snaps

  flush-Keeps :
      (e : Engine) → Keeps e.snapshots (engine_of (flush_memtable ideal_bits ideal_hashes e))
  unfolding flush_memtable
  flush-Keeps e =
      elim (Option-cases (frozen_to_page ideal_bits ideal_hashes (Memtable.drain e.memtable).0)) [
        | inl dead ↦ rw (dead, flush_memtable) tt
        | inr f ↦ elim (Bool-cases e.worker_alive) [
          | inl alive ↦ rw (f.1, flush_memtable, alive) refl
          | inr gone ↦ rw (f.1, flush_memtable, gone) refl
        ]
      ]

  settle-Keeps :
      (signal : Bool) (state : Option Hamt) (e : Engine)
      → Keeps e.snapshots (engine_of (settle ideal_bits ideal_hashes signal state e))
  unfolding settle
  settle-Keeps signal none e = tt
  settle-Keeps true (some state) e = flush-Keeps (record e { state = state })
  settle-Keeps false (some state) e = refl

  happen-Keeps : (event : Event) (e : Engine) → Keeps e.snapshots (happen event e)
  unfolding happen put delete worker_step Writer.append Writer.flush
  happen-Keeps (put_event false flushed k v) e = refl
  happen-Keeps (put_event true false k v) e = refl
  happen-Keeps (put_event true true k v) e = settle-Keeps _ (Hamt.put k v e.state) _
  happen-Keeps (delete_event false flushed k) e = refl
  happen-Keeps (delete_event true false k) e = refl
  happen-Keeps (delete_event true true k) e = settle-Keeps _ (Hamt.delete k e.state) _
  happen-Keeps worker_event e = at e.queue refl
    where
      at : (q : List _) → q ≡ e.queue → (worker_step deflate e).snapshots ≡ e.snapshots
      at [] h = ground (arith, sym h)
      at (page ∷ later) h = ground (arith, sym h)

  happen_all-Keeps :
      (events : List Event) (e e' : Engine)
      → happen_all events e ≡ some e'
      → e'.snapshots ≡ e.snapshots
  unfolding happen_all
  happen_all-Keeps [] e e' h = ground (arith, h)
  happen_all-Keeps (event ∷ events) e e' h = elim (Option-cases (happen event e)) [
    | inl dead ↦ absurd (ground (arith, h, dead))
    | inr f ↦
        let (mid, made) = f in
        let kept : mid.snapshots ≡ e.snapshots = rw made at (happen-Keeps event e) in
        let more : happen_all events mid ≡ some e' = ground (arith, h, made) in
        happen_all-Keeps events mid e' more ∙ kept
  ]

  -- A snapshot reads as the live trie did when it was made, and restoring it gives that trie back,
  -- whatever puts, deletes and steps of the worker come in between, refused ones included, as long
  -- as none of them panics.
  pub snapshot_get-snapshot_create :
      (name : Bytes) (e : Engine) (events : List Event) (e' : Engine)
      → happen_all events (snapshot_create name e).1 ≡ some e'
      → ((j : Bytes) → snapshot_get (snapshot_create name e).0 j e' ≡ Hamt.get j e.state)
        × ((snapshot_restore (snapshot_create name e).0 e').1 ≡ true)
        × ((snapshot_restore (snapshot_create name e).0 e').0.state ≡ e.state)
  unfolding snapshot_get snapshot_restore
  snapshot_get-snapshot_create name e events e' h =
      let id = (snapshot_create name e).0 in
      let held : lookup id e'.snapshots ≡ some e.state =
        ap (lookup id) (happen_all-Keeps events (snapshot_create name e).1 e' h)
        ∙ lookup-snapshot_create name e in
      (λ j. rw (held, snapshot_get), rw (held, snapshot_restore), rw (held, snapshot_restore))

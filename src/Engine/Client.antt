-- ===== src/Engine/Client.antt =====
-- `Engine` of src/engine.rs as the interface of its clients, with the laws that they use.
use uldb.Prelude.{
  ℕ, ◌+◌, ◌≡◌, ◌⊎◌, List, [], Option, some, none, Bool, true, false, if◌then◌else◌, ◌==◌, arith,
  refl, sym, ap, subst, ◌∙◌, Option-cases, Bool-cases, inl, inr,
}
use uldb.Bytes.{Bytes, bytes_eq}
use uldb.KeyValue.{KeyValue, Laws, Written, done, refused}
use uldb.Storage.Memtable
use uldb.Storage.Wal.Writer
use uldb.Tx.Hamt
use uldb.Tx.Hamt.{Hamt}
use uldb.Engine.{
  Engine, Outcome, ok, io_error, panicked, put, delete, settle, flush_memtable, frozen_to_page,
}
use uldb.Engine.Lookup.{scan}
use uldb.Engine.Reads.{reads}
use uldb.Engine.Writes.{put_lem, delete_lem}

-- A call that returns an error or panics is not done.
unfoldable pub written : Engine → Outcome → Written Engine
written e (ok e') = done e'
written e (io_error e') = refused e'
written e panicked = refused e

abbrev or_nothing : Option (List (Bytes × Bytes)) → List (Bytes × Bytes)
or_nothing none = []
or_nothing (some entries) = entries

-- A write that is done gave a new engine.
written-ok : (e e' : Engine) (o : Outcome) → written e o ≡ done e' → o ≡ ok e'
unfolding written
written-ok e e' (ok e₁) h = let same : e₁ ≡ e' = ground (arith, h) in ap ok same
written-ok e e' (io_error e₁) h = cc
written-ok e e' panicked h = cc

abbrev counted : Outcome → ℕ
counted (ok e) = e.flush_count
counted _ = 0

module _ (ideal_bits : ℕ → ℕ) (ideal_hashes : ℕ → ℕ → ℕ) where
  -- A flush that succeeds is counted.
  flush_memtable-counts :
      (e e' : Engine)
      → flush_memtable ideal_bits ideal_hashes e ≡ ok e'
      → e'.flush_count ≡ e.flush_count + 1
  unfolding flush_memtable
  flush_memtable-counts e e' h =
      elim (Option-cases (frozen_to_page ideal_bits ideal_hashes (Memtable.drain e.memtable).0)) [
        | inl p ↦ absurd (ground (arith, h, p))
        | inr (page, p) ↦ elim (Bool-cases e.worker_alive) [
          | inl alive ↦ sym (ap counted h) ∙ rw (p, alive, flush_memtable) refl
          | inr gone ↦ absurd (ground (arith, h, p, gone))
        ]
      ]

  -- What is left of a write after its record is in the log: it flushes, and counts that, or not.
  settle-cases :
      (should_flush : Bool) (state : Option Hamt) (e e' : Engine)
      → settle ideal_bits ideal_hashes should_flush state e ≡ ok e'
      → (e'.flush_count ≡ e.flush_count + 1)
        ⊎ ((should_flush ≡ false)
            × (e'.flush_count ≡ e.flush_count)
            × ((h : Hamt) × (state ≡ some h)))
  unfolding settle
  settle-cases should_flush none e e' h = cc
  settle-cases true (some state) e e' h =
      inl (flush_memtable-counts (record e { state = state }) e' h)
  settle-cases false (some state) e e' h =
      let same : record e { state = state } ≡ e' = ground (arith, h) in
      inr (refl, sym (ap (λ x. x.flush_count) same), (state, refl))

  -- Whether the operating system accepts the two writes of a call in a state.
  module _ (crc : Bytes → ℕ) (appended flushed : Engine → Bool) where
    abbrev put_in : Bytes → Bytes → Engine → Written Engine
    put_in k v e = written e (put ideal_bits ideal_hashes crc (appended e) (flushed e) k v e)

    abbrev delete_in : Bytes → Engine → Written Engine
    delete_in k e = written e (delete ideal_bits ideal_hashes crc (appended e) (flushed e) k e)

    abbrev scan_in : Bytes → Bytes → Engine → List (Bytes × Bytes)
    scan_in start end e = or_nothing (scan start end e)

    abbrev count_in : Engine → ℕ
    count_in e = e.flush_count

    abbrev pub engine_client : KeyValue Engine
    engine_client = record {
      put = put_in;
      delete = delete_in;
      get = reads;
      scan = scan_in;
      flush_count = count_in;
    }

    -- What a put that returned did.
    put_ok-cases :
        (a f : Bool) (k v : Bytes) (e e' : Engine)
        → put ideal_bits ideal_hashes crc a f k v e ≡ ok e'
        → (e'.flush_count ≡ e.flush_count + 1)
          ⊎ ((a ≡ true)
              × (f ≡ true)
              × ((Memtable.put k v e.memtable).1 ≡ false)
              × (e'.flush_count ≡ e.flush_count)
              × ((h : Hamt) × (Hamt.put k v e.state ≡ some h)))
    unfolding put Writer.append Writer.flush
    put_ok-cases false f k v e e' h = cc
    put_ok-cases true false k v e e' h = cc
    put_ok-cases true true k v e e' h =
        elim (settle-cases (Memtable.put k v e.memtable).1 (Hamt.put k v e.state) _ e' h) [
          | inl flushed_once ↦ inl flushed_once
          | inr (room, same, state) ↦ inr (refl, refl, room, same, state)
        ]

    delete_ok-cases :
        (a f : Bool) (k : Bytes) (e e' : Engine)
        → delete ideal_bits ideal_hashes crc a f k e ≡ ok e'
        → (e'.flush_count ≡ e.flush_count + 1)
          ⊎ ((a ≡ true)
              × (f ≡ true)
              × ((Memtable.delete k e.memtable).1 ≡ false)
              × (e'.flush_count ≡ e.flush_count)
              × ((h : Hamt) × (Hamt.delete k e.state ≡ some h)))
    unfolding delete Writer.append Writer.flush
    delete_ok-cases false f k e e' h = cc
    delete_ok-cases true false k e e' h = cc
    delete_ok-cases true true k e e' h =
        elim (settle-cases (Memtable.delete k e.memtable).1 (Hamt.delete k e.state) _ e' h) [
          | inl flushed_once ↦ inl flushed_once
          | inr (room, same, state) ↦ inr (refl, refl, room, same, state)
        ]

    put-quiet :
        (a f : Bool) (k v j : Bytes) (e e' : Engine)
        → put ideal_bits ideal_hashes crc a f k v e ≡ ok e'
        → e'.flush_count ≡ e.flush_count
        → reads j e' ≡ (if k == j then some v else reads j e)
    put-quiet a f k v j e e' h calm = elim (put_ok-cases a f k v e e' h) [
      | inl flushed_once ↦ absurd (omega (arith, calm, flushed_once))
      | inr (at, ft, room, _, state) ↦
          let (e₁, out, _, _, read) =
            put_lem ideal_bits ideal_hashes crc k v e state.0 state.1 room in
          let mine : put ideal_bits ideal_hashes crc true true k v e ≡ ok e' =
            subst (λ x. put ideal_bits ideal_hashes crc x true k v e ≡ ok e') at
              (subst (λ y. put ideal_bits ideal_hashes crc a y k v e ≡ ok e') ft h) in
          let same : e₁ ≡ e' = ground (arith, out, mine) in sym (ap (reads j) same) ∙ read j
    ]

    delete-quiet :
        (a f : Bool) (k j : Bytes) (e e' : Engine)
        → delete ideal_bits ideal_hashes crc a f k e ≡ ok e'
        → e'.flush_count ≡ e.flush_count
        → reads j e' ≡ (if k == j then none else reads j e)
    delete-quiet a f k j e e' h calm = elim (delete_ok-cases a f k e e' h) [
      | inl flushed_once ↦ absurd (omega (arith, calm, flushed_once))
      | inr (at, ft, room, _, state) ↦
          let (e₁, out, _, _, read) =
            delete_lem ideal_bits ideal_hashes crc k e state.0 state.1 room in
          let mine : delete ideal_bits ideal_hashes crc true true k e ≡ ok e' =
            subst (λ x. delete ideal_bits ideal_hashes crc x true k e ≡ ok e') at
              (subst (λ y. delete ideal_bits ideal_hashes crc a y k e ≡ ok e') ft h) in
          let same : e₁ ≡ e' = ground (arith, out, mine) in sym (ap (reads j) same) ∙ read j
    ]

    -- The engine keeps the laws of its clients, whichever writes the operating system accepts: a put
    -- or a deletion that succeeds and does not flush changes the reads of its key only, and none
    -- lowers the number of flushes.
    pub engine-Laws : Laws engine_client
    engine-Laws = record {
      put-grows = λ k v e e' h.
          elim (put_ok-cases (appended e) (flushed e) k v e e' (written-ok e e' _ h)) [
            | inl once ↦ omega (arith, once)
            | inr (_, _, _, same, _) ↦ omega (arith, same)
          ];
      delete-grows = λ k e e' h.
          elim (delete_ok-cases (appended e) (flushed e) k e e' (written-ok e e' _ h)) [
            | inl once ↦ omega (arith, once)
            | inr (_, _, _, same, _) ↦ omega (arith, same)
          ];
      get-put = λ k v j e e' h calm.
          put-quiet (appended e) (flushed e) k v j e e' (written-ok e e' _ h) calm;
      get-delete = λ k j e e' h calm.
          delete-quiet (appended e) (flushed e) k j e e' (written-ok e e' _ h) calm;
    }

-- ===== src/Server/Transactions/Commits.antt =====
-- What a commit does to the engine (src/server.rs, `commit_tx`).
use uldb.Prelude.{
  ℕ, nat_eq, ◌≡◌, List, [], ◌∷◌, Option, some, none, true, ◌==◌, length, arith, refl, sym, ap, ◌∙◌,
  All, Option-cases, Bool-cases, inl, inr,
}
use uldb.Bytes.{Bytes, bytes_eq}
use uldb.KeyValue.{KeyValue, Written-cases, done}
use uldb.Tx.Hamt.{Hamt}
use uldb.Tx.Hamt
use uldb.Tx.Session.{TxSession, is_serializable, remove_session, get_session}
use uldb.Server.Transactions.{
  UmpHandler, CommitError, committed, compare_reads, check_reads, apply_ops, validated, taken,
  write_session, commit_session, commit_tx,
}

-- What a key reads after operations, by the last one on it.
abbrev pub overlaid : Option (Option Bytes) → Option Bytes → Option Bytes
overlaid none before = before
overlaid (some answer) before = answer

-- A key whose value is the same in both tries, neither of which panics.
abbrev pub Unchanged : Hamt → Hamt → Bytes → Type 0
Unchanged live snapshot k =
    (x : Option Bytes) × (Hamt.get k live ≡ some x) × (Hamt.get k snapshot ≡ some x)

module _ {E : Type 0} (kv : KeyValue E) (state : E → Hamt) where
  compare_reads-none :
      (k : Bytes) (live snap : Option (Option Bytes)) (later : Option CommitError)
      → compare_reads k live snap later ≡ none
      → (live ≡ snap) × (later ≡ none)
  compare_reads-none k none snap later h = cc
  compare_reads-none k (some live) none later h = cc
  compare_reads-none k (some none) (some none) later h = (refl, h)
  compare_reads-none k (some none) (some (some w)) later h = cc
  compare_reads-none k (some (some v)) (some none) later h = cc
  compare_reads-none k (some (some v)) (some (some w)) later h = elim (Bool-cases (v == w)) [
    | inl same ↦ (ap (λ x. some (some x)) ((bytes_eq.beq_iff v w).0 same), ground (arith, h, same))
    | inr apart ↦ absurd (ground (arith, h, apart))
  ]

  check_reads-same :
      (keys : List Bytes) (live snapshot : Hamt)
      → check_reads keys live snapshot ≡ none
      → All (λ k. Hamt.get k live ≡ Hamt.get k snapshot) keys
  unfolding check_reads
  check_reads-same [] live snapshot h = tt
  check_reads-same (k ∷ keys) live snapshot h =
      let both =
        compare_reads-none k (Hamt.get k live) (Hamt.get k snapshot)
          (check_reads keys live snapshot) h in
      (both.0, check_reads-same keys live snapshot both.1)

  commit_tx-found :
      (before between : UmpHandler E → UmpHandler E) (tx_id : ℕ) (s : TxSession) (h : UmpHandler E)
      → get_session tx_id h.tx_mgr ≡ some s
      → commit_tx kv state before between tx_id h
        ≡ commit_session kv state before between s (taken kv state tx_id h)
  unfolding commit_tx get_session remove_session
  commit_tx-found before between tx_id s h at = rw (at, commit_tx) refl

  commit_session-committed :
      (before between : UmpHandler E → UmpHandler E) (s : TxSession) (h : UmpHandler E) (n : ℕ)
      (e : E)
      → (commit_session kv state before between s h).0 ≡ committed n e
      → (validated kv state s (before h).engine ≡ none)
        × (n ≡ length s.write_buffer)
        × (apply_ops kv state s.write_buffer (between (before h)).engine ≡ done e)
  unfolding commit_session write_session
  commit_session-committed before between s h n e out =
      elim (Option-cases (validated kv state s (before h).engine)) [
        | inr (error, bad) ↦ absurd (ground (arith, out, bad))
        | inl good ↦
            elim (Written-cases (apply_ops kv state s.write_buffer (between (before h)).engine)) [
              | inl (e₁, w) ↦ absurd (ground (arith, out, good, w))
              | inr (e₁, w) ↦
                  let same : e₁ ≡ e = ground (arith, out, good, w) in
                  (good, ground (arith, out, good, w), w ∙ ap done same)
            ]
      ]

  -- Whatever other threads do meanwhile, a serializable transaction that commits had read nothing
  -- that had changed when it was checked: each key that it read then had the same value in the live
  -- trie as in its snapshot. Between the check and the writes other threads may change it.
  pub commit_tx-read_set :
      (before between : UmpHandler E → UmpHandler E) (tx_id : ℕ) (s : TxSession) (h : UmpHandler E)
      (n : ℕ) (e : E)
      → get_session tx_id h.tx_mgr ≡ some s
      → is_serializable s.isolation ≡ true
      → (commit_tx kv state before between tx_id h).0 ≡ committed n e
      → All
          (λ k. Hamt.get k (state (before (taken kv state tx_id h)).engine) ≡ Hamt.get k s.snapshot)
          s.read_set
  commit_tx-read_set before between tx_id s h n e at strict out =
      let h₁ = taken kv state tx_id h in
      let did =
        commit_session-committed before between s h₁ n e
          (sym (ap (λ p. p.0) (commit_tx-found before between tx_id s h at)) ∙ out) in
      check_reads-same s.read_set (state (before h₁).engine) s.snapshot
        (sym (rw strict refl) ∙ did.0)

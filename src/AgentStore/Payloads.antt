-- ===== src/AgentStore/Payloads.antt =====
-- Storing, loading, appending to and deleting agent payloads (src/agent_store.rs).
use uldb.Prelude.{
  ◌≤◌, ◌-◌, ◌≡◌, List, [], ◌∷◌, ◌++◌, some, true, false, if◌then◌else◌, arith, refl, sym, ap, ◌∙◌,
  length, length-append, leb, ==_refl, drop, drop-append, Bool-cases, inl, inr,
}
use uldb.Bytes.{Bytes, bytes_eq}
use uldb.Bytes.Utf8.{is_utf8}
use uldb.KeyValue.{KeyValue, Laws, Written-cases, done}
use uldb.AgentStore.{
  Codec, agent_prefix, record_key, put_records, store_payload, load_payload, get_recent_records,
  append_records, decoded, or_default, recent,
}

-- The last elements of a list, as many as the second part has.
last_of :
    {R : Type 0} (xs ys : List R)
    → (if leb (length (xs ++ ys)) (length ys)
        then xs ++ ys
        else drop (length (xs ++ ys) - length ys) (xs ++ ys))
      ≡ ys
last_of [] ys = ground arith
last_of (x ∷ xs) ys =
    let long : leb (length (x ∷ (xs ++ ys))) (length ys) ≡ false =
      ground (arith, length-append xs ys) in
    let rest : length (x ∷ xs) ≡ length (x ∷ (xs ++ ys)) - length ys =
      omega (arith, length-append xs ys) in
    rw long (drop-append (length (x ∷ (xs ++ ys)) - length ys) (x ∷ xs) ys rest)

module _ {E R H : Type 0} (kv : KeyValue E) (laws : Laws kv) (c : Codec R H)
    (is_text : (h : H) (rs : List R) → c.validate h rs ≡ true → is_utf8 (c.encode h rs) ≡ true)
    (decode-encode : (h : H) (rs : List R)
      → c.validate h rs ≡ true
      → c.decode (c.encode h rs) ≡ some (h, rs)) where
  put_records-grows :
      (session_key : Bytes) (rs : List R) (e e' : E)
      → put_records kv c session_key rs e ≡ done e'
      → kv.flush_count e ≤ kv.flush_count e'
  unfolding put_records record_key
  put_records-grows session_key [] e e' h =
      let same : e ≡ e' = ground (arith, h) in omega (arith, ap kv.flush_count same)
  put_records-grows session_key (r ∷ rs) e e' h =
      let key = record_key kv c session_key r in
      elim (Written-cases (kv.put key (c.encode_record r) e)) [
        | inl (e₁, failed) ↦ absurd (ground (arith, h, failed))
        | inr (e₁, put_ok) ↦ omega (
          arith,
          laws.put-grows key (c.encode_record r) e e₁ put_ok,
          put_records-grows session_key rs e₁ e' (ground (arith, h, put_ok)),
        )
      ]

  get-put_records :
      (session_key key : Bytes) (rs : List R) (e e' : E)
      → put_records kv c session_key rs e ≡ done e'
      → kv.flush_count e' ≡ kv.flush_count e
      → kv.get (agent_prefix ++ key) e' ≡ kv.get (agent_prefix ++ key) e
  unfolding put_records record_key
  get-put_records session_key key [] e e' h calm = ground (arith, h)
  get-put_records session_key key (r ∷ rs) e e' h calm =
      let put_key = record_key kv c session_key r in
      elim (Written-cases (kv.put put_key (c.encode_record r) e)) [
        | inl (e₁, failed) ↦ absurd (ground (arith, h, failed))
        | inr (e₁, put_ok) ↦
            let rest : put_records kv c session_key rs e₁ ≡ done e' = ground (arith, h, put_ok) in
            let grown = put_records-grows session_key rs e₁ e' rest in
            let first = laws.put-grows put_key (c.encode_record r) e e₁ put_ok in
            get-put_records session_key key rs e₁ e' rest (omega (arith, calm, grown, first))
            ∙ laws.get-put put_key (c.encode_record r) (agent_prefix ++ key) e e₁ put_ok
                (omega (arith, calm, grown, first))
      ]

  stored :
      (session_key : Bytes) (h : H) (rs : List R) (e e' : E)
      → store_payload kv c session_key h rs e ≡ done e'
      → kv.flush_count e' ≡ kv.flush_count e
      → (c.validate h rs ≡ true) × (kv.get (agent_prefix ++ session_key) e' ≡ some (c.encode h rs))
  unfolding store_payload
  stored session_key h rs e e' out calm = elim (Bool-cases (c.validate h rs)) [
    | inr bad ↦ absurd (ground (arith, out, bad))
    | inl good ↦ elim (Written-cases (kv.put (agent_prefix ++ session_key) (c.encode h rs) e)) [
      | inl (e₁, failed) ↦ absurd (ground (arith, out, good, failed))
      | inr (e₁, put_ok) ↦
          let rest : put_records kv c session_key rs e₁ ≡ done e' =
            ground (arith, out, good, put_ok) in
          let grown = put_records-grows session_key rs e₁ e' rest in
          let first = laws.put-grows (agent_prefix ++ session_key) (c.encode h rs) e e₁ put_ok in
          (
            good,
            get-put_records session_key session_key rs e₁ e' rest
                  (omega (arith, calm, grown, first))
                ∙ laws.get-put (agent_prefix ++ session_key) (c.encode h rs)
                    (agent_prefix ++ session_key) e e₁ put_ok (omega (arith, calm, grown, first))
                ∙ rw (==_refl session_key) refl,
          )
    ]
  ]

  -- A payload that was stored without a flush is loaded back.
  pub load-store_payload :
      (session_key : Bytes) (h : H) (rs : List R) (e e' : E)
      → store_payload kv c session_key h rs e ≡ done e'
      → kv.flush_count e' ≡ kv.flush_count e
      → load_payload kv c session_key e' ≡ some (h, rs)
  unfolding load_payload
  load-store_payload session_key h rs e e' out calm =
      let (good, at) = stored session_key h rs e e' out calm in
      ap (decoded kv c) at ∙ rw (is_text h rs good, decode-encode h rs good) refl

  -- After records were appended to a payload and no write of that flushed the memtable, loading gives
  -- its records and then the new ones, and the most recent records, as many as are new, are the new
  -- ones. The engine keeps its laws, and the codec decodes the text of every payload that validates.
  pub load-append_records :
      (session_key : Bytes) (h : H) (rs new_records : List R) (e e' : E)
      → load_payload kv c session_key e ≡ some (h, rs)
      → append_records kv c session_key new_records e ≡ done e'
      → kv.flush_count e' ≡ kv.flush_count e
      → (load_payload kv c session_key e'
          ≡ some (c.with_count (length (rs ++ new_records)) h, rs ++ new_records))
        × (get_recent_records kv c session_key (length new_records) e' ≡ new_records)
  unfolding append_records get_recent_records
  load-append_records session_key h rs new_records e e' held out calm =
      let all = rs ++ new_records in
      let stored_all : store_payload kv c session_key (c.with_count (length all) h) all e
          ≡ done e' =
        sym (
          ap
            (λ p.
              store_payload kv c session_key (c.with_count (length (p.1 ++ new_records)) p.0)
                (p.1 ++ new_records) e)
            (ap (or_default kv c) held))
        ∙ out in
      let loaded =
        load-store_payload session_key (c.with_count (length all) h) all e e' stored_all calm in
      (loaded, ap (recent kv c (length new_records)) loaded ∙ last_of rs new_records)

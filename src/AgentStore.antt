-- ===== src/AgentStore.antt =====
-- src/agent_store.rs: agent payloads over the engine. The engine is an interface, and what
-- `ulmen_core` defines (records, payloads, their text) a parameter of the model.
pub mod Payloads
pub mod Segments
use uldb.Prelude.{
  ℕ, zero, suc, ◌-◌, ◌≡◌, List, [], ◌∷◌, ◌++◌, Option, some, none, Bool, true, false, ◌&&◌, not,
  if◌then◌else◌, length, eqb, leb, ◌==◌, drop, get_elem?,
}
use uldb.Bytes.{Bytes, bytes_eq, blt}
use uldb.Bytes.Utf8.{is_utf8}
use uldb.KeyValue.{KeyValue, Written, done, refused, delete_all}

-- A record has a step, a type and an id, all as text; a payload has a header and records.
pub record Codec (R H : Type 0) : Type 0 where
  pub step_text : R → Bytes
  pub type_text : R → Bytes
  pub id_text : R → Bytes
  pub encode_record : R → Bytes
  pub decode_record : Bytes → Option R
  pub validate : H → List R → Bool
  pub encode : H → List R → Bytes
  pub decode : Bytes → Option (H × List R)
  pub default_header : H
  pub with_count : ℕ → H → H

abbrev pub agent_prefix : Bytes
agent_prefix = b'a' ∷ b'g' ∷ b'e' ∷ b'n' ∷ b't' ∷ b':' ∷ []

abbrev pub record_prefix : Bytes
record_prefix = b'a' ∷ b'r' ∷ b'e' ∷ b'c' ∷ b':' ∷ []

-- The end of the scan of a prefix.
abbrev pub after : Bytes → Bytes
after start = start ++ 0xFF ∷ []

-- `none` as a segment where there are too few.
unfoldable pub segment : ℕ → Bytes → Option Bytes
segment zero [] = some []
segment (suc n) [] = none
segment zero (b ∷ key) =
    if eqb b b':' then some [] else elim (segment zero key) [ none ↦ none | some s ↦ some (b ∷ s) ]
segment (suc n) (b ∷ key) =
    let same = segment (suc n) key in let next = segment n key in if eqb b b':' then next else same

module _ {E R H : Type 0} (kv : KeyValue E) (c : Codec R H) where
  unfoldable pub record_key : Bytes → R → Bytes
  record_key session_key r =
      record_prefix
      ++ (session_key ++ b':' ∷ (c.step_text r ++ b':' ∷ (c.type_text r ++ b':' ∷ c.id_text r)))

  unfoldable pub put_records : Bytes → List R → E → Written E
  unfolding record_key
  put_records session_key [] e = done e
  put_records session_key (r ∷ rs) e =
      elim (kv.put (record_key session_key r) (c.encode_record r) e) [
        | refused e' ↦ refused e'
        | done e' ↦ put_records session_key rs e'
      ]

  -- A payload that fails the validation is refused before anything is written.
  unfoldable pub store_payload : Bytes → H → List R → E → Written E
  unfolding put_records
  store_payload session_key header records e =
      if c.validate header records
      then elim (kv.put (agent_prefix ++ session_key) (c.encode header records) e) [
        | refused e' ↦ refused e'
        | done e' ↦ put_records session_key records e'
      ]
      else refused e

  abbrev pub decoded : Option Bytes → Option (H × List R)
  decoded none = none
  decoded (some bytes) = if is_utf8 bytes then c.decode bytes else none

  unfoldable pub load_payload : Bytes → E → Option (H × List R)
  load_payload session_key e = decoded (kv.get (agent_prefix ++ session_key) e)

  unfoldable pub delete_payload : Bytes → E → Written E
  unfolding delete_all
  delete_payload session_key e = elim (kv.delete (agent_prefix ++ session_key) e) [
    | refused e' ↦ refused e'
    | done e' ↦
        let start = record_prefix ++ session_key in
        delete_all kv (kv.scan start (after start) e') e'
  ]

  unfoldable pub strip_keys : List (Bytes × Bytes) → List Bytes
  strip_keys [] = []
  strip_keys ((k, v) ∷ entries) = drop (length agent_prefix) k ∷ strip_keys entries

  -- Every key of the scan starts with the prefix.
  unfoldable pub list_sessions : E → List Bytes
  unfolding strip_keys
  list_sessions e = strip_keys (kv.scan agent_prefix (after agent_prefix) e)

  abbrev of_type : Bytes → Option Bytes → Bool
  of_type wanted none = false
  of_type wanted (some s) = s == wanted

  abbrev push_record : Option R → List R → List R
  push_record none later = later
  push_record (some r) later = r ∷ later

  -- `parts[3]` of the key's segments.
  unfoldable pub records_of_type : Bytes → List (Bytes × Bytes) → List R
  unfolding segment
  records_of_type wanted [] = []
  records_of_type wanted ((k, v) ∷ entries) =
      let later = records_of_type wanted entries in
      if of_type wanted (segment 3 k) then push_record (c.decode_record v) later else later

  unfoldable pub get_records_by_type : Bytes → Bytes → E → List R
  unfolding records_of_type
  get_records_by_type session_key wanted e =
      let start = record_prefix ++ (session_key ++ b':' ∷ []) in
      records_of_type wanted (kv.scan start (after start) e)

  abbrev pub recent : ℕ → Option (H × List R) → List R
  recent limit none = []
  recent limit (some (header, records)) =
      if leb (length records) limit then records else drop (length records - limit) records

  unfoldable pub get_recent_records : Bytes → ℕ → E → List R
  unfolding load_payload
  get_recent_records session_key limit e = recent limit (load_payload session_key e)

  abbrev pub or_default : Option (H × List R) → H × List R
  or_default none = (c.default_header, [])
  or_default (some payload) = payload

  unfoldable pub append_records : Bytes → List R → E → Written E
  unfolding load_payload store_payload
  append_records session_key new_records e =
      let payload = or_default (load_payload session_key e) in
      let records = payload.1 ++ new_records in
      store_payload session_key (c.with_count (length records) payload.0) records e

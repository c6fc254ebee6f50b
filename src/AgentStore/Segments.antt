-- ===== src/AgentStore/Segments.antt =====
-- The segments of a record's key, by which `get_records_by_type` filters (src/agent_store.rs).
use uldb.Prelude.{◌≡◌, false, eqb, All}
use uldb.Bytes.{Bytes}
use uldb.KeyValue.{KeyValue}

-- A text without a colon.
abbrev pub Plain : Bytes → Type 0
Plain = All (λ b. eqb b b':' ≡ false)

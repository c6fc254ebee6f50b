-- ===== src/Server/Records.antt =====
-- The handlers of records (src/server.rs). Every key is in the namespace 0; texts are their UTF-8
-- bytes, and the texts of the error messages parameters.
use uldb.Prelude.{ℕ, ◌+◌, List, [], ◌∷◌, ◌++◌, Option, some, none, length, take}
use uldb.Bytes.{Bytes, bytes_eq}
use uldb.KeyValue.{KeyValue, Written, done, refused, delete_all}
use uldb.Namespace.{scope_key, unscope_key}
use uldb.Server.{
  Opcodes, Response, single, stream, enc, u32_field, error_response, result_end_response,
  row_payload,
}

abbrev or_empty : Option Bytes → Bytes
or_empty none = []
or_empty (some v) = v

abbrev or_whole : Bytes → Option Bytes → Bytes
or_whole key none = key
or_whole key (some k) = k

-- The texts of the errors: what failed, or the key that is missing.
pub record Texts : Type 0 where
  pub put_failed : Bytes
  pub delete_failed : Bytes
  pub range_delete_failed : Bytes
  pub not_found : Bytes → Bytes

module _ {E : Type 0} (kv : KeyValue E) (op : Opcodes) (texts : Texts) where
  abbrev ended : ℕ → Bytes → Written E → Response × E
  ended total text (done e) = (result_end_response op total 0, e)
  ended total text (refused e) = (error_response op 0xFF text, e)

  unfoldable pub handle_put : Bytes → Bytes → E → Response × E
  unfolding scope_key error_response result_end_response
  handle_put key value e = ended 1 texts.put_failed (kv.put (scope_key 0 key) value e)

  unfoldable pub handle_delete : Bytes → E → Response × E
  unfolding scope_key error_response result_end_response
  handle_delete key e = ended 1 texts.delete_failed (kv.delete (scope_key 0 key) e)

  unfoldable pub handle_get : Bytes → E → Response
  unfolding scope_key error_response row_payload
  handle_get key e = elim (kv.get (scope_key 0 key) e) [
    | some value ↦ single op.op_result_row (row_payload key value 0)
    | none ↦ error_response op 0x40 (texts.not_found key)
  ]

  unfoldable pub scan_rows : ℕ → List (Bytes × Bytes) → List (ℕ × Bytes)
  unfolding unscope_key row_payload
  scan_rows i [] = []
  scan_rows i ((key, value) ∷ rest) =
      (op.op_result_row, row_payload (or_whole key (unscope_key key)) value i)
      ∷ scan_rows (i + 1) rest

  unfoldable pub handle_scan : Bytes → Bytes → ℕ → E → Response
  unfolding scope_key enc scan_rows
  handle_scan start end limit e =
      let rows = take limit (kv.scan (scope_key 0 start) (scope_key 0 end) e) in
      stream (
        (op.op_result_start, enc (u32_field (length rows) ∷ []))
        ∷ (scan_rows 0 rows
            ++ (op.op_result_end, enc (u32_field (length rows) ∷ u32_field 0 ∷ [])) ∷ []))

  -- The rows of the keys, and how many have a value that is not empty.
  unfoldable pub batch_rows : ℕ → List Bytes → E → List (ℕ × Bytes) × ℕ
  unfolding scope_key row_payload
  batch_rows i [] e = ([], 0)
  batch_rows i (key ∷ keys) e =
      let value = or_empty (kv.get (scope_key 0 key) e) in
      let (rows, found) = batch_rows (i + 1) keys e in
      (
        (op.op_result_row, row_payload key value i) ∷ rows,
        elim value [ [] ↦ found | b ∷ rest ↦ found + 1 ],
      )

  unfoldable pub handle_get_batch : List Bytes → E → Response
  unfolding batch_rows enc
  handle_get_batch keys e =
      let (rows, found) = batch_rows 0 keys e in
      stream (
        (op.op_result_start, enc (u32_field (length keys) ∷ []))
        ∷ (rows ++ (op.op_result_end, enc (u32_field found ∷ u32_field 0 ∷ [])) ∷ []))

  unfoldable pub handle_range_delete : Bytes → Bytes → E → Response × E
  unfolding scope_key delete_all error_response result_end_response
  handle_range_delete start end e =
      let found = kv.scan (scope_key 0 start) (scope_key 0 end) e in
      ended (length found) texts.range_delete_failed (delete_all kv found e)

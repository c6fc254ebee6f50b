-- ===== src/Server.antt =====
-- src/server.rs: the fields of payloads, and the handlers of records and transactions over the
-- engine as an interface. What `ulmp` defines (opcodes, messages, streams) is a parameter or
-- written as a plain argument. The lock around each handler makes it one step.
pub mod Transactions
pub mod Records
use uldb.Prelude.{
  ℕ, ◌%◌, ◌^◌, List, [], ◌∷◌, ◌++◌, eqb, ◌||◌, if◌then◌else◌, length, Option, some, none,
}
use uldb.Bytes.{Bytes}
use uldb.Bytes.Endian.{be32, be64}

abbrev pub tag_u8 : ℕ
tag_u8 = 0x01

abbrev pub tag_u32 : ℕ
tag_u32 = 0x03

abbrev pub tag_u64 : ℕ
tag_u64 = 0x04

abbrev pub tag_f64 : ℕ
tag_f64 = 0x0A

abbrev pub tag_bytes : ℕ
tag_bytes = 0x0C

abbrev pub tag_string : ℕ
tag_string = 0x0D

abbrev pub tag_end : ℕ
tag_end = 0xFF

abbrev first_byte : Bytes → Bytes
first_byte [] = []
first_byte (b ∷ rest) = b ∷ []

-- The bytes of a field after its tag.
unfoldable pub enc_data : ℕ → Bytes → Bytes
enc_data tag bytes =
    if eqb tag tag_u8
    then first_byte bytes
    else if eqb tag tag_u32 || eqb tag tag_u64 || eqb tag tag_f64
    then bytes
    else if eqb tag tag_bytes || eqb tag tag_string
    then be32 (length bytes % 2 ^ 32) ++ bytes
    else []

unfoldable pub enc : List (ℕ × Bytes) → Bytes
unfolding enc_data
enc [] = tag_end ∷ []
enc ((tag, bytes) ∷ fields) = tag ∷ (enc_data tag bytes ++ enc fields)

abbrev pub string_field : Bytes → ℕ × Bytes
string_field s = (tag_string, s)

abbrev pub bytes_field : Bytes → ℕ × Bytes
bytes_field b = (tag_bytes, b)

abbrev pub u32_field : ℕ → ℕ × Bytes
u32_field v = (tag_u32, be32 (v % 2 ^ 32))

abbrev pub u64_field : ℕ → ℕ × Bytes
u64_field v = (tag_u64, be64 v)

abbrev pub u8_field : ℕ → ℕ × Bytes
u8_field v = (tag_u8, v ∷ [])

-- The field of a floating-point number with the given bits.
abbrev pub f64_field : ℕ → ℕ × Bytes
f64_field bits = (tag_f64, be64 bits)

pub record Opcodes : Type 0 where
  pub op_error : ℕ
  pub op_result_start : ℕ
  pub op_result_row : ℕ
  pub op_result_end : ℕ

pub data Response : Type 0 where
  single : ℕ → Bytes → Response
  stream : List (ℕ × Bytes) → Response

unfoldable pub error_response : Opcodes → ℕ → Bytes → Response
unfolding enc
error_response op code msg =
    single op.op_error (enc (u8_field code ∷ u32_field 0 ∷ string_field msg ∷ []))

unfoldable pub result_end_response : Opcodes → ℕ → ℕ → Response
unfolding enc
result_end_response op total elapsed_ms =
    single op.op_result_end (enc (u32_field total ∷ u32_field elapsed_ms ∷ []))

-- The payload of a row without scores.
unfoldable pub row_payload : Bytes → Bytes → ℕ → Bytes
unfolding enc
row_payload key value rank = enc (
    string_field key
    ∷ bytes_field value
    ∷ f64_field 0
    ∷ f64_field 0
    ∷ f64_field 0
    ∷ f64_field 0
    ∷ f64_field 0
    ∷ u32_field rank
    ∷ [])

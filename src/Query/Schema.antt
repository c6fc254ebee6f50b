-- ===== src/Query/Schema.antt =====
-- src/query/schema.rs: schemas, validation, and defaults. A message is kept as what it says.
pub mod Validation
use uldb.Prelude.{
  ℕ, zero, suc, ◌+◌, ◌*◌, ◌-◌, ◌^◌, List, [], ◌∷◌, ◌++◌, Option, some, none, Bool, true, false,
  ◌&&◌, ◌||◌, not, if◌then◌else◌, eqb, leb, ltb, ◌==◌, is_some,
}
use uldb.Bytes.{Bytes, bytes_eq}
use uldb.Bytes.Utf8.{is_utf8}
use uldb.Maps.{lookup, insert, contains_key}

pub data FieldType : Type 0 where
  string int float bool bytes : FieldType

pub record FieldDef : Type 0 where
  pub name : Bytes
  pub field_type : FieldType
  pub required : Bool
  pub default : Option Bytes

pub record Schema : Type 0 where
  pub name : Bytes
  pub fields : List FieldDef

pub data Problem : Type 0 where
  is_required : Problem
  expected : FieldType → Problem

pub record ValidationError : Type 0 where
  pub field : Bytes
  pub message : Problem

abbrev pub Record : Type 0
Record = List (Bytes × Bytes)

abbrev pub new : Bytes → Schema
new name = record { name = name; fields = [] }

unfoldable pub field : FieldDef → Schema → Schema
field def s = record s { fields = s.fields ++ def ∷ [] }

abbrev is_digit : ℕ → Bool
is_digit b = leb b'0' b && leb b b'9'

abbrev is_sign : ℕ → Bool
is_sign b = eqb b b'+' || eqb b b'-'

abbrev after_sign : Bytes → Bytes
after_sign [] = []
after_sign (b ∷ text) = if is_sign b then text else b ∷ text

-- The value of the digits after `acc`, if there are only digits.
unfoldable pub digits : ℕ → Bytes → Option ℕ
digits acc [] = some acc
digits acc (b ∷ text) =
    let rest = digits (acc * 10 + (b - b'0')) text in if is_digit b then rest else none

abbrev starts_with : ℕ → Bytes → Bool
starts_with c [] = false
starts_with c (b ∷ text) = eqb b c

abbrev at_most : ℕ → Option ℕ → Bool
at_most bound none = false
at_most bound (some n) = leb n bound

-- `parse::<i64>().is_ok()`
unfoldable pub parses_i64 : Bytes → Bool
unfolding digits
parses_i64 text = elim (after_sign text) [
  | [] ↦ false
  | b ∷ rest ↦ at_most (if starts_with b'-' text then 2 ^ 63 else 2 ^ 63 - 1) (digits 0 (b ∷ rest))
]

-- Whether there were digits, or were before, and the text after them.
unfoldable pub skip_digits : Bool → Bytes → Bool × Bytes
skip_digits seen [] = (seen, [])
skip_digits seen (b ∷ text) =
    let rest = skip_digits true text in if is_digit b then rest else (seen, b ∷ text)

abbrev lower : ℕ → ℕ
lower b = if leb b'A' b && leb b b'Z' then b + 32 else b

-- The text is the word, whatever the case of its letters.
unfoldable pub is_word : Bytes → Bytes → Bool
is_word [] [] = true
is_word (c ∷ word) (b ∷ text) = eqb (lower b) c && is_word word text
is_word _ _ = false

unfoldable pub is_exponent : Bytes → Bool
unfolding digits
is_exponent [] = true
is_exponent (b ∷ text) =
    eqb (lower b) b'e'
    && elim (after_sign text) [ [] ↦ false | c ∷ rest ↦ is_some (digits 0 (c ∷ rest)) ]

abbrev fraction : Bytes → Bool × Bytes
fraction [] = (false, [])
fraction (b ∷ text) = if eqb b b'.' then skip_digits false text else (false, b ∷ text)

-- `parse::<f64>().is_ok()`
unfoldable pub parses_f64 : Bytes → Bool
unfolding skip_digits is_word is_exponent
parses_f64 text =
    let body = after_sign text in
    let whole = skip_digits false body in
    let part = fraction whole.1 in
    is_word (b'i' ∷ b'n' ∷ b'f' ∷ []) body
    || is_word (b'i' ∷ b'n' ∷ b'f' ∷ b'i' ∷ b'n' ∷ b'i' ∷ b't' ∷ b'y' ∷ []) body
    || is_word (b'n' ∷ b'a' ∷ b'n' ∷ []) body
    || ((whole.0 || part.0) && is_exponent part.1)

abbrev words_of_bool : List Bytes
words_of_bool =
    (b't' ∷ b'r' ∷ b'u' ∷ b'e' ∷ [])
    ∷ (b'f' ∷ b'a' ∷ b'l' ∷ b's' ∷ b'e' ∷ [])
    ∷ (b'0' ∷ [])
    ∷ (b'1' ∷ [])
    ∷ []

abbrev one_of : Bytes → List Bytes → Bool
one_of value [] = false
one_of value (w ∷ words) = w == value || one_of value words

-- The `valid` of `check_type`.
unfoldable pub has_type : FieldType → Bytes → Bool
unfolding parses_i64 parses_f64
has_type string value = is_utf8 value
has_type int value = is_utf8 value && parses_i64 value
has_type float value = is_utf8 value && parses_f64 value
has_type bool value = one_of value words_of_bool
has_type bytes value = true

-- `none` is `Ok(())`.
unfoldable pub check_type : Bytes → FieldType → Bytes → Option ValidationError
unfolding has_type
check_type name expected_type value =
    if has_type expected_type value
    then none
    else some (record { field = name; message = expected expected_type })

abbrev check_held : FieldDef → Option Bytes → Option ValidationError
check_held f none =
    if f.required && not (is_some f.default)
    then some (record { field = f.name; message = is_required })
    else none
check_held f (some value) = check_type f.name f.field_type value

unfoldable pub check_field : FieldDef → Record → Option ValidationError
unfolding check_type
check_field f r = check_held f (lookup f.name r)

abbrev push_error : Option ValidationError → List ValidationError → List ValidationError
push_error none later = later
push_error (some e) later = e ∷ later

unfoldable pub validate_fields : List FieldDef → Record → List ValidationError
unfolding check_field
validate_fields [] r = []
validate_fields (f ∷ fields) r = push_error (check_field f r) (validate_fields fields r)

unfoldable pub validate : Schema → Record → List ValidationError
unfolding validate_fields
validate s r = validate_fields s.fields r

abbrev pub fill : Bytes → Option Bytes → Record → Record
fill name none r = r
fill name (some value) r = insert name value r

unfoldable pub fill_defaults : List FieldDef → Record → Record
fill_defaults [] r = r
fill_defaults (f ∷ fields) r =
    fill_defaults fields (if contains_key f.name r then r else fill f.name f.default r)

unfoldable pub apply_defaults : Schema → Record → Record
unfolding fill_defaults
apply_defaults s r = fill_defaults s.fields r

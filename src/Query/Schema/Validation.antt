-- ===== src/Query/Schema/Validation.antt =====
-- Validation and defaults together (src/query/schema.rs).
use uldb.Prelude.{
  ◌≡◌, List, [], ◌∷◌, Option, some, none, true, ◌&&◌, if◌then◌else◌, ◌==◌, is_some, arith, refl,
  ◌∙◌, All, Option-cases,
}
use uldb.Bytes.{Bytes, bytes_eq}
use uldb.Maps.{lookup, contains_key, lookup-insert, contains-is_some}
use uldb.Query.Schema.{
  FieldDef, Schema, Record, has_type, check_type, check_field, validate_fields, validate, fill,
  fill_defaults, apply_defaults,
}

-- The first default that the schema has for a name.
abbrev pub first_default : Bytes → List FieldDef → Option Bytes
first_default name [] = none
first_default name (f ∷ fields) =
    let later = first_default name fields in
    if f.name == name && is_some f.default then f.default else later

abbrev pub or_else : Option Bytes → Option Bytes → Option Bytes
or_else (some value) other = some value
or_else none other = other

lookup-filled :
    (name own : Bytes) (d : Option Bytes) (r : Record)
    → lookup name (if contains_key own r then r else fill own d r)
      ≡ or_else (lookup name r) (if own == name && is_some d then d else none)
lookup-filled name own none r = ground (arith, contains-is_some own r, bytes_eq.beq_iff own name)
lookup-filled name own (some value) r = ground (
  arith,
  contains-is_some own r,
  bytes_eq.beq_iff own name,
  lookup-insert own name value r,
  Option-cases (lookup name r),
)

lookup-fill_defaults :
    (name : Bytes) (fields : List FieldDef) (r : Record)
    → lookup name (fill_defaults fields r) ≡ or_else (lookup name r) (first_default name fields)
unfolding fill_defaults
lookup-fill_defaults name [] r = ground arith
lookup-fill_defaults name (f ∷ fields) r =
    lookup-fill_defaults name fields (if contains_key f.name r then r else fill f.name f.default r)
    ∙ rw (lookup-filled name f.name f.default r) (ground (arith, Option-cases (lookup name r)))

-- After the defaults are applied, a name holds what it held before, or else the first default that
-- the schema has for it.
pub lookup-apply_defaults :
    (name : Bytes) (s : Schema) (r : Record)
    → lookup name (apply_defaults s r) ≡ or_else (lookup name r) (first_default name s.fields)
unfolding apply_defaults
lookup-apply_defaults name s r = lookup-fill_defaults name s.fields r

validate-cons :
    (f : FieldDef) (fields : List FieldDef) (r : Record)
    → validate_fields (f ∷ fields) r ≡ []
    → (check_field f r ≡ none) × (validate_fields fields r ≡ [])
unfolding validate_fields
validate-cons f fields r h = ground (arith, h, Option-cases (check_field f r))

validate_none :
    (fields : List FieldDef) (r : Record)
    → All (λ f. check_field f r ≡ none) fields
    → validate_fields fields r ≡ []
unfolding validate_fields
validate_none [] r h = refl
validate_none (f ∷ fields) r h = rw (h.0, validate_none fields r h.1) refl

-- A field that was accepted is accepted in a record that holds what the field's default says.
check_field-filled :
    (f : FieldDef) (r r' : Record) (d : Option Bytes)
    → lookup f.name r' ≡ or_else (lookup f.name r) d
    → ((value : Bytes) → d ≡ some value → has_type f.field_type value ≡ true)
    → check_field f r ≡ none
    → check_field f r' ≡ none
unfolding check_field check_type
check_field-filled f r r' none h typed ok =
    rw h (ground (arith, ok, Option-cases (lookup f.name r)))
check_field-filled f r r' (some value) h typed ok =
    let good = typed value refl in rw h (ground (arith, ok, good, Option-cases (lookup f.name r)))

check_fields-filled :
    (s : Schema) (fields : List FieldDef) (r : Record)
    → All
        (λ f.
          (value : Bytes)
          → first_default f.name s.fields ≡ some value
          → has_type f.field_type value ≡ true)
        fields
    → validate_fields fields r ≡ []
    → All (λ f. check_field f (apply_defaults s r) ≡ none) fields
check_fields-filled s [] r typed ok = tt
check_fields-filled s (f ∷ fields) r typed ok =
    let both = validate-cons f fields r ok in
    (
      check_field-filled f r (apply_defaults s r) (first_default f.name s.fields)
          (lookup-apply_defaults f.name s r) typed.0 both.0,
      check_fields-filled s fields r typed.1 both.1,
    )

-- A valid record stays valid when the defaults are applied, if the first default for each field's
-- name has the field's type.
pub validate-apply_defaults :
    (s : Schema) (r : Record)
    → All
        (λ f.
          (value : Bytes)
          → first_default f.name s.fields ≡ some value
          → has_type f.field_type value ≡ true)
        s.fields
    → validate s r ≡ []
    → validate s (apply_defaults s r) ≡ []
unfolding validate
validate-apply_defaults s r typed ok =
    validate_none s.fields (apply_defaults s r) (check_fields-filled s s.fields r typed ok)

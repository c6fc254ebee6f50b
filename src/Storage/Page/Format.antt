-- ===== src/Storage/Page/Format.antt =====
-- The page format (src/storage/page.rs): what is written is read back.
use uldb.Prelude.{
  ℕ, zero, suc, ◌+◌, ◌/◌, ◌%◌, ◌^◌, ◌≡◌, ◌<◌, List, [], ◌∷◌, ◌++◌, Option, some, none, Bool, true,
  false, ltb, if◌then◌else◌, length, arith, refl, ap, All, ◌∙◌, length-append, take-append,
  drop-append, take_all, append_nil, append_assoc, Bool-cases, inl, inr,
}
use uldb.Bytes.{Bytes, bytes_eq}
use uldb.Bytes.Endian.{from16, from32, from32-be32}
use uldb.Storage.Page.{
  PageRecord, Page, encode_record, encode_body, serialize, deserialize, parsed, next, tail_flag,
  parse_one, parse_body, flag, frame, parse_all,
}

-- A record whose lengths fit the fields of the format.
pub record Fits (r : PageRecord) : Type 0 where
  pub key_fits : length r.key < 2 ^ 16
  pub value_fits : length r.value < 2 ^ 32

read_flag :
    (k v rest : Bytes) (t : Bool)
    → tail_flag k v (flag t ∷ rest) ≡ next (record { key = k; value = v; tombstone = t }) rest
unfolding tail_flag
read_flag k v rest true = refl
read_flag k v rest false = refl

module _ (r : PageRecord) (f : Fits r) where
  key_len :
      from16 (length r.key % 2 ^ 16 / 2 ^ 8 % 256) (length r.key % 2 ^ 16 % 256) ≡ length r.key
  key_len = omega (arith, f.key_fits)

  val_len :
      from32
        (length r.value % 2 ^ 32 / 2 ^ 24 % 256)
        (length r.value % 2 ^ 32 / 2 ^ 16 % 256)
        (length r.value % 2 ^ 32 / 2 ^ 8 % 256)
        (length r.value % 2 ^ 32 % 256)
      ≡ length r.value
  val_len = omega (arith, f.value_fits)

  pub parse_one-encode : (rest : Bytes) → parse_one (encode_record r ++ rest) ≡ next r rest
  unfolding parse_one encode_record
  parse_one-encode rest =
      let tail = flag r.tombstone ∷ rest in
      let assoc : (r.key ++ (r.value ++ flag r.tombstone ∷ [])) ++ rest
          ≡ r.key ++ (r.value ++ tail) =
        append_assoc r.key (r.value ++ flag r.tombstone ∷ []) rest
        ∙ ap (λ b. r.key ++ b) (append_assoc r.value (flag r.tombstone ∷ []) rest) in
      let len : length (r.key ++ (r.value ++ tail))
          ≡ length r.key + (length r.value + suc (length rest)) =
        length-append r.key (r.value ++ tail)
        ∙ ap (λ n. length r.key + n) (length-append r.value tail) in
      rw
        (
          assoc,
          key_len,
          val_len,
          len,
          take-append (length r.key) r.key (r.value ++ tail) refl,
          drop-append (length r.key) r.key (r.value ++ tail) refl,
          take-append (length r.value) r.value tail refl,
          drop-append (length r.value) r.value tail refl,
          read_flag,
        )
        (ground arith)

loop-encode :
    (rs : List PageRecord) (fuel : ℕ) (acc : List PageRecord)
    → All Fits rs
    → length (encode_body rs) < fuel
    → parse_body fuel (encode_body rs) acc ≡ parsed (acc ++ rs)
unfolding encode_body parse_body
loop-encode rs zero acc fits h = absurd (omega arith)
loop-encode [] (suc fuel) acc fits h = unfold parse_one in rw append_nil
loop-encode (r ∷ rs) (suc fuel) acc fits h =
    let some_bytes : length (encode_record r ++ encode_body rs)
        ≡ length (encode_record r) + length (encode_body rs) =
      length-append (encode_record r) (encode_body rs) in
    let long : 0 < length (encode_record r) = unfold encode_record in omega arith in
    rw (parse_one-encode r fits.0 (encode_body rs), parse_body)
      (loop-encode rs fuel (acc ++ r ∷ []) fits.1 (omega arith)
        ∙ ap parsed (append_assoc acc (r ∷ []) rs))

module _ (deflate : Bytes → Bytes) (inflate : Bytes → Option Bytes) where
  deserialize-frame :
      (count full : ℕ) (stored : Bytes)
      → count < 2 ^ 32
      → full < 2 ^ 32
      → length stored < 2 ^ 32
      → deserialize inflate (frame count full (length stored) stored)
        ≡ parse_all count (if ltb (length stored) full then inflate stored else some stored)
  unfolding deserialize
  deserialize-frame count full stored c f l =
      let c' : count % 2 ^ 32 < 2 ^ 32 = omega arith in
      let e : count % 2 ^ 32 ≡ count = omega arith in
      rw
        (
          from32-be32 (length stored) l,
          from32-be32 full f,
          from32-be32 (count % 2 ^ 32) c',
          e,
          take_all stored,
        )
        (ground arith)

  parse_all-encode :
      (rs : List PageRecord)
      → All Fits rs
      → parse_all (length rs) (some (encode_body rs))
        ≡ parsed (record { records = rs; level = 0; bloom = none })
  parse_all-encode rs fits =
      rw (loop-encode rs (suc (length (encode_body rs))) [] fits (omega arith)) (ground arith)

  -- A page that is written and read back has the same records, whichever of the packed and the
  -- plain form was stored, if inflating undoes deflating, every key is shorter than 64 KiB and every
  -- value than 4 GiB, and the count of records, the body and its deflated form are below 2^32.
  pub deserialize-serialize_page :
      ((b : Bytes) → inflate (deflate b) ≡ some b)
      → (p : Page) → All Fits p.records
      → length p.records < 2 ^ 32
      → length (encode_body p.records) < 2 ^ 32
      → length (deflate (encode_body p.records)) < 2 ^ 32
      → deserialize inflate (serialize deflate p)
        ≡ parsed (record { records = p.records; level = 0; bloom = none })
  unfolding serialize
  deserialize-serialize_page inverse p fits count full packed =
      let body = encode_body p.records in
      let n = length p.records in
      let eb : length body % 2 ^ 32 ≡ length body = omega arith in
      let ed : length (deflate body) % 2 ^ 32 ≡ length (deflate body) = omega arith in
      elim (Bool-cases (ltb (length (deflate body)) (length body))) [
        | inl small ↦
            rw (eb, ed, small)
              (deserialize-frame n (length body) (deflate body) count full packed
                ∙ rw (small, inverse body) (parse_all-encode p.records fits))
        | inr large ↦
            rw (eb, ed, large)
              (deserialize-frame n (length body) body count full full
                ∙ (ground arith ∙ parse_all-encode p.records fits))
      ]

-- ===== src/Storage/Page/Termination.antt =====
-- Parsing a page (src/storage/page.rs) always ends with a page, an error or a failed assertion.
use uldb.Prelude.{
  ℕ, zero, suc, ◌+◌, ◌≡◌, ◌≢◌, ◌<◌, ◌≤◌, List, [], ◌∷◌, ◌++◌, Option, some, none, Bool, true, false,
  if◌then◌else◌, ltb, length, take, drop, arith, refl, length-drop, ◌==◌,
}
use uldb.Bytes.{Bytes, bytes_eq}
use uldb.Bytes.Endian.{from16, from32}
use uldb.Storage.Page.{
  PageRecord, Parsed, parsed, err, panicked, stuck, Round, stop, wrong, next, tail_flag,
  parse_fields, parse_one, parse_body, check_count, parse_all, deserialize, page_magic, truncated,
  bad_magic,
}

-- What a round leaves to read.
abbrev Shrinks : ℕ → Round → Type 0
Shrinks n (next r rest) = length rest < n
Shrinks n _ = Unit

tail_flag-Shrinks : (k v rest : Bytes) (n : ℕ) → length rest ≤ n → Shrinks n (tail_flag k v rest)
unfolding tail_flag
tail_flag-Shrinks k v [] n h = tt
tail_flag-Shrinks k v (t ∷ rest) n h = omega arith

parse_fields-Shrinks : (bytes : Bytes) → Shrinks (length bytes) (parse_fields bytes)
unfolding parse_fields
parse_fields-Shrinks (a ∷ b ∷ c ∷ d ∷ e ∷ f ∷ rest) =
    let key_len = from16 a b in
    let val_len = from32 c d e f in
    ground (
      arith,
      length-drop key_len rest,
      length-drop val_len (drop key_len rest),
      tail_flag-Shrinks (take key_len rest) (take val_len (drop key_len rest))
          (drop val_len (drop key_len rest)) (6 + length rest),
    )
parse_fields-Shrinks _ = tt

Shrinks-mono : (m n : ℕ) (round : Round) → m ≤ n → Shrinks m round → Shrinks n round
Shrinks-mono m n (next r rest) h s = omega arith
Shrinks-mono m n stop h s = tt
Shrinks-mono m n wrong h s = tt

parse_one-Shrinks : (bytes : Bytes) → Shrinks (length bytes) (parse_one bytes)
unfolding parse_one
parse_one-Shrinks (a ∷ b ∷ c ∷ d ∷ rest) = ground (
  arith,
  Shrinks-mono (length rest) (4 + length rest) (parse_fields rest) (omega arith)
      (parse_fields-Shrinks rest),
)
parse_one-Shrinks _ = tt

parse_body-stuck :
    (fuel : ℕ) (body : Bytes) (acc : List PageRecord) (round : Round)
    → parse_one body ≡ round
    → length body < fuel
    → parse_body fuel body acc ≢ stuck
unfolding parse_body
parse_body-stuck zero body acc round e h = absurd (omega arith)
parse_body-stuck (suc fuel) body acc stop e h = rw (e, parse_body) (λ q. cc)
parse_body-stuck (suc fuel) body acc wrong e h = rw (e, parse_body) (λ q. cc)
parse_body-stuck (suc fuel) body acc (next r rest) e h =
    let s : Shrinks (length body) (next r rest) = rw e at (parse_one-Shrinks body) in
    rw (e, parse_body)
      (parse_body-stuck fuel rest (acc ++ r ∷ []) (parse_one rest) refl (omega arith))

check_count-stuck :
    (count : ℕ) (p : Parsed (List PageRecord)) → p ≢ stuck → check_count count p ≢ stuck
check_count-stuck count (parsed rs) h = ground arith
check_count-stuck count (err e) h = λ q. cc
check_count-stuck count panicked h = λ q. cc
check_count-stuck count stuck h = absurd (h refl)

parse_all-stuck : (count : ℕ) (body : Option Bytes) → parse_all count body ≢ stuck
parse_all-stuck count none = λ q. cc
parse_all-stuck count (some body) =
    check_count-stuck count (parse_body (suc (length body)) body [])
      (parse_body-stuck (suc (length body)) body [] (parse_one body) refl (omega arith))

-- Reading a page from any bytes comes to an end within its fuel, whatever the decompression gives.
pub deserialize-stuck :
    (inflate : Bytes → Option Bytes) (bytes : Bytes) → deserialize inflate bytes ≢ stuck
unfolding deserialize
deserialize-stuck inflate
      (m₀ ∷ m₁ ∷ m₂ ∷ m₃ ∷ version ∷ c₀ ∷ c₁ ∷ c₂ ∷ c₃ ∷ u₀ ∷ u₁ ∷ u₂ ∷ u₃ ∷ z₀ ∷ z₁ ∷ z₂ ∷ z₃
        ∷ rest) =
    let size = from32 z₀ z₁ z₂ z₃ in
    let full = from32 u₀ u₁ u₂ u₃ in
    let body = (if ltb size full then inflate (take size rest) else some (take size rest)) in
    at ((m₀ ∷ m₁ ∷ m₂ ∷ m₃ ∷ []) == page_magic) (ltb (17 + length rest) (17 + size))
      (from32 c₀ c₁ c₂ c₃) body
  where
    at :
        (magic short : Bool) (count : ℕ) (body : Option Bytes)
        → (if magic then (if short then err truncated else parse_all count body) else err bad_magic)
          ≢ stuck
    at true true count body = λ q. cc
    at true false count body = parse_all-stuck count body
    at false short count body = λ q. cc
deserialize-stuck inflate _ = λ q. cc

-- ===== src/Index/Bm25/Tokens.antt =====
-- The tokenizer of src/index/bm25.rs.
use uldb.Prelude.{
  ℕ, ◌+◌, List, [], ◌∷◌, ◌++◌, Bool, true, false, ◌&&◌, ◌||◌, if◌then◌else◌, leb, nat_eq,
}
use uldb.Bytes.{Bytes, bytes_eq}

abbrev is_lower : ℕ → Bool
is_lower b = leb b'a' b && leb b b'z'

abbrev is_upper : ℕ → Bool
is_upper b = leb b'A' b && leb b b'Z'

abbrev is_alphanumeric : ℕ → Bool
is_alphanumeric b = is_lower b || is_upper b || (leb b'0' b && leb b b'9')

abbrev lowercase : ℕ → ℕ
lowercase b = if is_upper b then b + 32 else b

-- The token in the buffer, if there is one, before the later tokens.
abbrev flush : Bytes → List Bytes → List Bytes
flush [] later = later
flush (b ∷ buf) later = (b ∷ buf) ∷ later

-- The loop; `after_lower` says that the byte before is a lower-case letter.
unfoldable tokens_from : Bool → Bool → Bytes → Bytes → List Bytes
tokens_from after_lower in_token buf [] = flush buf []
tokens_from after_lower in_token buf (b ∷ bytes) =
    let cut = is_upper b && in_token && after_lower in
    let rest = tokens_from (is_lower b) true (lowercase b ∷ []) bytes in
    let more = tokens_from (is_lower b) true (buf ++ lowercase b ∷ []) bytes in
    let next = tokens_from (is_lower b) false [] bytes in
    let idle = tokens_from (is_lower b) false buf bytes in
    if is_alphanumeric b
    then (if cut then flush buf rest else more)
    else if in_token
    then flush buf next
    else idle

unfoldable pub tokenize : Bytes → List Bytes
unfolding tokens_from
tokenize text = tokens_from false false [] text

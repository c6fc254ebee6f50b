-- ===== src/Storage/Fnv.antt =====
-- src/storage/fnv.rs: the FNV-1a 64-bit hash, of one slice and of several in a row.
use Prim.Native.Nat.{bit_xor}
use uldb.Prelude.{ℕ, ◌*◌, ◌%◌, ◌^◌, ◌<◌, ◌≡◌, List, [], ◌∷◌, ◌++◌, arith, refl, ◌∙◌, sym}
use mathlib.Core.List.{flatten}
use uldb.Bytes.{Bytes}
use uldb.Bytes.Endian.{be64}

abbrev pub fnv_offset : ℕ
fnv_offset = 0xcbf29ce484222325

abbrev pub fnv_prime : ℕ
fnv_prime = 0x100000001b3

-- `h ^= b; h = h.wrapping_mul(FNV_PRIME)`
unfoldable pub mix : ℕ → ℕ → ℕ
mix h b = bit_xor h b * fnv_prime % 2 ^ 64

-- The inner loop, from the hash so far.
unfoldable pub fnv1a_from : ℕ → Bytes → ℕ
fnv1a_from h [] = h
fnv1a_from h (b ∷ rest) = fnv1a_from (mix h b) rest

unfoldable pub fnv1a : Bytes → ℕ
fnv1a bytes = fnv1a_from fnv_offset bytes

-- The outer loop, over the parts.
unfoldable pub fnv1a_parts_from : ℕ → List Bytes → ℕ
fnv1a_parts_from h [] = h
fnv1a_parts_from h (part ∷ parts) = fnv1a_parts_from (fnv1a_from h part) parts

unfoldable pub fnv1a_parts : List Bytes → ℕ
fnv1a_parts parts = fnv1a_parts_from fnv_offset parts

-- `b"::"`
abbrev pub colons : Bytes
colons = b':' ∷ b':' ∷ []

unfoldable pub namespace_key : Bytes → Bytes → ℕ
namespace_key repo_url commit_sha = fnv1a_parts (repo_url ∷ colons ∷ commit_sha ∷ [])

unfoldable pub record_key : ℕ → Bytes → Bytes → ℕ
record_key ns node_type qualified_name =
    fnv1a_parts (be64 ns ∷ colons ∷ node_type ∷ colons ∷ qualified_name ∷ [])

pub fnv1a_from-append :
    (h : ℕ) (xs ys : Bytes) → fnv1a_from h (xs ++ ys) ≡ fnv1a_from (fnv1a_from h xs) ys
unfolding fnv1a_from
fnv1a_from-append h [] ys = refl
fnv1a_from-append h (x ∷ xs) ys = fnv1a_from-append (mix h x) xs ys

fnv1a_parts_from-flatten :
    (h : ℕ) (parts : List Bytes) → fnv1a_parts_from h parts ≡ fnv1a_from h (flatten parts)
unfolding fnv1a_parts_from fnv1a_from flatten
fnv1a_parts_from-flatten h [] = refl
fnv1a_parts_from-flatten h (p ∷ ps) =
    fnv1a_parts_from-flatten (fnv1a_from h p) ps ∙ sym (fnv1a_from-append h p (flatten ps))

-- Hashing several slices in a row is hashing their concatenation.
pub fnv1a_parts-flatten : (parts : List Bytes) → fnv1a_parts parts ≡ fnv1a (flatten parts)
unfolding fnv1a_parts fnv1a
fnv1a_parts-flatten parts = fnv1a_parts_from-flatten fnv_offset parts

fnv1a_from-lt : (h : ℕ) (xs : Bytes) → h < 2 ^ 64 → fnv1a_from h xs < 2 ^ 64
unfolding fnv1a_from mix
fnv1a_from-lt h [] p = p
fnv1a_from-lt h (x ∷ xs) p = fnv1a_from-lt (mix h x) xs (omega arith)

pub fnv1a-lt : (xs : Bytes) → fnv1a xs < 2 ^ 64
unfolding fnv1a
fnv1a-lt xs = fnv1a_from-lt fnv_offset xs (omega arith)

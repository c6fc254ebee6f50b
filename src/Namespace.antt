-- ===== src/Namespace.antt =====
-- src/namespace.rs: keys that carry the identifier of their namespace in front.
pub mod Scopes
use uldb.Prelude.{
  ℕ, ◌+◌, ◌<◌, List, [], ◌∷◌, ◌++◌, Option, some, none, Bool, true, false, if◌then◌else◌, ◌==◌, ltb,
  length, drop, nat_eq,
}
use uldb.Bytes.{Bytes}
use uldb.Bytes.Endian.{be64, from64}
use uldb.Storage.Fnv.{fnv1a, colons}

abbrev pub ns_prefix_len : ℕ
ns_prefix_len = 8

unfoldable pub derive_namespace_id : Bytes → Bytes → ℕ
derive_namespace_id repo_url commit_sha = fnv1a (repo_url ++ (colons ++ commit_sha))

unfoldable pub scope_key : ℕ → Bytes → Bytes
scope_key namespace_id key = be64 namespace_id ++ key

unfoldable pub unscope_key : Bytes → Option Bytes
unscope_key scoped =
    if ltb (length scoped) ns_prefix_len then none else some (drop ns_prefix_len scoped)

-- The first eight bytes, where there are eight.
unfoldable pub namespace_id_of : Bytes → Option ℕ
namespace_id_of (a ∷ b ∷ c ∷ d ∷ e ∷ f ∷ g ∷ h ∷ _) = some (from64 a b c d e f g h)
namespace_id_of _ = none

unfoldable pub ns_scan_range : ℕ → Bytes × Bytes
ns_scan_range namespace_id = (be64 namespace_id ++ (0 ∷ []), be64 namespace_id ++ (255 ∷ []))

unfoldable pub key_in_namespace : Bytes → ℕ → Bool
unfolding namespace_id_of
key_in_namespace scoped namespace_id = elim (namespace_id_of scoped) [
  | none ↦ false
  | some n ↦ n == namespace_id
]

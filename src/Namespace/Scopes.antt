-- ===== src/Namespace/Scopes.antt =====
-- Namespaces keep their keys apart (src/namespace.rs).
use uldb.Prelude.{
  ℕ, ◌/◌, ◌%◌, ◌^◌, ◌<◌, ◌≡◌, [], ◌∷◌, ◌++◌, some, Bool, true, false, if◌then◌else◌, ◌==◌, ltb, eqb,
  arith, refl, ap, ◌∙◌, sym, nat_eq, not, ◌&&◌, append_nil,
}
use mathlib.Core.List.{flatten}
use uldb.Bytes.{Bytes, blt, bytes_eq}
use uldb.Bytes.Endian.{be64, from32, from64-be64}
use uldb.Storage.Fnv.{fnv1a, colons, namespace_key, fnv1a_parts-flatten}
use uldb.Namespace.{
  derive_namespace_id, scope_key, unscope_key, namespace_id_of, ns_scan_range, key_in_namespace,
}

-- The two ways of deriving an identifier agree: hashing the joined text, and hashing its parts.
pub derive-namespace_key :
    (repo_url commit_sha : Bytes)
    → derive_namespace_id repo_url commit_sha ≡ namespace_key repo_url commit_sha
unfolding derive_namespace_id namespace_key flatten
derive-namespace_key url sha =
    ap (λ t. fnv1a (url ++ (colons ++ t))) (sym (append_nil sha))
    ∙ sym (fnv1a_parts-flatten (url ∷ colons ∷ sha ∷ []))

-- A scoped key gives back its key and its namespace.
pub unscope-scope_key :
    (n : ℕ) (key : Bytes)
    → n < 2 ^ 64
    → (unscope_key (scope_key n key) ≡ some key)
      × (namespace_id_of (scope_key n key) ≡ some n)
      × ((m : ℕ) → key_in_namespace (scope_key n key) m ≡ (n == m))
unfolding unscope_key scope_key namespace_id_of key_in_namespace
unscope-scope_key n key h =
    (ground arith, ap some (from64-be64 n h), λ m. ap (λ x. x == m) (from64-be64 n h))

-- Comparing four bytes first is comparing the number that they spell.
blt-from32 :
    (a b c d a' b' c' d' : ℕ) (xs ys : Bytes)
    → a < 256
    → b < 256
    → c < 256
    → d < 256
    → a' < 256
    → b' < 256
    → c' < 256
    → d' < 256
    → blt (a ∷ b ∷ c ∷ d ∷ xs) (a' ∷ b' ∷ c' ∷ d' ∷ ys) ≡ (
        if eqb (from32 a b c d) (from32 a' b' c' d')
        then blt xs ys
        else ltb (from32 a b c d) (from32 a' b' c' d'))
unfolding blt
blt-from32 a b c d a' b' c' d' xs ys h1 h2 h3 h4 k1 k2 k3 k4 = ground arith

-- The order of two scoped keys is that of their namespaces first.
pub blt-scope_key :
    (n m : ℕ) (xs ys : Bytes)
    → n < 2 ^ 64
    → m < 2 ^ 64
    → blt (be64 n ++ xs) (be64 m ++ ys) ≡ (if n == m then blt xs ys else ltb n m)
blt-scope_key n m xs ys hn hm =
    blt-from32 (n / 2 ^ 56 % 256) (n / 2 ^ 48 % 256) (n / 2 ^ 40 % 256) (n / 2 ^ 32 % 256)
      (m / 2 ^ 56 % 256) (m / 2 ^ 48 % 256) (m / 2 ^ 40 % 256) (m / 2 ^ 32 % 256) _ _ (omega arith)
      (omega arith) (omega arith) (omega arith) (omega arith) (omega arith) (omega arith)
      (omega arith)
    ∙ ground (
      arith,
      blt-from32 (n / 2 ^ 24 % 256) (n / 2 ^ 16 % 256) (n / 2 ^ 8 % 256) (n % 256)
          (m / 2 ^ 24 % 256) (m / 2 ^ 16 % 256) (m / 2 ^ 8 % 256) (m % 256) xs ys (omega arith)
          (omega arith) (omega arith) (omega arith) (omega arith) (omega arith) (omega arith)
          (omega arith),
      from64-be64 n hn,
      from64-be64 m hm,
      nat_eq.beq_iff n m,
    )

-- The key has a first byte, and it is not 0xFF.
unfoldable pub starts_below : Bytes → Bool
starts_below [] = false
starts_below (x ∷ xs) = ltb x 255

unfoldable opens_below : Bytes → ℕ → Bool
opens_below [] b = true
opens_below (x ∷ xs) b = ltb x b

-- Where a key stands against the one byte that each end of the range adds.
blt-one : (key : Bytes) (b : ℕ) → blt key (b ∷ []) ≡ opens_below key b
unfolding blt opens_below
blt-one [] b = refl
blt-one (x ∷ []) b = ground arith
blt-one (x ∷ y ∷ xs) b = ground arith

by_namespace :
    (n m : ℕ) (key : Bytes)
    → (not (if n == m then blt key (0 ∷ []) else ltb n m)
        && (if n == m then blt key (255 ∷ []) else ltb n m))
      ≡ ((n == m) && starts_below key)
unfolding starts_below opens_below
by_namespace n m [] = ground (arith, blt-one [] 0, blt-one [] 255, nat_eq.beq_iff n m)
by_namespace n m (x ∷ xs) =
    ground (arith, blt-one (x ∷ xs) 0, blt-one (x ∷ xs) 255, nat_eq.beq_iff n m)

-- The scan of one namespace visits exactly its keys with a first byte other than 0xFF.
pub ns_scan_range_lem :
    (n m : ℕ) (key : Bytes)
    → n < 2 ^ 64
    → m < 2 ^ 64
    → let (start, end) = ns_scan_range m in
      (blt start end ≡ true)
      × ((not (blt (scope_key n key) start) && blt (scope_key n key) end)
          ≡ ((n == m) && starts_below key))
unfolding ns_scan_range scope_key opens_below
ns_scan_range_lem n m key hn hm = (
  blt-scope_key m m (0 ∷ []) (255 ∷ []) hm hm
      ∙ ground (arith, nat_eq.beq_iff m m, blt-one (0 ∷ []) 255),
  bounds (blt-scope_key n m key (0 ∷ []) hn hm) (blt-scope_key n m key (255 ∷ []) hn hm),
)
  where
    bounds :
        blt (be64 n ++ key) (be64 m ++ (0 ∷ [])) ≡ (if n == m then blt key (0 ∷ []) else ltb n m)
        → blt (be64 n ++ key) (be64 m ++ (255 ∷ []))
          ≡ (if n == m then blt key (255 ∷ []) else ltb n m)
        → (not (blt (be64 n ++ key) (be64 m ++ (0 ∷ [])))
            && blt (be64 n ++ key) (be64 m ++ (255 ∷ [])))
          ≡ ((n == m) && starts_below key)
    bounds lo hi = rw (lo, hi) (by_namespace n m key)

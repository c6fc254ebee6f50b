-- ===== src/Index/Bloom/Membership.antt =====
-- The Bloom filter (src/index/bloom.rs) has no false negatives and never indexes out of bounds.
use uldb.Prelude.{
  ℕ, zero, suc, ◌+◌, ◌*◌, ◌/◌, ◌%◌, ◌≡◌, ◌≤◌, ◌<◌, List, [], ◌∷◌, ◌++◌, Option, some, none, true,
  arith, refl, length, All,
}
use uldb.Bytes.{Bytes}
use uldb.Index.Bloom.{
  BloomFilter, IsValid, reads, set_in_lem, set_all, test_all, positions, positions_from, add,
  may_contain,
}

positions_from-lt :
    (rounds i h1 h2 m : ℕ) → 0 < m → All (λ p. p < m) (positions_from rounds i h1 h2 m)
unfolding positions_from
positions_from-lt zero i h1 h2 m h = tt
positions_from-lt (suc n) i h1 h2 m h = (omega arith, positions_from-lt n (i + 1) h1 h2 m h)

set_all_lem :
    (ps bits : List ℕ) (m : ℕ)
    → All (λ p. p < m) ps
    → m ≤ 64 * length bits
    → (l : List ℕ) × (set_all ps bits ≡ some l)
      × (length l ≡ length bits)
      × ((p : ℕ) → reads bits p ≡ some true → reads l p ≡ some true)
      × All (λ p. reads l p ≡ some true) ps
unfolding set_all
set_all_lem [] bits m h r = (bits, refl, refl, (λ p q. q), tt)
set_all_lem (p ∷ ps) bits m h r =
    let (l, e, n, t) = set_in_lem bits (p / 64) (p % 64) (omega arith) in
    let (l', e', n', keep, hit) = set_all_lem ps l m h.1 (omega arith) in
    (
      l',
      rw (e, set_all) e',
      omega arith,
      (λ q old. keep q (ground (arith, t (q / 64) (q % 64)))),
      (keep p (ground (arith, t (p / 64) (p % 64))), hit),
    )

test_all-All :
    (ps bits : List ℕ) → All (λ p. reads bits p ≡ some true) ps → test_all ps bits ≡ some true
unfolding test_all
test_all-All [] bits h = refl
test_all-All (p ∷ ps) bits h = rw (h.0, test_all) (test_all-All ps bits h.1)

All-test_all :
    (ps bits : List ℕ) → test_all ps bits ≡ some true → All (λ p. reads bits p ≡ some true) ps
unfolding test_all
All-test_all [] bits h = tt
All-test_all (p ∷ ps) bits h = (ground arith, All-test_all ps bits (ground arith))

All-keep :
    (ps bits l : List ℕ)
    → ((p : ℕ) → reads bits p ≡ some true → reads l p ≡ some true)
    → All (λ p. reads bits p ≡ some true) ps
    → All (λ p. reads l p ≡ some true) ps
All-keep [] bits l keep h = tt
All-keep (p ∷ ps) bits l keep h = (keep p h.0, All-keep ps bits l keep h.1)

-- Adding a key to a valid filter succeeds and leaves a valid filter that reports the key, still
-- reports every key reported before, and has counted one more.
pub add_lem :
    (key : Bytes) (f : BloomFilter)
    → IsValid f
    → (f' : BloomFilter) × (add key f ≡ some f')
      × IsValid f'
      × (may_contain key f' ≡ some true)
      × ((other : Bytes) → may_contain other f ≡ some true → may_contain other f' ≡ some true)
      × (f'.count ≡ f.count + 1)
unfolding add may_contain
add_lem key f ok =
    let ps = positions key f in
    let inside : All (λ p. p < f.num_bits) ps =
      unfold positions in positions_from-lt f.num_hashes 0 _ _ f.num_bits ok.some_bits in
    let (l, e, n, keep, hit) = set_all_lem ps f.bits f.num_bits inside ok.room in
    (
      record f { bits = l; count = f.count + 1 },
      rw (e, add),
      record { some_bits = ok.some_bits; room = omega (arith, ok.room) },
      test_all-All ps l hit,
      (λ other h.
          test_all-All (positions other f) l (
            All-keep (positions other f) f.bits l keep
              (All-test_all (positions other f) f.bits h))),
      refl,
    )

-- The keys of a page, added in order.
unfoldable pub add_all : List Bytes → BloomFilter → Option BloomFilter
add_all [] f = some f
add_all (k ∷ ks) f = elim (add k f) [ none ↦ none | some g ↦ add_all ks g ]

add_all_keeps :
    (ks : List Bytes) (f : BloomFilter) (key : Bytes)
    → IsValid f
    → may_contain key f ≡ some true
    → (f' : BloomFilter) × (add_all ks f ≡ some f') × (may_contain key f' ≡ some true)
unfolding add_all
add_all_keeps [] f key ok h = (f, refl, h)
add_all_keeps (k ∷ ks) f key ok h =
    let (g, e, ok', own, keep, c) = add_lem k f ok in
    let (f', e', h') = add_all_keeps ks g key ok' (keep key h) in (f', rw (e, add_all) e', h')

-- No false negatives: whatever keys are added to a valid filter, no addition panics and the filter
-- reports each of them.
pub no_false_negatives :
    (before : List Bytes) (key : Bytes) (later : List Bytes) (f : BloomFilter)
    → IsValid f
    → (f' : BloomFilter) × (add_all (before ++ (key ∷ later)) f ≡ some f')
      × (may_contain key f' ≡ some true)
unfolding add_all
no_false_negatives [] key later f ok =
    let (g, e, ok', own, keep, c) = add_lem key f ok in
    let (f', e', h') = add_all_keeps later g key ok' own in (f', rw (e, add_all) e', h')
no_false_negatives (k ∷ before) key later f ok =
    let (g, e, ok', own, keep, c) = add_lem k f ok in
    let (f', e', h') = no_false_negatives before key later g ok' in (f', rw (e, add_all) e', h')

-- ===== src/Storage/Compaction/Keys.antt =====
-- The sorted keys of a merge (src/storage/compaction.rs).
use uldb.Prelude.{◌≡◌, List, [], ◌∷◌, Bool, true, false, ◌||◌, arith, refl, ap, ◌∙◌, ◌==◌, All}
use uldb.Bytes.{Bytes, bytes_eq, blt}
use uldb.Bytes.Order.{blt_irrefl, blt_trans, blt_total}
use uldb.Storage.Compaction.{insert_key, sort_keys}

abbrev pub has : Bytes → List Bytes → Bool
has k [] = false
has k (j ∷ ks) = j == k || has k ks

abbrev pub KeyAbove : Bytes → List Bytes → Type 0
KeyAbove k = All (λ j. blt k j ≡ true)

abbrev pub KeysSorted : List Bytes → Type 0
KeysSorted [] = Unit
KeysSorted (k ∷ ks) = KeyAbove k ks × KeysSorted ks

abbrev pub KeysDistinct : List Bytes → Type 0
KeysDistinct [] = Unit
KeysDistinct (k ∷ ks) = (has k ks ≡ false) × KeysDistinct ks

pub insert_key_lem :
    (k : Bytes) (ks : List Bytes)
    → KeysSorted ks
    → has k ks ≡ false
    → KeysSorted (insert_key k ks)
      × ((j : Bytes) → has j (insert_key k ks) ≡ (k == j || has j ks))
      × ((j : Bytes) → blt j k ≡ true → KeyAbove j ks → KeyAbove j (insert_key k ks))
unfolding insert_key
insert_key_lem k [] s n = ((tt, tt), (λ j. refl), λ j h a. (h, tt))
insert_key_lem k (i ∷ ks) s n =
    let n' : has k ks ≡ false = ground arith in
    let (sk, hk, ak) = insert_key_lem k ks s.1 n' in
    (
      ground (
        arith,
        sk,
        ak i,
        blt_total i k,
        bytes_eq.beq_iff i k,
        λ (h : blt k i ≡ true). KeyAbove-trans k i ks h s.0,
      ),
      (λ j. ground (arith, hk j)),
      λ j h a. ground (arith, ak j),
    )
  where
    KeyAbove-trans :
        (k j : Bytes) (ks : List Bytes) → blt k j ≡ true → KeyAbove j ks → KeyAbove k ks
    KeyAbove-trans k j [] h a = tt
    KeyAbove-trans k j (i ∷ ks) h a = (blt_trans k j i h a.0, KeyAbove-trans k j ks h a.1)

pub sort_keys_lem :
    (ks : List Bytes)
    → KeysDistinct ks
    → KeysSorted (sort_keys ks) × ((j : Bytes) → has j (sort_keys ks) ≡ has j ks)
unfolding sort_keys
sort_keys_lem [] d = (tt, λ j. refl)
sort_keys_lem (k ∷ ks) d =
    let (s, h) = sort_keys_lem ks d.1 in
    let (s', h', a) = insert_key_lem k (sort_keys ks) s (h k ∙ d.0) in
    (s', λ j. h' j ∙ ap (λ b. k == j || b) (h j))

pub KeyAbove-has : (k : Bytes) (ks : List Bytes) → KeyAbove k ks → has k ks ≡ false
KeyAbove-has k [] a = refl
KeyAbove-has k (i ∷ ks) a =
    ground (arith, bytes_eq.beq_iff i k, blt_irrefl k, KeyAbove-has k ks a.1)

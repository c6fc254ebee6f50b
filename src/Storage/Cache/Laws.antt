-- ===== src/Storage/Cache/Laws.antt =====
-- The LRU cache (src/storage/cache.rs): what it answers, its size, and which entry it drops.
use uldb.Prelude.{
  ℕ, ◌+◌, ◌≡◌, ◌≤◌, ◌<◌, List, [], ◌∷◌, Option, some, none, true, false, ltb, leb, arith, refl,
  if◌then◌else◌, ◌==◌, All, Bool-cases, Option-cases, inl, inr, length, max, ◌⊎◌,
}
use uldb.Bytes.{Bytes, bytes_eq}
use uldb.Maps.{
  lookup, insert, remove, contains_key, lookup-insert, lookup-remove, length-insert, length-remove,
  length-remove_lt, contains-is_some,
}
use uldb.Storage.Cache.{CacheEntry, LruCache, get, put, oldest, evict, invalidate, clear, u64_max}

abbrev pub value_of : Option CacheEntry → Option Bytes
value_of none = none
value_of (some e) = some e.value

-- What the cache holds for a key, as a map.
unfoldable pub view : Bytes → LruCache → Option Bytes
view j c = value_of (lookup j c.entries)

-- A read gives what the cache holds and changes what it holds for no key.
pub get_lem :
    (k : Bytes) (c : LruCache)
    → ((get k c).0 ≡ view k c) × ((j : Bytes) → view j (get k c).1 ≡ view j c)
unfolding get view
get_lem k c = elim (Option-cases (lookup k c.entries)) [
  | inl e ↦ rw (e, get) (refl, λ j. refl)
  | inr f ↦
      rw (f.1, get)
        (
          refl,
          λ j. ground (
            arith,
            bytes_eq.beq_iff k j,
            f.1,
            lookup-insert k j (record { value = f.0.value; generation = c.generation + 1 })
                c.entries,
          ),
        )
]

-- Every generation is at most the counter, which has not reached `u64::MAX`, and the entries fit
-- the capacity (one entry is held even at capacity 0).
pub record IsValid (c : LruCache) : Type 0 where
  pub numbered : All (λ p. p.1.generation ≤ c.generation) c.entries
  pub in_u64 : c.generation < u64_max
  pub fits : length c.entries ≤ max c.capacity 1

abbrev pub In : Bytes → CacheEntry → List (Bytes × CacheEntry) → Type 0
In k e [] = ⊥
In k e (p ∷ m) = ((k ≡ p.0) × (e ≡ p.1)) ⊎ In k e m

abbrev pub AtLeast : ℕ → List (Bytes × CacheEntry) → Type 0
AtLeast g = All (λ p. g ≤ p.1.generation)

AtLeast-mono : (g h : ℕ) (m : List (Bytes × CacheEntry)) → g ≤ h → AtLeast h m → AtLeast g m
AtLeast-mono g h [] le a = tt
AtLeast-mono g h (p ∷ m) le a = (omega arith, AtLeast-mono g h m le a.1)

abbrev Scanned : ℕ → Option Bytes → List (Bytes × CacheEntry) → Type 0
Scanned g key m =
    (AtLeast g m × (oldest m g key ≡ key))
    ⊎ ((k : Bytes) × (e : CacheEntry) × (oldest m g key ≡ some k)
        × In k e m
        × AtLeast e.generation m
        × (e.generation < g))

oldest_lem : (m : List (Bytes × CacheEntry)) (g : ℕ) (key : Option Bytes) → Scanned g key m
unfolding oldest
oldest_lem [] g key = inl (tt, refl)
oldest_lem ((k, e) ∷ m) g key = elim (Bool-cases (ltb e.generation g)) [
  | inl lower ↦ elim (oldest_lem m e.generation (some k)) [
    | inl (a, r) ↦
        inr (k, e, rw (lower, oldest) r, inl (refl, refl), (omega arith, a), ground (arith, lower))
    | inr (k', e', r, i, a, lt) ↦
        inr (k', e', rw (lower, oldest) r, inr i, (omega arith, a), ground (arith, lower))
  ]
  | inr higher ↦ elim (oldest_lem m g key) [
    | inl (a, r) ↦ inl ((ground (arith, higher), a), rw (higher, oldest) r)
    | inr (k', e', r, i, a, lt) ↦
        inr (k', e', rw (higher, oldest) r, inr i, (ground (arith, higher), a), lt)
  ]
]

In-contains :
    (k : Bytes) (e : CacheEntry) (m : List (Bytes × CacheEntry))
    → In k e m
    → contains_key k m ≡ true
unfolding contains_key
In-contains k e [] i = absurd i
In-contains k e ((j, w) ∷ m) (inl (p, q)) = ground (arith, p, bytes_eq.beq_iff j k)
In-contains k e ((j, w) ∷ m) (inr i) = ground (arith, In-contains k e m i)

-- A full cache drops an entry of the lowest generation.
evict_lem :
    (m : List (Bytes × CacheEntry)) (n : ℕ)
    → All (λ p. p.1.generation ≤ n) m
    → n < u64_max
    → 0 < length m
    → (k : Bytes) × (e : CacheEntry) × (evict m ≡ remove k m) × In k e m × AtLeast e.generation m
unfolding evict
evict_lem [] n a b h = absurd (omega arith)
evict_lem (p ∷ m) n a b h = elim (oldest_lem (p ∷ m) u64_max none) [
  | inl (low, r) ↦ absurd (omega arith)
  | inr (k, e, r, i, low, lt) ↦ (k, e, rw r, i, low)
]

-- An insert that needs no room, since the key is there or the cache is not full, makes the key
-- read as the new value and every other key as before.
pub put_room :
    (k j v : Bytes) (c : LruCache)
    → (contains_key k c.entries ≡ true) ⊎ (length c.entries < c.capacity)
    → view j (put k v c) ≡ (if k == j then some v else view j c)
unfolding put view
put_room k j v c room =
    ground
      (arith, lookup-insert k j (record { value = v; generation = c.generation + 1 }) c.entries)

-- An insert of a new key into a full cache drops one entry, whose generation is the lowest of
-- all: it is the one that was used least recently. Every other key reads as before.
pub put_full :
    (k v : Bytes) (c : LruCache)
    → IsValid c
    → contains_key k c.entries ≡ false
    → c.capacity ≤ length c.entries
    → 0 < length c.entries
    → (old : Bytes) × (e : CacheEntry) × In old e c.entries
      × AtLeast e.generation c.entries
      × ((j : Bytes)
          → view j (put k v c) ≡ (if k == j then some v else if old == j then none else view j c))
unfolding put view
put_full k v c ok new_key full some_entry =
    let (old, e, r, i, low) = evict_lem c.entries c.generation ok.numbered ok.in_u64 some_entry in
    (
      old,
      e,
      i,
      low,
      λ j.
          rw (new_key, r)
            (ground (
              arith,
              lookup-insert k j (record { value = v; generation = c.generation + 1 })
                  (remove old c.entries),
              lookup-insert k j (record { value = v; generation = c.generation + 1 }) c.entries,
              lookup-remove old j c.entries,
              full,
            )),
    )

numbered_suc :
    (n : ℕ) (m : List (Bytes × CacheEntry))
    → All (λ p. p.1.generation ≤ n) m
    → All (λ p. p.1.generation ≤ n + 1) m
numbered_suc n [] a = tt
numbered_suc n (p ∷ m) a = (omega arith, numbered_suc n m a.1)

numbered-insert :
    (n : ℕ) (k : Bytes) (e : CacheEntry) (m : List (Bytes × CacheEntry))
    → e.generation ≤ n
    → All (λ p. p.1.generation ≤ n) m
    → All (λ p. p.1.generation ≤ n) (insert k e m)
unfolding insert
numbered-insert n k e [] h a = (h, tt)
numbered-insert n k e ((j, w) ∷ m) h a = ground (arith, numbered-insert n k e m)

numbered-remove :
    (n : ℕ) (k : Bytes) (m : List (Bytes × CacheEntry))
    → All (λ p. p.1.generation ≤ n) m
    → All (λ p. p.1.generation ≤ n) (remove k m)
unfolding remove
numbered-remove n k [] a = tt
numbered-remove n k ((j, w) ∷ m) a = ground (arith, numbered-remove n k m)

evict-shrinks :
    (m : List (Bytes × CacheEntry)) (n : ℕ)
    → All (λ p. p.1.generation ≤ n) m
    → n < u64_max
    → (length (evict m) + 1 ≤ max (length m) 1) × All (λ p. p.1.generation ≤ n) (evict m)
evict-shrinks [] n a b = unfold evict in (omega arith, tt)
evict-shrinks (p ∷ m) n a b =
    let (k, e, r, i, low) = evict_lem (p ∷ m) n a b (omega arith) in
    rw r (
      omega (arith, length-remove_lt k (p ∷ m) (In-contains k e (p ∷ m) i)),
      numbered-remove n k (p ∷ m) a,
    )

length-insert-le :
    (k : Bytes) (e : CacheEntry) (m : List (Bytes × CacheEntry))
    → length (insert k e m) ≤ length m + 1
length-insert-le k e m = ground (arith, length-insert k e m)

put-IsValid :
    (k v : Bytes) (c : LruCache) → IsValid c → c.generation + 1 < u64_max → IsValid (put k v c)
unfolding put
put-IsValid k v c ok small =
    let e : CacheEntry = record { value = v; generation = c.generation + 1 } in
    let add : (m : List (Bytes × CacheEntry))
        → All (λ p. p.1.generation ≤ c.generation) m
        → All (λ p. p.1.generation ≤ c.generation + 1) (insert k e m) =
      λ m a.
        numbered-insert (c.generation + 1) k e m (omega arith) (numbered_suc c.generation m a) in
    let (shrunk, kept) = evict-shrinks c.entries c.generation ok.numbered ok.in_u64 in
    elim (Bool-cases (contains_key k c.entries)) [
      | inl old ↦ rw old (record {
        numbered = add c.entries ok.numbered;
        in_u64 = small;
        fits = ground (arith, ok.fits, old, length-insert k e c.entries);
      })
      | inr fresh ↦ elim (Bool-cases (leb c.capacity (length c.entries))) [
        | inl full ↦
            rw (fresh, full)
              (record {
                numbered = add (evict c.entries) kept;
                in_u64 = small;
                fits = ground (arith, ok.fits, shrunk, length-insert-le k e (evict c.entries));
              })
        | inr room ↦
            rw (fresh, room)
              (record {
                numbered = add c.entries ok.numbered;
                in_u64 = small;
                fits = ground (arith, room, length-insert-le k e c.entries);
              })
      ]
    ]

-- The invariant holds after every operation, so the cache never holds more entries than its
-- capacity allows; reads and inserts want the counter to stay below `u64::MAX`.
pub operations-IsValid :
    (k v : Bytes) (c : LruCache)
    → IsValid c
    → c.generation + 1 < u64_max
    → IsValid (get k c).1 × IsValid (put k v c) × IsValid (invalidate k c) × IsValid (clear c)
unfolding get invalidate clear
operations-IsValid k v c ok small = (
  elim (Option-cases (lookup k c.entries)) [
    | inl e ↦ rw (e, get) ok
    | inr f ↦
        rw (f.1, get)
          (record {
            numbered =
                numbered-insert (c.generation + 1) k _ c.entries (omega arith)
                  (numbered_suc c.generation c.entries ok.numbered);
            in_u64 = small;
            fits = ground (
              arith,
              ok.fits,
              f.1,
              contains-is_some k c.entries,
              length-insert k (record { value = f.0.value; generation = c.generation + 1 })
                  c.entries,
            );
          })
  ],
  put-IsValid k v c ok small,
  record {
    numbered = numbered-remove c.generation k c.entries ok.numbered;
    in_u64 = ok.in_u64;
    fits = omega (arith, length-remove k c.entries, ok.fits);
  },
  record { numbered = tt; in_u64 = ok.in_u64; fits = omega arith },
)

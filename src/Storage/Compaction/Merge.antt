-- ===== src/Storage/Compaction/Merge.antt =====
-- `merge_pages` (src/storage/compaction.rs) against the records of its pages in a row.
use uldb.Prelude.{
  ◌≡◌, List, [], ◌∷◌, ◌++◌, Option, some, none, Bool, ◌&&◌, ◌||◌, arith, refl, ◌∙◌, if◌then◌else◌,
  ◌==◌, All, Option-cases, Bool-cases, inl, inr,
}
use uldb.Bytes.{Bytes, bytes_eq}
use uldb.Maps.{lookup, insert, keys, contains_key, lookup-insert, contains-is_some}
use uldb.Storage.Page.{PageRecord, Page}
use uldb.Storage.Page.Lookup.{find_record, IsSorted, Above}
use uldb.Storage.Compaction.{collect_records, collect, sort_keys, emit, merge_pages}
use uldb.Storage.Compaction.Keys.{
  has, KeyAbove, KeysSorted, KeysDistinct, sort_keys_lem, KeyAbove-has,
}

-- The records of all pages, page after page.
unfoldable pub all_records : List Page → List PageRecord
all_records [] = []
all_records (p ∷ ps) = p.records ++ all_records ps

abbrev pub or_record : Option PageRecord → Option PageRecord → Option PageRecord
or_record none later = later
or_record (some r) later = some r

pub find-append :
    (k : Bytes) (xs ys : List PageRecord)
    → find_record k (xs ++ ys) ≡ or_record (find_record k xs) (find_record k ys)
unfolding find_record
find-append k [] ys = refl
find-append k (r ∷ xs) ys = ground (arith, find-append k xs ys)

-- What the map of latest records keeps: its keys are those of its records, each once.
abbrev Keyed : List (Bytes × PageRecord) → Type 0
Keyed = All (λ p. p.1.key ≡ p.0)

has-keys : (k : Bytes) (m : List (Bytes × PageRecord)) → has k (keys m) ≡ contains_key k m
unfolding contains_key
has-keys k [] = refl
has-keys k ((j, r) ∷ m) = ground (arith, has-keys k m)

has-keys-insert :
    (k j : Bytes) (r : PageRecord) (m : List (Bytes × PageRecord))
    → has k (keys (insert j r m)) ≡ (j == k || has k (keys m))
unfolding insert
has-keys-insert k j r [] = refl
has-keys-insert k j r ((i, s) ∷ m) = ground (
  arith,
  has-keys-insert k j r m,
  bytes_eq.beq_iff i j,
  bytes_eq.beq_iff i k,
  bytes_eq.beq_iff j k,
)

insert-Keyed :
    (r : PageRecord) (m : List (Bytes × PageRecord))
    → Keyed m
    → KeysDistinct (keys m)
    → Keyed (insert r.key r m) × KeysDistinct (keys (insert r.key r m))
unfolding insert
insert-Keyed r [] h d = ((refl, tt), (refl, tt))
insert-Keyed r ((i, s) ∷ m) h d = ground (
  arith,
  insert-Keyed r m,
  has-keys-insert i r.key r m,
  bytes_eq.beq_iff i r.key,
  bytes_eq.beq_iff r.key i,
)

collect_records_lem :
    (rs : List PageRecord) (m : List (Bytes × PageRecord))
    → Keyed m
    → KeysDistinct (keys m)
    → Keyed (collect_records rs m)
      × KeysDistinct (keys (collect_records rs m))
      × ((k : Bytes) → lookup k (collect_records rs m) ≡ or_record (lookup k m) (find_record k rs))
unfolding collect_records find_record
collect_records_lem [] m h d = (h, d, λ k. ground arith)
collect_records_lem (r ∷ rs) m h d = elim (Bool-cases (contains_key r.key m)) [
  | inl old ↦
      rw (old, collect_records)
        (let (h', d', e) = collect_records_lem rs m h d in
          (
            h',
            d',
            λ k. e k ∙ ground (arith, bytes_eq.beq_iff r.key k, contains-is_some r.key m, old),
          ))
  | inr new ↦
      rw (new, collect_records)
        (let (hi, di) = insert-Keyed r m h d in
          let (h', d', e) = collect_records_lem rs (insert r.key r m) hi di in
          (
            h',
            d',
            λ k.
                e k
                ∙ ground (
                  arith,
                  bytes_eq.beq_iff r.key k,
                  contains-is_some r.key m,
                  new,
                  lookup-insert r.key k r m,
                ),
          ))
]

collect_lem :
    (ps : List Page) (m : List (Bytes × PageRecord))
    → Keyed m
    → KeysDistinct (keys m)
    → Keyed (collect ps m)
      × KeysDistinct (keys (collect ps m))
      × ((k : Bytes)
          → lookup k (collect ps m) ≡ or_record (lookup k m) (find_record k (all_records ps)))
unfolding collect all_records
collect_lem [] m h d = (h, d, λ k. unfold find_record in ground arith)
collect_lem (p ∷ ps) m h d =
    let (h1, d1, e1) = collect_records_lem p.records m h d in
    let (h2, d2, e2) = collect_lem ps (collect_records p.records m) h1 d1 in
    (h2, d2, λ k. e2 k ∙ ground (arith, e1 k, find-append k p.records (all_records ps)))

abbrev pub dropped : Bool → Option PageRecord → Option PageRecord
dropped drop_tombstones none = none
dropped drop_tombstones (some r) = if drop_tombstones && r.tombstone then none else some r

Keyed-lookup :
    (k : Bytes) (m : List (Bytes × PageRecord)) (r : PageRecord)
    → Keyed m
    → lookup k m ≡ some r
    → r.key ≡ k
unfolding lookup
Keyed-lookup k [] r h e = cc
Keyed-lookup k ((i, s) ∷ m) r h e = ground (arith, bytes_eq.beq_iff i k, Keyed-lookup k m r h.1)

module _ (d : Bool) (latest : List (Bytes × PageRecord)) (keyed : Keyed latest) where
  emit-Above : (k : Bytes) (ks : List Bytes) → KeyAbove k ks → Above k (emit d latest ks)
  unfolding emit
  emit-Above k [] a = tt
  emit-Above k (i ∷ ks) a = elim (Option-cases (lookup i latest)) [
    | inl e ↦ rw (e, emit) (emit-Above k ks a.1)
    | inr f ↦
        rw (f.1, emit) (ground (arith, emit-Above k ks a.1, Keyed-lookup i latest f.0 keyed f.1))
  ]

  emit_lem :
      (ks : List Bytes)
      → KeysSorted ks
      → IsSorted (emit d latest ks)
        × ((k : Bytes)
            → find_record k (emit d latest ks)
              ≡ (if has k ks then dropped d (lookup k latest) else none))
  unfolding emit find_record
  emit_lem [] s = (tt, λ k. refl)
  emit_lem (i ∷ ks) s =
      let (si, fi) = emit_lem ks s.1 in
      elim (Option-cases (lookup i latest)) [
        | inl e ↦ rw (e, emit) (si, λ k. ground (arith, fi k, bytes_eq.beq_iff i k, e))
        | inr f ↦
            rw (f.1, emit)
              (let own = Keyed-lookup i latest f.0 keyed f.1 in
                (
                  ground (arith, si, own, emit-Above i ks s.0),
                  λ k. ground (arith, fi k, bytes_eq.beq_iff i k, f.1, own, KeyAbove-has i ks s.0),
                ))
      ]

-- The merge of any pages is sorted with each key once, and holds for each key the first record of
-- that key in the pages in their order, less the tombstones where these are dropped.
pub merge_pages_lem :
    (d : Bool) (ps : List Page)
    → IsSorted (merge_pages d ps).records
      × ((k : Bytes)
          → find_record k (merge_pages d ps).records ≡ dropped d (find_record k (all_records ps)))
unfolding merge_pages
merge_pages_lem d ps =
    let (keyed, distinct, first) = collect_lem ps [] tt tt in
    let (ss, hs) = sort_keys_lem (keys (collect ps [])) distinct in
    let (sorted, found) = emit_lem d (collect ps []) keyed (sort_keys (keys (collect ps []))) ss in
    (
      sorted,
      λ k.
          found k
          ∙ ground (
            arith,
            hs k,
            has-keys k (collect ps []),
            contains-is_some k (collect ps []),
            first k,
            lookup_nil k,
          ),
    )
  where
    lookup_nil : (k : Bytes) → ◌≡◌ {A = Option PageRecord} (lookup k []) none
    lookup_nil k = unfold lookup in refl

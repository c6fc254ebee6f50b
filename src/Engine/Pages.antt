-- ===== src/Engine/Pages.antt =====
-- The page that a flush makes of a memtable (src/engine.rs): it always is made, and holds the
-- memtable's entries.
use uldb.Prelude.{
  ℕ, ◌≡◌, List, [], ◌∷◌, ◌++◌, Option, some, none, arith, refl, ap, ◌∙◌, sym, append_nil,
  append_assoc, max, length,
}
use uldb.Bytes.{Bytes, bytes_eq}
use uldb.Maps.{lookup}
use uldb.Maps.Sorted
use uldb.Storage.Memtable.{MemEntry}
use uldb.Storage.Page
use uldb.Storage.Page.{PageRecord, Page, live_keys, add_keys, build_bloom}
use uldb.Storage.Page.Lookup
use uldb.Storage.Page.Lookup.{find_record, Above}
use uldb.Storage.Page.Sorting.{sort_sorted}
use uldb.Index.Bloom
use uldb.Index.Bloom.{BloomFilter, new-IsValid}
use uldb.Index.Bloom.Membership.{add_lem}
use uldb.Engine.{or_empty, is_none, push_entries, frozen_to_page}

abbrev pub to_record : Bytes → MemEntry → PageRecord
to_record k e = record { key = k; value = or_empty e.value; tombstone = is_none e.value }

unfoldable pub to_records : List (Bytes × MemEntry) → List PageRecord
to_records [] = []
to_records ((k, e) ∷ es) = to_record k e ∷ to_records es

abbrev pub entry_record : Bytes → Option MemEntry → Option PageRecord
entry_record k none = none
entry_record k (some e) = some (to_record k e)

push_entries_lem :
    (es : List (Bytes × MemEntry)) (p : Page)
    → push_entries es p ≡ record p { records = p.records ++ to_records es }
unfolding push_entries to_records Page.push
push_entries_lem [] p = ap (λ l. record p { records = l }) (sym (append_nil p.records))
push_entries_lem ((k, e) ∷ es) p =
    push_entries_lem es (Page.push k (or_empty e.value) (is_none e.value) p)
    ∙ ap (λ l. record p { records = l })
        (append_assoc p.records (to_record k e ∷ []) (to_records es))

Above-to_records :
    (k : Bytes) (es : List (Bytes × MemEntry)) → Sorted.Above k es → Above k (to_records es)
unfolding to_records
Above-to_records k [] a = tt
Above-to_records k ((j, e) ∷ es) a = (a.0, Above-to_records k es a.1)

to_records-IsSorted :
    (es : List (Bytes × MemEntry)) → Sorted.IsSorted es → Lookup.IsSorted (to_records es)
unfolding to_records
to_records-IsSorted [] s = tt
to_records-IsSorted ((k, e) ∷ es) s = (Above-to_records k es s.0, to_records-IsSorted es s.1)

find-to_records :
    (j : Bytes) (es : List (Bytes × MemEntry))
    → find_record j (to_records es) ≡ entry_record j (lookup j es)
unfolding to_records find_record lookup
find-to_records j [] = refl
find-to_records j ((k, e) ∷ es) = ground (arith, find-to_records j es, bytes_eq.beq_iff k j)

add_keys_total :
    (ks : List Bytes) (f : BloomFilter)
    → Bloom.IsValid f
    → (g : BloomFilter) × (add_keys ks f ≡ some g)
unfolding add_keys
add_keys_total [] f valid = (f, refl)
add_keys_total (k ∷ ks) f valid =
    let (g, e, valid', _, _, _) = add_lem k f valid in
    let (out, e') = add_keys_total ks g valid' in (out, rw (e, add_keys) e')

module _ (ideal_bits : ℕ → ℕ) (ideal_hashes : ℕ → ℕ → ℕ) where
  -- Building the filter never panics, and leaves the records as they are.
  build_bloom_total :
      (p : Page)
      → (p' : Page) × (build_bloom ideal_bits ideal_hashes p ≡ some p') × (p'.records ≡ p.records)
  build_bloom_total p = at p.records refl
    where
      at :
          (rs : List PageRecord)
          → rs ≡ p.records
          → (p' : Page) × (build_bloom ideal_bits ideal_hashes p ≡ some p')
            × (p'.records ≡ p.records)
      at [] e = (p, unfold build_bloom in ground (arith, sym e), refl)
      at (r ∷ rs) e =
          let (f, added) =
            add_keys_total (live_keys p.records)
              (Bloom.new ideal_bits ideal_hashes (max (length p.records) 16))
              (new-IsValid ideal_bits ideal_hashes (max (length p.records) 16)) in
          (record p { bloom = some f }, unfold build_bloom in ground (arith, sym e, added), refl)

  -- A flush always makes a page. It is sorted, and its record of a key is the memtable's entry.
  pub frozen_to_page_lem :
      (es : List (Bytes × MemEntry))
      → Sorted.IsSorted es
      → (page : Page) × (frozen_to_page ideal_bits ideal_hashes es ≡ some page)
        × Lookup.IsSorted page.records
        × ((j : Bytes) → find_record j page.records ≡ entry_record j (lookup j es))
  unfolding frozen_to_page Page.sort
  frozen_to_page_lem es s =
      let p = Page.sort (push_entries es (Page.new 0)) in
      let sorted = to_records-IsSorted es s in
      let shape : p.records ≡ to_records es =
        ap (λ q. Page.sort_records (q.records)) (push_entries_lem es (Page.new 0))
        ∙ sort_sorted (to_records es) sorted in
      let (page, made, same) = build_bloom_total p in
      let all : page.records ≡ to_records es = same ∙ shape in
      (page, made, rw all sorted, λ j. rw all (find-to_records j es))

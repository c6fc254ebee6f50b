-- ===== src/Storage/Compaction/Reads.antt =====
-- `CompactionManager::get` (src/storage/compaction.rs): the newest record of a key wins.
use uldb.Prelude.{
  ◌≡◌, List, [], ◌∷◌, ◌++◌, Option, some, none, arith, refl, ap, ◌∙◌, sym, if◌then◌else◌, All,
  All-append, append_assoc,
}
use uldb.Bytes.{Bytes, bytes_eq}
use uldb.Storage.Page.{PageRecord, Page, live_value}
use uldb.Storage.Page.Lookup.{find_record, IsSorted, binary_search-find, get-find}
use uldb.Storage.Compaction.{CompactionManager, rev, search_pages, get, answer, or_search}
use uldb.Storage.Compaction.Merge.{all_records, or_record, find-append}

abbrev pub SortedPages : List Page → Type 0
SortedPages = All (λ p. IsSorted p.records)

-- All pages are sorted, with each key once in a page.
pub record IsValid (cm : CompactionManager) : Type 0 where
  pub sorted0 : SortedPages cm.l0
  pub sorted1 : SortedPages cm.l1
  pub sorted2 : SortedPages cm.l2

-- The records of all levels, the newest page first.
unfoldable pub newest_first : CompactionManager → List PageRecord
newest_first cm = all_records (rev cm.l0) ++ (all_records (rev cm.l1) ++ all_records (rev cm.l2))

-- What a record tells a search: nothing, a deletion, or a value.
abbrev pub seen : Option PageRecord → Option (Option Bytes)
seen none = none
seen (some r) = some (if r.tombstone then none else some r.value)

seen_or : (a b : Option PageRecord) → seen (or_record a b) ≡ or_search (seen a) (seen b)
seen_or none b = refl
seen_or (some r) b = refl

answer-seen : (r : Option PageRecord) → answer (seen r) ≡ live_value r
answer-seen none = refl
answer-seen (some r) = refl

SortedPages-rev : (ps : List Page) → SortedPages ps → SortedPages (rev ps)
unfolding rev
SortedPages-rev [] s = tt
SortedPages-rev (p ∷ ps) s =
    All-append (λ q. IsSorted q.records) (rev ps) (p ∷ []) (SortedPages-rev ps s.1) (s.0, tt)

search-seen :
    (k : Bytes) (ps : List Page)
    → SortedPages ps
    → search_pages k ps ≡ seen (find_record k (all_records ps))
unfolding search_pages all_records
search-seen k [] s = unfold find_record in refl
search-seen k (p ∷ ps) s = ground (
  arith,
  get-find k p s.0,
  binary_search-find k p.records s.0,
  search-seen k ps s.1,
  find-append k p.records (all_records ps),
)

-- A read gives the value of the first record of its key from the newest page to the oldest, and
-- nothing if that is a tombstone or there is none.
pub get-newest :
    (k : Bytes) (cm : CompactionManager)
    → IsValid cm
    → get k cm ≡ live_value (find_record k (newest_first cm))
unfolding get newest_first
get-newest k cm ok =
    let a = find_record k (all_records (rev cm.l0)) in
    let b = find_record k (all_records (rev cm.l1)) in
    let c = find_record k (all_records (rev cm.l2)) in
    rw
      (
        search-seen k (rev cm.l0) (SortedPages-rev cm.l0 ok.sorted0),
        search-seen k (rev cm.l1) (SortedPages-rev cm.l1 ok.sorted1),
        search-seen k (rev cm.l2) (SortedPages-rev cm.l2 ok.sorted2),
        find-append,
        find-append,
      )
      (ap answer (ap (or_search (seen a)) (sym (seen_or b c)) ∙ sym (seen_or a (or_record b c)))
        ∙ answer-seen (or_record a (or_record b c)))

pub all_records-append :
    (ps qs : List Page) → all_records (ps ++ qs) ≡ all_records ps ++ all_records qs
unfolding all_records
all_records-append [] qs = refl
all_records-append (p ∷ ps) qs =
    ap (λ l. p.records ++ l) (all_records-append ps qs)
    ∙ sym (append_assoc p.records (all_records ps) (all_records qs))

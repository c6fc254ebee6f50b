-- ===== src/Storage/Page.antt =====
-- src/storage/page.rs: sorted pages of records, their lookup, and their binary format. The two
-- directions of `flate2` are parameters of the functions that call them.
pub mod Lookup
pub mod Sorting
pub mod Format
pub mod Termination
use uldb.Prelude.{
  ℕ, zero, suc, ◌+◌, ◌%◌, ◌^◌, ◌<◌, List, [], ◌∷◌, ◌++◌, Option, some, none, Bool, true, false, eqb,
  ltb, not, if◌then◌else◌, length, take, drop, map, ◌==◌, get_elem?, max,
}
use uldb.Bytes.{Bytes, bytes_eq, blt}
use uldb.Bytes.Endian.{be16, be32, from16, from32}
use uldb.Index.Bloom
use uldb.Index.Bloom.{BloomFilter}

pub record PageRecord : Type 0 where
  pub key : Bytes
  pub value : Bytes
  pub tombstone : Bool

pub record Page : Type 0 where
  pub records : List PageRecord
  pub level : ℕ
  pub bloom : Option BloomFilter

abbrev pub new : ℕ → Page
new level = record { records = []; level = level; bloom = none }

unfoldable pub push : Bytes → Bytes → Bool → Page → Page
push key value tombstone p = record p {
  records = p.records ++ record { key = key; value = value; tombstone = tombstone } ∷ [];
}

-- The stable sort by key, as an insertion sort.
unfoldable pub insert_sorted : PageRecord → List PageRecord → List PageRecord
insert_sorted r [] = r ∷ []
insert_sorted r (s ∷ rs) = if blt s.key r.key then s ∷ insert_sorted r rs else r ∷ s ∷ rs

unfoldable pub sort_records : List PageRecord → List PageRecord
unfolding insert_sorted
sort_records [] = []
sort_records (r ∷ rs) = insert_sorted r (sort_records rs)

unfoldable pub sort : Page → Page
unfolding sort_records
sort p = record p { records = sort_records p.records }

-- The loop of `build_bloom`: the live keys, in order.
unfoldable pub live_keys : List PageRecord → List Bytes
live_keys [] = []
live_keys (r ∷ rs) = let rest = live_keys rs in if r.tombstone then rest else r.key ∷ rest

unfoldable pub add_keys : List Bytes → BloomFilter → Option BloomFilter
add_keys [] f = some f
add_keys (k ∷ ks) f = elim (Bloom.add k f) [ none ↦ none | some g ↦ add_keys ks g ]

-- An empty page stays as it is; `none` is a panic.
unfoldable pub build_bloom : (ℕ → ℕ) → (ℕ → ℕ → ℕ) → Page → Option Page
unfolding live_keys add_keys
build_bloom ideal_bits ideal_hashes p = elim p.records [
  | [] ↦ some p
  | _ ↦
      elim (add_keys (live_keys p.records)
        (Bloom.new ideal_bits ideal_hashes (max (length p.records) 16))) [
          | none ↦ none
          | some f ↦ some (record p { bloom = some f })
        ]
]

unfoldable pub bloom_may_contain : Bytes → Page → Option Bool
bloom_may_contain key p = elim p.bloom [ none ↦ some true | some f ↦ Bloom.may_contain key f ]

-- `binary_search_by` of the standard library, by its contract on a sorted slice: the index of the
-- key, or the index where it would go.
pub data Search : Type 0 where
  found : ℕ → Search
  missing : ℕ → Search

abbrev pub shift : Search → Search
shift (found i) = found (suc i)
shift (missing i) = missing (suc i)

unfoldable pub binary_search : Bytes → List PageRecord → Search
binary_search key [] = missing 0
binary_search key (r ∷ rs) =
    let rest = binary_search key rs in
    if r.key == key then found 0 else if blt r.key key then shift rest else missing 0

abbrev pub record_at : Search → List PageRecord → Option PageRecord
record_at (found i) rs = get_elem? rs i
record_at (missing i) rs = none

abbrev pub live_value : Option PageRecord → Option Bytes
live_value none = none
live_value (some r) = if r.tombstone then none else some r.value

unfoldable pub get : Bytes → Page → Option Bytes
unfolding binary_search
get key p = live_value (record_at (binary_search key p.records) p.records)

abbrev pub index_of : Search → ℕ
index_of (found i) = i
index_of (missing i) = i

-- `take_while(rec.key < end)`
unfoldable pub take_below : Bytes → List PageRecord → List PageRecord
take_below end [] = []
take_below end (r ∷ rs) = let rest = take_below end rs in if blt r.key end then r ∷ rest else []

unfoldable pub range : Bytes → Bytes → Page → List PageRecord
unfolding binary_search take_below
range start end p = take_below end (drop (index_of (binary_search start p.records)) p.records)

unfoldable pub tombstones : List PageRecord → ℕ
tombstones [] = 0
tombstones (r ∷ rs) = (if r.tombstone then 1 else 0) + tombstones rs

unfoldable pub live : List PageRecord → ℕ
live [] = 0
live (r ∷ rs) = (if r.tombstone then 0 else 1) + live rs

unfoldable pub tombstone_count : Page → ℕ
unfolding tombstones
tombstone_count p = tombstones p.records

unfoldable pub live_count : Page → ℕ
unfolding live
live_count p = live p.records

-- "ULPG" and "ULRC"
abbrev pub page_magic : Bytes
page_magic = b'U' ∷ b'L' ∷ b'P' ∷ b'G' ∷ []

abbrev pub record_magic : Bytes
record_magic = b'U' ∷ b'L' ∷ b'R' ∷ b'C' ∷ []

abbrev pub flag : Bool → ℕ
flag true = 1
flag false = 0

unfoldable pub encode_record : PageRecord → Bytes
encode_record r =
    record_magic
    ++ (be16 (length r.key % 2 ^ 16)
        ++ (be32 (length r.value % 2 ^ 32) ++ (r.key ++ (r.value ++ flag r.tombstone ∷ []))))

unfoldable pub encode_body : List PageRecord → Bytes
unfolding encode_record
encode_body [] = []
encode_body (r ∷ rs) = encode_record r ++ encode_body rs

-- Version 1, the record count, and the two sizes, each cut to 32 bits, before what is stored.
abbrev pub frame : ℕ → ℕ → ℕ → Bytes → Bytes
frame count full size stored =
    page_magic ++ (1 ∷ (be32 (count % 2 ^ 32) ++ (be32 full ++ (be32 size ++ stored))))

unfoldable pub serialize : (Bytes → Bytes) → Page → Bytes
unfolding encode_body
serialize deflate p =
    let body = encode_body p.records in
    let packed = deflate body in
    let full = length body % 2 ^ 32 in
    if ltb (length packed % 2 ^ 32) full
    then frame (length p.records) full (length packed % 2 ^ 32) packed
    else frame (length p.records) full full body

pub data PageError : Type 0 where
  too_short bad_magic truncated bad_deflate bad_record_magic : PageError

-- `panicked` is the failed `assert_eq!` on the record count; `stuck` is no outcome of the code,
-- it would mean that the loop ran out of fuel.
pub data Parsed {ℓ} (A : Type ℓ) : Type ℓ where
  parsed : A → Parsed A
  err : PageError → Parsed A
  panicked : Parsed A
  stuck : Parsed A

-- One round of the record loop: a `break`, a wrong magic, or a record and the bytes after it.
pub data Round : Type 0 where
  stop : Round
  wrong : Round
  next : PageRecord → Bytes → Round

unfoldable pub tail_flag : Bytes → Bytes → Bytes → Round
tail_flag key value [] = stop
tail_flag key value (t ∷ rest) =
    next (record { key = key; value = value; tombstone = not (eqb t 0) }) rest

unfoldable pub parse_fields : Bytes → Round
unfolding tail_flag
parse_fields (a ∷ b ∷ c ∷ d ∷ e ∷ f ∷ rest) =
    let key_len = from16 a b in
    let val_len = from32 c d e f in
    if ltb (length rest) (key_len + val_len + 1)
    then stop
    else tail_flag (take key_len rest) (take val_len (drop key_len rest))
        (drop val_len (drop key_len rest))
parse_fields _ = stop

unfoldable pub parse_one : Bytes → Round
unfolding parse_fields
parse_one (a ∷ b ∷ c ∷ d ∷ rest) =
    if (a ∷ b ∷ c ∷ d ∷ []) == record_magic then parse_fields rest else wrong
parse_one _ = stop

-- The records in order, put before those that the later rounds find.
unfoldable pub parse_body : ℕ → Bytes → List PageRecord → Parsed (List PageRecord)
parse_body zero body records = stuck
parse_body (suc fuel) body records = elim (parse_one body) [
  | stop ↦ parsed records
  | wrong ↦ err bad_record_magic
  | next r rest ↦ parse_body fuel rest (records ++ r ∷ [])
]

abbrev pub check_count : ℕ → Parsed (List PageRecord) → Parsed Page
check_count count (parsed rs) =
    if eqb (length rs) count
    then parsed (record { records = rs; level = 0; bloom = none })
    else panicked
check_count count (err e) = err e
check_count count panicked = panicked
check_count count stuck = stuck

abbrev pub parse_all : ℕ → Option Bytes → Parsed Page
parse_all count none = err bad_deflate
parse_all count (some body) = check_count count (parse_body (suc (length body)) body [])

-- The version byte is read and not compared.
unfoldable pub deserialize : (Bytes → Option Bytes) → Bytes → Parsed Page
unfolding parse_body
deserialize inflate
      (m₀ ∷ m₁ ∷ m₂ ∷ m₃ ∷ version ∷ c₀ ∷ c₁ ∷ c₂ ∷ c₃ ∷ u₀ ∷ u₁ ∷ u₂ ∷ u₃ ∷ z₀ ∷ z₁ ∷ z₂ ∷ z₃
        ∷ rest) =
    let size = from32 z₀ z₁ z₂ z₃ in
    let full = from32 u₀ u₁ u₂ u₃ in
    if (m₀ ∷ m₁ ∷ m₂ ∷ m₃ ∷ []) == page_magic
    then (if ltb (17 + length rest) (17 + size)
        then err truncated
        else parse_all (from32 c₀ c₁ c₂ c₃)
            (if ltb size full then inflate (take size rest) else some (take size rest)))
    else err bad_magic
deserialize inflate _ = err too_short

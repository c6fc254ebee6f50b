-- ===== src/Index/Fuzzy/Queries.antt =====
-- What a query of the fuzzy index answers (src/index/fuzzy.rs, `query_with_max`).
use uldb.Prelude.{ℕ, ◌≡◌, ◌≤◌, List, [], ◌∷◌, some, length, get_elem?, All, nat_eq}
use uldb.Bytes.{Bytes, bytes_eq}
use uldb.Index.Fuzzy.{FuzzyMatcher, normalize, Ranked, FuzzyMatch, name_matches, levenshtein}

-- A ranked symbol: its normal form is within the distance.
abbrev Close : Bytes → ℕ → FuzzyMatcher → Ranked → Type 0
Close q d m r =
    (symbol : Bytes) × (get_elem? m.symbols r.idx ≡ some symbol)
    × (r.dist ≡ levenshtein (normalize q) (normalize symbol) d)
    × (r.dist ≤ d)

-- The distances do not fall.
abbrev FromNear : List Ranked → Type 0
FromNear [] = Unit
FromNear (r ∷ rs) = All (λ s. r.dist ≤ s.dist) rs × FromNear rs

-- A match: a symbol of the index within the distance.
abbrev pub IsMatch : Bytes → ℕ → FuzzyMatcher → FuzzyMatch → Type 0
IsMatch q d m x =
    (i : ℕ) × (get_elem? m.symbols i ≡ some x.symbol)
    × (x.distance ≡ levenshtein (normalize q) (normalize x.symbol) d)
    × (x.distance ≤ d)

abbrev pub NearestFirst : List FuzzyMatch → Type 0
NearestFirst [] = Unit
NearestFirst (x ∷ xs) = All (λ y. x.distance ≤ y.distance) xs × NearestFirst xs

-- The matches for ranked symbols.
record Named (q : Bytes) (d : ℕ) (m : FuzzyMatcher) (rs : List Ranked) (xs : List FuzzyMatch)
    : Type 0 where
  names : name_matches m.symbols rs ≡ some xs
  count : length xs ≡ length rs
  matching : All (IsMatch q d m) xs
  order : (n : ℕ) → All (λ r. n ≤ r.dist) rs → All (λ x. n ≤ x.distance) xs
  nearest : FromNear rs → NearestFirst xs

-- ===== src/Query/Planner.antt =====
-- src/query/planner.rs: the plan of a query and the fusion of ranked lists. Vectors have their
-- components in a type `F`; a score is a value of a type `S` with the operations the code uses.
pub mod Plans
pub mod Fusion
use uldb.Prelude.{
  ℕ, zero, suc, ◌+◌, List, [], ◌∷◌, ◌++◌, Option, some, none, Bool, true, false, ◌&&◌, ◌||◌, not,
  if◌then◌else◌, length, eqb, leb, ◌==◌, Eq, eqb_iff, arith,
}
use uldb.Bytes.{Bytes, bytes_eq}
use uldb.Bytes.Utf8.{chars}
use uldb.Maps.{lookup, insert}

pub data QueryStep : Type 0 where
  bm25 hnsw fuzzy graph : QueryStep

abbrev pub step_tag : QueryStep → ℕ
step_tag bm25 = 0
step_tag hnsw = 1
step_tag fuzzy = 2
step_tag graph = 3

pub record QuerySpec (F : Type 0) : Type 0 where
  pub text : Bytes
  pub vector : List F
  pub top_k : ℕ
  pub max_depth : ℕ
  pub relations : List Bytes
  pub lang_filter : List Bytes
  pub type_filter : List Bytes
  pub file_filter : List Bytes
  pub merge_strategy : ℕ
  pub timeout_ms : ℕ

abbrev pub default : {F : Type 0} → QuerySpec F
default = record {
  text = [];
  vector = [];
  top_k = 10;
  max_depth = 3;
  relations = [];
  lang_filter = [];
  type_filter = [];
  file_filter = [];
  merge_strategy = 1;
  timeout_ms = 5000;
}

abbrev pub is_empty {ℓ} : {A : Type ℓ} → List A → Bool
is_empty [] = true
is_empty (x ∷ xs) = false

-- `char::is_whitespace`
abbrev pub is_whitespace : ℕ → Bool
is_whitespace c =
    (leb 0x9 c && leb c 0xD)
    || eqb c 0x20
    || eqb c 0x85
    || eqb c 0xA0
    || eqb c 0x1680
    || (leb 0x2000 c && leb c 0x200A)
    || eqb c 0x2028
    || eqb c 0x2029
    || eqb c 0x202F
    || eqb c 0x205F
    || eqb c 0x3000

-- `trim().is_empty()`
unfoldable pub all_whitespace : List ℕ → Bool
all_whitespace [] = true
all_whitespace (c ∷ cs) = is_whitespace c && all_whitespace cs

unfoldable pub has_byte : ℕ → Bytes → Bool
has_byte b [] = false
has_byte b (c ∷ bytes) = eqb c b || has_byte b bytes

-- `contains("::")`
unfoldable pub has_path : Bytes → Bool
has_path (a ∷ b ∷ bytes) = (eqb a b':' && eqb b b':') || has_path (b ∷ bytes)
has_path _ = false

abbrev is_lower : ℕ → Bool
is_lower c = leb b'a' c && leb c b'z'

abbrev is_upper : ℕ → Bool
is_upper c = leb b'A' c && leb c b'Z'

abbrev is_alphanumeric : ℕ → Bool
is_alphanumeric c = is_lower c || is_upper c || (leb b'0' c && leb c b'9')

unfoldable pub all_alphanumeric : List ℕ → Bool
all_alphanumeric [] = true
all_alphanumeric (c ∷ cs) = is_alphanumeric c && all_alphanumeric cs

-- An upper-case letter right after a lower-case one.
unfoldable pub has_hump : List ℕ → Bool
has_hump (c ∷ d ∷ cs) = (is_upper d && is_lower c) || has_hump (d ∷ cs)
has_hump _ = false

unfoldable pub looks_symbol_like : Bytes → Bool
unfolding has_path has_byte all_alphanumeric has_hump
looks_symbol_like text =
    not (is_empty text)
    && (has_path text
        || has_byte b'.' text
        || has_byte b'_' text
        || (not (has_byte b' ' text) && all_alphanumeric (chars text) && has_hump (chars text)))

unfoldable pub contains : QueryStep → List QueryStep → Bool
contains s [] = false
contains s (t ∷ steps) = eqb (step_tag t) (step_tag s) || contains s steps

-- `if c { steps.push(s) }`
abbrev pub push_if : Bool → QueryStep → List QueryStep → List QueryStep
push_if c s steps = if c then steps ++ s ∷ [] else steps

-- `retain` with the steps seen so far.
unfoldable pub retain_new : List QueryStep → List QueryStep → List QueryStep
unfolding contains
retain_new seen [] = []
retain_new seen (s ∷ steps) =
    let kept = retain_new (seen ++ s ∷ []) steps in
    let skipped = retain_new seen steps in if contains s seen then skipped else s ∷ kept

-- The steps that the five conditions lead to.
unfoldable pub plan_steps : Bool → Bool → Bool → Bool → Bool → List QueryStep
unfolding retain_new
plan_steps has_text has_vector has_graph is_symbol is_short =
    let start = push_if has_graph graph [] in
    let steps =
      if has_text && is_symbol && is_short
      then start ++ fuzzy ∷ bm25 ∷ []
      else push_if (has_text && is_symbol) fuzzy
          (push_if has_vector hnsw (push_if has_text bm25 start)) in
    retain_new [] (push_if (has_vector && not (contains hnsw steps)) hnsw steps)

unfoldable pub has_text : Bytes → Bool
unfolding all_whitespace
has_text text = not (all_whitespace (chars text))

unfoldable pub plan : {F : Type 0} → QuerySpec F → List QueryStep
unfolding plan_steps looks_symbol_like has_text
plan q =
    plan_steps (has_text q.text) (not (is_empty q.vector)) (not (is_empty q.relations))
      (looks_symbol_like q.text) (leb (length q.text) 32)

module _ (S : Type 0) where
  pub record RankedHit : Type 0 where
    pub key : Bytes
    pub score : S
    pub rank : ℕ

  -- The number 0, the addition, the terms `1 / (k + rank)`, and the test `a < b`.
  module _ (zero_score : S) (plus : S → S → S) (term : ℕ → S) (lt : S → S → Bool) where
    abbrev or_zero : Option S → S
    or_zero none = zero_score
    or_zero (some s) = s

    -- One list, from the position `i` on.
    unfoldable pub add_scores : ℕ → List RankedHit → List (Bytes × S) → List (Bytes × S)
    add_scores i [] scores = scores
    add_scores i (hit ∷ hits) scores =
        add_scores (i + 1) hits
          (insert hit.key (plus (or_zero (lookup hit.key scores)) (term (i + 1))) scores)

    unfoldable pub add_lists : List (List RankedHit) → List (Bytes × S) → List (Bytes × S)
    unfolding add_scores
    add_lists [] scores = scores
    add_lists (hits ∷ lists) scores = add_lists lists (add_scores 0 hits scores)

    -- A stable sort, the highest score first.
    unfoldable pub insert_hit : Bytes × S → List (Bytes × S) → List (Bytes × S)
    insert_hit x [] = x ∷ []
    insert_hit x (y ∷ ys) =
        let rest = insert_hit x ys in if lt x.1 y.1 then y ∷ rest else x ∷ y ∷ ys

    unfoldable pub sort_hits : List (Bytes × S) → List (Bytes × S)
    unfolding insert_hit
    sort_hits [] = []
    sort_hits (x ∷ xs) = insert_hit x (sort_hits xs)

    unfoldable pub number : ℕ → List (Bytes × S) → List RankedHit
    number i [] = []
    number i ((key, score) ∷ hits) =
        record { key = key; score = score; rank = i } ∷ number (i + 1) hits

    unfoldable pub merge_rrf : List (List RankedHit) → List RankedHit
    unfolding add_lists sort_hits number
    merge_rrf lists = number 0 (sort_hits (add_lists lists []))

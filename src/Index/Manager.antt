-- ===== src/Index/Manager.antt =====
-- src/index/manager.rs: the indices of an engine before the first vector, so without the HNSW index
-- (`hnsw` is `None`): its steps of a query find nothing.
pub mod Upkeep
use uldb.Prelude.{
  ℕ, zero, suc, ◌+◌, ◌*◌, List, [], ◌∷◌, ◌++◌, Option, some, none, Bool, true, false, if◌then◌else◌,
  length, ltb, take,
}
use uldb.Bytes.{Bytes}
use uldb.Index.Bm25
use uldb.Index.Bm25.{Bm25Index, Bm25Result, is_indexed, add_document_direct, remove_document}
use uldb.Index.Fuzzy
use uldb.Index.Fuzzy.{FuzzyMatcher, FuzzyMatch, Jaccard}
use uldb.Index.Graph
use uldb.Index.Graph.{Relation, RelationGraph, add_edge, from_str, ensure_built}
use uldb.Index.Graph.Traverse.{TraversalResult, bfs}
use uldb.Query.Planner.{QueryStep, bm25, hnsw, fuzzy, graph, QuerySpec, plan, RankedHit, merge_rrf}

pub record IndexManager (S : Type 0) : Type 0 where
  pub bm25 : Bm25Index S
  pub fuzzy : FuzzyMatcher
  pub graph : RelationGraph

module _ {S : Type 0} (zero_score : S) (mean : ℕ → ℕ → S) where
  abbrev pub new : IndexManager S
  new = record { bm25 = Bm25.new zero_score mean; fuzzy = Fuzzy.new 4; graph = Graph.new }

  -- The key and the value are taken for UTF-8 without a test. `none` is a panic.
  unfoldable pub on_put : Bytes → Bytes → IndexManager S → Option (IndexManager S)
  on_put key value m =
      elim (if is_indexed key m.bm25
        then remove_document zero_score mean key m.bm25
        else some m.bm25) [
          | none ↦ none
          | some ix ↦ some (record m {
            bm25 = add_document_direct zero_score mean key key value ix;
            fuzzy = Fuzzy.add key m.fuzzy;
          })
        ]

  unfoldable pub on_delete : Bytes → IndexManager S → Option (IndexManager S)
  on_delete key m = elim (remove_document zero_score mean key m.bm25) [
    | none ↦ none
    | some ix ↦ some (record m { bm25 = ix })
  ]

  -- What `Engine::open` does for a record of the log with a value, whose key and value have these
  -- texts; an earlier document of the key stays.
  unfoldable pub replay_put : Bytes → Bytes → Bytes → IndexManager S → IndexManager S
  replay_put key key_text value_text m = record m {
    bm25 = add_document_direct zero_score mean key key_text value_text m.bm25;
    fuzzy = Fuzzy.add key_text m.fuzzy;
  }

-- `none` is a panic of `add_edge`.
unfoldable pub on_add_edge :
    {S : Type 0} → Bytes → Bytes → Bytes → IndexManager S → Option (IndexManager S)
unfolding from_str
on_add_edge src dst relation m = elim (from_str relation) [
  | none ↦ some m
  | some rel ↦ elim (add_edge src dst rel m.graph) [
    | none ↦ none
    | some g ↦ some (record m { graph = g })
  ]
]

abbrev first_relation : List Bytes → Option Relation
first_relation [] = none
first_relation (r ∷ rs) = from_str r

module _ {S : Type 0} where
  unfoldable pub bm25_hits : ℕ → List (Bm25Result S) → List (RankedHit S)
  bm25_hits i [] = []
  bm25_hits i (r ∷ rs) = record { key = r.key; score = r.score; rank = i } ∷ bm25_hits (i + 1) rs

  -- The score of a similarity.
  unfoldable pub fuzzy_hits : (Jaccard → S) → ℕ → List FuzzyMatch → List (RankedHit S)
  fuzzy_hits similarity i [] = []
  fuzzy_hits similarity i (x ∷ xs) =
      record { key = x.symbol; score = similarity x.jaccard; rank = i }
      ∷ fuzzy_hits similarity (i + 1) xs

  -- The score of a depth; the start itself is left out.
  unfoldable pub graph_hits : (ℕ → S) → ℕ → List TraversalResult → List (RankedHit S)
  graph_hits closeness i [] = []
  graph_hits closeness i (r ∷ rs) =
      let kept = graph_hits closeness (i + 1) rs in
      let skipped = graph_hits closeness i rs in
      if ltb 0 r.depth
      then record { key = r.key; score = closeness r.depth; rank = i } ∷ kept
      else skipped

  abbrev pub push_hits : List (RankedHit S) → List (List (RankedHit S)) → List (List (RankedHit S))
  push_hits [] lists = lists
  push_hits (h ∷ hits) lists = lists ++ (h ∷ hits) ∷ []

-- The floating-point operations of the search and of the fusion.
pub record Scoring (S : Type 0) : Type 0 where
  pub zero_score : S
  pub plus : S → S → S
  pub is_zero : S → Bool
  pub idf : ℕ → ℕ → S
  pub part : S → ℕ → ℕ → S → S
  pub lt : S → S → Bool
  pub term : ℕ → S
  pub similarity : Jaccard → S
  pub closeness : ℕ → S

module _ {S F : Type 0} (c : Scoring S) where
  abbrev pub bm25_search : QuerySpec F → IndexManager S → Option (List (Bm25Result S))
  bm25_search spec m =
      Bm25.search c.zero_score c.plus c.is_zero c.idf c.part c.lt spec.text (spec.top_k * 2) m.bm25

  abbrev pub graph_step :
      QuerySpec F
      → Bytes
      → IndexManager S
      → List (List (RankedHit S))
      → Option (List (List (RankedHit S)))
  graph_step spec [] m lists = some lists
  graph_step spec (b ∷ text) m lists =
      elim (bfs (b ∷ text) false spec.max_depth (first_relation spec.relations) m.graph) [
        | none ↦ none
        | some results ↦ some (push_hits (graph_hits c.closeness 0 results) lists)
      ]

  -- One step of the plan. The graph's rows, which a search builds, are not kept.
  unfoldable pub run_step :
      QueryStep
      → QuerySpec F
      → IndexManager S
      → List (List (RankedHit S))
      → Option (List (List (RankedHit S)))
  unfolding bm25_hits fuzzy_hits graph_hits
  run_step bm25 spec m lists = elim (bm25_search spec m) [
    | none ↦ none
    | some results ↦ some (push_hits (bm25_hits 0 results) lists)
  ]
  run_step fuzzy spec m lists = elim (Fuzzy.query spec.text (spec.top_k * 2) m.fuzzy) [
    | none ↦ none
    | some matches ↦ some (push_hits (fuzzy_hits c.similarity 0 matches) lists)
  ]
  run_step hnsw spec m lists = some lists
  run_step graph spec m lists = graph_step spec spec.text m lists

  unfoldable pub run_steps :
      List QueryStep
      → QuerySpec F
      → IndexManager S
      → List (List (RankedHit S))
      → Option (List (List (RankedHit S)))
  unfolding run_step
  run_steps [] spec m lists = some lists
  run_steps (s ∷ steps) spec m lists = elim (run_step s spec m lists) [
    | none ↦ none
    | some lists' ↦ run_steps steps spec m lists'
  ]

  -- No lists give no hits.
  unfoldable pub query : QuerySpec F → IndexManager S → Option (List (RankedHit S))
  unfolding run_steps plan merge_rrf
  query spec m = elim (run_steps (plan spec) spec m []) [
    | none ↦ none
    | some lists ↦ some (take spec.top_k (merge_rrf S c.zero_score c.plus c.term c.lt lists))
  ]

-- ===== src/Index/Graph/Walks.antt =====
-- Walks in a relation graph: what the searches of src/index/graph.rs are about.
use uldb.Prelude.{ℕ, suc, ◌≡◌, ◌<◌, List, Option, some, get_elem?, All, All-get_elem?}
use uldb.Index.Graph.{Relation, Edge, keep}
use uldb.Index.Graph.Pushes.{EndsBelow}
use uldb.Index.Graph.Neighbours.Answers.{below-keep}

-- An edge out of the node `u` that the filter lets through.
pub record HasEdge (adj : List (List Edge)) (f : Option Relation) (u : ℕ) (e : Edge) : Type 0 where
  pub row : List Edge
  pub at : ℕ
  pub row_of : get_elem? adj u ≡ some row
  pub edge_of : get_elem? (keep f row) at ≡ some e

-- A walk along `k` such edges.
pub data Walk (adj : List (List Edge)) (f : Option Relation) (s : ℕ) : ℕ → ℕ → Type 0 where
  here : Walk adj f s s 0
  step : {u k : ℕ} (e : Edge) → Walk adj f s u k → HasEdge adj f u e → Walk adj f s e.dst (suc k)

pub HasEdge-below :
    (adj : List (List Edge)) (f : Option Relation) (n u : ℕ) (e : Edge)
    → EndsBelow n adj
    → HasEdge adj f u e
    → e.dst < n
HasEdge-below adj f n u e b h =
    All-get_elem? (λ x. x.dst < n) (keep f h.row) h.at e
      (below-keep n f h.row (All-get_elem? (All (λ x. x.dst < n)) adj u h.row b h.row_of)) h.edge_of

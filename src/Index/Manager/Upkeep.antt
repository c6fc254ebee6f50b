-- ===== src/Index/Manager/Upkeep.antt =====
-- The indices of a manager stay consistent, and its queries return (src/index/manager.rs).
use uldb.Prelude.{Bool, ℕ, ◌≡◌, some}
use uldb.Bytes.{Bytes, bytes_eq}
use uldb.Index.Bm25
use uldb.Index.Bm25.Upkeep
use uldb.Index.Graph.Format.{deserialize, loaded}
use uldb.Index.Fuzzy
use uldb.Index.Fuzzy.Matching
use uldb.Index.Graph
use uldb.Index.Graph.{RelationGraph, add_edge}
use uldb.Index.Graph.Invariant
use uldb.Query.Planner.{bm25, fuzzy, graph}
use uldb.Index.Manager.{IndexManager, new, on_put, replay_put, on_delete, on_add_edge}

pub record IsValid {S : Type 0} (m : IndexManager S) : Type 0 where
  pub documents : Bm25.Upkeep.InStep m.bm25
  pub symbols : Fuzzy.Matching.IsIndexed m.fuzzy
  pub edges : Graph.Invariant.IsValid m.graph

module _ {S : Type 0} (zero_score : S) (mean : ℕ → ℕ → S) where
  -- The managers that an engine's opening and its later writes lead to, while no vector is added: a
  -- graph that was loaded, records that were replayed, puts, deletes and edges, in any order.
  pub data Reachable : IndexManager S → Type 0 where
    start : Reachable (new zero_score mean)
    load :
        {m : IndexManager S} (room : ℕ → Bool) (bytes : Bytes) (g : RelationGraph)
        → Reachable m
        → deserialize room bytes ≡ loaded g
        → Reachable (record m { graph = g })
    replay :
        {m : IndexManager S} (key key_text value_text : Bytes)
        → Reachable m
        → Reachable (replay_put zero_score mean key key_text value_text m)
    put :
        {m m' : IndexManager S} (key value : Bytes)
        → Reachable m
        → on_put zero_score mean key value m ≡ some m'
        → Reachable m'
    delete :
        {m m' : IndexManager S} (key : Bytes)
        → Reachable m
        → on_delete zero_score mean key m ≡ some m'
        → Reachable m'
    edge :
        {m m' : IndexManager S} (src dst relation : Bytes)
        → Reachable m
        → on_add_edge src dst relation m ≡ some m'
        → Reachable m'

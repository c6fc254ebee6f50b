-- ===== src/KeyValue.antt =====
-- The engine of src/engine.rs as the interface that its clients use: operations, and their laws,
-- which Engine/Client proves of the engine.
use uldb.Prelude.{
  ℕ, ◌≤◌, ◌≡◌, ◌⊎◌, inl, inr, refl, [], ◌∷◌, List, Option, some, none, if◌then◌else◌, ◌==◌,
}
use uldb.Bytes.{Bytes, bytes_eq}

-- The engine after a write that succeeded, or that did not, be it an error or a panic.
pub data Written (E : Type 0) : Type 0 where
  done : E → Written E
  refused : E → Written E

-- The engine as its clients see it, with the number of its flushes so far. A read stands for its
-- answer only: what it does to the cache and to a counter is left out.
pub record KeyValue (E : Type 0) : Type 0 where
  pub put : Bytes → Bytes → E → Written E
  pub delete : Bytes → E → Written E
  pub get : Bytes → E → Option Bytes
  pub scan : Bytes → Bytes → E → List (Bytes × Bytes)
  pub flush_count : E → ℕ

-- What a write that succeeds means for the reads if it does not flush the memtable: between a flush
-- and the worker's next step the flushed keys cannot be read.
pub record Laws {E : Type 0} (kv : KeyValue E) : Type 0 where
  pub put-grows :
      (k v : Bytes) (e e' : E) → kv.put k v e ≡ done e' → kv.flush_count e ≤ kv.flush_count e'
  pub delete-grows :
      (k : Bytes) (e e' : E) → kv.delete k e ≡ done e' → kv.flush_count e ≤ kv.flush_count e'
  pub get-put :
      (k v j : Bytes) (e e' : E)
      → kv.put k v e ≡ done e'
      → kv.flush_count e' ≡ kv.flush_count e
      → kv.get j e' ≡ (if k == j then some v else kv.get j e)
  pub get-delete :
      (k j : Bytes) (e e' : E)
      → kv.delete k e ≡ done e'
      → kv.flush_count e' ≡ kv.flush_count e
      → kv.get j e' ≡ (if k == j then none else kv.get j e)

pub Written-cases :
    {E : Type 0} (w : Written E) → ((e : E) × (w ≡ refused e)) ⊎ ((e : E) × (w ≡ done e))
Written-cases (refused e) = inl (e, refl)
Written-cases (done e) = inr (e, refl)

module _ {E : Type 0} (kv : KeyValue E) where
  -- A deletion for each entry, up to the first that is refused.
  unfoldable pub delete_all : List (Bytes × Bytes) → E → Written E
  delete_all [] e = done e
  delete_all ((k, v) ∷ entries) e = elim (kv.delete k e) [
    | refused e' ↦ refused e'
    | done e' ↦ delete_all entries e'
  ]

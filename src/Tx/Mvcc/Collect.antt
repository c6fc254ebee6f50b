-- ===== src/Tx/Mvcc/Collect.antt =====
-- Garbage collection of versions in src/tx/mvcc.rs.
use uldb.Prelude.{ℕ, ◌+◌, ◌≡◌, ◌≤◌, List, [], ◌∷◌, Bool, true, false, ◌||◌, length, arith, refl}
use uldb.Bytes.{Bytes, bytes_eq}
use uldb.Maps.{lookup}
use uldb.Tx.Mvcc.{
  Version, MvccStore, chain, chain_or_empty, read, read_chain, gc_chain, gc_all, gc, count_versions,
  version_count, committed_before, is_committed,
}

read-gc_chain :
    (oldest ts : ℕ) (seen : Bool) (c : List Version)
    → oldest ≤ ts + 1
    → read_chain ts (gc_chain oldest seen c).0 ≡ read_chain ts c
unfolding gc_chain read_chain
read-gc_chain oldest ts seen [] h = refl
read-gc_chain oldest ts seen (v ∷ rest) h =
    ground (arith, read-gc_chain oldest ts (seen || is_committed v.commit_ts) rest h)

length-gc_chain :
    (oldest : ℕ) (seen : Bool) (c : List Version)
    → length (gc_chain oldest seen c).0 + (gc_chain oldest seen c).1 ≡ length c
unfolding gc_chain
length-gc_chain oldest seen [] = omega arith
length-gc_chain oldest seen (v ∷ rest) =
    ground (arith, length-gc_chain oldest (seen || is_committed v.commit_ts) rest)

read-gc_all :
    (oldest ts : ℕ) (k : Bytes) (m : List (Bytes × List Version))
    → oldest ≤ ts + 1
    → read_chain ts (chain_or_empty (lookup k (gc_all oldest m).0))
      ≡ read_chain ts (chain_or_empty (lookup k m))
unfolding gc_all lookup
read-gc_all oldest ts k [] h = refl
read-gc_all oldest ts k ((j, c) ∷ m) h =
    ground (arith, read-gc_all oldest ts k m h, read-gc_chain oldest ts false c h)

-- Collection changes no read at the oldest active time or later (nor at the time just before it).
pub read-gc :
    (oldest ts : ℕ) (k : Bytes) (st : MvccStore)
    → oldest ≤ ts + 1
    → read k ts (gc oldest st).0 ≡ read k ts st
unfolding gc read chain
read-gc oldest ts k st h = read-gc_all oldest ts k st.chains h

count-gc_all :
    (oldest : ℕ) (m : List (Bytes × List Version))
    → count_versions (gc_all oldest m).0 + (gc_all oldest m).1 ≡ count_versions m
unfolding gc_all count_versions
count-gc_all oldest [] = omega arith
count-gc_all oldest ((k, c) ∷ m) =
    omega (arith, count-gc_all oldest m, length-gc_chain oldest false c)

-- The number that collection returns is the number of versions that are gone, and the clock stays.
pub count-gc :
    (oldest : ℕ) (st : MvccStore)
    → (version_count (gc oldest st).0 + (gc oldest st).1 ≡ version_count st)
      × ((gc oldest st).0.ts ≡ st.ts)
unfolding gc version_count
count-gc oldest st = (count-gc_all oldest st.chains, refl)

-- The chain ends at the first version that is older than `oldest` and stands below a committed
-- one: of two committed versions in a row that are both older, the lower one never stays.
pub gc_chain_cuts :
    (oldest : ℕ) (v w : Version) (rest : List Version)
    → is_committed v.commit_ts ≡ true
    → committed_before oldest w.commit_ts ≡ true
    → (gc_chain oldest false (v ∷ w ∷ rest)).0 ≡ v ∷ w ∷ []
unfolding gc_chain
gc_chain_cuts oldest v w rest c b = ground arith

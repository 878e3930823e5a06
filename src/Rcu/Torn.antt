-- ===== src/Rcu/Torn.antt =====
-- rcu.rs, `write`: a reader that enters between the snapshot of the epoch and the swap.
use sotfs.Base.{ℕ, List, [], ◌∷◌, ◌++◌, ◌≡◌, refl, replicate}
use sotfs.Rcu.{reading, mutating, Move, reader, writer, store, run, from_graph}

module _ {S : Type 0} where
  -- A first writer takes the snapshot; a reader enters and loads the index of the old copy; the
  -- writer swaps, passes all slots and leaves; a second writer copies into the old place; the reader
  -- takes its reference.
  abbrev pub schedule : List (Move S)
  schedule =
      replicate 3 (writer 0)
      ++ reader 0 ∷ reader 0 ∷ reader 0 ∷ replicate 68 (writer 0)
      ++ replicate 4 (writer 1)
      ++ reader 0 ∷ []

  -- There is a run in which a reader has its reference to the very graph that the closure of a
  -- writer is changing, and sees a store of that closure.
  pub reader_sees_store :
      (graph stored : S)
      → (b : ℕ) × ((run schedule (from_graph graph)).readers 0 ≡ reading 0 0 b)
        × ((run schedule (from_graph graph)).writers 1 ≡ mutating 1 2 b)
        × ((run (schedule ++ store 1 stored ∷ []) (from_graph graph)).heap b ≡ stored)
  unfolding run from_graph
  reader_sees_store graph stored = (3, refl, refl, refl)

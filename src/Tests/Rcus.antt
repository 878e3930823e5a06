-- ===== src/Tests/Rcus.antt =====
-- Concrete runs of the RCU container, over graphs that are numbers, and of the set of affected nodes.
use sotfs.Base.{
  inl, ℕ, ◌≤◌, ◌&&◌, ◌||◌, ltb, true, List, [], ◌∷◌, ◌++◌, ◌≡◌, refl, arith, replicate,
}
use sotfs.Types.{NodeId, directory, same_node}
use sotfs.Rcu.{RcuGraph, reading, mutating, waiting, Move, reader, writer, store, run, from_graph}
use sotfs.Rcu.Writers.{inside, writers_exclude}
use sotfs.Rcu.Published.{active_graph_stable}
use sotfs.Rcu.Readers.Grace.{grace_period}
use sotfs.Rcu.Torn.{schedule, reader_sees_store}
use sotfs.Rcu.Gone.{OldGone}
use sotfs.Rcu.Progress.{Leaves, wait_ends}
use sotfs.Ops.Affected.{empty, push, as_slice}
use sotfs.Ops.Affected.Bounds.{IsBounded, empty-IsBounded, push-IsBounded, listed}

-- A writer that has the lock and another that has asked for it.
abbrev contended : List (Move ℕ)
contended = writer 0 ∷ writer 1 ∷ writer 0 ∷ writer 0 ∷ []

contended-inside : inside ((run contended (from_graph 7)).writers 0) ≡ true
unfolding run from_graph
contended-inside = refl

exclude_example : ◌≡◌ {A = ℕ} 0 0
exclude_example = writers_exclude 7 contended 0 0 contended-inside contended-inside

-- A write of the graph 9 and then one of the graph 11 up to its store.
abbrev one_write : List (Move ℕ)
one_write = replicate 4 (writer 0) ++ store 0 9 ∷ replicate 68 (writer 0)

abbrev next_write : List (Move ℕ)
next_write = replicate 4 (writer 1) ++ store 1 11 ∷ []

stable_example :
    let s = run one_write (from_graph 7) in
    (run next_write s).heap (s.graphs s.active) ≡ s.heap (s.graphs s.active)
stable_example = active_graph_stable 7 one_write next_write

-- A reader that counts the epoch up, a writer that snapshots it, swaps and passes all slots, and then
-- the reader, which takes a slot and its reference.
abbrev passed_moves : List (Move ℕ)
passed_moves = reader 0 ∷ replicate 70 (writer 0) ++ replicate 3 (reader 0)

passed_writer : (run passed_moves (from_graph 7)).writers 0 ≡ waiting 2 64
unfolding run from_graph
passed_writer = refl

passed_reader : (run passed_moves (from_graph 7)).readers 0 ≡ reading 0 1 2
unfolding run from_graph
passed_reader = refl

passed_epoch : (run passed_moves (from_graph 7)).reader_epochs 0 ≤ 2
unfolding run from_graph
passed_epoch = omega arith

grace_example : 1 ≡ (run passed_moves (from_graph 7)).active
grace_example =
    grace_period 7 passed_moves 0 0 2 0 1 2 (omega arith) passed_writer passed_reader (omega arith)
      passed_epoch

torn_example :
    (b : ℕ) × ((run {S = ℕ} schedule (from_graph 7)).readers 0 ≡ reading 0 0 b)
    × ((run {S = ℕ} schedule (from_graph 7)).writers 1 ≡ mutating 1 2 b)
    × ((run {S = ℕ} (schedule ++ store 1 9 ∷ []) (from_graph 7)).heap b ≡ 9)
torn_example = reader_sees_store 7 9

-- A writer at the first slot, with no reader.
abbrev waiting_graph : RcuGraph ℕ
waiting_graph = run (replicate 6 (writer 0)) (from_graph 7)

waiting_start : waiting_graph.writers 0 ≡ waiting 1 0
unfolding run from_graph
waiting_start = refl

waiting_OldGone : OldGone 1 waiting_graph
unfolding run from_graph
waiting_OldGone = record { slots = λ k. inl refl; readers = λ r. tt; counter = omega arith }

-- The moves of the writer, while a reader enters and stays and another writer asks for the lock.
abbrev waiting_moves : List (Move ℕ)
waiting_moves =
    writer 0 ∷ reader 0 ∷ reader 0 ∷ writer 1 ∷ reader 0 ∷ replicate 64 (writer 0) ++ writer 1 ∷ []

wait_example : Leaves 0 1 waiting_moves waiting_graph
unfolding run from_graph
wait_example =
    wait_ends 0 1 waiting_moves 0 waiting_graph waiting_OldGone (omega arith) waiting_start
      (omega arith) (omega arith)

push_example :
    IsBounded (push (directory 1) empty)
    × ((x : NodeId)
        → listed x (as_slice (push (directory 1) empty))
          ≡ (listed x (as_slice empty) || (ltb empty.len 8 && same_node (directory 1) x)))
push_example = push-IsBounded (directory 1) empty empty-IsBounded

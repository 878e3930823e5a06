-- ===== src/Tx.antt =====
-- sotfs-tx/src/lib.rs: transactions on the graph. `fuel` bounds the search for cycles in
-- `check_invariants`.
pub mod Outcome
use sotfs.Base.{ℕ}
use sotfs.Error.{Violation, GraphError, Result, ok, err, diverge, invariant_violation}
use sotfs.Graph.{TypeGraph}
use sotfs.Graph.Check.Invariants.{check_invariants}
use sotfs.Ops.Action.{Action}

pub data GtxnState : Type 0 where
  active committed aborted : GtxnState

pub record Gtxn : Type 0 where
  pub state : GtxnState
  pub snapshot : TypeGraph

unfoldable pub begin : TypeGraph → Gtxn
begin graph = record { state = GtxnState.active; snapshot = graph }

abbrev commit_in : GtxnState → Gtxn → Result (Unit {0}) × Gtxn
commit_in GtxnState.active txn = (ok tt, record txn { state = GtxnState.committed })
commit_in GtxnState.committed txn = (err (invariant_violation Violation.commit_inactive), txn)
commit_in GtxnState.aborted txn = (err (invariant_violation Violation.commit_inactive), txn)

unfoldable pub commit : Gtxn → Result (Unit {0}) × Gtxn
commit txn = commit_in txn.state txn

unfoldable pub rollback : Gtxn → TypeGraph → TypeGraph
rollback txn graph = txn.snapshot

-- `graph.check_invariants()?; Ok(result)`
abbrev pub verified : {A : Type 0} → A → Result (Unit {0}) → TypeGraph → Result A × TypeGraph
verified a (ok _) g = (ok a, g)
verified a (err e) g = (err e, g)
verified a diverge g = (diverge, g)

abbrev pub finish : {A : Type 0} → ℕ → Gtxn → Result A → TypeGraph → Result A × TypeGraph
finish fuel txn (ok a) g = verified a (check_invariants fuel g) g
finish fuel txn (err e) g = (err e, rollback txn g)
finish fuel txn diverge g = (diverge, g)

unfoldable pub with_transaction : {A : Type 0} → ℕ → Action A → Action A
unfolding begin rollback
with_transaction fuel f graph =
    let txn = begin graph in let (r, graph') = f graph in finish fuel txn r graph'

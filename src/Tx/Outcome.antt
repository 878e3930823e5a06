-- ===== src/Tx/Outcome.antt =====
-- sotfs-tx/src/lib.rs, `with_transaction`: which graph each outcome leaves behind.
use sotfs.Base.{ℕ, ◌≡◌, refl, ◌⊎◌, inl, inr}
use sotfs.Error.{GraphError, Result, ok, err, diverge}
use sotfs.Graph.{TypeGraph}
use sotfs.Graph.Check.Invariants.{check_invariants}
use sotfs.Ops.Action.{Action}
use sotfs.Tx.{Gtxn, with_transaction, finish, verified, begin, rollback}

module _ {A : Type 0} (fuel : ℕ) (f : Action A) (g : TypeGraph) where
  verified-ok :
      (a b : A) (c : Result (Unit {0})) (g' : TypeGraph)
      → (verified a c g').0 ≡ ok b
      → (ok a ≡ ok b) × (c ≡ ok tt) × ((verified a c g').1 ≡ g')
  verified-ok a b (ok u) g' h = (h, refl, refl)
  verified-ok a b (err e) g' h = absurd (cc)
  verified-ok a b diverge g' h = absurd (cc)

  finish-ok :
      (r : Result A) (g' : TypeGraph) (txn : Gtxn) (a : A)
      → (finish fuel txn r g').0 ≡ ok a
      → (r ≡ ok a) × (check_invariants fuel g' ≡ ok tt) × ((finish fuel txn r g').1 ≡ g')
  finish-ok (ok b) g' txn a h = verified-ok b a (check_invariants fuel g') g' h
  finish-ok (err e) g' txn a h = absurd (cc)
  finish-ok diverge g' txn a h = absurd (cc)

  -- A transaction that succeeds returns what its body returned and leaves the graph of its body,
  -- which has passed `check_invariants`.
  pub with_transaction-verified :
      (a : A)
      → (with_transaction fuel f g).0 ≡ ok a
      → ((f g).0 ≡ ok a)
        × (check_invariants fuel (with_transaction fuel f g).1 ≡ ok tt)
        × ((with_transaction fuel f g).1 ≡ (f g).1)
  unfolding with_transaction
  with_transaction-verified a h =
      let (r, g') = f g in
      let (body, passed, same) = finish-ok r g' (begin g) a h in (body, rw same passed, same)

  -- What a transaction that returns an error has left: either the body failed with that error and
  -- the graph is the one from the start, or the body succeeded, its graph fails `check_invariants`
  -- with that error, and is left in place.
  abbrev pub Failed : GraphError → Type 0
  Failed e =
      (((f g).0 ≡ err e) × ((with_transaction fuel f g).1 ≡ g))
      ⊎ ((a : A) × ((f g).0 ≡ ok a)
          × (check_invariants fuel (f g).1 ≡ err e)
          × ((with_transaction fuel f g).1 ≡ (f g).1))

  verified-err :
      (a : A) (e : GraphError) (c : Result (Unit {0})) (g' : TypeGraph)
      → (verified a c g').0 ≡ err e
      → (c ≡ err e) × ((verified a c g').1 ≡ g')
  verified-err a e (ok u) g' h = absurd (cc)
  verified-err a e (err e') g' h = (cc, refl)
  verified-err a e diverge g' h = absurd (cc)

  finish-err :
      (r : Result A) (g' : TypeGraph) (txn : Gtxn) (e : GraphError)
      → (finish fuel txn r g').0 ≡ err e
      → ((r ≡ err e) × ((finish fuel txn r g').1 ≡ rollback txn g'))
        ⊎ ((a : A) × (r ≡ ok a)
            × (check_invariants fuel g' ≡ err e)
            × ((finish fuel txn r g').1 ≡ g'))
  finish-err (ok b) g' txn e h =
      let (failed, same) = verified-err b e (check_invariants fuel g') g' h in
      inr (b, refl, failed, same)
  finish-err (err e') g' txn e h = inl (cc, refl)
  finish-err diverge g' txn e h = absurd (cc)

  -- A transaction that returns an error is undone exactly where its body failed: the graph is then
  -- the one from the start, whatever the body had changed. Where the body succeeded and the error is
  -- that of `check_invariants`, the broken graph of the body stays.
  pub with_transaction-Failed : (e : GraphError) → (with_transaction fuel f g).0 ≡ err e → Failed e
  unfolding with_transaction begin rollback
  with_transaction-Failed e h = let (r, g') = f g in finish-err r g' (begin g) e h

-- ===== src/Graph/Check/Cycles/Decides.antt =====
-- graph.rs, `check_no_dir_cycles`: what the check returns, on graphs with cycles and without.
use sotfs.Base.{
  ℕ, zero, suc, ◌+◌, ◌<◌, ◌≤◌, ◌%◌, ◌^◌, Bool, true, false, some, [], ◌≡◌, ◌≢◌, refl, sym, ap, ◌∙◌,
  arith, length, Option-cases, inl, inr, ◌⊎◌,
}
use mathlib.Core.Path.{subst}
use sotfs.Arena
use sotfs.Arena.{ArenaId}
use sotfs.Map.Sets
use sotfs.Types.{DirId, Directory}
use sotfs.Error.{Result, Violation, ok, err, diverge, each, invariant_violation, ◌>>◌}
use sotfs.Graph.{TypeGraph, node_capacity}
use sotfs.Graph.Check.Cycles.{cycle_result, has_cycle_from, check_no_dir_cycles}
use sotfs.Graph.Check.Cycles.Below.{Below, Within}
use sotfs.Graph.Check.Cycles.Fuel.{unvisited-le-length, has_cycle_from_total}
use sotfs.Graph.Check.Slots.{iter_none, iter_some}
use sotfs.Graph.Check.Cycles.Acyclic.{NoCycle, has_cycle_from-some, check_no_dir_cycles_iff}

-- A check that succeeds goes on, and one that does not is the result.
goes_on : (r rest : Result (Unit {0})) → ((r >> rest) ≡ rest) ⊎ (((r >> rest) ≡ r) × (r ≢ ok tt))
goes_on (ok u) rest = inl refl
goes_on (err e) rest = inr (refl, λ h. cc)
goes_on diverge rest = inr (refl, λ h. cc)

module _ (g : TypeGraph) where
  -- A loop of checks over the slots succeeds, or returns what one of the slots gave.
  abbrev First : (ArenaId × Directory → Result (Unit {0})) → ℕ → Result (Unit {0}) → Type 0
  First f top r =
      (r ≡ ok tt)
      ⊎ ((j : ℕ) × (x : Directory) × (j < top)
          × (g.dirs.slots j ≡ some x)
          × (r ≡ f (record { index = j % 2 ^ 32 }, x))
          × (r ≢ ok tt))

  each-First :
      (f : ArenaId × Directory → Result (Unit {0})) (n pos top : ℕ)
      → pos + n ≡ top
      → First f top (each f (Arena.iter_from n pos g.dirs))
  unfolding Arena.iter_from each
  each-First f zero pos top e = inl refl
  each-First f (suc n) pos top e = elim (Option-cases (g.dirs.slots pos)) [
    | inl empty ↦
        subst (λ l. First f top (each f l)) (sym (iter_none g.dirs n pos empty))
          (each-First f n (pos + 1) top (omega arith))
    | inr (x, here) ↦
        let rest = each f (Arena.iter_from n (pos + 1) g.dirs) in
        let one = f (record { index = pos % 2 ^ 32 }, x) in
        subst (λ l. First f top (each f l)) (sym (iter_some g.dirs n pos here))
          (elim (goes_on one rest) [
            | inl on ↦ subst (First f top) (sym on) (each-First f n (pos + 1) top (omega arith))
            | inr (stop, bad) ↦ inr (pos, x, omega arith, here, stop, λ h. bad (sym stop ∙ h))
          ])
  ]

  -- The search at one directory returns, and a cycle that it finds is there.
  abbrev Found : DirId → Result (Unit {0}) → Type 0
  Found d r =
      (r ≡ ok tt)
      ⊎ ((r ≡ err (invariant_violation (Violation.dir_cycle d)))
          × ((x : DirId) × Within g d x × Below g x x))

  search_Found :
      (fuel : ℕ) (d : DirId)
      → length g.dir_contains < fuel
      → Found d (cycle_result d (has_cycle_from fuel g [] d))
  unfolding Sets.contains
  search_Found fuel d enough =
      let (b, search) =
        has_cycle_from_total fuel g [] d (omega (arith, unvisited-le-length [] g.dir_contains)) in
      subst (λ o. Found d (cycle_result d o)) (sym search) (by_result b search)
    where
      by_result :
          (b : Bool) → has_cycle_from fuel g [] d ≡ some b → Found d (cycle_result d (some b))
      by_result false search = inl refl
      by_result true search =
          let (x, within, met) = has_cycle_from-some g fuel [] d search in
          inr (refl, (x, within, elim met [ inl on_way ↦ absurd (cc) | inr cycle ↦ cycle ]))

  -- The check for cycles returns on every graph, with fuel for more calls than `dir_contains` has
  -- entries, in a pool that keeps its bump pointer within its capacity. It succeeds if no directory
  -- at or below a directory of the pool is below itself; otherwise it reports a directory of the pool
  -- with such a directory at or below it.
  pub check_no_dir_cycles_decides :
      (fuel : ℕ)
      → length g.dir_contains < fuel
      → g.dirs.next_bump ≤ node_capacity
      → ((check_no_dir_cycles fuel g ≡ ok tt)
          × ((d : DirId) (dir : Directory)
              → d < g.dirs.next_bump
              → g.dirs.slots d ≡ some dir
              → NoCycle g d))
        ⊎ ((d : DirId) × (dir : Directory) × (d < g.dirs.next_bump)
            × (g.dirs.slots d ≡ some dir)
            × (check_no_dir_cycles fuel g ≡ err (invariant_violation (Violation.dir_cycle d)))
            × ((x : DirId) × Within g d x × Below g x x))
  unfolding check_no_dir_cycles Arena.iter
  check_no_dir_cycles_decides fuel enough bumped =
      elim (each-First (λ (aid, dir). cycle_result aid.index (has_cycle_from fuel g [] aid.index))
        g.dirs.next_bump 0 g.dirs.next_bump (omega arith)) [
          | inl passed ↦ inl (passed, (check_no_dir_cycles_iff g fuel enough bumped).0 passed)
          | inr (j, dir, lt, at, result, bad) ↦
              let same : j % 2 ^ 32 ≡ j = omega (arith, bumped) in
              let result' = result ∙ ap (λ i. cycle_result i (has_cycle_from fuel g [] i)) same in
              elim (search_Found fuel j enough) [
                | inl good ↦ absurd (bad (result' ∙ good))
                | inr (reported, cycle) ↦ inr (j, dir, lt, at, result' ∙ reported, cycle)
              ]
        ]

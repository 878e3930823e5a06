-- ===== src/Graph/Check/Cycles/Acyclic.antt =====
-- graph.rs: `check_no_dir_cycles` against the order of the directory tree.
use sotfs.Base.{
  ℕ, zero, suc, ◌%◌, ◌^◌, ◌<◌, ◌≤◌, Bool, true, false, Option, none, some, [], ◌≡◌, refl, sym, ap,
  ◌∙◌, arith, ◌==◌, ==_iff, length, Bool-cases, inl, inr, ◌⊎◌, ◌↔◌,
}
use mathlib.Core.Path.{subst}
use sotfs.Arena
use sotfs.Arena.{ArenaId}
use sotfs.Map.{id_key}
use sotfs.Map.Sets
use sotfs.Map.Sets.{IdSet, contains-add}
use sotfs.Types.{DirId, Directory}
use sotfs.Error.{ok}
use sotfs.Graph.{TypeGraph, node_capacity}
use sotfs.Graph.Check.Cycles.{has_cycle_from, cycle_result, check_no_dir_cycles}
use sotfs.Graph.Check.Slots.{each-iter_from, each-iter_from_ok}
use sotfs.Graph.Check.Cycles.Fuel.{unvisited-le-length, has_cycle_from_total}
use sotfs.Graph.Check.Cycles.Below.{Child, Below, child, deeper, Within, entries_of}
use sotfs.Graph.Check.Cycles.Loops.{cycle_below_none, cycle_below-some}

module _ (g : TypeGraph) where
  -- A search without a result: nothing at or below `start` is on the way to it, and nothing there
  -- is below itself.
  pub record Clear (visited : IdSet) (start : DirId) : Type 0 where
    pub apart : (d : DirId) → Within g start d → Sets.contains d visited ≡ false
    pub acyclic : (d : DirId) → Within g start d → ¬ Below g d d

  module _ (visited : IdSet) (start : DirId) (new : Sets.contains start visited ≡ false)
      (below : (c : DirId) → Child g start c → Clear (Sets.add start visited) c) where
    Below-apart : (d : DirId) → Below g start d → Sets.contains d (Sets.add start visited) ≡ false
    Below-apart d (child s) = (below d s).apart d (inl refl)
    Below-apart d (deeper {c = c} s p) = (below c s).apart d (inr p)

    Below-acyclic : (d : DirId) → Below g start d → ¬ Below g d d
    Below-acyclic d (child s) = (below d s).acyclic d (inl refl)
    Below-acyclic d (deeper {c = c} s p) = (below c s).acyclic d (inr p)

    not-Below_itself : ¬ Below g start start
    not-Below_itself p =
        absurd (ground (arith, Below-apart start p, contains-add start start visited))

    Within-apart : (d : DirId) → Within g start d → Sets.contains d visited ≡ false
    Within-apart d (inl same) = ap (λ x. Sets.contains x visited) same ∙ new
    Within-apart d (inr p) = ground (arith, Below-apart d p, contains-add start d visited)

    Within-acyclic : (d : DirId) → Within g start d → ¬ Below g d d
    Within-acyclic d (inl same) = subst (λ x. ¬ Below g x x) (sym same) not-Below_itself
    Within-acyclic d (inr p) = Below-acyclic d p

    from_child : Clear visited start
    from_child = record { apart = Within-apart; acyclic = Within-acyclic }

  has_cycle_from_none :
      (fuel : ℕ) (visited : IdSet) (start : DirId)
      → has_cycle_from fuel g visited start ≡ some false
      → Clear visited start
  unfolding has_cycle_from
  has_cycle_from_none zero visited start h = absurd (cc)
  has_cycle_from_none (suc fuel) visited start h = elim (Bool-cases (Sets.contains start visited)) [
    | inl cycle ↦ absurd (ground (arith, cycle))
    | inr new ↦ from_child visited start new (λ c (e, member, leads).
        has_cycle_from_none fuel (Sets.add start visited) c (
          cycle_below_none (has_cycle_from fuel g (Sets.add start visited)) g (entries_of start g) e
            c (ground (arith, h, new)) member leads))
  ]

  Below-Within : (start c d : DirId) → Child g start c → Within g c d → Below g start d
  Below-Within start c d s (inl same) = child (subst (Child g start) (sym same) s)
  Below-Within start c d s (inr p) = deeper s p

  -- What a search that found a cycle has met: a directory on its way, or one that is below itself.
  abbrev Met : IdSet → DirId → Type 0
  Met visited start =
      (d : DirId) × Within g start d × ((Sets.contains d visited ≡ true) ⊎ Below g d d)

  Met-Child :
      (visited : IdSet) (start c : DirId)
      → Child g start c
      → Met (Sets.add start visited) c
      → Met visited start
  Met-Child visited start c s (d, within, inr cycle) =
      (d, inr (Below-Within start c d s within), inr cycle)
  Met-Child visited start c s (d, within, inl on_way) = elim (Bool-cases (start == d)) [
    | inl same ↦
        let back = Below-Within start c d s within in
        (start, inl refl, inr (subst (Below g start) (sym ((==_iff start d).0 same)) back))
    | inr other ↦ (
      d,
      inr (Below-Within start c d s within),
      inl (ground (arith, on_way, contains-add start d visited)),
    )
  ]

  pub has_cycle_from-some :
      (fuel : ℕ) (visited : IdSet) (start : DirId)
      → has_cycle_from fuel g visited start ≡ some true
      → Met visited start
  unfolding has_cycle_from
  has_cycle_from-some zero visited start h = absurd (cc)
  has_cycle_from-some (suc fuel) visited start h = elim (Bool-cases (Sets.contains start visited)) [
    | inl cycle ↦ (start, inl refl, inl cycle)
    | inr new ↦
        let (e, c, member, leads, hit) =
          cycle_below-some (has_cycle_from fuel g (Sets.add start visited)) g (entries_of start g)
            (ground (arith, h, new)) in
        Met-Child visited start c (e, member, leads)
          (has_cycle_from-some fuel (Sets.add start visited) c hit)
  ]

  -- No directory at or below `start` is below itself.
  abbrev pub NoCycle : DirId → Type 0
  NoCycle start = (d : DirId) → Within g start d → ¬ Below g d d

  clear_from :
      (fuel : ℕ) (start : DirId) (b : Bool)
      → has_cycle_from fuel g [] start ≡ some b
      → NoCycle start
      → has_cycle_from fuel g [] start ≡ some false
  unfolding Sets.contains
  clear_from fuel start false search clear = search
  clear_from fuel start true search clear =
      let (d, within, met) = has_cycle_from-some fuel [] start search in
      elim met [ inl on_way ↦ absurd (cc) | inr cycle ↦ absurd (clear d within cycle) ]

  result_ok : (d : DirId) (o : Option Bool) → cycle_result d o ≡ ok tt → o ≡ some false
  result_ok d none h = absurd (cc)
  result_ok d (some true) h = absurd (cc)
  result_ok d (some false) h = refl

  -- One directory passes, if the fuel is more than the entries of `dir_contains`, exactly if there
  -- is no cycle at or below it.
  passes_iff :
      (fuel : ℕ) (d : DirId)
      → length g.dir_contains < fuel
      → (cycle_result d (has_cycle_from fuel g [] d) ≡ ok tt) ↔ NoCycle d
  passes_iff fuel d enough = (
    λ passed. (has_cycle_from_none fuel [] d (result_ok d _ passed)).acyclic,
    λ clear.
        let (b, search) =
          has_cycle_from_total fuel g [] d (omega (arith, unvisited-le-length [] g.dir_contains)) in
        rw (clear_from fuel d b search clear) refl,
  )

  -- The check for cycles accepts the graph exactly if no directory at or below a directory of the pool
  -- is below itself: with fuel for more calls than `dir_contains` has entries,
  -- in a pool that keeps its bump pointer within its capacity.
  pub check_no_dir_cycles_iff :
      (fuel : ℕ)
      → length g.dir_contains < fuel
      → g.dirs.next_bump ≤ node_capacity
      → (check_no_dir_cycles fuel g ≡ ok tt) ↔ (
          (d : DirId) (dir : Directory)
          → d < g.dirs.next_bump
          → g.dirs.slots d ≡ some dir
          → NoCycle d)
  unfolding check_no_dir_cycles Arena.iter
  check_no_dir_cycles_iff fuel enough bumped = (
    λ passed d dir lt at.
        let same : d % 2 ^ 32 ≡ d = omega (arith, bumped) in
        let one = each-iter_from_ok g.dirs _ _ 0 passed d dir (omega arith) (omega arith) at in
        (passes_iff fuel d enough).0
          (ap (λ i. cycle_result i (has_cycle_from fuel g [] i)) (sym same) ∙ one),
    λ clear. each-iter_from g.dirs _ g.dirs.next_bump 0 λ j dir le lt at.
        let same : j % 2 ^ 32 ≡ j = omega (arith, bumped) in
        rw same ((passes_iff fuel j enough).1 (clear j dir (omega arith) at)),
  )

-- ===== src/Ops/Fsck/Ends.antt =====
-- sotfs-ops/src/lib.rs: the fuel of `fsck`. A directory counts as long as
-- the search has not visited it.
use sotfs.Base.{
  ℕ, zero, suc, ◌<◌, Bool, true, false, Option, none, some, List, [], ◌∷◌, ◌++◌, ◌≡◌, refl, sym, ap,
  arith, length, if_rule, Option-cases, inl, inr,
}
use mathlib.Core.Path.{subst}
use sotfs.Map
use sotfs.Map.{id_key, or_default}
use sotfs.Map.Sets
use sotfs.Map.Sets.{IdSet}
use sotfs.Arena
use sotfs.Arena.{ArenaId}
use sotfs.Types.{DirId, EdgeId, Directory}
use sotfs.Graph.{TypeGraph, get_edge}
use sotfs.Graph.Check.Cycles.{child_dir}
use sotfs.Graph.Check.Cycles.Fuel.{
  unvisited, unvisited-le-length, unvisited_mono, unvisited-add, add_grows,
}
use sotfs.Ops.Fsck.{
  FsckError, FsckReport, Marks, resume_dfs, follow_dfs, descend_dfs, has_cycle_dfs, more_errors,
  after_dfs, visit_dir, cycle_errors, finish_report, report_with, report_if, fsck, dir_cycle,
}

abbrev Grows : Marks → Marks → Type 0
Grows m m' = (d : DirId) → Sets.contains d m.visited ≡ true → Sets.contains d m'.visited ≡ true

-- A walk that returns and forgets no visit.
abbrev Done : Marks → Option (Bool × Marks) → Type 0
Done m r = (b : Bool) × (m' : Marks) × (r ≡ some (b, m')) × Grows m m'

Done-after : (m m' : Marks) (r : Option (Bool × Marks)) → Grows m m' → Done m' r → Done m r
Done-after m m' r grows (b, m'', e, more) = (b, m'', e, λ d h. more d (grows d h))

decided_Done :
    (m m' : Marks) (b : Bool) (rest : Marks → Option (Bool × Marks))
    → Grows m m'
    → ((seen : Marks) → Grows m seen → Done m (rest seen))
    → Done m (resume_dfs (some (b, m')) rest)
decided_Done m m' true rest grows k = (true, m', refl, grows)
decided_Done m m' false rest grows k = k m' grows

resume_Done :
    (m : Marks) (r : Option (Bool × Marks)) (rest : Marks → Option (Bool × Marks))
    → Done m r
    → ((seen : Marks) → Grows m seen → Done m (rest seen))
    → Done m (resume_dfs r rest)
resume_Done m r rest (b, m', e, grows) k =
    subst (λ x. Done m (resume_dfs x rest)) (sym e) (decided_Done m m' b rest grows k)

follow_Done :
    (o : Option DirId) (walk : DirId → Marks → Option (Bool × Marks)) (m : Marks)
    (rest : Marks → Option (Bool × Marks))
    → ((c : DirId) → Sets.contains c m.visited ≡ false → Done m (walk c m))
    → ((seen : Marks) → Grows m seen → Done m (rest seen))
    → Done m (follow_dfs o walk m rest)
follow_Done none walk m rest total k = k m (λ d h. h)
follow_Done (some c) walk m rest total k =
    if_rule (Done m) (Sets.contains c m.stack) (λ on. (true, m, refl, λ d h. h))
      (λ off.
        if_rule (Done m) (Sets.contains c m.visited) (λ old. k m (λ d h. h))
          (λ new. resume_Done m (walk c m) rest (total c new) k))

descend_Done :
    (walk : DirId → Marks → Option (Bool × Marks)) (g : TypeGraph) (m : Marks) (eids : List EdgeId)
    → ((m' : Marks) (c : DirId)
        → Grows m m'
        → Sets.contains c m'.visited ≡ false
        → Done m' (walk c m'))
    → Done m (descend_dfs walk g m eids)
unfolding descend_dfs
descend_Done walk g m [] total = (false, m, refl, λ d h. h)
descend_Done walk g m (eid ∷ eids) total =
    follow_Done (child_dir g (get_edge eid g)) walk m _ (λ c new. total m c (λ d h. h) new)
      (λ m' grows. Done-after m m' _ grows (
        descend_Done walk g m' eids
          (λ m'' c more new. total m'' c (λ d h. more d (grows d h)) new)))

has_cycle_dfs-Done :
    (fuel : ℕ) (g : TypeGraph) (dir : DirId) (m : Marks)
    → Sets.contains dir m.visited ≡ false
    → unvisited m.visited g.dir_contains < fuel
    → Done m (has_cycle_dfs fuel g dir m)
unfolding has_cycle_dfs
has_cycle_dfs-Done zero g dir m new enough = absurd (omega arith)
has_cycle_dfs-Done (suc fuel) g dir m new enough =
    let marked : Marks = record {
      visited = Sets.add dir m.visited;
      stack = Sets.add dir m.stack;
    } in
    let walk = has_cycle_dfs fuel g in
    let below : Done marked
        (descend_dfs walk g marked (or_default [] (Map.get dir g.dir_contains))) =
      elim (Option-cases (Map.get dir g.dir_contains)) [
        | inl leaf ↦
            subst (λ o. Done marked (descend_dfs walk g marked (or_default [] o))) (sym leaf)
              (unfold descend_dfs in (false, marked, refl, λ d h. h))
        | inr (eids, there) ↦ descend_Done walk g marked _ (λ m' c grows fresh.
            has_cycle_dfs-Done fuel g c m' fresh (
              omega (
                arith,
                unvisited_mono marked.visited m'.visited g.dir_contains grows,
                unvisited-add dir m.visited g.dir_contains {eids = eids} new there,
              )))
      ] in
    Done-after m marked _ (add_grows dir m.visited)
      (resume_Done marked _ _ below (λ m' grows. (false, _, refl, grows)))

abbrev Ends : Option (List FsckError) → Type 0
Ends r = (errors : List FsckError) × (r ≡ some errors)

more_Ends :
    (errors : List FsckError) (later : Option (List FsckError))
    → Ends later
    → Ends (more_errors errors later)
more_Ends errors later (found, e) = (errors ++ found, ap (more_errors errors) e)

module _ (fuel : ℕ) (g : TypeGraph) (enough : length g.dir_contains < fuel) where
  visit_Ends :
      (o : Option Directory) (m : Marks) (rest : Marks → Option (List FsckError))
      → ((m' : Marks) → Ends (rest m'))
      → Ends (visit_dir fuel g o m rest)
  visit_Ends none m rest k = k m
  visit_Ends (some dir) m rest k =
      if_rule Ends (Sets.contains dir.id m.visited) (λ old. k m)
        (λ new.
          let (b, m', e, grows) =
            has_cycle_dfs-Done fuel g dir.id m new
              (omega (arith, unvisited-le-length m.visited g.dir_contains)) in
          subst (λ x. Ends (after_dfs dir.id x rest)) (sym e)
            (more_Ends (report_if b (dir_cycle dir.id)) (rest m') (k m')))

  cycle_errors-Ends : (aids : List ArenaId) (m : Marks) → Ends (cycle_errors fuel g aids m)
  unfolding cycle_errors
  cycle_errors-Ends [] m = ([], refl)
  cycle_errors-Ends (aid ∷ aids) m =
      visit_Ends (Arena.get aid g.dirs) m _ (λ m'. cycle_errors-Ends aids m')

  -- The verifier returns a report on every graph, with fuel for more calls than `dir_contains` has
  -- entries, whatever cycles the directories have.
  pub fsck_total : (report : FsckReport) × (fsck fuel g ≡ some report)
  unfolding fsck
  fsck_total =
      let (cycles, e) = cycle_errors-Ends _ _ in (report_with g cycles, ap (finish_report g) e)

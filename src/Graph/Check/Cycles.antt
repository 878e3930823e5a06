-- ===== src/Graph/Check/Cycles.antt =====
-- graph.rs: the walks down the directories. `fuel` bounds their depth, and `none` is a walk that has
-- used it up.
pub mod Below
pub mod Fuel
pub mod Loops
pub mod Acyclic
pub mod Decides
pub mod Search
use sotfs.Base.{
  ℕ, zero, suc, Bool, true, false, ◌||◌, Option, none, some, List, [], ◌∷◌, ◌==◌, str_eq,
  if◌then◌else◌,
}
use mathlib.Core.Option
use sotfs.Map
use sotfs.Map.{id_key, or_default}
use sotfs.Map.Sets
use sotfs.Map.Sets.{IdSet}
use sotfs.Arena
use sotfs.Arena.{ArenaId}
use sotfs.Types.{InodeId, DirId, EdgeId, Inode, Edge, is_directory}
use sotfs.Error.{Violation, Result, diverge, invariant_violation, fail_if, each}
use sotfs.Graph.{TypeGraph, get_inode, get_edge}
use sotfs.Graph.Names.{dir_for_inode}

abbrev dir_of : InodeId → TypeGraph → Option Inode → Option DirId
dir_of tgt g none = none
dir_of tgt g (some inode) = if is_directory inode.vtype then dir_for_inode tgt g else none

-- The directory that an edge leads down to: the guards that both walks share.
unfoldable pub child_dir : TypeGraph → Option Edge → Option DirId
child_dir g (some (Edge.contains _ _ tgt name)) =
    if str_eq name "." || str_eq name ".." then none else dir_of tgt g (get_inode tgt g)
child_dir g (some _) = none
child_dir g none = none

-- The rest of a walk after the call that goes down.
abbrev pub unless_found : Option Bool → Option Bool → Option Bool
unless_found none rest = none
unless_found (some true) rest = some true
unless_found (some false) rest = rest

abbrev pub cycle_at : Option DirId → (DirId → Option Bool) → Option Bool → Option Bool
cycle_at none walk rest = rest
cycle_at (some child) walk rest = unless_found (walk child) rest

-- The loop over the edges of a directory; `walk` is the call that goes down.
unfoldable pub cycle_below : (DirId → Option Bool) → TypeGraph → List EdgeId → Option Bool
unfolding child_dir
cycle_below walk g [] = some false
cycle_below walk g (eid ∷ eids) =
    let rest = cycle_below walk g eids in cycle_at (child_dir g (get_edge eid g)) walk rest

-- `visited` is a set of the directories on the way; a call that returns false has taken out of it
-- what it put in, so it is an argument alone.
unfoldable pub has_cycle_from : ℕ → TypeGraph → IdSet → DirId → Option Bool
unfolding cycle_below
has_cycle_from zero g visited start = none
has_cycle_from (suc fuel) g visited start =
    if Sets.contains start visited
    then some true
    else cycle_below (has_cycle_from fuel g (Sets.add start visited)) g
        (or_default [] (Map.get start g.dir_contains))

abbrev pub cycle_result : DirId → Option Bool → Result (Unit {0})
cycle_result dir none = diverge
cycle_result dir (some found) = fail_if found (invariant_violation (Violation.dir_cycle dir))

unfoldable pub check_no_dir_cycles : ℕ → TypeGraph → Result (Unit {0})
unfolding each has_cycle_from
check_no_dir_cycles fuel g =
    each (λ (aid, dir). cycle_result aid.index (has_cycle_from fuel g [] aid.index))
      (Arena.iter g.dirs)

-- What goes on after a child has been searched: with the set that the search gives back.
abbrev pub resume : Option (Bool × IdSet) → (IdSet → Option (Bool × IdSet)) → Option (Bool × IdSet)
resume none rest = none
resume (some (true, seen)) rest = some (true, seen)
resume (some (false, seen)) rest = rest seen

abbrev pub follow :
    Option DirId
    → (DirId → IdSet → Option (Bool × IdSet))
    → DirId
    → IdSet
    → (IdSet → Option (Bool × IdSet))
    → Option (Bool × IdSet)
follow none walk target visited rest = rest visited
follow (some child) walk target visited rest =
    if child == target then some (true, visited) else resume (walk child visited) rest

unfoldable pub descend :
    (DirId → IdSet → Option (Bool × IdSet))
    → TypeGraph
    → DirId
    → IdSet
    → List EdgeId
    → Option (Bool × IdSet)
unfolding child_dir
descend walk g target visited [] = some (false, visited)
descend walk g target visited (eid ∷ eids) =
    follow (child_dir g (get_edge eid g)) walk target visited
      (λ seen. descend walk g target seen eids)

-- The search for `target` among the descendants of `current`, which gives back the set of the
-- directories that it has visited.
unfoldable pub is_descendant_of : ℕ → TypeGraph → DirId → DirId → IdSet → Option (Bool × IdSet)
unfolding descend
is_descendant_of zero g current target visited = none
is_descendant_of (suc fuel) g current target visited =
    if Sets.contains current visited
    then some (false, visited)
    else descend (λ child seen. is_descendant_of fuel g child target seen) g target
        (Sets.add current visited) (or_default [] (Map.get current g.dir_contains))

unfoldable pub is_ancestor : ℕ → TypeGraph → DirId → DirId → Option Bool
unfolding Option.map is_descendant_of
is_ancestor fuel g ancestor_dir descendant_dir =
    if ancestor_dir == descendant_dir
    then some true
    else Option.map (λ r. r.0) (is_descendant_of fuel g ancestor_dir descendant_dir [])

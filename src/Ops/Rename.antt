-- ===== src/Ops/Rename.antt =====
-- sotfs-ops/src/lib.rs: RENAME, within one directory and across directories. `fuel` bounds the walks
-- of the quotas and the search for ancestors.
pub mod SameDirs
pub mod Directories
pub mod Replaced
pub mod Retarget
pub mod Dotdot
pub mod Moved
pub mod Refused
use sotfs.Base.{
  ℕ, String, Bool, false, ◌||◌, ◌&&◌, not, Option, none, some, [], ◌==◌, find, str_eq,
  if◌then◌else◌,
}
use sotfs.Map
use sotfs.Map.{id_key, or_default}
use sotfs.Types.{InodeId, DirId, EdgeId, Inode, Directory, Edge, is_directory}
use sotfs.Types.Right
use sotfs.Error.{
  Result, ok, diverge, name_not_found, inode_not_found, dir_not_found, would_create_cycle, ok_or,
  fail_if, ◌>>=◌ as ◌>>?◌,
}
use sotfs.Graph.{
  TypeGraph, get_inode, get_dir, get_edge, adjust_edge, remove_edge, drop_outgoing, drop_incoming,
  add_incoming, alloc_edge_id, add_contains,
}
use sotfs.Graph.Names.{resolve_name, dir_for_inode, rename_contains_edge}
use sotfs.Graph.Check.Cycles.{is_ancestor}
use sotfs.Graph.Prov.{require_cap, record_prov}
use sotfs.Provenance.{ProvOp}
use sotfs.Ops.Action.{Action, Clock, check, gets, modify, step, pure, when, ◌>>=◌, ◌>>◌}
use sotfs.Ops.Link.{is_dot_name, unlink}
use sotfs.Ops.Rmdir.{rmdir}

-- What stands at the destination goes first.
abbrev pub replace : ℕ → Clock → DirId → String → Option InodeId → Action (Unit {0})
replace fuel clock dir name none = pure tt
replace fuel clock dir name (some id) = do
  inode ← check (λ g. ok_or (get_inode id g) (inode_not_found id))
  if is_directory inode.vtype then rmdir fuel clock dir name else unlink fuel clock dir name

abbrev pub is_source : InodeId → String → Option Edge → Bool
is_source src_inode src_name (some (Edge.contains _ _ tgt name)) =
    tgt == src_inode && str_eq name src_name
is_source src_inode src_name (some _) = false
is_source src_inode src_name none = false

-- The edge of the directory that leads to the inode under the name.
unfoldable pub source_edge : DirId → String → InodeId → TypeGraph → Result EdgeId
unfolding find
source_edge dir src_name src_inode g =
    ok_or (Map.get dir g.dir_contains) (dir_not_found dir) >>? λ edge_ids.
    ok_or (find (λ eid. is_source src_inode src_name (get_edge eid g)) edge_ids)
      (name_not_found src_name)

unfoldable pub rename_same_dir : ℕ → Clock → DirId → String → String → Action (Unit {0})
rename_same_dir fuel clock dir src_name dst_name = do
  src_inode ← check (λ g. ok_or (resolve_name dir src_name g) (name_not_found src_name))
  when (not (str_eq src_name dst_name)) (do
    existing ← gets (resolve_name dir dst_name)
    replace fuel clock dir dst_name existing
    eid ← check (source_edge dir src_name src_inode)
    modify (λ g. (rename_contains_edge eid dst_name g).1))

-- The directory node of an inode that is a directory.
abbrev pub directory_of : InodeId → TypeGraph → Option Inode → Option DirId
directory_of id g none = none
directory_of id g (some inode) = if is_directory inode.vtype then dir_for_inode id g else none

abbrev refuse_cycle : Option Bool → Result (Unit {0})
refuse_cycle none = diverge
refuse_cycle (some found) = fail_if found would_create_cycle

-- GC-RENAME-2
unfoldable pub check_no_cycle : ℕ → InodeId → DirId → TypeGraph → Result (Unit {0})
check_no_cycle fuel src_inode dst_dir g = elim (directory_of src_inode g (get_inode src_inode g)) [
  | none ↦ ok tt
  | some child ↦ refuse_cycle (is_ancestor fuel g child dst_dir)
]

abbrev pub set_target : InodeId → Edge → Edge
set_target tgt (Edge.contains id src _ name) = Edge.contains id src tgt name
set_target tgt e = e

abbrev pub is_dotdot : Option Edge → Bool
is_dotdot (some (Edge.contains _ _ _ name)) = str_eq name ".."
is_dotdot (some _) = false
is_dotdot none = false

abbrev pub drop_old : EdgeId → Option Edge → TypeGraph → TypeGraph
drop_old eid (some (Edge.contains _ _ old _)) g = drop_incoming old eid g
drop_old eid (some _) g = g
drop_old eid none g = g

-- The ".." edge leads to the new parent.
abbrev pub retarget : InodeId → Option EdgeId → TypeGraph → TypeGraph
retarget parent none g = g
retarget parent (some eid) g =
    add_incoming parent eid (adjust_edge eid (set_target parent) (drop_old eid (get_edge eid g) g))

abbrev pub retarget_in : DirId → Option Directory → TypeGraph → TypeGraph
retarget_in child none g = g
retarget_in child (some parent) g =
    let eids = or_default [] (Map.get child g.dir_contains) in
    retarget parent.inode_id (find (λ eid. is_dotdot (get_edge eid g)) eids) g

abbrev pub moved_in : Option DirId → DirId → TypeGraph → TypeGraph
moved_in none dst_dir g = g
moved_in (some child) dst_dir g = retarget_in child (get_dir dst_dir g) g

unfoldable pub move_dotdot : InodeId → DirId → TypeGraph → TypeGraph
unfolding find
move_dotdot src_inode dst_dir g =
    moved_in (directory_of src_inode g (get_inode src_inode g)) dst_dir g

unfoldable pub rename_cross_dir : ℕ → Clock → DirId → String → DirId → String → Action (Unit {0})
rename_cross_dir fuel clock src_dir src_name dst_dir dst_name = do
  src_inode ← check (λ g. ok_or (resolve_name src_dir src_name g) (name_not_found src_name))
  existing ← gets (resolve_name dst_dir dst_name)
  check (check_no_cycle fuel src_inode dst_dir)
  replace fuel clock dst_dir dst_name existing
  eid ← check (source_edge src_dir src_name src_inode)
  modify (λ g. (remove_edge eid g).1)
  modify (drop_outgoing src_dir eid)
  modify (drop_incoming src_inode eid)
  new_id ← step alloc_edge_id
  modify (add_contains new_id dst_dir src_inode dst_name)
  modify (move_dotdot src_inode dst_dir)

-- The removal of what stood at the destination takes the first reading of the clock.
unfoldable pub rename : ℕ → Clock → DirId → String → DirId → String → Action (Unit {0})
rename fuel clock src_dir src_name dst_dir dst_name = do
  check (require_cap Right.write)
  check (λ g. fail_if (is_dot_name src_name || is_dot_name dst_name) (name_not_found src_name))
  if src_dir == dst_dir
      then rename_same_dir fuel clock src_dir src_name dst_name
      else rename_cross_dir fuel clock src_dir src_name dst_dir dst_name
  inode ← gets (λ g. or_default 0 (resolve_name dst_dir dst_name g))
  modify (record_prov (clock 1) ProvOp.rename inode dst_name)

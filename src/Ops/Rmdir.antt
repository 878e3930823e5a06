-- ===== src/Ops/Rmdir.antt =====
-- sotfs-ops/src/lib.rs: RMDIR.
pub mod Entries
pub mod Placed
pub mod Removed
pub mod Unlisted
use sotfs.Base.{
  ℕ, String, Bool, true, false, ◌&&◌, not, Option, none, some, List, [], ◌∷◌, ◌++◌, ◌==◌, str_eq,
  if◌then◌else◌,
}
use sotfs.Map
use sotfs.Map.{id_key, or_default}
use sotfs.Types.{InodeId, DirId, EdgeId, Edge, is_directory}
use sotfs.Types.Right
use sotfs.Error.{name_not_found, inode_not_found, not_a_directory, dir_not_empty, ok_or, fail_if}
use sotfs.Graph.{
  TypeGraph, get_inode, get_edge, remove_edge, remove_inode, remove_dir, drop_outgoing,
  drop_incoming,
}
use sotfs.Graph.Names.{resolve_name, dir_for_inode}
use sotfs.Graph.Prov.{require_cap, record_prov}
use sotfs.Provenance.{ProvOp}
use sotfs.Ops.Action.{Action, Clock, KeepsOnError, check, gets, modify, ◌>>=◌, ◌>>◌}
use sotfs.Ops.Action.Errors.{
  check_keeps, no_error_keeps, bind_no_error, after_gets, after_modify, modify_no_error,
}
use sotfs.Ops.Quota.{minus, update_quota}
use sotfs.Ops.Link.{is_dot_name}
use sotfs.Ops.Atomic.{update_no_error}

abbrev pub is_user_entry : Option Edge → Bool
is_user_entry (some (Edge.contains _ _ _ n)) = not (str_eq n ".") && not (str_eq n "..")
is_user_entry (some _) = false
is_user_entry none = false

-- An entry of the directory other than "." and "..".
unfoldable pub has_entries : TypeGraph → List EdgeId → Bool
has_entries g [] = false
has_entries g (eid ∷ eids) =
    let rest = has_entries g eids in if is_user_entry (get_edge eid g) then true else rest

abbrev pub is_entry_of : InodeId → String → Option Edge → Bool
is_entry_of target name (some (Edge.contains _ _ tgt n)) = tgt == target && str_eq n name
is_entry_of target name (some _) = false
is_entry_of target name none = false

-- The edges of the parent to the directory that goes.
unfoldable pub parent_entries : InodeId → String → TypeGraph → List EdgeId → List EdgeId
parent_entries target name g [] = []
parent_entries target name g (eid ∷ eids) =
    let rest = parent_entries target name g eids in
    if is_entry_of target name (get_edge eid g) then eid ∷ rest else rest

unfoldable pub edges_to_remove : DirId → String → InodeId → DirId → TypeGraph → List EdgeId
unfolding parent_entries
edges_to_remove parent_dir name target target_dir g =
    parent_entries target name g (or_default [] (Map.get parent_dir g.dir_contains))
    ++ or_default [] (Map.get target_dir g.dir_contains)

abbrev pub unindex_removed : EdgeId → Option Edge → TypeGraph → TypeGraph
unindex_removed eid (some (Edge.contains _ src tgt _)) g =
    drop_incoming tgt eid (drop_outgoing src eid g)
unindex_removed eid (some _) g = g
unindex_removed eid none g = g

unfoldable pub remove_entries : List EdgeId → TypeGraph → TypeGraph
remove_entries [] g = g
remove_entries (eid ∷ eids) g =
    let (removed, g') = remove_edge eid g in remove_entries eids (unindex_removed eid removed g')

unfoldable pub rmdir : ℕ → Clock → DirId → String → Action (Unit {0})
rmdir fuel clock parent_dir name = do
  check (require_cap Right.write)
  check (λ g. fail_if (is_dot_name name) (name_not_found name))
  target ← check (λ g. ok_or (resolve_name parent_dir name g) (name_not_found name))
  inode ← check (λ g. ok_or (get_inode target g) (inode_not_found target))
  check (λ g. fail_if (not (is_directory inode.vtype)) (not_a_directory target))
  target_dir ← check (λ g. ok_or (dir_for_inode target g) (not_a_directory target))
  check (λ g.
      fail_if (has_entries g (or_default [] (Map.get target_dir g.dir_contains)))
        (dir_not_empty target_dir))
  eids ← gets (edges_to_remove parent_dir name target target_dir)
  modify (remove_entries eids)
  modify (remove_inode target)
  modify (remove_dir target_dir)
  modify (λ g. record g { dir_contains = Map.remove target_dir g.dir_contains })
  modify (λ g. record g { inode_incoming_contains = Map.remove target g.inode_incoming_contains })
  update_quota fuel parent_dir (minus 1) (minus 0)
  modify (record_prov (clock 0) ProvOp.rmdir target name)

-- RMDIR either succeeds or leaves the graph as it was, whatever the graph and the arguments.
pub rmdir-KeepsOnError :
    (fuel : ℕ) (clock : Clock) (parent_dir : DirId) (name : String) (g : TypeGraph)
    → KeepsOnError (rmdir fuel clock parent_dir name) g
unfolding rmdir
rmdir-KeepsOnError fuel clock parent_dir name g = check_keeps _ _ g λ _. check_keeps _ _ g λ _.
    check_keeps _ _ g λ _. check_keeps _ _ g λ _. check_keeps _ _ g λ _. check_keeps _ _ g λ _.
      check_keeps _ _ g λ _. no_error_keeps _ g (
        after_gets _ _ λ _. after_modify _ _ (
          after_modify _ _ (
            after_modify _ _ (
              after_modify _ _ (
                after_modify _ _ (
                  bind_no_error _ _ (update_no_error fuel parent_dir (minus 1) (minus 0))
                    (λ _. modify_no_error _)))))))

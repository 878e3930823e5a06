-- ===== src/Tests/Walks.antt =====
-- Concrete runs of the walks over the directories.
use sotfs.Base.{ℕ, ◌<◌, true, Bool, some, [], ◌≡◌, refl, arith, length, inl, ◌⊎◌, ◌↔◌, ◌≤◌}
use sotfs.Map
use sotfs.Map.Sets
use sotfs.Arena
use sotfs.Types.Right
use sotfs.Types.{DirId, Directory, Inode, is_directory}
use sotfs.Error.{Violation, ok, err, invariant_violation, would_create_cycle}
use sotfs.Graph.{
  node_capacity, get_inode, get_edge, new, insert_inode, insert_dir, add_contains, contains_dir,
  get_dir, alloc_inode_id, alloc_dir_id, alloc_edge_id,
}
use sotfs.Graph.Prov.{require_cap, record_prov}
use sotfs.Graph.Names.{resolve_name, dir_for_inode, parent_dir}
use sotfs.Graph.Check.Cycles.{has_cycle_from, is_ancestor, check_no_dir_cycles}
use sotfs.Graph.Check.Cycles.Below.{Below, Within}
use sotfs.Graph.Check.Cycles.Fuel.{unvisited, has_cycle_from_total}
use sotfs.Graph.Check.Cycles.Search.{is_ancestor_iff}
use sotfs.Graph.Check.Cycles.Acyclic.{NoCycle}
use sotfs.Graph.Check.Cycles.Decides.{check_no_dir_cycles_decides}
use sotfs.Ops.Action.{◌>>=◌}
use sotfs.Ops.Quota.{check_quota_inode, update_quota}
use sotfs.Ops.Create.{is_bad_name, mkdir}
use sotfs.Ops.Rename.{rename}
use sotfs.Ops.Rename.Refused.{rename_refuses_cycle}
use sotfs.Tests.{clock}
use sotfs.Tests.Dirs.{with_dir}

dir_count : length with_dir.dir_contains ≡ 2
unfolding mkdir new insert_inode insert_dir add_contains update_quota ◌>>=◌ require_cap is_bad_name
    resolve_name Map.insert Map.get contains_dir get_dir Arena.get Arena.contains Arena.insert_at
    check_quota_inode parent_dir alloc_edge_id alloc_inode_id alloc_dir_id record_prov
dir_count = refl

ancestor_example :
    (b : Bool) × (is_ancestor 5 with_dir 1 2 ≡ some b)
    × ((b ≡ true) ↔ ((◌≡◌ {A = ℕ} 2 1) ⊎ Below with_dir 1 2))
ancestor_example = is_ancestor_iff 5 with_dir 1 2 (omega (arith, dir_count))

unvisited_dirs : unvisited [] with_dir.dir_contains < 5
unfolding mkdir new insert_inode insert_dir add_contains update_quota ◌>>=◌ require_cap is_bad_name
    resolve_name Map.insert Map.get contains_dir get_dir Arena.get Arena.contains Arena.insert_at
    check_quota_inode parent_dir alloc_edge_id alloc_inode_id alloc_dir_id record_prov Sets.contains
unvisited_dirs = omega arith

search_example : (b : Bool) × (has_cycle_from 5 with_dir [] 1 ≡ some b)
search_example = has_cycle_from_total 5 with_dir [] 1 unvisited_dirs

dirs_bump : with_dir.dirs.next_bump ≤ node_capacity
unfolding mkdir new insert_inode insert_dir add_contains update_quota ◌>>=◌ require_cap is_bad_name
    resolve_name Map.insert Map.get contains_dir get_dir Arena.get Arena.contains Arena.insert_at
    check_quota_inode parent_dir alloc_edge_id alloc_inode_id alloc_dir_id record_prov
dirs_bump = omega arith

acyclic_example :
    ((check_no_dir_cycles 5 with_dir ≡ ok tt)
      × ((d : DirId) (dir : Directory)
          → d < with_dir.dirs.next_bump
          → with_dir.dirs.slots d ≡ some dir
          → NoCycle with_dir d))
    ⊎ ((d : DirId) × (dir : Directory) × (d < with_dir.dirs.next_bump)
        × (with_dir.dirs.slots d ≡ some dir)
        × (check_no_dir_cycles 5 with_dir ≡ err (invariant_violation (Violation.dir_cycle d)))
        × ((x : DirId) × Within with_dir d x × Below with_dir x x))
acyclic_example = check_no_dir_cycles_decides with_dir 5 (omega (arith, dir_count)) dirs_bump

dir_facts :
    (resolve_name 1 "d" with_dir ≡ some 2)
    × ((inode : Inode) × (get_inode 2 with_dir ≡ some inode) × (is_directory inode.vtype ≡ true))
    × (dir_for_inode 2 with_dir ≡ some 2)
    × (require_cap Right.write with_dir ≡ ok tt)
unfolding mkdir new insert_inode insert_dir add_contains update_quota ◌>>=◌ require_cap is_bad_name
    resolve_name Map.insert Map.get contains_dir get_dir Arena.get Arena.contains Arena.insert_at
    check_quota_inode parent_dir alloc_edge_id alloc_inode_id alloc_dir_id record_prov dir_for_inode
    get_inode get_edge
dir_facts = (refl, (_, refl, refl), refl, refl)

-- The directory "d" is not moved into itself.
refused_example : rename 5 clock 1 "d" 2 "x" with_dir ≡ (err would_create_cycle, with_dir)
refused_example =
    rename_refuses_cycle with_dir 5 1 2 2 "d" "x" 2 (dir_facts.1.0) (dir_facts.0) (dir_facts.1.1)
      (dir_facts.1.2) (dir_facts.2) (inl refl) (omega (arith, dir_count)) clock (dir_facts.3) refl
      refl

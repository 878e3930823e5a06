-- ===== src/Tests/Dirs.antt =====
-- Concrete runs of RMDIR and RENAME: a file system with a directory and a file.
use sotfs.Base.{
  ◌<◌, String, true, ◌&&◌, ◌||◌, none, some, [], ◌≡◌, refl, sym, arith, ◌==◌, eq_iff, str_eq, ◌⊎◌,
  Bool-cases, if◌then◌else◌, inl, inr,
}
use mathlib.Core.Option
use mathlib.Core.Path.{subst₂}
use sotfs.Map
use sotfs.Map.{id_key, entry_key, or_default}
use sotfs.Map.Sets
use sotfs.Arena
use sotfs.Arena.{to_id}
use sotfs.Types.{EdgeId, DirId, InodeId, Directory}
use sotfs.Error.{ok}
use sotfs.Graph.{
  TypeGraph, edge_capacity, node_capacity, new, insert_inode, insert_dir, add_contains, remove_dir,
  remove_inode, remove_edge, drop_incoming, drop_outgoing, get_inode, get_dir, get_edge,
  contains_dir, alloc_inode_id, alloc_dir_id, alloc_edge_id,
}
use sotfs.Graph.Prov.{require_cap, record_prov}
use sotfs.Graph.Names.{resolve_name, dir_for_inode, parent_dir}
use sotfs.Graph.Index.{index_of, entry}
use sotfs.Graph.Links.Nodes.{WellFormed, nodes_of, inode_at}
use sotfs.Graph.Links.Nodes.Fresh.{new-WellFormed}
use sotfs.Ops.Action.{◌>>=◌}
use sotfs.Ops.Quota.{check_quota_inode, update_quota}
use sotfs.Ops.Create.{is_bad_name, mkdir, create_file}
use sotfs.Ops.Create.Mkdir.{mkdir-WellFormed}
use sotfs.Ops.Rmdir.{rmdir, has_entries, remove_entries, edges_to_remove}
use sotfs.Ops.Rmdir.Removed.{rmdir-WellFormed}
use sotfs.Ops.Rmdir.Placed.{IsPlaced}
use sotfs.Ops.Rmdir.Unlisted.{rmdir-resolve_name}
use sotfs.Ops.Create.Effect.{create_file-WellFormed}
use sotfs.Ops.Link.Freed.{AllOther}
use sotfs.Ops.Rename.{rename}
use sotfs.Ops.Rename.Directories.{dir_inode, IsDirInode}
use sotfs.Ops.Rename.Moved.{IsDestination, rename-WellFormed}
use sotfs.Tests.{clock, start, start_room, root_paired}

-- The root with the directory "d", which has the inode 2 and the directory id 2.
abbrev pub with_dir : TypeGraph
with_dir = (mkdir 5 clock 1 "d" 0 0 0o755 start).1

with_dir-WellFormed : WellFormed with_dir
with_dir-WellFormed =
    mkdir-WellFormed start (new-WellFormed 7) 1 (omega arith) "d" start_room.0 start_room.1
      start_room.2 root_paired 5 clock 0 0 0o755

dir_edges :
    (e : EdgeId)
    → e < edge_capacity
    → entry e (index_of with_dir) ≡ (
        if 4 == e
        then some (2, 1, "..")
        else if 3 == e
        then some (2, 2, ".")
        else if 2 == e
        then some (1, 2, "d")
        else if 1 == e
        then some (1, 1, ".")
        else none)
unfolding mkdir new insert_inode insert_dir add_contains update_quota ◌>>=◌ require_cap is_bad_name
    resolve_name Map.insert Map.get contains_dir get_dir Arena.get Arena.contains Arena.insert_at
    check_quota_inode parent_dir alloc_edge_id alloc_inode_id alloc_dir_id record_prov entry
dir_edges e lt = ground arith

with_dir_facts :
    (resolve_name 1 "d" with_dir ≡ some 2)
    × (dir_for_inode 2 with_dir ≡ some 2)
    × (dir_for_inode 1 with_dir ≡ some 1)
    × (get_dir 2 with_dir ≡ some (record { id = 2; inode_id = 2 }))
    × (with_dir.next_edge ≡ 5)
    × (with_dir.next_inode ≡ 3)
    × (contains_dir 2 with_dir ≡ true)
    × (with_dir.inode_points_to ≡ [])
    × (dir_inode (inode_at 2 (nodes_of with_dir)) ≡ true)
unfolding mkdir new insert_inode insert_dir add_contains update_quota ◌>>=◌ require_cap is_bad_name
    resolve_name Map.insert Map.get contains_dir get_dir Arena.get Arena.contains Arena.insert_at
    check_quota_inode parent_dir alloc_edge_id alloc_inode_id alloc_dir_id record_prov dir_for_inode
    inode_at get_edge Map.adjust Sets.add
with_dir_facts = (refl, refl, refl, refl, refl, refl, refl, refl, refl)

dir_run : (rmdir 5 clock 1 "d" with_dir).0 ≡ ok tt
unfolding mkdir new insert_inode insert_dir add_contains update_quota ◌>>=◌ require_cap is_bad_name
    resolve_name Map.insert Map.get contains_dir get_dir Arena.get Arena.contains Arena.insert_at
    check_quota_inode parent_dir alloc_edge_id alloc_inode_id alloc_dir_id record_prov dir_for_inode
    rmdir get_inode get_edge Sets.add has_entries remove_dir remove_inode remove_entries
    edges_to_remove remove_edge Arena.remove drop_incoming drop_outgoing Map.remove
dir_run = refl

dir_entries :
    (e : EdgeId) (d : DirId) (n : String)
    → e < edge_capacity
    → entry e (index_of with_dir) ≡ some (d, 2, n)
    → (d ≡ 2) ⊎ ((d ≡ 1) × (n ≡ "d"))
dir_entries e d n lt at = elim (Bool-cases (3 == e)) [
  | inl three ↦ inl (ground (arith, dir_edges e lt))
  | inr other ↦ inr (ground (arith, dir_edges e lt), ground (arith, dir_edges e lt))
]

dir_IsPlaced : IsPlaced with_dir 1 "d" 2 2
dir_IsPlaced = record {
  low = omega arith;
  dot = λ e t lt at. ground (arith, dir_edges e lt, eq_iff ".." ".");
  sole = λ e d n lt at. dir_entries e d n lt at;
}

dir_tree :
    (target : InodeId) (target_dir : DirId)
    → resolve_name 1 "d" with_dir ≡ some target
    → dir_for_inode target with_dir ≡ some target_dir
    → IsPlaced with_dir 1 "d" target target_dir
dir_tree target target_dir found node =
    let two : 2 ≡ target = ground (arith, with_dir_facts.0) in
    let two' : 2 ≡ target_dir = ground (arith, with_dir_facts.1) in
    subst₂ (IsPlaced with_dir 1 "d") two two' dir_IsPlaced

rmdir_example : WellFormed (rmdir 5 clock 1 "d" with_dir).1
rmdir_example = rmdir-WellFormed with_dir 1 "d" 5 clock with_dir-WellFormed dir_tree

rmdir_names_example :
    (target_dir : DirId) × (Option.bind
        (resolve_name 1 "d" with_dir)
        (λ i. dir_for_inode i with_dir)
      ≡ some target_dir)
    × ((d : DirId) (n : String)
        → resolve_name d n (rmdir 5 clock 1 "d" with_dir).1
          ≡ (if 1 == d && str_eq "d" n || target_dir == d then none else resolve_name d n with_dir))
rmdir_names_example = rmdir-resolve_name with_dir with_dir-WellFormed 1 "d" dir_tree 5 clock dir_run

-- The file "a" beside the directory, with the inode 3.
abbrev with_both : TypeGraph
with_both = (create_file 5 clock 1 "a" 0 0 0o644 with_dir).1

with_both-WellFormed : WellFormed with_both
with_both-WellFormed =
    create_file-WellFormed with_dir with_dir-WellFormed 1 (omega arith) "a"
      (omega (arith, with_dir_facts.5)) (omega (arith, with_dir_facts.4)) 5 clock 0 0 0o644

with_both_facts :
    (resolve_name 2 "b" with_both ≡ none)
    × (dir_for_inode 2 with_both ≡ some 2)
    × (get_dir 2 with_both ≡ some (record { id = 2; inode_id = 2 }))
    × (with_both.next_edge ≡ 6)
    × (contains_dir 2 with_both ≡ true)
    × (with_both.inode_points_to ≡ [])
    × (dir_inode (inode_at 2 (nodes_of with_both)) ≡ true)
unfolding mkdir create_file new insert_inode insert_dir add_contains update_quota ◌>>=◌ require_cap
    is_bad_name resolve_name Map.insert Map.get contains_dir get_dir Arena.get Arena.contains
    Arena.insert_at check_quota_inode parent_dir alloc_edge_id alloc_inode_id alloc_dir_id
    record_prov dir_for_inode inode_at get_edge Map.adjust Sets.add
with_both_facts = (refl, refl, refl, refl, refl, refl, refl)

both_blocks :
    (i : InodeId) → AllOther (or_default [] (Map.get i with_both.inode_points_to)) with_both
unfolding Map.get Sets.contains
both_blocks i e m = absurd (ground (arith, with_both_facts.5))

both_paired :
    (p : Directory)
    → get_dir 2 with_both ≡ some p
    → (p.inode_id < node_capacity)
      × (dir_for_inode p.inode_id with_both ≡ some 2)
      × IsDirInode p.inode_id with_both
both_paired p is_p =
    let two : 2 ≡ p.inode_id = ground (arith, with_both_facts.2) in
    rw (sym two) (omega arith, with_both_facts.1, with_both_facts.6)

both_IsDestination : IsDestination with_both 2 "b"
both_IsDestination = record {
  tree = λ t d found node. absurd (ground (arith, with_both_facts.0));
  paired = both_paired;
}

-- The file goes from the root into the directory, under another name.
rename_example : WellFormed (rename 5 clock 1 "a" 2 "b" with_both).1
rename_example =
    rename-WellFormed with_both 1 "a" 2 "b" 5 clock with_both-WellFormed both_blocks
      both_IsDestination (omega arith) (with_both_facts.4) (omega (arith, with_both_facts.3))

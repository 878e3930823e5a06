-- ===== src/Tests/Names.antt =====
-- The theorems on names and on failures, applied to the file system with one file.
use sotfs.Base.{String, ◌&&◌, some, ◌≡◌, refl, arith, ◌==◌, str_eq, if◌then◌else◌}
use sotfs.Map
use sotfs.Map.{id_key, entry_key}
use sotfs.Arena
use sotfs.Types.{DirId}
use sotfs.Error.{ok}
use sotfs.Graph.{
  get_inode, new, insert_inode, insert_dir, add_contains, contains_dir, alloc_edge_id,
  alloc_inode_id,
}
use sotfs.Graph.Names.{resolve_name, parent_dir}
use sotfs.Graph.Prov.{require_cap, record_prov}
use sotfs.Graph.Links.Nodes.Fresh.{new-WellFormed}
use sotfs.Ops.Action.{◌>>=◌}
use sotfs.Ops.Quota.{update_quota, check_quota_inode}
use sotfs.Ops.Create.{create_file, is_bad_name}
use sotfs.Ops.Link.{link, unlink}
use sotfs.Base.{none}
use sotfs.Map.Sets
use sotfs.Ops.Link.{find_entry, collect_inode}
use sotfs.Graph.{adjust_inode, drop_incoming, drop_outgoing, remove_edge, remove_inode}
use sotfs.Graph.{get_edge}
use sotfs.Ops.Names.Unlinked.{unlink-resolve_name}
use sotfs.Tests.Graphs.{no_blocks}
use sotfs.Ops.Names.{create_file-resolve_name, link-resolve_name}
use sotfs.Tests.{
  clock, start, start_room, with_file, with_file-WellFormed, with_file_facts, with_file_run,
}

created_names_example :
    (2 ≡ start.next_inode)
    × ((d : DirId) (n : String)
        → resolve_name d n with_file
          ≡ (if 1 == d && str_eq "a" n then some start.next_inode else resolve_name d n start))
created_names_example =
    create_file-resolve_name start (new-WellFormed 7) 1 (omega arith) "a" start_room.0
      (omega (arith, start_room.2)) 5 clock 0 0 0o644 2 with_file_run

link_run : (link clock 1 "b" 2 with_file).0 ≡ ok tt
unfolding create_file new insert_inode insert_dir add_contains update_quota ◌>>=◌ require_cap
    is_bad_name resolve_name Map.insert Map.get contains_dir get_inode Arena.get Arena.contains
    Arena.insert_at check_quota_inode parent_dir alloc_edge_id alloc_inode_id record_prov link
link_run = refl

linked_names_example :
    resolve_name 1 "a" (link clock 1 "b" 2 with_file).1
    ≡ (if 1 == 1 && str_eq "b" "a" then some 2 else resolve_name 1 "a" with_file)
linked_names_example =
    link-resolve_name with_file with_file-WellFormed 1 (omega arith) with_file_facts.1 "b" 2
      (omega arith) (omega (arith, with_file_facts.3)) clock link_run 1 "a"

unlink_run : (unlink 5 clock 1 "a" with_file).0 ≡ ok tt
unfolding create_file new insert_inode insert_dir add_contains update_quota ◌>>=◌ require_cap
    is_bad_name resolve_name Map.insert Map.get contains_dir get_inode Arena.get Arena.contains
    Arena.insert_at check_quota_inode parent_dir alloc_edge_id alloc_inode_id record_prov unlink
    find_entry Sets.add get_edge adjust_inode Arena.adjust drop_incoming drop_outgoing remove_edge
    Arena.remove collect_inode remove_inode Map.remove
unlink_run = refl

unlinked_names_example :
    resolve_name 1 "a" (unlink 5 clock 1 "a" with_file).1
    ≡ (if 1 == 1 && str_eq "a" "a" then none else resolve_name 1 "a" with_file)
unlinked_names_example =
    unlink-resolve_name with_file with_file-WellFormed 1 "a" no_blocks 5 clock unlink_run 1 "a"

-- ===== src/Tests.antt =====
-- Concrete runs: a new file system, a file in it, and the theorems on the operations applied to them.
pub mod Graphs
pub mod Pools
pub mod Names
pub mod Dirs
pub mod Walks
pub mod Rcus
pub mod Sessions
pub mod Fscks
pub mod Quotas
use sotfs.Base.{
  ℕ, ◌+◌, ◌<◌, ◌≤◌, ◌%◌, ◌^◌, String, Bool, true, false, ◌||◌, not, Option, none, some, List, [],
  ◌∷◌, ◌≡◌, refl, arith, ltb, leb, ◌==◌, length, is_some, str_eq, if◌then◌else◌,
}
use sotfs.Map
use sotfs.Map.{id_key, entry_key, or_default}
use sotfs.Map.Sets
use sotfs.Arena
use sotfs.Arena.{to_id}
use sotfs.Types.{
  Inode, Directory, Bytes, new_dir, new_file, dir_default, is_directory, is_regular, XattrNamespace,
}
use sotfs.Types.Right
use sotfs.Error.{Result, ok, err}
use sotfs.Graph.{
  TypeGraph, node_capacity, edge_capacity, new, insert_inode, insert_dir, add_contains, insert_edge,
  add_outgoing, add_incoming, get_inode, get_dir, contains_dir, contains_inode, alloc_inode_id,
  alloc_edge_id,
}
use sotfs.Graph.Prov.{require_cap, record_prov}
use sotfs.Graph.Links.Nodes.{nodes_of, inode_at, WellFormed}
use sotfs.Graph.Links.Nodes.Fresh.{new-WellFormed}
use sotfs.Ops.Action.{Clock, ◌>>=◌, ◌>>◌}
use sotfs.Graph.Names.{resolve_name, parent_dir}
use sotfs.Ops.Quota.{check_quota_inode, plus, minus, update_quota}
use sotfs.Ops.Create.{is_bad_name, create_file, mkdir, make_symlink}
use sotfs.Ops.Create.Effect.{create_file-WellFormed, make_symlink-WellFormed}
use sotfs.Ops.Create.Mkdir.{mkdir-WellFormed}
use sotfs.Ops.Link.{link, unlink}
use sotfs.Ops.Link.Kept.{unlink-WellFormed}
use sotfs.Ops.Link.Linked.{link-WellFormed}

abbrev pub clock : Clock
clock n = 100 + n

abbrev pub start : TypeGraph
start = new 7

pub start_room :
    (start.next_inode < node_capacity)
    × (start.next_dir < node_capacity)
    × (start.next_edge + 2 < edge_capacity)
unfolding new insert_inode insert_dir add_contains insert_edge add_outgoing add_incoming
start_room = (omega arith, omega arith, omega arith)

create_file_example : WellFormed (create_file 5 clock 1 "a" 0 0 0o644 start).1
create_file_example =
    create_file-WellFormed start (new-WellFormed 7) 1 (omega arith) "a" start_room.0
      (omega (arith, start_room.2)) 5 clock 0 0 0o644

make_symlink_example : WellFormed (make_symlink 5 clock 1 "s" "/a" 0 0 start).1
make_symlink_example =
    make_symlink-WellFormed start (new-WellFormed 7) 1 (omega arith) "s" start_room.0
      (omega (arith, start_room.2)) 5 clock "/a" 0 0

pub root_paired :
    (p : Directory)
    → get_dir 1 start ≡ some p
    → (inode : Inode) × (p.inode_id < node_capacity)
      × (get_inode p.inode_id start ≡ some inode)
      × (is_directory inode.vtype ≡ true)
unfolding new get_dir get_inode Arena.get Arena.insert_at
root_paired p at =
    let one : p.inode_id ≡ 1 = ground (arith, at) in
    (record (new_dir 1 dir_default 0 0 7) { link_count = 1 }, omega (arith, one), rw one refl, refl)

mkdir_example : WellFormed (mkdir 5 clock 1 "d" 0 0 0o755 start).1
mkdir_example =
    mkdir-WellFormed start (new-WellFormed 7) 1 (omega arith) "d" start_room.0 start_room.1
      start_room.2 root_paired 5 clock 0 0 0o755

-- The file system with the file "a", and with the file data and attributes of the runs below.
abbrev pub with_file : TypeGraph
with_file = (create_file 5 clock 1 "a" 0 0 0o644 start).1

pub with_file-WellFormed : WellFormed with_file
with_file-WellFormed =
    create_file-WellFormed start (new-WellFormed 7) 1 (omega arith) "a" start_room.0
      (omega (arith, start_room.2)) 5 clock 0 0 0o644

pub with_file_run : (create_file 5 clock 1 "a" 0 0 0o644 start).0 ≡ ok 2
unfolding create_file new insert_inode insert_dir add_contains update_quota ◌>>=◌ require_cap
    is_bad_name resolve_name Map.insert Map.get contains_dir Arena.contains Arena.insert_at
    check_quota_inode parent_dir alloc_edge_id alloc_inode_id
with_file_run = refl

-- What the runs below need to know of the file system with the file.
pub with_file_facts :
    (get_inode 2 with_file ≡ some (record (new_file 2 0o644 0 0 100) { link_count = 1 }))
    × (contains_dir 1 with_file ≡ true)
    × (contains_inode 2 with_file ≡ true)
    × (with_file.next_edge ≡ 3)
    × (with_file.inode_points_to ≡ [])
    × (with_file.inode_xattrs ≡ [])
    × (with_file.cap_ctx.cap_id ≡ none)
    × (with_file.inodes.next_bump ≡ 3)
unfolding create_file new insert_inode insert_dir add_contains update_quota ◌>>=◌ require_cap
    is_bad_name resolve_name Map.insert Map.get contains_dir contains_inode get_inode Arena.get
    Arena.contains Arena.insert_at check_quota_inode parent_dir alloc_edge_id alloc_inode_id
    record_prov
with_file_facts = (refl, refl, refl, refl, refl, refl, refl, refl)

pub with_file_allowed : (r : ℕ) → require_cap r with_file ≡ ok tt
unfolding require_cap
with_file_allowed r = rw (with_file_facts.6) refl

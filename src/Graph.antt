-- ===== src/Graph.antt =====
-- sotfs-graph/src/graph.rs: the state of the graph, its construction, the id allocators, and the
-- insertions and removals that keep the reverse and name indexes.
pub mod Names
pub mod Prov
pub mod Index
pub mod Check
pub mod Links
use sotfs.Base.{
  ℕ, ◌+◌, ◌%◌, ◌^◌, String, Bool, true, false, Option, none, some, List, [], ◌∷◌, is_some,
}
use sotfs.Map
use sotfs.Map.{Map, or_default, id_key, entry_key}
use sotfs.Map.Sets
use sotfs.Map.Sets.{IdSet}
use sotfs.Arena
use sotfs.Arena.{Arena, to_id}
use sotfs.Types.{
  InodeId, DirId, CapId, TxnId, VersionId, BlockId, XattrId, EdgeId, Timestamp, Inode, Directory,
  Capability, Transaction, Version, Block, Xattr, AclEntry, Quota, Edge, CapContext, Bytes,
  anonymous, new_dir, dir_default,
}
use sotfs.Provenance.{ProvenanceLog}

abbrev pub link_max : ℕ
link_max = 65535

abbrev pub node_capacity : ℕ
node_capacity = 65536

abbrev pub edge_capacity : ℕ
edge_capacity = 131072

pub record TypeGraph : Type 0 where
  pub inodes : Arena Inode node_capacity
  pub dirs : Arena Directory node_capacity
  pub caps : Arena Capability node_capacity
  pub transactions : Arena Transaction node_capacity
  pub versions : Arena Version node_capacity
  pub blocks : Arena Block node_capacity
  pub edges : Arena Edge edge_capacity
  pub dir_contains : Map DirId IdSet
  pub inode_incoming_contains : Map InodeId IdSet
  pub inode_points_to : Map InodeId IdSet
  pub cap_grants : Map CapId EdgeId
  pub cap_parent : Map CapId CapId
  pub cap_children : Map CapId IdSet
  pub file_data : Map InodeId Bytes
  pub xattrs : Map XattrId Xattr
  pub inode_xattrs : Map InodeId IdSet
  pub next_xattr : ℕ
  pub symlink_targets : Map InodeId String
  pub dir_for_inode_idx : Map InodeId DirId
  pub dir_name_idx : Map (DirId × String) EdgeId
  pub acls : Map InodeId (List AclEntry)
  pub quotas : Map DirId Quota
  pub prov_log : Option ProvenanceLog
  pub cap_ctx : CapContext
  pub next_inode : ℕ
  pub next_dir : ℕ
  pub next_cap : ℕ
  pub next_txn : ℕ
  pub next_version : ℕ
  pub next_block : ℕ
  pub next_edge : ℕ
  pub root_dir : DirId
  pub root_inode : InodeId

-- The counters are u64.
abbrev pub bump : ℕ → ℕ
bump n = (n + 1) % 2 ^ 64

unfoldable pub alloc_inode_id : TypeGraph → InodeId × TypeGraph
alloc_inode_id g = (g.next_inode, record g { next_inode = bump g.next_inode })

unfoldable pub alloc_dir_id : TypeGraph → DirId × TypeGraph
alloc_dir_id g = (g.next_dir, record g { next_dir = bump g.next_dir })

unfoldable pub alloc_xattr_id : TypeGraph → XattrId × TypeGraph
alloc_xattr_id g = (g.next_xattr, record g { next_xattr = bump g.next_xattr })

unfoldable pub alloc_cap_id : TypeGraph → CapId × TypeGraph
alloc_cap_id g = (g.next_cap, record g { next_cap = bump g.next_cap })

unfoldable pub alloc_block_id : TypeGraph → BlockId × TypeGraph
alloc_block_id g = (g.next_block, record g { next_block = bump g.next_block })

unfoldable pub alloc_edge_id : TypeGraph → EdgeId × TypeGraph
alloc_edge_id g = (g.next_edge, record g { next_edge = bump g.next_edge })

-- The callers drop the answer of `insert_at`.
unfoldable pub insert_inode : InodeId → Inode → TypeGraph → TypeGraph
insert_inode id inode g = record g { inodes = (Arena.insert_at (to_id id) inode g.inodes).1 }

unfoldable pub insert_dir : DirId → Directory → TypeGraph → TypeGraph
insert_dir id dir g = record g {
  dirs = (Arena.insert_at (to_id id) dir g.dirs).1;
  dir_for_inode_idx = Map.insert dir.inode_id id g.dir_for_inode_idx;
}

unfoldable pub insert_cap : CapId → Capability → TypeGraph → TypeGraph
insert_cap id cap g = record g { caps = (Arena.insert_at (to_id id) cap g.caps).1 }

unfoldable pub insert_block : BlockId → Block → TypeGraph → TypeGraph
insert_block id block g = record g { blocks = (Arena.insert_at (to_id id) block g.blocks).1 }

-- The name index follows a `Contains` edge.
abbrev pub index_edge : EdgeId → Edge → TypeGraph → TypeGraph
index_edge id (Edge.contains _ src tgt name) g = record g {
  dir_name_idx = Map.insert (src, name) id g.dir_name_idx;
}
index_edge id (Edge.grants _ _ _ _) g = g
index_edge id (Edge.delegates _ _ _) g = g
index_edge id (Edge.derived_from _ _ _) g = g
index_edge id (Edge.supersedes _ _ _) g = g
index_edge id (Edge.points_to _ _ _ _) g = g
index_edge id (Edge.has_xattr _ _ _) g = g

unfoldable pub insert_edge : EdgeId → Edge → TypeGraph → TypeGraph
insert_edge id edge g =
    let g' = index_edge id edge g in
    record g' { edges = (Arena.insert_at (to_id id) edge g'.edges).1 }

unfoldable pub get_inode : InodeId → TypeGraph → Option Inode
get_inode id g = Arena.get (to_id id) g.inodes

-- `if let Some(inode) = g.get_inode_mut(id) { *inode = f(*inode) }`
unfoldable pub adjust_inode : InodeId → (Inode → Inode) → TypeGraph → TypeGraph
adjust_inode id f g = record g { inodes = Arena.adjust (to_id id) f g.inodes }

unfoldable pub get_dir : DirId → TypeGraph → Option Directory
get_dir id g = Arena.get (to_id id) g.dirs

unfoldable pub get_cap : CapId → TypeGraph → Option Capability
get_cap id g = Arena.get (to_id id) g.caps

unfoldable pub get_block : BlockId → TypeGraph → Option Block
get_block id g = Arena.get (to_id id) g.blocks

unfoldable pub adjust_block : BlockId → (Block → Block) → TypeGraph → TypeGraph
adjust_block id f g = record g { blocks = Arena.adjust (to_id id) f g.blocks }

unfoldable pub get_edge : EdgeId → TypeGraph → Option Edge
get_edge id g = Arena.get (to_id id) g.edges

unfoldable pub adjust_edge : EdgeId → (Edge → Edge) → TypeGraph → TypeGraph
adjust_edge id f g = record g { edges = Arena.adjust (to_id id) f g.edges }

unfoldable pub contains_inode : InodeId → TypeGraph → Bool
contains_inode id g = Arena.contains (to_id id) g.inodes

unfoldable pub contains_dir : DirId → TypeGraph → Bool
contains_dir id g = Arena.contains (to_id id) g.dirs

unfoldable pub contains_cap : CapId → TypeGraph → Bool
contains_cap id g = Arena.contains (to_id id) g.caps

unfoldable pub contains_txn : TxnId → TypeGraph → Bool
contains_txn id g = Arena.contains (to_id id) g.transactions

unfoldable pub contains_version : VersionId → TypeGraph → Bool
contains_version id g = Arena.contains (to_id id) g.versions

unfoldable pub contains_block : BlockId → TypeGraph → Bool
contains_block id g = Arena.contains (to_id id) g.blocks

unfoldable pub remove_inode : InodeId → TypeGraph → TypeGraph
remove_inode id g = record g { inodes = (Arena.remove (to_id id) g.inodes).1 }

abbrev pub drop_dir_index : Option Directory → Map InodeId DirId → Map InodeId DirId
drop_dir_index none m = m
drop_dir_index (some d) m = Map.remove d.inode_id m

unfoldable pub remove_dir : DirId → TypeGraph → TypeGraph
remove_dir id g =
    let (removed, dirs) = Arena.remove (to_id id) g.dirs in
    record g { dirs = dirs; dir_for_inode_idx = drop_dir_index removed g.dir_for_inode_idx }

unfoldable pub remove_block : BlockId → TypeGraph → TypeGraph
remove_block id g = record g { blocks = (Arena.remove (to_id id) g.blocks).1 }

abbrev pub unindex_edge : Edge → Map (DirId × String) EdgeId → Map (DirId × String) EdgeId
unindex_edge (Edge.contains _ src tgt name) m = Map.remove (src, name) m
unindex_edge (Edge.grants _ _ _ _) m = m
unindex_edge (Edge.delegates _ _ _) m = m
unindex_edge (Edge.derived_from _ _ _) m = m
unindex_edge (Edge.supersedes _ _ _) m = m
unindex_edge (Edge.points_to _ _ _ _) m = m
unindex_edge (Edge.has_xattr _ _ _) m = m

-- The removed edge, and the graph without it.
unfoldable pub remove_edge : EdgeId → TypeGraph → Option Edge × TypeGraph
remove_edge id g =
    let (removed, edges) = Arena.remove (to_id id) g.edges in
    elim removed [
      | none ↦ (none, record g { edges = edges })
      | some edge ↦
          (some edge, record g { edges = edges; dir_name_idx = unindex_edge edge g.dir_name_idx })
    ]

-- `g.dir_contains.entry(dir).or_default().insert(eid)`, and the same for incoming edges.
unfoldable pub add_outgoing : DirId → EdgeId → TypeGraph → TypeGraph
add_outgoing dir eid g = record g {
  dir_contains =
      Map.insert dir (Sets.add eid (or_default [] (Map.get dir g.dir_contains))) g.dir_contains;
}

unfoldable pub add_incoming : InodeId → EdgeId → TypeGraph → TypeGraph
add_incoming inode eid g = record g {
  inode_incoming_contains =
      Map.insert inode (Sets.add eid (or_default [] (Map.get inode g.inode_incoming_contains)))
        g.inode_incoming_contains;
}

-- `if let Some(set) = g.dir_contains.get_mut(&dir) { set.remove(&eid); }`, and for incoming edges.
unfoldable pub drop_outgoing : DirId → EdgeId → TypeGraph → TypeGraph
drop_outgoing dir eid g = record g {
  dir_contains = Map.adjust dir (Sets.delete eid) g.dir_contains;
}

unfoldable pub drop_incoming : InodeId → EdgeId → TypeGraph → TypeGraph
drop_incoming inode eid g = record g {
  inode_incoming_contains = Map.adjust inode (Sets.delete eid) g.inode_incoming_contains;
}

-- The steps by which each operation makes a `Contains` edge.
unfoldable pub add_contains : EdgeId → DirId → InodeId → String → TypeGraph → TypeGraph
unfolding insert_edge add_outgoing add_incoming
add_contains id src tgt name g =
    add_incoming tgt id (add_outgoing src id (insert_edge id (Edge.contains id src tgt name) g))

abbrev pub empty_graph : TypeGraph
empty_graph = record {
  inodes = Arena.new node_capacity;
  dirs = Arena.new node_capacity;
  caps = Arena.new node_capacity;
  transactions = Arena.new node_capacity;
  versions = Arena.new node_capacity;
  blocks = Arena.new node_capacity;
  edges = Arena.new edge_capacity;
  dir_contains = [];
  inode_incoming_contains = [];
  inode_points_to = [];
  cap_grants = [];
  cap_parent = [];
  cap_children = [];
  file_data = [];
  xattrs = [];
  inode_xattrs = [];
  next_xattr = 1;
  symlink_targets = [];
  dir_for_inode_idx = [];
  dir_name_idx = [];
  acls = [];
  quotas = [];
  prov_log = none;
  cap_ctx = anonymous;
  next_inode = 2;
  next_dir = 2;
  next_cap = 1;
  next_txn = 1;
  next_version = 1;
  next_block = 1;
  next_edge = 2;
  root_dir = 1;
  root_inode = 1;
}

-- CREATE-ROOT: the root's inode, directory node and "." edge. `now` is the clock.
unfoldable pub new : Timestamp → TypeGraph
unfolding insert_inode insert_dir add_contains
new now = add_contains 1 1 1 "." (
    insert_dir 1 (record { id = 1; inode_id = 1 })
      (insert_inode 1 (record (new_dir 1 dir_default 0 0 now) { link_count = 1 }) empty_graph))

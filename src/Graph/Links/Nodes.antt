-- ===== src/Graph/Links/Nodes.antt =====
-- graph.rs: well-formed graphs, and the single steps out of which the operations are made. `due`
-- says how many edges into an inode are still to come, while an operation is under way; between
-- two operations it is 0 everywhere.
pub mod Steps
pub mod Edges
pub mod Keys
pub mod Fresh
pub mod Others
pub mod Renamed
use sotfs.Base.{ℕ, ◌+◌, ◌<◌, ◌≤◌, String, Bool, true, Option, some, none, ◌≡◌, is_some, str_eq}
use sotfs.Arena
use sotfs.Arena.{Arena, to_id}
use sotfs.Types.{EdgeId, DirId, InodeId, Inode, Directory, is_directory}
use sotfs.Graph.{TypeGraph, node_capacity, edge_capacity}
use sotfs.Map.Sets.Order.{IsIncreasing}
use sotfs.Graph.Index.{Index, index_of, entry, edges_to, IsIndexed}
use sotfs.Graph.Links.{links}

pub record Nodes : Type 0 where
  pub inodes : Arena Inode node_capacity
  pub dirs : Arena Directory node_capacity
  pub next_inode : ℕ
  pub next_dir : ℕ

abbrev pub nodes_of : TypeGraph → Nodes
nodes_of g = record {
  inodes = g.inodes;
  dirs = g.dirs;
  next_inode = g.next_inode;
  next_dir = g.next_dir;
}

unfoldable pub inode_at : InodeId → Nodes → Option Inode
inode_at i n = Arena.get (to_id i) n.inodes

unfoldable pub dir_at : DirId → Nodes → Option Directory
dir_at d n = Arena.get (to_id d) n.dirs

pub record IsWellFormed (due : InodeId → ℕ) (n : Nodes) (s : Index) : Type 0 where
  pub index : IsIndexed s
  pub increasing : (i : InodeId) → IsIncreasing (edges_to i s)
  pub inodes_bounded : n.next_inode ≤ node_capacity
  pub dirs_bounded : n.next_dir ≤ node_capacity
  pub inodes_vacant : (i : InodeId) → n.next_inode ≤ i → i < node_capacity → inode_at i n ≡ none
  pub dirs_vacant : (d : DirId) → n.next_dir ≤ d → d < node_capacity → dir_at d n ≡ none
  pub link_counts :
      (i : InodeId) (inode : Inode)
      → i < node_capacity
      → inode_at i n ≡ some inode
      → inode.link_count ≡ links i s + due i
  pub endpoints :
      (e : EdgeId) (d : DirId) (t : InodeId) (name : String)
      → e < edge_capacity
      → entry e s ≡ some (d, t, name)
      → (t < node_capacity)
        × (is_some (inode_at t n) ≡ true)
        × (d < node_capacity)
        × (is_some (dir_at d n) ≡ true)
  pub dotdots :
      (e : EdgeId) (d : DirId) (t : InodeId) (name : String) (inode : Inode)
      → e < edge_capacity
      → entry e s ≡ some (d, t, name)
      → str_eq name ".." ≡ true
      → inode_at t n ≡ some inode
      → is_directory inode.vtype ≡ true

abbrev pub settled : InodeId → ℕ
settled i = 0

-- Well-formed between operations.
abbrev pub WellFormed : TypeGraph → Type 0
WellFormed g = IsWellFormed settled (nodes_of g) (index_of g)

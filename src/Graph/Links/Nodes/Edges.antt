-- ===== src/Graph/Links/Nodes/Edges.antt =====
-- graph.rs: the steps that change the edges of a well-formed graph.
use sotfs.Base.{
  ℕ, ◌+◌, ◌-◌, ◌<◌, ◌≤◌, String, true, ◌&&◌, not, none, some, ◌≡◌, arith, ◌==◌, is_some, str_eq,
}
use sotfs.Map
use sotfs.Map.{Map, id_key, entry_key}
use sotfs.Arena
use sotfs.Arena.{to_id}
use sotfs.Types.{EdgeId, DirId, InodeId, Inode, is_directory}
use sotfs.Graph.{node_capacity, edge_capacity, bump}
use sotfs.Graph.Index.{Index, entry}
use sotfs.Graph.Index.Add.{link_edge, entry-link_edge, link_edge-IsIndexed, bump-IsIndexed}
use sotfs.Graph.Index.Drop.{cut_edge, entry-cut_edge, cut_edge-IsIndexed}
use sotfs.Graph.Index.Rename.{relabel, entry-relabel, relabel-IsIndexed}
use sotfs.Graph.Links.{
  links, one_if, links-link_edge, links-cut_edge, links-relabel, link_edge-IsIncreasing,
  cut_edge-IsIncreasing,
}
use sotfs.Graph.Links.Nodes.{Nodes, inode_at, dir_at, IsWellFormed}

-- What an edge adds to the count of the inode `i`.
abbrev pub share : InodeId → String → InodeId → ℕ
share tgt name i = one_if (tgt == i && not (str_eq name ".."))

module _ {due : InodeId → ℕ} {n : Nodes} (s : Index) (h : IsWellFormed due n s) where
  pub bump-WellFormed :
      s.next_edge < edge_capacity → IsWellFormed due n (record s { next_edge = bump s.next_edge })
  unfolding links entry
  bump-WellFormed room = record {
    index = bump-IsIndexed s h.index room;
    increasing = h.increasing;
    inodes_bounded = h.inodes_bounded;
    dirs_bounded = h.dirs_bounded;
    inodes_vacant = h.inodes_vacant;
    dirs_vacant = h.dirs_vacant;
    link_counts = h.link_counts;
    endpoints = h.endpoints;
    dotdots = h.dotdots;
  }

  module _ (id : EdgeId) (src : DirId) (tgt : InodeId) (name : String) where
    pub link_edge-WellFormed :
        id < s.next_edge
        → Arena.get (to_id id) s.edges ≡ none
        → Map.get (src, name) s.names ≡ none
        → tgt < node_capacity
        → is_some (inode_at tgt n) ≡ true
        → src < node_capacity
        → is_some (dir_at src n) ≡ true
        → share tgt name tgt ≤ due tgt
        → ((inode : Inode)
            → str_eq name ".." ≡ true
            → inode_at tgt n ≡ some inode
            → is_directory inode.vtype ≡ true)
        → IsWellFormed (λ i. due i - share tgt name i) n (link_edge id src tgt name s)
    link_edge-WellFormed low fresh unnamed tb tgt_there sb src_there owed to_dir = record {
      index = link_edge-IsIndexed id src tgt name s h.index low fresh unnamed;
      increasing = λ i. link_edge-IsIncreasing id src tgt name s i (h.increasing i);
      inodes_bounded = h.inodes_bounded;
      dirs_bounded = h.dirs_bounded;
      inodes_vacant = h.inodes_vacant;
      dirs_vacant = h.dirs_vacant;
      link_counts = λ i inode lt at. ground (
        arith,
        h.link_counts i inode lt at,
        links-link_edge id src tgt name s h.index low fresh i,
      );
      endpoints = λ e d t nm lt at.
          ground
            (arith, entry-link_edge id src tgt name s e, h.index.bounded, h.endpoints e d t nm);
      dotdots = λ e d t nm inode lt at up there. ground (
        arith,
        entry-link_edge id src tgt name s e,
        h.index.bounded,
        h.dotdots e d t nm inode,
        to_dir inode,
      );
    }

    pub cut_edge-WellFormed :
        id < edge_capacity
        → entry id s ≡ some (src, tgt, name)
        → IsWellFormed (λ i. due i + share tgt name i) n (cut_edge id src tgt name s)
    cut_edge-WellFormed low here = record {
      index = cut_edge-IsIndexed id src tgt name s h.index low here;
      increasing = λ i. cut_edge-IsIncreasing id src tgt name s h.index low here i (h.increasing i);
      inodes_bounded = h.inodes_bounded;
      dirs_bounded = h.dirs_bounded;
      inodes_vacant = h.inodes_vacant;
      dirs_vacant = h.dirs_vacant;
      link_counts = λ i inode lt at. ground (
        arith,
        h.link_counts i inode lt at,
        links-cut_edge id src tgt name s h.index low here i (h.increasing i),
      );
      endpoints = λ e d t nm lt at.
          ground (arith, entry-cut_edge id src tgt name s h.index low here e, h.endpoints e d t nm);
      dotdots = λ e d t nm inode lt at up there.
          ground
            (arith, entry-cut_edge id src tgt name s h.index low here e, h.dotdots e d t nm inode);
    }

  module _ (id : EdgeId) (src : DirId) (tgt : InodeId) (old new : String) where
    pub relabel-WellFormed :
        id < edge_capacity
        → entry id s ≡ some (src, tgt, old)
        → Map.get (src, new) s.names ≡ none
        → str_eq old ".." ≡ str_eq new ".."
        → IsWellFormed due n (relabel id src old new s)
    relabel-WellFormed low here free kind = record {
      index = relabel-IsIndexed id src tgt old new s h.index low here free;
      increasing = unfold relabel in h.increasing;
      inodes_bounded = h.inodes_bounded;
      dirs_bounded = h.dirs_bounded;
      inodes_vacant = h.inodes_vacant;
      dirs_vacant = h.dirs_vacant;
      link_counts = λ i inode lt at. ground (
        arith,
        h.link_counts i inode lt at,
        links-relabel id src tgt old new s h.index low here free i kind,
      );
      endpoints = λ e d t nm lt at. ground (
        arith,
        entry-relabel id src tgt old new s h.index low here free e,
        h.endpoints e d t nm,
        h.endpoints e d t old,
        here,
      );
      dotdots = λ e d t nm inode lt at up there. ground (
        arith,
        entry-relabel id src tgt old new s h.index low here free e,
        h.dotdots e d t nm inode,
        h.dotdots e d t old inode,
        here,
        kind,
      );
    }

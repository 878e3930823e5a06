-- ===== src/Graph/Links/Nodes/Keys.antt =====
-- graph.rs: whole entries of `inode_incoming_contains` and of `dir_contains` that are dropped with
-- the inode or the directory.
use sotfs.Base.{ℕ, ◌<◌, false, [], ◌≡◌, arith}
use sotfs.Map
use sotfs.Map.{Map, id_key, or_default}
use sotfs.Map.Laws.{get-remove}
use sotfs.Types.{EdgeId, DirId, InodeId}
use sotfs.Graph.{edge_capacity}
use sotfs.Graph.Index.{Index, entry, edges_to, edges_from, enters, leaves, IsIndexed}
use sotfs.Graph.Links.{links}
use sotfs.Graph.Links.Nodes.{Nodes, IsWellFormed}
use sotfs.Graph.Links.Nodes.Steps.{edges_to-nil, nil_of_none}

module _ {due : InodeId → ℕ} (n : Nodes) (s : Index) (h : IsWellFormed due n s) (id : ℕ) where
  abbrev without_incoming : Index
  without_incoming = record s { incoming = Map.remove id s.incoming }

  abbrev without_outgoing : Index
  without_outgoing = record s { outgoing = Map.remove id s.outgoing }

  module _ (unused : (e : EdgeId) → e < edge_capacity → enters id (entry e s) ≡ false) where
    same_incoming : (i : InodeId) → edges_to i without_incoming ≡ edges_to i s
    same_incoming i = ground (arith, get-remove id i s.incoming, edges_to-nil id s h.index unused)

    incoming-IsIndexed : IsIndexed without_incoming
    unfolding entry
    incoming-IsIndexed = record {
      bounded = h.index.bounded;
      vacant = h.index.vacant;
      sound = h.index.sound;
      complete = h.index.complete;
      from_below = h.index.from_below;
      to_below = λ i e. rw (same_incoming i) (h.index.to_below i e);
      from_exact = h.index.from_exact;
      to_exact = λ i e. rw (same_incoming i) (h.index.to_exact i e);
    }

    -- The entry of an inode that no edge enters can be dropped.
    pub forget_incoming-WellFormed : IsWellFormed due n without_incoming
    unfolding entry links
    forget_incoming-WellFormed = record {
      index = incoming-IsIndexed;
      increasing = λ i. rw (same_incoming i) (h.increasing i);
      inodes_bounded = h.inodes_bounded;
      dirs_bounded = h.dirs_bounded;
      inodes_vacant = h.inodes_vacant;
      dirs_vacant = h.dirs_vacant;
      link_counts = λ i. rw (same_incoming i) (h.link_counts i);
      endpoints = h.endpoints;
      dotdots = h.dotdots;
    }

  module _ (unused : (e : EdgeId) → e < edge_capacity → leaves id (entry e s) ≡ false) where
    outgoing-nil : edges_from id s ≡ []
    outgoing-nil = nil_of_none (edges_from id s) (λ e.
        ground (arith, h.index.from_below id e, h.index.bounded, h.index.from_exact id e, unused e))

    same_outgoing : (d : DirId) → edges_from d without_outgoing ≡ edges_from d s
    same_outgoing d = ground (arith, get-remove id d s.outgoing, outgoing-nil)

    outgoing-IsIndexed : IsIndexed without_outgoing
    unfolding entry
    outgoing-IsIndexed = record {
      bounded = h.index.bounded;
      vacant = h.index.vacant;
      sound = h.index.sound;
      complete = h.index.complete;
      from_below = λ d e. rw (same_outgoing d) (h.index.from_below d e);
      to_below = h.index.to_below;
      from_exact = λ d e. rw (same_outgoing d) (h.index.from_exact d e);
      to_exact = h.index.to_exact;
    }

    -- The entry of a directory that no edge leaves can be dropped.
    pub forget_outgoing-WellFormed : IsWellFormed due n without_outgoing
    unfolding entry links
    forget_outgoing-WellFormed = record {
      index = outgoing-IsIndexed;
      increasing = h.increasing;
      inodes_bounded = h.inodes_bounded;
      dirs_bounded = h.dirs_bounded;
      inodes_vacant = h.inodes_vacant;
      dirs_vacant = h.dirs_vacant;
      link_counts = h.link_counts;
      endpoints = h.endpoints;
      dotdots = h.dotdots;
    }

-- ===== src/Ops/Link/Freed.antt =====
-- sotfs-ops/src/lib.rs: the last part of UNLINK, where an inode goes with its blocks.
use sotfs.Base.{
  ℕ, ◌<◌, true, false, Option, none, some, List, [], ◌∷◌, ◌≡◌, refl, sym, ap, ◌∙◌, arith,
}
use mathlib.Core.Path.{subst₂}
use sotfs.Map
use sotfs.Map.{Map, id_key, or_default}
use sotfs.Map.Sets
use sotfs.Arena
use sotfs.Arena.{to_id}
use sotfs.Types.{InodeId, EdgeId, BlockId, Edge}
use sotfs.Graph.{
  TypeGraph, node_capacity, edge_capacity, remove_edge, remove_inode, adjust_block, remove_block,
}
use sotfs.Graph.Index.{Index, index_of, entry, edges_to, enters, IsIndexed}
use sotfs.Graph.Links.{links, counted}
use sotfs.Map.Sets.Order.{count_congr}
use sotfs.Graph.Links.Nodes.{Nodes, nodes_of, IsWellFormed, WellFormed, settled}
use sotfs.Graph.Links.Nodes.Steps.{remove_inode-WellFormed}
use sotfs.Graph.Links.Nodes.Keys.{forget_incoming-WellFormed}
use sotfs.Ops.Link.{release_block, release_target, release_all, collect_inode}

module _ {due : InodeId → ℕ} (n : Nodes) (s : Index) (h : IsWellFormed due n s) (id : EdgeId)
    (low : id < edge_capacity) (other : entry id s ≡ none) where
  abbrev without_edge : Index
  without_edge = record s { edges = (Arena.remove (to_id id) s.edges).1 }

  pub same_entry : (j : EdgeId) → j < edge_capacity → entry j without_edge ≡ entry j s
  unfolding entry Arena.get Arena.remove
  same_entry j lt = ground (arith, other)

  kept-IsIndexed : IsIndexed without_edge
  kept-IsIndexed = record {
    bounded = h.index.bounded;
    vacant = λ e le lt. unfold Arena.get Arena.remove in ground (arith, h.index.vacant e le lt);
    sound = λ d nm e found.
        let (t, below, at) = h.index.sound d nm e found in
        (t, below, ground (arith, same_entry e, h.index.bounded));
    complete = λ d t nm e lt at. h.index.complete d t nm e lt (ground (arith, same_entry e lt));
    from_below = h.index.from_below;
    to_below = h.index.to_below;
    from_exact = λ d e lt. ground (arith, same_entry e lt, h.index.from_exact d e lt);
    to_exact = λ i e lt. ground (arith, same_entry e lt, h.index.to_exact i e lt);
  }

  same_links : (i : InodeId) → links i without_edge ≡ links i s
  unfolding links
  same_links i =
      count_congr (counted without_edge) (counted s) (edges_to i s)
        (λ e m. ground (arith, same_entry e, h.index.to_below i e, h.index.bounded))

  -- The removal of an edge that is no `Contains` edge.
  pub remove_other-WellFormed : IsWellFormed due n without_edge
  remove_other-WellFormed = record {
    index = kept-IsIndexed;
    increasing = h.increasing;
    inodes_bounded = h.inodes_bounded;
    dirs_bounded = h.dirs_bounded;
    inodes_vacant = h.inodes_vacant;
    dirs_vacant = h.dirs_vacant;
    link_counts = λ i nd lt at. ground (arith, same_links i, h.link_counts i nd lt at);
    endpoints = λ e d t nm lt at. h.endpoints e d t nm lt (ground (arith, same_entry e lt));
    dotdots = λ e d t nm nd lt at. h.dotdots e d t nm nd lt (ground (arith, same_entry e lt));
  }

-- The edges of the list are in range, and none is a `Contains` edge.
abbrev pub AllOther : List EdgeId → TypeGraph → Type 0
AllOther eids g =
    (e : EdgeId) → Sets.contains e eids ≡ true → (e < edge_capacity) × (entry e (index_of g) ≡ none)

pub index_of-remove_other :
    (id : EdgeId) (g : TypeGraph)
    → entry id (index_of g) ≡ none
    → index_of (remove_edge id g).1 ≡ record {
      edges = (Arena.remove (to_id id) g.edges).1;
      names = g.dir_name_idx;
      outgoing = g.dir_contains;
      incoming = g.inode_incoming_contains;
      next_edge = g.next_edge;
    }
unfolding entry remove_edge Arena.get Arena.remove
index_of-remove_other id g other = ground arith

pub nodes_of-remove_edge :
    (id : EdgeId) (g : TypeGraph) → nodes_of (remove_edge id g).1 ≡ nodes_of g
unfolding remove_edge
nodes_of-remove_edge id g = ground arith

release_block_keeps :
    (b : BlockId) (g : TypeGraph)
    → (index_of (release_block b g) ≡ index_of g) × (nodes_of (release_block b g) ≡ nodes_of g)
unfolding release_block adjust_block remove_block
release_block_keeps b g = ground arith

pub release_target_keeps :
    (o : Option Edge) (g : TypeGraph)
    → (index_of (release_target o g) ≡ index_of g) × (nodes_of (release_target o g) ≡ nodes_of g)
release_target_keeps (some (Edge.points_to i s b off)) g = release_block_keeps b g
release_target_keeps (some _) g = (refl, refl)
release_target_keeps none g = (refl, refl)

module _ (due : InodeId → ℕ) where
  abbrev Good : TypeGraph → Type 0
  Good g = IsWellFormed due (nodes_of g) (index_of g)

  release_one :
      (eid : EdgeId) (g : TypeGraph)
      → Good g
      → eid < edge_capacity
      → entry eid (index_of g) ≡ none
      → Good (release_target (remove_edge eid g).0 (remove_edge eid g).1)
  release_one eid g h low other =
      let g' = (remove_edge eid g).1 in
      let (same_index, same_nodes) = release_target_keeps (remove_edge eid g).0 g' in
      subst₂ (IsWellFormed due) (sym (same_nodes ∙ nodes_of-remove_edge eid g))
        (sym (same_index ∙ index_of-remove_other eid g other))
        (remove_other-WellFormed (nodes_of g) (index_of g) h eid low other)

  release_one-entry :
      (eid : EdgeId) (g : TypeGraph)
      → Good g
      → eid < edge_capacity
      → entry eid (index_of g) ≡ none
      → (e : EdgeId) → e < edge_capacity
      → entry e (index_of (release_target (remove_edge eid g).0 (remove_edge eid g).1))
        ≡ entry e (index_of g)
  release_one-entry eid g h low other e lt =
      let g' = (remove_edge eid g).1 in
      let (same_index, same_nodes) = release_target_keeps (remove_edge eid g).0 g' in
      ap (entry e) (same_index ∙ index_of-remove_other eid g other)
      ∙ same_entry (nodes_of g) (index_of g) h eid low other e lt

  -- The loop over the blocks of an inode keeps the entries of the pool and the invariant.
  pub release_all-WellFormed :
      (eids : List EdgeId) (g : TypeGraph)
      → Good g
      → AllOther eids g
      → Good (release_all eids g)
        × ((e : EdgeId)
            → e < edge_capacity
            → entry e (index_of (release_all eids g)) ≡ entry e (index_of g))
  unfolding release_all Sets.contains
  release_all-WellFormed [] g h all = (h, λ e lt. refl)
  release_all-WellFormed (eid ∷ eids) g h all =
      let (low, other) = all eid (ground arith) in
      let g' = release_target (remove_edge eid g).0 (remove_edge eid g).1 in
      let same = release_one-entry eid g h low other in
      let (h', same') =
        release_all-WellFormed eids g' (release_one eid g h low other)
          (λ e m. let (lt, o) = all e (ground arith) in (lt, same e lt ∙ o)) in
      (h', λ e lt. same' e lt ∙ same e lt)

-- An inode that no `Contains` edge enters goes with its blocks, and the graph stays well-formed.
pub collect_inode-WellFormed :
    (inode : InodeId) (g : TypeGraph)
    → WellFormed g
    → inode < node_capacity
    → AllOther (or_default [] (Map.get inode g.inode_points_to)) g
    → ((e : EdgeId) → e < edge_capacity → enters inode (entry e (index_of g)) ≡ false)
    → WellFormed (collect_inode inode g)
unfolding collect_inode remove_inode
collect_inode-WellFormed inode g h low all unused =
    let eids = or_default [] (Map.get inode g.inode_points_to) in
    let g0 = record g { inode_points_to = Map.remove inode g.inode_points_to } in
    let g' = release_all eids g0 in
    let (h', same) = release_all-WellFormed settled eids g0 h all in
    let gone : (e : EdgeId) → e < edge_capacity → enters inode (entry e (index_of g')) ≡ false =
      λ e lt. ap (enters inode) (same e lt) ∙ unused e lt in
    forget_incoming-WellFormed _ _
      (remove_inode-WellFormed (nodes_of g') (index_of g') h' inode low gone) inode gone

-- The other edges of the pool stay when an inode goes.
pub collect_inode-entry :
    (inode : InodeId) (g : TypeGraph)
    → WellFormed g
    → AllOther (or_default [] (Map.get inode g.inode_points_to)) g
    → (e : EdgeId) → e < edge_capacity
    → entry e (index_of (collect_inode inode g)) ≡ entry e (index_of g)
unfolding collect_inode remove_inode entry
collect_inode-entry inode g h all e lt =
    let eids = or_default [] (Map.get inode g.inode_points_to) in
    let g0 = record g { inode_points_to = Map.remove inode g.inode_points_to } in
    let (h', same) = release_all-WellFormed settled eids g0 h all in same e lt

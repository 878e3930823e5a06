-- ===== src/Graph/Links/Nodes/Others.antt =====
-- graph.rs: a new edge that is no `Contains` edge, such as a `PointsTo`, `HasXattr` or `Grants` edge.
use sotfs.Base.{ℕ, ◌<◌, none, some, ◌≡◌, arith}
use sotfs.Arena
use sotfs.Arena.{to_id}
use sotfs.Map.Sets.Order.{count_congr}
use sotfs.Types.{InodeId, EdgeId, Edge}
use sotfs.Graph.{edge_capacity, bump}
use sotfs.Graph.Index.{Index, entry, entry_of, edges_to, IsIndexed}
use sotfs.Graph.Links.{links, counted}
use sotfs.Graph.Links.Nodes.{Nodes, IsWellFormed}

module _ {due : InodeId → ℕ} (n : Nodes) (s : Index) (h : IsWellFormed due n s) (edge : Edge)
    (other : entry_of (some edge) ≡ none) (room : s.next_edge < edge_capacity) where
  abbrev with_edge : Index
  with_edge = record s {
    edges = (Arena.insert_at (to_id s.next_edge) edge s.edges).1;
    next_edge = bump s.next_edge;
  }

  same_entry : (j : EdgeId) → j < edge_capacity → entry j with_edge ≡ entry j s
  unfolding entry Arena.get Arena.insert_at
  same_entry j lt = ground (arith, other, room)

  kept-IsIndexed : IsIndexed with_edge
  kept-IsIndexed = record {
    bounded = omega arith;
    vacant = λ e le lt. unfold Arena.get Arena.insert_at in ground (arith, h.index.vacant e, room);
    sound = λ d nm e found.
        let (t, below, at) = h.index.sound d nm e found in
        (t, omega arith, ground (arith, same_entry e, h.index.bounded));
    complete = λ d t nm e lt at. h.index.complete d t nm e lt (ground (arith, same_entry e lt));
    from_below = λ d e m. omega (arith, h.index.from_below d e m);
    to_below = λ i e m. omega (arith, h.index.to_below i e m);
    from_exact = λ d e lt. ground (arith, same_entry e lt, h.index.from_exact d e lt);
    to_exact = λ i e lt. ground (arith, same_entry e lt, h.index.to_exact i e lt);
  }

  same_links : (i : InodeId) → links i with_edge ≡ links i s
  unfolding links
  same_links i =
      count_congr (counted with_edge) (counted s) (edges_to i s)
        (λ e m. ground (arith, same_entry e, h.index.to_below i e, h.index.bounded))

  pub insert_other-WellFormed : IsWellFormed due n with_edge
  insert_other-WellFormed = record {
    index = kept-IsIndexed;
    increasing = h.increasing;
    inodes_bounded = h.inodes_bounded;
    dirs_bounded = h.dirs_bounded;
    inodes_vacant = h.inodes_vacant;
    dirs_vacant = h.dirs_vacant;
    link_counts = λ i nd lt at. ground (arith, same_links i, h.link_counts i nd lt at);
    endpoints = λ e d t nm lt at. h.endpoints e d t nm lt (ground (arith, same_entry e lt));
    dotdots = λ e d t nm nd lt at. h.dotdots e d t nm nd lt (ground (arith, same_entry e lt));
  }

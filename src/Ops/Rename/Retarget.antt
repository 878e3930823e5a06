-- ===== src/Ops/Rename/Retarget.antt =====
-- sotfs-ops/src/lib.rs, RENAME: an edge that is led to another inode.
use sotfs.Base.{
  ℕ, ◌<◌, String, true, false, ◌&&◌, some, [], ◌≡◌, ◌∙◌, arith, ◌==◌, str_eq, if◌then◌else◌,
}
use sotfs.Map
use sotfs.Map.{Map, or_default, id_key, entry_key}
use sotfs.Map.Laws.{get-insert, get-adjust}
use sotfs.Map.Sets
use sotfs.Map.Sets.{contains-add, contains-delete, find-passes}
use sotfs.Map.Sets.Order.{
  IsIncreasing, add-IsIncreasing, delete-IsIncreasing, count_congr, count-add_uncounted,
  count-delete_uncounted,
}
use sotfs.Arena
use sotfs.Arena.{to_id}
use sotfs.Types.{EdgeId, DirId, InodeId, Inode, is_directory}
use sotfs.Graph.{node_capacity, edge_capacity}
use sotfs.Graph.Index.{Index, entry, edges_to, IsIndexed}
use sotfs.Graph.Links.{links, counted}
use sotfs.Graph.Links.Nodes.{Nodes, inode_at, IsWellFormed}
use sotfs.Ops.Rename.{set_target}

-- The edge `id` loses its target `old` and gets `new`.
unfoldable pub retarget_edge : EdgeId → InodeId → InodeId → Index → Index
retarget_edge id old new s =
    let incoming = Map.adjust old (Sets.delete id) s.incoming in
    record s {
      edges = Arena.adjust (to_id id) (set_target new) s.edges;
      incoming = Map.insert new (Sets.add id (or_default [] (Map.get new incoming))) incoming;
    }

module _ (id : EdgeId) (src : DirId) (old new : InodeId) (name : String) (s : Index)
    (h : IsIndexed s) (low : id < edge_capacity) (here : entry id s ≡ some (src, old, name)) where
  entry-retarget :
      (j : EdgeId)
      → j < edge_capacity
      → entry j (retarget_edge id old new s)
        ≡ (if id == j then some (src, new, name) else entry j s)
  unfolding entry retarget_edge Arena.get Arena.adjust
  entry-retarget j lt = ground (arith, here)

  edges_to-retarget :
      (i : InodeId)
      → let left = if old == i then Sets.delete id (edges_to i s) else edges_to i s in
        edges_to i (retarget_edge id old new s) ≡ (if new == i then Sets.add id left else left)
  unfolding retarget_edge Sets.delete Sets.add
  edges_to-retarget i = ground (
    arith,
    get-insert new i
        (Sets.add id (or_default [] (Map.get new (Map.adjust old (Sets.delete id) s.incoming))))
        (Map.adjust old (Sets.delete id) s.incoming),
    get-adjust old i (Sets.delete id) s.incoming,
    get-adjust old new (Sets.delete id) s.incoming,
  )

  contains-retarget :
      (i : InodeId) (e : EdgeId)
      → Sets.contains e (edges_to i (retarget_edge id old new s)) ≡ (
          if new == i && id == e
          then true
          else if old == i && id == e
          then false
          else Sets.contains e (edges_to i s))
  contains-retarget i e = ground (
    arith,
    edges_to-retarget i,
    contains-add id e (edges_to i s),
    contains-add id e (Sets.delete id (edges_to i s)),
    contains-delete id e (edges_to i s),
  )

  low_next : id < s.next_edge
  low_next = let (t, below, at) = h.sound src name id (h.complete src old name id low here) in below

  sound_new :
      (d : DirId) (n : String) (e : EdgeId)
      → Map.get (d, n) s.names ≡ some e
      → (t : InodeId) × (e < s.next_edge) × (entry e (retarget_edge id old new s) ≡ some (d, t, n))
  sound_new d n e found =
      let (t, below, at) = h.sound d n e found in
      (if id == e then new else t, below, ground (arith, entry-retarget e, h.bounded, here, at))

  retarget-IsIndexed : IsIndexed (retarget_edge id old new s)
  retarget-IsIndexed = record {
    bounded = unfold retarget_edge in h.bounded;
    vacant = λ e le lt.
        unfold retarget_edge Arena.get Arena.adjust in ground (arith, h.vacant e le lt, low_next);
    sound = unfold retarget_edge in sound_new;
    complete = λ d t n e lt at.
        unfold retarget_edge in
        ground (arith, entry-retarget e, h.complete d t n e, h.complete src old name id, here);
    from_below = unfold retarget_edge in h.from_below;
    to_below = λ i e m.
        unfold retarget_edge in ground (arith, contains-retarget i e, h.to_below i e, low_next);
    from_exact =
        λ d e lt. unfold retarget_edge in ground (arith, entry-retarget e, h.from_exact d e, here);
    to_exact =
        λ i e lt. ground (arith, contains-retarget i e, entry-retarget e, h.to_exact i e, here);
  }

  retarget-IsIncreasing :
      (i : InodeId)
      → IsIncreasing (edges_to i s)
      → IsIncreasing (edges_to i (retarget_edge id old new s))
  retarget-IsIncreasing i up =
      let down = delete-IsIncreasing id (edges_to i s) up in
      ground (
        arith,
        edges_to-retarget i,
        up,
        down,
        add-IsIncreasing id (edges_to i s) up,
        add-IsIncreasing id (Sets.delete id (edges_to i s)) down,
      )

  module _ (dotdot : str_eq name ".." ≡ true) where
    counted_same :
        (e : EdgeId) → e < edge_capacity → counted (retarget_edge id old new s) e ≡ counted s e
    counted_same e lt = ground (arith, entry-retarget e, here, dotdot)

    -- A ".." edge does not count, wherever it leads.
    links-retarget : (i : InodeId) → links i (retarget_edge id old new s) ≡ links i s
    unfolding links
    links-retarget i =
        let p = counted s in
        let xs = edges_to i s in
        count_congr (counted (retarget_edge id old new s)) p
          (edges_to i (retarget_edge id old new s))
          (λ e m.
            counted_same e
              (omega (arith, retarget-IsIndexed.to_below i e m, retarget-IsIndexed.bounded)))
        ∙ ground (
          arith,
          edges_to-retarget i,
          here,
          dotdot,
          count-add_uncounted p id xs,
          count-add_uncounted p id (Sets.delete id xs),
          count-delete_uncounted p id xs,
        )

module _ {due : InodeId → ℕ} (n : Nodes) (s : Index) (h : IsWellFormed due n s) (id : EdgeId)
    (src : DirId) (old new : InodeId) (name : String) (low : id < edge_capacity)
    (here : entry id s ≡ some (src, old, name)) (dotdot : str_eq name ".." ≡ true) (parent : Inode)
    (new_low : new < node_capacity) (new_there : inode_at new n ≡ some parent)
    (new_dir : is_directory parent.vtype ≡ true) where
  -- A ".." edge may be led to the inode of another directory.
  pub retarget-WellFormed : IsWellFormed due n (retarget_edge id old new s)
  retarget-WellFormed = record {
    index = retarget-IsIndexed id src old new name s h.index low here;
    increasing =
        λ i. retarget-IsIncreasing id src old new name s h.index low here i (h.increasing i);
    inodes_bounded = h.inodes_bounded;
    dirs_bounded = h.dirs_bounded;
    inodes_vacant = h.inodes_vacant;
    dirs_vacant = h.dirs_vacant;
    link_counts = λ i inode lt at. omega (
      arith,
      h.link_counts i inode lt at,
      links-retarget id src old new name s h.index low here dotdot i,
    );
    endpoints = λ e d t nm lt at. ground (
      arith,
      entry-retarget id src old new name s h.index low here e,
      h.endpoints e d t nm,
      h.endpoints id src old name low here,
      new_there,
    );
    dotdots = λ e d t nm inode lt at up there. ground (
      arith,
      entry-retarget id src old new name s h.index low here e,
      h.dotdots e d t nm inode,
      new_there,
    );
  }

-- ===== src/Graph/Index/Drop.antt =====
-- graph.rs: a `Contains` edge taken out of the pool and of the indexes.
use sotfs.Base.{
  ◌<◌, String, false, ◌&&◌, none, some, ◌≡◌, arith, ◌==◌, eq_iff, str_eq, if◌then◌else◌,
}
use sotfs.Map
use sotfs.Map.{Map, or_default, id_key, entry_key}
use sotfs.Map.Laws.{get-remove, get-adjust}
use sotfs.Map.Sets
use sotfs.Map.Sets.{contains-delete}
use sotfs.Arena
use sotfs.Arena.{to_id}
use sotfs.Types.{Edge, EdgeId, DirId, InodeId}
use sotfs.Graph.{TypeGraph, edge_capacity, get_edge, remove_edge, drop_outgoing, drop_incoming}
use sotfs.Graph.Index.{Index, index_of, entry, edges_from, edges_to, IsIndexed}

-- The removal of the edge `id`, which runs from `src` to `tgt` under `name`.
unfoldable pub cut_edge : EdgeId → DirId → InodeId → String → Index → Index
cut_edge id src tgt name s = record {
  edges = (Arena.remove (to_id id) s.edges).1;
  names = Map.remove (src, name) s.names;
  outgoing = Map.adjust src (Sets.delete id) s.outgoing;
  incoming = Map.adjust tgt (Sets.delete id) s.incoming;
  next_edge = s.next_edge;
}

pub index_of-remove_edge :
    (id eid : EdgeId) (src : DirId) (tgt : InodeId) (name : String) (g : TypeGraph)
    → get_edge id g ≡ some (Edge.contains eid src tgt name)
    → index_of (drop_incoming tgt id (drop_outgoing src id (remove_edge id g).1))
      ≡ cut_edge id src tgt name (index_of g)
unfolding cut_edge get_edge remove_edge drop_outgoing drop_incoming Arena.get Arena.remove
index_of-remove_edge id eid src tgt name g h = ground arith

module _ (id : EdgeId) (src : DirId) (tgt : InodeId) (name : String) (s : Index) (h : IsIndexed s)
    (low : id < edge_capacity) (here : entry id s ≡ some (src, tgt, name)) where
  pub entry-cut_edge :
      (j : EdgeId)
      → j < edge_capacity
      → entry j (cut_edge id src tgt name s) ≡ (if id == j then none else entry j s)
  unfolding entry cut_edge Arena.get Arena.remove
  entry-cut_edge j k = ground arith

  names-cut_edge :
      (d : DirId) (n : String)
      → Map.get (d, n) (cut_edge id src tgt name s).names
        ≡ (if src == d && str_eq name n then none else Map.get (d, n) s.names)
  unfolding cut_edge
  names-cut_edge d n = get-remove (src, name) (d, n) s.names

  edges_from-cut_edge :
      (d : DirId) (e : EdgeId)
      → Sets.contains e (edges_from d (cut_edge id src tgt name s))
        ≡ (if src == d && id == e then false else Sets.contains e (edges_from d s))
  unfolding cut_edge Sets.contains
  edges_from-cut_edge d e =
      ground
        (arith, get-adjust src d (Sets.delete id) s.outgoing, contains-delete id e (edges_from d s))

  pub edges_to-cut :
      (i : InodeId)
      → edges_to i (cut_edge id src tgt name s)
        ≡ (if tgt == i then Sets.delete id (edges_to i s) else edges_to i s)
  unfolding cut_edge Sets.delete
  edges_to-cut i = ground (arith, get-adjust tgt i (Sets.delete id) s.incoming)

  pub edges_to-cut_edge :
      (i : InodeId) (e : EdgeId)
      → Sets.contains e (edges_to i (cut_edge id src tgt name s))
        ≡ (if tgt == i && id == e then false else Sets.contains e (edges_to i s))
  unfolding cut_edge Sets.contains
  edges_to-cut_edge i e =
      ground
        (arith, get-adjust tgt i (Sets.delete id) s.incoming, contains-delete id e (edges_to i s))

  sound_cut :
      (d : DirId) (n : String) (e : EdgeId)
      → Map.get (d, n) (cut_edge id src tgt name s).names ≡ some e
      → (t : InodeId) × (e < s.next_edge) × (entry e (cut_edge id src tgt name s) ≡ some (d, t, n))
  sound_cut d n e found =
      let (t, below, at) = h.sound d n e (ground (arith, names-cut_edge d n)) in
      (
        t,
        below,
        ground (arith, names-cut_edge d n, entry-cut_edge e, h.bounded, eq_iff name n, here),
      )

  complete_cut :
      (d : DirId) (t : InodeId) (n : String) (e : EdgeId)
      → e < edge_capacity
      → entry e (cut_edge id src tgt name s) ≡ some (d, t, n)
      → Map.get (d, n) (cut_edge id src tgt name s).names ≡ some e
  complete_cut d t n e lt at = ground (
    arith,
    names-cut_edge d n,
    entry-cut_edge e,
    h.complete d t n e,
    h.complete src tgt name id,
    here,
    eq_iff name n,
  )

  -- The removal of an edge of the pool keeps the invariant.
  pub cut_edge-IsIndexed : IsIndexed (cut_edge id src tgt name s)
  cut_edge-IsIndexed = record {
    bounded = unfold cut_edge in h.bounded;
    vacant = λ e le lt. unfold cut_edge Arena.get Arena.remove in ground (arith, h.vacant e le lt);
    sound = unfold cut_edge in sound_cut;
    complete = complete_cut;
    from_below =
        λ d e m. unfold cut_edge in ground (arith, edges_from-cut_edge d e, h.from_below d e);
    to_below = λ i e m. unfold cut_edge in ground (arith, edges_to-cut_edge i e, h.to_below i e);
    from_exact =
        λ d e lt. ground (arith, edges_from-cut_edge d e, entry-cut_edge e, h.from_exact d e, here);
    to_exact =
        λ i e lt. ground (arith, edges_to-cut_edge i e, entry-cut_edge e, h.to_exact i e, here);
  }

-- ===== src/Graph/Index/Add.antt =====
-- graph.rs: a new `Contains` edge in the pool and in the indexes.
use sotfs.Base.{
  ◌<◌, String, ◌&&◌, none, some, ◌≡◌, refl, arith, ◌==◌, eq_iff, str_eq, Bool-cases, inl, inr,
  if◌then◌else◌,
}
use sotfs.Map
use sotfs.Map.{Map, or_default, id_key, entry_key}
use sotfs.Map.Laws.{get-insert}
use sotfs.Map.Sets
use sotfs.Map.Sets.{contains-add, contains-delete}
use sotfs.Arena
use sotfs.Arena.{to_id}
use sotfs.Types.{Edge, EdgeId, DirId, InodeId}
use sotfs.Graph.{TypeGraph, edge_capacity, add_contains, bump}
use sotfs.Graph.Index.{Index, index_of, entry, edges_from, edges_to, IsIndexed}

-- `add_contains`, as far as the index goes.
unfoldable pub link_edge : EdgeId → DirId → InodeId → String → Index → Index
link_edge id src tgt name s = record {
  edges = (Arena.insert_at (to_id id) (Edge.contains id src tgt name) s.edges).1;
  names = Map.insert (src, name) id s.names;
  outgoing = Map.insert src (Sets.add id (edges_from src s)) s.outgoing;
  incoming = Map.insert tgt (Sets.add id (edges_to tgt s)) s.incoming;
  next_edge = s.next_edge;
}

pub index_of-add_contains :
    (id : EdgeId) (src : DirId) (tgt : InodeId) (name : String) (g : TypeGraph)
    → index_of (add_contains id src tgt name g) ≡ link_edge id src tgt name (index_of g)
unfolding link_edge add_contains
index_of-add_contains id src tgt name g = refl

-- The allocator's step keeps the invariant while an id is left.
pub bump-IsIndexed :
    (s : Index)
    → IsIndexed s
    → s.next_edge < edge_capacity
    → IsIndexed (record s { next_edge = bump s.next_edge })
unfolding entry
bump-IsIndexed s h room = record {
  bounded = omega arith;
  vacant = λ e le lt. h.vacant e (omega arith) lt;
  sound = λ d n e found. let (t, below, at) = h.sound d n e found in (t, omega arith, at);
  complete = h.complete;
  from_below = λ d e m. omega (arith, h.from_below d e m);
  to_below = λ i e m. omega (arith, h.to_below i e m);
  from_exact = h.from_exact;
  to_exact = h.to_exact;
}

module _ (id : EdgeId) (src : DirId) (tgt : InodeId) (name : String) (s : Index) where
  pub entry-link_edge :
      (j : EdgeId)
      → id < edge_capacity
      → j < edge_capacity
      → Arena.get (to_id id) s.edges ≡ none
      → entry j (link_edge id src tgt name s)
        ≡ (if id == j then some (src, tgt, name) else entry j s)
  unfolding entry link_edge Arena.get Arena.insert_at
  entry-link_edge j h k v = ground arith

  pub edges_from-link_edge :
      (d : DirId)
      → edges_from d (link_edge id src tgt name s)
        ≡ (if src == d then Sets.add id (edges_from d s) else edges_from d s)
  unfolding link_edge
  edges_from-link_edge d =
      ground (arith, get-insert src d (Sets.add id (edges_from src s)) s.outgoing)

  pub edges_to-link_edge :
      (i : InodeId)
      → edges_to i (link_edge id src tgt name s)
        ≡ (if tgt == i then Sets.add id (edges_to i s) else edges_to i s)
  unfolding link_edge
  edges_to-link_edge i = ground (arith, get-insert tgt i (Sets.add id (edges_to tgt s)) s.incoming)

  module _ (h : IsIndexed s) (low : id < s.next_edge) (fresh : Arena.get (to_id id) s.edges ≡ none)
      (unnamed : Map.get (src, name) s.names ≡ none) where
    in_range : id < edge_capacity
    in_range = omega (arith, h.bounded, low)

    no_entry : entry id s ≡ none
    unfolding entry
    no_entry = rw fresh

    names-link_edge :
        (d : DirId) (n : String)
        → Map.get (d, n) (link_edge id src tgt name s).names
          ≡ (if src == d && str_eq name n then some id else Map.get (d, n) s.names)
    unfolding link_edge
    names-link_edge d n = get-insert (src, name) (d, n) id s.names

    entry-here :
        (j : EdgeId)
        → j < edge_capacity
        → entry j (link_edge id src tgt name s)
          ≡ (if id == j then some (src, tgt, name) else entry j s)
    entry-here j k = entry-link_edge j in_range k fresh

    sound_new :
        (d : DirId) (n : String) (e : EdgeId)
        → Map.get (d, n) (link_edge id src tgt name s).names ≡ some e
        → (t : InodeId) × (e < s.next_edge)
          × (entry e (link_edge id src tgt name s) ≡ some (d, t, n))
    sound_new d n e found = elim (Bool-cases (src == d && str_eq name n)) [
      | inl same ↦ (
        tgt,
        ground (arith, names-link_edge d n),
        ground (arith, names-link_edge d n, entry-here e, in_range, eq_iff name n),
      )
      | inr other ↦
          let (t, below, at) = h.sound d n e (ground (arith, names-link_edge d n)) in
          (t, below, ground (arith, entry-here e, h.bounded, no_entry))
    ]

    complete_new :
        (d : DirId) (t : InodeId) (n : String) (e : EdgeId)
        → e < edge_capacity
        → entry e (link_edge id src tgt name s) ≡ some (d, t, n)
        → Map.get (d, n) (link_edge id src tgt name s).names ≡ some e
    complete_new d t n e lt at =
        ground (arith, names-link_edge d n, entry-here e, h.complete d t n e, eq_iff name n)

    -- A new edge under a free name, in a vacant slot below the counter, keeps the invariant.
    pub link_edge-IsIndexed : IsIndexed (link_edge id src tgt name s)
    link_edge-IsIndexed = record {
      bounded = unfold link_edge in h.bounded;
      vacant =
          λ e le lt. unfold link_edge Arena.get Arena.insert_at in ground (arith, h.vacant e le lt);
      sound = unfold link_edge in sound_new;
      complete = complete_new;
      from_below = λ d e m.
          unfold link_edge in
          ground
            (arith, edges_from-link_edge d, h.from_below d e, contains-add id e (edges_from d s));
      to_below = λ i e m.
          unfold link_edge in
          ground (arith, edges_to-link_edge i, h.to_below i e, contains-add id e (edges_to i s));
      from_exact = λ d e lt. ground (
        arith,
        edges_from-link_edge d,
        entry-here e,
        h.from_exact d e,
        contains-add id e (edges_from d s),
        no_entry,
      );
      to_exact = λ i e lt. ground (
        arith,
        edges_to-link_edge i,
        entry-here e,
        h.to_exact i e,
        contains-add id e (edges_to i s),
        no_entry,
      );
    }

-- ===== src/Graph/Index/Rename.antt =====
-- graph.rs, `rename_contains_edge`: a new name for an edge, in place.
use sotfs.Base.{
  ◌<◌, String, false, ◌&&◌, none, some, ◌≡◌, arith, ◌==◌, eq_iff, str_eq, Bool-cases, inl, inr,
  if◌then◌else◌,
}
use sotfs.Map
use sotfs.Map.{Map, id_key, entry_key}
use sotfs.Map.Laws.{get-remove, get-insert}
use sotfs.Arena
use sotfs.Arena.{to_id}
use sotfs.Types.{Edge, EdgeId, DirId, InodeId}
use sotfs.Graph.{TypeGraph, edge_capacity, get_edge, adjust_edge}
use sotfs.Graph.Names.{set_name, rename_contains_edge}
use sotfs.Graph.Index.{Index, index_of, entry, IsIndexed}

-- `rename_contains_edge`, as far as the index goes, where the name changes.
unfoldable pub relabel : EdgeId → DirId → String → String → Index → Index
relabel id src old new s = record s {
  edges = Arena.adjust (to_id id) (set_name new) s.edges;
  names = Map.insert (src, new) id (Map.remove (src, old) s.names);
}

pub index_of-rename_contains_edge :
    (id eid : EdgeId) (src : DirId) (tgt : InodeId) (old new : String) (g : TypeGraph)
    → get_edge id g ≡ some (Edge.contains eid src tgt old)
    → str_eq old new ≡ false
    → index_of (rename_contains_edge id new g).1 ≡ relabel id src old new (index_of g)
unfolding relabel get_edge rename_contains_edge adjust_edge
index_of-rename_contains_edge id eid src tgt old new g h ne = ground arith

module _ (id : EdgeId) (src : DirId) (tgt : InodeId) (old new : String) (s : Index)
    (h : IsIndexed s) (low : id < edge_capacity) (here : entry id s ≡ some (src, tgt, old))
    (free : Map.get (src, new) s.names ≡ none) where
  pub entry-relabel :
      (j : EdgeId)
      → j < edge_capacity
      → entry j (relabel id src old new s) ≡ (if id == j then some (src, tgt, new) else entry j s)
  unfolding entry relabel Arena.get Arena.adjust
  entry-relabel j k = ground (arith, here)

  names-relabel :
      (d : DirId) (n : String)
      → Map.get (d, n) (relabel id src old new s).names ≡ (
          if src == d && str_eq new n
          then some id
          else if src == d && str_eq old n
          then none
          else Map.get (d, n) s.names)
  unfolding relabel
  names-relabel d n = ground (
    arith,
    get-insert (src, new) (d, n) id (Map.remove (src, old) s.names),
    get-remove (src, old) (d, n) s.names,
  )

  low_next : id < s.next_edge
  low_next = let (t, below, at) = h.sound src old id (h.complete src tgt old id low here) in below

  sound_new :
      (d : DirId) (n : String) (e : EdgeId)
      → Map.get (d, n) (relabel id src old new s).names ≡ some e
      → (t : InodeId) × (e < s.next_edge) × (entry e (relabel id src old new s) ≡ some (d, t, n))
  sound_new d n e found = elim (Bool-cases (src == d && str_eq new n)) [
    | inl same ↦ (
      tgt,
      ground (arith, names-relabel d n, low_next),
      ground (arith, names-relabel d n, entry-relabel e, low, eq_iff new n),
    )
    | inr other ↦
        let (t, below, at) = h.sound d n e (ground (arith, names-relabel d n)) in
        (
          t,
          below,
          ground (arith, names-relabel d n, entry-relabel e, h.bounded, here, eq_iff old n),
        )
  ]

  complete_new :
      (d : DirId) (t : InodeId) (n : String) (e : EdgeId)
      → e < edge_capacity
      → entry e (relabel id src old new s) ≡ some (d, t, n)
      → Map.get (d, n) (relabel id src old new s).names ≡ some e
  complete_new d t n e lt at = ground (
    arith,
    names-relabel d n,
    entry-relabel e,
    h.complete d t n e,
    h.complete src tgt old id,
    here,
    eq_iff new n,
    eq_iff old n,
  )

  -- A new name that is free in the directory keeps the invariant.
  pub relabel-IsIndexed : IsIndexed (relabel id src old new s)
  relabel-IsIndexed = record {
    bounded = unfold relabel in h.bounded;
    vacant = λ e le lt.
        unfold relabel Arena.get Arena.adjust in ground (arith, h.vacant e le lt, low_next);
    sound = unfold relabel in sound_new;
    complete = complete_new;
    from_below = unfold relabel in h.from_below;
    to_below = unfold relabel in h.to_below;
    from_exact =
        λ d e lt. unfold relabel in ground (arith, entry-relabel e, h.from_exact d e, here);
    to_exact = λ i e lt. unfold relabel in ground (arith, entry-relabel e, h.to_exact i e, here);
  }

-- ===== src/Graph/Index/Update.antt =====
-- graph.rs: the index as a finite map from directories and names to inodes, under the changes that
-- the operations make to it.
use sotfs.Base.{
  ◌<◌, String, Bool, false, ◌&&◌, none, some, ◌≡◌, arith, ◌==◌, eq_iff, str_eq, if◌then◌else◌,
  Option-cases, Bool-cases, inl, inr,
}
use sotfs.Map
use sotfs.Map.{id_key, entry_key}
use sotfs.Map.Laws.{get-insert, get-remove}
use sotfs.Arena
use sotfs.Arena.{to_id}
use sotfs.Types.{DirId, InodeId, EdgeId}
use sotfs.Graph.{edge_capacity}
use sotfs.Graph.Index.{Index, entry, IsIndexed}
use sotfs.Graph.Index.Add.{link_edge, entry-link_edge}
use sotfs.Graph.Index.Drop.{cut_edge, entry-cut_edge}
use sotfs.Graph.Index.Resolve.{meaning}

module _ (id : EdgeId) (src : DirId) (tgt : InodeId) (name : String) (s : Index)
    (h : IsIndexed s) where
  -- A new edge adds its own entry to the map.
  pub meaning-link_edge :
      id < s.next_edge
      → Arena.get (to_id id) s.edges ≡ none
      → (d : DirId) (n : String)
      → meaning d n (link_edge id src tgt name s)
        ≡ (if src == d && str_eq name n then some tgt else meaning d n s)
  unfolding meaning link_edge
  meaning-link_edge low fresh d n = elim (Option-cases (Map.get (d, n) s.names)) [
    | inl free ↦ ground (
      arith,
      get-insert (src, name) (d, n) id s.names,
      entry-link_edge id src tgt name s id,
      h.bounded,
      free,
    )
    | inr (e, at) ↦
        let (t, below, here) = h.sound d n e at in
        let other : (id == e) ≡ false = unfold entry in ground (arith, here, fresh) in
        ground (
          arith,
          get-insert (src, name) (d, n) id s.names,
          entry-link_edge id src tgt name s id,
          entry-link_edge id src tgt name s e,
          h.bounded,
          at,
          here,
          other,
        )
  ]

  -- The removal of an edge takes its entry out of the map.
  pub meaning-cut_edge :
      (low : id < edge_capacity)
      → entry id s ≡ some (src, tgt, name)
      → (d : DirId) (n : String)
      → meaning d n (cut_edge id src tgt name s)
        ≡ (if src == d && str_eq name n then none else meaning d n s)
  unfolding meaning cut_edge
  meaning-cut_edge low here d n = elim (Option-cases (Map.get (d, n) s.names)) [
    | inl free ↦ ground (arith, get-remove (src, name) (d, n) s.names, free)
    | inr (e, at) ↦
        let (t, below, there) = h.sound d n e at in
        ground (
          arith,
          get-remove (src, name) (d, n) s.names,
          entry-cut_edge id src tgt name s h low here e,
          h.bounded,
          at,
          there,
          here,
          eq_iff name n,
        )
  ]

-- Two exact indexes over the same edges give the names the same meaning.
pub meaning_congr :
    (s s' : Index)
    → IsIndexed s
    → IsIndexed s'
    → ((e : EdgeId) → e < edge_capacity → entry e s' ≡ entry e s)
    → (d : DirId) (n : String) → meaning d n s' ≡ meaning d n s
unfolding meaning
meaning_congr s s' h h' same d n = elim (Option-cases (Map.get (d, n) s.names)) [
  | inl free ↦ elim (Option-cases (Map.get (d, n) s'.names)) [
    | inl free' ↦ ground (arith, free, free')
    | inr (e, at) ↦
        let (t, below, here) = h'.sound d n e at in
        ground (arith, free, h'.bounded, same e, here, h.complete d t n e)
  ]
  | inr (e, at) ↦
      let (t, below, here) = h.sound d n e at in
      ground (arith, at, here, h.bounded, same e, h'.complete d t n e)
]

-- The edges that pass `gone` are taken away: the names that `removes` picks out go, and no other.
pub meaning_removed :
    (s s' : Index) (gone : EdgeId → Bool) (removes : DirId → String → Bool)
    → IsIndexed s
    → IsIndexed s'
    → ((e : EdgeId) → e < edge_capacity → entry e s' ≡ (if gone e then none else entry e s))
    → ((e : EdgeId) (d : DirId) (t : InodeId) (n : String)
        → e < edge_capacity
        → entry e s ≡ some (d, t, n)
        → gone e ≡ removes d n)
    → (d : DirId) (n : String) → meaning d n s' ≡ (if removes d n then none else meaning d n s)
unfolding meaning
meaning_removed s s' gone removes h h' left picks d n =
    elim (Option-cases (Map.get (d, n) s.names)) [
      | inl free ↦ elim (Option-cases (Map.get (d, n) s'.names)) [
        | inl free' ↦ ground (arith, free, free')
        | inr (e, at) ↦
            let (t, below, here) = h'.sound d n e at in
            absurd (ground (arith, left e, h.complete d t n e, h'.bounded))
      ]
      | inr (e, at) ↦
          let (t, below, here) = h.sound d n e at in
          let lt : e < edge_capacity = omega (arith, h.bounded) in
          elim (Bool-cases (removes d n)) [
            | inl out ↦ elim (Option-cases (Map.get (d, n) s'.names)) [
              | inl free' ↦ ground (arith, at, out, free')
              | inr (e', at') ↦
                  let (t', below', here') = h'.sound d n e' at' in
                  absurd (
                    ground (arith, left e', h.complete d t' n e', h'.bounded, picks e' d t' n, out))
            ]
            | inr kept ↦
                ground
                  (arith, at, here, kept, left e lt, picks e d t n lt here, h'.complete d t n e lt)
          ]
    ]

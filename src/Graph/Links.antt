-- ===== src/Graph/Links.antt =====
-- graph.rs, `check_link_count_consistency`: the link count of an inode is the number of edges that
-- enter it under a name other than "..". How that number changes with the edges.
pub mod Nodes
use sotfs.Base.{
  ℕ, suc, ◌+◌, ◌<◌, ◌≤◌, String, Bool, true, false, ◌&&◌, not, Option, none, some, List, [], ◌≡◌,
  refl, arith, ltb, leb, ◌==◌, is_some, eq_iff, str_eq, count, if◌then◌else◌, Bool-cases, inl, inr,
}
use sotfs.Map
use sotfs.Map.{Map, or_default, id_key, entry_key}
use sotfs.Map.Laws.{get-insert, get-adjust}
use sotfs.Map.Sets
use sotfs.Map.Sets.{contains-add, contains-delete, count-add}
use sotfs.Map.Sets.Order.{
  IsIncreasing, add-IsIncreasing, delete-IsIncreasing, count-delete, count_congr,
}
use sotfs.Arena
use sotfs.Arena.{to_id}
use sotfs.Types.{EdgeId, DirId, InodeId}
use sotfs.Graph.{edge_capacity}
use sotfs.Graph.Index.{Index, entry, edges_to, enters, IsIndexed}
use sotfs.Graph.Index.Add.{link_edge, entry-link_edge, edges_to-link_edge}
use sotfs.Graph.Index.Drop.{cut_edge, entry-cut_edge, edges_to-cut_edge, edges_to-cut}
use sotfs.Graph.Index.Rename.{relabel, entry-relabel}

-- `Some(Edge::Contains { name, .. }) if name != ".."`
abbrev pub is_link : Option (DirId × InodeId × String) → Bool
is_link none = false
is_link (some (src, tgt, name)) = not (str_eq name "..")

abbrev pub counted : Index → EdgeId → Bool
counted s e = is_link (entry e s)

unfoldable pub links : InodeId → Index → ℕ
links i s = count (counted s) (edges_to i s)

abbrev pub one_if : Bool → ℕ
one_if true = 1
one_if false = 0

module _ (id : EdgeId) (src : DirId) (tgt : InodeId) (name : String) (s : Index)
    (h : IsIndexed s) where
  module _ (low : id < s.next_edge) (fresh : Arena.get (to_id id) s.edges ≡ none) where
    in_range :
        (i : InodeId) (e : EdgeId) → Sets.contains e (edges_to i s) ≡ true → e < edge_capacity
    in_range i e m = omega (arith, h.bounded, h.to_below i e m)

    absent : (i : InodeId) → Sets.contains id (edges_to i s) ≡ false
    unfolding entry
    absent i = ground (arith, h.to_exact i id, h.bounded)

    entry-old :
        (i : InodeId) (e : EdgeId)
        → Sets.contains e (edges_to i s) ≡ true
        → counted (link_edge id src tgt name s) e ≡ counted s e
    entry-old i e m =
        ground (arith, entry-link_edge id src tgt name s e, h.bounded, in_range i e, absent i)

    entry-new : counted (link_edge id src tgt name s) id ≡ not (str_eq name "..")
    entry-new = ground (arith, entry-link_edge id src tgt name s id, h.bounded)

    -- A new edge counts for its target alone, and not under "..".
    pub links-link_edge :
        (i : InodeId)
        → links i (link_edge id src tgt name s)
          ≡ links i s + one_if (tgt == i && not (str_eq name ".."))
    unfolding links
    links-link_edge i =
        let p = counted (link_edge id src tgt name s) in
        ground (
          arith,
          edges_to-link_edge id src tgt name s i,
          count-add p id (edges_to i s) (absent i),
          count_congr p (counted s) (edges_to i s) (entry-old i),
          entry-new,
        )

  module _ (low : id < edge_capacity) (here : entry id s ≡ some (src, tgt, name)) where
    target_has : Sets.contains id (edges_to tgt s) ≡ true
    target_has = ground (arith, h.to_exact tgt id)

    entry-kept :
        (i : InodeId) (e : EdgeId)
        → Sets.contains e (edges_to i (cut_edge id src tgt name s)) ≡ true
        → counted (cut_edge id src tgt name s) e ≡ counted s e
    entry-kept i e m = ground (
      arith,
      entry-cut_edge id src tgt name s h low here e,
      edges_to-cut_edge id src tgt name s h low here i e,
      h.to_below i e,
      h.bounded,
      h.to_exact i e,
    )

    -- The removal of an edge takes one off the count of its target, unless the edge is a "..".
    pub links-cut_edge :
        (i : InodeId)
        → IsIncreasing (edges_to i s)
        → links i s
          ≡ links i (cut_edge id src tgt name s) + one_if (tgt == i && not (str_eq name ".."))
    unfolding links
    links-cut_edge i up =
        let c = cut_edge id src tgt name s in
        ground (
          arith,
          edges_to-cut id src tgt name s h low here i,
          count-delete (counted s) id (edges_to i s) up,
          count_congr (counted c) (counted s) (edges_to i c) (entry-kept i),
          here,
          target_has,
        )

module _ (id : EdgeId) (src : DirId) (tgt : InodeId) (old new : String) (s : Index)
    (h : IsIndexed s) (low : id < edge_capacity) (here : entry id s ≡ some (src, tgt, old))
    (free : Map.get (src, new) s.names ≡ none) where
  same_kind :
      str_eq old ".." ≡ str_eq new ".."
      → (i : InodeId) (e : EdgeId) → Sets.contains e (edges_to i s) ≡ true
      → counted (relabel id src old new s) e ≡ counted s e
  same_kind kind i e m =
      ground (
        arith,
        entry-relabel id src tgt old new s h low here free e,
        h.to_below i e,
        h.bounded,
        here,
      )

  -- A new name changes no count, if both or neither of the names are "..".
  pub links-relabel :
      (i : InodeId)
      → str_eq old ".." ≡ str_eq new ".."
      → links i (relabel id src old new s) ≡ links i s
  unfolding links relabel
  links-relabel i kind =
      count_congr (counted (relabel id src old new s)) (counted s) (edges_to i s) (same_kind kind i)

module _ (id : EdgeId) (src : DirId) (tgt : InodeId) (name : String) (s : Index) where
  pub link_edge-IsIncreasing :
      (i : InodeId)
      → IsIncreasing (edges_to i s)
      → IsIncreasing (edges_to i (link_edge id src tgt name s))
  link_edge-IsIncreasing i up =
      ground (arith, edges_to-link_edge id src tgt name s i, add-IsIncreasing id (edges_to i s) up)

  pub cut_edge-IsIncreasing :
      IsIndexed s
      → id < edge_capacity
      → entry id s ≡ some (src, tgt, name)
      → (i : InodeId) → IsIncreasing (edges_to i s)
      → IsIncreasing (edges_to i (cut_edge id src tgt name s))
  cut_edge-IsIncreasing h low here i up =
      ground (
        arith,
        edges_to-cut id src tgt name s h low here i,
        delete-IsIncreasing id (edges_to i s) up,
      )

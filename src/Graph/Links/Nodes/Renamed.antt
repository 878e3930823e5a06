-- ===== src/Graph/Links/Nodes/Renamed.antt =====
-- graph.rs, `rename_contains_edge`: an edge takes a new name in place.
use sotfs.Base.{◌<◌, String, true, false, none, some, ◌≡◌, sym, arith, str_eq, Bool-cases, inl, inr}
use mathlib.Core.Path.{subst₂}
use sotfs.Map
use sotfs.Map.{entry_key}
use sotfs.Types.{EdgeId, DirId, InodeId, Edge}
use sotfs.Graph.{TypeGraph, edge_capacity, get_edge, adjust_edge}
use sotfs.Graph.Names.{rename_contains_edge}
use sotfs.Graph.Index.{index_of, entry}
use sotfs.Graph.Index.Rename.{index_of-rename_contains_edge}
use sotfs.Graph.Links.Nodes.{nodes_of, IsWellFormed, WellFormed, settled}
use sotfs.Graph.Links.Nodes.Edges.{relabel-WellFormed}

module _ (g : TypeGraph) (h : WellFormed g) (eid i : EdgeId) (src : DirId) (tgt : InodeId)
    (old new : String) (low : eid < edge_capacity)
    (at : get_edge eid g ≡ some (Edge.contains i src tgt old)) where
  same_nodes : nodes_of (rename_contains_edge eid new g).1 ≡ nodes_of g
  unfolding rename_contains_edge adjust_edge
  same_nodes = ground (arith, at)

  unchanged : str_eq old new ≡ true → (rename_contains_edge eid new g).1 ≡ g
  unfolding rename_contains_edge
  unchanged same = ground (arith, at, same)

  -- Giving an edge a new name in place keeps a well-formed graph well-formed, where the new name is
  -- free in the directory and neither name is "..".
  pub rename_contains_edge-WellFormed :
      Map.get (src, new) g.dir_name_idx ≡ none
      → str_eq old ".." ≡ false
      → str_eq new ".." ≡ false
      → WellFormed (rename_contains_edge eid new g).1
  unfolding entry get_edge
  rename_contains_edge-WellFormed free plain plain' = elim (Bool-cases (str_eq old new)) [
    | inl same ↦ rw (unchanged same) h
    | inr other ↦
        subst₂ (IsWellFormed settled) (sym same_nodes)
          (sym (index_of-rename_contains_edge eid i src tgt old new g at other))
          (relabel-WellFormed (index_of g) h eid src tgt old new low (ground (arith, at)) free
            (ground (arith, plain, plain')))
  ]

-- ===== src/Graph/Index.antt =====
-- graph.rs: the `Contains` edges and the three indexes over them, cut out of the graph, and the
-- invariant that joins them: `dir_name_idx`, `dir_contains` and `inode_incoming_contains` hold
-- exactly the edges that the pool holds.
pub mod Add
pub mod Drop
pub mod Rename
pub mod Resolve
pub mod Update
use sotfs.Base.{
  ℕ, ◌+◌, ◌%◌, ◌^◌, ◌<◌, ◌≤◌, String, Bool, true, false, Option, none, some, List, [], ◌∷◌, ◌≡◌,
  refl, ◌==◌, if◌then◌else◌,
}
use sotfs.Map
use sotfs.Map.{Map, or_default, id_key, entry_key}
use sotfs.Map.Sets
use sotfs.Map.Sets.{IdSet}
use sotfs.Arena
use sotfs.Arena.{Arena, to_id}
use sotfs.Types.{Edge, EdgeId, DirId, InodeId}
use sotfs.Graph.{TypeGraph, edge_capacity}

pub record Index : Type 0 where
  pub edges : Arena Edge edge_capacity
  pub names : Map (DirId × String) EdgeId
  pub outgoing : Map DirId IdSet
  pub incoming : Map InodeId IdSet
  pub next_edge : ℕ

abbrev pub index_of : TypeGraph → Index
index_of g = record {
  edges = g.edges;
  names = g.dir_name_idx;
  outgoing = g.dir_contains;
  incoming = g.inode_incoming_contains;
  next_edge = g.next_edge;
}

-- Source, target and name of a `Contains` edge.
abbrev pub entry_of : Option Edge → Option (DirId × InodeId × String)
entry_of (some (Edge.contains _ src tgt name)) = some (src, tgt, name)
entry_of (some (Edge.grants _ _ _ _)) = none
entry_of (some (Edge.delegates _ _ _)) = none
entry_of (some (Edge.derived_from _ _ _)) = none
entry_of (some (Edge.supersedes _ _ _)) = none
entry_of (some (Edge.points_to _ _ _ _)) = none
entry_of (some (Edge.has_xattr _ _ _)) = none
entry_of none = none

unfoldable pub entry : EdgeId → Index → Option (DirId × InodeId × String)
entry e s = entry_of (Arena.get (to_id e) s.edges)

abbrev pub leaves : DirId → Option (DirId × InodeId × String) → Bool
leaves d none = false
leaves d (some (src, tgt, name)) = src == d

abbrev pub enters : InodeId → Option (DirId × InodeId × String) → Bool
enters i none = false
enters i (some (src, tgt, name)) = tgt == i

abbrev pub edges_from : DirId → Index → IdSet
edges_from d s = or_default [] (Map.get d s.outgoing)

abbrev pub edges_to : InodeId → Index → IdSet
edges_to i s = or_default [] (Map.get i s.incoming)

pub record IsIndexed (s : Index) : Type 0 where
  pub bounded : s.next_edge ≤ edge_capacity
  pub vacant :
      (e : EdgeId) → s.next_edge ≤ e → e < edge_capacity → Arena.get (to_id e) s.edges ≡ none
  pub sound :
      (d : DirId) (n : String) (e : EdgeId)
      → Map.get (d, n) s.names ≡ some e
      → (t : InodeId) × (e < s.next_edge) × (entry e s ≡ some (d, t, n))
  pub complete :
      (d : DirId) (t : InodeId) (n : String) (e : EdgeId)
      → e < edge_capacity
      → entry e s ≡ some (d, t, n)
      → Map.get (d, n) s.names ≡ some e
  pub from_below :
      (d : DirId) (e : EdgeId) → Sets.contains e (edges_from d s) ≡ true → e < s.next_edge
  pub to_below :
      (i : InodeId) (e : EdgeId) → Sets.contains e (edges_to i s) ≡ true → e < s.next_edge
  pub from_exact :
      (d : DirId) (e : EdgeId)
      → e < edge_capacity
      → Sets.contains e (edges_from d s) ≡ leaves d (entry e s)
  pub to_exact :
      (i : InodeId) (e : EdgeId)
      → e < edge_capacity
      → Sets.contains e (edges_to i s) ≡ enters i (entry e s)

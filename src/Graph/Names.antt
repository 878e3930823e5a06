-- ===== src/Graph/Names.antt =====
-- graph.rs: lookups by name, the parent of a directory, and the renaming of an edge in place.
use sotfs.Base.{
  String, Bool, true, false, Option, none, some, List, [], ◌∷◌, ◌++◌, str_eq, if◌then◌else◌,
}
use mathlib.Core.Option
use sotfs.Map
use sotfs.Map.{id_key, entry_key}
use sotfs.Types.{InodeId, DirId, EdgeId, Edge}
use sotfs.Graph.{TypeGraph, get_edge, adjust_edge}

-- `Some(Edge::Contains { name: n, .. }) if n == name`
abbrev pub is_named : String → Option Edge → Bool
is_named name (some (Edge.contains _ _ _ n)) = str_eq n name
is_named name (some _) = false
is_named name none = false

-- The cold path of `lookup_name`: the first edge of the directory with the name.
unfoldable pub scan_names : String → TypeGraph → List EdgeId → Option Edge
scan_names name g [] = none
scan_names name g (eid ∷ eids) =
    let rest = scan_names name g eids in
    if is_named name (get_edge eid g) then get_edge eid g else rest

unfoldable pub lookup_name : DirId → String → TypeGraph → Option Edge
unfolding scan_names Option.bind
lookup_name dir name g = elim g.dir_name_idx [
  | [] ↦ Option.bind (Map.get dir g.dir_contains) (scan_names name g)
  | _ ∷ _ ↦ Option.bind (Map.get (dir, name) g.dir_name_idx) (λ eid. get_edge eid g)
]

abbrev pub target_of : Edge → Option InodeId
target_of (Edge.contains _ _ tgt _) = some tgt
target_of (Edge.grants _ _ _ _) = none
target_of (Edge.delegates _ _ _) = none
target_of (Edge.derived_from _ _ _) = none
target_of (Edge.supersedes _ _ _) = none
target_of (Edge.points_to _ _ _ _) = none
target_of (Edge.has_xattr _ _ _) = none

unfoldable pub resolve_name : DirId → String → TypeGraph → Option InodeId
unfolding lookup_name Option.bind
resolve_name dir name g = Option.bind (lookup_name dir name g) target_of

list_edges : TypeGraph → List EdgeId → List (String × InodeId)
list_edges g [] = []
list_edges g (eid ∷ eids) =
    let rest = list_edges g eids in
    elim (get_edge eid g) [ some (Edge.contains _ _ tgt name) ↦ (name, tgt) ∷ rest | _ ↦ rest ]

unfoldable pub list_dir : DirId → TypeGraph → List (String × InodeId)
unfolding list_edges
list_dir dir g = elim (Map.get dir g.dir_contains) [ none ↦ [] | some eids ↦ list_edges g eids ]

unfoldable pub dir_for_inode : InodeId → TypeGraph → Option DirId
dir_for_inode inode_id g = Map.get inode_id g.dir_for_inode_idx

unfoldable pub parent_dir : DirId → TypeGraph → Option DirId
unfolding resolve_name dir_for_inode Option.bind
parent_dir dir g = Option.bind (resolve_name dir ".." g) (λ inode. dir_for_inode inode g)

abbrev pub set_name : String → Edge → Edge
set_name new_name (Edge.contains id src tgt _) = Edge.contains id src tgt new_name
set_name new_name e = e

rename_edge : EdgeId → String → Option Edge → TypeGraph → Bool × TypeGraph
rename_edge eid new_name (some (Edge.contains _ src _ old_name)) g =
    if str_eq old_name new_name then (true, g) else (
      true,
      adjust_edge eid (set_name new_name) (record g {
        dir_name_idx = Map.insert (src, new_name) eid (Map.remove (src, old_name) g.dir_name_idx);
      }),
    )
rename_edge eid new_name _ g = (false, g)

unfoldable pub rename_contains_edge : EdgeId → String → TypeGraph → Bool × TypeGraph
unfolding rename_edge
rename_contains_edge eid new_name g = rename_edge eid new_name (get_edge eid g) g

index_edges : TypeGraph → DirId → List EdgeId → List ((DirId × String) × EdgeId)
index_edges g dir [] = []
index_edges g dir (eid ∷ eids) =
    let rest = index_edges g dir eids in
    elim (get_edge eid g) [ some (Edge.contains _ _ _ name) ↦ ((dir, name), eid) ∷ rest | _ ↦ rest ]

index_dirs : TypeGraph → List (DirId × List EdgeId) → List ((DirId × String) × EdgeId)
unfolding index_edges
index_dirs g [] = []
index_dirs g ((dir, eids) ∷ dirs) = index_edges g dir eids ++ index_dirs g dirs

insert_all :
    List ((DirId × String) × EdgeId)
    → Map.Map (DirId × String) EdgeId
    → Map.Map (DirId × String) EdgeId
insert_all [] m = m
insert_all ((k, v) ∷ es) m = insert_all es (Map.insert k v m)

unfoldable pub rebuild_dir_name_idx : TypeGraph → TypeGraph
unfolding index_dirs insert_all
rebuild_dir_name_idx g = record g { dir_name_idx = insert_all (index_dirs g g.dir_contains) [] }

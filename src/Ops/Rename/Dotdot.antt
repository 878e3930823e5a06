-- ===== src/Ops/Rename/Dotdot.antt =====
-- sotfs-ops/src/lib.rs, RENAME across directories: the ".." edge of the directory that moves gets
-- a new target in place.
use sotfs.Base.{◌<◌, String, true, Option, none, some, find, [], ◌≡◌, refl, sym, ap, arith, str_eq}
use mathlib.Core.Path.{subst₂}
use sotfs.Map
use sotfs.Map.{Map, or_default, id_key, entry_key}
use sotfs.Map.Sets.{find-passes}
use sotfs.Arena
use sotfs.Arena.{to_id}
use sotfs.Types.{Edge, EdgeId, DirId, InodeId, Inode, Directory, is_directory}
use sotfs.Graph.{
  TypeGraph, node_capacity, edge_capacity, get_edge, get_dir, get_inode, adjust_edge, drop_incoming,
  add_incoming,
}
use sotfs.Graph.Index.{index_of, entry, entry_of}
use sotfs.Graph.Links.Nodes.{nodes_of, inode_at, IsWellFormed, WellFormed, settled}
use sotfs.Ops.Rename.{
  set_target, drop_old, is_dotdot, retarget, retarget_in, move_dotdot, moved_in, directory_of,
}
use sotfs.Ops.Rename.Directories.{dir_inode, IsDirInode}
use sotfs.Ops.Rename.Replaced.{find-contains}
use sotfs.Ops.Rename.Retarget.{retarget_edge, retarget-WellFormed}

-- The three steps of the code, as one change of the index.
pub index_of-retarget :
    (eid i : EdgeId) (src : DirId) (old new : InodeId) (name : String) (g : TypeGraph)
    → get_edge eid g ≡ some (Edge.contains i src old name)
    → index_of (retarget new (some eid) g) ≡ retarget_edge eid old new (index_of g)
unfolding retarget_edge get_edge adjust_edge drop_incoming add_incoming Arena.adjust
index_of-retarget eid i src old new name g at = rw at refl

retarget-nodes :
    (eid : EdgeId) (new : InodeId) (old : Option Edge) (g : TypeGraph)
    → nodes_of (add_incoming new eid (adjust_edge eid (set_target new) (drop_old eid old g)))
      ≡ nodes_of g
unfolding adjust_edge add_incoming drop_incoming
retarget-nodes eid new (some (Edge.contains _ _ _ _)) g = refl
retarget-nodes eid new (some (Edge.grants _ _ _ _)) g = refl
retarget-nodes eid new (some (Edge.delegates _ _ _)) g = refl
retarget-nodes eid new (some (Edge.derived_from _ _ _)) g = refl
retarget-nodes eid new (some (Edge.supersedes _ _ _)) g = refl
retarget-nodes eid new (some (Edge.points_to _ _ _ _)) g = refl
retarget-nodes eid new (some (Edge.has_xattr _ _ _)) g = refl
retarget-nodes eid new none g = refl

is_dotdot_sound :
    (o : Option Edge)
    → is_dotdot o ≡ true
    → (i : EdgeId) × (d : DirId) × (t : InodeId) × (n : String) × (o ≡ some (Edge.contains i d t n))
      × (str_eq n ".." ≡ true)
is_dotdot_sound (some (Edge.contains i d t n)) h = (i, d, t, n, refl, h)
is_dotdot_sound (some (Edge.grants _ _ _ _)) h = absurd (cc)
is_dotdot_sound (some (Edge.delegates _ _ _)) h = absurd (cc)
is_dotdot_sound (some (Edge.derived_from _ _ _)) h = absurd (cc)
is_dotdot_sound (some (Edge.supersedes _ _ _)) h = absurd (cc)
is_dotdot_sound (some (Edge.points_to _ _ _ _)) h = absurd (cc)
is_dotdot_sound (some (Edge.has_xattr _ _ _)) h = absurd (cc)
is_dotdot_sound none h = absurd (cc)

dir_inode-some :
    (o : Option Inode)
    → dir_inode o ≡ true
    → (inode : Inode) × (o ≡ some inode) × (is_directory inode.vtype ≡ true)
dir_inode-some (some inode) h = (inode, refl, h)
dir_inode-some none h = absurd (cc)

module _ (g : TypeGraph) (h : WellFormed g) (new : InodeId) (low : new < node_capacity)
    (there : IsDirInode new g) where
  found-WellFormed :
      (child : DirId) (eid : EdgeId)
      → find (λ k. is_dotdot (get_edge k g)) (or_default [] (Map.get child g.dir_contains))
        ≡ some eid
      → WellFormed (retarget new (some eid) g)
  found-WellFormed child eid hit =
      let eids = or_default [] (Map.get child g.dir_contains) in
      let (i, d, old, n, at, dotdot) =
        is_dotdot_sound (get_edge eid g)
          (find-passes (λ k. is_dotdot (get_edge k g)) eids eid hit) in
      let member = find-contains (λ k. is_dotdot (get_edge k g)) eids eid hit in
      let elow : eid < edge_capacity =
        omega (arith, h.index.from_below child eid member, h.index.bounded) in
      let (parent, is_there, is_dir) = dir_inode-some (inode_at new (nodes_of g)) there in
      subst₂ (IsWellFormed settled) (sym (retarget-nodes eid new (get_edge eid g) g))
        (sym (index_of-retarget eid i d old new n g at))
        (retarget-WellFormed (nodes_of g) (index_of g) h eid d old new n elow
          (unfold entry get_edge in ap entry_of at) dotdot parent low is_there is_dir)

  retarget_found-WellFormed :
      (child : DirId) (o : Option EdgeId)
      → find (λ k. is_dotdot (get_edge k g)) (or_default [] (Map.get child g.dir_contains)) ≡ o
      → WellFormed (retarget new o g)
  retarget_found-WellFormed child none hit = h
  retarget_found-WellFormed child (some eid) hit = found-WellFormed child eid hit

retarget_in-WellFormed :
    (g : TypeGraph) (child : DirId) (o : Option Directory)
    → WellFormed g
    → ((p : Directory) → o ≡ some p → (p.inode_id < node_capacity) × IsDirInode p.inode_id g)
    → WellFormed (retarget_in child o g)
retarget_in-WellFormed g child none h parent = h
retarget_in-WellFormed g child (some p) h parent =
    let (low, there) = parent p refl in
    retarget_found-WellFormed g h p.inode_id low there child _ refl

-- A directory that has moved is led back to its new parent, if that has an inode that is a directory.
pub move_dotdot-WellFormed :
    (g : TypeGraph) (src_inode : InodeId) (dst_dir : DirId)
    → WellFormed g
    → ((p : Directory)
        → get_dir dst_dir g ≡ some p
        → (p.inode_id < node_capacity) × IsDirInode p.inode_id g)
    → WellFormed (move_dotdot src_inode dst_dir g)
unfolding move_dotdot
move_dotdot-WellFormed g src_inode dst_dir h parent =
    elim (directory_of src_inode g (get_inode src_inode g))
      as (λ o. WellFormed (moved_in o dst_dir g)) [
        | none ↦ h
        | some child ↦ retarget_in-WellFormed g child (get_dir dst_dir g) h parent
      ]

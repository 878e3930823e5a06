-- ===== src/Ops/Link.antt =====
-- sotfs-ops/src/lib.rs: LINK and UNLINK.
pub mod Linked
pub mod Kept
pub mod Freed
use sotfs.Base.{
  ℕ, ◌+◌, ◌-◌, ◌%◌, ◌^◌, String, Bool, true, false, ◌||◌, Option, none, some, List, [], ◌∷◌, leb,
  ◌==◌, str_eq, is_some, if◌then◌else◌,
}
use sotfs.Map
use sotfs.Map.{id_key, or_default}
use sotfs.Types.{InodeId, DirId, EdgeId, BlockId, Inode, Block, Edge, is_directory}
use sotfs.Types.Right
use sotfs.Error.{
  Result, ok, name_not_found, name_exists, inode_not_found, link_to_directory, link_count_exceeded,
  dir_not_found, not_a_file, ok_or, fail_if, ◌>>=◌ as ◌>>?◌,
}
use sotfs.Graph.{
  TypeGraph, link_max, alloc_edge_id, add_contains, get_inode, adjust_inode, get_edge, remove_edge,
  remove_inode, drop_outgoing, drop_incoming, adjust_block, get_block, remove_block,
}
use sotfs.Graph.Names.{resolve_name}
use sotfs.Graph.Prov.{require_cap, record_prov}
use sotfs.Provenance.{ProvOp}
use sotfs.Ops.Action.{Action, Clock, check, gets, modify, step, when, ◌>>=◌, ◌>>◌}
use sotfs.Ops.Quota.{update_quota, minus}

-- The names that stand for the directory itself and for its parent.
abbrev pub is_dot_name : String → Bool
is_dot_name name = str_eq name "." || str_eq name ".."

-- `link_count += 1` and `link_count -= 1` on u32
abbrev pub more_links : Inode → Inode
more_links inode = record inode { link_count = (inode.link_count + 1) % 2 ^ 32 }

abbrev pub fewer_links : Inode → Inode
fewer_links inode = record inode { link_count = (inode.link_count + (2 ^ 32 - 1)) % 2 ^ 32 }

unfoldable pub link : Clock → DirId → String → InodeId → Action (Unit {0})
link clock dir name target_inode = do
  check (require_cap Right.write)
  check (λ g. fail_if (is_dot_name name) (name_not_found name))
  check (λ g. fail_if (is_some (resolve_name dir name g)) (name_exists dir name))
  inode ← check (λ g. ok_or (get_inode target_inode g) (inode_not_found target_inode))
  check (λ g. fail_if (is_directory inode.vtype) (link_to_directory target_inode))
  check (λ g. fail_if (leb link_max inode.link_count) (link_count_exceeded link_max))
  edge_id ← step alloc_edge_id
  modify (add_contains edge_id dir target_inode name)
  modify (adjust_inode target_inode more_links)
  modify (record_prov (clock 0) ProvOp.link target_inode name)

-- The first edge of the list that is a `Contains` edge with the name, and its target.
abbrev pub named_target : String → EdgeId → Option Edge → Option (EdgeId × InodeId)
named_target name eid (some (Edge.contains _ _ tgt n)) =
    if str_eq n name then some (eid, tgt) else none
named_target name eid (some _) = none
named_target name eid none = none

unfoldable pub find_entry : String → TypeGraph → List EdgeId → Option (EdgeId × InodeId)
find_entry name g [] = none
find_entry name g (eid ∷ eids) =
    let rest = find_entry name g eids in
    elim (named_target name eid (get_edge eid g)) [ none ↦ rest | some found ↦ some found ]

-- `block.refcount -= 1` on u32, and the removal at 0
unfoldable pub release_block : BlockId → TypeGraph → TypeGraph
release_block block_id g = elim (get_block block_id g) [
  | none ↦ g
  | some block ↦
      (let count = (block.refcount + (2 ^ 32 - 1)) % 2 ^ 32 in
        let g' = adjust_block block_id (λ b. record b { refcount = count }) g in
        if count == 0 then remove_block block_id g' else g')
]

abbrev pub release_target : Option Edge → TypeGraph → TypeGraph
release_target (some (Edge.points_to _ _ block_id _)) g = release_block block_id g
release_target (some _) g = g
release_target none g = g

-- The loop over the `PointsTo` edges of an inode that goes.
unfoldable pub release_all : List EdgeId → TypeGraph → TypeGraph
unfolding release_block
release_all [] g = g
release_all (eid ∷ eids) g =
    let (removed, g') = remove_edge eid g in release_all eids (release_target removed g')

unfoldable pub collect_inode : InodeId → TypeGraph → TypeGraph
unfolding release_all
collect_inode inode g =
    let eids = or_default [] (Map.get inode g.inode_points_to) in
    let g' = release_all eids (record g { inode_points_to = Map.remove inode g.inode_points_to }) in
    let g'' = remove_inode inode g' in
    record g'' { inode_incoming_contains = Map.remove inode g''.inode_incoming_contains }

-- The link count that the inode is left with.
abbrev pub links_left : Option Inode → ℕ
links_left none = 0
links_left (some inode) = inode.link_count

unfoldable pub unlink : ℕ → Clock → DirId → String → Action (Unit {0})
unlink fuel clock dir name = do
  check (require_cap Right.write)
  check (λ g. fail_if (is_dot_name name) (name_not_found name))
  found ← check (λ g. ok_or (Map.get dir g.dir_contains) (dir_not_found dir) >>? λ edge_ids.
      ok_or (find_entry name g edge_ids) (name_not_found name))
  inode ← check (λ g. ok_or (get_inode found.1 g) (inode_not_found found.1))
  check (λ g. fail_if (is_directory inode.vtype) (not_a_file found.1))
  modify (λ g. (remove_edge found.0 g).1)
  modify (drop_outgoing dir found.0)
  modify (drop_incoming found.1 found.0)
  modify (adjust_inode found.1 fewer_links)
  left ← gets (λ g. links_left (get_inode found.1 g))
  modify (λ g. if left == 0 then collect_inode found.1 g else g)
  when (left == 0) (update_quota fuel dir (minus 1) (minus 0))
  modify (record_prov (clock 0) ProvOp.unlink found.1 name)

-- ===== src/Ops/Rename/Directories.antt =====
-- sotfs-ops/src/lib.rs: the inodes that are directories, and the allocator of edge ids, under UNLINK.
use sotfs.Base.{
  ℕ, String, Bool, true, false, Option, none, some, List, [], ◌∷◌, ◌≡◌, refl, ap, ◌∙◌, arith, ◌==◌,
  if◌then◌else◌, Option-cases, Bool-cases, ==_iff, inl, inr, ◌%◌, ◌^◌,
}
use sotfs.Map
use sotfs.Map.{id_key, or_default}
use sotfs.Arena
use sotfs.Arena.{Arena, to_id}
use sotfs.Arena.Laws.{get-adjust, get-remove}
use sotfs.Types.{DirId, InodeId, EdgeId, Inode, is_directory}
use sotfs.Graph.{
  TypeGraph, remove_edge, remove_inode, drop_outgoing, drop_incoming, adjust_inode, get_inode,
}
use sotfs.Graph.Prov.{record_prov}
use sotfs.Graph.Index.{Index}
use sotfs.Graph.Links.Nodes.{Nodes, nodes_of, inode_at}
use sotfs.Provenance.{ProvOp}
use sotfs.Ops.Action.{Clock}
use sotfs.Ops.Quota.{minus, update_quota}
use sotfs.Ops.Quota.Charge.{update_quota_keeps}
use sotfs.Ops.Link.{unlink, collect_inode, release_all, release_target, fewer_links}
use sotfs.Ops.Link.Freed.{nodes_of-remove_edge, release_target_keeps}
use sotfs.Ops.Rename.SameDirs.{release_all_nodes, left_by, unlink_frame}

-- Whether an inode is there and is a directory.
abbrev pub dir_inode : Option Inode → Bool
dir_inode none = false
dir_inode (some inode) = is_directory inode.vtype

abbrev pub IsDirInode : InodeId → TypeGraph → Type 0
IsDirInode i g = dir_inode (inode_at i (nodes_of g)) ≡ true

adjust-IsDirInode :
    (i t : InodeId) (f : Inode → Inode) (g : TypeGraph)
    → ((nd : Inode) → (f nd).vtype ≡ nd.vtype)
    → IsDirInode i g
    → IsDirInode i (adjust_inode t f g)
unfolding adjust_inode inode_at
adjust-IsDirInode i t f g same there = elim (Option-cases (Arena.get (to_id i) g.inodes)) [
  | inl gone ↦ absurd (ground (arith, gone))
  | inr (nd, at) ↦ ground (arith, get-adjust (to_id t) g.inodes (to_id i) f, at, same nd)
]

collect-IsDirInode :
    (b : Bool) (i t : InodeId) (g : TypeGraph)
    → (t % 2 ^ 32 == i % 2 ^ 32) ≡ false
    → IsDirInode i g
    → IsDirInode i (if b then collect_inode t g else g)
unfolding collect_inode remove_inode inode_at
collect-IsDirInode true i t g ne there =
    let g' =
      release_all (or_default [] (Map.get t g.inode_points_to))
        (record g { inode_points_to = Map.remove t g.inode_points_to }) in
    let same =
      ap (λ (n : Nodes). Arena.get (to_id i) n.inodes)
        (release_all_nodes (or_default [] (Map.get t g.inode_points_to))
          (record g { inode_points_to = Map.remove t g.inode_points_to })) in
    ground (arith, get-remove (to_id t) g'.inodes (to_id i), same)
collect-IsDirInode false i t g ne there = there

-- A file has another slot than a directory.
other_slot :
    (i t : InodeId) (g : TypeGraph) {inode : Inode}
    → IsDirInode i g
    → get_inode t g ≡ some inode
    → is_directory inode.vtype ≡ false
    → (t % 2 ^ 32 == i % 2 ^ 32) ≡ false
unfolding inode_at get_inode
other_slot i t g dir there file = elim (Bool-cases (t % 2 ^ 32 == i % 2 ^ 32)) [
  | inr other ↦ other
  | inl same ↦
      let slot : t % 2 ^ 32 ≡ i % 2 ^ 32 = (==_iff _ _).0 same in
      absurd (ground (arith, there, file, ap (λ k. Arena.get (record { index = k }) g.inodes) slot))
]

charged-IsDirInode :
    (fuel : ℕ) (d : DirId) (i : InodeId) (g : TypeGraph)
    → IsDirInode i g
    → IsDirInode i (update_quota fuel d (minus 1) (minus 0) g).1
charged-IsDirInode fuel d i g there = rw (update_quota_keeps (minus 1) (minus 0) fuel d g) there

logged-IsDirInode :
    (now : ℕ) (op : ProvOp) (t : InodeId) (detail : String) (i : InodeId) (g : TypeGraph)
    → IsDirInode i g
    → IsDirInode i (record_prov now op t detail g)
unfolding record_prov
logged-IsDirInode now op t detail i g there = there

cut-IsDirInode :
    (e : EdgeId) (d : DirId) (t i : InodeId) (g : TypeGraph)
    → IsDirInode i g
    → IsDirInode i
        (adjust_inode t fewer_links (drop_incoming t e (drop_outgoing d e (remove_edge e g).1)))
unfolding drop_incoming drop_outgoing
cut-IsDirInode e d t i g there =
    adjust-IsDirInode i t fewer_links (drop_incoming t e (drop_outgoing d e (remove_edge e g).1))
      (λ nd. refl) (ap (λ (n : Nodes). dir_inode (inode_at i n)) (nodes_of-remove_edge e g) ∙ there)

-- UNLINK leaves every inode that is a directory in its place.
pub unlink-IsDirInode :
    (fuel : ℕ) (clock : Clock) (dir : DirId) (name : String) (i : InodeId) (g : TypeGraph)
    → IsDirInode i g
    → IsDirInode i (unlink fuel clock dir name g).1
unlink-IsDirInode fuel clock dir name i g h =
    unlink_frame (IsDirInode i) (λ fuel d g' there. charged-IsDirInode fuel d i g' there)
      (λ now t detail g' there. logged-IsDirInode now ProvOp.unlink t detail i g' there) fuel clock
      dir name g h
      (λ e t inode there file b.
        collect-IsDirInode b i t _ (other_slot i t g h there file) (cut-IsDirInode e dir t i g h))

abbrev SameNext : TypeGraph → TypeGraph → Type 0
SameNext g g' = g'.next_edge ≡ g.next_edge

removed_next : (e : EdgeId) (g : TypeGraph) → SameNext g (remove_edge e g).1
unfolding remove_edge
removed_next e g = ground arith

release_all_next : (eids : List EdgeId) (g : TypeGraph) → SameNext g (release_all eids g)
unfolding release_all
release_all_next [] g = refl
release_all_next (eid ∷ eids) g =
    let g' = (remove_edge eid g).1 in
    release_all_next eids (release_target (remove_edge eid g).0 g')
    ∙ ap (λ (s : Index). s.next_edge) (release_target_keeps (remove_edge eid g).0 g').0
    ∙ removed_next eid g

collected_next : (i : InodeId) (g : TypeGraph) → SameNext g (collect_inode i g)
unfolding collect_inode remove_inode
collected_next i g =
    release_all_next (or_default [] (Map.get i g.inode_points_to))
      (record g { inode_points_to = Map.remove i g.inode_points_to })

left_next :
    (e : EdgeId) (d : DirId) (t : InodeId) (b : Bool) (g : TypeGraph)
    → SameNext g (left_by e d t b g)
unfolding adjust_inode drop_incoming drop_outgoing
left_next e d t true g =
    collected_next t
      (adjust_inode t fewer_links (drop_incoming t e (drop_outgoing d e (remove_edge e g).1)))
    ∙ removed_next e g
left_next e d t false g = removed_next e g

logged_next :
    (now : ℕ) (op : ProvOp) (t : InodeId) (detail : String) (g g' : TypeGraph)
    → SameNext g g'
    → SameNext g (record_prov now op t detail g')
unfolding record_prov
logged_next now op t detail g g' h = h

-- UNLINK hands out no edge id.
pub unlink_next :
    (fuel : ℕ) (clock : Clock) (dir : DirId) (name : String) (g : TypeGraph)
    → (unlink fuel clock dir name g).1.next_edge ≡ g.next_edge
unlink_next fuel clock dir name g =
    unlink_frame (SameNext g)
      (λ fuel d g' same.
        ap (λ (k : TypeGraph). k.next_edge) (update_quota_keeps (minus 1) (minus 0) fuel d g')
        ∙ same)
      (λ now t detail g' same. logged_next now ProvOp.unlink t detail g g' same) fuel clock dir name
      g refl (λ e t inode there file b. left_next e dir t b g)

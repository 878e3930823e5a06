-- ===== src/Ops/Rename/SameDirs.antt =====
-- sotfs-ops/src/lib.rs, RENAME: the directory pool under UNLINK.
use sotfs.Base.{
  ℕ, String, Bool, true, false, some, List, [], ◌∷◌, ◌≡◌, refl, ap, ◌∙◌, if◌then◌else◌,
}
use sotfs.Map
use sotfs.Map.{id_key, or_default}
use sotfs.Arena.{Arena}
use sotfs.Types.{DirId, InodeId, EdgeId, Directory, Inode, is_directory}
use sotfs.Graph.{
  TypeGraph, node_capacity, remove_edge, remove_inode, drop_outgoing, drop_incoming, adjust_inode,
  get_inode,
}
use sotfs.Graph.Prov.{record_prov}
use sotfs.Graph.Links.Nodes.{Nodes, nodes_of}
use sotfs.Provenance.{ProvOp}
use sotfs.Ops.Action.{Clock}
use sotfs.Ops.Action.Rules.{check_rule, modify_rule, gets_rule, when_rule, bind_rule, last_rule}
use sotfs.Ops.Steady.{fail_if-ok, ok_or-ok}
use sotfs.Ops.Quota.{minus, update_quota}
use sotfs.Ops.Quota.Charge.{update_quota_keeps}
use sotfs.Ops.Link.{unlink, collect_inode, release_all, release_target, fewer_links}
use sotfs.Ops.Link.Freed.{nodes_of-remove_edge, release_target_keeps}

abbrev dirs_of : Nodes → Arena Directory node_capacity
dirs_of n = n.dirs

pub release_all_nodes :
    (eids : List EdgeId) (g : TypeGraph) → nodes_of (release_all eids g) ≡ nodes_of g
unfolding release_all
release_all_nodes [] g = refl
release_all_nodes (eid ∷ eids) g =
    let g' = (remove_edge eid g).1 in
    release_all_nodes eids (release_target (remove_edge eid g).0 g')
    ∙ (release_target_keeps (remove_edge eid g).0 g').1
    ∙ nodes_of-remove_edge eid g

collect_inode_dirs : (i : InodeId) (g : TypeGraph) → (collect_inode i g).dirs ≡ g.dirs
unfolding collect_inode remove_inode
collect_inode_dirs i g = ap dirs_of (
    release_all_nodes (or_default [] (Map.get i g.inode_points_to))
      (record g { inode_points_to = Map.remove i g.inode_points_to }))

abbrev SameDirs : TypeGraph → TypeGraph → Type 0
SameDirs g g' = g'.dirs ≡ g.dirs

collected_dirs :
    (b : Bool) (i : InodeId) (g : TypeGraph) → (if b then collect_inode i g else g).dirs ≡ g.dirs
collected_dirs true i g = collect_inode_dirs i g
collected_dirs false i g = refl

charged_dirs :
    (fuel : ℕ) (d : DirId) (g : TypeGraph)
    → SameDirs g (update_quota fuel d (minus 1) (minus 0) g).1
charged_dirs fuel d g =
    ap (λ (g' : TypeGraph). g'.dirs) (update_quota_keeps (minus 1) (minus 0) fuel d g)

logged_dirs :
    (now : ℕ) (op : ProvOp) (i : InodeId) (detail : String) (g g' : TypeGraph)
    → SameDirs g g'
    → SameDirs g (record_prov now op i detail g')
unfolding record_prov
logged_dirs now op i detail g g' h = h

cut_dirs :
    (e : EdgeId) (d : DirId) (t : InodeId) (g : TypeGraph)
    → SameDirs g
        (adjust_inode t fewer_links (drop_incoming t e (drop_outgoing d e (remove_edge e g).1)))
unfolding adjust_inode drop_incoming drop_outgoing
cut_dirs e d t g = ap dirs_of (nodes_of-remove_edge e g)

-- The graph after the edge is out and the link count is lower, with or without the inode.
abbrev pub left_by : EdgeId → DirId → InodeId → Bool → TypeGraph → TypeGraph
left_by e d t b g =
    let c =
      adjust_inode t fewer_links (drop_incoming t e (drop_outgoing d e (remove_edge e g).1)) in
    if b then collect_inode t c else c

-- What the change of the graph, the charge of the quotas and the entry in the log each keep.
module _ (P : TypeGraph → Type 0)
    (charged : (fuel : ℕ) (d : DirId) (g : TypeGraph)
      → P g
      → P (update_quota fuel d (minus 1) (minus 0) g).1)
    (logged : (now : ℕ) (t : InodeId) (detail : String) (g : TypeGraph)
      → P g
      → P (record_prov now ProvOp.unlink t detail g)) where
  pub unlink_frame :
      (fuel : ℕ) (clock : Clock) (dir : DirId) (name : String) (g : TypeGraph)
      → P g
      → ((e : EdgeId) (t : InodeId) (inode : Inode)
          → get_inode t g ≡ some inode
          → is_directory inode.vtype ≡ false
          → (b : Bool) → P (left_by e dir t b g))
      → P (unlink fuel clock dir name g).1
  unfolding unlink
  unlink_frame fuel clock dir name g h left = check_rule P _ _ g h λ _ _.
      check_rule P _ _ g h λ _ _. check_rule P _ _ g h λ found _.
        check_rule P _ _ g h λ inode there. check_rule P _ _ g h λ _ file.
          let kept = left found.0 found.1 inode (ok_or-ok _ _ there) (fail_if-ok _ _ file) _ in
          modify_rule P _ _ _ (
            modify_rule P _ _ _ (
              modify_rule P _ _ _ (
                modify_rule P _ _ _ (
                  gets_rule P _ _ _ (
                    modify_rule P _ _ _ (
                      bind_rule P _ _ _ (when_rule P _ _ _ kept (λ _. charged fuel dir _ kept))
                        (λ _ g' w. last_rule P _ _ (logged _ _ _ g' w))))))))

-- Whatever UNLINK does, and whether it succeeds or fails, the directory nodes stay.
pub unlink_dirs :
    (fuel : ℕ) (clock : Clock) (dir : DirId) (name : String) (g : TypeGraph)
    → (unlink fuel clock dir name g).1.dirs ≡ g.dirs
unlink_dirs fuel clock dir name g =
    unlink_frame (SameDirs g) (λ fuel d g' same. charged_dirs fuel d g' ∙ same)
      (λ now t detail g' same. logged_dirs now ProvOp.unlink t detail g g' same) fuel clock dir name
      g refl (λ e t inode there file b. collected_dirs b t _ ∙ cut_dirs e dir t g)

-- ===== src/Ops/Link/Linked.antt =====
-- sotfs-ops/src/lib.rs, LINK: the new edge in a well-formed graph.
use sotfs.Base.{◌<◌, String, true, false, some, ◌≡◌, refl, arith, leb, ◌==◌, is_some, if◌then◌else◌}
use sotfs.Map.{id_key, entry_key}
use sotfs.Arena
use sotfs.Arena.{to_id}
use sotfs.Types.{InodeId, DirId, Inode}
use sotfs.Graph.{
  TypeGraph, node_capacity, edge_capacity, link_max, alloc_edge_id, add_contains, adjust_inode,
  contains_dir, get_inode,
}
use sotfs.Graph.Names.{resolve_name}
use sotfs.Graph.Index.{index_of}
use sotfs.Graph.Index.Add.{link_edge}
use sotfs.Graph.Links.Nodes.{nodes_of, inode_at, dir_at, WellFormed, settled}
use sotfs.Graph.Links.Nodes.Steps.{inode_at-adjust, adjust_inode-WellFormed, WellFormed_congr}
use sotfs.Graph.Links.Nodes.Edges.{bump-WellFormed, link_edge-WellFormed}
use sotfs.Ops.Action.{Clock}
use sotfs.Ops.Action.Rules.{check_rule, step_rule, modify_rule, last_rule}
use sotfs.Ops.Steady.{free_name, fail_if-ok, ok_or-ok, logged-WellFormed}
use sotfs.Ops.Link.{link, more_links, is_dot_name}

module _ (g : TypeGraph) (h : WellFormed g) (dir : DirId) (low : dir < node_capacity)
    (present : contains_dir dir g ≡ true) (name : String) (target : InodeId)
    (tlow : target < node_capacity) (eroom : g.next_edge < edge_capacity) where
  linked-WellFormed :
      (inode : Inode)
      → is_dot_name name ≡ false
      → is_some (resolve_name dir name g) ≡ false
      → get_inode target g ≡ some inode
      → leb link_max inode.link_count ≡ false
      → WellFormed (
          adjust_inode target more_links
            (add_contains g.next_edge dir target name (alloc_edge_id g).1))
  unfolding alloc_edge_id adjust_inode add_contains link_edge get_inode inode_at
  linked-WellFormed inode plain free there room =
      let owed = λ (i : InodeId). if target == i then 1 else 0 in
      let h1 = bump-WellFormed (index_of g) h eroom in
      let h2 =
        adjust_inode-WellFormed (nodes_of g) _ h1 target more_links owed tlow (λ i ne. ground arith)
          (λ nd at. ground arith) (λ nd. refl) in
      let h3 =
        link_edge-WellFormed _ h2 g.next_edge dir target name (omega arith)
          (h.index.vacant g.next_edge (omega arith) eroom) (free_name g dir name h free) tlow
          (ground (arith, inode_at-adjust (nodes_of g) _ h1 target more_links target tlow tlow)) low
          (unfold dir_at contains_dir Arena.get Arena.contains in ground arith) (ground arith)
          (λ nd up at. ground arith) in
      WellFormed_congr settled _ _ h3 (λ i. ground arith)

  -- LINK into an existing directory keeps a well-formed graph well-formed, whether it succeeds or
  -- fails, while an edge id is left and the ids of the directory and of the target are in range.
  pub link-WellFormed : (clock : Clock) → WellFormed (link clock dir name target g).1
  unfolding link alloc_edge_id
  link-WellFormed clock = check_rule WellFormed _ _ g h λ _ _.
      check_rule WellFormed _ _ g h λ _ plain. check_rule WellFormed _ _ g h λ _ free.
        check_rule WellFormed _ _ g h λ inode there. check_rule WellFormed _ _ g h λ _ _.
          check_rule WellFormed _ _ g h λ _ room. step_rule WellFormed _ _ _ (
            modify_rule WellFormed _ _ _ (
              modify_rule WellFormed _ _ _ (
                last_rule WellFormed _ _ (
                  logged-WellFormed _ _ _ _ _ (
                    linked-WellFormed inode (fail_if-ok _ _ plain) (fail_if-ok _ _ free)
                      (ok_or-ok _ _ there) (fail_if-ok _ _ room))))))

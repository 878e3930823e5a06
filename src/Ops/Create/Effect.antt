-- ===== src/Ops/Create/Effect.antt =====
-- sotfs-ops/src/lib.rs: CREATE and SYMLINK on well-formed graphs.
use sotfs.Base.{ℕ, ◌<◌, String, true, false, not, none, ◌≡◌, refl, arith, is_some, str_eq}
use sotfs.Map
use sotfs.Map.{Map, id_key, entry_key}
use sotfs.Arena
use sotfs.Arena.{to_id}
use sotfs.Types.{DirId, Inode, Permissions}
use sotfs.Error.{GraphError, ok, fail_if}
use sotfs.Graph.{
  TypeGraph, node_capacity, edge_capacity, alloc_inode_id, alloc_edge_id, insert_inode,
  add_contains, contains_dir, bump,
}
use sotfs.Graph.Names.{resolve_name}
use sotfs.Graph.Index.{Index, index_of}
use sotfs.Graph.Index.Add.{link_edge}
use sotfs.Graph.Links.Nodes.{Nodes, nodes_of, inode_at, dir_at, IsWellFormed, WellFormed, settled}
use sotfs.Graph.Links.Nodes.Steps.{bump_inode-WellFormed, insert_inode-WellFormed, WellFormed_congr}
use sotfs.Graph.Links.Nodes.Edges.{bump-WellFormed, link_edge-WellFormed}
use sotfs.Ops.Action.{Clock}
use sotfs.Ops.Action.Rules.{check_rule, step_rule, modify_rule}
use sotfs.Ops.Steady.{free_name, fail_if-ok, present_dir}
use sotfs.Ops.Create.Ending.{not_dotdot, finished-WellFormed}
use sotfs.Ops.Create.{create_file, make_symlink, new_symlink, is_bad_name}
use Prim.Native.String.{len}

module _ (n : Nodes) (s : Index) (h : IsWellFormed settled n s) (src : DirId) (name : String)
    (inode : Inode) where
  abbrev grown : Nodes
  grown = record n {
    inodes = (Arena.insert_at (to_id n.next_inode) inode n.inodes).1;
    next_inode = bump n.next_inode;
  }

  -- A new inode of link count 1 and the one edge to it.
  new_entry-WellFormed :
      inode.link_count ≡ 1
      → n.next_inode < node_capacity
      → s.next_edge < edge_capacity
      → src < node_capacity
      → is_some (dir_at src n) ≡ true
      → Map.get (src, name) s.names ≡ none
      → str_eq name ".." ≡ false
      → IsWellFormed settled grown
          (link_edge s.next_edge src n.next_inode name (record s { next_edge = bump s.next_edge }))
  unfolding inode_at dir_at Arena.get Arena.insert_at
  new_entry-WellFormed one room eroom low there free ordinary =
      let h1 = bump_inode-WellFormed n s h room in
      let h2 =
        insert_inode-WellFormed (record n { next_inode = bump n.next_inode }) s h1 n.next_inode
          inode (omega arith) (h.inodes_vacant n.next_inode (omega arith) room) in
      let h3 = bump-WellFormed s h2 eroom in
      let h4 =
        link_edge-WellFormed (record s { next_edge = bump s.next_edge }) h3 s.next_edge src
          n.next_inode name (omega arith) (h.index.vacant s.next_edge (omega arith) eroom) free room
          (ground arith) low there (ground arith) (λ nd up at. ground arith) in
      WellFormed_congr settled grown _ h4 (λ i. ground arith)

-- What the checks have established when the graph is first changed.
record Admitted (g : TypeGraph) (src : DirId) (name : String) : Type 0 where
  ordinary : is_bad_name name ≡ false
  free : is_some (resolve_name src name g) ≡ false
  present : is_some (dir_at src (nodes_of g)) ≡ true

module _ (g : TypeGraph) (h : WellFormed g) (src : DirId) (low : src < node_capacity)
    (name : String) (room : g.next_inode < node_capacity)
    (eroom : g.next_edge < edge_capacity) where
  admitted :
      (e e' e'' : GraphError) {u u' u'' : Unit {0}}
      → fail_if (is_bad_name name) e ≡ ok u
      → fail_if (is_some (resolve_name src name g)) e' ≡ ok u'
      → fail_if (not (contains_dir src g)) e'' ≡ ok u''
      → Admitted g src name
  admitted e e' e'' ordinary free present = record {
    ordinary = fail_if-ok _ _ ordinary;
    free = fail_if-ok _ _ free;
    present = present_dir g src (fail_if-ok _ _ present);
  }

  -- The steps of CREATE between its checks and the quotas.
  entered-WellFormed :
      (inode : Inode)
      → inode.link_count ≡ 1
      → Admitted g src name
      → WellFormed (
          add_contains g.next_edge src g.next_inode name
            (insert_inode g.next_inode inode (alloc_edge_id (alloc_inode_id g).1).1))
  unfolding alloc_edge_id alloc_inode_id insert_inode add_contains link_edge
  entered-WellFormed inode one a =
      new_entry-WellFormed (nodes_of g) (index_of g) h src name inode one room eroom low a.present
        (free_name g src name h a.free) (not_dotdot name a.ordinary)

  -- CREATE keeps a well-formed graph well-formed, whether it succeeds or fails, while an inode id
  -- and an edge id are left and the id of the parent is in range.
  pub create_file-WellFormed :
      (fuel : ℕ) (clock : Clock) (uid gid : ℕ) (permissions : Permissions)
      → WellFormed (create_file fuel clock src name uid gid permissions g).1
  unfolding create_file alloc_inode_id alloc_edge_id
  create_file-WellFormed fuel clock uid gid permissions = check_rule WellFormed _ _ g h λ _ _.
      check_rule WellFormed _ _ g h λ _ ordinary. check_rule WellFormed _ _ g h λ _ free.
        check_rule WellFormed _ _ g h λ _ present. check_rule WellFormed _ _ g h λ _ _.
          step_rule WellFormed _ _ _ (
            step_rule WellFormed _ _ _ (
              modify_rule WellFormed _ _ _ (
                modify_rule WellFormed _ _ _ (
                  finished-WellFormed src name fuel _ _ _ _ _
                    (entered-WellFormed _ refl (admitted _ _ _ ordinary free present))))))

  -- SYMLINK keeps a well-formed graph well-formed, whether it succeeds or fails, while an inode id and
  -- an edge id are left and the id of the directory is in range.
  pub make_symlink-WellFormed :
      (fuel : ℕ) (clock : Clock) (target : String) (uid gid : ℕ)
      → WellFormed (make_symlink fuel clock src name target uid gid g).1
  unfolding make_symlink alloc_inode_id alloc_edge_id add_contains insert_inode
  make_symlink-WellFormed fuel clock target uid gid = check_rule WellFormed _ _ g h λ _ _.
      check_rule WellFormed _ _ g h λ _ ordinary. check_rule WellFormed _ _ g h λ _ free.
        check_rule WellFormed _ _ g h λ _ present. check_rule WellFormed _ _ g h λ _ _.
          step_rule WellFormed _ _ _ (
            step_rule WellFormed _ _ _ (
              modify_rule WellFormed _ _ _ (
                modify_rule WellFormed _ _ _ (
                  modify_rule WellFormed _ _ _ (
                    finished-WellFormed src name fuel _ _ _ _ _ (
                      entered-WellFormed (new_symlink g.next_inode (len target) uid gid (clock 0))
                        refl (admitted _ _ _ ordinary free present)))))))

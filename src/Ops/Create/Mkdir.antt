-- ===== src/Ops/Create/Mkdir.antt =====
-- sotfs-ops/src/lib.rs: MKDIR on well-formed graphs.
use sotfs.Base.{
  ℕ, ◌+◌, ◌<◌, ◌≤◌, String, true, false, ◌&&◌, none, some, ◌≡◌, refl, arith, ◌==◌, is_some, str_eq,
  if◌then◌else◌, Option-cases, inl, inr,
}
use sotfs.Map
use sotfs.Map.{Map, id_key, entry_key}
use sotfs.Map.Laws.{get-insert}
use sotfs.Arena
use sotfs.Arena.{to_id}
use sotfs.Types.{InodeId, DirId, EdgeId, Inode, Directory, Permissions, is_directory, new_dir}
use sotfs.Graph.{
  TypeGraph, node_capacity, edge_capacity, bump, alloc_inode_id, alloc_dir_id, alloc_edge_id,
  insert_inode, insert_dir, add_contains, get_inode, get_dir,
}
use sotfs.Graph.Names.{resolve_name}
use sotfs.Graph.Index.{Index, index_of}
use sotfs.Graph.Index.Add.{link_edge}
use sotfs.Graph.Links.Nodes.{Nodes, WellFormed, nodes_of, inode_at, dir_at, IsWellFormed, settled}
use sotfs.Graph.Links.Nodes.Steps.{
  bump_inode-WellFormed, bump_dir-WellFormed, insert_inode-WellFormed, insert_dir-WellFormed,
  WellFormed_congr,
}
use sotfs.Graph.Links.Nodes.Edges.{bump-WellFormed, link_edge-WellFormed}
use sotfs.Ops.Action.{Clock}
use sotfs.Ops.Action.Rules.{check_rule, step_rule, modify_rule}
use sotfs.Ops.Steady.{free_name, fail_if-ok, ok_or-ok}
use sotfs.Ops.Create.Ending.{not_dotdot, finished-WellFormed}
use sotfs.Ops.Create.{mkdir, is_bad_name}

module _ {due : InodeId → ℕ} (n : Nodes) (s : Index) (h : IsWellFormed due n s) where
  -- A directory that is not there has no names.
  vacant_dir_names :
      (d : DirId) (name : String) → dir_at d n ≡ none → Map.get (d, name) s.names ≡ none
  vacant_dir_names d name gone = elim (Option-cases (Map.get (d, name) s.names)) [
    | inl free ↦ free
    | inr (e, at) ↦
        let (t, below, here) = h.index.sound d name e at in
        absurd (ground (arith, h.index.bounded, h.endpoints e d t name))
  ]

-- A new edge leaves every other vacant slot vacant, and every other name as it was.
slot-link_edge :
    (id : EdgeId) (src : DirId) (tgt : InodeId) (name : String) (s : Index) (j : EdgeId)
    → id < edge_capacity
    → j < edge_capacity
    → (id == j) ≡ false
    → Arena.get (to_id j) s.edges ≡ none
    → Arena.get (to_id j) (link_edge id src tgt name s).edges ≡ none
unfolding link_edge Arena.get Arena.insert_at
slot-link_edge id src tgt name s j low lt ne gone = ground arith

names-link_edge :
    (id : EdgeId) (src : DirId) (tgt : InodeId) (name : String) (s : Index) (d : DirId)
    (nm : String)
    → src == d && str_eq name nm ≡ false
    → Map.get (d, nm) s.names ≡ none
    → Map.get (d, nm) (link_edge id src tgt name s).names ≡ none
unfolding link_edge
names-link_edge id src tgt name s d nm ne free =
    ground (arith, get-insert (src, name) (d, nm) id s.names)

module _ (n : Nodes) (s : Index) (h : IsWellFormed settled n s) (src : DirId) (name : String)
    (inode : Inode) (up : InodeId) where
  abbrev ids : Index
  ids = record s { next_edge = bump (bump (bump s.next_edge)) }

  abbrev dir : Directory
  dir = record { id = n.next_dir; inode_id = n.next_inode }

  abbrev grown : Nodes
  grown = record {
    inodes = (Arena.insert_at (to_id n.next_inode) inode n.inodes).1;
    dirs = (Arena.insert_at (to_id n.next_dir) dir n.dirs).1;
    next_inode = bump n.next_inode;
    next_dir = bump n.next_dir;
  }

  abbrev one_edge : Index
  one_edge = link_edge s.next_edge src n.next_inode name ids

  abbrev two_edges : Index
  two_edges = link_edge (bump s.next_edge) n.next_dir n.next_inode "." one_edge

  abbrev three_edges : Index
  three_edges = link_edge (bump (bump s.next_edge)) n.next_dir up ".." two_edges

  module _ (two : inode.link_count ≡ 2) (room : n.next_inode < node_capacity)
      (droom : n.next_dir < node_capacity) (eroom : s.next_edge + 2 < edge_capacity)
      (low : src < node_capacity) (there : is_some (dir_at src n) ≡ true)
      (free : Map.get (src, name) s.names ≡ none) (ordinary : str_eq name ".." ≡ false)
      (up_low : up < node_capacity) (parent : Inode) (up_there : inode_at up n ≡ some parent)
      (up_dir : is_directory parent.vtype ≡ true) where
    abbrev owed : ℕ → InodeId → ℕ
    owed k i = if n.next_inode == i then k else 0

    nodes-WellFormed : IsWellFormed (owed 2) grown ids
    unfolding inode_at dir_at Arena.get Arena.insert_at
    nodes-WellFormed =
        let h1 = bump-WellFormed s h (omega arith) in
        let h2 = bump-WellFormed _ h1 (omega arith) in
        let h3 = bump-WellFormed _ h2 (omega arith) in
        let h4 = bump_inode-WellFormed n ids h3 room in
        let h5 = bump_dir-WellFormed _ ids h4 droom in
        let h6 =
          insert_inode-WellFormed _ ids h5 n.next_inode inode (omega arith)
            (h.inodes_vacant n.next_inode (omega arith) room) in
        let h7 =
          insert_dir-WellFormed _ ids h6 n.next_dir dir (omega arith)
            (h.dirs_vacant n.next_dir (omega arith) droom) in
        WellFormed_congr (owed 2) grown ids h7 (λ i. ground arith)

    src_new : src == n.next_dir ≡ false
    src_new = ground (arith, h.dirs_vacant n.next_dir)

    dir_there :
        (d : DirId)
        → d < node_capacity
        → is_some (dir_at d n) ≡ true
        → is_some (dir_at d grown) ≡ true
    unfolding dir_at Arena.get Arena.insert_at
    dir_there d lt at = ground arith

    inode_new : inode_at n.next_inode grown ≡ some inode
    unfolding inode_at Arena.get Arena.insert_at
    inode_new = ground (arith, h.inodes_vacant n.next_inode)

    up_kept : inode_at up grown ≡ some parent
    unfolding inode_at Arena.get Arena.insert_at
    up_kept = ground (arith, h.inodes_vacant n.next_inode)

    dir_new : is_some (dir_at n.next_dir grown) ≡ true
    unfolding dir_at Arena.get Arena.insert_at
    dir_new = ground (arith, h.dirs_vacant n.next_dir)

    gone : dir_at n.next_dir n ≡ none
    gone = h.dirs_vacant n.next_dir (omega arith) droom

    slot : (k : ℕ) → s.next_edge ≤ k → k < edge_capacity → Arena.get (to_id k) ids.edges ≡ none
    slot k le lt = h.index.vacant k le lt

    entry-WellFormed : IsWellFormed (owed 1) grown one_edge
    entry-WellFormed =
        let w =
          link_edge-WellFormed ids nodes-WellFormed s.next_edge src n.next_inode name (omega arith)
            (slot s.next_edge (omega arith) (omega arith)) free room (ground (arith, inode_new)) low
            (dir_there src low there) (ground arith) (λ nd up_name at. ground arith) in
        WellFormed_congr (owed 1) grown one_edge w (λ i. ground arith)

    dot-WellFormed : IsWellFormed settled grown two_edges
    unfolding link_edge
    dot-WellFormed =
        let e = bump s.next_edge in
        let w =
          link_edge-WellFormed one_edge entry-WellFormed e n.next_dir n.next_inode "." (omega arith)
            (slot-link_edge s.next_edge src n.next_inode name ids e (omega arith) (omega arith)
              (ground arith) (slot e (omega arith) (omega arith)))
            (names-link_edge s.next_edge src n.next_inode name ids n.next_dir "."
              (ground (arith, src_new)) (vacant_dir_names n s h n.next_dir "." gone))
            room (ground (arith, inode_new)) droom dir_new (ground arith)
            (λ nd up_name at. ground arith) in
        WellFormed_congr settled grown two_edges w (λ i. ground arith)

    -- The nodes and the three edges of a new directory.
    new_dir-WellFormed : IsWellFormed settled grown three_edges
    unfolding link_edge
    new_dir-WellFormed =
        let e1 = bump s.next_edge in
        let e2 = bump e1 in
        let w =
          link_edge-WellFormed two_edges dot-WellFormed e2 n.next_dir up ".." (omega arith)
            (slot-link_edge e1 n.next_dir n.next_inode "." one_edge e2 (omega arith) (omega arith)
              (ground arith)
              (slot-link_edge s.next_edge src n.next_inode name ids e2 (omega arith) (omega arith)
                (ground arith) (slot e2 (omega arith) (omega arith))))
            (names-link_edge e1 n.next_dir n.next_inode "." one_edge n.next_dir ".." (ground arith)
              (names-link_edge s.next_edge src n.next_inode name ids n.next_dir ".."
                (ground (arith, src_new)) (vacant_dir_names n s h n.next_dir ".." gone)))
            up_low (ground (arith, up_kept)) droom dir_new (ground arith)
            (λ nd up_name at. ground (arith, up_kept)) in
        WellFormed_congr settled grown three_edges w (λ i. ground arith)

module _ (g : TypeGraph) (h : WellFormed g) (src : DirId) (low : src < node_capacity)
    (name : String) (room : g.next_inode < node_capacity) (droom : g.next_dir < node_capacity)
    (eroom : g.next_edge + 2 < edge_capacity)
    (paired : (p : Directory)
      → get_dir src g ≡ some p
      → (inode : Inode) × (p.inode_id < node_capacity)
        × (get_inode p.inode_id g ≡ some inode)
        × (is_directory inode.vtype ≡ true)) where
  made : Directory → Inode → TypeGraph
  unfolding alloc_inode_id alloc_dir_id alloc_edge_id insert_inode insert_dir add_contains
  made p inode =
      let (ino, g1) = alloc_inode_id g in
      let (dir, g2) = alloc_dir_id g1 in
      let (entry_edge, g3) = alloc_edge_id g2 in
      let (dot_edge, g4) = alloc_edge_id g3 in
      let (dotdot_edge, g5) = alloc_edge_id g4 in
      add_contains dotdot_edge dir p.inode_id ".." (
        add_contains dot_edge dir ino "." (
          add_contains entry_edge src ino name
            (insert_dir dir (record { id = dir; inode_id = ino }) (insert_inode ino inode g5))))

  made-WellFormed :
      (p : Directory) (inode : Inode)
      → inode.link_count ≡ 2
      → is_bad_name name ≡ false
      → is_some (resolve_name src name g) ≡ false
      → get_dir src g ≡ some p
      → WellFormed (made p inode)
  unfolding made link_edge get_inode inode_at get_dir dir_at
  made-WellFormed p inode two ordinary free there =
      let (up, up_low, up_there, up_dir) = paired p there in
      new_dir-WellFormed (nodes_of g) (index_of g) h src name inode p.inode_id two room droom eroom
        low (ground arith) (free_name g src name h free) (not_dotdot name ordinary) up_low up
        up_there up_dir

  -- MKDIR keeps a well-formed graph well-formed, whether it succeeds or fails, while an inode id, a
  -- directory id and three edge ids are left, the id of the parent is in range, and the inode of
  -- the parent is there and is a directory.
  pub mkdir-WellFormed :
      (fuel : ℕ) (clock : Clock) (uid gid : ℕ) (permissions : Permissions)
      → WellFormed (mkdir fuel clock src name uid gid permissions g).1
  unfolding mkdir made
  mkdir-WellFormed fuel clock uid gid permissions = check_rule WellFormed _ _ g h λ _ _.
      check_rule WellFormed _ _ g h λ _ ordinary. check_rule WellFormed _ _ g h λ _ free.
        check_rule WellFormed _ _ g h λ p there. check_rule WellFormed _ _ g h λ _ _.
          let w =
            made-WellFormed p
              (record (new_dir g.next_inode permissions uid gid (clock 0)) { link_count = 2 }) refl
              (fail_if-ok _ _ ordinary) (fail_if-ok _ _ free) (ok_or-ok _ _ there) in
          step_rule WellFormed _ _ _ (
            step_rule WellFormed _ _ _ (
              step_rule WellFormed _ _ _ (
                step_rule WellFormed _ _ _ (
                  step_rule WellFormed _ _ _ (
                    modify_rule WellFormed _ _ _ (
                      modify_rule WellFormed _ _ _ (
                        modify_rule WellFormed _ _ _ (
                          modify_rule WellFormed _ _ _ (
                            modify_rule WellFormed _ _ _
                              (finished-WellFormed src name fuel _ _ _ _ _ w))))))))))

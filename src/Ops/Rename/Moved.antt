-- ===== src/Ops/Rename/Moved.antt =====
-- sotfs-ops/src/lib.rs: RENAME on well-formed graphs.
use sotfs.Base.{
  ℕ, ◌<◌, String, Bool, true, false, ◌||◌, none, some, [], ◌≡◌, refl, sym, ap, ◌∙◌, arith, ◌==◌,
  ==_iff, is_some, str_eq, if◌then◌else◌,
}
use mathlib.Core.Path.{subst, subst₂}
use sotfs.Map
use sotfs.Map.{Map, id_key, entry_key, or_default}
use sotfs.Map.Laws.{get-remove}
use sotfs.Types.{InodeId, DirId, EdgeId, Edge, Directory}
use sotfs.Error.{ok}
use sotfs.Graph.{
  TypeGraph, node_capacity, edge_capacity, bump, get_dir, get_edge, remove_edge, drop_outgoing,
  drop_incoming, alloc_edge_id, add_contains, contains_dir,
}
use sotfs.Graph.Names.{resolve_name, dir_for_inode}
use sotfs.Graph.Index.{Index, index_of, entry}
use sotfs.Graph.Index.Add.{link_edge}
use sotfs.Graph.Index.Drop.{cut_edge, index_of-remove_edge}
use sotfs.Graph.Links.Nodes.{nodes_of, inode_at, dir_at, IsWellFormed, WellFormed, settled}
use sotfs.Graph.Links.Nodes.Steps.{WellFormed_congr}
use sotfs.Graph.Links.Nodes.Edges.{bump-WellFormed, link_edge-WellFormed, cut_edge-WellFormed}
use sotfs.Graph.Links.Nodes.Renamed.{rename_contains_edge-WellFormed}
use sotfs.Ops.Action.{Clock}
use sotfs.Ops.Action.Rules.{
  check_rule, gets_rule, modify_rule, step_rule, when_rule, bound_rule, bind_rule, last_rule,
}
use sotfs.Ops.Steady.{free_name, fail_if-ok, logged-WellFormed, present_dir}
use sotfs.Ops.Link.{is_dot_name}
use sotfs.Ops.Link.Freed.{AllOther, nodes_of-remove_edge}
use sotfs.Ops.Rmdir.Placed.{IsPlaced}
use sotfs.Ops.Rename.{rename, rename_same_dir, rename_cross_dir, source_edge}
use sotfs.Ops.Rename.Directories.{IsDirInode, dir_inode}
use sotfs.Ops.Rename.Replaced.{Replaced, replace-WellFormed, replace-Ends, source_edge_sound}
use sotfs.Ops.Rename.Dotdot.{move_dotdot-WellFormed}

abbrev cut : EdgeId → DirId → InodeId → TypeGraph → TypeGraph
cut e d t g = drop_incoming t e (drop_outgoing d e (remove_edge e g).1)

-- The edge under its new name in the new directory.
abbrev moved : EdgeId → DirId → DirId → InodeId → String → TypeGraph → TypeGraph
moved e src dst t name g =
    let (id, g') = alloc_edge_id (cut e src t g) in add_contains id dst t name g'

nodes_of-moved :
    (e : EdgeId) (src dst : DirId) (t : InodeId) (new : String) (g : TypeGraph)
    → nodes_of (moved e src dst t new g) ≡ nodes_of g
unfolding alloc_edge_id add_contains drop_incoming drop_outgoing
nodes_of-moved e src dst t new g = nodes_of-remove_edge e g

module _ (g : TypeGraph) (h : WellFormed g) (e i : EdgeId) (src dst : DirId) (t : InodeId)
    (old new : String) (low : e < edge_capacity)
    (at : get_edge e g ≡ some (Edge.contains i src t old))
    (here : entry e (index_of g) ≡ some (src, t, old)) (plain : str_eq old ".." ≡ false)
    (plain' : str_eq new ".." ≡ false) (room : g.next_edge < edge_capacity)
    (free : Map.get (dst, new) g.dir_name_idx ≡ none) (dlow : dst < node_capacity)
    (there : is_some (dir_at dst (nodes_of g)) ≡ true) where
  abbrev bumped : Index
  bumped = record (cut_edge e src t old (index_of g)) { next_edge = bump g.next_edge }

  moved_index : IsWellFormed settled (nodes_of g) (link_edge g.next_edge dst t new bumped)
  unfolding cut_edge
  moved_index =
      let (tlow, t_there, slow, s_there) = h.endpoints e src t old low here in
      let h1 = cut_edge-WellFormed (index_of g) h e src t old low here in
      let h2 = bump-WellFormed _ h1 room in
      let h3 =
        link_edge-WellFormed bumped h2 g.next_edge dst t new (omega arith)
          (h1.index.vacant g.next_edge (omega arith) room)
          (ground (arith, get-remove (src, old) (dst, new) g.dir_name_idx, free)) tlow t_there dlow
          there (ground (arith, plain)) (λ nd up is_at. ground (arith, plain')) in
      WellFormed_congr settled _ _ h3 (λ j. ground (arith, plain, plain'))

  index_of-moved : index_of (moved e src dst t new g) ≡ link_edge g.next_edge dst t new bumped
  unfolding alloc_edge_id add_contains link_edge cut_edge
  index_of-moved =
      ap
        (λ (s : Index). link_edge s.next_edge dst t new (record s { next_edge = bump s.next_edge }))
        (index_of-remove_edge e i src t old g at)

  moved-WellFormed : WellFormed (moved e src dst t new g)
  moved-WellFormed =
      subst₂ (IsWellFormed settled) (sym (nodes_of-moved e src dst t new g)) (sym index_of-moved)
        moved_index

-- What RENAME asks of its destination: a directory there stands in the tree, and the inode of the
-- destination's directory is there, is a directory, and leads back to it.
pub record IsDestination (g : TypeGraph) (dir : DirId) (name : String) : Type 0 where
  pub tree :
      (target : InodeId) (target_dir : DirId)
      → resolve_name dir name g ≡ some target
      → dir_for_inode target g ≡ some target_dir
      → IsPlaced g dir name target target_dir
  pub paired :
      (p : Directory)
      → get_dir dir g ≡ some p
      → (p.inode_id < node_capacity)
        × (dir_for_inode p.inode_id g ≡ some dir)
        × IsDirInode p.inode_id g

dot_names :
    (a b : String)
    → (is_dot_name a || is_dot_name b) ≡ false
    → (is_dot_name a ≡ false) × (is_dot_name b ≡ false)
dot_names a b h = ground arith

module _ (g : TypeGraph) (h : WellFormed g) (src_dir : DirId) (src_name : String) (dst_dir : DirId)
    (dst_name : String)
    (blocks : (i : InodeId) → AllOther (or_default [] (Map.get i g.inode_points_to)) g)
    (goal : IsDestination g dst_dir dst_name) (plain : is_dot_name src_name ≡ false)
    (plain' : is_dot_name dst_name ≡ false) where
  same_dir-WellFormed :
      (fuel : ℕ) (clock : Clock)
      → WellFormed (rename_same_dir fuel clock dst_dir src_name dst_name g).1
  unfolding rename_same_dir
  same_dir-WellFormed fuel clock = check_rule WellFormed _ _ g h λ src_inode _.
      when_rule WellFormed _ _ g h λ _. gets_rule WellFormed _ _ g (
        let existing = resolve_name dst_dir dst_name g in
        bound_rule WellFormed _ _ g
          (replace-WellFormed g h dst_dir dst_name blocks goal.tree plain' fuel clock existing)
          λ done was_ok.
            let w =
              replace-WellFormed g h dst_dir dst_name blocks goal.tree plain' fuel clock existing in
            let r =
              (replace-Ends g h dst_dir dst_name blocks goal.tree plain' fuel clock existing
                  refl).ends
                tt was_ok in
            check_rule WellFormed _ _ _ w λ eid found.
              let (i, low, at, here) = source_edge_sound _ dst_dir src_name src_inode eid w found in
              last_rule WellFormed _ _ (
                rename_contains_edge-WellFormed _ w eid i dst_dir src_inode src_name dst_name low at
                  (free_name _ dst_dir dst_name w (ap is_some r.free)) (ground (arith, plain))
                  (ground (arith, plain'))))

  module _ (dlow : dst_dir < node_capacity) (present : contains_dir dst_dir g ≡ true)
      (room : g.next_edge < edge_capacity) where
    there : is_some (dir_at dst_dir (nodes_of g)) ≡ true
    there = present_dir g dst_dir (rw present refl)

    -- The edge moves after the destination has been made free.
    cross_moved :
        (g' : TypeGraph) (src_inode eid : ℕ)
        → WellFormed g'
        → Replaced g h dst_dir dst_name blocks goal.tree plain' tt g'
        → source_edge src_dir src_name src_inode g' ≡ ok eid
        → WellFormed (moved eid src_dir dst_dir src_inode dst_name g')
    cross_moved g' src_inode eid w r found =
        let (i, low, at, here) = source_edge_sound g' src_dir src_name src_inode eid w found in
        moved-WellFormed g' w eid i src_dir dst_dir src_inode src_name dst_name low at here
          (ground (arith, plain)) (ground (arith, plain')) (omega (arith, r.same_next))
          (free_name g' dst_dir dst_name w (ap is_some r.free)) dlow
          (ap is_some (r.same_dir dlow) ∙ there)

    parent_kept :
        (g' : TypeGraph) (src_inode eid : ℕ)
        → Replaced g h dst_dir dst_name blocks goal.tree plain' tt g'
        → (p : Directory)
        → get_dir dst_dir (moved eid src_dir dst_dir src_inode dst_name g') ≡ some p
        → (p.inode_id < node_capacity)
          × IsDirInode p.inode_id (moved eid src_dir dst_dir src_inode dst_name g')
    parent_kept g' src_inode eid r p is_p =
        let same = nodes_of-moved eid src_dir dst_dir src_inode dst_name g' in
        let (low, own, dir) =
          goal.paired p
            (unfold get_dir dir_at in sym (ap (dir_at dst_dir) same ∙ r.same_dir dlow) ∙ is_p) in
        (
          low,
          ap (λ n. dir_inode (inode_at p.inode_id n)) same ∙ r.same_inode p.inode_id low own dir,
        )

    cross_dir-WellFormed :
        (fuel : ℕ) (clock : Clock)
        → WellFormed (rename_cross_dir fuel clock src_dir src_name dst_dir dst_name g).1
    unfolding rename_cross_dir
    cross_dir-WellFormed fuel clock = check_rule WellFormed _ _ g h λ src_inode _.
        gets_rule WellFormed _ _ g (
          check_rule WellFormed _ _ g h λ _ _.
            let existing = resolve_name dst_dir dst_name g in
            let w =
              replace-WellFormed g h dst_dir dst_name blocks goal.tree plain' fuel clock existing in
            bound_rule WellFormed _ _ g w λ done was_ok.
              let r =
                (replace-Ends g h dst_dir dst_name blocks goal.tree plain' fuel clock existing
                    refl).ends
                  tt was_ok in
              check_rule WellFormed _ _ _ w λ eid found. modify_rule WellFormed _ _ _ (
                modify_rule WellFormed _ _ _ (
                  modify_rule WellFormed _ _ _ (
                    step_rule WellFormed _ _ _ (
                      modify_rule WellFormed _ _ _ (
                        last_rule WellFormed _ _ (
                          move_dotdot-WellFormed _ src_inode dst_dir
                            (cross_moved _ src_inode eid w r found)
                            (parent_kept _ src_inode eid r))))))))

    either :
        (fuel : ℕ) (clock : Clock) (b : Bool)
        → (src_dir == dst_dir) ≡ b
        → WellFormed
            ((if b
                then rename_same_dir fuel clock src_dir src_name dst_name
                else rename_cross_dir fuel clock src_dir src_name dst_dir dst_name)
              g).1
    either fuel clock true same =
        subst (λ d. WellFormed (rename_same_dir fuel clock d src_name dst_name g).1)
          (sym ((==_iff src_dir dst_dir).0 same)) (same_dir-WellFormed fuel clock)
    either fuel clock false other = cross_dir-WellFormed fuel clock

-- RENAME keeps a well-formed graph well-formed, whether it succeeds or fails, within one directory
-- and across two, and also where it replaces what stands at the destination: while an edge id is
-- left, the destination's directory is there with its id in range, its inode is a directory that
-- leads back to it, a directory that is replaced stands in the tree, and the edges that
-- `inode_points_to` lists are in range and none of them is a `Contains` edge.
pub rename-WellFormed :
    (g : TypeGraph) (src_dir : DirId) (src_name : String) (dst_dir : DirId) (dst_name : String)
    (fuel : ℕ) (clock : Clock)
    → WellFormed g
    → ((i : InodeId) → AllOther (or_default [] (Map.get i g.inode_points_to)) g)
    → IsDestination g dst_dir dst_name
    → dst_dir < node_capacity
    → contains_dir dst_dir g ≡ true
    → g.next_edge < edge_capacity
    → WellFormed (rename fuel clock src_dir src_name dst_dir dst_name g).1
unfolding rename
rename-WellFormed g src_dir src_name dst_dir dst_name fuel clock h blocks goal dlow present room =
    check_rule WellFormed _ _ g h λ _ _. check_rule WellFormed _ _ g h λ _ named.
      let (plain, plain') = dot_names src_name dst_name (fail_if-ok _ _ named) in
      bind_rule WellFormed _ _ g
        (either g h src_dir src_name dst_dir dst_name blocks goal plain plain' dlow present room
          fuel clock (src_dir == dst_dir) refl)
        (λ _ g' w.
          gets_rule WellFormed _ _ g' (last_rule WellFormed _ _ (logged-WellFormed _ _ _ _ g' w)))

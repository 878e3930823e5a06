-- ===== src/Ops/Rmdir/Removed.antt =====
-- sotfs-ops/src/lib.rs: RMDIR on well-formed graphs.
use sotfs.Base.{
  ℕ, ◌<◌, String, true, false, ◌&&◌, ◌||◌, none, some, List, ◌≡◌, refl, ap, ◌∙◌, arith, ◌==◌, inl,
  inr, if◌then◌else◌, Option-cases, Bool-cases,
}
use sotfs.Map
use sotfs.Map.{id_key, entry_key, or_default}
use sotfs.Map.Sets
use sotfs.Arena
use sotfs.Types.{InodeId, DirId, EdgeId, Inode}
use sotfs.Graph.{TypeGraph, node_capacity, edge_capacity, get_edge, remove_inode, remove_dir}
use sotfs.Graph.Names.{resolve_name, dir_for_inode}
use sotfs.Graph.Index.{index_of, entry, entry_of, edges_from, enters, leaves}
use sotfs.Graph.Links.Nodes.{Nodes, nodes_of, inode_at, dir_at, WellFormed, settled}
use sotfs.Graph.Links.Nodes.Steps.{
  remove_inode-WellFormed, remove_dir-WellFormed, absolved-WellFormed,
}
use sotfs.Graph.Links.Nodes.Keys.{forget_incoming-WellFormed, forget_outgoing-WellFormed}
use sotfs.Ops.Action.{Clock}
use sotfs.Ops.Action.Rules.{check_rule, modify_rule, gets_rule, bind_rule, last_rule}
use sotfs.Ops.Quota.{minus}
use sotfs.Ops.Steady.{update_quota-WellFormed, fail_if-ok, ok_or-ok, logged-WellFormed}
use sotfs.Ops.Rmdir.{
  rmdir, has_entries, is_entry_of, parent_entries, edges_to_remove, remove_entries,
}
use sotfs.Ops.Rmdir.Entries.{Emptied, MayGo, remove_entries-Emptied}
use sotfs.Ops.Rmdir.Placed.{
  IsPlaced, contains-append, contains-parent_entries, has_entries_none, resolved_low, entry_MayGo,
  parent_MayGo, is_entry_of-contains,
}

module _ (g : TypeGraph) (h : WellFormed g) (parent : DirId) (name : String) (target : InodeId)
    (target_dir : DirId) (placed : IsPlaced g parent name target target_dir)
    (tlow : target < node_capacity)
    (empty : has_entries g (edges_from target_dir (index_of g)) ≡ false) where
  abbrev pub gone : List EdgeId
  gone = edges_to_remove parent name target target_dir g

  pub in_gone :
      (e : EdgeId)
      → Sets.contains e gone ≡ (
          Sets.contains e (edges_from parent (index_of g)) && is_entry_of target name (get_edge e g)
          || Sets.contains e (edges_from target_dir (index_of g)))
  unfolding edges_to_remove
  in_gone e =
      contains-append e (parent_entries target name g (edges_from parent (index_of g)))
        (edges_from target_dir (index_of g))
      ∙ ap (λ b. b || Sets.contains e (edges_from target_dir (index_of g)))
          (contains-parent_entries target name g e (edges_from parent (index_of g)))

  module _ (e : EdgeId) (lt : e < edge_capacity) where
    own_leaves :
        Sets.contains e (edges_from target_dir (index_of g)) ≡ true
        → (d : DirId) (t : InodeId) (n : String) → entry e (index_of g) ≡ some (d, t, n)
        → entry e (index_of g) ≡ some (target_dir, t, n)
    own_leaves m d t n at = ground (arith, h.index.from_exact target_dir e lt)

    own_MayGo :
        Sets.contains e (edges_from target_dir (index_of g)) ≡ true
        → MayGo target (entry e (index_of g))
    unfolding entry get_edge
    own_MayGo m =
        entry_MayGo target (get_edge e g)
          (has_entries_none g e (edges_from target_dir (index_of g)) empty m)
          (λ d t at. placed.dot e t lt (own_leaves m d t "." at))

    up_MayGo : is_entry_of target name (get_edge e g) ≡ true → MayGo target (entry e (index_of g))
    unfolding entry get_edge
    up_MayGo hit = parent_MayGo target name (get_edge e g) hit

    all_MayGo : Sets.contains e gone ≡ true → MayGo target (entry e (index_of g))
    all_MayGo m = elim (Bool-cases (Sets.contains e (edges_from target_dir (index_of g)))) [
      | inl own ↦ own_MayGo own
      | inr up ↦ up_MayGo (ground (arith, in_gone e))
    ]

    -- What leaves the directory goes, and what enters it.
    leaves-gone : leaves target_dir (entry e (index_of g)) ≡ true → Sets.contains e gone ≡ true
    leaves-gone out = ground (arith, in_gone e, h.index.from_exact target_dir e lt)

    from_entry :
        (d : DirId) (n : String)
        → n ≡ name
        → entry e (index_of g) ≡ some (d, target, n)
        → entry_of (get_edge e g) ≡ some (d, target, name)
    unfolding entry get_edge
    from_entry d n named here = here ∙ ap (λ m. some (d, target, m)) named

    enters-gone : enters target (entry e (index_of g)) ≡ true → Sets.contains e gone ≡ true
    enters-gone into = elim (Option-cases (entry e (index_of g))) [
      | inl nothing ↦ absurd (ground (arith, nothing))
      | inr ((d, t, n), at) ↦
          let here : entry e (index_of g) ≡ some (d, target, n) = ground (arith, at) in
          elim (placed.sole e d n lt here) [
            | inl own ↦ leaves-gone (ground (arith, at, own))
            | inr (from, named) ↦ ground (
              arith,
              in_gone e,
              h.index.from_exact parent e lt,
              is_entry_of-contains target name (get_edge e g) d (from_entry d n named here),
            )
          ]
    ]

  listed :
      (e : EdgeId)
      → Sets.contains e gone ≡ true
      → (e < edge_capacity) × MayGo target (entry e (index_of g))
  listed e m =
      let lt : e < edge_capacity = ground (
        arith,
        in_gone e,
        h.index.from_below parent e,
        h.index.from_below target_dir e,
        h.index.bounded,
      ) in
      (lt, all_MayGo e lt m)

  emptied : Emptied target gone g (remove_entries gone g)
  emptied = remove_entries-Emptied target gone settled g h (λ i ne. refl) listed

  -- The graph after the loop, without the inode and the directory node.
  abbrev pub node_gone : TypeGraph
  node_gone = remove_dir target_dir (remove_inode target (remove_entries gone g))

  abbrev pub finished : TypeGraph
  finished = record node_gone {
    dir_contains = Map.remove target_dir node_gone.dir_contains;
    inode_incoming_contains = Map.remove target node_gone.inode_incoming_contains;
  }

  no_leaver :
      (e : EdgeId)
      → e < edge_capacity
      → leaves target_dir (entry e (index_of (remove_entries gone g))) ≡ false
  no_leaver e lt = ground (arith, emptied.entries e lt, leaves-gone e lt)

  no_enterer :
      (e : EdgeId)
      → e < edge_capacity
      → enters target (entry e (index_of (remove_entries gone g))) ≡ false
  no_enterer e lt = ground (arith, emptied.entries e lt, enters-gone e lt)

  left_inode :
      (i : InodeId) (inode : Inode)
      → i < node_capacity
      → inode_at i (nodes_of finished) ≡ some inode
      → (target == i) ≡ false
  unfolding remove_inode remove_dir inode_at Arena.get Arena.remove
  left_inode i inode lt at = ground (arith, tlow)

  pub finished-entry :
      (e : EdgeId)
      → e < edge_capacity
      → entry e (index_of finished) ≡ (if Sets.contains e gone then none else entry e (index_of g))
  unfolding remove_inode remove_dir entry
  finished-entry e lt = emptied.entries e lt

  pub finished-dir :
      (d : DirId)
      → d < node_capacity
      → dir_at d (nodes_of finished) ≡ (if target_dir == d then none else dir_at d (nodes_of g))
  unfolding remove_inode remove_dir dir_at Arena.get Arena.remove
  finished-dir d lt =
      ground (arith, placed.low)
      ∙ ap (λ (n : Nodes). if target_dir == d then none else dir_at d n) emptied.same_nodes

  pub finished_next : finished.next_edge ≡ g.next_edge
  unfolding remove_inode remove_dir
  finished_next = emptied.same_next

  pub finished-inode :
      (i : InodeId)
      → i < node_capacity
      → inode_at i (nodes_of finished) ≡ (if target == i then none else inode_at i (nodes_of g))
  unfolding remove_inode remove_dir inode_at Arena.get Arena.remove
  finished-inode i lt =
      ground (arith, tlow)
      ∙ ap (λ (n : Nodes). if target == i then none else inode_at i n) emptied.same_nodes

  finished-WellFormed : WellFormed finished
  unfolding remove_inode remove_dir entry
  finished-WellFormed =
      let g1 = remove_entries gone g in
      let h1 =
        remove_inode-WellFormed (nodes_of g1) (index_of g1) emptied.formed target tlow no_enterer in
      let h2 = remove_dir-WellFormed _ _ h1 target_dir placed.low no_leaver in
      let h3 = forget_outgoing-WellFormed _ _ h2 target_dir no_leaver in
      let h4 = forget_incoming-WellFormed _ _ h3 target no_enterer in
      absolved-WellFormed settled _ _ h4 (λ i nd lt at. emptied.elsewhere i (left_inode i nd lt at))

-- RMDIR keeps a well-formed graph well-formed, whether it succeeds or fails, where the directory
-- that the name leads to stands in the tree: its id is in range, its "." leads to its own inode,
-- and only the name and its own entries lead there.
pub rmdir-WellFormed :
    (g : TypeGraph) (parent : DirId) (name : String) (fuel : ℕ) (clock : Clock)
    → WellFormed g
    → ((target : InodeId) (target_dir : DirId)
        → resolve_name parent name g ≡ some target
        → dir_for_inode target g ≡ some target_dir
        → IsPlaced g parent name target target_dir)
    → WellFormed (rmdir fuel clock parent name g).1
unfolding rmdir
rmdir-WellFormed g parent name fuel clock h tree = check_rule WellFormed _ _ g h λ _ _.
    check_rule WellFormed _ _ g h λ _ _. check_rule WellFormed _ _ g h λ target found.
      check_rule WellFormed _ _ g h λ _ _. check_rule WellFormed _ _ g h λ _ _.
        check_rule WellFormed _ _ g h λ target_dir there. check_rule WellFormed _ _ g h λ _ empty.
          let placed = tree target target_dir (ok_or-ok _ _ found) (ok_or-ok _ _ there) in
          let w =
            finished-WellFormed g h parent name target target_dir placed
              (resolved_low g parent name target h (ok_or-ok _ _ found)) (fail_if-ok _ _ empty) in
          gets_rule WellFormed _ _ _ (
            modify_rule WellFormed _ _ _ (
              modify_rule WellFormed _ _ _ (
                modify_rule WellFormed _ _ _ (
                  modify_rule WellFormed _ _ _ (
                    modify_rule WellFormed _ _ _ (
                      bind_rule WellFormed _ _ _
                        (update_quota-WellFormed (minus 1) (minus 0) fuel parent _ w)
                        (λ _ g' w'.
                          last_rule WellFormed _ _ (logged-WellFormed _ _ _ _ g' w'))))))))

-- ===== src/Ops/Rmdir/Unlisted.antt =====
-- sotfs-ops/src/lib.rs: RMDIR as a change of the names and of the directories of the file system.
use sotfs.Base.{
  ℕ, ◌<◌, String, false, ◌&&◌, ◌||◌, none, some, ◌≡◌, sym, ap, ◌∙◌, arith, ◌==◌, eq_iff, str_eq,
  if◌then◌else◌,
}
use mathlib.Core.Option
use sotfs.Map.{id_key}
use sotfs.Map.Sets
use sotfs.Types.{InodeId, DirId, EdgeId}
use sotfs.Error.{ok}
use sotfs.Graph.{TypeGraph, node_capacity, edge_capacity, get_edge}
use sotfs.Graph.Names.{resolve_name, dir_for_inode}
use sotfs.Graph.Prov.{record_prov}
use sotfs.Graph.Index.{index_of, entry, edges_from}
use sotfs.Graph.Index.Resolve.{meaning, resolve_name-meaning}
use sotfs.Graph.Index.Update.{meaning_removed}
use sotfs.Graph.Links.Nodes.{nodes_of, dir_at, inode_at, WellFormed}
use sotfs.Provenance.{ProvOp}
use sotfs.Ops.Action.{Clock}
use sotfs.Ops.Action.Success.{Ends, check-Ends, gets-Ends, bind-Ends, modify-Ends, last-Ends}
use sotfs.Ops.Quota.{minus, update_quota}
use sotfs.Ops.Quota.Charge.{update_quota_keeps}
use sotfs.Ops.Steady.{fail_if-ok, ok_or-ok}
use sotfs.Ops.Rmdir.{rmdir, has_entries, edges_to_remove}
use sotfs.Ops.Rmdir.Entries.{contains_edge}
use sotfs.Ops.Rmdir.Removed.{
  in_gone, finished, finished-entry, finished-dir, finished-inode, finished_next, rmdir-WellFormed,
}
use sotfs.Ops.Rmdir.Placed.{IsPlaced, resolved_low}

-- An edge resolves its name.
pub resolves :
    (g : TypeGraph) (h : WellFormed g) (e : EdgeId) (d : DirId) (t : InodeId) (n : String)
    → e < edge_capacity
    → entry e (index_of g) ≡ some (d, t, n)
    → resolve_name d n g ≡ some t
unfolding meaning
resolves g h e d t n lt here =
    ground (arith, resolve_name-meaning g h.index d n, h.index.complete d t n e lt here, here)

module _ (g : TypeGraph) (h : WellFormed g) (parent : DirId) (name : String)
    (tree : (target : InodeId) (target_dir : DirId)
      → resolve_name parent name g ≡ some target
      → dir_for_inode target g ≡ some target_dir
      → IsPlaced g parent name target target_dir) where
  -- What a removal that succeeds has found and left.
  pub record Cleared (done : Unit {0}) (g' : TypeGraph) : Type 0 where
    pub target : InodeId
    pub target_dir : DirId
    pub found : resolve_name parent name g ≡ some target
    pub node : dir_for_inode target g ≡ some target_dir
    pub empty : has_entries g (edges_from target_dir (index_of g)) ≡ false
    pub entries :
        (e : EdgeId)
        → e < edge_capacity
        → entry e (index_of g') ≡ (
            if Sets.contains e (edges_to_remove parent name target target_dir g)
            then none
            else entry e (index_of g))
    pub dirs :
        (d : DirId)
        → d < node_capacity
        → dir_at d (nodes_of g') ≡ (if target_dir == d then none else dir_at d (nodes_of g))
    pub same_next : g'.next_edge ≡ g.next_edge
    pub inodes :
        (i : InodeId)
        → i < node_capacity
        → inode_at i (nodes_of g') ≡ (if target == i then none else inode_at i (nodes_of g))

  module _ (target : InodeId) (target_dir : DirId)
      (found : resolve_name parent name g ≡ some target)
      (node : dir_for_inode target g ≡ some target_dir)
      (empty : has_entries g (edges_from target_dir (index_of g)) ≡ false) where
    abbrev end : TypeGraph
    end =
        finished g h parent name target target_dir (tree target target_dir found node)
          (resolved_low g parent name target h found) empty

    Cleared-by :
        (fuel now : ℕ)
        → Cleared tt (
            record_prov now ProvOp.rmdir target name
              (update_quota fuel parent (minus 1) (minus 0) end).1)
    unfolding record_prov
    Cleared-by fuel now = record {
      target = target;
      target_dir = target_dir;
      found = found;
      node = node;
      empty = empty;
      entries = λ e lt. rw (update_quota_keeps (minus 1) (minus 0) fuel parent end) (
          finished-entry g h parent name target target_dir (tree target target_dir found node)
            (resolved_low g parent name target h found) empty e lt);
      dirs = λ d lt. rw (update_quota_keeps (minus 1) (minus 0) fuel parent end) (
          finished-dir g h parent name target target_dir (tree target target_dir found node)
            (resolved_low g parent name target h found) empty d lt);
      same_next =
          ap (λ (k : TypeGraph). k.next_edge)
            (update_quota_keeps (minus 1) (minus 0) fuel parent end)
          ∙ finished_next g h parent name target target_dir (tree target target_dir found node)
              (resolved_low g parent name target h found) empty;
      inodes = λ i lt. rw (update_quota_keeps (minus 1) (minus 0) fuel parent end) (
          finished-inode g h parent name target target_dir (tree target target_dir found node)
            (resolved_low g parent name target h found) empty i lt);
    }

  pub cleared : (fuel : ℕ) (clock : Clock) → Ends Cleared (rmdir fuel clock parent name) g
  unfolding rmdir
  cleared fuel clock = check-Ends _ _ _ g λ _ _. check-Ends _ _ _ g λ _ _.
      check-Ends _ _ _ g λ target found. check-Ends _ _ _ g λ _ _. check-Ends _ _ _ g λ _ _.
        check-Ends _ _ _ g λ target_dir there. check-Ends _ _ _ g λ _ empty. gets-Ends _ _ _ _ (
          modify-Ends _ _ _ _ (
            modify-Ends _ _ _ _ (
              modify-Ends _ _ _ _ (
                modify-Ends _ _ _ _ (
                  modify-Ends _ _ _ _ (
                    bind-Ends _ _ _ _ λ _ _. last-Ends _ _ _ (
                      Cleared-by target target_dir (ok_or-ok _ _ found) (ok_or-ok _ _ there)
                        (fail_if-ok _ _ empty) fuel (clock 0))))))))

  -- Which names go: the one that was given, and those of the directory that it led to.
  picks :
      {g' : TypeGraph} (c : Cleared tt g') (e : EdgeId) (d : DirId) (t : InodeId) (n : String)
      → e < edge_capacity
      → entry e (index_of g) ≡ some (d, t, n)
      → Sets.contains e (edges_to_remove parent name c.target c.target_dir g)
        ≡ (parent == d && str_eq name n || c.target_dir == d)
  picks c e d t n lt here =
      let (i, at) = contains_edge (get_edge e g) d t n (unfold entry get_edge in here) in
      in_gone g h parent name c.target c.target_dir (tree c.target c.target_dir c.found c.node)
        (resolved_low g parent name c.target h c.found) c.empty e
      ∙ ground (
        arith,
        at,
        h.index.from_exact parent e lt,
        h.index.from_exact c.target_dir e lt,
        here,
        c.found,
        resolves g h e d t n lt here,
        eq_iff n name,
        eq_iff name n,
      )

  -- An RMDIR that succeeds has taken the one name out of the names of the file system, and those of
  -- the directory that it led to, under the condition by which it keeps a graph well-formed.
  pub rmdir-resolve_name :
      (fuel : ℕ) (clock : Clock)
      → (rmdir fuel clock parent name g).0 ≡ ok tt
      → (target_dir : DirId) × (Option.bind (resolve_name parent name g) (λ i. dir_for_inode i g)
          ≡ some target_dir)
        × ((d : DirId) (n : String)
            → resolve_name d n (rmdir fuel clock parent name g).1 ≡ (
                if parent == d && str_eq name n || target_dir == d
                then none
                else resolve_name d n g))
  unfolding Option.bind
  rmdir-resolve_name fuel clock done =
      let c = (cleared fuel clock).ends tt done in
      let w = rmdir-WellFormed g parent name fuel clock h tree in
      let removes = λ (d : DirId) (n : String). parent == d && str_eq name n || c.target_dir == d in
      (
        c.target_dir,
        rw c.found c.node,
        λ d n.
            resolve_name-meaning (rmdir fuel clock parent name g).1 w.index d n
            ∙ meaning_removed (index_of g) _
                (λ e. Sets.contains e (edges_to_remove parent name c.target c.target_dir g)) removes
                h.index w.index c.entries (picks c) d n
            ∙ ap (λ o. if removes d n then none else o) (sym (resolve_name-meaning g h.index d n)),
      )

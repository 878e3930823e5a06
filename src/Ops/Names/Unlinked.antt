-- ===== src/Ops/Names/Unlinked.antt =====
-- sotfs-ops/src/lib.rs: UNLINK as a change of the names of the file system.
use sotfs.Base.{
  ℕ, ◌<◌, String, Bool, true, false, ◌&&◌, none, some, [], ◌≡◌, refl, sym, ap, ◌∙◌, ◌==◌, str_eq,
  if◌then◌else◌,
}
use sotfs.Map
use sotfs.Map.{id_key, or_default}
use sotfs.Types.{InodeId, DirId, EdgeId}
use sotfs.Graph.{TypeGraph, edge_capacity, get_inode}
use sotfs.Graph.Names.{resolve_name}
use sotfs.Graph.Prov.{record_prov}
use sotfs.Graph.Index.{index_of, entry}
use sotfs.Graph.Index.Drop.{cut_edge, cut_edge-IsIndexed}
use sotfs.Graph.Index.Resolve.{resolve_name-meaning}
use sotfs.Graph.Index.Update.{meaning-cut_edge, meaning_congr}
use sotfs.Graph.Links.Nodes.{WellFormed}
use sotfs.Error.{ok}
use sotfs.Provenance.{ProvOp}
use sotfs.Ops.Action.{Clock, when}
use sotfs.Ops.Action.Success.{Ends, check-Ends, gets-Ends, bind-Ends, modify-Ends, last-Ends}
use sotfs.Ops.Quota.{minus, update_quota}
use sotfs.Ops.Quota.Charge.{update_quota_keeps}
use sotfs.Ops.Steady.{fail_if-ok, ok_or-ok}
use sotfs.Ops.Link.{unlink, links_left, collect_inode}
use sotfs.Ops.Link.Freed.{AllOther, collect_inode-entry}
use sotfs.Ops.Link.Kept.{
  cut, index_of-cut, cut-WellFormed, others_kept, found_edge, found_ids, unlink-WellFormed,
}

when_index :
    (fuel : ℕ) (dir : DirId) (b : Bool) (g : TypeGraph)
    → index_of (when b (update_quota fuel dir (minus 1) (minus 0)) g).1 ≡ index_of g
unfolding when
when_index fuel dir true g = ap index_of (update_quota_keeps (minus 1) (minus 0) fuel dir g)
when_index fuel dir false g = refl

module _ (g : TypeGraph) (h : WellFormed g) (dir : DirId) (name : String)
    (blocks : (i : InodeId) → AllOther (or_default [] (Map.get i g.inode_points_to)) g) where
  -- The graph has the edges of `g` but for the one with the name.
  abbrev Removed : Unit {0} → TypeGraph → Type 0
  Removed done g' =
      (k : EdgeId) × (t : InodeId) × (k < edge_capacity)
      × (entry k (index_of g) ≡ some (dir, t, name))
      × ((e : EdgeId)
          → e < edge_capacity
          → entry e (index_of g') ≡ entry e (cut_edge k dir t name (index_of g)))

  collected :
      (t : InodeId) (b : Bool) (g' : TypeGraph)
      → WellFormed g'
      → AllOther (or_default [] (Map.get t g'.inode_points_to)) g'
      → (e : EdgeId) → e < edge_capacity
      → entry e (index_of (if b then collect_inode t g' else g')) ≡ entry e (index_of g')
  collected t true g' w all e lt = collect_inode-entry t g' w all e lt
  collected t false g' w all e lt = refl

  logged_index :
      (now : ℕ) (t : InodeId) (g' : TypeGraph)
      → index_of (record_prov now ProvOp.unlink t name g') ≡ index_of g'
  unfolding record_prov
  logged_index now t g' = refl

  removed : (fuel : ℕ) (clock : Clock) → Ends Removed (unlink fuel clock dir name) g
  unfolding unlink
  removed fuel clock = check-Ends _ _ _ g λ _ _. check-Ends _ _ _ g λ _ plain.
      check-Ends _ _ _ g λ found search_ok. check-Ends _ _ _ g λ inode there.
        check-Ends _ _ _ g λ _ file.
          let (k, t) = found in
          let (ids, listed, hit) = found_ids g h dir name blocks search_ok in
          let (i, at, low, here) = found_edge g h dir name blocks ids k t listed hit in
          let named = ok_or-ok _ _ there in
          let other = fail_if-ok _ _ plain in
          let plain_file = fail_if-ok _ _ file in
          let c = cut g h dir name blocks k i t inode other low at here named plain_file in
          let b = links_left (get_inode t c) == 0 in
          let g1 = if b then collect_inode t c else c in
          let g2 = (when b (update_quota fuel dir (minus 1) (minus 0)) g1).1 in
          let w =
            cut-WellFormed g h dir name blocks k i t inode other low at here named plain_file in
          let kept =
            others_kept g h dir name blocks k i t inode other low at here named plain_file in
          let same =
            index_of-cut g h dir name blocks k i t inode other low at here named plain_file in
          modify-Ends _ _ _ _ (
            modify-Ends _ _ _ _ (
              modify-Ends _ _ _ _ (
                modify-Ends _ _ _ _ (
                  gets-Ends _ _ _ _ (
                    modify-Ends _ _ _ _ (
                      bind-Ends _ _ _ _ λ _ _. last-Ends _ _ _ (
                        k,
                        t,
                        low,
                        here,
                        λ e lt.
                            ap (entry e) (logged_index (clock 0) t g2 ∙ when_index fuel dir b g1)
                            ∙ collected t b c w kept e lt
                            ∙ ap (entry e) same,
                      )))))))

  -- An UNLINK that succeeds has taken exactly the one name out of the names of the file system, also
  -- where it frees the inode, under the condition by which it keeps a graph well-formed.
  pub unlink-resolve_name :
      (fuel : ℕ) (clock : Clock)
      → (unlink fuel clock dir name g).0 ≡ ok tt
      → (d : DirId) (n : String)
      → resolve_name d n (unlink fuel clock dir name g).1
        ≡ (if dir == d && str_eq name n then none else resolve_name d n g)
  unlink-resolve_name fuel clock done d n =
      let (k, t, low, here, same) = (removed fuel clock).ends tt done in
      let w = unlink-WellFormed g h dir name blocks fuel clock in
      resolve_name-meaning (unlink fuel clock dir name g).1 w.index d n
      ∙ meaning_congr (cut_edge k dir t name (index_of g)) _
          (cut_edge-IsIndexed k dir t name (index_of g) h.index low here) w.index same d n
      ∙ meaning-cut_edge k dir t name (index_of g) h.index low here d n
      ∙ ap (λ o. if dir == d && str_eq name n then none else o)
          (sym (resolve_name-meaning g h.index d n))

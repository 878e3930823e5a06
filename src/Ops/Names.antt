-- ===== src/Ops/Names.antt =====
-- sotfs-ops/src/lib.rs: the names of the file system as a finite map from directories and names to
-- inodes, which `resolve_name` reads, and the operations as changes of that map.
pub mod Unlinked
use sotfs.Base.{
  ℕ, ◌<◌, String, true, ◌&&◌, Option, some, ◌≡◌, refl, sym, ap, ◌∙◌, arith, ◌==◌, str_eq,
  if◌then◌else◌,
}
use sotfs.Map.{id_key, entry_key}
use sotfs.Types.{InodeId, DirId, Permissions}
use sotfs.Error.{ok}
use sotfs.Graph.{
  TypeGraph, node_capacity, edge_capacity, contains_dir, bump, alloc_inode_id, alloc_edge_id,
  insert_inode, add_contains, adjust_inode,
}
use sotfs.Graph.Names.{resolve_name}
use sotfs.Graph.Prov.{record_prov}
use sotfs.Graph.Index.{Index, index_of, entry}
use sotfs.Graph.Index.Add.{link_edge, bump-IsIndexed}
use sotfs.Graph.Index.Resolve.{meaning, resolve_name-meaning}
use sotfs.Graph.Index.Update.{meaning-link_edge}
use sotfs.Graph.Links.Nodes.{WellFormed}
use sotfs.Provenance.{ProvOp}
use sotfs.Ops.Action.{Clock, modify, pure, ◌>>◌}
use sotfs.Ops.Action.Success.{
  Ends, check-Ends, bind-Ends, step-Ends, modify-Ends, pure-Ends, last-Ends,
}
use sotfs.Ops.Quota.{plus, minus, update_quota}
use sotfs.Ops.Quota.Charge.{update_quota_keeps}
use sotfs.Ops.Create.{create_file}
use sotfs.Ops.Create.Effect.{create_file-WellFormed}
use sotfs.Ops.Link.{link}
use sotfs.Ops.Link.Linked.{link-WellFormed}

module _ (g : TypeGraph) (h : WellFormed g) (src : DirId) (name : String) (tgt : InodeId)
    (eroom : g.next_edge < edge_capacity) where
  -- The index after the allocation of an edge id and the insertion of the edge.
  abbrev grown : Index
  grown = link_edge g.next_edge src tgt name (record (index_of g) { next_edge = bump g.next_edge })

  abbrev Enters : (DirId → String → Option InodeId) → Type 0
  Enters names =
      (d : DirId) (n : String)
      → names d n ≡ (if src == d && str_eq name n then some tgt else resolve_name d n g)

  meaning-grown : Enters (λ d n. meaning d n grown)
  unfolding meaning entry
  meaning-grown d n =
      meaning-link_edge g.next_edge src tgt name
        (record (index_of g) { next_edge = bump g.next_edge })
        (bump-IsIndexed (index_of g) h.index eroom) (omega (arith, eroom))
        (h.index.vacant g.next_edge (omega arith) eroom) d n
      ∙ ap (λ o. if src == d && str_eq name n then some tgt else o)
          (sym (resolve_name-meaning g h.index d n))

  -- A well-formed graph with that index resolves the new name, and the others as before.
  enters :
      (g' : TypeGraph) → WellFormed g' → index_of g' ≡ grown → Enters (λ d n. resolve_name d n g')
  enters g' h' same d n =
      resolve_name-meaning g' h'.index d n ∙ ap (meaning d n) same ∙ meaning-grown d n

-- What a creation of the inode leaves: its id, and the index with the one new edge.
abbrev Entered : TypeGraph → DirId → String → InodeId → TypeGraph → Type 0
Entered g src name id g' =
    (id ≡ g.next_inode)
    × (index_of g'
        ≡ link_edge g.next_edge src g.next_inode name
            (record (index_of g) { next_edge = bump g.next_edge }))

logged_index :
    (now : ℕ) (op : ProvOp) (id : InodeId) (name : String) (g : TypeGraph)
    → index_of (record_prov now op id name g) ≡ index_of g
unfolding record_prov
logged_index now op id name g = refl

-- The quotas and the log are no part of the index.
charged-Ends :
    (g : TypeGraph) (src : DirId) (name : String) (fuel now : ℕ) (op : ProvOp) (g' : TypeGraph)
    → Entered g src name g.next_inode g'
    → Ends
        (Entered g src name)
        (do
          update_quota fuel src (plus 1) (minus 0)
          modify (record_prov now op g.next_inode name)
          pure g.next_inode)
        g'
charged-Ends g src name fuel now op g' (_, same) = bind-Ends _ _ _ g' λ _ _. modify-Ends _ _ _ _ (
    pure-Ends _ _ _ (
      refl,
      logged_index now op g.next_inode name (update_quota fuel src (plus 1) (minus 0) g').1
          ∙ ap index_of (update_quota_keeps (plus 1) (minus 0) fuel src g')
          ∙ same,
    ))

module _ (g : TypeGraph) (src : DirId) (name : String) (fuel : ℕ) (clock : Clock)
    (uid gid : ℕ) where
  created :
      (permissions : Permissions)
      → Ends (Entered g src name) (create_file fuel clock src name uid gid permissions) g
  unfolding create_file alloc_inode_id alloc_edge_id insert_inode link_edge add_contains
  created permissions = check-Ends _ _ _ g λ _ _. check-Ends _ _ _ g λ _ _.
      check-Ends _ _ _ g λ _ _. check-Ends _ _ _ g λ _ _. check-Ends _ _ _ g λ _ _.
        step-Ends _ _ _ _ (
          step-Ends _ _ _ _ (
            modify-Ends _ _ _ _ (
              modify-Ends _ _ _ _
                (charged-Ends g src name fuel (clock 1) ProvOp.create _ (refl, refl)))))

module _ (g : TypeGraph) (h : WellFormed g) (src : DirId) (low : src < node_capacity)
    (name : String) (room : g.next_inode < node_capacity)
    (eroom : g.next_edge < edge_capacity) where
  -- A CREATE that succeeds returns the next inode id, and has changed the names of the file system
  -- by exactly the new entry, under the conditions by which it keeps a graph well-formed.
  pub create_file-resolve_name :
      (fuel : ℕ) (clock : Clock) (uid gid : ℕ) (permissions : Permissions) (id : InodeId)
      → (create_file fuel clock src name uid gid permissions g).0 ≡ ok id
      → (id ≡ g.next_inode)
        × ((d : DirId) (n : String)
            → resolve_name d n (create_file fuel clock src name uid gid permissions g).1
              ≡ (if src == d && str_eq name n then some g.next_inode else resolve_name d n g))
  create_file-resolve_name fuel clock uid gid permissions id done =
      let w = create_file-WellFormed g h src low name room eroom fuel clock uid gid permissions in
      let (got, index) = (created g src name fuel clock uid gid permissions).ends id done in
      (got, λ d n. enters g h src name g.next_inode eroom _ w index d n)

abbrev Linked : TypeGraph → DirId → String → InodeId → Unit {0} → TypeGraph → Type 0
Linked g dir name target done g' =
    index_of g'
    ≡ link_edge g.next_edge dir target name (record (index_of g) { next_edge = bump g.next_edge })

linked :
    (g : TypeGraph) (dir : DirId) (name : String) (target : InodeId) (clock : Clock)
    → Ends (Linked g dir name target) (link clock dir name target) g
unfolding link alloc_edge_id link_edge add_contains adjust_inode record_prov
linked g dir name target clock = check-Ends _ _ _ g λ _ _. check-Ends _ _ _ g λ _ _.
    check-Ends _ _ _ g λ _ _. check-Ends _ _ _ g λ _ _. check-Ends _ _ _ g λ _ _.
      check-Ends _ _ _ g
        λ _ _. step-Ends _ _ _ _ (modify-Ends _ _ _ _ (modify-Ends _ _ _ _ (last-Ends _ _ _ refl)))

module _ (g : TypeGraph) (h : WellFormed g) (dir : DirId) (low : dir < node_capacity)
    (present : contains_dir dir g ≡ true) (name : String) (target : InodeId)
    (tlow : target < node_capacity) (eroom : g.next_edge < edge_capacity) where
  -- A LINK that succeeds has changed the names of the file system by exactly the new entry, under
  -- the conditions by which it keeps a graph well-formed.
  pub link-resolve_name :
      (clock : Clock)
      → (link clock dir name target g).0 ≡ ok tt
      → (d : DirId) (n : String)
      → resolve_name d n (link clock dir name target g).1
        ≡ (if dir == d && str_eq name n then some target else resolve_name d n g)
  link-resolve_name clock done d n =
      let w = link-WellFormed g h dir low present name target tlow eroom clock in
      enters g h dir name target eroom _ w ((linked g dir name target clock).ends tt done) d n

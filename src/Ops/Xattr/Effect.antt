-- ===== src/Ops/Xattr/Effect.antt =====
-- sotfs-ops/src/lib.rs: setting an attribute, and reading it back.
use sotfs.Base.{
  ◌<◌, ◌≤◌, String, Bool, true, false, Option, none, some, ◌≡◌, refl, ◌∙◌, arith, ltb, eq_iff,
  length, Option-cases, inl, inr,
}
use sotfs.Map
use sotfs.Map.{Map, id_key, or_default}
use sotfs.Map.Laws.{get-insert, get-adjust}
use sotfs.Map.Sets
use sotfs.Types.{InodeId, XattrId, XattrNamespace, Xattr, Bytes, Edge, same_namespace}
use sotfs.Types.Right
use sotfs.Error.{ok}
use sotfs.Graph.{
  TypeGraph, edge_capacity, contains_inode, alloc_xattr_id, alloc_edge_id, insert_edge,
}
use sotfs.Graph.Prov.{require_cap, record_prov}
use sotfs.Graph.Links.Nodes.{nodes_of, WellFormed}
use sotfs.Graph.Index.{index_of}
use sotfs.Graph.Links.Nodes.Others.{insert_other-WellFormed}
use sotfs.Ops.Action.{Clock, ◌>>=◌}
use sotfs.Ops.Action.Rules.{check_rule, gets_rule, step_rule, modify_rule, pure_rule}
use sotfs.Ops.Steady.{logged-WellFormed}
use sotfs.Ops.Xattr.{
  setxattr, getxattr, add_xattr, replace_xattr, set_value, find_xattr, xattrs_of, is_attribute,
  new_xattr,
}

module _ (g : TypeGraph) (h : WellFormed g) (room : g.next_edge < edge_capacity) (clock : Clock)
    (inode_id : InodeId) (namespace : XattrNamespace) (name : String) (value : Bytes) where
  set_value-WellFormed :
      (found : Option XattrId)
      → WellFormed (set_value clock inode_id namespace name value found g).1
  unfolding add_xattr replace_xattr alloc_xattr_id alloc_edge_id insert_edge
  set_value-WellFormed (some xid) = modify_rule WellFormed _ _ g (pure_rule WellFormed xid _ h)
  set_value-WellFormed none = step_rule WellFormed _ _ g (
      step_rule WellFormed _ _ _ (
        modify_rule WellFormed _ _ _ (
          modify_rule WellFormed _ _ _ (
            modify_rule WellFormed _ _ _ (
              modify_rule WellFormed _ _ _ (
                pure_rule WellFormed _ _ (
                  logged-WellFormed _ _ _ _ _ (
                    insert_other-WellFormed (nodes_of g) (index_of g) h
                      (Edge.has_xattr g.next_edge inode_id g.next_xattr) refl room))))))))

  -- Setting an attribute keeps a well-formed graph well-formed while an edge id is left.
  pub setxattr-WellFormed : WellFormed (setxattr clock inode_id namespace name value g).1
  unfolding setxattr
  setxattr-WellFormed = check_rule WellFormed _ _ g h λ _ _. check_rule WellFormed _ _ g h λ _ _.
      check_rule WellFormed _ _ g h λ _ _. gets_rule WellFormed _ _ g (set_value-WellFormed _)

same_namespace_refl : (n : XattrNamespace) → same_namespace n n ≡ true
same_namespace_refl XattrNamespace.user = refl
same_namespace_refl XattrNamespace.system = refl
same_namespace_refl XattrNamespace.security = refl
same_namespace_refl XattrNamespace.trusted = refl

module _ (g : TypeGraph) (clock : Clock) (inode_id : InodeId) (namespace : XattrNamespace)
    (name : String) (value : Bytes) where
  abbrev test_in : Map XattrId Xattr → XattrId → Bool
  test_in m xid = is_attribute namespace name (Map.get xid m)

  -- The state after either branch gives the value back.
  replaced :
      (xid : XattrId)
      → find_xattr namespace name g (xattrs_of inode_id g) ≡ some xid
      → contains_inode inode_id g ≡ true
      → getxattr inode_id namespace name (replace_xattr xid value g).1 ≡ ok value
  unfolding replace_xattr getxattr find_xattr contains_inode ◌>>=◌
  replaced xid found present =
      let m = Map.adjust xid (λ xa. record xa { value = value }) g.xattrs in
      let same : (j : XattrId) → test_in m j ≡ test_in g.xattrs j =
        λ j. ground (arith, get-adjust xid j (λ xa. record xa { value = value }) g.xattrs) in
      let found' =
        Sets.find_congr (test_in g.xattrs) (test_in m) (xattrs_of inode_id g) (λ j _. same j)
        ∙ found in
      let passes = Sets.find-passes (test_in g.xattrs) (xattrs_of inode_id g) xid found in
      rw (present, found')
        (ground (arith, passes, get-adjust xid xid (λ xa. record xa { value = value }) g.xattrs))

  added :
      find_xattr namespace name g (xattrs_of inode_id g) ≡ none
      → Sets.contains g.next_xattr (xattrs_of inode_id g) ≡ false
      → contains_inode inode_id g ≡ true
      → getxattr inode_id namespace name (add_xattr clock inode_id namespace name value g).1
        ≡ ok value
  unfolding add_xattr getxattr find_xattr contains_inode ◌>>=◌ alloc_xattr_id alloc_edge_id
      insert_edge record_prov
  added nothing fresh present =
      let new = new_xattr g.next_xattr namespace name value in
      let m = Map.insert g.next_xattr new g.xattrs in
      let ids = Sets.add g.next_xattr (xattrs_of inode_id g) in
      let stored = get-insert g.next_xattr g.next_xattr new g.xattrs in
      let here : Map.get g.next_xattr m ≡ some new = ground (arith, stored) in
      let listed : Map.get inode_id (Map.insert inode_id ids g.inode_xattrs) ≡ some ids =
        ground (arith, get-insert inode_id inode_id ids g.inode_xattrs) in
      let found =
        Sets.find-add (test_in g.xattrs) (test_in m) g.next_xattr (xattrs_of inode_id g)
          (λ j at. ground (arith, get-insert g.next_xattr j new g.xattrs))
          (ground (arith, here, same_namespace_refl namespace, eq_iff name name)) nothing in
      rw (present, listed, found, here) refl

  replaced-id : (xid : XattrId) → (replace_xattr xid value g).0 ≡ ok xid
  unfolding replace_xattr ◌>>=◌
  replaced-id xid = refl

  added-id : (add_xattr clock inode_id namespace name value g).0 ≡ ok g.next_xattr
  unfolding add_xattr ◌>>=◌ alloc_xattr_id alloc_edge_id
  added-id = refl

  -- An attribute that `setxattr` accepts is read back with its value, whether it was new or replaced:
  -- where the capability allows the write, the inode is there, the value has at most 65536 bytes
  -- and the next attribute id is not in use on the inode.
  pub getxattr-setxattr :
      require_cap Right.write g ≡ ok tt
      → contains_inode inode_id g ≡ true
      → length value ≤ 65536
      → Sets.contains g.next_xattr (xattrs_of inode_id g) ≡ false
      → (xid : XattrId) × ((setxattr clock inode_id namespace name value g).0 ≡ ok xid)
        × (getxattr inode_id namespace name (setxattr clock inode_id namespace name value g).1
            ≡ ok value)
  unfolding setxattr ◌>>=◌
  getxattr-setxattr allowed present small fresh =
      let fits : ltb 65536 (length value) ≡ false = ground (arith, small) in
      elim (Option-cases (find_xattr namespace name g (xattrs_of inode_id g))) [
        | inl nothing ↦ (
          g.next_xattr,
          rw (allowed, present, fits, nothing) added-id,
          rw (allowed, present, fits, nothing) (added nothing fresh present),
        )
        | inr (xid, found) ↦ (
          xid,
          rw (allowed, present, fits, found) (replaced-id xid),
          rw (allowed, present, fits, found) (replaced xid found present),
        )
      ]

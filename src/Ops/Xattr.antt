-- ===== src/Ops/Xattr.antt =====
-- sotfs-ops/src/lib.rs: extended attributes.
pub mod Effect
use sotfs.Base.{
  ℕ, String, Bool, true, false, ◌&&◌, not, Option, none, some, List, [], ◌∷◌, ltb, ◌==◌, length,
  find, str_eq, if◌then◌else◌,
}
use sotfs.Map
use sotfs.Map.{id_key, or_default}
use sotfs.Map.Sets
use sotfs.Map.Sets.{IdSet}
use sotfs.Arena
use sotfs.Arena.{ArenaId, to_id}
use sotfs.Types.{InodeId, XattrId, EdgeId, XattrNamespace, Xattr, Bytes, Edge, same_namespace}
use sotfs.Types.Right
use sotfs.Error.{
  Result, ok, err, inode_not_found, xattr_not_found, xattr_too_large, fail_if, ok_or, ◌>>◌ as ◌>>?◌,
}
use sotfs.Graph.{TypeGraph, contains_inode, alloc_xattr_id, alloc_edge_id, insert_edge, remove_edge}
use sotfs.Graph.Prov.{require_cap, record_prov}
use sotfs.Provenance.{ProvOp}
use sotfs.Ops.Action.{Action, Clock, check, gets, modify, step, pure, ◌>>=◌, ◌>>◌}

abbrev pub is_attribute : XattrNamespace → String → Option Xattr → Bool
is_attribute namespace name none = false
is_attribute namespace name (some xa) = same_namespace xa.namespace namespace && str_eq xa.name name

-- The first id of the list with an attribute of the name, as the three loops over `inode_xattrs`
-- look for it.
unfoldable pub find_xattr : XattrNamespace → String → TypeGraph → List XattrId → Option XattrId
unfolding find
find_xattr namespace name g = find (λ xid. is_attribute namespace name (Map.get xid g.xattrs))

abbrev pub xattrs_of : InodeId → TypeGraph → IdSet
xattrs_of inode_id g = or_default [] (Map.get inode_id g.inode_xattrs)

abbrev pub new_xattr : XattrId → XattrNamespace → String → Bytes → Xattr
new_xattr id namespace name value = record {
  id = id;
  namespace = namespace;
  name = name;
  value = value;
}

-- An attribute that the inode does not have yet.
unfoldable pub add_xattr : Clock → InodeId → XattrNamespace → String → Bytes → Action XattrId
add_xattr clock inode_id namespace name value = do
  xattr_id ← step alloc_xattr_id
  edge_id ← step alloc_edge_id
  modify (λ g. record g {
    xattrs = Map.insert xattr_id (new_xattr xattr_id namespace name value) g.xattrs;
  })
  modify (insert_edge edge_id (Edge.has_xattr edge_id inode_id xattr_id))
  modify (λ g. record g {
    inode_xattrs = Map.insert inode_id (Sets.add xattr_id (xattrs_of inode_id g)) g.inode_xattrs;
  })
  modify (record_prov (clock 0) ProvOp.setxattr inode_id name)
  pure xattr_id

-- The value is replaced in place, which the log does not record.
unfoldable pub replace_xattr : XattrId → Bytes → Action XattrId
replace_xattr xid value = do
  modify (λ g. record g { xattrs = Map.adjust xid (λ xa. record xa { value = value }) g.xattrs })
  pure xid

abbrev pub set_value :
    Clock → InodeId → XattrNamespace → String → Bytes → Option XattrId → Action XattrId
set_value clock inode_id namespace name value (some xid) = replace_xattr xid value
set_value clock inode_id namespace name value none = add_xattr clock inode_id namespace name value

unfoldable pub setxattr : Clock → InodeId → XattrNamespace → String → Bytes → Action XattrId
setxattr clock inode_id namespace name value = do
  check (require_cap Right.write)
  check (λ g. fail_if (not (contains_inode inode_id g)) (inode_not_found inode_id))
  check (λ g. fail_if (ltb 65536 (length value)) (xattr_too_large (length value)))
  found ← gets (λ g. find_xattr namespace name g (xattrs_of inode_id g))
  set_value clock inode_id namespace name value found

abbrev value_of : String → Option Xattr → Result Bytes
value_of name none = err (xattr_not_found name)
value_of name (some xa) = ok xa.value

abbrev value_at : String → TypeGraph → Option XattrId → Result Bytes
value_at name g none = err (xattr_not_found name)
value_at name g (some xid) = value_of name (Map.get xid g.xattrs)

unfoldable pub getxattr : InodeId → XattrNamespace → String → TypeGraph → Result Bytes
getxattr inode_id namespace name g =
    fail_if (not (contains_inode inode_id g)) (inode_not_found inode_id)
    >>? value_at name g (find_xattr namespace name g (xattrs_of inode_id g))

abbrev is_xattr_edge : InodeId → XattrId → Edge → Bool
is_xattr_edge inode_id xid (Edge.has_xattr _ src tgt) = src == inode_id && tgt == xid
is_xattr_edge inode_id xid _ = false

-- The first `HasXattr` edge from the inode to the attribute.
find_xattr_edge : InodeId → XattrId → List (ArenaId × Edge) → Option EdgeId
find_xattr_edge inode_id xid [] = none
find_xattr_edge inode_id xid ((aid, edge) ∷ es) =
    let rest = find_xattr_edge inode_id xid es in
    if is_xattr_edge inode_id xid edge then some aid.index else rest

abbrev remove_found : Option EdgeId → TypeGraph → TypeGraph
remove_found none g = g
remove_found (some eid) g = (remove_edge eid g).1

unfoldable pub drop_xattr : InodeId → XattrId → TypeGraph → TypeGraph
unfolding find_xattr_edge
drop_xattr inode_id xid g =
    let g' = record g {
      xattrs = Map.remove xid g.xattrs;
      inode_xattrs = Map.adjust inode_id (Sets.delete xid) g.inode_xattrs;
    } in
    remove_found (find_xattr_edge inode_id xid (Arena.iter g'.edges)) g'

unfoldable pub removexattr : Clock → InodeId → XattrNamespace → String → Action (Unit {0})
removexattr clock inode_id namespace name = do
  check (require_cap Right.write)
  check (λ g. fail_if (not (contains_inode inode_id g)) (inode_not_found inode_id))
  xid ←
      check (λ g. ok_or (find_xattr namespace name g (xattrs_of inode_id g)) (xattr_not_found name))
  modify (drop_xattr inode_id xid)
  modify (record_prov (clock 0) ProvOp.removexattr inode_id name)

list_xattrs : TypeGraph → List XattrId → List (XattrNamespace × String)
list_xattrs g [] = []
list_xattrs g (xid ∷ xids) =
    let rest = list_xattrs g xids in
    elim (Map.get xid g.xattrs) [ none ↦ rest | some xa ↦ (xa.namespace, xa.name) ∷ rest ]

unfoldable pub listxattr : InodeId → TypeGraph → Result (List (XattrNamespace × String))
unfolding list_xattrs
listxattr inode_id g =
    fail_if (not (contains_inode inode_id g)) (inode_not_found inode_id)
    >>? ok (list_xattrs g (xattrs_of inode_id g))

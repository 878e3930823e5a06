-- ===== src/Ops/Attr/Effect.antt =====
-- sotfs-ops/src/lib.rs: changes of modes, owners and access control lists.
use sotfs.Base.{ℕ, true, Option, none, some, List, [], ◌∷◌, ◌≡◌, refl, ap, ◌∙◌, arith}
use sotfs.Map
use sotfs.Map.{id_key}
use sotfs.Map.Laws.{get-insert}
use sotfs.Arena
use sotfs.Arena.{to_id}
use sotfs.Types.{InodeId, CapId, EdgeId, Permissions, Rights, Edge, Inode, AclEntry}
use sotfs.Types.Right
use sotfs.Error.{ok}
use sotfs.Graph.{
  TypeGraph, node_capacity, get_inode, contains_inode, remove_edge, insert_cap, insert_edge,
  alloc_cap_id, alloc_edge_id,
}
use sotfs.Graph.Prov.{require_cap, record_prov}
use sotfs.Graph.Links.Nodes.{WellFormed}
use sotfs.Provenance.{ProvOp}
use sotfs.Ops.Action.{Clock, ◌>>=◌}
use sotfs.Ops.Action.Rules.{check_rule, modify_rule, last_rule}
use sotfs.Ops.Steady.{touched-WellFormed, logged-WellFormed}
use sotfs.Ops.Attr.{
  chmod, chown, setacl, getacl, grants_to, drop_grants, drop_caps, purge_grants, forget_grant,
  grant_rights, grant_entry, grant_all, acl_mask,
}

-- CHMOD keeps a well-formed graph well-formed, whatever the arguments.
pub chmod-WellFormed :
    (g : TypeGraph) (h : WellFormed g) (clock : Clock) (inode_id : InodeId) (mode : Permissions)
    → WellFormed (chmod clock inode_id mode g).1
unfolding chmod
chmod-WellFormed g h clock inode_id mode = check_rule WellFormed _ _ g h λ _ _.
    check_rule WellFormed _ _ g h λ _ _. modify_rule WellFormed _ _ g (
      last_rule WellFormed _ _
        (logged-WellFormed _ _ _ _ _ (touched-WellFormed inode_id _ _ h (λ i. refl) (λ i. refl))))

-- CHOWN keeps a well-formed graph well-formed, whatever the arguments.
pub chown-WellFormed :
    (g : TypeGraph) (h : WellFormed g) (clock : Clock) (inode_id : InodeId) (uid gid : Option ℕ)
    → WellFormed (chown clock inode_id uid gid g).1
unfolding chown
chown-WellFormed g h clock inode_id uid gid = check_rule WellFormed _ _ g h λ _ _.
    check_rule WellFormed _ _ g h λ _ _. modify_rule WellFormed _ _ g (
      last_rule WellFormed _ _
        (logged-WellFormed _ _ _ _ _ (touched-WellFormed inode_id _ _ h (λ i. refl) (λ i. refl))))

-- The parts of the graph that `getacl` reads.
abbrev files_of : TypeGraph → Arena.Arena Inode node_capacity × Map.Map InodeId (List AclEntry)
files_of g = (g.inodes, g.acls)

remove_edge_keeps : (eid : EdgeId) (g : TypeGraph) → files_of (remove_edge eid g).1 ≡ files_of g
unfolding remove_edge
remove_edge_keeps eid g = ground arith

forget_grant_keeps : (o : Option Edge) (g : TypeGraph) → files_of (forget_grant o g) ≡ files_of g
forget_grant_keeps none g = refl
forget_grant_keeps (some (Edge.grants _ _ _ _)) g = refl
forget_grant_keeps (some _) g = refl

drop_grants_keeps :
    (eids : List EdgeId) (g : TypeGraph) → files_of (drop_grants eids g).1 ≡ files_of g
unfolding drop_grants
drop_grants_keeps [] g = refl
drop_grants_keeps (eid ∷ eids) g =
    let (removed, g') = remove_edge eid g in
    drop_grants_keeps eids (forget_grant removed g')
    ∙ forget_grant_keeps removed g'
    ∙ remove_edge_keeps eid g

drop_caps_keeps : (caps : List CapId) (g : TypeGraph) → files_of (drop_caps caps g) ≡ files_of g
unfolding drop_caps
drop_caps_keeps [] g = refl
drop_caps_keeps (cap_id ∷ caps) g = drop_caps_keeps caps _

purge_keeps : (inode_id : InodeId) (g : TypeGraph) → files_of (purge_grants inode_id g) ≡ files_of g
unfolding purge_grants
purge_keeps inode_id g =
    let (caps, g') = drop_grants (grants_to inode_id (Arena.iter g.edges)) g in
    drop_caps_keeps caps g' ∙ drop_grants_keeps (grants_to inode_id (Arena.iter g.edges)) g

grant_entry_keeps :
    (mask : Option Rights) (inode_id : InodeId) (entry : AclEntry) (g : TypeGraph)
    → files_of (grant_entry mask inode_id entry g) ≡ files_of g
unfolding grant_entry grant_rights insert_cap insert_edge alloc_cap_id alloc_edge_id
grant_entry_keeps mask inode_id entry g = ground arith

grant_all_keeps :
    (mask : Option Rights) (inode_id : InodeId) (entries : List AclEntry) (g : TypeGraph)
    → files_of (grant_all mask inode_id entries g) ≡ files_of g
unfolding grant_all
grant_all_keeps mask inode_id [] g = refl
grant_all_keeps mask inode_id (entry ∷ entries) g =
    grant_all_keeps mask inode_id entries (grant_entry mask inode_id entry g)
    ∙ grant_entry_keeps mask inode_id entry g

module _ (g : TypeGraph) (clock : Clock) (inode_id : InodeId) (inode : Inode)
    (entries : List AclEntry) (allowed : require_cap Right.grant g ≡ ok tt)
    (here : get_inode inode_id g ≡ some inode) where
  abbrev stored : TypeGraph
  stored =
      let g' = purge_grants inode_id g in record g' { acls = Map.insert inode_id entries g'.acls }

  abbrev granted : TypeGraph
  granted = grant_all (acl_mask entries) inode_id entries stored

  present : contains_inode inode_id g ≡ true
  unfolding contains_inode get_inode Arena.get Arena.contains
  present = ground (arith, here)

  setacl-run :
      setacl clock inode_id entries g
      ≡ (ok tt, record_prov (clock 0) ProvOp.set_acl inode_id "" granted)
  unfolding setacl ◌>>=◌
  setacl-run = rw (allowed, present) refl

  -- Where the capability allows it and the inode is there, `setacl` succeeds and `getacl` then gives
  -- the list that was set.
  pub getacl-setacl :
      ((setacl clock inode_id entries g).0 ≡ ok tt)
      × (getacl inode_id (setacl clock inode_id entries g).1 ≡ ok entries)
  unfolding getacl record_prov get_inode
  getacl-setacl =
      let keeps = grant_all_keeps (acl_mask entries) inode_id entries stored in
      let inodes = ap (λ f. f.0) keeps ∙ ap (λ f. f.0) (purge_keeps inode_id g) in
      let acl : Map.get inode_id stored.acls ≡ some entries =
        ground (arith, get-insert inode_id inode_id entries (purge_grants inode_id g).acls) in
      rw setacl-run (refl, rw (inodes, ap (λ f. f.1) keeps, here, acl) refl)

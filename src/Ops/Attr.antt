-- ===== src/Ops/Attr.antt =====
-- sotfs-ops/src/lib.rs: modes, owners, symbolic links' targets and access control lists.
pub mod Effect
use Prim.Native.Nat.{bit_and, bit_or}
use sotfs.Base.{
  ℕ, ◌/◌, ◌%◌, ◌^◌, String, Bool, true, false, ◌||◌, not, Option, none, some, List, [], ◌∷◌, ◌==◌,
  find, if◌then◌else◌,
}
use mathlib.Core.Option
use sotfs.Map
use sotfs.Map.{id_key}
use sotfs.Arena
use sotfs.Arena.{ArenaId, to_id}
use sotfs.Types.{
  InodeId, CapId, EdgeId, Permissions, Rights, restrict, Inode, AclEntry, AclTag, Edge, Capability,
  is_symlink,
}
use sotfs.Types.Right
use sotfs.Error.{
  Result, ok, inode_not_found, not_a_symlink, ok_or, fail_if, ◌>>◌ as ◌>>?◌, ◌>>=◌ as ◌>>=?◌,
}
use sotfs.Graph.{
  TypeGraph, get_inode, adjust_inode, contains_inode, remove_edge, alloc_cap_id, alloc_edge_id,
  insert_cap, insert_edge,
}
use sotfs.Graph.Prov.{require_cap, record_prov}
use sotfs.Provenance.{ProvOp}
use sotfs.Ops.Action.{Action, Clock, check, modify, ◌>>=◌, ◌>>◌}

unfoldable pub chmod : Clock → InodeId → Permissions → Action (Unit {0})
chmod clock inode_id mode = do
  check (require_cap Right.grant)
  inode ← check (λ g. ok_or (get_inode inode_id g) (inode_not_found inode_id))
  modify (adjust_inode inode_id (λ i. record i { permissions = mode }))
  modify (record_prov (clock 0) ProvOp.chmod inode_id "")

-- `if let Some(x) = new { old = x }`
abbrev pub set_if : Option ℕ → ℕ → ℕ
set_if none old = old
set_if (some new) old = new

unfoldable pub chown : Clock → InodeId → Option ℕ → Option ℕ → Action (Unit {0})
chown clock inode_id uid gid = do
  check (require_cap Right.grant)
  inode ← check (λ g. ok_or (get_inode inode_id g) (inode_not_found inode_id))
  modify (adjust_inode inode_id (λ i. record i { uid = set_if uid i.uid; gid = set_if gid i.gid }))
  modify (record_prov (clock 0) ProvOp.chown inode_id "")

unfoldable pub readlink : InodeId → TypeGraph → Result String
readlink inode_id g = ok_or (get_inode inode_id g) (inode_not_found inode_id) >>=? λ inode.
    fail_if (not (is_symlink inode.vtype)) (not_a_symlink inode_id)
    >>? ok_or (Map.get inode_id g.symlink_targets) (not_a_symlink inode_id)

abbrev bit_if : ℕ → ℕ → Permissions → ℕ
bit_if bit right mode = if bit_and mode bit == 0 then 0 else right

-- The rights of the lowest three permission bits.
unfoldable pub perms_to_rights : Permissions → Rights
perms_to_rights mode =
    bit_or (bit_or (bit_if 4 Right.read mode) (bit_if 2 Right.write mode))
      (bit_if 1 Right.execute mode)

abbrev is_mask : AclTag → Bool
is_mask AclTag.mask = true
is_mask _ = false

-- `matches!(tag, User | Group | GroupObj)`
abbrev is_masked : AclTag → Bool
is_masked AclTag.user = true
is_masked AclTag.group = true
is_masked AclTag.group_obj = true
is_masked _ = false

unfoldable pub acl_mask : List AclEntry → Option Rights
unfolding perms_to_rights Option.map find
acl_mask entries =
    Option.map (λ e. perms_to_rights e.permissions) (find (λ e. is_mask e.tag) entries)

abbrev mask_with : Option Rights → Rights → Rights
mask_with none rights = rights
mask_with (some m) rights = restrict rights m

-- What an entry grants, under the mask of its list.
unfoldable pub effective : Option Rights → AclEntry → Rights
unfolding perms_to_rights restrict
effective mask entry =
    let rights = perms_to_rights entry.permissions in
    if is_masked entry.tag then mask_with mask rights else rights

-- The ids of the `Grants` edges to the inode.
unfoldable pub grants_to : InodeId → List (ArenaId × Edge) → List EdgeId
grants_to inode_id [] = []
grants_to inode_id ((aid, Edge.grants _ _ tgt _) ∷ es) =
    let rest = grants_to inode_id es in if tgt == inode_id then aid.index ∷ rest else rest
grants_to inode_id (e ∷ es) = grants_to inode_id es

-- What the loop over the removed edges does with the edge that `remove_edge` gave back.
abbrev pub forget_grant : Option Edge → TypeGraph → TypeGraph
forget_grant (some (Edge.grants _ src _ _)) g = record g {
  cap_grants = Map.remove src g.cap_grants;
}
forget_grant (some _) g = g
forget_grant none g = g

-- `caps_to_drop.push(src)`, before the ids that the rest of the loop pushes
abbrev push_cap : Option Edge → List CapId → List CapId
push_cap (some (Edge.grants _ src _ _)) caps = src ∷ caps
push_cap (some _) caps = caps
push_cap none caps = caps

-- The capabilities to drop, and the graph without the edges.
unfoldable pub drop_grants : List EdgeId → TypeGraph → List CapId × TypeGraph
drop_grants [] g = ([], g)
drop_grants (eid ∷ eids) g =
    let (removed, g1) = remove_edge eid g in
    let (caps, g2) = drop_grants eids (forget_grant removed g1) in (push_cap removed caps, g2)

unfoldable pub drop_caps : List CapId → TypeGraph → TypeGraph
drop_caps [] g = g
drop_caps (cap_id ∷ caps) g =
    drop_caps caps (record g { caps = (Arena.remove (to_id cap_id) g.caps).1 })

-- The first step of `setacl`.
unfoldable pub purge_grants : InodeId → TypeGraph → TypeGraph
unfolding grants_to drop_grants drop_caps
purge_grants inode_id g =
    let (caps, g') = drop_grants (grants_to inode_id (Arena.iter g.edges)) g in drop_caps caps g'

-- A fresh capability and the edge by which it grants the rights.
unfoldable pub grant_rights : InodeId → Rights → TypeGraph → TypeGraph
unfolding insert_cap insert_edge
grant_rights inode_id rights g =
    let (cap_id, g1) = alloc_cap_id g in
    let (edge_id, g2) = alloc_edge_id g1 in
    let g3 = insert_cap cap_id (record { id = cap_id; rights = rights; epoch = 0 }) g2 in
    let g4 = insert_edge edge_id (Edge.grants edge_id cap_id inode_id rights) g3 in
    record g4 { cap_grants = Map.insert cap_id edge_id g4.cap_grants }

-- One turn of the loop over the entries.
unfoldable pub grant_entry : Option Rights → InodeId → AclEntry → TypeGraph → TypeGraph
unfolding effective grant_rights
grant_entry mask inode_id entry g =
    if is_mask entry.tag || effective mask entry == 0
    then g
    else grant_rights inode_id (effective mask entry) g

unfoldable pub grant_all : Option Rights → InodeId → List AclEntry → TypeGraph → TypeGraph
unfolding grant_entry
grant_all mask inode_id [] g = g
grant_all mask inode_id (entry ∷ entries) g =
    grant_all mask inode_id entries (grant_entry mask inode_id entry g)

unfoldable pub setacl : Clock → InodeId → List AclEntry → Action (Unit {0})
setacl clock inode_id entries = do
  check (require_cap Right.grant)
  check (λ g. fail_if (not (contains_inode inode_id g)) (inode_not_found inode_id))
  modify (purge_grants inode_id)
  modify (λ g. record g { acls = Map.insert inode_id entries g.acls })
  modify (grant_all (acl_mask entries) inode_id entries)
  modify (record_prov (clock 0) ProvOp.set_acl inode_id "")

-- The minimal list, read off the permission bits.
abbrev pub minimal_acl : Permissions → List AclEntry
minimal_acl mode =
    record { tag = AclTag.user_obj; qualifier = 0; permissions = bit_and (mode / 2 ^ 6) 7 }
    ∷ record { tag = AclTag.group_obj; qualifier = 0; permissions = bit_and (mode / 2 ^ 3) 7 }
    ∷ record { tag = AclTag.other; qualifier = 0; permissions = bit_and mode 7 }
    ∷ []

unfoldable pub getacl : InodeId → TypeGraph → Result (List AclEntry)
getacl inode_id g = ok_or (get_inode inode_id g) (inode_not_found inode_id) >>=? λ inode.
    ok (elim (Map.get inode_id g.acls) [ some acl ↦ acl | none ↦ minimal_acl inode.permissions ])

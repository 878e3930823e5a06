-- ===== src/Tests/Graphs.antt =====
-- The theorems on links, data, attributes and checks, applied to the file system with one file.
use sotfs.Base.{some, ◌↔◌, ◌<◌, false, List, [], ◌∷◌, ◌≡◌, refl, arith}
use sotfs.Map
use sotfs.Map.{id_key, or_default}
use sotfs.Map.Sets
use sotfs.Types.{Inode, InodeId, XattrId, XattrNamespace, AclTag, AclEntry, new_file}
use sotfs.Types.Right
use sotfs.Error.{ok}
use sotfs.Graph.{edge_capacity}
use sotfs.Graph.Links.Nodes.{WellFormed}
use sotfs.Graph.Check.{check_link_count_consistency}
use sotfs.Graph.Check.LinkCount.{links_in_pool, check_link_count_consistency_iff}
use sotfs.Ops.Link.{link, unlink}
use sotfs.Ops.Link.Freed.{AllOther}
use sotfs.Ops.Link.Kept.{unlink-WellFormed}
use sotfs.Ops.Link.Linked.{link-WellFormed}
use sotfs.Ops.Attr.{setacl, getacl}
use sotfs.Ops.Attr.Effect.{getacl-setacl}
use sotfs.Ops.Xattr.{setxattr, getxattr}
use sotfs.Ops.Xattr.Effect.{getxattr-setxattr}
use sotfs.Tests.{clock, with_file, with_file-WellFormed, with_file_facts, with_file_allowed}

edge_room : with_file.next_edge < edge_capacity
edge_room = omega (arith, with_file_facts.3)

link_example : WellFormed (link clock 1 "b" 2 with_file).1
link_example =
    link-WellFormed with_file with_file-WellFormed 1 (omega arith) with_file_facts.1 "b" 2
      (omega arith) edge_room clock

pub no_blocks :
    (i : InodeId) → AllOther (or_default [] (Map.get i with_file.inode_points_to)) with_file
unfolding Map.get Sets.contains
no_blocks i e m = absurd (ground (arith, m, with_file_facts.4))

unlink_example : WellFormed (unlink 5 clock 1 "a" with_file).1
unlink_example = unlink-WellFormed with_file with_file-WellFormed 1 "a" no_blocks 5 clock

unused_id :
    Sets.contains with_file.next_xattr (or_default [] (Map.get 2 with_file.inode_xattrs)) ≡ false
unfolding Map.get Sets.contains
unused_id = rw (with_file_facts.5) refl

xattr_back_example :
    (xid : XattrId) × ((setxattr clock 2 XattrNamespace.user "k" (1 ∷ []) with_file).0 ≡ ok xid)
    × (getxattr 2 XattrNamespace.user "k"
          (setxattr clock 2 XattrNamespace.user "k" (1 ∷ []) with_file).1
        ≡ ok (1 ∷ []))
xattr_back_example =
    getxattr-setxattr with_file clock 2 XattrNamespace.user "k" (1 ∷ [])
      (with_file_allowed Right.write) with_file_facts.2 (omega arith) unused_id

abbrev acl : List AclEntry
acl =
    record { tag = AclTag.user; qualifier = 1000; permissions = 6 }
    ∷ record { tag = AclTag.mask; qualifier = 0; permissions = 4 }
    ∷ []

acl_back_example :
    ((setacl clock 2 acl with_file).0 ≡ ok tt)
    × (getacl 2 (setacl clock 2 acl with_file).1 ≡ ok acl)
acl_back_example =
    getacl-setacl with_file clock 2 (record (new_file 2 0o644 0 0 100) { link_count = 1 }) acl
      (with_file_allowed Right.grant) with_file_facts.0

check_example : (check_link_count_consistency with_file ≡ ok tt) ↔ (
    (j : InodeId) (inode : Inode)
    → j < with_file.inodes.next_bump
    → with_file.inodes.slots j ≡ some inode
    → inode.link_count ≡ links_in_pool j with_file)
check_example =
    check_link_count_consistency_iff with_file with_file-WellFormed.index
      with_file-WellFormed.increasing (omega (arith, with_file_facts.7))

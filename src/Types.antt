-- ===== src/Types.antt =====
-- sotfs-graph/src/types.rs: the node and edge types of the graph and their attributes. Ids,
-- timestamps, modes and counters are native numbers; the operations that compute with them write
-- their width out.
pub mod Right
use Prim.Native.Nat.{bit_and}
use sotfs.Base.{
  ℕ, ◌+◌, ◌<◌, ◌%◌, ◌^◌, String, Bool, true, false, ◌||◌, Option, none, some, List, ltb, leb, ◌==◌,
  ◌≡◌,
}
use sotfs.Map.Sets.{IdSet}

abbrev pub InodeId : Type 0
InodeId = ℕ

abbrev pub DirId : Type 0
DirId = ℕ

abbrev pub CapId : Type 0
CapId = ℕ

abbrev pub TxnId : Type 0
TxnId = ℕ

abbrev pub VersionId : Type 0
VersionId = ℕ

abbrev pub BlockId : Type 0
BlockId = ℕ

abbrev pub XattrId : Type 0
XattrId = ℕ

abbrev pub EdgeId : Type 0
EdgeId = ℕ

abbrev pub Timestamp : Type 0
Timestamp = ℕ

pub data NodeId : Type 0 where
  inode : InodeId → NodeId
  directory : DirId → NodeId
  capability : CapId → NodeId
  transaction : TxnId → NodeId
  version : VersionId → NodeId
  block : BlockId → NodeId
  xattr : XattrId → NodeId

-- The derived `==`.
unfoldable pub same_node : NodeId → NodeId → Bool
same_node (inode a) (inode b) = a == b
same_node (directory a) (directory b) = a == b
same_node (capability a) (capability b) = a == b
same_node (transaction a) (transaction b) = a == b
same_node (version a) (version b) = a == b
same_node (NodeId.block a) (NodeId.block b) = a == b
same_node (xattr a) (xattr b) = a == b
same_node _ _ = false

pub data VnodeType : Type 0 where
  regular directory symlink char_device block_device : VnodeType

-- `==` on `VnodeType`, at the three values that the code compares with.
abbrev pub is_directory : VnodeType → Bool
is_directory directory = true
is_directory _ = false

abbrev pub is_regular : VnodeType → Bool
is_regular regular = true
is_regular _ = false

abbrev pub is_symlink : VnodeType → Bool
is_symlink symlink = true
is_symlink _ = false

-- A u16 of permission bits.
abbrev pub Permissions : Type 0
Permissions = ℕ

abbrev pub dir_default : Permissions
dir_default = 0o755

abbrev pub file_default : Permissions
file_default = 0o644

pub record Inode : Type 0 where
  pub id : InodeId
  pub vtype : VnodeType
  pub permissions : Permissions
  pub uid : ℕ
  pub gid : ℕ
  pub size : ℕ
  pub link_count : ℕ
  pub ctime : Timestamp
  pub mtime : Timestamp
  pub atime : Timestamp

-- `now` is the reading of the clock that the constructor takes.
abbrev pub new_file : InodeId → Permissions → ℕ → ℕ → Timestamp → Inode
new_file id permissions uid gid now = record {
  id = id;
  vtype = regular;
  permissions = permissions;
  uid = uid;
  gid = gid;
  size = 0;
  link_count = 0;
  ctime = now;
  mtime = now;
  atime = now;
}

abbrev pub new_dir : InodeId → Permissions → ℕ → ℕ → Timestamp → Inode
new_dir id permissions uid gid now = record {
  id = id;
  vtype = VnodeType.directory;
  permissions = permissions;
  uid = uid;
  gid = gid;
  size = 0;
  link_count = 0;
  ctime = now;
  mtime = now;
  atime = now;
}

pub record Directory : Type 0 where
  pub id : DirId
  pub inode_id : InodeId

-- A u8 mask of capability rights.
abbrev pub Rights : Type 0
Rights = ℕ

unfoldable pub rights_contain : Rights → ℕ → Bool
rights_contain rights right = bit_and rights right == right

unfoldable pub is_subset_of : Rights → Rights → Bool
is_subset_of rights other = bit_and rights other == rights

unfoldable pub restrict : Rights → Rights → Rights
restrict rights mask = bit_and rights mask

pub record Capability : Type 0 where
  pub id : CapId
  pub rights : Rights
  pub epoch : ℕ

pub record CapContext : Type 0 where
  pub cap_id : Option CapId
  pub domain_id : ℕ

abbrev pub anonymous : CapContext
anonymous = record { cap_id = none; domain_id = 0 }

pub data TxState : Type 0 where
  active preparing committed aborted : TxState

pub data TxTier : Type 0 where
  tier0 tier1 tier2 : TxTier

pub record Transaction : Type 0 where
  pub id : TxnId
  pub tier : TxTier
  pub state : TxState
  pub read_set : IdSet
  pub write_set : IdSet
  pub begin_ts : Timestamp

pub record Version : Type 0 where
  pub id : VersionId
  pub timestamp : Timestamp
  pub root_inode_id : InodeId

pub record Block : Type 0 where
  pub id : BlockId
  pub sector_start : ℕ
  pub sector_count : ℕ
  pub refcount : ℕ

pub data XattrNamespace : Type 0 where
  user system security trusted : XattrNamespace

-- The derived `==`.
abbrev pub same_namespace : XattrNamespace → XattrNamespace → Bool
same_namespace user user = true
same_namespace system system = true
same_namespace security security = true
same_namespace trusted trusted = true
same_namespace _ _ = false

-- The bytes of a value or of a file.
abbrev pub Bytes : Type 0
Bytes = List ℕ

pub record Xattr : Type 0 where
  pub id : XattrId
  pub namespace : XattrNamespace
  pub name : String
  pub value : Bytes

pub data AclTag : Type 0 where
  user_obj user group_obj group mask other : AclTag

pub record AclEntry : Type 0 where
  pub tag : AclTag
  pub qualifier : ℕ
  pub permissions : Permissions

pub record Quota : Type 0 where
  pub inode_limit : ℕ
  pub inode_usage : ℕ
  pub byte_limit : ℕ
  pub byte_usage : ℕ

abbrev pub new_quota : ℕ → ℕ → Quota
new_quota inode_limit byte_limit = record {
  inode_limit = inode_limit;
  inode_usage = 0;
  byte_limit = byte_limit;
  byte_usage = 0;
}

unfoldable pub check_inode : Quota → Bool
check_inode q = q.inode_limit == 0 || ltb q.inode_usage q.inode_limit

-- The sum is a u64.
unfoldable pub check_bytes : Quota → ℕ → Bool
check_bytes q additional =
    q.byte_limit == 0 || leb ((q.byte_usage + additional) % 2 ^ 64) q.byte_limit

pub data Edge : Type 0 where
  contains : EdgeId → DirId → InodeId → String → Edge
  grants : EdgeId → CapId → InodeId → Rights → Edge
  delegates : EdgeId → CapId → CapId → Edge
  derived_from : EdgeId → VersionId → VersionId → Edge
  supersedes : EdgeId → InodeId → InodeId → Edge
  points_to : EdgeId → InodeId → BlockId → ℕ → Edge
  has_xattr : EdgeId → InodeId → XattrId → Edge

unfoldable pub edge_id : Edge → EdgeId
edge_id (contains id _ _ _) = id
edge_id (grants id _ _ _) = id
edge_id (delegates id _ _) = id
edge_id (derived_from id _ _) = id
edge_id (supersedes id _ _) = id
edge_id (points_to id _ _ _) = id
edge_id (has_xattr id _ _) = id

unfoldable pub src_node : Edge → NodeId
src_node (contains _ src _ _) = NodeId.directory src
src_node (grants _ src _ _) = NodeId.capability src
src_node (delegates _ src _) = NodeId.capability src
src_node (derived_from _ src _) = NodeId.version src
src_node (supersedes _ src _) = NodeId.inode src
src_node (points_to _ src _ _) = NodeId.inode src
src_node (has_xattr _ src _) = NodeId.inode src

unfoldable pub tgt_node : Edge → NodeId
tgt_node (contains _ _ tgt _) = NodeId.inode tgt
tgt_node (grants _ _ tgt _) = NodeId.inode tgt
tgt_node (delegates _ _ tgt) = NodeId.capability tgt
tgt_node (derived_from _ _ tgt) = NodeId.version tgt
tgt_node (supersedes _ _ tgt) = NodeId.inode tgt
tgt_node (points_to _ _ tgt _) = NodeId.inode tgt
tgt_node (has_xattr _ _ tgt) = NodeId.xattr tgt

-- ===== src/Ops/Session.antt =====
-- sotfs-ops/src/lib.rs: the operations as the calls of one client after another, from the graph of a
-- new file system.
use sotfs.Base.{ℕ, ◌+◌, ◌<◌, String, true, Option, some, List, [], ◌≡◌, arith}
use sotfs.Map
use sotfs.Map.{id_key, or_default}
use sotfs.Types.{
  InodeId, DirId, Permissions, Timestamp, Directory, Inode, Bytes, XattrNamespace, AclEntry,
  is_directory,
}
use sotfs.Graph.{TypeGraph, node_capacity, edge_capacity, new, contains_dir, get_dir, get_inode}
use sotfs.Graph.Names.{resolve_name, dir_for_inode}
use sotfs.Graph.Links.Nodes.{WellFormed}
use sotfs.Graph.Links.Nodes.Fresh.{new-WellFormed}
use sotfs.Ops.Action.{Clock, KeepsOnError}
use sotfs.Ops.Create.{create_file, mkdir, make_symlink}
use sotfs.Ops.Create.Effect.{create_file-WellFormed, make_symlink-WellFormed}
use sotfs.Ops.Create.Mkdir.{mkdir-WellFormed}
use sotfs.Ops.Link.{link, unlink}
use sotfs.Ops.Link.Freed.{AllOther}
use sotfs.Ops.Link.Kept.{unlink-WellFormed}
use sotfs.Ops.Link.Linked.{link-WellFormed}
use sotfs.Ops.Rmdir.{rmdir, rmdir-KeepsOnError}
use sotfs.Ops.Rmdir.Removed.{rmdir-WellFormed}
use sotfs.Ops.Rmdir.Placed.{IsPlaced}
use sotfs.Ops.Rename.{rename}
use sotfs.Ops.Rename.Moved.{IsDestination, rename-WellFormed}
use sotfs.Ops.Data.{write_data, truncate, write_block}
use sotfs.Ops.Data.Effect.{write_data-WellFormed, truncate-WellFormed, write_block-WellFormed}
use sotfs.Ops.Attr.{chmod, chown, setacl}
use sotfs.Ops.Attr.Effect.{chmod-WellFormed, chown-WellFormed}
use sotfs.Ops.Xattr.{setxattr}
use sotfs.Ops.Xattr.Effect.{setxattr-WellFormed}
use sotfs.Ops.Atomic.{
  create_file-KeepsOnError, mkdir-KeepsOnError, link-KeepsOnError, unlink-KeepsOnError,
  setacl-KeepsOnError,
}

pub data Call : Type 0 where
  create : (dir : DirId) (name : String) (uid gid : ℕ) (permissions : Permissions) → Call
  make_dir : (dir : DirId) (name : String) (uid gid : ℕ) (permissions : Permissions) → Call
  symlink : (dir : DirId) (name target : String) (uid gid : ℕ) → Call
  hard_link : (dir : DirId) (name : String) (target : InodeId) → Call
  remove : (dir : DirId) (name : String) → Call
  remove_dir : (dir : DirId) (name : String) → Call
  move : (src_dir : DirId) (src_name : String) (dst_dir : DirId) (dst_name : String) → Call
  store : (inode : InodeId) (offset : ℕ) (bytes : Bytes) → Call
  store_block : (inode : InodeId) (offset sector_start sector_count : ℕ) → Call
  cut : (inode : InodeId) (size : ℕ) → Call
  set_mode : (inode : InodeId) (mode : Permissions) → Call
  set_owner : (inode : InodeId) (uid gid : Option ℕ) → Call
  set_attribute :
      (inode : InodeId) (namespace : XattrNamespace) (name : String) (value : Bytes) → Call

unfoldable pub perform : ℕ → Clock → Call → TypeGraph → TypeGraph
perform fuel clock (create dir name uid gid permissions) g =
    (create_file fuel clock dir name uid gid permissions g).1
perform fuel clock (make_dir dir name uid gid permissions) g =
    (mkdir fuel clock dir name uid gid permissions g).1
perform fuel clock (symlink dir name target uid gid) g =
    (make_symlink fuel clock dir name target uid gid g).1
perform fuel clock (hard_link dir name target) g = (link clock dir name target g).1
perform fuel clock (remove dir name) g = (unlink fuel clock dir name g).1
perform fuel clock (remove_dir dir name) g = (rmdir fuel clock dir name g).1
perform fuel clock (move src_dir src_name dst_dir dst_name) g =
    (rename fuel clock src_dir src_name dst_dir dst_name g).1
perform fuel clock (store i offset bytes) g = (write_data clock i offset bytes g).1
perform fuel clock (store_block i offset sector_start sector_count) g =
    (write_block i offset sector_start sector_count g).1
perform fuel clock (cut i size) g = (truncate clock i size g).1
perform fuel clock (set_mode i mode) g = (chmod clock i mode g).1
perform fuel clock (set_owner i uid gid) g = (chown clock i uid gid g).1
perform fuel clock (set_attribute i namespace name value) g =
    (setxattr clock i namespace name value g).1

-- Ids are left for a new inode, a new directory and three new edges.
abbrev pub HasRoom : TypeGraph → Type 0
HasRoom g =
    (g.next_inode < node_capacity)
    × (g.next_dir < node_capacity)
    × (g.next_edge + 2 < edge_capacity)

-- What a call asks of the graph: ids that are left, a directory that is in range and there, and for
-- the calls that remove, that the directories stand in the tree.
abbrev pub Ready : Call → TypeGraph → Type 0
Ready (create dir name uid gid permissions) g = HasRoom g × (dir < node_capacity)
Ready (make_dir dir name uid gid permissions) g =
    HasRoom g
    × (dir < node_capacity)
    × ((p : Directory)
        → get_dir dir g ≡ some p
        → (inode : Inode) × (p.inode_id < node_capacity)
          × (get_inode p.inode_id g ≡ some inode)
          × (is_directory inode.vtype ≡ true))
Ready (symlink dir name target uid gid) g = HasRoom g × (dir < node_capacity)
Ready (hard_link dir name target) g =
    HasRoom g × (dir < node_capacity) × (contains_dir dir g ≡ true) × (target < node_capacity)
Ready (remove dir name) g = (i : InodeId) → AllOther (or_default [] (Map.get i g.inode_points_to)) g
Ready (remove_dir dir name) g =
    (target : InodeId) (target_dir : DirId)
    → resolve_name dir name g ≡ some target
    → dir_for_inode target g ≡ some target_dir
    → IsPlaced g dir name target target_dir
Ready (move src_dir src_name dst_dir dst_name) g =
    HasRoom g
    × (dst_dir < node_capacity)
    × (contains_dir dst_dir g ≡ true)
    × IsDestination g dst_dir dst_name
    × ((i : InodeId) → AllOther (or_default [] (Map.get i g.inode_points_to)) g)
Ready (store i offset bytes) g = Unit
Ready (store_block i offset sector_start sector_count) g = HasRoom g
Ready (cut i size) g = Unit
Ready (set_mode i mode) g = Unit
Ready (set_owner i uid gid) g = Unit
Ready (set_attribute i namespace name value) g = HasRoom g

-- The graphs that a new file system comes to by calls that are ready, whatever their results.
pub data Reachable : TypeGraph → Type 0 where
  started : (now : Timestamp) → Reachable (new now)
  called :
      {g : TypeGraph}
      → Reachable g
      → (fuel : ℕ) (clock : Clock) (call : Call) → Ready call g
      → Reachable (perform fuel clock call g)

-- One call keeps the graph well-formed.
perform-WellFormed :
    (fuel : ℕ) (clock : Clock) (call : Call) (g : TypeGraph)
    → Ready call g
    → WellFormed g
    → WellFormed (perform fuel clock call g)
unfolding perform
perform-WellFormed fuel clock (create dir name uid gid permissions) g ready h =
    create_file-WellFormed g h dir (ready.1) name (ready.0.0) (omega (arith, ready.0)) fuel clock
      uid gid permissions
perform-WellFormed fuel clock (make_dir dir name uid gid permissions) g ready h =
    mkdir-WellFormed g h dir (ready.1) name (ready.0.0) (ready.0.1) (ready.0.2) (ready.2) fuel clock
      uid gid permissions
perform-WellFormed fuel clock (symlink dir name target uid gid) g ready h =
    make_symlink-WellFormed g h dir (ready.1) name (ready.0.0) (omega (arith, ready.0)) fuel clock
      target uid gid
perform-WellFormed fuel clock (hard_link dir name target) g ready h =
    link-WellFormed g h dir (ready.1) (ready.2) name target (ready.3) (omega (arith, ready.0)) clock
perform-WellFormed fuel clock (remove dir name) g ready h =
    unlink-WellFormed g h dir name ready fuel clock
perform-WellFormed fuel clock (remove_dir dir name) g ready h =
    rmdir-WellFormed g dir name fuel clock h ready
perform-WellFormed fuel clock (move src_dir src_name dst_dir dst_name) g ready h =
    rename-WellFormed g src_dir src_name dst_dir dst_name fuel clock h (ready.4) (ready.3) (ready.1)
      (ready.2) (omega (arith, ready.0))
perform-WellFormed fuel clock (store i offset bytes) g ready h =
    write_data-WellFormed g h clock i offset bytes
perform-WellFormed fuel clock (store_block i offset sector_start sector_count) g ready h =
    write_block-WellFormed g h (omega (arith, ready)) i offset sector_start sector_count
perform-WellFormed fuel clock (cut i size) g ready h = truncate-WellFormed g h clock i size
perform-WellFormed fuel clock (set_mode i mode) g ready h = chmod-WellFormed g h clock i mode
perform-WellFormed fuel clock (set_owner i uid gid) g ready h = chown-WellFormed g h clock i uid gid
perform-WellFormed fuel clock (set_attribute i namespace name value) g ready h =
    setxattr-WellFormed g h (omega (arith, ready)) clock i namespace name value

-- Every graph that a new file system comes to is well-formed: by calls of CREATE, MKDIR, SYMLINK,
-- LINK, UNLINK, RMDIR, RENAME, the writes, CHMOD, CHOWN and the setting of attributes, in any order,
-- with any results, each of them made where it is ready.
pub Reachable-WellFormed : (g : TypeGraph) → Reachable g → WellFormed g
Reachable-WellFormed g (started now) = new-WellFormed now
Reachable-WellFormed g (called {g = before} earlier fuel clock call ready) =
    perform-WellFormed fuel clock call before ready (Reachable-WellFormed before earlier)

-- CREATE, MKDIR, LINK, UNLINK, RMDIR and the setting of an access control list either succeed or
-- leave the graph as it was: where one of them returns an error, whatever the graph and the
-- arguments, nothing has changed.
pub errors_keep :
    (fuel : ℕ) (clock : Clock) (g : TypeGraph) (dir : DirId) (name : String) (uid gid : ℕ)
    (permissions : Permissions) (inode : InodeId) (entries : List AclEntry)
    → KeepsOnError (create_file fuel clock dir name uid gid permissions) g
      × KeepsOnError (mkdir fuel clock dir name uid gid permissions) g
      × KeepsOnError (link clock dir name inode) g
      × KeepsOnError (unlink fuel clock dir name) g
      × KeepsOnError (rmdir fuel clock dir name) g
      × KeepsOnError (setacl clock inode entries) g
errors_keep fuel clock g dir name uid gid permissions inode entries = (
  create_file-KeepsOnError fuel clock dir name uid gid permissions g,
  mkdir-KeepsOnError fuel clock dir name uid gid permissions g,
  link-KeepsOnError clock dir name inode g,
  unlink-KeepsOnError fuel clock dir name g,
  rmdir-KeepsOnError fuel clock dir name g,
  setacl-KeepsOnError clock inode entries g,
)

-- ===== src/Ops/Create.antt =====
-- sotfs-ops/src/lib.rs: CREATE, MKDIR and SYMLINK. `fuel` bounds the walks of the quotas.
pub mod Ending
pub mod Effect
pub mod Mkdir
use Prim.Native.Char.{code}
use Prim.Native.String.{len}
use sotfs.Base.{ℕ, String, Bool, true, false, ◌||◌, Option, none, some, ◌==◌, str_eq, is_some, not}
use sotfs.Map
use sotfs.Map.{id_key}
use sotfs.Types.{InodeId, DirId, EdgeId, Permissions, Inode, symlink, new_file, new_dir, Directory}
use sotfs.Types.Right
use sotfs.Error.{Result, ok, err, name_not_found, name_exists, dir_not_found, ok_or, fail_if}
use sotfs.Graph.{
  TypeGraph, alloc_inode_id, alloc_dir_id, alloc_edge_id, insert_inode, insert_dir, get_dir,
  contains_dir, add_contains,
}
use sotfs.Graph.Names.{resolve_name}
use sotfs.Graph.Prov.{require_cap, record_prov}
use sotfs.Provenance.{ProvOp}
use sotfs.Ops.Action.{Action, Clock, check, modify, step, pure, ◌>>=◌, ◌>>◌}
use sotfs.Ops.Quota.{check_quota_inode, update_quota, plus, minus}

-- `name.contains(c)`
unfoldable pub has_char : ℕ → String → Bool
has_char c String.[] = false
has_char c (String.◌∷◌ d s) = code d == c || has_char c s

-- Reserved and invalid names: empty, ".", "..", or with '/' or NUL.
unfoldable pub is_bad_name : String → Bool
unfolding has_char
is_bad_name name =
    str_eq name ""
    || (str_eq name "." || (str_eq name ".." || (has_char b'/' name || has_char 0 name)))

-- The inode that `symlink` makes. The length of a text is that of its UTF-8 bytes.
abbrev pub new_symlink : InodeId → ℕ → ℕ → ℕ → ℕ → Inode
new_symlink id size uid gid now = record {
  id = id;
  vtype = symlink;
  permissions = 0o777;
  uid = uid;
  gid = gid;
  size = size;
  link_count = 1;
  ctime = now;
  mtime = now;
  atime = now;
}

unfoldable pub create_file : ℕ → Clock → DirId → String → ℕ → ℕ → Permissions → Action InodeId
create_file fuel clock parent_dir name uid gid permissions = do
  check (require_cap Right.write)
  check (λ g. fail_if (is_bad_name name) (name_not_found name))
  check (λ g. fail_if (is_some (resolve_name parent_dir name g)) (name_exists parent_dir name))
  check (λ g. fail_if (not (contains_dir parent_dir g)) (dir_not_found parent_dir))
  check (check_quota_inode fuel parent_dir)
  inode_id ← step alloc_inode_id
  edge_id ← step alloc_edge_id
  modify (
      insert_inode inode_id
        (record (new_file inode_id permissions uid gid (clock 0)) { link_count = 1 }))
  modify (add_contains edge_id parent_dir inode_id name)
  update_quota fuel parent_dir (plus 1) (minus 0)
  modify (record_prov (clock 1) ProvOp.create inode_id name)
  pure inode_id

pub record CreateResult : Type 0 where
  pub inode_id : InodeId
  pub dir_id : Option DirId

unfoldable pub mkdir : ℕ → Clock → DirId → String → ℕ → ℕ → Permissions → Action CreateResult
mkdir fuel clock parent_dir name uid gid permissions = do
  check (require_cap Right.write)
  check (λ g. fail_if (is_bad_name name) (name_not_found name))
  check (λ g. fail_if (is_some (resolve_name parent_dir name g)) (name_exists parent_dir name))
  parent ← check (λ g. ok_or (get_dir parent_dir g) (dir_not_found parent_dir))
  check (check_quota_inode fuel parent_dir)
  inode_id ← step alloc_inode_id
  dir_id ← step alloc_dir_id
  entry_edge ← step alloc_edge_id
  dot_edge ← step alloc_edge_id
  dotdot_edge ← step alloc_edge_id
  modify (
      insert_inode inode_id
        (record (new_dir inode_id permissions uid gid (clock 0)) { link_count = 2 }))
  modify (insert_dir dir_id (record { id = dir_id; inode_id = inode_id }))
  modify (add_contains entry_edge parent_dir inode_id name)
  modify (add_contains dot_edge dir_id inode_id ".")
  modify (add_contains dotdot_edge dir_id parent.inode_id "..")
  update_quota fuel parent_dir (plus 1) (minus 0)
  modify (record_prov (clock 1) ProvOp.mkdir inode_id name)
  pure (record { inode_id = inode_id; dir_id = some dir_id })

unfoldable pub make_symlink : ℕ → Clock → DirId → String → String → ℕ → ℕ → Action InodeId
make_symlink fuel clock parent_dir name target uid gid = do
  check (require_cap Right.write)
  check (λ g. fail_if (is_bad_name name) (name_not_found name))
  check (λ g. fail_if (is_some (resolve_name parent_dir name g)) (name_exists parent_dir name))
  check (λ g. fail_if (not (contains_dir parent_dir g)) (dir_not_found parent_dir))
  check (check_quota_inode fuel parent_dir)
  inode_id ← step alloc_inode_id
  edge_id ← step alloc_edge_id
  modify (insert_inode inode_id (new_symlink inode_id (len target) uid gid (clock 0)))
  modify (λ g. record g { symlink_targets = Map.insert inode_id target g.symlink_targets })
  modify (add_contains edge_id parent_dir inode_id name)
  update_quota fuel parent_dir (plus 1) (minus 0)
  modify (record_prov (clock 1) ProvOp.symlink inode_id name)
  pure inode_id

-- ===== src/Ops/Fsck.antt =====
-- sotfs-ops/src/lib.rs: `fsck`, the verifier that reports all errors in place of the first, and
-- `has_cycle_dfs`. The texts of errors and warnings are kept as the data that they format.
pub mod Ends
pub mod Agrees
use sotfs.Base.{
  ℕ, zero, suc, ◌%◌, ◌^◌, String, Bool, true, false, not, Option, none, some, List, [], ◌∷◌, ◌++◌,
  ◌==◌, ◌||◌, length, filter, count, map, is_some, str_eq, if◌then◌else◌,
}
use sotfs.Map
use sotfs.Map.{Map, id_key, or_default}
use sotfs.Map.Sets
use sotfs.Map.Sets.{IdSet}
use sotfs.Arena
use sotfs.Arena.{Arena, ArenaId}
use sotfs.Types.{InodeId, DirId, BlockId, EdgeId, XattrId, Inode, Directory, Block, Edge, edge_id}
use sotfs.Graph.{TypeGraph, get_edge, contains_dir, contains_inode, contains_block}
use sotfs.Graph.Check.{is_counted, has_text, name_of}
use sotfs.Graph.Check.Cycles.{child_dir}

pub data FsckError : Type 0 where
  no_dir : (edge : EdgeId) (dir : DirId) → FsckError
  no_inode : (edge : EdgeId) (inode : InodeId) → FsckError
  no_block : (edge : EdgeId) (block : BlockId) → FsckError
  link_count : (inode : InodeId) (links incoming : ℕ) → FsckError
  duplicate_name : (dir : DirId) (name : String) → FsckError
  dir_cycle : (dir : DirId) → FsckError
  refcount : (block : BlockId) (refs incoming : ℕ) → FsckError
  xattrs_of_no_inode : (inode : InodeId) → FsckError
  no_xattr : (inode : InodeId) (xattr : XattrId) → FsckError

pub record FsckReport : Type 0 where
  pub errors : List FsckError
  pub warnings : List InodeId
  pub inode_count : ℕ
  pub dir_count : ℕ
  pub edge_count : ℕ

-- `for x in xs { errors.push(...) }`
unfoldable pub gather {ℓ} : {A : Type ℓ} {B : Type 0} → (A → List B) → List A → List B
gather f [] = []
gather f (x ∷ xs) = f x ++ gather f xs

-- `if failed { errors.push(error) }`
abbrev pub report_if : {B : Type 0} → Bool → B → List B
report_if failed error = if failed then error ∷ [] else []

-- `for aid in pool.keys() { if let Some(x) = pool.get(aid) { ... } }`
abbrev pub at_key :
    {T B : Type 0} {capacity : ℕ} → (T → List B) → Arena T capacity → ArenaId → List B
at_key f pool aid = elim (Arena.get aid pool) [ none ↦ [] | some x ↦ f x ]

unfoldable pub each_key : {T B : Type 0} {capacity : ℕ} → (T → List B) → Arena T capacity → List B
unfolding gather
each_key f pool = gather (at_key f pool) (map (λ e. e.0) (Arena.iter pool))

unfoldable pub edge_errors : TypeGraph → Edge → List FsckError
edge_errors g (Edge.contains id src tgt name) =
    report_if (not (contains_dir src g)) (no_dir id src)
    ++ report_if (not (contains_inode tgt g)) (no_inode id tgt)
edge_errors g (Edge.points_to id src tgt offset) =
    report_if (not (contains_inode src g)) (no_inode id src)
    ++ report_if (not (contains_block tgt g)) (no_block id tgt)
edge_errors g _ = []

unfoldable pub incoming_links : InodeId → TypeGraph → ℕ
unfolding count
incoming_links id g = elim (Map.get id g.inode_incoming_contains) [
  | none ↦ 0
  | some eids ↦ count (λ eid. is_counted (get_edge eid g)) eids
]

unfoldable pub link_errors : TypeGraph → Inode → List FsckError
unfolding incoming_links
link_errors g inode =
    report_if (not (inode.link_count == incoming_links inode.id g))
      (FsckError.link_count inode.id inode.link_count (incoming_links inode.id g))

-- The loop over the edges of one directory, with the names that it has seen.
unfoldable pub name_errors : TypeGraph → DirId → List String → List EdgeId → List FsckError
unfolding has_text
name_errors g dir_id names [] = []
name_errors g dir_id names (eid ∷ eids) = elim (name_of (get_edge eid g)) [
  | some name ↦
      report_if (has_text name names) (FsckError.duplicate_name dir_id name)
      ++ name_errors g dir_id (name ∷ names) eids
  | none ↦ name_errors g dir_id names eids
]

-- `visited` and `stack`
pub record Marks : Type 0 where
  pub visited : IdSet
  pub stack : IdSet

abbrev pub resume_dfs :
    Option (Bool × Marks) → (Marks → Option (Bool × Marks)) → Option (Bool × Marks)
resume_dfs none rest = none
resume_dfs (some (true, m)) rest = some (true, m)
resume_dfs (some (false, m)) rest = rest m

abbrev pub follow_dfs :
    Option DirId
    → (DirId → Marks → Option (Bool × Marks))
    → Marks
    → (Marks → Option (Bool × Marks))
    → Option (Bool × Marks)
follow_dfs none walk m rest = rest m
follow_dfs (some child) walk m rest =
    if Sets.contains child m.stack
    then some (true, m)
    else (if Sets.contains child m.visited then rest m else resume_dfs (walk child m) rest)

unfoldable pub descend_dfs :
    (DirId → Marks → Option (Bool × Marks))
    → TypeGraph
    → Marks
    → List EdgeId
    → Option (Bool × Marks)
unfolding child_dir
descend_dfs walk g m [] = some (false, m)
descend_dfs walk g m (eid ∷ eids) =
    follow_dfs (child_dir g (get_edge eid g)) walk m (λ m'. descend_dfs walk g m' eids)

-- A walk that finds a cycle leaves its way on the stack.
unfoldable pub has_cycle_dfs : ℕ → TypeGraph → DirId → Marks → Option (Bool × Marks)
unfolding descend_dfs
has_cycle_dfs zero g dir m = none
has_cycle_dfs (suc fuel) g dir m =
    resume_dfs
      (descend_dfs (has_cycle_dfs fuel g) g
        (record { visited = Sets.add dir m.visited; stack = Sets.add dir m.stack })
        (or_default [] (Map.get dir g.dir_contains)))
      (λ m'. some (false, record m' { stack = Sets.delete dir m'.stack }))

abbrev pub more_errors : List FsckError → Option (List FsckError) → Option (List FsckError)
more_errors errors none = none
more_errors errors (some later) = some (errors ++ later)

abbrev pub after_dfs :
    DirId → Option (Bool × Marks) → (Marks → Option (List FsckError)) → Option (List FsckError)
after_dfs dir none rest = none
after_dfs dir (some (found, m)) rest = more_errors (report_if found (dir_cycle dir)) (rest m)

abbrev pub visit_dir :
    ℕ
    → TypeGraph
    → Option Directory
    → Marks
    → (Marks → Option (List FsckError))
    → Option (List FsckError)
visit_dir fuel g none m rest = rest m
visit_dir fuel g (some dir) m rest =
    if Sets.contains dir.id m.visited
    then rest m
    else after_dfs dir.id (has_cycle_dfs fuel g dir.id m) rest

-- The loop over the keys of the directory pool.
unfoldable pub cycle_errors : ℕ → TypeGraph → List ArenaId → Marks → Option (List FsckError)
unfolding has_cycle_dfs
cycle_errors fuel g [] m = some []
cycle_errors fuel g (aid ∷ aids) m =
    visit_dir fuel g (Arena.get aid g.dirs) m (λ m'. cycle_errors fuel g aids m')

abbrev points_to : BlockId → Edge → Bool
points_to id (Edge.points_to _ _ tgt _) = tgt == id
points_to id _ = false

unfoldable pub block_errors : TypeGraph → Block → List FsckError
unfolding filter
block_errors g block =
    let incoming = length (filter (points_to block.id) (map (λ e. e.1) (Arena.iter g.edges))) in
    report_if (not (block.refcount == incoming))
      (FsckError.refcount block.id block.refcount incoming)

unfoldable pub orphans : TypeGraph → Inode → List InodeId
orphans g inode =
    if inode.id == g.root_inode
    then []
    else report_if (length (or_default [] (Map.get inode.id g.inode_incoming_contains)) == 0)
        inode.id

unfoldable pub xattr_errors : TypeGraph → InodeId × IdSet → List FsckError
unfolding gather
xattr_errors g (inode_id, xattr_ids) =
    report_if (not (contains_inode inode_id g)) (xattrs_of_no_inode inode_id)
    ++ gather (λ xid. report_if (not (is_some (Map.get xid g.xattrs))) (no_xattr inode_id xid))
        xattr_ids

-- The sections of the report in the order of the code, around the search for cycles.
unfoldable pub report_with : TypeGraph → List FsckError → FsckReport
unfolding each_key edge_errors link_errors name_errors block_errors orphans xattr_errors
report_with g cycles = record {
  errors =
      each_key (edge_errors g) g.edges
      ++ each_key (link_errors g) g.inodes
      ++ gather (λ (dir_id, eids). name_errors g dir_id [] eids) g.dir_contains
      ++ cycles
      ++ each_key (block_errors g) g.blocks
      ++ gather (xattr_errors g) g.inode_xattrs;
  warnings = each_key (orphans g) g.inodes;
  inode_count = g.inodes.len;
  dir_count = g.dirs.len;
  edge_count = g.edges.len;
}

abbrev pub finish_report : TypeGraph → Option (List FsckError) → Option FsckReport
finish_report g none = none
finish_report g (some cycles) = some (report_with g cycles)

unfoldable pub fsck : ℕ → TypeGraph → Option FsckReport
unfolding cycle_errors
fsck fuel g =
    finish_report g (
      cycle_errors fuel g (map (λ e. e.0) (Arena.iter g.dirs))
        (record { visited = []; stack = [] }))

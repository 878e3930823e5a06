-- ===== src/Graph/Check.antt =====
-- graph.rs: `check_invariants` and the checks that it runs, in their order, and the search for
-- ancestors. A walk down the directories takes fuel for its depth.
pub mod Cycles
pub mod NameIndex
pub mod Invariants
pub mod Slots
pub mod LinkCount
use sotfs.Base.{
  ℕ, zero, suc, ◌+◌, ◌%◌, ◌^◌, String, Bool, true, false, ◌&&◌, ◌||◌, not, Option, none, some, List,
  [], ◌∷◌, ltb, ◌==◌, length, filter, count, find, str_eq, is_some, if◌then◌else◌,
}
use sotfs.Map
use sotfs.Map.{Map, id_key, entry_key, or_default}
use sotfs.Map.Sets
use sotfs.Map.Sets.{IdSet}
use sotfs.Arena
use sotfs.Arena.{ArenaId}
use sotfs.Types.{
  InodeId, DirId, CapId, BlockId, EdgeId, NodeId, Inode, Directory, Block, Edge, src_node, tgt_node,
  is_directory, is_subset_of,
}
use sotfs.Error.{
  Violation, Result, ok, err, diverge, invariant_violation, fail_if, each, ◌>>◌, ◌>>=◌,
}
use sotfs.Graph.{
  TypeGraph, get_inode, get_dir, get_cap, get_edge, contains_inode, contains_dir, contains_cap,
  contains_txn, contains_version, contains_block,
}

-- `Some(Edge::Contains { name, .. }) if name != ".."`
abbrev pub is_counted : Option Edge → Bool
is_counted (some (Edge.contains _ _ _ name)) = not (str_eq name "..")
is_counted (some (Edge.grants _ _ _ _)) = false
is_counted (some (Edge.delegates _ _ _)) = false
is_counted (some (Edge.derived_from _ _ _)) = false
is_counted (some (Edge.supersedes _ _ _)) = false
is_counted (some (Edge.points_to _ _ _ _)) = false
is_counted (some (Edge.has_xattr _ _ _)) = false
is_counted none = false

-- The count is cast to u32.
unfoldable pub incoming_count : InodeId → TypeGraph → ℕ
unfolding count
incoming_count id g = elim (Map.get id g.inode_incoming_contains) [
  | none ↦ 0
  | some edges ↦ count (λ eid. is_counted (get_edge eid g)) edges % 2 ^ 32
]

unfoldable pub check_link_count : TypeGraph → ArenaId × Inode → Result (Unit {0})
unfolding incoming_count
check_link_count g (aid, inode) = fail_if (not (inode.link_count == incoming_count aid.index g)) (
    invariant_violation
      (Violation.link_count aid.index inode.link_count (incoming_count aid.index g)))

unfoldable pub check_link_count_consistency : TypeGraph → Result (Unit {0})
unfolding check_link_count each
check_link_count_consistency g = each (check_link_count g) (Arena.iter g.inodes)

unfoldable pub has_text : String → List String → Bool
has_text name [] = false
has_text name (n ∷ ns) = str_eq n name || has_text name ns

-- The name of a `Contains` edge.
abbrev pub name_of : Option Edge → Option String
name_of (some (Edge.contains _ _ _ name)) = some name
name_of (some _) = none
name_of none = none

-- The loop over the edges of one directory, with the names that it has seen.
unfoldable pub unique_in : TypeGraph → DirId → List String → List EdgeId → Result (Unit {0})
unfolding has_text
unique_in g dir_id names [] = ok tt
unique_in g dir_id names (eid ∷ eids) = elim (name_of (get_edge eid g)) [
  | some name ↦
      fail_if (has_text name names) (invariant_violation (Violation.duplicate_name dir_id name))
      >> unique_in g dir_id (name ∷ names) eids
  | none ↦ unique_in g dir_id names eids
]

unfoldable pub check_unique_names : TypeGraph → Result (Unit {0})
unfolding unique_in each
check_unique_names g = each (λ (dir_id, eids). unique_in g dir_id [] eids) g.dir_contains

-- `Some(Edge::Contains { tgt, name, .. }) if name == "." && *tgt == inode_id`
abbrev is_self_ref : InodeId → Option Edge → Bool
is_self_ref inode_id (some (Edge.contains _ _ tgt name)) = str_eq name "." && tgt == inode_id
is_self_ref inode_id (some _) = false
is_self_ref inode_id none = false

unfoldable pub check_dir_self_ref : TypeGraph → Result (Unit {0})
unfolding each find
check_dir_self_ref g =
    each
      (λ (aid, dir).
        let has_dot : Bool = elim (Map.get aid.index g.dir_contains) [
          | none ↦ false
          | some eids ↦ is_some (find (λ eid. is_self_ref dir.inode_id (get_edge eid g)) eids)
        ] in
        fail_if (not has_dot) (invariant_violation (Violation.missing_dot aid.index)))
      (Arena.iter g.dirs)

abbrev is_user_name : Option Edge → Bool
is_user_name (some (Edge.contains _ _ _ name)) = not (str_eq name ".") && not (str_eq name "..")
is_user_name (some _) = false
is_user_name none = false

unfoldable pub check_no_hard_link_to_dir : TypeGraph → Result (Unit {0})
unfolding each count
check_no_hard_link_to_dir g =
    each
      (λ (aid, inode).
        let names : ℕ = elim (Map.get aid.index g.inode_incoming_contains) [
          | none ↦ 0
          | some eids ↦ count (λ eid. is_user_name (get_edge eid g)) eids
        ] in
        fail_if (is_directory inode.vtype && ltb 1 names)
          (invariant_violation (Violation.hard_linked_dir aid.index names)))
      (Arena.iter g.inodes)

unfoldable pub node_exists : NodeId → TypeGraph → Bool
node_exists (NodeId.inode id) g = contains_inode id g
node_exists (NodeId.directory id) g = contains_dir id g
node_exists (NodeId.capability id) g = contains_cap id g
node_exists (NodeId.transaction id) g = contains_txn id g
node_exists (NodeId.version id) g = contains_version id g
node_exists (NodeId.block id) g = contains_block id g
node_exists (NodeId.xattr id) g = is_some (Map.get id g.xattrs)

unfoldable pub check_no_dangling_edges : TypeGraph → Result (Unit {0})
unfolding each node_exists
check_no_dangling_edges g =
    each
      (λ (aid, edge).
        let src_exists = node_exists (src_node edge) g in
        let tgt_exists = node_exists (tgt_node edge) g in
        fail_if (not src_exists || not tgt_exists)
          (invariant_violation (Violation.dangling_edge aid.index src_exists tgt_exists)))
      (Arena.iter g.edges)

abbrev points_at : BlockId → ArenaId × Edge → Bool
points_at id (aid, Edge.points_to _ _ tgt _) = tgt == id
points_at id (aid, _) = false

unfoldable pub check_block_refcount : TypeGraph → Result (Unit {0})
unfolding each filter
check_block_refcount g =
    each
      (λ (aid, block).
        let actual = length (filter (points_at aid.index) (Arena.iter g.edges)) % 2 ^ 32 in
        fail_if (not (block.refcount == actual))
          (invariant_violation (Violation.refcount aid.index block.refcount actual)))
      (Arena.iter g.blocks)

unfoldable pub check_cap_monotonicity : TypeGraph → Result (Unit {0})
unfolding each is_subset_of
check_cap_monotonicity g =
    each
      (λ (child_id, parent_id). elim (get_cap child_id g) [
        | none ↦ ok tt
        | some child ↦ elim (get_cap parent_id g) [
          | none ↦ ok tt
          | some parent ↦ fail_if (not (is_subset_of child.rights parent.rights)) (
              invariant_violation
                (Violation.cap_not_subset child_id child.rights parent_id parent.rights))
        ]
      ])
      g.cap_parent

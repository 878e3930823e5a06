-- ===== src/Ops/Affected.antt =====
-- sotfs-ops/src/lib.rs: `AffectedNodes`, the set of at most eight nodes that a rule reports, kept in
-- an array and a length.
pub mod Bounds
use sotfs.Base.{
  ℕ, zero, suc, Bool, true, false, List, ltb, replicate, set, take, if◌then◌else◌, [], ◌∷◌,
}
use sotfs.Types.{InodeId, DirId, BlockId, NodeId, inode, directory, block, same_node}

pub record AffectedNodes : Type 0 where
  pub nodes : List NodeId
  pub len : ℕ

unfoldable pub empty : AffectedNodes
empty = record { nodes = replicate 8 (inode 0); len = 0 }

-- The scan of `push` for an equal node among the first `n`.
unfoldable pub has_node : ℕ → List NodeId → NodeId → Bool
has_node zero nodes node = false
has_node (suc n) [] node = false
has_node (suc n) (x ∷ nodes) node =
    let rest = has_node n nodes node in if same_node x node then true else rest

unfoldable pub push : NodeId → AffectedNodes → AffectedNodes
unfolding has_node
push node a =
    if ltb a.len 8
    then if has_node a.len a.nodes node
      then a
      else record { nodes = set a.nodes a.len node; len = suc a.len }
    else a

unfoldable pub as_slice : AffectedNodes → List NodeId
as_slice a = take a.len a.nodes

unfoldable pub affected_nodes_create : DirId → InodeId → AffectedNodes
unfolding push empty
affected_nodes_create dir i = push (inode i) (push (directory dir) empty)

unfoldable pub affected_nodes_unlink : DirId → InodeId → AffectedNodes
unfolding push empty
affected_nodes_unlink dir i = push (inode i) (push (directory dir) empty)

unfoldable pub affected_nodes_mkdir : DirId → InodeId → DirId → AffectedNodes
unfolding push empty
affected_nodes_mkdir parent_dir i new_dir =
    push (directory new_dir) (push (inode i) (push (directory parent_dir) empty))

unfoldable pub affected_nodes_rmdir : DirId → InodeId → DirId → AffectedNodes
unfolding push empty
affected_nodes_rmdir parent_dir i removed_dir =
    push (directory removed_dir) (push (inode i) (push (directory parent_dir) empty))

unfoldable pub affected_nodes_rename : DirId → DirId → InodeId → AffectedNodes
unfolding push empty
affected_nodes_rename src_dir dst_dir i =
    push (inode i) (push (directory dst_dir) (push (directory src_dir) empty))

unfoldable pub affected_nodes_link : DirId → InodeId → AffectedNodes
unfolding push empty
affected_nodes_link dir i = push (inode i) (push (directory dir) empty)

unfoldable pub affected_nodes_write_block : InodeId → BlockId → AffectedNodes
unfolding push empty
affected_nodes_write_block i b = push (NodeId.block b) (push (inode i) empty)

-- ===== src/Ops/Data/Effect.antt =====
-- sotfs-ops/src/lib.rs: WRITE and TRUNCATE on the graph, and reading after them.
use sotfs.Base.{ℕ, ◌+◌, ◌<◌, ◌^◌, true, some, ◌≡◌, refl, length}
use sotfs.Map
use sotfs.Map.{id_key, or_default}
use sotfs.Arena
use sotfs.Types.{InodeId, Inode, Edge, Bytes, is_regular}
use sotfs.Types.Right
use sotfs.Error.{ok}
use sotfs.Graph.{
  TypeGraph, edge_capacity, get_inode, adjust_inode, alloc_block_id, alloc_edge_id, insert_block,
  insert_edge,
}
use sotfs.Graph.Links.Nodes.Others.{insert_other-WellFormed}
use sotfs.Graph.Prov.{require_cap, record_prov}
use sotfs.Graph.Index.{index_of}
use sotfs.Graph.Links.Nodes.{nodes_of, WellFormed}
use sotfs.Provenance.{ProvOp}
use sotfs.Ops.Action.{Clock}
use sotfs.Ops.Action.Rules.{check_rule, gets_rule, step_rule, modify_rule, pure_rule, last_rule}
use sotfs.Ops.Steady.{logged-WellFormed, touched-WellFormed}
use sotfs.Ops.Data.{write_block, write_data, truncate, overwrite, buffer}

-- WRITE keeps a well-formed graph well-formed, whatever the arguments.
pub write_data-WellFormed :
    (g : TypeGraph) (h : WellFormed g) (clock : Clock) (inode_id : InodeId) (offset : ℕ)
    (bytes : Bytes)
    → WellFormed (write_data clock inode_id offset bytes g).1
unfolding write_data
write_data-WellFormed g h clock inode_id offset bytes = check_rule WellFormed _ _ g h λ _ _.
    check_rule WellFormed _ _ g h λ _ _. check_rule WellFormed _ _ g h λ _ _.
      check_rule WellFormed _ _ g h λ _ _. check_rule WellFormed _ _ g h λ _ _.
        gets_rule WellFormed _ _ g (
          modify_rule WellFormed _ _ g (
            modify_rule WellFormed _ _ _ (
              modify_rule WellFormed _ _ _ (
                pure_rule WellFormed _ _ (
                  logged-WellFormed _ _ _ _ _
                    (touched-WellFormed inode_id _ _ h (λ i. refl) (λ i. refl)))))))

-- TRUNCATE keeps a well-formed graph well-formed, whatever the arguments.
pub truncate-WellFormed :
    (g : TypeGraph) (h : WellFormed g) (clock : Clock) (inode_id : InodeId) (size : ℕ)
    → WellFormed (truncate clock inode_id size g).1
unfolding truncate
truncate-WellFormed g h clock inode_id size = check_rule WellFormed _ _ g h λ _ _.
    check_rule WellFormed _ _ g h λ _ _. check_rule WellFormed _ _ g h λ _ _.
      check_rule WellFormed _ _ g h λ _ _. modify_rule WellFormed _ _ g (
        modify_rule WellFormed _ _ _ (
          last_rule WellFormed _ _ (
            logged-WellFormed _ _ _ _ _
              (touched-WellFormed inode_id _ _ h (λ i. refl) (λ i. refl)))))

-- A new block extent keeps a well-formed graph well-formed while an edge id is left.
pub write_block-WellFormed :
    (g : TypeGraph) (h : WellFormed g) (room : g.next_edge < edge_capacity) (inode_id : InodeId)
    (offset sector_start sector_count : ℕ)
    → WellFormed (write_block inode_id offset sector_start sector_count g).1
unfolding write_block alloc_block_id alloc_edge_id insert_block insert_edge
write_block-WellFormed g h room inode_id offset sector_start sector_count =
    check_rule WellFormed _ _ g h λ _ _. check_rule WellFormed _ _ g h λ _ _.
      step_rule WellFormed _ _ g (
        step_rule WellFormed _ _ _ (
          modify_rule WellFormed _ _ _ (
            modify_rule WellFormed _ _ _ (
              modify_rule WellFormed _ _ _ (
                pure_rule WellFormed _ _ (
                  insert_other-WellFormed (nodes_of g) (index_of g) h
                    (Edge.points_to g.next_edge inode_id g.next_block offset) refl room))))))

module _ (g : TypeGraph) (inode_id : InodeId) (inode : Inode)
    (allowed : require_cap Right.write g ≡ ok tt) (here : get_inode inode_id g ≡ some inode)
    (regular : is_regular inode.vtype ≡ true) where
  module _ (clock : Clock) (offset : ℕ) (bytes : Bytes)
      (fits : offset + length bytes < 2 ^ 63) where
    abbrev new_buffer : Bytes
    new_buffer = overwrite offset bytes (buffer inode_id g)

    abbrev written : TypeGraph
    written = record_prov (clock 1) ProvOp.write inode_id "" (
        adjust_inode inode_id (λ i. record i { size = length new_buffer; mtime = clock 0 })
          (record g { file_data = Map.insert inode_id new_buffer g.file_data }))

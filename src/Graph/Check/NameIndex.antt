-- ===== src/Graph/Check/NameIndex.antt =====
-- graph.rs, `check_dir_name_idx_consistency`: the oracle for the name index.
use sotfs.Base.{String, ◌&&◌, not, Option, none, some, ◌==◌, str_eq}
use sotfs.Map
use sotfs.Map.{id_key, entry_key}
use sotfs.Types.{DirId, EdgeId, Edge}
use sotfs.Error.{Violation, Result, ok, err, invariant_violation, fail_if, each, ◌>>◌}
use sotfs.Graph.{TypeGraph, get_edge}

abbrev indexed_as : DirId → String → EdgeId → Option EdgeId → Result (Unit {0})
indexed_as dir_id name eid none =
    err (invariant_violation (Violation.missing_index dir_id name eid))
indexed_as dir_id name eid (some got) =
    fail_if (not (got == eid)) (invariant_violation (Violation.wrong_index dir_id name got eid))

-- Forward: an edge of `dir_contains[dir_id]` leaves that directory and has its index entry.
unfoldable pub check_forward : TypeGraph → DirId → EdgeId → Option Edge → Result (Unit {0})
check_forward g dir_id eid (some (Edge.contains _ src _ name)) =
    fail_if (not (src == dir_id)) (invariant_violation (Violation.wrong_src eid dir_id src))
    >> indexed_as dir_id name eid (Map.get (dir_id, name) g.dir_name_idx)
check_forward g dir_id eid (some _) = ok tt
check_forward g dir_id eid none = ok tt

-- Reverse: an index entry points to a `Contains` edge with the source and the name.
unfoldable pub check_reverse : DirId → String → EdgeId → Option Edge → Result (Unit {0})
check_reverse dir_id name eid (some (Edge.contains _ src _ n)) =
    fail_if (not (src == dir_id && str_eq n name))
      (invariant_violation (Violation.stale_index dir_id name eid))
check_reverse dir_id name eid (some _) = err (invariant_violation (Violation.index_to_other eid))
check_reverse dir_id name eid none = err (invariant_violation (Violation.index_to_missing eid))

unfoldable pub check_dir_name_idx_consistency : TypeGraph → Result (Unit {0})
unfolding check_forward check_reverse each
check_dir_name_idx_consistency g =
    each (λ (dir_id, eids). each (λ eid. check_forward g dir_id eid (get_edge eid g)) eids)
      g.dir_contains
    >> each (λ ((dir_id, name), eid). check_reverse dir_id name eid (get_edge eid g)) g.dir_name_idx

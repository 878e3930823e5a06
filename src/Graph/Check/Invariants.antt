-- ===== src/Graph/Check/Invariants.antt =====
-- graph.rs, `check_invariants`.
use sotfs.Base.{ℕ}
use sotfs.Error.{Result, ◌>>◌}
use sotfs.Graph.{TypeGraph}
use sotfs.Graph.Check.{
  check_link_count_consistency, check_unique_names, check_dir_self_ref, check_no_dangling_edges,
  check_block_refcount, check_cap_monotonicity, check_no_hard_link_to_dir,
}
use sotfs.Graph.Check.Cycles.{check_no_dir_cycles}
use sotfs.Graph.Check.NameIndex.{check_dir_name_idx_consistency}

unfoldable pub check_invariants : ℕ → TypeGraph → Result (Unit {0})
check_invariants fuel g =
    check_link_count_consistency g
    >> (check_unique_names g
        >> (check_dir_self_ref g
            >> (check_no_dangling_edges g
                >> (check_block_refcount g
                    >> (check_no_dir_cycles fuel g
                        >> (check_cap_monotonicity g
                            >> (check_no_hard_link_to_dir g
                                >> check_dir_name_idx_consistency g)))))))

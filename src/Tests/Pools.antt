-- ===== src/Tests/Pools.antt =====
-- The theorems on pools, indexes and transactions, applied to concrete ones.
use sotfs.Base.{ℕ, ◌+◌, true, false, none, some, [], ◌∷◌, ◌≡◌, refl, arith, ◌==◌, count}
use mathlib.Core.Option
use sotfs.Map
use sotfs.Map.{id_key, entry_key, or_default}
use sotfs.Map.Sets
use sotfs.Arena
use sotfs.Arena.{Arena, ArenaId, alloc, insert_at, dealloc, get}
use sotfs.Arena.Iter.{count-iter}
use sotfs.Arena.Reuse.{alloc-insert_at-dealloc}
use sotfs.Error.{ok, err, would_create_cycle}
use sotfs.Types.{src_node, tgt_node}
use sotfs.Graph.{contains_dir, contains_inode, get_inode}
use sotfs.Graph.Check.{
  check_link_count_consistency, check_unique_names, check_dir_self_ref, check_no_dangling_edges,
  check_block_refcount, check_cap_monotonicity, check_no_hard_link_to_dir,
}
use sotfs.Graph.Check.Cycles.{check_no_dir_cycles, has_cycle_from}
use sotfs.Graph.Check.NameIndex.{check_dir_name_idx_consistency}
use sotfs.Graph.Check.Invariants.{check_invariants}
use sotfs.Graph.Links.Nodes.Fresh.{new-WellFormed}
use sotfs.Ops.Action.{Action}
use sotfs.Ops.Data.{overwrite}
use sotfs.Ops.Data.Buffer.{byte_at, byte_at-overwrite}
use sotfs.Tx.{with_transaction}
use sotfs.Tx.Outcome.{Failed, with_transaction-Failed, with_transaction-verified}
use sotfs.Graph.{TypeGraph, new, get_edge, adjust_inode}
use sotfs.Graph.Names.{scan_names}
use sotfs.Graph.Index.{index_of, edges_from}
use sotfs.Graph.Index.Resolve.{scan-lookup}
use sotfs.Graph.Links.Nodes.{WellFormed}
use sotfs.Tests.{start, with_file, with_file-WellFormed}

abbrev pool : Arena ℕ 4
pool = (insert_at (record { index = 2 }) 20 (Arena.new 4)).1

abbrev slot : ℕ → ArenaId
slot n = record { index = n }

iter_example : count (λ (e : ArenaId × ℕ). e.0.index == 2) (Arena.iter pool) ≡ 1
unfolding insert_at get
iter_example = count-iter pool 2 (omega arith) (omega arith) (λ le. absurd (omega arith))

reuse_example :
    let freed = (dealloc (slot 2) pool).1 in
    let filled = (insert_at (slot 2) 30 freed).1 in
    (get (slot 2) filled ≡ some 30)
    × (alloc true 20 filled ≡ none)
    × (Option.map (λ r. r.0) (alloc false 20 filled) ≡ some (some (slot 2)))
    × (Option.bind (alloc false 20 filled) (λ r. get (slot 2) r.1) ≡ some 20)
    × (Option.map (λ r. r.1.len) (alloc false 20 filled) ≡ some (filled.len + 1))
unfolding insert_at get
reuse_example = alloc-insert_at-dealloc (slot 2) pool 30 20 (omega arith) (omega arith) refl

scan_example :
    scan_names "a" with_file (edges_from 1 (index_of with_file))
    ≡ Option.bind (Map.get (1, "a") with_file.dir_name_idx) (λ e. get_edge e with_file)
scan_example = scan-lookup with_file with_file-WellFormed.index 1 "a"

-- A graph whose root has a wrong link count.
abbrev spoiled : TypeGraph
spoiled = adjust_inode 1 (λ i. record i { link_count = 2 }) start

abbrev spoil_and_fail : Action ℕ
spoil_and_fail g = (err would_create_cycle, spoiled)

abbrev three : Action ℕ
three g = (ok 3, g)

new_example : WellFormed (new 0)
new_example = new-WellFormed 0

undone_run : (with_transaction 5 spoil_and_fail start).0 ≡ err would_create_cycle
unfolding with_transaction
undone_run = refl

undone_example : Failed 5 spoil_and_fail start would_create_cycle
undone_example = with_transaction-Failed 5 spoil_and_fail start would_create_cycle undone_run

start_check : check_invariants 5 start ≡ ok tt
unfolding check_invariants new check_link_count_consistency Arena.iter insert_at Map.get Map.insert
    Sets.add get_edge check_unique_names check_dir_self_ref check_no_dangling_edges src_node
    tgt_node contains_dir contains_inode Arena.contains check_block_refcount check_no_dir_cycles
    check_cap_monotonicity check_no_hard_link_to_dir check_dir_name_idx_consistency Sets.contains
    has_cycle_from get_inode get
start_check = refl

verified_example :
    ((three start).0 ≡ ok 3)
    × (check_invariants 5 (with_transaction 5 three start).1 ≡ ok tt)
    × ((with_transaction 5 three start).1 ≡ (three start).1)
unfolding with_transaction
verified_example = with_transaction-verified 5 three start 3 (rw start_check refl)

byte_example : byte_at 4 (overwrite 3 (9 ∷ 8 ∷ []) (1 ∷ [])) ≡ some 8
unfolding byte_at
byte_example = byte_at-overwrite 3 (9 ∷ 8 ∷ []) (1 ∷ []) 4

-- ===== src/Tests/Fscks.antt =====
-- A concrete run of the verifier on a new file system.
use sotfs.Base.{ℕ, ◌<◌, ◌≤◌, ◌^◌, some, [], ◌≡◌, refl, arith, length}
use sotfs.Map
use sotfs.Map.{id_key}
use sotfs.Map.Sets
use sotfs.Arena
use sotfs.Types.{InodeId, Inode}
use sotfs.Graph.{
  node_capacity, edge_capacity, new, insert_inode, insert_dir, add_contains, insert_edge,
  add_incoming, add_outgoing, get_edge, get_inode, contains_dir, contains_inode,
}
use sotfs.Graph.Names.{dir_for_inode}
use sotfs.Ops.Fsck.{FsckReport, fsck, report_with, incoming_links}
use sotfs.Ops.Fsck.Ends.{fsck_total}
use sotfs.Ops.Fsck.Agrees.{IsClean, fsck-IsClean}
use sotfs.Tests.{start}

start_dirs : length start.dir_contains ≡ 1
unfolding new insert_inode insert_dir add_contains insert_edge add_outgoing add_incoming Map.insert
    Map.get
start_dirs = refl

fsck_example : (report : FsckReport) × (fsck 5 start ≡ some report)
fsck_example = fsck_total 5 start (omega (arith, start_dirs))

start_report : (report : FsckReport) × (fsck 5 start ≡ some report) × (report.errors ≡ [])
unfolding new insert_inode insert_dir add_contains insert_edge add_outgoing add_incoming Map.insert
    Map.get fsck report_with Arena.get Arena.contains Arena.insert_at Arena.iter get_edge get_inode
    contains_dir contains_inode dir_for_inode Sets.contains Sets.add Sets.delete Map.adjust
start_report = (_, refl, refl)

start_bumps : (start.edges.next_bump ≤ edge_capacity) × (start.inodes.next_bump ≤ node_capacity)
unfolding new insert_inode insert_dir add_contains insert_edge add_outgoing add_incoming Map.insert
    Map.get Arena.get Arena.contains Arena.insert_at
start_bumps = (omega arith, omega arith)

start_ids :
    (j : ℕ) (inode : Inode) → j < node_capacity → start.inodes.slots j ≡ some inode → inode.id ≡ j
unfolding new insert_inode insert_dir add_contains insert_edge add_outgoing add_incoming Map.insert
    Map.get Arena.get Arena.contains Arena.insert_at
start_ids j inode lt at = ground (arith, at)

start_fits : (i : InodeId) → incoming_links i start < 2 ^ 32
unfolding new insert_inode insert_dir add_contains insert_edge add_outgoing add_incoming Map.insert
    Map.get Arena.get Arena.contains Arena.insert_at incoming_links get_edge Sets.add
start_fits i = ground arith

clean_example : IsClean start
clean_example =
    fsck-IsClean start start_bumps.0 start_bumps.1 start_ids start_fits 5 start_report.0
      start_report.1 start_report.2

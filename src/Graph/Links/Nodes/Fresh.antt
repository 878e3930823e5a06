-- ===== src/Graph/Links/Nodes/Fresh.antt =====
-- graph.rs, `TypeGraph::new`: the graph that holds the root alone.
use sotfs.Base.{refl, arith}
use sotfs.Map
use sotfs.Map.{id_key, entry_key}
use sotfs.Map.Sets
use sotfs.Map.Sets.Order.{IsIncreasing}
use sotfs.Arena
use sotfs.Arena.{to_id}
use sotfs.Types.{Timestamp, new_dir, dir_default}
use sotfs.Graph.{empty_graph, new, insert_inode, insert_dir, add_contains}
use sotfs.Graph.Index.{index_of, entry, IsIndexed}
use sotfs.Graph.Index.Add.{link_edge}
use sotfs.Graph.Links.Nodes.{nodes_of, inode_at, dir_at, WellFormed, settled}
use sotfs.Graph.Links.Nodes.Steps.{insert_inode-WellFormed, insert_dir-WellFormed, WellFormed_congr}
use sotfs.Graph.Links.Nodes.Edges.{link_edge-WellFormed}

empty-IsIndexed : IsIndexed (index_of empty_graph)
unfolding entry Arena.get Map.get Sets.contains
empty-IsIndexed = record {
  bounded = omega arith;
  vacant = λ e le lt. ground arith;
  sound = λ d n e found. ground arith;
  complete = λ d t n e lt at. ground arith;
  from_below = λ d e m. ground arith;
  to_below = λ i e m. ground arith;
  from_exact = λ d e lt. ground arith;
  to_exact = λ i e lt. ground arith;
}

empty-WellFormed : WellFormed empty_graph
unfolding entry Arena.get Map.get inode_at dir_at IsIncreasing
empty-WellFormed = record {
  index = empty-IsIndexed;
  increasing = λ i. tt;
  inodes_bounded = omega arith;
  dirs_bounded = omega arith;
  inodes_vacant = λ i le lt. ground arith;
  dirs_vacant = λ i le lt. ground arith;
  link_counts = λ i nd lt at. ground arith;
  endpoints = λ e d t name lt at. ground arith;
  dotdots = λ e d t name nd lt at up there. ground arith;
}

-- The graph of a new file system is well-formed.
pub new-WellFormed : (now : Timestamp) → WellFormed (new now)
unfolding new inode_at dir_at Arena.get Arena.insert_at insert_inode insert_dir add_contains
    link_edge Map.get
new-WellFormed now =
    let root = record (new_dir 1 dir_default 0 0 now) { link_count = 1 } in
    let s = index_of empty_graph in
    let h1 =
      insert_inode-WellFormed (nodes_of empty_graph) s empty-WellFormed 1 root (omega arith)
        (ground arith) in
    let h2 =
      insert_dir-WellFormed _ s h1 1 (record { id = 1; inode_id = 1 }) (omega arith)
        (ground arith) in
    let h3 =
      link_edge-WellFormed s h2 1 1 1 "." (omega arith) (ground arith) refl (omega arith)
        (ground arith) (omega arith) (ground arith) (ground arith) (λ nd up at. ground arith) in
    WellFormed_congr settled (nodes_of (new now)) (index_of (new now)) h3 (λ i. ground arith)

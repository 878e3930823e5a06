-- ===== src/Lib.antt =====
-- A verification library for sotfs, a file system whose whole metadata is one typed graph and whose
-- operations are rewritings of that graph.
--
-- The program. `sotfs-graph` holds the graph: node pools (arenas of fixed capacity), an edge pool,
-- and maps that index the edges: by the directory that they leave (`dir_contains`), by the inode
-- that they enter (`inode_incoming_contains`) and by directory and name (`dir_name_idx`).
-- `sotfs-ops` rewrites the graph: each operation checks the capability and its own guards, and
-- changes nodes, edges and indexes step by step. `sotfs-tx` wraps a rewriting in a transaction that
-- takes a snapshot first. The graph may hold a log (`sotfs-graph/src/provenance.rs`) to which the
-- operations append. `sotfs-graph/src/rcu.rs` shares a graph between readers without a lock and one
-- writer at a time, who changes a copy and swaps it in.
--
-- Which file models which part:
--   Base, Map      lists and tests over the native numbers; BTreeMap and BTreeSet as ordered lists
--                  (Map/Sets), of which the theorems use lookups and membership
--   Arena          sotfs-graph/src/arena.rs: Arena, alloc, insert_at, dealloc, remove, get, iter;
--                  `adjust` is `get_mut` with the change that the caller makes
--   Types, Error   sotfs-graph/src/types.rs and error.rs; ids, times and counters are numbers, and
--                  where the source computes with them the width is written out
--   Provenance     sotfs-graph/src/provenance.rs
--   Graph          sotfs-graph/src/graph.rs: TypeGraph, allocators, insertions and removals;
--                  Graph/Names the lookups, Graph/Prov the log and the admission by capability,
--                  Graph/Check the invariant checks; Graph/Check/Cycles the searches for cycles and
--                  ancestors, and below it the order of the tree that they decide
--   Graph/Index    the part of the graph that concerns `Contains` edges, and `IsIndexed`: the three
--                  indexes hold exactly the edges of the pool
--   Graph/Links    `WellFormed`: on top of that, link counts are the numbers of edges, endpoints
--                  exist, and ids above the counters are unused
--   Ops            sotfs-ops/src/lib.rs: Action is `&mut TypeGraph` with `Result`; Create, Link,
--                  Rmdir, Rename, Data, Attr, Xattr and Quota are the operations, and the
--                  files below them the theorems; Atomic is on errors, Names on the names as
--                  a finite map; Affected is the set of nodes that a rule
--                  reports, with no theorem on what the rule changes; Fsck is the
--                  verifier that reports all errors; Session is a client that makes one call
--                  after another; Steady and the files below Action are what those share
--   Rcu            sotfs-graph/src/rcu.rs: the threads as places of their code, and each atomic
--                  operation as a step; Rcu/Writers the lock, Rcu/Published the active copy,
--                  Rcu/Readers the grace period, Rcu/Gone and Rcu/Progress its end, Rcu/Torn a
--                  run that it misses
--   Tx             sotfs-tx/src/lib.rs
--   Tests          concrete runs
--
-- An operation is a function from a graph to a result and a graph: what was written before an error
-- stays written, as in the source. `now()` is a sequence of readings that the operation is given.
--
-- Bounds. The capacities are those of the source (65536 nodes and 131072 edges). Counters are u64
-- and wrap; the arena keeps 32 bits of an id. Theorems that need a free id say so.
-- A panic of the source is `diverge`: of the sums of offsets and lengths beyond a 64-bit usize, and
-- of a buffer that would grow beyond `isize::MAX` bytes. `alloc` takes whether debug assertions are
-- on, and `none` is its panic where they are.
--
-- Fuel. The walks of the quotas up the parents take fuel, since nothing in the source bounds them
-- on a cyclic chain; `diverge` is a run that has used it up. The theorems on quotas
-- (Ops/Quota/Walk, the checks, and Ops/Quota/Charge, the update) take a directory with finitely
-- many above it, and any fuel that is at least their number. The searches for cycles and ancestors
-- end in the source because they mark what they visit; here fuel bounds their depth, and one more
-- than the entries of `dir_contains` is enough. The theorems on the operations that keep the graph
-- well-formed and on transactions hold for every fuel.
--
-- The atomics of the RCU container are taken as sequentially consistent, and each as one step; a
-- run is any list of steps of any threads. The graph is a parameter there.
--
-- Not modelled: export, storage, which serializes into a third-party database, the monitors over
-- floating-point measures, FUSE and command-line glue; of graph.rs the resolution of paths.
-- Formatted texts of errors are kept as the data that they format.
pub mod Base
pub mod Map
pub mod Arena
pub mod Types
pub mod Error
pub mod Provenance
pub mod Graph
pub mod Ops
pub mod Tx
pub mod Tests
pub mod Rcu

-- ===== src/Ops.antt =====
-- sotfs-ops/src/lib.rs: the operations of the file system, as rewritings of the graph. An operation
-- takes the clock as the sequence of its readings, and returns the graph beside its result, also
-- where it fails.
pub mod Action
pub mod Quota
pub mod Create
pub mod Steady
pub mod Link
pub mod Data
pub mod Attr
pub mod Xattr
pub mod Atomic
pub mod Names
pub mod Rmdir
pub mod Rename
pub mod Affected
pub mod Session
pub mod Fsck

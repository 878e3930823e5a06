-- ===== src/Ops/Data.antt =====
-- sotfs-ops/src/lib.rs: the data of files and the blocks that they point to. The arithmetic on
-- offsets is that of u64 and of a 64-bit usize.
pub mod Buffer
pub mod Effect
use sotfs.Base.{
  ℕ, ◌+◌, ◌-◌, ◌%◌, ◌^◌, Bool, true, false, not, Option, none, some, List, [], ◌∷◌, ◌++◌, ◌&&◌, min,
  leb, ltb, length, take, drop, replicate, if◌then◌else◌,
}
use sotfs.Map
use sotfs.Map.{id_key, or_default}
use sotfs.Map.Sets
use sotfs.Types.{InodeId, BlockId, Bytes, Edge, is_regular}
use sotfs.Types.Right
use sotfs.Error.{
  Result, ok, diverge, inode_not_found, not_a_file, ok_or, fail_if, ◌>>◌ as ◌>>?◌, ◌>>=◌ as ◌>>=?◌,
}
use sotfs.Graph.{
  TypeGraph, alloc_block_id, alloc_edge_id, insert_block, insert_edge, get_inode, adjust_inode,
  contains_inode,
}
use sotfs.Graph.Prov.{require_cap, record_prov}
use sotfs.Provenance.{ProvOp}
use sotfs.Ops.Action.{Action, Clock, check, gets, modify, step, pure, ◌>>=◌, ◌>>◌}

-- `buf.resize(n, 0)`
unfoldable pub resize : ℕ → Bytes → Bytes
resize n buf = if leb n (length buf) then take n buf else buf ++ replicate (n - length buf) 0

-- `if buf.len() < end { buf.resize(end, 0) }`
unfoldable pub extend : ℕ → Bytes → Bytes
unfolding resize
extend end buf = if ltb (length buf) end then resize end buf else buf

-- `buf[offset..end].copy_from_slice(bytes)`, where `end` is `offset + bytes.len()`
unfoldable pub copy_in : ℕ → Bytes → Bytes → Bytes
copy_in offset bytes buf = take offset buf ++ (bytes ++ drop (offset + length bytes) buf)

unfoldable pub overwrite : ℕ → Bytes → Bytes → Bytes
unfolding extend copy_in
overwrite offset bytes buf = copy_in offset bytes (extend (offset + length bytes) buf)

-- `buf.resize(end, 0)` panics where the buffer would grow beyond `isize::MAX` bytes.
abbrev pub can_grow : ℕ → Bytes → Result (Unit {0})
can_grow end buf = if ltb (length buf) end && leb (2 ^ 63) end then diverge else ok tt

-- The sum of two usize numbers. Where it passes 64 bits, the sum panics, or wraps in a build without
-- overflow checks, and then the slice that begins at `a` and ends before it panics.
abbrev pub end_of : ℕ → ℕ → Result ℕ
end_of a b = if ltb (a + b) (2 ^ 64) then ok (a + b) else diverge

-- `buf[start..end].to_vec()`
unfoldable pub slice : ℕ → ℕ → Bytes → Bytes
slice start end buf = take (end - start) (drop start buf)

-- What `read_data` reads of the buffer.
unfoldable pub read_slice : ℕ → ℕ → Bytes → Result Bytes
unfolding slice
read_slice offset size buf =
    let start = min offset (length buf) in
    end_of start size >>=? λ end. ok (slice start (min end (length buf)) buf)

abbrev pub buffer : InodeId → TypeGraph → Bytes
buffer inode_id g = or_default [] (Map.get inode_id g.file_data)

unfoldable pub write_data : Clock → InodeId → ℕ → Bytes → Action ℕ
write_data clock inode_id offset bytes = do
  check (require_cap Right.write)
  inode ← check (λ g. ok_or (get_inode inode_id g) (inode_not_found inode_id))
  check (λ g. fail_if (not (is_regular inode.vtype)) (not_a_file inode_id))
  end ← check (λ g. end_of offset (length bytes))
  check (λ g. can_grow end (buffer inode_id g))
  buf ← gets (λ g. overwrite offset bytes (buffer inode_id g))
  modify (λ g. record g { file_data = Map.insert inode_id buf g.file_data })
  modify (adjust_inode inode_id (λ i. record i { size = length buf; mtime = clock 0 }))
  modify (record_prov (clock 1) ProvOp.write inode_id "")
  pure (length bytes)

unfoldable pub read_data : InodeId → ℕ → ℕ → TypeGraph → Result Bytes
unfolding read_slice
read_data inode_id offset size g =
    ok_or (get_inode inode_id g) (inode_not_found inode_id) >>=? λ inode.
    fail_if (not (is_regular inode.vtype)) (not_a_file inode_id)
    >>? (elim (Map.get inode_id g.file_data) [
      | none ↦ ok []
      | some buf ↦ read_slice offset size buf
    ])

unfoldable pub truncate : Clock → InodeId → ℕ → Action (Unit {0})
truncate clock inode_id new_size = do
  check (require_cap Right.write)
  inode ← check (λ g. ok_or (get_inode inode_id g) (inode_not_found inode_id))
  check (λ g. fail_if (not (is_regular inode.vtype)) (not_a_file inode_id))
  check (λ g. can_grow new_size (buffer inode_id g))
  modify (λ g. record g {
    file_data = Map.insert inode_id (resize new_size (buffer inode_id g)) g.file_data;
  })
  modify (adjust_inode inode_id (λ i. record i { size = new_size; mtime = clock 0 }))
  modify (record_prov (clock 1) ProvOp.truncate inode_id "")

unfoldable pub write_block : InodeId → ℕ → ℕ → ℕ → Action BlockId
write_block inode_id offset sector_start sector_count = do
  check (require_cap Right.write)
  check (λ g. fail_if (not (contains_inode inode_id g)) (inode_not_found inode_id))
  block_id ← step alloc_block_id
  edge_id ← step alloc_edge_id
  modify (
      insert_block block_id (record {
        id = block_id;
        sector_start = sector_start;
        sector_count = sector_count;
        refcount = 1;
      }))
  modify (insert_edge edge_id (Edge.points_to edge_id inode_id block_id offset))
  modify (λ g. record g {
    inode_points_to =
        Map.insert inode_id (Sets.add edge_id (or_default [] (Map.get inode_id g.inode_points_to)))
          g.inode_points_to;
  })
  pure block_id

-- ===== src/Tests/Quotas.antt =====
-- Concrete quotas: the root has no room left, and the directory below it has.
use sotfs.Base.{◌+◌, ◌<◌, ◌^◌, some, [], ◌∷◌, ◌≡◌, refl, arith}
use sotfs.Map
use sotfs.Map.{Map, id_key}
use sotfs.Arena
use sotfs.Types.{DirId, Quota}
use sotfs.Error.{ok, Resource}
use sotfs.Graph.{
  TypeGraph, new, insert_inode, insert_dir, add_contains, contains_dir, get_dir, get_edge,
  alloc_inode_id, alloc_dir_id, alloc_edge_id,
}
use sotfs.Graph.Prov.{require_cap, record_prov}
use sotfs.Graph.Names.{resolve_name, dir_for_inode, parent_dir}
use sotfs.Ops.Action.{◌>>=◌}
use sotfs.Ops.Create.{is_bad_name, mkdir}
use sotfs.Ops.Quota.{check_quota_inode, check_quota_bytes, update_quota, plus, minus}
use sotfs.Ops.Quota.Walk.{Above, orphan, under, Decides, InodeRoom, ByteRoom, check_quota-Decides}
use sotfs.Ops.Quota.Charge.{Charged, update_quota-Charged}
use sotfs.Tests.Dirs.{with_dir}

abbrev limited : TypeGraph
limited = record with_dir {
  quotas =
      (1, record { inode_limit = 3; inode_usage = 3; byte_limit = 0; byte_usage = 700 })
      ∷ (2, record { inode_limit = 9; inode_usage = 1; byte_limit = 500; byte_usage = 200 })
      ∷ [];
}

limited-Above : Above limited 2 (2 ∷ 1 ∷ [])
unfolding mkdir new insert_inode insert_dir add_contains update_quota ◌>>=◌ require_cap is_bad_name
    resolve_name Map.insert Map.get contains_dir get_dir Arena.get Arena.contains Arena.insert_at
    check_quota_inode parent_dir alloc_edge_id alloc_inode_id alloc_dir_id record_prov dir_for_inode
    get_edge
limited-Above = under refl refl (orphan refl)

limited_fits :
    (a : DirId) (q : Quota) → Map.get a limited.quotas ≡ some q → q.byte_usage + 100 < 2 ^ 64
unfolding Map.get
limited_fits a q there = ground (arith, there)

quota_example :
    Decides InodeRoom Resource.inode limited (2 ∷ 1 ∷ []) (check_quota_inode 5 2 limited)
    × Decides (ByteRoom 100) Resource.bytes limited (2 ∷ 1 ∷ []) (check_quota_bytes 5 2 100 limited)
quota_example =
    check_quota-Decides limited 5 2 (2 ∷ 1 ∷ []) 100 limited-Above (omega arith) limited_fits

charge_example :
    (quotas : Map DirId Quota) × (update_quota 5 2 (plus 1) (minus 50) limited
      ≡ (ok tt, record limited { quotas = quotas }))
    × Charged (plus 1) (minus 50) (2 ∷ 1 ∷ []) limited.quotas quotas
charge_example =
    update_quota-Charged (plus 1) (minus 50) limited 5 2 (2 ∷ 1 ∷ []) limited-Above (omega arith)

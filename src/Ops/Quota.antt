-- ===== src/Ops/Quota.antt =====
-- sotfs-ops/src/lib.rs, quotas: a quota is set on a directory, and every operation walks from its
-- directory up to the root. The source bounds no walk; `fuel` is the number of directories that the
-- model visits at most, and `diverge` (or `none`) says that they were too few.
pub mod Walk
pub mod Once
pub mod Charge
use sotfs.Base.{
  ℕ, zero, suc, ◌+◌, ◌-◌, ◌^◌, String, Bool, true, false, Option, none, some, min, ltb, ◌==◌,
  if◌then◌else◌, not,
}
use sotfs.Map
use sotfs.Map.{id_key}
use sotfs.Types.{DirId, Quota, new_quota, check_inode, check_bytes}
use sotfs.Types.Right
use sotfs.Error.{Resource, Result, ok, err, diverge, dir_not_found, quota_exceeded, fail_if}
use sotfs.Graph.{TypeGraph, contains_dir}
use sotfs.Graph.Names.{parent_dir}
use sotfs.Graph.Prov.{require_cap}
use sotfs.Ops.Action.{Action, check, modify, ◌>>=◌, ◌>>◌}

unfoldable pub set_quota : DirId → ℕ → ℕ → Action (Unit {0})
set_quota dir_id inode_limit byte_limit = do
  check (require_cap Right.grant)
  check (λ g. fail_if (not (contains_dir dir_id g)) (dir_not_found dir_id))
  modify (λ g. record g { quotas = Map.insert dir_id (new_quota inode_limit byte_limit) g.quotas })

unfoldable pub get_quota : DirId → TypeGraph → Result (Option Quota)
get_quota dir_id g =
    if not (contains_dir dir_id g) then err (dir_not_found dir_id) else ok (Map.get dir_id g.quotas)

-- `next == Some(d)`, the test by which the walks stop at a root that is its own parent.
abbrev pub next_dir : DirId → Option DirId → Option DirId
next_dir d none = none
next_dir d (some p) = if p == d then none else some p

abbrev pub has_room : (Quota → Bool) → Option Quota → Bool
has_room test none = true
has_room test (some q) = test q

-- The loop of `check_quota_inode` and `check_quota_bytes`.
unfoldable pub check_walk :
    ℕ → (Quota → Bool) → Resource → Option DirId → TypeGraph → Result (Unit {0})
check_walk fuel test resource none g = ok tt
check_walk zero test resource (some d) g = diverge
check_walk (suc fuel) test resource (some d) g =
    let rest = check_walk fuel test resource (next_dir d (parent_dir d g)) g in
    if has_room test (Map.get d g.quotas) then rest else err (quota_exceeded d resource)

unfoldable pub check_quota_inode : ℕ → DirId → TypeGraph → Result (Unit {0})
unfolding check_walk
check_quota_inode fuel dir_id g = check_walk fuel check_inode Resource.inode (some dir_id) g

unfoldable pub check_quota_bytes : ℕ → DirId → ℕ → TypeGraph → Result (Unit {0})
unfolding check_walk
check_quota_bytes fuel dir_id additional g =
    check_walk fuel (λ q. check_bytes q additional) Resource.bytes (some dir_id) g

-- The signed change of a counter; the source has it as an i64.
pub data Delta : Type 0 where
  plus : ℕ → Delta
  minus : ℕ → Delta

-- `saturating_add` and `saturating_sub` on u64
abbrev pub apply_delta : Delta → ℕ → ℕ
apply_delta (plus n) usage = min (usage + n) (2 ^ 64 - 1)
apply_delta (minus n) usage = usage - n

abbrev pub charge : Delta → Delta → Quota → Quota
charge inodes bytes q = record q {
  inode_usage = apply_delta inodes q.inode_usage;
  byte_usage = apply_delta bytes q.byte_usage;
}

-- The loop of `update_quota`; `none` where the fuel ran out.
unfoldable pub update_walk : ℕ → Delta → Delta → Option DirId → TypeGraph → Option TypeGraph
update_walk fuel inodes bytes none g = some g
update_walk zero inodes bytes (some d) g = none
update_walk (suc fuel) inodes bytes (some d) g =
    let g' = record g { quotas = Map.adjust d (charge inodes bytes) g.quotas } in
    update_walk fuel inodes bytes (next_dir d (parent_dir d g')) g'

abbrev pub finish : Option TypeGraph → TypeGraph → Result (Unit {0}) × TypeGraph
finish none g = (diverge, g)
finish (some g') g = (ok tt, g')

unfoldable pub update_quota : ℕ → DirId → Delta → Delta → Action (Unit {0})
unfolding update_walk
update_quota fuel dir_id inodes bytes g = finish (update_walk fuel inodes bytes (some dir_id) g) g

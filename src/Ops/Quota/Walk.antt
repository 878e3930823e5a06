-- ===== src/Ops/Quota/Walk.antt =====
-- sotfs-ops/src/lib.rs: the walks of the quotas against the directories above one, which the ".."
-- entries alone give.
use sotfs.Base.{
  ℕ, zero, suc, ◌+◌, ◌<◌, ◌≤◌, ◌^◌, Bool, true, false, none, some, List, [], ◌∷◌, ◌++◌, ◌≡◌, refl,
  sym, ap, ◌∙◌, arith, ◌==◌, ==_iff, length, ◌%◌, Option-cases, Bool-cases, if_rule, inl, inr, ◌⊎◌,
  if◌then◌else◌,
}
use mathlib.Core.Path.{subst}
use sotfs.Map
use sotfs.Map.{Map, id_key}
use sotfs.Types.{DirId, Quota, check_inode, check_bytes}
use sotfs.Error.{Resource, Result, ok, err, quota_exceeded}
use sotfs.Graph.{TypeGraph}
use sotfs.Graph.Names.{parent_dir}
use sotfs.Ops.Quota.{check_walk, check_quota_inode, check_quota_bytes, next_dir, has_room}

-- A directory and those above it: up to one that has no parent, or is its own.
pub data Above (g : TypeGraph) : DirId → List DirId → Type 0 where
  orphan : {d : DirId} → parent_dir d g ≡ none → Above g d (d ∷ [])
  root : {d : DirId} → parent_dir d g ≡ some d → Above g d (d ∷ [])
  under :
      {d p : DirId} {ds : List DirId}
      → parent_dir d g ≡ some p
      → (p == d) ≡ false
      → Above g p ds
      → Above g d (d ∷ ds)

pub next_none :
    (d : DirId) (g : TypeGraph)
    → (parent_dir d g ≡ none) ⊎ (parent_dir d g ≡ some d)
    → next_dir d (parent_dir d g) ≡ none
next_none d g (inl h) = rw h refl
next_none d g (inr h) = let same : (d == d) ≡ true = ground arith in rw h (rw same refl)

pub next_some :
    (d p : DirId) (g : TypeGraph)
    → parent_dir d g ≡ some p
    → (p == d) ≡ false
    → next_dir d (parent_dir d g) ≡ some p
next_some d p g h other = rw h (rw other refl)

-- The quota of the directory, if it has one, passes the test.
abbrev Passes : (Quota → Type 0) → TypeGraph → DirId → Type 0
Passes Room g d = (q : Quota) → Map.get d g.quotas ≡ some q → Room q

abbrev AllPass : (Quota → Type 0) → TypeGraph → List DirId → Type 0
AllPass Room g [] = Unit
AllPass Room g (d ∷ ds) = Passes Room g d × AllPass Room g ds

-- A quota check decides whether all quotas of a list of directories have room, and reports the first
-- that has not.
abbrev pub Decides :
    (Quota → Type 0) → Resource → TypeGraph → List DirId → Result (Unit {0}) → Type 0
Decides Room resource g ds r =
    ((r ≡ ok tt) × AllPass Room g ds)
    ⊎ ((before : List DirId) × (d : DirId) × (after : List DirId) × (q : Quota) × (ds
          ≡ before ++ d ∷ after)
        × AllPass Room g before
        × (Map.get d g.quotas ≡ some q)
        × (¬ Room q)
        × (r ≡ err (quota_exceeded d resource)))

-- No limit, or an inode more is within it.
abbrev pub InodeRoom : Quota → Type 0
InodeRoom q = (q.inode_limit ≡ 0) ⊎ (q.inode_usage + 1 ≤ q.inode_limit)

-- No limit, or the bytes are within it beside those in use.
abbrev pub ByteRoom : ℕ → Quota → Type 0
ByteRoom additional q = (q.byte_limit ≡ 0) ⊎ (q.byte_usage + additional ≤ q.byte_limit)

module _ (g : TypeGraph) (test : Quota → Bool) (Room : Quota → Type 0) (resource : Resource)
    (pass : (d : DirId) (q : Quota) → Map.get d g.quotas ≡ some q → test q ≡ true → Room q)
    (full : (d : DirId) (q : Quota) → Map.get d g.quotas ≡ some q → test q ≡ false → ¬ Room q) where
  -- One step of the walk, from what the rest of it decides.
  room_Passes : (d : DirId) → has_room test (Map.get d g.quotas) ≡ true → Passes Room g d
  room_Passes d room q there = pass d q there (sym (ap (has_room test) there) ∙ room)

  onward :
      (d : DirId) (ds : List DirId) (rest : Result (Unit {0}))
      → Passes Room g d
      → Decides Room resource g ds rest
      → Decides Room resource g (d ∷ ds) rest
  onward d ds rest here (inl (good, all)) = inl (good, (here, all))
  onward d ds rest here (inr (before, x, after, q, parts, all, there, none_left, bad)) =
      inr (d ∷ before, x, after, q, ap (λ xs. d ∷ xs) parts, (here, all), there, none_left, bad)

  stopped :
      (d : DirId) (ds : List DirId)
      → has_room test (Map.get d g.quotas) ≡ false
      → Decides Room resource g (d ∷ ds) (err (quota_exceeded d resource))
  stopped d ds out = elim (Option-cases (Map.get d g.quotas)) [
    | inl none_there ↦ absurd (let e = sym (ap (has_room test) none_there) ∙ out in cc)
    | inr (q, there) ↦
        inr (
          [],
          d,
          ds,
          q,
          refl,
          tt,
          there,
          full d q there (sym (ap (has_room test) there) ∙ out),
          refl,
        )
  ]

  step_Decides :
      (d : DirId) (ds : List DirId) (rest : Result (Unit {0}))
      → Decides Room resource g ds rest
      → Decides Room resource g
          (d ∷ ds)
          (if has_room test (Map.get d g.quotas) then rest else err (quota_exceeded d resource))
  step_Decides d ds rest h =
      if_rule (Decides Room resource g (d ∷ ds)) (has_room test (Map.get d g.quotas))
        (λ room. onward d ds rest (room_Passes d room) h) (λ out. stopped d ds out)

  ended : (fuel : ℕ) → Decides Room resource g [] (check_walk fuel test resource none g)
  unfolding check_walk
  ended zero = inl (refl, tt)
  ended (suc fuel) = inl (refl, tt)

  last_Decides :
      (fuel : ℕ) (d : DirId)
      → next_dir d (parent_dir d g) ≡ none
      → Decides Room resource g (d ∷ []) (check_walk (suc fuel) test resource (some d) g)
  unfolding check_walk
  last_Decides fuel d top = step_Decides d [] _ (
      subst (λ o. Decides Room resource g [] (check_walk fuel test resource o g)) (sym top)
        (ended fuel))

  check_walk-Decides :
      (fuel : ℕ) {d : DirId} {ds : List DirId}
      → Above g d ds
      → length ds ≤ fuel
      → Decides Room resource g ds (check_walk fuel test resource (some d) g)
  unfolding check_walk
  check_walk-Decides zero (orphan h) le = absurd (omega arith)
  check_walk-Decides zero (root h) le = absurd (omega arith)
  check_walk-Decides zero (under h other c) le = absurd (omega arith)
  check_walk-Decides (suc fuel) (orphan {d = d} h) le = last_Decides fuel d (next_none d g (inl h))
  check_walk-Decides (suc fuel) (root {d = d} h) le = last_Decides fuel d (next_none d g (inr h))
  check_walk-Decides (suc fuel) (under {d = d} {p = p} {ds = ds} h other c) le =
      step_Decides d ds _ (
        subst (λ o. Decides Room resource g ds (check_walk fuel test resource o g))
          (sym (next_some d p g h other)) (check_walk-Decides fuel c (omega arith)))

inode_pass : (q : Quota) → check_inode q ≡ true → InodeRoom q
unfolding check_inode
inode_pass q good = elim (Bool-cases (q.inode_limit == 0)) [
  | inl free ↦ inl ((==_iff _ _).0 free)
  | inr limited ↦ inr (ground (arith, good, limited))
]

inode_full : (q : Quota) → check_inode q ≡ false → ¬ InodeRoom q
unfolding check_inode
inode_full q bad (inl free) = absurd (ground (arith, bad, free))
inode_full q bad (inr room) = absurd (ground (arith, bad, room))

module _ (additional : ℕ) (q : Quota) (fits : q.byte_usage + additional < 2 ^ 64) where
  bytes_sum : (q.byte_usage + additional) % 2 ^ 64 ≡ q.byte_usage + additional
  bytes_sum = omega (arith, fits)

  byte_pass : check_bytes q additional ≡ true → ByteRoom additional q
  unfolding check_bytes
  byte_pass good = elim (Bool-cases (q.byte_limit == 0)) [
    | inl free ↦ inl ((==_iff _ _).0 free)
    | inr limited ↦ inr (ground (arith, good, limited, bytes_sum))
  ]

  byte_full : check_bytes q additional ≡ false → ¬ ByteRoom additional q
  unfolding check_bytes
  byte_full bad (inl free) = absurd (ground (arith, bad, free))
  byte_full bad (inr room) = absurd (ground (arith, bad, room, bytes_sum))

-- Where `d` and the directories above it are finitely many and the fuel is at least their number, both
-- quota checks return: they succeed exactly if every quota among `d` and those above it has room, for one inode
-- more or for the bytes, and report the first that has not. A limit of 0 is none; the bytes in use
-- and the additional ones fit in a u64.
pub check_quota-Decides :
    (g : TypeGraph) (fuel : ℕ) (d : DirId) (ds : List DirId) (additional : ℕ)
    → Above g d ds
    → length ds ≤ fuel
    → ((a : DirId) (q : Quota) → Map.get a g.quotas ≡ some q → q.byte_usage + additional < 2 ^ 64)
    → Decides InodeRoom Resource.inode g ds (check_quota_inode fuel d g)
      × Decides (ByteRoom additional) Resource.bytes g ds (check_quota_bytes fuel d additional g)
unfolding check_quota_inode check_quota_bytes
check_quota-Decides g fuel d ds additional c enough fits = (
  check_walk-Decides g check_inode InodeRoom Resource.inode (λ a q there. inode_pass q)
      (λ a q there. inode_full q) fuel c enough,
  check_walk-Decides g (λ q. check_bytes q additional) (ByteRoom additional) Resource.bytes
      (λ a q there. byte_pass additional q (fits a q there))
      (λ a q there. byte_full additional q (fits a q there)) fuel c enough,
)

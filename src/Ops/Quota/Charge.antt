-- ===== src/Ops/Quota/Charge.antt =====
-- sotfs-ops/src/lib.rs: `update_quota` against the directories above one.
use sotfs.Base.{
  ℕ, zero, suc, ◌+◌, ◌<◌, ◌≤◌, ◌^◌, ◌-◌, true, false, ◌||◌, Option, none, some, List, [], ◌∷◌, ◌≡◌,
  refl, ap, ◌∙◌, arith, ltb, leb, ◌==◌, ==_iff, length, Option-cases, Bool-cases, inl, inr, ◌⊎◌,
  if◌then◌else◌,
}
use mathlib.Core.Option
use mathlib.Core.Path.{subst}
use sotfs.Map
use sotfs.Map.{Map, id_key}
use sotfs.Map.Laws.{get-adjust}
use sotfs.Map.Sets
use sotfs.Types.{DirId, Quota}
use sotfs.Error.{ok}
use sotfs.Graph.{TypeGraph, get_edge}
use sotfs.Graph.Names.{parent_dir}
use sotfs.Ops.Quota.{
  update_walk, update_quota, next_dir, charge, apply_delta, Delta, plus, minus, finish,
}
use sotfs.Ops.Quota.Walk.{Above, orphan, root, under, next_none, next_some}
use sotfs.Ops.Quota.Once.{requota, Once, Above-Once}

-- A list of directories, charged one after another.
abbrev charge_all : Delta → Delta → List DirId → Map DirId Quota → Map DirId Quota
charge_all inodes bytes [] quotas = quotas
charge_all inodes bytes (d ∷ ds) quotas =
    charge_all inodes bytes ds (Map.adjust d (charge inodes bytes) quotas)

charged_once :
    (d : DirId) (ds : List DirId) (quotas : Map DirId Quota) (a : DirId)
    → Sets.contains d ds ≡ false
    → (f : Quota → Quota)
    → (if Sets.contains a ds
        then Option.map f (Map.get a (Map.adjust d f quotas))
        else Map.get a (Map.adjust d f quotas))
      ≡ (if d == a || Sets.contains a ds then Option.map f (Map.get a quotas) else Map.get a quotas)
charged_once d ds quotas a new f = elim (Bool-cases (d == a)) [
  | inl same ↦
      let absent : Sets.contains a ds ≡ false =
        subst (λ x. Sets.contains x ds ≡ false) ((==_iff d a).0 same) new in
      rw (absent, same) (get-adjust d a f quotas ∙ rw same refl)
  | inr other ↦
      let kept : Map.get a (Map.adjust d f quotas) ≡ Map.get a quotas =
        get-adjust d a f quotas ∙ rw other refl in
      rw (kept, other) refl
]

get-charge_all :
    (inodes bytes : Delta) (ds : List DirId) (quotas : Map DirId Quota) (a : DirId)
    → Once ds
    → Map.get a (charge_all inodes bytes ds quotas) ≡ (
        if Sets.contains a ds
        then Option.map (charge inodes bytes) (Map.get a quotas)
        else Map.get a quotas)
unfolding Sets.contains
get-charge_all inodes bytes [] quotas a once = refl
get-charge_all inodes bytes (d ∷ ds) quotas a once =
    get-charge_all inodes bytes ds (Map.adjust d (charge inodes bytes) quotas) a once.1
    ∙ charged_once d ds quotas a once.0 (charge inodes bytes)

-- How a counter moves: the increase and the decrease stop at the ends of the u64.
abbrev pub Moved : Delta → ℕ → ℕ → Type 0
Moved (plus n) old new =
    ((old + n < 2 ^ 64) × (new ≡ old + n)) ⊎ ((2 ^ 64 ≤ old + n) × (new ≡ 2 ^ 64 - 1))
Moved (minus n) old new = ((n ≤ old) × (new + n ≡ old)) ⊎ ((old < n) × (new ≡ 0))

apply_delta-Moved : (delta : Delta) (old : ℕ) → Moved delta old (apply_delta delta old)
apply_delta-Moved (plus n) old = elim (Bool-cases (ltb (old + n) (2 ^ 64))) [
  | inl low ↦ inl (ground (arith, low), ground (arith, low))
  | inr high ↦ inr (ground (arith, high), ground (arith, high))
]
apply_delta-Moved (minus n) old = elim (Bool-cases (leb n old)) [
  | inl low ↦ inl (ground (arith, low), ground (arith, low))
  | inr high ↦ inr (ground (arith, high), ground (arith, high))
]

-- The quotas after a charge: each listed directory that has a quota has both counters of it moved,
-- once, with its limits as they were; no other directory has its quota changed, gets one or loses one.
pub record Charged (inodes bytes : Delta) (ds : List DirId) (old new : Map DirId Quota)
    : Type 0 where
  pub others : (a : DirId) → Sets.contains a ds ≡ false → Map.get a new ≡ Map.get a old
  pub bare : (a : DirId) → Map.get a old ≡ none → Map.get a new ≡ none
  pub listed :
      (a : DirId) (q : Quota)
      → Sets.contains a ds ≡ true
      → Map.get a old ≡ some q
      → (q' : Quota) × (Map.get a new ≡ some q')
        × Moved inodes q.inode_usage q'.inode_usage
        × Moved bytes q.byte_usage q'.byte_usage
        × (q'.inode_limit ≡ q.inode_limit)
        × (q'.byte_limit ≡ q.byte_limit)

charge_all-Charged :
    (inodes bytes : Delta) (ds : List DirId) (old : Map DirId Quota)
    → Once ds
    → Charged inodes bytes ds old (charge_all inodes bytes ds old)
charge_all-Charged inodes bytes ds old once =
    let f = charge inodes bytes in
    let at = λ (a : DirId). get-charge_all inodes bytes ds old a once in
    record {
      others = λ a out. at a ∙ rw out refl;
      bare = λ a gone. at a ∙ (elim (Bool-cases (Sets.contains a ds)) [
        | inl here ↦ rw (here, gone) refl
        | inr out ↦ rw out gone
      ]);
      listed = λ a q here there. (
        charge inodes bytes q,
        at a ∙ rw (here, there) refl,
        apply_delta-Moved inodes q.inode_usage,
        apply_delta-Moved bytes q.byte_usage,
        refl,
        refl,
      );
    }

module _ (inodes bytes : Delta) where
  ended : (fuel : ℕ) (g : TypeGraph) → update_walk fuel inodes bytes none g ≡ some g
  unfolding update_walk
  ended zero g = refl
  ended (suc fuel) g = refl

  last_walk :
      (fuel : ℕ) (g : TypeGraph) (d : DirId)
      → next_dir d (parent_dir d g) ≡ none
      → update_walk (suc fuel) inodes bytes (some d) g
        ≡ some (record g { quotas = charge_all inodes bytes (d ∷ []) g.quotas })
  unfolding update_walk parent_dir get_edge
  last_walk fuel g d top =
      let g' = record g { quotas = charge_all inodes bytes (d ∷ []) g.quotas } in
      ap (λ o. update_walk fuel inodes bytes o g') top ∙ ended fuel g'

  update_walk-run :
      (fuel : ℕ) (g : TypeGraph) {d : DirId} {ds : List DirId}
      → Above g d ds
      → length ds ≤ fuel
      → update_walk fuel inodes bytes (some d) g
        ≡ some (record g { quotas = charge_all inodes bytes ds g.quotas })
  unfolding update_walk parent_dir get_edge
  update_walk-run zero g (orphan h) le = absurd (omega arith)
  update_walk-run zero g (root h) le = absurd (omega arith)
  update_walk-run zero g (under h other c) le = absurd (omega arith)
  update_walk-run (suc fuel) g (orphan {d = d} h) le = last_walk fuel g d (next_none d g (inl h))
  update_walk-run (suc fuel) g (root {d = d} h) le = last_walk fuel g d (next_none d g (inr h))
  update_walk-run (suc fuel) g (under {d = d} {p = p} {ds = ds} h other c) le =
      let q : Map DirId Quota = Map.adjust d (charge inodes bytes) g.quotas in
      let g' = record g { quotas = q } in
      ap (λ o. update_walk fuel inodes bytes o g') (next_some d p g h other)
      ∙ update_walk-run fuel g' (requota q c) (omega arith)

-- Where `d` and the directories above it are finitely many and the fuel is at least their number,
-- `update_quota` returns, and moves the counters of the quotas of these directories once, each by its
-- own signed change, with saturation; nothing else of the graph changes.
pub update_quota-Charged :
    (inodes bytes : Delta) (g : TypeGraph) (fuel : ℕ) (d : DirId) (ds : List DirId)
    → Above g d ds
    → length ds ≤ fuel
    → (quotas : Map DirId Quota) × (update_quota fuel d inodes bytes g
        ≡ (ok tt, record g { quotas = quotas }))
      × Charged inodes bytes ds g.quotas quotas
unfolding update_quota
update_quota-Charged inodes bytes g fuel d ds c enough = (
  charge_all inodes bytes ds g.quotas,
  ap (λ o. finish o g) (update_walk-run inodes bytes fuel g c enough),
  charge_all-Charged inodes bytes ds g.quotas (Above-Once c),
)

update_walk_keeps :
    (inodes bytes : Delta) (fuel : ℕ) (o : Option DirId) (g g' : TypeGraph)
    → update_walk fuel inodes bytes o g ≡ some g'
    → g' ≡ record g { quotas = g'.quotas }
unfolding update_walk
update_walk_keeps inodes bytes fuel none g g' h = ground arith
update_walk_keeps inodes bytes zero (some d) g g' h = absurd (cc)
update_walk_keeps inodes bytes (suc fuel) (some d) g g' h =
    update_walk_keeps inodes bytes fuel _ _ g' h

-- Whatever the fuel, `update_quota` changes nothing but the quotas.
pub update_quota_keeps :
    (inodes bytes : Delta) (fuel : ℕ) (d : DirId) (g : TypeGraph)
    → (update_quota fuel d inodes bytes g).1
      ≡ record g { quotas = (update_quota fuel d inodes bytes g).1.quotas }
unfolding update_quota
update_quota_keeps inodes bytes fuel d g =
    elim (Option-cases (update_walk fuel inodes bytes (some d) g)) [
      | inl out ↦ rw out refl
      | inr (g', there) ↦ rw there (update_walk_keeps inodes bytes fuel (some d) g g' there)
    ]

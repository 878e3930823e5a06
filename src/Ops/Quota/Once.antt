-- ===== src/Ops/Quota/Once.antt =====
-- sotfs-ops/src/lib.rs: the list of the directories above one, which the walks of the quotas visit.
use sotfs.Base.{
  ◌≤◌, true, false, List, [], ◌∷◌, ◌≡◌, refl, sym, ◌∙◌, arith, ◌==◌, ==_iff, length, Bool-cases,
  inl, inr,
}
use mathlib.Core.Path.{subst}
use sotfs.Map.{Map, id_key}
use sotfs.Map.Sets
use sotfs.Types.{DirId, Quota}
use sotfs.Graph.{TypeGraph, get_edge}
use sotfs.Graph.Names.{parent_dir}
use sotfs.Ops.Quota.Walk.{Above, orphan, root, under}

-- The directories above one do not depend on the quotas.
pub requota :
    {g : TypeGraph} (q : Map DirId Quota) {d : DirId} {ds : List DirId}
    → Above g d ds
    → Above (record g { quotas = q }) d ds
unfolding parent_dir get_edge
requota q (orphan h) = orphan h
requota q (root h) = root h
requota q (under h other c) = under h other (requota q c)

-- One directory has one list above it.
same_length :
    {g : TypeGraph} {d : DirId} {ds es : List DirId}
    → Above g d ds
    → Above g d es
    → length ds ≡ length es
same_length (orphan h) (orphan k) = refl
same_length (orphan h) (root k) = refl
same_length (orphan h) (under k other c) = absurd (let e = sym h ∙ k in cc)
same_length (root h) (orphan k) = refl
same_length (root h) (root k) = refl
same_length (root h) (under k other c) = absurd (let e = sym h ∙ k in ground (arith, e, other))
same_length (under h other c) (orphan k) = absurd (let e = sym h ∙ k in cc)
same_length (under h other c) (root k) = absurd (let e = sym h ∙ k in ground (arith, e, other))
same_length {g} (under {ds = ds} h other c) (under {ds = es} k other' c') =
    let e = sym h ∙ k in
    omega (arith, same_length (subst (λ p. Above g p ds) (ground (arith, e)) c) c')

-- What stands in the list has its own list, which is no longer.
suffix :
    {g : TypeGraph} {d : DirId} {ds : List DirId} (a : DirId)
    → Above g d ds
    → Sets.contains a ds ≡ true
    → (es : List DirId) × Above g a es × (length es ≤ length ds)
unfolding Sets.contains
suffix {g} {d} a (orphan h) member =
    (d ∷ [], subst (λ x. Above g x (d ∷ [])) (ground (arith, member)) (orphan h), omega arith)
suffix {g} {d} a (root h) member =
    (d ∷ [], subst (λ x. Above g x (d ∷ [])) (ground (arith, member)) (root h), omega arith)
suffix {g} {d} a (under {ds = ds} h other c) member = elim (Bool-cases (d == a)) [
  | inl here ↦
      (d ∷ ds, subst (λ x. Above g x (d ∷ ds)) ((==_iff d a).0 here) (under h other c), omega arith)
  | inr later ↦
      let (es, c', shorter) = suffix a c (ground (arith, later, member)) in
      (es, c', omega (arith, shorter))
]

-- No directory stands twice in the list.
abbrev pub Once : List DirId → Type 0
Once [] = Unit
Once (d ∷ ds) = (Sets.contains d ds ≡ false) × Once ds

pub Above-Once : {g : TypeGraph} {d : DirId} {ds : List DirId} → Above g d ds → Once ds
unfolding Sets.contains
Above-Once (orphan h) = (refl, tt)
Above-Once (root h) = (refl, tt)
Above-Once {g} (under {d = d} {ds = ds} h other c) = (
  (elim (Bool-cases (Sets.contains d ds)) [
    | inr new ↦ new
    | inl again ↦
        let (es, c', shorter) = suffix d c again in
        let whole : Above g d (d ∷ ds) = under h other c in
        absurd (omega (arith, same_length whole c', shorter))
  ]),
  Above-Once c,
)

-- ===== src/Graph/Check/Cycles/Loops.antt =====
-- graph.rs: what the loop over the edges of a directory has found when it returns.
use sotfs.Base.{
  Bool, true, false, Option, none, some, List, [], ◌∷◌, ◌≡◌, refl, sym, ap, ◌∙◌, arith, ◌==◌,
  ==_iff, Bool-cases, inl, inr, ◌⊎◌,
}
use sotfs.Map.{id_key}
use sotfs.Map.Sets
use sotfs.Map.Sets.{IdSet, contains-add}
use sotfs.Types.{DirId, EdgeId}
use sotfs.Graph.{TypeGraph, get_edge}
use sotfs.Graph.Check.Cycles.{child_dir, cycle_below, cycle_at, unless_found}

unless_found_none :
    (found rest : Option Bool)
    → unless_found found rest ≡ some false
    → (found ≡ some false) × (rest ≡ some false)
unless_found_none none rest h = absurd (cc)
unless_found_none (some true) rest h = absurd (cc)
unless_found_none (some false) rest h = (refl, h)

unless_found-some :
    (found rest : Option Bool)
    → unless_found found rest ≡ some true
    → (found ≡ some true) ⊎ (rest ≡ some true)
unless_found-some none rest h = absurd (cc)
unless_found-some (some true) rest h = inl refl
unless_found-some (some false) rest h = inr h

cycle_at_none :
    (o : Option DirId) (walk : DirId → Option Bool) (rest : Option Bool)
    → cycle_at o walk rest ≡ some false
    → ((c : DirId) → o ≡ some c → walk c ≡ some false) × (rest ≡ some false)
cycle_at_none none walk rest h = (λ c leads. absurd (cc), h)
cycle_at_none (some d) walk rest h =
    let (clear, later) = unless_found_none (walk d) rest h in
    (λ c leads. let same : d ≡ c = cc in ap walk (sym same) ∙ clear, later)

cycle_at-some :
    (o : Option DirId) (walk : DirId → Option Bool) (rest : Option Bool)
    → cycle_at o walk rest ≡ some true
    → ((c : DirId) × (o ≡ some c) × (walk c ≡ some true)) ⊎ (rest ≡ some true)
cycle_at-some none walk rest h = inr h
cycle_at-some (some d) walk rest h = elim (unless_found-some (walk d) rest h) [
  | inl hit ↦ inl (d, refl, hit)
  | inr later ↦ inr later
]

-- A loop that finds nothing has found nothing below any entry.
pub cycle_below_none :
    (walk : DirId → Option Bool) (g : TypeGraph) (eids : List EdgeId) (e : EdgeId) (c : DirId)
    → cycle_below walk g eids ≡ some false
    → Sets.contains e eids ≡ true
    → child_dir g (get_edge e g) ≡ some c
    → walk c ≡ some false
unfolding cycle_below Sets.contains
cycle_below_none walk g [] e c clear member leads = absurd (cc)
cycle_below_none walk g (eid ∷ eids) e c clear member leads =
    let (here, rest) = cycle_at_none (child_dir g (get_edge eid g)) walk _ clear in
    elim (Bool-cases (eid == e)) [
      | inl same ↦ here c (ap (λ x. child_dir g (get_edge x g)) ((==_iff eid e).0 same) ∙ leads)
      | inr other ↦ cycle_below_none walk g eids e c rest (ground (arith, other)) leads
    ]

-- A loop that finds a cycle has found it below some entry.
pub cycle_below-some :
    (walk : DirId → Option Bool) (g : TypeGraph) (eids : List EdgeId)
    → cycle_below walk g eids ≡ some true
    → (e : EdgeId) × (c : DirId) × (Sets.contains e eids ≡ true)
      × (child_dir g (get_edge e g) ≡ some c)
      × (walk c ≡ some true)
unfolding cycle_below Sets.contains
cycle_below-some walk g [] found = absurd (cc)
cycle_below-some walk g (eid ∷ eids) found =
    elim (cycle_at-some (child_dir g (get_edge eid g)) walk _ found) [
      | inl (c, leads, hit) ↦ (eid, c, ground arith, leads, hit)
      | inr later ↦
          let (e, c, member, leads, hit) = cycle_below-some walk g eids later in
          (e, c, ground (arith, member), leads, hit)
    ]

-- ===== src/Graph/Check/Cycles/Search.antt =====
-- graph.rs: `is_ancestor` against the order of the directory tree. The search shares its
-- set of visited directories among the branches.
use sotfs.Base.{
  ℕ, zero, suc, ◌<◌, Bool, true, false, Option, none, some, List, [], ◌∷◌, ◌≡◌, refl, sym, ap, ◌∙◌,
  arith, ◌==◌, ==_iff, length, Bool-cases, Option-cases, inl, inr, ◌⊎◌, ◌↔◌,
}
use mathlib.Core.Option
use mathlib.Core.Path.{subst}
use sotfs.Map
use sotfs.Map.{id_key, or_default}
use sotfs.Map.Sets
use sotfs.Map.Sets.{IdSet, contains-add}
use sotfs.Types.{DirId, EdgeId}
use sotfs.Graph.{TypeGraph, get_edge}
use sotfs.Graph.Check.Cycles.{child_dir, resume, follow, descend, is_descendant_of, is_ancestor}
use sotfs.Graph.Check.Cycles.Fuel.{
  unvisited, unvisited_mono, unvisited-add, unvisited-le-length, add_grows,
}
use sotfs.Graph.Check.Cycles.Below.{Child, Below, child, deeper, entries_of}

module _ (g : TypeGraph) (target : DirId) where
  abbrev Grows : IdSet → IdSet → Type 0
  Grows visited seen = (d : DirId) → Sets.contains d visited ≡ true → Sets.contains d seen ≡ true

  -- A visited directory whose children are all visited, none of them the target.
  abbrev IsDone : IdSet → DirId → Type 0
  IsDone seen d =
      (c : DirId) → Child g d c → (Sets.contains c seen ≡ true) × ((c == target) ≡ false)

  -- The directories that the search has added are done.
  abbrev NewDone : IdSet → IdSet → Type 0
  NewDone visited seen =
      (d : DirId) → Sets.contains d seen ≡ true → Sets.contains d visited ≡ false → IsDone seen d

  -- What a search below `start` says: the target is below, or all that it has met is done.
  pub data Outcome (start : DirId) (visited : IdSet) : Option (Bool × IdSet) → Type 0 where
    hit : (seen : IdSet) → Below g start target → Outcome start visited (some (true, seen))
    miss :
        (seen : IdSet)
        → Grows visited seen
        → Sets.contains start seen ≡ true
        → NewDone visited seen
        → Outcome start visited (some (false, seen))

  -- Each of some entries leads to a directory that has been met, and not to the target.
  abbrev MetAll : IdSet → List EdgeId → Type 0
  MetAll seen eids =
      (e : EdgeId) (c : DirId)
      → Sets.contains e eids ≡ true
      → child_dir g (get_edge e g) ≡ some c
      → (Sets.contains c seen ≡ true) × ((c == target) ≡ false)

  -- The same for the loop over some entries of `start`.
  data Swept (start : DirId) (eids : List EdgeId) (visited : IdSet)
      : Option (Bool × IdSet) → Type 0 where
    found : (seen : IdSet) → Below g start target → Swept start eids visited (some (true, seen))
    swept :
        (seen : IdSet)
        → Grows visited seen
        → NewDone visited seen
        → MetAll seen eids
        → Swept start eids visited (some (false, seen))

  NewDone-trans :
      (visited middle seen : IdSet)
      → Grows middle seen
      → NewDone visited middle
      → NewDone middle seen
      → NewDone visited seen
  NewDone-trans visited middle seen grows first second d here new =
      elim (Bool-cases (Sets.contains d middle)) [
        | inl early ↦ λ c s. let (met, other) = first d early new c s in (grows c met, other)
        | inr late ↦ second d here late
      ]

  MetAll-cons :
      (seen : IdSet) (eid : EdgeId) (eids : List EdgeId)
      → ((c : DirId)
          → child_dir g (get_edge eid g) ≡ some c
          → (Sets.contains c seen ≡ true) × ((c == target) ≡ false))
      → MetAll seen eids
      → MetAll seen (eid ∷ eids)
  unfolding Sets.contains
  MetAll-cons seen eid eids first rest e c member leads = elim (Bool-cases (eid == e)) [
    | inl same ↦ first c (ap (λ x. child_dir g (get_edge x g)) ((==_iff eid e).0 same) ∙ leads)
    | inr other ↦ rest e c (ground (arith, other)) leads
  ]

  -- One more entry, which leads nowhere.
  Swept-past :
      (start : DirId) (eid : EdgeId) (eids : List EdgeId) (visited : IdSet)
      (r : Option (Bool × IdSet))
      → child_dir g (get_edge eid g) ≡ none
      → Swept start eids visited r
      → Swept start (eid ∷ eids) visited r
  Swept-past start eid eids visited r nowhere (found seen p) = found seen p
  Swept-past start eid eids visited r nowhere (swept seen grows new all) =
      swept seen grows new (MetAll-cons seen eid eids (λ c leads. absurd (cc)) all)

  -- One more entry, whose directory has been searched before the others.
  Swept-after :
      (start : DirId) (eid : EdgeId) (eids : List EdgeId) (visited middle : IdSet) (c : DirId)
      (r : Option (Bool × IdSet))
      → child_dir g (get_edge eid g) ≡ some c
      → (c == target) ≡ false
      → Grows visited middle
      → Sets.contains c middle ≡ true
      → NewDone visited middle
      → Swept start eids middle r
      → Swept start (eid ∷ eids) visited r
  Swept-after start eid eids visited middle c r leads other grows here new (found seen p) =
      found seen p
  Swept-after start eid eids visited middle c r leads other grows here new
        (swept seen more later all) =
      swept seen (λ d m. more d (grows d m)) (NewDone-trans visited middle seen more new later)
        (MetAll-cons seen eid eids
          (λ d to_d.
            let same : c ≡ d = cc in
            (
              subst (λ x. Sets.contains x seen ≡ true) same (more c here),
              subst (λ x. (x == target) ≡ false) same other,
            ))
          all)

  module _ (start : DirId) (walk : DirId → IdSet → Option (Bool × IdSet)) where
    resumed :
        (eid : EdgeId) (eids : List EdgeId) (visited : IdSet) (c : DirId)
        (r : Option (Bool × IdSet)) (rest : IdSet → Option (Bool × IdSet))
        → Child g start c
        → child_dir g (get_edge eid g) ≡ some c
        → (c == target) ≡ false
        → Outcome c visited r
        → ((seen : IdSet) → Grows visited seen → Swept start eids seen (rest seen))
        → Swept start (eid ∷ eids) visited (resume r rest)
    resumed eid eids visited c r rest s leads other (hit seen p) later = found seen (deeper s p)
    resumed eid eids visited c r rest s leads other (miss seen grows here new) later =
        Swept-after start eid eids visited seen c (rest seen) leads other grows here new
          (later seen grows)

    followed :
        (o : Option DirId) (eid : EdgeId) (eids : List EdgeId) (visited : IdSet)
        (rest : IdSet → Option (Bool × IdSet))
        → child_dir g (get_edge eid g) ≡ o
        → Sets.contains eid (entries_of start g) ≡ true
        → ((c : DirId) (seen : IdSet) → Grows visited seen → Outcome c seen (walk c seen))
        → ((seen : IdSet) → Grows visited seen → Swept start eids seen (rest seen))
        → Swept start (eid ∷ eids) visited (follow o walk target visited rest)
    followed none eid eids visited rest nowhere own search later =
        Swept-past start eid eids visited (rest visited) nowhere (later visited (λ d m. m))
    followed (some c) eid eids visited rest leads own search later =
        elim (Bool-cases (c == target)) [
          | inl same ↦
              let s : Child g start c = (eid, own, leads) in
              let p = child (subst (Child g start) ((==_iff c target).0 same) s) in
              rw same (found visited p)
          | inr other ↦ rw other (
              resumed eid eids visited c (walk c visited) rest (eid, own, leads) leads other
                (search c visited (λ d m. m)) later)
        ]

    descend-Swept :
        (eids : List EdgeId) (visited : IdSet)
        → ((e : EdgeId) → Sets.contains e eids ≡ true → Sets.contains e (entries_of start g) ≡ true)
        → ((c : DirId) (seen : IdSet) → Grows visited seen → Outcome c seen (walk c seen))
        → Swept start eids visited (descend walk g target visited eids)
    unfolding descend Sets.contains
    descend-Swept [] visited own search =
        swept visited (λ d m. m) (λ d here new c s. absurd (cc)) (λ e c member leads. absurd (cc))
    descend-Swept (eid ∷ eids) visited own search =
        followed (child_dir g (get_edge eid g)) eid eids visited
          (λ seen. descend walk g target seen eids) refl (own eid (ground arith)) search
          (λ seen grows.
            descend-Swept eids seen (λ e m. own e (ground (arith, m)))
              (λ c later more. search c later (λ d m. more d (grows d m))))

  -- After all entries of `start`, it is done too.
  Outcome-Swept :
      (start : DirId) (visited : IdSet) (r : Option (Bool × IdSet))
      → Sets.contains start visited ≡ false
      → Swept start (entries_of start g) (Sets.add start visited) r
      → Outcome start visited r
  Outcome-Swept start visited r new (found seen p) = hit seen p
  Outcome-Swept start visited r new (swept seen grows later all) =
      miss seen (λ d m. grows d (add_grows start visited d m))
        (grows start (ground (arith, contains-add start start visited)))
        (λ d here old. elim (Bool-cases (start == d)) [
          | inl same ↦ λ c (e, member, leads).
              all e c
                (subst (λ x. Sets.contains e (entries_of x g) ≡ true)
                  (sym ((==_iff start d).0 same)) member)
                leads
          | inr other ↦ later d here (ground (arith, old, contains-add start d visited))
        ])

  -- With fuel for more calls than there are directories left to visit, the search returns.
  is_descendant_of-Outcome :
      (fuel : ℕ) (start : DirId) (visited : IdSet)
      → unvisited visited g.dir_contains < fuel
      → Outcome start visited (is_descendant_of fuel g start target visited)
  unfolding is_descendant_of
  is_descendant_of-Outcome zero start visited enough = absurd (omega arith)
  is_descendant_of-Outcome (suc fuel) start visited enough =
      elim (Bool-cases (Sets.contains start visited)) [
        | inl seen ↦ rw seen (miss visited (λ d m. m) seen (λ d here new. absurd (cc)))
        | inr new ↦ rw new (
            Outcome-Swept start visited _ new (elim (Option-cases (Map.get start g.dir_contains)) [
              | inl leaf ↦ rw leaf (
                  swept (Sets.add start visited) (λ d m. m) (λ d here old c s. absurd (cc))
                    (λ e c member leads. absurd (unfold Sets.contains in cc)))
              | inr (eids, there) ↦
                  let less = unvisited-add start visited g.dir_contains {eids = eids} new there in
                  descend-Swept start _ (entries_of start g) (Sets.add start visited) (λ e m. m)
                    (λ c seen grows. is_descendant_of-Outcome fuel c seen (
                      omega
                        (arith, unvisited_mono (Sets.add start visited) seen g.dir_contains grows)))
            ]))
      ]

  -- Whatever is below a directory that is done, in a set of done directories, is in the set.
  Below-done :
      (seen : IdSet)
      → ((d : DirId) → Sets.contains d seen ≡ true → IsDone seen d)
      → (d c : DirId) → Below g d c
      → Sets.contains d seen ≡ true
      → (c == target) ≡ false
  Below-done seen all d c (child s) here = (all d here c s).1
  Below-done seen all d c (deeper {c = x} s p) here = Below-done seen all x c p (all d here x s).0

  answer :
      (start : DirId) (r : Option (Bool × IdSet))
      → Outcome start [] r
      → (b : Bool) × (Option.map (λ (x : Bool × IdSet). x.0) r ≡ some b)
        × ((b ≡ true) ↔ Below g start target)
  answer start r (hit seen p) = (true, refl, (λ same. p, λ q. refl))
  answer start r (miss seen grows here new) = (
    false,
    refl,
    (
      λ same. absurd (cc),
      λ p.
          let all = λ (d : DirId) (m : Sets.contains d seen ≡ true).
            new d m (unfold Sets.contains in refl) in
          absurd (ground (arith, Below-done seen all start target p here)),
    ),
  )

-- The search that guards RENAME returns, and says true exactly if the one directory is the other or
-- above it, with fuel for more calls than `dir_contains` has entries.
pub is_ancestor_iff :
    (fuel : ℕ) (g : TypeGraph) (above below : DirId)
    → length g.dir_contains < fuel
    → (b : Bool) × (is_ancestor fuel g above below ≡ some b)
      × ((b ≡ true) ↔ ((below ≡ above) ⊎ Below g above below))
unfolding is_ancestor
is_ancestor_iff fuel g above below enough = elim (Bool-cases (above == below)) [
  | inl same ↦ (true, rw same refl, (λ h. inl (sym ((==_iff above below).0 same)), λ p. refl))
  | inr other ↦
      let (b, search, meaning) = answer g below above _ (
        is_descendant_of-Outcome g below fuel above []
          (omega (arith, unvisited-le-length [] g.dir_contains))) in
      (
        b,
        rw other search,
        (
          λ h. inr (meaning.0 h),
          λ p. elim p [ inl same ↦ absurd (ground (arith, other)) | inr q ↦ meaning.1 q ],
        ),
      )
]

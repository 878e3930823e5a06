-- ===== src/Graph/Check/Cycles/Fuel.antt =====
-- graph.rs: how much fuel the walks down the directories need. A walk goes on only from a directory
-- with an entry in `dir_contains` that it has not visited.
use sotfs.Base.{
  ℕ, zero, suc, ◌<◌, ◌≤◌, Bool, true, false, Option, none, some, List, [], ◌∷◌, ◌≡◌, refl, arith,
  ◌==◌, length, if◌then◌else◌, Bool-cases, Option-cases, inl, inr,
}
use sotfs.Map
use sotfs.Map.{Map, id_key, or_default}
use sotfs.Map.Sets
use sotfs.Map.Sets.{IdSet, contains-add}
use sotfs.Types.{DirId, EdgeId}
use sotfs.Graph.{TypeGraph, get_edge}
use sotfs.Graph.Check.Cycles.{child_dir, cycle_below, cycle_at, unless_found, has_cycle_from}

-- The directories with entries that a walk has not visited.
abbrev pub unvisited : IdSet → Map DirId IdSet → ℕ
unvisited visited [] = 0
unvisited visited ((d, eids) ∷ m) =
    let rest = unvisited visited m in if Sets.contains d visited then rest else suc rest

pub unvisited-le-length : (visited : IdSet) (m : Map DirId IdSet) → unvisited visited m ≤ length m
unvisited-le-length visited [] = omega arith
unvisited-le-length visited ((d, eids) ∷ m) = ground (arith, unvisited-le-length visited m)

-- The more is visited, the less is left.
pub unvisited_mono :
    (visited seen : IdSet) (m : Map DirId IdSet)
    → ((d : DirId) → Sets.contains d visited ≡ true → Sets.contains d seen ≡ true)
    → unvisited seen m ≤ unvisited visited m
unvisited_mono visited seen [] grows = omega arith
unvisited_mono visited seen ((d, eids) ∷ m) grows =
    ground (arith, grows d, unvisited_mono visited seen m grows)

pub add_grows :
    (k : DirId) (visited : IdSet) (d : DirId)
    → Sets.contains d visited ≡ true
    → Sets.contains d (Sets.add k visited) ≡ true
add_grows k visited d seen = ground (arith, contains-add k d visited)

-- A visit of a directory with entries takes one off.
pub unvisited-add :
    (start : DirId) (visited : IdSet) (m : Map DirId IdSet) {eids : IdSet}
    → Sets.contains start visited ≡ false
    → Map.get start m ≡ some eids
    → unvisited (Sets.add start visited) m < unvisited visited m
unfolding Map.get
unvisited-add start visited [] new there = absurd (cc)
unvisited-add start visited ((d, es) ∷ m) {eids} new there = elim (Bool-cases (d == start)) [
  | inl here ↦ ground (
    arith,
    contains-add start d visited,
    unvisited_mono visited (Sets.add start visited) m (add_grows start visited),
  )
  | inr later ↦
      ground (arith, contains-add start d visited, unvisited-add start visited m {eids = eids} new)
]

unless_found_total :
    (found rest : Option Bool)
    → (b : Bool) × (found ≡ some b)
    → (b : Bool) × (rest ≡ some b)
    → (b : Bool) × (unless_found found rest ≡ some b)
unless_found_total (some true) rest found more = (true, refl)
unless_found_total (some false) rest found more = more
unless_found_total none rest (b, stuck) more = absurd (cc)

cycle_at_total :
    (child : Option DirId) (walk : DirId → Option Bool) (rest : Option Bool)
    → ((d : DirId) → (b : Bool) × (walk d ≡ some b))
    → (b : Bool) × (rest ≡ some b)
    → (b : Bool) × (cycle_at child walk rest ≡ some b)
cycle_at_total none walk rest total more = more
cycle_at_total (some d) walk rest total more = unless_found_total (walk d) rest (total d) more

-- The loop over the edges returns if the call that goes down does.
cycle_below_total :
    (walk : DirId → Option Bool) (g : TypeGraph) (eids : List EdgeId)
    → ((d : DirId) → (b : Bool) × (walk d ≡ some b))
    → (b : Bool) × (cycle_below walk g eids ≡ some b)
unfolding cycle_below
cycle_below_total walk g [] total = (false, refl)
cycle_below_total walk g (eid ∷ eids) total =
    cycle_at_total (child_dir g (get_edge eid g)) walk _ total (cycle_below_total walk g eids total)

-- The search for a cycle returns, if its fuel is more than the directories with entries that it has
-- not visited.
pub has_cycle_from_total :
    (fuel : ℕ) (g : TypeGraph) (visited : IdSet) (start : DirId)
    → unvisited visited g.dir_contains < fuel
    → (b : Bool) × (has_cycle_from fuel g visited start ≡ some b)
unfolding has_cycle_from cycle_below
has_cycle_from_total zero g visited start enough = absurd (omega arith)
has_cycle_from_total (suc fuel) g visited start enough =
    elim (Bool-cases (Sets.contains start visited)) [
      | inl cycle ↦ (true, rw cycle)
      | inr new ↦ elim (Option-cases (Map.get start g.dir_contains)) [
        | inl leaf ↦ (false, rw new (rw leaf refl))
        | inr (eids, there) ↦
            let smaller = unvisited-add start visited g.dir_contains {eids = eids} new there in
            rw new (
              cycle_below_total (has_cycle_from fuel g (Sets.add start visited)) g _
                (λ d. has_cycle_from_total fuel g (Sets.add start visited) d (omega arith)))
      ]
    ]

-- ===== src/Ops/Fsck/Agrees.antt =====
-- sotfs-ops/src/lib.rs: what a report of `fsck` without errors says, in terms of the checks of the
-- graph itself.
use sotfs.Base.{
  ℕ, zero, suc, ◌+◌, ◌<◌, ◌≤◌, ◌%◌, ◌^◌, String, Bool, true, false, not, Option, none, some, List,
  [], ◌∷◌, ◌++◌, ◌≡◌, refl, sym, ap, ◌∙◌, arith, ◌==◌, ==_iff, map, Bool-cases, Option-cases, inl,
  inr,
}
use mathlib.Core.Path.{subst}
use sotfs.Map.{id_key}
use sotfs.Arena
use sotfs.Arena.{Arena, ArenaId}
use sotfs.Types.{InodeId, DirId, EdgeId, Inode, Edge}
use sotfs.Error.{Result, ok, each, fail_if, invariant_violation, Violation, ◌>>◌}
use sotfs.Graph.{TypeGraph, node_capacity, edge_capacity, get_edge, contains_dir, contains_inode}
use sotfs.Graph.Check.{
  name_of, has_text, unique_in, check_unique_names, incoming_count, check_link_count,
  check_link_count_consistency,
}
use sotfs.Graph.Check.Slots.{each-iter_from}
use sotfs.Ops.Fsck.{
  FsckError, FsckReport, gather, report_if, at_key, each_key, edge_errors, link_errors, name_errors,
  incoming_links, finish_report, report_with, duplicate_name, fsck, no_dir, no_inode,
}

append_nil : {B : Type 0} (xs ys : List B) → xs ++ ys ≡ [] → (xs ≡ []) × (ys ≡ [])
append_nil [] ys h = (refl, h)
append_nil (x ∷ xs) ys h = absurd (cc)

report_nil : {B : Type 0} (b : Bool) (error : B) → report_if b error ≡ [] → b ≡ false
report_nil true error h = absurd (cc)
report_nil false error h = refl

-- A loop that reports nothing, beside a loop of checks.
gather-each :
    {A B : Type 0} (f : A → List B) (check : A → Result (Unit {0})) (xs : List A)
    → ((x : A) → f x ≡ [] → check x ≡ ok tt)
    → gather f xs ≡ []
    → each check xs ≡ ok tt
unfolding gather each
gather-each f check [] passes h = refl
gather-each f check (x ∷ xs) passes h =
    let (here, later) = append_nil (f x) (gather f xs) h in
    rw (passes x here) (gather-each f check xs passes later)

one_name :
    (o : Option String) (d : DirId) (names : List String) (errors : String → List FsckError)
    (errors' : List FsckError) (check : String → Result (Unit {0})) (check' : Result (Unit {0}))
    → ((name : String) → errors name ≡ [] → check name ≡ ok tt)
    → (errors' ≡ [] → check' ≡ ok tt)
    → (elim o [
      | some name ↦ report_if (has_text name names) (duplicate_name d name) ++ errors name
      | none ↦ errors'
    ])
      ≡ []
    → (elim o [
      | some name ↦
          fail_if (has_text name names) (invariant_violation (Violation.duplicate_name d name))
          >> check name
      | none ↦ check'
    ])
      ≡ ok tt
one_name none d names errors errors' check check' some_case none_case h = none_case h
one_name (some name) d names errors errors' check check' some_case none_case h =
    let (new, later) = append_nil _ (errors name) h in
    rw (report_nil _ _ new) (some_case name later)

name_errors-unique_in :
    (g : TypeGraph) (d : DirId) (names : List String) (eids : List EdgeId)
    → name_errors g d names eids ≡ []
    → unique_in g d names eids ≡ ok tt
unfolding name_errors unique_in
name_errors-unique_in g d names [] h = refl
name_errors-unique_in g d names (eid ∷ eids) h =
    one_name (name_of (get_edge eid g)) d names (λ name. name_errors g d (name ∷ names) eids)
      (name_errors g d names eids) (λ name. unique_in g d (name ∷ names) eids)
      (unique_in g d names eids) (λ name. name_errors-unique_in g d (name ∷ names) eids)
      (name_errors-unique_in g d names eids) h

module _ {T B : Type 0} {capacity : ℕ} (f : T → List B) (pool : Arena T capacity) where
  at_slot :
      (pos : ℕ) (x : T)
      → pos < 2 ^ 32
      → pos < capacity
      → pool.slots pos ≡ some x
      → Arena.get (record { index = pos % 2 ^ 32 }) pool ≡ some x
  unfolding Arena.get
  at_slot pos x low fits at =
      let same : pos % 2 ^ 32 ≡ pos = omega (arith, low) in rw same (ground (arith, at, fits))

  key_quiet :
      (o : Option T) (x : T) → o ≡ some x → (elim o [ none ↦ [] | some y ↦ f y ]) ≡ [] → f x ≡ []
  key_quiet none x e h = absurd (cc)
  key_quiet (some y) x e h = let same : y ≡ x = cc in ap f (sym same) ∙ h

  -- What the loop over the keys reports from a slot on that holds `o`.
  abbrev from_slot : ℕ → ℕ → Option T → List B
  from_slot n pos o = gather (at_key f pool) (
      map (λ e. e.0)
        (elim o [
          | none ↦ Arena.iter_from n (pos + 1) pool
          | some y ↦ (record { index = pos % 2 ^ 32 }, y) ∷ Arena.iter_from n (pos + 1) pool
        ]))

  -- A loop over the keys that reports nothing reports nothing at each slot.
  quiet_from :
      (n pos : ℕ)
      → pos + n ≤ 2 ^ 32
      → pos + n ≤ capacity
      → gather (at_key f pool) (map (λ e. e.0) (Arena.iter_from n pos pool)) ≡ []
      → (j : ℕ) (x : T) → pos ≤ j
      → j < pos + n
      → pool.slots j ≡ some x
      → f x ≡ []
  unfolding gather Arena.iter_from
  quiet_from zero pos low fits h j x le lt at = absurd (omega arith)
  quiet_from (suc n) pos low fits h j x le lt at =
      let later =
        λ (h' : gather (at_key f pool) (map (λ e. e.0) (Arena.iter_from n (pos + 1) pool)) ≡ [])
            (other : (pos == j) ≡ false).
          quiet_from n (pos + 1) (omega arith) (omega arith) h' j x (ground (arith, other))
            (omega arith) at in
      elim (Option-cases (pool.slots pos)) [
        | inl empty ↦ elim (Bool-cases (pos == j)) [
          | inl same ↦ absurd (let e = ap pool.slots ((==_iff pos j).0 same) in cc)
          | inr other ↦ later (subst (λ o. from_slot n pos o ≡ []) empty h) other
        ]
        | inr (y, here) ↦
            let (first, rest) = append_nil _ _ (subst (λ o. from_slot n pos o ≡ []) here h) in
            elim (Bool-cases (pos == j)) [
              | inl same ↦
                  let here' = ap pool.slots ((==_iff pos j).0 same) ∙ at in
                  key_quiet _ x (at_slot pos x (omega arith) (omega arith) here') first
              | inr other ↦ later rest other
            ]
      ]

module _ (g : TypeGraph) where
  -- The cast of the check to u32 changes nothing.
  counts_agree : (j : ℕ) → incoming_links j g < 2 ^ 32 → incoming_count j g ≡ incoming_links j g
  unfolding incoming_count incoming_links
  counts_agree j fits = ground arith

  link_passes :
      (j : ℕ) (inode : Inode)
      → inode.id ≡ j
      → incoming_links j g < 2 ^ 32
      → link_errors g inode ≡ []
      → check_link_count g (record { index = j }, inode) ≡ ok tt
  unfolding check_link_count link_errors
  link_passes j inode id fits h =
      let equal = report_nil (not (inode.link_count == incoming_links inode.id g)) _ h in
      let same : incoming_links inode.id g ≡ incoming_links j g = ap (λ i. incoming_links i g) id in
      let links : inode.link_count ≡ incoming_count j g =
        ground (arith, equal, same, counts_agree j fits) in
      rw (sym links) (ground arith)

  edge_ends :
      (e : EdgeId) (d : DirId) (t : InodeId) (n : String)
      → edge_errors g (Edge.contains e d t n) ≡ []
      → (contains_dir d g ≡ true) × (contains_inode t g ≡ true)
  unfolding edge_errors
  edge_ends e d t n h =
      let (a, b) = append_nil _ _ h in
      let a' = report_nil (not (contains_dir d g)) (no_dir e d) a in
      let b' = report_nil (not (contains_inode t g)) (no_inode e t) b in
      (ground (arith, a'), ground (arith, b'))

  -- What a report without errors says: the program's own checks of the names and of the link counts
  -- pass, and both ends of each `Contains` edge are there.
  pub record IsClean : Type 0 where
    pub names : check_unique_names g ≡ ok tt
    pub links : check_link_count_consistency g ≡ ok tt
    pub ends :
        (j : ℕ) (e : EdgeId) (d : DirId) (t : InodeId) (n : String)
        → j < g.edges.next_bump
        → g.edges.slots j ≡ some (Edge.contains e d t n)
        → (contains_dir d g ≡ true) × (contains_inode t g ≡ true)

  module _ (ebump : g.edges.next_bump ≤ edge_capacity) (bump : g.inodes.next_bump ≤ node_capacity)
      (ids : (j : ℕ) (inode : Inode)
        → j < node_capacity
        → g.inodes.slots j ≡ some inode
        → inode.id ≡ j)
      (fits : (i : InodeId) → incoming_links i g < 2 ^ 32) where
    clean-IsClean : (cycles : List FsckError) → (report_with g cycles).errors ≡ [] → IsClean
    unfolding report_with each_key Arena.iter check_unique_names check_link_count_consistency
    clean-IsClean cycles h =
        let (before_xattrs, _) = append_nil _ _ h in
        let (before_blocks, _) = append_nil _ _ before_xattrs in
        let (before_cycles, _) = append_nil _ _ before_blocks in
        let (before_dirs, dirs) = append_nil _ _ before_cycles in
        let (edges, inodes) = append_nil _ _ before_dirs in
        record {
          names = gather-each _ _ g.dir_contains (λ x. name_errors-unique_in g (x.0) [] (x.1)) dirs;
          links =
              each-iter_from g.inodes (check_link_count g) g.inodes.next_bump 0 λ j inode le lt at.
                let same : j % 2 ^ 32 ≡ j = omega (arith, bump) in
                let low : j < node_capacity = omega (arith, bump) in
                let quiet : link_errors g inode ≡ [] =
                  quiet_from (link_errors g) g.inodes g.inodes.next_bump 0 (omega (arith, bump))
                    (omega (arith, bump)) inodes j inode le lt at in
                let passed = link_passes j inode (ids j inode low at) (fits j) quiet in
                subst (λ k. check_link_count g (record { index = k }, inode) ≡ ok tt) (sym same)
                  passed;
          ends = λ j e d t n lt at. edge_ends e d t n (
              quiet_from (edge_errors g) g.edges g.edges.next_bump 0 (omega (arith, ebump))
                (omega (arith, ebump)) edges j (Edge.contains e d t n) (omega arith) (omega arith)
                at);
        }

    finished :
        (o : Option (List FsckError)) (report : FsckReport)
        → finish_report g o ≡ some report
        → report.errors ≡ []
        → IsClean
    finished none report done clean = absurd (cc)
    finished (some cycles) report done clean =
        let same : report_with g cycles ≡ report = cc in
        clean-IsClean cycles (ap (λ r. r.errors) same ∙ clean)

    -- A report of the verifier without errors is to be trusted: the graph then passes its own checks
    -- of unique names and of link counts, and no `Contains` edge dangles. The pools keep their bump
    -- pointers within their capacities, inodes have the ids of their slots, and the links of an inode
    -- fit in a u32.
    pub fsck-IsClean :
        (fuel : ℕ) (report : FsckReport) → fsck fuel g ≡ some report → report.errors ≡ [] → IsClean
    unfolding fsck
    fsck-IsClean fuel report done clean = finished _ report done clean

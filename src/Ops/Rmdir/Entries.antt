-- ===== src/Ops/Rmdir/Entries.antt =====
-- sotfs-ops/src/lib.rs: the loop of RMDIR that takes the edges of a directory away.
use sotfs.Base.{
  ℕ, ◌+◌, ◌<◌, String, Bool, true, false, Option, none, some, List, [], ◌∷◌, ◌≡◌, refl, sym, ap,
  ◌∙◌, arith, ◌==◌, ◌⊎◌, inl, inr, str_eq, if◌then◌else◌, Option-cases,
}
use mathlib.Core.Path.{subst, subst₂}
use sotfs.Map.Sets
use sotfs.Arena
use sotfs.Arena.{to_id}
use sotfs.Types.{InodeId, DirId, EdgeId, Edge}
use sotfs.Graph.{TypeGraph, edge_capacity, get_edge, remove_edge, drop_outgoing, drop_incoming}
use sotfs.Graph.Index.{Index, index_of, entry, entry_of}
use sotfs.Graph.Index.Drop.{cut_edge, entry-cut_edge, index_of-remove_edge}
use sotfs.Graph.Links.Nodes.{nodes_of, IsWellFormed}
use sotfs.Graph.Links.Nodes.Edges.{cut_edge-WellFormed, share}
use sotfs.Ops.Link.Freed.{
  index_of-remove_other, nodes_of-remove_edge, remove_other-WellFormed, same_entry,
}
use sotfs.Ops.Rmdir.{remove_entries, unindex_removed}

-- A graph from which the edges `eids` are gone; only the link count of `target` is out of step.
pub record Emptied (target : InodeId) (eids : List EdgeId) (g g' : TypeGraph) : Type 0 where
  pub owed : InodeId → ℕ
  pub formed : IsWellFormed owed (nodes_of g') (index_of g')
  pub elsewhere : (i : InodeId) → (target == i) ≡ false → owed i ≡ 0
  pub same_nodes : nodes_of g' ≡ nodes_of g
  pub same_next : g'.next_edge ≡ g.next_edge
  pub entries :
      (e : EdgeId)
      → e < edge_capacity
      → entry e (index_of g') ≡ (if Sets.contains e eids then none else entry e (index_of g))

-- The edge is one that may go: it leads to `target`, or is a "..".
abbrev pub MayGo : InodeId → Option (DirId × InodeId × String) → Type 0
MayGo target none = Unit {0}
MayGo target (some (d, t, n)) = (t ≡ target) ⊎ (str_eq n ".." ≡ true)

removed_edge : (id : EdgeId) (g : TypeGraph) → (remove_edge id g).0 ≡ get_edge id g
unfolding remove_edge get_edge Arena.remove Arena.get
removed_edge id g = ground arith

-- The graph after one round of the loop.
abbrev pub without : EdgeId → TypeGraph → TypeGraph
without eid g = unindex_removed eid (remove_edge eid g).0 (remove_edge eid g).1

pub contains_edge :
    (o : Option Edge) (d : DirId) (t : InodeId) (n : String)
    → entry_of o ≡ some (d, t, n)
    → (i : EdgeId) × (o ≡ some (Edge.contains i d t n))
contains_edge (some (Edge.contains i d' t' n')) d t n h = (i, cc (h))
contains_edge (some (Edge.grants _ _ _ _)) d t n h = absurd (cc)
contains_edge (some (Edge.delegates _ _ _)) d t n h = absurd (cc)
contains_edge (some (Edge.derived_from _ _ _)) d t n h = absurd (cc)
contains_edge (some (Edge.supersedes _ _ _)) d t n h = absurd (cc)
contains_edge (some (Edge.points_to _ _ _ _)) d t n h = absurd (cc)
contains_edge (some (Edge.has_xattr _ _ _)) d t n h = absurd (cc)
contains_edge none d t n h = absurd (cc)

other_edge :
    (eid : EdgeId) (o : Option Edge) (g : TypeGraph)
    → entry_of o ≡ none
    → unindex_removed eid o g ≡ g
other_edge eid (some (Edge.contains i d' t' n')) g h = absurd (cc)
other_edge eid (some (Edge.grants _ _ _ _)) g h = refl
other_edge eid (some (Edge.delegates _ _ _)) g h = refl
other_edge eid (some (Edge.derived_from _ _ _)) g h = refl
other_edge eid (some (Edge.supersedes _ _ _)) g h = refl
other_edge eid (some (Edge.points_to _ _ _ _)) g h = refl
other_edge eid (some (Edge.has_xattr _ _ _)) g h = refl
other_edge eid none g h = refl

unindexed_nodes :
    (eid : EdgeId) (o : Option Edge) (g : TypeGraph)
    → nodes_of (unindex_removed eid o g) ≡ nodes_of g
unfolding drop_incoming drop_outgoing
unindexed_nodes eid (some (Edge.contains i d' t' n')) g = refl
unindexed_nodes eid (some (Edge.grants _ _ _ _)) g = refl
unindexed_nodes eid (some (Edge.delegates _ _ _)) g = refl
unindexed_nodes eid (some (Edge.derived_from _ _ _)) g = refl
unindexed_nodes eid (some (Edge.supersedes _ _ _)) g = refl
unindexed_nodes eid (some (Edge.points_to _ _ _ _)) g = refl
unindexed_nodes eid (some (Edge.has_xattr _ _ _)) g = refl
unindexed_nodes eid none g = refl

module _ (due : InodeId → ℕ) (g : TypeGraph) (h : IsWellFormed due (nodes_of g) (index_of g))
    (eid : EdgeId) (low : eid < edge_capacity) where
  without-nodes : nodes_of (without eid g) ≡ nodes_of g
  without-nodes = unindexed_nodes eid _ _ ∙ nodes_of-remove_edge eid g

  module _ (d : DirId) (t : InodeId) (n : String)
      (here : entry eid (index_of g) ≡ some (d, t, n)) where
    pub index_of-without : index_of (without eid g) ≡ cut_edge eid d t n (index_of g)
    unfolding entry get_edge
    index_of-without =
        let (i, at) = contains_edge (get_edge eid g) d t n here in
        ap (λ o. index_of (unindex_removed eid o (remove_edge eid g).1)) (removed_edge eid g ∙ at)
        ∙ index_of-remove_edge eid i d t n g at

    cut-without :
        IsWellFormed
          (λ i. due i + share t n i)
          (nodes_of (without eid g))
          (index_of (without eid g))
    cut-without =
        subst₂ (IsWellFormed (λ i. due i + share t n i)) (sym without-nodes) (sym index_of-without)
          (cut_edge-WellFormed (index_of g) h eid d t n low here)

    cut-entry :
        (e : EdgeId)
        → e < edge_capacity
        → entry e (index_of (without eid g)) ≡ (if eid == e then none else entry e (index_of g))
    cut-entry e lt =
        ap (entry e) index_of-without ∙ entry-cut_edge eid d t n (index_of g) h.index low here e lt

  module _ (other : entry eid (index_of g) ≡ none) where
    same_without : without eid g ≡ (remove_edge eid g).1
    unfolding entry get_edge
    same_without =
        other_edge eid (remove_edge eid g).0 (remove_edge eid g).1
          (ap entry_of (removed_edge eid g) ∙ other)

    other-without : IsWellFormed due (nodes_of (without eid g)) (index_of (without eid g))
    other-without =
        subst₂ (IsWellFormed due) (sym without-nodes)
          (sym (ap index_of same_without ∙ index_of-remove_other eid g other))
          (remove_other-WellFormed (nodes_of g) (index_of g) h eid low other)

    other-entry :
        (e : EdgeId)
        → e < edge_capacity
        → entry e (index_of (without eid g)) ≡ (if eid == e then none else entry e (index_of g))
    other-entry e lt =
        ap (entry e) (ap index_of same_without ∙ index_of-remove_other eid g other)
        ∙ same_entry (nodes_of g) (index_of g) h eid low other e lt
        ∙ ground (arith, other)

next_of : {s s' : Index} → s ≡ s' → s.next_edge ≡ s'.next_edge
next_of same = ap (λ (s : Index). s.next_edge) same

module _ (target : InodeId) where
  MayGo-if :
      (b : Bool) (o : Option (DirId × InodeId × String))
      → MayGo target o
      → MayGo target (if b then none else o)
  MayGo-if true o may = tt
  MayGo-if false o may = may

  -- One round.
  without-Emptied :
      (due : InodeId → ℕ) (g : TypeGraph) (eid : EdgeId)
      → IsWellFormed due (nodes_of g) (index_of g)
      → ((i : InodeId) → (target == i) ≡ false → due i ≡ 0)
      → eid < edge_capacity
      → MayGo target (entry eid (index_of g))
      → Emptied target (eid ∷ []) g (without eid g)
  unfolding Sets.contains
  without-Emptied due g eid h elsewhere low may = elim (Option-cases (entry eid (index_of g))) [
    | inl other ↦ record {
      owed = due;
      formed = other-without due g h eid low other;
      elsewhere = elsewhere;
      same_nodes = without-nodes due g h eid low;
      same_next =
          next_of
            (ap index_of (same_without due g h eid low other) ∙ index_of-remove_other eid g other);
      entries = λ e lt. other-entry due g h eid low other e lt ∙ ground arith;
    }
    | inr ((d, t, n), here) ↦
        let go : MayGo target (some (d, t, n)) = subst (MayGo target) here may in
        record {
          owed = λ i. due i + share t n i;
          formed = cut-without due g h eid low d t n here;
          elsewhere = λ i ne. ground (arith, elsewhere i ne, go);
          same_nodes = without-nodes due g h eid low;
          same_next = unfold cut_edge in next_of (index_of-without due g h eid low d t n here);
          entries = λ e lt. cut-entry due g h eid low d t n here e lt ∙ ground arith;
        }
  ]

  -- The loop takes away the edges of its list and no other.
  pub remove_entries-Emptied :
      (eids : List EdgeId) (due : InodeId → ℕ) (g : TypeGraph)
      → IsWellFormed due (nodes_of g) (index_of g)
      → ((i : InodeId) → (target == i) ≡ false → due i ≡ 0)
      → ((e : EdgeId)
          → Sets.contains e eids ≡ true
          → (e < edge_capacity) × MayGo target (entry e (index_of g)))
      → Emptied target eids g (remove_entries eids g)
  unfolding remove_entries Sets.contains
  remove_entries-Emptied [] due g h elsewhere all = record {
    owed = due;
    formed = h;
    elsewhere = elsewhere;
    same_nodes = refl;
    same_next = refl;
    entries = λ e lt. refl;
  }
  remove_entries-Emptied (eid ∷ eids) due g h elsewhere all =
      let (low, may) = all eid (ground arith) in
      let one = without-Emptied due g eid h elsewhere low may in
      let rest =
        remove_entries-Emptied eids one.owed (without eid g) one.formed one.elsewhere (λ e m.
          let (lt, may_e) = all e (ground arith) in
          (lt, subst (MayGo target) (sym (one.entries e lt)) (MayGo-if _ _ may_e))) in
      record {
        owed = rest.owed;
        formed = rest.formed;
        elsewhere = rest.elsewhere;
        same_nodes = rest.same_nodes ∙ one.same_nodes;
        same_next = rest.same_next ∙ one.same_next;
        entries = λ e lt. rest.entries e lt ∙ ground (arith, one.entries e lt);
      }

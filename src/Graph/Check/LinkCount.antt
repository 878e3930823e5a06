-- ===== src/Graph/Check/LinkCount.antt =====
-- graph.rs: `check_link_count_consistency` against the edges of the pool.
use sotfs.Base.{
  ℕ, zero, suc, ◌+◌, ◌<◌, ◌≤◌, ◌%◌, ◌^◌, Bool, true, false, ◌&&◌, not, Option, none, some, [], ◌∷◌,
  ◌≡◌, refl, sym, ◌∙◌, arith, ◌==◌, ==_iff, count, str_eq, Option-cases, Bool-cases, inl, inr, ◌↔◌,
  if◌then◌else◌, ap,
}
use mathlib.Core.Path.{subst}
use sotfs.Map
use sotfs.Map.{id_key, or_default}
use sotfs.Map.Sets
use sotfs.Map.Sets.Order.{IsAbove, IsIncreasing, le-contains, count-le, count_congr}
use sotfs.Arena
use sotfs.Arena.{to_id}
use sotfs.Types.{InodeId, Inode, Edge}
use sotfs.Error.{ok}
use sotfs.Graph.Check.Slots.{each-iter_from, each-iter_from_ok}
use sotfs.Graph.{TypeGraph, node_capacity, edge_capacity, get_edge}
use sotfs.Graph.Index.{index_of, entry, entry_of, edges_to, enters, IsIndexed}
use sotfs.Graph.Links.{links, counted, is_link}
use sotfs.Graph.Check.{is_counted, incoming_count, check_link_count, check_link_count_consistency}

-- The test of the check is the test by which links are counted.
same_test : (o : Option Edge) → is_counted o ≡ is_link (entry_of o)
same_test none = refl
same_test (some (Edge.contains _ _ _ _)) = refl
same_test (some (Edge.grants _ _ _ _)) = refl
same_test (some (Edge.delegates _ _ _)) = refl
same_test (some (Edge.derived_from _ _ _)) = refl
same_test (some (Edge.supersedes _ _ _)) = refl
same_test (some (Edge.points_to _ _ _ _)) = refl
same_test (some (Edge.has_xattr _ _ _)) = refl

-- How many of the numbers from `b` on, `n` of them, pass the test.
tally : (ℕ → Bool) → ℕ → ℕ → ℕ
tally p b zero = 0
tally p b (suc n) = let rest = tally p (suc b) n in if p b then suc rest else rest

-- An edge that leads to the inode under a name other than "..".
abbrev pub is_link_to : InodeId → Option Edge → Bool
is_link_to i (some (Edge.contains _ _ tgt name)) = tgt == i && not (str_eq name "..")
is_link_to i (some _) = false
is_link_to i none = false

-- The edges of the pool that lead to the inode, apart from any index.
pub links_in_pool : InodeId → TypeGraph → ℕ
unfolding tally
links_in_pool i g = tally (λ e. is_link_to i (Arena.get (to_id e) g.edges)) 0 edge_capacity

tally-count :
    (p q : ℕ → Bool) (b n : ℕ) (s : Sets.IdSet)
    → IsAbove b s
    → ((e : ℕ) → Sets.contains e s ≡ true → e < b + n)
    → ((e : ℕ) → b ≤ e → e < b + n → p e ≡ (Sets.contains e s && q e))
    → tally p b n ≡ count q s
unfolding tally count Sets.contains
tally-count p q b zero [] above low test = refl
tally-count p q b zero (x ∷ s) above low test =
    absurd (let lt : x < b + 0 = low x (ground arith) in omega (arith, lt, above))
tally-count p q b (suc n) [] above low test =
    let none_here : p b ≡ false = test b (omega arith) (omega arith) in
    rw none_here (
      tally-count p q (suc b) n [] tt (λ e m. absurd (cc))
        (λ e le lt. test e (omega arith) (omega arith)))
tally-count p q b (suc n) (x ∷ s) above low test = elim (Bool-cases (x == b)) [
  | inl here ↦
      let first : p b ≡ q x = ground (arith, here, test b (omega arith) (omega arith)) in
      let rest : tally p (suc b) n ≡ count q s =
        tally-count p q (suc b) n s (subst (λ k. IsAbove (suc k) s) ((==_iff x b).0 here) above.1)
          (λ e m. let lt : e < b + suc n = low e (ground (arith, m)) in omega (arith, lt))
          (λ e le lt. ground (arith, here, le, test e (omega arith) (omega arith))) in
      rw (first, rest) refl
  | inr past ↦
      let before : b < x = ground (arith, past, above.0) in
      let absent : Sets.contains b s ≡ false =
        ground (arith, le-contains (suc x) b s above.1, before) in
      let none_here : p b ≡ false =
        ground (arith, past, absent, test b (omega arith) (omega arith)) in
      rw none_here (
        tally-count p q (suc b) n (x ∷ s) (before, above.1)
          (λ e m. let lt : e < b + suc n = low e m in omega (arith, lt))
          (λ e le lt. test e (omega arith) (omega arith)))
]

one_test :
    (i : InodeId) (o : Option Edge)
    → is_link_to i o ≡ (enters i (entry_of o) && is_link (entry_of o))
one_test i none = refl
one_test i (some (Edge.contains _ _ _ _)) = refl
one_test i (some (Edge.grants _ _ _ _)) = refl
one_test i (some (Edge.delegates _ _ _)) = refl
one_test i (some (Edge.derived_from _ _ _)) = refl
one_test i (some (Edge.supersedes _ _ _)) = refl
one_test i (some (Edge.points_to _ _ _ _)) = refl
one_test i (some (Edge.has_xattr _ _ _)) = refl

module _ (g : TypeGraph) (h : IsIndexed (index_of g))
    (increasing : (i : InodeId) → IsIncreasing (edges_to i (index_of g))) where
  links-le : (i : InodeId) → links i (index_of g) ≤ edge_capacity
  unfolding links
  links-le i =
      count-le (counted (index_of g)) edge_capacity (edges_to i (index_of g)) (increasing i)
        (λ e m. omega (arith, h.to_below i e m, h.bounded))

  incoming-links : (i : InodeId) → incoming_count i g ≡ links i (index_of g)
  unfolding incoming_count links get_edge entry count
  incoming-links i =
      let same : (eids : Sets.IdSet)
          → count (λ e. is_counted (get_edge e g)) eids ≡ count (counted (index_of g)) eids =
        λ eids.
          count_congr (λ e. is_counted (get_edge e g)) (counted (index_of g)) eids
            (λ e m. same_test (get_edge e g)) in
      let bound = links-le i in
      elim (Option-cases (Map.get i g.inode_incoming_contains)) [
        | inl none_there ↦ ground (arith, none_there)
        | inr (eids, at) ↦ ground (arith, same eids, bound, at)
      ]

  linked_test :
      (i : InodeId) (e : ℕ)
      → e < edge_capacity
      → is_link_to i (Arena.get (to_id e) g.edges)
        ≡ (Sets.contains e (edges_to i (index_of g)) && counted (index_of g) e)
  unfolding entry
  linked_test i e lt =
      one_test i (Arena.get (to_id e) g.edges)
      ∙ ap (λ b. b && counted (index_of g) e) (sym (h.to_exact i e lt))

  -- The links of an inode, counted over its index, are those of the pool.
  links-links_in_pool : (i : InodeId) → links i (index_of g) ≡ links_in_pool i g
  unfolding links links_in_pool entry
  links-links_in_pool i = sym (
      tally-count (λ e. is_link_to i (Arena.get (to_id e) g.edges)) (counted (index_of g)) 0
        edge_capacity (edges_to i (index_of g)) (increasing i)
        (λ e m. omega (arith, h.to_below i e m, h.bounded)) (λ e low lt. linked_test i e lt))

  one_iff :
      (j : ℕ) (inode : Inode)
      → j ≤ node_capacity
      → (check_link_count g (record { index = j % 2 ^ 32 }, inode) ≡ ok tt)
        ↔ (inode.link_count ≡ links_in_pool j g)
  unfolding check_link_count
  one_iff j inode le =
      let same : j % 2 ^ 32 ≡ j = omega (arith, le) in
      let counts : incoming_count j g ≡ links_in_pool j g =
        incoming-links j ∙ links-links_in_pool j in
      rw same (λ passed. ground (arith, passed, counts), λ equal. ground (arith, equal, counts))

  -- The executable check of the link counts accepts the graph exactly if the link count of each inode
  -- of the pool is the number of edges in the edge pool that lead to it under a name other than "..":
  -- where the indexes hold the edges of the pool in order, and the inode pool keeps its bump pointer
  -- within its capacity.
  pub check_link_count_consistency_iff :
      g.inodes.next_bump ≤ node_capacity
      → (check_link_count_consistency g ≡ ok tt) ↔ (
          (j : InodeId) (inode : Inode)
          → j < g.inodes.next_bump
          → g.inodes.slots j ≡ some inode
          → inode.link_count ≡ links_in_pool j g)
  unfolding check_link_count_consistency Arena.iter
  check_link_count_consistency_iff bumped = (
    λ passed j inode lt at. (one_iff j inode (omega (arith, bumped))).0 (
        each-iter_from_ok g.inodes (check_link_count g) g.inodes.next_bump 0 passed j inode
          (omega arith) (omega arith) at),
    λ equal. each-iter_from g.inodes (check_link_count g) g.inodes.next_bump 0 λ j inode le lt at.
        (one_iff j inode (omega (arith, bumped))).1 (equal j inode (omega arith) at),
  )

-- ===== src/Ops/Affected/Bounds.antt =====
-- sotfs-ops/src/lib.rs: the bounds and the content of `AffectedNodes`.
use sotfs.Base.{
  ℕ, zero, suc, ◌<◌, ◌≤◌, Bool, true, false, ◌||◌, ◌&&◌, List, [], ◌∷◌, ◌++◌, ◌≡◌, refl, sym, ap,
  ◌∙◌, arith, ltb, length, set, take, length-set, Bool-cases, inl, inr, ◌↔◌, ◌⊎◌,
}
use mathlib.Core.Path.{subst}
use sotfs.Types.{NodeId, same_node}
use sotfs.Ops.Affected.{AffectedNodes, empty, has_node, push, as_slice}

pub same_node_iff : (a b : NodeId) → (same_node a b ≡ true) ↔ (a ≡ b)
unfolding same_node
same_node_iff a b = ground arith

-- Whether a node is in a list.
unfoldable pub listed : NodeId → List NodeId → Bool
listed node [] = false
listed node (x ∷ xs) = same_node x node || listed node xs

-- No node stands in the list twice.
abbrev pub Distinct : List NodeId → Type 0
Distinct [] = Unit
Distinct (x ∷ xs) = (listed x xs ≡ false) × Distinct xs

has_node-listed :
    (n : ℕ) (nodes : List NodeId) (node : NodeId)
    → has_node n nodes node ≡ listed node (take n nodes)
unfolding has_node listed
has_node-listed zero nodes node = refl
has_node-listed (suc n) [] node = refl
has_node-listed (suc n) (x ∷ nodes) node = ground (arith, has_node-listed n nodes node)

-- The slice after a write behind its end.
take-set :
    (nodes : List NodeId) (n : ℕ) (node : NodeId)
    → n < length nodes
    → take (suc n) (set nodes n node) ≡ take n nodes ++ node ∷ []
take-set [] n node h = absurd (omega arith)
take-set (x ∷ nodes) zero node h = refl
take-set (x ∷ nodes) (suc n) node h = ap (λ xs. x ∷ xs) (take-set nodes n node (omega arith))

listed-append :
    (node : NodeId) (xs : List NodeId) (new : NodeId)
    → listed node (xs ++ new ∷ []) ≡ (listed node xs || same_node new node)
unfolding listed
listed-append node [] new = ground arith
listed-append node (x ∷ xs) new = ground (arith, listed-append node xs new)

Distinct-append :
    (xs : List NodeId) (new : NodeId)
    → Distinct xs
    → listed new xs ≡ false
    → Distinct (xs ++ new ∷ [])
unfolding listed
Distinct-append [] new h fresh = (refl, tt)
Distinct-append (x ∷ xs) new h fresh = (
  ground (arith, listed-append x xs new, h, same_node_iff new x, same_node_iff x new),
  Distinct-append xs new h.1 (ground (arith, fresh)),
)

-- The array keeps its eight places, the length stays within it, and the slice has no node twice.
pub record IsBounded (a : AffectedNodes) : Type 0 where
  pub places : length a.nodes ≡ 8
  pub within : a.len ≤ 8
  pub distinct : Distinct (as_slice a)

pub empty-IsBounded : IsBounded empty
unfolding empty as_slice
empty-IsBounded = record { places = refl; within = omega arith; distinct = tt }

module _ (node : NodeId) (a : AffectedNodes) (h : IsBounded a) where
  fresh_slice :
      ltb a.len 8 ≡ true
      → has_node a.len a.nodes node ≡ false
      → push node a ≡ record { nodes = set a.nodes a.len node; len = suc a.len }
  unfolding push
  fresh_slice room new = rw (room, new) refl

  kept : (ltb a.len 8 ≡ false) ⊎ (has_node a.len a.nodes node ≡ true) → push node a ≡ a
  unfolding push
  kept (inl full) = rw full refl
  kept (inr old) = ground (arith, old)

  abbrev IsPushed : AffectedNodes → Type 0
  IsPushed b =
      IsBounded b
      × ((x : NodeId)
          → listed x (as_slice b) ≡ (listed x (as_slice a) || (ltb a.len 8 && same_node node x)))

  same_listed :
      (x : NodeId)
      → (ltb a.len 8 ≡ false) ⊎ (has_node a.len a.nodes node ≡ true)
      → listed x (as_slice a) ≡ (listed x (as_slice a) || (ltb a.len 8 && same_node node x))
  same_listed x (inl full) = ground (arith, full)
  same_listed x (inr old) = elim (Bool-cases (same_node node x)) [
    | inr other ↦ ground (arith, other)
    | inl same ↦
        let there = sym (has_node-listed a.len a.nodes node) ∙ old in
        let here : listed x (as_slice a) ≡ true =
          subst (λ k. listed k (as_slice a) ≡ true) ((same_node_iff node x).0 same)
            (unfold as_slice in there) in
        ground (arith, here)
  ]

  kept-IsPushed : (ltb a.len 8 ≡ false) ⊎ (has_node a.len a.nodes node ≡ true) → IsPushed a
  kept-IsPushed why = (h, λ x. same_listed x why)

  new-IsPushed :
      ltb a.len 8 ≡ true
      → has_node a.len a.nodes node ≡ false
      → IsPushed (record { nodes = set a.nodes a.len node; len = suc a.len })
  unfolding as_slice
  new-IsPushed room new =
      let slice = take-set a.nodes a.len node (ground (arith, h.places)) in
      (
        record {
          places = omega (arith, length-set a.nodes a.len node, h.places);
          within = ground arith;
          distinct = subst Distinct (sym slice) (
              Distinct-append (as_slice a) node h.distinct
                (sym (has_node-listed a.len a.nodes node) ∙ new));
        },
        λ x. ap (listed x) slice ∙ listed-append x (as_slice a) node ∙ ground (arith, room),
      )

  -- A push keeps the bounds. While a place is left, the slice then has the node, and what it had, and
  -- nothing else; at eight nodes it stays as it was.
  pub push-IsBounded :
      IsBounded (push node a)
      × ((x : NodeId)
          → listed x (as_slice (push node a))
            ≡ (listed x (as_slice a) || (ltb a.len 8 && same_node node x)))
  push-IsBounded = elim (Bool-cases (ltb a.len 8)) [
    | inl room ↦ elim (Bool-cases (has_node a.len a.nodes node)) [
      | inl old ↦ subst IsPushed (sym (kept (inr old))) (kept-IsPushed (inr old))
      | inr new ↦ subst IsPushed (sym (fresh_slice room new)) (new-IsPushed room new)
    ]
    | inr full ↦ subst IsPushed (sym (kept (inl full))) (kept-IsPushed (inl full))
  ]

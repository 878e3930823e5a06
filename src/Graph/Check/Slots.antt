-- ===== src/Graph/Check/Slots.antt =====
-- graph.rs: the loops of the checks over the occupied slots of a pool.
use sotfs.Base.{
  ℕ, zero, suc, ◌+◌, ◌<◌, ◌≤◌, ◌%◌, ◌^◌, false, none, some, ◌∷◌, ◌≡◌, refl, sym, ap, ◌∙◌, arith,
  ◌==◌, ==_iff, Option-cases, Bool-cases, inl, inr,
}
use mathlib.Core.Path.{subst₂}
use sotfs.Arena
use sotfs.Arena.{Arena, ArenaId}
use sotfs.Error.{Result, ok, each, first_ok}

module _ {T : Type 0} {capacity : ℕ} (a : Arena T capacity) where
  -- A check of every slot that the iterator visits.
  pub each-iter_from :
      (f : ArenaId × T → Result (Unit {0})) (n pos : ℕ)
      → ((j : ℕ) (x : T)
          → pos ≤ j
          → j < pos + n
          → a.slots j ≡ some x
          → f (record { index = j % 2 ^ 32 }, x) ≡ ok tt)
      → each f (Arena.iter_from n pos a) ≡ ok tt
  unfolding Arena.iter_from each
  each-iter_from f zero pos h = refl
  each-iter_from f (suc n) pos h =
      let rest = each-iter_from f n (pos + 1) (λ j x le lt. h j x (omega arith) (omega arith)) in
      elim (Option-cases (a.slots pos)) [
        | inl empty ↦ rw (each, empty) rest
        | inr (x, at) ↦ rw (each, at, h pos x (omega arith) (omega arith) at) rest
      ]

  pub iter_none :
      (n pos : ℕ)
      → a.slots pos ≡ none
      → Arena.iter_from (suc n) pos a ≡ Arena.iter_from n (pos + 1) a
  unfolding Arena.iter_from
  iter_none n pos empty = ground (arith, empty)

  pub iter_some :
      (n pos : ℕ) {x : T}
      → a.slots pos ≡ some x
      → Arena.iter_from (suc n) pos a
        ≡ (record { index = pos % 2 ^ 32 }, x) ∷ Arena.iter_from n (pos + 1) a
  unfolding Arena.iter_from
  iter_some n pos here = ground (arith, here)

  slots_apart : (i j : ℕ) {x : T} → a.slots i ≡ none → a.slots j ≡ some x → (i == j) ≡ false
  slots_apart i j empty at = elim (Bool-cases (i == j)) [
    | inl same ↦ absurd (let e = ap a.slots ((==_iff i j).0 same) in cc)
    | inr other ↦ other
  ]

  -- A check of all slots that succeeds has succeeded at each.
  pub each-iter_from_ok :
      (f : ArenaId × T → Result (Unit {0})) (n pos : ℕ)
      → each f (Arena.iter_from n pos a) ≡ ok tt
      → (j : ℕ) (x : T) → pos ≤ j
      → j < pos + n
      → a.slots j ≡ some x
      → f (record { index = j % 2 ^ 32 }, x) ≡ ok tt
  unfolding Arena.iter_from each
  each-iter_from_ok f zero pos passed j x le lt at = absurd (omega arith)
  each-iter_from_ok f (suc n) pos passed j x le lt at = elim (Option-cases (a.slots pos)) [
    | inl empty ↦
        let past = slots_apart pos j empty at in
        each-iter_from_ok f n (pos + 1) (sym (ap (each f) (iter_none n pos empty)) ∙ passed) j x
          (ground (arith, past)) (omega arith) at
    | inr (y, here) ↦
        let all = sym (ap (each f) (iter_some n pos here)) ∙ passed in
        let next = λ (done : Unit {0}). each f (Arena.iter_from n (pos + 1) a) in
        let (done, rest, first) = first_ok next tt (f (record { index = pos % 2 ^ 32 }, y)) all in
        elim (Bool-cases (pos == j)) [
          | inl same ↦
              let here' = sym (ap a.slots ((==_iff pos j).0 same)) ∙ here in
              let one : y ≡ x = ground (arith, here', at) in
              let i = (==_iff pos j).0 same in
              subst₂ (λ k d. f (record { index = k % 2 ^ 32 }, d) ≡ ok tt) i one first
          | inr other ↦
              each-iter_from_ok f n (pos + 1) rest j x (ground (arith, other)) (omega arith) at
        ]
  ]

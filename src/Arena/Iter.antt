-- ===== src/Arena/Iter.antt =====
-- arena.rs: the iterators, which walk the slots below the bump pointer.
use sotfs.Base.{
  ℕ, zero, suc, ◌+◌, ◌≤◌, ◌^◌, ◌&&◌, none, List, ◌≡◌, arith, ltb, leb, ◌==◌, is_some, count,
  if◌then◌else◌,
}
use sotfs.Arena.{ArenaId, Arena, get, iter, iter_from}

module _ {T : Type 0} {capacity : ℕ} (a : Arena T capacity) where
  abbrev times : ℕ → List (ArenaId × T) → ℕ
  times j = count (λ e. e.0.index == j)

  times-iter_from :
      (n pos j : ℕ)
      → pos + n ≤ 2 ^ 32
      → times j (iter_from n pos a)
        ≡ (if leb pos j && (ltb j (pos + n) && is_some (a.slots j)) then 1 else 0)
  unfolding iter_from count
  times-iter_from zero pos j h = ground arith
  times-iter_from (suc n) pos j h = ground (arith, times-iter_from n (pos + 1) j)

  -- In an arena whose occupied slots lie below its bump pointer, and that pointer within the
  -- capacity, which fits 32 bits, iteration yields each occupied slot exactly once, and no other.
  pub count-iter :
      (j : ℕ)
      → a.next_bump ≤ capacity
      → capacity ≤ 2 ^ 32
      → (a.next_bump ≤ j → a.slots j ≡ none)
      → times j (iter a) ≡ (if is_some (get (record { index = j }) a) then 1 else 0)
  unfolding iter get
  count-iter j h c v = ground (arith, times-iter_from a.next_bump 0 j)

-- ===== src/Map/Sets/Order.antt =====
-- BTreeSet of ids: the order of its elements, and counts over it.
use sotfs.Base.{
  ℕ, suc, ◌+◌, ◌≤◌, ◌<◌, Bool, true, false, [], ◌∷◌, ◌≡◌, refl, arith, count, if◌then◌else◌,
}
use sotfs.Map.Sets.{IdSet, contains, add, delete}

-- The elements increase, from `b` on.
abbrev pub IsAbove : ℕ → IdSet → Type 0
IsAbove b [] = Unit
IsAbove b (x ∷ s) = (b ≤ x) × IsAbove (suc x) s

abbrev pub IsIncreasing : IdSet → Type 0
IsIncreasing s = IsAbove 0 s

IsAbove-weaken : (a b : ℕ) (s : IdSet) → a ≤ b → IsAbove b s → IsAbove a s
IsAbove-weaken a b [] le h = tt
IsAbove-weaken a b (x ∷ s) le h = (omega arith, h.1)

pub le-contains : (b k : ℕ) (s : IdSet) → IsAbove b s → contains k s ≡ true → b ≤ k
unfolding contains
le-contains b k [] h m = absurd (cc)
le-contains b k (x ∷ s) h m = ground (arith, le-contains (suc x) k s h.1)

add-IsAbove : (b k : ℕ) (s : IdSet) → b ≤ k → IsAbove b s → IsAbove b (add k s)
unfolding add
add-IsAbove b k [] le h = (le, tt)
add-IsAbove b k (x ∷ s) le h = ground (arith, add-IsAbove (suc x) k s)

pub add-IsIncreasing : (k : ℕ) (s : IdSet) → IsIncreasing s → IsIncreasing (add k s)
add-IsIncreasing k s h = add-IsAbove 0 k s (omega arith) h

delete-IsAbove : (b k : ℕ) (s : IdSet) → IsAbove b s → IsAbove b (delete k s)
unfolding delete
delete-IsAbove b k [] h = tt
delete-IsAbove b k (x ∷ s) h =
    ground
      (arith, delete-IsAbove (suc x) k s h.1, IsAbove-weaken b (suc x) (delete k s) (omega arith))

pub delete-IsIncreasing : (k : ℕ) (s : IdSet) → IsIncreasing s → IsIncreasing (delete k s)
delete-IsIncreasing k s h = delete-IsAbove 0 k s h

pub delete_absent : (k : ℕ) (s : IdSet) → contains k s ≡ false → delete k s ≡ s
unfolding delete contains
delete_absent k [] h = refl
delete_absent k (x ∷ s) h = ground (arith, delete_absent k s)

module _ (p : ℕ → Bool) where
  count-delete_above :
      (b k : ℕ) (s : IdSet)
      → IsAbove b s
      → contains k s ≡ true
      → count p s ≡ (if p k then suc (count p (delete k s)) else count p (delete k s))
  unfolding delete contains count
  count-delete_above b k [] h m = absurd (cc)
  count-delete_above b k (x ∷ s) h m =
      ground
        (arith, count-delete_above (suc x) k s h.1, le-contains (suc x) k s h.1, delete_absent k s)

  -- The removal of an element of an increasing set takes its own contribution off a count.
  pub count-delete :
      (k : ℕ) (s : IdSet)
      → IsIncreasing s
      → contains k s ≡ true
      → count p s ≡ (if p k then suc (count p (delete k s)) else count p (delete k s))
  count-delete k s h m = count-delete_above 0 k s h m

  -- Tests that agree on the elements give one count.
  pub count_congr :
      (q : ℕ → Bool) (s : IdSet)
      → ((e : ℕ) → contains e s ≡ true → p e ≡ q e)
      → count p s ≡ count q s
  unfolding contains count
  count_congr q [] same = refl
  count_congr q (x ∷ s) same =
      let rest : count p s ≡ count q s = count_congr q s (λ e m. same e (ground arith)) in
      ground (arith, same x)

  pub count-pos : (e : ℕ) (s : IdSet) → contains e s ≡ true → p e ≡ true → 1 ≤ count p s
  unfolding contains count
  count-pos e [] m yes_e = absurd (cc)
  count-pos e (x ∷ s) m yes_e = ground (arith, count-pos e s)

  count-le_above :
      (b top : ℕ) (s : IdSet)
      → IsAbove b s
      → ((e : ℕ) → contains e s ≡ true → e < top)
      → b ≤ top
      → b + count p s ≤ top
  unfolding contains count
  count-le_above b top [] h below le = omega arith
  count-le_above b top (x ∷ s) h below le =
      let x_below : x < top = below x (ground arith) in
      let rest : suc x + count p s ≤ top =
        count-le_above (suc x) top s h.1 (λ e m. below e (ground arith)) x_below in
      ground arith

  -- A count over an increasing set is at most the bound of its elements.
  pub count-le :
      (top : ℕ) (s : IdSet)
      → IsIncreasing s
      → ((e : ℕ) → contains e s ≡ true → e < top)
      → count p s ≤ top
  count-le top s h below = omega (arith, count-le_above 0 top s h below (omega arith))

-- An element that does not pass the test adds nothing to a count.
pub count-add_uncounted :
    (p : ℕ → Bool) (k : ℕ) (s : IdSet) → p k ≡ false → count p (add k s) ≡ count p s
unfolding add count
count-add_uncounted p k [] no_k = ground (arith, no_k)
count-add_uncounted p k (x ∷ s) no_k = ground (arith, no_k, count-add_uncounted p k s no_k)

pub count-delete_uncounted :
    (p : ℕ → Bool) (k : ℕ) (s : IdSet) → p k ≡ false → count p (delete k s) ≡ count p s
unfolding delete count
count-delete_uncounted p k [] no_k = refl
count-delete_uncounted p k (x ∷ s) no_k = ground (arith, no_k, count-delete_uncounted p k s no_k)

-- ===== src/Map/Sets.antt =====
-- BTreeSet of ids: its elements in increasing order, without repetition.
pub mod Order
use sotfs.Base.{
  ℕ, suc, Bool, true, false, ◌||◌, List, [], ◌∷◌, ◌≡◌, refl, arith, ltb, ◌==◌, length, count, find,
  Option, none, some, if◌then◌else◌,
}

abbrev pub IdSet : Type 0
IdSet = List ℕ

-- `s.contains(&k)`
unfoldable pub contains : ℕ → IdSet → Bool
contains k [] = false
contains k (j ∷ s) = j == k || contains k s

unfoldable pub add : ℕ → IdSet → IdSet
add k [] = k ∷ []
add k (j ∷ s) = if j == k then j ∷ s else if ltb k j then k ∷ j ∷ s else j ∷ add k s

unfoldable pub delete : ℕ → IdSet → IdSet
delete k [] = []
delete k (j ∷ s) = let rest = delete k s in if j == k then rest else j ∷ rest

pub contains-add : (k j : ℕ) (s : IdSet) → contains j (add k s) ≡ (k == j || contains j s)
unfolding contains add
contains-add k j [] = refl
contains-add k j (i ∷ s) = ground (arith, contains-add k j s)

pub contains-delete :
    (k j : ℕ) (s : IdSet) → contains j (delete k s) ≡ (if k == j then false else contains j s)
unfolding contains delete
contains-delete k j [] = ground arith
contains-delete k j (i ∷ s) = ground (arith, contains-delete k j s)

-- Adding a new element adds its own contribution to a count.
pub count-add :
    (p : ℕ → Bool) (k : ℕ) (s : IdSet)
    → contains k s ≡ false
    → count p (add k s) ≡ (if p k then suc (count p s) else count p s)
unfolding contains add count
count-add p k [] h = refl
count-add p k (i ∷ s) h = ground (arith, count-add p k s)

-- A search finds what it found before where the test agrees on the elements.
pub find_congr :
    (p q : ℕ → Bool) (s : IdSet) → ((j : ℕ) → contains j s ≡ true → q j ≡ p j) → find q s ≡ find p s
unfolding contains find
find_congr p q [] same = refl
find_congr p q (i ∷ s) same =
    ground (arith, same i, find_congr p q s (λ j m. same j (ground (arith, m))))

-- A search that found nothing finds a new element that passes the test.
pub find-add :
    (p q : ℕ → Bool) (k : ℕ) (s : IdSet)
    → ((j : ℕ) → contains j s ≡ true → q j ≡ p j)
    → q k ≡ true
    → find p s ≡ none
    → find q (add k s) ≡ some k
unfolding contains find add
find-add p q k [] same new none_yet = ground (arith, new)
find-add p q k (i ∷ s) same new none_yet =
    ground (arith, new, none_yet, same i, find-add p q k s (λ j m. same j (ground (arith, m))) new)

pub find-passes : (p : ℕ → Bool) (s : IdSet) (k : ℕ) → find p s ≡ some k → p k ≡ true
unfolding find
find-passes p [] k h = absurd (cc)
find-passes p (i ∷ s) k h = ground (arith, h, find-passes p s k)

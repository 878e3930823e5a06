-- ===== src/Map/Laws.antt =====
-- Lookups after the operations of a map, in any order of its keys.
use sotfs.Base.{none, some, [], ◌∷◌, ◌≡◌, refl, arith, if◌then◌else◌}
use mathlib.Core.Option
use sotfs.Map.{Key, Map, get, insert, remove, adjust}

module _ {ℓ κ} {K : Type ℓ} {V : Type κ} ⦃key : Key K⦄ where
  pub get-insert :
      (k j : K) (v : V) (m : Map K V)
      → get j (insert k v m) ≡ (if key.beq k j then some v else get j m)
  unfolding get insert
  get-insert k j v [] = refl
  get-insert k j v ((i, w) ∷ m) =
      ground (arith, key.beq_iff k j, key.beq_iff i k, key.beq_iff i j, get-insert k j v m)

  pub get-remove :
      (k j : K) (m : Map K V) → get j (remove k m) ≡ (if key.beq k j then none else get j m)
  unfolding get remove
  get-remove k j [] = ground arith
  get-remove k j ((i, w) ∷ m) =
      ground (arith, key.beq_iff k j, key.beq_iff i k, key.beq_iff i j, get-remove k j m)

  pub get-adjust :
      (k j : K) (f : V → V) (m : Map K V)
      → get j (adjust k f m) ≡ (if key.beq k j then Option.map f (get j m) else get j m)
  unfolding get adjust
  get-adjust k j f [] = ground arith
  get-adjust k j f ((i, w) ∷ m) =
      ground (arith, key.beq_iff k j, key.beq_iff i k, key.beq_iff i j, get-adjust k j f m)

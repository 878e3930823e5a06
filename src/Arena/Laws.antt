-- ===== src/Arena/Laws.antt =====
-- arena.rs against a finite map from slots to values: what `get` returns after each operation.
use sotfs.Base.{ℕ, ◌<◌, ◌≤◌, true, false, none, some, ◌≡◌, arith, ◌==◌, is_some, if◌then◌else◌}
use mathlib.Core.Option
use sotfs.Arena.{ArenaId, Arena, get, insert_at, remove, adjust, contains}

module _ {T : Type 0} {capacity : ℕ} (id : ArenaId) (a : Arena T capacity) where
  -- An insertion into a vacant slot in range succeeds, and shows at that slot alone.
  pub get-insert_at :
      (j : ArenaId) (value : T)
      → id.index < capacity
      → get id a ≡ none
      → ((insert_at id value a).0 ≡ true)
        × (get j (insert_at id value a).1 ≡ (if id.index == j.index then some value else get j a))
  unfolding get insert_at
  get-insert_at j value h v = ground arith

  -- A refused insertion leaves the arena as it was.
  pub insert_at_refused :
      (value : T) → (insert_at id value a).0 ≡ false → (insert_at id value a).1 ≡ a
  unfolding insert_at
  insert_at_refused value h = ground arith

  pub insert_at_full : (value : T) → capacity ≤ id.index → insert_at id value a ≡ (false, a)
  unfolding insert_at
  insert_at_full value h = ground arith

  -- A removal returns what the slot held, and empties that slot alone.
  pub get-remove :
      (j : ArenaId)
      → ((remove id a).0 ≡ get id a)
        × (get j (remove id a).1 ≡ (if id.index == j.index then none else get j a))
  unfolding get remove
  get-remove j = ground arith

  pub get-adjust :
      (j : ArenaId) (f : T → T)
      → get j (adjust id f a) ≡ (if id.index == j.index then Option.map f (get j a) else get j a)
  unfolding get adjust
  get-adjust j f = ground arith

  pub contains-get : contains id a ≡ is_some (get id a)
  unfolding contains get
  contains-get = ground arith

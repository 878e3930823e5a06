-- ===== src/Arena/Reuse.antt =====
-- arena.rs: the free list under a mixture of `dealloc`, `insert_at` and `alloc`.
use sotfs.Base.{ℕ, ◌+◌, ◌-◌, ◌<◌, ltb, true, false, none, some, ◌≡◌, refl, arith}
use mathlib.Core.Option
use sotfs.Arena.{ArenaId, Arena, get, alloc, dealloc, insert_at, fill}

module _ {T : Type 0} {capacity : ℕ} (id : ArenaId) (a : Arena T capacity) (v w : T) where
  -- An occupied slot at the head of the free list.
  alloc_listed :
      (b : Arena T capacity)
      → 0 < b.free_count
      → b.free_list (b.free_count - 1) ≡ id.index
      → b.slots id.index ≡ some v
      → (alloc true w b ≡ none)
        × (alloc false w b
            ≡ some (some id, fill id.index w (record b { free_count = b.free_count - 1 })))
  unfolding alloc
  alloc_listed b free listed live =
      let yes : ltb 0 b.free_count ≡ true = ground (arith, free) in
      (rw (yes, listed, live) refl, rw (yes, listed) refl)

  placed : id.index < capacity → (b : Arena T capacity) → get id (fill id.index w b) ≡ some w
  unfolding get
  placed h b = ground (arith, h)

  refilled :
      id.index < capacity
      → a.free_count < capacity
      → get id a ≡ some w
      → let filled = (insert_at id v (dealloc id a).1).1 in
        (filled.slots id.index ≡ some v)
        × (filled.free_list (filled.free_count - 1) ≡ id.index)
        × (0 < filled.free_count)
  unfolding get dealloc insert_at
  refilled h r o = ground arith

  -- A slot that `dealloc` frees and `insert_at` fills again stays on the free list, for an occupied
  -- slot in range and a free list with room. With debug assertions the next `alloc` then panics; in a
  -- build without them it returns that slot, replaces the live value that `insert_at` put there, and
  -- counts it twice.
  pub alloc-insert_at-dealloc :
      id.index < capacity
      → a.free_count < capacity
      → (get id a ≡ some w)
      → let freed = (dealloc id a).1 in
        let filled = (insert_at id v freed).1 in
        (get id filled ≡ some v)
        × (alloc true w filled ≡ none)
        × (Option.map (λ r. r.0) (alloc false w filled) ≡ some (some id))
        × (Option.bind (alloc false w filled) (λ r. get id r.1) ≡ some w)
        × (Option.map (λ r. r.1.len) (alloc false w filled) ≡ some (filled.len + 1))
  unfolding Option.bind get
  alloc-insert_at-dealloc h r o =
      let filled = (insert_at id v (dealloc id a).1).1 in
      let (live, listed, some_free) = refilled h r o in
      let (debug, release) = alloc_listed filled (some_free) listed live in
      (
        unfold get in ground (arith, live, h),
        debug,
        rw release refl,
        rw release (placed h (record filled { free_count = filled.free_count - 1 })),
        rw release refl,
      )

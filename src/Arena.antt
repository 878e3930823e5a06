-- ===== src/Arena.antt =====
-- sotfs-graph/src/arena.rs: the fixed-capacity pool of slots. `data` and `state` are one function
-- from slots to values, as `data[i]` is initialised exactly when `state[i]` is occupied; the
-- capacity is a parameter of the type, as the const generic is.
pub mod Laws
pub mod Iter
pub mod Reuse
use sotfs.Base.{
  ℕ, zero, suc, ◌+◌, ◌-◌, ◌%◌, ◌^◌, Bool, true, false, ◌&&◌, ◌||◌, not, Option, none, some, List,
  [], ◌∷◌, ltb, leb, ◌==◌, is_some, if◌then◌else◌,
}

-- A u32 index of a slot.
pub record ArenaId : Type 0 where
  pub index : ℕ

pub record Arena (T : Type 0) (capacity : ℕ) : Type 0 where
  pub slots : ℕ → Option T
  pub len : ℕ
  pub free_list : ℕ → ℕ
  pub free_count : ℕ
  pub next_bump : ℕ

-- `ArenaId(key as u32)`
abbrev pub to_id : ℕ → ArenaId
to_id key = record { index = key % 2 ^ 32 }

abbrev pub write {ℓ} : {A : Type ℓ} → (ℕ → A) → ℕ → A → ℕ → A
write f i v j = if i == j then v else f j

module _ {T : Type 0} where
  abbrev pub new : (capacity : ℕ) → Arena T capacity
  new capacity = record {
    slots = λ i. none;
    len = 0;
    free_list = λ i. 0;
    free_count = 0;
    next_bump = 0;
  }

module _ {T : Type 0} {capacity : ℕ} where
  abbrev pub occupied : ℕ → Arena T capacity → Bool
  occupied slot a = is_some (a.slots slot)

  -- Writes an occupied slot; shared by `alloc` and `insert_at`.
  abbrev pub fill : ℕ → T → Arena T capacity → Arena T capacity
  fill slot value a = record a { slots = write a.slots slot (some value); len = a.len + 1 }

  -- The last steps of `alloc`. The `debug_assert!` on the state of the slot is there in builds with
  -- debug assertions alone; `none` is its panic.
  abbrev pub place :
      Bool → ArenaId → ℕ → T → Arena T capacity → Option (Option ArenaId × Arena T capacity)
  place debug id slot value a =
      if debug && occupied slot a then none else some (some id, fill slot value a)

  -- `debug` says whether debug assertions are compiled in.
  unfoldable pub alloc : Bool → T → Arena T capacity → Option (Option ArenaId × Arena T capacity)
  alloc debug value a =
      if ltb 0 a.free_count
      then (let slot = a.free_list (a.free_count - 1) in
          place debug (record { index = slot }) slot value
            (record a { free_count = a.free_count - 1 }))
      else if ltb a.next_bump capacity
      then place debug (record { index = a.next_bump % 2 ^ 32 }) a.next_bump value
          (record a { next_bump = a.next_bump + 1 })
      else some (none, a)

  unfoldable pub insert_at : ArenaId → T → Arena T capacity → Bool × Arena T capacity
  insert_at id value a =
      if leb capacity id.index then (false, a) else if occupied id.index a then (false, a) else (
        true,
        fill id.index value (record a {
          next_bump = if leb a.next_bump id.index then id.index + 1 else a.next_bump;
        }),
      )

  -- Marks an occupied slot vacant and pushes it to the free list.
  abbrev pub vacate : ℕ → Arena T capacity → Arena T capacity
  vacate slot a =
      let freed = record a { slots = write a.slots slot none; len = a.len - 1 } in
      if ltb a.free_count capacity
      then record freed {
        free_list = write a.free_list a.free_count slot;
        free_count = a.free_count + 1;
      }
      else freed

  unfoldable pub dealloc : ArenaId → Arena T capacity → Bool × Arena T capacity
  dealloc id a =
      if leb capacity id.index || not (occupied id.index a)
      then (false, a)
      else (true, vacate id.index a)

  unfoldable pub remove : ArenaId → Arena T capacity → Option T × Arena T capacity
  remove id a =
      if leb capacity id.index || not (occupied id.index a)
      then (none, a)
      else (a.slots id.index, vacate id.index a)

  unfoldable pub get : ArenaId → Arena T capacity → Option T
  get id a = if leb capacity id.index || not (occupied id.index a) then none else a.slots id.index

  -- `if let Some(x) = a.get_mut(id) { *x = f(*x) }`
  unfoldable pub adjust : ArenaId → (T → T) → Arena T capacity → Arena T capacity
  unfolding get
  adjust id f a = elim (get id a) [
    | none ↦ a
    | some x ↦ record a { slots = write a.slots id.index (some (f x)) }
  ]

  unfoldable pub contains : ArenaId → Arena T capacity → Bool
  contains id a = ltb id.index capacity && occupied id.index a

  -- `ArenaIter::next` from slot `pos` on, for the `n` slots below the bump pointer that are left.
  unfoldable pub iter_from : ℕ → ℕ → Arena T capacity → List (ArenaId × T)
  iter_from zero pos a = []
  iter_from (suc n) pos a =
      let rest = iter_from n (pos + 1) a in
      elim (a.slots pos) [ none ↦ rest | some x ↦ (record { index = pos % 2 ^ 32 }, x) ∷ rest ]

  unfoldable pub iter : Arena T capacity → List (ArenaId × T)
  unfolding iter_from
  iter a = iter_from a.next_bump 0 a

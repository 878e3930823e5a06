-- ===== src/Rcu/Progress.antt =====
-- rcu.rs, `rcu_synchronize`: the end of the wait of a writer.
use sotfs.Base.{
  ℕ, suc, ◌+◌, ◌<◌, ◌≤◌, ◌^◌, true, false, ◌&&◌, not, List, [], ◌∷◌, ◌++◌, ◌≡◌, refl, ap, ◌∙◌,
  arith, ltb, leb, ◌==◌, ==_iff, length, if◌then◌else◌, if_rule, Bool-cases, inl, inr,
}
use sotfs.Rcu.Readers.Grace.{epoch-step}
use sotfs.Rcu.Gone.{OldGone, step-OldGone}
use sotfs.Rcu.{
  RcuGraph, Reader, scanning, registered, indexed, reading, panicked, Writer, locked, chosen,
  stamped, mutating, mutated, waiting, Move, reader, writer, store, reader_step, writer_step,
  store_step, step, run, max_readers,
}

-- The moves that the writer itself makes.
abbrev pub turns : {S : Type 0} → ℕ → List (Move S) → ℕ
turns w [] = 0
turns w (reader r ∷ moves) = turns w moves
turns w (writer v ∷ moves) = let rest = turns w moves in if v == w then suc rest else rest
turns w (store v graph ∷ moves) = turns w moves

module _ {S : Type 0} (w epoch : ℕ) where
  abbrev SameWriters : RcuGraph S → RcuGraph S → Type 0
  SameWriters s t = t.writers w ≡ s.writers w

  reader_step_writers : (r : ℕ) (p : Reader) (s : RcuGraph S) → SameWriters s (reader_step r p s)
  unfolding reader_step
  reader_step_writers r Reader.idle s = refl
  reader_step_writers r (scanning e slot) s =
      if_rule (SameWriters s) (ltb slot max_readers)
        (λ more. if_rule (SameWriters s) (s.reader_epochs slot == 0) (λ free. refl) (λ busy. refl))
        (λ full. refl)
  reader_step_writers r (registered slot) s = refl
  reader_step_writers r (indexed slot index) s = refl
  reader_step_writers r (reading slot index box) s = refl
  reader_step_writers r panicked s = refl

  store_step_writers :
      (p : Writer) (graph : S) (s : RcuGraph S) → SameWriters s (store_step p graph s)
  unfolding store_step
  store_step_writers (mutating current e box) graph s = refl
  store_step_writers Writer.idle graph s = refl
  store_step_writers locked graph s = refl
  store_step_writers (chosen current) graph s = refl
  store_step_writers (stamped current e) graph s = refl
  store_step_writers (mutated current e) graph s = refl
  store_step_writers (waiting e slot) graph s = refl

  other_writer :
      (v : ℕ) (p : Writer) (s : RcuGraph S) → (v == w) ≡ false → SameWriters s (writer_step v p s)
  unfolding writer_step
  other_writer v Writer.idle s other =
      if_rule (SameWriters s) s.write_locked (λ busy. refl) (λ free. rw other refl)
  other_writer v locked s other = rw other refl
  other_writer v (chosen current) s other = rw other refl
  other_writer v (stamped current e) s other = rw other refl
  other_writer v (mutating current e box) s other = rw other refl
  other_writer v (mutated current e) s other = rw other refl
  other_writer v (waiting e slot) s other =
      if_rule (SameWriters s) (ltb slot max_readers)
        (λ more.
          if_rule (SameWriters s) (not (s.reader_epochs slot == 0) && leb (s.reader_epochs slot) e)
            (λ held. rw other refl) (λ past. rw other refl))
        (λ done. rw other refl)

  -- The writer passes one slot.
  one_slot :
      (n : ℕ) (s : RcuGraph S)
      → OldGone epoch s
      → n < max_readers
      → (writer_step w (waiting epoch n) s).writers w ≡ waiting epoch (suc n)
  unfolding writer_step
  one_slot n s h lt =
      let more : ltb n max_readers ≡ true = ground (arith, lt) in
      let past : not (s.reader_epochs n == 0) && leb (s.reader_epochs n) epoch ≡ false =
        elim (h.slots n) [ inl free ↦ ground (arith, free) | inr late ↦ ground (arith, late) ] in
      let same : (w == w) ≡ true = ground arith in rw (more, past, same) refl

  last_slot :
      (s : RcuGraph S)
      → ((writer_step w (waiting epoch max_readers) s).writers w ≡ Writer.idle)
        × ((writer_step w (waiting epoch max_readers) s).write_locked ≡ false)
  unfolding writer_step
  last_slot s = let same : (w == w) ≡ true = ground arith in (rw same refl, refl)

  -- In the course of the moves the writer has left, and freed the lock.
  abbrev pub Leaves : List (Move S) → RcuGraph S → Type 0
  Leaves moves s =
      (before : List (Move S)) × (after : List (Move S)) × (moves ≡ before ++ after)
      × ((run before s).writers w ≡ Writer.idle)
      × ((run before s).write_locked ≡ false)

  later :
      (m : Move S) (moves : List (Move S)) (s : RcuGraph S)
      → Leaves moves (step m s)
      → Leaves (m ∷ moves) s
  unfolding run
  later m moves s (before, after, parts, left, free) =
      (m ∷ before, after, ap (λ ms. m ∷ ms) parts, left, free)

  turn_of :
      (v n : ℕ) (s : RcuGraph S)
      → (v == w) ≡ true
      → s.writers w ≡ waiting epoch n
      → step (writer v) s ≡ writer_step w (waiting epoch n) s
  unfolding step
  turn_of v n s same at =
      ap (λ u. writer_step u (s.writers u) s) ((==_iff v w).0 same) ∙ ap (λ p. writer_step w p s) at

  -- One move of a writer, with the rest of the run.
  writer_turn :
      (v : ℕ) (moves : List (Move S)) (n : ℕ) (s : RcuGraph S)
      → OldGone epoch s
      → s.writers w ≡ waiting epoch n
      → n ≤ max_readers
      → max_readers < n + turns w (writer v ∷ moves)
      → ((k : ℕ)
          → (step (writer v) s).writers w ≡ waiting epoch k
          → k ≤ max_readers
          → max_readers < k + turns w moves
          → Leaves moves (step (writer v) s))
      → Leaves (writer v ∷ moves) s
  unfolding step run
  writer_turn v moves n s h at le enough rest = elim (Bool-cases (v == w)) [
    | inr other ↦
        later (writer v) moves s
          (rest n (other_writer v (s.writers v) s other ∙ at) le (ground (arith, other, enough)))
    | inl same ↦
        let turn = turn_of v n s same at in
        elim (Bool-cases (ltb n max_readers)) [
          | inl more ↦ later (writer v) moves s (
              rest (suc n) (ap (λ t. t.writers w) turn ∙ one_slot n s h (ground (arith, more)))
                (ground (arith, more)) (ground (arith, same, enough)))
          | inr done ↦
              let last : n ≡ max_readers = ground (arith, done, le) in
              let turn' = turn ∙ ap (λ k. writer_step w (waiting epoch k) s) last in
              (
                writer v ∷ [],
                moves,
                refl,
                ap (λ t. t.writers w) turn' ∙ (last_slot s).0,
                ap (λ t. t.write_locked) turn' ∙ (last_slot s).1,
              )
        ]
  ]

  -- Once the readers from before its snapshot have left, a writer that waits leaves within as many
  -- moves of its own as slots are left, and one, in every run: whatever readers enter and leave
  -- meanwhile, and whatever other writers do. The epoch, a u64, must not come around in the run.
  pub wait_ends :
      (moves : List (Move S)) (n : ℕ) (s : RcuGraph S)
      → OldGone epoch s
      → s.global_epoch + length moves < 2 ^ 64
      → s.writers w ≡ waiting epoch n
      → n ≤ max_readers
      → max_readers < n + turns w moves
      → Leaves moves s
  unfolding step
  wait_ends [] n s h room at le enough = absurd (omega arith)
  wait_ends (reader r ∷ moves) n s h room at le enough = later (reader r) moves s (
      wait_ends moves n (step (reader r) s) (step-OldGone epoch s h (omega arith) (reader r))
        (omega (arith, epoch-step (reader r) s)) (reader_step_writers r (s.readers r) s ∙ at) le
        enough)
  wait_ends (store v graph ∷ moves) n s h room at le enough = later (store v graph) moves s (
      wait_ends moves n (step (store v graph) s)
        (step-OldGone epoch s h (omega arith) (store v graph))
        (omega (arith, epoch-step (store v graph) s))
        (store_step_writers (s.writers v) graph s ∙ at) le enough)
  wait_ends (writer v ∷ moves) n s h room at le enough =
      writer_turn v moves n s h at le enough (λ k at' le' enough'.
        wait_ends moves k (step (writer v) s) (step-OldGone epoch s h (omega arith) (writer v))
          (omega (arith, epoch-step (writer v) s)) at' le' enough')

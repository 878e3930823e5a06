-- ===== src/Rcu/Gone.antt =====
-- rcu.rs, `rcu_synchronize`: the readers from before the snapshot of a writer have left, and what one
-- step of any thread does to that.
use sotfs.Base.{
  ℕ, suc, ◌+◌, ◌<◌, ◌≤◌, ◌^◌, ◌&&◌, not, ◌≡◌, refl, sym, arith, ltb, leb, ◌==◌, if_rule, inl, inr,
  ◌⊎◌,
}
use mathlib.Core.Path.{subst}
use sotfs.Arena.{write}
use sotfs.Rcu.{
  RcuGraph, Reader, scanning, registered, indexed, reading, panicked, Writer, locked, chosen,
  stamped, mutating, mutated, waiting, Move, reader, writer, store, reader_step, writer_step,
  store_step, step, max_readers, next_epoch,
}

-- A thread that is about to write its epoch into a slot has a later one than the snapshot.
abbrev pub LateReader : ℕ → Reader → Type 0
LateReader epoch Reader.idle = Unit
LateReader epoch (scanning e slot) = epoch < e
LateReader epoch (registered slot) = Unit
LateReader epoch (indexed slot index) = Unit
LateReader epoch (reading slot index box) = Unit
LateReader epoch panicked = Unit

module _ {S : Type 0} (epoch : ℕ) where
  -- The readers from before the snapshot have left: no slot has an epoch up to it, no reader is about
  -- to write one, and the epochs to come are later.
  pub record OldGone (s : RcuGraph S) : Type 0 where
    pub slots : (k : ℕ) → (s.reader_epochs k ≡ 0) ⊎ (epoch < s.reader_epochs k)
    pub readers : (r : ℕ) → LateReader epoch (s.readers r)
    pub counter : epoch ≤ s.global_epoch

  still :
      (s s' : RcuGraph S)
      → s'.reader_epochs ≡ s.reader_epochs
      → s'.readers ≡ s.readers
      → s'.global_epoch ≡ s.global_epoch
      → OldGone s
      → OldGone s'
  still s s' epochs readers counter h = record {
    slots = λ k. subst (λ f. (f k ≡ 0) ⊎ (epoch < f k)) (sym epochs) (h.slots k);
    readers = λ r. subst (λ f. LateReader epoch (f r)) (sym readers) (h.readers r);
    counter = omega (arith, counter, h.counter);
  }

  -- One reader moves, and may write one slot.
  moved :
      (r k e : ℕ) (p : Reader) (s s' : RcuGraph S)
      → s'.readers ≡ write s.readers r p
      → s'.reader_epochs ≡ write s.reader_epochs k e
      → (e ≡ 0) ⊎ (epoch < e)
      → LateReader epoch p
      → s.global_epoch ≤ s'.global_epoch
      → OldGone s
      → OldGone s'
  moved r k e p s s' place epochs late here le h = record {
    slots = λ j.
        subst (λ f. (f j ≡ 0) ⊎ (epoch < f j)) (sym epochs)
          (if_rule (λ x. (x ≡ 0) ⊎ (epoch < x)) (k == j) (λ same. late) (λ other. h.slots j));
    readers = λ q.
        subst (λ f. LateReader epoch (f q)) (sym place)
          (if_rule (LateReader epoch) (r == q) (λ same. here) (λ other. h.readers q));
    counter = omega (arith, le, h.counter);
  }

  -- One reader moves, and writes no slot.
  placed :
      (r : ℕ) (p : Reader) (s s' : RcuGraph S)
      → s'.readers ≡ write s.readers r p
      → s'.reader_epochs ≡ s.reader_epochs
      → LateReader epoch p
      → s.global_epoch ≤ s'.global_epoch
      → OldGone s
      → OldGone s'
  placed r p s s' place epochs here le h = record {
    slots = λ j. subst (λ f. (f j ≡ 0) ⊎ (epoch < f j)) (sym epochs) (h.slots j);
    readers = λ q.
        subst (λ f. LateReader epoch (f q)) (sym place)
          (if_rule (LateReader epoch) (r == q) (λ same. here) (λ other. h.readers q));
    counter = omega (arith, le, h.counter);
  }

  module _ (s : RcuGraph S) (h : OldGone s) (room : s.global_epoch + 1 < 2 ^ 64) where
    reader_step-OldGone : (r : ℕ) (p : Reader) → LateReader epoch p → OldGone (reader_step r p s)
    unfolding reader_step
    reader_step-OldGone r Reader.idle here =
        placed r (scanning (next_epoch s.global_epoch) 0) s _ refl refl
          (omega (arith, h.counter, room)) (omega (arith, room)) h
    reader_step-OldGone r (scanning e slot) here =
        if_rule OldGone (ltb slot max_readers)
          (λ more.
            if_rule OldGone (s.reader_epochs slot == 0)
              (λ free. moved r slot e (registered slot) s _ refl refl (inr here) tt (omega arith) h)
              (λ busy. placed r (scanning e (suc slot)) s _ refl refl here (omega arith) h))
          (λ full. placed r panicked s _ refl refl tt (omega arith) h)
    reader_step-OldGone r (registered slot) here =
        placed r (indexed slot s.active) s _ refl refl tt (omega arith) h
    reader_step-OldGone r (indexed slot index) here =
        placed r (reading slot index (s.graphs index)) s _ refl refl tt (omega arith) h
    reader_step-OldGone r (reading slot index box) here =
        moved r slot 0 Reader.idle s _ refl refl (inl refl) tt (omega arith) h
    reader_step-OldGone r panicked here = h

    writer_step-OldGone : (v : ℕ) (p : Writer) → OldGone (writer_step v p s)
    unfolding writer_step
    writer_step-OldGone v Writer.idle =
        if_rule OldGone s.write_locked (λ busy. h) (λ free. still s _ refl refl refl h)
    writer_step-OldGone v locked = still s _ refl refl refl h
    writer_step-OldGone v (chosen current) = still s _ refl refl refl h
    writer_step-OldGone v (stamped current e) = still s _ refl refl refl h
    writer_step-OldGone v (mutating current e box) = still s _ refl refl refl h
    writer_step-OldGone v (mutated current e) = still s _ refl refl refl h
    writer_step-OldGone v (waiting e slot) =
        if_rule OldGone (ltb slot max_readers)
          (λ more.
            if_rule OldGone (not (s.reader_epochs slot == 0) && leb (s.reader_epochs slot) e)
              (λ held. still s _ refl refl refl h) (λ past. still s _ refl refl refl h))
          (λ done. still s _ refl refl refl h)

    store_step-OldGone : (p : Writer) (graph : S) → OldGone (store_step p graph s)
    unfolding store_step
    store_step-OldGone (mutating current e box) graph = still s _ refl refl refl h
    store_step-OldGone Writer.idle graph = h
    store_step-OldGone locked graph = h
    store_step-OldGone (chosen current) graph = h
    store_step-OldGone (stamped current e) graph = h
    store_step-OldGone (mutated current e) graph = h
    store_step-OldGone (waiting e slot) graph = h

    pub step-OldGone : (m : Move S) → OldGone (step m s)
    unfolding step
    step-OldGone (reader r) = reader_step-OldGone r (s.readers r) (h.readers r)
    step-OldGone (writer v) = writer_step-OldGone v (s.writers v)
    step-OldGone (store v graph) = store_step-OldGone (s.writers v) graph

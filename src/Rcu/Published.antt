-- ===== src/Rcu/Published.antt =====
-- rcu.rs: the box of the active graph, and the references that the closures of writers have.
use sotfs.Base.{
  ℕ, zero, suc, ◌-◌, ◌<◌, ◌≤◌, Bool, false, ◌&&◌, not, List, [], ◌∷◌, ◌≡◌, refl, sym, ap, ◌∙◌,
  arith, ltb, leb, ◌==◌, ==_iff, Bool-cases, if_rule, inl, inr,
}
use sotfs.Arena.{write}
use sotfs.Rcu.{
  RcuGraph, Reader, scanning, registered, indexed, reading, panicked, Writer, locked, chosen,
  stamped, mutating, mutated, waiting, Move, reader, writer, store, reader_step, writer_step,
  store_step, step, run, from_graph, max_readers,
}
use sotfs.Rcu.Writers.{IsSafe, Knows, start-IsSafe, run-IsSafe}

-- The closure of the writer has a reference to the box.
abbrev changes : ℕ → Writer → Bool
changes b Writer.idle = false
changes b locked = false
changes b (chosen current) = false
changes b (stamped current epoch) = false
changes b (mutating current epoch box) = box == b
changes b (mutated current epoch) = false
changes b (waiting epoch slot) = false

module _ {S : Type 0} (b : ℕ) where
  -- The box is there, and no writer has a reference to it.
  pub record IsComplete (s : RcuGraph S) : Type 0 where
    pub there : b < s.next_box
    pub left : (w : ℕ) → changes b (s.writers w) ≡ false

  -- A step that keeps the box as it is.
  pub record Keeps (s s' : RcuGraph S) : Type 0 where
    pub same : s'.heap b ≡ s.heap b
    pub complete : IsComplete s'

  moved-Keeps :
      (w : ℕ) (p : Writer) (s s' : RcuGraph S)
      → IsComplete s
      → s'.writers ≡ write s.writers w p
      → changes b p ≡ false
      → s.next_box ≤ s'.next_box
      → s'.heap b ≡ s.heap b
      → Keeps s s'
  moved-Keeps w p s s' h place out grows same = record {
    same = same;
    complete = record {
      there = omega (arith, h.there);
      left = λ v. ap (λ f. changes b (f v)) place ∙ ground (arith, out, h.left v);
    };
  }

  still-Keeps :
      (s s' : RcuGraph S)
      → IsComplete s
      → s'.writers ≡ s.writers
      → s'.next_box ≡ s.next_box
      → s'.heap b ≡ s.heap b
      → Keeps s s'
  still-Keeps s s' h writers next_box same = record {
    same = same;
    complete = record {
      there = omega (arith, h.there, next_box);
      left = λ v. ap (λ f. changes b (f v)) writers ∙ h.left v;
    };
  }

  module _ (s : RcuGraph S) (h : IsComplete s) where
    writer_step-Keeps : (w : ℕ) (p : Writer) → Keeps s (writer_step w p s)
    unfolding writer_step
    writer_step-Keeps w Writer.idle =
        if_rule (Keeps s) s.write_locked (λ busy. still-Keeps s s h refl refl refl)
          (λ free. moved-Keeps w locked s _ h refl refl (omega arith) refl)
    writer_step-Keeps w locked = moved-Keeps w (chosen s.active) s _ h refl refl (omega arith) refl
    writer_step-Keeps w (chosen current) =
        moved-Keeps w (stamped current s.global_epoch) s _ h refl refl (omega arith) refl
    writer_step-Keeps w (stamped current epoch) =
        moved-Keeps w (mutating current epoch s.next_box) s _ h refl (ground (arith, h.there))
          (omega arith) (ground (arith, h.there))
    writer_step-Keeps w (mutating current epoch box) =
        moved-Keeps w (mutated current epoch) s _ h refl refl (omega arith) refl
    writer_step-Keeps w (mutated current epoch) =
        moved-Keeps w (waiting epoch 0) s _ h refl refl (omega arith) refl
    writer_step-Keeps w (waiting epoch slot) =
        if_rule (Keeps s) (ltb slot max_readers)
          (λ more.
            if_rule (Keeps s) (not (s.reader_epochs slot == 0) && leb (s.reader_epochs slot) epoch)
              (λ held. moved-Keeps w (waiting epoch 0) s _ h refl refl (omega arith) refl)
              (λ past. moved-Keeps w (waiting epoch (suc slot)) s _ h refl refl (omega arith) refl))
          (λ done. moved-Keeps w Writer.idle s _ h refl refl (omega arith) refl)

    reader_step-Keeps : (r : ℕ) (p : Reader) → Keeps s (reader_step r p s)
    unfolding reader_step
    reader_step-Keeps r Reader.idle = still-Keeps s _ h refl refl refl
    reader_step-Keeps r (scanning epoch slot) =
        if_rule (Keeps s) (ltb slot max_readers)
          (λ more.
            if_rule (Keeps s) (s.reader_epochs slot == 0) (λ free. still-Keeps s _ h refl refl refl)
              (λ busy. still-Keeps s _ h refl refl refl))
          (λ full. still-Keeps s _ h refl refl refl)
    reader_step-Keeps r (registered slot) = still-Keeps s _ h refl refl refl
    reader_step-Keeps r (indexed slot index) = still-Keeps s _ h refl refl refl
    reader_step-Keeps r (reading slot index box) = still-Keeps s _ h refl refl refl
    reader_step-Keeps r panicked = still-Keeps s s h refl refl refl

    store_step-Keeps :
        (p : Writer) (graph : S) → changes b p ≡ false → Keeps s (store_step p graph s)
    unfolding store_step
    store_step-Keeps Writer.idle graph out = still-Keeps s s h refl refl refl
    store_step-Keeps locked graph out = still-Keeps s s h refl refl refl
    store_step-Keeps (chosen current) graph out = still-Keeps s s h refl refl refl
    store_step-Keeps (stamped current epoch) graph out = still-Keeps s s h refl refl refl
    store_step-Keeps (mutating current epoch box) graph out =
        still-Keeps s _ h refl refl (ground (arith, out))
    store_step-Keeps (mutated current epoch) graph out = still-Keeps s s h refl refl refl
    store_step-Keeps (waiting epoch slot) graph out = still-Keeps s s h refl refl refl

    step-Keeps : (m : Move S) → Keeps s (step m s)
    unfolding step
    step-Keeps (reader r) = reader_step-Keeps r (s.readers r)
    step-Keeps (writer w) = writer_step-Keeps w (s.writers w)
    step-Keeps (store w graph) = store_step-Keeps (s.writers w) graph (h.left w)

  pub run-Keeps :
      (moves : List (Move S)) (s : RcuGraph S) → IsComplete s → (run moves s).heap b ≡ s.heap b
  unfolding run
  run-Keeps [] s h = refl
  run-Keeps (m ∷ moves) s h =
      let k = step-Keeps s h m in run-Keeps moves (step m s) k.complete ∙ k.same

both_sides : (f : ℕ → ℕ) (a : ℕ) → a ≤ 1 → f (1 - a) ≡ f a → f 0 ≡ f 1
both_sides f zero le same = sym same
both_sides f (suc zero) le same = same
both_sides f (suc (suc a)) le same = absurd (omega arith)

module _ {S : Type 0} where
  unchanging :
      (s : RcuGraph S) (p : Writer) → IsSafe s → Knows p s → changes (s.graphs s.active) p ≡ false
  unchanging s (mutating current epoch box) h k = elim (Bool-cases (box == s.graphs s.active)) [
    | inr other ↦ other
    | inl same ↦
        let (active, other) = k in
        absurd (
          h.apart (
            both_sides s.graphs s.active h.two
              (ap (λ i. s.graphs (1 - i)) (sym active) ∙ sym other ∙ (==_iff box _).0 same)))
  ]
  unchanging s Writer.idle h k = refl
  unchanging s locked h k = refl
  unchanging s (chosen current) h k = refl
  unchanging s (stamped current epoch) h k = refl
  unchanging s (mutated current epoch) h k = refl
  unchanging s (waiting epoch slot) h k = refl

  active-IsComplete : (s : RcuGraph S) → IsSafe s → IsComplete (s.graphs s.active) s
  active-IsComplete s h = record {
    there = ground (arith, h.boxes, h.two);
    left = λ w. unchanging s (s.writers w) h (h.known w);
  }

  -- The graph that is active at some time is complete, and stays as it is under all later moves, of
  -- readers and of writers: a reader that takes its reference to it then sees it unchanged.
  pub active_graph_stable :
      (graph : S) (before after : List (Move S))
      → let s = run before (from_graph graph) in
        (run after s).heap (s.graphs s.active) ≡ s.heap (s.graphs s.active)
  active_graph_stable graph before after =
      let s = run before (from_graph graph) in
      let h = run-IsSafe before (from_graph graph) (start-IsSafe graph) in
      run-Keeps (s.graphs s.active) after s (active-IsComplete s h)

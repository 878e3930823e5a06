-- ===== src/Rcu/Readers/Grace.antt =====
-- rcu.rs, `rcu_synchronize`: the readers and the wait of a writer, over whole runs.
use sotfs.Base.{
  ℕ, suc, ◌+◌, ◌-◌, ◌^◌, ◌<◌, ◌≤◌, false, ◌&&◌, not, some, List, [], ◌∷◌, ◌≡◌, refl, sym, ap, ◌∙◌,
  arith, ltb, leb, ◌==◌, ==_iff, length, Bool-cases, if_rule, inl, inr,
}
use mathlib.Core.Path.{subst, subst₂}
use sotfs.Arena.{write}
use sotfs.Rcu.{
  RcuGraph, Reader, scanning, registered, indexed, reading, panicked, Writer, locked, chosen,
  stamped, mutating, mutated, waiting, Move, reader, writer, store, reader_step, writer_step,
  store_step, step, run, from_graph, max_readers, set_writer,
}
use sotfs.Rcu.Writers.{IsSafe, inside, others_out, start-IsSafe, step-IsSafe}
use sotfs.Rcu.Readers.{
  slot_of, Scans, Fresh, Passed, IsSeated, start-IsSeated, Fresh-congr, Passed-congr,
  reader_step-IsSeated,
}

module _ {S : Type 0} where
  -- One writer moves.
  turned-IsSeated :
      (w : ℕ) (p : Writer) (s s' : RcuGraph S)
      → IsSeated s
      → s'.writers ≡ write s.writers w p
      → s'.readers ≡ s.readers
      → s'.reader_epochs ≡ s.reader_epochs
      → ((r : ℕ) → Passed p s' (s.readers r))
      → ((v r : ℕ) → (w == v) ≡ false → Passed (s.writers v) s' (s.readers r))
      → IsSeated s'
  turned-IsSeated w p s s' h place readers epochs this others =
      let at = λ (r : ℕ). ap (λ f. f r) readers in
      record {
        held = λ r k has. ap (λ f. f k == 0) epochs ∙ h.held r k (sym (ap slot_of (at r)) ∙ has);
        own = λ r q k other has there.
            h.own r q k other (sym (ap slot_of (at r)) ∙ has) (sym (ap slot_of (at q)) ∙ there);
        scans = λ r. subst Scans (sym (at r)) (h.scans r);
        passed = λ v r.
            subst₂ (λ x y. Passed x s' y) (sym (ap (λ f. f v) place)) (sym (at r))
              (if_rule (λ x. Passed x s' (s.readers r)) (w == v) (λ same. this r)
                (λ other. others v r other));
      }

  outside_Passed : (q : Writer) (s : RcuGraph S) (p : Reader) → inside q ≡ false → Passed q s p
  outside_Passed Writer.idle s p out = tt
  outside_Passed locked s p out = tt
  outside_Passed (chosen current) s p out = tt
  outside_Passed (stamped current epoch) s p out = tt
  outside_Passed (mutating current epoch box) s p out = tt
  outside_Passed (mutated current epoch) s p out = tt
  outside_Passed (waiting epoch slot) s p out = absurd (cc)

  -- A writer that starts to wait has passed no slot.
  none_passed : (epoch : ℕ) (s : RcuGraph S) (p : Reader) → Fresh epoch 0 s p
  none_passed epoch s Reader.idle = tt
  none_passed epoch s (scanning e slot) = tt
  none_passed epoch s (registered slot) = tt
  none_passed epoch s (indexed slot index) = λ lt le. absurd (omega arith)
  none_passed epoch s (reading slot index box) = λ lt le. absurd (omega arith)
  none_passed epoch s panicked = tt

  within :
      (epoch n : ℕ) (s : RcuGraph S) (slot : ℕ) {index : ℕ}
      → (s.reader_epochs slot == 0) ≡ false
      → (not (s.reader_epochs n == 0) && leb (s.reader_epochs n) epoch) ≡ false
      → slot < suc n
      → s.reader_epochs slot ≤ epoch
      → (slot < n → s.reader_epochs slot ≤ epoch → index ≡ s.active)
      → index ≡ s.active
  within epoch n s slot held past lt le f = elim (Bool-cases (slot == n)) [
    | inl same ↦
        let e = ap s.reader_epochs ((==_iff slot n).0 same) in
        absurd (ground (arith, held, past, e, le))
    | inr other ↦ f (ground (arith, other)) le
  ]

  -- One more slot has been passed.
  one_passed :
      (epoch n : ℕ) (s : RcuGraph S) (p : Reader)
      → ((k : ℕ) → slot_of p ≡ some k → (s.reader_epochs k == 0) ≡ false)
      → (not (s.reader_epochs n == 0) && leb (s.reader_epochs n) epoch) ≡ false
      → Fresh epoch n s p
      → Fresh epoch (suc n) s p
  one_passed epoch n s Reader.idle held past f = tt
  one_passed epoch n s (scanning e slot) held past f = tt
  one_passed epoch n s (registered slot) held past f = tt
  one_passed epoch n s (indexed slot index) held past f =
      λ lt le. within epoch n s slot (held slot refl) past lt le f
  one_passed epoch n s (reading slot index box) held past f =
      λ lt le. within epoch n s slot (held slot refl) past lt le f
  one_passed epoch n s panicked held past f = tt

  module _ (w : ℕ) (s : RcuGraph S) (safe : IsSafe s) (h : IsSeated s) where
    turn :
        (p : Writer) (s' : RcuGraph S)
        → s'.writers ≡ write s.writers w p
        → s'.readers ≡ s.readers
        → s'.reader_epochs ≡ s.reader_epochs
        → s'.active ≡ s.active
        → ((r : ℕ) → Passed p s' (s.readers r))
        → IsSeated s'
    turn p s' place readers epochs active this =
        turned-IsSeated w p s s' h place readers epochs this (λ v r other.
          Passed-congr (s.writers v) s s' (s.readers r) active (λ k has. ap (λ f. f k) epochs)
            (h.passed v r))

    writer_step-IsSeated : (p : Writer) → s.writers w ≡ p → IsSeated (writer_step w p s)
    unfolding writer_step
    writer_step-IsSeated Writer.idle at =
        if_rule IsSeated s.write_locked (λ busy. h)
          (λ free. turn locked _ refl refl refl refl (λ r. tt))
    writer_step-IsSeated locked at = turn (chosen s.active) _ refl refl refl refl (λ r. tt)
    writer_step-IsSeated (chosen current) at =
        turn (stamped current s.global_epoch) _ refl refl refl refl (λ r. tt)
    writer_step-IsSeated (stamped current epoch) at =
        turn (mutating current epoch s.next_box) _ refl refl refl refl (λ r. tt)
    writer_step-IsSeated (mutating current epoch box) at =
        turn (mutated current epoch) _ refl refl refl refl (λ r. tt)
    writer_step-IsSeated (mutated current epoch) at =
        turned-IsSeated w (waiting epoch 0) s _ h refl refl refl
          (λ r.
            none_passed epoch (set_writer w (waiting epoch 0) (record s { active = 1 - current }))
              (s.readers r))
          (λ v r other.
            outside_Passed (s.writers v) _ (s.readers r)
              (others_out w s safe (ap inside at) v other))
    writer_step-IsSeated (waiting epoch slot) at =
        if_rule IsSeated (ltb slot max_readers)
          (λ more.
            if_rule IsSeated (not (s.reader_epochs slot == 0) && leb (s.reader_epochs slot) epoch)
              (λ again.
                turn (waiting epoch 0) _ refl refl refl refl
                  (λ r. none_passed epoch (set_writer w (waiting epoch 0) s) (s.readers r)))
              (λ past. turn (waiting epoch (suc slot)) _ refl refl refl refl (λ r.
                Fresh-congr epoch (suc slot) s (set_writer w (waiting epoch (suc slot)) s)
                  (s.readers r) refl (λ k has. refl)
                  (one_passed epoch slot s (s.readers r) (h.held r) past
                    (subst (λ x. Passed x s (s.readers r)) at (h.passed w r))))))
          (λ done. turn Writer.idle _ refl refl refl refl (λ r. tt))

    store_step-IsSeated : (p : Writer) (graph : S) → IsSeated (store_step p graph s)
    unfolding store_step
    store_step-IsSeated Writer.idle graph = h
    store_step-IsSeated locked graph = h
    store_step-IsSeated (chosen current) graph = h
    store_step-IsSeated (stamped current epoch) graph = h
    store_step-IsSeated (mutating current epoch box) graph = record {
      held = h.held;
      own = h.own;
      scans = h.scans;
      passed =
          λ v r. Passed-congr (s.writers v) s _ (s.readers r) refl (λ k has. refl) (h.passed v r);
    }
    store_step-IsSeated (mutated current epoch) graph = h
    store_step-IsSeated (waiting epoch slot) graph = h

  step-IsSeated :
      (m : Move S) (s : RcuGraph S)
      → IsSafe s
      → IsSeated s
      → s.global_epoch + 1 < 2 ^ 64
      → IsSeated (step m s)
  unfolding step
  step-IsSeated (reader r) s safe h room = reader_step-IsSeated r s h room (s.readers r) refl
  step-IsSeated (writer w) s safe h room = writer_step-IsSeated w s safe h (s.writers w) refl
  step-IsSeated (store w graph) s safe h room = store_step-IsSeated w s safe h (s.writers w) graph

  epoch-reader_step :
      (r : ℕ) (p : Reader) (s : RcuGraph S) → (reader_step r p s).global_epoch ≤ s.global_epoch + 1
  unfolding reader_step
  epoch-reader_step r Reader.idle s = omega arith
  epoch-reader_step r (scanning epoch slot) s = ground arith
  epoch-reader_step r (registered slot) s = omega arith
  epoch-reader_step r (indexed slot index) s = omega arith
  epoch-reader_step r (reading slot index box) s = omega arith
  epoch-reader_step r panicked s = omega arith

  epoch-writer_step :
      (w : ℕ) (p : Writer) (s : RcuGraph S) → (writer_step w p s).global_epoch ≤ s.global_epoch + 1
  unfolding writer_step
  epoch-writer_step w Writer.idle s = ground arith
  epoch-writer_step w (waiting epoch slot) s = ground arith
  epoch-writer_step w _ s = omega arith

  epoch-store_step :
      (p : Writer) (graph : S) (s : RcuGraph S)
      → (store_step p graph s).global_epoch ≤ s.global_epoch + 1
  unfolding store_step
  epoch-store_step (mutating current epoch box) graph s = omega arith
  epoch-store_step _ graph s = omega arith

  -- A move counts the epoch up by one at most.
  pub epoch-step : (m : Move S) (s : RcuGraph S) → (step m s).global_epoch ≤ s.global_epoch + 1
  unfolding step
  epoch-step (reader r) s = epoch-reader_step r (s.readers r) s
  epoch-step (writer w) s = epoch-writer_step w (s.writers w) s
  epoch-step (store w graph) s = epoch-store_step (s.writers w) graph s

  run-IsSeated :
      (moves : List (Move S)) (s : RcuGraph S)
      → IsSafe s
      → IsSeated s
      → s.global_epoch + length moves < 2 ^ 64
      → IsSeated (run moves s)
  unfolding run
  run-IsSeated [] s safe h room = h
  run-IsSeated (m ∷ moves) s safe h room =
      run-IsSeated moves (step m s) (step-IsSafe m s safe) (step-IsSeated m s safe h (omega arith))
        (omega (arith, epoch-step m s))

  -- When a writer has passed all slots, each reader that entered at or before the snapshot of the
  -- epoch and is still reading has the index that the writer has made active: none is left in the
  -- old copy. The epoch, a u64, must not have come around.
  pub grace_period :
      (graph : S) (moves : List (Move S)) (w r epoch slot index box : ℕ)
      → length moves + 1 < 2 ^ 64
      → let s = run moves (from_graph graph) in
        s.writers w ≡ waiting epoch max_readers
        → s.readers r ≡ reading slot index box
        → slot < max_readers
        → s.reader_epochs slot ≤ epoch
        → index ≡ s.active
  unfolding from_graph
  grace_period graph moves w r epoch slot index box room done here lt le =
      let s = run moves (from_graph graph) in
      let h =
        run-IsSeated moves (from_graph graph) (start-IsSafe graph) (start-IsSeated graph)
          (omega arith) in
      (subst₂ (λ q p. Passed q s p) done here (h.passed w r)) lt le

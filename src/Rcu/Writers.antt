-- ===== src/Rcu/Writers.antt =====
-- rcu.rs: the lock of the writers, and what a writer knows at each of its places.
use sotfs.Base.{
  ℕ, suc, ◌-◌, ◌<◌, ◌≤◌, Bool, true, false, ◌&&◌, not, List, [], ◌∷◌, ◌≡◌, ◌≢◌, refl, sym, ap, ◌∙◌,
  arith, ltb, leb, ◌==◌, ==_iff, if◌then◌else◌, Bool-cases, if_rule, inl, inr,
}
use mathlib.Core.Path.{subst}
use sotfs.Arena.{write}
use sotfs.Rcu.{
  RcuGraph, Reader, scanning, registered, indexed, reading, panicked, Writer, locked, chosen,
  stamped, mutating, mutated, waiting, Move, reader, writer, store, reader_step, writer_step,
  store_step, step, run, from_graph, max_readers,
}

-- Between the acquisition of the lock and its release.
abbrev pub inside : Writer → Bool
inside Writer.idle = false
inside locked = true
inside (chosen current) = true
inside (stamped current epoch) = true
inside (mutating current epoch box) = true
inside (mutated current epoch) = true
inside (waiting epoch slot) = true

module _ {S : Type 0} where
  -- What a writer knows at its place: before the swap its `current` is the active copy, and the box
  -- that it changes is the other copy.
  abbrev pub Knows : Writer → RcuGraph S → Type 0
  Knows Writer.idle s = Unit
  Knows locked s = Unit
  Knows (chosen current) s = current ≡ s.active
  Knows (stamped current epoch) s = current ≡ s.active
  Knows (mutating current epoch box) s = (current ≡ s.active) × (box ≡ s.graphs (1 - current))
  Knows (mutated current epoch) s = current ≡ s.active
  Knows (waiting epoch slot) s = Unit

  pub record IsSafe (s : RcuGraph S) : Type 0 where
    pub two : s.active ≤ 1
    pub boxes : (s.graphs 0 < s.next_box) × (s.graphs 1 < s.next_box)
    pub apart : s.graphs 0 ≢ s.graphs 1
    pub known : (w : ℕ) → Knows (s.writers w) s
    pub alone :
        (v w : ℕ) → inside (s.writers v) ≡ true → inside (s.writers w) ≡ true → (v == w) ≡ true
    pub holder : (w : ℕ) → inside (s.writers w) ≡ true → s.write_locked ≡ true

  outside-Knows : (p : Writer) (s : RcuGraph S) → inside p ≡ false → Knows p s
  outside-Knows Writer.idle s h = tt
  outside-Knows locked s h = absurd (cc)
  outside-Knows (chosen current) s h = absurd (cc)
  outside-Knows (stamped current epoch) s h = absurd (cc)
  outside-Knows (mutating current epoch box) s h = absurd (cc)
  outside-Knows (mutated current epoch) s h = absurd (cc)
  outside-Knows (waiting epoch slot) s h = absurd (cc)

  pub start-IsSafe : (graph : S) → IsSafe (from_graph graph)
  unfolding from_graph
  start-IsSafe graph = record {
    two = omega arith;
    boxes = (omega arith, omega arith);
    apart = λ e. absurd (omega (arith, e));
    known = λ w. tt;
    alone = λ v w p q. absurd (cc);
    holder = λ w p. absurd (cc);
  }

  -- One writer moves while the others are outside.
  moved-IsSafe :
      (w : ℕ) (p : Writer) (s s' : RcuGraph S)
      → s'.writers ≡ write s.writers w p
      → ((v : ℕ) → (w == v) ≡ false → inside (s.writers v) ≡ false)
      → Knows p s'
      → (inside p ≡ true → s'.write_locked ≡ true)
      → s'.active ≤ 1
      → (s'.graphs 0 < s'.next_box) × (s'.graphs 1 < s'.next_box)
      → s'.graphs 0 ≢ s'.graphs 1
      → IsSafe s'
  moved-IsSafe w p s s' place others knows holds two boxes apart =
      let at = λ (v : ℕ). ap (λ f. f v) place in
      record {
        two = two;
        boxes = boxes;
        apart = apart;
        known = λ v. elim (Bool-cases (w == v)) [
          | inl same ↦
              subst (λ q. Knows q s') (sym (at v ∙ ap (λ b. if b then p else s.writers v) same))
                knows
          | inr other ↦
              subst (λ q. Knows q s') (sym (at v ∙ ap (λ b. if b then p else s.writers v) other))
                (outside-Knows _ s' (others v other))
        ];
        alone = λ u v here there.
            ground (arith, ap inside (at u), ap inside (at v), others u, others v);
        holder = λ v here. ground (arith, ap inside (at v), others v, holds);
      }

  module _ (w : ℕ) (s : RcuGraph S) (h : IsSafe s) where
    pub others_out :
        inside (s.writers w) ≡ true → (v : ℕ) → (w == v) ≡ false → inside (s.writers v) ≡ false
    others_out here v other = elim (Bool-cases (inside (s.writers v))) [
      | inl there ↦ absurd (ground (arith, h.alone w v here there))
      | inr out ↦ out
    ]

    all_out : s.write_locked ≡ false → (v : ℕ) → inside (s.writers v) ≡ false
    all_out free v = elim (Bool-cases (inside (s.writers v))) [
      | inl there ↦ absurd (ground (arith, h.holder v there))
      | inr out ↦ out
    ]

    writer_step-IsSafe : (p : Writer) → s.writers w ≡ p → IsSafe (writer_step w p s)
    unfolding writer_step
    writer_step-IsSafe Writer.idle at =
        if_rule IsSafe s.write_locked (λ busy. h)
          λ free.
            moved-IsSafe w locked s _ refl (λ v other. all_out free v) tt (λ b. refl) h.two h.boxes
              h.apart
    writer_step-IsSafe locked at =
        moved-IsSafe w (chosen s.active) s _ refl (others_out (ap inside at)) refl
          (λ b. h.holder w (ap inside at)) h.two h.boxes h.apart
    writer_step-IsSafe (chosen current) at =
        moved-IsSafe w (stamped current s.global_epoch) s _ refl (others_out (ap inside at))
          (subst (λ q. Knows q s) at (h.known w)) (λ b. h.holder w (ap inside at)) h.two h.boxes
          h.apart
    writer_step-IsSafe (stamped current epoch) at =
        let active : current ≡ s.active = subst (λ q. Knows q s) at (h.known w) in
        moved-IsSafe w (mutating current epoch s.next_box) s _ refl (others_out (ap inside at))
          (active, ground arith) (λ b. h.holder w (ap inside at)) h.two
          (ground (arith, h.boxes), ground (arith, h.boxes))
          (λ e. absurd (ground (arith, e, h.two, h.boxes)))
    writer_step-IsSafe (mutating current epoch box) at =
        let (active, other) = subst (λ q. Knows q s) at (h.known w) in
        moved-IsSafe w (mutated current epoch) s _ refl (others_out (ap inside at)) active
          (λ b. h.holder w (ap inside at)) h.two h.boxes h.apart
    writer_step-IsSafe (mutated current epoch) at =
        moved-IsSafe w (waiting epoch 0) s _ refl (others_out (ap inside at)) tt
          (λ b. h.holder w (ap inside at)) (omega arith) h.boxes h.apart
    writer_step-IsSafe (waiting epoch slot) at =
        if_rule IsSafe (ltb slot max_readers)
          (λ more.
            if_rule IsSafe (not (s.reader_epochs slot == 0) && leb (s.reader_epochs slot) epoch)
              (λ held.
                moved-IsSafe w (waiting epoch 0) s _ refl (others_out (ap inside at)) tt
                  (λ b. h.holder w (ap inside at)) h.two h.boxes h.apart)
              (λ past.
                moved-IsSafe w (waiting epoch (suc slot)) s _ refl (others_out (ap inside at)) tt
                  (λ b. h.holder w (ap inside at)) h.two h.boxes h.apart))
          λ done.
            moved-IsSafe w Writer.idle s _ refl (others_out (ap inside at)) tt (λ b. absurd (cc))
              h.two h.boxes h.apart

  Knows-congr :
      (p : Writer) (s s' : RcuGraph S)
      → s'.active ≡ s.active
      → s'.graphs ≡ s.graphs
      → Knows p s
      → Knows p s'
  Knows-congr Writer.idle s s' active graphs k = tt
  Knows-congr locked s s' active graphs k = tt
  Knows-congr (chosen current) s s' active graphs k = k ∙ sym active
  Knows-congr (stamped current epoch) s s' active graphs k = k ∙ sym active
  Knows-congr (mutating current epoch box) s s' active graphs k =
      (k.0 ∙ sym active, k.1 ∙ sym (ap (λ f. f (1 - current)) graphs))
  Knows-congr (mutated current epoch) s s' active graphs k = k ∙ sym active
  Knows-congr (waiting epoch slot) s s' active graphs k = tt

  -- A move of a reader, or a write through a writer's reference.
  same-IsSafe :
      (s s' : RcuGraph S)
      → s'.writers ≡ s.writers
      → s'.active ≡ s.active
      → s'.graphs ≡ s.graphs
      → s'.next_box ≡ s.next_box
      → s'.write_locked ≡ s.write_locked
      → IsSafe s
      → IsSafe s'
  same-IsSafe s s' writers active graphs next_box write_locked h =
      let at = λ (w : ℕ). ap (λ f. f w) writers in
      let graph = λ (i : ℕ). ap (λ f. f i) graphs in
      record {
        two = omega (arith, active, h.two);
        boxes =
            (omega (arith, graph 0, next_box, h.boxes), omega (arith, graph 1, next_box, h.boxes));
        apart = λ e. h.apart (omega (arith, e, graph 0, graph 1));
        known = λ w.
            subst (λ p. Knows p s') (sym (at w)) (Knows-congr _ s s' active graphs (h.known w));
        alone = λ v w here there.
            h.alone v w (sym (ap inside (at v)) ∙ here) (sym (ap inside (at w)) ∙ there);
        holder = λ w here. write_locked ∙ h.holder w (sym (ap inside (at w)) ∙ here);
      }

  reader_step-IsSafe : (r : ℕ) (p : Reader) (s : RcuGraph S) → IsSafe s → IsSafe (reader_step r p s)
  unfolding reader_step
  reader_step-IsSafe r Reader.idle s h = same-IsSafe s _ refl refl refl refl refl h
  reader_step-IsSafe r (scanning epoch slot) s h =
      if_rule IsSafe (ltb slot max_readers)
        (λ more.
          if_rule IsSafe (s.reader_epochs slot == 0)
            (λ free. same-IsSafe s _ refl refl refl refl refl h)
            (λ busy. same-IsSafe s _ refl refl refl refl refl h))
        (λ full. same-IsSafe s _ refl refl refl refl refl h)
  reader_step-IsSafe r (registered slot) s h = same-IsSafe s _ refl refl refl refl refl h
  reader_step-IsSafe r (indexed slot index) s h = same-IsSafe s _ refl refl refl refl refl h
  reader_step-IsSafe r (reading slot index box) s h = same-IsSafe s _ refl refl refl refl refl h
  reader_step-IsSafe r panicked s h = h

  store_step-IsSafe :
      (p : Writer) (graph : S) (s : RcuGraph S) → IsSafe s → IsSafe (store_step p graph s)
  unfolding store_step
  store_step-IsSafe Writer.idle graph s h = h
  store_step-IsSafe locked graph s h = h
  store_step-IsSafe (chosen current) graph s h = h
  store_step-IsSafe (stamped current epoch) graph s h = h
  store_step-IsSafe (mutating current epoch box) graph s h =
      same-IsSafe s _ refl refl refl refl refl h
  store_step-IsSafe (mutated current epoch) graph s h = h
  store_step-IsSafe (waiting epoch slot) graph s h = h

  pub step-IsSafe : (m : Move S) (s : RcuGraph S) → IsSafe s → IsSafe (step m s)
  unfolding step
  step-IsSafe (reader r) s h = reader_step-IsSafe r (s.readers r) s h
  step-IsSafe (writer w) s h = writer_step-IsSafe w s h (s.writers w) refl
  step-IsSafe (store w graph) s h = store_step-IsSafe (s.writers w) graph s h

  pub run-IsSafe : (moves : List (Move S)) (s : RcuGraph S) → IsSafe s → IsSafe (run moves s)
  unfolding run
  run-IsSafe [] s h = h
  run-IsSafe (m ∷ moves) s h = run-IsSafe moves (step m s) (step-IsSafe m s h)

  -- At no time are two writers between the acquisition of the lock and its release.
  pub writers_exclude :
      (graph : S) (moves : List (Move S)) (v w : ℕ)
      → inside ((run moves (from_graph graph)).writers v) ≡ true
      → inside ((run moves (from_graph graph)).writers w) ≡ true
      → v ≡ w
  writers_exclude graph moves v w here there =
      let h = run-IsSafe moves (from_graph graph) (start-IsSafe graph) in
      (==_iff v w).0 (h.alone v w here there)

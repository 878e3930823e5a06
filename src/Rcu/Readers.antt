-- ===== src/Rcu/Readers.antt =====
-- rcu.rs, `rcu_synchronize`: the slots of the readers, and what a waiting writer knows of those that
-- it has passed.
pub mod Grace
use sotfs.Base.{
  ℕ, zero, suc, ◌+◌, ◌-◌, ◌%◌, ◌^◌, ◌<◌, ◌≤◌, Bool, true, false, ◌&&◌, not, Option, none, some,
  List, [], ◌∷◌, ◌≡◌, ◌≢◌, refl, sym, ap, ◌∙◌, arith, ltb, leb, ◌==◌, ==_iff, length, if◌then◌else◌,
  Bool-cases, if_rule, inl, inr,
}
use mathlib.Core.Path.{subst, subst₂}
use sotfs.Arena.{write}
use sotfs.Rcu.{
  RcuGraph, Reader, scanning, registered, indexed, reading, panicked, Writer, locked, chosen,
  stamped, mutating, mutated, waiting, Move, reader, writer, store, reader_step, writer_step,
  store_step, step, run, from_graph, max_readers, next_epoch, set_writer,
}
use sotfs.Rcu.Writers.{IsSafe, inside, others_out, start-IsSafe, step-IsSafe}

-- The slot that a reader holds.
abbrev pub slot_of : Reader → Option ℕ
slot_of Reader.idle = none
slot_of (scanning epoch slot) = none
slot_of (registered slot) = some slot
slot_of (indexed slot index) = some slot
slot_of (reading slot index box) = some slot
slot_of panicked = none

-- The epoch that a reader is about to write is not the mark of a free slot.
abbrev Scans : Reader → Type 0
Scans Reader.idle = Unit
Scans (scanning epoch slot) = (epoch == 0) ≡ false
Scans (registered slot) = Unit
Scans (indexed slot index) = Unit
Scans (reading slot index box) = Unit
Scans panicked = Unit

module _ {S : Type 0} where
  -- A reader in one of the first `n` slots, that entered at or before the epoch, has the index that
  -- is now active, if it has loaded one.
  abbrev pub Fresh : ℕ → ℕ → RcuGraph S → Reader → Type 0
  Fresh epoch n s Reader.idle = Unit
  Fresh epoch n s (scanning e slot) = Unit
  Fresh epoch n s (registered slot) = Unit
  Fresh epoch n s (indexed slot index) = slot < n → s.reader_epochs slot ≤ epoch → index ≡ s.active
  Fresh epoch n s (reading slot index box) =
      slot < n → s.reader_epochs slot ≤ epoch → index ≡ s.active
  Fresh epoch n s panicked = Unit

  -- The slots that a waiting writer has passed hold no reader of the old copy from before its
  -- snapshot.
  abbrev pub Passed : Writer → RcuGraph S → Reader → Type 0
  Passed Writer.idle s p = Unit
  Passed locked s p = Unit
  Passed (chosen current) s p = Unit
  Passed (stamped current epoch) s p = Unit
  Passed (mutating current epoch box) s p = Unit
  Passed (mutated current epoch) s p = Unit
  Passed (waiting epoch slot) s p = Fresh epoch slot s p

  pub record IsSeated (s : RcuGraph S) : Type 0 where
    pub held : (r k : ℕ) → slot_of (s.readers r) ≡ some k → (s.reader_epochs k == 0) ≡ false
    pub own :
        (r q k : ℕ)
        → (r == q) ≡ false
        → slot_of (s.readers r) ≡ some k
        → slot_of (s.readers q) ≢ some k
    pub scans : (r : ℕ) → Scans (s.readers r)
    pub passed : (w r : ℕ) → Passed (s.writers w) s (s.readers r)

  pub start-IsSeated : (graph : S) → IsSeated (from_graph graph)
  unfolding from_graph
  start-IsSeated graph = record {
    held = λ r k h. absurd (cc);
    own = λ r q k other h. absurd (cc);
    scans = λ r. tt;
    passed = λ w r. tt;
  }

  -- The state that the property of a reader depends on.
  pub Fresh-congr :
      (epoch n : ℕ) (s s' : RcuGraph S) (p : Reader)
      → s'.active ≡ s.active
      → ((k : ℕ) → slot_of p ≡ some k → s'.reader_epochs k ≡ s.reader_epochs k)
      → Fresh epoch n s p
      → Fresh epoch n s' p
  Fresh-congr epoch n s s' Reader.idle active same f = tt
  Fresh-congr epoch n s s' (scanning e slot) active same f = tt
  Fresh-congr epoch n s s' (registered slot) active same f = tt
  Fresh-congr epoch n s s' (indexed slot index) active same f =
      λ lt le. f lt (omega (arith, same slot refl)) ∙ sym active
  Fresh-congr epoch n s s' (reading slot index box) active same f =
      λ lt le. f lt (omega (arith, same slot refl)) ∙ sym active
  Fresh-congr epoch n s s' panicked active same f = tt

  pub Passed-congr :
      (q : Writer) (s s' : RcuGraph S) (p : Reader)
      → s'.active ≡ s.active
      → ((k : ℕ) → slot_of p ≡ some k → s'.reader_epochs k ≡ s.reader_epochs k)
      → Passed q s p
      → Passed q s' p
  Passed-congr Writer.idle s s' p active same f = tt
  Passed-congr locked s s' p active same f = tt
  Passed-congr (chosen current) s s' p active same f = tt
  Passed-congr (stamped current epoch) s s' p active same f = tt
  Passed-congr (mutating current epoch box) s s' p active same f = tt
  Passed-congr (mutated current epoch) s s' p active same f = tt
  Passed-congr (waiting epoch slot) s s' p active same f =
      Fresh-congr epoch slot s s' p active same f

  -- One reader moves to the place `p`; the slots of the others keep their epochs.
  module _ (r : ℕ) (p : Reader) (s s' : RcuGraph S) (h : IsSeated s)
      (place : s'.readers ≡ write s.readers r p) (writers : s'.writers ≡ s.writers)
      (active : s'.active ≡ s.active)
      (others : (q k : ℕ)
        → (r == q) ≡ false
        → slot_of (s.readers q) ≡ some k
        → s'.reader_epochs k ≡ s.reader_epochs k)
      (mine : (k : ℕ) → slot_of p ≡ some k → (s'.reader_epochs k == 0) ≡ false)
      (alone : (q k : ℕ)
        → (r == q) ≡ false
        → slot_of p ≡ some k
        → slot_of (s.readers q) ≢ some k) where
    reader_at {κ} :
        (P : Reader → Type κ) (q : ℕ)
        → ((r == q) ≡ true → P p)
        → ((r == q) ≡ false → P (s.readers q))
        → P (s'.readers q)
    reader_at P q this that = subst P (sym (ap (λ f. f q) place)) (if_rule P (r == q) this that)

    moved_own :
        (u v k : ℕ)
        → (u == v) ≡ false
        → slot_of (s'.readers u) ≡ some k
        → slot_of (s'.readers v) ≢ some k
    moved_own u v k apart =
        reader_at (λ x. slot_of x ≡ some k → slot_of (s'.readers v) ≢ some k) u
          (λ this has.
            reader_at (λ x. slot_of x ≢ some k) v
              (λ same e. absurd (ground (arith, apart, this, same))) (λ other. alone v k other has))
          (λ other has.
            reader_at (λ x. slot_of x ≢ some k) v (λ this e. alone u k other e has)
              (λ more. h.own u v k apart has))

    moved-IsSeated : Scans p → ((w : ℕ) → Passed (s.writers w) s' p) → IsSeated s'
    moved-IsSeated scans passed = record {
      held = λ q k.
          reader_at (λ x. slot_of x ≡ some k → (s'.reader_epochs k == 0) ≡ false) q
            (λ this has. mine k has)
            (λ other has. ap (λ e. e == 0) (others q k other has) ∙ h.held q k has);
      own = moved_own;
      scans = λ q. reader_at Scans q (λ this. scans) (λ other. h.scans q);
      passed = λ w q.
          subst (λ x. Passed x s' (s'.readers q)) (sym (ap (λ f. f w) writers))
            (reader_at (Passed (s.writers w) s') q (λ this. passed w)
              (λ other.
                Passed-congr (s.writers w) s s' (s.readers q) active (λ k. others q k other)
                  (h.passed w q)));
    }

  no_index :
      (q : Writer) (s : RcuGraph S) (p : Reader)
      → ((epoch n : ℕ) → Fresh epoch n s p)
      → Passed q s p
  no_index Writer.idle s p f = tt
  no_index locked s p f = tt
  no_index (chosen current) s p f = tt
  no_index (stamped current epoch) s p f = tt
  no_index (mutating current epoch box) s p f = tt
  no_index (mutated current epoch) s p f = tt
  no_index (waiting epoch slot) s p f = f epoch slot

  read_on :
      (q : Writer) (s : RcuGraph S) (slot index box : ℕ)
      → Passed q s (indexed slot index)
      → Passed q s (reading slot index box)
  read_on Writer.idle s slot index box f = tt
  read_on locked s slot index box f = tt
  read_on (chosen current) s slot index box f = tt
  read_on (stamped current epoch) s slot index box f = tt
  read_on (mutating current epoch b) s slot index box f = tt
  read_on (mutated current epoch) s slot index box f = tt
  read_on (waiting epoch n) s slot index box f = f

  module _ (r : ℕ) (s : RcuGraph S) (h : IsSeated s) (room : s.global_epoch + 1 < 2 ^ 64) where
    stays :
        (p : Reader) (k : ℕ)
        → s.readers r ≡ p
        → slot_of p ≡ some k
        → ((s.reader_epochs k == 0) ≡ false)
          × ((q : ℕ) → (r == q) ≡ false → slot_of (s.readers q) ≢ some k)
    stays p k at has =
        let here = ap slot_of at ∙ has in (h.held r k here, λ q other. h.own r q k other here)

    pub reader_step-IsSeated : (p : Reader) → s.readers r ≡ p → IsSeated (reader_step r p s)
    unfolding reader_step
    reader_step-IsSeated Reader.idle at =
        moved-IsSeated r (scanning (next_epoch s.global_epoch) 0) s _ h refl refl refl
          (λ q k other has. refl) (λ k has. absurd (cc)) (λ q k other has. absurd (cc))
          (ground arith) (λ w. no_index (s.writers w) _ _ (λ e n. tt))
    reader_step-IsSeated (scanning epoch slot) at =
        let scan = subst Scans at (h.scans r) in
        if_rule IsSeated (ltb slot max_readers)
          (λ more.
            if_rule IsSeated (s.reader_epochs slot == 0)
              (λ free.
                moved-IsSeated r (registered slot) s _ h refl refl refl
                  (λ q k other has. ground (arith, h.held q k has, free))
                  (λ k has. ground (arith, has, scan))
                  (λ q k other has there. absurd (ground (arith, has, h.held q k there, free))) tt
                  (λ w. no_index (s.writers w) _ _ (λ e n. tt)))
              (λ busy.
                moved-IsSeated r (scanning epoch (suc slot)) s _ h refl refl refl
                  (λ q k other has. refl) (λ k has. absurd (cc)) (λ q k other has. absurd (cc)) scan
                  (λ w. no_index (s.writers w) _ _ (λ e n. tt))))
          (λ full.
            moved-IsSeated r panicked s _ h refl refl refl (λ q k other has. refl)
              (λ k has. absurd (cc)) (λ q k other has. absurd (cc)) tt
              (λ w. no_index (s.writers w) _ _ (λ e n. tt)))
    reader_step-IsSeated (registered slot) at =
        moved-IsSeated r (indexed slot s.active) s _ h refl refl refl (λ q k other has. refl)
          (λ k has. (stays (registered slot) k at has).0)
          (λ q k other has. (stays (registered slot) k at has).1 q other) tt
          (λ w. no_index (s.writers w) _ _ (λ e n lt le. refl))
    reader_step-IsSeated (indexed slot index) at =
        moved-IsSeated r (reading slot index (s.graphs index)) s _ h refl refl refl
          (λ q k other has. refl) (λ k has. (stays (indexed slot index) k at has).0)
          (λ q k other has. (stays (indexed slot index) k at has).1 q other) tt
          (λ w. read_on (s.writers w) _ slot index (s.graphs index) (
            Passed-congr (s.writers w) s _ (indexed slot index) refl (λ k has. refl)
              (subst (Passed (s.writers w) s) at (h.passed w r))))
    reader_step-IsSeated (reading slot index box) at =
        moved-IsSeated r Reader.idle s _ h refl refl refl
          (λ q k other has.
            let ne = (stays (reading slot index box) slot at refl).1 q other in
            elim (Bool-cases (slot == k)) [
              | inl same ↦ absurd (ne (has ∙ ap some (sym ((==_iff slot k).0 same))))
              | inr apart ↦ ground (arith, apart)
            ])
          (λ k has. absurd (cc)) (λ q k other has. absurd (cc)) tt
          (λ w. no_index (s.writers w) _ _ (λ e n. tt))
    reader_step-IsSeated panicked at = h

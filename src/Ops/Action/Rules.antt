-- ===== src/Ops/Action/Rules.antt =====
-- What holds of the graph after a block, from what its steps do.
use sotfs.Base.{Bool, true, false, ◌≡◌, refl}
use sotfs.Error.{Result, ok, err, diverge}
use sotfs.Graph.{TypeGraph}
use sotfs.Ops.Action.{Action, continue, check, gets, step, modify, pure, when, ◌>>=◌}

module _ {A B : Type 0} (P : TypeGraph → Type 0) where
  continue_rule :
      (r : Result A) (k : A → Action B) (g : TypeGraph)
      → P g
      → ((a : A) → r ≡ ok a → P (k a g).1)
      → P (continue r k g).1
  continue_rule (ok a) k g h next = next a refl
  continue_rule (err e) k g h next = h
  continue_rule diverge k g h next = h

  -- A check that fails leaves the graph; the rest may use that it succeeded.
  pub check_rule :
      (f : TypeGraph → Result A) (k : A → Action B) (g : TypeGraph)
      → P g
      → ((a : A) → f g ≡ ok a → P (k a g).1)
      → P ((check f >>= k) g).1
  unfolding ◌>>=◌
  check_rule f k g h next = continue_rule (f g) k g h next

  pub bind_rule :
      (m : Action A) (k : A → Action B) (g : TypeGraph)
      → P (m g).1
      → ((a : A) (g' : TypeGraph) → P g' → P (k a g').1)
      → P ((m >>= k) g).1
  unfolding ◌>>=◌
  bind_rule m k g h next = let (r, g') = m g in continue_rule r k g' h (λ a _. next a g' h)

  -- What follows may use what its first step has returned.
  pub bound_rule :
      (m : Action A) (k : A → Action B) (g : TypeGraph)
      → P (m g).1
      → ((a : A) → (m g).0 ≡ ok a → P (k a (m g).1).1)
      → P ((m >>= k) g).1
  unfolding ◌>>=◌
  bound_rule m k g h next = let (r, g') = m g in continue_rule r k g' h next

  pub step_rule :
      (f : TypeGraph → A × TypeGraph) (k : A → Action B) (g : TypeGraph)
      → P (k (f g).0 (f g).1).1
      → P ((step f >>= k) g).1
  unfolding ◌>>=◌
  step_rule f k g h = h

module _ {B : Type 0} (P : TypeGraph → Type 0) where
  pub modify_rule :
      (f : TypeGraph → TypeGraph) (k : Unit {0} → Action B) (g : TypeGraph)
      → P (k tt (f g)).1
      → P ((modify f >>= k) g).1
  unfolding ◌>>=◌
  modify_rule f k g h = h

  pub pure_rule : (b : B) (g : TypeGraph) → P g → P (pure b g).1
  unfolding ◌>>=◌
  pure_rule b g h = h

module _ {A B : Type 0} (P : TypeGraph → Type 0) where
  pub gets_rule :
      (f : TypeGraph → A) (k : A → Action B) (g : TypeGraph)
      → P (k (f g) g).1
      → P ((gets f >>= k) g).1
  unfolding ◌>>=◌
  gets_rule f k g h = h

module _ (P : TypeGraph → Type 0) where
  -- The last step of a block.
  pub last_rule : (f : TypeGraph → TypeGraph) (g : TypeGraph) → P (f g) → P (modify f g).1
  unfolding ◌>>=◌
  last_rule f g h = h

  pub when_rule :
      (b : Bool) (m : Action (Unit {0})) (g : TypeGraph)
      → P g
      → (b ≡ true → P (m g).1)
      → P (when b m g).1
  unfolding ◌>>=◌
  when_rule true m g h next = next refl
  when_rule false m g h next = h

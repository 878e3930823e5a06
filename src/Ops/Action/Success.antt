-- ===== src/Ops/Action/Success.antt =====
-- What holds of the value and the graph of a block that succeeds, step by step.
use sotfs.Base.{◌≡◌, refl, sym}
use sotfs.Error.{Result, ok, err, diverge}
use sotfs.Graph.{TypeGraph}
use sotfs.Ops.Action.{Action, continue, check, gets, step, modify, pure, ◌>>=◌, ◌>>◌}

pub record Ends {B : Type 0} (Q : B → TypeGraph → Type 0) (m : Action B) (g : TypeGraph)
    : Type 0 where
  pub ends : (b : B) → (m g).0 ≡ ok b → Q b (m g).1

module _ {A B : Type 0} (Q : B → TypeGraph → Type 0) where
  continue-Ends :
      (r : Result A) (k : A → Action B) (g : TypeGraph)
      → ((a : A) → r ≡ ok a → Ends Q (k a) g)
      → (b : B) → (continue r k g).0 ≡ ok b
      → Q b (continue r k g).1
  continue-Ends (ok a) k g rest b h = (rest a refl).ends b h
  continue-Ends (err e) k g rest b h = absurd (cc)
  continue-Ends diverge k g rest b h = absurd (cc)

  pub check-Ends :
      (f : TypeGraph → Result A) (k : A → Action B) (g : TypeGraph)
      → ((a : A) → f g ≡ ok a → Ends Q (k a) g)
      → Ends Q (check f >>= k) g
  unfolding ◌>>=◌
  check-Ends f k g rest = record { ends = continue-Ends (f g) k g rest }

  pub bind-Ends :
      (m : Action A) (k : A → Action B) (g : TypeGraph)
      → ((a : A) → (m g).0 ≡ ok a → Ends Q (k a) (m g).1)
      → Ends Q (m >>= k) g
  unfolding ◌>>=◌
  bind-Ends m k g rest = let (r, g') = m g in record { ends = continue-Ends r k g' rest }

  pub step-Ends :
      (f : TypeGraph → A × TypeGraph) (k : A → Action B) (g : TypeGraph)
      → Ends Q (k (f g).0) (f g).1
      → Ends Q (step f >>= k) g
  unfolding ◌>>=◌
  step-Ends f k g rest = record { ends = rest.ends }

module _ {B : Type 0} (Q : B → TypeGraph → Type 0) where
  pub modify-Ends :
      (f : TypeGraph → TypeGraph) (k : Action B) (g : TypeGraph)
      → Ends Q k (f g)
      → Ends Q (modify f >> k) g
  unfolding ◌>>=◌
  modify-Ends f k g rest = record { ends = rest.ends }

  pub pure-Ends : (b : B) (g : TypeGraph) → Q b g → Ends Q (pure b) g
  unfolding ◌>>=◌
  pure-Ends b g q = record { ends = λ c h. let same : b ≡ c = cc in rw (sym same) q }

pub last-Ends :
    (Q : Unit {0} → TypeGraph → Type 0) (f : TypeGraph → TypeGraph) (g : TypeGraph)
    → Q tt (f g)
    → Ends Q (modify f) g
unfolding ◌>>=◌
last-Ends Q f g q = record { ends = λ b h. q }

pub gets-Ends :
    {A B : Type 0} (Q : B → TypeGraph → Type 0) (f : TypeGraph → A) (k : A → Action B)
    (g : TypeGraph)
    → Ends Q (k (f g)) g
    → Ends Q (gets f >>= k) g
unfolding ◌>>=◌
gets-Ends Q f k g rest = record { ends = rest.ends }

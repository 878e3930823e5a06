-- ===== src/Ops/Action/Errors.antt =====
-- Blocks that check first and change after, and what they leave where they fail.
use sotfs.Base.{Bool, true, false, ◌≡◌, ◌≢◌, refl}
use sotfs.Error.{GraphError, Result, ok, err, diverge}
use sotfs.Graph.{TypeGraph}
use sotfs.Ops.Action.{
  Action, KeepsOnError, continue, check, gets, step, modify, pure, when, ◌>>=◌, ◌>>◌,
}

-- A block that has no error.
pub record HasNoError {A : Type 0} (m : Action A) : Type 0 where
  pub never : (g : TypeGraph) (e : GraphError) → (m g).0 ≢ err e

module _ {A B : Type 0} where
  continue_keeps :
      (r : Result A) (k : A → Action B) (g : TypeGraph)
      → ((a : A) → KeepsOnError (k a) g)
      → (e : GraphError) → (continue r k g).0 ≡ err e
      → (continue r k g).1 ≡ g
  continue_keeps (ok a) k g rest e h = (rest a).kept e h
  continue_keeps (err e') k g rest e h = refl
  continue_keeps diverge k g rest e h = refl

  pub check_keeps :
      (f : TypeGraph → Result A) (k : A → Action B) (g : TypeGraph)
      → ((a : A) → KeepsOnError (k a) g)
      → KeepsOnError (check f >>= k) g
  unfolding ◌>>=◌
  check_keeps f k g rest = record { kept = continue_keeps (f g) k g rest }

  continue_no_error :
      (r : Result A) (k : A → Action B) (g : TypeGraph)
      → ((e : GraphError) → r ≢ err e)
      → ((a : A) → HasNoError (k a))
      → (e : GraphError) → (continue r k g).0 ≢ err e
  continue_no_error (ok a) k g first rest e h = (rest a).never g e h
  continue_no_error (err e') k g first rest e h = first e' refl
  continue_no_error diverge k g first rest e h = cc

  pub bind_no_error :
      (m : Action A) (k : A → Action B)
      → HasNoError m
      → ((a : A) → HasNoError (k a))
      → HasNoError (m >>= k)
  unfolding ◌>>=◌
  bind_no_error m k first rest = record {
    never = λ g. let (r, g') = m g in continue_no_error r k g' (first.never g) rest;
  }

pub step_no_error : {A : Type 0} (f : TypeGraph → A × TypeGraph) → HasNoError (step f)
unfolding ◌>>=◌
step_no_error f = record { never = λ g e h. cc }

pub gets_no_error : {A : Type 0} (f : TypeGraph → A) → HasNoError (gets f)
unfolding ◌>>=◌
gets_no_error f = record { never = λ g e h. cc }

pub modify_no_error : (f : TypeGraph → TypeGraph) → HasNoError (modify f)
unfolding ◌>>=◌
modify_no_error f = record { never = λ g e h. cc }

pub pure_no_error : {A : Type 0} (a : A) → HasNoError (pure a)
unfolding ◌>>=◌
pure_no_error a = record { never = λ g e h. cc }

pub when_no_error : (b : Bool) (m : Action (Unit {0})) → HasNoError m → HasNoError (when b m)
unfolding ◌>>=◌
when_no_error true m h = record { never = h.never }
when_no_error false m h = record { never = λ g e eq. cc }

pub no_error_keeps : {A : Type 0} (m : Action A) (g : TypeGraph) → HasNoError m → KeepsOnError m g
no_error_keeps m g none_fail = record { kept = λ e h. absurd (none_fail.never g e h) }

module _ {A B : Type 0} where
  pub after_step :
      (f : TypeGraph → A × TypeGraph) (k : A → Action B)
      → ((a : A) → HasNoError (k a))
      → HasNoError (step f >>= k)
  after_step f k rest = bind_no_error (step f) k (step_no_error f) rest

  pub after_gets :
      (f : TypeGraph → A) (k : A → Action B)
      → ((a : A) → HasNoError (k a))
      → HasNoError (gets f >>= k)
  after_gets f k rest = bind_no_error (gets f) k (gets_no_error f) rest

pub after_modify :
    {B : Type 0} (f : TypeGraph → TypeGraph) (k : Action B)
    → HasNoError k
    → HasNoError (modify f >> k)
after_modify f k rest = bind_no_error (modify f) (λ _. k) (modify_no_error f) (λ _. rest)

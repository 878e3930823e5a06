-- ===== src/Ops/Action.antt =====
-- Functions that take `g: &mut TypeGraph` and may fail. What was written before an error stays
-- written, so the graph comes back beside the error too.
pub mod Rules
pub mod Errors
pub mod Success
use sotfs.Base.{Bool, true, false, ℕ, ◌≡◌}
use sotfs.Types.{Timestamp}
use sotfs.Error.{GraphError, Result, ok, err, diverge}
use sotfs.Graph.{TypeGraph}

-- `now()`, by how many readings the operation has made before.
abbrev pub Clock : Type 0
Clock = ℕ → Timestamp

abbrev pub Action : Type 0 → Type 0
Action A = TypeGraph → Result A × TypeGraph

abbrev pub continue : {A B : Type 0} → Result A → (A → Action B) → Action B
continue (ok a) f g = f a g
continue (err e) f g = (err e, g)
continue diverge f g = (diverge, g)

unfoldable pub pure : {A : Type 0} → A → Action A
pure a g = (ok a, g)

-- A read-only step that may fail.
unfoldable pub check : {A : Type 0} → (TypeGraph → Result A) → Action A
check f g = (f g, g)

unfoldable pub gets : {A : Type 0} → (TypeGraph → A) → Action A
gets f g = (ok (f g), g)

unfoldable pub modify : (TypeGraph → TypeGraph) → Action (Unit {0})
modify f g = (ok tt, f g)

-- A step that returns a value and the changed graph, such as an allocator.
unfoldable pub step : {A : Type 0} → (TypeGraph → A × TypeGraph) → Action A
step f g = let (a, g') = f g in (ok a, g')

unfoldable pub fail : {A : Type 0} → GraphError → Action A
fail e g = (err e, g)

-- `if b { m }`
unfoldable pub when : Bool → Action (Unit {0}) → Action (Unit {0})
when true m g = m g
when false m g = (ok tt, g)

infixl 5 ◌>>=◌ ◌>>◌
-- Opening this opens the steps above too.
unfoldable pub ◌>>=◌ : {A B : Type 0} → Action A → (A → Action B) → Action B
unfolding pure check gets modify step fail when
◌>>=◌ m f g = let (r, g') = m g in continue r f g'

abbrev pub ◌>>◌ : {B : Type 0} → Action (Unit {0}) → Action B → Action B
m >> k = m >>= λ _. k

-- An operation that fails has left the graph as it was.
pub record KeepsOnError {A : Type 0} (m : Action A) (g : TypeGraph) : Type 0 where
  pub kept : (e : GraphError) → (m g).0 ≡ err e → (m g).1 ≡ g

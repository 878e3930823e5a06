-- ===== src/Map.antt =====
-- std::collections::BTreeMap and BTreeSet, which the graph's indexes use: association lists and
-- lists that stay in key order, with the operations that the source calls.
pub mod Laws
pub mod Sets
use Prim.Native.String.{compare as compare_text}
use Prim.Native.Nat.{Ordering}
use text.Mathlib.Text.{is_lt}
use sotfs.Base.{
  ℕ, String, Bool, true, false, ◌&&◌, ◌||◌, not, Option, none, some, List, [], ◌∷◌, ◌≡◌, ◌↔◌, refl,
  arith, ltb, ◌==◌, ==_iff, str_eq, eq_iff, if◌then◌else◌,
}

-- The key types: `Ord`, of which the lookups need that the test of equality decides it.
pub record Key {ℓ} (K : Type ℓ) : Type ℓ where
  pub lt : K → K → Bool
  pub beq : K → K → Bool
  pub beq_iff : (a b : K) → (beq a b ≡ true) ↔ (a ≡ b)

instance abbrev pub id_key : Key ℕ
id_key = record { lt = ltb; beq = ◌==◌; beq_iff = ==_iff }

abbrev pub entry_lt : ℕ × String → ℕ × String → Bool
entry_lt a b = ltb a.0 b.0 || (a.0 == b.0 && is_lt (compare_text a.1 b.1))

abbrev pub entry_beq : ℕ × String → ℕ × String → Bool
entry_beq a b = a.0 == b.0 && str_eq a.1 b.1

pub entry_beq_iff : (a b : ℕ × String) → (entry_beq a b ≡ true) ↔ (a ≡ b)
entry_beq_iff (i, s) (j, t) = ground (arith, eq_iff s t)

-- Tuples compare by their first parts, then by their second.
instance abbrev pub entry_key : Key (ℕ × String)
entry_key = record { lt = entry_lt; beq = entry_beq; beq_iff = entry_beq_iff }

abbrev pub Map {ℓ κ} : Type ℓ → Type κ → Type (ℓ ⊔ κ)
Map K V = List (K × V)

module _ {ℓ κ} {K : Type ℓ} {V : Type κ} ⦃key : Key K⦄ where
  unfoldable pub get : K → Map K V → Option V
  get k [] = none
  get k ((j, v) ∷ m) = if key.beq j k then some v else get k m

  unfoldable pub insert : K → V → Map K V → Map K V
  insert k v [] = (k, v) ∷ []
  insert k v ((j, w) ∷ m) =
      if key.beq j k
      then (k, v) ∷ m
      else if key.lt k j
      then (k, v) ∷ (j, w) ∷ m
      else (j, w) ∷ insert k v m

  unfoldable pub remove : K → Map K V → Map K V
  remove k [] = []
  remove k ((j, v) ∷ m) = let rest = remove k m in if key.beq j k then rest else (j, v) ∷ rest

  -- `if let Some(v) = m.get_mut(k) { v = f(v) }`
  unfoldable pub adjust : K → (V → V) → Map K V → Map K V
  adjust k f [] = []
  adjust k f ((j, v) ∷ m) =
      let rest = adjust k f m in if key.beq j k then (j, f v) ∷ rest else (j, v) ∷ rest

-- `m.entry(k).or_default()` is read by this, and written back by `insert`.
abbrev pub or_default {ℓ} : {V : Type ℓ} → V → Option V → V
or_default d none = d
or_default d (some v) = v

-- ===== src/Prelude/Floats.antt =====
-- Python's floats, as far as the program uses them: finite values, whose order is total. Sums,
-- products and `round(x, 8)` are parameters, so that no result rests on how they round.
use mathlib.Core.Path.{◌≡◌}
use mathlib.Core.Logic.{◌⊎◌}
use mathlib.Core.Bool.{Bool, true}
use Prim.Native.Nat.{ℕ}

pub record Floats : Type 1 where
  pub Float : Type 0
  pub of_ℕ : ℕ → Float
  pub plus : Float → Float → Float
  pub times : Float → Float → Float
  pub per_1000 : Float → Float
  pub round8 : Float → Float
  pub le : Float → Float → Bool
  pub le_total : (a b : Float) → (le a b ≡ true) ⊎ (le b a ≡ true)
  pub le_trans : (a b c : Float) → le a b ≡ true → le b c ≡ true → le a c ≡ true

-- ===== src/Prelude/Sort.antt =====
-- `Array.prototype.sort`, which is stable, by a test that says that an element may stand before another.
use mathlib.Core.Bool.{Bool}
use mathlib.Core.List.{List, [], ◌∷◌}
use livi_agent.Prelude.Tests.{if◌then◌else◌}

module _ {ℓ} {A : Type ℓ} (before : A → A → Bool) where
  pub insert : A → List A → List A
  insert x [] = x ∷ []
  insert x (y ∷ ys) = let rest = insert x ys in if before x y then x ∷ y ∷ ys else y ∷ rest

  unfoldable pub sort_by : List A → List A
  unfolding insert
  sort_by [] = []
  sort_by (x ∷ xs) = insert x (sort_by xs)

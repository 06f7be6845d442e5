-- ===== src/Prelude/Assoc/Total.antt =====
-- The sum of a weight over the values of a `Map`, under its operations.
use Prim.Native.Nat.{ℕ, ◌+◌, ◌≤◌}
use mathlib.Core.Path.{◌≡◌}
use mathlib.Core.Bool.{Bool}
use mathlib.Core.List.{[], ◌∷◌}
use mathlib.Core.Option.{none, some}
use native.Mathlib.Omega.{arith}
use livi_agent.Prelude.Equality.{Eq}
use livi_agent.Prelude.Assoc.{Assoc, get, put, drop_where, update_all}

module _ {ℓ κ} {K : Type ℓ} {V : Type κ} (weight : V → ℕ) where
  abbrev pub total : Assoc K V → ℕ
  total [] = 0
  total ((k, v) ∷ m) = weight v + total m

  pub total-drop_where : (p : V → Bool) (m : Assoc K V) → total (drop_where p m) ≤ total m
  unfolding drop_where
  total-drop_where p [] = omega arith
  total-drop_where p ((k, v) ∷ m) = ground (arith, total-drop_where p m)

  pub total-update_all :
      (f : V → V) (m : Assoc K V)
      → ((v : V) → weight (f v) ≤ weight v)
      → total (update_all f m) ≤ total m
  unfolding update_all
  total-update_all f [] h = omega arith
  total-update_all f ((k, v) ∷ m) h = omega (arith, h v, total-update_all f m h)

module _ {ℓ κ} {K : Type ℓ} {V : Type κ} ⦃e : Eq K⦄ (weight : V → ℕ) where
  pub total-put_new :
      (m : Assoc K V) (k : K) (v : V)
      → get m k ≡ none
      → total weight (put m k v) ≡ total weight m + weight v
  unfolding get put
  total-put_new [] k v h = omega arith
  total-put_new ((j, w) ∷ m) k v h = ground (arith, total-put_new m k v)

  pub total-put_old :
      (m : Assoc K V) (k : K) (old v : V)
      → get m k ≡ some old
      → weight v ≤ weight old
      → total weight (put m k v) ≤ total weight m
  unfolding get put
  total-put_old [] k old v h le = cc
  total-put_old ((j, w) ∷ m) k old v h le = ground (arith, total-put_old m k old v)

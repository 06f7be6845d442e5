-- ===== src/Prelude/Assoc/Pigeon.antt =====
-- Fewer entries: a map with different keys that all stand in a larger one.
use Prim.Native.Nat.{◌<◌, ◌≤◌}
use mathlib.Core.Path.{◌≡◌, subst}
use mathlib.Core.Logic.{inl, inr}
use mathlib.Core.Bool.{true}
use mathlib.Core.List.{[], ◌∷◌}
use mathlib.Core.Option.{none}
use native.Mathlib.Omega.{arith}
use livi_agent.Prelude.Lists.{length}
use livi_agent.Prelude.Tests.{Bool-cases, is_some}
use livi_agent.Prelude.Equality.{Eq, ◌==◌}
use livi_agent.Prelude.Assoc.{Assoc, get, remove, get-remove}

module _ {ℓ κ} {K : Type ℓ} {V : Type κ} ⦃e : Eq K⦄ where
  length-remove-le : (m : Assoc K V) (k : K) → length (remove m k) ≤ length m
  unfolding remove
  length-remove-le [] k = omega arith
  length-remove-le ((j, v) ∷ m) k = ground (arith, length-remove-le m k)

  length-remove-lt :
      (m : Assoc K V) (k : K) → is_some (get m k) ≡ true → length (remove m k) < length m
  unfolding remove get
  length-remove-lt [] k h = cc
  length-remove-lt ((j, v) ∷ m) k h = ground (arith, h, length-remove-le m k, length-remove-lt m k)

  abbrev pub DistinctKeys : Assoc K V → Type κ
  DistinctKeys [] = Unit {κ}
  DistinctKeys ((k, v) ∷ m) = (get m k ≡ none) × DistinctKeys m

  some_lt : (m : Assoc K V) (k : K) → is_some (get m k) ≡ true → 0 < length m
  unfolding get
  some_lt [] k h = cc
  some_lt ((j, v) ∷ m) k h = omega arith

  -- A key of `g` that `f` lacks, beside all the keys of `f`.
  pub length-lt :
      (f g : Assoc K V) (i : K)
      → DistinctKeys f
      → ((k : K) → is_some (get f k) ≡ true → is_some (get g k) ≡ true)
      → get f i ≡ none
      → is_some (get g i) ≡ true
      → length f < length g
  unfolding get
  length-lt [] g i d w n s = some_lt g i s
  length-lt ((j, v) ∷ f) g i (a, d) w n s =
      let kept : (k : K) → is_some (get f k) ≡ true → is_some (get (remove g j) k) ≡ true = λ k h.
        elim (Bool-cases (j == k)) [
          | inl q ↦
              let b : get f k ≡ none = subst (λ x. get f x ≡ none) ((e.beq_iff j k).0 q) a in
              ground (arith, b, h)
          | inr q ↦ ground (arith, get-remove g j k, q, w k (ground (arith, h, q)))
        ] in
      let t =
        length-lt f (remove g j) i d kept (ground (arith, n))
          (ground (arith, get-remove g j i, n, s)) in
      omega (arith, t, length-remove-lt g j (w j (ground (arith, e.beq_iff j j))))

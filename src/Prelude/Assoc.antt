-- ===== src/Prelude/Assoc.antt =====
-- JavaScript's `Map`: entries in insertion order. `put` of a present key keeps its place.
pub mod Entries
pub mod Total
pub mod Pigeon
use mathlib.Core.Path.{◌≡◌, refl}
use mathlib.Core.Bool.{Bool, true, false}
use mathlib.Core.Logic.{◌≢◌, ◌⊎◌, inl, inr}
use mathlib.Core.List.{List, [], ◌∷◌}
use mathlib.Core.Option.{Option, none, some}
use native.Mathlib.Omega.{arith}
use livi_agent.Prelude.Tests.{if◌then◌else◌, Bool-cases}
use livi_agent.Prelude.Equality.{Eq, ◌==◌}

abbrev pub Assoc {ℓ κ} : Type ℓ → Type κ → Type (ℓ ⊔ κ)
Assoc K V = List (K × V)

module _ {ℓ κ} {K : Type ℓ} {V : Type κ} where
  abbrev pub values : Assoc K V → List V
  values [] = []
  values ((k, v) ∷ m) = v ∷ values m

  abbrev pub keys : Assoc K V → List K
  keys [] = []
  keys ((k, v) ∷ m) = k ∷ keys m

  -- `for (const [key, v] of m) if (p(v)) m.delete(key)`.
  pub drop_where : (V → Bool) → Assoc K V → Assoc K V
  drop_where p [] = []
  drop_where p ((k, v) ∷ m) = let rest = drop_where p m in if p v then rest else (k, v) ∷ rest

  -- `for (const [key, v] of m) m.set(key, f(v))`.
  pub update_all : (V → V) → Assoc K V → Assoc K V
  update_all f [] = []
  update_all f ((k, v) ∷ m) = (k, f v) ∷ update_all f m

module _ {ℓ κ} {K : Type ℓ} {V : Type κ} ⦃e : Eq K⦄ where
  unfoldable pub get : Assoc K V → K → Option V
  get [] k = none
  get ((j, v) ∷ m) k = if j == k then some v else get m k

  unfoldable pub put : Assoc K V → K → V → Assoc K V
  put [] k v = (k, v) ∷ []
  put ((j, w) ∷ m) k v = let rest = put m k v in if j == k then (j, v) ∷ m else (j, w) ∷ rest

  unfoldable pub remove : Assoc K V → K → Assoc K V
  remove [] k = []
  remove ((j, w) ∷ m) k = let rest = remove m k in if j == k then rest else (j, w) ∷ rest

  pub get-put :
      (m : Assoc K V) (k j : K) (v : V) → get (put m k v) j ≡ (if k == j then some v else get m j)
  unfolding get put
  get-put [] k j v = refl
  get-put ((i, w) ∷ m) k j v =
      ground (arith, e.beq_iff i k, e.beq_iff i j, e.beq_iff k j, get-put m k j v)

  pub get-remove :
      (m : Assoc K V) (k j : K) → get (remove m k) j ≡ (if k == j then none else get m j)
  unfolding get remove
  get-remove [] k j = ground arith
  get-remove ((i, w) ∷ m) k j =
      ground (arith, e.beq_iff i k, e.beq_iff i j, e.beq_iff k j, get-remove m k j)

  pub get-put_ne : (m : Assoc K V) (k j : K) (v : V) → k ≢ j → get (put m k v) j ≡ get m j
  get-put_ne m k j v d = ground (arith, get-put m k j v, e.beq_iff k j)

  pub get-remove_ne : (m : Assoc K V) (k j : K) → k ≢ j → get (remove m k) j ≡ get m j
  get-remove_ne m k j d = ground (arith, get-remove m k j, e.beq_iff k j)

  pub get-put_same : (m : Assoc K V) (k : K) (v : V) → get (put m k v) k ≡ some v
  get-put_same m k v = ground (arith, get-put m k k v, e.beq_iff k k)

  pub get-put-some :
      (m : Assoc K V) (k j : K) (v w : V)
      → get (put m k v) j ≡ some w
      → ((k ≡ j) × (v ≡ w)) ⊎ ((k ≢ j) × (get m j ≡ some w))
  get-put-some m k j v w h = elim (Bool-cases (k == j)) [
    | inl q ↦ inl ((e.beq_iff k j).0 q, ground (arith, get-put m k j v))
    | inr q ↦ inr (ground (arith, e.beq_iff k j), ground (arith, get-put m k j v))
  ]

  pub get-update_all :
      (f : V → V) (m : Assoc K V) (k : K)
      → get (update_all f m) k ≡ elim (get m k) [ none ↦ none | some v ↦ some (f v) ]
  unfolding get update_all
  get-update_all f [] k = refl
  get-update_all f ((i, w) ∷ m) k = ground (arith, get-update_all f m k)

pub ruleset assoc_laws = (get-put, get-remove)

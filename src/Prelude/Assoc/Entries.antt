-- ===== src/Prelude/Assoc/Entries.antt =====
-- Predicates on the entries of a `Map`, kept by its operations.
use mathlib.Core.Path.{◌≡◌, subst, sym}
use mathlib.Core.List.{[], ◌∷◌}
use mathlib.Core.Logic.{inl, inr}
use mathlib.Core.Bool.{Bool}
use mathlib.Core.Option.{some}
use native.Mathlib.Omega.{arith}
use livi_agent.Prelude.Tests.{Bool-cases}
use livi_agent.Prelude.Equality.{Eq, ◌==◌}
use livi_agent.Prelude.Assoc.{Assoc, get, put, remove, drop_where, update_all}

module _ {ℓ κ μ} {K : Type ℓ} {V : Type κ} (P : K → V → Type μ) where
  -- `P` holds of every entry.
  abbrev pub Entries : Assoc K V → Type μ
  Entries [] = Unit {μ}
  Entries ((k, v) ∷ m) = P k v × Entries m

  pub Entries-drop_where : (p : V → Bool) (m : Assoc K V) → Entries m → Entries (drop_where p m)
  unfolding drop_where
  Entries-drop_where p [] h = h
  Entries-drop_where p ((k, v) ∷ m) h = elim (Bool-cases (p v)) [
    | inl e ↦ rw e (Entries-drop_where p m h.1)
    | inr e ↦ rw e (h.0, Entries-drop_where p m h.1)
  ]

  pub Entries-update_all :
      (f : V → V) (m : Assoc K V)
      → ((k : K) (v : V) → P k v → P k (f v))
      → Entries m
      → Entries (update_all f m)
  unfolding update_all
  Entries-update_all f [] s h = h
  Entries-update_all f ((k, v) ∷ m) s h = (s k v h.0, Entries-update_all f m s h.1)

module _ {ℓ κ μ} {K : Type ℓ} {V : Type κ} ⦃e : Eq K⦄ (P : K → V → Type μ) where
  pub Entries-put : (m : Assoc K V) (k : K) (v : V) → P k v → Entries P m → Entries P (put m k v)
  unfolding put
  Entries-put [] k v p h = (p, tt)
  Entries-put ((j, w) ∷ m) k v p h = elim (Bool-cases (j == k)) [
    | inl q ↦ rw q (subst (λ i. P i v) (sym ((e.beq_iff j k).0 q)) p, h.1)
    | inr q ↦ rw q (h.0, Entries-put m k v p h.1)
  ]

  pub Entries-remove : (m : Assoc K V) (k : K) → Entries P m → Entries P (remove m k)
  unfolding remove
  Entries-remove [] k h = h
  Entries-remove ((j, w) ∷ m) k h = elim (Bool-cases (j == k)) [
    | inl q ↦ rw q (Entries-remove m k h.1)
    | inr q ↦ rw q (h.0, Entries-remove m k h.1)
  ]

  pub Entries-get : (m : Assoc K V) (k : K) (v : V) → Entries P m → get m k ≡ some v → P k v
  unfolding get
  Entries-get [] k v h q = cc
  Entries-get ((j, w) ∷ m) k v h q = elim (Bool-cases (j == k)) [
    | inl s ↦ subst (λ i. P i v) ((e.beq_iff j k).0 s) (subst (P j) (ground arith) h.0)
    | inr s ↦ Entries-get m k v h.1 (ground arith)
  ]

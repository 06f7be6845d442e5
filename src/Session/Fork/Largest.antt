-- ===== src/Session/Fork/Largest.antt =====
-- What the largest number of a list of entries is, for fork.ts.
use livi_agent.Prelude.{
  ℕ, ◌≤◌, ◌≡◌, ◌⊎◌, refl, subst, List, [], ◌∷◌, All, arith, Bool-cases, inl, inr, leb, max,
}
use livi_agent.Session.{Entry}
use livi_agent.Session.Fork.Snapshot.{highest}

-- One of the entries has the number.
pub data Has (n : ℕ) : List Entry → Type 0 where
  here : (e : Entry) (es : List Entry) → e.seq ≡ n → Has n (e ∷ es)
  there : (e : Entry) (es : List Entry) → Has n es → Has n (e ∷ es)

-- The number is that of an entry, and no entry has a larger one; or there is no entry and it is 0.
pub record IsLargest (n : ℕ) (es : List Entry) : Type 0 where
  pub bounds : All (λ (e : Entry). e.seq ≤ n) es
  pub attained : ((es ≡ []) × (n ≡ 0)) ⊎ Has n es

All-le :
    (m n : ℕ) (es : List Entry)
    → m ≤ n
    → All (λ (e : Entry). e.seq ≤ m) es
    → All (λ (e : Entry). e.seq ≤ n) es
All-le m n [] le h = tt
All-le m n (e ∷ es) le (first, h) = (omega (arith, le, first), All-le m n es le h)

Has-or_nil : (es : List Entry) → ((es ≡ []) × (highest es ≡ 0)) ⊎ Has (highest es) es
unfolding highest
Has-or_nil [] = inl (refl, refl)
Has-or_nil (e ∷ es) = elim (Bool-cases (leb (highest es) e.seq)) [
  | inl larger ↦ inr (here e es (ground (arith, larger)))
  | inr smaller ↦
      let same : highest es ≡ highest (e ∷ es) = ground (arith, smaller) in
      elim (Has-or_nil es) [
        | inl (_, nothing) ↦ inr (here e es (ground (arith, nothing, smaller)))
        | inr has ↦ inr (there e es (subst (λ n. Has n es) same has))
      ]
]

highest-bounds : (es : List Entry) → All (λ (e : Entry). e.seq ≤ highest es) es
unfolding highest
highest-bounds [] = tt
highest-bounds (e ∷ es) =
    (omega arith, All-le (highest es) (max e.seq (highest es)) es (omega arith) (highest-bounds es))

pub highest-IsLargest : (es : List Entry) → IsLargest (highest es) es
highest-IsLargest es = record { bounds = highest-bounds es; attained = Has-or_nil es }

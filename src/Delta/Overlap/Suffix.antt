-- ===== src/Delta/Overlap/Suffix.antt =====
-- What the result of `overlap` says of the two texts.
use livi_agent.Prelude.{
  ℕ, zero, suc, ◌-◌, ◌≤◌, min, Bool, true, false, ◌&&◌, ◌||◌, Option, none, some, nat_eq, list_eq,
  list_beq_iff, ◌==◌, length, take, drop, ltb, leb, if◌then◌else◌, arith, ◌≡◌, refl, sym, ap, subst,
  ◌∙◌, inl, inr, Bool-cases, Option-cases, length-drop,
}
use livi_agent.Prelude.Cuts.{drop_all, drop-drop}
use livi_agent.Delta.{Text}
use livi_agent.Delta.Overlap.{index_from, candidates, overlap}

-- The last `n` units of `a` are the first `n` of `b`.
unfoldable pub Overlaps : Text → Text → ℕ → Type 0
Overlaps a b n = (n ≤ length a) × (n ≤ length b) × (drop (length a - n) a ≡ take n b)

drop_rest : (k : ℕ) (a : Text) → drop (length a - (length a - k)) a ≡ drop k a
drop_rest k a = elim (Bool-cases (leb k (length a))) [
  | inl h ↦ ap (λ n. drop n a) (ground arith)
  | inr h ↦
      drop_all (length a - (length a - k)) a (ground arith) ∙ sym (drop_all k a (ground arith))
]

candidates-Overlaps :
    (tail head b : Text) (from left n : ℕ)
    → candidates tail head b from left ≡ some n
    → Overlaps tail b n
unfolding candidates Overlaps
candidates-Overlaps tail head b from zero n h = cc
candidates-Overlaps tail head b from (suc left) n h =
    elim (Option-cases (index_from head tail from)) [
      | inl e ↦ ground (arith, e, h)
      | inr (k, e) ↦
          elim (Bool-cases
            (leb (length tail - k) (length b) && drop k tail == take (length tail - k) b)) [
              | inl q ↦ ground (
                arith,
                e,
                h,
                q,
                list_beq_iff (drop k tail) (take (length tail - k) b),
                drop_rest k tail,
              )
              | inr q ↦ candidates-Overlaps tail head b (suc k) left n (ground (arith, e, h, q))
            ]
    ]

none-Overlaps : (a b : Text) → Overlaps a b 0
unfolding Overlaps
none-Overlaps a b = (omega arith, omega arith, drop_all (length a - 0) a (omega arith))

cut-Overlaps :
    (m : ℕ) (a b : Text) (n : ℕ) → m ≤ length a → Overlaps (drop m a) b n → Overlaps a b n
unfolding Overlaps
cut-Overlaps m a b n h (l, r, e) = (
  omega (arith, l, length-drop m a),
  r,
  ap (λ k. drop k a) (omega (arith, l, h, length-drop m a))
      ∙ sym (drop-drop m (length (drop m a) - n) a)
      ∙ e,
)

-- The head of the longest probe first, and then that of one unit.
attempts-Overlaps :
    (a b : Text) (o p : Option ℕ) (single : Bool)
    → ((n : ℕ) → o ≡ some n → Overlaps a b n)
    → ((n : ℕ) → p ≡ some n → Overlaps a b n)
    → Overlaps a b
        (elim o [ some n ↦ n | none ↦ if single then 0 else elim p [ some n ↦ n | none ↦ 0 ] ])
attempts-Overlaps a b (some n) p single f g = f n refl
attempts-Overlaps a b none p true f g = none-Overlaps a b
attempts-Overlaps a b none (some n) false f g = g n refl
attempts-Overlaps a b none none false f g = none-Overlaps a b

searched-Overlaps :
    (a tail head b : Text) (scan left n : ℕ)
    → tail ≡ (if ltb scan (length a) then drop (length a - scan) a else a)
    → candidates tail head b 0 left ≡ some n
    → Overlaps a b n
searched-Overlaps a tail head b scan left n e h =
    let found = candidates-Overlaps tail head b 0 left n h in
    elim (Bool-cases (ltb scan (length a))) [
      | inl q ↦
          cut-Overlaps (length a - scan) a b n (omega arith)
            (subst (λ t. Overlaps t b n) (ground (arith, e, q)) found)
      | inr q ↦ subst (λ t. Overlaps t b n) (ground (arith, e, q)) found
    ]

-- Whatever the bounds on the search, the last units of `a` and the first of `b` agree on the length that
-- `overlap` returns, which neither of the texts is shorter than.
pub overlap-Overlaps :
    (a b : Text) (scan probe max_candidates : ℕ)
    → Overlaps a b (overlap a b scan probe max_candidates)
unfolding overlap
overlap-Overlaps a b scan probe max_candidates =
    let tail = if ltb scan (length a) then drop (length a - scan) a else a in
    let h = take (min probe (length b)) b in
    elim (Bool-cases ((length a == 0) || (length b == 0) || (scan == 0))) [
      | inl q ↦ rw q (none-Overlaps a b)
      | inr q ↦ rw q (
          attempts-Overlaps a b (candidates tail h b 0 max_candidates)
            (candidates tail (take 1 b) b 0 max_candidates) (min probe (length b) == 1)
            (λ n e. searched-Overlaps a tail h b scan max_candidates n refl e)
            (λ n e. searched-Overlaps a tail (take 1 b) b scan max_candidates n refl e))
    ]

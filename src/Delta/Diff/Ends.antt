-- ===== src/Delta/Diff/Ends.antt =====
-- The equal beginnings and ends of two lists.
use livi_agent.Prelude.{
  ℕ, zero, suc, ◌+◌, ◌-◌, ◌≤◌, List, [], ◌∷◌, ◌++◌, All, ◌≡◌, sym, ap, subst, ◌∙◌, inl, inr, arith,
  length, take, drop, reverse, Bool-cases, take-append-drop, length-drop,
}
use mathlib.Core.List.{reverse_aux, reverse-append, reverse-reverse}
use livi_agent.Prelude.Cuts.{drop-drop, take-length_append}
use livi_agent.Delta.{Json, Items, nil, cons}
use livi_agent.Delta.Value.{WellKeyed, ItemsKeyed, elements}
use livi_agent.Delta.Diff.{json_equal, equal_prefix, equal_suffix}
use livi_agent.Delta.Diff.Lists.{SameList, SameList-reverse}
use livi_agent.Delta.Diff.Equal.{json_equal-Same}

pub ItemsKeyed-All : (items : Items) → ItemsKeyed items → All WellKeyed (elements items)
unfolding ItemsKeyed elements
ItemsKeyed-All nil h = tt
ItemsKeyed-All (cons v items) (k, h) = (k, ItemsKeyed-All items h)

All-drop : (n : ℕ) (xs : List Json) → All WellKeyed xs → All WellKeyed (drop n xs)
All-drop zero xs h = h
All-drop (suc n) [] h = h
All-drop (suc n) (x ∷ xs) (k, h) = All-drop n xs h

All-reverse_aux :
    (xs ys : List Json) → All WellKeyed xs → All WellKeyed ys → All WellKeyed (reverse_aux xs ys)
All-reverse_aux [] ys h g = g
All-reverse_aux (x ∷ xs) ys (k, h) g = All-reverse_aux xs (x ∷ ys) h (k, g)

length-reverse_aux : (xs ys : List Json) → length (reverse_aux xs ys) ≡ length xs + length ys
length-reverse_aux [] ys = omega arith
length-reverse_aux (x ∷ xs) ys = omega (arith, length-reverse_aux xs (x ∷ ys))

-- How long two lists agree from their first values on.
pub equal_prefix_lem :
    (xs ys : List Json)
    → All WellKeyed xs
    → All WellKeyed ys
    → (equal_prefix xs ys ≤ length xs)
      × (equal_prefix xs ys ≤ length ys)
      × SameList (take (equal_prefix xs ys) xs) (take (equal_prefix xs ys) ys)
unfolding equal_prefix SameList
equal_prefix_lem [] ys hx hy = (omega arith, omega arith, tt)
equal_prefix_lem (x ∷ xs) [] hx hy = (omega arith, omega arith, tt)
equal_prefix_lem (x ∷ xs) (y ∷ ys) (kx, hx) (ky, hy) = elim (Bool-cases (json_equal x y)) [
  | inr e ↦ rw e (omega arith, omega arith, tt)
  | inl e ↦
      let (a, b, s) = equal_prefix_lem xs ys hx hy in
      rw e (omega (arith, a), omega (arith, b), (json_equal-Same x y kx ky e, s))
]

reverse_end :
    (k : ℕ) (xs : List Json)
    → k ≤ length xs
    → reverse (take k (reverse xs)) ≡ drop (length xs - k) xs
reverse_end k xs h =
    let n = length xs - k in
    let us = reverse (take n xs) in
    let vs = reverse (drop n xs) in
    let l : length vs ≡ k = omega (arith, length-reverse_aux (drop n xs) [], length-drop n xs, h) in
    let e : reverse xs ≡ vs ++ us =
      ap reverse (sym (take-append-drop n xs)) ∙ reverse-append (take n xs) (drop n xs) in
    ap (λ x. reverse (take k x)) e
    ∙ ap (λ j. reverse (take j (vs ++ us))) (sym l)
    ∙ ap reverse (take-length_append vs us)
    ∙ reverse-reverse (drop n xs)

from_end :
    (prefix k : ℕ) (xs : List Json)
    → prefix ≤ length xs
    → k ≤ length (drop prefix xs)
    → reverse (take k (reverse (drop prefix xs))) ≡ drop (length xs - k) xs
from_end prefix k xs p h =
    let e : prefix + (length (drop prefix xs) - k) ≡ length xs - k =
      omega (arith, length-drop prefix xs, p, h) in
    reverse_end k (drop prefix xs) h
    ∙ drop-drop prefix (length (drop prefix xs) - k) xs
    ∙ ap (λ n. drop n xs) e

-- How long two lists agree up to their last values, without the first `prefix` ones.
pub equal_suffix_lem :
    (prefix : ℕ) (xs ys : List Json)
    → All WellKeyed xs
    → All WellKeyed ys
    → prefix ≤ length xs
    → prefix ≤ length ys
    → (prefix + equal_suffix prefix xs ys ≤ length xs)
      × (prefix + equal_suffix prefix xs ys ≤ length ys)
      × SameList
          (drop (length xs - equal_suffix prefix xs ys) xs)
          (drop (length ys - equal_suffix prefix xs ys) ys)
unfolding equal_suffix
equal_suffix_lem prefix xs ys hx hy p q =
    let X = drop prefix xs in
    let Y = drop prefix ys in
    let k = equal_prefix (reverse X) (reverse Y) in
    let (a, b, s) =
      equal_prefix_lem (reverse X) (reverse Y) (All-reverse_aux X [] (All-drop prefix xs hx) tt)
        (All-reverse_aux Y [] (All-drop prefix ys hy) tt) in
    let ax : k ≤ length X = omega (arith, a, length-reverse_aux X []) in
    let ay : k ≤ length Y = omega (arith, b, length-reverse_aux Y []) in
    (
      omega (arith, ax, length-drop prefix xs, p),
      omega (arith, ay, length-drop prefix ys, q),
      subst (λ x. SameList x (drop (length ys - k) ys)) (from_end prefix k xs p ax)
          (subst (λ y. SameList (reverse (take k (reverse X))) y) (from_end prefix k ys q ay)
            (SameList-reverse (take k (reverse X)) (take k (reverse Y)) s)),
    )

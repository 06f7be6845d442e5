-- ===== src/Delta/Diff/Lists.antt =====
-- Lists of values that are the same one by one.
use livi_agent.Prelude.{
  ℕ, zero, suc, none, some, List, [], ◌∷◌, ◌++◌, ◌≡◌, refl, sym, ap, subst, ◌∙◌, arith, length,
  reverse,
}
use mathlib.Core.List.{reverse_aux}
use livi_agent.Delta.{Json, array, key, index}
use livi_agent.Delta.Value.{
  Same, Same-refl, Same-parts, elements, items_of, elements-items_of, shape, list_of, part, nth,
}

unfoldable pub SameList : List Json → List Json → Type 0
SameList [] [] = Unit {0}
SameList (x ∷ xs) (y ∷ ys) = Same (some x) (some y) × SameList xs ys
SameList _ _ = ⊥

pub SameList-refl : (xs : List Json) → SameList xs xs
unfolding SameList
SameList-refl [] = tt
SameList-refl (x ∷ xs) = (Same-refl (some x), SameList-refl xs)

pub SameList-append :
    (xs ys us vs : List Json) → SameList xs ys → SameList us vs → SameList (xs ++ us) (ys ++ vs)
unfolding SameList
SameList-append [] [] us vs h g = g
SameList-append (x ∷ xs) (y ∷ ys) us vs (s, h) g = (s, SameList-append xs ys us vs h g)
SameList-append [] (y ∷ ys) us vs h g = absurd h
SameList-append (x ∷ xs) [] us vs h g = absurd h

SameList-reverse_aux :
    (xs ys us vs : List Json)
    → SameList xs ys
    → SameList us vs
    → SameList (reverse_aux xs us) (reverse_aux ys vs)
unfolding SameList
SameList-reverse_aux [] [] us vs h g = g
SameList-reverse_aux (x ∷ xs) (y ∷ ys) us vs (s, h) g =
    SameList-reverse_aux xs ys (x ∷ us) (y ∷ vs) h (s, g)
SameList-reverse_aux [] (y ∷ ys) us vs h g = absurd h
SameList-reverse_aux (x ∷ xs) [] us vs h g = absurd h

pub SameList-reverse : (xs ys : List Json) → SameList xs ys → SameList (reverse xs) (reverse ys)
unfolding SameList
SameList-reverse xs ys h = SameList-reverse_aux xs ys [] [] h tt

pub SameList-length : (xs ys : List Json) → SameList xs ys → length xs ≡ length ys
unfolding SameList
SameList-length [] [] h = refl
SameList-length (x ∷ xs) (y ∷ ys) (s, h) = omega (arith, SameList-length xs ys h)
SameList-length [] (y ∷ ys) h = absurd h
SameList-length (x ∷ xs) [] h = absurd h

SameList-nth : (xs ys : List Json) (n : ℕ) → SameList xs ys → Same (nth xs n) (nth ys n)
unfolding SameList
SameList-nth [] [] n h = Same-refl none
SameList-nth (x ∷ xs) (y ∷ ys) zero (s, h) = s
SameList-nth (x ∷ xs) (y ∷ ys) (suc n) (s, h) = SameList-nth xs ys n h
SameList-nth [] (y ∷ ys) n h = absurd h
SameList-nth (x ∷ xs) [] n h = absurd h

lengths :
    (xs ys : List Json)
    → length xs ≡ length ys
    → length (elements (items_of xs)) ≡ length (elements (items_of ys))
lengths xs ys h = ap length (elements-items_of xs) ∙ h ∙ sym (ap length (elements-items_of ys))

pub items_of-Same :
    (xs ys : List Json)
    → SameList xs ys
    → Same (some (array (items_of xs))) (some (array (items_of ys)))
unfolding shape part
items_of-Same xs ys h =
    Same-parts (array (items_of xs)) (array (items_of ys))
      (ap list_of (lengths xs ys (SameList-length xs ys h)))
      (λ s. elim s as (λ s. Same (part (array (items_of xs)) s) (part (array (items_of ys)) s)) [
        | key k ↦ Same-refl none
        | index n ↦
            subst (λ us. Same (nth us n) (part (array (items_of ys)) (index n)))
              (sym (elements-items_of xs))
              (subst (λ vs. Same (nth xs n) (nth vs n)) (sym (elements-items_of ys))
                (SameList-nth xs ys n h))
      ])

-- ===== src/Delta/Diff/Equal.antt =====
-- Values that `jsonEqual` takes for equal are the same.
use livi_agent.Prelude.{
  Bool, true, false, Option, none, some, String, string_eq, nat_eq, list_eq, list_beq_iff,
  nat_beq_iff, ◌==◌, ◌≡◌, refl, sym, ap, subst, ◌∙◌, inl, inr, arith, length, Bool-cases,
  Option-cases, some_inj, and_left, and_right,
}
use livi_agent.Prelude.Assoc
use livi_agent.Prelude.Assoc.{Assoc, keys}
use livi_agent.Prelude.Assoc.Pigeon.{DistinctKeys, length-lt}
use livi_agent.Delta.{
  Json, Items, Fields, null, bool, number, text, array, object, nil, cons, end, field, key, index,
}
use livi_agent.Delta.Value.{
  Same, Same-refl, Same-parts, WellKeyed, ItemsKeyed, FieldsKeyed, get-WellKeyed, elements, entries,
  items_of, items_of-elements, shape, part,
}
use livi_agent.Delta.Diff.{bool_beq, json_equal, items_equal, fields_equal}
use livi_agent.Delta.Diff.Lists.{SameList, items_of-Same}

pub bool_beq_lem : (a b : Bool) → bool_beq a b ≡ true → a ≡ b
bool_beq_lem true true h = refl
bool_beq_lem true false h = cc
bool_beq_lem false true h = cc
bool_beq_lem false false h = refl

leaf_Same : {v w : Json} → v ≡ w → Same (some v) (some w)
leaf_Same {v} e = subst (λ x. Same (some v) (some x)) e (Same-refl (some v))

-- Every field of `f` is in `g` with the same value.
abbrev Within : Assoc String Json → Assoc String Json → Type 0
Within f g =
    (k : String) (v : Json)
    → Assoc.get f k ≡ some v
    → (w : Json) × (Assoc.get g k ≡ some w) × Same (some v) (some w)

FieldsKeyed-DistinctKeys : (f : Fields) → FieldsKeyed f → DistinctKeys (entries f)
unfolding FieldsKeyed entries
FieldsKeyed-DistinctKeys end h = tt
FieldsKeyed-DistinctKeys (field k v f) (n, w, h) = (n, FieldsKeyed-DistinctKeys f h)

-- As many keys of `f`, all of them different and in `g`, leave no other key of `g`.
all_keys :
    (f g : Fields)
    → FieldsKeyed f
    → length (entries f) ≡ length (entries g)
    → Within (entries f) (entries g)
    → (k : String) → Assoc.get (entries f) k ≡ none
    → Assoc.get (entries g) k ≡ none
all_keys f g hf l w k h = elim (Option-cases (Assoc.get (entries g) k)) [
  | inl e ↦ e
  | inr (v, e) ↦
      let t =
        length-lt (entries f) (entries g) k (FieldsKeyed-DistinctKeys f hf)
          (λ j q. elim (Option-cases (Assoc.get (entries f) j)) [
            | inl n ↦ ground (arith, n, q)
            | inr (u, n) ↦ let (u', n', s) = w j u n in ground (arith, n')
          ])
          h (ground (arith, e)) in
      ground (arith, t, l)
]

object_Same :
    (f g : Fields)
    → FieldsKeyed f
    → length (entries f) ≡ length (entries g)
    → Within (entries f) (entries g)
    → Same (some (object f)) (some (object g))
unfolding shape part
object_Same f g hf l w = Same-parts (object f) (object g) refl λ s.
    elim s as (λ s. Same (part (object f) s) (part (object g) s)) [
      | index n ↦ Same-refl none
      | key k ↦ elim (Option-cases (Assoc.get (entries f) k)) [
        | inl n ↦
            subst (λ o. Same o (Assoc.get (entries g) k)) (sym n)
              (subst (Same none) (sym (all_keys f g hf l w k n)) (Same-refl none))
        | inr (v, n) ↦
            let (v', n', s) = w k v n in
            subst (λ o. Same o (Assoc.get (entries g) k)) (sym n) (subst (Same (some v)) (sym n') s)
      ]
    ]

array_Same :
    (xs ys : Items)
    → SameList (elements xs) (elements ys)
    → Same (some (array xs)) (some (array ys))
array_Same xs ys h =
    subst (λ x. Same (some (array x)) (some (array ys))) (items_of-elements xs)
      (subst (λ y. Same (some (array (items_of (elements xs)))) (some (array y)))
        (items_of-elements ys) (items_of-Same (elements xs) (elements ys) h))

found_equal :
    (u : Json) (o : Option Json) (w : Json)
    → o ≡ some w
    → elim o [ none ↦ false | some x ↦ json_equal u x ] ≡ true
    → json_equal u w ≡ true
found_equal u none w e h = cc
found_equal u (some x) w e h = subst (λ y. json_equal u y ≡ true) (some_inj e) h

mutual
  unfolding json_equal WellKeyed SameList entries elements Assoc.get

  pub json_equal-Same :
      (v w : Json) → WellKeyed v → WellKeyed w → json_equal v w ≡ true → Same (some v) (some w)
  json_equal-Same null null hv hw h = Same-refl (some null)
  json_equal-Same (bool a) (bool b) hv hw h = leaf_Same (ap bool (bool_beq_lem a b h))
  json_equal-Same (number m) (number n) hv hw h = leaf_Same (ap number ((nat_beq_iff m n).0 h))
  json_equal-Same (text s) (text t) hv hw h = leaf_Same (ap text ((list_beq_iff s t).0 h))
  json_equal-Same (array xs) (array ys) hv hw h = array_Same xs ys (
      items_equal-Same xs ys hv hw
        ((nat_beq_iff (length (elements xs)) (length (elements ys))).0 (and_left _ _ h))
        (and_right (length (elements xs) == length (elements ys)) _ h))
  json_equal-Same (object f) (object g) hv hw h =
      object_Same f g hv
        ((nat_beq_iff (length (entries f)) (length (entries g))).0 (and_left _ _ h))
        (fields_equal-Same f g hv hw (and_right (length (entries f) == length (entries g)) _ h))
  json_equal-Same v w hv hw h = cc

  items_equal-Same :
      (xs ys : Items)
      → ItemsKeyed xs
      → ItemsKeyed ys
      → length (elements xs) ≡ length (elements ys)
      → items_equal xs ys ≡ true
      → SameList (elements xs) (elements ys)
  items_equal-Same nil nil hx hy l h = tt
  items_equal-Same nil (cons y ys) hx hy l h = ground (arith, l)
  items_equal-Same (cons x xs) nil hx hy l h = ground (arith, l)
  items_equal-Same (cons x xs) (cons y ys) (kx, hx) (ky, hy) l h = (
    json_equal-Same x y kx ky (and_left (json_equal x y) _ h),
    items_equal-Same xs ys hx hy (omega (arith, l)) (and_right (json_equal x y) _ h),
  )

  fields_equal-Same :
      (f g : Fields)
      → FieldsKeyed f
      → FieldsKeyed g
      → fields_equal f g ≡ true
      → Within (entries f) (entries g)
  fields_equal-Same end g hf hg h k v e = cc
  fields_equal-Same (field j u f) g (n, hu, hf) hg h k v e = elim (Bool-cases (j == k)) [
    | inl q ↦ elim (Option-cases (Assoc.get (entries g) j)) [
      | inl i ↦ ground (arith, i, h)
      | inr (w, i) ↦ (
        w,
        ap (Assoc.get (entries g)) (sym ((string_eq.beq_iff j k).0 q)) ∙ i,
        subst (λ x. Same (some x) (some w)) (some_inj (ground (arith, e, q)))
            (json_equal-Same u w hu (get-WellKeyed g j w hg i)
              (found_equal u (Assoc.get (entries g) j) w i (and_left _ _ h))),
      )
    ]
    | inr q ↦ fields_equal-Same f g hf hg (and_right _ _ h) k v (ground (arith, e, q))
  ]

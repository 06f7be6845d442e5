-- ===== src/Delta/Diff/Elements.antt =====
-- The operations on the items of an array.
use livi_agent.Prelude.{
  ℕ, some, List, [], ◌∷◌, ◌++◌, append_assoc, String, nat_eq, ◌≡◌, refl, sym, ap, subst, ◌∙◌, arith,
  length, take, drop,
}
use livi_agent.Prelude.Cuts.{drop_all}
use livi_agent.Delta.{Json, array, index, JsonPath, Op, ok, assert_safe_path}
use livi_agent.Delta.Value.{elements, items_of, elements-items_of, nth}
use livi_agent.Delta.Apply.{own, child, set_child, store, edit_array, splice_at, splice_items}
use livi_agent.Delta.Apply.Place.{Acts, Acts-none, Acts-append, Acts-child, Acts-splice}
use livi_agent.Delta.Apply.Splice.{splice_items_lem}
use livi_agent.Delta.Diff.{splice_op}
use livi_agent.Delta.Diff.Leads.{Leads}
use livi_agent.Delta.Diff.Lists.{SameList}

nth-length_append : (pre xs : List Json) (x : Json) → nth (pre ++ x ∷ xs) (length pre) ≡ some x
nth-length_append [] xs x = refl
nth-length_append (w ∷ pre) xs x = nth-length_append pre xs x

store-length_append :
    (pre xs : List Json) (x y : Json) → store (pre ++ x ∷ xs) (length pre) y ≡ pre ++ y ∷ xs
unfolding store
store-length_append [] xs x y = refl
store-length_append (w ∷ pre) xs x y = ap (λ z. w ∷ z) (store-length_append pre xs x y)

module _ (digits : ℕ → String) where
  -- The array with the items `vs`, after the operations.
  unfoldable pub Turns : JsonPath → List Op → List Json → List Json → Type 0
  Turns p ops vs vs' = Acts digits p ops (array (items_of vs)) (array (items_of vs'))

  -- One item, behind those before it.
  item_Turns :
      (p : JsonPath) (ops : List Op) (pre xs : List Json) (x x' : Json)
      → Acts digits (p ++ index (length pre) ∷ []) ops x x'
      → Turns p ops (pre ++ x ∷ xs) (pre ++ x' ∷ xs)
  unfolding Turns child set_child
  item_Turns p ops pre xs x x' a =
      let vs = pre ++ x ∷ xs in
      let e : elements (items_of vs) ≡ vs = elements-items_of vs in
      let there : child digits (array (items_of vs)) (index (length pre)) ≡ ok x =
        ap own (ap (λ us. nth us (length pre)) e ∙ nth-length_append pre xs x) in
      let w = Acts-child digits p (index (length pre)) ops (array (items_of vs)) x x' there a in
      subst (λ us. Acts digits p ops (array (items_of vs)) (array (items_of us)))
        (ap (λ us. store us (length pre) x') e ∙ store-length_append pre xs x x') w

  -- The items behind `pre` are those of `ys` as far as there are both.
  unfoldable pub Zips : JsonPath → List Op → List Json → List Json → List Json → Type 0
  Zips p ops pre xs ys =
      (hs : List Json) × Turns p ops (pre ++ xs) (pre ++ (hs ++ drop (length ys) xs))
      × SameList hs (take (length xs) ys)

  pub left_Zips : (p : JsonPath) (pre ys : List Json) → Zips p [] pre [] ys
  unfolding Zips Turns SameList
  left_Zips p pre ys = (
    [],
    subst (λ us. Acts digits p [] (array (items_of (pre ++ []))) (array (items_of (pre ++ us))))
        (sym (drop_all (length ys) [] (omega arith))) (Acts-none digits p _),
    tt,
  )

  pub right_Zips :
      (p : JsonPath) (pre : List Json) (x : Json) (xs : List Json) → Zips p [] pre (x ∷ xs) []
  unfolding Zips Turns SameList
  right_Zips p pre x xs = ([], Acts-none digits p _, tt)

  pub cons_Zips :
      (p : JsonPath) (ops more : List Op) (pre xs ys : List Json) (x y : Json)
      → Leads digits (p ++ index (length pre) ∷ []) ops x y
      → ((x' : Json) → Zips p more (pre ++ x' ∷ []) xs ys)
      → Zips p (ops ++ more) pre (x ∷ xs) (y ∷ ys)
  unfolding Zips Leads Turns SameList
  cons_Zips p ops more pre xs ys x y (x', a, s) f =
      let (hs, b, t) = f x' in
      let shift : (us : List Json) → (pre ++ x' ∷ []) ++ us ≡ pre ++ x' ∷ us =
        λ us. append_assoc pre (x' ∷ []) us in
      (
        x' ∷ hs,
        Acts-append digits p ops more _ (array (items_of (pre ++ x' ∷ xs))) _
            (item_Turns p ops pre xs x x' a)
            (subst (λ us. Turns p more us (pre ++ x' ∷ (hs ++ drop (length ys) xs))) (shift xs)
              (subst (Turns p more ((pre ++ x' ∷ []) ++ xs)) (shift (hs ++ drop (length ys) xs))
                b)),
        (s, t),
      )

  -- One splice.
  pub splice_op-Turns :
      (p : JsonPath) (i r : ℕ) (vs us : List Json)
      → assert_safe_path p ≡ ok tt
      → Turns p (splice_op p i r us) vs (splice_at i r us vs)
  unfolding Turns splice_op edit_array
  splice_op-Turns p i r vs us h = Acts-splice digits p _ _ i r (items_of us) h (
      ap (λ x. ok (array (items_of (splice_items i r (elements (items_of us)) x))))
        (elements-items_of vs)
      ∙ ap (λ x. ok (array (items_of (splice_items i r x vs)))) (elements-items_of us)
      ∙ ap (λ x. ok (array (items_of x))) (splice_items_lem i r us vs))

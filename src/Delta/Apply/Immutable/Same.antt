-- ===== src/Delta/Apply/Immutable/Same.antt =====
-- `applyImmutable` against `apply`.
use livi_agent.Prelude.{
  ℕ, true, Option, none, some, List, [], ◌∷◌, String, string_eq, ◌≡◌, ◌≢◌, ◌↔◌, refl, sym, ap, ◌∙◌,
  inl, inr, arith, Option-cases,
}
use livi_agent.Delta.{
  Json, Items, array, object, Seg, key, JsonPath, Edit, splice, Op, replace, change, ok, ◌>>=◌,
  bind_ok, ok_inj, assert_valid_op, assert_safe_path,
}
use livi_agent.Delta.Apply.{
  child, set_child, resolve_value, edit_member, edit_array, edit_last, edit_at, put_at, init, last,
  apply_op, apply,
}
use livi_agent.Delta.Apply.Store.{set_child_same}
use livi_agent.Delta.Apply.Place.{right_unit}
use livi_agent.Delta.Apply.Immutable.{
  is_container, copy, copied_path, copied_child, copy_path, copy_containers, apply_immutable,
}

module _ (digits : ℕ → String) where
  copied_child_lem :
      (v w : Json) (s : Seg) → copied_child digits v s ≡ ok w → child digits v s ≡ ok w
  unfolding copied_child
  copied_child_lem (array items) w (key k) h = ground (arith, h)
  copied_child_lem v w s h = h

  child_copied : (v w : Json) (s : Seg) → child digits v s ≡ ok w → copied_child digits v s ≡ ok w
  unfolding copied_child child
  child_copied (array items) w (key k) h = cc
  child_copied v w s h = h

  copy_lem : (v w : Json) → copy v ≡ ok w → w ≡ v
  unfolding copy
  copy_lem v w h = ground (arith, h)

  copy_path_lem : (v v' : Json) (p : JsonPath) → copy_path digits v p ≡ ok v' → v' ≡ v
  unfolding copy_path
  copy_path_lem v v' [] h = sym (ok_inj h)
  copy_path_lem v v' (s ∷ p) h =
      let (w, a, f) = bind_ok (copied_child digits v s) _ v' h in
      let (d, b, g) = bind_ok (copy w) _ v' f in
      let (u, c, e) = bind_ok (copy_path digits d p) _ v' g in
      sym (ok_inj e)
      ∙ ap (set_child digits v s) (copy_path_lem d u p c ∙ copy_lem w d b)
      ∙ set_child_same digits v s w (copied_child_lem v w s a)

  -- A copy is the value that was copied.
  copy_containers_lem : (v v' : Json) (p : JsonPath) → copy_containers digits v p ≡ ok v' → v' ≡ v
  unfolding copy_containers
  copy_containers_lem v v' p h =
      let (d, b, g) = bind_ok (copy v) _ v' h in copy_path_lem d v' p g ∙ copy_lem v d b

  parent_container : (v w : Json) (s : Seg) → child digits v s ≡ ok w → is_container v ≡ true
  unfolding child
  parent_container (array items) w s h = refl
  parent_container (object fields) w s h = refl
  parent_container v w s h = cc

  root_container :
      (v b : Json) (p : JsonPath)
      → resolve_value digits v p ≡ ok b
      → is_container b ≡ true
      → is_container v ≡ true
  unfolding resolve_value
  root_container v b [] h c = ap is_container (ok_inj h) ∙ c
  root_container v b (s ∷ p) h c =
      let (w, e, f) = bind_ok (child digits v s) _ b h in parent_container v w s e

  copy_container : (v : Json) → is_container v ≡ true → copy v ≡ ok v
  unfolding copy
  copy_container v c = rw c refl

  copies_path :
      (v b : Json) (p : JsonPath)
      → resolve_value digits v p ≡ ok b
      → is_container b ≡ true
      → copy_path digits v p ≡ ok v
  unfolding copy_path resolve_value
  copies_path v b [] h c = refl
  copies_path v b (s ∷ p) h c =
      let (w, e, f) = bind_ok (child digits v s) _ b h in
      rw (child_copied v w s e, copy_container w (root_container w b p f c), copies_path w b p f c)
        (ap ok (set_child_same digits v s w e))

  copies_containers :
      (v b : Json) (p : JsonPath)
      → resolve_value digits v p ≡ ok b
      → is_container b ≡ true
      → copy_containers digits v p ≡ ok v
  unfolding copy_containers
  copies_containers v b p h c =
      rw (copy_container v (root_container v b p h c)) (copies_path v b p h c)

  edit_member_container :
      (v w : Json) (s : Seg) (e : Edit) → edit_member digits v s e ≡ ok w → is_container v ≡ true
  unfolding edit_member
  edit_member_container (array items) w s e h = refl
  edit_member_container (object fields) w s e h = refl
  edit_member_container v w s e h = cc

  edit_array_container :
      (v w : Json) (i r : ℕ) (items : Items)
      → edit_array digits v i r items ≡ ok w
      → is_container v ≡ true
  unfolding edit_array
  edit_array_container (array vs) w i r items h = refl
  edit_array_container v w i r items h = cc

  edit_last-some :
      (v : Json) (p : JsonPath) (s : Seg) (e : Edit)
      → last p ≡ some s
      → edit_last digits v p e ≡ (
          resolve_value digits v (init p) >>= λ b.
          edit_member digits b s e >>= λ b'. ok (put_at digits v (init p) b'))
  unfolding edit_last
  edit_last-some v p s e n = ground (arith, n)

  last_copies :
      (v v' : Json) (p : JsonPath) (e : Edit)
      → edit_last digits v p e ≡ ok v'
      → copy_containers digits v (init p) ≡ ok v
  unfolding edit_last
  last_copies v v' p e h = elim (Option-cases (last p)) [
    | inl n ↦ ground (arith, h, n)
    | inr (s, n) ↦
        let (b, f, g) =
          bind_ok (resolve_value digits v (init p)) _ v' (sym (edit_last-some v p s e n) ∙ h) in
        let (b', k, l) = bind_ok (edit_member digits b s e) _ v' g in
        copies_containers v b (init p) f (edit_member_container b b' s e k)
  ]

  -- Where an operation applies, the containers on its path can be copied.
  edit_at_copies :
      (v v' : Json) (p : JsonPath) (e : Edit)
      → edit_at digits v p e ≡ ok v'
      → copy_containers digits v (copied_path p e) ≡ ok v
  unfolding edit_at
  edit_at_copies v v' p (splice i r items) h =
      let (b, f, g) = bind_ok (resolve_value digits v p) _ v' h in
      let (b', k, l) = bind_ok (edit_array digits b i r items) _ v' g in
      copies_containers v b p f (edit_array_container b b' i r items k)
  edit_at_copies v v' p e h = last_copies v v' p e h

  change_copies :
      (v : Json) (r : Option Json) (p : JsonPath) (e : Edit)
      → apply_op digits (some v) (change p e) ≡ ok r
      → copy_containers digits v (copied_path p e) ≡ ok v
  unfolding apply_op
  change_copies v r p e h =
      let (t, a, f) = bind_ok (assert_valid_op (change p e)) _ r h in
      let (t', b, g) = bind_ok (assert_safe_path p) _ r f in
      let (v', c, k) = bind_ok (edit_at digits v p e) _ r g in edit_at_copies v v' p e c

  not_none : (r : Option Json) (p : JsonPath) (e : Edit) → apply_op digits none (change p e) ≢ ok r
  unfolding apply_op
  not_none r p e h =
      let (t, a, f) = bind_ok (assert_valid_op (change p e)) _ r h in
      let (t', b, g) = bind_ok (assert_safe_path p) _ r f in cc

  apply_single :
      (root : Option Json) (op : Op) → apply digits root (op ∷ []) ≡ apply_op digits root op
  unfolding apply
  apply_single root op = right_unit (apply_op digits root op)

  pub to_apply :
      (root r : Option Json) (ops : List Op)
      → apply_immutable digits root ops ≡ ok r
      → apply digits root ops ≡ ok r
  unfolding apply_immutable apply
  to_apply root r [] h = h
  to_apply root r (replace v ∷ ops) h = to_apply (some v) r ops h
  to_apply none r (change p e ∷ ops) h = cc
  to_apply (some v) r (change p e ∷ ops) h =
      let (copied, a, f) = bind_ok (copy_containers digits v (copied_path p e)) _ r h in
      let (r1, b, g) = bind_ok (apply digits (some copied) (change p e ∷ [])) _ r f in
      let c : apply_op digits (some v) (change p e) ≡ ok r1 =
        ap (λ x. apply_op digits (some x) (change p e))
          (sym (copy_containers_lem v copied (copied_path p e) a))
        ∙ sym (apply_single (some copied) (change p e))
        ∙ b in
      rw c (to_apply r1 r ops g)

  from_apply :
      (root r : Option Json) (ops : List Op)
      → apply digits root ops ≡ ok r
      → apply_immutable digits root ops ≡ ok r
  unfolding apply_immutable apply
  from_apply root r [] h = h
  from_apply root r (replace v ∷ ops) h = from_apply (some v) r ops h
  from_apply none r (change p e ∷ ops) h =
      let (r1, b, g) = bind_ok (apply_op digits none (change p e)) _ r h in
      absurd (not_none r1 p e b)
  from_apply (some v) r (change p e ∷ ops) h =
      let (r1, b, g) = bind_ok (apply_op digits (some v) (change p e)) _ r h in
      rw (change_copies v r1 p e b, apply_single (some v) (change p e) ∙ b) (from_apply r1 r ops g)

  -- `applyImmutable` gives a value where `apply` does, and the same one.
  pub apply_immutable_iff :
      (root r : Option Json) (ops : List Op)
      → (apply_immutable digits root ops ≡ ok r) ↔ (apply digits root ops ≡ ok r)
  apply_immutable_iff root r ops = (to_apply root r ops, from_apply root r ops)

-- ===== src/Delta/Apply/Place.antt =====
-- What operations at a path do to the value at that path, wherever it stands.
use livi_agent.Prelude.{
  ℕ, false, Option, some, List, [], ◌∷◌, ◌++◌, String, ◌≡◌, refl, sym, ap, ◌∙◌, arith,
}
use livi_agent.Delta.{
  Json, Seg, JsonPath, Edit, set, delete, append, trim, splice, Op, replace, change, Result, ok,
  err, ◌>>=◌, bind_ok, ok_inj, Items, assert_safe_path, assert_valid_op, is_splice, is_empty_path,
}
use livi_agent.Delta.Apply.{
  child, set_child, resolve_value, put_at, edit_member, edit_array, edit_last, edit_at, init, last,
  apply_op, apply,
}
use livi_agent.Delta.Apply.Store.{child-set_child, set_child-set_child, set_child_same}

pub right_unit {ℓ} : {A : Type ℓ} (m : Result A) → (m >>= λ w. ok w) ≡ m
right_unit (ok w) = refl
right_unit (err e) = refl

module _ (digits : ℕ → String) where
  pub resolve_value_cons :
      (r w : Json) (t : Seg) (p : JsonPath)
      → child digits r t ≡ ok w
      → resolve_value digits r (t ∷ p) ≡ resolve_value digits w p
  unfolding resolve_value
  resolve_value_cons r w t p e = ground (arith, e)

  put_at_cons :
      (r w c : Json) (t : Seg) (p : JsonPath)
      → child digits r t ≡ ok w
      → put_at digits r (t ∷ p) c ≡ set_child digits r t (put_at digits w p c)
  unfolding put_at
  put_at_cons r w c t p e = ground (arith, e)

  pub resolve_value_last :
      (r b : Json) (p : JsonPath) (s : Seg)
      → resolve_value digits r p ≡ ok b
      → resolve_value digits r (p ++ s ∷ []) ≡ child digits b s
  unfolding resolve_value
  resolve_value_last r b [] s h =
      right_unit (child digits r s) ∙ ap (λ x. child digits x s) (ok_inj h)
  resolve_value_last r b (t ∷ p) s h =
      let (w, e, f) = bind_ok (child digits r t) _ b h in rw e (resolve_value_last w b p s f)

  resolve_value-put_at :
      (r b c : Json) (p : JsonPath)
      → resolve_value digits r p ≡ ok b
      → resolve_value digits (put_at digits r p c) p ≡ ok c
  unfolding resolve_value put_at
  resolve_value-put_at r b c [] h = refl
  resolve_value-put_at r b c (t ∷ p) h =
      let (w, e, f) = bind_ok (child digits r t) _ b h in
      let v = put_at digits w p c in
      ap (λ x. resolve_value digits x (t ∷ p)) (put_at_cons r w c t p e)
      ∙ resolve_value_cons (set_child digits r t v) v t p (child-set_child digits r t w v e)
      ∙ resolve_value-put_at w b c p f

  put_at-put_at :
      (r b c d : Json) (p : JsonPath)
      → resolve_value digits r p ≡ ok b
      → put_at digits (put_at digits r p c) p d ≡ put_at digits r p d
  unfolding resolve_value put_at
  put_at-put_at r b c d [] h = refl
  put_at-put_at r b c d (t ∷ p) h =
      let (w, e, f) = bind_ok (child digits r t) _ b h in
      let v = put_at digits w p c in
      ap (λ x. put_at digits x (t ∷ p) d) (put_at_cons r w c t p e)
      ∙ put_at_cons (set_child digits r t v) v d t p (child-set_child digits r t w v e)
      ∙ set_child-set_child digits r t w v (put_at digits v p d) e
      ∙ ap (set_child digits r t) (put_at-put_at w b c d p f)
      ∙ sym (put_at_cons r w d t p e)

  pub put_at_last :
      (r b u c : Json) (p : JsonPath) (s : Seg)
      → resolve_value digits r p ≡ ok b
      → child digits b s ≡ ok u
      → put_at digits r (p ++ s ∷ []) c ≡ put_at digits r p (set_child digits b s c)
  unfolding resolve_value put_at
  put_at_last r b u c [] s h g =
      put_at_cons r u c s [] (ap (λ x. child digits x s) (ok_inj h) ∙ g)
      ∙ ap (λ x. set_child digits x s c) (ok_inj h)
  put_at_last r b u c (t ∷ p) s h g =
      let (w, e, f) = bind_ok (child digits r t) _ b h in
      put_at_cons r w c t (p ++ s ∷ []) e
      ∙ ap (set_child digits r t) (put_at_last w b u c p s f g)
      ∙ sym (put_at_cons r w (set_child digits b s c) t p e)

  put_at_same :
      (r b : Json) (p : JsonPath) → resolve_value digits r p ≡ ok b → put_at digits r p b ≡ r
  unfolding resolve_value put_at
  put_at_same r b [] h = sym (ok_inj h)
  put_at_same r b (t ∷ p) h =
      let (w, e, f) = bind_ok (child digits r t) _ b h in
      put_at_cons r w b t p e
      ∙ ap (set_child digits r t) (put_at_same w b p f)
      ∙ set_child_same digits r t w e

  -- Wherever the path leads to `b`, the operations have the effect that `b'` is put there.
  unfoldable pub Acts : JsonPath → List Op → Json → Json → Type 0
  Acts p ops b b' =
      (r : Json)
      → resolve_value digits r p ≡ ok b
      → apply digits (some r) ops ≡ ok (some (put_at digits r p b'))

  apply-append :
      (r r' : Option Json) (ops more : List Op)
      → apply digits r ops ≡ ok r'
      → apply digits r (ops ++ more) ≡ apply digits r' more
  unfolding apply
  apply-append r r' [] more h = ap (λ x. apply digits x more) (ok_inj h)
  apply-append r r' (op ∷ ops) more h =
      let (r1, e, f) = bind_ok (apply_op digits r op) _ r' h in rw e (apply-append r1 r' ops more f)

  pub Acts-none : (p : JsonPath) (b : Json) → Acts p [] b b
  unfolding Acts apply
  Acts-none p b r h = ap (λ x. ok (some x)) (sym (put_at_same r b p h))

  pub Acts-append :
      (p : JsonPath) (ops more : List Op) (b c d : Json)
      → Acts p ops b c
      → Acts p more c d
      → Acts p (ops ++ more) b d
  unfolding Acts
  Acts-append p ops more b c d f g r h =
      apply-append (some r) (some (put_at digits r p c)) ops more (f r h)
      ∙ g (put_at digits r p c) (resolve_value-put_at r b c p h)
      ∙ ap (λ x. ok (some x)) (put_at-put_at r b c d p h)

  pub Acts-child :
      (p : JsonPath) (s : Seg) (ops : List Op) (b u u' : Json)
      → child digits b s ≡ ok u
      → Acts (p ++ s ∷ []) ops u u'
      → Acts p ops b (set_child digits b s u')
  unfolding Acts
  Acts-child p s ops b u u' e f r h =
      f r (resolve_value_last r b p s h ∙ e) ∙ ap (λ x. ok (some x)) (put_at_last r b u u' p s h e)

  pub Acts-replace : (b v : Json) → Acts [] (replace v ∷ []) b v
  unfolding Acts apply apply_op
  Acts-replace b v r h = refl

  init_snoc : (p : JsonPath) (s : Seg) → init (p ++ s ∷ []) ≡ p
  init_snoc [] s = refl
  init_snoc (t ∷ []) s = refl
  init_snoc (t ∷ u ∷ p) s = ap (λ x. t ∷ x) (init_snoc (u ∷ p) s)

  last_snoc : (p : JsonPath) (s : Seg) → last (p ++ s ∷ []) ≡ some s
  last_snoc [] s = refl
  last_snoc (t ∷ []) s = refl
  last_snoc (t ∷ u ∷ p) s = last_snoc (u ∷ p) s

  apply-change :
      (r r' : Json) (p : JsonPath) (e : Edit)
      → assert_valid_op (change p e) ≡ ok tt
      → assert_safe_path p ≡ ok tt
      → edit_at digits r p e ≡ ok r'
      → apply digits (some r) (change p e ∷ []) ≡ ok (some r')
  unfolding apply apply_op
  apply-change r r' p e v a h = rw (v, a, h) refl

  pub Acts-splice :
      (p : JsonPath) (b b' : Json) (i n : ℕ) (items : Items)
      → assert_safe_path p ≡ ok tt
      → edit_array digits b i n items ≡ ok b'
      → Acts p (change p (splice i n items) ∷ []) b b'
  unfolding Acts edit_at assert_valid_op is_splice
  Acts-splice p b b' i n items s h r g =
      apply-change r (put_at digits r p b') p (splice i n items) (ground (arith, s)) s
        (rw (g, h) refl)

  edit_at-edit_last :
      (r : Json) (p : JsonPath) (e : Edit)
      → is_splice e ≡ false
      → edit_at digits r p e ≡ edit_last digits r p e
  unfolding edit_at is_splice
  edit_at-edit_last r p (set v) h = refl
  edit_at-edit_last r p delete h = refl
  edit_at-edit_last r p (append t) h = refl
  edit_at-edit_last r p (trim n) h = refl
  edit_at-edit_last r p (splice i n items) h = cc

  edit_last_snoc :
      (r b b' : Json) (p : JsonPath) (s : Seg) (e : Edit)
      → resolve_value digits r p ≡ ok b
      → edit_member digits b s e ≡ ok b'
      → edit_last digits r (p ++ s ∷ []) e ≡ ok (put_at digits r p b')
  unfolding edit_last
  edit_last_snoc r b b' p s e g h = ground (arith, last_snoc p s, init_snoc p s, g, h)

  not_empty : (p : JsonPath) (s : Seg) → is_empty_path (p ++ s ∷ []) ≡ false
  not_empty [] s = refl
  not_empty (t ∷ p) s = refl

  pub Acts-member :
      (p : JsonPath) (s : Seg) (b b' : Json) (e : Edit)
      → is_splice e ≡ false
      → assert_safe_path (p ++ s ∷ []) ≡ ok tt
      → edit_member digits b s e ≡ ok b'
      → Acts p (change (p ++ s ∷ []) e ∷ []) b b'
  unfolding Acts assert_valid_op
  Acts-member p s b b' e n v h r g =
      apply-change r (put_at digits r p b') (p ++ s ∷ []) e (rw (not_empty p s) v) v
        (edit_at-edit_last r (p ++ s ∷ []) e n ∙ edit_last_snoc r b b' p s e g h)

-- ===== src/Delta/Diff/Members.antt =====
-- The operations on the fields of an object.
use livi_agent.Prelude.{
  ℕ, Bool, false, none, some, List, [], ◌∷◌, ◌++◌, String, string_eq, ◌==◌, ◌≡◌, refl, sym, ap,
  subst, ◌∙◌, inl, inr, arith, any, if◌then◌else◌, if_elim, Bool-cases, Option-cases, some_inj,
  is_some,
}
use livi_agent.Prelude.Assoc
use livi_agent.Prelude.Assoc.{Assoc, put, keys}
use livi_agent.Delta.{
  Json, object, Fields, key, index, JsonPath, set, delete, Op, ok, assert_safe_path, is_splice,
  is_reserved, is_safe_seg,
}
use livi_agent.Delta.Value.{
  Same, Same-refl, Same-parts, entries, fields_of, entries-fields_of, fields_of-entries, shape,
  part,
}
use livi_agent.Delta.Apply.{own, child, set_child, written, edit_member}
use livi_agent.Delta.Apply.Place.{Acts, Acts-none, Acts-append, Acts-child, Acts-member}
use livi_agent.Delta.Apply.Write.{assert_safe_path_snoc}
use livi_agent.Delta.Diff.{emit_set, emit_delete, emit_deletes, diff_object}
use livi_agent.Delta.Diff.Leads.{Leads, emit_set-Leads, set_snoc}

any-append_left :
    {A : Type 0} (p : A → Bool) (xs ys : List A) → any p (xs ++ ys) ≡ false → any p xs ≡ false
any-append_left p [] ys h = refl
any-append_left p (x ∷ xs) ys h = ground (arith, h, any-append_left p xs ys)

pub any-append_right :
    {A : Type 0} (p : A → Bool) (xs ys : List A) → any p (xs ++ ys) ≡ false → any p ys ≡ false
any-append_right p [] ys h = h
any-append_right p (x ∷ xs) ys h = any-append_right p xs ys (ground (arith, h))

-- A list of fields stands for an object that is seen through them.
fields_of-Same :
    (m : Assoc String Json) (g : Fields)
    → ((k : String) → Same (Assoc.get m k) (Assoc.get (entries g) k))
    → Same (some (object (fields_of m))) (some (object g))
unfolding shape part
fields_of-Same m g h = Same-parts (object (fields_of m)) (object g) refl λ s.
    elim s as (λ s. Same (part (object (fields_of m)) s) (part (object g) s)) [
      | key k ↦
          subst (λ x. Same (Assoc.get x k) (Assoc.get (entries g) k)) (sym (entries-fields_of m))
            (h k)
      | index n ↦ Same-refl none
    ]

module _ (digits : ℕ → String) where
  -- The object with the fields `m`, after the operations.
  pub Becomes : JsonPath → List Op → Assoc String Json → Assoc String Json → Type 0
  Becomes p ops m m' = Acts digits p ops (object (fields_of m)) (object (fields_of m'))

  pub Puts : JsonPath → List Op → Assoc String Json → String → Json → Type 0
  Puts p ops m k v = (v' : Json) × Becomes p ops m (put m k v') × Same (some v') (some v)

  set_child_key :
      (m : Assoc String Json) (k : String) (v : Json)
      → set_child digits (object (fields_of m)) (key k) v ≡ object (fields_of (put m k v))
  unfolding set_child
  set_child_key m k v = ap (λ x. object (fields_of (put x k v))) (entries-fields_of m)

  child_key :
      (m : Assoc String Json) (k : String) (v : Json)
      → Assoc.get m k ≡ some v
      → child digits (object (fields_of m)) (key k) ≡ ok v
  unfolding child
  child_key m k v h = ap own (ap (λ x. Assoc.get x k) (entries-fields_of m) ∙ h)

  -- A field that is there.
  pub present-Puts :
      (p : JsonPath) (ops : List Op) (m : Assoc String Json) (k : String) (w v : Json)
      → Assoc.get m k ≡ some w
      → Leads digits (p ++ key k ∷ []) ops w v
      → Puts p ops m k v
  unfolding Leads Puts Becomes
  present-Puts p ops m k w v h (v', a, s) = (
    v',
    subst (Acts digits p ops (object (fields_of m))) (set_child_key m k v')
        (Acts-child digits p (key k) ops (object (fields_of m)) w v' (child_key m k w h) a),
    s,
  )

  set_member :
      (m : Assoc String Json) (k : String) (v : Json)
      → edit_member digits (object (fields_of m)) (key k) (set v)
        ≡ ok (object (fields_of (put m k v)))
  unfolding edit_member written
  set_member m k v = ap ok (set_child_key m k v)

  delete_member :
      (m : Assoc String Json) (k : String)
      → edit_member digits (object (fields_of m)) (key k) delete
        ≡ ok (object (fields_of (Assoc.remove m k)))
  unfolding edit_member
  delete_member m k = ap (λ x. ok (object (fields_of (Assoc.remove x k)))) (entries-fields_of m)

  -- A new field.
  pub absent-Puts :
      (p : JsonPath) (m : Assoc String Json) (k : String) (v : Json)
      → assert_safe_path (p ++ key k ∷ []) ≡ ok tt
      → Puts p (emit_set (p ++ key k ∷ []) v) m k v
  unfolding Puts Becomes is_splice
  absent-Puts p m k v h = (
    v,
    subst (λ ops. Becomes p ops m (put m k v)) (sym (set_snoc digits p (key k) v))
        (Acts-member digits p (key k) _ _ (set v) refl h (set_member m k v)),
    Same-refl (some v),
  )

  -- The fields of `g` are there as they are in `g`, and the others of `m` as they were.
  pub Covers : JsonPath → List Op → Assoc String Json → Assoc String Json → Type 0
  Covers p ops m g =
      (m' : Assoc String Json) × Becomes p ops m m'
      × ((k : String) (v : Json) → Assoc.get g k ≡ some v → Same (Assoc.get m' k) (some v))
      × ((k : String) → Assoc.get g k ≡ none → Assoc.get m' k ≡ Assoc.get m k)

  pub none-Covers : (p : JsonPath) (m : Assoc String Json) → Covers p [] m []
  unfolding Covers Becomes Assoc.get
  none-Covers p m = (m, Acts-none digits p (object (fields_of m)), (λ k v h. cc), (λ k h. refl))

  pub cons-Covers :
      (p : JsonPath) (ops more : List Op) (m g : Assoc String Json) (k : String) (v : Json)
      → Puts p ops m k v
      → Assoc.get g k ≡ none
      → ((v' : Json) → Covers p more (put m k v') g)
      → Covers p (ops ++ more) m ((k, v) ∷ g)
  unfolding Covers Puts Becomes Assoc.get
  cons-Covers p ops more m g k v (v', a, s) n f =
      let (m', b, c, d) = f v' in
      (
        m',
        Acts-append digits p ops more _ _ _ a b,
        (λ j w h. elim (Bool-cases (k == j)) [
          | inl q ↦
              let at_k = subst (λ o. Same o (some v)) (sym (d k n ∙ Assoc.get-put_same m k v')) s in
              let at_j =
                subst (λ i. Same (Assoc.get m' i) (some v)) ((string_eq.beq_iff k j).0 q) at_k in
              subst (λ x. Same (Assoc.get m' j) (some x)) (some_inj (ground (arith, h, q))) at_j
          | inr q ↦ c j w (ground (arith, h, q))
        ]),
        (λ j h. elim (Bool-cases (k == j)) [
          | inl q ↦ ground (arith, h, q)
          | inr q ↦ d j (ground (arith, h, q)) ∙ Assoc.get-put m k j v' ∙ ground (arith, q)
        ]),
      )

  -- The fields that `after` does not have are gone.
  pub Prunes :
      JsonPath → List Op → Assoc String Json → Assoc String Json → Assoc String Json → Type 0
  Prunes p ops m before after =
      (m' : Assoc String Json) × Becomes p ops m m'
      × ((k : String) (v : Json) → Assoc.get after k ≡ some v → Assoc.get m' k ≡ Assoc.get m k)
      × ((k : String)
          → Assoc.get after k ≡ none
          → Assoc.get m' k ≡ (if is_some (Assoc.get before k) then none else Assoc.get m k))

  emit_deletes-Prunes :
      (p : JsonPath) (m before after : Assoc String Json)
      → assert_safe_path p ≡ ok tt
      → any is_reserved (keys before) ≡ false
      → Prunes p (emit_deletes before after p) m before after
  unfolding emit_deletes emit_delete Prunes Becomes Assoc.get is_splice is_safe_seg
  emit_deletes-Prunes p m [] after h s =
      (m, Acts-none digits p (object (fields_of m)), (λ k v e. refl), (λ k e. refl))
  emit_deletes-Prunes p m ((k, v) ∷ before) after h s =
      if_elim (λ ops. Prunes p ops m ((k, v) ∷ before) after) (is_some (Assoc.get after k))
        (λ q.
          let (m', b, c, d) = emit_deletes-Prunes p m before after h (ground (arith, s)) in
          (
            m',
            b,
            c,
            (λ j e. elim (Bool-cases (k == j)) [
              | inl i ↦
                  let f : Assoc.get after k ≡ none =
                    ap (Assoc.get after) ((string_eq.beq_iff k j).0 i) ∙ e in
                  ground (arith, f, q)
              | inr i ↦ ground (arith, d j e, i)
            ]),
          ))
        (λ q.
          let m1 = Assoc.remove m k in
          let (m', b, c, d) = emit_deletes-Prunes p m1 before after h (ground (arith, s)) in
          let safe = assert_safe_path_snoc p (key k) h (ground (arith, s)) in
          (
            m',
            Acts-append digits p (emit_delete (p ++ key k ∷ [])) _ _ _ _
                (Acts-member digits p (key k) _ _ delete refl safe (delete_member m k)) b,
            (λ j w e. elim (Bool-cases (k == j)) [
              | inl i ↦
                  let f : Assoc.get after k ≡ some w =
                    ap (Assoc.get after) ((string_eq.beq_iff k j).0 i) ∙ e in
                  ground (arith, f, q)
              | inr i ↦ c j w e ∙ Assoc.get-remove m k j ∙ ground (arith, i)
            ]),
            (λ j e. ground (arith, d j e, Assoc.get-remove m k j)),
          ))

  -- The operations of the loop over the fields of `after`, and those that delete the other fields.
  pub diff_object-Leads :
      (p : JsonPath) (f g : Fields) (members : List Op)
      → assert_safe_path p ≡ ok tt
      → (any is_reserved (keys (entries f) ++ keys (entries g)) ≡ false
          → Covers p members (entries f) (entries g))
      → Leads digits p (diff_object f g p members) (object f) (object g)
  unfolding diff_object Covers Prunes Becomes Leads
  diff_object-Leads p f g members h c =
      if_elim (λ ops. Leads digits p ops (object f) (object g))
        (any is_reserved (keys (entries f) ++ keys (entries g)))
        (λ q. emit_set-Leads digits p (object f) (object g) h)
        (λ q.
          let (m, b, same, rest) = c q in
          let (m', b', kept, gone) =
            emit_deletes-Prunes p m (entries f) (entries g) h
              (any-append_left is_reserved (keys (entries f)) (keys (entries g)) q) in
          let deletes = emit_deletes (entries f) (entries g) p in
          (
            object (fields_of m'),
            subst (λ x. Acts digits p (members ++ deletes) (object x) (object (fields_of m')))
                (fields_of-entries f) (Acts-append digits p members deletes _ _ _ b b'),
            fields_of-Same m' g (λ k. elim (Option-cases (Assoc.get (entries g) k)) [
              | inl e ↦
                  let l : Assoc.get m' k ≡ none = ground (arith, gone k e, rest k e) in
                  subst (λ o. Same o (Assoc.get (entries g) k)) (sym l)
                    (subst (Same none) (sym e) (Same-refl none))
              | inr (v, e) ↦
                  subst (λ o. Same o (Assoc.get (entries g) k)) (sym (kept k v e))
                    (subst (Same (Assoc.get m k)) (sym e) (same k v e))
            ]),
          ))

-- ===== src/Delta/Diff/Sound.antt =====
-- Applying the differences of two values to the first one.
use livi_agent.Prelude.{
  ℕ, suc, true, false, Option, none, some, List, [], ◌∷◌, ◌++◌, String, string_eq, nat_eq, ◌==◌,
  ◌≡◌, refl, sym, ap, subst, ◌∙◌, inl, inr, arith, length, any, if◌then◌else◌, if_elim, Bool-cases,
  length-append, nat_beq_iff,
}
use livi_agent.Prelude.Assoc
use livi_agent.Prelude.Assoc.{Assoc, keys, put}
use livi_agent.Delta.{
  Json, Items, Fields, null, bool, number, text, array, object, nil, cons, end, field, key, index,
  JsonPath, ok, assert_safe_path, is_reserved, is_safe_seg,
}
use livi_agent.Delta.Value.{
  Same, Same-refl, WellKeyed, ItemsKeyed, FieldsKeyed, get-WellKeyed, elements, entries, items_of,
  items_of-elements,
}
use livi_agent.Delta.Apply.{apply, resolve_value, put_at}
use livi_agent.Delta.Apply.Place.{Acts}
use livi_agent.Delta.Apply.Write.{assert_safe_path_snoc}
use livi_agent.Delta.Diff.{emit_set, identical, diff_string, diff_value, diff_items, diff_members}
use livi_agent.Delta.Diff.Leads.{Leads, emit_set-Leads, none-Leads, Acts-diff_string}
use livi_agent.Delta.Diff.Members.{
  Puts, present-Puts, absent-Puts, Covers, none-Covers, cons-Covers, diff_object-Leads,
  any-append_right,
}
use livi_agent.Delta.Diff.Elements.{Zips, left_Zips, right_Zips, cons_Zips}
use livi_agent.Delta.Diff.Ends.{ItemsKeyed-All}
use livi_agent.Delta.Diff.Equal.{bool_beq_lem}
use livi_agent.Delta.Diff.Arrays.{diff_array-Leads}

identical_lem : (v w : Json) → identical v w ≡ true → v ≡ w
identical_lem null null h = refl
identical_lem (bool a) (bool b) h = ap bool (bool_beq_lem a b h)
identical_lem (number m) (number n) h = ap number ((nat_beq_iff m n).0 h)
identical_lem v w h = cc

get_head : (k : String) (v : Json) (g : Assoc String Json) → Assoc.get ((k, v) ∷ g) k ≡ some v
unfolding Assoc.get
get_head k v g = ground (arith, string_eq.beq_iff k k)

other_key :
    (g : Assoc String Json) (k j : String) (u : Json)
    → Assoc.get g k ≡ none
    → Assoc.get g j ≡ some u
    → (k == j) ≡ false
other_key g k j u n q = elim (Bool-cases (k == j)) [
  | inr e ↦ e
  | inl e ↦
      let r : Assoc.get g k ≡ some u = ap (Assoc.get g) ((string_eq.beq_iff k j).0 e) ∙ q in
      ground (arith, r, n)
]

get_tail :
    (k j : String) (v : Json) (g : Assoc String Json) (u : Json)
    → Assoc.get g k ≡ none
    → Assoc.get g j ≡ some u
    → Assoc.get ((k, v) ∷ g) j ≡ some u
unfolding Assoc.get
get_tail k j v g u n q = rw (other_key g k j u n q) q

-- A field of another key than those behind it changes nothing for them.
later :
    (m g : Assoc String Json) (k j : String) (v v' u : Json)
    → Assoc.get g k ≡ none
    → Assoc.get g j ≡ some u
    → Assoc.get (put m k v') j ≡ Assoc.get m j
later m g k j v v' u n q = Assoc.get-put m k j v' ∙ rw (other_key g k j u n q) refl

module _ (digits : ℕ → String) (scan : ℕ) where
  diff_leaf-Leads :
      (b a : Json) (p : JsonPath)
      → assert_safe_path p ≡ ok tt
      → Leads digits p (if identical b a then [] else emit_set p a) b a
  diff_leaf-Leads b a p h =
      if_elim (λ ops. Leads digits p ops b a) (identical b a)
        (λ e. subst (Leads digits p [] b) (identical_lem b a e) (none-Leads digits p b))
        (λ d. emit_set-Leads digits p b a h)

  diff_text-Leads :
      (b a : List ℕ) (p : JsonPath)
      → assert_safe_path p ≡ ok tt
      → Leads digits p (diff_string b a p scan) (text b) (text a)
  unfolding Leads
  diff_text-Leads b a p h =
      (text a, Acts-diff_string digits p b a scan h, Same-refl (some (text a)))

  -- A field of `after`, whether or not it is there before.
  member-Puts :
      (p : JsonPath) (m : Assoc String Json) (o : Option Json) (k : String) (v : Json)
      → assert_safe_path (p ++ key k ∷ []) ≡ ok tt
      → Assoc.get m k ≡ o
      → ((w : Json)
          → o ≡ some w
          → Leads digits (p ++ key k ∷ []) (diff_value w v (p ++ key k ∷ []) scan) w v)
      → Puts digits p
          (elim o [
            | none ↦ emit_set (p ++ key k ∷ []) v
            | some w ↦ diff_value w v (p ++ key k ∷ []) scan
          ])
          m
          k
          v
  member-Puts p m none k v h e f = absent-Puts digits p m k v h
  member-Puts p m (some w) k v h e f = present-Puts digits p _ m k w v e (f w refl)

  mutual
    unfolding diff_value WellKeyed elements entries is_safe_seg

    diff_value-Leads :
        (b a : Json) (p : JsonPath)
        → assert_safe_path p ≡ ok tt
        → WellKeyed b
        → WellKeyed a
        → Leads digits p (diff_value b a p scan) b a
    diff_value-Leads (text s) (text t) p h kb ka = diff_text-Leads s t p h
    diff_value-Leads (array xs) (array ys) p h kb ka =
        subst (λ us. Leads digits p (diff_value (array xs) (array ys) p scan) (array us) (array ys))
          (items_of-elements xs)
          (subst
            (λ us.
              Leads digits p (diff_value (array xs) (array ys) p scan)
                (array (items_of (elements xs))) (array us))
            (items_of-elements ys)
            (diff_array-Leads digits p (elements xs) (elements ys) (diff_items xs ys p 0 scan) h
              (ItemsKeyed-All xs kb) (ItemsKeyed-All ys ka)
              (diff_items-Zips xs ys p [] 0 refl h kb ka)))
    diff_value-Leads (object f) (object g) p h kb ka =
        diff_object-Leads digits p f g (diff_members f g p scan) h (λ q.
          diff_members-Covers f g p (entries f) h kb ka
            (any-append_right is_reserved (keys (entries f)) (keys (entries g)) q) (λ k v e. refl))
    diff_value-Leads b a p h kb ka = diff_leaf-Leads b a p h

    diff_items-Zips :
        (xs ys : Items) (p : JsonPath) (pre : List Json) (i : ℕ)
        → length pre ≡ i
        → assert_safe_path p ≡ ok tt
        → ItemsKeyed xs
        → ItemsKeyed ys
        → Zips digits p (diff_items xs ys p i scan) pre (elements xs) (elements ys)
    diff_items-Zips nil ys p pre i e h kx ky = left_Zips digits p pre (elements ys)
    diff_items-Zips (cons x xs) nil p pre i e h kx ky = right_Zips digits p pre x (elements xs)
    diff_items-Zips (cons x xs) (cons y ys) p pre i e h (kx, hx) (ky, hy) =
        cons_Zips digits p (diff_value x y (p ++ index i ∷ []) scan)
          (diff_items xs ys p (suc i) scan) pre (elements xs) (elements ys) x y
          (subst
            (λ j. Leads digits (p ++ index j ∷ []) (diff_value x y (p ++ index i ∷ []) scan) x y)
            (sym e)
            (diff_value-Leads x y (p ++ index i ∷ []) (assert_safe_path_snoc p (index i) h refl) kx
              ky))
          (λ x'.
            diff_items-Zips xs ys p (pre ++ x' ∷ []) (suc i)
              (omega (arith, length-append pre (x' ∷ []), e)) h hx hy)

    diff_members-Covers :
        (f g : Fields) (p : JsonPath) (m : Assoc String Json)
        → assert_safe_path p ≡ ok tt
        → FieldsKeyed f
        → FieldsKeyed g
        → any is_reserved (keys (entries g)) ≡ false
        → ((k : String) (v : Json)
            → Assoc.get (entries g) k ≡ some v
            → Assoc.get m k ≡ Assoc.get (entries f) k)
        → Covers digits p (diff_members f g p scan) m (entries g)
    diff_members-Covers f end p m h kf kg s e = none-Covers digits p m
    diff_members-Covers f (field k v g) p m h kf (n, kv, kg) s e =
        let safe = assert_safe_path_snoc p (key k) h (ground (arith, s)) in
        cons-Covers digits p _ (diff_members f g p scan) m (entries g) k v
          (member-Puts p m (Assoc.get (entries f) k) k v safe (e k v (get_head k v (entries g)))
            (λ w q. diff_value-Leads w v (p ++ key k ∷ []) safe (get-WellKeyed f k w kf q) kv))
          n
          (λ v'. diff_members-Covers f g p (put m k v') h kf kg (ground (arith, s)) (λ j u q.
            later m (entries g) k j v v' u n q ∙ e j u (get_tail k j v (entries g) u n q)))

  -- Applied to `before`, the differences of two values whose objects have different keys give `after`, up to
  -- the order of keys, without an error.
  pub apply-diff_value :
      (before after : Json)
      → WellKeyed before
      → WellKeyed after
      → (v : Json) × (apply digits (some before) (diff_value before after [] scan) ≡ ok (some v))
        × Same (some v) (some after)
  unfolding Leads Acts resolve_value put_at assert_safe_path
  apply-diff_value before after kb ka =
      let (v, a, s) = diff_value-Leads before after [] refl kb ka in (v, a before refl, s)

-- ===== src/Delta/Diff/Arrays.antt =====
-- The operations that `diffArray` makes of those of its loop.
use livi_agent.Prelude.{
  ℕ, zero, suc, ◌+◌, ◌-◌, ◌≤◌, min, ◌&&◌, some, List, [], ◌∷◌, ◌++◌, append-nil, All, String,
  nat_eq, ◌==◌, ◌≡◌, refl, sym, ap, subst, ◌∙◌, arith, length, take, drop, ltb, if_elim,
  take-append-drop, length-take, length-append, length-drop,
}
use livi_agent.Prelude.Cuts.{drop_all, take_all, take-length_append}
use livi_agent.Delta.{Json, array, JsonPath, Op, ok, assert_safe_path}
use livi_agent.Delta.Value.{WellKeyed, items_of, Same-refl}
use livi_agent.Delta.Apply.{splice_at}
use livi_agent.Delta.Apply.Place.{Acts-append}
use livi_agent.Delta.Diff.{emit_set, splice_op, diff_array, equal_prefix, equal_suffix}
use livi_agent.Delta.Diff.Leads.{Leads, emit_set-Leads, Acts-emit_set}
use livi_agent.Delta.Diff.Lists.{
  SameList, SameList-refl, SameList-append, SameList-length, items_of-Same,
}
use livi_agent.Delta.Diff.Ends.{equal_prefix_lem, equal_suffix_lem}
use livi_agent.Delta.Diff.Elements.{Turns, Zips, splice_op-Turns}

take-take_le : (m k : ℕ) (ys : List Json) → m ≤ k → take m (take k ys) ≡ take m ys
take-take_le zero k ys h = refl
take-take_le (suc m) zero ys h = ground arith
take-take_le (suc m) (suc k) [] h = refl
take-take_le (suc m) (suc k) (y ∷ ys) h = ap (λ z. y ∷ z) (take-take_le m k ys (omega arith))

middle : (m k : ℕ) (ys : List Json) → m ≤ k → take m ys ++ drop m (take k ys) ++ drop k ys ≡ ys
middle m k ys h =
    ap (λ z. z ++ drop m (take k ys) ++ drop k ys) (sym (take-take_le m k ys h))
    ∙ ap (λ z. z ++ drop k ys) (take-append-drop m (take k ys))
    ∙ take-append-drop k ys

-- A splice between equal ends.
middle_SameList :
    (i k : ℕ) (xs ys : List Json)
    → i + k ≤ length xs
    → i + k ≤ length ys
    → SameList (take i xs) (take i ys)
    → SameList (drop (length xs - k) xs) (drop (length ys - k) ys)
    → SameList (splice_at i (length xs - i - k) (drop i (take (length ys - k) ys)) xs) ys
unfolding splice_at
middle_SameList i k xs ys p q s t =
    let vs = drop i (take (length ys - k) ys) in
    let e : length xs - k ≡ i + (length xs - i - k) = omega arith in
    subst (SameList (take i xs ++ vs ++ drop (i + (length xs - i - k)) xs))
      (middle i (length ys - k) ys (omega arith))
      (SameList-append (take i xs ++ vs) (take i ys ++ vs) _ _
        (SameList-append (take i xs) (take i ys) vs vs s (SameList-refl vs))
        (subst (λ n. SameList (drop n xs) (drop (length ys - k) ys)) e t))

-- The items behind those of a shorter list.
longer_SameList :
    (hs xs ys : List Json)
    → length xs ≤ length ys
    → SameList hs (take (length xs) ys)
    → SameList (splice_at (length xs) 0 (drop (length xs) ys) (hs ++ drop (length ys) xs)) ys
unfolding splice_at
longer_SameList hs xs ys h s =
    let m = length xs in
    let l : length hs ≡ m = omega (arith, SameList-length hs (take m ys) s, length-take m ys, h) in
    let e : hs ++ drop (length ys) xs ≡ hs =
      ap (λ z. hs ++ z) (drop_all (length ys) xs h) ∙ append-nil hs in
    let cut : splice_at m 0 (drop m ys) hs ≡ hs ++ drop m ys =
      ap (λ z. z ++ drop m ys ++ drop (m + 0) hs) (take_all m hs (omega (arith, l)))
      ∙ ap (λ z. hs ++ drop m ys ++ z) (drop_all (m + 0) hs (omega (arith, l)))
      ∙ append-nil (hs ++ drop m ys) in
    subst (λ z. SameList (splice_at m 0 (drop m ys) z) ys) (sym e)
      (subst (λ z. SameList z ys) (sym cut)
        (subst (SameList (hs ++ drop m ys)) (take-append-drop m ys)
          (SameList-append hs (take m ys) (drop m ys) (drop m ys) s (SameList-refl (drop m ys)))))

-- The items behind those of a longer list.
shorter_SameList :
    (hs xs ys : List Json)
    → length ys ≤ length xs
    → SameList hs (take (length xs) ys)
    → SameList (splice_at (length ys) (length xs - length ys) [] (hs ++ drop (length ys) xs)) ys
unfolding splice_at
shorter_SameList hs xs ys h s =
    let n = length ys in
    let us = hs ++ drop n xs in
    let t : SameList hs ys = subst (SameList hs) (take_all (length xs) ys h) s in
    let l = SameList-length hs ys t in
    let cut : splice_at n (length xs - n) [] us ≡ hs =
      ap (λ z. take n us ++ [] ++ z)
        (drop_all (n + (length xs - n)) us
          (omega (arith, length-append hs (drop n xs), length-drop n xs, l, h)))
      ∙ append-nil (take n us ++ [])
      ∙ append-nil (take n us)
      ∙ ap (λ k. take k us) (sym l)
      ∙ take-length_append hs (drop n xs) in
    subst (λ z. SameList z ys) (sym cut) t

equal_SameList :
    (hs xs ys : List Json)
    → length xs ≡ length ys
    → SameList hs (take (length xs) ys)
    → SameList (hs ++ drop (length ys) xs) ys
equal_SameList hs xs ys e s =
    let none_left =
      ap (λ z. hs ++ z) (drop_all (length ys) xs (omega (arith, e))) ∙ append-nil hs in
    subst (λ z. SameList z ys) (sym none_left)
      (subst (SameList hs) (take_all (length xs) ys (omega (arith, e))) s)

module _ (digits : ℕ → String) where
  Turns-Leads :
      (p : JsonPath) (ops : List Op) (xs us ys : List Json)
      → Turns digits p ops xs us
      → SameList us ys
      → Leads digits p ops (array (items_of xs)) (array (items_of ys))
  unfolding Leads Turns
  Turns-Leads p ops xs us ys a s = (array (items_of us), a, items_of-Same us ys s)

  -- The splice or the new value between equal ends.
  ends_Leads :
      (p : JsonPath) (xs ys : List Json)
      → assert_safe_path p ≡ ok tt
      → All WellKeyed xs
      → All WellKeyed ys
      → let i = equal_prefix xs ys in
        let k = equal_suffix i xs ys in
        Leads digits p
          (splice_op p i (length xs - i - k) (drop i (take (length ys - k) ys)))
          (array (items_of xs))
          (array (items_of ys))
  ends_Leads p xs ys h kx ky =
      let i = equal_prefix xs ys in
      let k = equal_suffix i xs ys in
      let vs = drop i (take (length ys - k) ys) in
      let (a, b, s) = equal_prefix_lem xs ys kx ky in
      let (c, d, t) = equal_suffix_lem i xs ys kx ky a b in
      Turns-Leads p (splice_op p i (length xs - i - k) vs) xs
        (splice_at i (length xs - i - k) vs xs) ys
        (splice_op-Turns digits p i (length xs - i - k) xs vs h) (middle_SameList i k xs ys c d s t)

  -- A splice after the operations on the items.
  then_splice :
      (p : JsonPath) (xs us ys : List Json) (i r : ℕ) (items : List Json) (retained : List Op)
      → assert_safe_path p ≡ ok tt
      → Turns digits p retained xs us
      → SameList (splice_at i r items us) ys
      → Leads digits p
          (retained ++ splice_op p i r items)
          (array (items_of xs))
          (array (items_of ys))
  unfolding Turns
  then_splice p xs us ys i r items retained h a s =
      Turns-Leads p (retained ++ splice_op p i r items) xs (splice_at i r items us) ys
        (Acts-append digits p retained (splice_op p i r items) _ _ _ a
          (splice_op-Turns digits p i r us items h))
        s

  pub diff_array-Leads :
      (p : JsonPath) (xs ys : List Json) (retained : List Op)
      → assert_safe_path p ≡ ok tt
      → All WellKeyed xs
      → All WellKeyed ys
      → Zips digits p retained [] xs ys
      → Leads digits p (diff_array xs ys p retained) (array (items_of xs)) (array (items_of ys))
  unfolding diff_array Zips Turns Leads
  diff_array-Leads p xs ys retained h kx ky (hs, a, s) =
      let P : List Op → Type 0 =
        λ ops. Leads digits p ops (array (items_of xs)) (array (items_of ys)) in
      let Q : List Op → Type 0 = λ ops. P (retained ++ ops) in
      let us = hs ++ drop (length ys) xs in
      if_elim P (length xs == length ys)
        (λ e. Turns-Leads p retained xs us ys a (equal_SameList hs xs ys (ground (arith, e)) s))
        (λ d.
          if_elim P
            (equal_prefix xs ys + equal_suffix (equal_prefix xs ys) xs ys
              == min (length xs) (length ys))
            (λ e.
              if_elim P
                ((equal_prefix xs ys == 0)
                  && (length xs - equal_prefix xs ys - equal_suffix (equal_prefix xs ys) xs ys
                      == length xs))
                (λ f. emit_set-Leads digits p _ _ h) (λ f. ends_Leads p xs ys h kx ky))
            (λ e.
              if_elim Q (ltb (length xs) (length ys))
                (λ f.
                  then_splice p xs us ys (length xs) 0 (drop (length xs) ys) retained h a
                    (longer_SameList hs xs ys (ground (arith, f)) s))
                (λ f.
                  if_elim Q (length ys == 0)
                    (λ g. (
                      array (items_of ys),
                      Acts-append digits p retained (emit_set p (array (items_of ys))) _
                          (array (items_of us)) _ a (Acts-emit_set digits p _ _ h),
                      Same-refl (some (array (items_of ys))),
                    ))
                    (λ g.
                      then_splice p xs us ys (length ys) (length xs - length ys) [] retained h a
                        (shorter_SameList hs xs ys (ground (arith, f)) s)))))

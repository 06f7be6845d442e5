-- ===== src/Delta/Diff/Leads.antt =====
-- Operations that turn a value into one that is the same as another value.
use livi_agent.Prelude.{
  ℕ, ◌-◌, true, false, ◌&&◌, some, List, [], ◌∷◌, ◌++◌, String, nat_eq, list_eq, list_beq_iff, ◌==◌,
  ◌≡◌, refl, sym, ap, subst, ◌∙◌, inl, inr, arith, ltb, length, take, drop, if◌then◌else◌, if_elim,
  take-append-drop,
}
use livi_agent.Prelude.Cuts.{take_all}
use livi_agent.Delta.{
  Text, Json, text, Seg, JsonPath, Edit, set, append, trim, Op, change, ok, assert_safe_path,
  is_splice, is_empty_path,
}
use livi_agent.Delta.Value.{Same, Same-refl}
use livi_agent.Delta.Overlap.{overlap}
use livi_agent.Delta.Overlap.Suffix.{Overlaps, overlap-Overlaps}
use livi_agent.Delta.Apply.{written}
use livi_agent.Delta.Apply.Place.{Acts, Acts-none, Acts-append, Acts-replace}
use livi_agent.Delta.Apply.Write.{Acts-write, is_delete, JsonPath-cases}
use livi_agent.Delta.Diff.{emit_set, diff_string}

grown :
    (b a : Text)
    → (ltb (length b) (length a) && take (length b) a == b) ≡ true
    → b ++ drop (length b) a ≡ a
grown b a g =
    ap (λ x. x ++ drop (length b) a)
      (sym ((list_beq_iff (take (length b) a) b).0 (ground (arith, g))))
    ∙ take-append-drop (length b) a

module _ (digits : ℕ → String) where
  unfoldable pub Leads : JsonPath → List Op → Json → Json → Type 0
  Leads p ops b a = (b' : Json) × Acts digits p ops b b' × Same (some b') (some a)

  pub set_snoc :
      (q : JsonPath) (s : Seg) (a : Json)
      → emit_set (q ++ s ∷ []) a ≡ change (q ++ s ∷ []) (set a) ∷ []
  unfolding emit_set
  set_snoc [] s a = refl
  set_snoc (t ∷ q) s a = refl

  pub Acts-emit_set :
      (p : JsonPath) (b a : Json) → assert_safe_path p ≡ ok tt → Acts digits p (emit_set p a) b a
  unfolding emit_set written is_splice
  Acts-emit_set p b a h = elim (JsonPath-cases p) [
    | inl e ↦ subst (λ q. Acts digits q (emit_set q a) b a) (sym e) (Acts-replace digits b a)
    | inr (q, s, e) ↦
        subst (λ p. Acts digits p (emit_set p a) b a) (sym e)
          (subst (λ ops. Acts digits (q ++ s ∷ []) ops b a) (sym (set_snoc q s a))
            (Acts-write digits q s b a (set a) refl refl (ap assert_safe_path (sym e) ∙ h) refl))
  ]

  pub emit_set-Leads :
      (p : JsonPath) (b a : Json) → assert_safe_path p ≡ ok tt → Leads p (emit_set p a) b a
  unfolding Leads
  emit_set-Leads p b a h = (a, Acts-emit_set p b a h, Same-refl (some a))

  pub none-Leads : (p : JsonPath) (b : Json) → Leads p [] b b
  unfolding Leads
  none-Leads p b = (b, Acts-none digits p b, Same-refl (some b))

  Acts-write_at :
      (p : JsonPath) (u u' : Json) (e : Edit)
      → is_empty_path p ≡ false
      → assert_safe_path p ≡ ok tt
      → is_splice e ≡ false
      → is_delete e ≡ false
      → written (some u) e ≡ ok u'
      → Acts digits p (change p e ∷ []) u u'
  Acts-write_at p u u' e n h k d w = elim (JsonPath-cases p) [
    | inl g ↦ ground (arith, g, n)
    | inr (q, s, g) ↦
        subst (λ x. Acts digits x (change x e ∷ []) u u') (sym g)
          (Acts-write digits q s u u' e k d (ap assert_safe_path (sym g) ∙ h) w)
  ]

  module _ (p : JsonPath) (n : is_empty_path p ≡ false) (h : assert_safe_path p ≡ ok tt) where
    -- The text that is there grows by `t`.
    Acts-append_text :
        (b t a : Text) → b ++ t ≡ a → Acts digits p (change p (append t) ∷ []) (text b) (text a)
    unfolding written is_splice
    Acts-append_text b t a e =
        Acts-write_at p (text b) (text a) (append t) n h refl refl (ap (λ x. ok (text x)) e)

    Acts-trim :
        (b a : Text) (k : ℕ)
        → drop k b ≡ a
        → Acts digits p (change p (trim k) ∷ []) (text b) (text a)
    unfolding written is_splice
    Acts-trim b a k e =
        Acts-write_at p (text b) (text a) (trim k) n h refl refl (ap (λ x. ok (text x)) e)

    -- What is left of `b` begins `a`, and the rest of `a` follows where there is one.
    Acts-overlap :
        (b a : Text) (k : ℕ)
        → Overlaps b a k
        → Acts digits p
            (change p (trim (length b - k))
              ∷ (if ltb k (length a) then change p (append (drop k a)) ∷ [] else []))
            (text b)
            (text a)
    unfolding Overlaps
    Acts-overlap b a k (l, m, e) =
        let cut = change p (trim (length b - k)) ∷ [] in
        if_elim (λ ops. Acts digits p (cut ++ ops) (text b) (text a)) (ltb k (length a))
          (λ g.
            Acts-append digits p cut (change p (append (drop k a)) ∷ []) (text b) (text (take k a))
              (text a) (Acts-trim b (take k a) (length b - k) e)
              (Acts-append_text (take k a) (drop k a) a (take-append-drop k a)))
          (λ g. Acts-trim b a (length b - k) (e ∙ take_all k a (ground (arith, g))))

    Acts-diff_text :
        (b a : Text) (scan : ℕ) → Acts digits p (diff_string b a p scan) (text b) (text a)
    unfolding diff_string written is_splice
    Acts-diff_text b a scan =
        let P : List Op → Type 0 = λ ops. Acts digits p ops (text b) (text a) in
        if_elim P (b == a)
          (λ e.
            subst (λ x. Acts digits p [] (text b) (text x)) ((list_beq_iff b a).0 e)
              (Acts-none digits p (text b)))
          (λ d.
            if_elim P (is_empty_path p) (λ e. Acts-emit_set p (text b) (text a) h)
              (λ e.
                if_elim P (ltb (length b) (length a) && take (length b) a == b)
                  (λ g. Acts-append_text b (drop (length b) a) a (grown b a g))
                  (λ g.
                    if_elim P (overlap b a scan 64 8 == 0)
                      (λ k. Acts-write_at p (text b) (text a) (set (text a)) n h refl refl refl)
                      (λ k.
                        Acts-overlap b a (overlap b a scan 64 8)
                          (overlap-Overlaps b a scan 64 8)))))

  -- The operations on a text turn it into the other one.
  pub Acts-diff_string :
      (p : JsonPath) (b a : Text) (scan : ℕ)
      → assert_safe_path p ≡ ok tt
      → Acts digits p (diff_string b a p scan) (text b) (text a)
  unfolding diff_string emit_set
  Acts-diff_string [] b a scan h =
      if_elim (λ ops. Acts digits [] ops (text b) (text a)) (b == a)
        (λ e.
          subst (λ x. Acts digits [] [] (text b) (text x)) ((list_beq_iff b a).0 e)
            (Acts-none digits [] (text b)))
        (λ d. Acts-replace digits (text b) (text a))
  Acts-diff_string (s ∷ p) b a scan h = Acts-diff_text (s ∷ p) refl h b a scan

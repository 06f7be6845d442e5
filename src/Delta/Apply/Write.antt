-- ===== src/Delta/Apply/Write.antt =====
-- The operations that write over the value at a path.
use livi_agent.Prelude.{
  ℕ, ◌<◌, string_eq, Bool, true, false, some, [], ◌∷◌, ◌++◌, String, ◌≡◌, refl, sym, ap, ◌∙◌, ◌⊎◌,
  inl, inr, arith, length,
}
use livi_agent.Prelude.Assoc
use livi_agent.Delta.{
  Json, Items, Fields, Seg, index, array, object, JsonPath, Edit, set, delete, append, trim, splice,
  change, ok, bind_ok, assert_safe_path, is_splice, is_safe_seg,
}
use livi_agent.Delta.Value.{elements, entries, nth}
use livi_agent.Delta.Apply.{name, child, set_child, resolve_value, written, edit_member}
use livi_agent.Delta.Apply.Store.{own_ok, nth-some}
use livi_agent.Delta.Apply.Place.{Acts, Acts-member, put_at_last, resolve_value_cons}

pub assert_safe_path_snoc :
    (p : JsonPath) (s : Seg)
    → assert_safe_path p ≡ ok tt
    → is_safe_seg s ≡ true
    → assert_safe_path (p ++ s ∷ []) ≡ ok tt
unfolding assert_safe_path
assert_safe_path_snoc [] s h g = rw g refl
assert_safe_path_snoc (t ∷ p) s h g = ground (arith, h, assert_safe_path_snoc p s, g)

-- A path is empty or has a last segment.
pub JsonPath-cases : (p : JsonPath) → (p ≡ []) ⊎ ((q : JsonPath) × (s : Seg) × (p ≡ q ++ s ∷ []))
JsonPath-cases [] = inl refl
JsonPath-cases (s ∷ p) = elim (JsonPath-cases p) [
  | inl e ↦ inr ([], s, ap (λ x. s ∷ x) e)
  | inr (q, t, e) ↦ inr (s ∷ q, t, ap (λ x. s ∷ x) e)
]

abbrev pub is_delete : Edit → Bool
is_delete delete = true
is_delete e = false

module _ (digits : ℕ → String) where
  resolve_value_split :
      (r u : Json) (p : JsonPath) (s : Seg)
      → resolve_value digits r (p ++ s ∷ []) ≡ ok u
      → (b : Json) × (resolve_value digits r p ≡ ok b) × (child digits b s ≡ ok u)
  unfolding resolve_value
  resolve_value_split r u [] s h =
      let (w, e, f) = bind_ok (child digits r s) _ u h in (r, refl, e ∙ f)
  resolve_value_split r u (t ∷ p) s h =
      let (w, e, f) = bind_ok (child digits r t) _ u h in
      let (b, g, k) = resolve_value_split w u p s f in
      (b, resolve_value_cons digits r w t p e ∙ g, k)

  write_index :
      (items : Items) (n : ℕ) (u u' : Json) (e : Edit)
      → nth (elements items) n ≡ some u
      → n < length (elements items)
      → is_delete e ≡ false
      → written (some u) e ≡ ok u'
      → edit_member digits (array items) (index n) e
        ≡ ok (set_child digits (array items) (index n) u')
  unfolding edit_member
  write_index items n u u' delete g l d w = cc
  write_index items n u u' (set v) g l d w = ground (arith, g, w)
  write_index items n u u' (append v) g l d w = ground (arith, g, w)
  write_index items n u u' (trim v) g l d w = ground (arith, g, w)
  write_index items n u u' (splice i r v) g l d w = ground (arith, g, w)

  write_key :
      (fields : Fields) (s : Seg) (u u' : Json) (e : Edit)
      → Assoc.get (entries fields) (name digits s) ≡ some u
      → is_delete e ≡ false
      → written (some u) e ≡ ok u'
      → edit_member digits (object fields) s e ≡ ok (set_child digits (object fields) s u')
  unfolding edit_member
  write_key fields s u u' delete g d w = cc
  write_key fields s u u' (set v) g d w = ground (arith, g, w)
  write_key fields s u u' (append v) g d w = ground (arith, g, w)
  write_key fields s u u' (trim v) g d w = ground (arith, g, w)
  write_key fields s u u' (splice i r v) g d w = ground (arith, g, w)

  edit_member_write :
      (b : Json) (s : Seg) (u u' : Json) (e : Edit)
      → child digits b s ≡ ok u
      → is_delete e ≡ false
      → written (some u) e ≡ ok u'
      → edit_member digits b s e ≡ ok (set_child digits b s u')
  unfolding child edit_member
  edit_member_write (array items) (index n) u u' e h d w =
      let g = own_ok _ u h in write_index items n u u' e g (nth-some (elements items) n u g) d w
  edit_member_write (object fields) s u u' e h d w = write_key fields s u u' e (own_ok _ u h) d w
  edit_member_write b s u u' e h d w = cc

  -- A write at a path that leads to a value.
  pub Acts-write :
      (p : JsonPath) (s : Seg) (u u' : Json) (e : Edit)
      → is_splice e ≡ false
      → is_delete e ≡ false
      → assert_safe_path (p ++ s ∷ []) ≡ ok tt
      → written (some u) e ≡ ok u'
      → Acts digits (p ++ s ∷ []) (change (p ++ s ∷ []) e ∷ []) u u'
  unfolding Acts
  Acts-write p s u u' e n d v w r h =
      let (b, g, k) = resolve_value_split r u p s h in
      Acts-member digits p s b (set_child digits b s u') e n v (edit_member_write b s u u' e k d w)
        r g
      ∙ ap (λ x. ok (some x)) (sym (put_at_last digits r b u u' p s g k))

-- ===== src/Delta/Apply/Store.antt =====
-- Reading a part of a container after a write to it.
use livi_agent.Prelude.{
  ℕ, zero, suc, ◌<◌, ◌≤◌, Option, none, some, List, [], ◌∷◌, String, string_eq, ◌≡◌, ◌≢◌, refl, ap,
  ◌∙◌, length, arith,
}
use livi_agent.Prelude.Assoc
use livi_agent.Prelude.Assoc.{Assoc, put}
use livi_agent.Delta.{Json, array, object, index, Seg, ok}
use livi_agent.Delta.Value.{
  elements, items_of, entries, fields_of, nth, elements-items_of, entries-fields_of,
  items_of-elements, fields_of-entries,
}
use livi_agent.Delta.Apply.{own, store, child, set_child, name}

pub nth-store : (vs : List Json) (n : ℕ) (v : Json) → n ≤ length vs → nth (store vs n v) n ≡ some v
unfolding store
nth-store [] zero v h = refl
nth-store [] (suc n) v h = ground arith
nth-store (w ∷ vs) zero v h = refl
nth-store (w ∷ vs) (suc n) v h = nth-store vs n v (omega arith)

pub nth-store_ne :
    (vs : List Json) (n m : ℕ) (v : Json) → n < length vs → n ≢ m → nth (store vs n v) m ≡ nth vs m
unfolding store
nth-store_ne [] n m v h d = ground arith
nth-store_ne (w ∷ vs) zero zero v h d = ground arith
nth-store_ne (w ∷ vs) zero (suc m) v h d = refl
nth-store_ne (w ∷ vs) (suc n) zero v h d = refl
nth-store_ne (w ∷ vs) (suc n) (suc m) v h d = nth-store_ne vs n m v (omega arith) (omega arith)

pub store-store :
    (vs : List Json) (n : ℕ) (v w : Json) → n < length vs → store (store vs n v) n w ≡ store vs n w
unfolding store
store-store [] n v w h = ground arith
store-store (x ∷ vs) zero v w h = refl
store-store (x ∷ vs) (suc n) v w h = ap (λ y. x ∷ y) (store-store vs n v w (omega arith))

pub length-store :
    (vs : List Json) (n : ℕ) (v : Json) → n < length vs → length (store vs n v) ≡ length vs
unfolding store
length-store [] n v h = ground arith
length-store (x ∷ vs) zero v h = refl
length-store (x ∷ vs) (suc n) v h = omega (arith, length-store vs n v)

pub nth-some : (vs : List Json) (n : ℕ) (v : Json) → nth vs n ≡ some v → n < length vs
nth-some [] n v h = cc
nth-some (x ∷ vs) zero v h = omega arith
nth-some (x ∷ vs) (suc n) v h = omega (arith, nth-some vs n v h)

pub put-put : (m : Assoc String Json) (k : String) (v w : Json) → put (put m k v) k w ≡ put m k w
unfolding put
put-put [] k v w = ground (arith, string_eq.beq_iff k k)
put-put ((j, x) ∷ m) k v w = ground (arith, put-put m k v w)

store_same : (vs : List Json) (n : ℕ) (v : Json) → nth vs n ≡ some v → store vs n v ≡ vs
unfolding store
store_same [] n v h = cc
store_same (x ∷ vs) zero v h = cc
store_same (x ∷ vs) (suc n) v h = ap (λ y. x ∷ y) (store_same vs n v h)

put_same : (m : Assoc String Json) (k : String) (v : Json) → Assoc.get m k ≡ some v → put m k v ≡ m
unfolding put Assoc.get
put_same [] k v h = cc
put_same ((j, x) ∷ m) k v h = ground (arith, h, put_same m k v)

pub own_ok : (o : Option Json) (v : Json) → own o ≡ ok v → o ≡ some v
own_ok none v h = cc
own_ok (some w) v h = cc

module _ (digits : ℕ → String) where
  -- A part that was there holds what is written to it.
  pub child-set_child :
      (w : Json) (s : Seg) (u v : Json)
      → child digits w s ≡ ok u
      → child digits (set_child digits w s v) s ≡ ok v
  unfolding child set_child
  child-set_child (array items) (index n) u v h = ap own (
      ap (λ x. nth x n) (elements-items_of (store (elements items) n v))
      ∙ nth-store (elements items) n v
          (omega (arith, nth-some (elements items) n u (own_ok _ u h))))
  child-set_child (object fields) s u v h = ap own (
      ap (λ x. Assoc.get x (name digits s))
        (entries-fields_of (put (entries fields) (name digits s) v))
      ∙ Assoc.get-put_same (entries fields) (name digits s) v)
  child-set_child w s u v h = cc

  -- The later of two writes to a part that was there is what counts.
  pub set_child-set_child :
      (w : Json) (s : Seg) (u v v' : Json)
      → child digits w s ≡ ok u
      → set_child digits (set_child digits w s v) s v' ≡ set_child digits w s v'
  unfolding child set_child
  set_child-set_child (array items) (index n) u v v' h =
      ap (λ x. array (items_of x))
        (ap (λ x. store x n v') (elements-items_of (store (elements items) n v))
          ∙ store-store (elements items) n v v' (nth-some (elements items) n u (own_ok _ u h)))
  set_child-set_child (object fields) s u v v' h =
      ap (λ x. object (fields_of x))
        (ap (λ x. put x (name digits s) v')
            (entries-fields_of (put (entries fields) (name digits s) v))
          ∙ put-put (entries fields) (name digits s) v v')
  set_child-set_child w s u v v' h = cc

  pub set_child_same :
      (w : Json) (s : Seg) (u : Json) → child digits w s ≡ ok u → set_child digits w s u ≡ w
  unfolding child set_child
  set_child_same (array items) (index n) u h =
      ap (λ x. array (items_of x)) (store_same (elements items) n u (own_ok _ u h))
      ∙ ap array (items_of-elements items)
  set_child_same (object fields) s u h =
      ap (λ x. object (fields_of x)) (put_same (entries fields) (name digits s) u (own_ok _ u h))
      ∙ ap object (fields_of-entries fields)
  set_child_same w s u h = cc

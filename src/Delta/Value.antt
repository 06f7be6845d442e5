-- ===== src/Delta/Value.antt =====
-- The parts of a JSON value, and when two values are the same but for the order of keys.
use livi_agent.Prelude.{
  ℕ, zero, suc, Option, none, some, List, [], ◌∷◌, String, string_eq, ◌==◌, ◌≡◌, refl, ap, subst,
  inl, inr, arith, length, Bool-cases, some_inj,
}
use livi_agent.Prelude.Assoc
use livi_agent.Prelude.Assoc.{Assoc}
use livi_agent.Delta.{
  Json, Items, Fields, array, object, nil, cons, end, field, Seg, key, index, JsonPath,
}

unfoldable pub elements : Items → List Json
elements nil = []
elements (cons v items) = v ∷ elements items

unfoldable pub items_of : List Json → Items
items_of [] = nil
items_of (v ∷ vs) = cons v (items_of vs)

unfoldable pub entries : Fields → Assoc String Json
entries end = []
entries (field k v fields) = (k, v) ∷ entries fields

unfoldable pub fields_of : Assoc String Json → Fields
fields_of [] = end
fields_of ((k, v) ∷ m) = field k v (fields_of m)

pub elements-items_of : (vs : List Json) → elements (items_of vs) ≡ vs
unfolding elements items_of
elements-items_of [] = refl
elements-items_of (v ∷ vs) = ap (λ x. v ∷ x) (elements-items_of vs)

pub entries-fields_of : (m : Assoc String Json) → entries (fields_of m) ≡ m
unfolding entries fields_of
entries-fields_of [] = refl
entries-fields_of ((k, v) ∷ m) = ap (λ x. (k, v) ∷ x) (entries-fields_of m)

pub items_of-elements : (items : Items) → items_of (elements items) ≡ items
unfolding elements items_of
items_of-elements nil = refl
items_of-elements (cons v items) = ap (λ x. cons v x) (items_of-elements items)

pub fields_of-entries : (fields : Fields) → fields_of (entries fields) ≡ fields
unfolding entries fields_of
fields_of-entries end = refl
fields_of-entries (field k v fields) = ap (λ x. field k v x) (fields_of-entries fields)

abbrev pub nth : List Json → ℕ → Option Json
nth [] n = none
nth (v ∷ vs) zero = some v
nth (v ∷ vs) (suc n) = nth vs n

-- What is seen of a value without its parts.
pub data Shape : Type 0 where
  leaf : Json → Shape
  list_of : ℕ → Shape
  keyed : Shape

unfoldable pub shape : Json → Shape
unfolding elements
shape (array items) = list_of (length (elements items))
shape (object fields) = keyed
shape v = leaf v

unfoldable pub part : Json → Seg → Option Json
unfolding elements entries
part (array items) (index n) = nth (elements items) n
part (object fields) (key k) = Assoc.get (entries fields) k
part v s = none

unfoldable pub observe : Option Json → JsonPath → Option Shape
unfolding shape part
observe none path = none
observe (some v) [] = some (shape v)
observe (some v) (s ∷ path) = observe (part v s) path

-- Two values look the same at every path.
pub Same : Option Json → Option Json → Type 0
Same v w = (path : JsonPath) → observe v path ≡ observe w path

pub Same-refl : (v : Option Json) → Same v v
unfolding Same
Same-refl v path = refl

pub Same-parts :
    (v w : Json)
    → shape v ≡ shape w
    → ((s : Seg) → Same (part v s) (part w s))
    → Same (some v) (some w)
unfolding Same observe
Same-parts v w h g [] = ap some h
Same-parts v w h g (s ∷ path) = g s path

-- The keys of every object differ, as they do in JavaScript.
unfoldable mutual
  unfolding entries Assoc.get

  pub WellKeyed : Json → Type 0
  WellKeyed (array items) = ItemsKeyed items
  WellKeyed (object fields) = FieldsKeyed fields
  WellKeyed v = Unit {0}

  pub ItemsKeyed : Items → Type 0
  ItemsKeyed nil = Unit {0}
  ItemsKeyed (cons v items) = WellKeyed v × ItemsKeyed items

  pub FieldsKeyed : Fields → Type 0
  FieldsKeyed end = Unit {0}
  FieldsKeyed (field k v fields) =
      (Assoc.get (entries fields) k ≡ none) × WellKeyed v × FieldsKeyed fields

pub get-WellKeyed :
    (fields : Fields) (k : String) (v : Json)
    → FieldsKeyed fields
    → Assoc.get (entries fields) k ≡ some v
    → WellKeyed v
unfolding FieldsKeyed entries Assoc.get
get-WellKeyed end k v h e = cc
get-WellKeyed (field j w fields) k v (n, h, g) e = elim (Bool-cases (j == k)) [
  | inl q ↦ subst WellKeyed (some_inj (ground (arith, e, q))) h
  | inr q ↦ get-WellKeyed fields k v g (ground (arith, e, q))
]

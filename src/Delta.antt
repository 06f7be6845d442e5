-- ===== src/Delta.antt =====
-- packages/chord/src/delta/index.ts: changes of a JSON value, as operations on paths.
-- A value is a finite tree and shares no part with another one. A number is named by what `===` tells
-- apart. The tuple of an operation is its path and the rest of it, which is an `Edit`.
pub mod Codec
pub mod Value
pub mod Apply
pub mod Overlap
pub mod Diff
pub mod State
use livi_agent.Prelude.{
  ℕ, suc, Bool, true, false, not, ◌&&◌, ◌||◌, Option, none, some, List, [], ◌∷◌, String, string_eq,
  nat_eq, ◌==◌, Eq, ◌≡◌, refl, ◌⊎◌, inl, inr, ◌↔◌, arith, contains, if◌then◌else◌,
}

-- The code units of a string.
abbrev pub Text : Type 0
Text = List ℕ

mutual
  pub data Json : Type 0 where
    null : Json
    bool : Bool → Json
    number : ℕ → Json
    text : Text → Json
    array : Items → Json
    object : Fields → Json

  pub data Items : Type 0 where
    nil : Items
    cons : Json → Items → Items

  pub data Fields : Type 0 where
    end : Fields
    field : String → Json → Fields → Fields

-- A segment is a key of an object or an index of an array.
pub data Seg : Type 0 where
  key : String → Seg
  index : ℕ → Seg

abbrev pub seg_beq : Seg → Seg → Bool
seg_beq (key j) (key k) = j == k
seg_beq (key j) (index n) = false
seg_beq (index m) (key k) = false
seg_beq (index m) (index n) = m == n

pub seg_beq_iff : (j k : Seg) → (seg_beq j k ≡ true) ↔ (j ≡ k)
seg_beq_iff (key j) (key k) = ground (arith, string_eq.beq_iff j k)
seg_beq_iff (key j) (index n) = ground arith
seg_beq_iff (index m) (key k) = ground arith
seg_beq_iff (index m) (index n) = ground arith

instance abbrev pub seg_eq : Eq Seg
seg_eq = record { beq = seg_beq; beq_iff = seg_beq_iff }

abbrev pub JsonPath : Type 0
JsonPath = List Seg

-- `s`, `d`, `a`, `t` and `p` without their path.
pub data Edit : Type 0 where
  set : Json → Edit
  delete : Edit
  append : Text → Edit
  trim : ℕ → Edit
  splice : ℕ → ℕ → Items → Edit

pub data Op : Type 0 where
  replace : Json → Op
  change : JsonPath → Edit → Op

pub data DeltaError : Type 0 where
  path_error : DeltaError
  unsafe_path : DeltaError
  empty_path : DeltaError

pub data Result {ℓ} (A : Type ℓ) : Type ℓ where
  err : DeltaError → Result A
  ok : A → Result A

pub ok_inj {ℓ} : {A : Type ℓ} {a b : A} → ok a ≡ ok b → a ≡ b
ok_inj h = cc

infixl 5 ◌>>=◌
-- A throw ends the rest of a function.
abbrev pub ◌>>=◌ {ℓ κ} : {V : Type ℓ} {W : Type κ} → Result V → (V → Result W) → Result W
err thrown >>= rest = err thrown
ok v >>= rest = rest v

pub bind_ok {ℓ κ} :
    {V : Type ℓ} {W : Type κ} (m : Result V) (rest : V → Result W) (w : W)
    → (m >>= rest) ≡ ok w
    → (v : V) × (m ≡ ok v) × (rest v ≡ ok w)
bind_ok (err thrown) rest w h = cc
bind_ok (ok v) rest w h = (v, refl, h)

pub Result-cases {ℓ} :
    {W : Type ℓ} (m : Result W) → ((e : DeltaError) × (m ≡ err e)) ⊎ ((w : W) × (m ≡ ok w))
Result-cases (err e) = inl (e, refl)
Result-cases (ok w) = inr (w, refl)

infixl 5 ◌>>◌
-- After an assertion.
abbrev pub ◌>>◌ {ℓ} : {W : Type ℓ} → Result (Unit {0}) → Result W → Result W
checked >> rest = checked >>= λ t. rest

-- `RESERVED_SEGMENTS`.
abbrev pub reserved_segments : List String
reserved_segments = "__proto__" ∷ "constructor" ∷ "prototype" ∷ []

unfoldable pub is_reserved : String → Bool
is_reserved k = contains k reserved_segments

unfoldable pub is_safe_seg : Seg → Bool
unfolding is_reserved
is_safe_seg (key k) = not (is_reserved k)
is_safe_seg (index n) = true

unfoldable pub assert_safe_path : JsonPath → Result (Unit {0})
unfolding is_safe_seg
assert_safe_path [] = ok tt
assert_safe_path (s ∷ path) =
    let rest = assert_safe_path path in if is_safe_seg s then rest else err unsafe_path

unfoldable pub is_splice : Edit → Bool
is_splice (splice i r items) = true
is_splice _ = false

abbrev pub is_empty_path : JsonPath → Bool
is_empty_path [] = true
is_empty_path (s ∷ path) = false

-- `assertValidOp`; the shapes of the tuples are those of the types.
unfoldable pub assert_valid_op : Op → Result (Unit {0})
unfolding assert_safe_path is_splice
assert_valid_op (replace v) = ok tt
assert_valid_op (change path e) =
    if is_empty_path path && not (is_splice e) then err empty_path else assert_safe_path path

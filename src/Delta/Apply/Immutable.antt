-- ===== src/Delta/Apply/Immutable.antt =====
-- `applyImmutable` of packages/chord/src/delta/index.ts: the containers on a path are copied first.
-- The copy of a tree is the tree, so what is left of a copy is its errors.
pub mod Same
use livi_agent.Prelude.{
  ℕ, zero, suc, Bool, true, false, ◌||◌, Option, none, some, List, [], ◌∷◌, ◌++◌, String, string_eq,
  ◌==◌, length, if◌then◌else◌, ◌≡◌, ◌≢◌, ◌↔◌, refl, sym, ap, subst, ◌∙◌, inl, inr, arith,
  Option-cases,
}
use livi_agent.Delta.{
  Json, Items, array, object, Seg, key, index, JsonPath, Edit, set, delete, append, trim, splice,
  Op, replace, change, Result, ok, err, path_error, unsafe_path, ◌>>=◌, ◌>>◌, bind_ok, ok_inj,
  assert_valid_op, assert_safe_path,
}
use livi_agent.Delta.Value.{elements}
use livi_agent.Delta.Apply.{
  own, child, set_child, resolve_value, edit_member, edit_array, edit_last, edit_at, put_at, init,
  last, apply_op, apply,
}
use livi_agent.Delta.Apply.Store.{set_child_same}
use livi_agent.Delta.Apply.Place.{right_unit}

abbrev pub is_container : Json → Bool
is_container (array items) = true
is_container (object fields) = true
is_container v = false

unfoldable pub copy : Json → Result Json
copy v = if is_container v then ok v else err path_error

abbrev pub copied_path : JsonPath → Edit → JsonPath
copied_path path (splice i r items) = path
copied_path path e = init path

module _ (digits : ℕ → String) where
  -- `Object.hasOwn` of an array of a length and a string.
  unfoldable pub has_name : ℕ → String → Bool
  has_name zero k = k == "length"
  has_name (suc n) k = (k == digits n) || has_name n k

  unfoldable pub copied_child : Json → Seg → Result Json
  unfolding has_name child elements
  copied_child (array items) (key k) =
      if has_name (length (elements items)) k then err unsafe_path else err path_error
  copied_child v s = child digits v s

  unfoldable pub copy_path : Json → JsonPath → Result Json
  unfolding copied_child copy set_child
  copy_path v [] = ok v
  copy_path v (s ∷ path) = do
    source ← copied_child v s
    destination ← copy source
    copied ← copy_path destination path
    ok (set_child digits v s copied)

  unfoldable pub copy_containers : Json → JsonPath → Result Json
  unfolding copy copy_path
  copy_containers root path = copy root >>= λ copied. copy_path copied path

  unfoldable pub apply_immutable : Option Json → List Op → Result (Option Json)
  unfolding copy_containers apply assert_valid_op
  apply_immutable root [] = ok root
  apply_immutable root (replace v ∷ ops) = apply_immutable (some v) ops
  apply_immutable root (change path e ∷ ops) = do
    v ← own root
    copied ← copy_containers v (copied_path path e)
    root' ← apply digits (some copied) (change path e ∷ [])
    apply_immutable root' ops

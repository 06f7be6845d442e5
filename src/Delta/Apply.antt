-- ===== src/Delta/Apply.antt =====
-- `apply` of packages/chord/src/delta/index.ts. The value is a tree, so a write through a
-- reference to a container is the root with another value at the container's path.
-- The order of an object's fields means nothing: a new field is put last.
pub mod Store
pub mod Place
pub mod Write
pub mod Splice
pub mod Immutable
use livi_agent.Prelude.{
  ℕ, zero, suc, ◌+◌, ◌-◌, min, Bool, true, false, Option, none, some, List, [], ◌∷◌, ◌++◌, String,
  string_eq, length, take, drop, ltb, leb, if◌then◌else◌,
}
use livi_agent.Prelude.Assoc
use livi_agent.Prelude.Assoc.{Assoc, put}
use livi_agent.Delta.{
  Json, Items, Fields, text, array, object, Seg, key, index, JsonPath, Edit, set, delete, append,
  trim, splice, Op, replace, change, Result, ok, err, DeltaError, path_error, unsafe_path,
  empty_path, ◌>>=◌, ◌>>◌, assert_valid_op, assert_safe_path,
}
use livi_agent.Delta.Value.{elements, items_of, entries, fields_of, nth}

abbrev pub own : Option Json → Result Json
own none = err path_error
own (some v) = ok v

-- `Array.prototype.splice` on a list.
unfoldable pub splice_at : ℕ → ℕ → List Json → List Json → List Json
splice_at i r items vs = take i vs ++ items ++ drop (i + r) vs

-- The insertion of the items in pieces of `size`; the fuel is the number of the items.
unfoldable pub insert_chunks : ℕ → ℕ → ℕ → List Json → List Json → List Json
unfolding splice_at
insert_chunks size zero at items vs = vs
insert_chunks size (suc fuel) at [] vs = vs
insert_chunks size (suc fuel) at items vs =
    insert_chunks size fuel (at + size) (drop size items) (splice_at at 0 (take size items) vs)

abbrev pub chunk_size : ℕ
chunk_size = 10000

unfoldable pub splice_items : ℕ → ℕ → List Json → List Json → List Json
unfolding splice_at insert_chunks
splice_items i r items vs = insert_chunks chunk_size (length items) i items (splice_at i r [] vs)

-- `parent[i] = v`, where `i` is at most the length.
unfoldable pub store : List Json → ℕ → Json → List Json
store [] i v = v ∷ []
store (w ∷ vs) zero v = v ∷ vs
store (w ∷ vs) (suc i) v = w ∷ store vs i v

-- The value that an `s`, `a` or `t` writes over the current one.
unfoldable pub written : Option Json → Edit → Result Json
written _ (set v) = ok v
written (some (text s)) (append t) = ok (text (s ++ t))
written (some (text s)) (trim n) = ok (text (drop n s))
written _ _ = err path_error

-- `path.slice(0, -1)` and the last segment.
abbrev pub init : JsonPath → JsonPath
init [] = []
init (s ∷ []) = []
init (s ∷ t ∷ path) = s ∷ init (t ∷ path)

abbrev pub last : JsonPath → Option Seg
last [] = none
last (s ∷ []) = some s
last (s ∷ t ∷ path) = last (t ∷ path)

-- `digits` is the property key that JavaScript makes of a number.
module _ (digits : ℕ → String) where
  abbrev pub name : Seg → String
  name (key k) = k
  name (index n) = digits n

  -- One step of `resolveValue`.
  unfoldable pub child : Json → Seg → Result Json
  unfolding elements entries Assoc.get
  child (array items) (key k) = err unsafe_path
  child (array items) (index n) = own (nth (elements items) n)
  child (object fields) s = own (Assoc.get (entries fields) (name s))
  child _ s = err path_error

  unfoldable pub resolve_value : Json → JsonPath → Result Json
  unfolding child
  resolve_value v [] = ok v
  resolve_value v (s ∷ path) = child v s >>= λ w. resolve_value w path

  unfoldable pub set_child : Json → Seg → Json → Json
  unfolding elements items_of entries fields_of put store
  set_child (array items) (index n) v = array (items_of (store (elements items) n v))
  set_child (object fields) s v = object (fields_of (put (entries fields) (name s) v))
  set_child w s v = w

  -- The root after a container at a path has become another one.
  unfoldable pub put_at : Json → JsonPath → Json → Json
  unfolding child set_child
  put_at root [] v = v
  put_at root (s ∷ path) v = elim (child root s) [
    | ok w ↦ set_child root s (put_at w path v)
    | err e ↦ root
  ]

  -- The operations but `p`, on the container of the last segment.
  unfoldable pub edit_member : Json → Seg → Edit → Result Json
  unfolding elements items_of entries fields_of set_child Assoc.get Assoc.remove splice_at written
  edit_member (array items) (key k) e = err unsafe_path
  edit_member (array items) (index n) delete =
      if ltb (length (elements items)) n
      then err unsafe_path
      else if leb (length (elements items)) n
      then err path_error
      else ok (array (items_of (splice_at n 1 [] (elements items))))
  edit_member (array items) (index n) e =
      if ltb (length (elements items)) n
      then err unsafe_path
      else written (nth (elements items) n) e >>= λ v. ok (set_child (array items) (index n) v)
  edit_member (object fields) s delete =
      ok (object (fields_of (Assoc.remove (entries fields) (name s))))
  edit_member (object fields) s e =
      written (Assoc.get (entries fields) (name s)) e >>= λ v. ok (set_child (object fields) s v)
  edit_member _ s e = err path_error

  unfoldable pub edit_array : Json → ℕ → ℕ → Items → Result Json
  unfolding elements items_of splice_items
  edit_array (array vs) i r items =
      ok (array (items_of (splice_items i r (elements items) (elements vs))))
  edit_array _ i r items = err path_error

  unfoldable pub edit_last : Json → JsonPath → Edit → Result Json
  unfolding resolve_value edit_member put_at
  edit_last root path e = elim (last path) [
    | none ↦ err empty_path
    | some s ↦ do
      parent ← resolve_value root (init path)
      parent' ← edit_member parent s e
      ok (put_at root (init path) parent')
  ]

  unfoldable pub edit_at : Json → JsonPath → Edit → Result Json
  unfolding resolve_value edit_array edit_last put_at
  edit_at root path (splice i r items) = do
    target ← resolve_value root path
    target' ← edit_array target i r items
    ok (put_at root path target')
  edit_at root path e = edit_last root path e

  unfoldable pub apply_op : Option Json → Op → Result (Option Json)
  unfolding assert_valid_op assert_safe_path edit_at
  apply_op root (replace v) = ok (some v)
  apply_op root (change path e) = do
    assert_valid_op (change path e)
    assert_safe_path path
    v ← own root
    v' ← edit_at v path e
    ok (some v')

  -- `apply` and `applyOps`.
  unfoldable pub apply : Option Json → List Op → Result (Option Json)
  unfolding apply_op
  apply root [] = ok root
  apply root (op ∷ ops) = apply_op root op >>= λ root'. apply root' ops

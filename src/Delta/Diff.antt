-- ===== src/Delta/Diff.antt =====
-- The differences of two JSON values in packages/chord/src/delta/index.ts. Values are trees and share no
-- part, so `===` holds of equal leaves only, and `cloneJson` is the value itself.
-- The functions on fields and items are the loops of `jsonEqual`, `diffObject` and `diffArray`.
pub mod Leads
pub mod Lists
pub mod Members
pub mod Ends
pub mod Elements
pub mod Arrays
pub mod Equal
pub mod Sound
mod Tests
use livi_agent.Prelude.{
  ℕ, zero, suc, ◌+◌, ◌-◌, min, Bool, true, false, not, ◌&&◌, ◌||◌, Option, none, some, List, [],
  ◌∷◌, ◌++◌, String, string_eq, nat_eq, list_eq, ◌==◌, length, take, drop, any, keep_if, map, ltb,
  leb, if◌then◌else◌, is_some, reverse,
}
use livi_agent.Prelude.Assoc
use livi_agent.Prelude.Assoc.{Assoc, keys}
use livi_agent.Delta.{
  Text, Json, Items, Fields, null, bool, number, text, array, object, nil, cons, end, field, Seg,
  key, index, JsonPath, set, delete, append, trim, splice, Op, replace, change, is_reserved,
  is_empty_path,
}
use livi_agent.Delta.Value.{elements, items_of, entries, nth}
use livi_agent.Delta.Overlap.{overlap}

abbrev pub bool_beq : Bool → Bool → Bool
bool_beq true b = b
bool_beq false b = not b

unfoldable mutual
  unfolding elements entries Assoc.get

  pub json_equal : Json → Json → Bool
  json_equal null null = true
  json_equal (bool a) (bool b) = bool_beq a b
  json_equal (number m) (number n) = m == n
  json_equal (text s) (text t) = s == t
  json_equal (array xs) (array ys) =
      (length (elements xs) == length (elements ys)) && items_equal xs ys
  json_equal (object f) (object g) = (length (entries f) == length (entries g)) && fields_equal f g
  json_equal _ _ = false

  pub items_equal : Items → Items → Bool
  items_equal (cons x xs) (cons y ys) = json_equal x y && items_equal xs ys
  items_equal _ _ = true

  pub fields_equal : Fields → Fields → Bool
  fields_equal end g = true
  fields_equal (field k v f) g =
      elim (Assoc.get (entries g) k) [ none ↦ false | some w ↦ json_equal v w ] && fields_equal f g

unfoldable pub emit_set : JsonPath → Json → List Op
emit_set [] v = replace v ∷ []
emit_set (s ∷ path) v = change (s ∷ path) (set v) ∷ []

-- Its path has a last segment wherever it is called.
unfoldable pub emit_delete : JsonPath → List Op
emit_delete path = change path delete ∷ []

unfoldable pub diff_string : Text → Text → JsonPath → ℕ → List Op
unfolding emit_set overlap
diff_string before after path scan =
    let shared = overlap before after scan 64 8 in
    if before == after
    then []
    else if is_empty_path path
    then emit_set path (text after)
    else if ltb (length before) (length after) && take (length before) after == before
    then change path (append (drop (length before) after)) ∷ []
    else if shared == 0
    then change path (set (text after)) ∷ []
    else (change path (trim (length before - shared))
        ∷ (if ltb shared (length after) then change path (append (drop shared after)) ∷ [] else []))

-- The two `while` loops: how long the lists agree.
unfoldable pub equal_prefix : List Json → List Json → ℕ
unfolding json_equal
equal_prefix [] ys = 0
equal_prefix (x ∷ xs) [] = 0
equal_prefix (x ∷ xs) (y ∷ ys) =
    let rest = equal_prefix xs ys in if json_equal x y then suc rest else 0

unfoldable pub equal_suffix : ℕ → List Json → List Json → ℕ
unfolding equal_prefix
equal_suffix prefix xs ys = equal_prefix (reverse (drop prefix xs)) (reverse (drop prefix ys))

unfoldable pub emit_deletes : Assoc String Json → Assoc String Json → JsonPath → List Op
unfolding emit_delete Assoc.get
emit_deletes [] after path = []
emit_deletes ((k, v) ∷ before) after path =
    let rest = emit_deletes before after path in
    if is_some (Assoc.get after k) then rest else emit_delete (path ++ key k ∷ []) ++ rest

-- `diffObject`, where `members` are the operations of its loop over the fields of `after`.
unfoldable pub diff_object : Fields → Fields → JsonPath → List Op → List Op
unfolding emit_set emit_deletes entries is_reserved
diff_object before after path members =
    if any is_reserved (keys (entries before) ++ keys (entries after))
    then emit_set path (object after)
    else members ++ emit_deletes (entries before) (entries after) path

unfoldable pub splice_op : JsonPath → ℕ → ℕ → List Json → List Op
unfolding items_of
splice_op path i r vs = change path (splice i r (items_of vs)) ∷ []

-- `diffArray`, where `retained` are the operations of the loop over the indexes of the shorter array.
unfoldable pub diff_array : List Json → List Json → JsonPath → List Op → List Op
unfolding emit_set splice_op equal_prefix equal_suffix items_of
diff_array before after path retained =
    let m = length before in
    let n = length after in
    let prefix = equal_prefix before after in
    let suffix = equal_suffix prefix before after in
    let remove = m - prefix - suffix in
    if m == n
    then retained
    else if prefix + suffix == min m n
    then (if (prefix == 0) && (remove == m)
        then emit_set path (array (items_of after))
        else splice_op path prefix remove (drop prefix (take (n - suffix) after)))
    else (retained
        ++ (if ltb m n
            then splice_op path m 0 (drop m after)
            else if n == 0
            then emit_set path (array (items_of after))
            else splice_op path n (m - n) []))

abbrev pub identical : Json → Json → Bool
identical null null = true
identical (bool a) (bool b) = bool_beq a b
identical (number m) (number n) = m == n
identical _ _ = false

-- `diffValue` on two values that are there.
unfoldable mutual
  unfolding diff_string diff_array diff_object emit_set elements entries Assoc.get

  pub diff_value : Json → Json → JsonPath → ℕ → List Op
  diff_value (text s) (text t) path scan = diff_string s t path scan
  diff_value (array xs) (array ys) path scan =
      diff_array (elements xs) (elements ys) path (diff_items xs ys path 0 scan)
  diff_value (object f) (object g) path scan = diff_object f g path (diff_members f g path scan)
  diff_value before after path scan = if identical before after then [] else emit_set path after

  pub diff_items : Items → Items → JsonPath → ℕ → ℕ → List Op
  diff_items (cons x xs) (cons y ys) path i scan =
      diff_value x y (path ++ index i ∷ []) scan ++ diff_items xs ys path (suc i) scan
  diff_items _ _ path i scan = []

  pub diff_members : Fields → Fields → JsonPath → ℕ → List Op
  diff_members f end path scan = []
  diff_members f (field k v g) path scan =
      elim (Assoc.get (entries f) k) [
        | none ↦ emit_set (path ++ key k ∷ []) v
        | some w ↦ diff_value w v (path ++ key k ∷ []) scan
      ]
      ++ diff_members f g path scan

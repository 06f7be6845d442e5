-- ===== src/Delta/Diff/Tests.antt =====
-- Runs of the differences of two values and of their application.
use livi_agent.Prelude.{ℕ, zero, suc, true, some, List, [], ◌∷◌, String, ◌≡◌, ◌↔◌, refl}
use livi_agent.Prelude.Assoc
use livi_agent.Delta.{
  Text, Json, null, bool, number, text, array, object, nil, cons, end, field, key, set, delete,
  append, trim, splice, Op, change, ok,
}
use livi_agent.Delta.Value.{Same, WellKeyed}
use livi_agent.Delta.Apply.{apply, splice_at, splice_items}
use livi_agent.Delta.Apply.Splice.{splice_items_lem}
use livi_agent.Delta.Apply.Immutable.{apply_immutable}
use livi_agent.Delta.Apply.Immutable.Same.{apply_immutable_iff}
use livi_agent.Delta.Overlap.{overlap}
use livi_agent.Delta.Overlap.Suffix.{Overlaps, overlap-Overlaps}
use livi_agent.Delta.Diff.{diff_value}
use livi_agent.Delta.Diff.Sound.{apply-diff_value}

abbrev digits : ℕ → String
digits zero = "0"
digits (suc zero) = "1"
digits (suc (suc n)) = "2"

abbrev rolling : Text
rolling = 1 ∷ 2 ∷ 3 ∷ 4 ∷ []

abbrev rolled : Text
rolled = 3 ∷ 4 ∷ 5 ∷ []

abbrev before : Json
before = object (
    field "output" (text rolling) (
      field "rows" (array (cons (number 1) (cons (number 2) (cons (number 3) nil))))
        (field "busy" (bool true) end)))

abbrev after : Json
after = object (
    field "output" (text rolled)
      (field "error" null (field "rows" (array (cons (number 1) (cons (number 3) nil))) end)))

abbrev differences : List Op
differences =
    change (key "output" ∷ []) (trim 2)
    ∷ change (key "output" ∷ []) (append (5 ∷ []))
    ∷ change (key "error" ∷ []) (set null)
    ∷ change (key "rows" ∷ []) (splice 1 1 nil)
    ∷ change (key "busy" ∷ []) delete
    ∷ []

before-after : diff_value before after [] 100 ≡ differences
unfolding diff_value
before-after = refl

rolling-overlap : overlap rolling rolled 100 64 8 ≡ 2
unfolding overlap
rolling-overlap = refl

overlap-Overlaps_example : Overlaps rolling rolled (overlap rolling rolled 3 64 8)
overlap-Overlaps_example = overlap-Overlaps rolling rolled 3 64 8

splice_items_lem_example :
    splice_items 1 1 (number 8 ∷ number 9 ∷ []) (null ∷ null ∷ null ∷ [])
    ≡ splice_at 1 1 (number 8 ∷ number 9 ∷ []) (null ∷ null ∷ null ∷ [])
splice_items_lem_example = splice_items_lem 1 1 (number 8 ∷ number 9 ∷ []) (null ∷ null ∷ null ∷ [])

before-WellKeyed : WellKeyed before
unfolding WellKeyed Assoc.get
before-WellKeyed = (refl, tt, (refl, (tt, (tt, (tt, tt))), (refl, tt, tt)))

after-WellKeyed : WellKeyed after
unfolding WellKeyed Assoc.get
after-WellKeyed = (refl, tt, (refl, tt, (refl, (tt, (tt, tt)), tt)))

apply-diff_value_example :
    (v : Json) × (apply digits (some before) (diff_value before after [] 100) ≡ ok (some v))
    × Same (some v) (some after)
apply-diff_value_example = apply-diff_value digits 100 before after before-WellKeyed after-WellKeyed

apply_immutable_iff_example :
    (apply_immutable digits (some before) differences ≡ ok (some after))
    ↔ (apply digits (some before) differences ≡ ok (some after))
apply_immutable_iff_example = apply_immutable_iff digits (some before) (some after) differences

-- ===== src/Delta/State/Tests.antt =====
-- Runs of a replicated state.
use livi_agent.Prelude.{ℕ, none, some, List, [], ◌∷◌, String, ◌≡◌, refl}
use livi_agent.Prelude.Assoc
use livi_agent.Delta.{
  Json, number, text, object, end, field, key, set, append, trim, Op, change, path_error, ok,
}
use livi_agent.Delta.State.{Publisher, Replica, publish, thrown, delta}
use livi_agent.Delta.State.Mirror.{follow, publish_all, all_published}
use livi_agent.Delta.State.Behind.{Mirrors, follow-Mirrors}
use livi_agent.Delta.State.Current.{current, follow_current}

abbrev no_digits : ℕ → String
no_digits n = "index"

abbrev counter : Json
counter = object (field "count" (number 1) (field "log" (text (65 ∷ [])) end))

abbrev publisher : Publisher
publisher = record { published_value = some counter; sequence = 4 }

abbrev old_replica : Replica
old_replica = record { value = some (number 0); sequence = some 9 }

abbrev counted : List Op
counted =
    change (key "count" ∷ []) (set (number 2)) ∷ change (key "log" ∷ []) (append (66 ∷ [])) ∷ []

abbrev logged : List Op
logged = change (key "log" ∷ []) (append (67 ∷ [])) ∷ []

abbrev broken : List Op
broken = change (key "count" ∷ []) (trim 1) ∷ []

broken_is_thrown : (publish no_digits publisher broken).1 ≡ thrown (delta path_error)
unfolding publish
broken_is_thrown = refl

-- After a batch that throws the next one leaves the replica empty.
broken_then_logged :
    follow no_digits publisher counter old_replica (broken ∷ logged ∷ [])
    ≡ ok (
      publish_all no_digits publisher (broken ∷ logged ∷ []),
      record { value = none; sequence = none },
    )
unfolding follow publish_all Assoc.get Assoc.put
broken_then_logged = refl

follow_current_example :
    follow no_digits publisher counter old_replica (counted ∷ [] ∷ logged ∷ logged ∷ [])
    ≡ ok (current (publish_all no_digits publisher (counted ∷ [] ∷ logged ∷ logged ∷ [])))
unfolding all_published Assoc.get Assoc.put
follow_current_example =
    follow_current no_digits publisher counter old_replica (counted ∷ [] ∷ logged ∷ logged ∷ [])
      refl refl

follow-Mirrors_example :
    (last : Publisher × Replica) × (follow no_digits publisher counter old_replica
        (broken ∷ logged ∷ [])
      ≡ ok last)
    × Mirrors last.0 last.1
follow-Mirrors_example =
    follow-Mirrors no_digits publisher counter old_replica (broken ∷ logged ∷ []) refl

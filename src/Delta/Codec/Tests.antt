-- ===== src/Delta/Codec/Tests.antt =====
-- Runs of the delta codec.
use livi_agent.Prelude.{some, none, List, [], ◌∷◌, All, ◌≡◌, refl}
use livi_agent.Prelude.Assoc
use livi_agent.Delta.{
  JsonPath, key, index, set, append, splice, number, nil, Op, ok, assert_valid_op,
}
use livi_agent.Delta.Codec.{WireOp, inline, id, encoder, encode, decoder}
use livi_agent.Delta.Codec.RoundTrip.{IsValidOp}
use livi_agent.Delta.Codec.Relay.{relay, relay_lem, relay-replace}

abbrev output : JsonPath
output = key "rows" ∷ index 1 ∷ key "output" ∷ []

abbrev status : JsonPath
status = key "status" ∷ []

abbrev batch : List Op
batch =
    Op.change output (append (104 ∷ 105 ∷ []))
    ∷ Op.change output (append (33 ∷ []))
    ∷ Op.change status (set (number 1))
    ∷ Op.change output (append (10 ∷ []))
    ∷ Op.change [] (splice 0 1 nil)
    ∷ []

abbrev base : List Op
base = Op.replace (number 7) ∷ batch

batch_encoded :
    (encode encoder batch).1
    ≡ WireOp.change (some (inline output)) (append (104 ∷ 105 ∷ []))
      ∷ WireOp.change none (append (33 ∷ []))
      ∷ WireOp.change (some (inline status)) (set (number 1))
      ∷ WireOp.define 0 output
      ∷ WireOp.change (some (id 0)) (append (10 ∷ []))
      ∷ WireOp.change (some (inline [])) (splice 0 1 nil)
      ∷ []
unfolding encode Assoc.get Assoc.put
batch_encoded = refl

batch_valid : All IsValidOp batch
unfolding assert_valid_op
batch_valid = (refl, (refl, (refl, (refl, (refl, tt)))))

relay_lem_example : relay encoder decoder (batch ∷ batch ∷ []) ≡ ok (batch ∷ batch ∷ [])
relay_lem_example = relay_lem (batch ∷ batch ∷ []) (batch_valid, (batch_valid, tt))

relay-replace_example :
    relay ((encode encoder batch).0) decoder (base ∷ batch ∷ []) ≡ ok (base ∷ batch ∷ [])
relay-replace_example =
    relay-replace ((encode encoder batch).0) decoder (number 7) batch (batch ∷ []) batch_valid
      (batch_valid, tt)

-- ===== src/Effects/Gate/Tests.antt =====
-- Runs of the gate of effect-gate.ts.
use livi_agent.Prelude.{◌≡◌, refl, none, List, [], ◌∷◌}
use livi_agent.Effects.Gate.{
  Gate, GateState, Call, admits, begins_abort, signals_abort, closes, create_gate, IsGate, run,
  run-IsGate, run-shut,
}

abbrev cancelled : List Call
cancelled = admits 1 ∷ begins_abort 7 ∷ admits 2 ∷ signals_abort ∷ closes 3 ∷ []

run-IsGate_example : IsGate (run create_gate cancelled)
unfolding IsGate create_gate
run-IsGate_example = run-IsGate create_gate cancelled refl

abbrev aborting_gate : Gate
aborting_gate = record { state = GateState.aborting 7; signal = none; invoked = 1 ∷ [] }

run-shut_example : (run aborting_gate cancelled).invoked ≡ 1 ∷ []
run-shut_example = run-shut aborting_gate cancelled (λ h. cc)

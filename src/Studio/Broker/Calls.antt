-- ===== src/Studio/Broker/Calls.antt =====
-- The calls on the broker of packages/decorator-agent/src/studio-broker.ts, as a step function.
use livi_agent.Prelude.{ℕ, String, Bool, List, [], ◌∷◌}
use livi_agent.Studio.Contract.{
  Binding, Registration, ContextUpdate, SelectionUpdate, RequestPayload, Response,
}
use livi_agent.Studio.Broker.{Broker}
use livi_agent.Studio.Broker.Connections.{
  attach, register, ready_call, publish_context, publish_selection,
}
use livi_agent.Studio.Broker.Requests.{release, begin, time_out, stop_waiting, close}
use livi_agent.Studio.Broker.Replies.{respond}

pub data Call : Type 0 where
  attaches : Call
  registers : ℕ → Registration → String → Call
  readies : ℕ → String → Call
  publishes : ℕ → ContextUpdate → Call
  selects : ℕ → SelectionUpdate → Call
  responds : ℕ → Response → Call
  releases : ℕ → Call
  begins : Binding → RequestPayload → Bool → String → Call
  times_out : String → RequestPayload → Call
  stops : String → Call
  closes : Call

unfoldable pub step : Broker → Call → Broker
step b attaches = attach b
step b (registers a r uuid) = (register b a r uuid).0
step b (readies a g) = (ready_call b a g).0
step b (publishes a u) = (publish_context b a u).0
step b (selects a u) = (publish_selection b a u).0
step b (responds a r) = (respond b a r).0
step b (releases a) = release b a
step b (begins to payload is_aborted uuid) = (begin b to payload is_aborted uuid).0
step b (times_out id payload) = time_out b id payload
step b (stops id) = stop_waiting b id
step b closes = close b

unfoldable pub run : Broker → List Call → Broker
run b [] = b
run b (c ∷ cs) = run (step b c) cs

-- ===== src/Studio/Broker/Answers.antt =====
-- The waits of packages/decorator-agent/src/studio-broker.ts and their answers.
use livi_agent.Prelude.{
  ℕ, suc, ◌+◌, ◌≤◌, String, ◌≡◌, refl, ◌∙◌, Bool, true, Option, none, some, List, [], ◌∷◌, ◌++◌,
  if◌then◌else◌, arith, string_eq, ◌==◌, Option-cases, Bool-cases, inl, inr, is_some,
}
use livi_agent.Prelude.Assoc
use livi_agent.Prelude.Assoc.{Assoc, get-put, get-remove, put}
use livi_agent.Studio.Contract.{Binding, ErrorCode, ContextUpdate, RequestPayload, Response}
use livi_agent.Studio.Broker.{
  Broker, Connection, Answer, Pending, notify, change, change_connection, resolved, rejected,
}
use livi_agent.Studio.Broker.Connections.{
  attach, register, ready_call, publish_context, publish_selection, apply_context,
}
use livi_agent.Studio.Broker.Requests.{
  finish, finish_all, release, begin, request, time_out, stop_waiting, close,
}
use livi_agent.Studio.Broker.Replies.{respond, deliver, accept, accept_result, recover}
use livi_agent.Studio.Broker.Calls.{
  Call, attaches, registers, readies, publishes, selects, responds, releases, begins, times_out,
  stops, closes, step, run,
}

-- How often the wait was answered.
unfoldable pub answers : String → List (String × Answer) → ℕ
answers id [] = 0
answers id ((k, a) ∷ l) = let n = answers id l in if k == id then suc n else n

-- 1 while the request waits.
unfoldable pub waiting : String → Assoc String Pending → ℕ
waiting id m = if is_some (Assoc.get m id) then 1 else 0

-- The answers to the request and the wait that is left.
unfoldable pub ledger : String → Broker → ℕ
ledger id b = answers id b.settled + waiting id b.pending

answers-snoc :
    (id k : String) (a : Answer) (l : List (String × Answer))
    → answers id (l ++ (k, a) ∷ []) ≡ answers id l + (if k == id then 1 else 0)
unfolding answers
answers-snoc id k a [] = ground arith
answers-snoc id k a ((j, c) ∷ l) = ground (arith, answers-snoc id k a l)

-- The end of a wait turns it into an answer.
ledger-finish : (id k : String) (a : Answer) (b : Broker) → ledger id (finish b k a) ≡ ledger id b
unfolding finish ledger waiting change
ledger-finish id k a b = elim (Option-cases (Assoc.get b.pending k)) [
  | inl e ↦ rw (e, finish)
  | inr (p, e) ↦
      rw (e, finish)
        (ground (
          arith,
          answers-snoc id k a b.settled,
          get-remove b.pending k id,
          string_eq.beq_iff k id,
          e,
        ))
]

ledger-finish_all :
    (id : String) (ids : List String) (a : Answer) (b : Broker)
    → ledger id (finish_all b ids a) ≡ ledger id b
unfolding finish_all
ledger-finish_all id [] a b = refl
ledger-finish_all id (k ∷ ids) a b =
    ledger-finish_all id ids a (finish b k a) ∙ ledger-finish id k a b

ledger-apply_context :
    (id : String) (b : Broker) (a : ℕ) (c : Connection) (u : ContextUpdate)
    → ledger id (apply_context b a c u).0 ≡ ledger id b
unfolding apply_context ledger notify change_connection change
ledger-apply_context id b a c u = ground arith

ledger-accept_result :
    (id : String) (b : Broker) (a : ℕ) (c : Connection) (r : Response) (u : Option ContextUpdate)
    → ledger id (accept_result b a c r u).0 ≡ ledger id b
unfolding accept_result accept
ledger-accept_result id b a c r none = ledger-finish id r.request_id (resolved r) b
ledger-accept_result id b a c r (some u) =
    ledger-apply_context id (accept b r) a c u ∙ ledger-finish id r.request_id (resolved r) b

ledger-deliver :
    (id : String) (b : Broker) (a : ℕ) (c : Connection) (p : Pending) (r : Response)
    → ledger id (deliver b a c p r).0 ≡ ledger id b
unfolding deliver accept
ledger-deliver id b a c p r = grind (
  arith,
  ledger-accept_result id b a c r,
  ledger-apply_context id b a c,
  λ (d : Broker). ledger-finish id r.request_id (resolved r) d,
)

ledger-recover :
    (id : String) (b : Broker) (p : Pending) (r : Response)
    → ledger id (recover b p r) ≡ ledger id b
unfolding recover
ledger-recover id b p r =
    ground (arith, ledger-finish id r.request_id (rejected ErrorCode.outcome_unknown) b)

ledger-respond :
    (id : String) (b : Broker) (a : ℕ) (r : Response) → ledger id (respond b a r).0 ≡ ledger id b
unfolding respond
ledger-respond id b a r = grind (
  arith,
  λ (c : Connection) (p : Pending). ledger-deliver id b a c p r,
  λ (d : Broker) (p : Pending). ledger-recover id d p r,
)

ledger-release : (id : String) (b : Broker) (a : ℕ) → ledger id (release b a) ≡ ledger id b
unfolding release ledger notify change
ledger-release id b a = grind (arith, ledger-finish_all id)

ledger-register :
    (id : String) (b : Broker) (a : ℕ) (r : _) (uuid : String)
    → ledger id (register b a r uuid).0 ≡ ledger id b
unfolding register ledger notify change_connection change
ledger-register id b a r uuid = ground arith

ledger-ready_call :
    (id : String) (b : Broker) (a : ℕ) (g : String) → ledger id (ready_call b a g).0 ≡ ledger id b
unfolding ready_call ledger notify change_connection change
ledger-ready_call id b a g = ground arith

ledger-publish_context :
    (id : String) (b : Broker) (a : ℕ) (u : ContextUpdate)
    → ledger id (publish_context b a u).0 ≡ ledger id b
unfolding publish_context
ledger-publish_context id b a u = grind (arith, λ (c : Connection). ledger-apply_context id b a c u)

ledger-publish_selection :
    (id : String) (b : Broker) (a : ℕ) (u : _) → ledger id (publish_selection b a u).0 ≡ ledger id b
unfolding publish_selection ledger notify change_connection change
ledger-publish_selection id b a u = ground arith

ledger-begin :
    (id : String) (b : Broker) (to : Binding) (payload : RequestPayload) (is_aborted : Bool)
    (uuid : String)
    → ledger id (begin b to payload is_aborted uuid).0 ≤ ledger id b + (if uuid == id then 1 else 0)
unfolding begin request ledger waiting change
ledger-begin id b to payload is_aborted uuid =
    grind (arith, λ (p : Pending). get-put b.pending uuid id p)

-- The requests that a call begins under the id.
unfoldable pub begun_by : String → Call → ℕ
begun_by id (begins to payload is_aborted uuid) = if uuid == id then 1 else 0
begun_by id _ = 0

unfoldable pub begun : String → List Call → ℕ
begun id [] = 0
begun id (c ∷ cs) = begun_by id c + begun id cs

step-ledger :
    (id : String) (b : Broker) (c : Call) → ledger id (step b c) ≤ ledger id b + begun_by id c
unfolding step begun_by attach ledger time_out stop_waiting close
step-ledger id b attaches = omega arith
step-ledger id b (registers a r uuid) = omega (arith, ledger-register id b a r uuid)
step-ledger id b (readies a g) = omega (arith, ledger-ready_call id b a g)
step-ledger id b (publishes a u) = omega (arith, ledger-publish_context id b a u)
step-ledger id b (selects a u) = omega (arith, ledger-publish_selection id b a u)
step-ledger id b (responds a r) = omega (arith, ledger-respond id b a r)
step-ledger id b (releases a) = omega (arith, ledger-release id b a)
step-ledger id b (begins to payload is_aborted uuid) = ledger-begin id b to payload is_aborted uuid
step-ledger id b (times_out k payload) = omega (arith, ledger-finish id k _ b)
step-ledger id b (stops k) = omega (arith, ledger-finish id k _ b)
step-ledger id b closes = omega (arith, ledger-finish_all id _ _ (record b { closed = true }))

-- Whatever the calls, replies, timeouts, disconnects, ends of waits and closes among them, the answers
-- to a request and the wait that is left grow by no more than the times that the calls begin it.
pub run-ledger :
    (id : String) (b : Broker) (cs : List Call) → ledger id (run b cs) ≤ ledger id b + begun id cs
unfolding run begun
run-ledger id b [] = omega arith
run-ledger id b (c ∷ cs) = omega (arith, step-ledger id b c, run-ledger id (step b c) cs)

waiting-finish :
    (id k : String) (a : Answer) (b : Broker)
    → waiting id (finish b k a).pending ≡ (if k == id then 0 else waiting id b.pending)
unfolding finish waiting change
waiting-finish id k a b = elim (Option-cases (Assoc.get b.pending k)) [
  | inl e ↦ rw (e, finish) (ground (arith, string_eq.beq_iff k id, e))
  | inr (p, e) ↦ rw (e, finish) (ground (arith, get-remove b.pending k id))
]

waiting-finish_all :
    (id : String) (ids : List String) (a : Answer) (b : Broker)
    → waiting id (finish_all b ids a).pending ≤ waiting id b.pending
unfolding finish_all
waiting-finish_all id [] a b = omega arith
waiting-finish_all id (k ∷ ids) a b =
    ground (arith, waiting-finish_all id ids a (finish b k a), waiting-finish id k a b)

none_waits :
    (id : String) (m : Assoc String Pending) (a : Answer) (b : Broker)
    → is_some (Assoc.get m id) ≡ true
    → waiting id (finish_all b (Assoc.keys m) a).pending ≡ 0
unfolding finish_all Assoc.get
none_waits id [] a b h = cc
none_waits id ((k, p) ∷ m) a b h = elim (Bool-cases (k == id)) [
  | inl e ↦
      ground
        (arith, waiting-finish_all id (Assoc.keys m) a (finish b k a), waiting-finish id k a b, e)
  | inr e ↦ none_waits id m a (finish b k a) (rw e at h)
]

-- Closing the broker leaves no request waiting: each that waited has been answered once more, and
-- every other as often as before.
pub close-answers :
    (id : String) (b : Broker)
    → (waiting id (close b).pending ≡ 0)
      × (answers id (close b).settled ≡ answers id b.settled + waiting id b.pending)
unfolding close ledger waiting
close-answers id b =
    let answer = rejected ErrorCode.studio_unavailable in
    let closing : Broker = record b { closed = true } in
    let same = ledger-finish_all id (Assoc.keys b.pending) answer closing in
    let less = waiting-finish_all id (Assoc.keys b.pending) answer closing in
    elim (Bool-cases (is_some (Assoc.get b.pending id))) [
      | inl e ↦ let gone = none_waits id b.pending answer closing e in (gone, ground arith)
      | inr e ↦ (ground arith, ground arith)
    ]

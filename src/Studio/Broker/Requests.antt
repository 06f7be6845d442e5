-- ===== src/Studio/Broker/Requests.antt =====
-- The requests that packages/decorator-agent/src/studio-broker.ts sends to a Studio, and their ends.
use livi_agent.Prelude.{
  ℕ, String, Bool, true, false, not, ◌||◌, none, some, List, [], ◌∷◌, ◌++◌, if◌then◌else◌, keep_if,
  ◌==◌, string_eq, nat_eq,
}
use livi_agent.Prelude.Assoc
use livi_agent.Prelude.Assoc.{Assoc, put, values}
use livi_agent.Studio.Contract.{Binding, ErrorCode, MailboxRequest, RequestPayload, offline, ready}
use livi_agent.Studio.Broker.{
  Connection, Attachment, Pending, Answer, Broker, Result, attached, connected, change, notify, ok,
  err, aborted, rejected,
}
use livi_agent.Studio.Broker.Connections.{is_current}

unfoldable pub without : String → Attachment → Attachment
without id t = record t { mailbox = keep_if (λ r. not (r.request_id == id)) t.mailbox }

unfoldable pub finish : Broker → String → Answer → Broker
unfolding change without
finish b id answer = elim (Assoc.get b.pending id) [
  | none ↦ b
  | some p ↦ record (change b p.attachment (without id)) {
    pending = Assoc.remove b.pending id;
    settled = b.settled ++ (id, answer) ∷ [];
  }
]

-- The keys of the requests that wait for the attachment.
unfoldable pub waiting_for : ℕ → Assoc String Pending → List String
waiting_for a [] = []
waiting_for a ((id, p) ∷ m) =
    let rest = waiting_for a m in if p.attachment == a then id ∷ rest else rest

unfoldable pub finish_all : Broker → List String → Answer → Broker
unfolding finish
finish_all b [] answer = b
finish_all b (id ∷ ids) answer = finish_all (finish b id answer) ids answer

unfoldable pub set_released : Attachment → Attachment
set_released t = record t { released = true }

-- What `release` does to the connection that it removes.
unfoldable pub retire : Attachment → Connection → Attachment
retire t c = record t {
  connection = some (record c { phase = offline; subscribed = false; snapshot = none });
}

unfoldable pub no_requests : Attachment → Attachment
no_requests t = record t { mailbox = [] }

unfoldable pub release : Broker → ℕ → Broker
unfolding attached is_current change set_released retire waiting_for finish_all no_requests notify
release b a = elim (attached b a) [
  | none ↦ b
  | some t ↦ if t.released then b else elim t.connection [
    | none ↦ change b a set_released
    | some c ↦
        if not (is_current b c.binding.tab_id a)
        then change b a set_released
        else let retired = record (change b a (λ u. retire (set_released u) c)) {
          connections = Assoc.remove b.connections c.binding.tab_id;
        } in
          notify (
            change
              (finish_all retired (waiting_for a b.pending) (rejected ErrorCode.studio_unavailable))
              a no_requests)
  ]
]

-- The private `connection`.
unfoldable pub connection_for : Broker → Binding → Result (ℕ × Connection)
unfolding connected
connection_for b binding = elim (Assoc.get b.connections binding.tab_id) [
  | none ↦ err ErrorCode.studio_unavailable
  | some a ↦ elim (connected b a) [
    | none ↦ err ErrorCode.studio_unavailable
    | some c ↦
        if b.closed || elim c.phase [ offline ↦ true | ready ↦ false ] || not c.subscribed
        then err ErrorCode.studio_unavailable
        else if not (c.binding.design_id == binding.design_id)
        then err ErrorCode.wrong_binding
        else ok (a, c)
  ]
]

-- `request`, up to the wait; the wait ends with `finish`.
unfoldable pub request : Broker → ℕ → Connection → RequestPayload → String → Broker
unfolding change
request b a c payload uuid =
    let r : MailboxRequest = record {
      request_id = uuid;
      generation = c.generation;
      binding = c.binding;
      payload = payload;
    } in
    record (change b a (λ t. record t { mailbox = t.mailbox ++ r ∷ [] })) {
      pending = put b.pending uuid (record { attachment = a; request = r });
    }

-- The start of `freshContext` and of `execute`; `is_aborted` is `context.abortSignal?.aborted`.
unfoldable pub begin : Broker → Binding → RequestPayload → Bool → String → Broker × Result ℕ
unfolding connection_for request
begin b binding payload is_aborted uuid = elim (connection_for b binding) [
  | err e ↦ (b, err e)
  | aborted ↦ (b, aborted)
  | ok (a, c) ↦ if is_aborted then (b, aborted) else (request b a c payload uuid, ok a)
]

-- The timer of a request.
unfoldable pub time_out : Broker → String → RequestPayload → Broker
unfolding finish
time_out b id payload = finish b id (
    rejected (elim payload [
      | RequestPayload.context ↦ ErrorCode.studio_unavailable
      | RequestPayload.execute c ↦ ErrorCode.outcome_unknown
    ]))

-- The end of a wait, however it ended: the `finally` of `request`.
unfoldable pub stop_waiting : Broker → String → Broker
unfolding finish
stop_waiting b id = finish b id (rejected ErrorCode.outcome_unknown)

unfoldable pub close : Broker → Broker
unfolding finish_all
close b =
    finish_all (record b { closed = true }) (Assoc.keys b.pending)
      (rejected ErrorCode.studio_unavailable)

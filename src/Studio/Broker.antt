-- ===== src/Studio/Broker.antt =====
-- packages/decorator-agent/src/studio-broker.ts: the broker between the agent and the Studios.
-- An attachment is what `attach` makes for a physical connection: its mailbox, and the one connection
-- object that `register` may create, so the number of the attachment is the connection's identity.
-- A mailbox is published with each change. Listeners, timers and the texts of errors are not
-- modelled; a call runs to its end before the next one starts. A sequence number is a ℕ, and `none`
-- is the first one, -1. `uuid` arguments are what `randomUUID` returned.
pub mod Connections
pub mod Requests
pub mod Replies
pub mod Calls
pub mod Answers
pub mod Saves
mod Tests
use livi_agent.Prelude.{
  ℕ, zero, suc, ◌^◌, String, Bool, true, false, not, ◌&&◌, ◌||◌, Option, none, some, List, [], ◌∷◌,
  ◌++◌, leb, ltb, if◌then◌else◌, any, keep_if, length, ◌==◌, string_eq, nat_eq,
}
use livi_agent.Prelude.Assoc
use livi_agent.Prelude.Assoc.{Assoc, put, values}
use livi_agent.Studio.Contract.{
  Binding, Registration, Snapshot, ContextUpdate, SelectionUpdate, Command, CommandResult,
  ErrorCode, MailboxRequest, RequestPayload, Response, Phase, offline, ready,
  studio_contract_version,
}

pub record Connection : Type 0 where
  pub binding : Binding
  pub label : String
  pub generation : String
  pub sequence : Option ℕ
  pub phase : Phase
  pub snapshot : Option Snapshot
  pub subscribed : Bool

pub record Attachment : Type 0 where
  pub mailbox : List MailboxRequest
  pub connection : Option Connection
  pub released : Bool

pub record Pending : Type 0 where
  pub attachment : ℕ
  pub request : MailboxRequest

-- How a wait ended: `resolve`, or `reject` with a `StudioBrokerError` of the code.
pub data Answer : Type 0 where
  resolved : Response → Answer
  rejected : ErrorCode → Answer

pub record Summary : Type 0 where
  pub binding : Binding
  pub label : String
  pub phase : Phase

-- `settled` are the waits that ended, in order.
pub record Broker : Type 0 where
  pub attachments : List Attachment
  pub connections : Assoc String ℕ
  pub pending : Assoc String Pending
  pub settled : List (String × Answer)
  pub directory : List Summary
  pub closed : Bool

pub data Result (A : Type 0) : Type 0 where
  ok : A → Result A
  err : ErrorCode → Result A
  aborted : Result A

abbrev pub new_broker : Broker
new_broker = record {
  attachments = [];
  connections = [];
  pending = [];
  settled = [];
  directory = [];
  closed = false;
}

pub nth {ℓ} : {A : Type ℓ} → ℕ → List A → Option A
nth n [] = none
nth zero (x ∷ xs) = some x
nth (suc n) (x ∷ xs) = nth n xs

pub update_nth {ℓ} : {A : Type ℓ} → ℕ → (A → A) → List A → List A
update_nth n f [] = []
update_nth zero f (x ∷ xs) = f x ∷ xs
update_nth (suc n) f (x ∷ xs) = x ∷ update_nth n f xs

pub attached : Broker → ℕ → Option Attachment
unfolding nth
attached b a = nth a b.attachments

-- The connection object of an attachment.
pub connected : Broker → ℕ → Option Connection
unfolding attached
connected b a = elim (attached b a) [ none ↦ none | some t ↦ t.connection ]

pub change : Broker → ℕ → (Attachment → Attachment) → Broker
unfolding update_nth
change b a f = record b { attachments = update_nth a f b.attachments }

pub change_connection : Broker → ℕ → Connection → Broker
unfolding change
change_connection b a c = change b a (λ t. record t { connection = some c })

summaries : Broker → Assoc String ℕ → List Summary
unfolding connected
summaries b [] = []
summaries b ((tab, a) ∷ rest) =
    let others = summaries b rest in
    elim (connected b a) [
      | none ↦ others
      | some c ↦ record { binding = c.binding; label = c.label; phase = c.phase } ∷ others
    ]

pub notify : Broker → Broker
unfolding summaries
notify b = record b { directory = summaries b b.connections }

-- The connection that a Studio's binding names, if it shows that design.
pub get_state : Broker → Option Binding → Phase × Option Snapshot
unfolding connected
get_state b none = (offline, none)
get_state b (some binding) = elim (Assoc.get b.connections binding.tab_id) [
  | none ↦ (offline, none)
  | some a ↦ elim (connected b a) [
    | none ↦ (offline, none)
    | some c ↦
        if c.binding.design_id == binding.design_id then (c.phase, c.snapshot) else (offline, none)
  ]
]

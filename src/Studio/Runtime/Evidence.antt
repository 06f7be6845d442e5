-- ===== src/Studio/Runtime/Evidence.antt =====
-- What `context` of studio-session.ts gives to a tool.
use livi_agent.Prelude.{
  true, String, ◌≡◌, refl, ap, sym, ◌∙◌, Option, none, some, string_eq, arith, Option-cases,
  Bool-cases, inl, inr,
}
use livi_agent.Studio.Contract.{Binding, PromptAction, Snapshot}
use livi_agent.Studio.Journal
use livi_agent.Studio.Journal.{Journal, Admission, PlanningSnapshot}
use livi_agent.Studio.Journal.Calls.{run}
use livi_agent.Studio.Journal.Reads.{binding-admission}
use livi_agent.Studio.Runtime.{same_binding}
use livi_agent.Studio.Runtime.Context.{
  TurnIdentity, Invocation, Attempt, fetched, refused, Meanwhile, Given, given, thrown, nothing,
  InContext, is_foreign, evidence, confirm, attempt, admitted_binding, planning_of, conclude,
  recovered, refresh, reused, in_turn, context,
}

confirm-bound :
    (later : Journal) (b : Binding) (w : Meanwhile) (a : Attempt) (s : Snapshot)
    → confirm later b w a ≡ fetched s
    → same_binding (Journal.binding later) (some b) ≡ true
unfolding confirm
confirm-bound later b w (refused m) s is = absurd (ground (arith, is))
confirm-bound later b w (fetched t) s is = elim (Option-cases w.aborted_then) [
  | inr (m, stopped) ↦ absurd (ground (arith, is, stopped))
  | inl going ↦ elim (Bool-cases (same_binding (Journal.binding later) (some b))) [
    | inl same ↦ same
    | inr differs ↦ absurd (ground (arith, is, going, differs))
  ]
]

attempt_same :
    (j : Journal) (b : Binding) (at_hand : Option Snapshot) (w : Meanwhile)
    → same_binding (Journal.binding j) (some b) ≡ true
    → attempt j b at_hand w
      ≡ (run j w.between, confirm (run j w.between) b w (evidence at_hand w.answer))
unfolding attempt
attempt_same j b at_hand w same = rw (attempt, same) refl

-- The binding is current before and after a snapshot was got.
attempt-bound :
    (j : Journal) (b : Binding) (at_hand : Option Snapshot) (w : Meanwhile) (s : Snapshot)
    → (attempt j b at_hand w).1 ≡ fetched s
    → (same_binding (Journal.binding j) (some b) ≡ true)
      × (same_binding (Journal.binding (attempt j b at_hand w).0) (some b) ≡ true)
unfolding attempt
attempt-bound j b at_hand w s is = elim (Bool-cases (same_binding (Journal.binding j) (some b))) [
  | inr differs ↦ absurd (ground (arith, is, differs))
  | inl same ↦
      let equal = attempt_same j b at_hand w same in
      let later =
        confirm-bound (run j w.between) b w (evidence at_hand w.answer) s
          (sym (ap (λ (r : Journal × Attempt). r.1) equal) ∙ is) in
      (
        same,
        ap (λ (r : Journal × Attempt). same_binding (Journal.binding r.0) (some b)) equal ∙ later,
      )
]

-- A tool is given a snapshot only where the attempt got it.
given-injective : (p q : PlanningSnapshot) → Path Given (given p) (given q) → p ≡ q
given-injective p q is = ap (λ (g : Given). elim g [ given x ↦ x | nothing ↦ p | thrown e ↦ p ]) is

recovered-fetched :
    (r : Journal × Attempt) (i : Invocation) (t : TurnIdentity) (a : Option Admission)
    (p : PlanningSnapshot)
    → (recovered r (some i) t a).outcome ≡ given p
    → (s : Snapshot) × (r.1 ≡ fetched s)
      × (p ≡ planning_of t a (some s) none)
      × ((recovered r (some i) t a).journal ≡ r.0)
unfolding recovered conclude planning_of
recovered-fetched (j, refused m) i t a p is = absurd (ground (arith, is))
recovered-fetched (j, fetched s) i t a p is = (s, refl, sym (given-injective _ p is), refl)

-- What a tool is given: the admission's query and action, and a snapshot under the room of the
-- admission, which is current before and after.
pub record IsEvidence (admitted : Option Admission) (j later : Journal) (p : PlanningSnapshot)
    : Type 0 where
  pub admission : Admission
  pub has_admission : admitted ≡ some admission
  pub snapshot : Snapshot
  pub binding : Binding
  pub has_snapshot : p.snapshot ≡ some snapshot
  pub has_room : admission.value ≡ some binding
  pub has_binding : p.binding ≡ some binding
  pub has_query : p.original_query ≡ admission.original_query
  pub has_action : p.action ≡ admission.action
  pub bound_before : same_binding (Journal.binding j) (some binding) ≡ true
  pub bound_later : same_binding (Journal.binding later) (some binding) ≡ true

admitted_some :
    (a : Option Admission) (b : Binding)
    → admitted_binding a ≡ some b
    → (x : Admission) × (a ≡ some x) × (x.value ≡ some b)
admitted_some none b is = absurd (ground (arith, is))
admitted_some (some x) b is = (x, refl, is)

refresh-recovered :
    (j : Journal) (a : Option Admission) (b : Binding) (refreshed : Option PlanningSnapshot)
    (i : Invocation) (t : TurnIdentity) (w : Meanwhile)
    → admitted_binding a ≡ some b
    → w.has_broker ≡ true
    → refresh (j, a) refreshed (some i) t w
      ≡ recovered (attempt j b (reused refreshed t.operation_id (some i)) w) (some i) t a
unfolding refresh
refresh-recovered j a b refreshed i t w admitted here = ground (arith, admitted, here)

abbrev query_of : Option Admission → Option String
query_of a = elim a [ none ↦ none | some x ↦ x.original_query ]

abbrev action_of : Option Admission → Option PromptAction
action_of a = elim a [ none ↦ none | some x ↦ x.action ]

refresh-IsEvidence :
    (j : Journal) (a : Option Admission) (refreshed : Option PlanningSnapshot) (i : Invocation)
    (t : TurnIdentity) (w : Meanwhile) (p : PlanningSnapshot)
    → (refresh (j, a) refreshed (some i) t w).outcome ≡ given p
    → IsEvidence a j (refresh (j, a) refreshed (some i) t w).journal p
unfolding refresh conclude planning_of
refresh-IsEvidence j a refreshed i t w p is = elim (Option-cases (admitted_binding a)) [
  | inl no_binding ↦ absurd (ground (arith, is, no_binding))
  | inr (b, admitted) ↦ elim (Bool-cases w.has_broker) [
    | inr no_broker ↦ absurd (ground (arith, is, admitted, no_broker))
    | inl here ↦
        let r = attempt j b (reused refreshed t.operation_id (some i)) w in
        let equal = refresh-recovered j a b refreshed i t w admitted here in
        let (s, got, made, left) =
          recovered-fetched r i t a p (sym (ap (λ (x : InContext). x.outcome) equal) ∙ is) in
        let (before, later) =
          attempt-bound j b (reused refreshed t.operation_id (some i)) w s got in
        let (x, is_admitted, room) = admitted_some a b admitted in
        record {
          admission = x;
          has_admission = is_admitted;
          snapshot = s;
          binding = b;
          has_room = room;
          has_query =
              ap (λ (y : PlanningSnapshot). y.original_query) made ∙ ap query_of is_admitted;
          has_action = ap (λ (y : PlanningSnapshot). y.action) made ∙ ap action_of is_admitted;
          has_snapshot = ap (λ (x : PlanningSnapshot). x.snapshot) made;
          has_binding = ap (λ (x : PlanningSnapshot). x.binding) made ∙ admitted;
          bound_before = before;
          bound_later =
              ap (λ k. same_binding (Journal.binding k) (some b))
                (ap (λ (x : InContext). x.journal) equal ∙ left)
              ∙ later;
        }
  ]
]

context-refresh :
    (j : Journal) (refreshed : Option PlanningSnapshot) (t : TurnIdentity) (i : Invocation)
    (w : Meanwhile) (p : PlanningSnapshot)
    → (context j refreshed (some t) (some i) w).outcome ≡ given p
    → context j refreshed (some t) (some i) w
      ≡ refresh (Journal.admission j t.operation_id) refreshed (some i) t w
unfolding context in_turn
context-refresh j refreshed t i w p is = elim (Bool-cases w.aborted) [
  | inl stopped ↦ absurd (ground (arith, is, stopped))
  | inr going ↦ elim (Bool-cases (is_foreign (some t) (some i))) [
    | inl foreign ↦ absurd (ground (arith, is, going, foreign))
    | inr own ↦ ground (arith, going, own)
  ]
]

-- A tool is given a planning only with a snapshot, and only where the journal has an admission of its
-- operation with a room: the planning's query, action and room are those of the admission, and the room
-- is that of the conversation when the call begins and when it ends, whatever is called on the journal
-- meanwhile.
pub context-IsEvidence :
    (j : Journal) (refreshed : Option PlanningSnapshot) (t : TurnIdentity) (i : Invocation)
    (w : Meanwhile) (p : PlanningSnapshot)
    → (context j refreshed (some t) (some i) w).outcome ≡ given p
    → IsEvidence
        (Journal.admission j t.operation_id).1
        j
        (context j refreshed (some t) (some i) w).journal
        p
context-IsEvidence j refreshed t i w p is =
    let read = Journal.admission j t.operation_id in
    let equal = context-refresh j refreshed t i w p is in
    let h =
      refresh-IsEvidence read.0 read.1 refreshed i t w p
        (sym (ap (λ (x : InContext). x.outcome) equal) ∙ is) in
    record {
      admission = h.admission;
      has_admission = h.has_admission;
      snapshot = h.snapshot;
      binding = h.binding;
      has_room = h.has_room;
      has_query = h.has_query;
      has_action = h.has_action;
      has_snapshot = h.has_snapshot;
      has_binding = h.has_binding;
      bound_before =
          ap (λ b. same_binding b (some h.binding)) (sym (binding-admission j t.operation_id))
          ∙ h.bound_before;
      bound_later =
          ap (λ (x : InContext). same_binding (Journal.binding x.journal) (some h.binding)) equal
          ∙ h.bound_later;
    }

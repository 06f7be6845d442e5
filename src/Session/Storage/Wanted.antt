-- ===== src/Session/Storage/Wanted.antt =====
-- What a query of `scanEntries` in in-memory-storage-state.ts asks of an entry.
use livi_agent.Prelude.{
  ℕ, String, ◌≤◌, ◌≡◌, refl, ap, subst, true, Option, none, some, arith, string_eq,
}
use livi_agent.Session.{Entry, EntryType, message, compaction, branch_summary, custom}
use livi_agent.Session.Storage.Queries.{
  EntryScan, matches_entry, same_type, has_type, has_custom_type, from_bound, to_bound,
}

-- A constraint that a query may leave out.
abbrev pub Asks {ℓ} : {A : Type ℓ} → (A → Type 0) → Option A → Type 0
Asks P none = Unit {0}
Asks P (some a) = P a

-- What a query asks of an entry: its type, its custom type and its number, within both bounds.
pub record Wanted (q : EntryScan) (e : Entry) : Type 0 where
  pub of_type : Asks (λ t. e.type ≡ t) q.type
  pub of_custom : Asks (λ c. e.custom_type ≡ some c) q.custom_type
  pub from : Asks (λ n. n ≤ e.seq) q.from_seq
  pub to : Asks (λ n. e.seq ≤ n) q.to_seq

has_type-Asks : (o : Option EntryType) (t : EntryType) → has_type o t ≡ true → Asks (λ u. t ≡ u) o
unfolding has_type same_type
has_type-Asks none t h = tt
has_type-Asks (some message) message h = refl
has_type-Asks (some message) compaction h = absurd cc
has_type-Asks (some message) branch_summary h = absurd cc
has_type-Asks (some message) custom h = absurd cc
has_type-Asks (some compaction) message h = absurd cc
has_type-Asks (some compaction) compaction h = refl
has_type-Asks (some compaction) branch_summary h = absurd cc
has_type-Asks (some compaction) custom h = absurd cc
has_type-Asks (some branch_summary) message h = absurd cc
has_type-Asks (some branch_summary) compaction h = absurd cc
has_type-Asks (some branch_summary) branch_summary h = refl
has_type-Asks (some branch_summary) custom h = absurd cc
has_type-Asks (some custom) message h = absurd cc
has_type-Asks (some custom) compaction h = absurd cc
has_type-Asks (some custom) branch_summary h = absurd cc
has_type-Asks (some custom) custom h = refl

same_type_same : (t : EntryType) → same_type t t ≡ true
unfolding same_type
same_type_same message = refl
same_type_same compaction = refl
same_type_same branch_summary = refl
same_type_same custom = refl

Asks-has_type : (o : Option EntryType) (t : EntryType) → Asks (λ u. t ≡ u) o → has_type o t ≡ true
unfolding has_type
Asks-has_type none t h = refl
Asks-has_type (some u) t h = subst (λ v. same_type t v ≡ true) h (same_type_same t)

has_custom_type-Asks : (o t : Option String) → has_custom_type o t ≡ true → Asks (λ c. t ≡ some c) o
unfolding has_custom_type
has_custom_type-Asks none t h = tt
has_custom_type-Asks (some c) none h = absurd cc
has_custom_type-Asks (some c) (some t) h = ap some (ground (arith, string_eq.beq_iff t c, h))

Asks-has_custom_type : (o t : Option String) → Asks (λ c. t ≡ some c) o → has_custom_type o t ≡ true
unfolding has_custom_type
Asks-has_custom_type none t h = refl
Asks-has_custom_type (some c) none h = absurd cc
Asks-has_custom_type (some c) (some t) h = ground (arith, string_eq.beq_iff t c, h)

from_bound-Asks : (o : Option ℕ) (n : ℕ) → from_bound o n ≡ true → Asks (λ b. b ≤ n) o
unfolding from_bound
from_bound-Asks none n h = tt
from_bound-Asks (some b) n h = ground (arith, h)

Asks-from_bound : (o : Option ℕ) (n : ℕ) → Asks (λ b. b ≤ n) o → from_bound o n ≡ true
unfolding from_bound
Asks-from_bound none n h = refl
Asks-from_bound (some b) n h = ground (arith, h)

to_bound-Asks : (o : Option ℕ) (n : ℕ) → to_bound o n ≡ true → Asks (λ b. n ≤ b) o
unfolding to_bound
to_bound-Asks none n h = tt
to_bound-Asks (some b) n h = ground (arith, h)

Asks-to_bound : (o : Option ℕ) (n : ℕ) → Asks (λ b. n ≤ b) o → to_bound o n ≡ true
unfolding to_bound
Asks-to_bound none n h = refl
Asks-to_bound (some b) n h = ground (arith, h)

pub matches-Wanted : (q : EntryScan) (e : Entry) → matches_entry q e ≡ true → Wanted q e
unfolding matches_entry
matches-Wanted q e h = record {
  of_type = has_type-Asks q.type e.type (ground (arith, h));
  of_custom = has_custom_type-Asks q.custom_type e.custom_type (ground (arith, h));
  from = from_bound-Asks q.from_seq e.seq (ground (arith, h));
  to = to_bound-Asks q.to_seq e.seq (ground (arith, h));
}

pub Wanted-matches : (q : EntryScan) (e : Entry) → Wanted q e → matches_entry q e ≡ true
unfolding matches_entry
Wanted-matches q e w = ground (
  arith,
  Asks-has_type q.type e.type w.of_type,
  Asks-has_custom_type q.custom_type e.custom_type w.of_custom,
  Asks-from_bound q.from_seq e.seq w.from,
  Asks-to_bound q.to_seq e.seq w.to,
)

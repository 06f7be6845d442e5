-- ===== src/Session/Storage/Queries.antt =====
-- The reads of packages/agent/src/harness/session/in-memory-storage-state.ts.
use text.Mathlib.Text.{starts_with}
use Prim.Native.Char.{code}
use Prim.Native.String.{String}
use livi_agent.Prelude.{
  ℕ, zero, suc, Bool, true, false, ◌&&◌, ◌||◌, Option, none, some, List, [], ◌∷◌, if◌then◌else◌,
  ltb, leb, reverse, take, keep_if, string_eq, pair_eq, nat_eq, ◌==◌,
}
use livi_agent.Prelude.Assoc
use livi_agent.Prelude.Assoc.{Assoc, put, values}
use livi_agent.Prelude.Sort.{sort_by}
use livi_agent.Session.{
  Address, EntryType, Entry, UsageRow, StoredValue, ListElement, Order, asc, desc, ListReadOptions,
  resolve_list_read_options, message, compaction, branch_summary, custom,
}
use livi_agent.Session.Storage.{Store}

-- `getEntries`: a map of those that there are.
unfoldable pub found_entries : Assoc String Entry → Store → List String → Assoc String Entry
found_entries found s [] = found
found_entries found s (id ∷ ids) = elim (Assoc.get s.entries id) [
  | none ↦ found_entries found s ids
  | some e ↦ found_entries (put found id e) s ids
]

unfoldable pub get_entries : Store → List String → Assoc String Entry
unfolding found_entries
get_entries s ids = found_entries [] s ids

unfoldable pub get_value : Store → Address → Option StoredValue
get_value s a = Assoc.get s.scalar_values a

abbrev codes : String → List ℕ
codes String.[] = []
codes (String.◌∷◌ c s) = code c ∷ codes s

-- `compareKeys(left, right) <= 0`.
unfoldable pub key_le : List ℕ → List ℕ → Bool
key_le [] ys = true
key_le (x ∷ xs) [] = false
key_le (x ∷ xs) (y ∷ ys) = ltb x y || ((x == y) && key_le xs ys)

unfoldable pub stored_le : StoredValue → StoredValue → Bool
unfolding key_le
stored_le l r = key_le (codes l.address.1) (codes r.address.1)

unfoldable pub has_prefix : Address → StoredValue → Bool
has_prefix prefix v = (v.address.0 == prefix.0) && starts_with v.address.1 prefix.1

unfoldable pub scan_values : Store → Address → List StoredValue
unfolding has_prefix stored_le
scan_values s prefix = sort_by stored_le (keep_if (has_prefix prefix) (values s.scalar_values))

unfoldable pub elements_of : Option (List ListElement) → List ListElement
elements_of none = []
elements_of (some xs) = xs

-- The element lies behind the cursor, in the order of the read.
unfoldable pub after_cursor : Order → Option ℕ → ℕ → Bool
after_cursor order none seq = true
after_cursor asc (some cursor) seq = ltb cursor seq
after_cursor desc (some cursor) seq = ltb seq cursor

unfoldable pub in_order {ℓ} : {A : Type ℓ} → Order → List A → List A
in_order asc xs = xs
in_order desc xs = reverse xs

unfoldable pub read_list : Store → Address → ListReadOptions → Option (List ListElement)
unfolding elements_of after_cursor in_order
read_list s a options = elim (resolve_list_read_options options) [
  | none ↦ none
  | some o ↦
      let elements = elements_of (Assoc.get s.list_values a) in
      let filtered = keep_if (λ (x : ListElement). after_cursor o.order o.cursor x.seq) elements in
      some (take o.limit (in_order o.order filtered))
]

unfoldable pub same_type : EntryType → EntryType → Bool
same_type message message = true
same_type compaction compaction = true
same_type branch_summary branch_summary = true
same_type custom custom = true
same_type _ _ = false

unfoldable pub has_custom_type : Option String → Option String → Bool
has_custom_type none t = true
has_custom_type (some c) none = false
has_custom_type (some c) (some t) = t == c

unfoldable pub has_type : Option EntryType → EntryType → Bool
unfolding same_type
has_type none t = true
has_type (some u) t = same_type t u

unfoldable pub limited {ℓ} : {A : Type ℓ} → Option ℕ → List A → List A
limited none xs = xs
limited (some n) xs = take n xs

pub record EntryScan : Type 0 where
  pub type : Option EntryType
  pub custom_type : Option String
  pub from_seq : Option ℕ
  pub to_seq : Option ℕ
  pub order : Order
  pub limit : Option ℕ

unfoldable pub from_bound : Option ℕ → ℕ → Bool
from_bound none n = true
from_bound (some b) n = leb b n

unfoldable pub to_bound : Option ℕ → ℕ → Bool
to_bound none n = true
to_bound (some b) n = leb n b

unfoldable pub matches_entry : EntryScan → Entry → Bool
unfolding has_type has_custom_type from_bound to_bound
matches_entry q e =
    has_type q.type e.type
    && has_custom_type q.custom_type e.custom_type
    && from_bound q.from_seq e.seq
    && to_bound q.to_seq e.seq

-- The loop over the index, on the entries that it has before it; `room` is how many more may be
-- taken, `none` for no limit.
unfoldable pub take_matching : (Entry → Bool) → Option ℕ → List Entry → List Entry
take_matching p (some zero) es = []
take_matching p room [] = []
take_matching p none (e ∷ es) = let rest = take_matching p none es in if p e then e ∷ rest else rest
take_matching p (some (suc n)) (e ∷ es) =
    let taken = e ∷ take_matching p (some n) es in
    let passed = take_matching p (some (suc n)) es in if p e then taken else passed

unfoldable pub scan_entries : Store → EntryScan → List Entry
unfolding matches_entry take_matching in_order
scan_entries s q = take_matching (matches_entry q) q.limit (in_order q.order s.entries_by_seq)

pub record UsageScan : Type 0 where
  pub from_seq : Option ℕ
  pub to_seq : Option ℕ
  pub order : Order
  pub limit : Option ℕ

unfoldable pub usage_before : Order → UsageRow → UsageRow → Bool
usage_before asc l r = leb l.seq r.seq
usage_before desc l r = leb r.seq l.seq

unfoldable pub scan_usage : Store → UsageScan → List UsageRow
unfolding from_bound to_bound usage_before limited
scan_usage s q = limited q.limit (
    sort_by (usage_before q.order) (
      keep_if (λ (r : UsageRow). to_bound q.to_seq r.seq)
        (keep_if (λ (r : UsageRow). from_bound q.from_seq r.seq) (values s.usage))))

pub snapshot_entries : Store → List Entry
snapshot_entries s = sort_by (λ (l r : Entry). leb l.seq r.seq) (values s.entries)

pub snapshot_values : Store → List StoredValue
snapshot_values s = values s.scalar_values

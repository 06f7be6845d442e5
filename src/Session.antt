-- ===== src/Session.antt =====
-- packages/agent/src/harness/session: the entries, usage rows and values of a stored session, and
-- the writes that change them (types.ts, values.ts, utils/usage.ts).
-- A value that the store only carries is a `Json`. An address is one that `value` or `list` let
-- through, so its namespace and its key are without NUL and name it as a pair.
pub mod Commit
pub mod Storage
pub mod Fork
use livi_agent.Prelude.{
  ℕ, ◌+◌, String, Bool, true, false, not, ◌&&◌, ◌||◌, Option, none, some, List, [], ◌∷◌,
  if◌then◌else◌, ltb, min, ◌==◌, nat_eq,
}

abbrev pub Json : Type 0
Json = String

-- The 64 bits of a number that is only added up.
abbrev pub Double : Type 0
Double = ℕ

pub data EntryType : Type 0 where
  message compaction branch_summary custom : EntryType

-- An entry before storage assigns its sequence number and its timestamp.
pub record NewEntry : Type 0 where
  pub id : String
  pub parent_id : Option String
  pub type : EntryType
  pub custom_type : Option String
  pub body : Json

pub record Entry : Type 0 where
  pub new : NewEntry
  pub open new use *
  pub seq : ℕ
  pub timestamp : ℕ

pub record Cost : Type 0 where
  pub input : Double
  pub output : Double
  pub cache_read : Double
  pub cache_write : Double
  pub total : Double

pub record Usage : Type 0 where
  pub input : ℕ
  pub output : ℕ
  pub cache_read : ℕ
  pub cache_write : ℕ
  pub cache_write_1h : Option ℕ
  pub reasoning : Option ℕ
  pub total_tokens : ℕ
  pub cost : Cost

pub empty_usage : Usage
empty_usage = record {
  input = 0;
  output = 0;
  cache_read = 0;
  cache_write = 0;
  cache_write_1h = none;
  reasoning = none;
  total_tokens = 0;
  cost = record { input = 0; output = 0; cache_read = 0; cache_write = 0; total = 0 };
}

pub or_zero : Option ℕ → ℕ
or_zero none = 0
or_zero (some n) = n

-- A field that is missing on both sides stays missing.
pub add_optional : Option ℕ → Option ℕ → Option ℕ
unfolding or_zero
add_optional none none = none
add_optional a b = some (or_zero a + or_zero b)

-- `plus` is the platform's addition of doubles.
module _ (plus : Double → Double → Double) where
  pub add_cost : Cost → Cost → Cost
  add_cost l r = record {
    input = plus l.input r.input;
    output = plus l.output r.output;
    cache_read = plus l.cache_read r.cache_read;
    cache_write = plus l.cache_write r.cache_write;
    total = plus l.total r.total;
  }

  pub add_usage : Usage → Usage → Usage
  unfolding add_optional add_cost
  add_usage l r = record {
    input = l.input + r.input;
    output = l.output + r.output;
    cache_read = l.cache_read + r.cache_read;
    cache_write = l.cache_write + r.cache_write;
    cache_write_1h = add_optional l.cache_write_1h r.cache_write_1h;
    reasoning = add_optional l.reasoning r.reasoning;
    total_tokens = l.total_tokens + r.total_tokens;
    cost = add_cost l.cost r.cost;
  }

pub record NewUsage : Type 0 where
  pub id : String
  pub usage : Usage
  pub entry_id : Option String
  pub adjustment : Bool
  pub details : Option Json

pub record UsageRow : Type 0 where
  pub new : NewUsage
  pub open new use *
  pub seq : ℕ

-- A namespace and a key.
abbrev pub Address : Type 0
Address = String × String

pub record StoredValue : Type 0 where
  pub address : Address
  pub value : Json
  pub seq : ℕ

pub record ListElement : Type 0 where
  pub seq : ℕ
  pub value : Json

pub data Order : Type 0 where
  asc desc : Order

pub record ListReadOptions : Type 0 where
  pub cursor : Option ℕ
  pub order : Option Order
  pub limit : Option ℕ

pub record ResolvedListReadOptions : Type 0 where
  pub cursor : Option ℕ
  pub order : Order
  pub limit : ℕ

pub or_else {ℓ} : {A : Type ℓ} → Option A → A → A
or_else none d = d
or_else (some a) d = a

-- `none` is the `TypeError`; a limit that is no safe natural number is not modelled.
unfoldable pub resolve_list_read_options : ListReadOptions → Option ResolvedListReadOptions
unfolding or_else
resolve_list_read_options o =
    let requested = or_else o.limit 1_000 in
    if requested == 0
    then none
    else some
        (record { cursor = o.cursor; order = or_else o.order asc; limit = min requested 10_000 })

pub data Write : Type 0 where
  entry : NewEntry → Write
  usage : NewUsage → Write
  value_set : Address → Json → Write
  value_delete : Address → Write
  list_append : Address → Json → Write
  list_delete : Address → Write

pub record SessionStats : Type 0 where
  pub message_count : ℕ
  pub usage : Usage

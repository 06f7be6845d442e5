-- ===== src/Tools/Truncate.antt =====
-- packages/agent/src/harness/utils/truncate.ts: tool outputs cut to limits of lines and bytes.
-- `runtime_buffer` is `Buffer.byteLength`, where the platform has it.
pub mod End
pub mod Bytes
pub mod Bounds
pub mod Head
pub mod Partial
pub mod Tail
mod Tests
use livi_agent.Prelude.{
  ℕ, zero, suc, ◌+◌, ◌*◌, ◌-◌, Bool, true, false, not, ◌&&◌, ◌||◌, Option, none, some, List, [],
  ◌∷◌, ◌++◌, if◌then◌else◌, ltb, leb, nat_eq, ◌==◌, length, take, drop, reverse,
}
use livi_agent.Tools.{
  Text, newline, is_high, is_low, width, count_bytes, join, split_lines_for_counting,
  first_non_ascii,
}
use livi_agent.Tools.Truncate.End.{truncate_string_to_bytes_from_end}

abbrev pub default_max_lines : ℕ
default_max_lines = 2000

abbrev pub default_max_bytes : ℕ
default_max_bytes = 50 * 1024

abbrev pub grep_max_line_length : ℕ
grep_max_line_length = 500

pub data Limit : Type 0 where
  by_lines by_bytes : Limit

pub record TruncationResult : Type 0 where
  pub content : Text
  pub truncated : Bool
  pub truncated_by : Option Limit
  pub total_lines : ℕ
  pub total_bytes : ℕ
  pub output_lines : ℕ
  pub output_bytes : ℕ
  pub last_line_partial : Bool
  pub first_line_exceeds_limit : Bool
  pub max_lines : ℕ
  pub max_bytes : ℕ

pub record TruncationOptions : Type 0 where
  pub max_lines : Option ℕ
  pub max_bytes : Option ℕ

unfoldable pub or_default : Option ℕ → ℕ → ℕ
or_default none d = d
or_default (some n) d = n

-- What is counted without a `Buffer`.
unfoldable pub fallback_length : Text → ℕ
unfolding first_non_ascii count_bytes
fallback_length t = elim (first_non_ascii t) [
  | none ↦ length t
  | some i ↦ i + count_bytes (drop i t)
]

-- The lines that were taken, what was counted for them, and the limit that stopped the loop.
pub record Collected : Type 0 where
  pub lines : List Text
  pub bytes : ℕ
  pub by : Limit

-- "If we exited due to line limit".
unfoldable pub stopped_by : Collected → ℕ → ℕ → Limit
stopped_by c max_lines max_bytes =
    if leb max_lines (length c.lines) && leb c.bytes max_bytes then by_lines else c.by

unfoldable pub first_line : List Text → Text
first_line [] = []
first_line (l ∷ ls) = l

abbrev pub is_empty : List Text → Bool
is_empty [] = true
is_empty (l ∷ ls) = false

module _ (runtime_buffer : Option (Text → ℕ)) where
  unfoldable pub utf8_byte_length : Text → ℕ
  unfolding fallback_length
  utf8_byte_length t = elim runtime_buffer [
    | some byte_length ↦ byte_length t
    | none ↦ fallback_length t
  ]

  -- What both functions return where nothing is cut, and what they return of collected lines.
  unfoldable pub untouched : Text → ℕ → ℕ → TruncationResult
  unfolding utf8_byte_length split_lines_for_counting
  untouched t max_lines max_bytes = record {
    content = t;
    truncated = false;
    truncated_by = none;
    total_lines = length (split_lines_for_counting t);
    total_bytes = utf8_byte_length t;
    output_lines = length (split_lines_for_counting t);
    output_bytes = utf8_byte_length t;
    last_line_partial = false;
    first_line_exceeds_limit = false;
    max_lines = max_lines;
    max_bytes = max_bytes;
  }

  unfoldable pub cut : Text → Collected → Bool → ℕ → ℕ → TruncationResult
  unfolding utf8_byte_length split_lines_for_counting stopped_by join
  cut t c partial max_lines max_bytes = record {
    content = join c.lines;
    truncated = true;
    truncated_by = some (stopped_by c max_lines max_bytes);
    total_lines = length (split_lines_for_counting t);
    total_bytes = utf8_byte_length t;
    output_lines = length c.lines;
    output_bytes = utf8_byte_length (join c.lines);
    last_line_partial = partial;
    first_line_exceeds_limit = false;
    max_lines = max_lines;
    max_bytes = max_bytes;
  }

  unfoldable pub first_line_exceeds : Text → ℕ → ℕ → TruncationResult
  unfolding utf8_byte_length split_lines_for_counting
  first_line_exceeds t max_lines max_bytes = record {
    content = [];
    truncated = true;
    truncated_by = some by_bytes;
    total_lines = length (split_lines_for_counting t);
    total_bytes = utf8_byte_length t;
    output_lines = 0;
    output_bytes = 0;
    last_line_partial = false;
    first_line_exceeds_limit = true;
    max_lines = max_lines;
    max_bytes = max_bytes;
  }

  unfoldable pub fits : Text → ℕ → ℕ → Bool
  unfolding utf8_byte_length split_lines_for_counting
  fits t max_lines max_bytes =
      leb (length (split_lines_for_counting t)) max_lines && leb (utf8_byte_length t) max_bytes

  -- The bytes of a line, with those of its newline behind lines that were taken.
  unfoldable pub line_bytes : Text → List Text → ℕ
  unfolding utf8_byte_length
  line_bytes l [] = utf8_byte_length l
  line_bytes l (x ∷ xs) = utf8_byte_length l + 1

  -- The loop of `truncateHead`; the lines taken so far are as many as its index.
  unfoldable pub collect_head : ℕ → ℕ → List Text → List Text → ℕ → Collected
  unfolding line_bytes
  collect_head max_lines max_bytes [] out bytes = record {
    lines = out;
    bytes = bytes;
    by = by_lines;
  }
  collect_head max_lines max_bytes (l ∷ ls) out bytes =
      let b = line_bytes l out in
      let rest = collect_head max_lines max_bytes ls (out ++ l ∷ []) (bytes + b) in
      if leb max_lines (length out)
      then record { lines = out; bytes = bytes; by = by_lines }
      else if ltb max_bytes (bytes + b)
      then record { lines = out; bytes = bytes; by = by_bytes }
      else rest

  unfoldable pub head_of : Text → ℕ → ℕ → TruncationResult
  unfolding fits untouched first_line_exceeds first_line cut collect_head
  head_of t max_lines max_bytes =
      let lines = split_lines_for_counting t in
      if fits t max_lines max_bytes
      then untouched t max_lines max_bytes
      else if ltb max_bytes (utf8_byte_length (first_line lines))
      then first_line_exceeds t max_lines max_bytes
      else cut t (collect_head max_lines max_bytes lines [] 0) false max_lines max_bytes

  unfoldable pub truncate_head : Text → TruncationOptions → TruncationResult
  unfolding head_of or_default
  truncate_head t o =
      head_of t (or_default o.max_lines default_max_lines)
        (or_default o.max_bytes default_max_bytes)

  -- The loop of `truncateTail`, on the lines in reverse, and whether a line was taken in part.
  unfoldable pub collect_tail : ℕ → ℕ → List Text → List Text → ℕ → Collected × Bool
  unfolding line_bytes truncate_string_to_bytes_from_end
  collect_tail max_lines max_bytes [] out bytes =
      (record { lines = out; bytes = bytes; by = by_lines }, false)
  collect_tail max_lines max_bytes (l ∷ ls) out bytes =
      let b = line_bytes l out in
      let part = truncate_string_to_bytes_from_end l max_bytes in
      let rest = collect_tail max_lines max_bytes ls (l ∷ out) (bytes + b) in
      if leb max_lines (length out)
      then (record { lines = out; bytes = bytes; by = by_lines }, false)
      else if ltb max_bytes (bytes + b)
      then (if is_empty out
          then (record { lines = part ∷ []; bytes = utf8_byte_length part; by = by_bytes }, true)
          else (record { lines = out; bytes = bytes; by = by_bytes }, false))
      else rest

  unfoldable pub tail_of : Text → ℕ → ℕ → TruncationResult
  unfolding fits untouched cut collect_tail
  tail_of t max_lines max_bytes =
      let collected =
        collect_tail max_lines max_bytes (reverse (split_lines_for_counting t)) [] 0 in
      if fits t max_lines max_bytes
      then untouched t max_lines max_bytes
      else cut t collected.0 collected.1 max_lines max_bytes

  unfoldable pub truncate_tail : Text → TruncationOptions → TruncationResult
  unfolding tail_of or_default
  truncate_tail t o =
      tail_of t (or_default o.max_lines default_max_lines)
        (or_default o.max_bytes default_max_bytes)

pub record Line : Type 0 where
  pub text : Text
  pub was_truncated : Bool

-- `... [truncated]`.
abbrev pub truncated_suffix : Text
truncated_suffix =
    46 ∷ 46 ∷ 46 ∷ 32 ∷ 91 ∷ 116 ∷ 114 ∷ 117 ∷ 110 ∷ 99 ∷ 97 ∷ 116 ∷ 101 ∷ 100 ∷ 93 ∷ []

pub truncate_line : Text → ℕ → Line
truncate_line line max_chars =
    if leb (length line) max_chars
    then record { text = line; was_truncated = false }
    else record { text = take max_chars line ++ truncated_suffix; was_truncated = true }

-- ===== src/Tools/Truncate/Tail.antt =====
-- What `truncateTail` of truncate.ts keeps.
use livi_agent.Prelude.{
  ℕ, ◌+◌, ◌<◌, ◌≤◌, ◌≡◌, refl, Bool, false, Option, List, [], ◌∷◌, length, reverse, Bool-cases, inl,
  inr, leb, ltb, arith,
}
use livi_agent.Tools.{Text, count_bytes, split_lines_for_counting, join}
use livi_agent.Tools.Truncate.{
  TruncationOptions, Collected, collect_tail, tail_of, truncate_tail, utf8_byte_length, line_bytes,
  fits, cut, or_default, default_max_lines, default_max_bytes, is_empty, by_bytes,
}
use livi_agent.Tools.Truncate.End.{truncate_string_to_bytes_from_end}
use livi_agent.Tools.Truncate.Bytes.{
  IsUtf8, utf8_byte_length-count, line_bytes-added, added, count_bytes-line,
}
use livi_agent.Tools.Truncate.Bounds.{IsWithinLimits}
use livi_agent.Tools.Truncate.Head.{untouched-IsWithinLimits}
use livi_agent.Tools.Truncate.Partial.{truncate_string_to_bytes_from_end-bound}

count_bytes-cons :
    (l : Text) (out : List Text)
    → count_bytes (join (l ∷ out)) ≡ count_bytes (join out) + added l out
unfolding join count_bytes
count_bytes-cons l [] = omega arith
count_bytes-cons l (x ∷ xs) = omega (arith, count_bytes-line l (join (x ∷ xs)))

-- The lines that were collected are within the limits.
record IsWithin (max_lines max_bytes : ℕ) (c : Collected) : Type 0 where
  pub few : length c.lines ≤ max_lines
  pub counted : c.bytes ≡ count_bytes (join c.lines)
  pub small : c.bytes ≤ max_bytes

leb_not : (a b : ℕ) → leb a b ≡ false → b < a
leb_not a b h = ground arith

ltb_not : (a b : ℕ) → ltb a b ≡ false → b ≤ a
ltb_not a b h = ground arith

module _ (buffer : Option (Text → ℕ)) (utf8 : IsUtf8 buffer) where
  partial-IsWithin :
      (max_lines max_bytes : ℕ) (l : Text)
      → 0 < max_lines
      → IsWithin max_lines max_bytes (record {
        lines = truncate_string_to_bytes_from_end l max_bytes ∷ [];
        bytes = utf8_byte_length buffer (truncate_string_to_bytes_from_end l max_bytes);
        by = by_bytes;
      })
  unfolding join
  partial-IsWithin max_lines max_bytes l room =
      let part = truncate_string_to_bytes_from_end l max_bytes in
      let same = utf8_byte_length-count buffer part utf8 in
      record {
        few = omega arith;
        counted = same;
        small = omega (arith, same, truncate_string_to_bytes_from_end-bound l max_bytes);
      }

  collect_tail-IsWithin :
      (max_lines max_bytes : ℕ) (ls out : List Text) (bytes : ℕ)
      → length out ≤ max_lines
      → bytes ≡ count_bytes (join out)
      → bytes ≤ max_bytes
      → IsWithin max_lines max_bytes (collect_tail buffer max_lines max_bytes ls out bytes).0
  unfolding collect_tail
  collect_tail-IsWithin max_lines max_bytes [] out bytes few counted small = record {
    few = few;
    counted = counted;
    small = small;
  }
  collect_tail-IsWithin max_lines max_bytes (l ∷ ls) out bytes few counted small =
      let b = line_bytes-added buffer l out utf8 in
      elim (Bool-cases (leb max_lines (length out))) [
        | inl full ↦
            rw (collect_tail, full) (record { few = few; counted = counted; small = small })
        | inr room ↦ elim (Bool-cases (ltb max_bytes (bytes + line_bytes buffer l out))) [
          | inl over ↦ elim (Bool-cases (is_empty out)) [
            | inl first ↦
                rw (collect_tail, room, over, first)
                  (partial-IsWithin max_lines max_bytes l
                    (omega (arith, leb_not max_lines (length out) room)))
            | inr later ↦
                rw (collect_tail, room, over, later)
                  (record { few = few; counted = counted; small = small })
          ]
          | inr fit ↦
              rw (collect_tail, room, fit)
                (collect_tail-IsWithin max_lines max_bytes ls (l ∷ out)
                  (bytes + line_bytes buffer l out)
                  (omega (arith, leb_not max_lines (length out) room))
                  (omega (arith, count_bytes-cons l out))
                  (ltb_not max_bytes (bytes + line_bytes buffer l out) fit))
        ]
      ]

  cut-IsWithinLimits :
      (t : Text) (max_lines max_bytes : ℕ) (c : Collected) (partial : Bool)
      → IsWithin max_lines max_bytes c
      → IsWithinLimits (cut buffer t c partial max_lines max_bytes)
  unfolding cut
  cut-IsWithinLimits t max_lines max_bytes c partial h =
      let same = utf8_byte_length-count buffer (join c.lines) utf8 in
      (h.few, omega (arith, same, h.counted, h.small), same)

  -- What `truncateTail` returns is within its limits, also where it keeps the end of a last line that is
  -- too long: not more lines than the line limit, not more bytes than the byte limit, and the bytes it
  -- reports are those of its content, when a platform that counts bytes itself counts UTF-8.
  pub truncate_tail_within :
      (t : Text) (o : TruncationOptions) → IsWithinLimits (truncate_tail buffer t o)
  unfolding truncate_tail tail_of
  truncate_tail_within t o =
      let max_lines = or_default o.max_lines default_max_lines in
      let max_bytes = or_default o.max_bytes default_max_bytes in
      let collected =
        collect_tail buffer max_lines max_bytes (reverse (split_lines_for_counting t)) [] 0 in
      let c =
        collect_tail-IsWithin max_lines max_bytes (reverse (split_lines_for_counting t)) [] 0
          (omega arith) refl (omega arith) in
      elim (Bool-cases (fits buffer t max_lines max_bytes)) [
        | inl fit ↦
            rw (truncate_tail, tail_of, fit)
              (untouched-IsWithinLimits buffer utf8 t max_lines max_bytes fit)
        | inr unfit ↦
            rw (truncate_tail, tail_of, unfit)
              (cut-IsWithinLimits t max_lines max_bytes collected.0 collected.1 c)
      ]

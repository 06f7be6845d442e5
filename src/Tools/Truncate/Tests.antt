-- ===== src/Tools/Truncate/Tests.antt =====
-- Runs of truncate.ts on short texts.
use livi_agent.Prelude.{ℕ, ◌≡◌, ◌≤◌, refl, ap, sym, true, Option, none, some, [], ◌∷◌, take, arith}
use livi_agent.Tools.{Text, count_bytes, join, split_lines_for_counting}
use livi_agent.Tools.Truncate.{
  TruncationOptions, truncate_head, truncate_tail, fallback_length, by_lines,
}
use livi_agent.Tools.Truncate.Bytes.{IsUtf8}
use livi_agent.Tools.Truncate.Bounds.{IsWithinLimits}
use livi_agent.Tools.Truncate.Head.{truncate_head_longest}
use livi_agent.Tools.Truncate.Tail.{truncate_tail_within}

-- Lines "ab", "é" and a chair, which is a pair of units.
abbrev chairs : Text
chairs = 97 ∷ 98 ∷ 10 ∷ 233 ∷ 10 ∷ 55358 ∷ 56977 ∷ 10 ∷ []

abbrev two_lines : TruncationOptions
two_lines = record { max_lines = some 2; max_bytes = none }

abbrev three_bytes : TruncationOptions
three_bytes = record { max_lines = none; max_bytes = some 3 }

-- A platform that counts as UTF-8 does.
abbrev platform : Option (Text → ℕ)
platform = some count_bytes

platform-IsUtf8 : IsUtf8 platform
platform-IsUtf8 =
    λ f t is. sym (ap (λ (o : Option (Text → ℕ)). elim o [ none ↦ 0 | some g ↦ g t ]) is)

none-IsUtf8 : IsUtf8 none
none-IsUtf8 = λ f t is. absurd (ground (arith, is))

chairs_bytes : fallback_length chairs ≡ 11
unfolding fallback_length
chairs_bytes = refl

truncate_head_longest_example :
    ((truncate_head none chairs two_lines).content
      ≡ join (
          take
            (truncate_head none chairs two_lines).output_lines
            (split_lines_for_counting chairs)))
    × (2 ≤ (truncate_head none chairs two_lines).output_lines)
    × ((truncate_head none chairs two_lines).output_lines
        ≤ (truncate_head none chairs two_lines).max_lines)
    × (count_bytes (truncate_head none chairs two_lines).content
        ≤ (truncate_head none chairs two_lines).max_bytes)
unfolding truncate_head
truncate_head_longest_example =
    truncate_head_longest none none-IsUtf8 chairs two_lines 2 refl (omega arith) (omega arith)
      (omega arith)

truncate_tail_within_example : IsWithinLimits (truncate_tail platform chairs three_bytes)
truncate_tail_within_example = truncate_tail_within platform platform-IsUtf8 chairs three_bytes

tail_partial : (truncate_tail none chairs three_bytes).last_line_partial ≡ true
unfolding truncate_tail
tail_partial = refl

-- A text that is one newline too long for the byte limit keeps its line, and names the line limit.
newline_over :
    (truncate_head none (97 ∷ 98 ∷ 99 ∷ 10 ∷ []) three_bytes).truncated_by ≡ some by_lines
unfolding truncate_head
newline_over = refl

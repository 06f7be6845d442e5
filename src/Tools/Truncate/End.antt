-- ===== src/Tools/Truncate/End.antt =====
-- `truncateStringToBytesFromEnd` of packages/agent/src/harness/utils/truncate.ts.
use livi_agent.Prelude.{
  ℕ, ◌-◌, Bool, false, ◌&&◌, ◌||◌, [], ◌∷◌, if◌then◌else◌, ltb, nat_eq, ◌==◌, reverse,
}
use livi_agent.Tools.{Text, is_high, is_low, width}

unfoldable pub replace_unpaired_surrogates : Text → Text
unfolding is_high is_low
replace_unpaired_surrogates [] = []
replace_unpaired_surrogates (c ∷ []) = if is_high c || is_low c then 0xfffd ∷ [] else c ∷ []
replace_unpaired_surrogates (c ∷ d ∷ rest) =
    let single = replace_unpaired_surrogates (d ∷ rest) in
    let double = replace_unpaired_surrogates rest in
    if is_high c && is_low d
    then c ∷ d ∷ double
    else if is_high c || is_low c
    then 0xfffd ∷ single
    else c ∷ single

-- What the loop of `truncateStringToBytesFromEnd` keeps.
pub record Kept : Type 0 where
  pub output : Text
  pub needs_replacement : Bool

unfoldable pub needs : Bool → Kept → Kept
needs unpaired k = record k { needs_replacement = k.needs_replacement || unpaired }

-- The loop, on the units before `kept` in reverse; `room` is what the limit leaves.
unfoldable pub keep_from_end : Text → ℕ → Kept → Kept
unfolding is_high is_low width needs
keep_from_end [] room kept = kept
keep_from_end (c ∷ []) room kept =
    let add = needs (is_high c || is_low c) (record kept { output = c ∷ kept.output }) in
    if ltb room (width c) then kept else add
keep_from_end (c ∷ b ∷ rest) room kept =
    let paired = keep_from_end rest (room - 4) (record kept { output = b ∷ c ∷ kept.output }) in
    let single =
      keep_from_end (b ∷ rest) (room - width c)
        (needs (is_high c || is_low c) (record kept { output = c ∷ kept.output })) in
    if is_low c && is_high b
    then (if ltb room 4 then kept else paired)
    else (if ltb room (width c) then kept else single)

unfoldable pub truncate_string_to_bytes_from_end : Text → ℕ → Text
unfolding keep_from_end replace_unpaired_surrogates
truncate_string_to_bytes_from_end t max_bytes =
    let kept =
      keep_from_end (reverse t) max_bytes (record { output = []; needs_replacement = false }) in
    if max_bytes == 0
    then []
    else if kept.needs_replacement
    then replace_unpaired_surrogates kept.output
    else kept.output

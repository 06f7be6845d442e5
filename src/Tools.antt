-- ===== src/Tools.antt =====
-- packages/agent/src/harness/utils: what the tools of the agent share.
-- A text is the list of its UTF-16 code units, as JavaScript indexes it.
pub mod Truncate
use livi_agent.Prelude.{
  ℕ, zero, suc, ◌+◌, ◌*◌, ◌-◌, Bool, true, false, not, ◌&&◌, Option, none, some, List, [], ◌∷◌,
  ◌++◌, if◌then◌else◌, ltb, leb, nat_eq, ◌==◌,
}

abbrev pub Text : Type 0
Text = List ℕ

abbrev pub newline : ℕ
newline = 10

unfoldable pub is_high : ℕ → Bool
is_high c = leb 0xd800 c && leb c 0xdbff

unfoldable pub is_low : ℕ → Bool
is_low c = leb 0xdc00 c && leb c 0xdfff

-- The bytes of a unit that is no half of a pair.
unfoldable pub width : ℕ → ℕ
width c = if leb c 0x7f then 1 else if leb c 0x7ff then 2 else 3

-- The loop of `utf8ByteLength`, from its index on.
unfoldable pub count_bytes : Text → ℕ
unfolding width is_high is_low
count_bytes [] = 0
count_bytes (c ∷ []) = width c
count_bytes (c ∷ d ∷ rest) =
    let single = count_bytes (d ∷ rest) in
    let double = count_bytes rest in if is_high c && is_low d then 4 + double else width c + single

-- `split("\n")`: never without a line.
unfoldable pub add_unit : ℕ → List Text → List Text
add_unit c [] = (c ∷ []) ∷ []
add_unit c (l ∷ ls) = (c ∷ l) ∷ ls

unfoldable pub split : Text → List Text
unfolding add_unit
split [] = [] ∷ []
split (c ∷ t) = let rest = split t in if c == newline then [] ∷ rest else add_unit c rest

-- `join("\n")`.
unfoldable pub join : List Text → Text
join [] = []
join (l ∷ []) = l
join (l ∷ m ∷ ls) = l ++ newline ∷ join (m ∷ ls)

unfoldable pub ends_with_newline : Text → Bool
ends_with_newline [] = false
ends_with_newline (c ∷ []) = c == newline
ends_with_newline (c ∷ d ∷ t) = ends_with_newline (d ∷ t)

unfoldable pub pop {ℓ} : {A : Type ℓ} → List A → List A
pop [] = []
pop (x ∷ []) = []
pop (x ∷ y ∷ xs) = x ∷ pop (y ∷ xs)

unfoldable pub split_lines_for_counting : Text → List Text
unfolding split pop ends_with_newline
split_lines_for_counting [] = []
split_lines_for_counting (c ∷ t) =
    let lines = split (c ∷ t) in if ends_with_newline (c ∷ t) then pop lines else lines

-- The search for the first unit that is not ASCII; `none` where all are.
unfoldable pub first_non_ascii : Text → Option ℕ
first_non_ascii [] = none
first_non_ascii (c ∷ t) =
    let rest : Option ℕ = elim (first_non_ascii t) [ none ↦ none | some i ↦ some (suc i) ] in
    if leb c 0x7f then rest else some 0

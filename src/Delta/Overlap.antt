-- ===== src/Delta/Overlap.antt =====
-- `overlap` of packages/chord/src/delta/index.ts: an end of a text that begins another one, searched for within bounds.
pub mod Suffix
use livi_agent.Prelude.{
  ℕ, zero, suc, ◌+◌, ◌-◌, ◌≤◌, min, Bool, true, false, ◌&&◌, ◌||◌, Option, none, some, [], ◌∷◌,
  nat_eq, list_eq, ◌==◌, length, take, drop, ltb, leb, if◌then◌else◌, arith, ◌≡◌, refl,
}
use livi_agent.Delta.{Text}

-- `s.indexOf(head)`.
unfoldable pub index_of : Text → Text → Option ℕ
index_of head [] = if length head == 0 then some 0 else none
index_of head (x ∷ s) =
    let rest = index_of head s in
    if take (length head) (x ∷ s) == head
    then some 0
    else elim rest [ none ↦ none | some k ↦ some (suc k) ]

-- `s.indexOf(head, from)`.
unfoldable pub index_from : Text → Text → ℕ → Option ℕ
unfolding index_of
index_from head s from = elim (index_of head (drop from s)) [
  | none ↦ none
  | some k ↦ some (from + k)
]

-- The inner loop from `k = tail.indexOf(head, from)` on, with the candidates that are still allowed;
-- `none` is its end without a result.
unfoldable pub candidates : Text → Text → Text → ℕ → ℕ → Option ℕ
unfolding index_from
candidates tail head b from zero = none
candidates tail head b from (suc left) = elim (index_from head tail from) [
  | none ↦ none
  | some k ↦
      let n = length tail - k in
      let rest = candidates tail head b (suc k) left in
      if leb n (length b) && drop k tail == take n b then some n else rest
]

unfoldable pub overlap : Text → Text → ℕ → ℕ → ℕ → ℕ
unfolding candidates
overlap a b scan probe max_candidates =
    let tail = if ltb scan (length a) then drop (length a - scan) a else a in
    let h = min probe (length b) in
    if (length a == 0) || (length b == 0) || (scan == 0)
    then 0
    else elim (candidates tail (take h b) b 0 max_candidates) [
      | some n ↦ n
      | none ↦
          if h == 1
          then 0
          else elim (candidates tail (take 1 b) b 0 max_candidates) [ some n ↦ n | none ↦ 0 ]
    ]

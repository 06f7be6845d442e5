-- ===== src/Tools/Truncate/Bounds.antt =====
-- What `truncateHead` of truncate.ts keeps.
use livi_agent.Prelude.{
  ℕ, zero, suc, ◌+◌, ◌-◌, ◌<◌, ◌≤◌, ◌≡◌, refl, sym, ap, ◌∙◌, subst, true, Option, List, [], ◌∷◌,
  ◌++◌, length, take, Bool-cases, ◌&&◌, inl, inr, leb, ltb, arith, length-append,
}
use livi_agent.Tools.{Text, count_bytes, join}
use livi_agent.Tools.Truncate.{
  TruncationResult, Collected, collect_head, line_bytes, first_line, Limit, by_lines, by_bytes,
}
use livi_agent.Tools.Truncate.Bytes.{
  IsUtf8, line_bytes-added, added, count_bytes-snoc, count_bytes-more,
}

pub ltb_less : (a b : ℕ) → ltb a b ≡ true → a < b
ltb_less a b h = ground arith

pub both_le : (a b c d : ℕ) → (leb a b && leb c d) ≡ true → (a ≤ b) × (c ≤ d)
both_le a b c d h = ground arith

take-all : {A : Type 0} (xs ys : List A) → take (length xs) (xs ++ ys) ≡ xs
take-all [] ys = refl
take-all (x ∷ xs) ys = ap (λ l. x ∷ l) (take-all xs ys)

snoc-append : {A : Type 0} (xs : List A) (y : A) (ys : List A) → (xs ++ y ∷ []) ++ ys ≡ xs ++ y ∷ ys
snoc-append [] y ys = refl
snoc-append (x ∷ xs) y ys = ap (λ l. x ∷ l) (snoc-append xs y ys)

-- A result reports the bytes of its content, and is within the limits it was asked to keep.
abbrev pub IsWithinLimits : TruncationResult → Type 0
IsWithinLimits r =
    (r.output_lines ≤ r.max_lines)
    × (r.output_bytes ≤ r.max_bytes)
    × (r.output_bytes ≡ count_bytes r.content)

-- The lines that were collected: the first of all, within the limits.
pub record IsHead (max_lines max_bytes : ℕ) (all : List Text) (c : Collected) : Type 0 where
  pub prefix : c.lines ≡ take (length c.lines) all
  pub few : length c.lines ≤ max_lines
  pub counted : c.bytes ≡ count_bytes (join c.lines)
  pub small : c.bytes ≤ max_bytes
  pub longest :
      (k : ℕ)
      → k ≤ length all
      → k ≤ max_lines
      → count_bytes (join (take k all)) ≤ max_bytes
      → k ≤ length c.lines

-- Beyond the first lines.
take-beyond :
    {A : Type 0} (k : ℕ) (xs ys : List A)
    → length xs ≤ k
    → take k (xs ++ ys) ≡ xs ++ take (k - length xs) ys
take-beyond k [] ys le = ap (λ n. take n ys) (omega arith)
take-beyond zero (x ∷ xs) ys le = absurd (omega arith)
take-beyond (suc k) (x ∷ xs) ys le =
    ap (λ l. x ∷ l) (take-beyond k xs ys (omega arith) ∙ ap (λ n. xs ++ take n ys) (omega arith))

-- Where the next line does not fit, no more lines do.
next-over :
    (max_bytes k : ℕ) (out : List Text) (l : Text) (ls : List Text)
    → max_bytes < count_bytes (join out) + added l out
    → count_bytes (join (take k (out ++ l ∷ ls))) ≤ max_bytes
    → k ≤ length out
next-over max_bytes k out l ls over fit = elim (Bool-cases (leb k (length out))) [
  | inl le ↦ ground arith
  | inr more ↦
      let len : length (out ++ l ∷ []) ≡ suc (length out) =
        omega (arith, length-append out (l ∷ [])) in
      let beyond : length (out ++ l ∷ []) ≤ k = ground arith in
      let same =
        ap (λ xs. count_bytes (join (take k xs))) (sym (snoc-append out l ls))
        ∙ ap (λ xs. count_bytes (join xs)) (take-beyond k (out ++ l ∷ []) ls beyond) in
      let grown = count_bytes-more (out ++ l ∷ []) (take (k - length (out ++ l ∷ [])) ls) in
      absurd (omega (arith, same, grown, count_bytes-snoc out l))
]

stop-IsHead :
    (max_lines max_bytes : ℕ) (out ls : List Text) (bytes : ℕ) (by : Limit)
    → length out ≤ max_lines
    → bytes ≡ count_bytes (join out)
    → bytes ≤ max_bytes
    → ((k : ℕ)
        → k ≤ length (out ++ ls)
        → k ≤ max_lines
        → count_bytes (join (take k (out ++ ls))) ≤ max_bytes
        → k ≤ length out)
    → IsHead max_lines max_bytes (out ++ ls) (record { lines = out; bytes = bytes; by = by })
stop-IsHead max_lines max_bytes out ls bytes by few counted small longest = record {
  prefix = sym (take-all out ls);
  few = few;
  counted = counted;
  small = small;
  longest = longest;
}

module _ (buffer : Option (Text → ℕ)) (utf8 : IsUtf8 buffer) where
  pub collect_head-IsHead :
      (max_lines max_bytes : ℕ) (ls out : List Text) (bytes : ℕ)
      → length out ≤ max_lines
      → bytes ≡ count_bytes (join out)
      → bytes ≤ max_bytes
      → IsHead max_lines max_bytes
          (out ++ ls)
          (collect_head buffer max_lines max_bytes ls out bytes)
  unfolding collect_head
  collect_head-IsHead max_lines max_bytes [] out bytes few counted small =
      stop-IsHead max_lines max_bytes out [] bytes by_lines few counted small
        (λ k le fewer fit. omega (arith, length-append out []))
  collect_head-IsHead max_lines max_bytes (l ∷ ls) out bytes few counted small =
      let b = line_bytes-added buffer l out utf8 in
      elim (Bool-cases (leb max_lines (length out))) [
        | inl full ↦
            rw (collect_head, full)
              (stop-IsHead max_lines max_bytes out (l ∷ ls) bytes by_lines few counted small
                (λ k le fewer fit. ground arith))
        | inr room ↦ elim (Bool-cases (ltb max_bytes (bytes + line_bytes buffer l out))) [
          | inl over ↦
              rw (collect_head, room, over)
                (stop-IsHead max_lines max_bytes out (l ∷ ls) bytes by_bytes few counted small
                  (λ k le fewer fit. next-over max_bytes k out l ls (ground arith) fit))
          | inr fit ↦
              rw (collect_head, room, fit)
                (subst
                  (λ all. IsHead max_lines max_bytes all (
                    collect_head buffer max_lines max_bytes ls (out ++ l ∷ [])
                      (bytes + line_bytes buffer l out)))
                  (snoc-append out l ls)
                  (collect_head-IsHead max_lines max_bytes ls (out ++ l ∷ [])
                    (bytes + line_bytes buffer l out) (ground (arith, length-append out (l ∷ [])))
                    (omega (arith, count_bytes-snoc out l)) (ground arith)))
        ]
      ]

  -- Where the first line alone does not fit, none is the most.
  pub none-IsHead :
      (max_lines max_bytes : ℕ) (ls : List Text)
      → max_bytes < count_bytes (first_line ls)
      → IsHead max_lines max_bytes ls (record { lines = []; bytes = 0; by = by_bytes })
  unfolding first_line join count_bytes
  none-IsHead max_lines max_bytes [] over = absurd (omega arith)
  none-IsHead max_lines max_bytes (l ∷ ls) over =
      stop-IsHead max_lines max_bytes [] (l ∷ ls) 0 by_bytes (omega arith) refl (omega arith)
        (λ k le fewer fit. next-over max_bytes k [] l ls (omega arith) fit)

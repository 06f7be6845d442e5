-- ===== src/Tools/Truncate/Partial.antt =====
-- `truncateStringToBytesFromEnd` of truncate.ts: the end of a line that fits.
use livi_agent.Prelude.{
  ℕ, ◌+◌, ◌-◌, ◌≤◌, ◌≡◌, refl, Bool, true, false, ◌&&◌, ◌||◌, [], ◌∷◌, Bool-cases, inl, inr, ltb,
  arith, reverse, if◌then◌else◌, nat_eq, ◌==◌,
}
use livi_agent.Tools.{Text, count_bytes, width, is_high, is_low}
use livi_agent.Tools.Truncate.End.{
  Kept, keep_from_end, needs, replace_unpaired_surrogates, truncate_string_to_bytes_from_end,
}

-- The two units that meet are the halves of a pair.
abbrev seam : Text → Text → Bool
seam [] t = false
seam (c ∷ r) [] = false
seam (c ∷ r) (d ∷ t) = is_high c && is_low d

abbrev one : ℕ → Text
one c = c ∷ []

count_bytes-apart :
    (c : ℕ) (t : Text) → seam (one c) t ≡ false → count_bytes (c ∷ t) ≡ width c + count_bytes t
unfolding count_bytes
count_bytes-apart c [] h = omega arith
count_bytes-apart c (d ∷ t) h = rw h refl

count_bytes-pair :
    (c d : ℕ) (t : Text)
    → (is_high c && is_low d) ≡ true
    → count_bytes (c ∷ d ∷ t) ≡ 4 + count_bytes t
unfolding count_bytes
count_bytes-pair c d t h = rw h refl

high-not_low : (c : ℕ) → is_high c ≡ true → is_low c ≡ false
unfolding is_high is_low
high-not_low c h = ground arith

half-width : (c : ℕ) → (is_high c || is_low c) ≡ true → width c ≡ 3
unfolding is_high is_low width
half-width c h = ground arith

fffd-apart : (t : Text) → count_bytes (0xfffd ∷ t) ≡ 3 + count_bytes t
unfolding is_high width
fffd-apart [] = count_bytes-apart 0xfffd [] refl
fffd-apart (d ∷ t) = count_bytes-apart 0xfffd (d ∷ t) refl

whole-apart :
    (c : ℕ) (t : Text)
    → (is_high c || is_low c) ≡ false
    → count_bytes (c ∷ t) ≡ width c + count_bytes t
whole-apart c [] h = count_bytes-apart c [] refl
whole-apart c (d ∷ t) h = count_bytes-apart c (d ∷ t) (ground arith)

replace-count_bytes : (t : Text) → count_bytes (replace_unpaired_surrogates t) ≡ count_bytes t
unfolding replace_unpaired_surrogates
replace-count_bytes [] = refl
replace-count_bytes (c ∷ []) = elim (Bool-cases (is_high c || is_low c)) [
  | inl half ↦
      rw (replace_unpaired_surrogates, half)
        (omega (arith, fffd-apart [], count_bytes-apart c [] refl, half-width c half))
  | inr whole ↦ rw (replace_unpaired_surrogates, whole) refl
]
replace-count_bytes (c ∷ d ∷ t) =
    let single = replace-count_bytes (d ∷ t) in
    let double = replace-count_bytes t in
    elim (Bool-cases (is_high c && is_low d)) [
      | inl pair ↦
          rw (replace_unpaired_surrogates, pair)
            (omega (
              arith,
              double,
              count_bytes-pair c d (replace_unpaired_surrogates t) pair,
              count_bytes-pair c d t pair,
            ))
      | inr apart ↦ elim (Bool-cases (is_high c || is_low c)) [
        | inl half ↦
            rw (replace_unpaired_surrogates, apart, half)
              (omega (
                arith,
                single,
                fffd-apart (replace_unpaired_surrogates (d ∷ t)),
                count_bytes-apart c (d ∷ t) apart,
                half-width c half,
              ))
        | inr whole ↦
            rw (replace_unpaired_surrogates, apart, whole)
              (omega (
                arith,
                single,
                whole-apart c (replace_unpaired_surrogates (d ∷ t)) whole,
                count_bytes-apart c (d ∷ t) apart,
              ))
      ]
    ]

ltb_not : (a b : ℕ) → ltb a b ≡ false → b ≤ a
ltb_not a b h = ground arith

seam-head : (c : ℕ) (before t : Text) → seam (c ∷ before) t ≡ false → seam (one c) t ≡ false
seam-head c before [] h = refl
seam-head c before (d ∷ t) h = h

seam-high : (before : Text) (b : ℕ) (t : Text) → is_high b ≡ true → seam before (b ∷ t) ≡ false
seam-high [] b t h = refl
seam-high (c ∷ before) b t h = ground (arith, high-not_low b h)

flip_and : (p q r : Bool) → (p && q) ≡ r → (q && p) ≡ r
flip_and p q r h = ground arith

and_second : (p q : Bool) → (p && q) ≡ true → q ≡ true
and_second p q h = ground arith

keep_from_end-bound :
    (before : Text) (room : ℕ) (kept : Kept)
    → seam before kept.output ≡ false
    → count_bytes (keep_from_end before room kept).output ≤ room + count_bytes kept.output
unfolding keep_from_end needs
keep_from_end-bound [] room kept apart = omega arith
keep_from_end-bound (c ∷ []) room kept apart = elim (Bool-cases (ltb room (width c))) [
  | inl full ↦ rw (keep_from_end, full) (omega arith)
  | inr fit ↦
      rw (keep_from_end, fit)
        (omega (
          arith,
          ltb_not room (width c) fit,
          count_bytes-apart c kept.output (seam-head c [] kept.output apart),
        ))
]
keep_from_end-bound (c ∷ b ∷ rest) room kept apart = elim (Bool-cases (is_low c && is_high b)) [
  | inl pair ↦ elim (Bool-cases (ltb room 4)) [
    | inl full ↦ rw (keep_from_end, pair, full) (omega arith)
    | inr fit ↦
        rw (keep_from_end, pair, fit)
          (omega (
            arith,
            ltb_not room 4 fit,
            count_bytes-pair b c kept.output (flip_and (is_low c) (is_high b) true pair),
            keep_from_end-bound rest (room - 4) (record kept { output = b ∷ c ∷ kept.output })
                (seam-high rest b (c ∷ kept.output) (and_second (is_low c) (is_high b) pair)),
          ))
  ]
  | inr single ↦ elim (Bool-cases (ltb room (width c))) [
    | inl full ↦ rw (keep_from_end, single, full) (omega arith)
    | inr fit ↦
        rw (keep_from_end, single, fit)
          (omega (
            arith,
            ltb_not room (width c) fit,
            count_bytes-apart c kept.output (seam-head c (b ∷ rest) kept.output apart),
            keep_from_end-bound (b ∷ rest) (room - width c)
                (needs (is_high c || is_low c) (record kept { output = c ∷ kept.output }))
                (flip_and (is_low c) (is_high b) false single),
          ))
  ]
]

seam-end : (before : Text) → seam before [] ≡ false
seam-end [] = refl
seam-end (c ∷ before) = refl

chosen-bound :
    (b : Bool) (t : Text) (n : ℕ)
    → count_bytes t ≤ n
    → count_bytes (if b then replace_unpaired_surrogates t else t) ≤ n
chosen-bound true t n h = omega (arith, replace-count_bytes t)
chosen-bound false t n h = h

-- The end of a line that is kept where the whole line does not fit takes at most the bytes that are
-- allowed, and no pair is cut: with the replacement character for unpaired halves it is as long.
pub truncate_string_to_bytes_from_end-bound :
    (t : Text) (max_bytes : ℕ)
    → count_bytes (truncate_string_to_bytes_from_end t max_bytes) ≤ max_bytes
unfolding truncate_string_to_bytes_from_end count_bytes
truncate_string_to_bytes_from_end-bound t max_bytes =
    let start : Kept = record { output = []; needs_replacement = false } in
    let kept = keep_from_end (reverse t) max_bytes start in
    let bound = keep_from_end-bound (reverse t) max_bytes start (seam-end (reverse t)) in
    let chosen = chosen-bound kept.needs_replacement kept.output max_bytes (omega (arith, bound)) in
    elim (Bool-cases (max_bytes == 0)) [
      | inl zero_bytes ↦ rw (truncate_string_to_bytes_from_end, zero_bytes) (omega arith)
      | inr some_bytes ↦ rw (truncate_string_to_bytes_from_end, some_bytes) chosen
    ]

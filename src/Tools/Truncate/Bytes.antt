-- ===== src/Tools/Truncate/Bytes.antt =====
-- The counts of truncate.ts: the fast path for ASCII, and the bytes of joined lines.
use livi_agent.Prelude.{
  ℕ, suc, ◌+◌, ◌≤◌, ◌≡◌, refl, true, false, Option, none, some, List, [], ◌∷◌, ◌++◌, Bool-cases,
  Option-cases, inl, inr, leb, arith,
}
use livi_agent.Tools.{Text, newline, count_bytes, width, is_high, is_low, first_non_ascii, join}
use livi_agent.Tools.Truncate.{fallback_length, utf8_byte_length, line_bytes}

ascii-not_high : (c : ℕ) → leb c 0x7f ≡ true → is_high c ≡ false
unfolding is_high
ascii-not_high c h = ground arith

ascii-width : (c : ℕ) → leb c 0x7f ≡ true → width c ≡ 1
unfolding width
ascii-width c h = ground arith

count_bytes-ascii :
    (c : ℕ) (t : Text) → leb c 0x7f ≡ true → count_bytes (c ∷ t) ≡ suc (count_bytes t)
unfolding count_bytes
count_bytes-ascii c [] h = ascii-width c h
count_bytes-ascii c (d ∷ t) h = rw (ascii-not_high c h, ascii-width c h) (omega arith)

-- Without a platform's count, the search for the first unit that is not ASCII and the loop behind it
-- count what the loop over the whole text would.
pub fallback_length_lem : (t : Text) → fallback_length t ≡ count_bytes t
unfolding fallback_length first_non_ascii
fallback_length_lem [] = ground (arith, count_bytes)
fallback_length_lem (c ∷ t) = elim (Bool-cases (leb c 0x7f)) [
  | inl small ↦
      let rec = fallback_length_lem t in
      let one = count_bytes-ascii c t small in
      elim (Option-cases (first_non_ascii t)) [
        | inl none_found ↦ ground (arith, small, none_found, rec, one)
        | inr (i, is) ↦ ground (arith, small, is, rec, one)
      ]
  | inr big ↦ ground (arith, big)
]

pub count_bytes-line :
    (a b : Text) → count_bytes (a ++ newline ∷ b) ≡ count_bytes a + suc (count_bytes b)
unfolding count_bytes width is_high is_low
count_bytes-line [] [] = ground arith
count_bytes-line [] (x ∷ b) = ground arith
count_bytes-line (c ∷ []) [] = ground arith
count_bytes-line (c ∷ []) (x ∷ b) = ground arith
count_bytes-line (c ∷ d ∷ a) b =
    let one = count_bytes-line (d ∷ a) b in let two = count_bytes-line a b in ground arith

-- A platform's count is that of UTF-8, where an unpaired half counts as the replacement character.
abbrev pub IsUtf8 : Option (Text → ℕ) → Type 0
IsUtf8 buffer = (f : Text → ℕ) (t : Text) → buffer ≡ some f → f t ≡ count_bytes t

pub utf8_byte_length-count :
    (buffer : Option (Text → ℕ)) (t : Text)
    → IsUtf8 buffer
    → utf8_byte_length buffer t ≡ count_bytes t
unfolding utf8_byte_length
utf8_byte_length-count none t h = fallback_length_lem t
utf8_byte_length-count (some f) t h = h f t refl

-- The bytes that a line adds to those that were taken.
abbrev pub added : Text → List Text → ℕ
added l [] = count_bytes l
added l (x ∷ xs) = count_bytes l + 1

pub line_bytes-added :
    (buffer : Option (Text → ℕ)) (l : Text) (out : List Text)
    → IsUtf8 buffer
    → line_bytes buffer l out ≡ added l out
unfolding line_bytes
line_bytes-added buffer l [] h = utf8_byte_length-count buffer l h
line_bytes-added buffer l (x ∷ xs) h = omega (arith, utf8_byte_length-count buffer l h)

pub count_bytes-snoc :
    (out : List Text) (l : Text)
    → count_bytes (join (out ++ l ∷ [])) ≡ count_bytes (join out) + added l out
unfolding join count_bytes
count_bytes-snoc [] l = omega arith
count_bytes-snoc (x ∷ []) l = omega (arith, count_bytes-line x l)
count_bytes-snoc (x ∷ y ∷ out) l =
    let rec = count_bytes-snoc (y ∷ out) l in
    omega (
      arith,
      count_bytes-line x (join (y ∷ out ++ l ∷ [])),
      count_bytes-line x (join (y ∷ out)),
      rec,
    )

-- More lines are not fewer bytes.
pub count_bytes-more : (xs ys : List Text) → count_bytes (join xs) ≤ count_bytes (join (xs ++ ys))
unfolding join count_bytes
count_bytes-more [] ys = omega arith
count_bytes-more (x ∷ []) [] = omega arith
count_bytes-more (x ∷ []) (y ∷ ys) = omega (arith, count_bytes-line x (join (y ∷ ys)))
count_bytes-more (x ∷ y ∷ xs) ys = omega (
  arith,
  count_bytes-line x (join (y ∷ xs)),
  count_bytes-line x (join (y ∷ xs ++ ys)),
  count_bytes-more (y ∷ xs) ys,
)

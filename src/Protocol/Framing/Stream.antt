-- ===== src/Protocol/Framing/Stream.antt =====
-- The reading of a frame stream byte by byte, independent of chunks and of payload blocks: what
-- framing.ts is meant to compute.
use livi_agent.Prelude.{
  ℕ, suc, ◌+◌, ◌<◌, ◌≡◌, refl, sym, ap, ◌∙◌, true, false, Option, none, some, List, [], ◌∷◌, ◌++◌,
  ltb, ◌==◌, nat_eq, if◌then◌else◌, length, arith, append_assoc, append-nil, length-append,
  Option-cases, inl, inr,
}
use livi_agent.Protocol.Framing.{Bytes, frame_length, frame_header_length}

-- What has come of the frame that is being read.
pub data Partial : Type 0 where
  in_header : Bytes → Partial
  in_payload : ℕ → Bytes → Partial

-- A complete header; `none` is a length over the limit.
pub header_done : ℕ → Bytes → Option (Partial × List Bytes)
header_done max h =
    let n = frame_length h in
    if ltb max n
    then none
    else if n == 0
    then some (in_header [], [] ∷ [])
    else some (in_payload n [], [])

pub feed : ℕ → Partial → ℕ → Option (Partial × List Bytes)
unfolding header_done
feed max (in_header h) b =
    if ltb (suc (length h)) frame_header_length
    then some (in_header (h ++ b ∷ []), [])
    else header_done max (h ++ b ∷ [])
feed max (in_payload n r) b =
    if suc (length r) == n
    then some (in_header [], (r ++ b ∷ []) ∷ [])
    else some (in_payload n (r ++ b ∷ []), [])

-- The frames of `more` behind those of `out`.
abbrev pub after : List Bytes → Option (Partial × List Bytes) → Option (Partial × List Bytes)
after out none = none
after out (some (v, fs)) = some (v, out ++ fs)

pub feeds : ℕ → Partial → Bytes → Option (Partial × List Bytes)
feeds max v [] = some (v, [])
feeds max v (b ∷ bs) = elim (feed max v b) [
  | none ↦ none
  | some (w, out) ↦ after out (feeds max w bs)
]

pub feeds-nil : (max : ℕ) (v : Partial) → feeds max v [] ≡ some (v, [])
unfolding feeds
feeds-nil max v = refl

abbrev pub then_feeds : ℕ → Option (Partial × List Bytes) → Bytes → Option (Partial × List Bytes)
then_feeds max none bs = none
then_feeds max (some (w, out)) bs = after out (feeds max w bs)

nil-after : (m : Option (Partial × List Bytes)) → after [] m ≡ m
nil-after none = refl
nil-after (some (v, fs)) = refl

after-then_feeds :
    (max : ℕ) (out : List Bytes) (m : Option (Partial × List Bytes)) (ys : Bytes)
    → after out (then_feeds max m ys) ≡ then_feeds max (after out m) ys
after-then_feeds max out none ys = refl
after-then_feeds max out (some (v, fs)) ys = after-after out fs (feeds max v ys)
  where
    after-after :
        (a b : List Bytes) (m : Option (Partial × List Bytes))
        → after a (after b m) ≡ after (a ++ b) m
    after-after a b none = refl
    after-after a b (some (w, gs)) = rw append_assoc

-- Reading is independent of where the stream is cut.
pub feeds-append :
    (max : ℕ) (v : Partial) (xs ys : Bytes)
    → feeds max v (xs ++ ys) ≡ then_feeds max (feeds max v xs) ys
unfolding feeds
feeds-append max v [] ys = sym (nil-after (feeds max v ys))
feeds-append max v (x ∷ xs) ys = elim (Option-cases (feed max v x)) [
  | inl e ↦ rw (e, feeds)
  | inr ((w, out), e) ↦
      rw (e, feeds)
        (ap (after out) (feeds-append max w xs ys) ∙ after-then_feeds max out (feeds max w xs) ys)
]

feed_header_lt :
    (max : ℕ) (h : Bytes) (b : ℕ)
    → suc (length h) < frame_header_length
    → feed max (in_header h) b ≡ some (in_header (h ++ b ∷ []), [])
unfolding feed
feed_header_lt max h b lt = ground arith

feed_header_eq :
    (max : ℕ) (h : Bytes) (b : ℕ)
    → suc (length h) ≡ frame_header_length
    → feed max (in_header h) b ≡ header_done max (h ++ b ∷ [])
unfolding feed
feed_header_eq max h b e = ground arith

feed_payload_lt :
    (max n : ℕ) (r : Bytes) (b : ℕ)
    → suc (length r) < n
    → feed max (in_payload n r) b ≡ some (in_payload n (r ++ b ∷ []), [])
unfolding feed
feed_payload_lt max n r b lt = ground arith

feed_payload_eq :
    (max n : ℕ) (r : Bytes) (b : ℕ)
    → suc (length r) ≡ n
    → feed max (in_payload n r) b ≡ some (in_header [], (r ++ b ∷ []) ∷ [])
unfolding feed
feed_payload_eq max n r b e = ground arith

pub feeds_header :
    (max : ℕ) (h xs : Bytes)
    → length h + length xs < frame_header_length
    → feeds max (in_header h) xs ≡ some (in_header (h ++ xs), [])
unfolding feeds
feeds_header max h [] lt = rw append-nil
feeds_header max h (x ∷ xs) lt = rw (
  feed_header_lt max h x (omega arith),
  feeds,
  feeds_header max (h ++ x ∷ []) xs (omega (arith, length-append h (x ∷ []))),
  append_assoc,
)

after_nothing :
    (m : Option (Partial × List Bytes))
    → elim m [ none ↦ none | some (w, out) ↦ after out (some (w, [])) ] ≡ m
after_nothing none = refl
after_nothing (some (w, out)) = rw append-nil

pub feeds-header_done :
    (max : ℕ) (h : Bytes) (x : ℕ) (xs : Bytes)
    → length h + suc (length xs) ≡ frame_header_length
    → feeds max (in_header h) (x ∷ xs) ≡ header_done max (h ++ x ∷ xs)
unfolding feeds
feeds-header_done max h x [] e =
    rw (feed_header_eq max h x (omega arith), feeds) (after_nothing (header_done max (h ++ x ∷ [])))
feeds-header_done max h x (y ∷ xs) e =
    rw (feed_header_lt max h x (omega arith), feeds)
      (nil-after (feeds max (in_header (h ++ x ∷ [])) (y ∷ xs))
        ∙ feeds-header_done max (h ++ x ∷ []) y xs (omega (arith, length-append h (x ∷ [])))
        ∙ (rw append_assoc))

pub feeds_payload :
    (max n : ℕ) (r xs : Bytes)
    → length r + length xs < n
    → feeds max (in_payload n r) xs ≡ some (in_payload n (r ++ xs), [])
unfolding feeds
feeds_payload max n r [] lt = rw append-nil
feeds_payload max n r (x ∷ xs) lt = rw (
  feed_payload_lt max n r x (omega arith),
  feeds,
  feeds_payload max n (r ++ x ∷ []) xs (omega (arith, length-append r (x ∷ []))),
  append_assoc,
)

pub feeds_payload_done :
    (max n : ℕ) (r : Bytes) (x : ℕ) (xs : Bytes)
    → length r + suc (length xs) ≡ n
    → feeds max (in_payload n r) (x ∷ xs) ≡ some (in_header [], (r ++ x ∷ xs) ∷ [])
unfolding feeds
feeds_payload_done max n r x [] e = rw (feed_payload_eq max n r x (omega arith), feeds)
feeds_payload_done max n r x (y ∷ xs) e =
    rw (feed_payload_lt max n r x (omega arith), feeds)
      (nil-after (feeds max (in_payload n (r ++ x ∷ [])) (y ∷ xs))
        ∙ feeds_payload_done max n (r ++ x ∷ []) y xs (omega (arith, length-append r (x ∷ [])))
        ∙ (rw append_assoc))

pub header_long : (max : ℕ) (h : Bytes) → ltb max (frame_length h) ≡ true → header_done max h ≡ none
unfolding header_done
header_long max h e = ground arith

pub header_empty :
    (max : ℕ) (h : Bytes)
    → ltb max (frame_length h) ≡ false
    → (frame_length h == 0) ≡ true
    → header_done max h ≡ some (in_header [], [] ∷ [])
unfolding header_done
header_empty max h e f = ground arith

pub header_started :
    (max : ℕ) (h : Bytes)
    → ltb max (frame_length h) ≡ false
    → (frame_length h == 0) ≡ false
    → header_done max h ≡ some (in_payload (frame_length h) [], [])
unfolding header_done
header_started max h e f = ground arith

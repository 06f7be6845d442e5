-- ===== src/Tools/Truncate/Head.antt =====
-- What `truncateHead` of truncate.ts returns.
use livi_agent.Prelude.{
  ℕ, ◌<◌, ◌≤◌, ◌≡◌, refl, sym, ap, ◌∙◌, subst, true, false, Option, [], length, take, Bool-cases,
  inl, inr, ltb, arith,
}
use livi_agent.Tools.{Text, count_bytes, split_lines_for_counting, join}
use livi_agent.Tools.Truncate.{
  TruncationResult, TruncationOptions, Collected, collect_head, head_of, truncate_head,
  utf8_byte_length, fits, untouched, cut, first_line_exceeds, or_default, default_max_lines,
  default_max_bytes, first_line, by_bytes,
}
use livi_agent.Tools.Truncate.Bytes.{IsUtf8, utf8_byte_length-count}
use livi_agent.Tools.Truncate.Bounds.{
  IsHead, IsWithinLimits, none-IsHead, collect_head-IsHead, ltb_less, both_le,
}

module _ (buffer : Option (Text → ℕ)) (utf8 : IsUtf8 buffer) where
  -- What is returned of a text that is cut is the head that was collected.
  record Returned (t : Text) (r : TruncationResult) : Type 0 where
    pub collected : Collected
    pub head : IsHead r.max_lines r.max_bytes (split_lines_for_counting t) collected
    pub content : r.content ≡ join collected.lines
    pub lines : r.output_lines ≡ length collected.lines
    pub bytes : r.output_bytes ≡ count_bytes r.content

  -- The two ways of a result.
  data HeadCase (t : Text) (r : TruncationResult) : Type 0 where
    whole :
        r ≡ untouched buffer t r.max_lines r.max_bytes
        → fits buffer t r.max_lines r.max_bytes ≡ true
        → HeadCase t r
    part : Returned t r → r.truncated ≡ true → HeadCase t r

  cut-HeadCase :
      (t : Text) (max_lines max_bytes : ℕ) (c : Collected)
      → IsHead max_lines max_bytes (split_lines_for_counting t) c
      → HeadCase t (cut buffer t c false max_lines max_bytes)
  unfolding cut
  cut-HeadCase t max_lines max_bytes c h =
      part
        (record {
          collected = c;
          head = h;
          content = refl;
          lines = refl;
          bytes = utf8_byte_length-count buffer (join c.lines) utf8;
        })
        refl

  first_line_exceeds-HeadCase :
      (t : Text) (max_lines max_bytes : ℕ)
      → max_bytes < count_bytes (first_line (split_lines_for_counting t))
      → HeadCase t (first_line_exceeds buffer t max_lines max_bytes)
  unfolding first_line_exceeds join count_bytes
  first_line_exceeds-HeadCase t max_lines max_bytes over =
      part
        (record {
          collected = record { lines = []; bytes = 0; by = by_bytes };
          head = none-IsHead buffer utf8 max_lines max_bytes (split_lines_for_counting t) over;
          content = refl;
          lines = refl;
          bytes = refl;
        })
        refl

  head_of-HeadCase :
      (t : Text) (max_lines max_bytes : ℕ) → HeadCase t (head_of buffer t max_lines max_bytes)
  unfolding head_of untouched
  head_of-HeadCase t max_lines max_bytes =
      let lines = split_lines_for_counting t in
      let head =
        collect_head-IsHead buffer utf8 max_lines max_bytes lines [] 0 (omega arith) refl
          (omega arith) in
      let first = utf8_byte_length-count buffer (first_line lines) utf8 in
      elim (Bool-cases (fits buffer t max_lines max_bytes)) [
        | inl fit ↦ rw (head_of, fit) (whole refl fit)
        | inr unfit ↦
            elim (Bool-cases (ltb max_bytes (utf8_byte_length buffer (first_line lines)))) [
              | inl over ↦
                  rw (head_of, unfit, over)
                    (first_line_exceeds-HeadCase t max_lines max_bytes (
                      omega (
                        arith,
                        first,
                        ltb_less max_bytes (utf8_byte_length buffer (first_line lines)) over,
                      )))
              | inr under ↦
                  rw (head_of, unfit, under)
                    (cut-HeadCase t max_lines max_bytes
                      (collect_head buffer max_lines max_bytes lines [] 0) head)
            ]
      ]

  pub untouched-IsWithinLimits :
      (t : Text) (max_lines max_bytes : ℕ)
      → fits buffer t max_lines max_bytes ≡ true
      → IsWithinLimits (untouched buffer t max_lines max_bytes)
  unfolding fits untouched
  untouched-IsWithinLimits t max_lines max_bytes fit =
      let (few, small) =
        both_le (length (split_lines_for_counting t)) max_lines (utf8_byte_length buffer t)
          max_bytes fit in
      (few, small, utf8_byte_length-count buffer t utf8)

  HeadCase-within : (t : Text) (r : TruncationResult) → HeadCase t r → IsWithinLimits r
  unfolding fits untouched
  HeadCase-within t r (whole is fit) =
      subst IsWithinLimits (sym is) (untouched-IsWithinLimits t r.max_lines r.max_bytes fit)
  HeadCase-within t r (part p cut) = (
    omega (arith, p.lines, p.head.few),
    omega (arith, p.bytes, ap count_bytes p.content, p.head.counted, p.head.small),
    p.bytes,
  )

  -- What `truncateHead` returns is within its limits: not more lines than the line limit, not more bytes
  -- than the byte limit, and the bytes it reports are those of its content, when a platform that counts
  -- bytes itself counts UTF-8.
  pub truncate_head_within :
      (t : Text) (o : TruncationOptions) → IsWithinLimits (truncate_head buffer t o)
  unfolding truncate_head
  truncate_head_within t o = HeadCase-within t (truncate_head buffer t o) (
      head_of-HeadCase t (or_default o.max_lines default_max_lines)
        (or_default o.max_bytes default_max_bytes))

  HeadCase-longest :
      (t : Text) (r : TruncationResult) (k : ℕ)
      → HeadCase t r
      → r.truncated ≡ true
      → k ≤ length (split_lines_for_counting t)
      → k ≤ r.max_lines
      → count_bytes (join (take k (split_lines_for_counting t))) ≤ r.max_bytes
      → (r.content ≡ join (take r.output_lines (split_lines_for_counting t)))
        × (k ≤ r.output_lines)
        × (r.output_lines ≤ r.max_lines)
        × (count_bytes r.content ≤ r.max_bytes)
  unfolding untouched
  HeadCase-longest t r k (whole is fit) cut le fewer small =
      absurd (ground (arith, cut, ap (λ (x : TruncationResult). x.truncated) is))
  HeadCase-longest t r k (part p cut) _ le fewer small = (
    p.content
        ∙ ap join p.head.prefix
        ∙ ap (λ n. join (take n (split_lines_for_counting t))) (sym p.lines),
    omega (arith, p.lines, p.head.longest k le fewer small),
    omega (arith, p.lines, p.head.few),
    omega (arith, ap count_bytes p.content, p.head.counted, p.head.small),
  )

  -- Where `truncateHead` cuts a text, it keeps whole lines from its start, and as many as the limits
  -- allow: what it keeps is within both limits, and any first lines of the text that are within both
  -- limits are among those that it keeps, when a platform that counts bytes itself counts UTF-8.
  pub truncate_head_longest :
      (t : Text) (o : TruncationOptions) (k : ℕ)
      → (truncate_head buffer t o).truncated ≡ true
      → k ≤ length (split_lines_for_counting t)
      → k ≤ (truncate_head buffer t o).max_lines
      → count_bytes (join (take k (split_lines_for_counting t)))
        ≤ (truncate_head buffer t o).max_bytes
      → ((truncate_head buffer t o).content
          ≡ join (take (truncate_head buffer t o).output_lines (split_lines_for_counting t)))
        × (k ≤ (truncate_head buffer t o).output_lines)
        × ((truncate_head buffer t o).output_lines ≤ (truncate_head buffer t o).max_lines)
        × (count_bytes (truncate_head buffer t o).content ≤ (truncate_head buffer t o).max_bytes)
  unfolding truncate_head
  truncate_head_longest t o k cut le fewer small =
      HeadCase-longest t (truncate_head buffer t o) k
        (head_of-HeadCase t (or_default o.max_lines default_max_lines)
          (or_default o.max_bytes default_max_bytes))
        cut le fewer small

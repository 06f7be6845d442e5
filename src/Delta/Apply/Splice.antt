-- ===== src/Delta/Apply/Splice.antt =====
-- The insertion in pieces is one insertion.
use livi_agent.Prelude.{
  ℕ, zero, suc, ◌+◌, ◌≤◌, List, [], ◌∷◌, ◌++◌, append_assoc, append-nil, ◌≡◌, sym, ap, ◌∙◌, ◌⊎◌,
  inl, inr, arith, length, take, drop, leb, Bool-cases, take-append-drop, length-take,
  length-append, length-drop,
}
use livi_agent.Prelude.Cuts.{drop_all, take_all, drop-length_append, take-length_append}
use livi_agent.Delta.{Json}
use livi_agent.Delta.Apply.{splice_at, insert_chunks, splice_items, chunk_size}

-- Where a list ends, or all that is longer than the rest of it.
Ends : ℕ → List Json → List Json → Type 0
Ends k xs ys = (length xs ≡ k) ⊎ ((ys ≡ []) × (length xs ≤ k))

take-Ends : (k : ℕ) (xs ys : List Json) → Ends k xs ys → take k (xs ++ ys) ≡ xs
unfolding Ends
take-Ends k xs ys (inl e) = rw (sym e) (take-length_append xs ys)
take-Ends k xs ys (inr (e, l)) = rw (e, append-nil xs) (take_all k xs l)

drop-Ends : (k : ℕ) (xs ys : List Json) → Ends k xs ys → drop k (xs ++ ys) ≡ ys
unfolding Ends
drop-Ends k xs ys (inl e) = rw (sym e) (drop-length_append xs ys)
drop-Ends k xs ys (inr (e, l)) = rw (e, append-nil xs) (drop_all k xs l)

split-Ends : (at : ℕ) (vs : List Json) → Ends at (take at vs) (drop at vs)
unfolding Ends
split-Ends at vs = elim (Bool-cases (leb at (length vs))) [
  | inl h ↦ inl (ground (arith, length-take at vs, h))
  | inr h ↦ inr (drop_all at vs (ground (arith, h)), omega (arith, length-take at vs))
]

more-Ends :
    (k n : ℕ) (xs c ys : List Json) → Ends k xs ys → length c ≡ n → Ends (k + n) (xs ++ c) ys
unfolding Ends
more-Ends k n xs c ys (inl e) h = inl (omega (arith, length-append xs c, e, h))
more-Ends k n xs c ys (inr (e, l)) h = inr (e, omega (arith, length-append xs c, l, h))

splice_at_here :
    (at : ℕ) (items vs : List Json) → splice_at at 0 items vs ≡ take at vs ++ items ++ drop at vs
unfolding splice_at
splice_at_here at items vs = ap (λ n. take at vs ++ items ++ drop n vs) (omega arith)

splice_none : (at : ℕ) (vs : List Json) → splice_at at 0 [] vs ≡ vs
splice_none at vs =
    splice_at_here at [] vs
    ∙ ap (λ x. x ++ drop at vs) (append-nil (take at vs))
    ∙ take-append-drop at vs

short_rest :
    (at size : ℕ) (items vs : List Json)
    → length items ≤ size
    → splice_at (at + size) 0 (drop size items) (splice_at at 0 (take size items) vs)
      ≡ splice_at at 0 items vs
short_rest at size items vs l =
    rw (drop_all size items l, take_all size items l)
      (splice_none (at + size) (splice_at at 0 items vs))

long_rest :
    (at size : ℕ) (items vs : List Json)
    → size ≤ length items
    → splice_at (at + size) 0 (drop size items) (splice_at at 0 (take size items) vs)
      ≡ splice_at at 0 items vs
long_rest at size items vs l =
    let c = take size items in
    let rest = drop size items in
    let P = take at vs ++ c in
    let D = drop at vs in
    let ends : Ends (at + size) P D =
      more-Ends at size (take at vs) c D (split-Ends at vs)
        (ground (arith, length-take size items, l)) in
    ap (splice_at (at + size) 0 rest) (splice_at_here at c vs)
    ∙ splice_at_here (at + size) rest (P ++ D)
    ∙ ap (λ x. x ++ rest ++ drop (at + size) (P ++ D)) (take-Ends (at + size) P D ends)
    ∙ ap (λ x. P ++ rest ++ x) (drop-Ends (at + size) P D ends)
    ∙ ap (λ x. x ++ D) (append_assoc (take at vs) c rest)
    ∙ ap (λ x. take at vs ++ x ++ D) (take-append-drop size items)
    ∙ sym (splice_at_here at items vs)

insert_chunks_lem :
    (size fuel at : ℕ) (items vs : List Json)
    → 1 ≤ size
    → length items ≤ fuel
    → insert_chunks size fuel at items vs ≡ splice_at at 0 items vs
unfolding insert_chunks
insert_chunks_lem size zero at [] vs h l = sym (splice_none at vs)
insert_chunks_lem size zero at (x ∷ items) vs h l = ground arith
insert_chunks_lem size (suc fuel) at [] vs h l = sym (splice_none at vs)
insert_chunks_lem size (suc fuel) at (x ∷ items) vs h l =
    let xs = x ∷ items in
    insert_chunks_lem size fuel (at + size) (drop size xs) (splice_at at 0 (take size xs) vs) h
      (omega (arith, length-drop size xs, l, h))
    ∙ elim (Bool-cases (leb (length xs) size)) [
      | inl g ↦ short_rest at size xs vs (ground (arith, g))
      | inr g ↦ long_rest at size xs vs (ground (arith, g))
    ]

cut-Ends : (at r : ℕ) (vs : List Json) → Ends at (take at vs) (drop (at + r) vs)
unfolding Ends
cut-Ends at r vs = elim (Bool-cases (leb at (length vs))) [
  | inl h ↦ inl (ground (arith, length-take at vs, h))
  | inr h ↦ inr (drop_all (at + r) vs (ground (arith, h)), omega (arith, length-take at vs))
]

removed :
    (i r : ℕ) (items vs : List Json)
    → splice_at i 0 items (splice_at i r [] vs) ≡ splice_at i r items vs
unfolding splice_at
removed i r items vs =
    let T = take i vs in
    let D = drop (i + r) vs in
    ap (λ x. splice_at i 0 items (x ++ D)) (append-nil T)
    ∙ splice_at_here i items (T ++ D)
    ∙ ap (λ x. x ++ items ++ drop i (T ++ D)) (take-Ends i T D (cut-Ends i r vs))
    ∙ ap (λ x. T ++ items ++ x) (drop-Ends i T D (cut-Ends i r vs))

-- The insertion of the items piece by piece, after the removal, is the one splice of all the items,
-- wherever it starts.
pub splice_items_lem :
    (i r : ℕ) (items vs : List Json) → splice_items i r items vs ≡ splice_at i r items vs
unfolding splice_items
splice_items_lem i r items vs =
    insert_chunks_lem chunk_size (length items) i items (splice_at i r [] vs) (omega arith)
      (omega arith)
    ∙ removed i r items vs

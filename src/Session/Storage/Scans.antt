-- ===== src/Session/Storage/Scans.antt =====
-- `scanEntries` of in-memory-storage-state.ts, against what a query asks of the log.
use livi_agent.Prelude.{
  ℕ, zero, suc, ◌≤◌, ◌≡◌, ◌⊎◌, inl, inr, refl, ap, true, false, Option, none, some, List, [], ◌∷◌,
  ◌++◌, reverse, length, arith, Bool-cases,
}
use livi_agent.Session.{Entry, Order, asc, desc}
use livi_agent.Session.Storage.{Store}
use livi_agent.Session.Storage.Queries.{
  EntryScan, matches_entry, take_matching, in_order, scan_entries,
}
use livi_agent.Session.Storage.Wanted.{Asks, Wanted, matches-Wanted, Wanted-matches}

-- The entries of the first list that satisfy the predicate, in their order.
pub data Selects (P : Entry → Type 0) : List Entry → List Entry → Type 0 where
  empty : Selects P [] []
  keeps : (e : Entry) (es xs : List Entry) → P e → Selects P es xs → Selects P (e ∷ es) (e ∷ xs)
  skips : (e : Entry) (es xs : List Entry) → ¬ P e → Selects P es xs → Selects P (e ∷ es) xs

-- The log as it is walked.
pub data Walk : Order → List Entry → List Entry → Type 0 where
  ascends : (es : List Entry) → Walk asc es es
  descends : (es : List Entry) → Walk desc es (reverse es)

-- A result of at most the limit, which are those wanted of the entries walked; the rest is not walked
-- only where the limit is reached.
pub record IsTaken (P : Entry → Type 0) (limit : Option ℕ) (es result : List Entry) : Type 0 where
  pub walked : List Entry
  pub rest : List Entry
  pub split : es ≡ walked ++ rest
  pub selected : Selects P walked result
  pub within : Asks (λ n. length result ≤ n) limit
  pub complete : (rest ≡ []) ⊎ (limit ≡ some (length result))

-- What a scan of the log returns.
pub record IsScan (q : EntryScan) (log result : List Entry) : Type 0 where
  pub directed : List Entry
  pub walk : Walk q.order log directed
  pub taken : IsTaken (Wanted q) q.limit directed result

in_order-Walk : (o : Order) (es : List Entry) → Walk o es (in_order o es)
unfolding in_order
in_order-Walk asc es = ascends es
in_order-Walk desc es = descends es

module _ (q : EntryScan) where
  kept :
      (e : Entry) (es result : List Entry) (room less : Option ℕ)
      → matches_entry q e ≡ true
      → IsTaken (Wanted q) less es result
      → Asks (λ n. length (e ∷ result) ≤ n) room
      → (less ≡ some (length result) → room ≡ some (length (e ∷ result)))
      → IsTaken (Wanted q) room (e ∷ es) (e ∷ result)
  kept e es result room less fits t within more = record {
    walked = e ∷ t.walked;
    rest = t.rest;
    split = ap (λ l. e ∷ l) t.split;
    selected = keeps e t.walked result (matches-Wanted q e fits) t.selected;
    within = within;
    complete = elim t.complete [ inl h ↦ inl h | inr h ↦ inr (more h) ];
  }

  passed :
      (e : Entry) (es result : List Entry) (room : Option ℕ)
      → matches_entry q e ≡ false
      → IsTaken (Wanted q) room es result
      → IsTaken (Wanted q) room (e ∷ es) result
  passed e es result room unfit t = record {
    walked = e ∷ t.walked;
    rest = t.rest;
    split = ap (λ l. e ∷ l) t.split;
    selected = skips e t.walked result (λ w. let both = Wanted-matches q e w in cc) t.selected;
    within = t.within;
    complete = t.complete;
  }

  take_matching-IsTaken :
      (room : Option ℕ) (es : List Entry)
      → IsTaken (Wanted q) room es (take_matching (matches_entry q) room es)
  unfolding take_matching
  take_matching-IsTaken none [] = record {
    walked = [];
    rest = [];
    split = refl;
    selected = empty;
    within = tt;
    complete = inl refl;
  }
  take_matching-IsTaken none (e ∷ es) =
      let rest = take_matching-IsTaken none es in
      elim (Bool-cases (matches_entry q e)) [
        | inl fits ↦
            rw (take_matching, fits)
              (kept e es (take_matching (matches_entry q) none es) none none fits rest tt
                (λ h. absurd cc))
        | inr unfit ↦
            rw (take_matching, unfit)
              (passed e es (take_matching (matches_entry q) none es) none unfit rest)
      ]
  take_matching-IsTaken (some zero) es = record {
    walked = [];
    rest = es;
    split = refl;
    selected = empty;
    within = omega arith;
    complete = inr refl;
  }
  take_matching-IsTaken (some (suc n)) [] = record {
    walked = [];
    rest = [];
    split = refl;
    selected = empty;
    within = omega arith;
    complete = inl refl;
  }
  take_matching-IsTaken (some (suc n)) (e ∷ es) =
      let taken = take_matching-IsTaken (some n) es in
      let others = take_matching-IsTaken (some (suc n)) es in
      elim (Bool-cases (matches_entry q e)) [
        | inl fits ↦
            rw (take_matching, fits)
              (kept e es (take_matching (matches_entry q) (some n) es) (some (suc n)) (some n) fits
                taken
                (let w : length (take_matching (matches_entry q) (some n) es) ≤ n = taken.within in
                  omega arith)
                (λ h. ground (arith, h)))
        | inr unfit ↦
            rw (take_matching, unfit)
              (passed e es (take_matching (matches_entry q) (some (suc n)) es) (some (suc n)) unfit
                others)
      ]

-- A scan of the entries walks the log from its first entry on, or from its last one back where the
-- query is descending. It returns those of the walked entries that have the type, the custom type and a
-- number within the bounds that the query asks for, in the order of the walk and not more than its
-- limit; it walks the whole log, unless it has as many as the limit.
pub scan_entries-IsScan : (s : Store) (q : EntryScan) → IsScan q s.entries_by_seq (scan_entries s q)
unfolding scan_entries
scan_entries-IsScan s q = record {
  directed = in_order q.order s.entries_by_seq;
  walk = in_order-Walk q.order s.entries_by_seq;
  taken = take_matching-IsTaken q q.limit (in_order q.order s.entries_by_seq);
}

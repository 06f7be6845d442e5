-- ===== src/Session/Fork/Ancestors.antt =====
-- What a fork of a branch copies, by the walk of fork.ts over linked entries.
use livi_agent.Prelude.{
  ℕ, zero, suc, ◌<◌, ◌≤◌, String, ◌≡◌, refl, sym, ap, ◌∙◌, true, false, ◌||◌, Option, none, some,
  List, [], ◌∷◌, map, contains, contains-append, string_eq, ◌==◌, if◌then◌else◌, arith, Bool-cases,
  inl, inr,
}
use livi_agent.Prelude.Assoc
use livi_agent.Prelude.Assoc.{Assoc}
use livi_agent.Session.{Entry}
use livi_agent.Session.Storage.Linked.{Linked}
use livi_agent.Session.Storage.Walk.{IsBranch, only, above}
use livi_agent.Session.Fork.{
  Position, at, ok, Selecting, add_id, is_requested, meet, visit, select_branch,
}

-- The visits of the entries of a branch, from the tip.
abbrev pass : Option String → Position → List Entry → Selecting → Selecting
pass requested position [] s = s
pass requested position (e ∷ path) s = pass requested position path (visit requested position e s)

select_branch-step :
    (fuel : ℕ) (m : Assoc String Entry) (requested : Option String) (position : Position)
    (id : String) (e : Entry) (s : Selecting)
    → Assoc.get m id ≡ some e
    → select_branch (suc fuel) m requested position (some id) s
      ≡ select_branch fuel m requested position e.parent_id (visit requested position e s)
unfolding select_branch
select_branch-step fuel m requested position id e s is = simp (select_branch, is)

select_branch-pass :
    (fuel : ℕ) (m : Assoc String Entry) (requested : Option String) (position : Position)
    (id : String) (e : Entry) (path : List Entry) (s : Selecting)
    → IsBranch m e path
    → Assoc.get m id ≡ some e
    → suc e.seq < fuel
    → select_branch fuel m requested position (some id) s ≡ ok (pass requested position path s)
unfolding select_branch
select_branch-pass zero m requested position id e path s b is less = absurd (omega arith)
select_branch-pass (suc zero) m requested position id e path s b is less = absurd (omega arith)
select_branch-pass (suc (suc fuel)) m requested position id _ _ s (only e r) is less =
    select_branch-step (suc fuel) m requested position id e s is
    ∙ ap (λ i. select_branch (suc fuel) m requested position i (visit requested position e s)) r
select_branch-pass (suc (suc fuel)) m requested position id _ _ s
      (above e q p path names there lower b) is less =
    let rec =
      select_branch-pass (suc fuel) m requested position p q path (visit requested position e s) b
        there (omega arith) in
    select_branch-step (suc fuel) m requested position id e s is
    ∙ ap (λ i. select_branch (suc fuel) m requested position i (visit requested position e s)) names
    ∙ rec

abbrev pub ids_of : List Entry → List String
ids_of path = map (λ (e : Entry). e.id) path

-- The part of a branch from an entry on.
abbrev pub cut_at : String → List Entry → List Entry
cut_at x [] = []
cut_at x (e ∷ path) = let rest = cut_at x path in if e.id == x then e ∷ path else rest

-- An id of a branch names a stored entry with a number that is not larger than the first.
branch-lower :
    (m : Assoc String Entry) (n : ℕ) (e : Entry) (path : List Entry) (y : String)
    → Linked m n
    → Assoc.get m e.id ≡ some e
    → IsBranch m e path
    → contains y (ids_of path) ≡ true
    → (f : Entry) × (Assoc.get m y ≡ some f) × (f.seq ≤ e.seq)
branch-lower m n _ _ y h is (only e r) c =
    (e, ground (arith, is, c, string_eq.beq_iff e.id y), omega arith)
branch-lower m n _ _ y h is (above e q p path names there lower b) c =
    elim (Bool-cases (e.id == y)) [
      | inl same ↦ (e, ground (arith, is, (string_eq.beq_iff e.id y).0 same), omega arith)
      | inr differs ↦
          let own : q.id ≡ p = (h p q there).own_id in
          let (f, found, low) =
            branch-lower m n q path y h (ap (Assoc.get m) own ∙ there) b
              (ground (arith, c, differs)) in
          (f, found, omega arith)
    ]

-- No entry of a branch stands on it twice.
branch-fresh :
    (m : Assoc String Entry) (n : ℕ) (e q : Entry) (path : List Entry)
    → Linked m n
    → Assoc.get m e.id ≡ some e
    → Assoc.get m q.id ≡ some q
    → IsBranch m q path
    → q.seq < e.seq
    → contains e.id (ids_of path) ≡ false
branch-fresh m n e q path h is there b lower = elim (Bool-cases (contains e.id (ids_of path))) [
  | inr fresh ↦ fresh
  | inl again ↦
      let (f, found, low) = branch-lower m n q path e.id h there b again in
      let same : some e ≡ some f = sym is ∙ found in absurd (ground (arith, same, low, lower))
]

contains-add_id :
    (x y : String) (ids : List String) → contains y (add_id x ids) ≡ (contains y ids || (x == y))
unfolding add_id
contains-add_id x y ids = elim (Bool-cases (contains x ids)) [
  | inl there ↦ elim (Bool-cases (x == y)) [
    | inl same ↦ ground (arith, there, same, string_eq.beq_iff x y)
    | inr differs ↦ ground (arith, there, differs)
  ]
  | inr gone ↦ ground (arith, gone, contains-append y ids (x ∷ []))
]

-- Behind the cut every entry is taken.
pass-found :
    (x : String) (position : Position) (path : List Entry) (s : Selecting) (y : String)
    → s.found ≡ true
    → contains x (ids_of path) ≡ false
    → ((pass (some x) position path s).found ≡ true)
      × (contains y (pass (some x) position path s).ids
          ≡ (contains y s.ids || contains y (ids_of path)))
unfolding visit is_requested
pass-found x position [] s y f c = (f, ground arith)
pass-found x position (e ∷ path) s y f c =
    let other : (e.id == x) ≡ false = ground arith in
    let rest : contains x (ids_of path) ≡ false = ground arith in
    let now : visit (some x) position e s ≡ record s { ids = add_id e.id s.ids } =
      ground (arith, other, f) in
    let (found, all) = pass-found x position path (record s { ids = add_id e.id s.ids }) y f rest in
    (
      ap (λ (t : Selecting). (pass (some x) position path t).found) now ∙ found,
      ap (λ (t : Selecting). contains y (pass (some x) position path t).ids) now
          ∙ all
          ∙ ground (arith, contains-add_id e.id y s.ids),
    )

-- The walk starts with nothing.
abbrev pub nothing_yet : Selecting
nothing_yet = record { found = false; tip = none; ids = [] }

abbrev pub taken_at : Entry → Selecting
taken_at e = record { found = true; tip = some e.id; ids = e.id ∷ [] }

visit-met :
    (x : String) (e : Entry) → (e.id == x) ≡ true → visit (some x) at e nothing_yet ≡ taken_at e
unfolding visit is_requested meet add_id
visit-met x e same = rw (visit, same) refl

visit-passed :
    (x : String) (e : Entry) → (e.id == x) ≡ false → visit (some x) at e nothing_yet ≡ nothing_yet
unfolding visit is_requested
visit-passed x e differs = rw (visit, differs) refl

-- The requested entry and those above it are taken.
record Takes (x : String) (path : List Entry) (y : String) (s : Selecting) : Type 0 where
  pub found : s.found ≡ contains x (ids_of path)
  pub taken : contains y s.ids ≡ contains y (ids_of (cut_at x path))

met-Takes :
    (x : String) (e : Entry) (path : List Entry) (y : String)
    → (e.id == x) ≡ true
    → contains x (ids_of path) ≡ false
    → Takes x (e ∷ path) y (pass (some x) at (e ∷ path) nothing_yet)
met-Takes x e path y same fresh =
    let (found, all) = pass-found x at path (taken_at e) y refl fresh in
    let now = visit-met x e same in
    record {
      found =
          ap (λ (t : Selecting). (pass (some x) at path t).found) now
          ∙ found
          ∙ ground (arith, same);
      taken =
          ap (λ (t : Selecting). contains y (pass (some x) at path t).ids) now
          ∙ all
          ∙ ground (arith, same);
    }

passed-Takes :
    (x : String) (e : Entry) (path : List Entry) (y : String)
    → (e.id == x) ≡ false
    → Takes x path y (pass (some x) at path nothing_yet)
    → Takes x (e ∷ path) y (pass (some x) at (e ∷ path) nothing_yet)
passed-Takes x e path y differs h =
    let now = visit-passed x e differs in
    record {
      found =
          ap (λ (t : Selecting). (pass (some x) at path t).found) now
          ∙ h.found
          ∙ ground (arith, differs);
      taken =
          ap (λ (t : Selecting). contains y (pass (some x) at path t).ids) now
          ∙ h.taken
          ∙ ground (arith, differs);
    }

branch-Takes :
    (m : Assoc String Entry) (n : ℕ) (e : Entry) (path : List Entry) (x y : String)
    → Linked m n
    → Assoc.get m e.id ≡ some e
    → IsBranch m e path
    → Takes x path y (pass (some x) at path nothing_yet)
branch-Takes m n _ _ x y h is (only e r) = elim (Bool-cases (e.id == x)) [
  | inl same ↦ met-Takes x e [] y same refl
  | inr differs ↦ passed-Takes x e [] y differs (record { found = refl; taken = refl })
]
branch-Takes m n _ _ x y h is (above e q p path names there lower b) =
    let own : Assoc.get m q.id ≡ some q = ap (Assoc.get m) (h p q there).own_id ∙ there in
    elim (Bool-cases (e.id == x)) [
      | inl same ↦
          let fresh = branch-fresh m n e q path h is own b lower in
          met-Takes x e path y same
            (ap (λ i. contains i (ids_of path)) (sym ((string_eq.beq_iff e.id x).0 same)) ∙ fresh)
      | inr differs ↦ passed-Takes x e path y differs (branch-Takes m n q path x y h own b)
    ]

-- A fork of a branch at an entry, in linked entries and with rounds for the numbers up to the tip's,
-- ends, finds the entry exactly where it is the tip or one of its ancestors, and then takes that entry
-- and its ancestors and nothing else.
pub select_branch_lem :
    (m : Assoc String Entry) (n fuel : ℕ) (e : Entry) (path : List Entry) (x y : String)
    → Linked m n
    → Assoc.get m e.id ≡ some e
    → IsBranch m e path
    → suc e.seq < fuel
    → (s : Selecting) × (select_branch fuel m (some x) at (some e.id) nothing_yet ≡ ok s)
      × (s.found ≡ contains x (ids_of path))
      × (contains y s.ids ≡ contains y (ids_of (cut_at x path)))
select_branch_lem m n fuel e path x y h is b less =
    let t = branch-Takes m n e path x y h is b in
    (
      pass (some x) at path nothing_yet,
      select_branch-pass fuel m (some x) at e.id e path nothing_yet b is less,
      t.found,
      t.taken,
    )

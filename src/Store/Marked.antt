-- ===== src/Store/Marked.antt =====
-- core/src/db.rs, `mark_spent_in_gap`: what the marks leave of the rows that a test takes.
use gb_parano1d_permanode.Prelude.{
  ℕ, ◌≡◌, refl, sym, arith, Bool, true, false, ◌&&◌, ◌||◌, not, Option, none, some, List, [], ◌∷◌,
  ◌==◌, any, retain, if◌then◌else◌, inl, inr,
}
use gb_parano1d_permanode.Prelude.{Bool-cases, subst}
use gb_parano1d_permanode.Prelude.Equations.{and-eq}
use gb_parano1d_permanode.Prelude.Result.{ok, bind-eq, require-eq}
use gb_parano1d_permanode.Store.Rows.{OutputRow, update_where}
use gb_parano1d_permanode.Store.Slots.{Candidate, read_candidates, is_row, mark_rows}

abbrev pub all_of {ℓ} : {A : Type ℓ} → (A → Bool) → List A → Bool
all_of p [] = true
all_of p (x ∷ xs) = p x && all_of p xs

pub all_of-imp {ℓ} :
    {A : Type ℓ} (p q : A → Bool) (xs : List A)
    → ((x : A) → p x ≡ true → q x ≡ true)
    → all_of p xs ≡ true
    → all_of q xs ≡ true
all_of-imp p q [] imp e = refl
all_of-imp p q (x ∷ xs) imp e =
    let (px, rest) = and-eq (p x) (all_of p xs) e in
    let qx = imp x px in let qs = all_of-imp p q xs imp rest in ground arith

-- An output whose creation id is among those of the live slots.
abbrev pub is_live_id : (ℕ → Bool) → Option ℕ → Bool
is_live_id live none = false
is_live_id live (some cid) = live cid

abbrev flagged : ℕ → OutputRow → OutputRow
flagged now o = record o { spent_in_gap = true; spent_in_gap_at = some now }

abbrev mark_row : List Candidate → ℕ → OutputRow → OutputRow
mark_row [] now o = o
mark_row (c ∷ cs) now o = mark_row cs now (if is_row c o then flagged now o else o)

mark_rows-cons :
    (cs : List Candidate) (now : ℕ) (o : OutputRow) (os : List OutputRow)
    → mark_rows cs now (o ∷ os) ≡ mark_row cs now o ∷ mark_rows cs now os
unfolding mark_rows
mark_rows-cons [] now o os = refl
mark_rows-cons (c ∷ cs) now o os =
    mark_rows-cons cs now (if is_row c o then flagged now o else o)
      (update_where (is_row c) (flagged now) os)

mark_rows-empty : (cs : List Candidate) (now : ℕ) → mark_rows cs now [] ≡ []
unfolding mark_rows
mark_rows-empty [] now = refl
mark_rows-empty (c ∷ cs) now = mark_rows-empty cs now

mark_row-keeps :
    (cs : List Candidate) (now : ℕ) (o : OutputRow)
    → o.spent_in_gap ≡ true
    → (mark_row cs now o).spent_in_gap ≡ true
mark_row-keeps [] now o e = e
mark_row-keeps (c ∷ cs) now o e =
    elim (is_row c o)
      as (λ b. (mark_row cs now (if b then flagged now o else o)).spent_in_gap ≡ true) [
        | true ↦ mark_row-keeps cs now (flagged now o) refl
        | false ↦ mark_row-keeps cs now o e
      ]

abbrev matches : List Candidate → OutputRow → Bool
matches cs o = any (λ c. is_row c o) cs

mark_row-hit :
    (cs : List Candidate) (now : ℕ) (o : OutputRow)
    → matches cs o ≡ true
    → (mark_row cs now o).spent_in_gap ≡ true
mark_row-hit [] now o e = cc
mark_row-hit (c ∷ cs) now o e =
    (elim (is_row c o)
        as (λ b.
          (if b then true else matches cs o) ≡ true
          → (mark_row cs now (if b then flagged now o else o)).spent_in_gap ≡ true) [
            | true ↦ λ found. mark_row-keeps cs now (flagged now o) refl
            | false ↦ λ found. mark_row-hit cs now o found
          ])
      e

mark_row-miss :
    (cs : List Candidate) (now : ℕ) (o : OutputRow) → matches cs o ≡ false → mark_row cs now o ≡ o
mark_row-miss [] now o e = refl
mark_row-miss (c ∷ cs) now o e =
    (elim (is_row c o)
        as (λ b.
          (if b then true else matches cs o) ≡ false
          → mark_row cs now (if b then flagged now o else o) ≡ o) [
            | true ↦ λ found. cc
            | false ↦ λ found. mark_row-miss cs now o found
          ])
      e

-- A row that a test takes only when it is not marked, and that is live or in the list of marks.
marked-live :
    (p : OutputRow → Bool) (spent : (o : OutputRow) → o.spent_in_gap ≡ true → p o ≡ false)
    (live : ℕ → Bool) (marks : List Candidate) (now : ℕ) (o : OutputRow)
    → (p o ≡ true → is_live_id live o.creation_id ≡ false → matches marks o ≡ true)
    → (not (p (mark_row marks now o)) || is_live_id live (mark_row marks now o).creation_id) ≡ true
marked-live p spent live marks now o listed = elim (Bool-cases (matches marks o)) [
  | inl hit ↦ let gone = spent (mark_row marks now o) (mark_row-hit marks now o hit) in ground arith
  | inr miss ↦
      let same = mark_row-miss marks now o miss in
      subst (λ (r : OutputRow). (not (p r) || is_live_id live r.creation_id) ≡ true) (sym same)
        (elim (Bool-cases (p o)) [
          | inr other ↦ ground arith
          | inl taken ↦ elim (Bool-cases (is_live_id live o.creation_id)) [
            | inl lives ↦ ground arith
            | inr dead ↦ let found = listed taken dead in cc
          ]
        ])
]

abbrev same_row : Candidate → Candidate → Bool
same_row c g = (c.tx_id == g.tx_id) && (c.idx == g.idx)

abbrev pub live_or_marked : (ℕ → Bool) → List Candidate → Candidate → Bool
live_or_marked live marks c = live c.creation_id || any (same_row c) marks

same_row_refl : (c : Candidate) → same_row c c ≡ true
same_row_refl c = ground arith

abbrev pub not_live : (ℕ → Bool) → List Candidate → List Candidate
not_live live cs = retain (λ (c : Candidate). not (live c.creation_id)) cs

any-cons :
    (c g : Candidate) (marks : List Candidate)
    → any (same_row c) marks ≡ true
    → any (same_row c) (g ∷ marks) ≡ true
any-cons c g marks found = ground arith

live_or_marked-cons :
    (live : ℕ → Bool) (g : Candidate) (marks : List Candidate) (c : Candidate)
    → live_or_marked live marks c ≡ true
    → live_or_marked live (g ∷ marks) c ≡ true
live_or_marked-cons live g marks c e = elim (Bool-cases (live c.creation_id)) [
  | inl lives ↦ ground arith
  | inr dead ↦
      let found : any (same_row c) marks ≡ true = rw dead at e in
      let more = any-cons c g marks found in ground arith
]

-- The candidates that are not live are marked.
pub covers :
    (live : ℕ → Bool) (cs : List Candidate)
    → all_of (live_or_marked live (not_live live cs)) cs ≡ true
covers live [] = refl
covers live (c ∷ cs) = elim (Bool-cases (live c.creation_id)) [
  | inl lives ↦
      let dropped : not_live live (c ∷ cs) ≡ not_live live cs = rw lives refl in
      subst (λ m. all_of (live_or_marked live m) (c ∷ cs) ≡ true) (sym dropped)
        (rw lives (covers live cs))
  | inr dead ↦
      let rest =
        all_of-imp (live_or_marked live (not_live live cs))
          (live_or_marked live (c ∷ not_live live cs)) cs
          (live_or_marked-cons live c (not_live live cs)) (covers live cs) in
      let kept : not_live live (c ∷ cs) ≡ c ∷ not_live live cs = rw dead refl in
      subst (λ m. all_of (live_or_marked live m) (c ∷ cs) ≡ true) (sym kept)
        (rw (dead, same_row_refl c) rest)
]

listed-marked : (a b : Bool) → (a || b) ≡ true → a ≡ false → b ≡ true
listed-marked a b e dead = ground arith

-- What the marks leave of the rows that a test takes is live.
pub swept_rows :
    (p : OutputRow → Bool) (spent : (o : OutputRow) → o.spent_in_gap ≡ true → p o ≡ false)
    (live : ℕ → Bool) (marks : List Candidate) (now : ℕ) (os : List OutputRow) (cs : List Candidate)
    → read_candidates (retain p os) ≡ ok cs
    → all_of (live_or_marked live marks) cs ≡ true
    → all_of (λ r. not (p r) || is_live_id live r.creation_id) (mark_rows marks now os) ≡ true
unfolding read_candidates
swept_rows p spent live marks now [] cs e all = rw (mark_rows-empty marks now) refl
swept_rows p spent live marks now (o ∷ os) cs e all =
    rw (mark_rows-cons marks now o os) (elim (Bool-cases (p o)) [
      | inr other ↦
          let head = marked-live p spent live marks now o (λ taken dead. cc) in
          let tail = swept_rows p spent live marks now os cs (rw other at e) all in ground arith
      | inl taken ↦
          let e' : read_candidates (o ∷ retain p os) ≡ ok cs = rw taken at e in
          let (cid, has, read) = require-eq o.creation_id _ cs e' in
          let (rest, read', same) = bind-eq (read_candidates (retain p os)) _ cs read in
          let candidate : Candidate = record { tx_id = o.tx_id; idx = o.idx; creation_id = cid } in
          let whole : candidate ∷ rest ≡ cs = cc in
          let all' =
            subst (λ (x : List Candidate). all_of (live_or_marked live marks) x ≡ true) (sym whole)
              all in
          let (first, others) =
            and-eq (live_or_marked live marks candidate) (all_of (live_or_marked live marks) rest)
              all' in
          let head = marked-live p spent live marks now o (λ unmarked dead.
            let dead' : live cid ≡ false = rw has at dead in
            listed-marked (live cid) (matches marks o) first dead') in
          let tail = swept_rows p spent live marks now os rest read' others in ground arith
    ])

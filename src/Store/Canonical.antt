-- ===== src/Store/Canonical.antt =====
-- core/src/db.rs: how the canonical block at a height changes with the rows that are written.
use gb_parano1d_permanode.Prelude.{
  ℕ, ◌≤◌, ◌<◌, ◌≡◌, refl, ap, subst, ◌∙◌, Bool, true, false, some, String, List, [], ◌∷◌, arith,
  ◌==◌, if◌then◌else◌, find, Bool-cases, inl, inr,
}
use mathlib.Core.Option
use gb_parano1d_permanode.Store.Rows.{StatusRow}
use gb_parano1d_permanode.Store.Blocks.{latest_observed, is_canonical_status}
use gb_parano1d_permanode.Store.Index.{
  Key, find_key, is_at, find-congr, current, answer, canonical_of,
}

-- Every row of the log is later than the older rows of its block.
abbrev pub IsTimed : List StatusRow → Type 0
IsTimed [] = Unit {0}
IsTimed (s ∷ l) = (latest_observed l s.block_id < s.observed_at) × IsTimed l

-- No row of the log is about the block.
abbrev pub NoRow : ℕ → List StatusRow → Type 0
NoRow id [] = Unit {0}
NoRow id (s ∷ l) = ((s.block_id == id) ≡ false) × NoRow id l

AllSeen : List StatusRow → List StatusRow → Type 0
AllSeen l [] = Unit {0}
AllSeen l (s ∷ rows) = (s.observed_at ≤ latest_observed l s.block_id) × AllSeen l rows

AllSeen-cons : (s : StatusRow) (l rows : List StatusRow) → AllSeen l rows → AllSeen (s ∷ l) rows
unfolding AllSeen latest_observed
AllSeen-cons s l [] h = tt
AllSeen-cons s l (r ∷ rows) h = ground (arith, AllSeen-cons s l rows h.1)

AllSeen-self : (l : List StatusRow) → AllSeen l l
unfolding AllSeen latest_observed
AllSeen-self [] = tt
AllSeen-self (s ∷ l) = (ground arith, AllSeen-cons s l l (AllSeen-self l))

module _ (ks : List Key) (s : StatusRow) (l : List StatusRow) (height : ℕ)
    (later : latest_observed l s.block_id < s.observed_at) where
  -- An older row of the same block is no longer current; a row of another block is as before.
  current-older :
      (r : StatusRow)
      → r.observed_at ≤ latest_observed l r.block_id
      → current ks (s ∷ l) height r
        ≡ (if s.block_id == r.block_id then false else current ks l height r)
  unfolding latest_observed
  current-older r seen = ground arith

  find-older :
      (rows : List StatusRow)
      → AllSeen l rows
      → find (current ks (s ∷ l) height) rows
        ≡ find (λ r. if s.block_id == r.block_id then false else current ks l height r) rows
  unfolding AllSeen
  find-older [] h = refl
  find-older (r ∷ rows) (seen, h) = rw (current-older r seen, find-older rows h) refl

  elsewhere-same :
      is_at ks height s.block_id ≡ false
      → (r : StatusRow)
      → (if s.block_id == r.block_id then false else current ks l height r) ≡ current ks l height r
  elsewhere-same off r = elim (Bool-cases (s.block_id == r.block_id)) [
    | inr other ↦ rw other refl
    | inl same ↦
        let id_eq : s.block_id ≡ r.block_id = ground arith in
        let off' : is_at ks height r.block_id ≡ false =
          subst (λ (i : ℕ). is_at ks height i ≡ false) id_eq off in
        rw (same, off') (ground arith)
  ]

  -- A row about a block at another height changes nothing at this one.
  pub canonical_of-elsewhere :
      is_at ks height s.block_id ≡ false → canonical_of ks (s ∷ l) height ≡ canonical_of ks l height
  canonical_of-elsewhere off =
      let head : current ks (s ∷ l) height s ≡ false = rw off (ground arith) in
      ap (answer ks) (
        rw head (
          find-older l (AllSeen-self l)
          ∙ find-congr _ (current ks l height) l (elsewhere-same off)))

  -- A canonical row makes its block the canonical one at its height.
  pub canonical_of-newest :
      is_at ks height s.block_id ≡ true
      → is_canonical_status s.status ≡ true
      → canonical_of ks (s ∷ l) height
        ≡ Option.map {B = ℕ × String}
            (λ (k : Key). (s.block_id, k.key_hash))
            (find_key s.block_id ks)
  unfolding latest_observed
  canonical_of-newest at status =
      let head : current ks (s ∷ l) height s ≡ true = rw (at, status) (ground arith) in
      let found : find (current ks (s ∷ l) height) (s ∷ l) ≡ some s = rw head refl in
      ap (answer ks) found

  -- An orphaned row leaves the current canonical blocks other than its own.
  pub canonical_of-orphaned :
      is_canonical_status s.status ≡ false
      → canonical_of ks (s ∷ l) height
        ≡ answer ks
            (find (λ r. if s.block_id == r.block_id then false else current ks l height r) l)
  canonical_of-orphaned status =
      let head : current ks (s ∷ l) height s ≡ false = rw status refl in
      ap (answer ks) (rw head (find-older l (AllSeen-self l)))

module _ (k : Key) (ks : List Key) where
  is_at-cons :
      (height id : ℕ) → (id == k.key_id) ≡ false → is_at (k ∷ ks) height id ≡ is_at ks height id
  is_at-cons height id ne = ground arith

  find_key-cons : (id : ℕ) → (id == k.key_id) ≡ false → find_key id (k ∷ ks) ≡ find_key id ks
  find_key-cons id ne = ground arith

  find-new_key :
      (l rows : List StatusRow) (height : ℕ)
      → NoRow k.key_id rows
      → find (current (k ∷ ks) l height) rows ≡ find (current ks l height) rows
  find-new_key l [] height h = refl
  find-new_key l (r ∷ rows) height (ne, h) =
      rw (is_at-cons height r.block_id ne, find-new_key l rows height h) refl

  answer-new_key :
      (p : StatusRow → Bool) (rows : List StatusRow)
      → NoRow k.key_id rows
      → answer (k ∷ ks) (find p rows) ≡ answer ks (find p rows)
  answer-new_key p [] h = refl
  answer-new_key p (r ∷ rows) (ne, h) = elim (Bool-cases (p r)) [
    | inl found ↦ rw (found, find_key-cons r.block_id ne) refl
    | inr more ↦ rw more (answer-new_key p rows h)
  ]

  -- A block row that no status row is about is not canonical yet.
  pub canonical_of-new_key :
      (l : List StatusRow) (height : ℕ)
      → NoRow k.key_id l
      → canonical_of (k ∷ ks) l height ≡ canonical_of ks l height
  canonical_of-new_key l height h =
      ap (answer (k ∷ ks)) (find-new_key l l height h) ∙ answer-new_key (current ks l height) l h

-- ===== src/Indexer/Swept.antt =====
-- permanode/src/indexer.rs, `scan_live_state`: the outputs that a segment which was read leaves
-- unspent.
use gb_parano1d_permanode.Prelude.{
  ℕ, ◌+◌, ◌*◌, ◌≡◌, refl, subst, Bool-cases, Bool, true, false, ◌||◌, not, Option, none, some, List,
  [], ◌∷◌, ◌++◌, ◌==◌, retain, map, inl, inr,
}
use gb_parano1d_permanode.Prelude.Result.{ok, bind-eq}
use gb_parano1d_permanode.Store.Rows.{OutputRow, Database}
use gb_parano1d_permanode.Store.Blocks.{canonical_block_filter}
use gb_parano1d_permanode.Store.Slots.{
  Candidate, StateSlot, StateSlotRow, is_unspent_recorded, contains_id, mark_rows,
  mark_spent_in_gap, recorded_creation_ids, unmark_live_outputs, unspent_recorded_outputs,
}
use gb_parano1d_permanode.Indexer.Sweep.{reconcile_segment}
use gb_parano1d_permanode.Store.Marked.{
  all_of, all_of-imp, is_live_id, not_live, covers, swept_rows,
}

abbrev pub ids_of : List StateSlot → List ℕ
ids_of live = map (λ (s : StateSlot). s.creation_id) live

contains_id-append :
    (c : ℕ) (xs ys live : List StateSlot)
    → (contains_id (ids_of xs) c ≡ true → contains_id (ids_of live) c ≡ true)
    → (contains_id (ids_of ys) c ≡ true → contains_id (ids_of live) c ≡ true)
    → contains_id (ids_of (xs ++ ys)) c ≡ true
    → contains_id (ids_of live) c ≡ true
contains_id-append c [] ys live left right e = right e
contains_id-append c (x ∷ xs) ys live left right e = elim (Bool-cases (x.creation_id == c)) [
  | inl hit ↦ left (rw hit refl)
  | inr miss ↦ contains_id-append c xs ys live (λ found. left (rw miss found)) right (rw miss at e)
]

contains_id-retain :
    (c : ℕ) (p : StateSlot → Bool) (xs : List StateSlot)
    → contains_id (ids_of (retain p xs)) c ≡ true
    → contains_id (ids_of xs) c ≡ true
contains_id-retain c p [] e = e
contains_id-retain c p (x ∷ xs) e = elim (Bool-cases (x.creation_id == c)) [
  | inl hit ↦ rw hit refl
  | inr miss ↦ elim (Bool-cases (p x)) [
    | inl kept ↦
        let e' : contains_id (ids_of (x ∷ retain p xs)) c ≡ true = rw kept at e in
        let found : contains_id (ids_of (retain p xs)) c ≡ true = rw miss at e' in
        rw miss (contains_id-retain c p xs found)
    | inr left ↦ rw miss (contains_id-retain c p xs (rw left at e))
  ]
]

-- A mark takes a row out of the candidates.
spent-is_unspent_recorded :
    (db : Database) (height start end : ℕ) (o : OutputRow)
    → o.spent_in_gap ≡ true
    → is_unspent_recorded db height start end o ≡ false
unfolding is_unspent_recorded
spent-is_unspent_recorded db height start end o e = rw e refl

ok-first : {A B : Type 0} (x after : A × B) → ok x ≡ ok after → x.0 ≡ after.0
ok-first x after e = cc

unspent_or_live-imp :
    (read live : ℕ → Bool)
    → ((c : ℕ) → read c ≡ true → live c ≡ true)
    → (taken : Bool) (id : Option ℕ) → (not taken || is_live_id read id) ≡ true
    → (not taken || is_live_id live id) ≡ true
unspent_or_live-imp read live imp false id e = refl
unspent_or_live-imp read live imp true none e = e
unspent_or_live-imp read live imp true (some c) e = imp c e

-- Of the rows of a record, those that it has as unspent in a range of slots are live.
abbrev pub has_live_slots : Database → ℕ → ℕ → ℕ → (ℕ → Bool) → Bool
has_live_slots db height start end live =
    all_of
      (λ (o : OutputRow).
        not (is_unspent_recorded db height start end o) || is_live_id live o.creation_id)
      db.tx_outputs

mark_spent_in_gap-live :
    (db : Database) (height start end now : ℕ) (read live : ℕ → Bool) (unspent : List Candidate)
    → ((c : ℕ) → read c ≡ true → live c ≡ true)
    → unspent_recorded_outputs db height start end ≡ ok unspent
    → has_live_slots (mark_spent_in_gap db (not_live read unspent) now) height start end live ≡ true
unfolding mark_spent_in_gap is_unspent_recorded canonical_block_filter
mark_spent_in_gap-live db height start end now read live unspent imp listed =
    let p = is_unspent_recorded db height start end in
    let marks = not_live read unspent in
    all_of-imp (λ (o : OutputRow). not (p o) || is_live_id read o.creation_id)
      (λ o. not (p o) || is_live_id live o.creation_id) (mark_rows marks now db.tx_outputs)
      (λ o. unspent_or_live-imp read live imp (p o) o.creation_id)
      (swept_rows p (spent-is_unspent_recorded db height start end) read marks now db.tx_outputs
        unspent listed (covers read unspent))

-- Where the sweep of a segment goes through, each recorded output of the slots of the segment that
-- the record then has as unspent at the height of the read is one of the live ones that were read.
pub reconcile_segment-live :
    (db : Database) (state : List StateSlotRow) (segment segment_size : ℕ) (live : List StateSlot)
    (start_height now : ℕ) (after : Database × List StateSlotRow)
    → reconcile_segment db state segment segment_size live start_height now ≡ ok after
    → has_live_slots after.0 start_height
        (segment * segment_size)
        ((segment + 1) * segment_size)
        (contains_id (ids_of live))
      ≡ true
unfolding reconcile_segment
reconcile_segment-live db state segment segment_size live start_height now after e =
    let start = segment * segment_size in
    let end = (segment + 1) * segment_size in
    let (recorded, got, e₁) = bind-eq (recorded_creation_ids db start end) _ after e in
    let is_known = λ (s : StateSlot). contains_id recorded s.creation_id in
    let known = retain is_known live in
    let foreign = retain (λ s. not (is_known s)) live in
    let (back, took, e₂) =
      bind-eq (unmark_live_outputs db start end (ids_of (known ++ foreign))) _ after e₁ in
    let (unspent, listed, e₃) =
      bind-eq (unspent_recorded_outputs back.0 start_height start end) _ after e₂ in
    subst
      (λ (d : Database). has_live_slots d start_height start end (contains_id (ids_of live)) ≡ true)
      (ok-first _ after e₃)
      (mark_spent_in_gap-live back.0 start_height start end now
        (contains_id (ids_of (known ++ foreign))) (contains_id (ids_of live)) unspent
        (λ c.
          contains_id-append c known foreign live (contains_id-retain c is_known live)
            (contains_id-retain c (λ s. not (is_known s)) live))
        listed)

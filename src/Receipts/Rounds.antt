-- ===== src/Receipts/Rounds.antt =====
-- permanode/src/receipts.rs, `parse_journal`: how many rounds the loop over the journal's bytes takes.
use gb_parano1d_permanode.Prelude.{
  ℕ, zero, suc, ◌+◌, ◌<◌, ◌≡◌, ◌⊎◌, refl, subst, Bool, false, List, ltb, if◌then◌else◌, length,
  take, drop, arith, inl, inr, ltb_false→le,
}
use gb_parano1d_permanode.Prelude.Result.{Result-cases}
use gb_parano1d_permanode.Prelude.Words.{from_le_bytes}
use gb_parano1d_permanode.Prelude.Splits.{length-drop}
use gb_parano1d_permanode.Receipts.Journal.{
  JournalFormat, ReceiptMap, Frame, stop, corrupt, frame, JournalState, running, finished, broken,
  read_frame, apply_frame, round, read_frames,
}

-- A frame comes out of the tests of `read_frame` only where it fits into the bytes.
frame-fits :
    (few bad over torn sound : Bool) (p q p' q' : List ℕ)
    → (if few
        then stop
        else if bad
        then corrupt
        else if over
        then corrupt
        else if torn
        then stop
        else if sound
        then frame p q
        else corrupt)
      ≡ frame p' q'
    → (torn ≡ false) × (q ≡ q')
frame-fits few bad over torn sound p q p' q' e = ground arith

Frame-cases :
    (f : Frame)
    → (f ≡ stop) ⊎ ((f ≡ corrupt) ⊎ ((p : List ℕ) × (after : List ℕ) × (f ≡ frame p after)))
Frame-cases stop = inl refl
Frame-cases corrupt = inr (inl refl)
Frame-cases (frame p after) = inr (inr (p, after, refl))

JournalState-cases :
    (s : JournalState)
    → ((rest : List ℕ) × (n : ℕ) × (r : ReceiptMap) × (s ≡ running rest n r))
      ⊎ (((n : ℕ) × (r : ReceiptMap) × (s ≡ finished n r)) ⊎ (s ≡ broken))
JournalState-cases (running rest n r) = inl (rest, n, r, refl)
JournalState-cases (finished n r) = inr (inl (n, r, refl))
JournalState-cases broken = inr (inr refl)

abbrev pub IsDone : JournalState → Type 0
IsDone (running rest n r) = ⊥
IsDone (finished n r) = Unit
IsDone broken = Unit

module _ (format : JournalFormat) where
  read_frame-shrinks :
      (rest p after : List ℕ) → read_frame format rest ≡ frame p after → length after < length rest
  unfolding read_frame
  read_frame-shrinks rest p after e =
      let n = from_le_bytes (take (take rest 16) 8) in
      let (fits, same) =
        frame-fits _ _ _ (ltb (length rest) (n + 48)) _ _ (drop rest (n + 48)) p after e in
      subst (λ (l : List ℕ). length l < length rest) same
        (omega (arith, length-drop rest (n + 48), ltb_false→le _ _ fits))

  round-shrinks :
      (rest : List ℕ) (frames : ℕ) (receipts : ReceiptMap) (rest' : List ℕ) (frames' : ℕ)
      (receipts' : ReceiptMap)
      → round format rest frames receipts ≡ running rest' frames' receipts'
      → length rest' < length rest
  unfolding round
  round-shrinks rest frames receipts rest' frames' receipts' e =
      elim (Frame-cases (read_frame format rest)) [
        | inl at_end ↦
            let e' : finished frames receipts ≡ running rest' frames' receipts' =
              rw (round, at_end) at e in
            cc
        | inr (inl bad) ↦
            let e' : broken ≡ running rest' frames' receipts' = rw (round, bad) at e in cc
        | inr (inr (p, after, whole)) ↦ elim (Result-cases (apply_frame format frames p receipts)) [
          | inl refused ↦
              let e' : broken ≡ running rest' frames' receipts' = rw (round, whole, refused) at e in
              cc
          | inr (taken, changed) ↦
              let e' : running after (suc frames) taken ≡ running rest' frames' receipts' =
                rw (round, whole, changed) at e in
              let same : after ≡ rest' = cc in
              subst (λ (l : List ℕ). length l < length rest) same
                (read_frame-shrinks rest p after whole)
        ]
      ]

  -- With more rounds than there are bytes left the loop has come to its end, and further rounds
  -- change nothing: the rounds that `parse_journal` allows are those of the `while` loop.
  pub read_frames-ends :
      (rounds : ℕ) (rest : List ℕ) (frames : ℕ) (receipts : ReceiptMap)
      → length rest < rounds
      → IsDone (read_frames format rounds rest frames receipts)
        × ((more : ℕ)
            → read_frames format (rounds + more) rest frames receipts
              ≡ read_frames format rounds rest frames receipts)
  unfolding read_frames
  read_frames-ends zero rest frames receipts lt = ground (arith, lt)
  read_frames-ends (suc rounds) rest frames receipts lt =
      let grow : (more : ℕ) → suc rounds + more ≡ suc (rounds + more) = λ more. omega arith in
      elim (JournalState-cases (round format rest frames receipts)) [
        | inl (rest', frames', receipts', step) ↦
            let ih = read_frames-ends rounds rest' frames' receipts' (
              omega (arith, lt, round-shrinks rest frames receipts rest' frames' receipts' step)) in
            (rw (read_frames, step) ih.0, λ more. rw (grow more, read_frames, step) (ih.1 more))
        | inr (inl (frames', receipts', step)) ↦
            (rw (read_frames, step) tt, λ more. rw (grow more, read_frames, step) refl)
        | inr (inr step) ↦
            (rw (read_frames, step) tt, λ more. rw (grow more, read_frames, step) refl)
      ]

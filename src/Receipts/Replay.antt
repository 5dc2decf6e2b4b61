-- ===== src/Receipts/Replay.antt =====
-- permanode/src/receipts.rs, `parse_journal`: a journal as the wallet writes it, frame after frame,
-- and the rounds that the loop over its bytes takes.
use gb_parano1d_permanode.Prelude.{
  ℕ, zero, suc, ◌+◌, ◌-◌, ◌≤◌, ◌<◌, ◌≡◌, refl, ap, subst, ◌∙◌, true, false, not, List, [], ◌∷◌,
  ◌++◌, ◌==◌, ltb, if◌then◌else◌, length, take, drop, arith, Bool-cases, inl, inr, lt→ltb,
  le→ltb_false, ltb_false→le, eq→==, ne→==_false, length-append,
}
use mathlib.Core.List.{append_assoc}
use gb_parano1d_permanode.Prelude.Result.{Result, ok, err, ◌>>◌, ◌>>=◌, ensure, Result-cases}
use gb_parano1d_permanode.Prelude.Words.{u64_max, u64_not, from_le_bytes, same_bytes}
use gb_parano1d_permanode.Prelude.Splits.{
  length-take, take-append, drop-append, drop-drop, take-over, same_bytes_refl, to_le_bytes,
  length-to_le_bytes, from_le_bytes-to_le_bytes,
}
use gb_parano1d_permanode.Receipts.Journal.{
  JournalFormat, ReceiptMap, stop, corrupt, frame, JournalState, finished, broken, journal_magic,
  conclude, frame_digest, read_frame, apply_frame, round, read_frames, parse_journal,
}

-- The header of a frame for a payload of `n` bytes.
unfoldable pub frame_header : ℕ → List ℕ
frame_header n = to_le_bytes 8 n ++ to_le_bytes 8 (u64_not n)

length-frame_header : (n : ℕ) → length (frame_header n) ≡ 16
unfolding frame_header
length-frame_header n = omega (
  arith,
  length-append (to_le_bytes 8 n) (to_le_bytes 8 (u64_not n)),
  length-to_le_bytes 8 n,
  length-to_le_bytes 8 (u64_not n),
)

-- A payload whose frame has a length that is a `u64`.
abbrev pub Fits : List ℕ → Type 0
Fits payload = length payload + 48 ≤ u64_max

abbrev pub AllFit : List (List ℕ) → Type 0
AllFit [] = Unit
AllFit (p ∷ ps) = Fits p × AllFit ps

-- A header's lengths.
length-of_header : (n : ℕ) → n ≤ u64_max → from_le_bytes (take (frame_header n) 8) ≡ n
unfolding frame_header
length-of_header n le =
    let at_border : take (frame_header n) 8 ≡ to_le_bytes 8 n =
      take-append (to_le_bytes 8 n) (to_le_bytes 8 (u64_not n)) 8 (length-to_le_bytes 8 n) in
    ap from_le_bytes at_border ∙ from_le_bytes-to_le_bytes 8 n (omega (arith, le))

inverted-of_header : (n : ℕ) → from_le_bytes (drop (frame_header n) 8) ≡ u64_not n
unfolding frame_header
inverted-of_header n =
    let at_border : drop (frame_header n) 8 ≡ to_le_bytes 8 (u64_not n) =
      drop-append (to_le_bytes 8 n) (to_le_bytes 8 (u64_not n)) 8 (length-to_le_bytes 8 n) in
    ap from_le_bytes at_border ∙ from_le_bytes-to_le_bytes 8 (u64_not n) (omega arith)

-- The loop's end where the frames before it replay to a result.
abbrev end_of : ℕ → Result ReceiptMap → JournalState
end_of frames err = broken
end_of frames (ok receipts) = finished frames receipts

conclude-end_of :
    (ps : List (List ℕ)) (r : Result ReceiptMap)
    → conclude (end_of (0 + length ps) r) ≡ (ensure (not (length ps == 0)) >> r)
conclude-end_of [] err = refl
conclude-end_of [] (ok r) = refl
conclude-end_of (p ∷ ps) err = rw (ne→==_false (suc (length ps)) 0 (omega arith)) refl
conclude-end_of (p ∷ ps) (ok r) =
    let e : 0 + suc (length ps) ≡ suc (length ps) = omega arith in
    rw (e, ne→==_false (suc (length ps)) 0 (omega arith)) refl

module _ (format : JournalFormat) where
  -- A frame: its header, its payload and its checksum.
  unfoldable pub encode_frame : List ℕ → List ℕ
  encode_frame payload =
      let header = frame_header (length payload) in
      header ++ (payload ++ frame_digest format header payload)

  unfoldable pub encode_frames : List (List ℕ) → List ℕ → List ℕ
  encode_frames [] tail = tail
  encode_frames (p ∷ ps) tail = encode_frame p ++ encode_frames ps tail

  -- What the frames' deltas make of the receipts, one after another.
  abbrev pub replay : ℕ → List (List ℕ) → ReceiptMap → Result ReceiptMap
  replay frames [] receipts = ok receipts
  replay frames (p ∷ ps) receipts = do
    receipts' ← apply_frame format frames p receipts
    replay (suc frames) ps receipts'

  read_frame-header :
      (h x : List ℕ) (n : ℕ)
      → length h ≡ 16
      → from_le_bytes (take h 8) ≡ n
      → from_le_bytes (drop h 8) ≡ u64_not n
      → n + 48 ≤ u64_max
      → read_frame format (h ++ x) ≡ (
          if ltb (length (h ++ x)) (n + 48)
          then stop
          else if same_bytes (frame_digest format h (take x n)) (take (drop x n) 32)
          then frame (take x n) (drop x (n + 32))
          else corrupt)
  unfolding read_frame
  read_frame-header h x n size number inverted le =
      let e1 : take (h ++ x) 16 ≡ h = take-append h x 16 size in
      let e2 : drop (h ++ x) 16 ≡ x = drop-append h x 16 size in
      let e7 : u64_not (u64_not n) ≡ n = omega (arith, le) in
      let e8 : ltb (length (h ++ x)) 16 ≡ false =
        le→ltb_false _ _ (omega (arith, length-append h x, size)) in
      let e9 : ltb u64_max (n + 48) ≡ false = le→ltb_false _ _ le in
      let e10 : drop (h ++ x) (16 + n) ≡ drop x n =
        drop-drop (h ++ x) 16 n ∙ ap (λ (l : List ℕ). drop l n) e2 in
      let e11 : drop (h ++ x) (n + 48) ≡ drop x (n + 32) =
        ap (λ (k : ℕ). drop (h ++ x) k) (omega arith)
        ∙ drop-drop (h ++ x) 16 (n + 32)
        ∙ ap (λ (l : List ℕ). drop l (n + 32)) e2 in
      rw (read_frame, e1, number, inverted, e7, e8, eq→== n n refl, e9, e10, e11, e2) refl

  read_frame-short : (x : List ℕ) → ltb (length x) 16 ≡ true → read_frame format x ≡ stop
  unfolding read_frame
  read_frame-short x few = rw (read_frame, few) refl

  -- A frame that is there as a whole, and one that is cut short.
  module _ (digest_size : (bytes : List ℕ) → length (format.blake3 bytes) ≡ 32) where
    length-frame_digest : (h p : List ℕ) → length (frame_digest format h p) ≡ 32
    unfolding frame_digest
    length-frame_digest h p = digest_size _

    read_frame-encode_frame :
        (p rest : List ℕ) → Fits p → read_frame format (encode_frame p ++ rest) ≡ frame p rest
    unfolding encode_frame
    read_frame-encode_frame p rest fits =
        let n = length p in
        let h = frame_header n in
        let d = frame_digest format h p in
        let x = p ++ (d ++ rest) in
        let shape : encode_frame p ++ rest ≡ h ++ x =
          append_assoc h (p ++ d) rest ∙ ap (λ (l : List ℕ). h ++ l) (append_assoc p d rest) in
        let e1 : take x n ≡ p = take-append p _ n refl in
        let e2 : drop x n ≡ d ++ rest = drop-append p _ n refl in
        let e3 : take (d ++ rest) 32 ≡ d = take-append d rest 32 (length-frame_digest h p) in
        let e4 : drop x (n + 32) ≡ rest =
          drop-drop x n 32
          ∙ ap (λ (l : List ℕ). drop l 32) e2
          ∙ drop-append d rest 32 (length-frame_digest h p) in
        let e5 : ltb (length (h ++ x)) (n + 48) ≡ false = le→ltb_false _ _ (
          omega (
            arith,
            length-append h x,
            length-append p (d ++ rest),
            length-append d rest,
            length-frame_digest h p,
            length-frame_header n,
          )) in
        let e0 =
          read_frame-header h x n (length-frame_header n) (length-of_header n (omega (arith, fits)))
            (inverted-of_header n) fits in
        let e6 : same_bytes (frame_digest format h (take x n)) (take (drop x n) 32) ≡ true =
          rw (e1, e2, e3) (same_bytes_refl d) in
        ap (read_frame format) shape ∙ e0 ∙ rw (e5, e6, e1, e4) refl

    read_frame-torn :
        (p : List ℕ) (k : ℕ)
        → Fits p
        → k < length (encode_frame p)
        → read_frame format (take (encode_frame p) k) ≡ stop
    unfolding encode_frame
    read_frame-torn p k fits short =
        let n = length p in
        let h = frame_header n in
        let y = p ++ frame_digest format h p in
        let size : length (encode_frame p) ≡ 16 + (n + 32) = omega (
          arith,
          length-append h y,
          length-append p (frame_digest format h p),
          length-frame_digest h p,
          length-frame_header n,
        ) in
        let kept : length (take (encode_frame p) k) ≡ k =
          length-take (encode_frame p) k (omega (arith, short)) in
        elim (Bool-cases (ltb k 16)) [
          | inl few ↦ read_frame-short (take (encode_frame p) k) (rw kept few)
          | inr more ↦
              let enough = ltb_false→le k 16 more in
              let j = k - 16 in
              let split : k ≡ 16 + j = omega (arith, enough) in
              let cut : take (encode_frame p) k ≡ h ++ take y j =
                ap (λ (m : ℕ). take (encode_frame p) m) split
                ∙ take-over h y 16 j (length-frame_header n) in
              let e0 =
                read_frame-header h (take y j) n (length-frame_header n)
                  (length-of_header n (omega (arith, fits))) (inverted-of_header n) fits in
              let lacking : ltb (length (h ++ take y j)) (n + 48) ≡ true = lt→ltb _ _ (
                subst (λ (l : List ℕ). length l < n + 48) cut (omega (arith, kept, size, short))) in
              ap (read_frame format) cut ∙ e0 ∙ rw lacking refl
        ]

    encode_frame-has_bytes : (p : List ℕ) → 1 ≤ length (encode_frame p)
    unfolding encode_frame
    encode_frame-has_bytes p = omega (
      arith,
      length-append (frame_header (length p))
          (p ++ frame_digest format (frame_header (length p)) p),
      length-frame_header (length p),
    )

    length-encode_frames :
        (ps : List (List ℕ)) (tail : List ℕ) → length ps ≤ length (encode_frames ps tail)
    unfolding encode_frames
    length-encode_frames [] tail = omega arith
    length-encode_frames (p ∷ ps) tail = omega (
      arith,
      length-append (encode_frame p) (encode_frames ps tail),
      encode_frame-has_bytes p,
      length-encode_frames ps tail,
    )

    read_frames-encode_frames :
        (rounds : ℕ) (ps : List (List ℕ)) (tail : List ℕ) (frames : ℕ) (receipts : ReceiptMap)
        → AllFit ps
        → read_frame format tail ≡ stop
        → length ps ≤ rounds
        → read_frames format (suc rounds) (encode_frames ps tail) frames receipts
          ≡ end_of (frames + length ps) (replay frames ps receipts)
    unfolding encode_frames read_frames round
    read_frames-encode_frames rounds [] tail frames receipts fit ends le =
        let e : frames + 0 ≡ frames = omega arith in rw (read_frames, round, ends, e) refl
    read_frames-encode_frames zero (p ∷ ps) tail frames receipts fit ends le = ground (arith, le)
    read_frames-encode_frames (suc rounds) (p ∷ ps) tail frames receipts (fits, fit) ends le =
        let e = read_frame-encode_frame p (encode_frames ps tail) fits in
        let count : frames + suc (length ps) ≡ suc frames + length ps = omega arith in
        elim (Result-cases (apply_frame format frames p receipts)) [
          | inl bad ↦ rw (read_frames, round, e, bad) refl
          | inr (receipts', good) ↦
              let ih =
                read_frames-encode_frames rounds ps tail (suc frames) receipts' fit ends
                  (omega (arith, le)) in
              rw (read_frames, round, e, good, count) ih
        ]

    -- A journal of frames, with the beginning of one more frame at its end, reads as what the deltas
    -- of its complete frames make of no receipts; one with no complete frame is refused.
    pub parse_journal-encode_frames :
        (ps : List (List ℕ)) (torn : List ℕ) (k : ℕ)
        → AllFit ps
        → Fits torn
        → k < length (encode_frame torn)
        → parse_journal format (journal_magic ++ encode_frames ps (take (encode_frame torn) k))
          ≡ (ensure (not (length ps == 0)) >> replay 0 ps [])
    unfolding parse_journal
    parse_journal-encode_frames ps torn k fit fits short =
        let tail = take (encode_frame torn) k in
        let body = encode_frames ps tail in
        let rounds = length (journal_magic ++ body) in
        let enough : length ps ≤ rounds =
          omega (arith, length-append journal_magic body, length-encode_frames ps tail) in
        let e =
          read_frames-encode_frames rounds ps tail 0 [] fit (read_frame-torn torn k fits short)
            enough in
        ap conclude e ∙ conclude-end_of ps (replay 0 ps [])

-- ===== src/Receipts/View.antt =====
-- permanode/src/receipts.rs, `parse_journal`: the receipts of a journal as a function from txids, and
-- what each frame does to the value at one of them.
use gb_parano1d_permanode.Prelude.{
  ℕ, suc, ◌<◌, ◌≡◌, ◌++◌, length, take, refl, sym, ap, subst, ◌∙◌, Bool, true, false, not, ◌||◌,
  Option, none, some, String, List, [], ◌∷◌, ◌==◌, str_eq, eq_iff, if◌then◌else◌, any, Bool-cases,
  Option-cases, inl, inr,
}
use Prim.Native.String
use text.Mathlib.Text.{is_lt}
use gb_parano1d_permanode.Prelude.Equations.{eq-of_str_eq}
use gb_parano1d_permanode.Prelude.Result.{ok, err, ◌>>◌, ensure, ensure-eq, bind-eq}
use gb_parano1d_permanode.Prelude.Words.{to_ascii_lowercase}
use gb_parano1d_permanode.Receipts.Journal.{
  insert, remove, ReceiptMap, JournalDelta, JournalFormat, is_txid, apply_changes, apply_frame,
  journal_magic, parse_journal,
}
use gb_parano1d_permanode.Receipts.Replay.{
  Fits, AllFit, encode_frame, encode_frames, replay, parse_journal-encode_frames,
}

-- `BTreeMap::get`
abbrev pub lookup {ℓ} : {V : Type ℓ} → String → List (String × V) → Option V
lookup key [] = none
lookup key ((k, v) ∷ rest) = if str_eq key k then some v else lookup key rest

not-true : (b : Bool) → not b ≡ true → b ≡ false
not-true true e = sym e
not-true false e = refl

apart_from : (key k k' : String) → str_eq key k' ≡ true → str_eq k k' ≡ false → str_eq key k ≡ false
apart_from key k k' hit other = elim (Bool-cases (str_eq key k)) [
  | inr miss ↦ miss
  | inl same ↦
      let eq = sym (eq-of_str_eq key k same) ∙ eq-of_str_eq key k' hit in
      let no : true ≡ false = sym ((eq_iff k k').1 eq) ∙ other in cc
]

module _ {V : Type 0} where
  lookup-insert :
      (key k : String) (value : V) (m : List (String × V))
      → lookup key (insert k value m) ≡ (if str_eq key k then some value else lookup key m)
  lookup-insert key k value [] = refl
  lookup-insert key k value ((k', v) ∷ rest) = elim (Bool-cases (str_eq k k')) [
    | inl same ↦
        let eq = eq-of_str_eq k k' same in
        elim (Bool-cases (str_eq key k)) [
          | inl hit ↦ rw (same, hit) refl
          | inr miss ↦
              let miss' : str_eq key k' ≡ false =
                subst (λ (s : String). str_eq key s ≡ false) eq miss in
              rw (same, miss, miss') refl
        ]
    | inr other ↦ elim (Bool-cases (is_lt (String.compare k k'))) [
      | inl before ↦ rw (other, before) refl
      | inr later ↦ elim (Bool-cases (str_eq key k')) [
        | inr miss ↦ rw (other, later, miss) (lookup-insert key k value rest)
        | inl hit ↦
            let apart : str_eq key k ≡ false = apart_from key k k' hit other in
            rw (other, later, hit, apart) refl
      ]
    ]
  ]

  lookup-remove :
      (key k : String) (m : List (String × V))
      → lookup key (remove k m) ≡ (if str_eq key k then none else lookup key m)
  lookup-remove key k [] = elim (Bool-cases (str_eq key k)) [
    | inl hit ↦ rw hit refl
    | inr miss ↦ rw miss refl
  ]
  lookup-remove key k ((k', v) ∷ rest) =
      let ih = lookup-remove key k rest in
      elim (Bool-cases (str_eq k k')) [
        | inl same ↦
            let eq = eq-of_str_eq k k' same in
            elim (Bool-cases (str_eq key k)) [
              | inl hit ↦ rw (same, hit) (rw hit at ih)
              | inr miss ↦
                  let miss' : str_eq key k' ≡ false =
                    subst (λ (s : String). str_eq key s ≡ false) eq miss in
                  rw (same, miss, miss') (rw miss at ih)
            ]
        | inr other ↦ elim (Bool-cases (str_eq key k')) [
          | inl hit ↦ rw (other, hit, apart_from key k k' hit other) refl
          | inr miss ↦ rw (other, miss) ih
        ]
      ]

-- What a delta says of a txid: the value of the change for it, if there is one.
abbrev pub change_of : String → List (String × Option String) → Option (Option String)
change_of key [] = none
change_of key ((raw_key, value) ∷ changes) =
    if str_eq key (to_ascii_lowercase raw_key) then some value else change_of key changes

-- The value of a change, or the one before.
abbrev pub over : Option (Option String) → Option String → Option String
over none old = old
over (some value) old = value

-- The value at a txid after a delta.
abbrev pub after_delta : String → JournalDelta → Option String → Option String
after_delta key delta old = over (change_of key delta.changes) (if delta.reset then none else old)

-- What one change makes of the map.
abbrev put_change : String → Option String → ReceiptMap → ReceiptMap
put_change key none m = remove key m
put_change key (some hex) m = insert key hex m

lookup-put_change :
    (key k : String) (value : Option String) (m : ReceiptMap)
    → lookup key (put_change k value m) ≡ (if str_eq key k then value else lookup key m)
lookup-put_change key k none m = lookup-remove key k m
lookup-put_change key k (some hex) m = lookup-insert key k hex m

-- A change that goes through, for a key that was not met before.
apply_changes-cons :
    (reset : Bool) (seen : List String) (raw_key : String) (value : Option String)
    (changes : List (String × Option String)) (m m' : ReceiptMap)
    → apply_changes reset seen ((raw_key, value) ∷ changes) m ≡ ok m'
    → (any (str_eq (to_ascii_lowercase raw_key)) seen ≡ false)
      × (apply_changes reset
            (to_ascii_lowercase raw_key ∷ seen)
            changes
            (put_change (to_ascii_lowercase raw_key) value m)
          ≡ ok m')
unfolding apply_changes
apply_changes-cons reset seen raw_key (some hex) changes m m' e =
    let key = to_ascii_lowercase raw_key in
    let (txid, e1) = ensure-eq (is_txid key) _ m' e in
    let (new, e2) = ensure-eq (not (any (str_eq key) seen)) _ m' e1 in (not-true _ new, e2)
apply_changes-cons reset seen raw_key none changes m m' e =
    let key = to_ascii_lowercase raw_key in
    let (txid, e1) = ensure-eq (is_txid key) _ m' e in
    let (new, e2) = ensure-eq (not (any (str_eq key) seen)) _ m' e1 in
    let (kept, e3) = ensure-eq (not reset) _ m' e2 in (not-true _ new, e3)

-- No later change is for a key that was met.
met_no_change :
    (reset : Bool) (key : String) (seen : List String) (changes : List (String × Option String))
    (m m' : ReceiptMap)
    → any (str_eq key) seen ≡ true
    → apply_changes reset seen changes m ≡ ok m'
    → change_of key changes ≡ none
met_no_change reset key seen [] m m' met e = refl
met_no_change reset key seen ((raw_key, value) ∷ changes) m m' met e =
    let (new, rest) = apply_changes-cons reset seen raw_key value changes m m' e in
    let k = to_ascii_lowercase raw_key in
    elim (Bool-cases (str_eq key k)) [
      | inl same ↦
          let eq = eq-of_str_eq key k same in
          let no : true ≡ false =
            sym (subst (λ (s : String). any (str_eq s) seen ≡ true) eq met) ∙ new in
          cc
      | inr other ↦
          let met' : any (str_eq key) (k ∷ seen) ≡ true = rw other met in
          rw other (met_no_change reset key (k ∷ seen) changes _ m' met' rest)
    ]

apply_changes-lookup :
    (reset : Bool) (key : String) (seen : List String) (changes : List (String × Option String))
    (m m' : ReceiptMap)
    → apply_changes reset seen changes m ≡ ok m'
    → lookup key m' ≡ over (change_of key changes) (lookup key m)
unfolding apply_changes
apply_changes-lookup reset key seen [] m m' e = let same : m ≡ m' = cc in ap (lookup key) (sym same)
apply_changes-lookup reset key seen ((raw_key, value) ∷ changes) m m' e =
    let (new, rest) = apply_changes-cons reset seen raw_key value changes m m' e in
    let k = to_ascii_lowercase raw_key in
    let ih = apply_changes-lookup reset key (k ∷ seen) changes _ m' rest in
    elim (Bool-cases (str_eq key k)) [
      | inl same ↦
          let met : any (str_eq key) (k ∷ seen) ≡ true = rw same refl in
          let none_later = met_no_change reset key (k ∷ seen) changes _ m' met rest in
          let ih' : lookup key m' ≡ lookup key (put_change k value m) = rw none_later at ih in
          rw same (ih' ∙ lookup-put_change key k value m ∙ rw same refl)
      | inr other ↦
          let kept : lookup key (put_change k value m) ≡ lookup key m =
            lookup-put_change key k value m ∙ rw other refl in
          rw other (ih ∙ ap (over (change_of key changes)) kept)
    ]

at_start :
    (reset : Bool) (key : String) (m : ReceiptMap)
    → lookup key (if reset then [] else m) ≡ (if reset then none else lookup key m)
at_start true key m = refl
at_start false key m = refl

module _ (format : JournalFormat) where
  -- The value at a txid after the frames with some payloads.
  abbrev pub value_after : String → List (List ℕ) → Option String → Option String
  value_after key [] old = old
  value_after key (p ∷ ps) old =
      value_after key ps
        (elim (format.from_slice p) [ none ↦ old | some delta ↦ after_delta key delta old ])

  -- The map that a replay leaves is, at each txid, what the frames' deltas one after another make of
  -- the value there: the value of the change for it, else nothing after a snapshot, else the one
  -- before.
  pub replay-value_after :
      (frames : ℕ) (ps : List (List ℕ)) (m m' : ReceiptMap) (key : String)
      → replay format frames ps m ≡ ok m'
      → lookup key m' ≡ value_after key ps (lookup key m)
  unfolding apply_frame
  replay-value_after frames [] m m' key e = let same : m ≡ m' = cc in ap (lookup key) (sym same)
  replay-value_after frames (p ∷ ps) m m' key e =
      let (taken, first, rest) =
        bind-eq (apply_frame format frames p m) (λ r. replay format (suc frames) ps r) m' e in
      let ih = replay-value_after (suc frames) ps taken m' key rest in
      elim (Option-cases (format.from_slice p)) [
        | inl bad ↦ let e' : err ≡ ok taken = rw (apply_frame, bad) at first in cc
        | inr (delta, read) ↦
            let e1 : (ensure (not (frames == 0) || delta.reset)
                  >> apply_changes delta.reset [] delta.changes (if delta.reset then [] else m))
                ≡ ok taken =
              rw (apply_frame, read) at first in
            let (allowed, e2) = ensure-eq (not (frames == 0) || delta.reset) _ taken e1 in
            let step = apply_changes-lookup delta.reset key [] delta.changes _ taken e2 in
            let before : lookup key (if delta.reset then [] else m)
                ≡ (if delta.reset then none else lookup key m) =
              at_start delta.reset key m in
            rw read
              (ih ∙ ap (value_after key ps) (step ∙ ap (over (change_of key delta.changes)) before))
      ]

-- The map that a journal reads as is, at each txid, what the deltas of its complete frames make of
-- nothing, one after another: the value of the last change for the txid since the last snapshot.
pub parse_journal-value_after :
    (format : JournalFormat) (ps : List (List ℕ)) (torn : List ℕ) (k : ℕ) (m : ReceiptMap)
    (key : String)
    → ((bytes : List ℕ) → length (format.blake3 bytes) ≡ 32)
    → AllFit ps
    → Fits torn
    → k < length (encode_frame format torn)
    → parse_journal format
        (journal_magic ++ encode_frames format ps (take (encode_frame format torn) k))
      ≡ ok m
    → lookup key m ≡ value_after format key ps none
parse_journal-value_after format ps torn k m key digest_size fit fits short e =
    let read = sym (parse_journal-encode_frames format digest_size ps torn k fit fits short) ∙ e in
    let (some_frame, replayed) = ensure-eq (not (length ps == 0)) (replay format 0 ps []) m read in
    replay-value_after format 0 ps [] m key replayed

-- ===== src/Receipts/Journal.antt =====
-- permanode/src/receipts.rs, `parse_journal`: the frames of a wallet's receipt journal and the
-- changes they make to its map from txids to receipts. The hash of the frames and the JSON reader are
-- parameters. A `BTreeMap` is the list of its entries in the order of their keys.
use gb_parano1d_permanode.Prelude.{
  ℕ, zero, suc, ◌+◌, Bool, not, ◌&&◌, ◌||◌, Option, none, some, String, List, [], ◌∷◌, ◌++◌, ◌==◌,
  ltb, str_eq, if◌then◌else◌, length, take, drop, any, retain, codes,
}
use Prim.Native.String
use gb_parano1d_permanode.Prelude.Result.{Result, ok, err, ◌>>◌, ensure}
use gb_parano1d_permanode.Prelude.Words.{
  to_ascii_lowercase, all_hex_digits, prefix_of, same_bytes, from_le_bytes, u64_max, u64_not,
}
use text.Mathlib.Text.{is_lt}

-- `BTreeMap::insert`
abbrev pub insert {ℓ} : {V : Type ℓ} → String → V → List (String × V) → List (String × V)
insert key value [] = (key, value) ∷ []
insert key value ((k, v) ∷ rest) =
    let rest' = insert key value rest in
    if str_eq key k
    then (key, value) ∷ rest
    else if is_lt (String.compare key k)
    then (key, value) ∷ (k, v) ∷ rest
    else (k, v) ∷ rest'

-- `BTreeMap::remove`
abbrev pub remove {ℓ} : {V : Type ℓ} → String → List (String × V) → List (String × V)
remove key = retain (λ entry. not (str_eq key entry.0))

abbrev pub ReceiptMap : Type 0
ReceiptMap = List (String × String)

pub record JournalDelta : Type 0 where
  pub reset : Bool
  pub changes : List (String × Option String)

-- `blake3::Hasher` over the bytes of its updates, and `serde_json::from_slice` to a delta.
pub record JournalFormat : Type 0 where
  pub blake3 : List ℕ → List ℕ
  pub from_slice : List ℕ → Option JournalDelta

abbrev pub journal_magic : List ℕ
journal_magic = codes "NOIDRCJ1"

abbrev journal_frame_domain : List ℕ
journal_frame_domain = codes "NOID/local-wallet-journal/frame/v1"

abbrev pub frame_header_bytes : ℕ
frame_header_bytes = 16

abbrev pub frame_digest_bytes : ℕ
frame_digest_bytes = 32

-- What the bytes from a position on begin with: `stop` leaves the loop.
pub data Frame : Type 0 where
  stop corrupt : Frame
  frame : List ℕ → List ℕ → Frame

abbrev pub is_txid : String → Bool
is_txid key = (String.count key == 64) && all_hex_digits key

-- The loop over the changes of a delta; `seen` are the keys it met.
unfoldable pub apply_changes :
    Bool → List String → List (String × Option String) → ReceiptMap → Result ReceiptMap
apply_changes reset seen [] receipts = ok receipts
apply_changes reset seen ((raw_key, some hex) ∷ changes) receipts = do
  let key = to_ascii_lowercase raw_key
  ensure (is_txid key)
  ensure (not (any (str_eq key) seen))
  apply_changes reset (key ∷ seen) changes (insert key hex receipts)
apply_changes reset seen ((raw_key, none) ∷ changes) receipts = do
  let key = to_ascii_lowercase raw_key
  ensure (is_txid key)
  ensure (not (any (str_eq key) seen))
  ensure (not reset)
  apply_changes reset (key ∷ seen) changes (remove key receipts)

-- Where the loop is after some rounds: `running` has the bytes that are left, the number of frames
-- read and the receipts.
pub data JournalState : Type 0 where
  running : List ℕ → ℕ → ReceiptMap → JournalState
  finished : ℕ → ReceiptMap → JournalState
  broken : JournalState

-- After the loop.
abbrev pub conclude : JournalState → Result ReceiptMap
conclude (running rest frames receipts) = err
conclude (finished zero receipts) = err
conclude (finished (suc frames) receipts) = ok receipts
conclude broken = err

module _ (format : JournalFormat) where
  -- The checksum of a frame.
  unfoldable pub frame_digest : List ℕ → List ℕ → List ℕ
  frame_digest header payload =
      format.blake3 (journal_frame_domain ++ (journal_magic ++ (header ++ payload)))

  -- One round of the loop on the bytes that are left.
  unfoldable pub read_frame : List ℕ → Frame
  unfolding frame_digest
  read_frame rest =
      let header = take rest frame_header_bytes in
      let length' = from_le_bytes (take header 8) in
      let inverted = from_le_bytes (drop header 8) in
      let frame_len = length' + (frame_header_bytes + frame_digest_bytes) in
      let payload = take (drop rest frame_header_bytes) length' in
      let digest = take (drop rest (frame_header_bytes + length')) frame_digest_bytes in
      if ltb (length rest) frame_header_bytes
      then stop
      else if not (length' == u64_not inverted)
      then corrupt
      else if ltb u64_max frame_len
      then corrupt
      else if ltb (length rest) frame_len
      then stop
      else if same_bytes (frame_digest header payload) digest
      then frame payload (drop rest frame_len)
      else corrupt

  -- A frame's delta, on the receipts of the frames before it.
  unfoldable pub apply_frame : ℕ → List ℕ → ReceiptMap → Result ReceiptMap
  apply_frame frames payload receipts = elim (format.from_slice payload) [
    | none ↦ err
    | some delta ↦ do
      ensure (not (frames == 0) || delta.reset)
      apply_changes delta.reset [] delta.changes (if delta.reset then [] else receipts)
  ]

  unfoldable pub round : List ℕ → ℕ → ReceiptMap → JournalState
  unfolding read_frame apply_frame
  round rest frames receipts = elim (read_frame rest) [
    | stop ↦ finished frames receipts
    | corrupt ↦ broken
    | frame payload after ↦ elim (apply_frame frames payload receipts) [
      | err ↦ broken
      | ok receipts' ↦ running after (suc frames) receipts'
    ]
  ]

  -- `while`, for at most so many rounds.
  unfoldable pub read_frames : ℕ → List ℕ → ℕ → ReceiptMap → JournalState
  unfolding round
  read_frames zero rest frames receipts = running rest frames receipts
  read_frames (suc rounds) rest frames receipts = elim (round rest frames receipts) [
    | running rest' frames' receipts' ↦ read_frames rounds rest' frames' receipts'
    | finished frames' receipts' ↦ finished frames' receipts'
    | broken ↦ broken
  ]

  -- A frame takes a byte and more, so the loop has no more rounds than there are bytes.
  unfoldable pub parse_journal : List ℕ → Result ReceiptMap
  unfolding read_frames
  parse_journal bytes = do
    ensure (prefix_of journal_magic bytes)
    conclude (read_frames (suc (length bytes)) (drop bytes (length journal_magic)) 0 [])

-- ===== src/Receipts/Import.antt =====
-- permanode/src/receipts.rs, `import_receipts`: what becomes of each receipt, and the database after
-- it. The node's answers are a parameter; a database transaction that fails leaves no trace.
use gb_parano1d_permanode.Prelude.{
  ℕ, suc, Bool, true, false, not, ◌&&◌, ◌||◌, Option, none, some, String, List, [], ◌∷◌, ◌==◌,
  str_eq, if◌then◌else◌, any,
}
use gb_parano1d_permanode.Prelude.Result.{Result, ok, err}
use gb_parano1d_permanode.Store.Rows.{TransactionRow, Database}
use gb_parano1d_permanode.Store.Blocks.{canonical_hash_at, block_by_id, is_archived}
use gb_parano1d_permanode.Store.Receipts.{insert_receipt_transaction}
use gb_parano1d_permanode.Receipts.Decode.{
  SummaryInput, SummaryOutput, AuthenticatedSummary, ReceiptVerdict, ReceiptFormat, DecodedReceipt,
  decode_receipt,
}

pub record ReceiptEntry : Type 0 where
  pub origin : String
  pub key : Option String
  pub hex : String

-- `rejected` carries the reason in the source, for the report.
pub data Outcome : Type 0 where
  imported already_imported duplicate in_gap no_header rejected : Outcome
  archived : Bool → Outcome

pub record EntryResult : Type 0 where
  pub entry : ReceiptEntry
  pub decoded : Option DecodedReceipt
  pub outcome : Outcome

pub record CanonicalBlock : Type 0 where
  pub id : ℕ
  pub hash : String
  pub tx_root : String
  pub timestamp : ℕ
  pub body_captured : Bool
  pub header_only : Bool

-- The row that the id is of is on record (a foreign key).
unfoldable pub canonical_block_at : Database → ℕ → Option CanonicalBlock
unfolding canonical_hash_at block_by_id
canonical_block_at db height = elim (canonical_hash_at db height) [
  | none ↦ none
  | some (id, hash) ↦ elim (block_by_id db id) [
    | none ↦ none
    | some b ↦ some (record {
      id = id;
      hash = hash;
      tx_root = b.tx_root;
      timestamp = b.timestamp;
      body_captured = b.body_captured;
      header_only = not (is_archived b);
    })
  ]
]

-- The derived equality of the summaries.
abbrev pub same_inputs : List SummaryInput → List SummaryInput → Bool
same_inputs [] [] = true
same_inputs [] (b ∷ bs) = false
same_inputs (a ∷ rest) [] = false
same_inputs (a ∷ rest) (b ∷ bs) =
    (a.slot_index == b.slot_index) && str_eq a.owner b.owner && same_inputs rest bs

abbrev pub same_outputs : List SummaryOutput → List SummaryOutput → Bool
same_outputs [] [] = true
same_outputs [] (b ∷ bs) = false
same_outputs (a ∷ rest) [] = false
same_outputs (a ∷ rest) (b ∷ bs) =
    (a.slot_index == b.slot_index)
    && (a.amount_micronoid == b.amount_micronoid)
    && str_eq a.owner b.owner
    && same_outputs rest bs

abbrev pub same_summary : AuthenticatedSummary → AuthenticatedSummary → Bool
same_summary a b =
    str_eq a.txid b.txid
    && (a.claimed_height == b.claimed_height)
    && (a.confirmed_unix == b.confirmed_unix)
    && (a.tx_index == b.tx_index)
    && (a.tx_count == b.tx_count)
    && (a.fee_micronoid == b.fee_micronoid)
    && same_inputs a.inputs b.inputs
    && same_outputs a.outputs b.outputs

-- The receipt is filed under another txid than its own.
abbrev pub is_misfiled : Option String → String → Bool
is_misfiled none txid = false
is_misfiled (some key) txid = not (str_eq key txid)

abbrev pub is_some_true : Option Bool → Bool
is_some_true none = false
is_some_true (some b) = b

-- What the node's verdict has to be.
abbrev pub authenticates : ReceiptVerdict → AuthenticatedSummary → Bool
authenticates verdict summary =
    if not verdict.merkle_valid
    then false
    else if not (is_some_true verdict.canonical)
    then false
    else elim verdict.authenticated_summary [
      | none ↦ false
      | some theirs ↦ same_summary theirs summary
    ]

-- `SELECT COUNT(*) > 0 FROM transactions WHERE block_id = ?1 AND txid = ?2`
abbrev pub holds_tx : Database → ℕ → String → Bool
holds_tx db block txid =
    any (λ (t : TransactionRow). (t.block_id == block) && str_eq t.txid txid) db.transactions

-- The last part of `import_one`: the header on record and the write.
unfoldable pub complete_block : Database → CanonicalBlock → DecodedReceipt → ℕ → Database × Outcome
unfolding insert_receipt_transaction
complete_block db block d now =
    if not block.header_only
    then if not block.body_captured
      then (db, in_gap)
      else (db, archived (holds_tx db block.id d.tx.txid))
    else if not (str_eq block.tx_root d.tx_root) || not (block.timestamp == d.timestamp)
    then (db, rejected)
    else elim (insert_receipt_transaction db block.id d.tx now) [
      | err ↦ (db, rejected)
      | ok (db', written) ↦ (db', if written then imported else already_imported)
    ]

-- The derived equality of `(key, hex)`.
abbrev pub same_key : Option String → Option String → Bool
same_key none none = true
same_key none (some b) = false
same_key (some a) none = false
same_key (some a) (some b) = str_eq a b

abbrev pub same_entry : ReceiptEntry → ReceiptEntry → Bool
same_entry a b = same_key a.key b.key && str_eq a.hex b.hex

module _ (verify : String → Result ReceiptVerdict) where
  unfoldable pub import_one : Database → ReceiptEntry → DecodedReceipt → ℕ → Database × Outcome
  unfolding complete_block canonical_block_at
  import_one db entry d now =
      if is_misfiled entry.key d.tx.txid then (db, rejected) else elim (verify entry.hex) [
        | err ↦ (db, rejected)
        | ok verdict ↦
            if not (authenticates verdict d.summary)
            then (db, rejected)
            else elim (canonical_block_at db d.height) [
              | none ↦ (db, no_header)
              | some block ↦ complete_block db block d now
            ]
      ]

  module _ (format : ReceiptFormat) where
    -- An entry that no earlier one is the same as.
    unfoldable pub import_entry : Database → ReceiptEntry → ℕ → Database × EntryResult
    unfolding import_one decode_receipt
    import_entry db entry now = elim (decode_receipt format entry.hex) [
      | err ↦ (db, record { entry = entry; decoded = none; outcome = rejected })
      | ok d ↦
          let (db', outcome) = import_one db entry d now in
          (db', record { entry = entry; decoded = some d; outcome = outcome })
    ]

    -- The loop over the entries, after those of `seen`.
    unfoldable pub import_receipts :
        Database → List ReceiptEntry → List ReceiptEntry → ℕ → Database × List EntryResult
    unfolding import_entry
    import_receipts db seen [] now = (db, [])
    import_receipts db seen (entry ∷ entries) now =
        if any (same_entry entry) seen
        then (let (db', results) = import_receipts db seen entries (suc now) in
            (db', (record { entry = entry; decoded = none; outcome = duplicate }) ∷ results))
        else (let (next, result) = import_entry db entry now in
            let (db', results) = import_receipts next (entry ∷ seen) entries (suc now) in
            (db', result ∷ results))

-- ===== src/Store/Receipts.antt =====
-- core/src/db.rs, `insert_receipt_transaction`: a transaction proven by a payment receipt enters a
-- header-only block. Its row has a new id, so its parts are new rows too.
use gb_parano1d_permanode.Prelude.{
  ℕ, suc, Bool, true, false, not, ◌&&◌, Option, none, some, String, List, [], ◌∷◌, ◌==◌, ltb,
  str_eq, find, if◌then◌else◌,
}
use gb_parano1d_permanode.Prelude.Result.{Result, ok, err, ◌>>◌, ensure}
use gb_parano1d_permanode.Store.Rows.{
  BlockRow, TransactionRow, PageHashRow, InputRow, OutputRow, Database, update_where, next_id,
}
use gb_parano1d_permanode.Store.Blocks.{has_id, block_by_id, is_header_only}
use gb_parano1d_permanode.Store.Bodies.{is_tx}

abbrev pub receipt_source : String
receipt_source = "receipt"

-- `RECORDED`: `source IS NOT 'receipt'`, true for NULL.
abbrev pub is_recorded : TransactionRow → Bool
is_recorded t = elim t.source [ none ↦ true | some source ↦ not (str_eq source receipt_source) ]

pub record ReceiptInput : Type 0 where
  pub page : ℕ
  pub lane : ℕ
  pub slot_index : ℕ
  pub amount_micronoid : ℕ
  pub creation_id : ℕ

pub record ReceiptOutput : Type 0 where
  pub page : ℕ
  pub lane : ℕ
  pub slot_index : ℕ
  pub amount_micronoid : ℕ
  pub owner : String

pub record ReceiptTransaction : Type 0 where
  pub position : ℕ
  pub tx_count : ℕ
  pub txid : String
  pub page_count : ℕ
  pub fee_micronoid : ℕ
  pub epoch_anchor : String
  pub input_owner : String
  pub input_sum_micronoid : String
  pub output_sum_micronoid : String
  pub contract_flags : ℕ
  pub page_hashes : List String
  pub inputs : List ReceiptInput
  pub outputs : List ReceiptOutput
  pub receipt_hex : String

abbrev add_page_hashes : ℕ → ℕ → List String → List PageHashRow → List PageHashRow
add_page_hashes tx idx [] rows = rows
add_page_hashes tx idx (hash ∷ hashes) rows =
    add_page_hashes tx (suc idx) hashes
      ((record { tx_id = tx; idx = idx; page_hash = hash }) ∷ rows)

abbrev add_inputs : ℕ → ℕ → List ReceiptInput → List InputRow → List InputRow
add_inputs tx idx [] rows = rows
add_inputs tx idx (i ∷ is) rows = add_inputs tx (suc idx) is (
    (record {
      tx_id = tx;
      idx = idx;
      page = i.page;
      lane = i.lane;
      slot_index = i.slot_index;
      amount_micronoid = i.amount_micronoid;
      creation_id = i.creation_id;
    })
    ∷ rows)

abbrev add_outputs : ℕ → ℕ → List ReceiptOutput → List OutputRow → List OutputRow
add_outputs tx idx [] rows = rows
add_outputs tx idx (o ∷ os) rows = add_outputs tx (suc idx) os (
    (record {
      tx_id = tx;
      idx = idx;
      page = o.page;
      lane = o.lane;
      slot_index = o.slot_index;
      amount_micronoid = o.amount_micronoid;
      owner = o.owner;
      creation_id = none;
      spent_in_gap = false;
      spent_in_gap_at = none;
    })
    ∷ rows)

abbrev pub receipt_row : ℕ → ReceiptTransaction → ℕ → TransactionRow
receipt_row block tx id = record {
  id = id;
  block_id = block;
  position = tx.position;
  txid = tx.txid;
  page_count = tx.page_count;
  fee_micronoid = tx.fee_micronoid;
  coinbase = false;
  development_payout = false;
  epoch_anchor = tx.epoch_anchor;
  input_owner = some tx.input_owner;
  input_sum_micronoid = tx.input_sum_micronoid;
  output_sum_micronoid = tx.output_sum_micronoid;
  contract_flags = tx.contract_flags;
  source = some receipt_source;
}

-- The writes for a transaction that is accepted.
unfoldable pub write_receipt : Database → ℕ → ReceiptTransaction → ℕ → Database
write_receipt db block tx now =
    let id = next_id (λ (t : TransactionRow). t.id) db.transactions in
    record db {
      transactions = receipt_row block tx id ∷ db.transactions;
      tx_page_hashes = add_page_hashes id 0 tx.page_hashes db.tx_page_hashes;
      tx_inputs = add_inputs id 0 tx.inputs db.tx_inputs;
      tx_outputs = add_outputs id 0 tx.outputs db.tx_outputs;
      tx_receipts =
          (record { tx_id = id; receipt_hex = tx.receipt_hex; imported_at = now }) ∷ db.tx_receipts;
      blocks =
          update_where (has_id block) (λ b. record b { tx_count_total = some tx.tx_count })
            db.blocks;
    }

-- No earlier receipt of the block names another number of transactions.
abbrev pub count_agrees : Option BlockRow → ℕ → Bool
count_agrees none n = false
count_agrees (some b) n = elim b.tx_count_total [ none ↦ true | some known ↦ known == n ]

abbrev pub is_from_receipt : TransactionRow → String → Bool
is_from_receipt t txid =
    str_eq t.txid txid
    && (elim t.source [ none ↦ false | some source ↦ str_eq source receipt_source ])

-- The database afterwards, and whether the transaction was written.
unfoldable pub insert_receipt_transaction :
    Database → ℕ → ReceiptTransaction → ℕ → Result (Database × Bool)
unfolding is_header_only block_by_id write_receipt
insert_receipt_transaction db block tx now = do
  ensure (is_header_only db block)
  ensure (not (tx.position == 0) && ltb tx.position tx.tx_count)
  ensure (count_agrees (block_by_id db block) tx.tx_count)
  elim (find (is_tx block tx.position) db.transactions) [
    | none ↦ ok (write_receipt db block tx now, true)
    | some t ↦ if is_from_receipt t tx.txid then ok (db, false) else err
  ]

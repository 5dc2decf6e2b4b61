-- ===== src/Store/Bodies.antt =====
-- permanode/src/indexer.rs, `insert_transactions`, and core/src/db.rs: a block's transactions, their
-- contract flags, and the pruning of old bodies.
use gb_parano1d_permanode.Prelude.{
  ℕ, suc, Bool, true, false, ◌&&◌, not, Option, none, some, String, List, [], ◌∷◌, ◌==◌, ltb,
  if◌then◌else◌, any, find, is_some, retain, length, codes, contains_ignoring_case,
}
use mathlib.Core.Option
use mathlib.Core.List.{map}
use gb_parano1d_permanode.Store.Rows.{
  BlockRow, TransactionRow, PageHashRow, InputRow, OutputRow, Database, update_where,
  insert_or_ignore, next_id,
}
use gb_parano1d_permanode.Store.Blocks.{has_id, is_archived, block_id}

pub record BlockTransactionInputInfo : Type 0 where
  pub page : ℕ
  pub lane : ℕ
  pub slot_index : ℕ
  pub amount_micronoid : ℕ
  pub creation_id : ℕ

pub record BlockTransactionOutputInfo : Type 0 where
  pub page : ℕ
  pub lane : ℕ
  pub slot_index : ℕ
  pub amount_micronoid : ℕ
  pub owner : String
  pub creation_id : ℕ

pub record BlockTransactionInfo : Type 0 where
  pub position : ℕ
  pub txid : String
  pub page_count : ℕ
  pub live_inputs : ℕ
  pub live_outputs : ℕ
  pub fee_micronoid : ℕ
  pub coinbase : Bool
  pub development_payout : Bool
  pub epoch_anchor : String
  pub input_owner : Option String
  pub input_sum_micronoid : String
  pub output_sum_micronoid : String
  pub page_hashes : List String
  pub inputs : List BlockTransactionInputInfo
  pub outputs : List BlockTransactionOutputInfo

pub record RetainedBlockInfo : Type 0 where
  pub proof_class : String
  pub logical_transactions : ℕ
  pub user_pages : ℕ
  pub live_inputs : ℕ
  pub live_outputs : ℕ
  pub reward_micronoid : ℕ
  pub total_fees_micronoid : String
  pub block_bytes : ℕ
  pub transactions : List BlockTransactionInfo

-- `LIKE '%unavailable%'`
unfoldable pub is_unavailable : String → Bool
is_unavailable class = contains_ignoring_case (codes class) (codes "unavailable")

-- A known proof class stays where the new one is unavailable.
unfoldable pub merge_proof_class : Option String → String → Option String
merge_proof_class known class = if is_unavailable class && is_some known then known else some class

abbrev pub is_tx : ℕ → ℕ → TransactionRow → Bool
is_tx block position t = (t.block_id == block) && (t.position == position)

abbrev pub tx_row : ℕ → BlockTransactionInfo → ℕ → TransactionRow
tx_row block tx id = record {
  id = id;
  block_id = block;
  position = tx.position;
  txid = tx.txid;
  page_count = tx.page_count;
  fee_micronoid = tx.fee_micronoid;
  coinbase = tx.coinbase;
  development_payout = tx.development_payout;
  epoch_anchor = tx.epoch_anchor;
  input_owner = tx.input_owner;
  input_sum_micronoid = tx.input_sum_micronoid;
  output_sum_micronoid = tx.output_sum_micronoid;
  contract_flags = 0;
  source = none;
}

abbrev pub same_tx : TransactionRow → TransactionRow → Bool
same_tx a b = is_tx a.block_id a.position b

-- `for (idx, ph) in …enumerate()`, with `INSERT OR IGNORE` for each.
abbrev insert_page_hashes : ℕ → ℕ → List String → List PageHashRow → List PageHashRow
insert_page_hashes tx idx [] rows = rows
insert_page_hashes tx idx (ph ∷ phs) rows = insert_page_hashes tx (suc idx) phs (
    insert_or_ignore (λ a b. (a.tx_id == b.tx_id) && (a.idx == b.idx))
      (record { tx_id = tx; idx = idx; page_hash = ph }) rows)

abbrev insert_inputs : ℕ → ℕ → List BlockTransactionInputInfo → List InputRow → List InputRow
insert_inputs tx idx [] rows = rows
insert_inputs tx idx (i ∷ is) rows = insert_inputs tx (suc idx) is (
    insert_or_ignore (λ a b. (a.tx_id == b.tx_id) && (a.idx == b.idx))
      (record {
        tx_id = tx;
        idx = idx;
        page = i.page;
        lane = i.lane;
        slot_index = i.slot_index;
        amount_micronoid = i.amount_micronoid;
        creation_id = i.creation_id;
      })
      rows)

abbrev insert_outputs : ℕ → ℕ → List BlockTransactionOutputInfo → List OutputRow → List OutputRow
insert_outputs tx idx [] rows = rows
insert_outputs tx idx (o ∷ os) rows = insert_outputs tx (suc idx) os (
    insert_or_ignore (λ a b. (a.tx_id == b.tx_id) && (a.idx == b.idx))
      (record {
        tx_id = tx;
        idx = idx;
        page = o.page;
        lane = o.lane;
        slot_index = o.slot_index;
        amount_micronoid = o.amount_micronoid;
        owner = o.owner;
        creation_id = some o.creation_id;
        spent_in_gap = false;
        spent_in_gap_at = none;
      })
      rows)

-- The pages, inputs and outputs of the transaction row `id`.
unfoldable pub insert_parts : Database → ℕ → BlockTransactionInfo → Database
insert_parts db id tx = record db {
  tx_page_hashes = insert_page_hashes id 0 tx.page_hashes db.tx_page_hashes;
  tx_inputs = insert_inputs id 0 tx.inputs db.tx_inputs;
  tx_outputs = insert_outputs id 0 tx.outputs db.tx_outputs;
}

unfoldable pub tx_id_at : List TransactionRow → ℕ → ℕ → Option ℕ
tx_id_at rows block position =
    Option.map (λ (t : TransactionRow). t.id) (find (is_tx block position) rows)

-- The body of the loop over the transactions.
unfoldable pub insert_transaction : ℕ → Database → BlockTransactionInfo → Database
unfolding insert_parts tx_id_at
insert_transaction block db tx =
    let rows =
      insert_or_ignore same_tx
        (tx_row block tx (next_id (λ (t : TransactionRow). t.id) db.transactions))
        db.transactions in
    let db' = record db { transactions = rows } in
    elim (tx_id_at rows block tx.position) [ none ↦ db' | some id ↦ insert_parts db' id tx ]

unfoldable pub insert_each : ℕ → Database → List BlockTransactionInfo → Database
insert_each block db [] = db
insert_each block db (tx ∷ txs) = insert_each block (insert_transaction block db tx) txs

-- The `UPDATE` of the block's row.
unfoldable pub set_totals : Database → ℕ → RetainedBlockInfo → Database
unfolding merge_proof_class
set_totals db block retained = record db {
  blocks =
      update_where (has_id block)
        (λ b. record b {
          proof_class = merge_proof_class b.proof_class retained.proof_class;
          reward_micronoid = some retained.reward_micronoid;
          total_fees_micronoid = some retained.total_fees_micronoid;
        })
        db.blocks;
}

unfoldable pub insert_transactions : Database → ℕ → RetainedBlockInfo → Database
unfolding set_totals insert_each insert_transaction
insert_transactions db block retained =
    insert_each block (set_totals db block retained) retained.transactions

-- The loop over the flags.
abbrev pub set_flags : ℕ → List (ℕ × ℕ) → List TransactionRow → List TransactionRow
set_flags block [] rows = rows
set_flags block ((position, f) ∷ flags) rows =
    set_flags block flags
      (update_where (is_tx block position) (λ t. record t { contract_flags = f }) rows)

unfoldable pub set_contract_flags : Database → ℕ → String → List (ℕ × ℕ) → Database
unfolding block_id
set_contract_flags db height hash flags = elim (block_id db height hash) [
  | none ↦ db
  | some id ↦ record db {
    transactions = set_flags id flags (
        update_where (λ t. (t.block_id == id) && not (t.contract_flags == 0))
          (λ t. record t { contract_flags = 0 }) db.transactions);
    blocks = update_where (has_id id) (λ b. record b { contracts_scanned = true }) db.blocks;
  }
]

-- `tx_id IN (SELECT id FROM transactions WHERE block_id = ?1)`
abbrev tx_of_block : List TransactionRow → ℕ → ℕ → Bool
tx_of_block rows block tx = any (λ t. (t.id == tx) && (t.block_id == block)) rows

-- The transaction that `prune_older_than` runs for one block.
unfoldable pub prune_block : Database → ℕ → Database
prune_block db id = record db {
  tx_page_hashes = retain (λ r. not (tx_of_block db.transactions id r.tx_id)) db.tx_page_hashes;
  tx_inputs = retain (λ r. not (tx_of_block db.transactions id r.tx_id)) db.tx_inputs;
  tx_outputs = retain (λ r. not (tx_of_block db.transactions id r.tx_id)) db.tx_outputs;
  transactions = retain (λ t. not (t.block_id == id)) db.transactions;
  raw_blocks = retain (λ r. not (r.block_id == id)) db.raw_blocks;
  blocks = update_where (has_id id) (λ b. record b { body_captured = false }) db.blocks;
}

unfoldable pub prune_each : Database → List ℕ → Database
unfolding prune_block
prune_each db [] = db
prune_each db (id ∷ ids) = prune_each (prune_block db id) ids

-- The blocks that the pruning pass selects.
abbrev pub is_prunable : ℕ → BlockRow → Bool
is_prunable cutoff b = ltb b.timestamp cutoff && b.body_captured && is_archived b

unfoldable pub prune_older_than : Database → ℕ → Database × ℕ
unfolding prune_each
prune_older_than db cutoff =
    let ids = map (λ (b : BlockRow). b.id) (retain (is_prunable cutoff) db.blocks) in
    (prune_each db ids, length ids)

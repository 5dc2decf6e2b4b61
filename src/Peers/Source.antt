-- ===== src/Peers/Source.antt =====
-- permanode/src/import.rs, `body_from_db`, `import_bodies` and `import_raw`: another permanode's
-- database as the one that is asked. The check that it has the tables is left to SQLite.
use gb_parano1d_permanode.Prelude.{
  ℕ, Bool, ◌&&◌, Option, none, some, String, List, [], ◌∷◌, ◌==◌, map, retain, find, length,
  order_by, if◌then◌else◌,
}
use Prim.Native.String.{◌++◌ as text_append}
use gb_parano1d_permanode.Prelude.Result.{Result, ok, ◌>>=◌, require}
use gb_parano1d_permanode.Prelude.Words.{u64_max}
use gb_parano1d_permanode.Store.Rows.{
  BlockRow, TransactionRow, PageHashRow, InputRow, OutputRow, Database,
}
use gb_parano1d_permanode.Store.Blocks.{is_block}
use gb_parano1d_permanode.Store.Bodies.{
  BlockTransactionInputInfo, BlockTransactionOutputInfo, BlockTransactionInfo, RetainedBlockInfo,
}
use gb_parano1d_permanode.Raw.Archive
use gb_parano1d_permanode.Raw.Archive.{blocks_missing_raw}
use gb_parano1d_permanode.Indexer.Record.{Env}
use gb_parano1d_permanode.Peers.Check.{TxTree, sum_u32, is_user}
use gb_parano1d_permanode.Peers.Fill.{
  Offer, raw, body, Run, RawReport, ImportReport, FillSettings, fill_gaps,
}
use gb_parano1d_permanode.Peers.FillRaw.{fill_raw}

abbrev read_input : InputRow → BlockTransactionInputInfo
read_input r = record {
  page = r.page;
  lane = r.lane;
  slot_index = r.slot_index;
  amount_micronoid = r.amount_micronoid;
  creation_id = r.creation_id;
}

-- An output without a creation id, as a receipt leaves it, is an error.
abbrev read_outputs : List OutputRow → Result (List BlockTransactionOutputInfo)
read_outputs [] = ok []
read_outputs (r ∷ rows) = do
  creation_id ← require r.creation_id
  rest ← read_outputs rows
  ok (
      (record {
        page = r.page;
        lane = r.lane;
        slot_index = r.slot_index;
        amount_micronoid = r.amount_micronoid;
        owner = r.owner;
        creation_id = creation_id;
      })
      ∷ rest)

unfoldable pub read_transaction : Database → TransactionRow → Result BlockTransactionInfo
read_transaction source t = do
  let hashes =
      order_by (λ (r : PageHashRow). r.idx) (retain (λ r. r.tx_id == t.id) source.tx_page_hashes)
  let inputs = order_by (λ (r : InputRow). r.idx) (retain (λ r. r.tx_id == t.id) source.tx_inputs)
  outputs ←
      read_outputs
        (order_by (λ (r : OutputRow). r.idx) (retain (λ r. r.tx_id == t.id) source.tx_outputs))
  ok (record {
    position = t.position;
    txid = t.txid;
    page_count = t.page_count;
    live_inputs = length inputs;
    live_outputs = length outputs;
    fee_micronoid = t.fee_micronoid;
    coinbase = t.coinbase;
    development_payout = t.development_payout;
    epoch_anchor = t.epoch_anchor;
    input_owner = t.input_owner;
    input_sum_micronoid = t.input_sum_micronoid;
    output_sum_micronoid = t.output_sum_micronoid;
    page_hashes = map (λ (r : PageHashRow). r.page_hash) hashes;
    inputs = map read_input inputs;
    outputs = outputs;
  })

unfoldable pub read_transactions :
    Database → List TransactionRow → Result (List BlockTransactionInfo)
unfolding read_transaction
read_transactions source [] = ok []
read_transactions source (t ∷ ts) = do
  tx ← read_transaction source t
  rest ← read_transactions source ts
  ok (tx ∷ rest)

-- The body fields of a block's row and its transactions.
unfoldable pub read_body : Database → BlockRow → Result RetainedBlockInfo
unfolding read_transactions
read_body source b = do
  proof_class ← require b.proof_class
  reward ← require b.reward_micronoid
  total_fees ← require b.total_fees_micronoid
  txs ← read_transactions source (
      order_by (λ (t : TransactionRow). t.position)
        (retain (λ t. t.block_id == b.id) source.transactions))
  ok (record {
    proof_class = proof_class;
    logical_transactions = length txs;
    user_pages = sum_u32 (λ (t : BlockTransactionInfo). t.page_count) (retain is_user txs);
    live_inputs = sum_u32 (λ (t : BlockTransactionInfo). t.live_inputs) txs;
    live_outputs = sum_u32 (λ (t : BlockTransactionInfo). t.live_outputs) txs;
    reward_micronoid = reward;
    total_fees_micronoid = total_fees;
    block_bytes = 0;
    transactions = txs;
  })

unfoldable pub body_from_db : Database → ℕ → String → Result (Option RetainedBlockInfo)
unfolding read_body
body_from_db source height hash =
    elim (find (λ b. is_block height hash b && b.body_captured) source.blocks) [
      | none ↦ ok none
      | some b ↦ read_body source b >>= (λ retained. ok (some retained))
    ]

module _ (env : Env) (source : Database) (has_raw : Bool) where
  -- The raw bytes where the source kept them, else its recorded body.
  unfoldable pub source_offer : ℕ → String → Result (Option Offer)
  unfolding body_from_db
  source_offer height hash =
      let recorded =
        body_from_db source height hash
        >>= elim [ none ↦ ok none | some retained ↦ ok (some (body retained)) ] in
      if has_raw
      then Archive.load env.chain env.zlib env.max_block_bytes source height hash
        >>= elim [ none ↦ recorded | some bytes ↦ ok (some (raw bytes)) ]
      else recorded

  unfoldable pub import_bodies : TxTree → Database → String → Bool → ℕ → Run (Unit {0}) ImportReport
  unfolding fill_gaps source_offer
  import_bodies tree db source_name keep_raw now =
      let settings : FillSettings = record {
        body_source = "import";
        resolution = text_append "recovered via import from " source_name;
        keep_raw = keep_raw;
      } in
      fill_gaps env tree settings (λ asked height hash. (asked, source_offer height hash)) db
        u64_max tt now

  unfoldable pub import_raw : Database → ℕ → Run (Unit {0}) RawReport
  unfolding fill_raw
  import_raw db now =
      let candidates = if has_raw then blocks_missing_raw db 0 u64_max u64_max else [] in
      fill_raw env "import"
        (λ asked height hash.
          (asked, Archive.load env.chain env.zlib env.max_block_bytes source height hash))
        db candidates tt now

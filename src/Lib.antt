-- ===== src/Lib.antt =====
-- A model of the permanode, an archive node that keeps the blocks a pruning node drops.
--
-- Parts and how they interact. The indexer (permanode/src/indexer.rs) polls a node, decides for each
-- height what it is written as, and writes it to the store (core/src/db.rs). A body comes with the
-- node's block details or is decoded from raw bytes (permanode/src/decode.rs); the raw bytes are kept
-- beside it (permanode/src/raw.rs). The emission schedule (core/src/emission.rs) says which era a
-- height is in, and with the fee model (core/src/fees.rs) what a block may mint and burn. Receipts
-- that wallets kept (permanode/src/receipts.rs) add single transactions to a block that has no body.
-- Other permanodes (permanode/src/import.rs) give whole bodies, raw bytes and arrival times, each
-- checked against the header on record. All of them write the same store, in any order.
--
-- Files:
--   Emission: core/src/emission.rs; Schedule has the constants and the subsidy of a block, Allocation
--     the development allocation, Totals the closed forms.
--   Fees: core/src/fees.rs; Model has occupancy, multiplier and breakdown.
--   Store: core/src/db.rs, with insert_block_header_row and insert_transactions of
--     permanode/src/indexer.rs; Rows has the tables, Blocks the block rows and their status log, Gaps
--     the gap entries and state keys, Bodies the transactions, contract flags and pruning, Receipts
--     insert_receipt_transaction, Sightings the arrival times and proof classes, Live the recorded
--     spends of an output, Slots the outputs in the slots of a segment.
--   Decode: permanode/src/decode.rs; Chain is what it uses of the node's crates, Bound is
--     decode_bound_block, Flags contract_flags, Retained decode_retained_block.
--   Raw: permanode/src/raw.rs; Archive has verify, decompress, store and load.
--   Indexer: permanode/src/indexer.rs, permanode/src/rpc.rs and permanode/src/config.rs; Node is the
--     node and the settings, Body is resolve_body, Record has ingest_height, recheck_height and
--     backfill_gap, Poll is poll_once, Headers a batch of backfill_headers, Sweep what
--     scan_live_state writes for a segment.
--   Receipts: permanode/src/receipts.rs; Journal is parse_journal, File parse_receipt_file, Decode
--     decode_receipt, Import import_one and import_receipts.
--   Peers: permanode/src/import.rs; Check is check_body, Fill fill_gaps, FillRaw fill_raw, Ask
--     fill_from_peers and fill_raw_from_peers, Source body_from_db, import_bodies and import_raw,
--     Sightings fill_seen_from_peers and fill_proof_from_peers.
--   System: the poll cycle, the imports and the fills, and the calls they are made of, as the steps of
--     one relation on databases: threads interleave between these calls, each of which is taken as
--     one step. The sweep, which writes only tx_outputs and state_slots, is left out.
--   Prelude has what the parts share; Samples has inputs for the tests. The other modules of a part
--   prove things of it.
--
-- How the code is modelled. A table is a list of rows with the newest first; an SQL statement is a
-- function on these lists, a transaction one step. Where two rows have a key, ON CONFLICT and OR
-- IGNORE keep the first. A time is the rank of a clock reading: the code orders rows by their
-- timestamps, and the model reads a greater rank at each later reading of a cycle. An error keeps no
-- text. Logging is left out. Amounts are natural numbers, and a subtraction is written where the code
-- has it; saturating sums of core/src/fees.rs and permanode/src/decode.rs are written out, and the
-- sums of check_body, target_seconds_between, next_step_reward and next_development_payout_height
-- wrap as in a release build. Every loop is structural on a list or on
-- the number of heights left, which is how many there are, but for the loop over the frames of a
-- journal: it has as many rounds as the journal has bytes and one more, which is enough since each
-- frame takes at least one byte.
--
-- Parameters. Chain stands for the crates noid_chain and noid_tx, Zlib for flate2, RpcClient for the
-- answers of the node, one record for each phase of a cycle. JournalFormat, FileFormat and
-- ReceiptFormat stand for the hash, the JSON reader and the encoding of a receipt, TxTree for the
-- transaction tree of noid_chain, Peers and SightingPeers for the answers of the other permanodes.
--
-- Not modelled: the HTTP server, the live RPC proxy, the exports, the command line and the
-- configuration file, the HTTP calls of permanode/src/import.rs, and read_receipt_file and describe
-- of permanode/src/receipts.rs, which are input and output; the waiting of the header backfill, the
-- tip watch, the choice and reading of segments in the sweep of the live state, and the balance
-- cache; the read queries.
pub mod Prelude
pub mod Emission
pub mod Fees
pub mod Store
pub mod Decode
pub mod Raw
pub mod Receipts
pub mod Peers
pub mod System
pub mod Indexer
pub mod Samples

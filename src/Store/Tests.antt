-- ===== src/Store/Tests.antt =====
-- core/src/db.rs: the theorems at a database with one block.
use gb_parano1d_permanode.Prelude.{ℕ, ◌≡◌, false, any}
use gb_parano1d_permanode.Store.Blocks.{canonical_hash_at}
use gb_parano1d_permanode.Store.Bodies.{is_prunable, prune_older_than}
use gb_parano1d_permanode.Store.Pruned.{without_bodies, prune_older_than_complete}
use gb_parano1d_permanode.Prelude.{◌<◌, true, some, [], ◌∷◌, refl}
use gb_parano1d_permanode.Prelude.Result.{ok}
use gb_parano1d_permanode.Store.Rows.{Database}
use gb_parano1d_permanode.Store.Blocks.{header_row, header_only_source, is_header_only, block_by_id}
use gb_parano1d_permanode.Store.Receipts.{
  ReceiptTransaction, write_receipt, insert_receipt_transaction,
}
use gb_parano1d_permanode.Store.Proven.{insert_receipt_transaction-again}
use gb_parano1d_permanode.Samples.{sample_database, sample_header}

prune_older_than_complete_example :
    ((prune_older_than sample_database 100).0 ≡ without_bodies (1 ∷ []) sample_database)
    × (any (is_prunable 100) (prune_older_than sample_database 100).0.blocks ≡ false)
    × ((height : ℕ)
        → canonical_hash_at (prune_older_than sample_database 100).0 height
          ≡ canonical_hash_at sample_database height)
prune_older_than_complete_example = prune_older_than_complete 100 sample_database

-- Block 1 of the header backfill, and a payment that is proven to be in it.
abbrev header_only_database : Database
header_only_database = record sample_database {
  blocks = header_row (sample_header "h" 3) false (some header_only_source) 1 1 ∷ [];
}

abbrev payment : ReceiptTransaction
payment = record {
  position = 1;
  tx_count = 3;
  txid = "p";
  page_count = 1;
  fee_micronoid = 9_000;
  epoch_anchor = "e";
  input_owner = "o";
  input_sum_micronoid = "50";
  output_sum_micronoid = "41";
  contract_flags = 0;
  page_hashes = "p" ∷ [];
  inputs = [];
  outputs = [];
  receipt_hex = "00";
}

payment_taken :
    insert_receipt_transaction header_only_database 1 payment 4
    ≡ ok (write_receipt header_only_database 1 payment 4, true)
unfolding insert_receipt_transaction is_header_only block_by_id
payment_taken = refl

insert_receipt_transaction-again_example :
    (is_header_only header_only_database 1 ≡ true)
    × (0 < payment.position)
    × (payment.position < payment.tx_count)
    × (insert_receipt_transaction (write_receipt header_only_database 1 payment 4) 1 payment 5
        ≡ ok (write_receipt header_only_database 1 payment 4, false))
insert_receipt_transaction-again_example =
    insert_receipt_transaction-again header_only_database
      (write_receipt header_only_database 1 payment 4) 1 payment 4 5 payment_taken

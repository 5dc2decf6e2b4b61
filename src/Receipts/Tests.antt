-- ===== src/Receipts/Tests.antt =====
-- The import of receipts on small inputs.
use gb_parano1d_permanode.Prelude.{
  ℕ, zero, suc, ◌+◌, ◌==◌, not, ◌≡◌, refl, true, false, none, some, String, List, [], ◌∷◌, ◌++◌,
  take, codes, arith, map,
}
use gb_parano1d_permanode.Prelude.Result.{Result, ok, err, ensure, ◌>>◌}
use gb_parano1d_permanode.Store.Rows.{Database, empty_database, canonical}
use gb_parano1d_permanode.Store.Blocks.{header_row, header_only_source}
use gb_parano1d_permanode.Samples.{sample_header, sample_chain, sample_database}
use gb_parano1d_permanode.Decode.Chain.{Page}
use gb_parano1d_permanode.Receipts.Journal.{
  JournalFormat, journal_magic, frame_digest, apply_changes, apply_frame, parse_journal,
  read_frames,
}
use gb_parano1d_permanode.Receipts.View.{lookup, value_after, parse_journal-value_after}
use gb_parano1d_permanode.Receipts.Rounds.{IsDone, read_frames-ends}
use gb_parano1d_permanode.Receipts.Replay.{
  frame_header, encode_frame, encode_frames, replay, parse_journal-encode_frames,
}
use gb_parano1d_permanode.Receipts.Decode.{
  ReceiptVerdict, ParanoidReceipt, ReceiptFormat, DecodedReceipt, receipt_summary, decode_receipt,
}
use gb_parano1d_permanode.Receipts.Import.{
  ReceiptEntry, EntryResult, imported, rejected, duplicate, import_one, import_receipts,
}
use gb_parano1d_permanode.Store.Receipts.{write_receipt}
use gb_parano1d_permanode.Receipts.Safety.{Accepted, import_one-Accepted, import_one-unchanged}
use gb_parano1d_permanode.Receipts.Again.{import_receipts-again}
use gb_parano1d_permanode.Receipts.File.{clean_hex}

abbrev zeros : ℕ → List ℕ
zeros zero = []
zeros (suc n) = 0 ∷ zeros n

abbrev sample_key : String
sample_key = "00112233445566778899aabbccddeeff00112233445566778899aabbccddeeff"

-- Every frame is a snapshot with one receipt.
abbrev sample_journal : JournalFormat
sample_journal = record {
  blake3 = λ bytes. zeros 32;
  from_slice = λ payload. some (record { reset = true; changes = (sample_key, some "0xAB") ∷ [] });
}

parse_journal-encode_frames_example :
    parse_journal sample_journal (
      journal_magic
      ++ encode_frames sample_journal
          ((1 ∷ []) ∷ [])
          (take (encode_frame sample_journal (2 ∷ [])) 20))
    ≡ (ensure (not (1 == 0)) >> replay sample_journal 0 ((1 ∷ []) ∷ []) [])
unfolding encode_frame frame_header frame_digest
parse_journal-encode_frames_example =
    parse_journal-encode_frames sample_journal (λ bytes. refl) ((1 ∷ []) ∷ []) (2 ∷ []) 20
      (omega arith, tt) (omega arith) (omega arith)

replayed : replay sample_journal 0 ((1 ∷ []) ∷ []) [] ≡ ok ((sample_key, "0xAB") ∷ [])
unfolding apply_frame apply_changes
replayed = refl

read_frames-ends_example :
    IsDone (read_frames sample_journal 3 (7 ∷ 8 ∷ []) 0 [])
    × ((more : ℕ)
        → read_frames sample_journal (3 + more) (7 ∷ 8 ∷ []) 0 []
          ≡ read_frames sample_journal 3 (7 ∷ 8 ∷ []) 0 [])
read_frames-ends_example = read_frames-ends sample_journal 3 (7 ∷ 8 ∷ []) 0 [] (omega arith)

cleaned : clean_hex " 0xA b" ≡ "ab"
unfolding clean_hex
cleaned = refl

-- Block 1 of the header backfill at height 3, and a receipt for its position 1.
abbrev header_only_database : Database
header_only_database = record empty_database {
  blocks = header_row (sample_header "h" 3) false (some header_only_source) 1 1 ∷ [];
  block_status_log = (record { block_id = 1; status = canonical; observed_at = 1 }) ∷ [];
}

abbrev sample_receipt : ParanoidReceipt
sample_receipt = record {
  paged_spend = 4 ∷ [];
  claimed_height = 3;
  claimed_root = "";
  tx_index = 1;
  tx_count = 3;
  logical_txid = "p";
  confirmed_unix = 0;
  fee_micronoid = 9;
  inputs = (record { slot_index = 5; owner = "o" }) ∷ [];
  outputs = [];
}

abbrev spend_page : Page
spend_page = record {
  page_txid = "p";
  live_inputs = (record { lane = 0; slot_index = 5; amount = 50; creation_id = 2 }) ∷ [];
  live_outputs = [];
  epoch_anchor = "e";
  validity_bitmap = 1;
}

abbrev sample_format : ReceiptFormat
sample_format = record {
  chain = sample_chain;
  decode_hex = λ hex. some (codes hex);
  from_bytes = λ bytes. some sample_receipt;
  to_bytes = λ receipt. codes "ab";
  verify_merkle_inclusion = λ receipt. true;
  intent_from_bytes = λ bytes. some (spend_page ∷ []);
  page_hash = λ page. page.page_txid;
  validate_paged_spend = λ pages. some (record {
    logical_txid = "p";
    input_owner = "o";
    fee = 9;
    epoch_anchor = "e";
    input_sum = 50;
    output_sum = 41;
  });
}

abbrev sample_verdict : ReceiptVerdict
sample_verdict = record {
  merkle_valid = true;
  canonical = some true;
  authenticated_summary = some (receipt_summary sample_receipt);
}

abbrev sample_answer : String → Result ReceiptVerdict
sample_answer hex = ok sample_verdict

abbrev sample_entry : String → ReceiptEntry
sample_entry hex = record { origin = "file"; key = none; hex = hex }

abbrev sample_decoded : DecodedReceipt
sample_decoded = record {
  height = 3;
  timestamp = 0;
  tx_root = "";
  summary = receipt_summary sample_receipt;
  tx = record {
    position = 1;
    tx_count = 3;
    txid = "p";
    page_count = 1;
    fee_micronoid = 9;
    epoch_anchor = "e";
    input_owner = "o";
    input_sum_micronoid = "n";
    output_sum_micronoid = "n";
    contract_flags = 1;
    page_hashes = "p" ∷ [];
    inputs =
        (record { page = 0; lane = 0; slot_index = 5; amount_micronoid = 50; creation_id = 2 })
        ∷ [];
    outputs = [];
    receipt_hex = "ab";
  };
}

decoded : decode_receipt sample_format "ab" ≡ ok sample_decoded
unfolding decode_receipt
decoded = refl

trailing : decode_receipt sample_format "abc" ≡ err
unfolding decode_receipt
trailing = refl

import_one-Accepted_example :
    Accepted sample_answer header_only_database
      (sample_entry "ab")
      sample_decoded
      4
      (write_receipt header_only_database 1 sample_decoded.tx 4)
unfolding import_one
import_one-Accepted_example =
    import_one-Accepted sample_answer header_only_database (sample_entry "ab") sample_decoded 4
      (write_receipt header_only_database 1 sample_decoded.tx 4) refl

import_one-unchanged_example :
    (import_one sample_answer sample_database (sample_entry "ab") sample_decoded 4).0
    ≡ sample_database
unfolding import_one
import_one-unchanged_example =
    import_one-unchanged sample_answer sample_database (sample_entry "ab") sample_decoded 4
      (λ e. cc)

abbrev sample_entries : List ReceiptEntry
sample_entries = sample_entry "ab" ∷ sample_entry "abc" ∷ sample_entry "ab" ∷ []

reported :
    map
      (λ (r : EntryResult). r.outcome)
      (import_receipts sample_answer sample_format header_only_database [] sample_entries 4).1
    ≡ imported ∷ rejected ∷ duplicate ∷ []
unfolding import_receipts
reported = refl

import_receipts-again_example :
    (import_receipts sample_answer sample_format
      (import_receipts sample_answer sample_format header_only_database [] sample_entries 4).0
      []
      sample_entries
      9).0
    ≡ (import_receipts sample_answer sample_format header_only_database [] sample_entries 4).0
import_receipts-again_example =
    import_receipts-again sample_answer sample_format header_only_database sample_entries 4 9

sample_read :
    parse_journal sample_journal (
      journal_magic
      ++ encode_frames sample_journal
          ((1 ∷ []) ∷ [])
          (take (encode_frame sample_journal (2 ∷ [])) 20))
    ≡ ok ((sample_key, "0xAB") ∷ [])
unfolding encode_frame frame_header frame_digest apply_frame apply_changes
sample_read =
    parse_journal-encode_frames sample_journal (λ bytes. refl) ((1 ∷ []) ∷ []) (2 ∷ []) 20
      (omega arith, tt) (omega arith) (omega arith)

parse_journal-value_after_example :
    lookup sample_key ((sample_key, "0xAB") ∷ [])
    ≡ value_after sample_journal sample_key ((1 ∷ []) ∷ []) none
unfolding encode_frame frame_header frame_digest apply_frame apply_changes
parse_journal-value_after_example =
    parse_journal-value_after sample_journal ((1 ∷ []) ∷ []) (2 ∷ []) 20 ((sample_key, "0xAB") ∷ [])
      sample_key (λ bytes. refl) (omega arith, tt) (omega arith) (omega arith) sample_read

-- ===== src/Receipts/Decode.antt =====
-- permanode/src/receipts.rs, `decode_receipt`, with the node's answer to a receipt
-- (permanode/src/rpc.rs, `verify_receipt`). The receipt format of `noid_chain` and `noid_tx` and the hex
-- decoder are parameters; which error it was is only reported.
use gb_parano1d_permanode.Prelude.{
  ℕ, suc, Bool, true, false, not, ◌||◌, Option, String, List, [], ◌∷◌, ◌++◌, map, ltb, str_eq,
  length, any, get_elem?,
}
use gb_parano1d_permanode.Prelude.Result.{Result, ok, ◌>>=◌, ◌>>◌, ensure, require}
use gb_parano1d_permanode.Prelude.Words.{same_bytes}
use gb_parano1d_permanode.Store.Receipts.{ReceiptInput, ReceiptOutput, ReceiptTransaction}
use gb_parano1d_permanode.Decode.Chain.{Chain, Page, LiveInput, LiveOutput}
use gb_parano1d_permanode.Decode.Flags.{flags_of_bitmap}

pub record SummaryInput : Type 0 where
  pub slot_index : ℕ
  pub owner : String

pub record SummaryOutput : Type 0 where
  pub slot_index : ℕ
  pub amount_micronoid : ℕ
  pub owner : String

pub record AuthenticatedSummary : Type 0 where
  pub txid : String
  pub claimed_height : ℕ
  pub confirmed_unix : ℕ
  pub tx_index : ℕ
  pub tx_count : ℕ
  pub fee_micronoid : ℕ
  pub inputs : List SummaryInput
  pub outputs : List SummaryOutput

pub record ReceiptVerdict : Type 0 where
  pub merkle_valid : Bool
  pub canonical : Option Bool
  pub authenticated_summary : Option AuthenticatedSummary

-- `ParanoidReceipt`, with its summary.
pub record ParanoidReceipt : Type 0 where
  pub paged_spend : List ℕ
  pub claimed_height : ℕ
  pub claimed_root : String
  pub tx_index : ℕ
  pub tx_count : ℕ
  pub logical_txid : String
  pub confirmed_unix : ℕ
  pub fee_micronoid : ℕ
  pub inputs : List SummaryInput
  pub outputs : List SummaryOutput

-- What `validate_paged_spend` says of the pages.
pub record SpendFacts : Type 0 where
  pub logical_txid : String
  pub input_owner : String
  pub fee : ℕ
  pub epoch_anchor : String
  pub input_sum : ℕ
  pub output_sum : ℕ

-- The functions of the crates. `none` is their error.
pub record ReceiptFormat : Type 0 where
  pub chain : Chain
  pub decode_hex : String → Option (List ℕ)
  pub from_bytes : List ℕ → Option ParanoidReceipt
  pub to_bytes : ParanoidReceipt → List ℕ
  pub verify_merkle_inclusion : ParanoidReceipt → Bool
  pub intent_from_bytes : List ℕ → Option (List Page)
  pub page_hash : Page → String
  pub validate_paged_spend : List Page → Option SpendFacts

pub record DecodedReceipt : Type 0 where
  pub height : ℕ
  pub timestamp : ℕ
  pub tx_root : String
  pub tx : ReceiptTransaction
  pub summary : AuthenticatedSummary

abbrev receipt_inputs : ℕ → List LiveInput → List ReceiptInput
receipt_inputs page [] = []
receipt_inputs page (i ∷ is) =
    (record {
      page = page;
      lane = i.lane;
      slot_index = i.slot_index;
      amount_micronoid = i.amount;
      creation_id = i.creation_id;
    })
    ∷ receipt_inputs page is

abbrev receipt_outputs : ℕ → List LiveOutput → List ReceiptOutput
receipt_outputs page [] = []
receipt_outputs page (o ∷ os) =
    (record {
      page = page;
      lane = o.lane;
      slot_index = o.slot_index;
      amount_micronoid = o.amount;
      owner = o.owner;
    })
    ∷ receipt_outputs page os

-- The loop over the pages, from `page_index` on.
abbrev all_inputs : ℕ → List Page → List ReceiptInput
all_inputs page_index [] = []
all_inputs page_index (page ∷ pages) =
    receipt_inputs page_index page.live_inputs ++ all_inputs (suc page_index) pages

abbrev all_outputs : ℕ → List Page → List ReceiptOutput
all_outputs page_index [] = []
all_outputs page_index (page ∷ pages) =
    receipt_outputs page_index page.live_outputs ++ all_outputs (suc page_index) pages

abbrev is_empty_list : List SummaryInput → Bool
is_empty_list [] = true
is_empty_list (i ∷ is) = false

abbrev pub receipt_summary : ParanoidReceipt → AuthenticatedSummary
receipt_summary receipt = record {
  txid = receipt.logical_txid;
  claimed_height = receipt.claimed_height;
  confirmed_unix = receipt.confirmed_unix;
  tx_index = receipt.tx_index;
  tx_count = receipt.tx_count;
  fee_micronoid = receipt.fee_micronoid;
  inputs = receipt.inputs;
  outputs = receipt.outputs;
}

-- `pages[0]` of an intent without pages, which `validate_paged_spend` refuses, is an error here.
unfoldable pub decode_receipt : ReceiptFormat → String → Result DecodedReceipt
unfolding flags_of_bitmap
decode_receipt format hex = do
  bytes ← require (format.decode_hex hex)
  receipt ← require (format.from_bytes bytes)
  let canonical = format.to_bytes receipt
  ensure (not (ltb (length canonical) (length bytes)))
  ensure (same_bytes canonical bytes)
  ensure (format.verify_merkle_inclusion receipt)
  pages ← require (format.intent_from_bytes receipt.paged_spend)
  facts ← require (format.validate_paged_spend pages)
  ensure (str_eq facts.logical_txid receipt.logical_txid)
  ensure (
      not (
        is_empty_list receipt.inputs
        || any (λ (i : SummaryInput). not (str_eq i.owner facts.input_owner)) receipt.inputs))
  first ← require (get_elem? pages 0)
  ok (record {
    height = receipt.claimed_height;
    timestamp = receipt.confirmed_unix;
    tx_root = receipt.claimed_root;
    summary = receipt_summary receipt;
    tx = record {
      position = receipt.tx_index;
      tx_count = receipt.tx_count;
      txid = receipt.logical_txid;
      page_count = length pages;
      fee_micronoid = facts.fee;
      epoch_anchor = facts.epoch_anchor;
      input_owner = facts.input_owner;
      input_sum_micronoid = format.chain.decimal facts.input_sum;
      output_sum_micronoid = format.chain.decimal facts.output_sum;
      contract_flags = flags_of_bitmap format.chain first.validity_bitmap;
      page_hashes = map format.page_hash pages;
      inputs = all_inputs 0 pages;
      outputs = all_outputs 0 pages;
      receipt_hex = hex;
    };
  })

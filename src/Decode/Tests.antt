-- ===== src/Decode/Tests.antt =====
-- permanode/src/decode.rs: the theorems at a block of one byte.
use gb_parano1d_permanode.Prelude.{
  ℕ, ◌+◌, ◌≡◌, Bool, true, false, none, refl, String, List, [], ◌∷◌, drop,
}
use gb_parano1d_permanode.Prelude.Result.{ok}
use gb_parano1d_permanode.Decode.Bound.{decode_bound_block}
use gb_parano1d_permanode.Decode.Binding.{IsBound, decode_bound_block-eq-ok}
use gb_parano1d_permanode.Samples.{sample_chain, sample_block, sample_bytes}
use gb_parano1d_permanode.Store.Bodies.{
  BlockTransactionInfo, BlockTransactionOutputInfo, RetainedBlockInfo,
}
use gb_parano1d_permanode.Decode.Chain.{Block}
use gb_parano1d_permanode.Decode.Retained.{decode_retained_block}
use gb_parano1d_permanode.Decode.Numbering.{IsRun, creation_ids, decode_retained_block-IsRun}

decode_bound_block-eq-ok_example :
    (decode_bound_block sample_chain sample_bytes 5 "a" ≡ ok (sample_block 5)
      → IsBound sample_chain sample_bytes 5 "a" (sample_block 5))
    × (IsBound sample_chain sample_bytes 5 "a" (sample_block 5)
        → decode_bound_block sample_chain sample_bytes 5 "a" ≡ ok (sample_block 5))
decode_bound_block-eq-ok_example =
    decode_bound_block-eq-ok sample_chain sample_bytes 5 "a" (sample_block 5)

abbrev output_of : ℕ → ℕ → BlockTransactionOutputInfo
output_of lane id = record {
  page = 0;
  lane = lane;
  slot_index = 7;
  amount_micronoid = 50;
  owner = "o";
  creation_id = id;
}

abbrev minted : ℕ → String → Bool → List BlockTransactionOutputInfo → BlockTransactionInfo
minted position txid payout outputs = record {
  position = position;
  txid = txid;
  page_count = 1;
  live_inputs = 0;
  live_outputs = position + 1;
  fee_micronoid = 0;
  coinbase = true;
  development_payout = payout;
  epoch_anchor = "e";
  input_owner = none;
  input_sum_micronoid = "0";
  output_sum_micronoid = "n";
  page_hashes = txid ∷ [];
  inputs = [];
  outputs = outputs;
}

-- The ids 9 and 10 of the payout are the last two of the ten.
abbrev sample_body : RetainedBlockInfo
sample_body = record {
  proof_class = "B25 / m22";
  logical_transactions = 2;
  user_pages = 0;
  live_inputs = 0;
  live_outputs = 3;
  reward_micronoid = 50;
  total_fees_micronoid = "n";
  block_bytes = 1;
  transactions =
      minted 0 "c" false (output_of 0 5 ∷ [])
      ∷ minted 1 "d" true (output_of 0 9 ∷ output_of 1 10 ∷ [])
      ∷ [];
}

sample_decoded : decode_retained_block sample_chain sample_bytes 5 "a" ≡ ok sample_body
unfolding decode_retained_block
sample_decoded = refl

decode_retained_block-IsRun_example :
    (block : Block) × (decode_bound_block sample_chain sample_bytes 5 "a" ≡ ok block)
    × (start : ℕ) × IsRun start (creation_ids (drop sample_body.transactions 1)) block.alloc_counter
decode_retained_block-IsRun_example =
    decode_retained_block-IsRun sample_chain sample_bytes 5 "a" sample_body sample_decoded

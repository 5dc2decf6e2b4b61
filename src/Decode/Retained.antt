-- ===== src/Decode/Retained.antt =====
-- permanode/src/decode.rs, `decode_retained_block`: a whole body from its raw bytes. The cursor that
-- hands out the creation ids is passed through the pages.
use gb_parano1d_permanode.Prelude.{
  ℕ, suc, ◌+◌, ◌-◌, ◌^◌, min, true, false, not, ◌==◌, leb, ltb, none, some, String, List, [], ◌∷◌,
  ◌++◌, map, length, get_elem?, take, drop, if◌then◌else◌,
}
use gb_parano1d_permanode.Prelude.Result.{Result, ok, err, ◌>>=◌, ◌>>◌, ensure, require}
use gb_parano1d_permanode.Store.Bodies.{
  BlockTransactionInputInfo, BlockTransactionOutputInfo, BlockTransactionInfo, RetainedBlockInfo,
}
use gb_parano1d_permanode.Decode.Chain.{
  Chain, Block, Page, Group, PageStream, LiveInput, LiveOutput, b25, b255,
}
use gb_parano1d_permanode.Decode.Bound.{decode_bound_block}

-- `u16::try_from`
abbrev pub to_u16 : ℕ → Result ℕ
to_u16 n = if ltb n (2 ^ 16) then ok n else err

-- `fold(0u64, u64::saturating_add)` over the amounts.
abbrev pub saturating_sum : ℕ → List LiveOutput → ℕ
saturating_sum acc [] = acc
saturating_sum acc (o ∷ os) = saturating_sum (min (acc + o.amount) (2 ^ 64 - 1)) os

-- The `u128` sum of the amounts.
abbrev pub sum_amounts : List LiveOutput → ℕ
sum_amounts [] = 0
sum_amounts (o ∷ os) = o.amount + sum_amounts os

abbrev output_info : ℕ → ℕ → LiveOutput → BlockTransactionOutputInfo
output_info page creation_id o = record {
  page = page;
  lane = o.lane;
  slot_index = o.slot_index;
  amount_micronoid = o.amount;
  owner = o.owner;
  creation_id = creation_id;
}

-- The outputs of a page, which take the creation ids after `cursor`.
unfoldable pub number_outputs : ℕ → ℕ → List LiveOutput → List BlockTransactionOutputInfo
number_outputs page cursor [] = []
number_outputs page cursor (o ∷ os) =
    output_info page (suc cursor) o ∷ number_outputs page (suc cursor) os

abbrev input_infos : ℕ → List LiveInput → List BlockTransactionInputInfo
input_infos page [] = []
input_infos page (i ∷ is) =
    (record {
      page = page;
      lane = i.lane;
      slot_index = i.slot_index;
      amount_micronoid = i.amount;
      creation_id = i.creation_id;
    })
    ∷ input_infos page is

-- The pages of a group: page hashes, inputs, outputs and the cursor after them.
unfoldable pub read_pages :
    ℕ
    → ℕ
    → List Page
    → List String × List BlockTransactionInputInfo × List BlockTransactionOutputInfo × ℕ
unfolding number_outputs
read_pages page_index cursor [] = ([], [], [], cursor)
read_pages page_index cursor (page ∷ pages) =
    let outputs = number_outputs page_index cursor page.live_outputs in
    let (hashes, inputs, outs, end) =
      read_pages (suc page_index) (cursor + length page.live_outputs) pages in
    (
      page.page_txid ∷ hashes,
      input_infos page_index page.live_inputs ++ inputs,
      outputs ++ outs,
      end,
    )

-- `transactions.get(start..end)`
abbrev pub slice : List Page → ℕ → ℕ → Result (List Page)
slice pages start count =
    if leb (start + count) (length pages) then ok (take (drop pages start) count) else err

unfoldable pub count_development_outputs : PageStream → List Page → Result ℕ
count_development_outputs stream pages =
    if stream.has_development_payout
    then require (get_elem? pages 1) >>= (λ payout. to_u16 (length payout.live_outputs))
    else ok 0

abbrev v2_class_unavailable : String
v2_class_unavailable = "v2 / class unavailable"

unfoldable pub proof_class_name : Chain → Block → PageStream → String
proof_class_name chain block stream =
    if chain.v2_active block.height
    then v2_class_unavailable
    else elim stream.proof_class [ b25 ↦ "B25 / m22" | b255 ↦ "B255 / m24" ]

abbrev pub total_fees : List Group → ℕ
total_fees [] = 0
total_fees (g ∷ gs) = g.fee + total_fees gs

-- `saturating_add` of `u32`
abbrev sat_add_u32 : ℕ → ℕ → ℕ
sat_add_u32 a b = min (a + b) (2 ^ 32 - 1)

module _ (chain : Chain) where
  -- Position 0; its outputs have a creation id of their own, and move the cursor all the same.
  unfoldable pub coinbase_info : Block → Page → ℕ → String → BlockTransactionInfo
  coinbase_info block coinbase coinbase_outputs txid = record {
    position = 0;
    txid = txid;
    page_count = 1;
    live_inputs = 0;
    live_outputs = coinbase_outputs;
    fee_micronoid = 0;
    coinbase = true;
    development_payout = false;
    epoch_anchor = coinbase.epoch_anchor;
    input_owner = none;
    input_sum_micronoid = "0";
    output_sum_micronoid = chain.decimal (saturating_sum 0 coinbase.live_outputs);
    page_hashes = txid ∷ [];
    inputs = [];
    outputs = map (output_info 0 (chain.coinbase_creation_id block.height)) coinbase.live_outputs;
  }

  unfoldable pub development_info : Page → ℕ → ℕ → String → BlockTransactionInfo
  unfolding number_outputs
  development_info payout development_outputs cursor txid = record {
    position = 1;
    txid = txid;
    page_count = 1;
    live_inputs = 0;
    live_outputs = development_outputs;
    fee_micronoid = 0;
    coinbase = true;
    development_payout = true;
    epoch_anchor = payout.epoch_anchor;
    input_owner = none;
    input_sum_micronoid = "0";
    output_sum_micronoid = chain.decimal (sum_amounts payout.live_outputs);
    page_hashes = txid ∷ [];
    inputs = [];
    outputs = number_outputs 0 cursor payout.live_outputs;
  }

  -- One user group, with the cursor after it.
  unfoldable pub group_info :
      List Page → PageStream → ℕ → ℕ → Group → Result (BlockTransactionInfo × ℕ)
  unfolding read_pages
  group_info pages stream index cursor group = do
    own ← slice pages (stream.user_body_start group.start_page) group.page_count
    let read = read_pages 0 cursor own
    ok (
      record {
        position = stream.user_logical_index index;
        txid = group.logical_txid;
        page_count = group.page_count;
        live_inputs = group.live_inputs;
        live_outputs = group.live_outputs;
        fee_micronoid = group.fee;
        coinbase = false;
        development_payout = false;
        epoch_anchor = group.epoch_anchor;
        input_owner = some group.input_owner;
        input_sum_micronoid = chain.decimal group.input_sum;
        output_sum_micronoid = chain.decimal group.output_sum;
        page_hashes = read.0;
        inputs = read.1;
        outputs = read.2;
      },
      read.3,
    )

  -- The loop over the groups, from `index` on.
  unfoldable pub group_infos :
      List Page → PageStream → ℕ → ℕ → List Group → Result (List BlockTransactionInfo × ℕ)
  unfolding group_info
  group_infos pages stream index cursor [] = ok ([], cursor)
  group_infos pages stream index cursor (group ∷ groups) = do
    first ← group_info pages stream index cursor group
    rest ← group_infos pages stream (suc index) first.1 groups
    ok (first.0 ∷ rest.0, rest.1)

  unfoldable pub development_infos :
      PageStream → List Page → List String → ℕ → ℕ → Result (List BlockTransactionInfo × ℕ)
  unfolding development_info
  development_infos stream pages txids development_outputs cursor =
      if stream.has_development_payout
      then (do
        payout ← require (get_elem? pages 1)
        txid ← require (get_elem? txids 1)
        ok (
          development_info payout development_outputs cursor txid ∷ [],
          cursor + length payout.live_outputs,
        ))
      else ok ([], cursor)

  -- The part after the block is bound to its height and hash.
  unfoldable pub retained_of_block : Block → ℕ → Result RetainedBlockInfo
  unfolding coinbase_info development_infos group_infos count_development_outputs proof_class_name
  retained_of_block block block_bytes = do
    stream ← require (chain.validate_block_page_stream block.transactions)
    txids ← require (chain.logical_txids block.transactions)
    coinbase ← require (get_elem? block.transactions 0)
    coinbase_outputs ← to_u16 (length coinbase.live_outputs)
    development_outputs ← count_development_outputs stream block.transactions
    let minted_outputs = stream.live_outputs + coinbase_outputs + development_outputs
    ensure (leb minted_outputs block.alloc_counter)
    let cursor = block.alloc_counter - minted_outputs
    cb_txid ← require (get_elem? txids 0)
    let cb = coinbase_info block coinbase coinbase_outputs cb_txid
    dev ←
        development_infos stream block.transactions txids development_outputs
          (cursor + length coinbase.live_outputs)
    users ← group_infos block.transactions stream 0 dev.1 stream.groups
    ensure (users.1 == block.alloc_counter)
    ok (record {
      proof_class = proof_class_name chain block stream;
      logical_transactions = length txids;
      user_pages = stream.page_count;
      live_inputs = stream.live_inputs;
      live_outputs =
          sat_add_u32 (sat_add_u32 stream.live_outputs coinbase_outputs) development_outputs;
      reward_micronoid = saturating_sum 0 coinbase.live_outputs;
      total_fees_micronoid = chain.decimal (total_fees stream.groups);
      block_bytes = block_bytes;
      transactions = cb ∷ (dev.0 ++ users.0);
    })

  unfoldable pub decode_retained_block : List ℕ → ℕ → String → Result RetainedBlockInfo
  unfolding decode_bound_block retained_of_block
  decode_retained_block bytes expected_height expected_hash = do
    ensure (not (expected_height == 0))
    block ← decode_bound_block chain bytes expected_height expected_hash
    retained_of_block block (length bytes)

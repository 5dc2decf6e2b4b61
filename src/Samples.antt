-- ===== src/Samples.antt =====
-- Small inputs for the tests: a chain with a block of one byte at each height, a codec that stores,
-- and a database with one block.
use gb_parano1d_permanode.Prelude.{
  ℕ, ◌+◌, ◌≤◌, ◌≡◌, refl, true, Option, none, some, String, List, [], ◌∷◌, leb, length,
  if◌then◌else◌, le→leb,
}
use gb_parano1d_permanode.Prelude.Result.{ok}
use gb_parano1d_permanode.Store.Rows.{Database, empty_database, canonical}
use gb_parano1d_permanode.Store.Blocks.{BlockHeaderInfo, header_row}
use gb_parano1d_permanode.Decode.Chain.{Chain, Block, Page, PageStream, LiveOutput, b25}
use gb_parano1d_permanode.Raw.Archive.{Zlib}
use gb_parano1d_permanode.Indexer.Node.{BlockDetailsInfo, RpcClient, Config}
use gb_parano1d_permanode.Indexer.Record.{Env}

abbrev pub sample_header : String → ℕ → BlockHeaderInfo
sample_header hash height = record {
  height = height;
  hash = hash;
  prev_hash = "b";
  state_root = "";
  tx_root = "";
  timestamp = 0;
  miner = "";
  nonce_hex = "";
  difficulty_target = "";
  log_slots = 24;
  active_slot_count = 0;
  alloc_counter = 0;
}

abbrev sample_output : ℕ → LiveOutput
sample_output lane = record { lane = lane; slot_index = 7; amount = 50; owner = "o" }

abbrev sample_page : List LiveOutput → Page
sample_page outputs = record {
  page_txid = "t";
  live_inputs = [];
  live_outputs = outputs;
  epoch_anchor = "e";
  validity_bitmap = 0;
}

-- A coinbase with one output and a development payout with two.
abbrev sample_stream : PageStream
sample_stream = record {
  has_development_payout = true;
  groups = [];
  page_count = 0;
  live_inputs = 0;
  live_outputs = 0;
  proof_class = b25;
  user_body_start = λ start. start + 2;
  user_logical_index = λ index. index + 2;
}

abbrev pub sample_block : ℕ → Block
sample_block height = record {
  height = height;
  alloc_counter = 10;
  tx_root = "r";
  block_id = "a";
  transactions =
      sample_page (sample_output 0 ∷ [])
      ∷ sample_page (sample_output 0 ∷ sample_output 1 ∷ [])
      ∷ [];
}

abbrev pub sample_bytes : List ℕ
sample_bytes = 5 ∷ []

abbrev sample_from_bytes : List ℕ → Option Block
sample_from_bytes [] = none
sample_from_bytes (height ∷ []) = some (sample_block height)
sample_from_bytes (height ∷ more ∷ rest) = none

abbrev pub sample_chain : Chain
sample_chain = record {
  from_bytes = sample_from_bytes;
  to_bytes = λ b. b.height ∷ [];
  compute_tx_root = λ pages. some "r";
  validate_block_page_stream = λ pages. some sample_stream;
  logical_txids = λ pages. some ("c" ∷ "d" ∷ []);
  coinbase_creation_id = λ height. height;
  v2_active = λ height. leb 210_537 height;
  decimal = λ n. "n";
  paged_spend_contract_bit = 1;
  paged_spend_terminal_bit = 2;
}

abbrev pub sample_zlib : Zlib
sample_zlib = record {
  deflate = λ bytes. bytes;
  inflate = λ packed limit. if leb (length packed) limit then some packed else none;
}

pub sample_zlib-restores :
    (packed : List ℕ) (limit : ℕ)
    → length packed ≤ limit
    → sample_zlib.inflate (sample_zlib.deflate packed) limit ≡ some packed
sample_zlib-restores packed limit le = rw (le→leb (length packed) limit le) refl

-- The block `a` at height 5, canonical since time 1.
abbrev pub sample_database : Database
sample_database = record empty_database {
  blocks = header_row (sample_header "a" 5) true (some "details") 1 1 ∷ [];
  block_status_log = (record { block_id = 1; status = canonical; observed_at = 1 }) ∷ [];
}

abbrev pub sample_env : Env
sample_env = record {
  chain = sample_chain;
  zlib = sample_zlib;
  max_block_bytes = 100;
  same_json = λ v2 mine theirs. true;
}

abbrev pub sample_config : Config
sample_config = record {
  reorg_check_depth = 3;
  getblock_fallback = true;
  decoder_selfcheck = true;
  archive_raw_blocks = true;
}

abbrev pub sample_details : ℕ → BlockDetailsInfo
sample_details height = record { header = sample_header "b" height; retained = none }

-- A node whose blocks all have the hash `b`.
abbrev pub sample_node : RpcClient
sample_node = record {
  block_count = ok 6;
  get_block_header = λ height. ok (some (sample_header "b" height));
  get_block_details = λ height. ok (some (sample_details height));
  get_block_raw = λ height. ok none;
}

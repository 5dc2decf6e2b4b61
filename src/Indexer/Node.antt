-- ===== src/Indexer/Node.antt =====
-- permanode/src/rpc.rs, what the indexer asks the node, and permanode/src/config.rs, the settings
-- it reads. An answer is what the node said at that moment, so each phase of a poll cycle has
-- answers of its own.
use gb_parano1d_permanode.Prelude.{ℕ, Bool, Option, List}
use gb_parano1d_permanode.Prelude.Result.{Result}
use gb_parano1d_permanode.Store.Blocks.{BlockHeaderInfo}
use gb_parano1d_permanode.Store.Bodies.{RetainedBlockInfo}

pub record BlockDetailsInfo : Type 0 where
  pub header : BlockHeaderInfo
  pub retained : Option RetainedBlockInfo

pub record RpcClient : Type 0 where
  pub block_count : Result ℕ
  pub get_block_header : ℕ → Result (Option BlockHeaderInfo)
  pub get_block_details : ℕ → Result (Option BlockDetailsInfo)
  pub get_block_raw : ℕ → Result (Option (List ℕ))

pub record Config : Type 0 where
  pub reorg_check_depth : ℕ
  pub getblock_fallback : Bool
  pub decoder_selfcheck : Bool
  pub archive_raw_blocks : Bool

abbrev pub getblock_serving_window : ℕ
getblock_serving_window = 42

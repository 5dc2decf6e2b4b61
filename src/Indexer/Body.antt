-- ===== src/Indexer/Body.antt =====
-- permanode/src/indexer.rs: what a height is written as, decided before any write.
use gb_parano1d_permanode.Prelude.{ℕ, Bool, Option, none, some, String, List, if◌then◌else◌}
use gb_parano1d_permanode.Prelude.Result.{ok, err}
use gb_parano1d_permanode.Store.Bodies.{RetainedBlockInfo}
use gb_parano1d_permanode.Decode.Chain.{Chain}
use gb_parano1d_permanode.Decode.Retained.{decode_retained_block}
use gb_parano1d_permanode.Indexer.Node.{BlockDetailsInfo, RpcClient, Config}

pub data FallbackOutcome : Type 0 where
  recovered : RetainedBlockInfo → List ℕ → FallbackOutcome
  no_body : FallbackOutcome
  decode_failed : FallbackOutcome

unfoldable pub try_getblock_fallback : Chain → RpcClient → ℕ → String → FallbackOutcome
unfolding decode_retained_block
try_getblock_fallback chain rpc height expected_hash = elim (rpc.get_block_raw height) [
  | ok (some raw) ↦ elim (decode_retained_block chain raw height expected_hash) [
    | ok retained ↦ recovered retained raw
    | err ↦ decode_failed
  ]
  | ok none ↦ no_body
  | err ↦ no_body
]

unfoldable pub fetch_raw : RpcClient → ℕ → Option (List ℕ)
fetch_raw rpc height = elim (rpc.get_block_raw height) [ ok bytes ↦ bytes | err ↦ none ]

-- `store` has the details, which hold a body, its source and the raw bytes if they are at hand;
-- the details of a `gap` come with the note for the gap entry.
pub data BodyOutcome : Type 0 where
  store : BlockDetailsInfo → RetainedBlockInfo → String → Option (List ℕ) → BodyOutcome
  gap : BlockDetailsInfo → String → BodyOutcome

abbrev pub fallback_outcome : BlockDetailsInfo → FallbackOutcome → BodyOutcome
fallback_outcome details (recovered retained raw) =
    store (record details { retained = some retained }) retained "getblock" (some raw)
fallback_outcome details no_body =
    gap details "no body via getBlockDetails nor getBlock (outside serving window)"
fallback_outcome details decode_failed = gap details "getBlock body could not be decoded"

unfoldable pub resolve_body : Chain → RpcClient → Config → BlockDetailsInfo → String → BodyOutcome
unfolding try_getblock_fallback
resolve_body chain rpc cfg details missing_note = elim details.retained [
  | some retained ↦ store details retained "details" none
  | none ↦
      if cfg.getblock_fallback
      then fallback_outcome details
          (try_getblock_fallback chain rpc details.header.height details.header.hash)
      else gap details missing_note
]

-- The raw bytes to keep with a body: those at hand, or asked for where they are wanted.
unfoldable pub raw_for : RpcClient → ℕ → Bool → Option (List ℕ) → Option (List ℕ)
unfolding fetch_raw
raw_for rpc height wanted (some raw) = some raw
raw_for rpc height wanted none = if wanted then fetch_raw rpc height else none

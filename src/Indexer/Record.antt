-- ===== src/Indexer/Record.antt =====
-- permanode/src/indexer.rs: how a height is recorded. A database transaction is one step: an error
-- inside it leaves the database as it was. SQL statements themselves do not fail here. A time is the
-- rank of a clock reading, `now` the first one of a handler; a later reading is a greater rank.
use gb_parano1d_permanode.Prelude.{
  ℕ, suc, Bool, true, false, not, ◌||◌, Option, none, some, String, List, ◌+◌, str_eq,
  if◌then◌else◌,
}
use mathlib.Core.Option
use Prim.Native.String.{◌++◌ as text_append}
use gb_parano1d_permanode.Prelude.Result.{Result, ok, err, ◌>>=◌, require}
use gb_parano1d_permanode.Emission.Schedule.{v2_active}
use gb_parano1d_permanode.Store.Rows.{Database, number}
use gb_parano1d_permanode.Store.Blocks.{
  BlockHeaderInfo, canonical_hash_at, uncaptured_block_id, mark_body_recovered, mark_orphaned,
  insert_block_header_row, is_header_only,
}
use gb_parano1d_permanode.Store.Gaps.{record_gap, resolve_gap, get_state, set_state}
use gb_parano1d_permanode.Store.Bodies.{RetainedBlockInfo, insert_transactions, set_contract_flags}
use gb_parano1d_permanode.Decode.Chain.{Chain}
use gb_parano1d_permanode.Decode.Flags.{contract_flags}
use gb_parano1d_permanode.Decode.Retained.{decode_retained_block}
use gb_parano1d_permanode.Raw.Archive
use gb_parano1d_permanode.Raw.Archive.{Zlib}
use gb_parano1d_permanode.Indexer.Node.{BlockDetailsInfo, RpcClient, Config}
use gb_parano1d_permanode.Indexer.Body.{
  BodyOutcome, store, gap, recovered, no_body, decode_failed, resolve_body, raw_for,
  try_getblock_fallback,
}

-- The code outside the repository: the node's crates, the zlib codec, the greatest block, and
-- whether `serde_json` finds two bodies equal (the first argument: without the proof class).
pub record Env : Type 0 where
  pub chain : Chain
  pub zlib : Zlib
  pub max_block_bytes : ℕ
  pub same_json : Bool → RetainedBlockInfo → RetainedBlockInfo → Bool

unfoldable pub record_gap_block : Database → BlockDetailsInfo → String → ℕ → Result Database
record_gap_block db details note now =
    let h = details.header in
    let logged = λ (d : Database). record_gap d h.height (some h.hash) now note in
    let fresh = (do
      row ← require (insert_block_header_row db h false none now)
      ok (logged row.1)) in
    elim (canonical_hash_at db h.height) [
      | none ↦ fresh
      | some (id, known) ↦ if str_eq known h.hash then ok (logged db) else fresh
    ]

-- The body of a block that is on record without one.
unfoldable pub upgrade_gap : Database → ℕ → ℕ → RetainedBlockInfo → String → ℕ → Database
upgrade_gap db height id retained body_source now =
    resolve_gap (mark_body_recovered (insert_transactions db id retained) id body_source) height now
      (text_append "recovered via " body_source)

unfoldable pub store_block :
    Database → BlockHeaderInfo → RetainedBlockInfo → String → ℕ → Result Database
unfolding upgrade_gap
store_block db h retained body_source now =
    let fresh = (do
      row ← require (insert_block_header_row db h true (some body_source) now)
      ok (insert_transactions row.1 row.0 retained)) in
    elim (canonical_hash_at db h.height) [
      | none ↦ fresh
      | some (id, known) ↦
          if str_eq known h.hash
          then elim (uncaptured_block_id db h.height h.hash) [
            | none ↦ ok db
            | some gap_id ↦ ok (upgrade_gap db h.height gap_id retained body_source now)
          ]
          else fresh
    ]

module _ (env : Env) where
  unfoldable pub record_contract_flags : Database → ℕ → String → Option (List ℕ) → Database
  unfolding contract_flags
  record_contract_flags db height hash raw = if not (v2_active height) then db else elim raw [
    | none ↦ db
    | some bytes ↦ elim (contract_flags env.chain bytes height hash) [
      | ok flags ↦ set_contract_flags db height hash flags
      | err ↦ db
    ]
  ]

  unfoldable pub keep_raw : Config → Database → ℕ → String → Option (List ℕ) → String → ℕ → Database
  keep_raw cfg db height hash raw source now = if not cfg.archive_raw_blocks then db else elim raw [
    | none ↦ db
    | some bytes ↦
        elim (Archive.store env.chain env.zlib env.max_block_bytes db height hash bytes source
          now) [ ok (db', kept) ↦ db' | err ↦ db ]
  ]

  unfoldable pub increment_mismatch_counter : Database → Database
  increment_mismatch_counter db = elim (get_state db "decoder_mismatches") [
    | some (number n) ↦ set_state db "decoder_mismatches" (number (n + 1))
    | _ ↦ set_state db "decoder_mismatches" (number 1)
  ]

  unfoldable pub selfcheck : Database → ℕ → String → RetainedBlockInfo → List ℕ → Database
  unfolding decode_retained_block increment_mismatch_counter
  selfcheck db height hash theirs raw = elim (decode_retained_block env.chain raw height hash) [
    | err ↦ db
    | ok mine ↦
        if env.same_json (v2_active height) mine theirs then db else increment_mismatch_counter db
  ]

  -- What is written with a body: the block, its contract flags and its raw bytes.
  unfoldable pub write_body :
      Config
      → Database
      → ℕ
      → BlockHeaderInfo
      → RetainedBlockInfo
      → String
      → Option (List ℕ)
      → ℕ
      → Result Database
  unfolding store_block record_contract_flags keep_raw
  write_body cfg db height h retained source raw now = do
    stored ← store_block db h retained source now
    ok (keep_raw cfg (record_contract_flags stored height h.hash raw) height h.hash raw "node" now)

  -- The check of the decoder after the commit, where the body came with the details.
  abbrev pub checked :
      Config → Database → ℕ → String → RetainedBlockInfo → String → Option (List ℕ) → Database
  checked cfg db height hash retained source none = db
  checked cfg db height hash retained source (some raw) =
      if str_eq source "getblock"
      then db
      else if cfg.decoder_selfcheck
      then selfcheck db height hash retained raw
      else db

  unfoldable pub ingest_outcome :
      RpcClient → Config → Database → ℕ → BodyOutcome → ℕ → Result Database
  unfolding write_body record_gap_block raw_for selfcheck
  ingest_outcome rpc cfg db height (store details retained source at_hand) now =
      let wanted = cfg.decoder_selfcheck || cfg.archive_raw_blocks || v2_active height in
      let raw = raw_for rpc height wanted at_hand in
      do
        written ← write_body cfg db height details.header retained source raw now
        ok (checked cfg written height details.header.hash retained source raw)
  ingest_outcome rpc cfg db height (gap details note) now = record_gap_block db details note now

  abbrev pub ingest_note : String
  ingest_note = "body already pruned by node on first ingest attempt"

  -- `none`: the node has no header at this height yet.
  unfoldable pub ingest_height : RpcClient → Config → Database → ℕ → ℕ → Result (Option Database)
  unfolding ingest_outcome resolve_body
  ingest_height rpc cfg db height now = rpc.get_block_details height >>= elim [
    | none ↦ ok none
    | some details ↦ do
      written ←
          ingest_outcome rpc cfg db height (resolve_body env.chain rpc cfg details ingest_note) now
      ok (some written)
  ]

  abbrev pub reorg_note : String
  reorg_note = "reorg: new canonical body already unavailable at recheck time"

  -- The rows of a replacement, after the old block is marked as orphaned at `now`; the functions
  -- that write a block read the clock again.
  unfoldable pub write_replacement :
      RpcClient → Config → Database → ℕ → String → Option BodyOutcome → ℕ → Result Database
  unfolding write_body record_gap_block raw_for
  write_replacement rpc cfg db height hash none now =
      ok (record_gap db height (some hash) now reorg_note)
  write_replacement rpc cfg db height hash (some (gap details note)) now =
      record_gap_block db details note (suc now)
  write_replacement rpc cfg db height hash (some (store details retained source at_hand)) now =
      let raw = raw_for rpc height (cfg.archive_raw_blocks || v2_active height) at_hand in
      write_body cfg db height details.header retained source raw (suc now)

  -- A block that the node no longer has at its height gives way to the node's.
  unfoldable pub replace_block :
      RpcClient → Config → Database → ℕ → String → ℕ → ℕ → Result Database
  unfolding write_replacement resolve_body
  replace_block rpc cfg db height hash old_id now = do
    details ← rpc.get_block_details height
    let replacement = Option.map (λ d. resolve_body env.chain rpc cfg d reorg_note) details
    write_replacement rpc cfg (mark_orphaned db old_id now) height hash replacement now

  unfoldable pub recheck_height : RpcClient → Config → Database → ℕ → ℕ → Result Database
  unfolding replace_block
  recheck_height rpc cfg db height now = rpc.get_block_header height >>= elim [
    | none ↦ ok db
    | some header ↦ elim (canonical_hash_at db height) [
      | none ↦ ok db
      | some (id, known) ↦
          if str_eq known header.hash
          then ok db
          else if is_header_only db id
          then ok db
          else replace_block rpc cfg db height header.hash id now
    ]
  ]

  unfoldable pub backfill_gap : RpcClient → Config → Database → ℕ → ℕ → Database
  unfolding try_getblock_fallback record_contract_flags keep_raw
  backfill_gap rpc cfg db height now = elim (canonical_hash_at db height) [
    | none ↦ db
    | some (id, hash) ↦ elim (uncaptured_block_id db height hash) [
      | none ↦ db
      | some gap_id ↦ elim (try_getblock_fallback env.chain rpc height hash) [
        | recovered retained raw ↦
            let filled =
              mark_body_recovered (insert_transactions db gap_id retained) gap_id "getblock" in
            let flagged = record_contract_flags filled height hash (some raw) in
            resolve_gap (keep_raw cfg flagged height hash (some raw) "node" now) height now
              "recovered via getBlock"
        | no_body ↦ db
        | decode_failed ↦ db
      ]
    ]
  ]

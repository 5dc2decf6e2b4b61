-- ===== src/Indexer/Ingest.antt =====
-- permanode/src/indexer.rs, `ingest_height`: the canonical blocks before and after.
use gb_parano1d_permanode.Prelude.{
  ℕ, ◌<◌, ◌≡◌, refl, ap, Option, some, String, List, Bool-cases, Option-cases, inl, inr, subst,
  ◌||◌,
}
use gb_parano1d_permanode.Prelude.Result.{Result, ok, ◌>>=◌}
use gb_parano1d_permanode.Emission.Schedule.{v2_active}
use gb_parano1d_permanode.Store.Rows.{Database}
use gb_parano1d_permanode.Store.Blocks.{BlockHeaderInfo}
use gb_parano1d_permanode.Store.Bodies.{RetainedBlockInfo}
use gb_parano1d_permanode.Store.Index.{keys, log}
use gb_parano1d_permanode.Store.Headers.{IsSound, IsRecorded}
use gb_parano1d_permanode.Store.Frame.{SameIndex-trans}
use gb_parano1d_permanode.Decode.Chain.{Chain}
use gb_parano1d_permanode.Indexer.Node.{BlockDetailsInfo, RpcClient, Config}
use gb_parano1d_permanode.Indexer.Body.{
  BodyOutcome, store, gap, FallbackOutcome, recovered, no_body, decode_failed, fallback_outcome,
  resolve_body, raw_for, try_getblock_fallback,
}
use gb_parano1d_permanode.Indexer.Record.{
  Env, record_contract_flags, keep_raw, write_body, checked, ingest_outcome, ingest_note,
  ingest_height,
}
use gb_parano1d_permanode.Indexer.Frame.{
  record_contract_flags-SameIndex, keep_raw-SameIndex, checked-SameIndex,
}
use gb_parano1d_permanode.Indexer.Canonical.{
  Records, IsRecorded-SameIndex, store_block-Records, record_gap_block-Records,
}

-- The details that an outcome carries.
abbrev pub details_of : BodyOutcome → BlockDetailsInfo
details_of (store details retained source at_hand) = details
details_of (gap details note) = details

fallback_outcome-header :
    (details : BlockDetailsInfo) (outcome : FallbackOutcome)
    → (details_of (fallback_outcome details outcome)).header ≡ details.header
fallback_outcome-header details (recovered retained raw) = refl
fallback_outcome-header details no_body = refl
fallback_outcome-header details decode_failed = refl

-- However the body turns out, the outcome is about the block of the details.
pub resolve_body-header :
    (chain : Chain) (rpc : RpcClient) (cfg : Config) (details : BlockDetailsInfo) (note : String)
    → (details_of (resolve_body chain rpc cfg details note)).header ≡ details.header
unfolding resolve_body
resolve_body-header chain rpc cfg details note = elim (Option-cases details.retained) [
  | inr (retained, present) ↦ rw (resolve_body, present) refl
  | inl absent ↦ elim (Bool-cases cfg.getblock_fallback) [
    | inr off ↦ rw (resolve_body, absent, off) refl
    | inl on ↦
        rw (resolve_body, absent, on)
          (fallback_outcome-header details
            (try_getblock_fallback chain rpc details.header.height details.header.hash))
  ]
]

module _ (env : Env) (cfg : Config) (db : Database) (h : BlockHeaderInfo) (now : ℕ) (pos : 0 < now)
    (sound : IsSound (keys db) (log db) now) where
  pub write_body-Records :
      (height : ℕ) (retained : RetainedBlockInfo) (source : String) (raw : Option (List ℕ))
      → Records db h now (write_body env cfg db height h retained source raw now)
  unfolding write_body
  write_body-Records height retained source raw =
      let (stored, eq, id, recorded) = store_block-Records db h now pos sound retained source in
      let flagged = record_contract_flags env stored height h.hash raw in
      let kept = keep_raw env cfg flagged height h.hash raw "node" now in
      (
        kept,
        rw (write_body, eq) refl,
        id,
        IsRecorded-SameIndex db h now id stored kept
            (SameIndex-trans stored flagged kept
              (record_contract_flags-SameIndex env stored height h.hash raw)
              (keep_raw-SameIndex env cfg flagged height h.hash raw "node" now))
            recorded,
      )

module _ (env : Env) (rpc : RpcClient) (cfg : Config) (db : Database) (height now : ℕ)
    (pos : 0 < now) (sound : IsSound (keys db) (log db) now) where
  ingest_outcome-Records :
      (outcome : BodyOutcome)
      → Records db
          (details_of outcome).header
          now
          (ingest_outcome env rpc cfg db height outcome now)
  unfolding ingest_outcome
  ingest_outcome-Records (gap details note) =
      record_gap_block-Records db details.header now pos sound details note refl
  ingest_outcome-Records (store details retained source at_hand) =
      let h = details.header in
      let wanted = cfg.decoder_selfcheck || cfg.archive_raw_blocks || v2_active height in
      let raw = raw_for rpc height wanted at_hand in
      let (written, done, id, recorded) =
        write_body-Records env cfg db h now pos sound height retained source raw in
      let end = checked env cfg written height h.hash retained source raw in
      (
        end,
        ap
            (λ (r : Result Database).
              r >>= (λ d. ok (checked env cfg d height h.hash retained source raw)))
            done,
        id,
        IsRecorded-SameIndex db h now id written end
            (checked-SameIndex env cfg written height h.hash retained source raw) recorded,
      )

-- A height that the node has is recorded: its block is the canonical one there afterwards, every
-- other height keeps its canonical block, and the database stays sound.
pub ingest_height-IsRecorded :
    (env : Env) (rpc : RpcClient) (cfg : Config) (db : Database) (height now : ℕ)
    (details : BlockDetailsInfo)
    → 0 < now
    → IsSound (keys db) (log db) now
    → rpc.get_block_details height ≡ ok (some details)
    → (db' : Database) × (ingest_height env rpc cfg db height now ≡ ok (some db'))
      × (id : ℕ) × IsRecorded db details.header now id db'
unfolding ingest_height
ingest_height-IsRecorded env rpc cfg db height now details pos sound answer =
    let outcome = resolve_body env.chain rpc cfg details (ingest_note env) in
    let (db', eq, id, recorded) =
      subst
        (λ (h : BlockHeaderInfo).
          Records db h now (ingest_outcome env rpc cfg db height outcome now))
        (resolve_body-header env.chain rpc cfg details (ingest_note env))
        (ingest_outcome-Records env rpc cfg db height now pos sound outcome) in
    (db', rw (ingest_height, answer, eq) refl, id, recorded)

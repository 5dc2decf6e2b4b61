-- ===== src/Indexer/Reorg.antt =====
-- permanode/src/indexer.rs, `recheck_height`: the canonical blocks before and after a reorg.
use gb_parano1d_permanode.Prelude.{
  ℕ, suc, ◌<◌, ◌≡◌, refl, subst, ◌∙◌, false, ◌||◌, some, String, if◌then◌else◌, arith, Bool-cases,
  inl, inr, ◌==◌, str_eq,
}
use gb_parano1d_permanode.Prelude.Result.{ok, ◌>>=◌}
use gb_parano1d_permanode.Emission.Schedule.{v2_active}
use gb_parano1d_permanode.Store.Rows.{Database}
use gb_parano1d_permanode.Store.Blocks.{
  BlockHeaderInfo, canonical_hash_at, mark_orphaned, is_header_only,
}
use gb_parano1d_permanode.Store.Index.{keys, log}
use gb_parano1d_permanode.Store.Headers.{IsSound}
use gb_parano1d_permanode.Store.Orphans.{mark_orphaned-IsSound, mark_orphaned-elsewhere}
use gb_parano1d_permanode.Indexer.Node.{BlockDetailsInfo, RpcClient, Config}
use gb_parano1d_permanode.Indexer.Body.{BodyOutcome, store, gap, resolve_body, raw_for}
use gb_parano1d_permanode.Indexer.Record.{
  Env, write_replacement, replace_block, recheck_height, reorg_note,
}
use gb_parano1d_permanode.Indexer.Canonical.{Records, record_gap_block-Records}
use gb_parano1d_permanode.Indexer.Ingest.{details_of, resolve_body-header, write_body-Records}

pub write_replacement-Records :
    (env : Env) (rpc : RpcClient) (cfg : Config) (db : Database) (height now : ℕ) (hash : String)
    (outcome : BodyOutcome)
    → IsSound (keys db) (log db) (suc now)
    → Records db
        (details_of outcome).header
        (suc now)
        (write_replacement env rpc cfg db height hash (some outcome) now)
unfolding write_replacement
write_replacement-Records env rpc cfg db height now hash (gap details note) sound =
    record_gap_block-Records db details.header (suc now) (omega arith) sound details note refl
write_replacement-Records env rpc cfg db height now hash (store details retained source at_hand)
      sound =
    write_body-Records env cfg db details.header (suc now) (omega arith) sound height retained
      source (raw_for rpc height (cfg.archive_raw_blocks || v2_active height) at_hand)

module _ (env : Env) (rpc : RpcClient) (cfg : Config) (db : Database) (height now old : ℕ)
    (known : String) (header : BlockHeaderInfo) where
  -- A re-check that finds another block.
  recheck_height-reorg :
      (details : BlockDetailsInfo)
      → rpc.get_block_header height ≡ ok (some header)
      → canonical_hash_at db height ≡ some (old, known)
      → str_eq known header.hash ≡ false
      → is_header_only db old ≡ false
      → rpc.get_block_details height ≡ ok (some details)
      → recheck_height env rpc cfg db height now
        ≡ write_replacement env rpc cfg
            (mark_orphaned db old now)
            height
            header.hash
            (some (resolve_body env.chain rpc cfg details (reorg_note env)))
            now
  unfolding recheck_height replace_block
  recheck_height-reorg details answer current differs archived found =
      rw (recheck_height, answer, ◌>>=◌)
        (rw (current, differs, archived, replace_block) (rw found refl))

-- A re-check that finds another block at an archived height puts the node's block in its place:
-- it is the canonical one there, every other height keeps its own, and the database stays sound.
pub recheck_height-replaced :
    (env : Env) (rpc : RpcClient) (cfg : Config) (db : Database) (height now old : ℕ)
    (known : String) (header : BlockHeaderInfo) (details : BlockDetailsInfo)
    → 0 < now
    → IsSound (keys db) (log db) now
    → rpc.get_block_header height ≡ ok (some header)
    → canonical_hash_at db height ≡ some (old, known)
    → str_eq known header.hash ≡ false
    → is_header_only db old ≡ false
    → rpc.get_block_details height ≡ ok (some details)
    → details.header.height ≡ height
    → (db' : Database) × (recheck_height env rpc cfg db height now ≡ ok db')
      × (id : ℕ) × ((other : ℕ)
          → canonical_hash_at db' other ≡ (
              if other == height
              then some (id, details.header.hash)
              else canonical_hash_at db other))
      × IsSound (keys db') (log db') (suc (suc now))
recheck_height-replaced env rpc cfg db height now old known header details pos sound answer current
      differs archived found own =
    let outcome = resolve_body env.chain rpc cfg details (reorg_note env) in
    let marked = mark_orphaned db old now in
    let (db', eq, id, (blocks, sound')) =
      subst
        (λ (h : BlockHeaderInfo).
          Records marked h (suc now)
            (write_replacement env rpc cfg marked height header.hash (some outcome) now))
        (resolve_body-header env.chain rpc cfg details (reorg_note env))
        (write_replacement-Records env rpc cfg marked height now header.hash outcome
          (mark_orphaned-IsSound db height now old known pos sound current)) in
    (
      db',
      recheck_height-reorg env rpc cfg db height now old known header details answer current differs
            archived found
          ∙ eq,
      id,
      λ other. elim (Bool-cases (other == height)) [
        | inl here ↦ blocks other ∙ rw (own, here) refl
        | inr there ↦
            blocks other
            ∙ rw (own, there)
                (mark_orphaned-elsewhere db height now old known pos sound current other there)
      ],
      sound',
    )

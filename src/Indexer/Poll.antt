-- ===== src/Indexer/Poll.antt =====
-- permanode/src/indexer.rs, `poll_once`: new heights, the re-check of the last ones, open gaps and
-- missing raw bytes. An error ends the cycle and keeps what was committed before it.
use gb_parano1d_permanode.Prelude.{
  ℕ, zero, suc, ◌+◌, ◌-◌, ◌*◌, Bool, true, false, none, some, String, List, [], ◌∷◌, if◌then◌else◌,
}
use gb_parano1d_permanode.Prelude.Result.{ok, err}
use gb_parano1d_permanode.Store.Rows.{Database, number, text}
use gb_parano1d_permanode.Store.Gaps.{get_state, set_state, open_gap_heights}
use gb_parano1d_permanode.Raw.Archive.{blocks_missing_raw}
use gb_parano1d_permanode.Indexer.Node.{RpcClient, Config, getblock_serving_window}
use gb_parano1d_permanode.Indexer.Body.{fetch_raw}
use gb_parano1d_permanode.Indexer.Record.{
  Env, ingest_height, recheck_height, backfill_gap, keep_raw,
}

-- The database, and whether the work went through without an error.
pub record Progress : Type 0 where
  pub db : Database
  pub finished : Bool

abbrev pub done : Database → Progress
done db = record { db = db; finished = true }

abbrev pub failed : Database → Progress
failed db = record { db = db; finished = false }

-- The next step, where the one before went through.
abbrev pub and_then : Progress → (Database → Progress) → Progress
and_then p next = if p.finished then next p.db else p

-- The loop from the tip down: `rounds` heights are left, the next one is `height`.
unfoldable pub probe_start : RpcClient → ℕ → ℕ → ℕ → ℕ
probe_start rpc zero height start = start
probe_start rpc (suc rounds) height start =
    let down = probe_start rpc rounds (height - 1) height in
    elim (rpc.get_block_raw height) [ ok (some bytes) ↦ down | ok none ↦ start | err ↦ start ]

unfoldable pub first_start_height : RpcClient → ℕ → ℕ
unfolding probe_start
first_start_height rpc tip = probe_start rpc (tip - (tip - getblock_serving_window) + 1) tip tip

abbrev pub last_processed_key : String
last_processed_key = "last_processed_height"

unfoldable pub last_processed : RpcClient → Database → ℕ → ℕ
unfolding first_start_height
last_processed rpc db tip = elim (get_state db last_processed_key) [
  | some (number h) ↦ h
  | some (text t) ↦ first_start_height rpc tip - 1
  | none ↦ first_start_height rpc tip - 1
]

module _ (env : Env) (cfg : Config) where
  -- New heights, `rounds` of them from `height` on. Each handler reads the clock after the one
  -- before it.
  unfoldable pub ingest_loop : RpcClient → ℕ → ℕ → ℕ → Database → Progress
  ingest_loop rpc zero height now db = done db
  ingest_loop rpc (suc rounds) height now db = elim (ingest_height env rpc cfg db height now) [
    | err ↦ failed db
    | ok none ↦ done db
    | ok (some db') ↦
        ingest_loop rpc rounds (suc height) (suc now)
          (set_state db' last_processed_key (number height))
  ]

  -- A re-check reads the clock up to two times.
  unfoldable pub recheck_loop : RpcClient → ℕ → ℕ → ℕ → Database → Progress
  recheck_loop rpc zero height now db = done db
  recheck_loop rpc (suc rounds) height now db = elim (recheck_height env rpc cfg db height now) [
    | err ↦ failed db
    | ok db' ↦ recheck_loop rpc rounds (suc height) (now + 2) db'
  ]

  unfoldable pub backfill_loop : RpcClient → ℕ → List ℕ → Database → Database
  backfill_loop rpc now [] db = db
  backfill_loop rpc now (height ∷ heights) db =
      backfill_loop rpc (suc now) heights (backfill_gap env rpc cfg db height now)

  unfoldable pub raw_loop : RpcClient → ℕ → List (ℕ × String) → Database → Database
  unfolding fetch_raw
  raw_loop rpc now [] db = db
  raw_loop rpc now ((height, hash) ∷ blocks) db =
      raw_loop rpc (suc now) blocks (elim (fetch_raw rpc height) [
        | none ↦ db
        | some bytes ↦ keep_raw env cfg db height hash (some bytes) "node" now
      ])

  -- The gaps and raw bytes of the serving window.
  unfoldable pub complete_window : RpcClient → RpcClient → ℕ → ℕ → Database → Database
  unfolding backfill_loop raw_loop
  complete_window gaps_rpc raw_rpc tip now db =
      let min_height = tip - getblock_serving_window in
      let filled =
        if cfg.getblock_fallback
        then backfill_loop gaps_rpc now (open_gap_heights db min_height) db
        else db in
      if cfg.archive_raw_blocks
      then raw_loop raw_rpc now
          (blocks_missing_raw filled min_height tip (getblock_serving_window + 1)) filled
      else filled

  -- `rpc` answers for the tip and the new heights, the others for the later phases. The ranks that
  -- the clock readings of the later phases start from are past those of the phases before.
  unfoldable pub poll_once : RpcClient → RpcClient → RpcClient → RpcClient → ℕ → Database → Progress
  unfolding ingest_loop recheck_loop complete_window last_processed
  poll_once rpc recheck_rpc gaps_rpc raw_rpc now db = elim rpc.block_count [
    | err ↦ failed db
    | ok tip ↦
        let last = last_processed rpc db tip in
        let recheck_from = tip - cfg.reorg_check_depth in
        let recheck_now = now + (tip - last) in
        let rounds = tip - recheck_from + 1 in
        and_then
          (and_then (ingest_loop rpc (tip - last) (suc last) now db)
            (λ d. recheck_loop recheck_rpc rounds recheck_from recheck_now d))
          (λ d. done (complete_window gaps_rpc raw_rpc tip (recheck_now + 2 * rounds) d))
  ]

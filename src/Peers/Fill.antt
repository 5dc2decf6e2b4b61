-- ===== src/Peers/Fill.antt =====
-- permanode/src/import.rs, `fill_gaps` and `fill_raw`: what another permanode offers for a block, and
-- how it is taken over. Who is asked is a parameter, a function from a state of its own to an answer.
use gb_parano1d_permanode.Prelude.{
  ℕ, suc, ◌+◌, Bool, true, false, Option, none, some, String, List, [], ◌∷◌, length, take,
  if◌then◌else◌,
}
use gb_parano1d_permanode.Prelude.Result.{Result, ok, err}
use gb_parano1d_permanode.Store.Rows.{Database}
use gb_parano1d_permanode.Store.Blocks.{
  canonical_hash_at, uncaptured_block_id, block_by_id, mark_body_recovered,
}
use gb_parano1d_permanode.Store.Gaps.{open_gap_heights, resolve_gap, resolve_gaps_with_bodies}
use gb_parano1d_permanode.Store.Bodies.{RetainedBlockInfo, insert_transactions}
use gb_parano1d_permanode.Store.Live.{clear_spent_in_gap_with_recorded_spend}
use gb_parano1d_permanode.Decode.Retained.{decode_retained_block}
use gb_parano1d_permanode.Raw.Archive
use gb_parano1d_permanode.Raw.Archive.{verify}
use gb_parano1d_permanode.Indexer.Record.{Env, record_contract_flags}
use gb_parano1d_permanode.Peers.Check.{TxTree, check_body}

pub data Offer : Type 0 where
  raw : List ℕ → Offer
  body : RetainedBlockInfo → Offer

pub record RawReport : Type 0 where
  pub missing : ℕ
  pub kept : ℕ
  pub not_in_source : ℕ
  pub rejected : ℕ
  pub unreachable : List String

pub record ImportReport : Type 0 where
  pub gaps : ℕ
  pub imported : ℕ
  pub not_in_source : ℕ
  pub rejected : ℕ
  pub flags_cleared : ℕ
  pub unreachable : List String

-- What became of one gap. `aborted` ends the run with an error.
pub data GapOutcome : Type 0 where
  skipped absent refused aborted : GapOutcome
  filled : Database → GapOutcome

-- How a run ends: the database it leaves, its report, the state of who is asked, and whether it went
-- through.
pub record Run {ℓ} (S : Type ℓ) (Report : Type 0) : Type ℓ where
  pub db : Database
  pub report : Report
  pub asked : S
  pub completed : Bool

-- The settings of a run.
pub record FillSettings : Type 0 where
  pub body_source : String
  pub resolution : String
  pub keep_raw : Bool

abbrev pub empty_report : ImportReport
empty_report = record {
  gaps = 0;
  imported = 0;
  not_in_source = 0;
  rejected = 0;
  flags_cleared = 0;
  unreachable = [];
}

module _ (env : Env) (tree : TxTree) (settings : FillSettings) where
  -- The writes for a body that was accepted: one database transaction.
  unfoldable pub write_gap :
      Database → ℕ → String → ℕ → RetainedBlockInfo → Option (List ℕ) → ℕ → GapOutcome
  unfolding record_contract_flags
  write_gap db height hash block_id retained bytes now =
      let source = settings.body_source in
      let written =
        mark_body_recovered (insert_transactions db block_id retained) block_id source in
      let close = λ (d : Database). filled (resolve_gap d height now settings.resolution) in
      elim bytes [
        | none ↦ close written
        | some b ↦
            let flagged = record_contract_flags env written height hash (some b) in
            if settings.keep_raw
            then elim (Archive.store env.chain env.zlib env.max_block_bytes flagged height hash b
                source now) [ err ↦ aborted | ok (stored, kept) ↦ close stored ]
            else close flagged
      ]

  -- The check of a body against the root on record, and its writes.
  unfoldable pub take_body :
      Database → ℕ → String → ℕ → String → RetainedBlockInfo → Option (List ℕ) → ℕ → GapOutcome
  unfolding check_body write_gap
  take_body db height hash block_id tx_root retained bytes now =
      elim (check_body tree retained tx_root) [
        | err ↦ refused
        | ok _ ↦ write_gap db height hash block_id retained bytes now
      ]

  unfoldable pub take_offer :
      Database → ℕ → String → ℕ → String → Result (Option Offer) → ℕ → GapOutcome
  unfolding take_body decode_retained_block
  take_offer db height hash block_id tx_root answer now = elim answer [
    | err ↦ refused
    | ok none ↦ absent
    | ok (some (body retained)) ↦ take_body db height hash block_id tx_root retained none now
    | ok (some (raw bytes)) ↦ elim (decode_retained_block env.chain bytes height hash) [
      | err ↦ refused
      | ok retained ↦ take_body db height hash block_id tx_root retained (some bytes) now
    ]
  ]

  module _ {ℓ} {S : Type ℓ} (find : S → ℕ → String → S × Result (Option Offer)) where
    -- The body of the loop over the gaps.
    unfoldable pub fill_gap : Database → ℕ → S → ℕ → S × GapOutcome
    unfolding take_offer
    fill_gap db height asked now = elim (canonical_hash_at db height) [
      | none ↦ (asked, skipped)
      | some (id, hash) ↦ elim (uncaptured_block_id db height hash) [
        | none ↦ (asked, skipped)
        | some block_id ↦ elim (block_by_id db block_id) [
          | none ↦ (asked, aborted)
          | some b ↦
              let (asked', answer) = find asked height hash in
              (asked', take_offer db height hash block_id b.tx_root answer now)
        ]
      ]
    ]

    unfoldable pub fill_loop : Database → ImportReport → S → List ℕ → ℕ → Run S ImportReport
    unfolding fill_gap
    fill_loop db report asked [] now = record {
      db = db;
      report = report;
      asked = asked;
      completed = true;
    }
    fill_loop db report asked (height ∷ heights) now =
        let (asked', outcome) = fill_gap db height asked now in
        elim outcome [
          | skipped ↦ fill_loop db report asked' heights (suc now)
          | absent ↦
              fill_loop db (record report { not_in_source = report.not_in_source + 1 }) asked'
                heights (suc now)
          | refused ↦
              fill_loop db (record report { rejected = report.rejected + 1 }) asked' heights
                (suc now)
          | aborted ↦ record { db = db; report = report; asked = asked'; completed = false }
          | filled db' ↦
              fill_loop db' (record report { imported = report.imported + 1 }) asked' heights
                (suc now)
        ]

    -- After the loop: the outputs that a recorded transaction spends, and the gaps that have a body.
    unfoldable pub finish_fill : Run S ImportReport → ℕ → Run S ImportReport
    unfolding clear_spent_in_gap_with_recorded_spend resolve_gaps_with_bodies
    finish_fill run now =
        let (cleared, n) = clear_spent_in_gap_with_recorded_spend run.db in
        record run {
          db = resolve_gaps_with_bodies cleared now;
          report = record run.report { flags_cleared = n };
        }

    unfoldable pub fill_gaps : Database → ℕ → S → ℕ → Run S ImportReport
    unfolding fill_loop finish_fill open_gap_heights
    fill_gaps db max asked now =
        let heights = open_gap_heights db 0 in
        let run =
          fill_loop db (record empty_report { gaps = length heights }) asked (take heights max)
            now in
        if run.completed then finish_fill run (now + length heights) else run

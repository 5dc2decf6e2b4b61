-- ===== src/Peers/Kept.antt =====
-- permanode/src/import.rs, `fill_gaps`: what a run keeps, and what its report counts.
use gb_parano1d_permanode.Prelude.{
  ℕ, suc, ◌+◌, ◌≤◌, ◌≡◌, ◌⊎◌, refl, subst, Option, none, some, String, List, [], ◌∷◌, length, take,
  arith, Bool-cases, Option-cases, inl, inr,
}
use gb_parano1d_permanode.Prelude.Result.{Result, ok, err, Result-cases}
use gb_parano1d_permanode.Prelude.Splits.{length-take_le}
use gb_parano1d_permanode.Store.Rows.{Database}
use gb_parano1d_permanode.Store.Blocks.{
  canonical_hash_at, uncaptured_block_id, block_by_id, mark_body_recovered,
}
use gb_parano1d_permanode.Store.Gaps.{open_gap_heights, resolve_gaps_with_bodies}
use gb_parano1d_permanode.Store.Bodies.{RetainedBlockInfo, insert_transactions}
use gb_parano1d_permanode.Store.Frame.{
  SameIndex, SameIndex-refl, SameIndex-trans, insert_transactions-SameIndex,
  mark_body_recovered-SameIndex, resolve_gap-SameIndex,
}
use gb_parano1d_permanode.Store.Live.{clear_spent_in_gap_with_recorded_spend}
use gb_parano1d_permanode.Decode.Retained.{decode_retained_block}
use gb_parano1d_permanode.Raw.Archive
use gb_parano1d_permanode.Indexer.Record.{Env, record_contract_flags}
use gb_parano1d_permanode.Indexer.Frame.{record_contract_flags-SameIndex, store-SameIndex}
use gb_parano1d_permanode.Peers.Check.{TxTree, check_body}
use gb_parano1d_permanode.Peers.Fill.{
  Offer, raw, body, ImportReport, GapOutcome, skipped, absent, refused, aborted, filled, Run,
  FillSettings, empty_report, write_gap, take_body, take_offer, fill_gap, fill_loop, finish_fill,
  fill_gaps,
}

GapOutcome-cases :
    (o : GapOutcome)
    → (o ≡ skipped)
      ⊎ ((o ≡ absent) ⊎ ((o ≡ refused) ⊎ ((o ≡ aborted) ⊎ ((db : Database) × (o ≡ filled db)))))
GapOutcome-cases skipped = inl refl
GapOutcome-cases absent = inr (inl refl)
GapOutcome-cases refused = inr (inr (inl refl))
GapOutcome-cases aborted = inr (inr (inr (inl refl)))
GapOutcome-cases (filled db) = inr (inr (inr (inr (db, refl))))

module _ (env : Env) (tree : TxTree) (settings : FillSettings) where
  -- The database that an outcome leaves.
  abbrev pub left_by : Database → GapOutcome → Database
  left_by db skipped = db
  left_by db absent = db
  left_by db refused = db
  left_by db aborted = db
  left_by db (filled db') = db'

  write_gap-SameIndex :
      (db : Database) (height : ℕ) (hash : String) (id : ℕ) (retained : RetainedBlockInfo)
      (bytes : Option (List ℕ)) (now : ℕ)
      → SameIndex db (left_by db (write_gap env tree settings db height hash id retained bytes now))
  unfolding write_gap
  write_gap-SameIndex db height hash id retained bytes now =
      let source = settings.body_source in
      let inserted = insert_transactions db id retained in
      let written = mark_body_recovered inserted id source in
      let first =
        SameIndex-trans db inserted written (insert_transactions-SameIndex db id retained)
          (mark_body_recovered-SameIndex inserted id source) in
      elim (Option-cases bytes) [
        | inl without ↦
            rw (write_gap, without)
              (SameIndex-trans db written _ first
                (resolve_gap-SameIndex written height now settings.resolution))
        | inr (b, given) ↦
            let flagged = record_contract_flags env written height hash (some b) in
            let second =
              SameIndex-trans db written flagged first
                (record_contract_flags-SameIndex env written height hash (some b)) in
            elim (Bool-cases settings.keep_raw) [
              | inr dropped ↦
                  rw (write_gap, given, dropped)
                    (SameIndex-trans db flagged _ second
                      (resolve_gap-SameIndex flagged height now settings.resolution))
              | inl kept ↦
                  elim (Result-cases (
                    Archive.store env.chain env.zlib env.max_block_bytes flagged height hash b
                      source now)) [
                        | inl failing ↦ rw (write_gap, given, kept, failing) (SameIndex-refl db)
                        | inr ((stored, new), done) ↦
                            let third = SameIndex-trans db flagged stored second (
                              store-SameIndex env flagged height hash b source now stored new
                                done) in
                            rw (write_gap, given, kept, done)
                              (SameIndex-trans db stored _ third
                                (resolve_gap-SameIndex stored height now settings.resolution))
                      ]
            ]
      ]

  take_body-SameIndex :
      (db : Database) (height : ℕ) (hash : String) (id : ℕ) (root : String)
      (retained : RetainedBlockInfo) (bytes : Option (List ℕ)) (now : ℕ)
      → SameIndex db
          (left_by db (take_body env tree settings db height hash id root retained bytes now))
  unfolding take_body
  take_body-SameIndex db height hash id root retained bytes now =
      elim (Result-cases (check_body tree retained root)) [
        | inl bad ↦ rw (take_body, bad) (SameIndex-refl db)
        | inr (u, good) ↦
            rw (take_body, good) (write_gap-SameIndex db height hash id retained bytes now)
      ]

  pub take_offer-SameIndex :
      (db : Database) (height : ℕ) (hash : String) (id : ℕ) (root : String)
      (answer : Result (Option Offer)) (now : ℕ)
      → SameIndex db (left_by db (take_offer env tree settings db height hash id root answer now))
  unfolding take_offer
  take_offer-SameIndex db height hash id root err now = SameIndex-refl db
  take_offer-SameIndex db height hash id root (ok none) now = SameIndex-refl db
  take_offer-SameIndex db height hash id root (ok (some (body retained))) now =
      take_body-SameIndex db height hash id root retained none now
  take_offer-SameIndex db height hash id root (ok (some (raw bytes))) now =
      elim (Result-cases (decode_retained_block env.chain bytes height hash)) [
        | inl bad ↦ rw (take_offer, bad) (SameIndex-refl db)
        | inr (retained, good) ↦
            rw (take_offer, good)
              (take_body-SameIndex db height hash id root retained (some bytes) now)
      ]

  module _ {S : Type 0} (find : S → ℕ → String → S × Result (Option Offer)) where
    fill_gap-SameIndex :
        (db : Database) (height : ℕ) (asked : S) (now : ℕ)
        → SameIndex db (left_by db (fill_gap env tree settings find db height asked now).1)
    unfolding fill_gap
    fill_gap-SameIndex db height asked now = elim (Option-cases (canonical_hash_at db height)) [
      | inl unknown ↦ rw (fill_gap, unknown) (SameIndex-refl db)
      | inr ((id, hash), known) ↦ elim (Option-cases (uncaptured_block_id db height hash)) [
        | inl recovered ↦ rw (fill_gap, known, recovered) (SameIndex-refl db)
        | inr (block, lacking) ↦ elim (Option-cases (block_by_id db block)) [
          | inl missing ↦ rw (fill_gap, known, lacking, missing) (SameIndex-refl db)
          | inr (b, row) ↦
              rw (fill_gap, known, lacking, row)
                (take_offer-SameIndex db height hash block b.tx_root (find asked height hash).1 now)
        ]
      ]
    ]

    -- What the loop keeps, and how many gaps its counters may count.
    abbrev counted : ImportReport → ℕ
    counted r = r.imported + r.not_in_source + r.rejected

    pub fill_loop-SameIndex :
        (db : Database) (report : ImportReport) (asked : S) (heights : List ℕ) (now : ℕ)
        → SameIndex db (fill_loop env tree settings find db report asked heights now).db
    unfolding fill_loop
    fill_loop-SameIndex db report asked [] now = SameIndex-refl db
    fill_loop-SameIndex db report asked (height ∷ heights) now =
        let gap = fill_gap env tree settings find db height asked now in
        let first = fill_gap-SameIndex db height asked now in
        elim (GapOutcome-cases gap.1) [
          | inl e ↦ rw (fill_loop, e) (fill_loop-SameIndex db report gap.0 heights (suc now))
          | inr (inl e) ↦ rw (fill_loop, e) (fill_loop-SameIndex db _ gap.0 heights (suc now))
          | inr (inr (inl e)) ↦ rw (fill_loop, e) (fill_loop-SameIndex db _ gap.0 heights (suc now))
          | inr (inr (inr (inl e))) ↦ rw (fill_loop, e) (SameIndex-refl db)
          | inr (inr (inr (inr (db', e)))) ↦
              let step : SameIndex db db' =
                subst (λ (o : GapOutcome). SameIndex db (left_by db o)) e first in
              rw (fill_loop, e)
                (SameIndex-trans db db' _ step (fill_loop-SameIndex db' _ gap.0 heights (suc now)))
        ]

    finish_fill-SameIndex :
        (run : Run S ImportReport) (now : ℕ)
        → SameIndex run.db (finish_fill env tree settings find run now).db
    unfolding finish_fill clear_spent_in_gap_with_recorded_spend resolve_gaps_with_bodies
    finish_fill-SameIndex run now = record { same_keys = refl; same_log = refl }

    -- Whoever is asked and whatever the answers, a run keeps the keys of the block rows and the status
    -- log, so every height keeps its canonical block and a sound database stays sound.
    pub fill_gaps-SameIndex :
        (db : Database) (max : ℕ) (asked : S) (now : ℕ)
        → SameIndex db (fill_gaps env tree settings find db max asked now).db
    unfolding fill_gaps
    fill_gaps-SameIndex db max asked now =
        let heights = open_gap_heights db 0 in
        let empty = record empty_report { gaps = length heights } in
        let run = fill_loop env tree settings find db empty asked (take heights max) now in
        let looped = fill_loop-SameIndex db empty asked (take heights max) now in
        elim (Bool-cases run.completed) [
          | inr ended ↦ rw (fill_gaps, ended) looped
          | inl through ↦
              rw (fill_gaps, through)
                (SameIndex-trans db run.db _ looped
                  (finish_fill-SameIndex run (now + length heights)))
        ]

    fill_loop-counts :
        (db : Database) (report : ImportReport) (asked : S) (heights : List ℕ) (now : ℕ)
        → (counted (fill_loop env tree settings find db report asked heights now).report
            ≤ counted report + length heights)
          × ((fill_loop env tree settings find db report asked heights now).report.gaps
              ≡ report.gaps)
    unfolding fill_loop
    fill_loop-counts db report asked [] now = (omega arith, refl)
    fill_loop-counts db report asked (height ∷ heights) now =
        let gap = fill_gap env tree settings find db height asked now in
        let later =
          λ (d : Database) (r : ImportReport). fill_loop-counts d r gap.0 heights (suc now) in
        elim (GapOutcome-cases gap.1) [
          | inl e ↦ let ih = later db report in rw (fill_loop, e) (omega (arith, ih.0), ih.1)
          | inr (inl e) ↦
              let ih = later db (record report { not_in_source = report.not_in_source + 1 }) in
              rw (fill_loop, e) (omega (arith, ih.0), ih.1)
          | inr (inr (inl e)) ↦
              let ih = later db (record report { rejected = report.rejected + 1 }) in
              rw (fill_loop, e) (omega (arith, ih.0), ih.1)
          | inr (inr (inr (inl e))) ↦ rw (fill_loop, e) (omega arith, refl)
          | inr (inr (inr (inr (db', e)))) ↦
              let ih = later db' (record report { imported = report.imported + 1 }) in
              rw (fill_loop, e) (omega (arith, ih.0), ih.1)
        ]

    -- The report of a run has as many gaps as are open, and its counts of imported, missing and
    -- rejected bodies together are at most these and at most the number that was asked for.
    pub fill_gaps-counts :
        (db : Database) (max : ℕ) (asked : S) (now : ℕ)
        → let report = (fill_gaps env tree settings find db max asked now).report in
          (report.gaps ≡ length (open_gap_heights db 0))
          × (report.imported + report.not_in_source + report.rejected ≤ report.gaps)
          × (report.imported + report.not_in_source + report.rejected ≤ max)
    unfolding fill_gaps finish_fill
    fill_gaps-counts db max asked now =
        let heights = open_gap_heights db 0 in
        let empty = record empty_report { gaps = length heights } in
        let run = fill_loop env tree settings find db empty asked (take heights max) now in
        let (few, gaps) = fill_loop-counts db empty asked (take heights max) now in
        let (at_most, within) = length-take_le heights max in
        elim (Bool-cases run.completed) [
          | inr ended ↦
              rw (fill_gaps, ended)
                (
                  gaps,
                  omega (arith, few, at_most, within, gaps),
                  omega (arith, few, at_most, within, gaps),
                )
          | inl through ↦
              rw (fill_gaps, through)
                (
                  gaps,
                  omega (arith, few, at_most, within, gaps),
                  omega (arith, few, at_most, within, gaps),
                )
        ]

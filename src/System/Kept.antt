-- ===== src/System/Kept.antt =====
-- The operations that write no block row and no status: import of receipts, gaps, raw bytes and
-- sightings, and pruning (permanode/src/import.rs, core/src/db.rs).
use gb_parano1d_permanode.Prelude.{
  ℕ, suc, ◌-◌, ◌≡◌, ◌⊎◌, refl, subst, Bool, Option, none, some, String, List, [], ◌∷◌, ltb, map,
  retain, if◌then◌else◌, Bool-cases, Option-cases, List-cases, inl, inr,
}
use gb_parano1d_permanode.Prelude.Result.{Result, ok, err, Result-cases}
use gb_parano1d_permanode.Prelude.Words.{u64_max}
use gb_parano1d_permanode.Store.Rows.{BlockRow, Database}
use gb_parano1d_permanode.Store.Blocks.{is_block}
use gb_parano1d_permanode.Store.Bodies.{is_prunable, prune_older_than}
use gb_parano1d_permanode.Store.Frame.{
  SameIndex, SameIndex-refl, SameIndex-trans, keys-update_where,
}
use gb_parano1d_permanode.Store.Pruning.{prune_each-SameIndex}
use gb_parano1d_permanode.Store.Sightings.{
  is_unseen, set_tip_seen, adopt_tip_seen, names_no_class, lacks_class_of, adopt_proof_class,
  blocks_missing_seen, blocks_missing_proof_class,
}
use gb_parano1d_permanode.Raw.Archive
use gb_parano1d_permanode.Raw.Archive.{blocks_missing_raw}
use gb_parano1d_permanode.Indexer.Record.{Env}
use gb_parano1d_permanode.Indexer.Frame.{store-SameIndex}
use gb_parano1d_permanode.Peers.Fill.{Offer, RawReport, FillSettings}
use gb_parano1d_permanode.Peers.FillRaw.{
  RawOutcome, raw_absent, raw_refused, raw_aborted, raw_stored, take_raw, raw_fill_loop, fill_raw,
}
use Prim.Native.String.{◌++◌ as text_append}
use gb_parano1d_permanode.Peers.Check.{TxTree}
use gb_parano1d_permanode.Peers.Kept.{fill_gaps-SameIndex}
use gb_parano1d_permanode.Peers.Ask.{
  Peers, ask_peers, fetch_peer_offer, lowest_raw, fill_from_peers, fill_raw_from_peers,
}
use gb_parano1d_permanode.Peers.Source.{source_offer, import_bodies, import_raw}
use gb_parano1d_permanode.Peers.Own.{Rows-cases}
use gb_parano1d_permanode.Peers.Sightings.{
  SightingPeers, adopt_seen, adopt_classes, first_and_last, fill_seen_loop, fill_seen_from_peers,
  fill_proof_loop, fill_proof_from_peers,
}

pub set_tip_seen-SameIndex :
    (db : Database) (height : ℕ) (hash : String) (at_ms : ℕ)
    → SameIndex db (set_tip_seen db height hash at_ms).0
unfolding set_tip_seen
set_tip_seen-SameIndex db height hash at_ms = record {
  same_keys = keys-update_where (is_block height hash) _ db.blocks (λ b. refl);
  same_log = refl;
}

pub adopt_tip_seen-SameIndex :
    (db : Database) (height : ℕ) (hash : String) (at_ms : ℕ)
    → SameIndex db (adopt_tip_seen db height hash at_ms).0
unfolding adopt_tip_seen
adopt_tip_seen-SameIndex db height hash at_ms = record {
  same_keys = keys-update_where (is_unseen height hash) _ db.blocks (λ b. refl);
  same_log = refl;
}

pub adopt_proof_class-SameIndex :
    (db : Database) (height : ℕ) (hash class : String)
    → SameIndex db (adopt_proof_class db height hash class).0
unfolding adopt_proof_class
adopt_proof_class-SameIndex db height hash class = elim (Bool-cases (names_no_class class)) [
  | inl nothing ↦ rw (adopt_proof_class, nothing) (SameIndex-refl db)
  | inr named ↦
      rw (adopt_proof_class, named)
        (record {
          same_keys = keys-update_where (lacks_class_of height hash) _ db.blocks (λ b. refl);
          same_log = refl;
        })
]

adopt_seen-SameIndex :
    (db : Database) (answer : List (ℕ × String × ℕ)) (n : ℕ)
    → SameIndex db (adopt_seen db answer n).0
unfolding adopt_seen
adopt_seen-SameIndex db [] n = SameIndex-refl db
adopt_seen-SameIndex db ((height, hash, at_ms) ∷ rest) n =
    let next = (adopt_tip_seen db height hash at_ms).0 in
    SameIndex-trans db next _ (adopt_tip_seen-SameIndex db height hash at_ms)
      (adopt_seen-SameIndex next rest _)

adopt_classes-SameIndex :
    (db : Database) (answer : List (ℕ × String × String)) (n : ℕ)
    → SameIndex db (adopt_classes db answer n).0
unfolding adopt_classes
adopt_classes-SameIndex db [] n = SameIndex-refl db
adopt_classes-SameIndex db ((height, hash, class) ∷ rest) n =
    let next = (adopt_proof_class db height hash class).0 in
    SameIndex-trans db next _ (adopt_proof_class-SameIndex db height hash class)
      (adopt_classes-SameIndex next rest _)

module _ (net : SightingPeers) where
  fill_seen_loop-SameIndex :
      (tip : ℕ) (db : Database) (peers : List String) (n : ℕ)
      → SameIndex db (fill_seen_loop net tip db peers n).db
  unfolding fill_seen_loop
  fill_seen_loop-SameIndex tip db [] n = SameIndex-refl db
  fill_seen_loop-SameIndex tip db (peer ∷ peers) n =
      let skip = fill_seen_loop-SameIndex tip db peers n in
      elim (Option-cases (net.seen_from peer)) [
        | inl silent ↦ rw (fill_seen_loop, silent) skip
        | inr (from, start) ↦
            elim (Option-cases (first_and_last (blocks_missing_seen db from tip 2_000))) [
              | inl nothing ↦ rw (fill_seen_loop, start, nothing) skip
              | inr ((lo, hi), range) ↦ elim (Rows-cases (net.seen peer lo hi)) [
                | inl e ↦ rw (fill_seen_loop, start, range, e) skip
                | inr (inl e) ↦ rw (fill_seen_loop, start, range, e) (SameIndex-refl db)
                | inr (inr (answer, e)) ↦
                    let next = (adopt_seen db answer n).0 in
                    rw (fill_seen_loop, start, range, e)
                      (SameIndex-trans db next _ (adopt_seen-SameIndex db answer n)
                        (fill_seen_loop-SameIndex tip next peers _))
              ]
            ]
      ]

  fill_proof_loop-SameIndex :
      (from : ℕ) (db : Database) (peers : List String) (n : ℕ)
      → SameIndex db (fill_proof_loop net from db peers n).db
  unfolding fill_proof_loop
  fill_proof_loop-SameIndex from db [] n = SameIndex-refl db
  fill_proof_loop-SameIndex from db (peer ∷ peers) n =
      elim (List-cases (blocks_missing_proof_class db from 200)) [
        | inl nothing ↦ rw (fill_proof_loop, nothing) (SameIndex-refl db)
        | inr (height, heights, missing) ↦ elim (Rows-cases (net.proof peer (height ∷ heights))) [
          | inl e ↦ rw (fill_proof_loop, missing, e) (fill_proof_loop-SameIndex from db peers n)
          | inr (inl e) ↦ rw (fill_proof_loop, missing, e) (SameIndex-refl db)
          | inr (inr (answer, e)) ↦
              let next = (adopt_classes db answer n).0 in
              rw (fill_proof_loop, missing, e)
                (SameIndex-trans db next _ (adopt_classes-SameIndex db answer n)
                  (fill_proof_loop-SameIndex from next peers _))
        ]
      ]

  pub fill_seen_from_peers-SameIndex :
      (db : Database) (peers : List String) → SameIndex db (fill_seen_from_peers net db peers).db
  unfolding fill_seen_from_peers
  fill_seen_from_peers-SameIndex db peers = fill_seen_loop-SameIndex _ db peers 0

  pub fill_proof_from_peers-SameIndex :
      (db : Database) (peers : List String) (from : ℕ)
      → SameIndex db (fill_proof_from_peers net db peers from).db
  unfolding fill_proof_from_peers
  fill_proof_from_peers-SameIndex db peers from = fill_proof_loop-SameIndex from db peers 0

pub prune_older_than-SameIndex :
    (db : Database) (cutoff : ℕ) → SameIndex db (prune_older_than db cutoff).0
unfolding prune_older_than
prune_older_than-SameIndex db cutoff =
    prune_each-SameIndex db (map (λ (b : BlockRow). b.id) (retain (is_prunable cutoff) db.blocks))

RawOutcome-cases :
    (o : RawOutcome)
    → (o ≡ raw_absent)
      ⊎ ((o ≡ raw_refused)
          ⊎ ((o ≡ raw_aborted) ⊎ ((db : Database) × (kept : Bool) × (o ≡ raw_stored db kept))))
RawOutcome-cases raw_absent = inl refl
RawOutcome-cases raw_refused = inr (inl refl)
RawOutcome-cases raw_aborted = inr (inr (inl refl))
RawOutcome-cases (raw_stored db kept) = inr (inr (inr (db, kept, refl)))

module _ (env : Env) (source : String) where
  pub take_raw-SameIndex :
      (db : Database) (height : ℕ) (hash : String) (answer : Result (Option (List ℕ))) (now : ℕ)
      (db' : Database) (kept : Bool)
      → take_raw env source db height hash answer now ≡ raw_stored db' kept
      → SameIndex db db'
  unfolding take_raw
  take_raw-SameIndex db height hash err now db' kept e = cc
  take_raw-SameIndex db height hash (ok none) now db' kept e = cc
  take_raw-SameIndex db height hash (ok (some bytes)) now db' kept e =
      elim (Result-cases
        (Archive.verify env.chain env.zlib env.max_block_bytes bytes height hash)) [
          | inl bad ↦ let e' : raw_refused ≡ raw_stored db' kept = rw (take_raw, bad) at e in cc
          | inr (u, good) ↦
              elim (Result-cases (
                Archive.store env.chain env.zlib env.max_block_bytes db height hash bytes source
                  now)) [
                    | inl failing ↦
                        let e' : raw_aborted ≡ raw_stored db' kept =
                          rw (take_raw, good, failing) at e in
                        cc
                    | inr ((d, new), done) ↦
                        let e' : raw_stored d new ≡ raw_stored db' kept =
                          rw (take_raw, good, done) at e in
                        let same : d ≡ db' = cc in
                        subst (SameIndex db) same
                          (store-SameIndex env db height hash bytes source now d new done)
                  ]
        ]

  module _ {S : Type 0} (find : S → ℕ → String → S × Result (Option (List ℕ))) where
    raw_fill_loop-SameIndex :
        (db : Database) (report : RawReport) (asked : S) (blocks : List (ℕ × String)) (now : ℕ)
        → SameIndex db (raw_fill_loop env source find db report asked blocks now).db
    unfolding raw_fill_loop
    raw_fill_loop-SameIndex db report asked [] now = SameIndex-refl db
    raw_fill_loop-SameIndex db report asked ((height, hash) ∷ rest) now =
        let answer = find asked height hash in
        elim (RawOutcome-cases (take_raw env source db height hash answer.1 now)) [
          | inl e ↦ rw (raw_fill_loop, e) (raw_fill_loop-SameIndex db _ answer.0 rest (suc now))
          | inr (inl e) ↦
              rw (raw_fill_loop, e) (raw_fill_loop-SameIndex db _ answer.0 rest (suc now))
          | inr (inr (inl e)) ↦ rw (raw_fill_loop, e) (SameIndex-refl db)
          | inr (inr (inr (db', kept, e))) ↦
              rw (raw_fill_loop, e)
                (SameIndex-trans db db' _
                  (take_raw-SameIndex db height hash answer.1 now db' kept e)
                  (raw_fill_loop-SameIndex db' _ answer.0 rest (suc now)))
        ]

    pub fill_raw-SameIndex :
        (db : Database) (blocks : List (ℕ × String)) (asked : S) (now : ℕ)
        → SameIndex db (fill_raw env source find db blocks asked now).db
    unfolding fill_raw
    fill_raw-SameIndex db blocks asked now = raw_fill_loop-SameIndex db _ asked blocks now

pub fill_raw_from_peers-SameIndex :
    (env : Env) (net : Peers) (db : Database) (peers : List String) (below max now : ℕ)
    → SameIndex db (fill_raw_from_peers env net db peers below max now).db
unfolding fill_raw_from_peers
fill_raw_from_peers-SameIndex env net db peers below max now =
    elim (Option-cases (lowest_raw net peers [] none).1) [
      | inl nobody ↦ rw (fill_raw_from_peers, nobody) (SameIndex-refl db)
      | inr (f, from) ↦ elim (Bool-cases (ltb f below)) [
        | inr above ↦ rw (fill_raw_from_peers, from, above) (SameIndex-refl db)
        | inl useful ↦
            rw (fill_raw_from_peers, from, useful)
              (fill_raw-SameIndex env "peer" _ db (blocks_missing_raw db f (below - 1) max) _ now)
      ]
    ]

pub import_raw-SameIndex :
    (env : Env) (source : Database) (has_raw : Bool) (db : Database) (now : ℕ)
    → SameIndex db (import_raw env source has_raw db now).db
unfolding import_raw
import_raw-SameIndex env source has_raw db now =
    let find : Unit {0} → ℕ → String → Unit {0} × Result (Option (List ℕ)) = λ asked height hash.
      (asked, Archive.load env.chain env.zlib env.max_block_bytes source height hash) in
    let candidates = if has_raw then blocks_missing_raw db 0 u64_max u64_max else [] in
    fill_raw-SameIndex env "import" find db candidates tt now

pub fill_from_peers-SameIndex :
    (env : Env) (tree : TxTree) (net : Peers) (db : Database) (peers : List String) (max : ℕ)
    (keep_raw : Bool) (now : ℕ)
    → SameIndex db (fill_from_peers env tree net db peers max keep_raw now).db
unfolding fill_from_peers
fill_from_peers-SameIndex env tree net db peers max keep_raw now =
    let settings : FillSettings = record {
      body_source = "peer";
      resolution = "recovered from a peer permanode";
      keep_raw = keep_raw;
    } in
    let find = λ (failed : List String) (height : ℕ) (hash : String).
      ask_peers (λ peer. fetch_peer_offer net peer height hash) peers failed in
    fill_gaps-SameIndex env tree settings find db max [] now

pub import_bodies-SameIndex :
    (env : Env) (source : Database) (has_raw : Bool) (tree : TxTree) (db : Database) (name : String)
    (keep_raw : Bool) (now : ℕ)
    → SameIndex db (import_bodies env source has_raw tree db name keep_raw now).db
unfolding import_bodies
import_bodies-SameIndex env source has_raw tree db name keep_raw now =
    let settings : FillSettings = record {
      body_source = "import";
      resolution = text_append "recovered via import from " name;
      keep_raw = keep_raw;
    } in
    let find : Unit {0} → ℕ → String → Unit {0} × Result (Option Offer) =
      λ asked height hash. (asked, source_offer env source has_raw height hash) in
    fill_gaps-SameIndex env tree settings find db u64_max tt now

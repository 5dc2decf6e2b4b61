-- ===== src/System.antt =====
-- The operations of the permanode together (permanode/src/indexer.rs, permanode/src/receipts.rs,
-- permanode/src/import.rs, core/src/db.rs): the databases that they lead to, in any order and
-- whatever the node, the peers and the files say.
mod Kept
mod Sound
mod Tests
use gb_parano1d_permanode.Prelude.{ℕ, ◌<◌, ◌≡◌, String, List, [], ◌∷◌, Bool, Option, some}
use gb_parano1d_permanode.Prelude.Result.{Result, ok}
use gb_parano1d_permanode.Store.Rows.{StatusRow, StateValue, Database, empty_database}
use gb_parano1d_permanode.Store.Bodies.{prune_block, prune_older_than}
use gb_parano1d_permanode.Store.Gaps.{set_state}
use gb_parano1d_permanode.Store.Index.{log}
use gb_parano1d_permanode.Store.Sightings.{set_tip_seen, adopt_tip_seen, adopt_proof_class}
use gb_parano1d_permanode.Indexer.Node.{RpcClient, Config}
use gb_parano1d_permanode.Indexer.Record.{
  Env, ingest_height, recheck_height, backfill_gap, keep_raw,
}
use gb_parano1d_permanode.Indexer.Poll.{poll_once}
use gb_parano1d_permanode.Indexer.Headers.{backfill_batch}
use gb_parano1d_permanode.Receipts.Decode.{ReceiptFormat, ReceiptVerdict}
use gb_parano1d_permanode.Receipts.Import.{ReceiptEntry, import_receipts}
use gb_parano1d_permanode.Peers.Check.{TxTree}
use gb_parano1d_permanode.Peers.Fill.{Offer, FillSettings, take_offer, filled}
use gb_parano1d_permanode.Peers.FillRaw.{take_raw, raw_stored}
use gb_parano1d_permanode.Peers.Ask.{Peers, fill_from_peers, fill_raw_from_peers}
use gb_parano1d_permanode.Peers.Source.{import_bodies, import_raw}
use gb_parano1d_permanode.Peers.Sightings.{
  SightingPeers, fill_seen_from_peers, fill_proof_from_peers,
}

-- A clock reading after all that the status log has.
abbrev pub IsPast : ℕ → List StatusRow → Type 0
IsPast now [] = Unit {0}
IsPast now (s ∷ l) = (s.observed_at < now) × IsPast now l

-- The code outside the repository and the settings.
pub record World : Type 0 where
  pub env : Env
  pub cfg : Config
  pub tree : TxTree
  pub format : ReceiptFormat

-- One operation, with any answers from outside. The threads of the permanode take turns between
-- their database transactions, so the calls that an operation is made of are steps of their own: a
-- run of these, in any order, is a run of threads that interleave. The answers, ids and heights that
-- a call goes on with are any, as it may have read them before another thread wrote.
pub data Step (w : World) (db : Database) : Database → Type 0 where
  polls :
      (rpc recheck_rpc gaps_rpc raw_rpc : RpcClient) (now : ℕ)
      → Step w db (poll_once w.env w.cfg rpc recheck_rpc gaps_rpc raw_rpc now db).db
  ingests :
      (rpc : RpcClient) (height now : ℕ) (db' : Database)
      → ingest_height w.env rpc w.cfg db height now ≡ ok (some db')
      → Step w db db'
  rechecks :
      (rpc : RpcClient) (height now : ℕ) (db' : Database)
      → recheck_height w.env rpc w.cfg db height now ≡ ok db'
      → Step w db db'
  fills_gap :
      (rpc : RpcClient) (height now : ℕ) → Step w db (backfill_gap w.env rpc w.cfg db height now)
  keeps_raw :
      (height : ℕ) (hash : String) (raw : Option (List ℕ)) (source : String) (now : ℕ)
      → Step w db (keep_raw w.env w.cfg db height hash raw source now)
  sets_state : (key : String) (value : StateValue) → Step w db (set_state db key value)
  backfills_headers :
      (rpc : RpcClient) (next : ℕ) (hash : String) (now : ℕ) (db' : Database)
      → backfill_batch rpc db next hash now ≡ ok db'
      → Step w db db'
  imports_receipts :
      (verify : String → Result ReceiptVerdict) (entries : List ReceiptEntry) (now : ℕ)
      → Step w db (import_receipts verify w.format db [] entries now).0
  fills_gaps :
      (net : Peers) (peers : List String) (max : ℕ) (keep_raw : Bool) (now : ℕ)
      → Step w db (fill_from_peers w.env w.tree net db peers max keep_raw now).db
  takes_offer :
      (settings : FillSettings) (height : ℕ) (hash : String) (id : ℕ) (root : String)
      (answer : Result (Option Offer)) (now : ℕ) (db' : Database)
      → take_offer w.env w.tree settings db height hash id root answer now ≡ filled db'
      → Step w db db'
  fills_raw :
      (net : Peers) (peers : List String) (below max now : ℕ)
      → Step w db (fill_raw_from_peers w.env net db peers below max now).db
  takes_raw :
      (source : String) (height : ℕ) (hash : String) (answer : Result (Option (List ℕ))) (now : ℕ)
      (db' : Database) (kept : Bool)
      → take_raw w.env source db height hash answer now ≡ raw_stored db' kept
      → Step w db db'
  imports_bodies :
      (source : Database) (has_raw : Bool) (name : String) (keep_raw : Bool) (now : ℕ)
      → Step w db (import_bodies w.env source has_raw w.tree db name keep_raw now).db
  imports_raw :
      (source : Database) (has_raw : Bool) (now : ℕ)
      → Step w db (import_raw w.env source has_raw db now).db
  sees_tip :
      (height : ℕ) (hash : String) (at_ms : ℕ) → Step w db (set_tip_seen db height hash at_ms).0
  fills_seen :
      (net : SightingPeers) (peers : List String) → Step w db (fill_seen_from_peers net db peers).db
  adopts_seen :
      (height : ℕ) (hash : String) (at_ms : ℕ) → Step w db (adopt_tip_seen db height hash at_ms).0
  fills_proof :
      (net : SightingPeers) (peers : List String) (from : ℕ)
      → Step w db (fill_proof_from_peers net db peers from).db
  adopts_proof :
      (height : ℕ) (hash class : String) → Step w db (adopt_proof_class db height hash class).0
  prunes : (cutoff : ℕ) → Step w db (prune_older_than db cutoff).0
  prunes_block : (id : ℕ) → Step w db (prune_block db id)

-- The databases that operations lead to from a fresh one.
pub data Reachable (w : World) : Database → Type 0 where
  fresh : Reachable w empty_database
  after : (db db' : Database) → Reachable w db → Step w db db' → Reachable w db'

-- The first clock reading of a step that writes statuses is after all that the log has.
abbrev IsTimely : Database → ℕ → Type 0
IsTimely db now = (0 < now) × IsPast now (log db)

module _ (w : World) where
  abbrev pub IsTimelyStep : (db db' : Database) → Step w db db' → Type 0
  IsTimelyStep db _ (polls rpc recheck_rpc gaps_rpc raw_rpc now) = IsTimely db now
  IsTimelyStep db _ (ingests rpc height now db' e) = IsTimely db now
  IsTimelyStep db _ (rechecks rpc height now db' e) = IsTimely db now
  IsTimelyStep db _ (backfills_headers rpc next hash now db' e) = IsTimely db now
  IsTimelyStep db _ _ = Unit {0}

  -- A run in which the clock of every such step reads later than the log.
  abbrev pub IsTimelyRun : (db : Database) → Reachable w db → Type 0
  IsTimelyRun _ fresh = Unit {0}
  IsTimelyRun _ (after db db' run step) = IsTimelyRun db run × IsTimelyStep db db' step

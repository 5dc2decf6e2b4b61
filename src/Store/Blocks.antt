-- ===== src/Store/Blocks.antt =====
-- core/src/db.rs and permanode/src/indexer.rs: the rows of `blocks`, their status log and the
-- lookups of the canonical block at a height.
use gb_parano1d_permanode.Prelude.{
  ℕ, max, Bool, true, false, ◌&&◌, not, Option, none, some, String, List, [], ◌∷◌, str_eq, ◌==◌,
  if◌then◌else◌, any, find, is_some,
}
use mathlib.Core.Option
use gb_parano1d_permanode.Store.Rows.{
  Status, canonical, orphaned, BlockRow, StatusRow, Database, update_where, insert_or_ignore,
  next_id,
}

-- The node's `BlockHeaderInfo`.
pub record BlockHeaderInfo : Type 0 where
  pub height : ℕ
  pub hash : String
  pub prev_hash : String
  pub state_root : String
  pub tx_root : String
  pub timestamp : ℕ
  pub miner : String
  pub nonce_hex : String
  pub difficulty_target : String
  pub log_slots : ℕ
  pub active_slot_count : ℕ
  pub alloc_counter : ℕ

-- `HEADER_ONLY_SOURCE`
abbrev pub header_only_source : String
header_only_source = "header"

-- `ARCHIVED`: `body_source IS NOT 'header'`, true for NULL.
abbrev pub is_archived_source : Option String → Bool
is_archived_source none = true
is_archived_source (some source) = not (str_eq source header_only_source)

abbrev pub is_archived : BlockRow → Bool
is_archived b = is_archived_source b.body_source

-- `WHERE height = ?1 AND hash = ?2`
abbrev pub is_block : ℕ → String → BlockRow → Bool
is_block height hash b = b.height == height && str_eq b.hash hash

abbrev pub has_id : ℕ → BlockRow → Bool
has_id id b = b.id == id

-- The row with an id, as a join finds it.
unfoldable pub block_by_id : Database → ℕ → Option BlockRow
block_by_id db id = find (has_id id) db.blocks

unfoldable pub block_id : Database → ℕ → String → Option ℕ
block_id db height hash =
    Option.map (λ (b : BlockRow). b.id) (find (is_block height hash) db.blocks)

-- `MAX(observed_at)` over a block's rows of the status log.
unfoldable pub latest_observed : List StatusRow → ℕ → ℕ
latest_observed [] id = 0
latest_observed (s ∷ log) id =
    if s.block_id == id then max s.observed_at (latest_observed log id) else latest_observed log id

abbrev pub is_canonical_status : Status → Bool
is_canonical_status canonical = true
is_canonical_status orphaned = false

-- The `WHERE` clause of `canonical_hash_at` on a row of the join.
abbrev pub is_current_canonical : Database → ℕ → StatusRow → Bool
is_current_canonical db height s =
    is_canonical_status s.status
    && (s.observed_at == latest_observed db.block_status_log s.block_id)
    && is_some (find (λ b. has_id s.block_id b && (b.height == height)) db.blocks)

-- `ORDER BY s.id DESC LIMIT 1` is the first row of the newest-first log that fits.
unfoldable pub canonical_hash_at : Database → ℕ → Option (ℕ × String)
unfolding latest_observed block_by_id
canonical_hash_at db height = elim (find (is_current_canonical db height) db.block_status_log) [
  | none ↦ none
  | some s ↦ Option.map (λ (b : BlockRow). (s.block_id, b.hash)) (block_by_id db s.block_id)
]

-- `canonical_block_filter`: the newest row of a block's log says `canonical`.
unfoldable pub canonical_block_filter : Database → ℕ → Bool
canonical_block_filter db id =
    elim (find (λ (s : StatusRow). s.block_id == id) db.block_status_log) [
      | none ↦ false
      | some s ↦ is_canonical_status s.status
    ]

abbrev pub log_status : ℕ → Status → ℕ → Database → Database
log_status id status now db = record db {
  block_status_log =
      (record { block_id = id; status = status; observed_at = now }) ∷ db.block_status_log;
}

unfoldable pub mark_orphaned : Database → ℕ → ℕ → Database
mark_orphaned db id now = log_status id orphaned now db

-- The row that `insert_block_header_row` would write.
abbrev pub header_row : BlockHeaderInfo → Bool → Option String → ℕ → ℕ → BlockRow
header_row h body_captured body_source now id = record {
  id = id;
  height = h.height;
  hash = h.hash;
  prev_hash = h.prev_hash;
  state_root = h.state_root;
  tx_root = h.tx_root;
  timestamp = h.timestamp;
  miner = h.miner;
  nonce_hex = h.nonce_hex;
  difficulty_target = h.difficulty_target;
  proof_class = none;
  reward_micronoid = none;
  total_fees_micronoid = none;
  body_captured = body_captured;
  body_source = body_source;
  first_seen_at = now;
  log_slots = some h.log_slots;
  contracts_scanned = false;
  tx_count_total = none;
  tip_seen_at_ms = none;
}

abbrev pub same_block : BlockRow → BlockRow → Bool
same_block a b = is_block a.height a.hash b

-- The insert, which does nothing where the block is on record.
unfoldable pub insert_block_row : Database → BlockHeaderInfo → Bool → Option String → ℕ → Database
insert_block_row db h body_captured body_source now = record db {
  blocks =
      insert_or_ignore same_block
        (header_row h body_captured body_source now (next_id (λ (b : BlockRow). b.id) db.blocks))
        db.blocks;
}

-- The block's id (`query_row` after the insert), and
-- the database with its `canonical` row logged.
unfoldable pub insert_block_header_row :
    Database → BlockHeaderInfo → Bool → Option String → ℕ → Option (ℕ × Database)
unfolding insert_block_row block_id
insert_block_header_row db h body_captured body_source now =
    let db' = insert_block_row db h body_captured body_source now in
    Option.map (λ (id : ℕ). (id, log_status id canonical now db')) (block_id db' h.height h.hash)

unfoldable pub is_header_only : Database → ℕ → Bool
unfolding block_by_id
is_header_only db id = elim (block_by_id db id) [ none ↦ false | some b ↦ not (is_archived b) ]

unfoldable pub uncaptured_block_id : Database → ℕ → String → Option ℕ
uncaptured_block_id db height hash =
    Option.map (λ (b : BlockRow). b.id)
      (find (λ b. is_block height hash b && not b.body_captured && is_archived b) db.blocks)

unfoldable pub mark_body_recovered : Database → ℕ → String → Database
mark_body_recovered db id body_source = record db {
  blocks =
      update_where (has_id id)
        (λ b. record b { body_captured = true; body_source = some body_source }) db.blocks;
}

-- The node's header as `HeaderOnlyBlock`, and its row below the archive.
pub data InsertOutcome : Type 0 where
  inserted : Database → InsertOutcome
  already : InsertOutcome
  conflict : InsertOutcome

unfoldable pub insert_header_only_block : Database → BlockHeaderInfo → ℕ → InsertOutcome
insert_header_only_block db h now =
    let existing = λ (b : BlockRow). b.height == h.height in
    if any (λ b. existing b && str_eq b.hash h.hash) db.blocks
    then already
    else if any existing db.blocks
    then conflict
    else let id = next_id (λ (b : BlockRow). b.id) db.blocks in
      let row = header_row h false (some header_only_source) now id in
      inserted (log_status id canonical now (record db { blocks = row ∷ db.blocks }))

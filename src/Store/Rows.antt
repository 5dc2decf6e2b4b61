-- ===== src/Store/Rows.antt =====
-- core/src/db.rs, `init_schema` and `migrate_locked`: the tables. Heights, amounts and times are
-- natural numbers; a time stamp in text (`observed_at`, `first_seen_at`, …) is the number that
-- orders it among the others, since the code only compares it; a creation id, kept as decimal
-- text, is its number.
use gb_parano1d_permanode.Prelude.{
  ℕ, ◌+◌, max, Bool, Option, String, List, [], if◌then◌else◌, ◌∷◌, any,
}

pub data Status : Type 0 where
  canonical : Status
  orphaned : Status

pub record BlockRow : Type 0 where
  pub id : ℕ
  pub height : ℕ
  pub hash : String
  pub prev_hash : String
  pub state_root : String
  pub tx_root : String
  pub timestamp : ℕ
  pub miner : String
  pub nonce_hex : String
  pub difficulty_target : String
  pub proof_class : Option String
  pub reward_micronoid : Option ℕ
  pub total_fees_micronoid : Option String
  pub body_captured : Bool
  pub body_source : Option String
  pub first_seen_at : ℕ
  pub log_slots : Option ℕ
  pub contracts_scanned : Bool
  pub tx_count_total : Option ℕ
  pub tip_seen_at_ms : Option ℕ

-- The place of a row in the list stands for its id: newer rows come first.
pub record StatusRow : Type 0 where
  pub block_id : ℕ
  pub status : Status
  pub observed_at : ℕ

pub record TransactionRow : Type 0 where
  pub id : ℕ
  pub block_id : ℕ
  pub position : ℕ
  pub txid : String
  pub page_count : ℕ
  pub fee_micronoid : ℕ
  pub coinbase : Bool
  pub development_payout : Bool
  pub epoch_anchor : String
  pub input_owner : Option String
  pub input_sum_micronoid : String
  pub output_sum_micronoid : String
  pub contract_flags : ℕ
  pub source : Option String

pub record PageHashRow : Type 0 where
  pub tx_id : ℕ
  pub idx : ℕ
  pub page_hash : String

pub record InputRow : Type 0 where
  pub tx_id : ℕ
  pub idx : ℕ
  pub page : ℕ
  pub lane : ℕ
  pub slot_index : ℕ
  pub amount_micronoid : ℕ
  pub creation_id : ℕ

pub record OutputRow : Type 0 where
  pub tx_id : ℕ
  pub idx : ℕ
  pub page : ℕ
  pub lane : ℕ
  pub slot_index : ℕ
  pub amount_micronoid : ℕ
  pub owner : String
  pub creation_id : Option ℕ
  pub spent_in_gap : Bool
  pub spent_in_gap_at : Option ℕ

pub record ReceiptRow : Type 0 where
  pub tx_id : ℕ
  pub receipt_hex : String
  pub imported_at : ℕ

pub record GapRow : Type 0 where
  pub height : ℕ
  pub hash : Option String
  pub detected_at : ℕ
  pub note : String
  pub resolved_at : Option ℕ
  pub resolution : Option String

pub record RawRow : Type 0 where
  pub block_id : ℕ
  pub codec : String
  pub raw_len : ℕ
  pub bytes : List ℕ
  pub source : String
  pub stored_at : ℕ

-- A value of `indexer_state`: the decimal text of a number, or another text.
pub data StateValue : Type 0 where
  number : ℕ → StateValue
  text : String → StateValue

pub record Database : Type 0 where
  pub blocks : List BlockRow
  pub block_status_log : List StatusRow
  pub transactions : List TransactionRow
  pub tx_page_hashes : List PageHashRow
  pub tx_inputs : List InputRow
  pub tx_outputs : List OutputRow
  pub tx_receipts : List ReceiptRow
  pub ingest_gaps : List GapRow
  pub raw_blocks : List RawRow
  pub indexer_state : List (String × StateValue)

-- A fresh database, after `init_schema` and `migrate`.
abbrev pub empty_database : Database
empty_database = record {
  blocks = [];
  block_status_log = [];
  transactions = [];
  tx_page_hashes = [];
  tx_inputs = [];
  tx_outputs = [];
  tx_receipts = [];
  ingest_gaps = [];
  raw_blocks = [];
  indexer_state = [];
}

-- `UPDATE … WHERE`
abbrev pub update_where {ℓ} : {A : Type ℓ} → (A → Bool) → (A → A) → List A → List A
update_where p f [] = []
update_where p f (r ∷ rs) = (if p r then f r else r) ∷ update_where p f rs

-- `INSERT … ON CONFLICT DO NOTHING`, where `same` compares the keys.
abbrev pub insert_or_ignore {ℓ} : {A : Type ℓ} → (A → A → Bool) → A → List A → List A
insert_or_ignore same row rs = if any (same row) rs then rs else row ∷ rs

-- An integer primary key that the statement leaves out is one more than the greatest one.
abbrev pub next_id {ℓ} : {A : Type ℓ} → (A → ℕ) → List A → ℕ
next_id id [] = 1
next_id id (r ∷ rs) = max (id r + 1) (next_id id rs)

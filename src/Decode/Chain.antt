-- ===== src/Decode/Chain.antt =====
-- What permanode/src/decode.rs, raw.rs and receipts.rs use of the crates `noid_chain` and `noid_tx`,
-- which are not part of the repository: a parameter of the model. Hashes and roots stand as their
-- hex text, and an owner as its bech32 text.
use gb_parano1d_permanode.Prelude.{ℕ, Bool, Option, String, List}

-- An item of `body.live_inputs()` and of `body.live_outputs()`, with its lane.
pub record LiveInput : Type 0 where
  pub lane : ℕ
  pub slot_index : ℕ
  pub amount : ℕ
  pub creation_id : ℕ

pub record LiveOutput : Type 0 where
  pub lane : ℕ
  pub slot_index : ℕ
  pub amount : ℕ
  pub owner : String

-- A page: `noid_tx::Transaction`.
pub record Page : Type 0 where
  pub page_txid : String
  pub live_inputs : List LiveInput
  pub live_outputs : List LiveOutput
  pub epoch_anchor : String
  pub validity_bitmap : ℕ

-- A paged spend: an element of `stream.groups`, with its facts.
pub record Group : Type 0 where
  pub start_page : ℕ
  pub page_count : ℕ
  pub logical_txid : String
  pub live_inputs : ℕ
  pub live_outputs : ℕ
  pub fee : ℕ
  pub epoch_anchor : String
  pub input_owner : String
  pub input_sum : ℕ
  pub output_sum : ℕ

pub data BlockProofClass : Type 0 where
  b25 b255 : BlockProofClass

-- The result of `validate_block_page_stream`, with its methods.
pub record PageStream : Type 0 where
  pub has_development_payout : Bool
  pub groups : List Group
  pub page_count : ℕ
  pub live_inputs : ℕ
  pub live_outputs : ℕ
  pub proof_class : BlockProofClass
  pub user_body_start : ℕ → ℕ
  pub user_logical_index : ℕ → ℕ

pub record Block : Type 0 where
  pub height : ℕ
  pub alloc_counter : ℕ
  pub tx_root : String
  pub block_id : String
  pub transactions : List Page

-- The functions of the crates. `none` is their error.
pub record Chain : Type 0 where
  pub from_bytes : List ℕ → Option Block
  pub to_bytes : Block → List ℕ
  pub compute_tx_root : List Page → Option String
  pub validate_block_page_stream : List Page → Option PageStream
  pub logical_txids : List Page → Option (List String)
  pub coinbase_creation_id : ℕ → ℕ
  pub v2_active : ℕ → Bool
  pub decimal : ℕ → String
  pub paged_spend_contract_bit : ℕ
  pub paged_spend_terminal_bit : ℕ

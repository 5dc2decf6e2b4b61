-- ===== src/Peers/Written.antt =====
-- permanode/src/import.rs, `fill_gaps`: what the writes for an accepted body leave.
use gb_parano1d_permanode.Prelude.{
  ℕ, ◌≡◌, refl, ◌∙◌, Bool, true, false, not, ◌&&◌, Option, some, String, List, [], ◌∷◌, map, ◌==◌,
  any, arith, Bool-cases, Option-cases, inl, inr,
}
use gb_parano1d_permanode.Prelude.Result.{ok, Result-cases}
use gb_parano1d_permanode.Store.Rows.{
  BlockRow, TransactionRow, Database, update_where, insert_or_ignore, next_id,
}
use gb_parano1d_permanode.Store.Blocks.{has_id, block_id, mark_body_recovered}
use gb_parano1d_permanode.Store.Gaps.{resolve_gap}
use gb_parano1d_permanode.Store.Bodies.{
  BlockTransactionInfo, RetainedBlockInfo, is_tx, same_tx, tx_row, tx_id_at, insert_transaction,
  insert_each, insert_transactions, set_totals, set_flags, set_contract_flags,
}
use gb_parano1d_permanode.Emission.Schedule.{v2_active}
use gb_parano1d_permanode.Decode.Flags.{contract_flags}
use gb_parano1d_permanode.Raw.Archive
use gb_parano1d_permanode.Raw.Roundtrip.{store-cases}
use gb_parano1d_permanode.Indexer.Record.{Env, record_contract_flags}
use gb_parano1d_permanode.Store.Marked.{all_of, all_of-imp}

-- A row without what its contract flags say.
abbrev pub unflagged : TransactionRow → TransactionRow
unflagged t = record t { contract_flags = 0 }

-- A row of the block lacks its body.
abbrev pub lacks_body : Database → ℕ → Bool
lacks_body db block = any (λ (b : BlockRow). has_id block b && not b.body_captured) db.blocks

-- Every transaction of the body has a row at its position in the block.
abbrev pub has_places : List TransactionRow → ℕ → List BlockTransactionInfo → Bool
has_places rows block txs =
    all_of (λ (tx : BlockTransactionInfo). any (is_tx block tx.position) rows) txs

-- The body is on record: the tables of the transactions and of their parts are those that inserting
-- it gives, but for the contract flags, each of its positions has a row, and the block has a body.
pub record IsWritten (db : Database) (block : ℕ) (retained : RetainedBlockInfo) (after : Database)
    : Type 0 where
  pub transactions :
      map unflagged after.transactions
      ≡ map unflagged (insert_transactions db block retained).transactions
  pub page_hashes : after.tx_page_hashes ≡ (insert_transactions db block retained).tx_page_hashes
  pub inputs : after.tx_inputs ≡ (insert_transactions db block retained).tx_inputs
  pub outputs : after.tx_outputs ≡ (insert_transactions db block retained).tx_outputs
  pub places : has_places after.transactions block retained.transactions ≡ true
  pub captured : lacks_body after block ≡ false

pub any-kept {ℓ} :
    {A : Type ℓ} (q : A → Bool) (same : A → A → Bool) (row : A) (rows : List A)
    → any q rows ≡ true
    → any q (insert_or_ignore same row rows) ≡ true
any-kept q same row rows held = elim (Bool-cases (any (same row) rows)) [
  | inl known ↦ rw (known, held) refl
  | inr new ↦ elim (Bool-cases (q row)) [
    | inl hit ↦ rw (new, hit) refl
    | inr miss ↦ rw (new, miss) held
  ]
]

tx-placed :
    (block : ℕ) (tx : BlockTransactionInfo) (id : ℕ) (rows : List TransactionRow)
    → any (is_tx block tx.position) (insert_or_ignore same_tx (tx_row block tx id) rows) ≡ true
tx-placed block tx id rows = elim (Bool-cases (any (is_tx block tx.position) rows)) [
  | inl known ↦ rw known known
  | inr new ↦
      let here : (block == block) ≡ true = ground arith in
      let place : (tx.position == tx.position) ≡ true = ground arith in rw (new, here, place) refl
]

abbrev with_tx : ℕ → Database → BlockTransactionInfo → List TransactionRow
with_tx block db tx =
    insert_or_ignore same_tx
      (tx_row block tx (next_id (λ (t : TransactionRow). t.id) db.transactions)) db.transactions

insert_transaction-transactions :
    (block : ℕ) (db : Database) (tx : BlockTransactionInfo)
    → (insert_transaction block db tx).transactions ≡ with_tx block db tx
unfolding insert_transaction
insert_transaction-transactions block db tx =
    elim (Option-cases (tx_id_at (with_tx block db tx) block tx.position)) [
      | inl missing ↦ rw (insert_transaction, missing) refl
      | inr (id, found) ↦ rw (insert_transaction, found) refl
    ]

insert_each-kept :
    (q : TransactionRow → Bool) (block : ℕ) (db : Database) (txs : List BlockTransactionInfo)
    → any q db.transactions ≡ true
    → any q (insert_each block db txs).transactions ≡ true
unfolding insert_each
insert_each-kept q block db [] held = held
insert_each-kept q block db (tx ∷ txs) held =
    insert_each-kept q block (insert_transaction block db tx) txs
      (rw (insert_transaction-transactions block db tx) (any-kept q same_tx _ db.transactions held))

pub insert_each-placed :
    (block : ℕ) (db : Database) (txs : List BlockTransactionInfo)
    → has_places (insert_each block db txs).transactions block txs ≡ true
unfolding insert_each
insert_each-placed block db [] = refl
insert_each-placed block db (tx ∷ txs) =
    let next = insert_transaction block db tx in
    let here : any (is_tx block tx.position) next.transactions ≡ true =
      rw (insert_transaction-transactions block db tx) (tx-placed block tx _ db.transactions) in
    rw (insert_each-kept (is_tx block tx.position) block next txs here)
      (insert_each-placed block next txs)

-- Rows that change where a test does not look.
pub any-update_where {ℓ} :
    {A : Type ℓ} (q p : A → Bool) (f : A → A) (rows : List A)
    → ((x : A) → q (f x) ≡ q x)
    → any q (update_where p f rows) ≡ any q rows
any-update_where q p f [] same = refl
any-update_where q p f (x ∷ rows) same = elim (Bool-cases (p x)) [
  | inl hit ↦ rw (hit, same x, any-update_where q p f rows same) refl
  | inr miss ↦ rw (miss, any-update_where q p f rows same) refl
]

map-update_where {ℓ} :
    {A : Type ℓ} (g : A → A) (p : A → Bool) (f : A → A) (rows : List A)
    → ((x : A) → g (f x) ≡ g x)
    → map g (update_where p f rows) ≡ map g rows
map-update_where g p f [] same = refl
map-update_where g p f (x ∷ rows) same = elim (Bool-cases (p x)) [
  | inl hit ↦ rw (hit, same x, map-update_where g p f rows same) refl
  | inr miss ↦ rw (miss, map-update_where g p f rows same) refl
]

set_flags-unflagged :
    (block : ℕ) (flags : List (ℕ × ℕ)) (rows : List TransactionRow)
    → map unflagged (set_flags block flags rows) ≡ map unflagged rows
set_flags-unflagged block [] rows = refl
set_flags-unflagged block ((position, f) ∷ flags) rows =
    set_flags-unflagged block flags _
    ∙ map-update_where unflagged (is_tx block position) (λ t. record t { contract_flags = f }) rows
        (λ t. refl)

pub set_flags-places :
    (at place block : ℕ) (flags : List (ℕ × ℕ)) (rows : List TransactionRow)
    → any (is_tx at place) (set_flags block flags rows) ≡ any (is_tx at place) rows
set_flags-places at place block [] rows = refl
set_flags-places at place block ((position, f) ∷ flags) rows =
    set_flags-places at place block flags _
    ∙ any-update_where (is_tx at place) (is_tx block position)
        (λ t. record t { contract_flags = f }) rows (λ t. refl)

recovered-captured :
    (block : ℕ) (source : String) (rows : List BlockRow)
    → any
        (λ (b : BlockRow). has_id block b && not b.body_captured)
        (update_where
          (has_id block)
          (λ b. record b { body_captured = true; body_source = some source })
          rows)
      ≡ false
recovered-captured block source [] = refl
recovered-captured block source (b ∷ rows) = elim (Bool-cases (b.id == block)) [
  | inl here ↦ rw (here, here) (recovered-captured block source rows)
  | inr away ↦ rw (away, away) (recovered-captured block source rows)
]

module _ (db : Database) (block : ℕ) (retained : RetainedBlockInfo) where
  pub mark_body_recovered-IsWritten :
      (source : String)
      → IsWritten db block retained
          (mark_body_recovered (insert_transactions db block retained) block source)
  unfolding mark_body_recovered insert_transactions
  mark_body_recovered-IsWritten source = record {
    transactions = refl;
    page_hashes = refl;
    inputs = refl;
    outputs = refl;
    places = insert_each-placed block (set_totals db block retained) retained.transactions;
    captured = recovered-captured block source (insert_transactions db block retained).blocks;
  }

  set_contract_flags-IsWritten :
      (a : Database) (height : ℕ) (hash : String) (flags : List (ℕ × ℕ))
      → IsWritten db block retained a
      → IsWritten db block retained (set_contract_flags a height hash flags)
  unfolding set_contract_flags
  set_contract_flags-IsWritten a height hash flags written =
      elim (Option-cases (block_id a height hash)) [
        | inl unknown ↦ rw (unknown, set_contract_flags) written
        | inr (id, found) ↦
            let was_flagged =
              λ (t : TransactionRow). (t.block_id == id) && not (t.contract_flags == 0) in
            let reset = λ (t : TransactionRow). record t { contract_flags = 0 } in
            let cleared = update_where was_flagged reset a.transactions in
            rw (found, set_contract_flags)
              (record {
                transactions =
                    set_flags-unflagged id flags cleared
                    ∙ map-update_where unflagged was_flagged reset a.transactions (λ t. refl)
                    ∙ written.transactions;
                page_hashes = written.page_hashes;
                inputs = written.inputs;
                outputs = written.outputs;
                places =
                    all_of-imp _ _ retained.transactions
                      (λ tx held.
                        set_flags-places block tx.position id flags cleared
                        ∙ any-update_where (is_tx block tx.position) was_flagged reset
                            a.transactions (λ t. refl)
                        ∙ held)
                      written.places;
                captured =
                    any-update_where (λ (b : BlockRow). has_id block b && not b.body_captured)
                      (has_id id) (λ b. record b { contracts_scanned = true }) a.blocks (λ b. refl)
                    ∙ written.captured;
              })
      ]

  pub resolve_gap-IsWritten :
      (a : Database) (height now : ℕ) (note : String)
      → IsWritten db block retained a
      → IsWritten db block retained (resolve_gap a height now note)
  unfolding resolve_gap
  resolve_gap-IsWritten a height now note written = record {
    transactions = written.transactions;
    page_hashes = written.page_hashes;
    inputs = written.inputs;
    outputs = written.outputs;
    places = written.places;
    captured = written.captured;
  }

  module _ (env : Env) where
    pub record_contract_flags-IsWritten :
        (a : Database) (height : ℕ) (hash : String) (raw : Option (List ℕ))
        → IsWritten db block retained a
        → IsWritten db block retained (record_contract_flags env a height hash raw)
    unfolding record_contract_flags
    record_contract_flags-IsWritten a height hash raw written =
        elim (Bool-cases (v2_active height)) [
          | inr early ↦ rw (early, record_contract_flags) written
          | inl v2 ↦ elim (Option-cases raw) [
            | inl absent ↦ rw (v2, absent, record_contract_flags) written
            | inr (bytes, at_hand) ↦
                elim (Result-cases (contract_flags env.chain bytes height hash)) [
                  | inl e ↦ rw (v2, at_hand, e, record_contract_flags) written
                  | inr (flags, e) ↦
                      rw (v2, at_hand, e, record_contract_flags)
                        (set_contract_flags-IsWritten a height hash flags written)
                ]
          ]
        ]

    pub store-IsWritten :
        (a : Database) (height : ℕ) (hash : String) (bytes : List ℕ) (source : String) (now : ℕ)
        (a' : Database) (kept : Bool)
        → Archive.store env.chain env.zlib env.max_block_bytes a height hash bytes source now
          ≡ ok (a', kept)
        → IsWritten db block retained a
        → IsWritten db block retained a'
    store-IsWritten a height hash bytes source now a' kept e written =
        elim (store-cases env.chain env.zlib env.max_block_bytes a height hash bytes source now a'
          kept e) [
            | inl (unkept, same) ↦ rw same written
            | inr (id, was_kept, known, new, good, eq) ↦ rw eq (record {
              transactions = written.transactions;
              page_hashes = written.page_hashes;
              inputs = written.inputs;
              outputs = written.outputs;
              places = written.places;
              captured = written.captured;
            })
          ]

-- ===== src/Store/Live.antt =====
-- core/src/db.rs: which recorded outputs are unspent, the counts of live state slots per segment, and
-- the cached balances.
use gb_parano1d_permanode.Prelude.{
  ℕ, Bool, false, ◌&&◌, Option, none, some, ◌==◌, any, retain, length,
}
use gb_parano1d_permanode.Store.Rows.{TransactionRow, InputRow, OutputRow, Database, update_where}
use gb_parano1d_permanode.Store.Blocks.{canonical_block_filter, has_id}
use gb_parano1d_permanode.Store.Receipts.{is_recorded}

-- The joins of a part of a transaction with its transaction and its canonical block.
abbrev pub is_of_canonical : Database → ℕ → Bool
is_of_canonical db tx =
    any
      (λ (t : TransactionRow).
        (t.id == tx)
        && is_recorded t
        && any (has_id t.block_id) db.blocks
        && canonical_block_filter db t.block_id)
      db.transactions

-- An input of a recorded transaction of a canonical block spends the output with this creation id;
-- an output without one, which is NULL, is not equal to any.
abbrev pub has_recorded_spend : Database → Option ℕ → Bool
has_recorded_spend db none = false
has_recorded_spend db (some creation_id) =
    any (λ (i : InputRow). (i.creation_id == creation_id) && is_of_canonical db i.tx_id)
      db.tx_inputs

-- The database afterwards, and how many outputs it cleared.
unfoldable pub clear_spent_in_gap_with_recorded_spend : Database → Database × ℕ
clear_spent_in_gap_with_recorded_spend db =
    let flagged = λ (o : OutputRow). o.spent_in_gap && has_recorded_spend db o.creation_id in
    (
      record db {
        tx_outputs =
            update_where flagged (λ o. record o { spent_in_gap = false; spent_in_gap_at = none })
              db.tx_outputs;
      },
      length (retain flagged db.tx_outputs),
    )

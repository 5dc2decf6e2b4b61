-- ===== src/Store/Proven.antt =====
-- core/src/db.rs, `insert_receipt_transaction`: its outcome, once and again.
use gb_parano1d_permanode.Prelude.{
  ℕ, ◌<◌, ◌≡◌, refl, sym, ap, subst, true, false, not, ◌&&◌, some, List, [], ◌∷◌, ◌==◌, ltb, find,
  arith, Bool-cases, Option-cases, inl, inr,
}
use text.Mathlib.TextPositions.{eq_refl}
use gb_parano1d_permanode.Prelude.Result.{ok, err, ensure-eq}
use gb_parano1d_permanode.Store.Rows.{BlockRow, TransactionRow, Database, update_where, next_id}
use gb_parano1d_permanode.Store.Blocks.{has_id, is_archived, block_by_id, is_header_only}
use gb_parano1d_permanode.Store.Bodies.{is_tx}
use gb_parano1d_permanode.Store.Receipts.{
  ReceiptTransaction, count_agrees, is_from_receipt, receipt_row, write_receipt,
  insert_receipt_transaction,
}

module _ (block count : ℕ) where
  abbrev counted : BlockRow → BlockRow
  counted b = record b { tx_count_total = some count }

  -- The block's row after its transactions are counted.
  find-counted :
      (rows : List BlockRow) (b : BlockRow)
      → find (has_id block) rows ≡ some b
      → find (has_id block) (update_where (has_id block) counted rows) ≡ some (counted b)
  find-counted [] b e = cc
  find-counted (r ∷ rows) b e = elim (Bool-cases (has_id block r)) [
    | inl hit ↦
        let e' : some r ≡ some b = rw hit at e in
        let same : r ≡ b = cc in rw (hit, hit) (ap (λ (x : BlockRow). some (counted x)) same)
    | inr miss ↦ rw (miss, miss) (find-counted rows b (rw miss at e))
  ]

module _ (db : Database) (block : ℕ) (tx : ReceiptTransaction) (now : ℕ) where
  pub insert_receipt_transaction-written :
      (db' : Database)
      → insert_receipt_transaction db block tx now ≡ ok (db', true)
      → (is_header_only db block ≡ true)
        × ((not (tx.position == 0) && ltb tx.position tx.tx_count) ≡ true)
        × (db' ≡ write_receipt db block tx now)
  unfolding insert_receipt_transaction
  insert_receipt_transaction-written db' e =
      let (header, e1) = ensure-eq (is_header_only db block) _ (db', true) e in
      let (place, e2) =
        ensure-eq (not (tx.position == 0) && ltb tx.position tx.tx_count) _ (db', true) e1 in
      let (agree, e3) =
        ensure-eq (count_agrees (block_by_id db block) tx.tx_count) _ (db', true) e2 in
      elim (Option-cases (find (is_tx block tx.position) db.transactions)) [
        | inl free ↦
            let e' : ok (write_receipt db block tx now, true) ≡ ok (db', true) = rw free at e3 in
            (header, place, cc)
        | inr (t, held) ↦ elim (Bool-cases (is_from_receipt t tx.txid)) [
          | inl own ↦ let e' : ok (db, false) ≡ ok (db', true) = rw (held, own) at e3 in cc
          | inr foreign ↦ let e' : err ≡ ok (db', true) = rw (held, foreign) at e3 in cc
        ]
      ]

  pub insert_receipt_transaction-held :
      (db' : Database) → insert_receipt_transaction db block tx now ≡ ok (db', false) → db' ≡ db
  unfolding insert_receipt_transaction
  insert_receipt_transaction-held db' e =
      let (header, e1) = ensure-eq (is_header_only db block) _ (db', false) e in
      let (place, e2) =
        ensure-eq (not (tx.position == 0) && ltb tx.position tx.tx_count) _ (db', false) e1 in
      let (agree, e3) =
        ensure-eq (count_agrees (block_by_id db block) tx.tx_count) _ (db', false) e2 in
      elim (Option-cases (find (is_tx block tx.position) db.transactions)) [
        | inl free ↦
            let e' : ok (write_receipt db block tx now, true) ≡ ok (db', false) = rw free at e3 in
            cc
        | inr (t, held) ↦ elim (Bool-cases (is_from_receipt t tx.txid)) [
          | inl own ↦ let e' : ok (db, false) ≡ ok (db', false) = rw (held, own) at e3 in cc
          | inr foreign ↦ let e' : err ≡ ok (db', false) = rw (held, foreign) at e3 in cc
        ]
      ]

  -- A header-only block stays one, and its count is the transaction's.
  write_receipt-block :
      is_header_only db block ≡ true
      → (is_header_only (write_receipt db block tx now) block ≡ true)
        × (count_agrees (block_by_id (write_receipt db block tx now) block) tx.tx_count ≡ true)
  unfolding is_header_only write_receipt block_by_id
  write_receipt-block header = elim (Option-cases (find (has_id block) db.blocks)) [
    | inl absent ↦ let no : false ≡ true = rw (is_header_only, absent) at header in cc
    | inr (b, found) ↦
        let kept : not (is_archived b) ≡ true = rw (is_header_only, found) at header in
        let after = find-counted block tx.tx_count db.blocks b found in
        let self : (tx.tx_count == tx.tx_count) ≡ true = ground arith in
        (rw (is_header_only, after) kept, rw (after, self) refl)
  ]

  write_receipt-found :
      (t : TransactionRow) × (find
          (is_tx block tx.position)
          (write_receipt db block tx now).transactions
        ≡ some t)
      × (is_from_receipt t tx.txid ≡ true)
  unfolding write_receipt
  write_receipt-found =
      let id = next_id (λ (t : TransactionRow). t.id) db.transactions in
      let block_eq : (block == block) ≡ true = ground arith in
      let position_eq : (tx.position == tx.position) ≡ true = ground arith in
      (receipt_row block tx id, rw (block_eq, position_eq) refl, rw (eq_refl tx.txid) refl)

-- A receipt that was taken is for a header-only block and a position between the coinbase and the
-- number of transactions, and to take it again at any time writes nothing.
pub insert_receipt_transaction-again :
    (db db' : Database) (block : ℕ) (tx : ReceiptTransaction) (now later : ℕ)
    → insert_receipt_transaction db block tx now ≡ ok (db', true)
    → (is_header_only db block ≡ true)
      × (0 < tx.position)
      × (tx.position < tx.tx_count)
      × (insert_receipt_transaction db' block tx later ≡ ok (db', false))
unfolding insert_receipt_transaction
insert_receipt_transaction-again db db' block tx now later e =
    let (header, place, eq) = insert_receipt_transaction-written db block tx now db' e in
    let (header', agree) = write_receipt-block db block tx now header in
    let (t, found, own) = write_receipt-found db block tx now in
    let again : insert_receipt_transaction (write_receipt db block tx now) block tx later
        ≡ ok (write_receipt db block tx now, false) =
      rw (insert_receipt_transaction, header', place, agree) (rw (found, own) refl) in
    (
      header,
      ground (arith, place),
      ground (arith, place),
      subst (λ (d : Database). insert_receipt_transaction d block tx later ≡ ok (d, false)) (sym eq)
          again,
    )

-- ===== src/Store/Insertable.antt =====
-- core/src/db.rs, `insert_receipt_transaction`: when it writes, and what other receipts change of that.
use gb_parano1d_permanode.Prelude.{
  ℕ, ◌≡◌, refl, sym, ap, subst, ◌∙◌, true, false, not, ◌&&◌, Option, none, some, ◌==◌, ltb, find,
  find-holds, if◌then◌else◌, arith, Bool-cases, Option-cases, inl, inr,
}
use gb_parano1d_permanode.Prelude.Result.{ok, err, ensure-eq}
use gb_parano1d_permanode.Store.Rows.{BlockRow, TransactionRow, Database, next_id}
use gb_parano1d_permanode.Store.Blocks.{has_id, is_archived, block_by_id, is_header_only}
use gb_parano1d_permanode.Store.Frame.{find-update_where}
use gb_parano1d_permanode.Store.Bodies.{is_tx}
use gb_parano1d_permanode.Store.Receipts.{
  ReceiptTransaction, count_agrees, is_from_receipt, receipt_row, write_receipt,
  insert_receipt_transaction,
}

-- The conditions of a write.
pub record Insertable (db : Database) (block : ℕ) (tx : ReceiptTransaction) : Type 0 where
  pub header : is_header_only db block ≡ true
  pub place : (not (tx.position == 0) && ltb tx.position tx.tx_count) ≡ true
  pub agree : count_agrees (block_by_id db block) tx.tx_count ≡ true
  pub free : find (is_tx block tx.position) db.transactions ≡ none

module _ (db : Database) (block : ℕ) (tx : ReceiptTransaction) (now : ℕ) where
  pub insert_receipt_transaction-Insertable :
      (db' : Database)
      → insert_receipt_transaction db block tx now ≡ ok (db', true)
      → Insertable db block tx
  unfolding insert_receipt_transaction
  insert_receipt_transaction-Insertable db' e =
      let (header, e1) = ensure-eq (is_header_only db block) _ (db', true) e in
      let (place, e2) =
        ensure-eq (not (tx.position == 0) && ltb tx.position tx.tx_count) _ (db', true) e1 in
      let (agree, e3) =
        ensure-eq (count_agrees (block_by_id db block) tx.tx_count) _ (db', true) e2 in
      elim (Option-cases (find (is_tx block tx.position) db.transactions)) [
        | inl free ↦ record { header = header; place = place; agree = agree; free = free }
        | inr (t, held) ↦ elim (Bool-cases (is_from_receipt t tx.txid)) [
          | inl own ↦ let e' : ok (db, false) ≡ ok (db', true) = rw (held, own) at e3 in cc
          | inr foreign ↦ let e' : err ≡ ok (db', true) = rw (held, foreign) at e3 in cc
        ]
      ]

  pub Insertable-insert_receipt_transaction :
      Insertable db block tx
      → insert_receipt_transaction db block tx now ≡ ok (write_receipt db block tx now, true)
  unfolding insert_receipt_transaction
  Insertable-insert_receipt_transaction can =
      rw (insert_receipt_transaction, can.header, can.place, can.agree, can.free) refl

eq-of_id : (id : ℕ) (b : BlockRow) → has_id id b ≡ true → b.id ≡ id
eq-of_id id b e = ground arith

found_id : (db : Database) (id : ℕ) (b : BlockRow) → block_by_id db id ≡ some b → has_id id b ≡ true
unfolding block_by_id
found_id db id b e = find-holds (has_id id) db.blocks b e

-- What a write to the block `other` leaves of a lookup.
module _ (db : Database) (other : ℕ) (tx' : ReceiptTransaction) (at : ℕ) where
  abbrev pub after_write : BlockRow → BlockRow
  after_write b = if has_id other b then record b { tx_count_total = some tx'.tx_count } else b

  is_archived-after_write : (b : BlockRow) → is_archived (after_write b) ≡ is_archived b
  is_archived-after_write b = elim (Bool-cases (has_id other b)) [
    | inl hit ↦ rw hit refl
    | inr miss ↦ rw miss refl
  ]

  pub block_by_id-write_receipt :
      (block : ℕ)
      → block_by_id (write_receipt db other tx' at) block
        ≡ elim (block_by_id db block) [ none ↦ none | some b ↦ some (after_write b) ]
  unfolding block_by_id write_receipt
  block_by_id-write_receipt block =
      find-update_where (has_id block) (has_id other) _ db.blocks (λ b. refl)

  is_header_only-write_receipt :
      (block : ℕ) → is_header_only (write_receipt db other tx' at) block ≡ is_header_only db block
  unfolding is_header_only
  is_header_only-write_receipt block =
      let e = block_by_id-write_receipt block in
      elim (Option-cases (block_by_id db block)) [
        | inl absent ↦
            let e' : block_by_id (write_receipt db other tx' at) block ≡ none =
              e ∙ rw absent refl in
            rw (is_header_only, is_header_only, e', absent) refl
        | inr (b, found) ↦
            let e' : block_by_id (write_receipt db other tx' at) block ≡ some (after_write b) =
              e ∙ rw found refl in
            rw (is_header_only, is_header_only, e', found) (ap not (is_archived-after_write b))
      ]

  -- A receipt of the block that `tx'` was written to agrees with its count.
  count_agrees-write_receipt :
      (block n : ℕ)
      → count_agrees (block_by_id db other) tx'.tx_count ≡ true
      → count_agrees (block_by_id (write_receipt db other tx' at) block) n ≡ true
      → count_agrees (block_by_id db block) n ≡ true
  count_agrees-write_receipt block n known e =
      let view = block_by_id-write_receipt block in
      elim (Option-cases (block_by_id db block)) [
        | inl absent ↦
            let view' : block_by_id (write_receipt db other tx' at) block ≡ none =
              view ∙ rw absent refl in
            let e' : count_agrees none n ≡ true =
              subst (λ (o : Option BlockRow). count_agrees o n ≡ true) view' e in
            cc
        | inr (b, found) ↦
            let view' : block_by_id (write_receipt db other tx' at) block ≡ some (after_write b) =
              view ∙ rw found refl in
            let e' : count_agrees (some (after_write b)) n ≡ true =
              subst (λ (o : Option BlockRow). count_agrees o n ≡ true) view' e in
            let goal : count_agrees (some b) n ≡ true = elim (Bool-cases (has_id other b)) [
              | inr miss ↦ rw miss at e'
              | inl hit ↦
                  let same : other ≡ block =
                    sym (eq-of_id other b hit) ∙ eq-of_id block b (found_id db block b found) in
                  let known' : count_agrees (some b) tx'.tx_count ≡ true =
                    subst (λ (o : Option BlockRow). count_agrees o tx'.tx_count ≡ true)
                      (ap (block_by_id db) same ∙ found) known in
                  let counted : (tx'.tx_count == n) ≡ true = rw hit at e' in
                  let equal : tx'.tx_count ≡ n = ground arith in
                  subst (λ (k : ℕ). count_agrees (some b) k ≡ true) equal known'
            ] in
            subst (λ (o : Option BlockRow). count_agrees o n ≡ true) (sym found) goal
      ]

  not_before :
      (block : ℕ) (tx : ReceiptTransaction)
      → find (is_tx block tx.position) (write_receipt db other tx' at).transactions ≡ none
      → find (is_tx block tx.position) db.transactions ≡ none
  unfolding write_receipt
  not_before block tx e =
      let row = receipt_row other tx' (next_id (λ (t : TransactionRow). t.id) db.transactions) in
      elim (Bool-cases (is_tx block tx.position row)) [
        | inl taken ↦ let e' : some row ≡ none = rw taken at e in cc
        | inr apart ↦ rw apart at e
      ]

  -- A receipt that can be written after another one could have been written before it.
  pub Insertable-before :
      (block : ℕ) (tx : ReceiptTransaction)
      → count_agrees (block_by_id db other) tx'.tx_count ≡ true
      → Insertable (write_receipt db other tx' at) block tx
      → Insertable db block tx
  Insertable-before block tx known can = record {
    header = sym (is_header_only-write_receipt block) ∙ can.header;
    place = can.place;
    agree = count_agrees-write_receipt block tx.tx_count known can.agree;
    free = not_before block tx can.free;
  }

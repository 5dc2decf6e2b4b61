-- ===== src/Receipts/Grows.antt =====
-- permanode/src/receipts.rs, `import_receipts`: what a receipt may do to the database, and what that leaves of another.
use gb_parano1d_permanode.Prelude.{
  ℕ, ◌≡◌, ◌≢◌, inl, inr, refl, sym, ap, subst, ◌∙◌, Bool, true, false, not, ◌||◌, none, some,
  String, ◌==◌, str_eq, eq_iff, eq→==, Bool-cases, Option-cases,
}
use gb_parano1d_permanode.Prelude.Result.{Result, ok, Result-cases}
use gb_parano1d_permanode.Store.Rows.{Database}
use gb_parano1d_permanode.Store.Blocks.{canonical_hash_at, block_by_id, has_id}
use gb_parano1d_permanode.Store.Frame.{SameIndex, keys-update_where, canonical_hash_at-SameIndex}
use gb_parano1d_permanode.Store.Receipts.{
  ReceiptTransaction, write_receipt, insert_receipt_transaction,
}
use gb_parano1d_permanode.Store.Proven.{
  insert_receipt_transaction-again, insert_receipt_transaction-written,
}
use gb_parano1d_permanode.Store.Insertable.{
  Insertable, after_write, block_by_id-write_receipt, Insertable-before,
  insert_receipt_transaction-Insertable, Insertable-insert_receipt_transaction,
}
use gb_parano1d_permanode.Receipts.Decode.{ReceiptVerdict, DecodedReceipt}
use gb_parano1d_permanode.Receipts.Import.{
  ReceiptEntry, CanonicalBlock, imported, rejected, no_header, canonical_block_at, is_misfiled,
  authenticates, complete_block, import_one,
}
use gb_parano1d_permanode.Receipts.Safety.{
  complete_block-Written, import_one-Decided, import_one-Accepted,
}

pub write_receipt-SameIndex :
    (db : Database) (block : ℕ) (tx : ReceiptTransaction) (now : ℕ)
    → SameIndex db (write_receipt db block tx now)
unfolding write_receipt
write_receipt-SameIndex db block tx now = record {
  same_keys = keys-update_where (has_id block) _ db.blocks (λ b. refl);
  same_log = refl;
}

-- What a receipt may do to the database: nothing, or a write that is allowed.
pub data Grows (db : Database) : Database → Type 0 where
  stays : Grows db db
  writes :
      (block : ℕ) (tx : ReceiptTransaction) (now : ℕ)
      → Insertable db block tx
      → Grows db (write_receipt db block tx now)

-- The part of a block's row that a receipt is compared with stays.
canonical_block_at-write_receipt :
    (db : Database) (other : ℕ) (tx : ReceiptTransaction) (now height : ℕ)
    → canonical_block_at (write_receipt db other tx now) height ≡ canonical_block_at db height
unfolding canonical_block_at
canonical_block_at-write_receipt db other tx now height =
    let db' = write_receipt db other tx now in
    let same =
      canonical_hash_at-SameIndex db db' height (write_receipt-SameIndex db other tx now) in
    elim (Option-cases (canonical_hash_at db height)) [
      | inl absent ↦ rw (canonical_block_at, canonical_block_at, same, absent) refl
      | inr ((id, hash), found) ↦
          let view = block_by_id-write_receipt db other tx now id in
          elim (Option-cases (block_by_id db id)) [
            | inl missing ↦
                let view' : block_by_id db' id ≡ none = view ∙ rw missing refl in
                rw (canonical_block_at, canonical_block_at, same, found, view', missing) refl
            | inr (b, row) ↦
                let view' : block_by_id db' id ≡ some (after_write db other tx now b) =
                  view ∙ rw row refl in
                rw (canonical_block_at, canonical_block_at, same, found, view', row)
                  (elim (Bool-cases (has_id other b)) [
                    | inl hit ↦ rw hit refl
                    | inr miss ↦ rw miss refl
                  ])
          ]
    ]

canonical_block_at-Grows :
    (db db' : Database) (height : ℕ)
    → Grows db db'
    → canonical_block_at db' height ≡ canonical_block_at db height
canonical_block_at-Grows db _ height stays = refl
canonical_block_at-Grows db _ height (writes block tx now can) =
    canonical_block_at-write_receipt db block tx now height

Insertable-Grows :
    (db db' : Database) (block : ℕ) (tx : ReceiptTransaction)
    → Grows db db'
    → Insertable db' block tx
    → Insertable db block tx
Insertable-Grows db _ block tx stays can = can
Insertable-Grows db _ block tx (writes other tx' at first) can =
    Insertable-before db other tx' at block tx first.agree can

unfit : (a b : Bool) → a ≡ true → b ≡ true → (not a || not b) ≡ false
unfit a b p q = rw (p, q) refl

-- What is imported after a receipt is imported before it too.
complete_block-Grows :
    (db db' : Database) (block : CanonicalBlock) (d : DecodedReceipt) (now later : ℕ)
    → Grows db db'
    → (complete_block db' block d later).1 ≡ imported
    → (complete_block db block d now).1 ≡ imported
unfolding complete_block
complete_block-Grows db db' block d now later grows e =
    elim (complete_block-Written db' block d later) [
      | inl (same, other) ↦ absurd (other e)
      | inr (taken, header, root, time, write) ↦
          let can = insert_receipt_transaction-Insertable db' block.id d.tx later _ write in
          let before = Insertable-Grows db db' block.id d.tx grows can in
          let write' = Insertable-insert_receipt_transaction db block.id d.tx now before in
          let fits : (not (str_eq block.tx_root d.tx_root) || not (block.timestamp == d.timestamp))
              ≡ false =
            unfit _ _ ((eq_iff _ _).1 root) (eq→== _ _ time) in
          rw (complete_block, header, fits, write') refl
    ]

module _ (verify : String → Result ReceiptVerdict) (db db' : Database) (grows : Grows db db') where
  pub import_one_before :
      (entry : ReceiptEntry) (d : DecodedReceipt) (now later : ℕ)
      → (import_one verify db' entry d later).1 ≡ imported
      → (import_one verify db entry d now).1 ≡ imported
  unfolding import_one
  import_one_before entry d now later e = elim (Bool-cases (is_misfiled entry.key d.tx.txid)) [
    | inl other ↦ let e' : rejected ≡ imported = rw (import_one, other) at e in cc
    | inr filed ↦ elim (Result-cases (verify entry.hex)) [
      | inl failing ↦ let e' : rejected ≡ imported = rw (import_one, filed, failing) at e in cc
      | inr (verdict, answer) ↦ elim (Bool-cases (authenticates verdict d.summary)) [
        | inr refused ↦
            let e' : rejected ≡ imported = rw (import_one, filed, answer, refused) at e in cc
        | inl agreed ↦ elim (Option-cases (canonical_block_at db d.height)) [
          | inl absent ↦
              let absent' = canonical_block_at-Grows db db' d.height grows ∙ absent in
              let e' : no_header ≡ imported =
                rw (import_one, filed, answer, agreed, absent') at e in
              cc
          | inr (block, found) ↦
              let found' = canonical_block_at-Grows db db' d.height grows ∙ found in
              let e' : (complete_block db' block d later).1 ≡ imported =
                rw (import_one, filed, answer, agreed, found') at e in
              rw (import_one, filed, answer, agreed, found)
                (complete_block-Grows db db' block d now later grows e')
        ]
      ]
    ]
  ]

module _ (verify : String → Result ReceiptVerdict) (db : Database) where
  grown :
      (db' : Database) (block : ℕ) (tx : ReceiptTransaction) (now : ℕ)
      → insert_receipt_transaction db block tx now ≡ ok (db', true)
      → Grows db db'
  grown db' block tx now e =
      let (header, place, same) = insert_receipt_transaction-written db block tx now db' e in
      subst (Grows db) (sym same)
        (writes block tx now (insert_receipt_transaction-Insertable db block tx now db' e))

  module _ (entry : ReceiptEntry) (d : DecodedReceipt) (now : ℕ) where
    pub import_one-Grows : Grows db (import_one verify db entry d now).0
    import_one-Grows = elim (import_one-Decided verify db entry d now) [
      | inl (same, other) ↦ subst (Grows db) (sym same) stays
      | inr (taken, accepted) ↦ grown _ accepted.block.id d.tx now accepted.write
    ]

    -- It is not imported a second time.
    pub import_one-once :
        (later : ℕ)
        → (import_one verify (import_one verify db entry d now).0 entry d later).1 ≢ imported
    import_one-once later e =
        let db' = (import_one verify db entry d now).0 in
        let first = import_one_before verify db db' import_one-Grows entry d now later e in
        let was = import_one-Accepted verify db entry d now db' (λ i. (db', first i)) in
        let db'' = (import_one verify db' entry d later).0 in
        let is = import_one-Accepted verify db' entry d later db'' (λ i. (db'', e i)) in
        let same_block : some is.block ≡ some was.block =
          sym is.on_record
          ∙ canonical_block_at-Grows db db' d.height import_one-Grows
          ∙ was.on_record in
        let blocks : is.block ≡ was.block = cc in
        let id : is.block.id ≡ was.block.id = ap (λ (b : CanonicalBlock). b.id) blocks in
        let (header, low, high, held) =
          insert_receipt_transaction-again db db' was.block.id d.tx now later was.write in
        let written : insert_receipt_transaction db' was.block.id d.tx later ≡ ok (db'', true) =
          subst (λ (n : ℕ). insert_receipt_transaction db' n d.tx later ≡ ok (db'', true)) id
            is.write in
        let clash : ok (db', false) ≡ ok (db'', true) = sym held ∙ written in cc

-- ===== src/Receipts/Safety.antt =====
-- permanode/src/receipts.rs, `import_one`: what an import of a receipt rests on.
use gb_parano1d_permanode.Prelude.{
  ℕ, ◌≡◌, ◌≢◌, ◌⊎◌, inl, inr, refl, sym, ap, subst, ◌∙◌, Bool, true, false, not, ◌||◌, Option, none,
  some, String, ◌==◌, str_eq, arith, Bool-cases, Option-cases,
}
use gb_parano1d_permanode.Prelude.Result.{Result, ok, Result-cases}
use gb_parano1d_permanode.Store.Rows.{Database}
use gb_parano1d_permanode.Store.Receipts.{insert_receipt_transaction}
use gb_parano1d_permanode.Store.Proven.{insert_receipt_transaction-held}
use gb_parano1d_permanode.Receipts.Decode.{ReceiptVerdict, DecodedReceipt}
use gb_parano1d_permanode.Prelude.Equations.{eq-of_==, eq-of_str_eq}
use gb_parano1d_permanode.Receipts.Verdict.{Authentic, authenticates-Authentic}
use gb_parano1d_permanode.Receipts.Import.{
  ReceiptEntry, CanonicalBlock, Outcome, imported, already_imported, in_gap, no_header, rejected,
  archived, canonical_block_at, is_misfiled, authenticates, holds_tx, complete_block, import_one,
}

-- All that an import of the receipt of `entry` rests on; `after` is the database it leaves.
pub record Accepted (verify : String → Result ReceiptVerdict) (db : Database) (entry : ReceiptEntry)
    (d : DecodedReceipt) (now : ℕ) (after : Database) : Type 0 where
  pub filed : (key : String) → entry.key ≡ some key → key ≡ d.tx.txid
  pub verdict : ReceiptVerdict
  pub answer : verify entry.hex ≡ ok verdict
  pub authentic : Authentic verdict d.summary
  pub block : CanonicalBlock
  pub on_record : canonical_block_at db d.height ≡ some block
  pub without_body : block.header_only ≡ true
  pub same_root : block.tx_root ≡ d.tx_root
  pub same_time : block.timestamp ≡ d.timestamp
  pub write : insert_receipt_transaction db block.id d.tx now ≡ ok (after, true)

filed-of :
    (key : Option String) (txid : String)
    → is_misfiled key txid ≡ false
    → (k : String) → key ≡ some k
    → k ≡ txid
filed-of none txid e k given = cc
filed-of (some key) txid e k given =
    let same : key ≡ k = cc in
    subst (λ (s : String). s ≡ txid) same (eq-of_str_eq key txid (ground arith))

-- What the write to a header-only block comes to.
abbrev pub Written : Database → CanonicalBlock → DecodedReceipt → ℕ → Database × Outcome → Type 0
Written db block d now r =
    ((r.0 ≡ db) × (r.1 ≢ imported))
    ⊎ ((r.1 ≡ imported)
        × (block.header_only ≡ true)
        × (block.tx_root ≡ d.tx_root)
        × (block.timestamp ≡ d.timestamp)
        × (insert_receipt_transaction db block.id d.tx now ≡ ok (r.0, true)))

fit : (a b : Bool) → (not a || not b) ≡ false → (a ≡ true) × (b ≡ true)
fit a b e = ground arith

module _ (db : Database) (block : CanonicalBlock) (d : DecodedReceipt) (now : ℕ) where
  left :
      (r : Database × Outcome) (outcome : Outcome)
      → outcome ≢ imported
      → r ≡ (db, outcome)
      → Written db block d now r
  left r outcome other e = subst (Written db block d now) (sym e) (inl (refl, other))

  pub complete_block-Written : Written db block d now (complete_block db block d now)
  unfolding complete_block
  complete_block-Written = elim (Bool-cases block.header_only) [
    | inr archive ↦ elim (Bool-cases block.body_captured) [
      | inr lacking ↦
          let e : complete_block db block d now ≡ (db, in_gap) =
            rw (complete_block, archive, lacking) refl in
          left _ in_gap (λ same. cc) e
      | inl held ↦
          let e : complete_block db block d now ≡ (db, archived (holds_tx db block.id d.tx.txid)) =
            rw (complete_block, archive, held) refl in
          left _ (archived (holds_tx db block.id d.tx.txid)) (λ same. cc) e
    ]
    | inl header ↦
        elim (Bool-cases
          (not (str_eq block.tx_root d.tx_root) || not (block.timestamp == d.timestamp))) [
            | inl differs ↦
                let e : complete_block db block d now ≡ (db, rejected) =
                  rw (complete_block, header, differs) refl in
                left _ rejected (λ same. cc) e
            | inr fits ↦
                let (root, time) =
                  fit (str_eq block.tx_root d.tx_root) (block.timestamp == d.timestamp) fits in
                elim (Result-cases (insert_receipt_transaction db block.id d.tx now)) [
                  | inl refused ↦
                      let e : complete_block db block d now ≡ (db, rejected) =
                        rw (complete_block, header, fits, refused) refl in
                      left _ rejected (λ same. cc) e
                  | inr ((db', false), kept) ↦
                      let e : complete_block db block d now ≡ (db', already_imported) =
                        rw (complete_block, header, fits, kept) refl in
                      let same = insert_receipt_transaction-held db block.id d.tx now db' kept in
                      left _ already_imported (λ clash. cc)
                        (e ∙ ap (λ (x : Database). (x, already_imported)) same)
                  | inr ((db', true), kept) ↦
                      let e : complete_block db block d now ≡ (db', imported) =
                        rw (complete_block, header, fits, kept) refl in
                      subst (Written db block d now) (sym e)
                        (inr (refl, header, eq-of_str_eq _ _ root, eq-of_== _ _ time, kept))
                ]
          ]
  ]

module _ (verify : String → Result ReceiptVerdict) (db : Database) where
  module _ (entry : ReceiptEntry) (d : DecodedReceipt) (now : ℕ) where
    abbrev pub Decided : Database × Outcome → Type 0
    Decided r =
        ((r.0 ≡ db) × (r.1 ≢ imported)) ⊎ ((r.1 ≡ imported) × Accepted verify db entry d now r.0)

    unmoved :
        (r : Database × Outcome) (outcome : Outcome)
        → outcome ≢ imported
        → r ≡ (db, outcome)
        → Decided r
    unmoved r outcome other e = subst Decided (sym e) (inl (refl, other))

    pub import_one-Decided : Decided (import_one verify db entry d now)
    unfolding import_one
    import_one-Decided = elim (Bool-cases (is_misfiled entry.key d.tx.txid)) [
      | inl other ↦
          let e : import_one verify db entry d now ≡ (db, rejected) = rw (import_one, other) refl in
          unmoved _ rejected (λ same. cc) e
      | inr filed ↦ elim (Result-cases (verify entry.hex)) [
        | inl failing ↦
            let e : import_one verify db entry d now ≡ (db, rejected) =
              rw (import_one, filed, failing) refl in
            unmoved _ rejected (λ same. cc) e
        | inr (verdict, answer) ↦ elim (Bool-cases (authenticates verdict d.summary)) [
          | inr refused ↦
              let e : import_one verify db entry d now ≡ (db, rejected) =
                rw (import_one, filed, answer, refused) refl in
              unmoved _ rejected (λ same. cc) e
          | inl agreed ↦ elim (Option-cases (canonical_block_at db d.height)) [
            | inl absent ↦
                let e : import_one verify db entry d now ≡ (db, no_header) =
                  rw (import_one, filed, answer, agreed, absent) refl in
                unmoved _ no_header (λ same. cc) e
            | inr (block, found) ↦
                let e : import_one verify db entry d now ≡ complete_block db block d now =
                  rw (import_one, filed, answer, agreed, found) refl in
                subst Decided (sym e) (elim (complete_block-Written db block d now) [
                  | inl (same, other) ↦ inl (same, other)
                  | inr (taken, header, root, time, write) ↦ inr (
                    taken,
                    record {
                      filed = filed-of entry.key d.tx.txid filed;
                      verdict = verdict;
                      answer = answer;
                      authentic = authenticates-Authentic verdict d.summary agreed;
                      block = block;
                      on_record = found;
                      without_body = header;
                      same_root = root;
                      same_time = time;
                      write = write;
                    },
                  )
                ])
          ]
        ]
      ]
    ]

    -- A receipt is imported only if it is filed under its own txid, the node found its Merkle proof
    -- valid, its block canonical and its data the same, and a header-only block with its `tx_root`
    -- and time is on record; the database afterwards is that of the write to this block.
    pub import_one-Accepted :
        (after : Database)
        → import_one verify db entry d now ≡ (after, imported)
        → Accepted verify db entry d now after
    import_one-Accepted after e = elim import_one-Decided [
      | inl (same, other) ↦ absurd (other (ap (λ (r : Database × Outcome). r.1) e))
      | inr (taken, accepted) ↦
          subst (Accepted verify db entry d now) (ap (λ (r : Database × Outcome). r.0) e) accepted
    ]

    -- A receipt that is not imported leaves the database as it was, whatever the outcome.
    pub import_one-unchanged :
        (import_one verify db entry d now).1 ≢ imported → (import_one verify db entry d now).0 ≡ db
    import_one-unchanged other = elim import_one-Decided [
      | inl (same, _) ↦ same
      | inr (taken, accepted) ↦ absurd (other taken)
    ]

-- ===== src/Receipts/History.antt =====
-- permanode/src/receipts.rs, `import_receipts`: what a run leaves of the archive, and its report.
use gb_parano1d_permanode.Prelude.{
  ℕ, suc, ◌≡◌, refl, ap, ◌∙◌, String, List, [], ◌∷◌, map, any, retain, Bool-cases, inl, inr,
}
use gb_parano1d_permanode.Prelude.Result.{Result, Result-cases}
use gb_parano1d_permanode.Store.Rows.{Database}
use gb_parano1d_permanode.Store.Frame.{SameIndex, SameIndex-refl, SameIndex-trans}
use gb_parano1d_permanode.Store.Receipts.{is_recorded, write_receipt, ReceiptTransaction}
use gb_parano1d_permanode.Receipts.Decode.{ReceiptVerdict, ReceiptFormat, decode_receipt}
use gb_parano1d_permanode.Receipts.Import.{
  ReceiptEntry, EntryResult, same_entry, import_entry, import_receipts,
}
use gb_parano1d_permanode.Receipts.Grows.{Grows, stays, writes, write_receipt-SameIndex}
use gb_parano1d_permanode.Receipts.Again.{import_entry-Grows}

-- The recorded history: the canonical chain, the transactions from block bodies, the raw blocks and
-- the gaps.
pub record SameHistory (db db' : Database) : Type 0 where
  pub index : SameIndex db db'
  pub recorded : retain is_recorded db'.transactions ≡ retain is_recorded db.transactions
  pub raw : db'.raw_blocks ≡ db.raw_blocks
  pub gaps : db'.ingest_gaps ≡ db.ingest_gaps
  pub state : db'.indexer_state ≡ db.indexer_state

SameHistory-refl : (db : Database) → SameHistory db db
SameHistory-refl db = record {
  index = SameIndex-refl db;
  recorded = refl;
  raw = refl;
  gaps = refl;
  state = refl;
}

SameHistory-trans : (a b c : Database) → SameHistory a b → SameHistory b c → SameHistory a c
SameHistory-trans a b c p q = record {
  index = SameIndex-trans a b c p.index q.index;
  recorded = q.recorded ∙ p.recorded;
  raw = q.raw ∙ p.raw;
  gaps = q.gaps ∙ p.gaps;
  state = q.state ∙ p.state;
}

write_receipt-SameHistory :
    (db : Database) (block : ℕ) (tx : ReceiptTransaction) (now : ℕ)
    → SameHistory db (write_receipt db block tx now)
unfolding write_receipt
write_receipt-SameHistory db block tx now = record {
  index = write_receipt-SameIndex db block tx now;
  recorded = refl;
  raw = refl;
  gaps = refl;
  state = refl;
}

Grows-SameHistory : (db db' : Database) → Grows db db' → SameHistory db db'
Grows-SameHistory db _ stays = SameHistory-refl db
Grows-SameHistory db _ (writes block tx now can) = write_receipt-SameHistory db block tx now

module _ (verify : String → Result ReceiptVerdict) (format : ReceiptFormat) where
  import_entry-entry :
      (db : Database) (entry : ReceiptEntry) (now : ℕ)
      → (import_entry verify format db entry now).1.entry ≡ entry
  unfolding import_entry
  import_entry-entry db entry now = elim (Result-cases (decode_receipt format entry.hex)) [
    | inl bad ↦ rw (import_entry, bad) refl
    | inr (d, decoded) ↦ rw (import_entry, decoded) refl
  ]

  pub import_receipts-SameHistory :
      (db : Database) (seen entries : List ReceiptEntry) (now : ℕ)
      → SameHistory db (import_receipts verify format db seen entries now).0
        × (map (λ (r : EntryResult). r.entry) (import_receipts verify format db seen entries now).1
            ≡ entries)
  unfolding import_receipts
  import_receipts-SameHistory db seen [] now = (SameHistory-refl db, refl)
  import_receipts-SameHistory db seen (entry ∷ entries) now =
      elim (Bool-cases (any (same_entry entry) seen)) [
        | inl met ↦
            let (kept, report) = import_receipts-SameHistory db seen entries (suc now) in
            (
              rw (import_receipts, met) kept,
              rw (import_receipts, met) (ap (λ (l : List ReceiptEntry). entry ∷ l) report),
            )
        | inr new ↦
            let next = (import_entry verify format db entry now).0 in
            let (kept, report) =
              import_receipts-SameHistory next (entry ∷ seen) entries (suc now) in
            let first = Grows-SameHistory db next (import_entry-Grows verify format db entry now) in
            (
              rw (import_receipts, new) (SameHistory-trans db next _ first kept),
              rw (import_receipts, new) (λ i. import_entry-entry db entry now i ∷ report i),
            )
      ]

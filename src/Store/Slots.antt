-- ===== src/Store/Slots.antt =====
-- core/src/db.rs: the outputs of one segment of the node's state, as the sweep of the live state
-- reads and marks them. A `rowid` is the primary key of its row, the transaction and the index.
use gb_parano1d_permanode.Prelude.{
  ℕ, Bool, true, false, ◌&&◌, not, Option, none, some, String, List, [], ◌∷◌, ◌==◌, leb, ltb, any,
  retain, length, map,
}
use gb_parano1d_permanode.Prelude.Result.{Result, ok, ◌>>=◌, require}
use gb_parano1d_permanode.Store.Rows.{
  BlockRow, TransactionRow, InputRow, OutputRow, Database, update_where,
}
use gb_parano1d_permanode.Store.Blocks.{canonical_block_filter, has_id}
use gb_parano1d_permanode.Store.Receipts.{is_recorded}
use gb_parano1d_permanode.Store.Live.{is_of_canonical}

-- The joins with a recorded transaction and its canonical block at or below a height.
abbrev pub is_of_canonical_below : Database → ℕ → ℕ → Bool
is_of_canonical_below db height tx =
    any
      (λ (t : TransactionRow).
        (t.id == tx)
        && is_recorded t
        && any (λ (b : BlockRow). has_id t.block_id b && leb b.height height) db.blocks
        && canonical_block_filter db t.block_id)
      db.transactions

-- An output without a creation id, which is NULL, is not spent by any input.
abbrev pub not_spent_by_recorded_input : Database → ℕ → Option ℕ → Bool
not_spent_by_recorded_input db height none = true
not_spent_by_recorded_input db height (some cid) = not (
    any (λ (i : InputRow). (i.creation_id == cid) && is_of_canonical_below db height i.tx_id)
      db.tx_inputs)

abbrev pub is_in_slots : ℕ → ℕ → OutputRow → Bool
is_in_slots start end o = leb start o.slot_index && ltb o.slot_index end

-- The `WHERE` of `unspent_recorded_outputs`.
unfoldable pub is_unspent_recorded : Database → ℕ → ℕ → ℕ → OutputRow → Bool
is_unspent_recorded db max_height start end o =
    not o.spent_in_gap
    && is_in_slots start end o
    && is_of_canonical_below db max_height o.tx_id
    && not_spent_by_recorded_input db max_height o.creation_id

-- A `rowid` and the creation id beside it.
pub record Candidate : Type 0 where
  pub tx_id : ℕ
  pub idx : ℕ
  pub creation_id : ℕ

-- `row.get::<_, String>(1)?` fails on NULL.
unfoldable pub read_candidates : List OutputRow → Result (List Candidate)
read_candidates [] = ok []
read_candidates (o ∷ os) = require o.creation_id >>= (λ cid.
    read_candidates os
    >>= (λ rest. ok (record { tx_id = o.tx_id; idx = o.idx; creation_id = cid } ∷ rest)))

abbrev pub unspent_recorded_outputs : Database → ℕ → ℕ → ℕ → Result (List Candidate)
unspent_recorded_outputs db max_height start end =
    read_candidates (retain (is_unspent_recorded db max_height start end) db.tx_outputs)

abbrev pub recorded_creation_ids : Database → ℕ → ℕ → Result (List ℕ)
recorded_creation_ids db start end =
    read_candidates (
      retain (λ (o : OutputRow). is_in_slots start end o && is_of_canonical db o.tx_id)
        db.tx_outputs)
    >>= (λ found. ok (map (λ (c : Candidate). c.creation_id) found))

abbrev pub is_row : Candidate → OutputRow → Bool
is_row c o = (o.tx_id == c.tx_id) && (o.idx == c.idx)

-- `live.contains(cid)`
abbrev pub contains_id : List ℕ → ℕ → Bool
contains_id ids cid = any (λ id. id == cid) ids

-- A row whose transaction came with a receipt.
abbrev of_receipt : Database → OutputRow → Bool
of_receipt db o =
    any (λ (t : TransactionRow). (t.id == o.tx_id) && not (is_recorded t)) db.transactions

unfoldable pub unmark_rows : List Candidate → List OutputRow → List OutputRow
unmark_rows [] os = os
unmark_rows (c ∷ cs) os =
    unmark_rows cs
      (update_where (is_row c) (λ o. record o { spent_in_gap = false; spent_in_gap_at = none }) os)

-- The database afterwards, and how many marks were taken back.
unfoldable pub unmark_live_outputs : Database → ℕ → ℕ → List ℕ → Result (Database × ℕ)
unmark_live_outputs db start end live =
    read_candidates (
      retain (λ (o : OutputRow). o.spent_in_gap && is_in_slots start end o && not (of_receipt db o))
        db.tx_outputs)
    >>= (λ flagged.
        let back = retain (λ (c : Candidate). contains_id live c.creation_id) flagged in
        ok (record db { tx_outputs = unmark_rows back db.tx_outputs }, length back))

unfoldable pub mark_rows : List Candidate → ℕ → List OutputRow → List OutputRow
mark_rows [] now os = os
mark_rows (c ∷ cs) now os =
    mark_rows cs now (
      update_where (is_row c) (λ o. record o { spent_in_gap = true; spent_in_gap_at = some now })
        os)

unfoldable pub mark_spent_in_gap : Database → List Candidate → ℕ → Database
mark_spent_in_gap db rows now = record db { tx_outputs = mark_rows rows now db.tx_outputs }

pub record StateSlot : Type 0 where
  pub slot_index : ℕ
  pub creation_id : ℕ
  pub owner : String
  pub amount_micronoid : ℕ

-- A row of `state_slots`.
pub record StateSlotRow : Type 0 where
  pub segment : ℕ
  pub slot : StateSlot
  pub seen_height : ℕ
  pub seen_at : ℕ

-- `INSERT OR REPLACE`, one slot after another.
abbrev insert_slots : List StateSlotRow → ℕ → List StateSlot → ℕ → ℕ → List StateSlotRow
insert_slots rows segment [] height now = rows
insert_slots rows segment (s ∷ slots) height now =
    let others = retain (λ (r : StateSlotRow). not (r.slot.slot_index == s.slot_index)) rows in
    let row : StateSlotRow = record {
      segment = segment;
      slot = s;
      seen_height = height;
      seen_at = now;
    } in
    insert_slots (row ∷ others) segment slots height now

unfoldable pub replace_state_slots :
    List StateSlotRow → ℕ → List StateSlot → ℕ → ℕ → List StateSlotRow
replace_state_slots rows segment slots height now =
    insert_slots (retain (λ (r : StateSlotRow). not (r.segment == segment)) rows) segment slots
      height now
